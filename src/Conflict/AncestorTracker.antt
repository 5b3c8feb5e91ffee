-- ===== src/Conflict/AncestorTracker.antt =====
-- plugin/src/conflict/AncestorTracker.ts: the texts that were last read, dropped by least recent
-- access. The tick counter of the module stands in the state, and 0.9 is exact.
pub mod Books
pub mod Calls
pub mod Recent
use obsidian_remote_ssh.Prelude.{
  ℕ, suc, ◌+◌, ◌-◌, ◌*◌, ◌/◌, List, [], ◌∷◌, Bool, true, false, ◌&&◌, if◌then◌else◌, ltb, leb, Str,
  str_eq, Option, none, some, length,
}
use obsidian_remote_ssh.JsMap

pub record AncestorEntry : Type 0 where
  pub content : Str
  pub mtime : ℕ

-- An entry of the map.
pub record Snapshot : Type 0 where
  pub content : Str
  pub mtime : ℕ
  pub size_bytes : ℕ
  pub last_accessed : ℕ

pub record AncestorTracker : Type 0 where
  pub entries : List (Str × Snapshot)
  pub total_bytes : ℕ
  pub max_bytes : ℕ
  pub tick_counter : ℕ

pub record TrackerStats : Type 0 where
  pub entries : ℕ
  pub bytes : ℕ
  pub max_bytes : ℕ

abbrev pub default_max_bytes : ℕ
default_max_bytes = 64 * 1024 * 1024

-- `new AncestorTracker(maxBytes)`, with what the module has counted to.
unfoldable pub init : Option ℕ → ℕ → AncestorTracker
init max_bytes ticks = record {
  entries = [];
  total_bytes = 0;
  max_bytes = elim max_bytes [ none ↦ default_max_bytes | some n ↦ n ];
  tick_counter = ticks;
}

-- A high surrogate takes the code unit behind it along.
unfoldable pub byte_length : Str → ℕ
byte_length [] = 0
byte_length (code ∷ []) =
    if ltb code 0x80
    then 1
    else if ltb code 0x800
    then 2
    else if leb 0xd800 code && leb code 0xdbff
    then 4
    else 3
byte_length (code ∷ next ∷ s) =
    let one_on = byte_length (next ∷ s) in
    let two_on = byte_length s in
    if ltb code 0x80
    then 1 + one_on
    else if ltb code 0x800
    then 2 + one_on
    else if leb 0xd800 code && leb code 0xdbff
    then 4 + two_on
    else 3 + one_on

-- `sort` by `lastAccessed`, by insertion.
unfoldable pub insert_by_access : Str × Snapshot → List (Str × Snapshot) → List (Str × Snapshot)
insert_by_access e [] = e ∷ []
insert_by_access e (f ∷ fs) =
    if leb e.1.last_accessed f.1.last_accessed then e ∷ f ∷ fs else f ∷ insert_by_access e fs

unfoldable pub sort_by_access : List (Str × Snapshot) → List (Str × Snapshot)
unfolding insert_by_access
sort_by_access [] = []
sort_by_access (e ∷ es) = insert_by_access e (sort_by_access es)

-- The loop of `evict`.
unfoldable pub evict_from : ℕ → List (Str × Snapshot) → AncestorTracker → AncestorTracker
evict_from target [] t = t
evict_from target ((path, entry) ∷ rest) t =
    let next = evict_from target rest (record t {
      entries = JsMap.delete path t.entries;
      total_bytes = t.total_bytes - entry.size_bytes;
    }) in
    if leb t.total_bytes target then t else next

unfoldable pub evict : AncestorTracker → AncestorTracker
unfolding evict_from sort_by_access
evict t =
    let target = t.max_bytes * 9 / 10 in
    if leb t.total_bytes target then t else evict_from target (sort_by_access t.entries) t

-- `remember` up to the eviction.
unfoldable pub record_snapshot : Str → Str → ℕ → AncestorTracker → AncestorTracker
unfolding byte_length
record_snapshot path content mtime t =
    let size_bytes = byte_length content in
    let rest : ℕ = elim (JsMap.get path t.entries) [
      | none ↦ t.total_bytes
      | some existing ↦ t.total_bytes - existing.size_bytes
    ] in
    record t {
      entries =
          JsMap.set path
            (record {
              content = content;
              mtime = mtime;
              size_bytes = size_bytes;
              last_accessed = t.tick_counter + 1;
            })
            t.entries;
      total_bytes = rest + size_bytes;
      tick_counter = t.tick_counter + 1;
    }

unfoldable pub remember : Str → Str → ℕ → AncestorTracker → AncestorTracker
unfolding record_snapshot evict
remember path content mtime t =
    let t' = record_snapshot path content mtime t in
    if ltb t'.max_bytes t'.total_bytes then evict t' else t'

unfoldable pub get : Str → AncestorTracker → AncestorTracker × Option AncestorEntry
get path t = elim (JsMap.get path t.entries) [
  | none ↦ (t, none)
  | some e ↦ (
    record t {
      entries = JsMap.set path (record e { last_accessed = t.tick_counter + 1 }) t.entries;
      tick_counter = t.tick_counter + 1;
    },
    some (record { content = e.content; mtime = e.mtime }),
  )
]

unfoldable pub invalidate : Str → AncestorTracker → AncestorTracker
invalidate path t = elim (JsMap.get path t.entries) [
  | none ↦ t
  | some e ↦ record t {
    entries = JsMap.delete path t.entries;
    total_bytes = t.total_bytes - e.size_bytes;
  }
]

unfoldable pub clear : AncestorTracker → AncestorTracker
clear t = record t { entries = []; total_bytes = 0 }

unfoldable pub stats : AncestorTracker → TrackerStats
stats t = record { entries = length t.entries; bytes = t.total_bytes; max_bytes = t.max_bytes }
