-- ===== src/Cache/ReadCache.antt =====
-- plugin/src/cache/ReadCache.ts: file contents with least-recently-used eviction by bytes.
-- `bytes -= n` is truncated at 0 here; on the states that the class reaches it never is, since
-- `bytes` is the sum of the sizes.
pub mod Calls
pub mod Laws
pub mod Prefix
pub mod Order
pub mod Reach
use obsidian_remote_ssh.Prelude.{
  ℕ, ◌+◌, ◌-◌, ◌*◌, List, [], ◌∷◌, ◌++◌, Bool, true, false, if◌then◌else◌, ltb, leb, Str, str_eq,
  Option, none, some, length, ◌≡◌, ◌≤◌, All,
}
use obsidian_remote_ssh.JsMap
use obsidian_remote_ssh.JsMap.{IsDistinct, weight, keys}
use obsidian_remote_ssh.Cache.{covers}

pub record ReadCacheEntry : Type 0 where
  -- The bytes of the file (`data`).
  pub content : List ℕ
  pub mtime : ℕ
  pub byte_size : ℕ

pub record ReadCache : Type 0 where
  pub map : List (Str × ReadCacheEntry)
  pub bytes : ℕ
  pub hits : ℕ
  pub misses : ℕ
  pub evictions : ℕ
  pub max_bytes : ℕ

pub record ReadCacheStats : Type 0 where
  pub entries : ℕ
  pub bytes : ℕ
  pub hits : ℕ
  pub misses : ℕ
  pub evictions : ℕ

-- `new ReadCache({ maxBytes })`
unfoldable pub init : Option ℕ → ReadCache
init max_bytes = record {
  map = [];
  bytes = 0;
  hits = 0;
  misses = 0;
  evictions = 0;
  max_bytes = elim max_bytes [ none ↦ 64 * 1024 * 1024 | some n ↦ n ];
}

unfoldable pub get : ReadCache → Str → ReadCache × Option ReadCacheEntry
get c path = elim (JsMap.get path c.map) [
  | none ↦ (record c { misses = c.misses + 1 }, none)
  | some entry ↦ (
    record c { map = JsMap.set path entry (JsMap.delete path c.map); hits = c.hits + 1 },
    some entry,
  )
]

unfoldable pub peek : ReadCache → Str → Option ReadCacheEntry
peek c path = JsMap.get path c.map

unfoldable pub has : ReadCache → Str → Bool
has c path = elim (JsMap.get path c.map) [ none ↦ false | some _ ↦ true ]

-- The `while` loop of `evictIfOverBudget`, over the entries that the iterator has left.
unfoldable pub evict_from : List (Str × ReadCacheEntry) → ReadCache → ReadCache
evict_from [] c = c
evict_from ((path, entry) ∷ rest) c =
    let next = evict_from rest (record c {
      bytes = c.bytes - entry.byte_size;
      map = JsMap.delete path c.map;
      evictions = c.evictions + 1;
    }) in
    if ltb c.max_bytes c.bytes then next else c

unfoldable pub evict_if_over_budget : ReadCache → ReadCache
unfolding evict_from
evict_if_over_budget c = if leb c.bytes c.max_bytes then c else evict_from c.map c

-- The `if (existing)` of `put` and the whole of `invalidate`.
unfoldable pub invalidate : ReadCache → Str → ReadCache
invalidate c path = elim (JsMap.get path c.map) [
  | none ↦ c
  | some existing ↦ record c { bytes = c.bytes - existing.byte_size; map = JsMap.delete path c.map }
]

abbrev pub entry_of : List ℕ → ℕ → ReadCacheEntry
entry_of content mtime = record { content = content; mtime = mtime; byte_size = length content }

-- `put` up to the eviction.
unfoldable pub store : ReadCache → Str → List ℕ → ℕ → ReadCache
unfolding invalidate
store c path content mtime =
    let c' = invalidate c path in
    record c' {
      map = JsMap.set path (entry_of content mtime) c'.map;
      bytes = c'.bytes + length content;
    }

unfoldable pub put : ReadCache → Str → List ℕ → ℕ → ReadCache
unfolding store evict_if_over_budget
put c path content mtime = evict_if_over_budget (store c path content mtime)

-- The loop of `invalidatePrefix` over the keys that the iterator has left, with `removed`.
unfoldable pub invalidate_keys : Str → List Str → ReadCache → ℕ → ReadCache × ℕ
invalidate_keys prefix [] c removed = (c, removed)
invalidate_keys prefix (path ∷ ks) c removed = elim (covers prefix path) [
  | false ↦ invalidate_keys prefix ks c removed
  | true ↦ elim (JsMap.get path c.map) [
    -- `this.map.get(path)!` on a key that the iterator has just given.
    | none ↦ invalidate_keys prefix ks c removed
    | some e ↦
        invalidate_keys prefix ks
          (record c { bytes = c.bytes - e.byte_size; map = JsMap.delete path c.map }) (removed + 1)
  ]
]

unfoldable pub invalidate_prefix : ReadCache → Str → ReadCache × ℕ
unfolding invalidate_keys
invalidate_prefix c prefix = invalidate_keys prefix (keys c.map) c 0

unfoldable pub clear : ReadCache → ReadCache
clear c = record c { map = []; bytes = 0 }

unfoldable pub stats : ReadCache → ReadCacheStats
stats c = record {
  entries = length c.map;
  bytes = c.bytes;
  hits = c.hits;
  misses = c.misses;
  evictions = c.evictions;
}
