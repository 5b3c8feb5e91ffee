-- ===== src/Conflict/AncestorTracker/Recent.antt =====
-- The eviction of plugin/src/conflict/AncestorTracker.ts drops the least recently used texts.
use obsidian_remote_ssh.Prelude.{
  ℕ, ◌-◌, ◌*◌, ◌/◌, ◌≤◌, List, [], ◌∷◌, true, if◌then◌else◌, leb, Str, str_eq, ◌==◌, ==_iff, All,
  none, some, ◌≡◌, refl, arith, Bool-cases, inl, inr, ◌∙◌, sym,
}
use obsidian_remote_ssh.JsMap
use obsidian_remote_ssh.JsMap.{IsDistinct}
use obsidian_remote_ssh.JsMap.Laws.{get-delete, get-tail, delete-IsDistinct}
use obsidian_remote_ssh.Conflict.AncestorTracker.{
  Snapshot, AncestorTracker, insert_by_access, sort_by_access, evict_from, evict,
}

abbrev Entries : Type 0
Entries = List (Str × Snapshot)

abbrev NotBefore : ℕ → Entries → Type 0
NotBefore n = All (λ (e : Str × Snapshot). n ≤ e.1.last_accessed)

abbrev IsSorted : Entries → Type 0
IsSorted [] = Unit
IsSorted (e ∷ es) = NotBefore e.1.last_accessed es × IsSorted es

NotBefore-mono : (m n : ℕ) (es : Entries) → m ≤ n → NotBefore n es → NotBefore m es
NotBefore-mono m n [] h k = tt
NotBefore-mono m n (e ∷ es) h k = let here = k.0 in (omega arith, NotBefore-mono m n es h k.1)

insert_by_access-NotBefore :
    (n : ℕ) (e : Str × Snapshot) (es : Entries)
    → n ≤ e.1.last_accessed
    → NotBefore n es
    → NotBefore n (insert_by_access e es)
unfolding insert_by_access
insert_by_access-NotBefore n e [] h k = (h, tt)
insert_by_access-NotBefore n e (f ∷ es) h k =
    elim (Bool-cases (leb e.1.last_accessed f.1.last_accessed)) [
      | inl le ↦ rw le (h, k)
      | inr gt ↦ rw gt (k.0, insert_by_access-NotBefore n e es h k.1)
    ]

insert_by_access-IsSorted :
    (e : Str × Snapshot) (es : Entries) → IsSorted es → IsSorted (insert_by_access e es)
unfolding insert_by_access
insert_by_access-IsSorted e [] h = (tt, tt)
insert_by_access-IsSorted e (f ∷ es) h =
    elim (Bool-cases (leb e.1.last_accessed f.1.last_accessed)) [
      | inl le ↦
          let first : e.1.last_accessed ≤ f.1.last_accessed = ground arith in
          rw le ((first, NotBefore-mono _ _ es first h.0), h)
      | inr gt ↦
          let last : f.1.last_accessed ≤ e.1.last_accessed = ground arith in
          rw gt (
            insert_by_access-NotBefore f.1.last_accessed e es last h.0,
            insert_by_access-IsSorted e es h.1,
          )
    ]

sort_by_access-IsSorted : (es : Entries) → IsSorted (sort_by_access es)
unfolding sort_by_access
sort_by_access-IsSorted [] = tt
sort_by_access-IsSorted (e ∷ es) =
    insert_by_access-IsSorted e (sort_by_access es) (sort_by_access-IsSorted es)

get-insert_by_access :
    (q : Str) (e : Str × Snapshot) (es : Entries)
    → JsMap.get e.0 es ≡ none
    → JsMap.get q (insert_by_access e es) ≡ (if e.0 == q then some e.1 else JsMap.get q es)
unfolding JsMap.get insert_by_access
get-insert_by_access q e [] h = refl
get-insert_by_access q e (f ∷ es) h = elim (Bool-cases (leb e.1.last_accessed f.1.last_accessed)) [
  | inl le ↦ rw le refl
  | inr gt ↦
      rw gt
        (ground (arith, get-insert_by_access q e es, ==_iff e.0 q, ==_iff f.0 q, ==_iff f.0 e.0))
]

-- Sorting moves the entries and loses none.
pub get-sort_by_access :
    (q : Str) (es : Entries) → IsDistinct es → JsMap.get q (sort_by_access es) ≡ JsMap.get q es
unfolding JsMap.get sort_by_access
get-sort_by_access q [] d = refl
get-sort_by_access q ((k, v) ∷ es) d =
    let absent = get-sort_by_access k es d.1 ∙ d.0 in
    get-insert_by_access q (k, v) (sort_by_access es) absent
    ∙ ground (arith, get-sort_by_access q es d.1)

-- What an eviction leaves, it has left alone.
pub get-evict_from :
    (target : ℕ) (l : Entries) (t : AncestorTracker) (q : Str) (a : Snapshot)
    → IsDistinct t.entries
    → JsMap.get q (evict_from target l t).entries ≡ some a
    → JsMap.get q t.entries ≡ some a
unfolding evict_from
get-evict_from target [] t q a d h = h
get-evict_from target ((p, e) ∷ l) t q a d h =
    let t' : AncestorTracker = record t {
      entries = JsMap.delete p t.entries;
      total_bytes = t.total_bytes - e.size_bytes;
    } in
    elim (Bool-cases (leb t.total_bytes target)) [
      | inl stop ↦ rw stop at h
      | inr go_on ↦
          let rest =
            get-evict_from target l t' q a (delete-IsDistinct p t.entries d) (rw go_on at h) in
          ground (arith, rest, get-delete p q t.entries d)
    ]

get-NotBefore :
    (n : ℕ) (l : Entries) (q : Str) (a : Snapshot)
    → NotBefore n l
    → JsMap.get q l ≡ some a
    → n ≤ a.last_accessed
unfolding JsMap.get
get-NotBefore n [] q a h e = ground arith
get-NotBefore n ((p, v) ∷ l) q a h e = let here = h.0 in ground (arith, get-NotBefore n l q a h.1)

found_head :
    (p r : Str) (e : Snapshot) (l : Entries) → (p == r) ≡ true → JsMap.get r ((p, e) ∷ l) ≡ some e
unfolding JsMap.get
found_head p r e l h = rw h refl

evict_from-recent :
    (target : ℕ) (l : Entries) (t : AncestorTracker) (q r : Str) (a b : Snapshot)
    → IsSorted l
    → IsDistinct t.entries
    → ((k : Str) → JsMap.get k l ≡ JsMap.get k t.entries)
    → IsDistinct l
    → JsMap.get q (evict_from target l t).entries ≡ some a
    → JsMap.get r t.entries ≡ some b
    → JsMap.get r (evict_from target l t).entries ≡ none
    → b.last_accessed ≤ a.last_accessed
unfolding evict_from
evict_from-recent target [] t q r a b s d m dl kept here gone = ground arith
evict_from-recent target ((p, e) ∷ l) t q r a b s d m dl kept here gone =
    let t' : AncestorTracker = record t {
      entries = JsMap.delete p t.entries;
      total_bytes = t.total_bytes - e.size_bytes;
    } in
    elim (Bool-cases (leb t.total_bytes target)) [
      | inl stop ↦ let gone' : JsMap.get r t.entries ≡ none = rw stop at gone in ground arith
      | inr go_on ↦
          let kept' : JsMap.get q (evict_from target l t').entries ≡ some a = rw go_on at kept in
          let gone' : JsMap.get r (evict_from target l t').entries ≡ none = rw go_on at gone in
          let d' = delete-IsDistinct p t.entries d in
          let in_t' = get-evict_from target l t' q a d' kept' in
          let m' : (k : Str) → JsMap.get k l ≡ JsMap.get k t'.entries =
            λ k. get-tail p k e l t.entries dl d (m k) in
          elim (Bool-cases (p == r)) [
            | inl same ↦
                let q_later = get-NotBefore e.last_accessed l q a s.0 (m' q ∙ in_t') in
                let b_is : some b ≡ some e = sym here ∙ sym (m r) ∙ found_head p r e l same in
                ground arith
            | inr other ↦
                let here' : JsMap.get r t'.entries ≡ some b =
                  ground (arith, get-delete p r t.entries d) in
                evict_from-recent target l t' q r a b s.1 d' m' dl.1 kept' here' gone'
          ]
    ]

insert_by_access-IsDistinct :
    (e : Str × Snapshot) (es : Entries)
    → IsDistinct es
    → JsMap.get e.0 es ≡ none
    → IsDistinct (insert_by_access e es)
unfolding insert_by_access JsMap.get
insert_by_access-IsDistinct e [] d h = (refl, tt)
insert_by_access-IsDistinct e (f ∷ es) d h =
    elim (Bool-cases (leb e.1.last_accessed f.1.last_accessed)) [
      | inl le ↦ rw le (h, d)
      | inr gt ↦ rw gt (
        ground (arith, get-insert_by_access f.0 e es, d.0, ==_iff e.0 f.0, ==_iff f.0 e.0),
        insert_by_access-IsDistinct e es d.1 (ground (arith, ==_iff f.0 e.0)),
      )
    ]

pub sort_by_access-IsDistinct : (es : Entries) → IsDistinct es → IsDistinct (sort_by_access es)
unfolding sort_by_access
sort_by_access-IsDistinct [] d = tt
sort_by_access-IsDistinct ((k, v) ∷ es) d =
    insert_by_access-IsDistinct (k, v) (sort_by_access es) (sort_by_access-IsDistinct es d.1)
      (get-sort_by_access k es d.1 ∙ d.0)

-- On a tracker where each path stands once, an eviction is by least recent access: what it drops
-- was not accessed later than anything that it leaves.
pub evict_recent :
    (t : AncestorTracker) (q r : Str) (a b : Snapshot)
    → IsDistinct t.entries
    → JsMap.get q (evict t).entries ≡ some a
    → JsMap.get r t.entries ≡ some b
    → JsMap.get r (evict t).entries ≡ none
    → b.last_accessed ≤ a.last_accessed
unfolding evict
evict_recent t q r a b d kept here gone =
    let target = t.max_bytes * 9 / 10 in
    elim (Bool-cases (leb t.total_bytes target)) [
      | inl small ↦ let gone' : JsMap.get r t.entries ≡ none = rw small at gone in ground arith
      | inr large ↦
          evict_from-recent target (sort_by_access t.entries) t q r a b
            (sort_by_access-IsSorted t.entries) d (λ k. get-sort_by_access k t.entries d)
            (sort_by_access-IsDistinct t.entries d) (rw large at kept) here (rw large at gone)
    ]
