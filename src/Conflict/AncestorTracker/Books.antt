-- ===== src/Conflict/AncestorTracker/Books.antt =====
-- The accounting of plugin/src/conflict/AncestorTracker.ts.
use obsidian_remote_ssh.Prelude.{
  ℕ, ◌+◌, ◌-◌, ◌*◌, ◌/◌, ◌≤◌, List, [], ◌∷◌, leb, ltb, Str, str_eq, ==_iff, some, ◌≡◌, refl, arith,
  Bool-cases, Option-cases, inl, inr, ◌∙◌, sym, ap,
}
use obsidian_remote_ssh.JsMap
use obsidian_remote_ssh.JsMap.{IsDistinct, weight}
use obsidian_remote_ssh.JsMap.Laws.{
  get-tail, delete-IsDistinct, set-IsDistinct, weight-delete, weight-set, weight-set_absent,
  eq-nil_of_get,
}
use obsidian_remote_ssh.Conflict.AncestorTracker
use obsidian_remote_ssh.Conflict.AncestorTracker.{
  Snapshot, AncestorTracker, sort_by_access, evict_from, evict, record_snapshot, remember,
  invalidate, clear, byte_length,
}
use obsidian_remote_ssh.Conflict.AncestorTracker.Recent.{
  get-sort_by_access, sort_by_access-IsDistinct,
}

abbrev pub size : Snapshot → ℕ
size e = e.size_bytes

-- A path stands once, and `totalBytes` is the sum of the sizes.
pub record IsCounted (t : AncestorTracker) : Type 0 where
  pub distinct : IsDistinct t.entries
  pub counted : t.total_bytes ≡ weight size t.entries

pub record IsValid (t : AncestorTracker) : Type 0 where
  pub books : IsCounted t
  pub within : t.total_bytes ≤ t.max_bytes

-- After an eviction the books are right, and what is left fits the target.
record Evicted (target : ℕ) (t out : AncestorTracker) : Type 0 where
  books : IsCounted out
  fits : out.total_bytes ≤ target
  limit : out.max_bytes ≡ t.max_bytes

evict_from-Evicted :
    (target : ℕ) (l : List (Str × Snapshot)) (t : AncestorTracker)
    → IsDistinct l
    → IsCounted t
    → ((k : Str) → JsMap.get k l ≡ JsMap.get k t.entries)
    → Evicted target t (evict_from target l t)
unfolding evict_from
evict_from-Evicted target [] t dl h m =
    let empty : t.entries ≡ [] =
      eq-nil_of_get t.entries (λ k. sym (m k) ∙ unfold JsMap.get in refl) in
    record { books = h; fits = omega (arith, h.counted ∙ ap (weight size) empty); limit = refl }
evict_from-Evicted target ((p, e) ∷ l) t dl h m =
    let t' : AncestorTracker = record t {
      entries = JsMap.delete p t.entries;
      total_bytes = t.total_bytes - e.size_bytes;
    } in
    elim (Bool-cases (leb t.total_bytes target)) [
      | inl stop ↦ rw stop (record { books = h; fits = ground arith; limit = refl })
      | inr go_on ↦
          let found : JsMap.get p t.entries ≡ some e = sym (m p) ∙ head p e l in
          let books' : IsCounted t' = record {
            distinct = delete-IsDistinct p t.entries h.distinct;
            counted = omega (arith, h.counted, weight-delete size p e t.entries found);
          } in
          let rest =
            evict_from-Evicted target l t' dl.1 books'
              (λ k. get-tail p k e l t.entries dl h.distinct (m k)) in
          rw go_on (record { books = rest.books; fits = rest.fits; limit = rest.limit })
    ]
  where
    head :
        (k : Str) (v : Snapshot) (es : List (Str × Snapshot)) → JsMap.get k ((k, v) ∷ es) ≡ some v
    head k v es = unfold JsMap.get in ground (arith, ==_iff k k)

evict-IsValid : (t : AncestorTracker) → IsCounted t → IsValid (evict t)
unfolding evict
evict-IsValid t h =
    let target = t.max_bytes * 9 / 10 in
    elim (Bool-cases (leb t.total_bytes target)) [
      | inl small ↦ rw small (record { books = h; within = ground arith })
      | inr large ↦
          let done =
            evict_from-Evicted target (sort_by_access t.entries) t
              (sort_by_access-IsDistinct t.entries h.distinct) h
              (λ k. get-sort_by_access k t.entries h.distinct) in
          rw large (record { books = done.books; within = omega (arith, done.fits, done.limit) })
    ]

pub record_snapshot-IsCounted :
    (path content : Str) (mtime : ℕ) (t : AncestorTracker)
    → IsCounted t
    → IsCounted (record_snapshot path content mtime t)
unfolding record_snapshot
record_snapshot-IsCounted path content mtime t h =
    let v : Snapshot = record {
      content = content;
      mtime = mtime;
      size_bytes = byte_length content;
      last_accessed = t.tick_counter + 1;
    } in
    record {
      distinct = set-IsDistinct path v t.entries h.distinct;
      counted = elim (Option-cases (JsMap.get path t.entries)) [
        | inl miss ↦
            rw miss (omega (arith, h.counted, weight-set_absent size path v t.entries miss))
        | inr (e, found) ↦ rw found (
            omega (
              arith,
              h.counted,
              weight-set size path v e t.entries found,
              weight-delete size path e t.entries found,
            ))
      ];
    }

pub remember-IsValid :
    (path content : Str) (mtime : ℕ) (t : AncestorTracker)
    → IsCounted t
    → IsValid (remember path content mtime t)
unfolding remember
remember-IsValid path content mtime t h =
    let t' = record_snapshot path content mtime t in
    let h' = record_snapshot-IsCounted path content mtime t h in
    elim (Bool-cases (ltb t'.max_bytes t'.total_bytes)) [
      | inl over ↦ rw over (evict-IsValid t' h')
      | inr under ↦ rw under (record { books = h'; within = ground arith })
    ]

pub get-IsValid :
    (path : Str) (t : AncestorTracker) → IsValid t → IsValid (AncestorTracker.get path t).0
unfolding AncestorTracker.get
get-IsValid path t h = elim (Option-cases (JsMap.get path t.entries)) [
  | inl miss ↦ rw (miss, AncestorTracker.get) h
  | inr (e, found) ↦
      let v : Snapshot = record e { last_accessed = t.tick_counter + 1 } in
      rw (found, AncestorTracker.get)
        (record {
          books = record {
            distinct = set-IsDistinct path v t.entries h.books.distinct;
            counted = omega (arith, h.books.counted, weight-set size path v e t.entries found);
          };
          within = h.within;
        })
]

pub invalidate-IsValid :
    (path : Str) (t : AncestorTracker) → IsValid t → IsValid (invalidate path t)
unfolding invalidate
invalidate-IsValid path t h = elim (Option-cases (JsMap.get path t.entries)) [
  | inl miss ↦ rw (miss, invalidate) h
  | inr (e, found) ↦
      rw (found, invalidate)
        (record {
          books = record {
            distinct = delete-IsDistinct path t.entries h.books.distinct;
            counted = omega (arith, h.books.counted, weight-delete size path e t.entries found);
          };
          within = omega (arith, h.within);
        })
]

pub clear-IsValid : (t : AncestorTracker) → IsValid (clear t)
unfolding clear
clear-IsValid t = record { books = record { distinct = tt; counted = refl }; within = omega arith }
