-- ===== src/Cache/ReadCache/Reach.antt =====
-- What holds of the cache of plugin/src/cache/ReadCache.ts after any sequence of calls.
use obsidian_remote_ssh.Prelude.{
  ℕ, ◌+◌, ◌-◌, List, [], ◌∷◌, if◌then◌else◌, Str, str_eq, Option, none, some, length, ◌≡◌, ◌≤◌,
  arith, refl, Option-cases, Bool-cases, leb, inl, inr, ==_iff, ◌==◌,
}
use obsidian_remote_ssh.JsMap
use obsidian_remote_ssh.JsMap.{weight}
use obsidian_remote_ssh.Cache.{covers}
use obsidian_remote_ssh.Cache.ReadCache.{
  ReadCache, ReadCacheEntry, init, get, invalidate, invalidate_keys, invalidate_prefix, clear,
  entry_of,
}
use obsidian_remote_ssh.Cache.ReadCache.Calls.{Call, step, run}
use obsidian_remote_ssh.Cache.ReadCache.Laws.{
  IsValid, get-IsCounted, invalidate-IsCounted, invalidate_prefix-IsCounted, get-invalidate,
  get-get,
}
use obsidian_remote_ssh.Cache.ReadCache.Order.{
  put-IsValid, get-put_self, get-put_ne, map-put_too_large,
}
use obsidian_remote_ssh.Cache.ReadCache.Prefix.{invalidate_prefix_lem}

max_bytes-invalidate_keys :
    (prefix : Str) (ks : List Str) (c : ReadCache) (n : ℕ)
    → ((invalidate_keys prefix ks c n).0.max_bytes ≡ c.max_bytes)
      × ((invalidate_keys prefix ks c n).0.bytes ≤ c.bytes)
unfolding invalidate_keys
max_bytes-invalidate_keys prefix [] c n = ground arith
max_bytes-invalidate_keys prefix (path ∷ ks) c n = elim (Option-cases (JsMap.get path c.map)) [
  | inl miss ↦ ground (arith, max_bytes-invalidate_keys prefix ks c n)
  | inr (e, found) ↦ ground (
    arith,
    max_bytes-invalidate_keys prefix ks c n,
    max_bytes-invalidate_keys prefix ks
        (record c { bytes = c.bytes - e.byte_size; map = JsMap.delete path c.map }) (n + 1),
  )
]

step-IsValid : (call : Call) (c : ReadCache) → IsValid c → IsValid (step call c)
unfolding step
step-IsValid (Call.get path) c h = record {
  books = get-IsCounted c path h.books;
  within = unfold get in ground arith;
}
step-IsValid (Call.put path content mtime) c h = put-IsValid c path content mtime h.books
step-IsValid (Call.invalidate path) c h = record {
  books = invalidate-IsCounted c path h.books;
  within = unfold invalidate in ground arith;
}
step-IsValid (Call.invalidate_prefix prefix) c h = record {
  books = invalidate_prefix-IsCounted c prefix h.books;
  within =
      unfold invalidate_prefix in
      ground (arith, max_bytes-invalidate_keys prefix (JsMap.keys c.map) c 0);
}
step-IsValid Call.clear c h =
    unfold clear in
    record { books = record { distinct = tt; counted = refl }; within = omega arith }

init-IsValid : (max_bytes : Option ℕ) → IsValid (init max_bytes)
unfolding init
init-IsValid max_bytes = record {
  books = record { distinct = tt; counted = refl };
  within = omega arith;
}

run-keeps-IsValid : (calls : List Call) (c : ReadCache) → IsValid c → IsValid (run calls c)
unfolding run
run-keeps-IsValid [] c h = h
run-keeps-IsValid (call ∷ calls) c h = run-keeps-IsValid calls (step call c) (step-IsValid call c h)

-- After any sequence of calls on a new cache each path stands once, `bytes` is the sum of the
-- sizes, and it does not exceed the budget.
pub run_within_budget :
    (max_bytes : Option ℕ) (calls : List Call) → IsValid (run calls (init max_bytes))
run_within_budget max_bytes calls =
    run-keeps-IsValid calls (init max_bytes) (init-IsValid max_bytes)

-- The cache that forgets nothing: what the last `put` of a path stored, until it is invalidated.
abbrev pub ideal_step : Call → (Str → Option ReadCacheEntry) → Str → Option ReadCacheEntry
ideal_step (Call.get path) f q = f q
ideal_step (Call.put path content mtime) f q =
    if path == q then some (entry_of content mtime) else f q
ideal_step (Call.invalidate path) f q = if path == q then none else f q
ideal_step (Call.invalidate_prefix prefix) f q = if covers prefix q then none else f q
ideal_step Call.clear f q = none

abbrev pub ideal : List Call → (Str → Option ReadCacheEntry) → Str → Option ReadCacheEntry
ideal [] f = f
ideal (call ∷ calls) f = ideal calls (ideal_step call f)

-- Every entry of the cache is one of the ideal cache.
abbrev Agrees : ReadCache → (Str → Option ReadCacheEntry) → Type 0
Agrees c f = (q : Str) (e : ReadCacheEntry) → JsMap.get q c.map ≡ some e → f q ≡ some e

nothing_in_nil :
    (q : Str) (m : List (Str × ReadCacheEntry)) (e : ReadCacheEntry)
    → m ≡ []
    → JsMap.get q m ≡ some e
    → ⊥
unfolding JsMap.get
nothing_in_nil q [] e h found = ground arith
nothing_in_nil q (x ∷ m) e h found = ground arith

step-Agrees :
    (call : Call) (c : ReadCache) (f : Str → Option ReadCacheEntry)
    → IsValid c
    → Agrees c f
    → Agrees (step call c) (ideal_step call f)
unfolding step
step-Agrees (Call.get path) c f h a q e found =
    ground (arith, a q e, get-get c path q h.books.distinct)
step-Agrees (Call.put path content mtime) c f h a q e found = elim (Bool-cases (path == q)) [
  | inl same ↦ elim (Bool-cases (leb (length content) c.max_bytes)) [
    | inl fits ↦
        ground (arith, get-put_self c path content mtime h.books (ground arith), ==_iff path q)
    | inr large ↦
        absurd (
          nothing_in_nil q _ e (map-put_too_large c path content mtime h.books (ground arith))
            found)
  ]
  | inr other ↦ ground (arith, a q e, get-put_ne c path content mtime h.books q e)
]
step-Agrees (Call.invalidate path) c f h a q e found =
    ground (arith, a q e, get-invalidate c path q h.books.distinct)
step-Agrees (Call.invalidate_prefix prefix) c f h a q e found =
    ground (arith, a q e, (invalidate_prefix_lem c prefix q h.books.distinct).0)
step-Agrees Call.clear c f h a q e found = unfold clear JsMap.get in ground arith

run-Agrees :
    (calls : List Call) (c : ReadCache) (f : Str → Option ReadCacheEntry)
    → IsValid c
    → Agrees c f
    → Agrees (run calls c) (ideal calls f)
unfolding run
run-Agrees [] c f h a = a
run-Agrees (call ∷ calls) c f h a =
    run-Agrees calls (step call c) (ideal_step call f) (step-IsValid call c h)
      (step-Agrees call c f h a)

-- The cache never serves what was overwritten or invalidated: after any sequence of calls on a new
-- cache, an entry that is found is what the last `put` of its path stored, with no invalidation of
-- the path since.
pub ideal-run :
    (max_bytes : Option ℕ) (calls : List Call) (q : Str) (e : ReadCacheEntry)
    → JsMap.get q (run calls (init max_bytes)).map ≡ some e
    → ideal calls (λ _. none) q ≡ some e
unfolding init
ideal-run max_bytes calls =
    run-Agrees calls (init max_bytes) (λ _. none) (init-IsValid max_bytes)
      (λ q e found. absurd (nothing_in_nil q (init max_bytes).map e refl found))
