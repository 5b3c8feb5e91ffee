-- ===== src/Cache/DirCache/Fresh.antt =====
-- What a listing from the cache of plugin/src/cache/DirCache.ts may be.
use obsidian_remote_ssh.Prelude.{
  ℕ, ◌+◌, List, [], ◌∷◌, if◌then◌else◌, leb, Str, str_eq, Option, none, some, ◌≡◌, arith, refl,
  Option-cases, inl, inr, ◌==◌, ◌&&◌, ==_iff, ltb, ◌∙◌,
}
use obsidian_remote_ssh.JsMap
use obsidian_remote_ssh.JsMap.{keys, IsDistinct}
use obsidian_remote_ssh.JsMap.Laws.{get-set, get-delete, set-IsDistinct, delete-IsDistinct}
use obsidian_remote_ssh.Cache.{covers, visits, visits-keys}
use obsidian_remote_ssh.Cache.DirCache
use obsidian_remote_ssh.Cache.DirCache.{DirCache, DirCacheEntry}

module _ (RemoteEntry : Type 0) where
  -- A call of a method that changes the cache, with the clock's value where it reads the clock.
  pub data Call : Type 0 where
    get : Str → ℕ → Call
    put : Str → List RemoteEntry → ℕ → Call
    invalidate invalidate_prefix : Str → Call
    clear : Call

module _ {RemoteEntry : Type 0} where
  unfoldable pub step : Call RemoteEntry → DirCache RemoteEntry → DirCache RemoteEntry
  step (get path now) c = (DirCache.get c path now).0
  step (put path entries now) c = DirCache.put c path entries now
  step (invalidate path) c = DirCache.invalidate c path
  step (invalidate_prefix prefix) c = (DirCache.invalidate_prefix c prefix).0
  step clear c = DirCache.clear c

  unfoldable pub run : List (Call RemoteEntry) → DirCache RemoteEntry → DirCache RemoteEntry
  unfolding step
  run [] c = c
  run (call ∷ calls) c = run calls (step call c)

  -- The last listing that was put under a path, and the time that it was put at, until the path
  -- is invalidated or the listing is found expired.
  abbrev pub ideal_step :
      ℕ
      → Call RemoteEntry
      → (Str → Option (List RemoteEntry × ℕ))
      → Str
      → Option (List RemoteEntry × ℕ)
  ideal_step ttl (get path now) f q = elim (f q) [
    | none ↦ none
    | some (entries, at) ↦ if path == q && leb (at + ttl) now then none else some (entries, at)
  ]
  ideal_step ttl (put path entries now) f q = if path == q then some (entries, now) else f q
  ideal_step ttl (invalidate path) f q = if path == q then none else f q
  ideal_step ttl (invalidate_prefix prefix) f q = if covers prefix q then none else f q
  ideal_step ttl clear f q = none

  abbrev pub ideal :
      ℕ
      → List (Call RemoteEntry)
      → (Str → Option (List RemoteEntry × ℕ))
      → Str
      → Option (List RemoteEntry × ℕ)
  ideal ttl [] f = f
  ideal ttl (call ∷ calls) f = ideal ttl calls (ideal_step ttl call f)

  -- `q` stands in the cache as the ideal cache says.
  abbrev stored : ℕ → Option (List RemoteEntry × ℕ) → Option (DirCacheEntry RemoteEntry)
  stored ttl none = none
  stored ttl (some (entries, at)) = some (record { entries = entries; expires_at = at + ttl })

  record Agrees (ttl : ℕ) (c : DirCache RemoteEntry) (f : Str → Option (List RemoteEntry × ℕ))
      : Type 0 where
    distinct : IsDistinct c.map
    lives : c.ttl_ms ≡ ttl
    same : (q : Str) → JsMap.get q c.map ≡ stored ttl (f q)

  get-invalidate_keys :
      (prefix : Str) (ks : List Str) (c : DirCache RemoteEntry) (n : ℕ) (q : Str)
      → IsDistinct c.map
      → JsMap.get q (DirCache.invalidate_keys prefix ks c n).0.map
        ≡ (if covers prefix q && visits ks q then none else JsMap.get q c.map)
  unfolding DirCache.invalidate_keys
  get-invalidate_keys prefix [] c n q d = ground arith
  get-invalidate_keys prefix (path ∷ ks) c n q d = ground (
    arith,
    get-invalidate_keys prefix ks c n q d,
    get-invalidate_keys prefix ks (record c { map = JsMap.delete path c.map }) (n + 1) q
        (delete-IsDistinct path c.map d),
    get-delete path q c.map d,
  )

  invalidate_keys_keeps :
      (prefix : Str) (ks : List Str) (c : DirCache RemoteEntry) (n : ℕ)
      → IsDistinct c.map
      → IsDistinct (DirCache.invalidate_keys prefix ks c n).0.map
        × ((DirCache.invalidate_keys prefix ks c n).0.ttl_ms ≡ c.ttl_ms)
  unfolding DirCache.invalidate_keys
  invalidate_keys_keeps prefix [] c n d = (d, refl)
  invalidate_keys_keeps prefix (path ∷ ks) c n d = ground (
    arith,
    invalidate_keys_keeps prefix ks c n d,
    invalidate_keys_keeps prefix ks (record c { map = JsMap.delete path c.map }) (n + 1)
        (delete-IsDistinct path c.map d),
  )

  get-invalidate_prefix :
      (c : DirCache RemoteEntry) (prefix q : Str)
      → IsDistinct c.map
      → JsMap.get q (DirCache.invalidate_prefix c prefix).0.map
        ≡ (if covers prefix q then none else JsMap.get q c.map)
  unfolding DirCache.invalidate_prefix
  get-invalidate_prefix c prefix q d = elim (Option-cases (JsMap.get q c.map)) [
    | inl miss ↦ ground (arith, get-invalidate_keys prefix (keys c.map) c 0 q d)
    | inr (e, found) ↦
        ground (arith, get-invalidate_keys prefix (keys c.map) c 0 q d, visits-keys q c.map e found)
  ]

  step-Agrees :
      (ttl : ℕ) (call : Call RemoteEntry) (c : DirCache RemoteEntry)
      (f : Str → Option (List RemoteEntry × ℕ))
      → Agrees ttl c f
      → Agrees ttl (step call c) (ideal_step ttl call f)
  unfolding step
  step-Agrees ttl (get path now) c f h =
      unfold DirCache.get in
      record {
        distinct = ground (arith, delete-IsDistinct path c.map h.distinct);
        lives = ground (arith, h.lives);
        same = λ q.
            ground
              (arith, h.same path, h.same q, get-delete path q c.map h.distinct, ==_iff path q);
      }
  step-Agrees ttl (put path entries now) c f h =
      unfold DirCache.put in
      record {
        distinct = set-IsDistinct path _ c.map h.distinct;
        lives = h.lives;
        same = λ q. ground (
          arith,
          h.lives,
          h.same q,
          get-set path q (record { entries = entries; expires_at = now + c.ttl_ms }) c.map,
        );
      }
  step-Agrees ttl (invalidate path) c f h =
      unfold DirCache.invalidate in
      record {
        distinct = delete-IsDistinct path c.map h.distinct;
        lives = h.lives;
        same = λ q. ground (arith, h.same q, get-delete path q c.map h.distinct);
      }
  step-Agrees ttl (invalidate_prefix prefix) c f h = record {
    distinct =
        unfold DirCache.invalidate_prefix in
        (invalidate_keys_keeps prefix (keys c.map) c 0 h.distinct).0;
    lives =
        unfold DirCache.invalidate_prefix in
        (invalidate_keys_keeps prefix (keys c.map) c 0 h.distinct).1 ∙ h.lives;
    same = λ q. ground (arith, h.same q, get-invalidate_prefix c prefix q h.distinct);
  }
  step-Agrees ttl clear c f h =
      unfold DirCache.clear in
      record { distinct = tt; lives = h.lives; same = λ q. unfold JsMap.get in refl }

  run-Agrees :
      (ttl : ℕ) (calls : List (Call RemoteEntry)) (c : DirCache RemoteEntry)
      (f : Str → Option (List RemoteEntry × ℕ))
      → Agrees ttl c f
      → Agrees ttl (run calls c) (ideal ttl calls f)
  unfolding run
  run-Agrees ttl [] c f h = h
  run-Agrees ttl (call ∷ calls) c f h =
      run-Agrees ttl calls (step call c) (ideal_step ttl call f) (step-Agrees ttl call c f h)

  -- What a `get` answers from an ideal entry at a time.
  abbrev pub fresh : ℕ → ℕ → Option (List RemoteEntry × ℕ) → Option (List RemoteEntry)
  fresh ttl now none = none
  fresh ttl now (some (entries, at)) = if ltb now (at + ttl) then some entries else none

  -- After any sequence of calls on a new cache, `get` returns exactly the listing that was last
  -- put under the path and neither invalidated nor found expired since, and returns it only before
  -- its time to live is over.
  pub get-run :
      (ttl : ℕ) (calls : List (Call RemoteEntry)) (path : Str) (now : ℕ)
      → (DirCache.get (run calls (DirCache.init (some ttl))) path now).1
        ≡ fresh ttl now (ideal ttl calls (λ _. none) path)
  unfolding DirCache.get
  get-run ttl calls path now =
      let c : DirCache RemoteEntry = DirCache.init (some ttl) in
      let start : Agrees ttl c (λ _. none) =
        unfold DirCache.init JsMap.get in
        (record { distinct = tt; lives = refl; same = λ q. refl }) in
      let h = run-Agrees ttl calls c (λ _. none) start in ground (arith, h.same path)
