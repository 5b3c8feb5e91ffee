-- ===== src/Vault/BulkWalker/Fallback.antt =====
-- plugin/src/vault/BulkWalker.ts: the listing folder by folder ends.
use obsidian_remote_ssh.Prelude.{
  ℕ, zero, suc, ◌+◌, ◌≤◌, List, [], ◌∷◌, ◌++◌, Bool, true, false, if◌then◌else◌, ◌&&◌, Str, Option,
  none, some, ◌≡◌, refl, arith, Bool-cases, Option-cases, inl, inr,
}
use obsidian_remote_ssh.Vault.BulkWalker.{
  WalkResult, WalkParams, ListedFiles, BulkWalkerDeps, FallbackWalk, FastWalk, FastPathError,
  failed, from_fallback, from_fast, fast_path, BulkWalkResult, queued, listed, path_visibility,
  fallback_from, fallback_path, walk,
}

-- The sum of a measure over some folders.
abbrev pub total : (Str → ℕ) → List Str → ℕ
total size [] = 0
total size (f ∷ fs) = size f + total size fs

total-append :
    (size : Str → ℕ) (xs ys : List Str) → total size (xs ++ ys) ≡ total size xs + total size ys
total-append size [] ys = omega arith
total-append size (x ∷ xs) ys = omega (arith, total-append size xs ys)

total-queued :
    (size : Str → ℕ) (deps : BulkWalkerDeps) (recursive : Bool) (subs : List Str)
    → total size (queued deps recursive subs) ≤ total size subs
total-queued size deps recursive [] = omega arith
total-queued size deps recursive ([] ∷ subs) = omega (arith, total-queued size deps recursive subs)
total-queued size deps recursive ((c ∷ sub) ∷ subs) =
    elim (Bool-cases (recursive && path_visibility (c ∷ sub) true deps)) [
      | inl y ↦ rw y (omega (arith, total-queued size deps recursive subs))
      | inr n ↦ rw n (omega (arith, total-queued size deps recursive subs))
    ]

-- A finite tree of folders: each counts itself and what is listed in it.
pub record Counts (list : Str → Option ListedFiles) (size : Str → ℕ) : Type 0 where
  pub one : (f : Str) → 1 ≤ size f
  pub below : (f : Str) (l : ListedFiles) → list f ≡ some l → 1 + total size l.folders ≤ size f

module _ (fs_walk : WalkParams → Option WalkResult) (list : Str → Option ListedFiles)
    (size : Str → ℕ) (counts : Counts list size) where
  fallback_from-ends :
      (fuel : ℕ) (deps : BulkWalkerDeps) (recursive : Bool) (queue : List Str)
      (so_far : FallbackWalk)
      → total size queue ≤ fuel
      → (r : FallbackWalk) × (fallback_from fs_walk list fuel deps recursive queue so_far ≡ some r)
  unfolding fallback_from
  fallback_from-ends zero deps recursive [] so_far enough = (so_far, refl)
  fallback_from-ends (suc fuel) deps recursive [] so_far enough = (so_far, refl)
  fallback_from-ends zero deps recursive (f ∷ queue) so_far enough =
      absurd (omega (arith, counts.one f, enough))
  fallback_from-ends (suc fuel) deps recursive (f ∷ queue) so_far enough =
      elim (Option-cases (list f)) [
        | inl gone ↦
            let (r, done) =
              fallback_from-ends fuel deps recursive queue
                (record so_far { list_errors = so_far.list_errors + 1 })
                (omega (arith, counts.one f, enough)) in
            (r, rw (fallback_from, gone) done)
        | inr (l, found) ↦
            let (r, done) =
              fallback_from-ends fuel deps recursive (queue ++ queued deps recursive l.folders)
                (record so_far {
                  entries = so_far.entries ++ (listed true l.folders ++ listed false l.files);
                })
                (omega (
                  arith,
                  counts.below f l found,
                  total-append size queue (queued deps recursive l.folders),
                  total-queued size deps recursive l.folders,
                  enough,
                )) in
            (r, rw (fallback_from, found) done)
      ]

  fallback_path-ends :
      (fuel : ℕ) (deps : BulkWalkerDeps) (root_path : Str) (recursive : Bool)
      (error : Option FastPathError)
      → size root_path ≤ fuel
      → (r : BulkWalkResult) × (fallback_path fs_walk list fuel deps root_path recursive error
          ≡ some r)
  unfolding fallback_path
  fallback_path-ends fuel deps root_path recursive error enough =
      let (w, done) =
        fallback_from-ends fuel deps recursive (root_path ∷ [])
          (record { entries = []; list_errors = 0 }) (omega (arith, enough)) in
      (from_fallback deps error w, rw (fallback_path, done) refl)

  -- `walk` ends where the folders that the adapter lists make a finite tree, whatever the daemon
  -- answers: fuel for each folder of the tree below the root is enough, and then there is a result.
  pub walk-ends :
      (fuel : ℕ) (deps : BulkWalkerDeps) (root_path : Str) (recursive : Bool)
      → size root_path ≤ fuel
      → (r : BulkWalkResult) × (walk fs_walk list fuel deps root_path recursive ≡ some r)
  unfolding walk
  walk-ends fuel deps root_path recursive enough =
      by_daemon deps.has_walk (fast_path fs_walk list deps root_path recursive)
    where
      by_daemon :
          (b : Bool) (w : Option FastWalk)
          → (r : BulkWalkResult) × ((if b
                then elim w as (λ _. Option BulkWalkResult) [
                  | some result ↦ some (from_fast deps result)
                  | none ↦ fallback_path fs_walk list fuel deps root_path recursive (some failed)
                ]
                else fallback_path fs_walk list fuel deps root_path recursive none)
              ≡ some r)
      by_daemon false w = fallback_path-ends fuel deps root_path recursive none enough
      by_daemon true none = fallback_path-ends fuel deps root_path recursive (some failed) enough
      by_daemon true (some result) = (from_fast deps result, refl)
