-- ===== src/Vault/BulkWalker/Visible.antt =====
-- plugin/src/vault/BulkWalker.ts: which paths may appear in the vault's model.
use mathlib.Core.List.{append_assoc}
use obsidian_remote_ssh.Prelude.{
  ℕ, List, [], ◌∷◌, ◌++◌, Bool, true, false, if◌then◌else◌, ◌==◌, ==_iff, ◌||◌, Str, str_eq,
  starts_with, starts_with_append, starts_with_inv, split, split-append, split-ne-nil, drop, length,
  All, ◌≡◌, ◌≢◌, refl, ap, sym, ◌∙◌, subst, arith, Bool-cases, inl, inr, Option, none, some,
}
use obsidian_remote_ssh.Vault.TreeSnapshot.{RemoteEntry}
use obsidian_remote_ssh.Vault.BulkWalker.{
  BulkWalkerDeps, BulkWalkResult, WalkParams, WalkResult, ListedFiles, FastPathError, failed,
  FallbackWalk, FastWalk, from_fallback, from_fast, fallback_from, fallback_path, fast_path, walk,
  segments_visible, config_dir_of, path_visibility, visible_entries,
}

-- The segments in front of a visible one are visible as a folder.
segments_visible-append :
    (rules : BulkWalkerDeps) (d : Bool) (front xs ys : List Str)
    → ys ≢ []
    → segments_visible rules d front (xs ++ ys) ≡ true
    → segments_visible rules true front xs ≡ true
unfolding segments_visible
segments_visible-append rules d front [] ys k h = refl
segments_visible-append rules d front (x ∷ []) [] k h = absurd (k refl)
segments_visible-append rules d front (x ∷ []) (y ∷ ys) k h = ground arith
segments_visible-append rules d front (x ∷ z ∷ xs) ys k h =
    ground (arith, segments_visible-append rules d (front ++ x ∷ []) (z ∷ xs) ys k)

-- What `pathVisibility` asks of the config dir.
abbrev is_reserved : Str → Str → Bool
is_reserved dir p = p == dir || starts_with p (dir ++ 47 ∷ [])

is_reserved-child :
    (dir p name : Str) → is_reserved dir (p ++ 47 ∷ name) ≡ false → is_reserved dir p ≡ false
is_reserved-child dir p name h = elim (Bool-cases (is_reserved dir p)) [
  | inr free ↦ free
  | inl own ↦ elim (Bool-cases (starts_with p (dir ++ 47 ∷ []))) [
    | inl below ↦
        let at_dir =
          starts_with_append (dir ++ 47 ∷ []) (drop (length (dir ++ 47 ∷ [])) p ++ 47 ∷ name) in
        let longer : (dir ++ 47 ∷ []) ++ (drop (length (dir ++ 47 ∷ [])) p ++ 47 ∷ name)
            ≡ p ++ 47 ∷ name =
          sym (append_assoc (dir ++ 47 ∷ []) (drop (length (dir ++ 47 ∷ [])) p) (47 ∷ name))
          ∙ ap (λ t. t ++ 47 ∷ name) (sym (starts_with_inv p (dir ++ 47 ∷ []) below)) in
        absurd (taken (subst (λ t. starts_with t (dir ++ 47 ∷ []) ≡ true) longer at_dir))
    | inr apart ↦
        let same : p ≡ dir = ground (arith, ==_iff p dir) in
        let at_dir : starts_with (p ++ 47 ∷ name) (dir ++ 47 ∷ []) ≡ true = rw same (
          subst (λ t. starts_with t (dir ++ 47 ∷ []) ≡ true) (append_assoc dir (47 ∷ []) name)
            (starts_with_append (dir ++ 47 ∷ []) name)) in
        absurd (taken at_dir)
  ]
]
  where
    taken : starts_with (p ++ 47 ∷ name) (dir ++ 47 ∷ []) ≡ true → ⊥
    taken e = ground arith

-- A path that may appear in the model lies in a folder that may appear too.
pub path_visibility-parent :
    (rules : BulkWalkerDeps) (d : Bool) (p name : Str)
    → path_visibility (p ++ 47 ∷ name) d rules ≡ true
    → path_visibility p true rules ≡ true
unfolding path_visibility
path_visibility-parent rules d p name h =
    let dir = config_dir_of rules in
    elim (Bool-cases (is_reserved dir (p ++ 47 ∷ name))) [
      | inl own ↦ absurd (ground arith)
      | inr free ↦
          let parts : segments_visible rules d [] (split 47 (p ++ 47 ∷ name)) ≡ true =
            ground arith in
          let above =
            segments_visible-append rules d [] (split 47 p) (split 47 name) (split-ne-nil 47 name) (
              subst (λ xs. segments_visible rules d [] xs ≡ true) (split-append 47 p name) parts) in
          rw (is_reserved-child dir p name free) above
    ]

-- An entry that may appear in the model, like every folder that it lies in.
abbrev pub IsVisible : BulkWalkerDeps → RemoteEntry → Type 0
IsVisible deps e =
    (path_visibility e.path e.is_directory deps ≡ true)
    × ((p name : Str) → e.path ≡ p ++ 47 ∷ name → path_visibility p true deps ≡ true)

visible_entries-IsVisible :
    (deps : BulkWalkerDeps) (es : List RemoteEntry) → All (IsVisible deps) (visible_entries deps es)
unfolding visible_entries
visible_entries-IsVisible deps [] = tt
visible_entries-IsVisible deps (e ∷ es) =
    elim (Bool-cases (path_visibility e.path e.is_directory deps)) [
      | inr hidden ↦ rw (visible_entries, hidden) (visible_entries-IsVisible deps es)
      | inl shown ↦
          rw (visible_entries, shown)
            (
              (
                shown,
                λ p name q.
                    path_visibility-parent deps e.is_directory p name
                      (subst (λ t. path_visibility t e.is_directory deps ≡ true) q shown),
              ),
              visible_entries-IsVisible deps es,
            )
    ]

-- What holds of the entries of a result, if there is one.
abbrev pub AreVisible : BulkWalkerDeps → Option BulkWalkResult → Type 0
AreVisible deps none = Unit
AreVisible deps (some result) = All (IsVisible deps) result.entries

module _ (fs_walk : WalkParams → Option WalkResult) (list : Str → Option ListedFiles) where
  fallback_path-AreVisible :
      (fuel : ℕ) (deps : BulkWalkerDeps) (root_path : Str) (recursive : Bool)
      (error : Option FastPathError)
      → AreVisible deps (fallback_path fs_walk list fuel deps root_path recursive error)
  unfolding fallback_path
  fallback_path-AreVisible fuel deps root_path recursive error = by_walk (
      fallback_from fs_walk list fuel deps recursive (root_path ∷ [])
        (record { entries = []; list_errors = 0 }))
    where
      by_walk :
          (w : Option FallbackWalk)
          → AreVisible deps (elim w as (λ _. Option BulkWalkResult) [
            | none ↦ none
            | some walk ↦ some (from_fallback deps error walk)
          ])
      by_walk none = tt
      by_walk (some walk) = visible_entries-IsVisible deps walk.entries

  -- Whatever the daemon and the adapter answer, every entry that `walk` returns may appear in the
  -- model, and so may every folder that it lies in: an entry is never without its place.
  pub walk-AreVisible :
      (fuel : ℕ) (deps : BulkWalkerDeps) (root_path : Str) (recursive : Bool)
      → AreVisible deps (walk fs_walk list fuel deps root_path recursive)
  unfolding walk
  walk-AreVisible fuel deps root_path recursive =
      by_daemon deps.has_walk (fast_path fs_walk list deps root_path recursive)
    where
      by_daemon :
          (b : Bool) (w : Option FastWalk)
          → AreVisible deps (
              if b
              then elim w as (λ _. Option BulkWalkResult) [
                | some result ↦ some (from_fast deps result)
                | none ↦ fallback_path fs_walk list fuel deps root_path recursive (some failed)
              ]
              else fallback_path fs_walk list fuel deps root_path recursive none)
      by_daemon false w = fallback_path-AreVisible fuel deps root_path recursive none
      by_daemon true none = fallback_path-AreVisible fuel deps root_path recursive (some failed)
      by_daemon true (some result) = visible_entries-IsVisible deps result.entries
