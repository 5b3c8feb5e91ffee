-- ===== src/Tests/Walk.antt =====
-- Runs of plugin/src/vault/BulkWalker.ts.
use native.Mathlib.Decide.{ℕ_discrete}
use obsidian_remote_ssh.Prelude.{
  ℕ, zero, suc, ◌+◌, ◌≤◌, map, join, ltb, str_eq, nat_eq, Option, ap, subst, List, [], ◌∷◌, Str,
  str_discrete, codes, split, true, false, none, some, ◌≡◌, refl, arith,
}
use obsidian_remote_ssh.Vault.BulkWalker.{
  WalkType, WalkEntry, WalkParams, WalkResult, ListedFiles, BulkWalkerDeps, BulkWalkResult, walk,
  walked, walk_params, from_fast, path_visibility, segments_visible, segment_visible,
}
use obsidian_remote_ssh.Vault.BulkWalker.Visible.{AreVisible, walk-AreVisible}
use obsidian_remote_ssh.Vault.BulkWalker.Pages.{page_at, walk-Serves}
use obsidian_remote_ssh.Vault.BulkWalker.Fallback.{Counts, total, walk-ends}

abbrev config : Str
config = codes ".config"

-- A daemon with three entries, two of them on a page.
abbrev tree : List WalkEntry
tree =
    record { path = codes "notes"; type_ = WalkType.folder; mtime = 1; created = none; size = 0 }
    ∷ record { path = codes ".git"; type_ = WalkType.folder; mtime = 1; created = none; size = 0 }
    ∷ record {
      path = codes "notes/a.md";
      type_ = WalkType.file;
      mtime = 5;
      created = some 3;
      size = 7;
    }
    ∷ []

abbrev paged : WalkParams → Option WalkResult
paged params = some (page_at tree 2 (elim params.offset [ none ↦ 0 | some n ↦ n ]))

abbrev no_walk : WalkParams → Option WalkResult
no_walk params = none

-- An adapter with one folder below the root.
abbrev one_folder : Str → Option ListedFiles
one_folder [] = some (record { files = []; folders = codes "notes" ∷ codes ".git" ∷ [] })
one_folder (c ∷ name) = some (record { files = codes "notes/a.md" ∷ []; folders = [] })

abbrev rules : BulkWalkerDeps
rules = record {
  max_entries = none;
  ignore_dirs = codes "node_modules" ∷ [];
  allowed_hidden_dirs = codes "notes/.kept" ∷ [];
  config_dir = some config;
  has_walk = true;
}

visible_paths :
    (path_visibility (codes "notes/.kept/a.md") false rules ≡ true)
    × (path_visibility (codes "notes/.lost/a.md") false rules ≡ false)
    × (path_visibility (codes "notes/node_modules") true rules ≡ false)
    × (path_visibility (codes "notes/node_modules") false rules ≡ true)
unfolding path_visibility segments_visible segment_visible join split str_discrete ℕ_discrete
visible_paths = (refl, refl, refl, refl)

walk-AreVisible_example : AreVisible rules (walk no_walk one_folder 3 rules [] true)
walk-AreVisible_example = walk-AreVisible no_walk one_folder 3 rules [] true

walk-Serves_example :
    (pages : ℕ) × (walk paged one_folder 0 rules [] true
      ≡ some (
          from_fast rules (record { entries = map walked tree; truncated = false; pages = pages })))
walk-Serves_example =
    walk-Serves paged one_folder rules [] true tree 2 0 refl paged-Serves (omega arith)
      (omega arith)
  where
    paged-Serves :
        (offset : ℕ) → paged (walk_params rules [] true offset) ≡ some (page_at tree 2 offset)
    paged-Serves zero = refl
    paged-Serves (suc n) = let later : ltb 0 (suc n) ≡ true = ground arith in rw later refl

-- The root counts itself and the two folders in it.
abbrev folders_at : Str → ℕ
folders_at [] = 3
folders_at (c ∷ name) = 1

folders_at-Counts : Counts one_folder folders_at
folders_at-Counts = record { one = at_least_one; below = listed_below }
  where
    at_least_one : (f : Str) → 1 ≤ folders_at f
    at_least_one [] = omega arith
    at_least_one (c ∷ name) = omega arith

    folders_of : Option ListedFiles → List Str
    folders_of none = []
    folders_of (some l) = l.folders

    listed_below :
        (f : Str) (l : ListedFiles)
        → one_folder f ≡ some l
        → 1 + total folders_at l.folders ≤ folders_at f
    listed_below [] l h = subst (λ x. 1 + total folders_at x ≤ 3) (ap folders_of h) (omega arith)
    listed_below (c ∷ name) l h =
        subst (λ x. 1 + total folders_at x ≤ 1) (ap folders_of h) (omega arith)

walk-ends_example : (r : BulkWalkResult) × (walk no_walk one_folder 3 rules [] true ≡ some r)
walk-ends_example =
    walk-ends no_walk one_folder folders_at folders_at-Counts 3 rules [] true (omega arith)
