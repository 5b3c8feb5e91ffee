-- ===== src/Tests/Build.antt =====
-- Runs of plugin/src/vault/VaultModelBuilder.ts.
use native.Mathlib.Decide.{ℕ_discrete}
use obsidian_remote_ssh.Prelude.{
  ℕ, zero, suc, All, ==_iff, str_eq, nat_eq, take, inl, inr, Option, ap, [], ◌∷◌, Str, codes, true,
  false, none, some, ◌≡◌, refl, arith,
}
use obsidian_remote_ssh.JsMap
use obsidian_remote_ssh.Mapping.PathMapper.{last_index_of}
use obsidian_remote_ssh.Vault.ModelBuilder.{Vault, ordered, build_sync}
use obsidian_remote_ssh.Vault.ModelBuilder.Folders.{IsFresh, IsFolderAt}
use obsidian_remote_ssh.Vault.ModelBuilder.Order.{HasParent}
use obsidian_remote_ssh.Vault.ModelBuilder.Complete.{IsOpen, IsThere, Counted, build_sync-Built}
use obsidian_remote_ssh.Vault.TreeSnapshot.{RemoteEntry}

abbrev folder : RemoteEntry
folder = record { path = codes "notes"; is_directory = true; ctime = 0; mtime = 0; size = 0 }

abbrev note : RemoteEntry
note = record { path = codes "notes/a.md"; is_directory = false; ctime = 3; mtime = 5; size = 7 }

-- A vault that has its root and nothing else.
abbrev empty_vault : Vault
empty_vault = record {
  heap =
      (
        0,
        record {
          path = codes "/";
          name = [];
          basename = [];
          extension = [];
          parent = none;
          children = some [];
          stat = none;
        },
      )
      ∷ [];
  next = 1;
  root = 0;
  file_map = [];
  triggered = [];
}

abbrev in_file_map : Vault → Str → Option ℕ
in_file_map v p = JsMap.get p v.file_map

empty_vault-IsFresh : IsFresh empty_vault
unfolding JsMap.get
empty_vault-IsFresh zero h = absurd (omega (arith, h))
empty_vault-IsFresh (suc i) h = ground (arith, ==_iff 0 (suc i))

empty_vault-IsOpen : IsOpen empty_vault
unfolding JsMap.get ℕ_discrete
empty_vault-IsOpen = record { fresh = empty_vault-IsFresh; root_folder = refl }

-- The note is listed in front of its folder.
note_first-HasParent :
    HasParent (IsFolderAt empty_vault) (note ∷ folder ∷ []) note
    × HasParent (IsFolderAt empty_vault) (note ∷ folder ∷ []) folder
unfolding last_index_of
note_first-HasParent = (
  (λ i at. inr (inr (inl (refl, ap (λ k. take k note.path) (some_inv 5 i at))))),
  λ i at. absurd (no_some i at),
)
  where
    some_inv : (a b : ℕ) → some a ≡ some b → a ≡ b
    some_inv a b e = ground arith

    no_some : (a : ℕ) → none ≡ some a → ⊥
    no_some a e = ground arith

build_sync-Built_example :
    Counted (build_sync in_file_map (note ∷ folder ∷ []) empty_vault).1 2
    × All
        (λ e. IsThere (build_sync in_file_map (note ∷ folder ∷ []) empty_vault).0 e.path)
        (ordered (note ∷ folder ∷ []))
unfolding JsMap.get
build_sync-Built_example =
    build_sync-Built in_file_map (λ v p. refl) (note ∷ folder ∷ []) empty_vault empty_vault-IsOpen
      (ground arith) (ground arith) (refl, (refl, tt))
      (note_first-HasParent.0, (note_first-HasParent.1, tt))
