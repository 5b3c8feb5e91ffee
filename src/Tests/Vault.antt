-- ===== src/Tests/Vault.antt =====
-- Runs of plugin/src/vault/TreeSnapshot.ts.
use mathlib.Core.List.{Perm}
use native.Mathlib.Decide.{ℕ_discrete}
use obsidian_remote_ssh.Prelude.{
  str_eq, nat_eq, List, [], ◌∷◌, Str, str_discrete, codes, split, true, false, none, some, ◌≡◌,
  refl, arith,
}
use obsidian_remote_ssh.Tests.TokenText.{token_text}
use obsidian_remote_ssh.Vault.TreeSnapshot.{
  RemoteEntry, LoadedFileLike, is_usable_path, read_tree_snapshot, write_tree_snapshot,
  model_entries, collect_model_entries, sort_entries, insert_entry, goes_first, depth,
}
use obsidian_remote_ssh.Vault.TreeSnapshot.Stored.{
  Sound, read_tree_snapshot-write_tree_snapshot, read_tree_snapshot-Sound,
}
use obsidian_remote_ssh.Vault.TreeSnapshot.Model.{
  IsOrdered, AreParentsFirst, collect_model_entries-IsOrdered,
}

abbrev home : Str
home = codes "/srv/vault"

abbrev config : Str
config = codes ".config"

abbrev folder : RemoteEntry
folder = record { path = codes "notes"; is_directory = true; ctime = 0; mtime = 0; size = 0 }

abbrev note : RemoteEntry
note = record { path = codes "notes/a.md"; is_directory = false; ctime = 3; mtime = 5; size = 7 }

abbrev outside : RemoteEntry
outside = record {
  path = codes "notes/../../b";
  is_directory = false;
  ctime = 3;
  mtime = 5;
  size = 7;
}

usable_paths :
    (is_usable_path (codes "notes/../b") config ≡ false)
    × (is_usable_path (codes "/notes") config ≡ false)
    × (is_usable_path (codes ".config/app.json") config ≡ false)
    × (is_usable_path (codes ".configs") config ≡ true)
unfolding is_usable_path split str_discrete ℕ_discrete
usable_paths = (refl, refl, refl, refl)

read_tree_snapshot-write_tree_snapshot_example :
    read_tree_snapshot token_text
      (some (write_tree_snapshot token_text home (folder ∷ note ∷ [])))
      home
      config
    ≡ some (folder ∷ note ∷ [])
unfolding is_usable_path split str_discrete ℕ_discrete
read_tree_snapshot-write_tree_snapshot_example =
    read_tree_snapshot-write_tree_snapshot token_text home config (folder ∷ note ∷ [])
      (refl, (refl, tt)) (omega arith)

read_tree_snapshot-Sound_example : Sound config (
    read_tree_snapshot token_text
      (some (write_tree_snapshot token_text home (outside ∷ [])))
      home
      config)
read_tree_snapshot-Sound_example =
    read_tree_snapshot-Sound token_text (some (write_tree_snapshot token_text home (outside ∷ [])))
      home config

abbrev files : List LoadedFileLike
files =
    record {
      path = codes "notes/a.md";
      stat = some (record { ctime = none; mtime = 5; size = 7 });
      children = false;
    }
    ∷ record { path = codes "/"; stat = none; children = true }
    ∷ record { path = codes "notes"; stat = none; children = true }
    ∷ []

collect_folder_first :
    collect_model_entries files config
    ≡ folder
      ∷ record { path = codes "notes/a.md"; is_directory = false; ctime = 5; mtime = 5; size = 7 }
      ∷ []
unfolding collect_model_entries model_entries sort_entries insert_entry goes_first depth split
    str_discrete ℕ_discrete
collect_folder_first = refl

collect_model_entries-IsOrdered_example :
    IsOrdered (collect_model_entries files config)
    × AreParentsFirst (collect_model_entries files config)
    × Perm (collect_model_entries files config) (model_entries config files)
collect_model_entries-IsOrdered_example = collect_model_entries-IsOrdered files config
