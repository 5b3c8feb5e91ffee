-- ===== src/Mapping/WatchEvents.antt =====
-- plugin/src/path/WatchEventFilter.ts: which changes that the daemon reports concern the vault.
pub mod Laws
use obsidian_remote_ssh.Prelude.{
  ◌+◌, List, [], ◌∷◌, ◌++◌, Bool, true, false, ◌&&◌, ◌||◌, if◌then◌else◌, ◌==◌, Str, str_eq, codes,
  starts_with, ends_with, Option, none, some, drop,
}
use obsidian_remote_ssh.Mapping.PathMapper.{PathMapper, last_index_of, to_vault}

pub record WatchEventAction : Type 0 where
  pub vault_path : Str
  pub remote_path : Str

unfoldable pub looks_like_atomic_write_tmp : Str → Bool
unfolding last_index_of ends_with
looks_like_atomic_write_tmp path =
    let name : Str = elim (last_index_of 47 path) [ none ↦ path | some i ↦ drop (i + 1) path ] in
    starts_with name (codes ".rsh-write-") && ends_with name (codes ".tmp")

abbrev pub user_root_rel : PathMapper → Str
user_root_rel m = m.config_dir ++ codes "/user"

abbrev pub user_prefix : PathMapper → Str
user_prefix m = user_root_rel m ++ 47 ∷ (m.client_id ++ 47 ∷ [])

unfoldable pub interpret_watch_event : Str → Option PathMapper → Option WatchEventAction
unfolding looks_like_atomic_write_tmp to_vault
interpret_watch_event remote_path path_mapper =
    if looks_like_atomic_write_tmp remote_path then none else elim path_mapper [
      | none ↦ some (record { vault_path = remote_path; remote_path = remote_path })
      | some m ↦
          if starts_with remote_path (user_prefix m)
          then some (record { vault_path = to_vault m remote_path; remote_path = remote_path })
          else if remote_path == user_root_rel m
              || starts_with remote_path (user_root_rel m ++ 47 ∷ [])
          then none
          else some (record { vault_path = remote_path; remote_path = remote_path })
    ]
