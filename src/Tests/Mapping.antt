-- ===== src/Tests/Mapping.antt =====
-- Runs of plugin/src/path.
use native.Mathlib.Decide.{ℕ_discrete}
use obsidian_remote_ssh.Prelude.{
  true, List, [], ◌∷◌, ◌++◌, Str, str_discrete, codes, split, ends_with, if◌then◌else◌, none, some,
  ◌≡◌, refl, arith, str_eq,
}
use obsidian_remote_ssh.Mapping.PathMapper.{
  PathMapper, init, config_dir, is_private, to_remote, to_vault, resolve_listing,
  strip_leading_slash, matches_private_pattern, segments_match, last_index_of,
}
use obsidian_remote_ssh.Mapping.PathMapper.Laws.{to_vault-to_remote}
use obsidian_remote_ssh.Mapping.PathMapper.Listing.{private_place, resolve_listing-to_remote}
use obsidian_remote_ssh.Mapping.WatchEvents.{interpret_watch_event, looks_like_atomic_write_tmp}
use obsidian_remote_ssh.Mapping.WatchEvents.Laws.{interpret_watch_event-to_remote}

abbrev laptop : Str
laptop = codes "laptop"

abbrev desktop : Str
desktop = codes "desktop"

abbrev dot_config : Str
dot_config = codes ".config"

abbrev private_patterns : List Str
private_patterns = codes "workspace.json" ∷ codes "plugins/*/data.json" ∷ []

abbrev of_client : Str → PathMapper
of_client client = init client (config_dir (some dot_config)) (some private_patterns)

abbrev plugin_dir : Str
plugin_dir = dot_config ++ codes "/plugins/git"

abbrev plugin_data : Str
plugin_data = plugin_dir ++ codes "/data.json"

to_remote_moves :
    to_remote (of_client laptop) plugin_data ≡ codes ".config/user/laptop/plugins/git/data.json"
unfolding to_remote is_private init strip_leading_slash matches_private_pattern segments_match split
    str_discrete ℕ_discrete
to_remote_moves = refl

to_vault-to_remote_example :
    to_vault (of_client laptop) (to_remote (of_client laptop) plugin_data) ≡ (
      if is_private (of_client laptop) plugin_data
      then strip_leading_slash plugin_data
      else plugin_data)
unfolding strip_leading_slash
to_vault-to_remote_example =
    to_vault-to_remote laptop dot_config private_patterns plugin_data (ground arith) refl refl

resolve_listing-to_remote_example :
    ((resolve_listing (of_client laptop) plugin_dir).merge_from_user ≡ true)
    × ((resolve_listing (of_client laptop) plugin_dir).primary
        ≡ to_remote (of_client laptop) plugin_dir)
    × ((place : Str) × (private_place (resolve_listing (of_client laptop) plugin_dir) ≡ some place)
        × (to_remote (of_client laptop) plugin_data ≡ place ++ 47 ∷ codes "data.json"))
unfolding init is_private strip_leading_slash matches_private_pattern segments_match split
    str_discrete ℕ_discrete
resolve_listing-to_remote_example =
    resolve_listing-to_remote laptop dot_config private_patterns plugin_dir (codes "data.json")
      (ground arith) (ground arith) (ground arith) refl (ground arith) refl

interpret_watch_event-to_remote_example :
    interpret_watch_event (to_remote (of_client desktop) plugin_data) (some (of_client laptop))
    ≡ none
unfolding init is_private to_remote strip_leading_slash matches_private_pattern
    looks_like_atomic_write_tmp last_index_of segments_match split ends_with str_discrete ℕ_discrete
interpret_watch_event-to_remote_example =
    interpret_watch_event-to_remote laptop desktop dot_config private_patterns plugin_data
      (ground arith) (ground arith) (ground arith) refl refl refl
