-- ===== src/Mapping/PathMapper.antt =====
-- plugin/src/path/PathMapper.ts: files that are private to a client move into a subtree of its own.
pub mod Prefix
pub mod Laws
pub mod Parent
pub mod Crossing
pub mod Listing
use obsidian_remote_ssh.Prelude.{
  ℕ, ◌+◌, List, [], ◌∷◌, ◌++◌, map, Bool, true, false, not, ◌&&◌, ◌||◌, if◌then◌else◌, ltb, ◌=ℕ◌,
  ◌==◌, Str, str_eq, codes, starts_with, split, Option, none, some, length, take, drop, any,
}

-- `s.includes(c)`
abbrev pub includes : ℕ → Str → Bool
includes c = any (λ d. d =ℕ c)

-- `s.lastIndexOf(c)`; `none` is -1.
unfoldable pub last_index_of : ℕ → Str → Option ℕ
last_index_of c [] = none
last_index_of c (d ∷ s) = elim (last_index_of c s) [
  | some i ↦ some (i + 1)
  | none ↦ if d =ℕ c then some 0 else none
]

abbrev pub default_obsidian_config_dir : Str
default_obsidian_config_dir = codes "." ++ codes "obsidian"

abbrev pub default_private_pattern_basenames : List Str
default_private_pattern_basenames =
    codes "workspace.json"
    ∷ codes "workspace-mobile.json"
    ∷ codes "app.json"
    ∷ codes "appearance.json"
    ∷ codes "core-plugins.json"
    ∷ codes "hotkeys.json"
    ∷ codes "plugins/*/data.json"
    ∷ codes "cache"
    ∷ codes "cache.zlib"
    ∷ codes "types.json"
    ∷ codes "file-recovery.json"
    ∷ codes "graph.json"
    ∷ codes "canvas.json"
    ∷ []

abbrev pub private_user_subdir : Str
private_user_subdir = codes "user"

-- The loop over the segments of a pattern.
unfoldable pub segments_match : List Str → List Str → Bool
segments_match [] seg = true
segments_match (p ∷ pat) [] = false
segments_match (p ∷ pat) (s ∷ seg) = (p == codes "*" || p == s) && segments_match pat seg

unfoldable pub matches_private_pattern : Str → Str → Bool
unfolding segments_match split
matches_private_pattern pattern normalized =
    if not (includes 42 pattern)
    then normalized == pattern || starts_with normalized (pattern ++ 47 ∷ [])
    else if ltb (length (split 47 normalized)) (length (split 47 pattern))
    then false
    else segments_match (split 47 pattern) (split 47 normalized)

unfoldable pub matches_pattern_exact : Str → Str → Bool
unfolding segments_match split
matches_pattern_exact pattern normalized =
    if not (length (split 47 pattern) =ℕ length (split 47 normalized))
    then false
    else segments_match (split 47 pattern) (split 47 normalized)

unfoldable pub strip_leading_slash : Str → Str
strip_leading_slash [] = []
strip_leading_slash (c ∷ p) = if c =ℕ 47 then p else c ∷ p

unfoldable pub parent_dir_of : Str → Str
unfolding last_index_of
parent_dir_of p = elim (last_index_of 47 p) [ none ↦ [] | some i ↦ take i p ]

pub record PathMapper : Type 0 where
  pub client_id : Str
  pub config_dir : Str
  pub config_dir_slash : Str
  pub private_root : Str
  pub private_patterns : List Str

-- The second argument of the constructor: a list of patterns, or the config dir.
pub data ConfigDirOrPatterns : Type 0 where
  patterns : List Str → ConfigDirOrPatterns
  config_dir : Option Str → ConfigDirOrPatterns

-- The constructor's `map`: a relative pattern is put behind the config dir.
abbrev pub qualify : Str → Str → Str
qualify dir p = if starts_with p (dir ++ 47 ∷ []) then p else dir ++ 47 ∷ p

abbrev pub mapper_at : Str → Str → List Str → PathMapper
mapper_at client_id dir ps = record {
  client_id = client_id;
  config_dir = dir;
  config_dir_slash = dir ++ 47 ∷ [];
  private_root = dir ++ 47 ∷ (private_user_subdir ++ 47 ∷ client_id);
  private_patterns = map (qualify dir) ps;
}

abbrev pub or_default {ℓ} : {A : Type ℓ} → A → Option A → A
or_default d none = d
or_default d (some a) = a

-- `new PathMapper(clientId, configDirOrPatterns, privatePatterns)`
unfoldable pub init : Str → ConfigDirOrPatterns → Option (List Str) → PathMapper
init client_id (patterns ps) private_patterns = mapper_at client_id default_obsidian_config_dir ps
init client_id (config_dir dir) private_patterns =
    mapper_at client_id (or_default default_obsidian_config_dir dir)
      (or_default default_private_pattern_basenames private_patterns)

unfoldable pub is_private : PathMapper → Str → Bool
unfolding matches_private_pattern strip_leading_slash
is_private m vault_path =
    any (λ p. matches_private_pattern p (strip_leading_slash vault_path)) m.private_patterns

unfoldable pub is_crossing_point : PathMapper → Str → Bool
unfolding is_private matches_pattern_exact parent_dir_of
is_crossing_point m vault_path =
    let normalized = strip_leading_slash vault_path in
    if is_private m normalized
    then false
    else any (λ p. matches_pattern_exact (parent_dir_of p) normalized) m.private_patterns

-- The path below the config dir, or else all of it.
abbrev pub below_config : PathMapper → Str → Str → Str
below_config m normalized otherwise =
    if starts_with normalized m.config_dir_slash
    then drop (length m.config_dir_slash) normalized
    else otherwise

unfoldable pub to_remote : PathMapper → Str → Str
unfolding is_private
to_remote m vault_path =
    let normalized = strip_leading_slash vault_path in
    if not (is_private m normalized)
    then vault_path
    else m.private_root ++ 47 ∷ below_config m normalized normalized

unfoldable pub to_vault : PathMapper → Str → Str
to_vault m remote_path =
    let prefix = m.private_root ++ 47 ∷ [] in
    if starts_with remote_path prefix
    then m.config_dir_slash ++ drop (length prefix) remote_path
    else remote_path

pub record ListingPlan : Type 0 where
  pub primary : Str
  pub merge_from_user : Bool
  pub user_subtree : Option Str
  pub hide_user_dir_name : Option Str

-- `rest ? privateRoot/rest : privateRoot`
abbrev pub subtree_at : PathMapper → Str → Str
subtree_at m [] = m.private_root
subtree_at m (c ∷ rest) = m.private_root ++ 47 ∷ c ∷ rest

unfoldable pub resolve_listing : PathMapper → Str → ListingPlan
unfolding to_remote is_crossing_point
resolve_listing m vault_path =
    let normalized = strip_leading_slash vault_path in
    if is_private m normalized
    then record {
      primary = to_remote m vault_path;
      merge_from_user = false;
      user_subtree = none;
      hide_user_dir_name = none;
    }
    else if is_crossing_point m normalized
    then record {
      primary = vault_path;
      merge_from_user = true;
      user_subtree = some (subtree_at m (below_config m normalized []));
      hide_user_dir_name = if normalized == m.config_dir then some private_user_subdir else none;
    }
    else record {
      primary = vault_path;
      merge_from_user = false;
      user_subtree = none;
      hide_user_dir_name = none;
    }
