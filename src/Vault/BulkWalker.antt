-- ===== src/Vault/BulkWalker.antt =====
-- plugin/src/vault/BulkWalker.ts: the remote tree as a flat list of entries. The daemon's `fs.walk`
-- and the adapter's `list` are parameters that answer the same each time they are asked; `none` is
-- an exception. A list of names that is not given acts as an empty one.
pub mod Visible
pub mod Pages
pub mod Fallback
use obsidian_remote_ssh.Prelude.{
  ℕ, zero, suc, ◌+◌, ◌-◌, List, [], ◌∷◌, ◌++◌, map, Bool, true, false, if◌then◌else◌, ltb, ◌=ℕ◌,
  ◌==◌, ◌&&◌, ◌||◌, not, Str, str_eq, str_discrete, codes, starts_with, split, join, length, any,
  Option, none, some,
}
use obsidian_remote_ssh.Vault.TreeSnapshot.{RemoteEntry}

pub data WalkType : Type 0 where
  file folder symlink : WalkType

pub record WalkEntry : Type 0 where
  pub path : Str
  pub type_ : WalkType
  pub mtime : ℕ
  pub created : Option ℕ
  pub size : ℕ

pub record WalkResult : Type 0 where
  pub entries : List WalkEntry
  pub truncated : Bool

pub record WalkParams : Type 0 where
  pub path : Str
  pub recursive : Bool
  pub max_entries : Option ℕ
  pub offset : Option ℕ
  pub ignore : List Str

pub record ListedFiles : Type 0 where
  pub files : List Str
  pub folders : List Str

pub record BulkWalkerDeps : Type 0 where
  pub max_entries : Option ℕ
  pub ignore_dirs : List Str
  pub allowed_hidden_dirs : List Str
  pub config_dir : Option Str
  -- Whether there is a connection whose daemon has `fs.walk`.
  pub has_walk : Bool

pub data Source : Type 0 where
  rpc_walk fallback_list : Source

pub data FastPathError : Type 0 where
  page_guard failed : FastPathError

pub record BulkWalkResult : Type 0 where
  pub entries : List RemoteEntry
  pub source : Source
  pub truncated : Bool
  pub pages : ℕ
  pub fast_path_error : Option FastPathError
  pub list_errors : ℕ
  pub hidden_count : ℕ

-- `xs.includes(s)`
abbrev pub includes : Str → List Str → Bool
includes s = any (λ x. x == s)

abbrev pub dot_obsidian : Str
dot_obsidian = codes "." ++ codes "obsidian"

-- The test of one segment, with the ones in front of it.
unfoldable pub segment_visible : BulkWalkerDeps → Bool → List Str → Str → Bool
unfolding str_discrete join
segment_visible rules directory front segment =
    if segment == [] || segment == codes "." || segment == codes ".."
    then false
    else if directory && includes segment rules.ignore_dirs
    then false
    else if not (starts_with segment (codes "."))
    then true
    else not (segment == dot_obsidian)
      && directory
      && includes (join (47 ∷ []) (front ++ segment ∷ [])) rules.allowed_hidden_dirs

-- The loop of `pathVisibility`.
unfoldable pub segments_visible : BulkWalkerDeps → Bool → List Str → List Str → Bool
unfolding segment_visible
segments_visible rules is_directory front [] = true
segments_visible rules is_directory front (s ∷ []) = segment_visible rules is_directory front s
segments_visible rules is_directory front (s ∷ t ∷ parts) =
    segment_visible rules true front s
    && segments_visible rules is_directory (front ++ s ∷ []) (t ∷ parts)

abbrev pub config_dir_of : BulkWalkerDeps → Str
config_dir_of rules = elim rules.config_dir [ none ↦ dot_obsidian | some d ↦ d ]

unfoldable pub path_visibility : Str → Bool → BulkWalkerDeps → Bool
unfolding segments_visible split str_discrete
path_visibility vault_path is_directory rules =
    if vault_path == config_dir_of rules || starts_with vault_path (config_dir_of rules ++ 47 ∷ [])
    then false
    else segments_visible rules is_directory [] (split 47 vault_path)

unfoldable pub visible_entries : BulkWalkerDeps → List RemoteEntry → List RemoteEntry
unfolding path_visibility
visible_entries deps [] = []
visible_entries deps (e ∷ es) =
    let rest = visible_entries deps es in
    if path_visibility e.path e.is_directory deps then e ∷ rest else rest

-- `knownCreated(e.created) ?? 0`: a time of creation that is not above 0 is unknown.
abbrev pub known_created : Option ℕ → ℕ
known_created none = 0
known_created (some n) = n

abbrev pub is_folder : WalkType → Bool
is_folder folder = true
is_folder _ = false

abbrev pub walked : WalkEntry → RemoteEntry
walked e = record {
  path = e.path;
  is_directory = is_folder e.type_;
  ctime = known_created e.created;
  mtime = e.mtime;
  size = e.size;
}

abbrev pub max_pages : ℕ
max_pages = 1000

abbrev pub walk_params : BulkWalkerDeps → Str → Bool → ℕ → WalkParams
walk_params deps root_path recursive offset = record {
  path = root_path;
  recursive = recursive;
  max_entries = deps.max_entries;
  offset = if ltb 0 offset then some offset else none;
  ignore = deps.ignore_dirs;
}

pub record FastWalk : Type 0 where
  pub entries : List RemoteEntry
  pub truncated : Bool
  pub pages : ℕ

pub record FallbackWalk : Type 0 where
  pub entries : List RemoteEntry
  pub list_errors : ℕ

-- `push` of a folder or a file by its name; an empty one is left out.
abbrev pub listed : Bool → List Str → List RemoteEntry
listed is_directory [] = []
listed is_directory ([] ∷ names) = listed is_directory names
listed is_directory ((c ∷ name) ∷ names) =
    record { path = c ∷ name; is_directory = is_directory; ctime = 0; mtime = 0; size = 0 }
    ∷ listed is_directory names

-- The folders of a listing that are put into the queue.
abbrev pub queued : BulkWalkerDeps → Bool → List Str → List Str
queued deps recursive [] = []
queued deps recursive ([] ∷ subs) = queued deps recursive subs
queued deps recursive ((c ∷ sub) ∷ subs) =
    if recursive && path_visibility (c ∷ sub) true deps
    then (c ∷ sub) ∷ queued deps recursive subs
    else queued deps recursive subs

-- A result of the fallback, with the error that led to it.
abbrev pub from_fallback : BulkWalkerDeps → Option FastPathError → FallbackWalk → BulkWalkResult
from_fallback deps error walk =
    let visible = visible_entries deps walk.entries in
    record {
      entries = visible;
      source = fallback_list;
      truncated = false;
      pages = 0;
      fast_path_error = error;
      list_errors = walk.list_errors;
      hidden_count = length walk.entries - length visible;
    }

-- A result of the fast path.
abbrev pub from_fast : BulkWalkerDeps → FastWalk → BulkWalkResult
from_fast deps walk =
    let visible = visible_entries deps walk.entries in
    record {
      entries = visible;
      source = rpc_walk;
      truncated = walk.truncated;
      pages = walk.pages;
      fast_path_error = if walk.truncated then some page_guard else none;
      list_errors = 0;
      hidden_count = length walk.entries - length visible;
    }

module _ (fs_walk : WalkParams → Option WalkResult) (list : Str → Option ListedFiles) where
  -- The loop of `fastPath`; `left` more pages may follow the next one before the page guard stops
  -- it. None is an exception of the call.
  unfoldable pub fast_from :
      BulkWalkerDeps → Str → Bool → (left offset pages : ℕ) → List RemoteEntry → Option FastWalk
  fast_from deps root_path recursive zero offset pages all =
      elim (fs_walk (walk_params deps root_path recursive offset)) [
        | none ↦ none
        | some page ↦ some (record {
          entries = all ++ map walked page.entries;
          truncated = page.truncated;
          pages = pages + 1;
        })
      ]
  fast_from deps root_path recursive (suc left) offset pages all =
      elim (fs_walk (walk_params deps root_path recursive offset)) [
        | none ↦ none
        | some page ↦
            let all' = all ++ map walked page.entries in
            let stop : FastWalk = record {
              entries = all';
              truncated = page.truncated;
              pages = pages + 1;
            } in
            let next =
              fast_from deps root_path recursive left (offset + length page.entries) (pages + 1)
                all' in
            if not page.truncated
            then some stop
            else if length page.entries =ℕ 0
            then some stop
            else next
      ]

  unfoldable pub fast_path : BulkWalkerDeps → Str → Bool → Option FastWalk
  unfolding fast_from
  fast_path deps root_path recursive = fast_from deps root_path recursive (max_pages - 1) 0 0 []

  -- The loop of `fallbackPath`. None is a loop that the fuel did not suffice for.
  unfoldable pub fallback_from :
      ℕ → BulkWalkerDeps → Bool → List Str → FallbackWalk → Option FallbackWalk
  fallback_from fuel deps recursive [] so_far = some so_far
  fallback_from zero deps recursive (next ∷ queue) so_far = none
  fallback_from (suc fuel) deps recursive (next ∷ queue) so_far = elim (list next) [
    | none ↦
        fallback_from fuel deps recursive queue
          (record so_far { list_errors = so_far.list_errors + 1 })
    | some listing ↦
        fallback_from fuel deps recursive (queue ++ queued deps recursive listing.folders)
          (record so_far {
            entries = so_far.entries ++ (listed true listing.folders ++ listed false listing.files);
          })
  ]

  unfoldable pub fallback_path :
      ℕ → BulkWalkerDeps → Str → Bool → Option FastPathError → Option BulkWalkResult
  unfolding fallback_from visible_entries
  fallback_path fuel deps root_path recursive error =
      elim (fallback_from fuel deps recursive (root_path ∷ [])
        (record { entries = []; list_errors = 0 })) [
          | none ↦ none
          | some walk ↦ some (from_fallback deps error walk)
        ]

  -- `fuel` bounds the folders that the fallback lists.
  unfoldable pub walk : ℕ → BulkWalkerDeps → Str → Bool → Option BulkWalkResult
  unfolding fast_path fallback_path
  walk fuel deps root_path recursive =
      if deps.has_walk
      then elim (fast_path deps root_path recursive) [
        | some result ↦ some (from_fast deps result)
        | none ↦ fallback_path fuel deps root_path recursive (some failed)
      ]
      else fallback_path fuel deps root_path recursive none
