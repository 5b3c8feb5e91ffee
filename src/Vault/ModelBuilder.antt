-- ===== src/Vault/ModelBuilder.antt =====
-- plugin/src/vault/VaultModelBuilder.ts: how the vault's model is built from a list of entries. An
-- object of the model is a number that the heap gives its fields, so that the file map, a parent and
-- its `children` share it. Obsidian's `getAbstractFileByPath` is a parameter, and its constructors
-- are taken not to throw.
pub mod Folders
pub mod Order
pub mod Complete
use obsidian_remote_ssh.Prelude.{
  ℕ, ◌+◌, List, [], ◌∷◌, ◌++◌, Bool, true, false, if◌then◌else◌, ltb, ◌=ℕ◌, ◌==◌, ◌&&◌, ◌||◌, not,
  Str, str_eq, take, drop, Option, none, some, nat_eq,
}
use obsidian_remote_ssh.JsMap
use obsidian_remote_ssh.Mapping.PathMapper.{last_index_of}
use obsidian_remote_ssh.Vault.TreeSnapshot.{RemoteEntry}

pub record Stat : Type 0 where
  pub ctime : ℕ
  pub mtime : ℕ
  pub size : ℕ

-- A `TFile`, or a `TFolder` if it has `children`.
pub record Node : Type 0 where
  pub path : Str
  pub name : Str
  pub basename : Str
  pub extension : Str
  pub parent : Option ℕ
  pub children : Option (List ℕ)
  pub stat : Option Stat

pub data VaultEvent : Type 0 where
  create : (node : ℕ) → VaultEvent

pub record Vault : Type 0 where
  pub heap : List (ℕ × Node)
  pub next : ℕ
  pub root : ℕ
  pub file_map : List (Str × ℕ)
  pub triggered : List VaultEvent

pub data BuildError : Type 0 where
  empty_path parent_missing : (path : Str) → BuildError

pub record BuildResult : Type 0 where
  pub files_added : ℕ
  pub folders_added : ℕ
  pub skipped : ℕ
  pub errors : List BuildError

abbrev pub depth_of : Str → ℕ
depth_of [] = 0
depth_of (c ∷ path) = if c =ℕ 47 then depth_of path + 1 else depth_of path

-- `a < b` of strings.
abbrev pub str_lt : Str → Str → Bool
str_lt a [] = false
str_lt [] (d ∷ b) = true
str_lt (c ∷ a) (d ∷ b) = ltb c d || (c =ℕ d) && str_lt a b

-- Whether `byFoldersFirstThenDepth(a, b)` is not positive.
unfoldable pub goes_before : RemoteEntry → RemoteEntry → Bool
goes_before a b =
    if not (depth_of a.path =ℕ depth_of b.path)
    then ltb (depth_of a.path) (depth_of b.path)
    else if a.is_directory && not b.is_directory
    then true
    else if b.is_directory && not a.is_directory
    then false
    else not (str_lt b.path a.path)

unfoldable pub insert_ordered : RemoteEntry → List RemoteEntry → List RemoteEntry
insert_ordered e [] = e ∷ []
insert_ordered e (f ∷ fs) = if goes_before e f then e ∷ f ∷ fs else f ∷ insert_ordered e fs

-- `[...entries].sort(byFoldersFirstThenDepth)`
unfoldable pub ordered : List RemoteEntry → List RemoteEntry
unfolding insert_ordered
ordered [] = []
ordered (e ∷ es) = insert_ordered e (ordered es)

abbrev pub basename_of : Str → Str
basename_of path = elim (last_index_of 47 path) [ none ↦ path | some i ↦ drop (i + 1) path ]

-- `dot > 0 ? name.slice(0, dot) : name`, and the extension.
abbrev pub stem : Str → Str
stem name = elim (last_index_of 46 name) [
  | none ↦ name
  | some dot ↦ if ltb 0 dot then take dot name else name
]

abbrev pub extension_of : Str → Str
extension_of name = elim (last_index_of 46 name) [
  | none ↦ []
  | some dot ↦ if ltb 0 dot then drop (dot + 1) name else []
]

-- `parent.children.push(node)`
abbrev pub with_child : ℕ → Node → Node
with_child node n = record n {
  children = elim n.children [ none ↦ none | some kids ↦ some (kids ++ node ∷ []) ];
}

abbrev pub push_child : ℕ → ℕ → List (ℕ × Node) → List (ℕ × Node)
push_child parent node heap = elim (JsMap.get parent heap) [
  | none ↦ heap
  | some n ↦ JsMap.set parent (with_child node n) heap
]

-- A new object, in the file map and among its parent's children, and its event.
unfoldable pub insert_node : Node → ℕ → Vault → Vault
insert_node n parent v = record v {
  heap = push_child parent v.next (JsMap.set v.next n v.heap);
  next = v.next + 1;
  file_map = JsMap.set n.path v.next v.file_map;
  triggered = v.triggered ++ create v.next ∷ [];
}

abbrev pub folder_node : Str → ℕ → Node
folder_node path parent = record {
  path = path;
  name = basename_of path;
  basename = [];
  extension = [];
  parent = some parent;
  children = some [];
  stat = none;
}

abbrev pub file_node : RemoteEntry → ℕ → Node
file_node entry parent = record {
  path = entry.path;
  name = basename_of entry.path;
  basename = stem (basename_of entry.path);
  extension = extension_of (basename_of entry.path);
  parent = some parent;
  children = none;
  stat = some (record {
    ctime = if ltb 0 entry.ctime then entry.ctime else entry.mtime;
    mtime = entry.mtime;
    size = entry.size;
  });
}

abbrev pub insert_folder : Str → ℕ → Vault → Vault
insert_folder path parent v = insert_node (folder_node path parent) parent v

abbrev pub insert_file : RemoteEntry → ℕ → Vault → Vault
insert_file entry parent v = insert_node (file_node entry parent) parent v

-- The node if it is a folder.
abbrev pub if_folder : Vault → ℕ → Option ℕ
if_folder v node = elim (JsMap.get node v.heap) [
  | none ↦ none
  | some n ↦ elim n.children [ none ↦ none | some kids ↦ some node ]
]

abbrev pub no_result : BuildResult
no_result = record { files_added = 0; folders_added = 0; skipped = 0; errors = [] }

module _ (get_abstract_file_by_path : Vault → Str → Option ℕ) where
  unfoldable pub resolve_parent : Str → Vault → Option ℕ
  resolve_parent path v = elim (last_index_of 47 path) [
    | none ↦ some v.root
    | some i ↦ elim (get_abstract_file_by_path v (take i path)) [
      | none ↦ none
      | some node ↦ if_folder v node
    ]
  ]

  -- `insertBuildEntry`, by what is found at the path and by its parent.
  abbrev pub insert_found :
      Option ℕ → Option ℕ → RemoteEntry → Vault × BuildResult → Vault × BuildResult
  insert_found (some node) parent entry (v, result) =
      (v, record result { skipped = result.skipped + 1 })
  insert_found none none entry (v, result) =
      (v, record result { errors = result.errors ++ parent_missing entry.path ∷ [] })
  insert_found none (some parent) entry (v, result) =
      if entry.is_directory
      then (
        insert_folder entry.path parent v,
        record result { folders_added = result.folders_added + 1 },
      )
      else (insert_file entry parent v, record result { files_added = result.files_added + 1 })

  unfoldable pub insert_build_entry : RemoteEntry → Vault × BuildResult → Vault × BuildResult
  unfolding resolve_parent
  insert_build_entry entry (v, result) =
      if entry.path == []
      then (v, record result { errors = result.errors ++ empty_path entry.path ∷ [] })
      else insert_found (get_abstract_file_by_path v entry.path) (resolve_parent entry.path v) entry
          (v, result)

  -- The loop of `buildSync`, and of `buildChunked` whose chunks only pause it.
  unfoldable pub insert_all : List RemoteEntry → Vault × BuildResult → Vault × BuildResult
  unfolding insert_build_entry
  insert_all [] s = s
  insert_all (e ∷ es) s = insert_all es (insert_build_entry e s)

  unfoldable pub build_sync : List RemoteEntry → Vault → Vault × BuildResult
  unfolding insert_all ordered
  build_sync entries v = insert_all (ordered entries) (v, no_result)
