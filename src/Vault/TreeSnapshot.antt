-- ===== src/Vault/TreeSnapshot.antt =====
-- plugin/src/vault/TreeSnapshot.ts: the copy of the remote tree that a device keeps. The file is
-- what `readFileSync` gives of it, none if that throws; times and sizes are natural numbers.
pub mod Stored
pub mod Model
use obsidian_remote_ssh.Prelude.{
  ℕ, ◌+◌, List, [], ◌∷◌, ◌++◌, Bool, true, false, if◌then◌else◌, ltb, ◌=ℕ◌, ◌==◌, ◌&&◌, ◌||◌, not,
  Str, str_eq, codes, starts_with, split, str_discrete, length, any, Option, none, some,
}
use obsidian_remote_ssh.Json.{
  Json, null, bool, num, str, arr, obj, Items, nil, cons, Fields, end, field, JsonText, member,
}

pub record RemoteEntry : Type 0 where
  pub path : Str
  pub is_directory : Bool
  pub ctime : ℕ
  pub mtime : ℕ
  pub size : ℕ

abbrev pub version : ℕ
version = 2

abbrev pub max_entries : ℕ
max_entries = 500000

abbrev pub is_usable_segment : Str → Bool
is_usable_segment s = not (s == []) && not (s == codes ".") && not (s == codes "..")

-- `xs.every(p)`
abbrev pub every : (Str → Bool) → List Str → Bool
every p [] = true
every p (x ∷ xs) = p x && every p xs

unfoldable pub is_usable_path : Str → Str → Bool
unfolding split str_discrete
is_usable_path p config_dir =
    if p == [] || starts_with p (codes "/") || any (λ c. c =ℕ 92) p
    then false
    else if p == config_dir || starts_with p (config_dir ++ codes "/")
    then false
    else every is_usable_segment (split 47 p)

-- The entries of a parsed file, without the ones that are no packed entries or not usable.
unfoldable pub read_entry : Str → Json → Option RemoteEntry
read_entry config_dir
      (arr (cons (str p) (cons d (cons (num m) (cons (num s) (cons (num c) more)))))) =
    if is_usable_path p config_dir
    then some (record {
      path = p;
      is_directory = elim d [ num n ↦ n =ℕ 1 | _ ↦ false ];
      ctime = c;
      mtime = m;
      size = s;
    })
    else none
read_entry config_dir _ = none

unfoldable pub read_entries : Str → Items → List RemoteEntry
unfolding read_entry
read_entries config_dir nil = []
read_entries config_dir (cons v vs) =
    let rest = read_entries config_dir vs in
    elim (read_entry config_dir v) [ none ↦ rest | some e ↦ e ∷ rest ]

abbrev pub items_length : Items → ℕ
items_length nil = 0
items_length (cons v vs) = items_length vs + 1

-- `readTreeSnapshot` from the three fields on.
abbrev pub read_fields :
    Str → Str → Option Json → Option Json → Option Json → Option (List RemoteEntry)
read_fields remote_path config_dir (some (num v)) (some (str r)) (some (arr es)) =
    if v =ℕ version && r == remote_path
    then (if ltb max_entries (items_length es) then none else some (read_entries config_dir es))
    else none
read_fields remote_path config_dir _ _ _ = none

-- `readTreeSnapshot` from the parsed file on. Of `null` no field can be read, which throws.
abbrev pub read_parsed : Str → Str → Option Json → Option (List RemoteEntry)
read_parsed remote_path config_dir (some (obj fs)) =
    read_fields remote_path config_dir (member (codes "version") fs)
      (member (codes "remotePath") fs) (member (codes "entries") fs)
read_parsed remote_path config_dir _ = none

unfoldable pub read_tree_snapshot : JsonText → Option Str → Str → Str → Option (List RemoteEntry)
read_tree_snapshot json none remote_path config_dir = none
read_tree_snapshot json (some raw) remote_path config_dir =
    read_parsed remote_path config_dir (json.parse raw)

unfoldable pub pack_entry : RemoteEntry → Json
pack_entry e = arr (
    cons (str e.path) (
      cons (num (if e.is_directory then 1 else 0))
        (cons (num e.mtime) (cons (num e.size) (cons (num e.ctime) nil)))))

unfoldable pub pack_entries : List RemoteEntry → Items
unfolding pack_entry
pack_entries [] = nil
pack_entries (e ∷ es) = cons (pack_entry e) (pack_entries es)

-- What `writeTreeSnapshot` puts into the file.
unfoldable pub write_tree_snapshot : JsonText → Str → List RemoteEntry → Str
unfolding pack_entries
write_tree_snapshot json remote_path entries = json.stringify (
    obj (
      field (codes "version") (num version) (
        field (codes "remotePath") (str remote_path)
          (field (codes "entries") (arr (pack_entries entries)) end))))

pub record FileStat : Type 0 where
  pub ctime : Option ℕ
  pub mtime : ℕ
  pub size : ℕ

-- `children` is whether it is an array.
pub record LoadedFileLike : Type 0 where
  pub path : Str
  pub stat : Option FileStat
  pub children : Bool

abbrev pub model_ctime : Option FileStat → ℕ
model_ctime none = 0
model_ctime (some s) = elim s.ctime [ none ↦ s.mtime | some c ↦ c ]

abbrev pub model_entry : LoadedFileLike → RemoteEntry
model_entry f = record {
  path = f.path;
  is_directory = f.children;
  ctime = if f.children then 0 else model_ctime f.stat;
  mtime = if f.children then 0 else elim f.stat [ none ↦ 0 | some s ↦ s.mtime ];
  size = if f.children then 0 else elim f.stat [ none ↦ 0 | some s ↦ s.size ];
}

abbrev pub is_left_out : Str → Str → Bool
is_left_out path config_dir =
    path == []
    || path == codes "/"
    || path == config_dir
    || starts_with path (config_dir ++ codes "/")

-- The loop of `collectModelEntries`.
unfoldable pub model_entries : Str → List LoadedFileLike → List RemoteEntry
unfolding str_discrete
model_entries config_dir [] = []
model_entries config_dir (f ∷ fs) =
    let rest = model_entries config_dir fs in
    if is_left_out f.path config_dir then rest else model_entry f ∷ rest

unfoldable pub depth : Str → ℕ
unfolding split
depth p = length (split 47 p)

-- Whether `a` may stand before `b`: the comparison is not positive.
unfoldable pub goes_first : RemoteEntry → RemoteEntry → Bool
unfolding depth
goes_first a b =
    if depth a.path =ℕ depth b.path
    then a.is_directory || not b.is_directory
    else ltb (depth a.path) (depth b.path)

unfoldable pub insert_entry : RemoteEntry → List RemoteEntry → List RemoteEntry
insert_entry e [] = e ∷ []
insert_entry e (f ∷ fs) = if goes_first e f then e ∷ f ∷ fs else f ∷ insert_entry e fs

-- `out.sort`, which is stable.
unfoldable pub sort_entries : List RemoteEntry → List RemoteEntry
unfolding insert_entry
sort_entries [] = []
sort_entries (e ∷ es) = insert_entry e (sort_entries es)

unfoldable pub collect_model_entries : List LoadedFileLike → Str → List RemoteEntry
unfolding model_entries sort_entries
collect_model_entries files config_dir = sort_entries (model_entries config_dir files)
