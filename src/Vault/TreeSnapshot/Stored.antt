-- ===== src/Vault/TreeSnapshot/Stored.antt =====
-- plugin/src/vault/TreeSnapshot.ts: what is read from a stored snapshot.
use native.Mathlib.Decide.{ℕ_discrete}
use obsidian_remote_ssh.Prelude.{
  ◌+◌, ◌≤◌, List, [], ◌∷◌, true, false, ltb, ◌=ℕ◌, ◌==◌, ==_refl, ◌&&◌, Str, str_eq, str_discrete,
  codes, length, All, Option, none, some, ◌≡◌, refl, ap, ◌∙◌, arith, Bool-cases, inl, inr,
}
use obsidian_remote_ssh.Json.{Json, num, str, arr, obj, Items, nil, cons, JsonText, member}
use obsidian_remote_ssh.Vault.TreeSnapshot.{
  RemoteEntry, max_entries, version, is_usable_path, read_entry, read_entries, items_length,
  read_fields, read_parsed, read_tree_snapshot, pack_entry, pack_entries, write_tree_snapshot,
}

abbrev pub IsUsable : Str → RemoteEntry → Type 0
IsUsable config_dir e = is_usable_path e.path config_dir ≡ true

read_entry-pack_entry :
    (config_dir : Str) (e : RemoteEntry)
    → IsUsable config_dir e
    → read_entry config_dir (pack_entry e) ≡ some e
unfolding read_entry pack_entry
read_entry-pack_entry config_dir e h = elim (Bool-cases e.is_directory) [
  | inl y ↦ rw (h, y) refl
  | inr n ↦ rw (h, n) refl
]

read_entries-pack_entries :
    (config_dir : Str) (es : List RemoteEntry)
    → All (IsUsable config_dir) es
    → read_entries config_dir (pack_entries es) ≡ es
unfolding read_entries pack_entries
read_entries-pack_entries config_dir [] h = refl
read_entries-pack_entries config_dir (e ∷ es) h =
    rw (read_entries, read_entry-pack_entry config_dir e h.0)
      (ap (◌∷◌ e) (read_entries-pack_entries config_dir es h.1))

items_length-pack_entries : (es : List RemoteEntry) → items_length (pack_entries es) ≡ length es
unfolding pack_entries
items_length-pack_entries [] = refl
items_length-pack_entries (e ∷ es) = omega (arith, items_length-pack_entries es)

read_fields_own :
    (remote_path config_dir : Str) (es : List RemoteEntry)
    → All (IsUsable config_dir) es
    → length es ≤ max_entries
    → read_fields remote_path config_dir
        (some (num version))
        (some (str remote_path))
        (some (arr (pack_entries es)))
      ≡ some es
read_fields_own remote_path config_dir es usable few =
    let fits : ltb max_entries (items_length (pack_entries es)) ≡ false =
      ground (arith, items_length-pack_entries es) in
    rw (==_refl remote_path, fits) (ap some (read_entries-pack_entries config_dir es usable))

-- A snapshot of at most `MAX_ENTRIES` entries with usable paths, written for a remote path and read
-- for the same one, gives the entries back: the same ones in the same order.
pub read_tree_snapshot-write_tree_snapshot :
    (json : JsonText) (remote_path config_dir : Str) (es : List RemoteEntry)
    → All (IsUsable config_dir) es
    → length es ≤ max_entries
    → read_tree_snapshot json
        (some (write_tree_snapshot json remote_path es))
        remote_path
        config_dir
      ≡ some es
unfolding read_tree_snapshot write_tree_snapshot member str_discrete ℕ_discrete
read_tree_snapshot-write_tree_snapshot json remote_path config_dir es usable few =
    ap (read_parsed remote_path config_dir) (json.parse-stringify _)
    ∙ read_fields_own remote_path config_dir es usable few

-- What is returned for a file: nothing, or few enough entries that are all usable.
abbrev pub Sound : Str → Option (List RemoteEntry) → Type 0
Sound config_dir none = Unit
Sound config_dir (some es) = All (IsUsable config_dir) es × (length es ≤ max_entries)

-- The same of an entry.
abbrev SoundEntry : Str → Option RemoteEntry → Type 0
SoundEntry config_dir none = Unit
SoundEntry config_dir (some e) = IsUsable config_dir e

read_entry-Sound : (config_dir : Str) (v : Json) → SoundEntry config_dir (read_entry config_dir v)
unfolding read_entry
read_entry-Sound config_dir
      (arr (cons (str p) (cons d (cons (num m) (cons (num s) (cons (num c) more)))))) =
    elim (Bool-cases (is_usable_path p config_dir)) [
      | inl y ↦ rw (read_entry, y) y
      | inr n ↦ rw (read_entry, n) tt
    ]
read_entry-Sound config_dir _ = tt

read_entries-Sound :
    (config_dir : Str) (vs : Items)
    → All (IsUsable config_dir) (read_entries config_dir vs)
      × (length (read_entries config_dir vs) ≤ items_length vs)
unfolding read_entries
read_entries-Sound config_dir nil = (tt, omega arith)
read_entries-Sound config_dir (cons v vs) =
    by_entry (read_entry config_dir v) (read_entry-Sound config_dir v)
      (read_entries-Sound config_dir vs)
  where
    by_entry :
        (r : Option RemoteEntry)
        → SoundEntry config_dir r
        → All (IsUsable config_dir) (read_entries config_dir vs)
          × (length (read_entries config_dir vs) ≤ items_length vs)
        → let es : List RemoteEntry = elim r [
          | none ↦ read_entries config_dir vs
          | some e ↦ e ∷ read_entries config_dir vs
        ] in
          All (IsUsable config_dir) es × (length es ≤ items_length vs + 1)
    by_entry none h rest = (rest.0, omega (arith, rest.1))
    by_entry (some e) h rest = ((h, rest.0), omega (arith, rest.1))

read_fields-Sound :
    (remote_path config_dir : Str) (v r es : Option Json)
    → Sound config_dir (read_fields remote_path config_dir v r es)
read_fields-Sound remote_path config_dir (some (num v)) (some (str r)) (some (arr es)) =
    elim (Bool-cases (v =ℕ version && r == remote_path)) [
      | inr other ↦ rw other tt
      | inl own ↦ elim (Bool-cases (ltb max_entries (items_length es))) [
        | inl many ↦ rw (own, many) tt
        | inr few ↦
            let h = read_entries-Sound config_dir es in rw (own, few) (h.0, ground (arith, h.1))
      ]
    ]
read_fields-Sound remote_path config_dir _ _ _ = tt

-- Whatever the file holds, and also when it cannot be read or is no JSON: what is returned is
-- nothing, or at most `MAX_ENTRIES` entries whose paths are all usable, so none is absolute, has a
-- backslash or a segment `.` or `..`, or lies in the config dir.
pub read_tree_snapshot-Sound :
    (json : JsonText) (file : Option Str) (remote_path config_dir : Str)
    → Sound config_dir (read_tree_snapshot json file remote_path config_dir)
unfolding read_tree_snapshot
read_tree_snapshot-Sound json none remote_path config_dir = tt
read_tree_snapshot-Sound json (some raw) remote_path config_dir = by_value (json.parse raw)
  where
    by_value : (v : Option Json) → Sound config_dir (read_parsed remote_path config_dir v)
    by_value (some (obj fs)) =
        read_fields-Sound remote_path config_dir (member (codes "version") fs)
          (member (codes "remotePath") fs) (member (codes "entries") fs)
    by_value _ = tt
