-- ===== src/Vault/TreeSnapshot/Model.antt =====
-- plugin/src/vault/TreeSnapshot.ts: the order of the entries that are collected from the model.
use mathlib.Core.List.{Perm}
use mathlib.Core.List.Perm
use obsidian_remote_ssh.Prelude.{
  ◌<◌, List, [], ◌∷◌, ◌++◌, true, false, Str, length-split_append, length-split_pos, All, ◌≡◌, ◌≢◌,
  ap, arith, Bool-cases, inl, inr,
}
use obsidian_remote_ssh.Vault.TreeSnapshot.{
  RemoteEntry, LoadedFileLike, model_entries, depth, goes_first, insert_entry, sort_entries,
  collect_model_entries,
}

-- Each entry may stand before all behind it.
abbrev pub IsOrdered : List RemoteEntry → Type 0
IsOrdered [] = Unit
IsOrdered (e ∷ es) = All (λ f. goes_first e f ≡ true) es × IsOrdered es

goes_first_trans :
    (a b c : RemoteEntry) → goes_first a b ≡ true → goes_first b c ≡ true → goes_first a c ≡ true
unfolding goes_first
goes_first_trans a b c h k = ground arith

goes_first_total : (a b : RemoteEntry) → goes_first a b ≡ false → goes_first b a ≡ true
unfolding goes_first
goes_first_total a b h = ground arith

insert_entry-All :
    (a e : RemoteEntry) (es : List RemoteEntry)
    → goes_first a e ≡ true
    → All (λ f. goes_first a f ≡ true) es
    → All (λ f. goes_first a f ≡ true) (insert_entry e es)
unfolding insert_entry
insert_entry-All a e [] h k = (h, tt)
insert_entry-All a e (f ∷ fs) h k = elim (Bool-cases (goes_first e f)) [
  | inl y ↦ rw (insert_entry, y) (h, (k.0, k.1))
  | inr n ↦ rw (insert_entry, n) (k.0, insert_entry-All a e fs h k.1)
]

All-goes_first :
    (a b : RemoteEntry) (es : List RemoteEntry)
    → goes_first a b ≡ true
    → All (λ f. goes_first b f ≡ true) es
    → All (λ f. goes_first a f ≡ true) es
All-goes_first a b [] h k = tt
All-goes_first a b (f ∷ fs) h k = (goes_first_trans a b f h k.0, All-goes_first a b fs h k.1)

insert_entry-IsOrdered :
    (e : RemoteEntry) (es : List RemoteEntry) → IsOrdered es → IsOrdered (insert_entry e es)
unfolding insert_entry
insert_entry-IsOrdered e [] h = (tt, tt)
insert_entry-IsOrdered e (f ∷ fs) h = elim (Bool-cases (goes_first e f)) [
  | inl y ↦ rw (insert_entry, y) ((y, All-goes_first e f fs y h.0), (h.0, h.1))
  | inr n ↦
      rw (insert_entry, n)
        (insert_entry-All f e fs (goes_first_total e f n) h.0, insert_entry-IsOrdered e fs h.1)
]

sort_entries-IsOrdered : (es : List RemoteEntry) → IsOrdered (sort_entries es)
unfolding sort_entries
sort_entries-IsOrdered [] = tt
sort_entries-IsOrdered (e ∷ es) =
    insert_entry-IsOrdered e (sort_entries es) (sort_entries-IsOrdered es)

insert_entry-Perm : (e : RemoteEntry) (es : List RemoteEntry) → Perm (insert_entry e es) (e ∷ es)
unfolding insert_entry
insert_entry-Perm e [] = Perm.refl (e ∷ [])
insert_entry-Perm e (f ∷ fs) = elim (Bool-cases (goes_first e f)) [
  | inl y ↦ rw (insert_entry, y) (Perm.refl (e ∷ f ∷ fs))
  | inr n ↦
      rw (insert_entry, n) (Perm.trans (Perm.cons f (insert_entry-Perm e fs)) (Perm.swap e f fs))
]

sort_entries-Perm : (es : List RemoteEntry) → Perm (sort_entries es) es
unfolding sort_entries
sort_entries-Perm [] = Perm.refl []
sort_entries-Perm (e ∷ es) =
    Perm.trans (insert_entry-Perm e (sort_entries es)) (Perm.cons e (sort_entries-Perm es))

-- No entry stands in front of one that it lies in.
abbrev pub AreParentsFirst : List RemoteEntry → Type 0
AreParentsFirst [] = Unit
AreParentsFirst (e ∷ es) =
    All (λ f. (name : Str) → e.path ≢ f.path ++ 47 ∷ name) es × AreParentsFirst es

depth-child : (p name : Str) → depth p < depth (p ++ 47 ∷ name)
unfolding depth
depth-child p name = omega (arith, length-split_append 47 p name, length-split_pos 47 name)

goes_first-parent :
    (e f : RemoteEntry) (name : Str) → goes_first e f ≡ true → e.path ≢ f.path ++ 47 ∷ name
unfolding goes_first
goes_first-parent e f name h q = contradiction (ap depth q) (depth-child f.path name)
  where
    contradiction :
        depth e.path ≡ depth (f.path ++ 47 ∷ name) → depth f.path < depth (f.path ++ 47 ∷ name) → ⊥
    contradiction same deeper = ground arith

IsOrdered-parents : (es : List RemoteEntry) → IsOrdered es → AreParentsFirst es
IsOrdered-parents [] h = tt
IsOrdered-parents (e ∷ es) h = (behind es h.0, IsOrdered-parents es h.1)
  where
    behind :
        (fs : List RemoteEntry)
        → All (λ f. goes_first e f ≡ true) fs
        → All (λ f. (name : Str) → e.path ≢ f.path ++ 47 ∷ name) fs
    behind [] k = tt
    behind (f ∷ fs) k = ((λ name. goes_first-parent e f name k.0), behind fs k.1)

-- The entries collected from the model's files are those that the loop makes, each as often, and
-- no folder stands behind an entry that lies in it; each may stand before all behind it by the
-- comparison of the sort.
pub collect_model_entries-IsOrdered :
    (files : List LoadedFileLike) (config_dir : Str)
    → let out = collect_model_entries files config_dir in
      IsOrdered out × AreParentsFirst out × Perm out (model_entries config_dir files)
unfolding collect_model_entries
collect_model_entries-IsOrdered files config_dir =
    let es = model_entries config_dir files in
    let sorted = sort_entries-IsOrdered es in
    (sorted, IsOrdered-parents (sort_entries es) sorted, sort_entries-Perm es)
