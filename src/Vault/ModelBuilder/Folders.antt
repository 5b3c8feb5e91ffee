-- ===== src/Vault/ModelBuilder/Folders.antt =====
-- plugin/src/vault/VaultModelBuilder.ts: what an insertion does to the objects of the model.
use obsidian_remote_ssh.Prelude.{
  ℕ, ◌≤◌, List, [], ◌∷◌, ◌++◌, Bool, true, false, if◌then◌else◌, ◌==◌, ==_iff, ==_refl, Str, str_eq,
  nat_eq, Option, none, some, ◌≡◌, refl, ap, subst, ◌⊎◌, sym, ◌∙◌, arith, Bool-cases, Option-cases,
  inl, inr,
}
use obsidian_remote_ssh.JsMap
use obsidian_remote_ssh.JsMap.Laws.{get-set}
use obsidian_remote_ssh.Vault.ModelBuilder.{
  Node, Vault, with_child, push_child, insert_node, insert_folder, folder_node, if_folder,
}

-- The numbers from `next` on are those of no object.
abbrev pub IsFresh : Vault → Type 0
IsFresh v = (i : ℕ) → v.next ≤ i → JsMap.get i v.heap ≡ none

-- Whether an entry of the heap is a folder.
abbrev pub has_children : Option Node → Bool
has_children none = false
has_children (some n) = elim n.children [ none ↦ false | some kids ↦ true ]

abbrev pub IsFolder : Vault → ℕ → Type 0
IsFolder v i = has_children (JsMap.get i v.heap) ≡ true

-- A path under which the model has a folder.
abbrev pub IsFolderAt : Vault → Str → Type 0
IsFolderAt v p = (i : ℕ) × (JsMap.get p v.file_map ≡ some i) × IsFolder v i

pub if_folder-has_children :
    (v : Vault) (i : ℕ)
    → if_folder v i ≡ (if has_children (JsMap.get i v.heap) then some i else none)
if_folder-has_children v i = by_node (JsMap.get i v.heap)
  where
    by_children :
        (kids : Option (List ℕ))
        → (elim kids as (λ _. Option ℕ) [ none ↦ none | some _ ↦ some i ])
          ≡ (if elim kids as (λ _. Bool) [ none ↦ false | some _ ↦ true ] then some i else none)
    by_children none = refl
    by_children (some kids) = refl

    by_node :
        (n : Option Node)
        → (elim n as (λ _. Option ℕ) [
          | none ↦ none
          | some m ↦ elim m.children [ none ↦ none | some kids ↦ some i ]
        ])
          ≡ (if has_children n then some i else none)
    by_node none = refl
    by_node (some m) = by_children m.children

has_children-with_child :
    (node : ℕ) (n : Node) → has_children (some (with_child node n)) ≡ has_children (some n)
has_children-with_child node n = by_children n.children
  where
    by_children :
        (kids : Option (List ℕ))
        → has_children (
            some (record n {
              children = elim kids [ none ↦ none | some ks ↦ some (ks ++ node ∷ []) ];
            }))
          ≡ has_children (some (record n { children = kids }))
    by_children none = refl
    by_children (some kids) = refl

-- Where a child is added, the same objects exist and the same are folders.
has_children-push_child :
    (parent node i : ℕ) (heap : List (ℕ × Node))
    → has_children (JsMap.get i (push_child parent node heap)) ≡ has_children (JsMap.get i heap)
has_children-push_child parent node i heap = elim (Option-cases (JsMap.get parent heap)) [
  | inl gone ↦ rw (push_child, gone) refl
  | inr (n, found) ↦ elim (Bool-cases (parent == i)) [
    | inl same ↦
        rw (push_child, found, get-set parent i (with_child node n) heap, same)
          (has_children-with_child node n
            ∙ ap has_children
                (sym (subst (λ j. JsMap.get j heap ≡ some n) ((==_iff parent i).0 same) found)))
    | inr other ↦ rw (push_child, found, get-set parent i (with_child node n) heap, other) refl
  ]
]

get-push_child_absent :
    (parent node i : ℕ) (heap : List (ℕ × Node))
    → JsMap.get i heap ≡ none
    → JsMap.get i (push_child parent node heap) ≡ none
get-push_child_absent parent node i heap h = elim (Option-cases (JsMap.get parent heap)) [
  | inl gone ↦ rw (push_child, gone) h
  | inr (n, found) ↦
      rw (push_child, found)
        (ground (arith, get-set parent i (with_child node n) heap, ==_iff parent i))
]

pub insert_node-IsFresh :
    (n : Node) (parent : ℕ) (v : Vault) → IsFresh v → IsFresh (insert_node n parent v)
unfolding insert_node
insert_node-IsFresh n parent v fresh i above =
    get-push_child_absent parent v.next i (JsMap.set v.next n v.heap)
      (ground (arith, get-set v.next i n v.heap, ==_iff v.next i, fresh i))

pub insert_node-IsFolder :
    (n : Node) (parent i : ℕ) (v : Vault)
    → IsFresh v
    → IsFolder v i
    → IsFolder (insert_node n parent v) i
unfolding insert_node
insert_node-IsFolder n parent i v fresh h =
    has_children-push_child parent v.next i (JsMap.set v.next n v.heap)
    ∙ kept (Bool-cases (v.next == i))
  where
    kept :
        ((v.next == i) ≡ true) ⊎ ((v.next == i) ≡ false)
        → has_children (JsMap.get i (JsMap.set v.next n v.heap)) ≡ true
    kept (inr other) = rw (get-set v.next i n v.heap, other) h
    kept (inl same) =
        let gone : JsMap.get i v.heap ≡ none = fresh i (ground (arith, ==_iff v.next i)) in
        absurd (ground (arith, ap has_children gone))

-- A folder that is inserted is there, under its path.
pub insert_folder-IsFolderAt :
    (path : Str) (parent : ℕ) (v : Vault) → IsFolderAt (insert_folder path parent v) path
unfolding insert_node
insert_folder-IsFolderAt path parent v =
    let n = folder_node path parent in
    let own : has_children (JsMap.get v.next (JsMap.set v.next n v.heap)) ≡ true =
      rw (get-set v.next v.next n v.heap, ==_refl v.next) refl in
    (
      v.next,
      get-set path path v.next v.file_map ∙ rw (==_refl path) refl,
      has_children-push_child parent v.next v.next (JsMap.set v.next n v.heap) ∙ own,
    )

-- And so is every folder that was there, under another path.
pub insert_node-IsFolderAt :
    (n : Node) (parent : ℕ) (v : Vault) (p : Str)
    → IsFresh v
    → JsMap.get n.path v.file_map ≡ none
    → IsFolderAt v p
    → IsFolderAt (insert_node n parent v) p
insert_node-IsFolderAt n parent v p fresh absent (i, found, h) =
    (i, unfold insert_node in other, insert_node-IsFolder n parent i v fresh h)
  where
    other : JsMap.get p (JsMap.set n.path v.next v.file_map) ≡ some i
    other = ground (arith, get-set n.path p v.next v.file_map, ==_iff n.path p)
