-- ===== src/Vault/ModelBuilder/Complete.antt =====
-- plugin/src/vault/VaultModelBuilder.ts: a build from a complete list of entries has no errors.
use obsidian_remote_ssh.Prelude.{
  ℕ, ◌+◌, List, [], ◌∷◌, true, false, if◌then◌else◌, ◌==◌, ==_iff, Str, str_eq, nat_eq, take,
  length, All, Option, none, some, ◌≡◌, ◌≢◌, ◌⊎◌, refl, sym, ◌∙◌, subst, arith, Bool-cases,
  Option-cases, inl, inr,
}
use obsidian_remote_ssh.JsMap
use obsidian_remote_ssh.JsMap.Laws.{get-set}
use obsidian_remote_ssh.Mapping.PathMapper.{last_index_of}
use obsidian_remote_ssh.Vault.TreeSnapshot.{RemoteEntry}
use obsidian_remote_ssh.Vault.ModelBuilder.{
  Node, Vault, BuildResult, ordered, insert_node, insert_folder, insert_file, folder_node,
  file_node, if_folder, resolve_parent, insert_found, insert_build_entry, insert_all, build_sync,
  no_result,
}
use obsidian_remote_ssh.Vault.ModelBuilder.Folders.{
  IsFresh, IsFolder, IsFolderAt, if_folder-has_children, insert_node-IsFresh, insert_node-IsFolder,
  insert_folder-IsFolderAt, insert_node-IsFolderAt,
}
use obsidian_remote_ssh.Vault.ModelBuilder.Order.{
  HasFolder, ParentIn, HasParent, Ready, AreDistinct, All-ordered, Rises-ordered,
  AreDistinct-ordered, HasFolder-ordered, length-ordered, Rises-Ready,
}

-- A vault into which entries can be inserted.
pub record IsOpen (v : Vault) : Type 0 where
  pub fresh : IsFresh v
  pub root_folder : IsFolder v v.root

-- What a build without errors counts.
abbrev pub Counted : BuildResult → ℕ → Type 0
Counted r n = (r.errors ≡ []) × (r.skipped ≡ 0) × (r.files_added + r.folders_added ≡ n)

insert_node-IsOpen :
    (n : Node) (parent : ℕ) (v : Vault) → IsOpen v → IsOpen (insert_node n parent v)
unfolding insert_node
insert_node-IsOpen n parent v h = record {
  fresh = insert_node-IsFresh n parent v h.fresh;
  root_folder = insert_node-IsFolder n parent v.root v h.fresh h.root_folder;
}

-- The vault with an entry inserted.
abbrev inserted : RemoteEntry → ℕ → Vault → Vault
inserted e parent v =
    if e.is_directory then insert_folder e.path parent v else insert_file e parent v

abbrev Inserted : RemoteEntry → Vault → Vault → Type 0
Inserted e v v' = (parent : ℕ) × (v' ≡ inserted e parent v)

inserted-IsOpen :
    (e : RemoteEntry) (parent : ℕ) (v : Vault) → IsOpen v → IsOpen (inserted e parent v)
inserted-IsOpen e parent v h = elim (Bool-cases e.is_directory) [
  | inl y ↦ rw y (insert_node-IsOpen (folder_node e.path parent) parent v h)
  | inr n ↦ rw n (insert_node-IsOpen (file_node e parent) parent v h)
]

get-inserted :
    (e : RemoteEntry) (parent : ℕ) (v : Vault) (p : Str)
    → JsMap.get p (inserted e parent v).file_map
      ≡ (if e.path == p then some v.next else JsMap.get p v.file_map)
unfolding insert_node
get-inserted e parent v p = elim (Bool-cases e.is_directory) [
  | inl y ↦ rw y (get-set e.path p v.next v.file_map)
  | inr n ↦ rw n (get-set e.path p v.next v.file_map)
]

inserted-IsFolderAt :
    (e : RemoteEntry) (parent : ℕ) (v : Vault) (p : Str)
    → IsOpen v
    → JsMap.get e.path v.file_map ≡ none
    → IsFolderAt v p ⊎ ((e.is_directory ≡ true) × (e.path ≡ p))
    → IsFolderAt (inserted e parent v) p
inserted-IsFolderAt e parent v p h absent (inl old) = elim (Bool-cases e.is_directory) [
  | inl y ↦ rw y (insert_node-IsFolderAt (folder_node e.path parent) parent v p h.fresh absent old)
  | inr n ↦ rw n (insert_node-IsFolderAt (file_node e parent) parent v p h.fresh absent old)
]
inserted-IsFolderAt e parent v p h absent (inr (y, same)) =
    subst (IsFolderAt (inserted e parent v)) same (rw y (insert_folder-IsFolderAt e.path parent v))

-- A path that the model has.
abbrev pub IsThere : Vault → Str → Type 0
IsThere v p = JsMap.get p v.file_map ≢ none

inserted-IsThere :
    (e : RemoteEntry) (parent : ℕ) (v : Vault) (p : Str)
    → IsThere v p ⊎ (e.path ≡ p)
    → IsThere (inserted e parent v) p
inserted-IsThere e parent v p h gone = impossible h (sym (get-inserted e parent v p) ∙ gone)
  where
    impossible :
        IsThere v p ⊎ (e.path ≡ p)
        → (if e.path == p then some v.next else JsMap.get p v.file_map) ≡ none
        → ⊥
    impossible (inl old) q = ground (arith, ==_iff e.path p)
    impossible (inr own) q = ground (arith, ==_iff e.path p)

-- What a build makes of a vault: the counts, and what is in the model.
abbrev Built : List RemoteEntry → ℕ → Vault → Vault × BuildResult → Type 0
Built es n v s =
    Counted s.1 n × ((p : Str) → IsThere v p → IsThere s.0 p) × All (λ e. IsThere s.0 e.path) es

-- The entries whose paths the model does not have yet.
abbrev pub AreAbsent : Vault → List RemoteEntry → Type 0
AreAbsent v = All (λ f. JsMap.get f.path v.file_map ≡ none)

inserted-AreAbsent :
    (e : RemoteEntry) (parent : ℕ) (v : Vault) (es : List RemoteEntry)
    → All (λ f. e.path ≢ f.path) es
    → AreAbsent v es
    → AreAbsent (inserted e parent v) es
inserted-AreAbsent e parent v [] k h = tt
inserted-AreAbsent e parent v (f ∷ fs) k h =
    (get-inserted e parent v f.path ∙ other (k.0) h.0, inserted-AreAbsent e parent v fs k.1 h.1)
  where
    other :
        e.path ≢ f.path
        → JsMap.get f.path v.file_map ≡ none
        → (if e.path == f.path then some v.next else JsMap.get f.path v.file_map) ≡ none
    other d a = ground (arith, ==_iff e.path f.path)

module _ (find : Vault → Str → Option ℕ)
    (finds : (v : Vault) (p : Str) → find v p ≡ JsMap.get p v.file_map) where
  resolve_parent-some :
      (path : Str) (v : Vault)
      → IsOpen v
      → ParentIn (IsFolderAt v) path
      → (parent : ℕ) × (resolve_parent find path v ≡ some parent)
  unfolding resolve_parent
  resolve_parent-some path v h inside = elim (Option-cases (last_index_of 47 path)) [
    | inl top ↦ (v.root, rw (resolve_parent, top) refl)
    | inr (i, at) ↦
        let (node, found, folder) = inside i at in
        let is_folder : if_folder v node ≡ some node =
          if_folder-has_children v node ∙ rw folder refl in
        (node, rw (resolve_parent, at, finds v (take i path), found) is_folder)
  ]

  insert_found-none :
      (e : RemoteEntry) (v : Vault) (r : BuildResult) (parent n : ℕ)
      → Counted r n
      → let s = insert_found find none (some parent) e (v, r) in
        Inserted e v s.0 × Counted s.1 (n + 1)
  insert_found-none e v r parent n h = elim (Bool-cases e.is_directory) [
    | inl y ↦ rw y ((parent, refl), (h.0, h.1, omega (arith, h.2)))
    | inr k ↦ rw k ((parent, refl), (h.0, h.1, omega (arith, h.2)))
  ]

  insert_build_entry-Inserted :
      (e : RemoteEntry) (v : Vault) (r : BuildResult) (n : ℕ)
      → IsOpen v
      → e.path ≢ []
      → JsMap.get e.path v.file_map ≡ none
      → ParentIn (IsFolderAt v) e.path
      → Counted r n
      → let s = insert_build_entry find e (v, r) in Inserted e v s.0 × Counted s.1 (n + 1)
  unfolding insert_build_entry
  insert_build_entry-Inserted e v r n h named absent inside c =
      let (parent, resolved) = resolve_parent-some e.path v h inside in
      let some_path : (e.path == []) ≡ false = ground (arith, ==_iff e.path []) in
      rw (insert_build_entry, some_path, finds v e.path, absent, resolved)
        (insert_found-none e v r parent n c)

  insert_all-Built :
      (es : List RemoteEntry) (known : Str → Type 0) (v : Vault) (r : BuildResult) (n : ℕ)
      → IsOpen v
      → ((p : Str) → known p → IsFolderAt v p)
      → Ready known es
      → AreDistinct es
      → AreAbsent v es
      → All (λ e. e.path ≢ []) es
      → Counted r n
      → Built es (n + length es) v (insert_all find es (v, r))
  unfolding insert_all
  insert_all-Built [] known v r n h k ready distinct absent named c =
      ((c.0, c.1, omega (arith, c.2)), (λ p q. q), tt)
  insert_all-Built (e ∷ es) known v r n h k ready distinct absent named c =
      let s = insert_build_entry find e (v, r) in
      let ((parent, made), c') =
        insert_build_entry-Inserted e v r n h named.0 absent.0
          (λ i at. k (take i e.path) (ready.0 i at)) c in
      let out =
        insert_all-Built es (λ p. known p ⊎ ((e.is_directory ≡ true) × (e.path ≡ p))) s.0 s.1
          (n + 1) (subst IsOpen (sym made) (inserted-IsOpen e parent v h))
          (λ p q.
            subst (λ w. IsFolderAt w p) (sym made)
              (inserted-IsFolderAt e parent v p h absent.0 (old p q)))
          ready.1 distinct.1
          (subst (λ w. AreAbsent w es) (sym made)
            (inserted-AreAbsent e parent v es distinct.0 absent.1))
          named.1 c' in
      let kept : (p : Str) → IsThere v p ⊎ (e.path ≡ p) → IsThere s.0 p =
        λ p q. subst (λ w. IsThere w p) (sym made) (inserted-IsThere e parent v p q) in
      let counts = out.0 in
      (
        (counts.0, counts.1, omega (arith, counts.2)),
        (λ p q. out.1 p (kept p (inl q))),
        (out.1 e.path (kept e.path (inr refl)), out.2),
      )
    where
      old :
          (p : Str)
          → known p ⊎ ((e.is_directory ≡ true) × (e.path ≡ p))
          → IsFolderAt v p ⊎ ((e.is_directory ≡ true) × (e.path ≡ p))
      old p (inl q) = inl (k p q)
      old p (inr q) = inr q

  -- A build has no errors where the list is complete: Obsidian's lookup reads the file map, the
  -- root is a folder and no number from `next` on is an object, each entry has a path, no two have
  -- the same, the model has none of them yet, and each lies in the root, in a folder of the model or
  -- in a folder of the list, wherever that stands. Then nothing is skipped, as many files and folders
  -- are added as there are entries, and all of them are in the model.
  pub build_sync-Built :
      (es : List RemoteEntry) (v : Vault)
      → IsOpen v
      → All (λ e. e.path ≢ []) es
      → AreDistinct es
      → AreAbsent v es
      → All (HasParent (IsFolderAt v) es) es
      → Counted (build_sync find es v).1 (length es)
        × All (λ e. IsThere (build_sync find es v).0 e.path) (ordered es)
  unfolding build_sync
  build_sync-Built es v h named distinct absent complete =
      let c =
        insert_all-Built (ordered es) (IsFolderAt v) v no_result 0 h (λ p k. k)
          (Rises-Ready (ordered es) (IsFolderAt v) (Rises-ordered es)
            (All-ordered (HasParent (IsFolderAt v) (ordered es)) es (in_order es complete)))
          (AreDistinct-ordered es distinct)
          (All-ordered (λ f. JsMap.get f.path v.file_map ≡ none) es absent)
          (All-ordered (λ e. e.path ≢ []) es named) (refl, refl, omega arith) in
      let counts = c.0 in ((counts.0, counts.1, omega (arith, counts.2, length-ordered es)), c.2)
    where
      in_order :
          (fs : List RemoteEntry)
          → All (HasParent (IsFolderAt v) es) fs
          → All (HasParent (IsFolderAt v) (ordered es)) fs
      in_order [] k = tt
      in_order (f ∷ fs) k = ((λ i at. listed (take i f.path) (k.0 i at)), in_order fs k.1)
        where
          listed :
              (p : Str)
              → IsFolderAt v p ⊎ HasFolder p es
              → IsFolderAt v p ⊎ HasFolder p (ordered es)
          listed p (inl q) = inl q
          listed p (inr q) = inr (HasFolder-ordered p es q)
