-- ===== src/Vault/ModelBuilder/Order.antt =====
-- plugin/src/vault/VaultModelBuilder.ts: the order in which a list of entries is built.
use obsidian_remote_ssh.Prelude.{
  ℕ, suc, ◌=ℕ◌, ◌+◌, ◌≤◌, ◌<◌, List, [], ◌∷◌, true, false, Str, str_eq, nat_eq, take, length, All,
  none, some, ◌≡◌, ◌≢◌, ◌⊎◌, refl, ap, sym, subst, arith, Bool-cases, Option-cases, inl, inr,
}
use obsidian_remote_ssh.Mapping.PathMapper.{last_index_of}
use obsidian_remote_ssh.Vault.TreeSnapshot.{RemoteEntry}
use obsidian_remote_ssh.Vault.ModelBuilder.{depth_of, goes_before, insert_ordered, ordered}

-- A list has a folder under a path.
abbrev pub HasFolder : Str → List RemoteEntry → Type 0
HasFolder p [] = ⊥
HasFolder p (d ∷ ds) = ((d.is_directory ≡ true) × (d.path ≡ p)) ⊎ HasFolder p ds

-- The folder that a path lies in, if it is not the root, is one of the known.
abbrev pub ParentIn : (Str → Type 0) → Str → Type 0
ParentIn known path = (i : ℕ) → last_index_of 47 path ≡ some i → known (take i path)

-- Each entry lies in a folder that is known or stands in front of it.
abbrev pub Ready : (Str → Type 0) → List RemoteEntry → Type 0
Ready known [] = Unit
Ready known (e ∷ es) =
    ParentIn known e.path × Ready (λ p. known p ⊎ ((e.is_directory ≡ true) × (e.path ≡ p))) es

-- No two entries have one path.
abbrev pub AreDistinct : List RemoteEntry → Type 0
AreDistinct [] = Unit
AreDistinct (e ∷ es) = All (λ f. e.path ≢ f.path) es × AreDistinct es

-- A folder lies less deep than what is in it.
depth_of-take :
    (path : Str) (i : ℕ) → last_index_of 47 path ≡ some i → depth_of (take i path) < depth_of path
unfolding last_index_of
depth_of-take [] i h = ground arith
depth_of-take (c ∷ path) i h = elim (Option-cases (last_index_of 47 path)) [
  | inr (j, found) ↦
      let at : j + 1 ≡ i = some_inv (j + 1) i (rw (last_index_of, found) at h) in
      let deeper = depth_of-take path j found in
      subst (λ k. depth_of (take k (c ∷ path)) < depth_of (c ∷ path)) at
        (subst (λ k. depth_of (take k (c ∷ path)) < depth_of (c ∷ path)) (later j) (ground arith))
  | inl miss ↦ elim (Bool-cases (c =ℕ 47)) [
    | inl slash ↦
        let at : ◌≡◌ {A = ℕ} 0 i = some_inv 0 i (rw (last_index_of, miss, slash) at h) in
        subst (λ k. depth_of (take k (c ∷ path)) < depth_of (c ∷ path)) at (ground arith)
    | inr other ↦ absurd (no_some i (rw (last_index_of, miss, other) at h))
  ]
]
  where
    later : (j : ℕ) → suc j ≡ j + 1
    later j = omega arith

    some_inv : (a b : ℕ) → some a ≡ some b → a ≡ b
    some_inv a b e = ground arith

    no_some : (a : ℕ) → none ≡ some a → ⊥
    no_some a e = ground arith

goes_before-depth : (a b : RemoteEntry) → goes_before a b ≡ true → depth_of a.path ≤ depth_of b.path
unfolding goes_before
goes_before-depth a b h = ground arith

goes_before_total :
    (a b : RemoteEntry) → goes_before a b ≡ false → depth_of b.path ≤ depth_of a.path
unfolding goes_before
goes_before_total a b h = ground arith

-- The depths rise.
abbrev pub Rises : List RemoteEntry → Type 0
Rises [] = Unit
Rises (e ∷ es) = All (λ f. depth_of e.path ≤ depth_of f.path) es × Rises es

module _ (P : RemoteEntry → Type 0) where
  All-insert_ordered :
      (e : RemoteEntry) (es : List RemoteEntry) → P e → All P es → All P (insert_ordered e es)
  unfolding insert_ordered
  All-insert_ordered e [] h k = (h, tt)
  All-insert_ordered e (f ∷ fs) h k = elim (Bool-cases (goes_before e f)) [
    | inl y ↦ rw (insert_ordered, y) (h, k)
    | inr n ↦ rw (insert_ordered, n) (k.0, All-insert_ordered e fs h k.1)
  ]

  pub All-ordered : (es : List RemoteEntry) → All P es → All P (ordered es)
  unfolding ordered
  All-ordered [] h = tt
  All-ordered (e ∷ es) h = All-insert_ordered e (ordered es) h.0 (All-ordered es h.1)

All-le :
    (a b : RemoteEntry) (es : List RemoteEntry)
    → depth_of a.path ≤ depth_of b.path
    → All (λ f. depth_of b.path ≤ depth_of f.path) es
    → All (λ f. depth_of a.path ≤ depth_of f.path) es
All-le a b [] h k = tt
All-le a b (f ∷ fs) h k = let here = k.0 in (omega (arith, h, here), All-le a b fs h k.1)

Rises-insert_ordered :
    (e : RemoteEntry) (es : List RemoteEntry) → Rises es → Rises (insert_ordered e es)
unfolding insert_ordered
Rises-insert_ordered e [] h = (tt, tt)
Rises-insert_ordered e (f ∷ fs) h = elim (Bool-cases (goes_before e f)) [
  | inl y ↦
      let le = goes_before-depth e f y in rw (insert_ordered, y) ((le, All-le e f fs le h.0), h)
  | inr n ↦
      rw (insert_ordered, n)
        (
          All-insert_ordered (λ g. depth_of f.path ≤ depth_of g.path) e fs (goes_before_total e f n)
              h.0,
          Rises-insert_ordered e fs h.1,
        )
]

pub Rises-ordered : (es : List RemoteEntry) → Rises (ordered es)
unfolding ordered
Rises-ordered [] = tt
Rises-ordered (e ∷ es) = Rises-insert_ordered e (ordered es) (Rises-ordered es)

AreDistinct-insert_ordered :
    (e : RemoteEntry) (es : List RemoteEntry)
    → All (λ f. e.path ≢ f.path) es
    → AreDistinct es
    → AreDistinct (insert_ordered e es)
unfolding insert_ordered
AreDistinct-insert_ordered e [] h k = (tt, tt)
AreDistinct-insert_ordered e (f ∷ fs) h k = elim (Bool-cases (goes_before e f)) [
  | inl y ↦ rw (insert_ordered, y) (h, k)
  | inr n ↦
      rw (insert_ordered, n)
        (
          All-insert_ordered (λ g. f.path ≢ g.path) e fs (λ q. h.0 (sym q)) k.0,
          AreDistinct-insert_ordered e fs h.1 k.1,
        )
]

pub AreDistinct-ordered : (es : List RemoteEntry) → AreDistinct es → AreDistinct (ordered es)
unfolding ordered
AreDistinct-ordered [] h = tt
AreDistinct-ordered (e ∷ es) h =
    AreDistinct-insert_ordered e (ordered es) (All-ordered (λ f. e.path ≢ f.path) es h.0)
      (AreDistinct-ordered es h.1)

HasFolder-insert_ordered :
    (p : Str) (e : RemoteEntry) (es : List RemoteEntry)
    → HasFolder p (e ∷ es)
    → HasFolder p (insert_ordered e es)
unfolding insert_ordered
HasFolder-insert_ordered p e [] h = h
HasFolder-insert_ordered p e (f ∷ fs) h = elim (Bool-cases (goes_before e f)) [
  | inl y ↦ rw (insert_ordered, y) h
  | inr n ↦ rw (insert_ordered, n) (moved h (HasFolder-insert_ordered p e fs))
]
  where
    moved :
        HasFolder p (e ∷ f ∷ fs)
        → (HasFolder p (e ∷ fs) → HasFolder p (insert_ordered e fs))
        → HasFolder p (f ∷ insert_ordered e fs)
    moved (inl own) go = inr (go (inl own))
    moved (inr (inl next)) go = inl next
    moved (inr (inr rest)) go = inr (go (inr rest))

pub HasFolder-ordered :
    (p : Str) (es : List RemoteEntry) → HasFolder p es → HasFolder p (ordered es)
unfolding ordered
HasFolder-ordered p [] h = elim h [ ]
HasFolder-ordered p (e ∷ es) (inl own) = HasFolder-insert_ordered p e (ordered es) (inl own)
HasFolder-ordered p (e ∷ es) (inr rest) =
    HasFolder-insert_ordered p e (ordered es) (inr (HasFolder-ordered p es rest))

no_folder_behind :
    (n : ℕ) (p : Str) (es : List RemoteEntry)
    → All (λ f. n ≤ depth_of f.path) es
    → HasFolder p es
    → n ≤ depth_of p
no_folder_behind n p [] h f = elim f [ ]
no_folder_behind n p (d ∷ ds) h (inl (_, same)) = subst (λ q. n ≤ depth_of q) same h.0
no_folder_behind n p (d ∷ ds) h (inr rest) = no_folder_behind n p ds h.1 rest

-- The folder that an entry lies in is known, or is one of a list.
abbrev pub HasParent : (Str → Type 0) → List RemoteEntry → RemoteEntry → Type 0
HasParent known es e = ParentIn (λ p. known p ⊎ HasFolder p es) e.path

-- In a list of rising depth that is complete, each entry lies behind its folder.
pub Rises-Ready :
    (es : List RemoteEntry) (known : Str → Type 0)
    → Rises es
    → All (HasParent known es) es
    → Ready known es
Rises-Ready [] known r h = tt
Rises-Ready (e ∷ es) known r h =
    (λ i at. front i at (h.0 i at), Rises-Ready es _ r.1 (behind es h.1))
  where
    front :
        (i : ℕ)
        → last_index_of 47 e.path ≡ some i
        → known (take i e.path) ⊎ HasFolder (take i e.path) (e ∷ es)
        → known (take i e.path)
    front i at (inl k) = k
    front i at (inr (inl (_, same))) =
        absurd (omega (arith, depth_of-take e.path i at, ap depth_of same))
    front i at (inr (inr rest)) = absurd (
        omega (
          arith,
          depth_of-take e.path i at,
          no_folder_behind (depth_of e.path) (take i e.path) es r.0 rest,
        ))

    sorted_out :
        (p : Str)
        → known p ⊎ HasFolder p (e ∷ es)
        → (known p ⊎ ((e.is_directory ≡ true) × (e.path ≡ p))) ⊎ HasFolder p es
    sorted_out p (inl k) = inl (inl k)
    sorted_out p (inr (inl own)) = inl (inr own)
    sorted_out p (inr (inr rest)) = inr rest

    behind :
        (fs : List RemoteEntry)
        → All (HasParent known (e ∷ es)) fs
        → All (HasParent (λ p. known p ⊎ ((e.is_directory ≡ true) × (e.path ≡ p))) es) fs
    behind [] k = tt
    behind (f ∷ fs) k = (λ i at. sorted_out (take i f.path) (k.0 i at), behind fs k.1)

length-insert_ordered :
    (e : RemoteEntry) (es : List RemoteEntry) → length (insert_ordered e es) ≡ length es + 1
unfolding insert_ordered
length-insert_ordered e [] = omega arith
length-insert_ordered e (f ∷ fs) = ground (arith, length-insert_ordered e fs)

pub length-ordered : (es : List RemoteEntry) → length (ordered es) ≡ length es
unfolding ordered
length-ordered [] = refl
length-ordered (e ∷ es) = omega (arith, length-insert_ordered e (ordered es), length-ordered es)
