-- ===== src/Mapping/PathMapper/Parent.antt =====
-- `parentDirOf` and the comparison by segments of plugin/src/path/PathMapper.ts.
use obsidian_remote_ssh.Prelude.{
  ◌≤◌, List, [], ◌∷◌, ◌++◌, true, false, ◌=ℕ◌, Str, str_eq, split, length, take-length-append, All,
  some, none, ◌≡◌, ◌≢◌, refl, sym, ap, ◌∙◌, arith, Bool-cases, ◌⊎◌, inl, inr,
}
use mathlib.Core.List.{append_assoc}
use obsidian_remote_ssh.Mapping.PathMapper.{
  segments_match, matches_pattern_exact, qualify, parent_dir_of, last_index_of,
}
use obsidian_remote_ssh.Mapping.PathMapper.Prefix.{qualify-below, same_head}

abbrev pub NoSlash : Str → Type 0
NoSlash = All (λ c. c ≢ 47)

last_index_of-none : (s : Str) → NoSlash s → last_index_of 47 s ≡ none
unfolding last_index_of
last_index_of-none [] k = refl
last_index_of-none (c ∷ s) (here, k) =
    let other : (c =ℕ 47) ≡ false = ground arith in rw (last_index_of-none s k, other) refl

last_index_of-append : (a b : Str) → NoSlash b → last_index_of 47 (a ++ 47 ∷ b) ≡ some (length a)
unfolding last_index_of
last_index_of-append [] b k = rw (last_index_of-none b k) refl
last_index_of-append (c ∷ a) b k = rw (last_index_of-append a b k) (ap some (omega arith))

-- The parent of a path is what stands in front of its last slash.
pub parent_dir_of-append : (a b : Str) → NoSlash b → parent_dir_of (a ++ 47 ∷ b) ≡ a
unfolding parent_dir_of
parent_dir_of-append a b k =
    rw (parent_dir_of, last_index_of-append a b k) (take-length-append a (47 ∷ b))

last_slash : (s : Str) → NoSlash s ⊎ ((a : Str) × (b : Str) × NoSlash b × (s ≡ a ++ 47 ∷ b))
last_slash [] = inl tt
last_slash (c ∷ s) = elim (last_slash s) [
  | inr (a, b, k, e) ↦ inr (c ∷ a, b, k, ap (◌∷◌ c) e)
  | inl k ↦ elim (Bool-cases (c =ℕ 47)) [
    | inl slash ↦ inr ([], s, k, ground arith)
    | inr other ↦ inl (ground arith, k)
  ]
]

-- A pattern has a parent and a name.
pub qualify-parent :
    (dir p : Str) → (a : Str) × (b : Str) × NoSlash b × (qualify dir p ≡ a ++ 47 ∷ b)
qualify-parent dir p =
    let (r, e) = qualify-below dir p in
    elim (last_slash r) [
      | inl k ↦ (dir, r, k, e)
      | inr (a, b, k, e') ↦ (
        dir ++ 47 ∷ a,
        b,
        k,
        e ∙ ap (λ t. dir ++ 47 ∷ t) e' ∙ sym (append_assoc dir (47 ∷ a) (47 ∷ b)),
      )
    ]

pub segments_match_refl : (xs : List Str) → segments_match xs xs ≡ true
unfolding segments_match
segments_match_refl [] = refl
segments_match_refl (x ∷ xs) = same_head x x xs xs refl (segments_match_refl xs)

-- The front of a pattern matches the front of a path.
pub segments_match-append :
    (xs ys ss ts : List Str)
    → length xs ≤ length ss
    → segments_match (xs ++ ys) (ss ++ ts) ≡ true
    → segments_match xs ss ≡ true
unfolding segments_match
segments_match-append [] ys ss ts l h = refl
segments_match-append (x ∷ xs) ys [] ts l h = absurd (omega arith)
segments_match-append (x ∷ xs) ys (s ∷ ss) ts l h =
    let rest = segments_match-append xs ys ss ts (omega arith) in ground (arith, rest)

pub matches_pattern_exact-match :
    (a d : Str)
    → length (split 47 a) ≡ length (split 47 d)
    → segments_match (split 47 a) (split 47 d) ≡ true
    → matches_pattern_exact a d ≡ true
unfolding matches_pattern_exact
matches_pattern_exact-match a d l h = ground arith
