-- ===== src/Mapping/PathMapper/Crossing.antt =====
-- `isCrossingPoint` of plugin/src/path/PathMapper.ts: the directories of the private files.
use obsidian_remote_ssh.Prelude.{
  ◌≤◌, List, [], ◌∷◌, ◌++◌, map, Bool, true, false, ◌||◌, ◌==◌, ==_iff, ltb, Str, str_eq,
  starts_with, split, split-append, split-one, length, length-append, any, ◌≡◌, refl, sym, ap, ◌∙◌,
  arith, Bool-cases, if◌then◌else◌, ◌⊎◌, inl, inr,
}
use mathlib.Core.List.{append-nil}
use mathlib.Core.Bool.{true≢false}
use obsidian_remote_ssh.Mapping.PathMapper.{
  PathMapper, mapper_at, includes, segments_match, matches_private_pattern, matches_pattern_exact,
  qualify, is_private, is_crossing_point, strip_leading_slash, parent_dir_of,
}
use obsidian_remote_ssh.Mapping.PathMapper.Prefix.{or_cases}
use obsidian_remote_ssh.Mapping.PathMapper.Parent.{
  NoSlash, parent_dir_of-append, qualify-parent, segments_match_refl, segments_match-append,
  matches_pattern_exact-match,
}

-- A path below the parent of a directory's file is the directory, or below the directory.
pub starts_with-child :
    (d name q : Str)
    → NoSlash name
    → starts_with (d ++ 47 ∷ name) (q ++ 47 ∷ []) ≡ true
    → (d ≡ q) ⊎ (starts_with d (q ++ 47 ∷ []) ≡ true)
starts_with-child [] name [] k h = inl refl
starts_with-child (c ∷ d) name [] k h = inr (ground arith)
starts_with-child [] name (c ∷ q) k h = absurd (no_slash name q k (ground arith))
  where
    no_slash : (name q : Str) → NoSlash name → starts_with name (q ++ 47 ∷ []) ≡ true → ⊥
    no_slash [] [] k h = ground arith
    no_slash (x ∷ name) [] k h = let here = k.0 in ground arith
    no_slash [] (y ∷ q) k h = ground arith
    no_slash (x ∷ name) (y ∷ q) k h = no_slash name q k.1 (ground arith)
starts_with-child (e ∷ d) name (c ∷ q) k h = elim (starts_with-child d name q k (ground arith)) [
  | inl same ↦ inl (ground arith)
  | inr below ↦ inr (ground arith)
]

-- Where a pattern covers a file, it covers the file's directory or is one of the files in it.
Covers : Str → Str → Str → Type 0
Covers a b d = (matches_private_pattern (a ++ 47 ∷ b) d ≡ true) ⊎ (matches_pattern_exact a d ≡ true)

-- A pattern with no `*`.
plain-Covers :
    (a b d name : Str)
    → NoSlash b
    → NoSlash name
    → includes 42 (a ++ 47 ∷ b) ≡ false
    → matches_private_pattern (a ++ 47 ∷ b) (d ++ 47 ∷ name) ≡ true
    → Covers a b d
unfolding Covers matches_private_pattern
plain-Covers a b d name k l plain h =
    let q = a ++ 47 ∷ b in
    let h' : (d ++ 47 ∷ name == q || starts_with (d ++ 47 ∷ name) (q ++ 47 ∷ [])) ≡ true =
      rw plain at h in
    elim (or_cases (d ++ 47 ∷ name == q) _ h') [
      | inl same ↦
          let e : d ≡ a =
            sym (parent_dir_of-append d name l)
            ∙ ap parent_dir_of ((==_iff (d ++ 47 ∷ name) q).0 same)
            ∙ parent_dir_of-append a b k in
          inr (rw e (matches_pattern_exact-match a a refl (segments_match_refl (split 47 a))))
      | inr inside ↦ inl (elim (starts_with-child d name q l inside) [
        | inl same ↦ let same' = (==_iff d q).1 same in rw plain (ground arith)
        | inr below ↦ rw plain (ground (arith, below))
      ])
    ]

star_cases :
    (pat seg : List Str)
    → (if ltb (length seg) (length pat) then false else segments_match pat seg) ≡ true
    → (length pat ≤ length seg) × (segments_match pat seg ≡ true)
star_cases pat seg h = ground arith

-- A pattern with a `*` is compared by segments.
star-Covers :
    (a b d name : Str)
    → NoSlash b
    → NoSlash name
    → includes 42 (a ++ 47 ∷ b) ≡ true
    → matches_private_pattern (a ++ 47 ∷ b) (d ++ 47 ∷ name) ≡ true
    → Covers a b d
unfolding Covers matches_private_pattern
star-Covers a b d name k l star h =
    let pat : split 47 (a ++ 47 ∷ b) ≡ split 47 a ++ b ∷ [] =
      split-append 47 a b ∙ ap (λ t. split 47 a ++ t) (split-one 47 b k) in
    let seg : split 47 (d ++ 47 ∷ name) ≡ split 47 d ++ name ∷ [] =
      split-append 47 d name ∙ ap (λ t. split 47 d ++ t) (split-one 47 name l) in
    let longer = ap length pat ∙ length-append (split 47 a) (b ∷ []) in
    let deeper = ap length seg ∙ length-append (split 47 d) (name ∷ []) in
    let (enough, matched) =
      star_cases (split 47 (a ++ 47 ∷ b)) (split 47 (d ++ 47 ∷ name)) (rw star at h) in
    elim (Bool-cases (ltb (length (split 47 d)) (length (split 47 (a ++ 47 ∷ b))))) [
      | inl short ↦
          let same : length (split 47 a) ≡ length (split 47 d) = ground arith in
          inr (
            matches_pattern_exact-match a d same (
              segments_match-append (split 47 a) (b ∷ []) (split 47 d) (name ∷ []) (omega arith)
                (rw (pat, seg) at matched)))
      | inr long ↦
          let q = split 47 (a ++ 47 ∷ b) in
          let fits : length q ≤ length (split 47 d) = ground arith in
          let front : segments_match (q ++ []) (split 47 d ++ name ∷ []) ≡ true =
            rw (append-nil q, ← seg) matched in
          inl (rw (star, long) (segments_match-append q [] (split 47 d) (name ∷ []) fits front))
    ]

parent-Covers :
    (a b d name : Str)
    → NoSlash b
    → NoSlash name
    → matches_private_pattern (a ++ 47 ∷ b) (d ++ 47 ∷ name) ≡ true
    → Covers a b d
parent-Covers a b d name k l h = elim (Bool-cases (includes 42 (a ++ 47 ∷ b))) [
  | inl star ↦ star-Covers a b d name k l star h
  | inr plain ↦ plain-Covers a b d name k l plain h
]

qualify-covers :
    (dir p d name : Str)
    → NoSlash name
    → matches_private_pattern (qualify dir p) (d ++ 47 ∷ name) ≡ true
    → (matches_private_pattern (qualify dir p) d ≡ true)
      ⊎ (matches_pattern_exact (parent_dir_of (qualify dir p)) d ≡ true)
qualify-covers dir p d name l h =
    let (a, b, k, e) = qualify-parent dir p in
    let here : (matches_private_pattern (a ++ 47 ∷ b) d ≡ true)
        ⊎ (matches_pattern_exact (parent_dir_of (a ++ 47 ∷ b)) d ≡ true) =
      rw (parent_dir_of-append a b k) (unfold Covers in parent-Covers a b d name k l (rw e at h)) in
    rw e here

any-either :
    (f : Str → Str) (t u v : Str → Bool) (ps : List Str)
    → ((p : Str) → t (f p) ≡ true → (u (f p) ≡ true) ⊎ (v (f p) ≡ true))
    → any t (map f ps) ≡ true
    → (any u (map f ps) ≡ true) ⊎ (any v (map f ps) ≡ true)
any-either f t u v [] s h = inl h
any-either f t u v (p ∷ ps) s h = elim (or_cases (t (f p)) _ h) [
  | inl here ↦ elim (s p here) [ inl e ↦ inl (rw e refl) | inr e ↦ inr (rw e refl) ]
  | inr there ↦ elim (any-either f t u v ps s there) [
    | inl e ↦ inl (ground arith)
    | inr e ↦ inr (ground arith)
  ]
]

is_private-any :
    (m : PathMapper) (p : Str)
    → strip_leading_slash p ≡ p
    → is_private m p ≡ any (λ q. matches_private_pattern q p) m.private_patterns
unfolding is_private
is_private-any m p bare = rw bare refl

-- The directory of a private file, where it is not private itself.
pub is_crossing_point-parent :
    (client dir : Str) (ps : List Str) (d name : Str)
    → NoSlash name
    → strip_leading_slash d ≡ d
    → strip_leading_slash (d ++ 47 ∷ name) ≡ d ++ 47 ∷ name
    → is_private (mapper_at client dir ps) (d ++ 47 ∷ name) ≡ true
    → is_private (mapper_at client dir ps) d ≡ false
    → is_crossing_point (mapper_at client dir ps) d ≡ true
unfolding is_crossing_point
is_crossing_point-parent client dir ps d name l bare file private shared =
    let m = mapper_at client dir ps in
    let covered =
      any-either (qualify dir) (λ q. matches_private_pattern q (d ++ 47 ∷ name))
        (λ q. matches_private_pattern q d) (λ q. matches_pattern_exact (parent_dir_of q) d) ps
        (λ p. qualify-covers dir p d name l)
        (sym (is_private-any m (d ++ 47 ∷ name) file) ∙ private) in
    elim covered [
      | inl e ↦ absurd (true≢false (sym e ∙ sym (is_private-any m d bare) ∙ shared))
      | inr e ↦ rw (bare, shared) e
    ]
