-- ===== src/Mapping/PathMapper/Prefix.antt =====
-- Every private path of plugin/src/path/PathMapper.ts lies below the config dir.
use obsidian_remote_ssh.Prelude.{
  ℕ, List, [], ◌∷◌, ◌++◌, map, Bool, true, false, ◌&&◌, ◌||◌, ◌=ℕ◌, ◌==◌, ==_iff, Str, str_eq,
  codes, starts_with, starts_with_append, starts_with_inv, split, split-ne-nil, length, any, All,
  ◌≡◌, ◌≢◌, refl, sym, ◌∙◌, arith, Bool-cases, ◌⊎◌, inl, inr, drop,
}
use mathlib.Core.List.{append_assoc}
use obsidian_remote_ssh.Mapping.PathMapper.{
  mapper_at, includes, segments_match, matches_private_pattern, qualify, is_private,
  strip_leading_slash,
}

abbrev pub NoStar : Str → Type 0
NoStar = All (λ c. c ≢ 42)

segments_match-cons :
    (p s : Str) (pat seg : List Str)
    → segments_match (p ∷ pat) (s ∷ seg) ≡ true
    → ((p ≡ codes "*") ⊎ (p ≡ s)) × (segments_match pat seg ≡ true)
unfolding segments_match
segments_match-cons p s pat seg h = ground (arith, ==_iff p (codes "*"), ==_iff p s)

split-cons : (s : Str) → (x : Str) × (xs : List Str) × (split 47 s ≡ x ∷ xs)
split-cons s = go (split 47 s) (split-ne-nil 47 s)
  where
    go : (l : List Str) → l ≢ [] → (x : Str) × (xs : List Str) × (l ≡ x ∷ xs)
    go [] h = absurd (h refl)
    go (x ∷ xs) h = (x, xs, refl)

-- An empty first segment matches only a slash.
slash-match :
    (n : Str) (pat : List Str)
    → pat ≢ []
    → segments_match ([] ∷ pat) (split 47 n) ≡ true
    → (n' : Str) × (n ≡ 47 ∷ n') × (segments_match pat (split 47 n') ≡ true)
unfolding split
slash-match [] [] k h = absurd (k refl)
slash-match [] (p ∷ pat) k h = unfold segments_match in ground arith
slash-match (c ∷ n) pat k h = elim (Bool-cases (c =ℕ 47)) [
  | inl slash ↦
      let h' : segments_match ([] ∷ pat) ([] ∷ split 47 n) ≡ true = rw slash at h in
      (n, ground arith, (segments_match-cons [] [] pat (split 47 n) h').1)
  | inr other ↦
      let (x, xs, e) = split-cons n in
      let h' : segments_match ([] ∷ pat) ((c ∷ x) ∷ xs) ≡ true = rw (other, e) at h in
      absurd (elim ((segments_match-cons [] (c ∷ x) pat xs h').0) [
        | inl star ↦ ground arith
        | inr same ↦ ground arith
      ])
]

or_and : (a b c : Bool) → b ≡ true → c ≡ true → ((a || b) && c) ≡ true
or_and a b c h k = ground arith

pub or_cases : (a b : Bool) → (a || b) ≡ true → (a ≡ true) ⊎ (b ≡ true)
or_cases true b h = inl refl
or_cases false b h = inr h

pub same_head :
    (x y : Str) (xs ys : List Str)
    → x ≡ y
    → segments_match xs ys ≡ true
    → segments_match (x ∷ xs) (y ∷ ys) ≡ true
unfolding segments_match
same_head x y xs ys e h = or_and (x == codes "*") (x == y) _ ((==_iff x y).1 e) h

-- A first segment that begins with a letter matches only a path that begins with it.
letter-match :
    (c : ℕ) (x n : Str) (xs : List Str)
    → c ≢ 42
    → segments_match ((c ∷ x) ∷ xs) (split 47 n) ≡ true
    → (n' : Str) × (n ≡ c ∷ n') × (segments_match (x ∷ xs) (split 47 n') ≡ true)
unfolding split
letter-match c x [] xs k h = absurd (elim ((segments_match-cons (c ∷ x) [] xs [] h).0) [
  | inl star ↦ ground arith
  | inr same ↦ ground arith
])
letter-match c x (d ∷ n) xs k h = elim (Bool-cases (d =ℕ 47)) [
  | inl slash ↦
      let h' : segments_match ((c ∷ x) ∷ xs) ([] ∷ split 47 n) ≡ true = rw slash at h in
      absurd (elim ((segments_match-cons (c ∷ x) [] xs (split 47 n) h').0) [
        | inl star ↦ ground arith
        | inr same ↦ ground arith
      ])
  | inr other ↦
      let (y, ys, e) = split-cons n in
      let h' : segments_match ((c ∷ x) ∷ xs) ((d ∷ y) ∷ ys) ≡ true = rw (other, e) at h in
      let m = segments_match-cons (c ∷ x) (d ∷ y) xs ys h' in
      elim (m.0) [
        | inl star ↦ absurd (ground arith)
        | inr same ↦ (n, ground arith, rw e (same_head x y xs ys (ground arith) m.1))
      ]
]

starts_with-segments_match :
    (dir r n : Str)
    → NoStar dir
    → segments_match (split 47 (dir ++ 47 ∷ r)) (split 47 n) ≡ true
    → starts_with n (dir ++ 47 ∷ []) ≡ true
unfolding split
starts_with-segments_match [] r n k h =
    let (n', e, _) = slash-match n (split 47 r) (split-ne-nil 47 r) h in rw e refl
starts_with-segments_match (c ∷ dir) r n k h = elim (Bool-cases (c =ℕ 47)) [
  | inl slash ↦
      let h1 : segments_match ([] ∷ split 47 (dir ++ 47 ∷ r)) (split 47 n) ≡ true = rw slash at h in
      let (n', e, h2) = slash-match n _ (split-ne-nil 47 (dir ++ 47 ∷ r)) h1 in
      let rest = starts_with-segments_match dir r n' k.1 h2 in rw e (ground (arith, rest))
  | inr other ↦
      let (x, xs, e) = split-cons (dir ++ 47 ∷ r) in
      let h1 : segments_match ((c ∷ x) ∷ xs) (split 47 n) ≡ true = rw (other, e) at h in
      let (n', e', h2) = letter-match c x n xs k.0 h1 in
      let rest = starts_with-segments_match dir r n' k.1 (rw e h2) in rw e' (ground (arith, rest))
]

starts_with-cut : (n p q : Str) → starts_with n (p ++ q) ≡ true → starts_with n p ≡ true
starts_with-cut n [] q h = refl
starts_with-cut [] (c ∷ p) q h = ground arith
starts_with-cut (d ∷ n) (c ∷ p) q h = ground (arith, starts_with-cut n p q)

pub qualify-below : (dir p : Str) → (r : Str) × (qualify dir p ≡ dir ++ 47 ∷ r)
qualify-below dir p = elim (Bool-cases (starts_with p (dir ++ 47 ∷ []))) [
  | inl inside ↦ (
    drop (length (dir ++ 47 ∷ [])) p,
    rw inside (starts_with_inv p (dir ++ 47 ∷ []) inside ∙ append_assoc dir (47 ∷ []) _),
  )
  | inr relative ↦ (p, rw relative refl)
]

matches-below :
    (dir r n : Str)
    → NoStar dir
    → matches_private_pattern (dir ++ 47 ∷ r) n ≡ true
    → starts_with n (dir ++ 47 ∷ []) ≡ true
unfolding matches_private_pattern
matches-below dir r n k h =
    let split_here : (dir ++ 47 ∷ r) ≡ (dir ++ 47 ∷ []) ++ r = sym (append_assoc dir (47 ∷ []) r) in
    elim (Bool-cases (includes 42 (dir ++ 47 ∷ r))) [
      | inl star ↦ ground (arith, starts_with-segments_match dir r n k)
      | inr plain ↦
          let h' : (n == dir ++ 47 ∷ r || starts_with n ((dir ++ 47 ∷ r) ++ 47 ∷ [])) ≡ true =
            rw plain at h in
          elim (or_cases (n == dir ++ 47 ∷ r) _ h') [
            | inl same ↦
                rw ((==_iff n (dir ++ 47 ∷ r)).0 same ∙ split_here)
                  (starts_with_append (dir ++ 47 ∷ []) r)
            | inr inside ↦ starts_with-cut n (dir ++ 47 ∷ []) (r ++ 47 ∷ []) (
                rw
                  (append_assoc dir (47 ∷ []) (r ++ 47 ∷ []), ← append_assoc dir (47 ∷ r) (47 ∷ []))
                  inside)
          ]
    ]

any-map :
    (f : Str → Str) (t : Str → Bool) (ps : List Str)
    → any t (map f ps) ≡ true
    → (p : Str) × (t (f p) ≡ true)
any-map f t [] h = ground arith
any-map f t (p ∷ ps) h = elim (or_cases (t (f p)) _ h) [
  | inl here ↦ (p, here)
  | inr there ↦ any-map f t ps there
]

-- A private path lies below the config dir, if no `*` stands in that.
pub is_private-below :
    (client dir : Str) (ps : List Str) (p : Str)
    → NoStar dir
    → is_private (mapper_at client dir ps) p ≡ true
    → starts_with (strip_leading_slash p) (dir ++ 47 ∷ []) ≡ true
unfolding is_private
is_private-below client dir ps p k h =
    let n = strip_leading_slash p in
    let (q, m) = any-map (qualify dir) (λ q. matches_private_pattern q n) ps h in
    let (r, e) = qualify-below dir q in matches-below dir r n k (rw e at m)
