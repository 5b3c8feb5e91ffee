-- ===== src/Util/PathUtils/Join.antt =====
-- Joining and splitting paths with plugin/src/util/pathUtils.ts.
use obsidian_remote_ssh.Prelude.{
  suc, ◌+◌, List, [], ◌∷◌, ◌++◌, Bool, true, false, ◌=ℕ◌, Str, codes, starts_with_append, ends_with,
  join, drop, length, ◌≡◌, ◌≢◌, refl, arith, ap, subst, ◌∙◌, sym, Bool-cases, inl, inr,
}
use obsidian_remote_ssh.Util.PathUtils.{squeeze, posix_join, relative_to, to_remote_path}

-- No two slashes stand side by side, nor one in front if a slash comes before.
abbrev pub IsSqueezed : Bool → Str → Type 0
IsSqueezed after [] = Unit
IsSqueezed true (c ∷ s) = (c ≢ 47) × IsSqueezed false s
IsSqueezed false (c ∷ s) = IsSqueezed (c =ℕ 47) s

squeeze-IsSqueezed : (after : Bool) (s : Str) → IsSqueezed after (squeeze after s)
unfolding squeeze
squeeze-IsSqueezed after [] = tt
squeeze-IsSqueezed false (c ∷ s) = elim (Bool-cases (c =ℕ 47)) [
  | inl slash ↦ rw (slash, squeeze) (squeeze-IsSqueezed true s)
  | inr other ↦
      rw (other, squeeze)
        (subst (λ b. IsSqueezed b (squeeze false s)) (sym other) (squeeze-IsSqueezed false s))
]
squeeze-IsSqueezed true (c ∷ s) = elim (Bool-cases (c =ℕ 47)) [
  | inl slash ↦ rw (slash, squeeze) (squeeze-IsSqueezed true s)
  | inr other ↦ rw (other, squeeze) (ground arith, squeeze-IsSqueezed false s)
]

squeeze_of_IsSqueezed : (after : Bool) (s : Str) → IsSqueezed after s → squeeze after s ≡ s
unfolding squeeze
squeeze_of_IsSqueezed after [] h = refl
squeeze_of_IsSqueezed false (c ∷ s) h = elim (Bool-cases (c =ℕ 47)) [
  | inl slash ↦
      let e : c ≡ 47 = ground arith in
      let rest = squeeze_of_IsSqueezed true s (subst (λ b. IsSqueezed b s) slash h) in
      rw (slash, squeeze) (ground (arith, rest, e))
  | inr other ↦
      rw (other, squeeze)
        (ap (◌∷◌ c) (squeeze_of_IsSqueezed false s (subst (λ b. IsSqueezed b s) other h)))
]
squeeze_of_IsSqueezed true (c ∷ s) h =
    let other : (c =ℕ 47) ≡ false = ground arith in
    rw (other, squeeze) (ap (◌∷◌ c) (squeeze_of_IsSqueezed false s h.1))

-- A path that `posixJoin` makes has no two slashes side by side, whatever the parts.
pub posix_join-IsSqueezed : (parts : List Str) → IsSqueezed false (posix_join parts)
unfolding posix_join
posix_join-IsSqueezed parts = squeeze-IsSqueezed false (join (codes "/") parts)

drop_behind : (base path : Str) → drop (length base + 1) (base ++ 47 ∷ path) ≡ path
drop_behind [] path = refl
drop_behind (c ∷ base) path =
    let e : suc (length base) + 1 ≡ suc (length base + 1) = omega arith in
    ap (λ n. drop n (c ∷ (base ++ 47 ∷ path))) e ∙ drop_behind base path

-- A vault path put behind a base comes back by `relativeTo`, if the path that the two make has no
-- two slashes side by side and the base does not end in one.
pub relative_to-to_remote_path :
    (base path : Str)
    → IsSqueezed false (base ++ 47 ∷ path)
    → ends_with base (codes "/") ≡ false
    → relative_to base (to_remote_path base path) ≡ path
unfolding relative_to to_remote_path posix_join join
relative_to-to_remote_path base path h e =
    let joined = squeeze_of_IsSqueezed false (base ++ 47 ∷ path) h in
    rw (joined, starts_with_append base (47 ∷ path), e) (drop_behind base path)
