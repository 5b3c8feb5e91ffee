-- ===== src/Conflict/Diff/Lcs.antt =====
-- The longest common subsequence of two lists of lines, by recursion on both: what the table of
-- plugin/src/conflict/DiffEngine.ts is compared with.
use obsidian_remote_ssh.Prelude.{
  ℕ, ◌+◌, ◌≤◌, List, [], ◌∷◌, ◌≡◌, refl, if◌then◌else◌, leb, ◌==◌, Str, str_eq, arith,
}

unfoldable pub lcs : List Str → List Str → ℕ
lcs [] ys = 0
lcs (x ∷ xs) [] = 0
lcs (x ∷ xs) (y ∷ ys) =
    let both = lcs xs ys + 1 in
    let top = lcs xs (y ∷ ys) in
    let left = lcs (x ∷ xs) ys in if x == y then both else if leb left top then top else left

pub lcs-nil : (xs : List Str) → lcs xs [] ≡ 0
unfolding lcs
lcs-nil [] = refl
lcs-nil (x ∷ xs) = refl

-- One more line on either side adds at most one to the length, and takes nothing away.
record IsSteady (x y : Str) (xs ys : List Str) : Type 0 where
  grows_left : lcs xs ys ≤ lcs (x ∷ xs) ys
  bounded_left : lcs (x ∷ xs) ys ≤ lcs xs ys + 1
  grows_right : lcs xs ys ≤ lcs xs (y ∷ ys)
  bounded_right : lcs xs (y ∷ ys) ≤ lcs xs ys + 1

lcs-IsSteady : (x y : Str) (xs ys : List Str) → IsSteady x y xs ys
unfolding lcs
lcs-IsSteady x y [] [] = ground arith
lcs-IsSteady x y [] (y' ∷ ys) = ground (arith, lcs-IsSteady x y' [] ys)
lcs-IsSteady x y (x' ∷ xs) [] = ground (arith, lcs-IsSteady x' y xs [])
lcs-IsSteady x y (x' ∷ xs) (y' ∷ ys) =
    ground (arith, lcs-IsSteady x y' (x' ∷ xs) ys, lcs-IsSteady x' y xs (y' ∷ ys))

module _ (xs ys : List Str) where
  pub lcs-le-cons_left : (x : Str) → lcs xs ys ≤ lcs (x ∷ xs) ys
  lcs-le-cons_left x = (lcs-IsSteady x x xs ys).grows_left

  pub lcs-le-cons_right : (y : Str) → lcs xs ys ≤ lcs xs (y ∷ ys)
  lcs-le-cons_right y = (lcs-IsSteady y y xs ys).grows_right

  -- A line that both sides share is never better left unmatched.
  pub lcs-cons_same : (x : Str) → lcs (x ∷ xs) (x ∷ ys) ≡ lcs xs ys + 1
  unfolding lcs
  lcs-cons_same x = ground arith
