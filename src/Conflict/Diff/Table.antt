-- ===== src/Conflict/Diff/Table.antt =====
-- The table that plugin/src/conflict/DiffEngine.ts fills holds the lengths of longest common
-- subsequences of prefixes, the last line first.
use mathlib.Core.List.{reverse_aux}
use obsidian_remote_ssh.Prelude.{
  ℕ, zero, suc, ◌≤◌, ◌<◌, List, [], ◌∷◌, ◌≡◌, refl, ap, Str, arith, length, str_eq,
}
use obsidian_remote_ssh.Conflict.Diff.{get_or, line_at, cell, fill_row, fill_rows, zeros, lcs_table}
use obsidian_remote_ssh.Conflict.Diff.Lcs.{lcs}

-- The first `i` lines of `xs`, the last one first, in front of `seen`.
unfoldable pub prefix : List Str → ℕ → List Str → List Str
prefix seen zero xs = seen
prefix seen (suc i) [] = seen
prefix seen (suc i) (x ∷ xs) = prefix (x ∷ seen) i xs

pub prefix-suc :
    (seen : List Str) (i : ℕ) (xs : List Str)
    → i < length xs
    → prefix seen (suc i) xs ≡ line_at xs i ∷ prefix seen i xs
unfolding prefix
prefix-suc seen zero [] h = absurd (omega arith)
prefix-suc seen zero (x ∷ xs) h = refl
prefix-suc seen (suc i) [] h = absurd (omega arith)
prefix-suc seen (suc i) (x ∷ xs) h = prefix-suc (x ∷ seen) i xs (omega arith)

pub prefix-all : (seen xs : List Str) → prefix seen (length xs) xs ≡ reverse_aux xs seen
unfolding prefix
prefix-all seen [] = refl
prefix-all seen (x ∷ xs) = prefix-all (x ∷ seen) xs

-- The row for the first lines `xs` (reversed), right of the column of `seen`.
ideal_tail : List Str → List Str → List Str → List ℕ
ideal_tail xs seen [] = []
ideal_tail xs seen (y ∷ b) = lcs xs (y ∷ seen) ∷ ideal_tail xs (y ∷ seen) b

abbrev ideal_row : List Str → List Str → List ℕ
ideal_row xs b = lcs xs [] ∷ ideal_tail xs [] b

ideal_rows : List Str → List Str → List Str → List (List ℕ)
ideal_rows xs [] b = ideal_row xs b ∷ []
ideal_rows xs (x ∷ a) b = ideal_row xs b ∷ ideal_rows (x ∷ xs) a b

zeros-ideal : (seen b : List Str) → zeros b ≡ 0 ∷ ideal_tail [] seen b
unfolding ideal_tail lcs
zeros-ideal seen [] = refl
zeros-ideal seen (y ∷ b) = ap (◌∷◌ 0) (zeros-ideal (y ∷ seen) b)

fill_row-ideal :
    (x : Str) (xs seen b : List Str)
    → fill_row x b (lcs xs seen ∷ ideal_tail xs seen b) (lcs (x ∷ xs) seen)
      ≡ ideal_tail (x ∷ xs) seen b
unfolding fill_row ideal_tail lcs
fill_row-ideal x xs seen [] = refl
fill_row-ideal x xs seen (y ∷ b) =
    ap (◌∷◌ (lcs (x ∷ xs) (y ∷ seen))) (fill_row-ideal x xs (y ∷ seen) b)

fill_row_first :
    (x : Str) (xs b : List Str) → fill_row x b (ideal_row xs b) 0 ≡ ideal_tail (x ∷ xs) [] b
unfolding lcs
fill_row_first x xs b = fill_row-ideal x xs [] b

fill_rows-ideal : (xs a b : List Str) → fill_rows a b (ideal_row xs b) ≡ ideal_rows xs a b
unfolding fill_rows ideal_rows lcs
fill_rows-ideal xs [] b = refl
fill_rows-ideal xs (x ∷ a) b =
    ap (◌∷◌ (ideal_row xs b)) (rw (fill_row_first x xs b) (fill_rows-ideal (x ∷ xs) a b))

lcs_table-ideal : (a b : List Str) → lcs_table a b ≡ ideal_rows [] a b
unfolding lcs_table lcs
lcs_table-ideal a b = rw (zeros-ideal [] b) (fill_rows-ideal [] a b)

ideal_tail-cell :
    (xs seen b : List Str) (j : ℕ)
    → j ≤ length b
    → get_or (lcs xs seen ∷ ideal_tail xs seen b) j 0 ≡ lcs xs (prefix seen j b)
unfolding ideal_tail prefix
ideal_tail-cell xs seen b zero h = refl
ideal_tail-cell xs seen [] (suc j) h = absurd (omega arith)
ideal_tail-cell xs seen (y ∷ b) (suc j) h = ideal_tail-cell xs (y ∷ seen) b j (omega arith)

ideal_rows-row :
    (xs a b : List Str) (i : ℕ)
    → i ≤ length a
    → get_or (ideal_rows xs a b) i [] ≡ ideal_row (prefix xs i a) b
unfolding ideal_rows prefix
ideal_rows-row xs [] b zero h = refl
ideal_rows-row xs (x ∷ a) b zero h = refl
ideal_rows-row xs [] b (suc i) h = absurd (omega arith)
ideal_rows-row xs (x ∷ a) b (suc i) h = ideal_rows-row (x ∷ xs) a b i (omega arith)

-- `dp[i * stride + j]` is the length of a longest common subsequence of `a[0..i)` and `b[0..j)`.
pub cell-lcs_table :
    (a b : List Str) (i j : ℕ)
    → i ≤ length a
    → j ≤ length b
    → cell (lcs_table a b) i j ≡ lcs (prefix [] i a) (prefix [] j b)
cell-lcs_table a b i j h k =
    rw (lcs_table-ideal a b, ideal_rows-row [] a b i h) (ideal_tail-cell (prefix [] i a) [] b j k)
