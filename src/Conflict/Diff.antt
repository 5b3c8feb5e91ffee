-- ===== src/Conflict/Diff.antt =====
-- plugin/src/conflict/DiffEngine.ts: the line diff by a table of longest common subsequences.
-- The flat table `dp[i * stride + j]` is a list of rows here.
pub mod Lcs
pub mod Table
pub mod Script
pub mod Chunks
pub mod Runs
use mathlib.Core.List.{reverse}
use obsidian_remote_ssh.Prelude.{
  ℕ, zero, suc, ◌+◌, List, [], ◌∷◌, ◌++◌, map, Bool, true, false, if◌then◌else◌, leb, ◌==◌, Str,
  str_eq, split, length,
}

pub data Kind : Type 0 where
  eq add del : Kind

pub Kind-discrete : Discrete Kind
Kind-discrete = hlevel

pub record RawOp : Type 0 where
  pub kind : Kind
  pub line : Str

pub record DiffChunk : Type 0 where
  pub kind : Kind
  pub lines : List Str

-- `xs[i]`, with a default that the loops never read.
abbrev pub get_or {ℓ} : {A : Type ℓ} → List A → ℕ → A → A
get_or [] i d = d
get_or (x ∷ xs) zero d = x
get_or (x ∷ xs) (suc i) d = get_or xs i d

-- `a[i]`
abbrev pub line_at : List Str → ℕ → Str
line_at a i = get_or a i []

-- `dp[i * stride + j]`
abbrev pub cell : List (List ℕ) → ℕ → ℕ → ℕ
cell dp i j = get_or (get_or dp i []) j 0

-- The inner loop over `j`: `prev` starts at `dp[i - 1][j - 1]`, and `left` is `dp[i][j - 1]`.
unfoldable pub fill_row : Str → List Str → List ℕ → ℕ → List ℕ
fill_row ai (bj ∷ b) (diag ∷ from_top ∷ prev) left =
    let v : ℕ = if ai == bj then diag + 1 else if leb left from_top then from_top else left in
    v ∷ fill_row ai b (from_top ∷ prev) v
fill_row ai _ _ left = []

-- The outer loop over `i`, from the row before it.
unfoldable pub fill_rows : List Str → List Str → List ℕ → List (List ℕ)
fill_rows [] b prev = prev ∷ []
fill_rows (ai ∷ a) b prev = prev ∷ fill_rows a b (0 ∷ fill_row ai b prev 0)

-- The zeros that `new Int32Array` starts with.
abbrev pub zeros : List Str → List ℕ
zeros [] = 0 ∷ []
zeros (y ∷ b) = 0 ∷ zeros b

unfoldable pub lcs_table : List Str → List Str → List (List ℕ)
lcs_table a b = fill_rows a b (zeros b)

-- The `while` loop: what it pushes from `i`, `j` on, in that order.
unfoldable pub backtrack : List Str → List Str → List (List ℕ) → ℕ → ℕ → List RawOp
backtrack a b dp zero zero = []
backtrack a b dp zero (suc j) = record { kind = add; line = line_at b j } ∷ backtrack a b dp zero j
backtrack a b dp (suc i) zero = record { kind = del; line = line_at a i } ∷ backtrack a b dp i zero
backtrack a b dp (suc i) (suc j) = elim (line_at a i == line_at b j) [
  | true ↦ record { kind = eq; line = line_at a i } ∷ backtrack a b dp i j
  | false ↦ elim (leb (cell dp i (suc j)) (cell dp (suc i) j)) [
    | true ↦ record { kind = add; line = line_at b j } ∷ backtrack a b dp (suc i) j
    | false ↦ record { kind = del; line = line_at a i } ∷ backtrack a b dp i (suc j)
  ]
]

unfoldable pub lcs_backtrack : List Str → List Str → List RawOp
unfolding lcs_table
lcs_backtrack [] [] = []
lcs_backtrack [] (y ∷ b) = map (λ line. record { kind = add; line = line }) (y ∷ b)
lcs_backtrack (x ∷ a) [] = map (λ line. record { kind = del; line = line }) (x ∷ a)
lcs_backtrack (x ∷ a) (y ∷ b) =
    reverse
      (backtrack (x ∷ a) (y ∷ b) (lcs_table (x ∷ a) (y ∷ b)) (length (x ∷ a)) (length (y ∷ b)))

abbrev same_kind : Kind → Kind → Bool
same_kind eq eq = true
same_kind add add = true
same_kind del del = true
same_kind _ _ = false

-- The `for` loop of `mergeAdjacent`, with `cur` the chunk that is open: what it pushes to `out`.
unfoldable pub merge_from : DiffChunk → List RawOp → List DiffChunk
merge_from cur [] = cur ∷ []
merge_from cur (op ∷ ops) =
    let longer = merge_from (record cur { lines = cur.lines ++ op.line ∷ [] }) ops in
    let closed = cur ∷ merge_from (record { kind = op.kind; lines = op.line ∷ [] }) ops in
    if same_kind op.kind cur.kind then longer else closed

unfoldable pub merge_adjacent : List RawOp → List DiffChunk
unfolding merge_from
merge_adjacent [] = []
merge_adjacent (op ∷ ops) = merge_from (record { kind = op.kind; lines = op.line ∷ [] }) ops

-- `a === '' ? [] : a.split('\n')`
unfoldable pub lines_of : Str → List Str
lines_of [] = []
lines_of (c ∷ s) = split 10 (c ∷ s)

unfoldable pub diff_lines : Str → Str → List DiffChunk
unfolding lcs_backtrack merge_adjacent lines_of
diff_lines a b = merge_adjacent (lcs_backtrack (lines_of a) (lines_of b))
