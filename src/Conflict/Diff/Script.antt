-- ===== src/Conflict/Diff/Script.antt =====
-- The operations that plugin/src/conflict/DiffEngine.ts pushes, read as an edit script: what they
-- take from either side, and how many lines they keep.
use mathlib.Core.List.{reverse_aux}
use obsidian_remote_ssh.Prelude.{
  ℕ, zero, suc, ◌+◌, ◌≤◌, List, [], ◌∷◌, ◌≡◌, refl, ap, ◌∙◌, Str, arith, length, str_eq,
}
use obsidian_remote_ssh.Conflict.Diff.{Kind, eq, add, del, RawOp, line_at, lcs_table, backtrack}
use obsidian_remote_ssh.Conflict.Diff.Lcs.{
  lcs, lcs-nil, lcs-le-cons_left, lcs-le-cons_right, lcs-cons_same,
}
use obsidian_remote_ssh.Conflict.Diff.Table.{prefix, prefix-suc, cell-lcs_table}

abbrev pub push_old : Kind → Str → List Str → List Str
push_old eq l r = l ∷ r
push_old add l r = r
push_old del l r = l ∷ r

abbrev pub push_new : Kind → Str → List Str → List Str
push_new eq l r = l ∷ r
push_new add l r = l ∷ r
push_new del l r = r

abbrev pub keep : Kind → ℕ
keep eq = 1
keep add = 0
keep del = 0

-- The lines before the edit, the lines after it, and the number of those that stay.
abbrev pub old : List RawOp → List Str
old [] = []
old (op ∷ ops) = push_old op.kind op.line (old ops)

abbrev pub new : List RawOp → List Str
new [] = []
new (op ∷ ops) = push_new op.kind op.line (new ops)

abbrev pub kept : List RawOp → ℕ
kept [] = 0
kept (op ∷ ops) = keep op.kind + kept ops

push_old-reverse_aux :
    (k : Kind) (l : Str) (r acc : List Str)
    → reverse_aux r (push_old k l acc) ≡ reverse_aux (push_old k l r) acc
push_old-reverse_aux eq l r acc = refl
push_old-reverse_aux add l r acc = refl
push_old-reverse_aux del l r acc = refl

push_new-reverse_aux :
    (k : Kind) (l : Str) (r acc : List Str)
    → reverse_aux r (push_new k l acc) ≡ reverse_aux (push_new k l r) acc
push_new-reverse_aux eq l r acc = refl
push_new-reverse_aux add l r acc = refl
push_new-reverse_aux del l r acc = refl

pub old-reverse_aux :
    (ops acc : List RawOp) → old (reverse_aux ops acc) ≡ reverse_aux (old ops) (old acc)
old-reverse_aux [] acc = refl
old-reverse_aux (op ∷ ops) acc =
    old-reverse_aux ops (op ∷ acc) ∙ push_old-reverse_aux op.kind op.line (old ops) (old acc)

pub new-reverse_aux :
    (ops acc : List RawOp) → new (reverse_aux ops acc) ≡ reverse_aux (new ops) (new acc)
new-reverse_aux [] acc = refl
new-reverse_aux (op ∷ ops) acc =
    new-reverse_aux ops (op ∷ acc) ∙ push_new-reverse_aux op.kind op.line (new ops) (new acc)

pub kept-reverse_aux : (ops acc : List RawOp) → kept (reverse_aux ops acc) ≡ kept ops + kept acc
kept-reverse_aux [] acc = omega arith
kept-reverse_aux (op ∷ ops) acc = omega (arith, kept-reverse_aux ops (op ∷ acc))

-- No script keeps more lines than a longest common subsequence has.
kept-le-lcs_push :
    (n : ℕ) (k : Kind) (l : Str) (xs ys : List Str)
    → n ≤ lcs xs ys
    → keep k + n ≤ lcs (push_old k l xs) (push_new k l ys)
kept-le-lcs_push n eq l xs ys h = omega (arith, lcs-cons_same xs ys l)
kept-le-lcs_push n add l xs ys h = omega (arith, lcs-le-cons_right xs ys l)
kept-le-lcs_push n del l xs ys h = omega (arith, lcs-le-cons_left xs ys l)

-- No script keeps more lines than a longest common subsequence has.
pub kept-le-lcs : (ops : List RawOp) → kept ops ≤ lcs (old ops) (new ops)
kept-le-lcs [] = omega arith
kept-le-lcs (op ∷ ops) =
    kept-le-lcs_push (kept ops) op.kind op.line (old ops) (new ops) (kept-le-lcs ops)

module _ (a b : List Str) where
  pub backtrack-old :
      (dp : List (List ℕ)) (i j : ℕ) → i ≤ length a → old (backtrack a b dp i j) ≡ prefix [] i a
  unfolding backtrack prefix
  backtrack-old dp zero zero h = refl
  backtrack-old dp zero (suc j) h = backtrack-old dp zero j h
  backtrack-old dp (suc i) zero h =
      rw (prefix-suc [] i a h) (ap (◌∷◌ (line_at a i)) (backtrack-old dp i zero (omega arith)))
  backtrack-old dp (suc i) (suc j) h = rw (prefix-suc [] i a h) (
      ground (
        arith,
        prefix-suc [] i a h,
        backtrack-old dp i j (omega arith),
        backtrack-old dp (suc i) j h,
        backtrack-old dp i (suc j) (omega arith),
      ))

  pub backtrack-new :
      (dp : List (List ℕ)) (i j : ℕ) → j ≤ length b → new (backtrack a b dp i j) ≡ prefix [] j b
  unfolding backtrack prefix
  backtrack-new dp zero zero h = refl
  backtrack-new dp (suc i) zero h = backtrack-new dp i zero h
  backtrack-new dp zero (suc j) h =
      rw (prefix-suc [] j b h) (ap (◌∷◌ (line_at b j)) (backtrack-new dp zero j (omega arith)))
  backtrack-new dp (suc i) (suc j) h = rw (prefix-suc [] j b h) (
      ground (
        arith,
        prefix-suc [] j b h,
        backtrack-new dp i j (omega arith),
        backtrack-new dp (suc i) j (omega arith),
        backtrack-new dp i (suc j) h,
      ))

  -- With the table of `a` and `b` the script keeps as many lines as can be kept.
  pub backtrack-kept :
      (i j : ℕ)
      → i ≤ length a
      → j ≤ length b
      → kept (backtrack a b (lcs_table a b) i j) ≡ lcs (prefix [] i a) (prefix [] j b)
  unfolding backtrack lcs prefix
  backtrack-kept zero zero h k = refl
  backtrack-kept zero (suc j) h k = omega (arith, backtrack-kept zero j h (omega arith))
  backtrack-kept (suc i) zero h k = omega (
    arith,
    backtrack-kept i zero (omega arith) k,
    lcs-nil (prefix [] i a),
    lcs-nil (prefix [] (suc i) a),
  )
  backtrack-kept (suc i) (suc j) h k =
      rw (prefix-suc [] i a h, prefix-suc [] j b k)
        (ground (
          arith,
          cell-lcs_table a b i (suc j) (omega arith) k,
          cell-lcs_table a b (suc i) j h (omega arith),
          prefix-suc [] i a h,
          prefix-suc [] j b k,
          backtrack-kept i j (omega arith) (omega arith),
          backtrack-kept (suc i) j h (omega arith),
          backtrack-kept i (suc j) (omega arith) k,
        ))
