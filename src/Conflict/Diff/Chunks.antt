-- ===== src/Conflict/Diff/Chunks.antt =====
-- The chunks that `diffLines` of plugin/src/conflict/DiffEngine.ts returns.
use mathlib.Core.List.{reverse, reverse-reverse}
use obsidian_remote_ssh.Prelude.{
  ◌≤◌, List, [], ◌∷◌, ◌++◌, map, ◌≡◌, refl, ap, ap₂, ◌∙◌, Str, arith, length, Bool-cases, inl, inr,
  true, join, join-split, str_eq,
}
use obsidian_remote_ssh.Conflict.Diff.{
  Kind, eq, add, del, RawOp, DiffChunk, lcs_table, backtrack, lcs_backtrack, same_kind, merge_from,
  merge_adjacent, lines_of, diff_lines,
}
use obsidian_remote_ssh.Conflict.Diff.Lcs.{lcs, lcs-nil}
use obsidian_remote_ssh.Conflict.Diff.Table.{prefix-all}
use obsidian_remote_ssh.Conflict.Diff.Script.{
  old, new, kept, old-reverse_aux, new-reverse_aux, kept-reverse_aux, kept-le-lcs, backtrack-old,
  backtrack-new, backtrack-kept,
}

-- A chunk line by line.
abbrev pub lines_as : Kind → List Str → List RawOp
lines_as k [] = []
lines_as k (l ∷ ls) = record { kind = k; line = l } ∷ lines_as k ls

abbrev pub expand : List DiffChunk → List RawOp
expand [] = []
expand (c ∷ cs) = lines_as c.kind c.lines ++ expand cs

same_kind→≡ : (k k' : Kind) → same_kind k k' ≡ true → k ≡ k'
same_kind→≡ eq k' h = ground arith
same_kind→≡ add k' h = ground arith
same_kind→≡ del k' h = ground arith

lines_as-concat :
    (k : Kind) (ls : List Str) (op : RawOp) (rest : List RawOp)
    → op.kind ≡ k
    → lines_as k (ls ++ op.line ∷ []) ++ rest ≡ lines_as k ls ++ (op ∷ rest)
lines_as-concat k [] op rest h = ground arith
lines_as-concat k (l ∷ ls) op rest h =
    ap (◌∷◌ (record { kind = k; line = l })) (lines_as-concat k ls op rest h)

expand-merge_from :
    (cur : DiffChunk) (ops : List RawOp)
    → expand (merge_from cur ops) ≡ lines_as cur.kind cur.lines ++ ops
unfolding merge_from
expand-merge_from cur [] = refl
expand-merge_from cur (op ∷ ops) = elim (Bool-cases (same_kind op.kind cur.kind)) [
  | inl same ↦ rw same (
      expand-merge_from (record cur { lines = cur.lines ++ op.line ∷ [] }) ops
      ∙ lines_as-concat cur.kind cur.lines op ops (same_kind→≡ op.kind cur.kind same))
  | inr other ↦ rw other (
      ap (◌++◌ (lines_as cur.kind cur.lines))
        (expand-merge_from (record { kind = op.kind; lines = op.line ∷ [] }) ops))
]

expand-merge_adjacent : (ops : List RawOp) → expand (merge_adjacent ops) ≡ ops
unfolding merge_adjacent
expand-merge_adjacent [] = refl
expand-merge_adjacent (op ∷ ops) =
    expand-merge_from (record { kind = op.kind; lines = op.line ∷ [] }) ops

old-adds : (b : List Str) → old (map (λ line. record { kind = add; line = line }) b) ≡ []
old-adds [] = refl
old-adds (y ∷ b) = old-adds b

new-adds : (b : List Str) → new (map (λ line. record { kind = add; line = line }) b) ≡ b
new-adds [] = refl
new-adds (y ∷ b) = ap (◌∷◌ y) (new-adds b)

old-dels : (a : List Str) → old (map (λ line. record { kind = del; line = line }) a) ≡ a
old-dels [] = refl
old-dels (x ∷ a) = ap (◌∷◌ x) (old-dels a)

new-dels : (a : List Str) → new (map (λ line. record { kind = del; line = line }) a) ≡ []
new-dels [] = refl
new-dels (x ∷ a) = new-dels a

old-lcs_backtrack : (a b : List Str) → old (lcs_backtrack a b) ≡ a
unfolding lcs_backtrack
old-lcs_backtrack [] [] = refl
old-lcs_backtrack [] (y ∷ b) = old-adds b
old-lcs_backtrack (x ∷ a) [] = ap (◌∷◌ x) (old-dels a)
old-lcs_backtrack (x ∷ a) (y ∷ b) =
    old-reverse_aux (backtrack xs ys (lcs_table xs ys) (length xs) (length ys)) []
    ∙ ap reverse (backtrack-old xs ys (lcs_table xs ys) (length xs) (length ys) (omega arith))
    ∙ ap reverse (prefix-all [] xs)
    ∙ reverse-reverse xs
  where
    xs : List Str
    xs = x ∷ a

    ys : List Str
    ys = y ∷ b

new-lcs_backtrack : (a b : List Str) → new (lcs_backtrack a b) ≡ b
unfolding lcs_backtrack
new-lcs_backtrack [] [] = refl
new-lcs_backtrack [] (y ∷ b) = ap (◌∷◌ y) (new-adds b)
new-lcs_backtrack (x ∷ a) [] = new-dels a
new-lcs_backtrack (x ∷ a) (y ∷ b) =
    new-reverse_aux (backtrack xs ys (lcs_table xs ys) (length xs) (length ys)) []
    ∙ ap reverse (backtrack-new xs ys (lcs_table xs ys) (length xs) (length ys) (omega arith))
    ∙ ap reverse (prefix-all [] ys)
    ∙ reverse-reverse ys
  where
    xs : List Str
    xs = x ∷ a

    ys : List Str
    ys = y ∷ b

lcs-le-kept : (a b : List Str) → lcs (reverse a) (reverse b) ≤ kept (lcs_backtrack a b)
unfolding lcs_backtrack lcs
lcs-le-kept [] b = omega arith
lcs-le-kept (x ∷ a) [] = omega (arith, lcs-nil (reverse (x ∷ a)))
lcs-le-kept (x ∷ a) (y ∷ b) = omega (
  arith,
  kept-reverse_aux (backtrack xs ys (lcs_table xs ys) (length xs) (length ys)) [],
  backtrack-kept xs ys (length xs) (length ys) (omega arith) (omega arith),
  ap₂ lcs (prefix-all [] xs) (prefix-all [] ys),
)
  where
    xs : List Str
    xs = x ∷ a

    ys : List Str
    ys = y ∷ b

kept-le-lcs_backtrack : (ops : List RawOp) → kept ops ≤ kept (lcs_backtrack (old ops) (new ops))
kept-le-lcs_backtrack ops = omega (
  arith,
  kept-reverse_aux ops [],
  kept-le-lcs (reverse ops),
  ap₂ lcs (old-reverse_aux ops []) (new-reverse_aux ops []),
  lcs-le-kept (old ops) (new ops),
)

join-lines_of : (s : Str) → join (10 ∷ []) (lines_of s) ≡ s
unfolding lines_of
join-lines_of [] = unfold join in refl
join-lines_of (c ∷ s) = join-split 10 (c ∷ s)

-- Of the lines of the diff, those that are not additions are the lines of the first text in order,
-- those that are not deletions are the lines of the second, and joined by newlines they give the
-- two texts back.
pub diff_lines-reconstructs :
    (a b : Str)
    → (old (expand (diff_lines a b)) ≡ lines_of a)
      × (new (expand (diff_lines a b)) ≡ lines_of b)
      × (join (10 ∷ []) (old (expand (diff_lines a b))) ≡ a)
      × (join (10 ∷ []) (new (expand (diff_lines a b))) ≡ b)
unfolding diff_lines
diff_lines-reconstructs a b =
    let before =
      ap old (expand-merge_adjacent (lcs_backtrack (lines_of a) (lines_of b)))
      ∙ old-lcs_backtrack (lines_of a) (lines_of b) in
    let after =
      ap new (expand-merge_adjacent (lcs_backtrack (lines_of a) (lines_of b)))
      ∙ new-lcs_backtrack (lines_of a) (lines_of b) in
    (
      before,
      after,
      ap (join (10 ∷ [])) before ∙ join-lines_of a,
      ap (join (10 ∷ [])) after ∙ join-lines_of b,
    )

-- The diff is minimal: no list of chunks that leads from the first text's lines to the second's
-- keeps more lines unchanged than `diffLines` does.
pub diff_lines_minimal :
    (a b : Str) (cs : List DiffChunk)
    → old (expand cs) ≡ lines_of a
    → new (expand cs) ≡ lines_of b
    → kept (expand cs) ≤ kept (expand (diff_lines a b))
unfolding diff_lines
diff_lines_minimal a b cs h k =
    rw (expand-merge_adjacent (lcs_backtrack (lines_of a) (lines_of b)), ← h, ← k)
      (kept-le-lcs_backtrack (expand cs))
