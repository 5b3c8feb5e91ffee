-- ===== src/Conflict/Diff/Runs.antt =====
-- Neighbouring chunks of the diff in plugin/src/conflict/DiffEngine.ts are of different kinds.
use mathlib.Core.Bool.{true≢false}
use obsidian_remote_ssh.Prelude.{
  List, [], ◌∷◌, ◌++◌, ◌≡◌, ◌≢◌, refl, ap, ◌∙◌, sym, Str, arith, Bool-cases, inl, inr, true,
}
use obsidian_remote_ssh.Conflict.Diff.{
  Kind, eq, add, del, RawOp, DiffChunk, lcs_backtrack, same_kind, merge_from, merge_adjacent,
  lines_of, diff_lines,
}

≡→same_kind : (k : Kind) → same_kind k k ≡ true
≡→same_kind eq = refl
≡→same_kind add = refl
≡→same_kind del = refl

abbrev pub StartsOther : Kind → List DiffChunk → Type 0
StartsOther k [] = Unit
StartsOther k (c ∷ cs) = k ≢ c.kind

-- No chunk is empty, and neighbours differ in kind.
abbrev pub IsMerged : List DiffChunk → Type 0
IsMerged [] = Unit
IsMerged (c ∷ cs) = (c.lines ≢ []) × StartsOther c.kind cs × IsMerged cs

merge_from-StartsOther :
    (k : Kind) (cur : DiffChunk) (ops : List RawOp)
    → k ≢ cur.kind
    → StartsOther k (merge_from cur ops)
unfolding merge_from
merge_from-StartsOther k cur [] h = h
merge_from-StartsOther k cur (op ∷ ops) h = elim (Bool-cases (same_kind op.kind cur.kind)) [
  | inl same ↦
      rw same (merge_from-StartsOther k (record cur { lines = cur.lines ++ op.line ∷ [] }) ops h)
  | inr other ↦ rw other h
]

append-ne-nil : (ls : List Str) (l : Str) → ls ++ l ∷ [] ≢ []
append-ne-nil [] l = ground arith
append-ne-nil (x ∷ ls) l = ground arith

merge_from-IsMerged :
    (cur : DiffChunk) (ops : List RawOp) → cur.lines ≢ [] → IsMerged (merge_from cur ops)
unfolding merge_from
merge_from-IsMerged cur [] h = (h, tt, tt)
merge_from-IsMerged cur (op ∷ ops) h = elim (Bool-cases (same_kind op.kind cur.kind)) [
  | inl same ↦ rw same (
      merge_from-IsMerged (record cur { lines = cur.lines ++ op.line ∷ [] }) ops
        (append-ne-nil cur.lines op.line))
  | inr other ↦
      let next : DiffChunk = record { kind = op.kind; lines = op.line ∷ [] } in
      let differ : cur.kind ≢ op.kind = λ e.
        absurd
          (true≢false (sym (≡→same_kind cur.kind) ∙ ap (λ k. same_kind k cur.kind) e ∙ other)) in
      rw other (
        h,
        merge_from-StartsOther cur.kind next ops differ,
        merge_from-IsMerged next ops (ground arith),
      )
]

-- The chunks are maximal runs: none is empty, and no two neighbours are of one kind.
pub diff_lines-IsMerged : (a b : Str) → IsMerged (diff_lines a b)
unfolding diff_lines
diff_lines-IsMerged a b = go (lcs_backtrack (lines_of a) (lines_of b))
  where
    go : (ops : List RawOp) → IsMerged (merge_adjacent ops)
    go [] = unfold merge_adjacent in tt
    go (op ∷ ops) =
        unfold merge_adjacent in
        merge_from-IsMerged (record { kind = op.kind; lines = op.line ∷ [] }) ops (ground arith)
