-- ===== src/Tests/Conflict.antt =====
-- Runs of the diff in plugin/src/conflict/DiffEngine.ts.
use native.Mathlib.Decide.{ℕ_discrete}
use obsidian_remote_ssh.Prelude.{
  List, [], ◌∷◌, ◌++◌, Str, codes, join, str_discrete, split, ◌≡◌, ◌≤◌, refl,
}
use obsidian_remote_ssh.Conflict.Diff.{
  eq, add, del, DiffChunk, diff_lines, lines_of, backtrack, fill_rows, fill_row,
}
use obsidian_remote_ssh.Conflict.Diff.Script.{old, new, kept}
use obsidian_remote_ssh.Conflict.Diff.Chunks.{expand, diff_lines-reconstructs, diff_lines_minimal}
use obsidian_remote_ssh.Conflict.Diff.Runs.{IsMerged, diff_lines-IsMerged}

abbrev before : Str
before = codes "a" ++ 10 ∷ codes "b" ++ 10 ∷ codes "c"

abbrev after : Str
after = codes "b" ++ 10 ∷ codes "c" ++ 10 ∷ codes "d"

-- The whole of the one text deleted and the whole of the other added.
abbrev replacement : List DiffChunk
replacement =
    record { kind = del; lines = codes "a" ∷ codes "b" ∷ codes "c" ∷ [] }
    ∷ record { kind = add; lines = codes "b" ∷ codes "c" ∷ codes "d" ∷ [] }
    ∷ []

diff_lines_shift :
    diff_lines before after
    ≡ record { kind = del; lines = codes "a" ∷ [] }
      ∷ record { kind = eq; lines = codes "b" ∷ codes "c" ∷ [] }
      ∷ record { kind = add; lines = codes "d" ∷ [] }
      ∷ []
unfolding diff_lines str_discrete ℕ_discrete split backtrack fill_rows fill_row
diff_lines_shift = refl

diff_lines-reconstructs_example :
    (old (expand (diff_lines before after)) ≡ lines_of before)
    × (new (expand (diff_lines before after)) ≡ lines_of after)
    × (join (10 ∷ []) (old (expand (diff_lines before after))) ≡ before)
    × (join (10 ∷ []) (new (expand (diff_lines before after))) ≡ after)
diff_lines-reconstructs_example = diff_lines-reconstructs before after

diff_lines_minimal_example : kept (expand replacement) ≤ kept (expand (diff_lines before after))
unfolding lines_of split
diff_lines_minimal_example = diff_lines_minimal before after replacement refl refl

diff_lines-IsMerged_example : IsMerged (diff_lines before after)
diff_lines-IsMerged_example = diff_lines-IsMerged before after
