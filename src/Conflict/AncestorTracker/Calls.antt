-- ===== src/Conflict/AncestorTracker/Calls.antt =====
-- What holds of plugin/src/conflict/AncestorTracker.ts after any sequence of calls.
use obsidian_remote_ssh.Prelude.{
  ℕ, ◌+◌, ◌*◌, ◌/◌, List, [], ◌∷◌, if◌then◌else◌, leb, ltb, Str, str_eq, ◌==◌, ==_iff, Option, none,
  some, ◌≡◌, ◌⊎◌, refl, arith, Bool-cases, Option-cases, inl, inr, ◌∙◌, sym, ap,
}
use obsidian_remote_ssh.JsMap
use obsidian_remote_ssh.JsMap.{IsDistinct}
use obsidian_remote_ssh.JsMap.Laws.{get-delete, get-set}
use obsidian_remote_ssh.Conflict.AncestorTracker
use obsidian_remote_ssh.Conflict.AncestorTracker.{
  AncestorEntry, Snapshot, AncestorTracker, init, evict, record_snapshot, byte_length,
  sort_by_access,
}
use obsidian_remote_ssh.Conflict.AncestorTracker.Recent.{get-evict_from}
use obsidian_remote_ssh.Conflict.AncestorTracker.Books.{
  IsCounted, IsValid, remember-IsValid, get-IsValid, invalidate-IsValid, clear-IsValid,
  record_snapshot-IsCounted,
}

-- A call of a method that changes the tracker.
pub data Call : Type 0 where
  remember : (path content : Str) (mtime : ℕ) → Call
  get invalidate : Str → Call
  clear : Call

unfoldable pub step : Call → AncestorTracker → AncestorTracker
step (Call.remember path content mtime) t = AncestorTracker.remember path content mtime t
step (Call.get path) t = (AncestorTracker.get path t).0
step (Call.invalidate path) t = AncestorTracker.invalidate path t
step Call.clear t = AncestorTracker.clear t

unfoldable pub run : List Call → AncestorTracker → AncestorTracker
unfolding step
run [] t = t
run (call ∷ calls) t = run calls (step call t)

step-IsValid : (call : Call) (t : AncestorTracker) → IsValid t → IsValid (step call t)
unfolding step
step-IsValid (Call.remember path content mtime) t h = remember-IsValid path content mtime t h.books
step-IsValid (Call.get path) t h = get-IsValid path t h
step-IsValid (Call.invalidate path) t h = invalidate-IsValid path t h
step-IsValid Call.clear t h = clear-IsValid t

-- The text that was last read or written under a path, until it is invalidated.
abbrev pub ideal_step : Call → (Str → Option AncestorEntry) → Str → Option AncestorEntry
ideal_step (Call.remember path content mtime) f q =
    if path == q then some (record { content = content; mtime = mtime }) else f q
ideal_step (Call.get path) f q = f q
ideal_step (Call.invalidate path) f q = if path == q then none else f q
ideal_step Call.clear f q = none

abbrev pub ideal : List Call → (Str → Option AncestorEntry) → Str → Option AncestorEntry
ideal [] f = f
ideal (call ∷ calls) f = ideal calls (ideal_step call f)

abbrev pub seen : Snapshot → AncestorEntry
seen e = record { content = e.content; mtime = e.mtime }

-- Every entry is one of the ideal tracker.
abbrev Agrees : AncestorTracker → (Str → Option AncestorEntry) → Type 0
Agrees t f = (q : Str) (e : Snapshot) → JsMap.get q t.entries ≡ some e → f q ≡ some (seen e)

get-evict :
    (t : AncestorTracker) (q : Str) (e : Snapshot)
    → IsDistinct t.entries
    → JsMap.get q (evict t).entries ≡ some e
    → JsMap.get q t.entries ≡ some e
unfolding evict
get-evict t q e d h = elim (Bool-cases (leb t.total_bytes (t.max_bytes * 9 / 10))) [
  | inl small ↦ rw small at h
  | inr large ↦
      get-evict_from (t.max_bytes * 9 / 10) (sort_by_access t.entries) t q e d (rw large at h)
]

get-remember :
    (path content : Str) (mtime : ℕ) (t : AncestorTracker) (q : Str) (e : Snapshot)
    → IsCounted t
    → JsMap.get q (AncestorTracker.remember path content mtime t).entries ≡ some e
    → JsMap.get q (record_snapshot path content mtime t).entries ≡ some e
unfolding AncestorTracker.remember
get-remember path content mtime t q e h found =
    let t' = record_snapshot path content mtime t in
    elim (Bool-cases (ltb t'.max_bytes t'.total_bytes)) [
      | inl over ↦
          get-evict t' q e (record_snapshot-IsCounted path content mtime t h).distinct
            (rw over at found)
      | inr under ↦ rw under at found
    ]

-- A read changes the time of access, and nothing else of an entry.
get-touched :
    (path : Str) (t : AncestorTracker) (q : Str) (e : Snapshot)
    → JsMap.get q (AncestorTracker.get path t).0.entries ≡ some e
    → (v : Snapshot) × (JsMap.get q t.entries ≡ some v) × (seen v ≡ seen e)
unfolding AncestorTracker.get
get-touched path t q e found = elim (Option-cases (JsMap.get path t.entries)) [
  | inl miss ↦ (e, rw (miss, AncestorTracker.get) at found, refl)
  | inr (v, hit) ↦
      let v' : Snapshot = record v { last_accessed = t.tick_counter + 1 } in
      let found' : JsMap.get q (JsMap.set path v' t.entries) ≡ some e =
        rw (hit, AncestorTracker.get) at found in
      elim (Bool-cases (path == q)) [
        | inl same ↦ (v, ground (arith, ==_iff path q), ground (arith, get-set path q v' t.entries))
        | inr other ↦ (e, ground (arith, get-set path q v' t.entries), refl)
      ]
]

step-Agrees :
    (call : Call) (t : AncestorTracker) (f : Str → Option AncestorEntry)
    → IsValid t
    → Agrees t f
    → Agrees (step call t) (ideal_step call f)
unfolding step
step-Agrees (Call.remember path content mtime) t f h a q e found =
    let stored = get-remember path content mtime t q e h.books found in
    unfold record_snapshot in
    ground (
      arith,
      a q e,
      get-set path q
          (record {
            content = content;
            mtime = mtime;
            size_bytes = byte_length content;
            last_accessed = t.tick_counter + 1;
          })
          t.entries,
    )
step-Agrees (Call.get path) t f h a q e found =
    let (v, here, same) = get-touched path t q e found in a q v here ∙ ap some same
step-Agrees (Call.invalidate path) t f h a q e found =
    unfold AncestorTracker.invalidate in
    ground (arith, a q e, get-delete path q t.entries h.books.distinct)
step-Agrees Call.clear t f h a q e found = unfold AncestorTracker.clear JsMap.get in ground arith

run-Agrees :
    (calls : List Call) (t : AncestorTracker) (f : Str → Option AncestorEntry)
    → IsValid t
    → Agrees t f
    → IsValid (run calls t) × Agrees (run calls t) (ideal calls f)
unfolding run
run-Agrees [] t f h a = (h, a)
run-Agrees (call ∷ calls) t f h a =
    run-Agrees calls (step call t) (ideal_step call f) (step-IsValid call t h)
      (step-Agrees call t f h a)

-- After any calls on a new tracker each path stands once, `totalBytes` is the sum of the sizes and
-- within the limit, and `get` returns what was last remembered of the path and not invalidated
-- since, or nothing.
pub ideal-run_tracker :
    (max_bytes : Option ℕ) (ticks : ℕ) (calls : List Call) (q : Str)
    → IsValid (run calls (init max_bytes ticks))
      × (((AncestorTracker.get q (run calls (init max_bytes ticks))).1 ≡ none)
          ⊎ ((AncestorTracker.get q (run calls (init max_bytes ticks))).1
              ≡ ideal calls (λ _. none) q))
unfolding AncestorTracker.get
ideal-run_tracker max_bytes ticks calls q =
    let start : IsValid (init max_bytes ticks) =
      unfold init in
      (record { books = record { distinct = tt; counted = refl }; within = omega arith }) in
    let nothing : Agrees (init max_bytes ticks) (λ _. none) =
      unfold init JsMap.get in (λ q e found. absurd (ground arith)) in
    let (valid, agrees) = run-Agrees calls (init max_bytes ticks) (λ _. none) start nothing in
    let t = run calls (init max_bytes ticks) in
    (
      valid,
      elim (Option-cases (JsMap.get q t.entries)) [
        | inl miss ↦ inl (rw (miss, AncestorTracker.get) refl)
        | inr (e, hit) ↦ inr (rw (hit, AncestorTracker.get) (sym (agrees q e hit)))
      ],
    )
