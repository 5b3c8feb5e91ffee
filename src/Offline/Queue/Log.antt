-- ===== src/Offline/Queue/Log.antt =====
-- The log of plugin/src/offline/OfflineQueue.ts as a list of records.
use obsidian_remote_ssh.Prelude.{
  ℕ, ◌+◌, List, [], ◌∷◌, ◌++◌, Str, str_eq, str_discrete, split, none, some, nat_eq, ◌≡◌, ◌≢◌, refl,
  ap, ◌∙◌, sym, arith, All, split-newline, split-one,
}
use mathlib.Core.List.{append_assoc, append-nil}
use native.Mathlib.Decide.{ℕ_discrete}
use obsidian_remote_ssh.JsMap
use obsidian_remote_ssh.JsMap.{values}
use obsidian_remote_ssh.Json.{Json, JsonText, trim}
use obsidian_remote_ssh.Offline.Queue.{
  QueuedOp, write, write_binary, append, append_binary, mkdir, remove, rmdir, rename, copy,
  trash_local, op_json, OfflineQueue, LogRecord, op, completed, is_record, log_json, is_log_record,
  replay_record, replay_line, replay_lines, replay_trimmed, replay_parsed, replay_shape,
  replay_text, line_bytes,
}

-- A record that is recognised when it is read back.
abbrev pub IsAccepted : LogRecord → Type 0
IsAccepted r = is_log_record (log_json r) ≡ is_record r

-- Whatever the plugin queues is recognised.
pub op_json-IsAccepted :
    (o : QueuedOp) (id ts : ℕ) → IsAccepted (op (record { id = id; ts = ts; op = op_json o }))
unfolding is_log_record log_json op_json str_discrete ℕ_discrete
op_json-IsAccepted (write p c t) id ts = refl
op_json-IsAccepted (write_binary p c t) id ts = refl
op_json-IsAccepted (append p c) id ts = refl
op_json-IsAccepted (append_binary p c) id ts = refl
op_json-IsAccepted (mkdir p) id ts = refl
op_json-IsAccepted (remove p) id ts = refl
op_json-IsAccepted (rmdir p r) id ts = refl
op_json-IsAccepted (rename p q) id ts = refl
op_json-IsAccepted (copy p q) id ts = refl
op_json-IsAccepted (trash_local p) id ts = refl

pub completed-IsAccepted : (id ts : ℕ) → IsAccepted (completed id ts)
unfolding is_log_record log_json str_discrete ℕ_discrete
completed-IsAccepted id ts = refl

module _ (json : JsonText) where
  open json use {stringify, parse}

  -- The text of a list of records.
  abbrev pub log_text : List LogRecord → Str
  log_text [] = []
  log_text (r ∷ rs) = stringify (log_json r) ++ (10 ∷ log_text rs)

  abbrev pub replay_records : List LogRecord → OfflineQueue → OfflineQueue
  replay_records [] q = q
  replay_records (r ∷ rs) q = replay_records rs (replay_record json r q)

  pub log_text-append : (rs ss : List LogRecord) → log_text (rs ++ ss) ≡ log_text rs ++ log_text ss
  log_text-append [] ss = refl
  log_text-append (r ∷ rs) ss =
      ap (λ t. stringify (log_json r) ++ (10 ∷ t)) (log_text-append rs ss)
      ∙ sym (append_assoc (stringify (log_json r)) (10 ∷ log_text rs) (log_text ss))

  pub replay_records-append :
      (rs ss : List LogRecord) (q : OfflineQueue)
      → replay_records (rs ++ ss) q ≡ replay_records ss (replay_records rs q)
  replay_records-append [] ss q = refl
  replay_records-append (r ∷ rs) ss q = replay_records-append rs ss (replay_record json r q)

  replay_trimmed-ne-nil :
      (s : Str) (q : OfflineQueue)
      → s ≢ []
      → replay_trimmed json s q ≡ replay_parsed json (parse s) q
  unfolding replay_trimmed
  replay_trimmed-ne-nil [] q h = absurd (h refl)
  replay_trimmed-ne-nil (c ∷ s) q h = refl

  replay_trimmed-malformed :
      (s : Str) (q : OfflineQueue) → parse s ≡ none → replay_trimmed json s q ≡ some q
  unfolding replay_trimmed replay_parsed
  replay_trimmed-malformed [] q h = refl
  replay_trimmed-malformed (c ∷ s) q h = rw h refl

  -- A line that `JSON.stringify` wrote is judged by its value.
  pub replay_line-stringify :
      (v : Json) (q : OfflineQueue)
      → replay_line json (stringify v) q ≡ replay_shape json (is_log_record v) q
  unfolding replay_line
  replay_line-stringify v q =
      rw (json.trim-stringify v, replay_line)
        (replay_trimmed-ne-nil (stringify v) q (json.stringify-ne-nil v)
          ∙ ap (λ o. replay_parsed json o q) (json.parse-stringify v)
          ∙ unfold replay_parsed in refl)

  replay_shape_of_IsAccepted :
      (r : LogRecord) (q : OfflineQueue)
      → IsAccepted r
      → replay_shape json (is_log_record (log_json r)) q ≡ some (replay_record json r q)
  unfolding replay_shape
  replay_shape_of_IsAccepted r q h = ap (λ s. replay_shape json s q) h

  pub replay_text-lines :
      (s : Str) (q : OfflineQueue) → replay_text json s q ≡ replay_lines json (split 10 s) q
  unfolding replay_text replay_lines replay_line split
  replay_text-lines [] q = refl
  replay_text-lines (c ∷ s) q = refl

  pub replay_lines-log_text :
      (rs : List LogRecord) (t : Str) (q : OfflineQueue)
      → All IsAccepted rs
      → replay_lines json (split 10 (log_text rs ++ t)) q
        ≡ replay_lines json (split 10 t) (replay_records rs q)
  unfolding replay_lines
  replay_lines-log_text [] t q h = refl
  replay_lines-log_text (r ∷ rs) t q (here, h) =
      rw
        (
          append_assoc (stringify (log_json r)) (10 ∷ log_text rs) t,
          split-newline 10 (stringify (log_json r)) (log_text rs ++ t)
              (json.stringify_one_line (log_json r)),
          replay_lines,
          replay_line-stringify (log_json r) q,
          replay_shape_of_IsAccepted r q here,
        )
        (replay_lines-log_text rs t (replay_record json r q) h)

  -- Records with a text behind them are read first.
  pub replay_text-append :
      (rs : List LogRecord) (t : Str) (q : OfflineQueue)
      → All IsAccepted rs
      → replay_text json (log_text rs ++ t) q ≡ replay_text json t (replay_records rs q)
  replay_text-append rs t q h =
      replay_text-lines (log_text rs ++ t) q
      ∙ replay_lines-log_text rs t q h
      ∙ sym (replay_text-lines t (replay_records rs q))

  -- The text of a list of records is read as that list.
  pub replay_text-log_text :
      (rs : List LogRecord) (q : OfflineQueue)
      → All IsAccepted rs
      → replay_text json (log_text rs) q ≡ some (replay_records rs q)
  replay_text-log_text rs q h =
      ap (λ t. replay_text json t q) (sym (append-nil (log_text rs)))
      ∙ replay_text-append rs [] q h
      ∙ unfold replay_text in refl

  replay_lines-malformed :
      (t : Str) (q : OfflineQueue) → parse (trim t) ≡ none → replay_lines json (t ∷ []) q ≡ some q
  unfolding replay_lines replay_line
  replay_lines-malformed t q bad =
      rw (replay_trimmed-malformed (trim t) q bad, replay_lines, replay_line) refl

  -- So is one that a line break ends.
  pub replay_text-malformed_line :
      (t : Str) (q : OfflineQueue)
      → All (λ c. c ≢ 10) t
      → parse (trim t) ≡ none
      → replay_text json (t ++ 10 ∷ []) q ≡ some q
  replay_text-malformed_line t q one bad =
      replay_text-lines (t ++ 10 ∷ []) q
      ∙ ap (λ ls. replay_lines json ls q) (split-newline 10 t [] one)
      ∙ (unfold replay_lines replay_line split in
          (rw (replay_trimmed-malformed (trim t) q bad, replay_lines, replay_line) refl))

  -- A line that is no JSON is skipped.
  pub replay_text-malformed :
      (t : Str) (q : OfflineQueue)
      → All (λ c. c ≢ 10) t
      → parse (trim t) ≡ none
      → replay_text json t q ≡ some q
  replay_text-malformed t q one bad =
      replay_text-lines t q
      ∙ ap (λ ls. replay_lines json ls q) (split-one 10 t one)
      ∙ replay_lines-malformed t q bad

  -- A replay depends on nothing but these.
  pub record Alike (q q' : OfflineQueue) : Type 0 where
    pub map_is : q.pending_map ≡ q'.pending_map
    pub bytes_is : q.bytes_used ≡ q'.bytes_used
    pub next_is : q.next_id ≡ q'.next_id

  replay_record-Alike :
      (r : LogRecord) (q q' : OfflineQueue)
      → Alike q q'
      → Alike (replay_record json r q) (replay_record json r q')
  unfolding replay_record
  replay_record-Alike (op e) q q' a = record {
    map_is = ap (JsMap.set e.id e) a.map_is;
    bytes_is = ap (λ n. n + line_bytes json e) a.bytes_is;
    next_is = ground arith;
  }
  replay_record-Alike (completed id ts) q q' a = ground arith

  pub replay_records-Alike :
      (rs : List LogRecord) (q q' : OfflineQueue)
      → Alike q q'
      → Alike (replay_records rs q) (replay_records rs q')
  replay_records-Alike [] q q' a = a
  replay_records-Alike (r ∷ rs) q q' a =
      replay_records-Alike rs (replay_record json r q) (replay_record json r q')
        (replay_record-Alike r q q' a)
