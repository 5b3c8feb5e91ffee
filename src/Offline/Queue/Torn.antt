-- ===== src/Offline/Queue/Torn.antt =====
-- Lines that the replay of plugin/src/offline/OfflineQueue.ts does not recognise.
use obsidian_remote_ssh.Prelude.{
  ℕ, ◌+◌, ◌≤◌, List, [], ◌∷◌, ◌++◌, true, false, ltb, Str, str_eq, none, some, nat_eq, ◌≡◌, ◌≢◌,
  refl, ap, ◌∙◌, sym, arith, All, All-append,
}
use mathlib.Core.List.{append_assoc}
use obsidian_remote_ssh.Json.{JsonText}
use obsidian_remote_ssh.Offline.Queue.{
  QueuedOp, op_json, QueueEntry, OfflineQueue, LogRecord, op, completed, log_json, pending,
  replay_record, line_bytes, serialise_op, serialise_tombstone, log_body, append_file, drop_entry,
  rewrite_log, should_compact, Replace, renamed, copied, failed, Result, ok,
}
use obsidian_remote_ssh.Offline.Queue.Log.{replay_records, IsAccepted, log_text}
use obsidian_remote_ssh.Offline.Queue.{add_entry}
use obsidian_remote_ssh.Offline.Queue.Sync.{content}
use obsidian_remote_ssh.Offline.Queue
use obsidian_remote_ssh.Offline.Queue.{open_queue, replay_log, replay_text}
use obsidian_remote_ssh.Offline.Queue.{
  add_entry, replay_line, replay_lines, replay_trimmed, replay_parsed, replay_shape, is_log_record,
  throws,
}
use obsidian_remote_ssh.Prelude.{split, split-newline, str_discrete}
use native.Mathlib.Decide.{ℕ_discrete}
use obsidian_remote_ssh.Offline.Queue.Sync.{content-append_file}
use obsidian_remote_ssh.Offline.Queue.Log.{
  replay_text-append, replay_text-malformed, replay_text-malformed_line, replay_records-Alike,
  replay_text-lines, replay_line-stringify,
}
use obsidian_remote_ssh.Offline.Queue.Recovery.{blank, open_queue-content}
use obsidian_remote_ssh.Json.{Json, trim}

module _ (json : JsonText) where
  open json use {stringify, parse}

  -- An append that a crash cut short leaves a last line that is no JSON. The next start reads
  -- every line before it.
  pub open_queue_torn :
      (rs : List LogRecord) (torn : Str) (cap : ℕ)
      → All IsAccepted rs
      → All (λ c. c ≢ 10) torn
      → parse (trim torn) ≡ none
      → open_queue json (some (log_text json rs ++ torn)) (some cap)
        ≡ some (replay_records json rs (blank json (some (log_text json rs ++ torn)) cap))
  open_queue_torn rs torn cap h one bad =
      open_queue-content json (some (log_text json rs ++ torn)) cap
      ∙ replay_text-append json rs torn _ h
      ∙ replay_text-malformed json torn _ one bad

  -- Nothing ends that line: what is queued next is written behind it, on the same line. If the two
  -- together are no JSON, the start after that reads neither, though `enqueue` returned an id.
  pub enqueue_torn :
      (rs : List LogRecord) (torn : Str) (cap now : ℕ) (o : QueuedOp) (q : OfflineQueue)
      → All IsAccepted rs
      → All (λ c. c ≢ 10) torn
      → q.log ≡ some (log_text json rs ++ torn)
      → q.bytes_used + line_bytes json (record { id = q.next_id; ts = now; op = op_json o })
        ≤ q.max_bytes
      → parse
          (trim (torn ++ serialise_op json (record { id = q.next_id; ts = now; op = op_json o })))
        ≡ none
      → ((Queue.enqueue json o now true q).1 ≡ ok q.next_id)
        × ((r : OfflineQueue) × (open_queue json (Queue.enqueue json o now true q).0.log (some cap)
              ≡ some r)
            × (r.pending_map ≡ (replay_records json rs (blank json q.log cap)).pending_map))
  enqueue_torn rs torn cap now o q h one e fits bad =
      let entry : QueueEntry = record { id = q.next_id; ts = now; op = op_json o } in
      let line = serialise_op json entry in
      let q' = add_entry json entry q in
      let under : ltb q.max_bytes (q.bytes_used + line_bytes json entry) ≡ false = ground arith in
      let log' : content q'.log ≡ log_text json rs ++ ((torn ++ line) ++ 10 ∷ []) =
        unfold add_entry in
        (content-append_file q.log (line ++ 10 ∷ [])
          ∙ ap (λ l. content l ++ (line ++ 10 ∷ [])) e
          ∙ append_assoc (log_text json rs) torn (line ++ 10 ∷ [])
          ∙ ap (λ t. log_text json rs ++ t) (sym (append_assoc torn line (10 ∷ [])))) in
      let b = blank json q'.log cap in
      let one_line =
        All-append (λ c. c ≢ 10) torn line one
          (unfold serialise_op in json.stringify_one_line (log_json (op entry))) in
      let opened : open_queue json q'.log (some cap) ≡ some (replay_records json rs b) =
        open_queue-content json q'.log cap
        ∙ ap (λ t. replay_text json t b) log'
        ∙ replay_text-append json rs ((torn ++ line) ++ 10 ∷ []) b h
        ∙ replay_text-malformed_line json (torn ++ line) (replay_records json rs b) one_line bad in
      unfold Queue.enqueue in
      (
        rw (under, Queue.enqueue) refl,
        (
          replay_records json rs b,
          rw (under, Queue.enqueue) opened,
          (replay_records-Alike json rs b (blank json q.log cap)
              (record { map_is = refl; bytes_is = refl; next_is = refl })).map_is,
        ),
      )

  stops :
      (l : Str) (ls : List Str) (q : OfflineQueue)
      → replay_line json l q ≡ none
      → replay_lines json (l ∷ ls) q ≡ none
  unfolding replay_lines
  stops l ls q h = rw (h, replay_lines) refl

  null_op-throws :
      (id ts : ℕ)
      → is_log_record (log_json (op (record { id = id; ts = ts; op = Json.null }))) ≡ throws
  unfolding is_log_record log_json str_discrete ℕ_discrete
  null_op-throws id ts = refl

  -- A line that reads as an `op` record whose `op` is null is not skipped: `open` throws on it,
  -- whatever stands before and behind it.
  pub open_queue_null_op :
      (rs : List LogRecord) (id ts cap : ℕ) (rest : Str)
      → All IsAccepted rs
      → open_queue json
          (some (
            log_text json rs
            ++ (stringify (log_json (op (record { id = id; ts = ts; op = Json.null })))
                ++ (10 ∷ rest))))
          (some cap)
        ≡ none
  open_queue_null_op rs id ts cap rest h =
      let v = log_json (op (record { id = id; ts = ts; op = Json.null })) in
      let log = log_text json rs ++ (stringify v ++ (10 ∷ rest)) in
      let r = replay_records json rs (blank json (some log) cap) in
      open_queue-content json (some log) cap
      ∙ replay_text-append json rs (stringify v ++ (10 ∷ rest)) (blank json (some log) cap) h
      ∙ replay_text-lines json (stringify v ++ (10 ∷ rest)) r
      ∙ ap (λ ls. replay_lines json ls r)
          (split-newline 10 (stringify v) rest (json.stringify_one_line v))
      ∙ stops (stringify v) (split 10 rest) r (
          replay_line-stringify json v r
          ∙ ap (λ s. replay_shape json s r) (null_op-throws id ts)
          ∙ unfold replay_shape in refl)
