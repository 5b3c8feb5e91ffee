-- ===== src/Tests/Offline.antt =====
-- Runs of the queue and the replayer in plugin/src/offline.
use obsidian_remote_ssh.Prelude.{
  ℕ, zero, suc, ◌+◌, List, [], ◌∷◌, ◌++◌, true, false, if◌then◌else◌, ltb, Str, codes, utf8_length,
  none, some, ◌≡◌, ◌≢◌, refl, arith, All,
}
use obsidian_remote_ssh.Json.{Json, trim}
use obsidian_remote_ssh.Offline.Queue
use obsidian_remote_ssh.Offline.Queue.{
  QueuedOp, QueueEntry, OfflineQueue, LogRecord, op, completed, op_json, log_json, renamed, copied,
  failed, ok, over_cap, io_error, open_queue, pending, line_bytes, serialise_op,
}
use obsidian_remote_ssh.Offline.Queue.Log.{IsAccepted, op_json-IsAccepted, log_text, replay_records}
use obsidian_remote_ssh.Offline.Queue.Sync.{IsValid}
use obsidian_remote_ssh.Offline.Queue.Recovery.{
  Call, Succeeds, enqueue, mark_completed, compact, initial, run, run_in_step, open_queue-run,
  Recovered, open_queue-clear, blank,
}
use obsidian_remote_ssh.Offline.Queue.Pending.{without, enqueue-pending, mark_completed-pending}
use obsidian_remote_ssh.Offline.Queue.Torn.{open_queue_torn, enqueue_torn, open_queue_null_op}
use obsidian_remote_ssh.Offline.Replayer.{ReplayOutcome, ReplayReport, Io}
use obsidian_remote_ssh.Offline.Replayer
use obsidian_remote_ssh.Offline.Replayer.Drain.{Drained, run-Drained}
use obsidian_remote_ssh.Tests.TokenText.{token_text, parse_tokens, write}

-- Two writes, the first of them sent; a failed append, a failed rewrite of the log, and another
-- write.
abbrev calls : List Call
calls =
    enqueue (QueuedOp.mkdir (codes "d")) 100 true
    ∷ enqueue (QueuedOp.write (codes "d/a") (codes "aGk=") (some 7)) 101 true
    ∷ mark_completed 1 102 true renamed
    ∷ enqueue (QueuedOp.remove (codes "x")) 103 false
    ∷ compact failed
    ∷ enqueue (QueuedOp.rename (codes "d/a") (codes "d/b")) 104 true
    ∷ []

calls-Succeeds : All Succeeds calls
calls-Succeeds = (tt, (tt, (tt, (tt, (tt, (tt, tt))))))

abbrev used : OfflineQueue
used = run token_text calls (initial 100000)

used-IsValid : IsValid token_text used
used-IsValid = run_in_step token_text 100000 calls calls-Succeeds

open_queue-run_example :
    (r : OfflineQueue) × (open_queue token_text used.log (some used.max_bytes) ≡ some r)
    × Recovered token_text used r
open_queue-run_example = open_queue-run token_text 100000 calls calls-Succeeds

run_in_step_example : IsValid token_text used
run_in_step_example = run_in_step token_text 100000 calls calls-Succeeds

open_queue-clear_example :
    (r : OfflineQueue) × (open_queue token_text
        (Queue.clear token_text copied used).0.log
        (some used.max_bytes)
      ≡ some r)
    × (r.next_id ≡ 1)
    × (r.pending_map ≡ [])
open_queue-clear_example = open_queue-clear token_text used copied (ground arith)

abbrev entry : QueueEntry
entry = record { id = used.next_id; ts = 200; op = op_json (QueuedOp.rmdir (codes "d") true) }

enqueue-pending_example :
    ((Queue.enqueue token_text (QueuedOp.rmdir (codes "d") true) 200 true used).1 ≡ (
      if ltb used.max_bytes (used.bytes_used + line_bytes token_text entry)
      then over_cap
      else if true
      then ok entry.id
      else io_error))
    × (pending (Queue.enqueue token_text (QueuedOp.rmdir (codes "d") true) 200 true used).0 ≡ (
        if ltb used.max_bytes (used.bytes_used + line_bytes token_text entry)
        then pending used
        else if true
        then pending used ++ entry ∷ []
        else pending used))
enqueue-pending_example =
    enqueue-pending token_text (QueuedOp.rmdir (codes "d") true) 200 true used entry refl
      used-IsValid

mark_completed-pending_example :
    pending (Queue.mark_completed token_text 2 300 true failed used).0
    ≡ (if true then without 2 (pending used) else pending used)
mark_completed-pending_example =
    mark_completed-pending token_text 2 300 true failed used used-IsValid

abbrev records : List LogRecord
records =
    op (record { id = 1; ts = 5; op = op_json (QueuedOp.mkdir (codes "d")) })
    ∷ op (record { id = 2; ts = 6; op = op_json (QueuedOp.remove (codes "e")) })
    ∷ []

records-IsAccepted : All IsAccepted records
records-IsAccepted = (
  op_json-IsAccepted (QueuedOp.mkdir (codes "d")) 1 5,
  (op_json-IsAccepted (QueuedOp.remove (codes "e")) 2 6, tt),
)

-- The first token of a number, without the number.
abbrev torn : Str
torn = 3 ∷ []

torn_one_line : All (λ c. c ≢ 10) torn
torn_one_line = (omega arith, tt)

open_queue_torn_example :
    open_queue token_text (some (log_text token_text records ++ torn)) (some 1000)
    ≡ some (
        replay_records token_text records
          (blank token_text (some (log_text token_text records ++ torn)) 1000))
unfolding parse_tokens trim
open_queue_torn_example =
    open_queue_torn token_text records torn 1000 records-IsAccepted torn_one_line refl

abbrev reopened : OfflineQueue
reopened =
    replay_records token_text records
      (blank token_text (some (log_text token_text records ++ torn)) 100000)

enqueue_torn_example :
    ((Queue.enqueue token_text (QueuedOp.mkdir (codes "f")) 9 true reopened).1
      ≡ ok reopened.next_id)
    × ((r : OfflineQueue) × (open_queue token_text
            (Queue.enqueue token_text (QueuedOp.mkdir (codes "f")) 9 true reopened).0.log
            (some 100000)
          ≡ some r)
        × (r.pending_map
            ≡ (replay_records token_text records
                (blank token_text reopened.log 100000)).pending_map))
unfolding Queue.replay_record utf8_length serialise_op write op_json parse_tokens trim
enqueue_torn_example =
    enqueue_torn token_text records torn 100000 9 (QueuedOp.mkdir (codes "f")) reopened
      records-IsAccepted torn_one_line refl (omega arith) refl

open_queue_null_op_example :
    open_queue token_text
      (some (
        log_text token_text records
        ++ (token_text.stringify (log_json (op (record { id = 3; ts = 7; op = Json.null })))
            ++ (10 ∷ []))))
      (some 1000)
    ≡ none
open_queue_null_op_example = open_queue_null_op token_text records 3 7 1000 [] records-IsAccepted

-- A target that takes every write but the third.
abbrev replay : ℕ → Json → ℕ × ReplayOutcome
replay zero v = (1, ReplayOutcome.ok)
replay (suc zero) v = (2, ReplayOutcome.conflict)
replay n v = (n, ReplayOutcome.threw (codes "offline"))

abbrev io : Io
io = record { now = λ _. 500; appended = λ _. true; replaced = λ _. renamed }

run-Drained_example :
    (report : ReplayReport) × ((Replayer.run token_text io replay used 0).report ≡ some report)
    × Drained token_text io replay
        (pending used)
        0
        (Replayer.run token_text io replay used 0)
        report
run-Drained_example =
    run-Drained token_text io replay (record { appends = λ _. refl; replaces = λ _. ground arith })
      used 0 used-IsValid
