-- ===== src/Offline/Replayer.antt =====
-- plugin/src/offline/QueueReplayer.ts: the pending writes are sent to the target, oldest first, and
-- the first error stops. The target (`SftpDataAdapter.replayQueuedOp`, or whatever stands in for it)
-- is a function on a state of its own.
pub mod Drain
use obsidian_remote_ssh.Prelude.{ℕ, ◌+◌, List, [], ◌∷◌, ◌++◌, Bool, Str, Option, none, some}
use obsidian_remote_ssh.Json.{Json, JsonText}
use obsidian_remote_ssh.Offline.Queue.{
  QueueEntry, OfflineQueue, Replace, Result, pending, mark_completed,
}

pub data ReplayOutcome : Type 0 where
  ok conflict : ReplayOutcome
  error : (message : Str) → ReplayOutcome
  -- The target threw, with this message.
  threw : (message : Str) → ReplayOutcome

pub record ReplayReport : Type 0 where
  pub drained : ℕ
  pub conflicts : ℕ
  pub errors : List (ℕ × Str)

abbrev pub no_report : ReplayReport
no_report = record { drained = 0; conflicts = 0; errors = [] }

-- The time and the outcomes of the file system that `markCompleted` of an entry meets.
pub record Io : Type 0 where
  pub now : ℕ → ℕ
  pub appended : ℕ → Bool
  pub replaced : ℕ → Replace

-- The queue and the target afterwards, and the report; `none` where `markCompleted` threw.
pub record Outcome (Target : Type 0) : Type 0 where
  pub queue : OfflineQueue
  pub target : Target
  pub report : Option ReplayReport

module _ {Target : Type 0} where
  module _ (json : JsonText) (io : Io) (replay : Target → Json → Target × ReplayOutcome) where
    -- The `for` loop of `run`. `complete` is the call of `markCompleted` in both of its places, with
    -- the report that the loop goes on with.
    unfoldable pub drain : List QueueEntry → OfflineQueue → Target → ReplayReport → Outcome Target
    drain [] q t report = record { queue = q; target = t; report = some report }
    drain (entry ∷ rest) q t report =
        let (t', outcome) = replay t entry.op in
        let completed =
          mark_completed json entry.id (io.now entry.id) (io.appended entry.id)
            (io.replaced entry.id) q in
        elim outcome [
          | ok ↦ elim completed.1 [
            | Result.ok _ ↦
                drain rest completed.0 t' (record report { drained = report.drained + 1 })
            | _ ↦ record { queue = completed.0; target = t'; report = none }
          ]
          | conflict ↦ elim completed.1 [
            | Result.ok _ ↦
                drain rest completed.0 t' (record report { conflicts = report.conflicts + 1 })
            | _ ↦ record { queue = completed.0; target = t'; report = none }
          ]
          | error message ↦ record {
            queue = q;
            target = t';
            report = some (record report { errors = report.errors ++ (entry.id, message) ∷ [] });
          }
          | threw message ↦ record {
            queue = q;
            target = t';
            report = some (record report { errors = report.errors ++ (entry.id, message) ∷ [] });
          }
        ]

    unfoldable pub run : OfflineQueue → Target → Outcome Target
    unfolding drain pending
    run q t = drain (pending q) q t no_report
