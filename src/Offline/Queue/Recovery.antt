-- ===== src/Offline/Queue/Recovery.antt =====
-- A restart of the plugin finds the queue of plugin/src/offline/OfflineQueue.ts again.
use obsidian_remote_ssh.Prelude.{
  ℕ, ◌≤◌, List, [], ◌∷◌, Bool, Str, str_eq, Option, none, some, nat_eq, ◌≡◌, ◌≢◌, refl, ap, ◌∙◌,
  sym, arith, All, utf8_length,
}
use obsidian_remote_ssh.JsMap.{values}
use obsidian_remote_ssh.Json.{JsonText}
use obsidian_remote_ssh.Offline.Queue.{
  QueuedOp, op_json, QueueEntry, OfflineQueue, LogRecord, op, completed, log_json, pending,
  replay_record, line_bytes, serialise_op, serialise_tombstone, log_body, append_file, drop_entry,
  rewrite_log, should_compact, Replace, renamed, copied, failed, Result, ok,
}
use obsidian_remote_ssh.Offline.Queue.Log.{replay_records}
use obsidian_remote_ssh.Offline.Queue.{add_entry}
use obsidian_remote_ssh.Offline.Queue.Sync.{content, nothing, IsSame, IsValid}
use obsidian_remote_ssh.Offline.Queue
use obsidian_remote_ssh.Offline.Queue.{open_queue, replay_log, replay_text}
use obsidian_remote_ssh.Offline.Queue.Log.{replay_text-log_text, Alike, replay_records-Alike}
use obsidian_remote_ssh.Offline.Queue.Steps.{
  enqueue-IsValid, mark_completed-IsValid, compact-IsValid, clear-IsValid,
}

-- A call of a method that changes the queue, with the time that it reads and the outcomes of its
-- calls of the file system.
pub data Call : Type 0 where
  enqueue : QueuedOp → (now : ℕ) → (appended : Bool) → Call
  mark_completed : (id now : ℕ) → (appended : Bool) → Replace → Call
  compact clear : Replace → Call

-- A `clear` whose log cannot be replaced leaves the old log for the next start.
abbrev pub Succeeds : Call → Type 0
Succeeds (clear replaced) = replaced ≢ failed
Succeeds _ = Unit

abbrev pub initial : ℕ → OfflineQueue
initial cap = record {
  pending_map = [];
  next_id = 1;
  bytes_used = 0;
  log_file_bytes = 0;
  max_bytes = cap;
  log = none;
}

module _ (json : JsonText) where
  unfoldable pub step : Call → OfflineQueue → OfflineQueue
  step (enqueue o now appended) q = (Queue.enqueue json o now appended q).0
  step (mark_completed id now appended replaced) q =
      (Queue.mark_completed json id now appended replaced q).0
  step (compact replaced) q = (Queue.compact json replaced q).0
  step (clear replaced) q = (Queue.clear json replaced q).0

  unfoldable pub run : List Call → OfflineQueue → OfflineQueue
  unfolding step
  run [] q = q
  run (call ∷ calls) q = run calls (step call q)

  -- A new queue is what `open` makes of a directory with no log.
  pub open_queue-initial : (cap : ℕ) → open_queue json none (some cap) ≡ some (initial cap)
  unfolding open_queue
  open_queue-initial cap = refl

  initial-IsValid : (cap : ℕ) → IsValid json (initial cap)
  initial-IsValid cap = record {
    records = [];
    log_is = refl;
    accepted = tt;
    replayed = record { map_is = refl; bytes_is = refl; next_is = omega arith };
    ordered = tt;
    first_id = omega arith;
    recognised = tt;
    counted = refl;
    within = omega arith;
    size_is = unfold utf8_length in refl;
  }

  run-keeps-IsValid :
      (calls : List Call) (q : OfflineQueue)
      → All Succeeds calls
      → IsValid json q
      → IsValid json (run calls q)
  unfolding run
  run-keeps-IsValid [] q s h = h
  run-keeps-IsValid (enqueue o now appended ∷ calls) q s h =
      run-keeps-IsValid calls _ s.1 (enqueue-IsValid json o now appended q h)
  run-keeps-IsValid (mark_completed id now appended replaced ∷ calls) q s h =
      run-keeps-IsValid calls _ s.1 (mark_completed-IsValid json id now appended replaced q h)
  run-keeps-IsValid (compact replaced ∷ calls) q s h =
      run-keeps-IsValid calls _ s.1 (compact-IsValid json replaced q h)
  run-keeps-IsValid (clear replaced ∷ calls) q s h =
      run-keeps-IsValid calls _ s.1 (clear-IsValid json replaced q s.0 h)

  -- After any calls on a new queue, failed appends and rewrites included, the entries stand in the
  -- order of their ids, `bytesUsed` is the sum of their lines and at most the cap, `logFileBytes`
  -- is the size of the log, and the log is a list of records that the replay recognises.
  pub run_in_step :
      (cap : ℕ) (calls : List Call) → All Succeeds calls → IsValid json (run calls (initial cap))
  run_in_step cap calls s = run-keeps-IsValid calls (initial cap) s (initial-IsValid cap)

  -- What `open` starts from, on a log of this content.
  abbrev pub blank : Option Str → ℕ → OfflineQueue
  blank log cap = record {
    pending_map = [];
    next_id = 1;
    bytes_used = 0;
    log_file_bytes = utf8_length (content log);
    max_bytes = cap;
    log = log;
  }

  pub open_queue-content :
      (log : Option Str) (cap : ℕ)
      → open_queue json log (some cap) ≡ replay_text json (content log) (blank log cap)
  unfolding open_queue utf8_length
  open_queue-content none cap = refl
  open_queue-content (some t) cap = refl

  record IsBeside (q r : OfflineQueue) : Type 0 where
    size_is : r.log_file_bytes ≡ q.log_file_bytes
    max_is : r.max_bytes ≡ q.max_bytes
    log_is : r.log ≡ q.log

  replay_record-IsBeside : (r : LogRecord) (q : OfflineQueue) → IsBeside q (replay_record json r q)
  unfolding replay_record
  replay_record-IsBeside (op e) q = ground arith
  replay_record-IsBeside (completed id ts) q = ground arith

  replay_records-IsBeside :
      (rs : List LogRecord) (q : OfflineQueue) → IsBeside q (replay_records json rs q)
  replay_records-IsBeside [] q = ground arith
  replay_records-IsBeside (r ∷ rs) q =
      let first = replay_record-IsBeside r q in
      let rest = replay_records-IsBeside rs (replay_record json r q) in
      record {
        size_is = rest.size_is ∙ first.size_is;
        max_is = rest.max_is ∙ first.max_is;
        log_is = rest.log_is ∙ first.log_is;
      }

  -- What a restart keeps: all but the next id, which may fall back.
  pub record Recovered (q r : OfflineQueue) : Type 0 where
    pub pending_is : pending r ≡ pending q
    pub same : record r { next_id = q.next_id } ≡ q
    pub next_is : r.next_id ≤ q.next_id

  open_queue-Recovered :
      (q : OfflineQueue)
      → IsValid json q
      → (r : OfflineQueue) × (open_queue json q.log (some q.max_bytes) ≡ some r) × Recovered q r
  open_queue-Recovered q h =
      let b = blank q.log q.max_bytes in
      let r = replay_records json h.records b in
      let alike : Alike json r (replay_records json h.records nothing) =
        replay_records-Alike json h.records b nothing
          (record { map_is = refl; bytes_is = refl; next_is = refl }) in
      let again : IsSame q r = record {
        map_is = alike.map_is ∙ h.replayed.map_is;
        bytes_is = alike.bytes_is ∙ h.replayed.bytes_is;
        next_is = omega (arith, alike.next_is, h.replayed.next_is);
      } in
      let beside : IsBeside b r = replay_records-IsBeside h.records b in
      (
        r,
        open_queue-content q.log q.max_bytes
            ∙ ap (λ t. replay_text json t b) h.log_is
            ∙ replay_text-log_text json h.records b h.accepted,
        record {
          pending_is = unfold pending in ap (λ m. Queue.sort_by_id (values m)) again.map_is;
          same = λ i. record {
            pending_map = again.map_is i;
            next_id = q.next_id;
            bytes_used = again.bytes_is i;
            log_file_bytes = (beside.size_is ∙ sym h.size_is) i;
            max_bytes = beside.max_is i;
            log = beside.log_is i;
          };
          next_is = again.next_is;
        },
      )

  -- After any calls on a new queue, failed appends and rewrites included, a restart that opens the
  -- log finds the same pending writes in the same order, with the same counts of bytes.
  pub open_queue-run :
      (cap : ℕ) (calls : List Call)
      → All Succeeds calls
      → (r : OfflineQueue) × (open_queue json
            (run calls (initial cap)).log
            (some (run calls (initial cap)).max_bytes)
          ≡ some r)
        × Recovered (run calls (initial cap)) r
  open_queue-run cap calls s =
      open_queue-Recovered (run calls (initial cap)) (run_in_step cap calls s)

  -- After a `clear` that succeeds, a restart numbers the writes from 1 again, whatever the ids
  -- were.
  pub open_queue-clear :
      (q : OfflineQueue) (replaced : Replace)
      → replaced ≢ failed
      → (r : OfflineQueue) × (open_queue json (Queue.clear json replaced q).0.log (some q.max_bytes)
          ≡ some r)
        × (r.next_id ≡ 1)
        × (r.pending_map ≡ [])
  unfolding Queue.clear Queue.rewrite_log Queue.log_body open_queue
  open_queue-clear q failed h = absurd (h refl)
  open_queue-clear q renamed h = (_, refl, refl, refl)
  open_queue-clear q copied h = (_, refl, refl, refl)
