-- ===== src/Offline/Queue/Steps.antt =====
-- Every method of plugin/src/offline/OfflineQueue.ts keeps the queue and its log in step.
use obsidian_remote_ssh.Prelude.{
  ℕ, ◌+◌, ◌-◌, ◌≤◌, [], ◌∷◌, ◌++◌, Bool, ltb, str_eq, some, nat_eq, ◌≡◌, ◌≢◌, refl, ap, ◌∙◌, sym,
  arith, All-append, utf8_length, Option-cases, Bool-cases, inl, inr, join,
}
use mathlib.Core.List.{append_assoc}
use obsidian_remote_ssh.JsMap
use obsidian_remote_ssh.JsMap.{values, weight}
use obsidian_remote_ssh.JsMap.Laws.{weight-delete, weight-set_absent, set_absent}
use obsidian_remote_ssh.Json.{JsonText}
use obsidian_remote_ssh.Offline.Queue.{
  QueuedOp, op_json, QueueEntry, OfflineQueue, op, completed, log_json, pending, replay_record,
  line_bytes, serialise_op, serialise_tombstone, log_body, enqueue, drop_entry, mark_completed,
  compact, rewrite_log, clear, should_compact, Replace, renamed, copied, failed,
}
use obsidian_remote_ssh.Offline.Queue.Log.{
  replay_records, IsAccepted, op_json-IsAccepted, completed-IsAccepted, log_text,
  replay_records-append,
}
use obsidian_remote_ssh.Offline.Queue.Order.{
  Entries, IsOrdered-mono, get-eq-none_above, delete-IsOrdered, append-IsOrdered, sort_by_id-values,
  ops, ops-IsReplayed,
}
use obsidian_remote_ssh.Offline.Queue.{add_entry}
use obsidian_remote_ssh.Offline.Queue.Sync.{
  nothing, IsSame, IsValid, appended-log_text, utf8_length-appended, ops-append-IsAccepted,
  ops-delete-IsAccepted,
}

module _ (json : JsonText) where
  open json use {stringify}

  pub add_entry-IsValid :
      (e : QueueEntry) (q : OfflineQueue)
      → e.id ≡ q.next_id
      → q.bytes_used + line_bytes json e ≤ q.max_bytes
      → IsAccepted (op e)
      → IsValid json q
      → IsValid json (add_entry json e q)
  unfolding add_entry
  add_entry-IsValid e q i b a h =
      let absent = get-eq-none_above 1 q.next_id e.id q.pending_map (omega arith) h.ordered in
      let added = set_absent e.id e q.pending_map absent in
      record {
        records = h.records ++ op e ∷ [];
        log_is = unfold serialise_op in appended-log_text json (op e) q h;
        accepted = All-append IsAccepted h.records (op e ∷ []) h.accepted (a, tt);
        replayed =
            let before = h.replayed in
            rw (replay_records-append json h.records (op e ∷ []) nothing) (
              unfold replay_record in
              record {
                map_is = ap (JsMap.set e.id e) before.map_is;
                bytes_is = ap (λ n. n + line_bytes json e) before.bytes_is;
                next_is = ground (arith, before.next_is);
              });
        ordered = rw added (
            IsOrdered-mono 1 1 (e.id + 1) (q.next_id + 1) _ (omega arith) (omega arith) (
              append-IsOrdered 1 q.next_id q.pending_map e (omega (arith, h.first_id)) (omega arith)
                h.ordered));
        first_id = omega arith;
        recognised = rw added (ops-append-IsAccepted json q.pending_map e.id e h.recognised a);
        counted =
            omega
              (arith, h.counted, weight-set_absent (line_bytes json) e.id e q.pending_map absent);
        within = b;
        size_is = unfold serialise_op in sym (utf8_length-appended json (op e) q h);
      }

  -- An id that no entry gets.
  skip_id-IsValid :
      (q : OfflineQueue) → IsValid json q → IsValid json (record q { next_id = q.next_id + 1 })
  skip_id-IsValid q h = record {
    records = h.records;
    log_is = h.log_is;
    accepted = h.accepted;
    replayed =
        let before = h.replayed in
        record {
          map_is = before.map_is;
          bytes_is = before.bytes_is;
          next_is = omega (arith, before.next_is);
        };
    ordered =
        IsOrdered-mono 1 1 q.next_id (q.next_id + 1) q.pending_map (omega arith) (omega arith)
          h.ordered;
    first_id = omega arith;
    recognised = h.recognised;
    counted = h.counted;
    within = h.within;
    size_is = h.size_is;
  }

  -- One of `enqueue`'s calls of the file system may fail: the queue stays in step with its log.
  pub enqueue-IsValid :
      (o : QueuedOp) (now : ℕ) (appended : Bool) (q : OfflineQueue)
      → IsValid json q
      → IsValid json (enqueue json o now appended q).0
  unfolding enqueue
  enqueue-IsValid o now appended q h =
      let entry : QueueEntry = record { id = q.next_id; ts = now; op = op_json o } in
      let a = op_json-IsAccepted o q.next_id now in
      elim (Bool-cases (ltb q.max_bytes (q.bytes_used + line_bytes json entry))) [
        | inl over ↦ rw (over, enqueue) h
        | inr fits ↦ elim (Bool-cases appended) [
          | inl done ↦ rw (fits, done, enqueue) (add_entry-IsValid entry q refl (ground arith) a h)
          | inr not_done ↦ rw (fits, not_done, enqueue) (skip_id-IsValid q h)
        ]
      ]

  replay_completed :
      (id now : ℕ) (e : QueueEntry) (q r : OfflineQueue)
      → JsMap.get id q.pending_map ≡ some e
      → IsSame q r
      → IsSame (drop_entry json id now e q) (replay_record json (completed id now) r)
  unfolding drop_entry replay_record
  replay_completed id now e q r found same =
      rw (ap (JsMap.get id) same.map_is ∙ found, replay_record)
        (record {
          map_is = ap (JsMap.delete id) same.map_is;
          bytes_is = ap (λ n. n - line_bytes json e) same.bytes_is;
          next_is = same.next_is;
        })

  pub drop_entry-IsValid :
      (id now : ℕ) (e : QueueEntry) (q : OfflineQueue)
      → JsMap.get id q.pending_map ≡ some e
      → IsValid json q
      → IsValid json (drop_entry json id now e q)
  unfolding drop_entry
  drop_entry-IsValid id now e q found h =
      let dropped = weight-delete (line_bytes json) id e q.pending_map found in
      record {
        records = h.records ++ completed id now ∷ [];
        log_is = unfold serialise_tombstone in appended-log_text json (completed id now) q h;
        accepted =
            All-append IsAccepted h.records (completed id now ∷ []) h.accepted
              (completed-IsAccepted id now, tt);
        replayed =
            rw (replay_records-append json h.records (completed id now ∷ []) nothing) (
              replay_completed id now e q (replay_records json h.records nothing) found h.replayed);
        ordered = delete-IsOrdered 1 q.next_id id q.pending_map h.ordered;
        first_id = h.first_id;
        recognised = ops-delete-IsAccepted json q.pending_map id h.recognised;
        counted = omega (arith, h.counted, dropped);
        within = omega (arith, h.within);
        size_is =
            unfold serialise_tombstone in sym (utf8_length-appended json (completed id now) q h);
      }

  log_body-values : (m : Entries) → log_body json (values m) ≡ log_text json (ops m)
  unfolding log_body serialise_op join
  log_body-values [] = refl
  log_body-values ((k, e) ∷ []) = refl
  log_body-values ((k, e) ∷ (j, f) ∷ m) =
      append_assoc (stringify (log_json (op e))) _ _
      ∙ ap (λ t. stringify (log_json (op e)) ++ (10 ∷ t)) (log_body-values ((j, f) ∷ m))

  -- A log that is rewritten with the pending entries.
  rewrite_log-IsValid :
      (q : OfflineQueue)
      → IsValid json q
      → IsValid json (record q {
        log = some (log_body json (values q.pending_map));
        log_file_bytes = utf8_length (log_body json (values q.pending_map));
      })
  rewrite_log-IsValid q h = record {
    records = ops q.pending_map;
    log_is = log_body-values q.pending_map;
    accepted = h.recognised;
    replayed =
        let again =
          ops-IsReplayed json 1 1 q.next_id q.pending_map nothing tt (omega arith)
            (omega (arith, h.first_id)) h.ordered in
        record {
          map_is = again.map_is;
          bytes_is = omega (arith, again.bytes_is, h.counted);
          next_is = again.next_is;
        };
    ordered = h.ordered;
    first_id = h.first_id;
    recognised = h.recognised;
    counted = h.counted;
    within = h.within;
    size_is = refl;
  }

  pub compact-IsValid :
      (replaced : Replace) (q : OfflineQueue)
      → IsValid json q
      → IsValid json (compact json replaced q).0
  unfolding compact rewrite_log pending
  compact-IsValid failed q h = h
  compact-IsValid renamed q h =
      rw (sort_by_id-values 1 q.next_id q.pending_map h.ordered) (rewrite_log-IsValid q h)
  compact-IsValid copied q h =
      rw (sort_by_id-values 1 q.next_id q.pending_map h.ordered) (rewrite_log-IsValid q h)

  pub mark_completed-IsValid :
      (id now : ℕ) (appended : Bool) (replaced : Replace) (q : OfflineQueue)
      → IsValid json q
      → IsValid json (mark_completed json id now appended replaced q).0
  unfolding mark_completed
  mark_completed-IsValid id now appended replaced q h =
      elim (Option-cases (JsMap.get id q.pending_map)) [
        | inl miss ↦ rw (miss, mark_completed) h
        | inr (e, found) ↦
            let dropped = drop_entry-IsValid id now e q found h in
            elim (Bool-cases appended) [
              | inr not_done ↦ rw (found, not_done, mark_completed) h
              | inl done ↦ elim (Bool-cases (should_compact (drop_entry json id now e q))) [
                | inl large ↦
                    rw (found, done, mark_completed)
                      (rw large (compact-IsValid replaced (drop_entry json id now e q) dropped))
                | inr small ↦ rw (found, done, mark_completed) (rw small dropped)
              ]
            ]
      ]

  -- `clear` with a log that is replaced.
  cleared-IsValid :
      (q : OfflineQueue)
      → IsValid json q
      → IsValid json (record q {
        pending_map = [];
        bytes_used = 0;
        log = some [];
        log_file_bytes = utf8_length [];
      })
  cleared-IsValid q h = record {
    records = [];
    log_is = refl;
    accepted = tt;
    replayed = record { map_is = refl; bytes_is = refl; next_is = omega (arith, h.first_id) };
    ordered = tt;
    first_id = h.first_id;
    recognised = tt;
    counted = refl;
    within = omega arith;
    size_is = refl;
  }

  pub clear-IsValid :
      (replaced : Replace) (q : OfflineQueue)
      → replaced ≢ failed
      → IsValid json q
      → IsValid json (clear json replaced q).0
  unfolding clear rewrite_log log_body
  clear-IsValid failed q done h = absurd (done refl)
  clear-IsValid renamed q done h = cleared-IsValid q h
  clear-IsValid copied q done h = cleared-IsValid q h
