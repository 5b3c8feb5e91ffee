-- ===== src/Offline/Queue/Pending.antt =====
-- What the methods of plugin/src/offline/OfflineQueue.ts do to the list of pending writes.
use obsidian_remote_ssh.Prelude.{
  ℕ, suc, ◌+◌, ◌≤◌, ◌<◌, List, [], ◌∷◌, ◌++◌, Bool, true, false, if◌then◌else◌, ltb, str_eq, none,
  some, nat_eq, ◌≡◌, ◌≢◌, refl, ap, ◌∙◌, sym, arith, Option-cases, Bool-cases, inl, inr,
}
use obsidian_remote_ssh.JsMap
use obsidian_remote_ssh.JsMap.{values, weight}
use obsidian_remote_ssh.JsMap.Laws.{set_absent}
use obsidian_remote_ssh.Json.{JsonText}
use obsidian_remote_ssh.Offline.Queue.{
  QueuedOp, op_json, QueueEntry, OfflineQueue, LogRecord, op, completed, log_json, pending,
  replay_record, line_bytes, serialise_op, serialise_tombstone, log_body, append_file, drop_entry,
  rewrite_log, should_compact, Replace, renamed, copied, failed, Result, ok,
}
use obsidian_remote_ssh.Offline.Queue.Log.{IsAccepted, op_json-IsAccepted}
use obsidian_remote_ssh.Offline.Queue.Order.{
  Entries, IsOrdered, get-eq-none_above, sort_by_id-values,
}
use obsidian_remote_ssh.Offline.Queue.{add_entry}
use obsidian_remote_ssh.Offline.Queue.Sync.{IsValid}
use obsidian_remote_ssh.Offline.Queue
use obsidian_remote_ssh.Offline.Queue.{open_queue, replay_log, replay_text}
use obsidian_remote_ssh.Offline.Queue.{add_entry, over_cap, io_error}
use obsidian_remote_ssh.Prelude.{◌=ℕ◌}
use obsidian_remote_ssh.Offline.Queue.Steps.{add_entry-IsValid, drop_entry-IsValid}

values-append :
    (m : Entries) (k : ℕ) (e : QueueEntry) → values (m ++ (k, e) ∷ []) ≡ values m ++ e ∷ []
values-append [] k e = refl
values-append ((j, f) ∷ m) k e = ap (◌∷◌ f) (values-append m k e)

-- The entries but those with this id.
abbrev pub without : ℕ → List QueueEntry → List QueueEntry
without id [] = []
without id (e ∷ es) = if e.id =ℕ id then without id es else e ∷ without id es

without_above :
    (lo hi id : ℕ) (m : Entries) → id < lo → IsOrdered lo hi m → without id (values m) ≡ values m
without_above lo hi id [] l h = refl
without_above lo hi id ((k, e) ∷ m) l (a, b, c, h) =
    ground (arith, without_above (suc k) hi id m (omega arith) h)

values-delete :
    (lo hi id : ℕ) (m : Entries)
    → IsOrdered lo hi m
    → values (JsMap.delete id m) ≡ without id (values m)
unfolding JsMap.delete
values-delete lo hi id [] h = refl
values-delete lo hi id ((k, e) ∷ m) (a, b, c, h) =
    ground (arith, without_above (suc k) hi k m (omega arith) h, values-delete (suc k) hi id m h)

without_absent :
    (lo hi id : ℕ) (m : Entries)
    → IsOrdered lo hi m
    → JsMap.get id m ≡ none
    → without id (values m) ≡ values m
unfolding JsMap.get
without_absent lo hi id [] h g = refl
without_absent lo hi id ((k, e) ∷ m) (a, b, c, h) g =
    ground (arith, without_absent (suc k) hi id m h)

abbrev made : QueuedOp → ℕ → OfflineQueue → QueueEntry
made o now q = record { id = q.next_id; ts = now; op = op_json o }

-- The first entry in order is found under its id, and stands once.
first_entry :
    (lo hi : ℕ) (m : Entries) (e : QueueEntry) (rest : List QueueEntry)
    → IsOrdered lo hi m
    → values m ≡ e ∷ rest
    → (JsMap.get e.id m ≡ some e) × (without e.id (e ∷ rest) ≡ rest)
unfolding JsMap.get
first_entry lo hi [] e rest h v = ground arith
first_entry lo hi ((k, f) ∷ m) e rest (a, b, c, h) v =
    ground (arith, without_above (suc k) hi k m (omega arith) h)

module _ (json : JsonText) where
  pending-values : (q : OfflineQueue) → IsValid json q → pending q ≡ values q.pending_map
  unfolding pending
  pending-values q h = sort_by_id-values 1 q.next_id q.pending_map h.ordered

  pub first_pending :
      (q : OfflineQueue) (e : QueueEntry) (rest : List QueueEntry)
      → IsValid json q
      → pending q ≡ e ∷ rest
      → (JsMap.get e.id q.pending_map ≡ some e) × (without e.id (pending q) ≡ rest)
  first_pending q e rest h p =
      let found =
        first_entry 1 q.next_id q.pending_map e rest h.ordered (sym (pending-values q h) ∙ p) in
      (found.0, ap (without e.id) p ∙ found.1)

  pending-add_entry :
      (e : QueueEntry) (q : OfflineQueue)
      → e.id ≡ q.next_id
      → q.bytes_used + line_bytes json e ≤ q.max_bytes
      → IsAccepted (op e)
      → IsValid json q
      → pending (add_entry json e q) ≡ pending q ++ e ∷ []
  pending-add_entry e q i b a h =
      let added : (add_entry json e q).pending_map ≡ q.pending_map ++ (e.id, e) ∷ [] =
        unfold add_entry in
        set_absent e.id e q.pending_map
          (get-eq-none_above 1 q.next_id e.id q.pending_map (omega arith) h.ordered) in
      pending-values (add_entry json e q) (add_entry-IsValid json e q i b a h)
      ∙ ap values added
      ∙ values-append q.pending_map e.id e
      ∙ ap (λ es. es ++ e ∷ []) (sym (pending-values q h))

  pending-drop_entry :
      (id now : ℕ) (e : QueueEntry) (q : OfflineQueue)
      → JsMap.get id q.pending_map ≡ some e
      → IsValid json q
      → pending (drop_entry json id now e q) ≡ without id (pending q)
  pending-drop_entry id now e q found h =
      let dropped : values (drop_entry json id now e q).pending_map
          ≡ without id (values q.pending_map) =
        unfold drop_entry in values-delete 1 q.next_id id q.pending_map h.ordered in
      pending-values (drop_entry json id now e q) (drop_entry-IsValid json id now e q found h)
      ∙ dropped
      ∙ ap (without id) (sym (pending-values q h))

  -- `enqueue` on each branch: over the cap it fails and nothing changes; with a failed append the
  -- pending list stays; otherwise the write comes last in the list, under the id returned.
  pub enqueue-pending :
      (o : QueuedOp) (now : ℕ) (appended : Bool) (q : OfflineQueue) (entry : QueueEntry)
      → entry ≡ record { id = q.next_id; ts = now; op = op_json o }
      → IsValid json q
      → ((Queue.enqueue json o now appended q).1 ≡ (
          if ltb q.max_bytes (q.bytes_used + line_bytes json entry)
          then over_cap
          else if appended
          then ok entry.id
          else io_error))
        × (pending (Queue.enqueue json o now appended q).0 ≡ (
            if ltb q.max_bytes (q.bytes_used + line_bytes json entry)
            then pending q
            else if appended
            then pending q ++ entry ∷ []
            else pending q))
  unfolding Queue.enqueue
  enqueue-pending o now appended q entry is h =
      rw is (elim (Bool-cases (ltb q.max_bytes (q.bytes_used + line_bytes json (made o now q)))) [
        | inl over ↦ (rw (over, Queue.enqueue) refl, rw (over, Queue.enqueue) refl)
        | inr under ↦ elim (Bool-cases appended) [
          | inl done ↦ (
            rw (under, done, Queue.enqueue) refl,
            rw (under, done, Queue.enqueue)
                (pending-add_entry (made o now q) q refl (ground arith)
                  (op_json-IsAccepted o q.next_id now) h),
          )
          | inr not_done ↦ (
            rw (under, not_done, Queue.enqueue) refl,
            rw (under, not_done, Queue.enqueue) (unfold pending in refl),
          )
        ]
      ])

  pending-compact :
      (replaced : Replace) (q : OfflineQueue)
      → pending (Queue.compact json replaced q).0 ≡ pending q
  unfolding Queue.compact Queue.rewrite_log pending
  pending-compact failed q = refl
  pending-compact renamed q = refl
  pending-compact copied q = refl

  -- `markCompleted` removes exactly the entry with the id, whether or not the log is compacted and
  -- however that ends; with a failed append, or where no entry has the id, the list stays.
  pub mark_completed-pending :
      (id now : ℕ) (appended : Bool) (replaced : Replace) (q : OfflineQueue)
      → IsValid json q
      → pending (Queue.mark_completed json id now appended replaced q).0
        ≡ (if appended then without id (pending q) else pending q)
  unfolding Queue.mark_completed
  mark_completed-pending id now false replaced q h = ground arith
  mark_completed-pending id now true replaced q h =
      elim (Option-cases (JsMap.get id q.pending_map)) [
        | inl miss ↦
            rw (miss, Queue.mark_completed)
              (let v = pending-values q h in
                v
                ∙ sym (without_absent 1 q.next_id id q.pending_map h.ordered miss)
                ∙ ap (without id) (sym v))
        | inr (e, found) ↦ elim (Bool-cases (should_compact (drop_entry json id now e q))) [
          | inl large ↦
              rw (found, Queue.mark_completed)
                (rw large (
                  pending-compact replaced (drop_entry json id now e q)
                  ∙ pending-drop_entry id now e q found h))
          | inr small ↦
              rw (found, Queue.mark_completed) (rw small (pending-drop_entry id now e q found h))
        ]
      ]

  -- With a file system that does not fail, `markCompleted` returns.
  pub mark_completed-ok :
      (id now : ℕ) (replaced : Replace) (q : OfflineQueue)
      → replaced ≢ failed
      → (Queue.mark_completed json id now true replaced q).1 ≡ ok tt
  unfolding Queue.mark_completed Queue.compact Queue.rewrite_log
  mark_completed-ok id now failed q h = absurd (h refl)
  mark_completed-ok id now renamed q h = ground arith
  mark_completed-ok id now copied q h = ground arith
