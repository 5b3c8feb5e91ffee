-- ===== src/Offline/Replayer/Drain.antt =====
-- What a run of plugin/src/offline/QueueReplayer.ts leaves, and in which order it sends the writes.
use obsidian_remote_ssh.Prelude.{
  ℕ, ◌+◌, List, [], ◌∷◌, ◌++◌, true, Str, some, ◌≡◌, ◌≢◌, refl, sym, ap, ◌∙◌, arith, ◌⊎◌, inl, inr,
}
use mathlib.Core.List.{append-nil}
use obsidian_remote_ssh.Json.{Json, JsonText}
use obsidian_remote_ssh.Offline.Queue.{
  QueueEntry, OfflineQueue, failed, Result, pending, mark_completed,
}
use obsidian_remote_ssh.Offline.Queue.Sync.{IsValid}
use obsidian_remote_ssh.Offline.Queue.Steps.{mark_completed-IsValid}
use obsidian_remote_ssh.Offline.Queue.Pending.{
  first_pending, mark_completed-pending, mark_completed-ok,
}
use obsidian_remote_ssh.Offline.Replayer.{
  ReplayOutcome, ok, conflict, error, threw, ReplayReport, Io, Outcome, drain, no_report, run,
}

module _ {Target : Type 0} (json : JsonText) (io : Io)
    (replay : Target → Json → Target × ReplayOutcome) where
  -- The target after these writes, in this order.
  abbrev pub send_all : List QueueEntry → Target → Target
  send_all [] t = t
  send_all (e ∷ es) t = send_all es (replay t e.op).0

  -- Every write of these was answered by `ok` or `conflict`, so many by each.
  abbrev pub Settled : List QueueEntry → Target → ℕ → ℕ → Type 0
  Settled [] t oks conflicts = (oks ≡ 0) × (conflicts ≡ 0)
  Settled (e ∷ es) t oks conflicts =
      ((replay t e.op).1 ≡ ok)
        × ((n : ℕ) × (oks ≡ n + 1) × Settled es (replay t e.op).0 n conflicts)
      ⊎ ((replay t e.op).1 ≡ conflict)
        × ((n : ℕ) × (conflicts ≡ n + 1) × Settled es (replay t e.op).0 oks n)

  -- How the loop ends behind the settled writes: with nothing left, or at a write that fails with
  -- this message.
  abbrev pub Stops : List QueueEntry → Target → Target → List (ℕ × Str) → Type 0
  Stops [] t t' errors = (t' ≡ t) × (errors ≡ [])
  Stops (e ∷ es) t t' errors =
      (t' ≡ (replay t e.op).0)
      × ((message : Str) × (errors ≡ (e.id, message) ∷ [])
          × (((replay t e.op).1 ≡ error message) ⊎ ((replay t e.op).1 ≡ threw message)))

  -- A run splits what was pending into the writes that are done and the rest, which stay pending
  -- in order.
  pub record Drained (before : List QueueEntry) (t : Target) (out : Outcome Target)
      (report : ReplayReport) : Type 0 where
    pub done : List QueueEntry
    pub left : List QueueEntry
    pub split : before ≡ done ++ left
    pub stays : pending out.queue ≡ left
    pub settled : Settled done t report.drained report.conflicts
    pub stops : Stops left (send_all done t) out.target report.errors
    pub valid : IsValid json out.queue

  -- The calls of the file system succeed.
  pub record Works : Type 0 where
    pub appends : (id : ℕ) → io.appended id ≡ true
    pub replaces : (id : ℕ) → io.replaced id ≢ failed

  abbrev completed : QueueEntry → OfflineQueue → OfflineQueue × Result (Unit {0})
  completed e q = mark_completed json e.id (io.now e.id) (io.appended e.id) (io.replaced e.id) q

  completed_lem :
      Works
      → (e : QueueEntry) (rest : List QueueEntry) (q : OfflineQueue) → IsValid json q
      → pending q ≡ e ∷ rest
      → ((completed e q).1 ≡ Result.ok tt)
        × IsValid json (completed e q).0
        × (pending (completed e q).0 ≡ rest)
  completed_lem w e rest q h p =
      let (found, others) = first_pending json q e rest h p in
      let valid =
        mark_completed-IsValid json e.id (io.now e.id) (io.appended e.id) (io.replaced e.id) q h in
      (
        rw (w.appends e.id)
            (mark_completed-ok json e.id (io.now e.id) (io.replaced e.id) q (w.replaces e.id)),
        valid,
        rw (w.appends e.id)
            (mark_completed-pending json e.id (io.now e.id) true (io.replaced e.id) q h ∙ others),
      )

  drain-ok :
      (e : QueueEntry) (rest : List QueueEntry) (q : OfflineQueue) (t : Target) (r : ReplayReport)
      → (replay t e.op).1 ≡ ok
      → (completed e q).1 ≡ Result.ok tt
      → drain json io replay (e ∷ rest) q t r
        ≡ drain json io replay rest
            (completed e q).0
            (replay t e.op).0
            (record r { drained = r.drained + 1 })
  unfolding drain
  drain-ok e rest q t r h k = rw (h, k, drain) refl

  drain-conflict :
      (e : QueueEntry) (rest : List QueueEntry) (q : OfflineQueue) (t : Target) (r : ReplayReport)
      → (replay t e.op).1 ≡ conflict
      → (completed e q).1 ≡ Result.ok tt
      → drain json io replay (e ∷ rest) q t r
        ≡ drain json io replay rest
            (completed e q).0
            (replay t e.op).0
            (record r { conflicts = r.conflicts + 1 })
  unfolding drain
  drain-conflict e rest q t r h k = rw (h, k, drain) refl

  drain-error :
      (e : QueueEntry) (rest : List QueueEntry) (q : OfflineQueue) (t : Target) (r : ReplayReport)
      (m : Str)
      → ((replay t e.op).1 ≡ error m) ⊎ ((replay t e.op).1 ≡ threw m)
      → drain json io replay (e ∷ rest) q t r ≡ record {
        queue = q;
        target = (replay t e.op).0;
        report = some (record r { errors = r.errors ++ (e.id, m) ∷ [] });
      }
  unfolding drain
  drain-error e rest q t r m (inl h) = rw (h, drain) refl
  drain-error e rest q t r m (inr h) = rw (h, drain) refl

  -- The loop from a report on.
  record Ends (es : List QueueEntry) (t : Target) (r : ReplayReport) (out : Outcome Target)
      : Type 0 where
    report : ReplayReport
    returns : out.report ≡ some report
    done : List QueueEntry
    left : List QueueEntry
    oks : ℕ
    conflicts : ℕ
    errs : List (ℕ × Str)
    drained_is : report.drained ≡ r.drained + oks
    conflicts_is : report.conflicts ≡ r.conflicts + conflicts
    errors_is : report.errors ≡ r.errors ++ errs
    split : es ≡ done ++ left
    stays : pending out.queue ≡ left
    settled : Settled done t oks conflicts
    stops : Stops left (send_all done t) out.target errs
    valid : IsValid json out.queue

  Outcome-cases :
      (o : ReplayOutcome)
      → (o ≡ ok) ⊎ ((o ≡ conflict) ⊎ ((m : Str) × ((o ≡ error m) ⊎ (o ≡ threw m))))
  Outcome-cases ok = inl refl
  Outcome-cases conflict = inr (inl refl)
  Outcome-cases (error m) = inr (inr (m, inl refl))
  Outcome-cases (threw m) = inr (inr (m, inr refl))

  drain-Ends :
      Works
      → (es : List QueueEntry) (q : OfflineQueue) (t : Target) (r : ReplayReport) → IsValid json q
      → pending q ≡ es
      → Ends es t r (drain json io replay es q t r)
  drain-Ends w [] q t r h p =
      unfold drain in
      record {
        report = r;
        returns = refl;
        done = [];
        left = [];
        oks = 0;
        conflicts = 0;
        errs = [];
        drained_is = omega arith;
        conflicts_is = omega arith;
        errors_is = sym (append-nil r.errors);
        split = refl;
        stays = p;
        settled = (refl, refl);
        stops = (refl, refl);
        valid = h;
      }
  drain-Ends w (e ∷ rest) q t r h p =
      let (returned, valid, next) = completed_lem w e rest q h p in
      elim (Outcome-cases (replay t e.op).1) [
        | inl good ↦
            let tail =
              drain-Ends w rest (completed e q).0 (replay t e.op).0
                (record r { drained = r.drained + 1 }) valid next in
            rw (drain-ok e rest q t r good returned) (record {
              report = tail.report;
              returns = tail.returns;
              done = e ∷ tail.done;
              left = tail.left;
              oks = tail.oks + 1;
              conflicts = tail.conflicts;
              errs = tail.errs;
              drained_is = omega (arith, tail.drained_is);
              conflicts_is = tail.conflicts_is;
              errors_is = tail.errors_is;
              split = ap (◌∷◌ e) tail.split;
              stays = tail.stays;
              settled = inl (good, (tail.oks, refl, tail.settled));
              stops = tail.stops;
              valid = tail.valid;
            })
        | inr (inl decided) ↦
            let tail =
              drain-Ends w rest (completed e q).0 (replay t e.op).0
                (record r { conflicts = r.conflicts + 1 }) valid next in
            rw (drain-conflict e rest q t r decided returned) (record {
              report = tail.report;
              returns = tail.returns;
              done = e ∷ tail.done;
              left = tail.left;
              oks = tail.oks;
              conflicts = tail.conflicts + 1;
              errs = tail.errs;
              drained_is = tail.drained_is;
              conflicts_is = omega (arith, tail.conflicts_is);
              errors_is = tail.errors_is;
              split = ap (◌∷◌ e) tail.split;
              stays = tail.stays;
              settled = inr (decided, (tail.conflicts, refl, tail.settled));
              stops = tail.stops;
              valid = tail.valid;
            })
        | inr (inr (m, bad)) ↦ rw (drain-error e rest q t r m bad) (record {
          report = record r { errors = r.errors ++ (e.id, m) ∷ [] };
          returns = refl;
          done = [];
          left = e ∷ rest;
          oks = 0;
          conflicts = 0;
          errs = (e.id, m) ∷ [];
          drained_is = omega arith;
          conflicts_is = omega arith;
          errors_is = refl;
          split = refl;
          stays = p;
          settled = (refl, refl);
          stops = (refl, (m, refl, bad));
          valid = h;
        })
      ]

  -- With a file system that works, a run returns a report. The pending writes are sent oldest
  -- first; those that the target answers by `ok` or `conflict` are completed and counted, up to the
  -- first that fails; that one is the only error reported, and it and all behind it stay pending.
  pub run-Drained :
      Works
      → (q : OfflineQueue) (t : Target) → IsValid json q
      → (report : ReplayReport) × ((run json io replay q t).report ≡ some report)
        × Drained (pending q) t (run json io replay q t) report
  unfolding run
  run-Drained w q t h =
      let end = drain-Ends w (pending q) q t no_report h refl in
      (
        end.report,
        end.returns,
        record {
          done = end.done;
          left = end.left;
          split = end.split;
          stays = end.stays;
          settled =
              let oks : end.report.drained ≡ end.oks = omega (arith, end.drained_is) in
              let decided : end.report.conflicts ≡ end.conflicts =
                omega (arith, end.conflicts_is) in
              rw (oks, decided) end.settled;
          stops = rw end.errors_is end.stops;
          valid = end.valid;
        },
      )
