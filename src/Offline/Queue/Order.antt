-- ===== src/Offline/Queue/Order.antt =====
-- The pending entries of plugin/src/offline/OfflineQueue.ts in the order of their ids.
use obsidian_remote_ssh.Prelude.{
  ℕ, suc, ◌+◌, ◌≤◌, ◌<◌, List, [], ◌∷◌, ◌++◌, str_eq, none, nat_eq, ◌≡◌, refl, ap, ◌∙◌, sym, arith,
}
use mathlib.Core.List.{append-nil, append_assoc}
use obsidian_remote_ssh.JsMap
use obsidian_remote_ssh.JsMap.{values, weight, IsDistinct}
use obsidian_remote_ssh.JsMap.Laws.{set_absent}
use obsidian_remote_ssh.Json.{JsonText}
use obsidian_remote_ssh.Offline.Queue.{
  QueueEntry, OfflineQueue, LogRecord, op, insert_by_id, sort_by_id, replay_record, line_bytes,
}
use obsidian_remote_ssh.Offline.Queue.Log.{replay_records}

abbrev pub Entries : Type 0
Entries = List (ℕ × QueueEntry)

-- Each key is its entry's id, and the keys rise from `lo` on and stay below `hi`.
abbrev pub IsOrdered : ℕ → ℕ → Entries → Type 0
IsOrdered lo hi [] = Unit
IsOrdered lo hi ((k, e) ∷ m) = (k ≡ e.id) × (lo ≤ k) × (k < hi) × IsOrdered (suc k) hi m

pub IsOrdered-mono :
    (lo lo' hi hi' : ℕ) (m : Entries)
    → lo' ≤ lo
    → hi ≤ hi'
    → IsOrdered lo hi m
    → IsOrdered lo' hi' m
IsOrdered-mono lo lo' hi hi' [] p q h = tt
IsOrdered-mono lo lo' hi hi' ((k, e) ∷ m) p q (a, b, c, h) =
    (a, omega arith, omega arith, IsOrdered-mono (suc k) (suc k) hi hi' m (omega arith) q h)

pub get-eq-none_above :
    (lo hi k : ℕ) (m : Entries) → hi ≤ k → IsOrdered lo hi m → JsMap.get k m ≡ none
unfolding JsMap.get
get-eq-none_above lo hi k [] p h = refl
get-eq-none_above lo hi k ((j, e) ∷ m) p (a, b, c, h) =
    ground (arith, get-eq-none_above (suc j) hi k m p h)

pub get-eq-none_below :
    (lo hi k : ℕ) (m : Entries) → k < lo → IsOrdered lo hi m → JsMap.get k m ≡ none
unfolding JsMap.get
get-eq-none_below lo hi k [] p h = refl
get-eq-none_below lo hi k ((j, e) ∷ m) p (a, b, c, h) =
    ground (arith, get-eq-none_below (suc j) hi k m (omega arith) h)

pub delete-IsOrdered :
    (lo hi k : ℕ) (m : Entries) → IsOrdered lo hi m → IsOrdered lo hi (JsMap.delete k m)
unfolding JsMap.delete
delete-IsOrdered lo hi k [] h = tt
delete-IsOrdered lo hi k ((j, e) ∷ m) (a, b, c, h) = ground (
  arith,
  IsOrdered-mono (suc j) lo hi hi m (omega arith) (omega arith) h,
  delete-IsOrdered (suc j) hi k m h,
)

pub append-IsOrdered :
    (lo hi : ℕ) (m : Entries) (e : QueueEntry)
    → lo ≤ e.id
    → hi ≤ e.id
    → IsOrdered lo hi m
    → IsOrdered lo (e.id + 1) (m ++ (e.id, e) ∷ [])
append-IsOrdered lo hi [] e p q h = (refl, p, omega arith, tt)
append-IsOrdered lo hi ((j, f) ∷ m) e p q (a, b, c, h) =
    (a, b, omega arith, append-IsOrdered (suc j) hi m e (omega arith) q h)

insert_by_id-first :
    (lo hi : ℕ) (e : QueueEntry) (m : Entries)
    → e.id < lo
    → IsOrdered lo hi m
    → insert_by_id e (values m) ≡ e ∷ values m
unfolding insert_by_id
insert_by_id-first lo hi e [] p h = refl
insert_by_id-first lo hi e ((j, f) ∷ m) p h = ground arith

-- Entries in order are sorted by their ids: `pending` lists them as they were queued.
pub sort_by_id-values :
    (lo hi : ℕ) (m : Entries) → IsOrdered lo hi m → sort_by_id (values m) ≡ values m
unfolding sort_by_id
sort_by_id-values lo hi [] h = refl
sort_by_id-values lo hi ((k, e) ∷ m) (a, b, c, h) =
    rw (sort_by_id-values (suc k) hi m h) (insert_by_id-first (suc k) hi e m (omega arith) h)

abbrev pub ops : Entries → List LogRecord
ops [] = []
ops ((k, e) ∷ m) = op e ∷ ops m

module _ (json : JsonText) where
  pub record IsReplayed (m : Entries) (hi : ℕ) (q q' : OfflineQueue) : Type 0 where
    pub map_is : q'.pending_map ≡ q.pending_map ++ m
    pub bytes_is : q'.bytes_used ≡ q.bytes_used + weight (line_bytes json) m
    pub next_is : q'.next_id ≤ hi

  -- To replay entries in order on a queue with lower ids appends them.
  pub ops-IsReplayed :
      (low lo hi : ℕ) (m : Entries) (q : OfflineQueue)
      → IsOrdered low lo q.pending_map
      → low ≤ lo
      → q.next_id ≤ hi
      → IsOrdered lo hi m
      → IsReplayed m hi q (replay_records json (ops m) q)
  ops-IsReplayed low lo hi [] q o l n h = record {
    map_is = sym (append-nil q.pending_map);
    bytes_is = omega arith;
    next_is = n;
  }
  ops-IsReplayed low lo hi ((k, e) ∷ m) q o l n (a, b, c, h) =
      let q1 = replay_record json (op e) q in
      let added : q1.pending_map ≡ q.pending_map ++ (e.id, e) ∷ [] =
        unfold replay_record in
        set_absent e.id e q.pending_map
          (get-eq-none_above low lo e.id q.pending_map (omega arith) o) in
      let rest =
        ops-IsReplayed low (e.id + 1) hi m q1
          (rw added (append-IsOrdered low lo q.pending_map e (omega arith) (omega arith) o))
          (omega arith) (unfold replay_record in ground arith)
          (IsOrdered-mono (suc k) (e.id + 1) hi hi m (omega arith) (omega arith) h) in
      record {
        map_is =
            rest.map_is
            ∙ ap (λ x. x ++ m) added
            ∙ append_assoc q.pending_map ((e.id, e) ∷ []) m
            ∙ ap (λ j. q.pending_map ++ ((j, e) ∷ m)) (sym a);
        bytes_is =
            let grown : q1.bytes_used ≡ q.bytes_used + line_bytes json e =
              unfold replay_record in refl in
            omega (arith, rest.bytes_is, grown);
        next_is = rest.next_is;
      }
