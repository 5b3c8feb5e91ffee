-- ===== src/Offline/Queue/Sync.antt =====
-- The queue of plugin/src/offline/OfflineQueue.ts in memory and its log say the same.
use obsidian_remote_ssh.Prelude.{
  ℕ, ◌+◌, ◌≤◌, List, [], ◌∷◌, ◌++◌, Str, str_eq, Option, none, some, nat_eq, ◌≡◌, refl, ap, ◌∙◌,
  sym, arith, All, utf8_length, utf8_length-newline,
}
use mathlib.Core.List.{append_assoc}
use obsidian_remote_ssh.JsMap
use obsidian_remote_ssh.JsMap.{values, weight}
use obsidian_remote_ssh.Json.{JsonText}
use obsidian_remote_ssh.Offline.Queue.{
  QueueEntry, OfflineQueue, LogRecord, op, log_json, line_bytes, append_file,
}
use obsidian_remote_ssh.Offline.Queue.Log.{replay_records, IsAccepted, log_text, log_text-append}
use obsidian_remote_ssh.Offline.Queue.Order.{Entries, IsOrdered, ops}

-- The text of the file, where an absent one counts as empty.
abbrev pub content : Option Str → Str
content none = []
content (some t) = t

-- The queue with nothing in it and nothing counted.
abbrev pub nothing : OfflineQueue
nothing = record {
  pending_map = [];
  next_id = 1;
  bytes_used = 0;
  log_file_bytes = 0;
  max_bytes = 0;
  log = none;
}

pub record IsSame (q r : OfflineQueue) : Type 0 where
  pub map_is : r.pending_map ≡ q.pending_map
  pub bytes_is : r.bytes_used ≡ q.bytes_used
  pub next_is : r.next_id ≤ q.next_id

pub content-append_file : (log : Option Str) (s : Str) → append_file log s ≡ content log ++ s
content-append_file none s = refl
content-append_file (some t) s = refl

module _ (json : JsonText) where
  open json use {stringify}

  -- The records of the log, and what ties them, the counters and the entries together.
  pub record IsValid (q : OfflineQueue) : Type 0 where
    pub records : List LogRecord
    pub log_is : content q.log ≡ log_text json records
    pub accepted : All IsAccepted records
    pub replayed : IsSame q (replay_records json records nothing)
    pub ordered : IsOrdered 1 q.next_id q.pending_map
    pub first_id : 1 ≤ q.next_id
    pub recognised : All IsAccepted (ops q.pending_map)
    pub counted : q.bytes_used ≡ weight (line_bytes json) q.pending_map
    pub within : q.bytes_used ≤ q.max_bytes
    pub size_is : q.log_file_bytes ≡ utf8_length (content q.log)

  pub utf8_length-log_text :
      (rs : List LogRecord) (t : Str)
      → utf8_length (log_text json rs ++ t) ≡ utf8_length (log_text json rs) + utf8_length t
  utf8_length-log_text [] t = unfold utf8_length in omega arith
  utf8_length-log_text (r ∷ rs) t =
      let s = stringify (log_json r) in
      omega (
        arith,
        ap utf8_length (append_assoc s (10 ∷ log_text json rs) t),
        utf8_length-newline s (log_text json rs ++ t),
        utf8_length-newline s (log_text json rs),
        utf8_length-log_text rs t,
      )

  -- The log after one more line.
  module _ (r : LogRecord) (q : OfflineQueue) (h : IsValid q) where
    abbrev pub appended : Str
    appended = append_file q.log (stringify (log_json r) ++ 10 ∷ [])

    pub appended-log_text : appended ≡ log_text json (h.records ++ r ∷ [])
    appended-log_text =
        content-append_file q.log (stringify (log_json r) ++ 10 ∷ [])
        ∙ ap (λ t. t ++ (stringify (log_json r) ++ 10 ∷ [])) h.log_is
        ∙ sym (log_text-append json h.records (r ∷ []))

    pub utf8_length-appended :
        utf8_length appended ≡ q.log_file_bytes + (utf8_length (stringify (log_json r)) + 1)
    utf8_length-appended =
        let s = stringify (log_json r) in
        let empty : utf8_length [] ≡ 0 = unfold utf8_length in refl in
        omega (
          arith,
          ap utf8_length (content-append_file q.log (s ++ 10 ∷ [])),
          ap (λ t. utf8_length (t ++ (s ++ 10 ∷ []))) h.log_is,
          utf8_length-log_text h.records (s ++ 10 ∷ []),
          utf8_length-newline s [],
          ap utf8_length h.log_is,
          h.size_is,
          empty,
        )

  pub ops-append-IsAccepted :
      (m : Entries) (k : ℕ) (e : QueueEntry)
      → All IsAccepted (ops m)
      → IsAccepted (op e)
      → All IsAccepted (ops (m ++ (k, e) ∷ []))
  ops-append-IsAccepted [] k e h a = (a, tt)
  ops-append-IsAccepted ((j, f) ∷ m) k e h a = (h.0, ops-append-IsAccepted m k e h.1 a)

  pub ops-delete-IsAccepted :
      (m : Entries) (k : ℕ) → All IsAccepted (ops m) → All IsAccepted (ops (JsMap.delete k m))
  unfolding JsMap.delete
  ops-delete-IsAccepted [] k h = tt
  ops-delete-IsAccepted ((j, f) ∷ m) k h = ground (arith, ops-delete-IsAccepted m k h.1)
