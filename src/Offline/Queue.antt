-- ===== src/Offline/Queue.antt =====
-- plugin/src/offline/OfflineQueue.ts: pending writes in memory and in an append-only log of JSON
-- lines. `log` is the content of the file that `logFile` names, and `none` where there is none. The
-- outcome of each call of the file system is an argument; a failed one leaves the file as it was.
pub mod Log
pub mod Order
pub mod Sync
pub mod Steps
pub mod Recovery
pub mod Torn
pub mod Pending
use obsidian_remote_ssh.Prelude.{
  ℕ, ◌+◌, ◌-◌, ◌*◌, max, List, [], ◌∷◌, ◌++◌, map, Bool, true, false, if◌then◌else◌, leb, ltb, Str,
  str_eq, codes, split, join, ◌==◌, utf8_length, Option, none, some, length, nat_eq,
}
use Prim.Native.String.{String}
use obsidian_remote_ssh.JsMap
use obsidian_remote_ssh.JsMap.{values}
use obsidian_remote_ssh.Json.{Json, num, str, bool, obj, Fields, end, field, JsonText, member, trim}

pub data QueuedOp : Type 0 where
  write : (path content_base64 : Str) (expected_mtime : Option ℕ) → QueuedOp
  write_binary : (path content_base64 : Str) (expected_mtime : Option ℕ) → QueuedOp
  append : (path content_base64 : Str) → QueuedOp
  append_binary : (path content_base64 : Str) → QueuedOp
  mkdir : (path : Str) → QueuedOp
  remove : (path : Str) → QueuedOp
  rmdir : (path : Str) (recursive : Bool) → QueuedOp
  rename : (old_path new_path : Str) → QueuedOp
  copy : (src_path dst_path : Str) → QueuedOp
  trash_local : (path : Str) → QueuedOp

abbrev text : String → Str → Fields → Fields
text k v fs = field (codes k) (str v) fs

-- An absent `expectedMtime` is left out.
abbrev mtime_field : Option ℕ → Fields
mtime_field none = end
mtime_field (some t) = field (codes "expectedMtime") (num t) end

abbrev kind : String → Fields → Json
kind k fs = obj (text "kind" (codes k) fs)

-- The operation as the object that it is.
unfoldable pub op_json : QueuedOp → Json
op_json (write p c t) = kind "write" (text "path" p (text "contentBase64" c (mtime_field t)))
op_json (write_binary p c t) =
    kind "writeBinary" (text "path" p (text "contentBase64" c (mtime_field t)))
op_json (append p c) = kind "append" (text "path" p (text "contentBase64" c end))
op_json (append_binary p c) = kind "appendBinary" (text "path" p (text "contentBase64" c end))
op_json (mkdir p) = kind "mkdir" (text "path" p end)
op_json (remove p) = kind "remove" (text "path" p end)
op_json (rmdir p r) = kind "rmdir" (text "path" p (field (codes "recursive") (bool r) end))
op_json (rename p q) = kind "rename" (text "oldPath" p (text "newPath" q end))
op_json (copy p q) = kind "copy" (text "srcPath" p (text "dstPath" q end))
op_json (trash_local p) = kind "trashLocal" (text "path" p end)

-- `op` is an object: what the log gives back is not looked into beyond its `kind`.
pub record QueueEntry : Type 0 where
  pub id : ℕ
  pub ts : ℕ
  pub op : Json

pub record OfflineQueue : Type 0 where
  pub pending_map : List (ℕ × QueueEntry)
  pub next_id : ℕ
  pub bytes_used : ℕ
  pub log_file_bytes : ℕ
  pub max_bytes : ℕ
  pub log : Option Str

pub record QueueStats : Type 0 where
  pub entries : ℕ
  pub bytes : ℕ
  pub max_bytes : ℕ
  pub log_file_bytes : ℕ

-- How the replacement of the log by the temporary file ends.
pub data Replace : Type 0 where
  -- `fs.rename` succeeds; it is refused and `copyFile` with `unlink` serves; an error is thrown.
  renamed copied failed : Replace

pub data Result {ℓ} (A : Type ℓ) : Type ℓ where
  ok : A → Result A
  -- The cap would be exceeded; the file system failed.
  over_cap io_error : Result A

pub data LogRecord : Type 0 where
  op : QueueEntry → LogRecord
  completed : (id ts : ℕ) → LogRecord

-- What `isLogRecord` makes of a parsed line: `op: null` throws, since `null.kind` does.
pub data Shape : Type 0 where
  is_record : LogRecord → Shape
  unknown throws : Shape

abbrev pub default_max_bytes : ℕ
default_max_bytes = 500 * 1024 * 1024

unfoldable pub log_json : LogRecord → Json
log_json (op e) = obj (
    text "type" (codes "op")
      (field (codes "id") (num e.id) (field (codes "ts") (num e.ts) (field (codes "op") e.op end))))
log_json (completed id ts) = obj (
    text "type" (codes "completed") (field (codes "id") (num id) (field (codes "ts") (num ts) end)))

-- `typeof (op as { kind?: unknown }).kind === 'string'`, where `op` is not `undefined`.
unfoldable pub op_shape : ℕ → ℕ → Json → Shape
op_shape id ts Json.null = throws
op_shape id ts (obj fs) = elim (member (codes "kind") fs) [
  | some (str _) ↦ is_record (op (record { id = id; ts = ts; op = obj fs }))
  | _ ↦ unknown
]
op_shape id ts _ = unknown

abbrev op_fields : Option Json → Option Json → Option Json → Shape
op_fields (some (num id)) (some (num ts)) (some v) = op_shape id ts v
op_fields _ _ _ = unknown

abbrev tombstone_fields : Option Json → Option Json → Shape
tombstone_fields (some (num id)) (some (num ts)) = is_record (completed id ts)
tombstone_fields _ _ = unknown

unfoldable pub is_log_record : Json → Shape
unfolding op_shape member
is_log_record (obj fs) = elim (member (codes "type") fs) [
  | some (str t) ↦
      if t == codes "op"
      then op_fields (member (codes "id") fs) (member (codes "ts") fs) (member (codes "op") fs)
      else if t == codes "completed"
      then tombstone_fields (member (codes "id") fs) (member (codes "ts") fs)
      else unknown
  | _ ↦ unknown
]
is_log_record _ = unknown

-- `Array.from(map.values()).sort((a, b) => a.id - b.id)`, by insertion.
unfoldable pub insert_by_id : QueueEntry → List QueueEntry → List QueueEntry
insert_by_id e [] = e ∷ []
insert_by_id e (f ∷ fs) = if leb e.id f.id then e ∷ f ∷ fs else f ∷ insert_by_id e fs

unfoldable pub sort_by_id : List QueueEntry → List QueueEntry
unfolding insert_by_id
sort_by_id [] = []
sort_by_id (e ∷ es) = insert_by_id e (sort_by_id es)

unfoldable pub pending : OfflineQueue → List QueueEntry
unfolding sort_by_id
pending q = sort_by_id (values q.pending_map)

unfoldable pub stats : OfflineQueue → QueueStats
stats q = record {
  entries = length q.pending_map;
  bytes = q.bytes_used;
  max_bytes = q.max_bytes;
  log_file_bytes = q.log_file_bytes;
}

unfoldable pub should_compact : OfflineQueue → Bool
should_compact q = ltb (max (4 * 1024) (q.bytes_used * 2)) q.log_file_bytes

-- `fs.appendFile`, which makes the file where there is none.
abbrev pub append_file : Option Str → Str → Str
append_file none s = s
append_file (some t) s = t ++ s

module _ (json : JsonText) where
  open json use {stringify, parse}

  unfoldable pub serialise_op : QueueEntry → Str
  unfolding log_json
  serialise_op e = stringify (log_json (op e))

  unfoldable pub serialise_tombstone : ℕ → ℕ → Str
  unfolding log_json
  serialise_tombstone id now = stringify (log_json (completed id now))

  -- The bytes that an entry counts for.
  abbrev pub line_bytes : QueueEntry → ℕ
  line_bytes e = utf8_length (serialise_op e)

  -- The body of the loop of `replayLog` on a record.
  unfoldable pub replay_record : LogRecord → OfflineQueue → OfflineQueue
  replay_record (op entry) q = record q {
    pending_map = JsMap.set entry.id entry q.pending_map;
    bytes_used = q.bytes_used + line_bytes entry;
    next_id = if leb q.next_id entry.id then entry.id + 1 else q.next_id;
  }
  replay_record (completed id ts) q = elim (JsMap.get id q.pending_map) [
    | none ↦ q
    -- `bytesUsed` stops at 0, as the subtraction does.
    | some dropped ↦ record q {
      pending_map = JsMap.delete id q.pending_map;
      bytes_used = q.bytes_used - line_bytes dropped;
    }
  ]

  unfoldable pub replay_shape : Shape → OfflineQueue → Option OfflineQueue
  unfolding replay_record
  replay_shape (is_record r) q = some (replay_record r q)
  replay_shape unknown q = some q
  replay_shape throws q = none

  unfoldable pub replay_parsed : Option Json → OfflineQueue → Option OfflineQueue
  unfolding replay_shape is_log_record
  replay_parsed none q = some q
  replay_parsed (some v) q = replay_shape (is_log_record v) q

  unfoldable pub replay_trimmed : Str → OfflineQueue → Option OfflineQueue
  unfolding replay_parsed
  replay_trimmed [] q = some q
  replay_trimmed (c ∷ line) q = replay_parsed (parse (c ∷ line)) q

  -- One line: blank ones, malformed ones and unknown shapes are skipped. `none` is an exception.
  unfoldable pub replay_line : Str → OfflineQueue → Option OfflineQueue
  unfolding replay_trimmed trim
  replay_line raw q = replay_trimmed (trim raw) q

  unfoldable pub replay_lines : List Str → OfflineQueue → Option OfflineQueue
  unfolding replay_line
  replay_lines [] q = some q
  replay_lines (l ∷ ls) q = elim (replay_line l q) [ none ↦ none | some q' ↦ replay_lines ls q' ]

  -- `if (raw.length === 0) return`, and the loop.
  unfoldable pub replay_text : Str → OfflineQueue → Option OfflineQueue
  unfolding replay_lines
  replay_text [] q = some q
  replay_text (c ∷ s) q = replay_lines (split 10 (c ∷ s)) q

  unfoldable pub replay_log : OfflineQueue → Option OfflineQueue
  unfolding replay_text
  replay_log q = elim q.log [
    | none ↦ some (record q { log_file_bytes = 0 })
    | some raw ↦ let q' = record q { log_file_bytes = utf8_length raw } in replay_text raw q'
  ]

  -- `OfflineQueue.open`, on what the directory holds.
  unfoldable pub open_queue : Option Str → Option ℕ → Option OfflineQueue
  unfolding replay_log
  open_queue log max_bytes = replay_log (record {
    pending_map = [];
    next_id = 1;
    bytes_used = 0;
    log_file_bytes = 0;
    max_bytes = elim max_bytes [ none ↦ default_max_bytes | some n ↦ n ];
    log = log;
  })

  -- `enqueue` below the cap, when the line is written.
  unfoldable pub add_entry : QueueEntry → OfflineQueue → OfflineQueue
  unfolding serialise_op
  add_entry entry q =
      let line = serialise_op entry in
      record q {
        next_id = q.next_id + 1;
        log = some (append_file q.log (line ++ 10 ∷ []));
        pending_map = JsMap.set entry.id entry q.pending_map;
        bytes_used = q.bytes_used + utf8_length line;
        log_file_bytes = q.log_file_bytes + (utf8_length line + 1);
      }

  -- `enqueue` at the time `now`; `appended` is the outcome of `fs.appendFile`.
  unfoldable pub enqueue : QueuedOp → ℕ → Bool → OfflineQueue → OfflineQueue × Result ℕ
  unfolding add_entry op_json
  enqueue o now appended q =
      let entry : QueueEntry = record { id = q.next_id; ts = now; op = op_json o } in
      if ltb q.max_bytes (q.bytes_used + line_bytes entry)
      then (q, over_cap)
      else if appended
      then (add_entry entry q, ok q.next_id)
      else (record q { next_id = q.next_id + 1 }, io_error)

  -- The text of a log with these entries and no tombstones.
  unfoldable pub log_body : List QueueEntry → Str
  unfolding serialise_op join
  log_body [] = []
  log_body (e ∷ es) = join (10 ∷ []) (map serialise_op (e ∷ es)) ++ 10 ∷ []

  unfoldable pub rewrite_log :
      List QueueEntry → Replace → OfflineQueue → OfflineQueue × Result (Unit {0})
  unfolding log_body
  rewrite_log entries failed q = (q, io_error)
  rewrite_log entries _ q = (
    record q { log = some (log_body entries); log_file_bytes = utf8_length (log_body entries) },
    ok tt,
  )

  unfoldable pub compact : Replace → OfflineQueue → OfflineQueue × Result (Unit {0})
  unfolding rewrite_log pending
  compact replaced q = rewrite_log (pending q) replaced q

  -- `markCompleted` up to the compaction, on the entry that is there.
  unfoldable pub drop_entry : ℕ → ℕ → QueueEntry → OfflineQueue → OfflineQueue
  unfolding serialise_tombstone
  drop_entry id now entry q =
      let tombstone = serialise_tombstone id now in
      record q {
        log = some (append_file q.log (tombstone ++ 10 ∷ []));
        log_file_bytes = q.log_file_bytes + (utf8_length tombstone + 1);
        pending_map = JsMap.delete id q.pending_map;
        bytes_used = q.bytes_used - line_bytes entry;
      }

  unfoldable pub mark_completed :
      ℕ → ℕ → Bool → Replace → OfflineQueue → OfflineQueue × Result (Unit {0})
  unfolding drop_entry should_compact compact
  mark_completed id now appended replaced q = elim (JsMap.get id q.pending_map) [
    | none ↦ (q, ok tt)
    | some entry ↦
        if appended
        then (let q' = drop_entry id now entry q in
            if should_compact q' then compact replaced q' else (q', ok tt))
        else (q, io_error)
  ]

  unfoldable pub clear : Replace → OfflineQueue → OfflineQueue × Result (Unit {0})
  unfolding rewrite_log
  clear replaced q = rewrite_log [] replaced (record q { pending_map = []; bytes_used = 0 })
