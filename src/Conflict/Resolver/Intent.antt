-- ===== src/Conflict/Resolver/Intent.antt =====
-- What the user's answers ask for when a write was refused, as a table: the questions of
-- plugin/src/conflict/ConflictResolver.ts without its reads and its writes.
use obsidian_remote_ssh.Prelude.{ℕ, Bool, true, false, Str, str_eq, Option, none, some}
use obsidian_remote_ssh.JsMap
use obsidian_remote_ssh.Conflict.AncestorTracker
use obsidian_remote_ssh.Conflict.AncestorTracker.{AncestorTracker, AncestorEntry, Snapshot}
use obsidian_remote_ssh.Conflict.Resolver.{
  Bytes, Encoding, ThreeWayPanes, TextConflictDecision, keep_mine, keep_theirs, cancel, merged,
  Callbacks,
}

-- What is asked for: to write these bytes, to take over those that are there, or nothing.
pub data Intent : Type 0 where
  overwrite : (body : Bytes) → Intent
  take_over : (theirs : Bytes) → Intent
  leave : Intent

abbrev pub TextCallback : Type 0
TextCallback = Str → ThreeWayPanes → Option TextConflictDecision

-- The answer to the legacy question.
abbrev pub of_answer : Option Bool → Bytes → Intent
of_answer (some true) mine = overwrite mine
of_answer (some false) mine = leave
of_answer none mine = leave

abbrev pub two_choice : Option (Str → Option Bool) → Str → Bytes → Intent
two_choice none path mine = leave
two_choice (some callback) path mine = of_answer (callback path) mine

module _ (text : Encoding) where
  -- The answer to the three-way question.
  abbrev pub of_decision : Option TextConflictDecision → Bytes → Bytes → Intent
  of_decision (some keep_mine) mine theirs = overwrite mine
  of_decision (some (merged content)) mine theirs = overwrite (text.encode content)
  of_decision (some keep_theirs) mine theirs = take_over theirs
  of_decision (some cancel) mine theirs = leave
  of_decision none mine theirs = leave

  -- The three-way question, for a text that is remembered and can be read again.
  abbrev pub three_way :
      Option Snapshot
      → Option Bytes
      → TextCallback
      → Option (Str → Option Bool)
      → Str
      → Bytes
      → Intent
  three_way (some old) (some theirs) callback legacy path mine =
      of_decision
        (callback path
          (record { ancestor = old.content; mine = text.decode mine; theirs = text.decode theirs }))
        mine theirs
  three_way (some old) none callback legacy path mine = two_choice legacy path mine
  three_way none _ callback legacy path mine = two_choice legacy path mine

  -- The three-way question needs a text, a tracker and a callback.
  abbrev pub by_parts :
      Bool
      → Option AncestorTracker
      → Option TextCallback
      → Option (Str → Option Bool)
      → Option Bytes
      → Str
      → Bytes
      → Intent
  by_parts true (some t) (some callback) legacy theirs path mine =
      three_way (JsMap.get path t.entries) theirs callback legacy path mine
  by_parts true (some t) none legacy theirs path mine = two_choice legacy path mine
  by_parts true none _ legacy theirs path mine = two_choice legacy path mine
  by_parts false _ _ legacy theirs path mine = two_choice legacy path mine

  -- What the user's answers ask for, with the bytes that the remote file has.
  abbrev pub asked_for :
      Callbacks → Bool → Option AncestorTracker → Option Bytes → Str → Bytes → Intent
  asked_for ask is_text tracker theirs path mine =
      by_parts is_text tracker ask.on_text_conflict ask.on_write_conflict theirs path mine

-- What the tracker answers is the text and the time of its entry.
abbrev pub entry_of : Option Snapshot → Option AncestorEntry
entry_of none = none
entry_of (some old) = some (record { content = old.content; mtime = old.mtime })

-- The time of modification, 0 where `stat` fails.
abbrev pub mtime_of : Option ℕ → ℕ
mtime_of none = 0
mtime_of (some t) = t

-- The tracker behind a question about its text, and with a text that was taken over.
abbrev pub looked_up : Str → Option AncestorTracker → Option AncestorTracker
looked_up path none = none
looked_up path (some t) = some (AncestorTracker.get path t).0

abbrev pub remembered : Str → Str → ℕ → Option AncestorTracker → Option AncestorTracker
remembered path content mtime none = none
remembered path content mtime (some t) = some (AncestorTracker.remember path content mtime t)
