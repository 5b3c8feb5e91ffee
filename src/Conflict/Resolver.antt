-- ===== src/Conflict/Resolver.antt =====
-- plugin/src/conflict/ConflictResolver.ts: a write that was refused because the file changed. The
-- remote file system, the questions put to the user, and Node's conversions between buffers and
-- strings are parameters.
pub mod Intent
pub mod Writes
use obsidian_remote_ssh.Prelude.{
  ℕ, List, [], ◌∷◌, Bool, true, false, if◌then◌else◌, ◌&&◌, Str, Option, none, some,
}
use obsidian_remote_ssh.Cache.ReadCache
use obsidian_remote_ssh.Cache.ReadCache.{ReadCache}
use obsidian_remote_ssh.Conflict.AncestorTracker
use obsidian_remote_ssh.Conflict.AncestorTracker.{AncestorTracker, AncestorEntry}

abbrev pub Bytes : Type 0
Bytes = List ℕ

-- The calls of `RemoteFsClient` that are made, on a state of its own; `none` and `false` are
-- exceptions. `stat` gives the time of modification.
pub record RemoteFs (Remote : Type 0) : Type 0 where
  pub read_binary : Remote → Str → Remote × Option Bytes
  pub write_binary : Remote → Str → Bytes → Remote × Bool
  pub stat : Remote → Str → Remote × Option ℕ

pub record Encoding : Type 0 where
  pub decode : Bytes → Str
  pub encode : Str → Bytes

pub record ThreeWayPanes : Type 0 where
  pub ancestor : Str
  pub mine : Str
  pub theirs : Str

pub data TextConflictDecision : Type 0 where
  keep_mine keep_theirs cancel : TextConflictDecision
  merged : (content : Str) → TextConflictDecision

-- What the callbacks answer; `none` in an answer is a rejected promise.
pub record Callbacks : Type 0 where
  pub on_text_conflict : Option (Str → ThreeWayPanes → Option TextConflictDecision)
  pub on_write_conflict : Option (Str → Option Bool)

pub record ConflictResolver (Remote : Type 0) : Type 0 where
  pub client : Remote
  pub read_cache : ReadCache
  pub ancestor_tracker : Option AncestorTracker

-- The bytes that were written, the original error, or the error of the write.
pub data Resolution : Type 0 where
  wrote : Bytes → Resolution
  rethrown write_failed : Resolution

module _ {Remote : Type 0} (fs : RemoteFs Remote) (text : Encoding) (ask : Callbacks) where
  -- `await this.client.writeBinary(remote, body); return body`
  abbrev pub write_and_return :
      Str → Bytes → ConflictResolver Remote → ConflictResolver Remote × Resolution
  write_and_return remote body r =
      let (client, done) = fs.write_binary r.client remote body in
      (record r { client = client }, if done then wrote body else write_failed)

  -- By what the user answers.
  abbrev pub answered :
      Option Bool → Str → Bytes → ConflictResolver Remote → ConflictResolver Remote × Resolution
  answered (some true) remote mine r = write_and_return remote mine r
  answered (some false) remote mine r = (r, rethrown)
  answered none remote mine r = (r, rethrown)

  abbrev pub asked :
      Option (Str → Option Bool)
      → Str
      → Str
      → Bytes
      → ConflictResolver Remote
      → ConflictResolver Remote × Resolution
  asked none path remote mine r = (r, rethrown)
  asked (some callback) path remote mine r = answered (callback path) remote mine r

  unfoldable pub fallback_two_choice :
      Str → Str → Bytes → ConflictResolver Remote → ConflictResolver Remote × Resolution
  fallback_two_choice path remote mine r = asked ask.on_write_conflict path remote mine r

  -- The case `keep-theirs`.
  unfoldable pub accept_theirs :
      Str → Str → Bytes → ConflictResolver Remote → ConflictResolver Remote
  accept_theirs path remote theirs r =
      let (client, stat) = fs.stat r.client remote in
      let mtime : ℕ = elim stat [ none ↦ 0 | some t ↦ t ] in
      record {
        client = client;
        read_cache = ReadCache.put r.read_cache remote theirs mtime;
        ancestor_tracker = elim r.ancestor_tracker [
          | none ↦ none
          | some t ↦ some (AncestorTracker.remember path (text.decode theirs) mtime t)
        ];
      }

  unfoldable pub decide :
      Option TextConflictDecision
      → Str
      → Str
      → Bytes
      → Bytes
      → ConflictResolver Remote
      → ConflictResolver Remote × Resolution
  unfolding accept_theirs
  decide (some keep_mine) path remote mine theirs r = write_and_return remote mine r
  decide (some (merged content)) path remote mine theirs r =
      write_and_return remote (text.encode content) r
  decide (some keep_theirs) path remote mine theirs r =
      (accept_theirs path remote theirs r, rethrown)
  decide (some cancel) path remote mine theirs r = (r, rethrown)
  decide none path remote mine theirs r = (r, rethrown)

  -- The three-way merge, with the ancestor that was found and what the re-read gives.
  unfoldable pub resolve_read :
      Option Bytes
      → Str
      → Str
      → Bytes
      → (Str → ThreeWayPanes → Option TextConflictDecision)
      → AncestorEntry
      → ConflictResolver Remote
      → ConflictResolver Remote × Resolution
  unfolding decide fallback_two_choice
  resolve_read none path remote mine callback ancestor r = fallback_two_choice path remote mine r
  resolve_read (some theirs) path remote mine callback ancestor r =
      decide
        (callback path (record {
          ancestor = ancestor.content;
          mine = text.decode mine;
          theirs = text.decode theirs;
        }))
        path remote mine theirs r

  -- By what the tracker has.
  unfoldable pub resolve_found :
      Option AncestorEntry
      → Str
      → Str
      → Bytes
      → (Str → ThreeWayPanes → Option TextConflictDecision)
      → ConflictResolver Remote
      → ConflictResolver Remote × Resolution
  unfolding resolve_read fallback_two_choice
  resolve_found none path remote mine callback r = fallback_two_choice path remote mine r
  resolve_found (some ancestor) path remote mine callback r =
      let (client, read) = fs.read_binary r.client remote in
      resolve_read read path remote mine callback ancestor (record r { client = client })

  -- A text, by the tracker and the callback that there are.
  unfoldable pub resolve_text :
      Option AncestorTracker
      → Option (Str → ThreeWayPanes → Option TextConflictDecision)
      → Str
      → Str
      → Bytes
      → ConflictResolver Remote
      → ConflictResolver Remote × Resolution
  unfolding resolve_found fallback_two_choice
  resolve_text (some t) (some callback) path remote mine r =
      let (t', found) = AncestorTracker.get path t in
      resolve_found found path remote mine callback (record r { ancestor_tracker = some t' })
  resolve_text (some t) none path remote mine r = fallback_two_choice path remote mine r
  resolve_text none _ path remote mine r = fallback_two_choice path remote mine r

  unfoldable pub resolve :
      Str → Str → Bytes → Bool → ConflictResolver Remote → ConflictResolver Remote × Resolution
  unfolding resolve_text fallback_two_choice
  resolve path remote mine is_text r =
      if is_text
      then resolve_text r.ancestor_tracker ask.on_text_conflict path remote mine r
      else fallback_two_choice path remote mine r

-- `swapClient`
abbrev pub swap_client :
    {Remote : Type 0} → Remote → ConflictResolver Remote → ConflictResolver Remote
swap_client new_client r = record r { client = new_client }
