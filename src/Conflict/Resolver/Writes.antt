-- ===== src/Conflict/Resolver/Writes.antt =====
-- What plugin/src/conflict/ConflictResolver.ts does to the remote file and the read cache, against a
-- table of what the user's answers ask for.
use obsidian_remote_ssh.Prelude.{
  ℕ, Bool, true, false, if◌then◌else◌, Str, str_eq, Option, none, some, ◌≡◌, refl, sym, subst,
  Option-cases, inl, inr,
}
use obsidian_remote_ssh.JsMap
use obsidian_remote_ssh.Cache.ReadCache
use obsidian_remote_ssh.Cache.ReadCache.{ReadCache}
use obsidian_remote_ssh.Conflict.AncestorTracker
use obsidian_remote_ssh.Conflict.AncestorTracker.{AncestorTracker, AncestorEntry, Snapshot}
use obsidian_remote_ssh.Conflict.Resolver.Intent.{
  Intent, overwrite, take_over, leave, TextCallback, of_answer, two_choice, of_decision, three_way,
  by_parts, asked_for, entry_of, mtime_of, looked_up, remembered,
}
use obsidian_remote_ssh.Conflict.Resolver.{
  Bytes, RemoteFs, Encoding, TextConflictDecision, keep_mine, keep_theirs, cancel, merged,
  Callbacks, ConflictResolver, Resolution, wrote, rethrown, write_failed, write_and_return,
  answered, asked, fallback_two_choice, accept_theirs, decide, resolve_read, resolve_found,
  resolve_text, resolve,
}

module _ {Remote : Type 0} (fs : RemoteFs Remote) (text : Encoding) (ask : Callbacks) where
  -- A read and a `stat` leave the remote as it is.
  pub record ReadsKeep : Type 0 where
    pub read_keeps : (s : Remote) (path : Str) → (fs.read_binary s path).0 ≡ s
    pub stat_keeps : (s : Remote) (path : Str) → (fs.stat s path).0 ≡ s

  -- The remote, the cache and the tracker afterwards, and what comes back, by what was asked for.
  abbrev pub Outcome :
      Str
      → Str
      → Remote
      → ReadCache
      → Option AncestorTracker
      → Intent
      → ConflictResolver Remote × Resolution
      → Type 0
  Outcome path remote s cache seen (overwrite body) out =
      (ok : Bool) × (fs.write_binary s remote body ≡ (out.0.client, ok))
      × (out.1 ≡ (if ok then wrote body else write_failed))
      × (out.0.read_cache ≡ cache)
  Outcome path remote s cache seen (take_over theirs) out =
      (out.0.client ≡ s)
      × (out.1 ≡ rethrown)
      × (out.0.read_cache ≡ ReadCache.put cache remote theirs (mtime_of (fs.stat s remote).1))
      × (out.0.ancestor_tracker
          ≡ remembered path (text.decode theirs) (mtime_of (fs.stat s remote).1) seen)
  Outcome path remote s cache seen leave out =
      (out.0.client ≡ s) × (out.1 ≡ rethrown) × (out.0.read_cache ≡ cache)

  write_and_return-Outcome :
      (seen : Option AncestorTracker) (path remote : Str) (body : Bytes)
      (r : ConflictResolver Remote)
      → Outcome path remote r.client r.read_cache seen
          (overwrite body)
          (write_and_return fs text ask remote body r)
  write_and_return-Outcome seen path remote body r =
      ((fs.write_binary r.client remote body).1, refl, refl, refl)

  answered-Outcome :
      (seen : Option AncestorTracker) (answer : Option Bool) (path remote : Str) (mine : Bytes)
      (r : ConflictResolver Remote)
      → Outcome path remote r.client r.read_cache seen
          (of_answer answer mine)
          (answered fs text ask answer remote mine r)
  answered-Outcome seen (some true) path remote mine r =
      write_and_return-Outcome seen path remote mine r
  answered-Outcome seen (some false) path remote mine r = (refl, refl, refl)
  answered-Outcome seen none path remote mine r = (refl, refl, refl)

  asked-Outcome :
      (seen : Option AncestorTracker) (legacy : Option (Str → Option Bool)) (path remote : Str)
      (mine : Bytes) (r : ConflictResolver Remote)
      → Outcome path remote r.client r.read_cache seen
          (two_choice legacy path mine)
          (asked fs text ask legacy path remote mine r)
  asked-Outcome seen none path remote mine r = (refl, refl, refl)
  asked-Outcome seen (some callback) path remote mine r =
      answered-Outcome seen (callback path) path remote mine r

  fallback_two_choice-Outcome :
      (seen : Option AncestorTracker) (path remote : Str) (mine : Bytes)
      (r : ConflictResolver Remote)
      → Outcome path remote r.client r.read_cache seen
          (two_choice ask.on_write_conflict path mine)
          (fallback_two_choice fs text ask path remote mine r)
  unfolding fallback_two_choice
  fallback_two_choice-Outcome seen path remote mine r =
      asked-Outcome seen ask.on_write_conflict path remote mine r

  module _ (keeps : ReadsKeep) where
    accept_theirs-Outcome :
        (path remote : Str) (theirs : Bytes) (r : ConflictResolver Remote)
        → Outcome path remote r.client r.read_cache r.ancestor_tracker
            (take_over theirs)
            (accept_theirs fs text ask path remote theirs r, rethrown)
    unfolding accept_theirs
    accept_theirs-Outcome path remote theirs r = (
      keeps.stat_keeps r.client remote,
      refl,
      at_time (fs.stat r.client remote).1,
      noted (fs.stat r.client remote).1 r.ancestor_tracker,
    )
      where
        at_time :
            (o : Option ℕ)
            → ReadCache.put r.read_cache remote theirs (elim o [ none ↦ 0 | some t ↦ t ])
              ≡ ReadCache.put r.read_cache remote theirs (mtime_of o)
        at_time none = refl
        at_time (some t) = refl

        noted :
            (o : Option ℕ) (tracker : Option AncestorTracker)
            → (elim tracker [
              | none ↦ none
              | some t ↦ some (
                  AncestorTracker.remember path
                    (text.decode theirs)
                    (elim o [ none ↦ 0 | some t ↦ t ])
                    t)
            ])
              ≡ remembered path (text.decode theirs) (mtime_of o) tracker
        noted o none = refl
        noted none (some t) = refl
        noted (some time) (some t) = refl

    decide-Outcome :
        (decision : Option TextConflictDecision) (path remote : Str) (mine theirs : Bytes)
        (r : ConflictResolver Remote)
        → Outcome path remote r.client r.read_cache r.ancestor_tracker
            (of_decision text decision mine theirs)
            (decide fs text ask decision path remote mine theirs r)
    unfolding decide
    decide-Outcome (some keep_mine) path remote mine theirs r =
        write_and_return-Outcome r.ancestor_tracker path remote mine r
    decide-Outcome (some (merged content)) path remote mine theirs r =
        write_and_return-Outcome r.ancestor_tracker path remote (text.encode content) r
    decide-Outcome (some keep_theirs) path remote mine theirs r =
        accept_theirs-Outcome path remote theirs r
    decide-Outcome (some cancel) path remote mine theirs r = (refl, refl, refl)
    decide-Outcome none path remote mine theirs r = (refl, refl, refl)

    resolve_read-Outcome :
        (read : Option Bytes) (path remote : Str) (mine : Bytes) (callback : TextCallback)
        (old : Snapshot) (r : ConflictResolver Remote)
        → Outcome path remote r.client r.read_cache r.ancestor_tracker
            (three_way text (some old) read callback ask.on_write_conflict path mine)
            (resolve_read fs text ask read path remote mine callback
              (record { content = old.content; mtime = old.mtime })
              r)
    unfolding resolve_read
    resolve_read-Outcome none path remote mine callback old r =
        fallback_two_choice-Outcome r.ancestor_tracker path remote mine r
    resolve_read-Outcome (some theirs) path remote mine callback old r =
        decide-Outcome _ path remote mine theirs r

    resolve_found-Outcome :
        (old : Option Snapshot) (path remote : Str) (mine : Bytes) (callback : TextCallback)
        (r : ConflictResolver Remote)
        → Outcome path remote r.client r.read_cache r.ancestor_tracker
            (three_way text old
              (fs.read_binary r.client remote).1
              callback
              ask.on_write_conflict
              path
              mine)
            (resolve_found fs text ask (entry_of old) path remote mine callback r)
    unfolding resolve_found
    resolve_found-Outcome none path remote mine callback r =
        fallback_two_choice-Outcome r.ancestor_tracker path remote mine r
    resolve_found-Outcome (some old) path remote mine callback r =
        let (client, read) = fs.read_binary r.client remote in
        let r' : ConflictResolver Remote = record r { client = client } in
        subst
          (λ s.
            Outcome path remote s r.read_cache r.ancestor_tracker
              (three_way text (some old) read callback ask.on_write_conflict path mine)
              (resolve_read fs text ask read path remote mine callback
                (record { content = old.content; mtime = old.mtime }) r'))
          (keeps.read_keeps r.client remote)
          (resolve_read-Outcome read path remote mine callback old r')

    get-entry_of :
        (path : Str) (t : AncestorTracker)
        → (AncestorTracker.get path t).1 ≡ entry_of (JsMap.get path t.entries)
    unfolding AncestorTracker.get
    get-entry_of path t = elim (Option-cases (JsMap.get path t.entries)) [
      | inl e ↦ rw (AncestorTracker.get, e) refl
      | inr (old, e) ↦ rw (AncestorTracker.get, e) refl
    ]

    resolve_text-Outcome :
        (tracker : Option AncestorTracker) (callback : Option TextCallback) (path remote : Str)
        (mine : Bytes) (r : ConflictResolver Remote)
        → Outcome path remote r.client r.read_cache
            (looked_up path tracker)
            (by_parts text true tracker callback ask.on_write_conflict
              (fs.read_binary r.client remote).1
              path
              mine)
            (resolve_text fs text ask tracker callback path remote mine r)
    unfolding resolve_text
    resolve_text-Outcome (some t) (some callback) path remote mine r =
        let r' : ConflictResolver Remote = record r {
          ancestor_tracker = some (AncestorTracker.get path t).0;
        } in
        subst
          (λ found.
            Outcome path remote r.client r.read_cache r'.ancestor_tracker
              (three_way text (JsMap.get path t.entries) (fs.read_binary r.client remote).1 callback
                ask.on_write_conflict path mine)
              (resolve_found fs text ask found path remote mine callback r'))
          (sym (get-entry_of path t))
          (resolve_found-Outcome (JsMap.get path t.entries) path remote mine callback r')
    resolve_text-Outcome (some t) none path remote mine r =
        fallback_two_choice-Outcome (looked_up path (some t)) path remote mine r
    resolve_text-Outcome none _ path remote mine r =
        fallback_two_choice-Outcome none path remote mine r

    -- Where reads and `stat` leave the remote as it is, a conflict is resolved as the user's answers
    -- ask. The bytes at hand, or the text that the user gave as merged, are written exactly once to
    -- the remote as it was, and come back if that succeeds; where the remote's bytes are taken over,
    -- they are put into the cache and their text into the tracker, with the time that `stat` gives;
    -- and otherwise, an answer that is missing included, the remote and the cache stay and the
    -- original error is thrown.
    pub resolve-Outcome :
        (path remote : Str) (mine : Bytes) (is_text : Bool) (r : ConflictResolver Remote)
        → Outcome path remote r.client r.read_cache
            (looked_up path r.ancestor_tracker)
            (asked_for text ask is_text r.ancestor_tracker
              (fs.read_binary r.client remote).1
              path
              mine)
            (resolve fs text ask path remote mine is_text r)
    unfolding resolve
    resolve-Outcome path remote mine true r =
        resolve_text-Outcome r.ancestor_tracker ask.on_text_conflict path remote mine r
    resolve-Outcome path remote mine false r =
        fallback_two_choice-Outcome (looked_up path r.ancestor_tracker) path remote mine r
