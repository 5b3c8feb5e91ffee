-- ===== src/Tests/Ancestors.antt =====
-- Runs of plugin/src/conflict/AncestorTracker.ts and ConflictResolver.ts.
use native.Mathlib.Decide.{ℕ_discrete}
use obsidian_remote_ssh.Prelude.{
  ℕ, ◌≤◌, ◌⊎◌, List, [], ◌∷◌, Str, str_eq, str_discrete, codes, true, none, some, ◌≡◌, refl,
}
use obsidian_remote_ssh.JsMap
use obsidian_remote_ssh.JsMap.{IsDistinct}
use obsidian_remote_ssh.Cache.ReadCache
use obsidian_remote_ssh.Conflict.AncestorTracker
use obsidian_remote_ssh.Conflict.AncestorTracker.{
  AncestorTracker, Snapshot, init, remember, record_snapshot, byte_length, evict, evict_from,
  sort_by_access, insert_by_access,
}
use obsidian_remote_ssh.Conflict.AncestorTracker.Books.{IsValid}
use obsidian_remote_ssh.Conflict.AncestorTracker.Calls
use obsidian_remote_ssh.Conflict.AncestorTracker.Calls.{Call, run, ideal, ideal-run_tracker}
use obsidian_remote_ssh.Conflict.AncestorTracker.Recent.{evict_recent}
use obsidian_remote_ssh.Conflict.Resolver.{
  Bytes, RemoteFs, Encoding, merged, Callbacks, ConflictResolver, resolve,
}
use obsidian_remote_ssh.Conflict.Resolver.Writes.{ReadsKeep, Outcome, resolve-Outcome}
use obsidian_remote_ssh.Conflict.Resolver.Intent.{overwrite, looked_up}

abbrev note : Str
note = codes "a.md"

-- The second text does not fit beside the first.
abbrev calls : List Call
calls =
    Call.remember note (codes "old") 1
    ∷ Call.get note
    ∷ Call.remember (codes "b.md") (codes "longer") 2
    ∷ Call.remember note (codes "new") 3
    ∷ []

ideal-run_tracker_example :
    IsValid (run calls (init (some 8) 0))
    × (((AncestorTracker.get note (run calls (init (some 8) 0))).1 ≡ none)
        ⊎ ((AncestorTracker.get note (run calls (init (some 8) 0))).1
            ≡ ideal calls (λ _. none) note))
ideal-run_tracker_example = ideal-run_tracker (some 8) 0 calls note

abbrev snapshot : Str → ℕ → Snapshot
snapshot content tick = record {
  content = content;
  mtime = 0;
  size_bytes = 3;
  last_accessed = tick;
}

-- The text that was read longest ago has to go.
abbrev full : AncestorTracker
full = record {
  entries = (note, snapshot (codes "new") 9) ∷ (codes "b.md", snapshot (codes "old") 4) ∷ [];
  total_bytes = 6;
  max_bytes = 5;
  tick_counter = 9;
}

evict_recent_example : 4 ≤ 9
unfolding evict evict_from sort_by_access insert_by_access JsMap.get JsMap.delete str_discrete
    ℕ_discrete
evict_recent_example =
    evict_recent full note (codes "b.md") (snapshot (codes "new") 9) (snapshot (codes "old") 4)
      (refl, (refl, tt)) refl refl refl

-- A remote of one file, which is always there.
abbrev one_file : RemoteFs Bytes
one_file = record {
  read_binary = λ s path. (s, some s);
  write_binary = λ s path body. (body, true);
  stat = λ s path. (s, some 4);
}

abbrev as_it_is : Encoding
as_it_is = record { decode = λ b. b; encode = λ s. s }

-- The user joins the two new texts.
abbrev joins : Callbacks
joins = record {
  on_text_conflict = some (λ path panes. some (merged (codes "mine and theirs")));
  on_write_conflict = none;
}

one_file-ReadsKeep : ReadsKeep one_file as_it_is joins
one_file-ReadsKeep = record { read_keeps = λ s path. refl; stat_keeps = λ s path. refl }

abbrev resolver : ConflictResolver Bytes
resolver = record {
  client = codes "theirs";
  read_cache = ReadCache.init none;
  ancestor_tracker = some (run (Call.remember note (codes "old") 1 ∷ []) (init none 0));
}

resolve-Outcome_example :
    Outcome one_file as_it_is joins note note
      (codes "theirs")
      (ReadCache.init none)
      (looked_up note resolver.ancestor_tracker)
      (overwrite (codes "mine and theirs"))
      (resolve one_file as_it_is joins note note (codes "mine") true resolver)
unfolding init remember record_snapshot byte_length run Calls.step JsMap.get JsMap.set str_discrete
    ℕ_discrete
resolve-Outcome_example =
    resolve-Outcome one_file as_it_is joins one_file-ReadsKeep note note (codes "mine") true
      resolver
