-- ===== src/Cache/ReadCache/Calls.antt =====
-- The calls that change the cache of plugin/src/cache/ReadCache.ts, in sequence.
use obsidian_remote_ssh.Prelude.{ℕ, List, [], ◌∷◌, Str}
use obsidian_remote_ssh.Cache.ReadCache
use obsidian_remote_ssh.Cache.ReadCache.{ReadCache}

-- A call of a method that changes the cache.
pub data Call : Type 0 where
  get : Str → Call
  put : Str → List ℕ → ℕ → Call
  invalidate invalidate_prefix : Str → Call
  clear : Call

unfoldable pub step : Call → ReadCache → ReadCache
step (Call.get path) c = (ReadCache.get c path).0
step (Call.put path content mtime) c = ReadCache.put c path content mtime
step (Call.invalidate path) c = ReadCache.invalidate c path
step (Call.invalidate_prefix prefix) c = (ReadCache.invalidate_prefix c prefix).0
step Call.clear c = ReadCache.clear c

unfoldable pub run : List Call → ReadCache → ReadCache
unfolding step
run [] c = c
run (call ∷ calls) c = run calls (step call c)
