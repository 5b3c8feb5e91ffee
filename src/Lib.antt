-- ===== src/Lib.antt =====
-- obsidian-remote-ssh is an Obsidian plugin that edits a vault on a remote host over SSH. This
-- library models parts of the plugin in plugin/src and proves what makes them correct.
--
-- Conflict: plugin/src/conflict. `Conflict.Diff` is `diffLines` of DiffEngine.ts, with the table of
--   longest common subsequences as a list of rows, the backtrack and `mergeAdjacent`. `Lcs` is the
--   independent notion of a longest common subsequence, `Table` says that the loops fill the table
--   with it, `Script` what the backtrack pushes, and `Chunks` and `Runs` hold the theorems.
--   `Conflict.AncestorTracker` is AncestorTracker.ts, with the module's tick counter in the state;
--   `Calls` runs any sequence of calls. `Conflict.Resolver` is ConflictResolver.ts over any remote
--   file system, encoding and answers of the user: a function for each part of `resolve` between two
--   awaits. It reads the tracker and stores what it re-read in the read cache. `Intent` is a table of
--   what the answers ask for, without state, and `Writes` compares `resolve` with it.
-- Cache: plugin/src/cache. `Cache.ReadCache` is the class of ReadCache.ts, one function for each
--   method; `Calls` runs any sequence of calls. `Cache.DirCache` is DirCache.ts, with the clock as
--   an argument of each call that reads it. `Cache` holds the test on prefixes that both share.
-- Offline: plugin/src/offline. `Offline.Queue` is OfflineQueue.ts: the state in memory, the text of
--   the log file, and each method with the outcomes of its calls of the file system as arguments.
--   `Offline.Replayer` is QueueReplayer.ts on any target. The adapter puts writes into the queue
--   while the connection is down; after a reconnect the replayer drains it.
-- Transport: plugin/src/transport. `Transport.Framing` is framing.ts at the level of bytes: the
--   writer, the parser with its buffer, and what it emits. `Decimal` and `Header` read the header
--   back, `Turn` and `Drain` follow the parser's loop, whose fuel is two more than the bytes in the
--   buffer: each turn but the first takes a header off. `Delivery` and `Rejection` hold the theorems.
--   `Transport.Reconnect` is Backoff.ts and ReconnectManager.ts: the loop of `run` is cut at its two
--   awaits, and an event is what ends one, or a call of `run` or `cancel`. `Loop` and `Cancel` hold
--   the theorems.
--   `Transport.Rpc` is RpcClient.ts on top of the framing. A handler and a promise are numbers, and
--   what settles or is called is a list of outputs; a `Turn` is a call of a method or what the stream
--   does. `Settle`, `Once`, `Turns` and `Life` follow a settlement, an event of the stream, a turn and a
--   whole life.
--   `Transport.Heartbeat` is RpcHeartbeat.ts: a machine that waits for a timer or for the end of a
--   probe, with the timers that are set in the state.
-- Mapping: plugin/src/path. `Mapping.PathMapper` is the class of PathMapper.ts, and
--   `Mapping.WatchEvents` is WatchEventFilter.ts, which asks it for the path in the vault. `Prefix`
--   is about the patterns and the config dir, `Parent` and `Crossing` about the directories of private
--   files, and `Laws` and `Listing` hold the theorems.
-- Vault: plugin/src/vault. `Vault.TreeSnapshot` is TreeSnapshot.ts: the text of the file, what is read
--   from any text, and the entries that are collected from Obsidian's model. `Vault.BulkWalker` is
--   BulkWalker.ts: the pages of the daemon's `fs.walk`, the listing folder by folder, and the rules
--   for what may appear in the model. `Vault.ModelBuilder` is `build` of VaultModelBuilder.ts on a
--   heap of objects: it takes the entries of a walk or of a snapshot, and the constructors of
--   Obsidian's classes are taken not to throw. The loop over pages counts down to the page guard; the
--   loop over folders takes fuel, and `Fallback` says how much is enough.
-- Util: plugin/src/util. `Util.PathUtils` is pathUtils.ts, but for what stands on Node's `path`.
-- JsMap, Json, Prelude: the JavaScript that the code stands on. A `Map` is an association list in
--   the order of insertion, a string a list of UTF-16 code units, a buffer a list of bytes.
-- Tests: runs at concrete inputs.
--
-- `JSON.stringify` and `JSON.parse` are the fields of `JsonText`, with what the code relies on: a
-- value is read back from its text, and the text is one line without white space around it.
-- `Tests.TokenText` is a format that meets this. A JSON number is a natural number here: negative
-- and fractional numbers, which JSON has too, are not represented. The other loops are recursion on lists and on the
-- two indices of the table. Numbers are unbounded: sizes, times and ids stay far
-- below the 53 bits of a JavaScript number. Where the code subtracts from a count of bytes the model
-- stops at 0; `OfflineQueue` does so too, and in `ReadCache` and `AncestorTracker` the count is
-- never smaller. The ages that the heartbeat reads never run backwards: a clock that is set back is
-- taken for one that stands still.
--
-- Each method of the queue runs to its end before the next begins, as its comment on a single owner
-- asks. An append to the log that fails writes nothing; what an append that is cut off leaves is the
-- matter of `Offline.Queue.Torn`. A client's `msSinceLastByte` is the framing's, and its backlog is the stream's. Not
-- modelled: log messages, the adapter, the rest of the transport, the live updates of the model, the
-- connection's life cycle, the user interface, the daemon and all that calls Obsidian, ssh2 or Node.
pub mod Prelude
pub mod JsMap
pub mod Json
pub mod Conflict
pub mod Cache
pub mod Offline
pub mod Transport
pub mod Mapping
pub mod Vault
pub mod Util
pub mod Tests
