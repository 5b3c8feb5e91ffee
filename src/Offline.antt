-- ===== src/Offline.antt =====
-- plugin/src/offline: the queue of pending writes and its replay.
pub mod Queue
pub mod Replayer
