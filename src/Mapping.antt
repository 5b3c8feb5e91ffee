-- ===== src/Mapping.antt =====
-- plugin/src/path: the paths of the vault and of the remote host.
pub mod PathMapper
pub mod WatchEvents
