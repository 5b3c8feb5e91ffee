-- ===== src/Conflict.antt =====
-- plugin/src/conflict: the line diff, the texts that were last read, and the resolver.
pub mod Diff
pub mod AncestorTracker
pub mod Resolver
