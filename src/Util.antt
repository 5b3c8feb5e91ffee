-- ===== src/Util.antt =====
-- plugin/src/util: the paths of the remote host.
pub mod PathUtils
