-- ===== src/Transport.antt =====
-- plugin/src/transport: the framing of messages on the stream to the daemon, and the
-- reconnect loop, the calls to the daemon, and the heartbeat that watches it.
pub mod Framing
pub mod Reconnect
pub mod Rpc
pub mod Heartbeat
