-- ===== src/Tests.antt =====
-- Tests, and each theorem with hypotheses at an input that meets them.
mod TokenText
mod Conflict
mod Ancestors
mod Cache
mod Offline
mod Transport
mod Mapping
mod Vault
mod Walk
mod Build
mod Util
