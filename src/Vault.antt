-- ===== src/Vault.antt =====
-- plugin/src/vault: the model of the vault and the copy of the remote tree it starts from.
pub mod TreeSnapshot
pub mod BulkWalker
pub mod ModelBuilder
