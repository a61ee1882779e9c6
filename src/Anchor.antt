-- ===== src/Anchor.antt =====
-- von-network/server/anchor.py: the ledger browser's connection to an Indy ledger and its cache.
pub mod Ident
pub mod Seeds
pub mod Genesis
pub mod LedgerType
pub mod Config
pub mod Terms
pub mod Cache
pub mod Handle
