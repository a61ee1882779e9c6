-- ===== src/Scripts.antt =====
-- The scripts that talk to libindy: what they ask of it, the set-up of a steward, the load test with its
-- helpers, the synchronisation test and the two command-line scripts.
pub mod Calls
pub mod Program
pub mod Replies
pub mod Steward
pub mod Utils
pub mod Synctest
pub mod Storage
pub mod CredDef
pub mod Metadata
pub mod Tasks
pub mod Load
