-- ===== src/Anchor/Handle.antt =====
-- `AnchorHandle`: the connection to the ledger, its cache and the tasks that keep the cache current.
pub mod State
pub mod Signing
pub mod Requests
pub mod Agreement
pub mod Fetch
pub mod Sync
pub mod Open
pub mod Validators
pub mod Calls
pub mod Holds
pub mod NoGap
pub mod Prompt
pub mod Unready
