-- ===== src/State.antt =====
-- The crate crates/state: the persistent world state.
pub mod External
pub mod Db
pub mod Evm
pub mod Accounts
pub mod Persist
pub mod Alloc
pub mod Cache
