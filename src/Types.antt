-- ===== src/Types.antt =====
-- The crate crates/types: transactions and their checks, the chain's configuration, the genesis
-- document and the receipts.
pub mod Tx
pub mod Config
pub mod Genesis
pub mod Receipt
pub mod Hex
