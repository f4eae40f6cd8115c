-- ===== src/Precompile.antt =====
-- crates/precompile: the staking ledger and the two native precompiles.
pub mod External
pub mod Staking
pub mod Stakes
pub mod Provider
pub mod Solvency
pub mod Dispatch
pub mod Outcomes
pub mod Own
