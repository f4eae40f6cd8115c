-- ===== src/Execution.antt =====
-- crates/execution: the executor of blocks.
pub mod External
pub mod Block
pub mod Executor
pub mod Receipts
pub mod Loop
pub mod Spent
pub mod Proposal
pub mod Lookup
pub mod Admission
pub mod Unchanged
pub mod CallEffects
pub mod History
pub mod Price
