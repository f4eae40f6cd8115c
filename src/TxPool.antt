-- ===== src/TxPool.antt =====
-- The crate crates/txpool: the transaction pool with (sender, nonce) indexing.
pub mod Pool
pub mod Submit
pub mod Payload
pub mod Commit
pub mod Tally
pub mod Promotion
pub mod Index
pub mod SubmitKeeps
pub mod CommitKeeps
pub mod PayloadKeeps
pub mod Reach
pub mod Picks
pub mod Progress
pub mod Priority
pub mod Opening
pub mod PayloadLimits
pub mod Errors
pub mod Contents
