-- ===== src/Rpc.antt =====
-- crates/rpc: the JSON-RPC server.
pub mod External
pub mod Json
pub mod Queries
pub mod Logs
pub mod Message
pub mod Read
pub mod Server
pub mod Wire
pub mod Conformance
pub mod Safety
pub mod LogFilter
pub mod Readings
pub mod Receipts
