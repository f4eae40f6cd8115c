-- ===== src/Node.antt =====
-- crates/node: the node's own logic around the consensus engine and the network, and the benchmark's
-- client.
pub mod Genesis
pub mod Init
pub mod GenesisReadings
pub mod Validator
pub mod Gossip
pub mod Sync
pub mod Start
pub mod Documents
pub mod Run
pub mod Opened
pub mod RunBounds
pub mod Supervisor
pub mod BenchRun
pub mod StartBounds
pub mod Client
pub mod Bench
pub mod Cluster
pub mod GossipKeeps
pub mod SyncBounds
pub mod Identity
pub mod Polls
pub mod RoundTrip
pub mod Restart
