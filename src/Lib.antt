-- ===== src/Lib.antt =====
-- nbnet: an EVM chain in Rust, from the raw transaction to the state after a block, with the JSON-RPC
-- server in front and the node around it.
--
-- A raw transaction comes in over JSON-RPC (crates/rpc/src/lib.rs) or from a peer
-- (crates/node/src/main.rs). It is decoded and checked (crates/types/src/tx.rs), waits in the pool under
-- its sender and nonce (crates/txpool/src/lib.rs), is collected into a payload, and is executed in a
-- block (crates/execution/src/executor.rs) on a cached state over a key-value database
-- (crates/state/src/state.rs). Contracts reach the native balances and the staking ledger through two
-- precompiles (crates/precompile/src/lib.rs). After a block the pool drops what was committed. The
-- server reads balances, receipts and logs from the executor, and hands accepted transactions to the
-- network. A benchmark (crates/node/src/bench.rs) is a client of the server.
--
-- Which file models what:
-- In Types/: configuration, genesis document, receipts; `decode_and_recover`, `validate_tx`,
-- `effective_gas_tip` in Types/Tx, the texts of its errors in Types/Tx/Display. alloy's envelope is the
-- interface `TxEnvelope`. Types/Hex has the hexadecimal texts of the genesis document and of a bloom
-- filter.
-- In TxPool/: the state in Pool, `submit_tx` in Submit, `collect_payload` in Payload, `on_commit` in
-- Commit. The other files are about them: Index says what a well-formed pool is, Reach has the
-- histories, PayloadLimits and Progress the payload, Errors the outcomes, Contents what is held under a
-- sender and nonce, Priority and Opening the way from a submission to a payload.
-- In State/: `VsdbStateDb` in Db, `EvmState` in Evm; vsdb and revm in External.
-- In Precompile/: `StakingState` in Staking, `HotmintPrecompiles` in Provider; the journal, the gas meter
-- and the standard precompiles in External.
-- In Execution/: the loop of `execute_block` in Block, all other operations in Executor; the interpreter
-- and the consensus types in External. Spent relates a block to the pool
-- after its commit, Proposal a submission to the next payload.
-- In Rpc/: serde_json, hex and ruint as interfaces in External; the parsing of parameters and the JSON of
-- values in Json, the executor's queries in Queries, requests, responses and errors in Message, the
-- methods that only read in Read, `eth_getLogs` in Logs, all others and `dispatch` in Server, the
-- response as a client gets it in Wire. The other files are about them.
-- In Node/: crates/node/src/main.rs in Init, Documents, Run, Validator, Gossip, Sync, Start and
-- Supervisor, crates/node/src/bench.rs in Client, Bench and BenchRun, the genesis documents of both in
-- Genesis, and crates/node/src/cluster.rs in Cluster. hotmint, hotmint_mgmt and the processes are the
-- interfaces `Hotmint`, `Mgmt` and `Machine`. The other files are about them.
-- In Std/: machine words, byte strings, hexadecimal and decimal texts, `HashMap` and `BTreeMap`, and the
-- file system as an interface, with the actions that can fail or panic in it. Tests/: instances of all
-- interfaces, and the theorems at concrete inputs.
--
-- How the code is rendered: operations behind a mutex are functions from state to state; words, hashes
-- and addresses are numbers, with wrap-around and saturation written out; byte strings and texts are
-- lists of bytes; an error message is a constructor, and its text a function of it. A request returns
-- the response with the executor that it leaves and the transactions that it sends to the peers. The
-- order in which a hash map is traversed is an argument where the source depends on it. Recursion is
-- structural but for the promotion of queued transactions, whose fuel is the number of queued ones:
-- each round removes one. A printed number is given as many digits as its type can need, 16 hexadecimal
-- ones for a u64. A loop that waits sees the answers of its polls before the deadline as a list. The
-- nonce lookup of the pool reads the state at the time of each call.
--
-- Not modelled: sockets, the parsing of the command line, the interleaving of a node's tasks and the times
-- that the benchmark measures, which are input and output around the rest, and logging, which changes no
-- state. Signatures, RLP, the trie's hash, the interpreter, consensus and block sync belong to other
-- crates and are parameters.
pub mod Prelude
pub mod Std
pub mod Types
pub mod TxPool
pub mod State
pub mod Precompile
pub mod Execution
pub mod Rpc
pub mod Node
pub mod Tests
