-- ===== src/Rpc/Queries.antt =====
-- crates/rpc/src/lib.rs: what the server asks the executor.
use nbnet.Prelude.{ℕ, List, [], ◌++◌, length, ◌==◌, if◌then◌else◌}
use nbnet.Std.Bytes.{to_be_bytes, from_be_bytes}
use nbnet.State.External.{Vsdb, Revm}
use nbnet.Execution.Executor.{EvmExecutor, query}

-- A number of the given width, and 0 for an answer of any other.
unfoldable pub sized : ℕ → List ℕ → ℕ
sized n bytes = if length bytes == n then from_be_bytes bytes else 0

module _ {E : Type 0} ⦃v : Vsdb⦄ ⦃r : Revm⦄ where
  unfoldable pub query_balance : EvmExecutor E v r → ℕ → ℕ
  query_balance x addr = sized 32 (query x "eth_getBalance" (to_be_bytes 20 addr)).payload

  unfoldable pub query_nonce : EvmExecutor E v r → ℕ → ℕ
  query_nonce x addr = sized 8 (query x "eth_getTransactionCount" (to_be_bytes 20 addr)).payload

  unfoldable pub query_block_number : EvmExecutor E v r → ℕ
  query_block_number x = sized 8 (query x "eth_blockNumber" []).payload

  unfoldable pub query_code : EvmExecutor E v r → ℕ → List ℕ
  query_code x addr = (query x "eth_getCode" (to_be_bytes 20 addr)).payload

  unfoldable pub query_storage : EvmExecutor E v r → ℕ → ℕ → ℕ
  query_storage x addr slot =
      sized 32 (query x "eth_getStorageAt" (to_be_bytes 20 addr ++ to_be_bytes 32 slot)).payload
