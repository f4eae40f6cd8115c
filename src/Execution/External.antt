-- ===== src/Execution/External.antt =====
-- What crates/execution/src/executor.rs uses of revm and of the consensus crates: the environments,
-- the outcome of a transaction, and the interpreter as an interface.
use Prim.Native.String.{String}
use nbnet.Prelude.{ℕ, Option, List, Result}
use nbnet.State.External.{Vsdb, Revm}
use nbnet.State.Evm.{CacheDb}
use nbnet.Precompile.External.{Host}
use nbnet.Precompile.Provider.{HotmintPrecompiles}

-- hotmint's `BlockContext`: the fields that the source reads.
pub record BlockContext : Type 0 where
  pub height : ℕ
  pub proposer : ℕ
  pub timestamp : ℕ

-- hotmint's `TxValidationResult`, `EndBlockResponse` and `QueryResponse`.
pub data TxValidationResult : Type 0 where
  reject : TxValidationResult
  accept_with_gas : (priority gas_wanted : ℕ) → TxValidationResult

pub record EndBlockResponse : Type 0 where
  pub app_hash : List ℕ

pub record QueryResponse : Type 0 where
  pub payload : List ℕ
  pub proof : Option (List ℕ)
  pub height : ℕ

pub data TxKind : Type 0 where
  create : TxKind
  call : ℕ → TxKind

-- The fields of revm's `TxEnv` and `BlockEnv` that the source sets.
pub record TxEnv : Type 0 where
  pub tx_type : ℕ
  pub caller : ℕ
  pub gas_limit : ℕ
  pub gas_price : ℕ
  pub gas_priority_fee : Option ℕ
  pub kind : TxKind
  pub value : ℕ
  pub input : List ℕ
  pub nonce : ℕ
  pub chain_id : Option ℕ

pub record BlockEnv : Type 0 where
  pub number : ℕ
  pub beneficiary : ℕ
  pub timestamp : ℕ
  pub gas_limit : ℕ
  pub basefee : ℕ

pub record Log : Type 0 where
  pub address : ℕ
  pub topics : List ℕ
  pub payload : List ℕ

pub data Output : Type 0 where
  call : List ℕ → Output
  create : List ℕ → Option ℕ → Output

pub data ExecutionResult : Type 0 where
  success : (gas_used : ℕ) (logs : List Log) (output : Output) → ExecutionResult
  revert : (gas_used : ℕ) (logs : List Log) (output : List ℕ) → ExecutionResult
  halt : (gas_used : ℕ) (reason : String) → ExecutionResult

-- `ExecutionResult::gas_used`
abbrev pub gas_used_of : ExecutionResult → ℕ
gas_used_of (success g logs output) = g
gas_used_of (revert g logs output) = g
gas_used_of (halt g reason) = g

-- What a run of the interpreter returns and leaves.
pub record Ran (v : Vsdb) (r : Revm) (h : Host) : Type 0 where
  pub outcome : Result ExecutionResult String
  pub db : CacheDb v r
  pub precompiles : HotmintPrecompiles h

-- The interpreter: it gets the chain id, the block, the transaction, the database and the
-- precompiles. `default_tx` and `default_block` are what is left to revm, `create_address` is
-- `Address::create`.
pub record Interpreter (v : Vsdb) (r : Revm) (h : Host) : Type 0 where
  pub cancun : ℕ
  pub default_tx : TxEnv
  pub default_block : BlockEnv
  pub transact_commit :
      (chain_id : ℕ) → BlockEnv → TxEnv → CacheDb v r → HotmintPrecompiles h → Ran v r h
  pub transact_one :
      (chain_id : ℕ) → BlockEnv → TxEnv → CacheDb v r → HotmintPrecompiles h → Ran v r h
  pub create_address : (sender nonce : ℕ) → ℕ
