-- ===== src/Execution/Block.antt =====
-- `execute_block` of crates/execution/src/executor.rs: the loop over the transactions of a block. The
-- state and the staking ledger, each behind a mutex, are passed along.
use nbnet.Prelude.{
  ℕ, suc, Bool, not, Option, none, some, List, [], ◌∷◌, ◌++◌, map, min, ltb, ◌==◌, if◌then◌else◌,
  unwrap_or, replicate, ok, err,
}
use nbnet.Std.Words.{u64_max, u128_max, saturating_add, saturating_sub}
use nbnet.Std.Bytes.{to_be_bytes, from_be_bytes}
use nbnet.Types.Config.{EvmChainConfig}
use nbnet.Types.Receipt.{EvmLog, EvmReceipt}
use nbnet.Types.Tx.{TxEnvelope, VerifiedTx, decode_and_recover}
use nbnet.State.External.{Vsdb, Revm}
use nbnet.State.Evm
use nbnet.State.Evm.{EvmState}
use nbnet.Precompile.External.{Host}
use nbnet.Precompile.Staking.{StakingState}
use nbnet.Precompile.Provider
use nbnet.Execution.External.{
  BlockContext, TxKind, TxEnv, BlockEnv, Log, ExecutionResult, success, revert, halt, gas_used_of,
  Interpreter,
}

-- The proposer's number in the last eight bytes of an address.
unfoldable pub coinbase : BlockContext → ℕ
coinbase ctx = from_be_bytes (replicate 12 0 ++ to_be_bytes 8 ctx.proposer)

abbrev pub kind_of : Option ℕ → TxKind
kind_of (some to) = TxKind.call to
kind_of none = TxKind.create

-- Whether the execution succeeded, and its logs.
abbrev pub status_and_logs : ExecutionResult → Bool × List Log
status_and_logs (success g logs output) = (Bool.true, logs)
status_and_logs (revert g logs output) = (Bool.false, logs)
status_and_logs (halt g reason) = (Bool.false, [])

abbrev pub evm_log : Log → EvmLog
evm_log log = record { address = log.address; topics = log.topics; payload = log.payload }

module _ {E : Type 0} ⦃tx : TxEnvelope E⦄ where
  -- Undecodable transactions are skipped.
  unfoldable pub decode_all : List (List ℕ) → List (VerifiedTx E)
  decode_all [] = []
  decode_all (raw ∷ txs) =
      let rest = decode_all txs in elim (decode_and_recover raw) [ ok v ↦ v ∷ rest | err e ↦ rest ]

  unfoldable pub effective_gas_price : EvmChainConfig → E → ℕ
  effective_gas_price config e =
      let base = config.base_fee_per_gas in
      let tip =
        min (saturating_sub (tx.max_fee_per_gas e) base)
          (unwrap_or (tx.max_priority_fee_per_gas e) 0) in
      saturating_add u128_max base tip

  unfoldable pub tx_env : VerifiedTx E → TxEnv
  tx_env vtx =
      let e = vtx.envelope in
      record {
        tx_type = tx.tx_type e;
        caller = vtx.sender;
        gas_limit = tx.gas_limit e;
        gas_price = tx.max_fee_per_gas e;
        gas_priority_fee = tx.max_priority_fee_per_gas e;
        kind = kind_of (tx.to e);
        value = tx.value e;
        input = tx.input e;
        nonce = tx.nonce e;
        chain_id = tx.chain_id e;
      }

unfoldable pub block_env : EvmChainConfig → BlockContext → BlockEnv
block_env config ctx = record {
  number = ctx.height;
  beneficiary = coinbase ctx;
  timestamp = ctx.timestamp;
  gas_limit = config.block_gas_limit;
  basefee = config.base_fee_per_gas;
}

-- What the loop carries.
pub record Progress (v : Vsdb) (r : Revm) : Type 0 where
  pub state : EvmState v r
  pub staking : StakingState
  pub cumulative_gas_used : ℕ
  pub block_receipts : List EvmReceipt

module _ ⦃v : Vsdb⦄ ⦃r : Revm⦄ where
  -- The state in which the first transaction runs: the parent's hash, always zero here, is recorded.
  unfoldable pub with_parent_hash : EvmState v r → BlockContext → EvmState v r
  with_parent_hash state ctx =
      if ltb 0 ctx.height
      then Evm.record_block_hash state (saturating_sub ctx.height 1) 0
      else state

  unfoldable pub start : EvmState v r → StakingState → BlockContext → Progress v r
  start state staking ctx = record {
    state = with_parent_hash state ctx;
    staking = staking;
    cumulative_gas_used = 0;
    block_receipts = [];
  }

module _ {E : Type 0} ⦃tx : TxEnvelope E⦄ ⦃v : Vsdb⦄ ⦃r : Revm⦄ ⦃h : Host⦄
    ⦃vm : Interpreter v r h⦄ where
  unfoldable pub receipt :
      EvmChainConfig
      → BlockContext
      → (tx_idx : ℕ) → VerifiedTx E
      → (cumulative_gas_used : ℕ) → ExecutionResult
      → EvmReceipt
  receipt config ctx tx_idx vtx cumulative_gas_used result =
      let (success', logs) = status_and_logs result in
      let e = vtx.envelope in
      record {
        tx_hash = vtx.tx_hash;
        tx_index = tx_idx;
        block_hash = 0;
        block_number = ctx.height;
        from = vtx.sender;
        to = tx.to e;
        cumulative_gas_used = cumulative_gas_used;
        gas_used = gas_used_of result;
        contract_address = elim (tx.to e) [
          | none ↦ some (vm.create_address vtx.sender (tx.nonce e))
          | some to ↦ none
        ];
        logs = map evm_log logs;
        logs_bloom = replicate 256 0;
        status = if success' then 1 else 0;
        effective_gas_price = effective_gas_price config e;
      }

  -- The run of a transaction and its receipt; one that the interpreter rejects has none.
  unfoldable pub execute_tx :
      EvmChainConfig → BlockContext → (tx_idx : ℕ) → VerifiedTx E → Progress v r → Progress v r
  execute_tx config ctx tx_idx vtx p =
      let ran =
        vm.transact_commit config.chain_id (block_env config ctx) (tx_env vtx) p.state.db
          (Provider.new vm.cancun p.staking) in
      let state : EvmState v r = record (p.state) { db = ran.db } in
      elim ran.outcome [
        | err e ↦ record p { state = state; staking = ran.precompiles.staking }
        | ok result ↦
            let cumulative = saturating_add u64_max p.cumulative_gas_used (gas_used_of result) in
            record {
              state = state;
              staking = ran.precompiles.staking;
              cumulative_gas_used = cumulative;
              block_receipts =
                  p.block_receipts ++ receipt config ctx tx_idx vtx cumulative result ∷ [];
            }
      ]

  -- One round of the loop; `none` is its `break`.
  unfoldable pub round :
      EvmChainConfig
      → BlockContext
      → (tx_idx : ℕ) → VerifiedTx E
      → Progress v r
      → Option (Progress v r)
  round config ctx tx_idx vtx p =
      let e = vtx.envelope in
      let gas = saturating_add u64_max p.cumulative_gas_used (tx.gas_limit e) in
      if not (tx.nonce e == Evm.get_nonce p.state vtx.sender)
      then some p
      else if ltb config.block_gas_limit gas
      then none
      else some (execute_tx config ctx tx_idx vtx p)

  unfoldable pub execute_txs :
      EvmChainConfig
      → BlockContext
      → (tx_idx : ℕ) → List (VerifiedTx E)
      → Progress v r
      → Progress v r
  execute_txs config ctx tx_idx [] p = p
  execute_txs config ctx tx_idx (vtx ∷ rest) p = elim (round config ctx tx_idx vtx p) [
    | none ↦ p
    | some q ↦ execute_txs config ctx (suc tx_idx) rest q
  ]

module _ (E : Type 0) ⦃tx : TxEnvelope E⦄ ⦃v : Vsdb⦄ ⦃r : Revm⦄ ⦃h : Host⦄
    ⦃vm : Interpreter v r h⦄ where
  -- The loop over a whole block.
  unfoldable pub run_block :
      EvmState v r → StakingState → List (List ℕ) → BlockContext → Progress v r
  run_block state staking txs ctx =
      execute_txs state.config ctx 0 (decode_all {E = E} txs) (start state staking ctx)
