-- ===== src/Execution/Executor.antt =====
-- crates/execution/src/executor.rs: the executor, its operations and the wrappers around it. Every
-- mutex is held from start to end of an operation, so the state is passed along whole.
use Prim.Native.String.{String}
use text.Mathlib.Text
use nbnet.Prelude.{
  ℕ, ◌+◌, ◌*◌, Bool, ◌&&◌, Option, none, some, List, [], ◌∷◌, ◌++◌, length, get_elem?, take, drop,
  ◌==◌, if◌then◌else◌, unwrap_or, Result, ok, err, is_ok,
}
use nbnet.Std.Bytes.{to_be_bytes, from_be_bytes}
use nbnet.Types.Genesis.{EvmGenesis}
use nbnet.Types.Receipt.{EvmReceipt}
use nbnet.Types.Tx
use nbnet.Types.Tx.{TxEnvelope, decode_and_recover, effective_gas_tip}
use nbnet.TxPool.Pool
use nbnet.TxPool.Pool.{EvmTxPool, SenderQueue, default_pool_config}
use nbnet.TxPool.Submit.{SubmitError, submit_tx}
use nbnet.TxPool.Payload.{collect_payload}
use nbnet.TxPool.Commit
use nbnet.State.External.{Vsdb, Revm}
use nbnet.State.Evm
use nbnet.State.Evm.{EvmState}
use nbnet.Precompile.External.{Host}
use nbnet.Precompile.Staking
use nbnet.Precompile.Staking.{StakingState}
use nbnet.Precompile.Provider
use nbnet.Execution.External.{
  BlockContext, TxValidationResult, reject, accept_with_gas, EndBlockResponse, QueryResponse,
  Output, success, revert, halt, Interpreter,
}
use nbnet.Execution.Block.{kind_of, run_block}

pub record EvmExecutor (E : Type 0) (v : Vsdb) (r : Revm) : Type 0 where
  pub state : EvmState v r
  pub txpool : EvmTxPool E
  pub receipts : List (List EvmReceipt)
  pub block_height : ℕ
  pub staking : StakingState

-- The errors of `eth_call`.
pub data CallError : Type 0 where
  execution_reverted : (output : List ℕ) → CallError
  execution_halted : (reason : String) → CallError
  evm_error : String → CallError

abbrev pub output_bytes : Output → List ℕ
output_bytes (Output.call b) = b
output_bytes (Output.create b address) = b

-- `for r in block_receipts { if r.tx_hash == tx_hash … }`
unfoldable pub find_in_block : List EvmReceipt → ℕ → Option EvmReceipt
find_in_block [] hash = none
find_in_block (x ∷ xs) hash =
    let rest = find_in_block xs hash in if x.tx_hash == hash then some x else rest

-- The blocks from the last to the first.
unfoldable pub find_receipt : List (List EvmReceipt) → ℕ → Option EvmReceipt
find_receipt [] hash = none
find_receipt (block ∷ later) hash = elim (find_receipt later hash) [
  | some x ↦ some x
  | none ↦ find_in_block block hash
]

module _ {E : Type 0} ⦃v : Vsdb⦄ ⦃r : Revm⦄ where
  unfoldable pub from_genesis : EvmGenesis → EvmExecutor E v r
  from_genesis genesis =
      let state : EvmState v r = Evm.from_genesis genesis in
      record {
        state = state;
        txpool = Pool.new (record default_pool_config { base_fee = state.config.base_fee_per_gas });
        receipts = [];
        block_height = 0;
        staking = Staking.new;
      }

  unfoldable pub get_receipts : EvmExecutor E v r → ℕ → Option (List EvmReceipt)
  get_receipts x block_index = get_elem? x.receipts block_index

  unfoldable pub get_receipt_by_tx_hash : EvmExecutor E v r → ℕ → Option EvmReceipt
  get_receipt_by_tx_hash x hash = find_receipt x.receipts hash

  -- The closure of `setup_nonce_fn` reads the state at the time of the call.
  unfoldable pub setup_nonce_fn : EvmExecutor E v r → EvmExecutor E v r
  setup_nonce_fn x = record x {
    txpool = Pool.set_nonce_fn x.txpool (λ addr. Evm.get_nonce x.state addr);
  }

  -- So a wired pool looks nonces up in the present state.
  unfoldable pub live_pool : EvmExecutor E v r → EvmTxPool E
  live_pool x = elim x.txpool.inner.nonce_fn [
    | none ↦ x.txpool
    | some f ↦ Pool.set_nonce_fn x.txpool (λ addr. Evm.get_nonce x.state addr)
  ]

  unfoldable pub on_commit :
      (List (ℕ × SenderQueue E) → List (ℕ × SenderQueue E))
      → EvmExecutor E v r
      → BlockContext
      → EvmExecutor E v r
  on_commit visit x ctx = record x {
    block_height = ctx.height;
    txpool = Commit.on_commit visit x.txpool (λ addr. Evm.get_nonce x.state addr);
  }

  unfoldable pub answer : EvmExecutor E v r → String → List ℕ → List ℕ
  answer x path input =
      let n = length input in
      let addr = from_be_bytes (take 20 input) in
      if Text.◌==◌ path "eth_getBalance" && n == 20
      then to_be_bytes 32 (Evm.get_balance x.state addr)
      else if Text.◌==◌ path "eth_getTransactionCount" && n == 20
      then to_be_bytes 8 (Evm.get_nonce x.state addr)
      else if Text.◌==◌ path "eth_getCode" && n == 20
      then Evm.get_code x.state addr
      else if Text.◌==◌ path "eth_getStorageAt" && n == 52
      then to_be_bytes 32 (Evm.get_storage x.state addr (from_be_bytes (take 32 (drop 20 input))))
      else if Text.◌==◌ path "eth_blockNumber"
      then to_be_bytes 8 x.block_height
      else []

  unfoldable pub query : EvmExecutor E v r → String → List ℕ → QueryResponse
  query x path input = record {
    payload = answer x path input;
    proof = none;
    height = x.block_height;
  }

module _ {E : Type 0} ⦃tx : TxEnvelope E⦄ ⦃v : Vsdb⦄ ⦃r : Revm⦄ where
  -- 4 MB at most, and the block's gas.
  unfoldable pub create_payload :
      (List (ℕ × SenderQueue E) → List (ℕ × SenderQueue E))
      → EvmExecutor E v r
      → List ℕ × EvmExecutor E v r
  create_payload visit x =
      let (payload, pool) =
        collect_payload visit x.txpool (4 * 1024 * 1024) x.state.config.block_gas_limit in
      (payload, record x { txpool = pool })

  unfoldable pub submit_raw_tx :
      EvmExecutor E v r → List ℕ → Result ℕ SubmitError × EvmExecutor E v r
  submit_raw_tx x raw =
      let (outcome, pool) = submit_tx (live_pool x) raw in (outcome, record x { txpool = pool })

  unfoldable pub validate_tx : EvmExecutor E v r → List ℕ → TxValidationResult
  validate_tx x raw = elim (decode_and_recover {E = E} raw) [
    | err e ↦ reject
    | ok verified ↦
        let config = x.state.config in
        let valid =
          Tx.validate_tx verified config.chain_id (Evm.get_nonce x.state verified.sender)
            (Evm.get_balance x.state verified.sender) config.block_gas_limit
            config.base_fee_per_gas in
        elim valid [
          | err e ↦ reject
          | ok u ↦
              accept_with_gas (effective_gas_tip verified.envelope config.base_fee_per_gas)
                (tx.gas_limit verified.envelope)
        ]
  ]

  -- `EvmMempoolAdapter`: `add_tx` and `size`.
  unfoldable pub add_tx : EvmTxPool E → List ℕ → Bool × EvmTxPool E
  add_tx pool raw = let (outcome, pool') = submit_tx pool raw in (is_ok outcome, pool')

  unfoldable pub size : EvmTxPool E → ℕ
  size pool = Pool.pending_count pool + Pool.queued_count pool

module _ {E : Type 0} ⦃v : Vsdb⦄ ⦃r : Revm⦄ ⦃h : Host⦄ ⦃vm : Interpreter v r h⦄ where
  -- `eth_call`: changes of the interpreter are not committed, but the staking ledger is the shared one.
  unfoldable pub eth_call :
      EvmExecutor E v r
      → (from : ℕ) → (to : Option ℕ) → (input : List ℕ) → (value : ℕ) → (gas : Option ℕ)
      → Result (List ℕ) CallError × EvmExecutor E v r
  eth_call x from to input value gas =
      let config = x.state.config in
      let tx_env = record (vm.default_tx) {
        caller = from;
        gas_limit = unwrap_or gas config.block_gas_limit;
        gas_price = config.base_fee_per_gas;
        kind = kind_of to;
        value = value;
        input = input;
      } in
      let block = record (vm.default_block) {
        number = x.block_height;
        gas_limit = config.block_gas_limit;
        basefee = config.base_fee_per_gas;
      } in
      let ran =
        vm.transact_one config.chain_id block tx_env x.state.db
          (Provider.new vm.cancun x.staking) in
      let state : EvmState v r = record (x.state) { db = ran.db } in
      let after : EvmExecutor E v r = record x {
        state = state;
        staking = ran.precompiles.staking;
      } in
      elim ran.outcome [
        | err e ↦ (err (evm_error e), after)
        | ok (success g logs output) ↦ (ok (output_bytes output), after)
        | ok (revert g logs output) ↦ (err (execution_reverted output), after)
        | ok (halt g reason) ↦ (err (execution_halted reason), after)
      ]

module _ {E : Type 0} ⦃tx : TxEnvelope E⦄ ⦃v : Vsdb⦄ ⦃r : Revm⦄ ⦃h : Host⦄
    ⦃vm : Interpreter v r h⦄ where
  unfoldable pub execute_block :
      EvmExecutor E v r → List (List ℕ) → BlockContext → EndBlockResponse × EvmExecutor E v r
  execute_block x txs ctx =
      let p = run_block E x.state x.staking txs ctx in
      let (root, state) = Evm.state_root (Evm.flush_cache_to_vsdb p.state) in
      (
        record { app_hash = root },
        record x {
          state = state;
          staking = p.staking;
          receipts = x.receipts ++ p.block_receipts ∷ [];
        },
      )
