-- ===== src/Tests/ExecutorRuns.antt =====
-- Runs of crates/execution/src/executor.rs at concrete inputs.
use nbnet.Prelude.{ℕ, ◌^◌, ◌<◌, some, none, List, [], ◌∷◌, arith, length, nat_eq, list_eq}
use nbnet.Std.HashMap
use nbnet.Types.Receipt.{EvmReceipt}
use nbnet.Types.Tx.{decode_and_recover}
use nbnet.State.Evm
use nbnet.Execution.External.{BlockContext}
use nbnet.Execution.Block.{run_block, decode_all}
use nbnet.Execution.Receipts.{IsProgress, run_block-IsProgress}
use nbnet.Execution.Executor.{
  EvmExecutor, from_genesis, execute_block, submit_raw_tx, setup_nonce_fn, create_payload,
}
use nbnet.Execution.History.{IsExecutor, Step, Reach, history-IsExecutor}
use nbnet.Tests.World.{Envelope, mini_tx, mini_vsdb, mini_revm, mini_host, mini_vm, mini_bounded}
use nbnet.Tests.PoolRuns.{raw_b0, visit, fresh}
use nbnet.Tests.StateRuns.{genesis, warm}

-- The executor at the genesis, and one whose first account is cached.
abbrev pub born : EvmExecutor Envelope mini_vsdb mini_revm
born = from_genesis genesis

abbrev pub live : EvmExecutor Envelope mini_vsdb mini_revm
live = record {
  state = warm;
  txpool = fresh;
  receipts = [];
  block_height = 0;
  staking = record { delegations = [] };
}

-- Sender 1 with nonce 4, undecodable bytes, and sender 2.
abbrev pub block : List (List ℕ)
block = (1 ∷ 4 ∷ 21 ∷ 200 ∷ 30 ∷ 9 ∷ 5 ∷ []) ∷ (3 ∷ []) ∷ raw_b0 ∷ []

abbrev pub context : BlockContext
context = record { height = 1; proposer = 6; timestamp = 1000 }

run_block-IsProgress_example :
    IsProgress live.state.config context
      (decode_all {E = Envelope} block)
      (length (decode_all {E = Envelope} block))
      (run_block Envelope live.state live.staking block context)
run_block-IsProgress_example =
    run_block-IsProgress mini_bounded live.state live.staking block context (omega arith)

-- Submission, a block, and the next payload.
abbrev wired : EvmExecutor Envelope mini_vsdb mini_revm
wired = setup_nonce_fn born

abbrev submitted : EvmExecutor Envelope mini_vsdb mini_revm
submitted = (submit_raw_tx wired raw_b0).1

abbrev executed : EvmExecutor Envelope mini_vsdb mini_revm
executed = (execute_block submitted block context).1

path : Reach born (create_payload visit executed).1
unfolding decode_and_recover
path =
    Reach.next
      (Reach.next
        (Reach.next (Reach.next Reach.here (Step.wires born))
          (Step.submits wired raw_b0 (λ t e. ground (arith, e))))
        (Step.executes submitted block context))
      (Step.creates executed visit)

history-IsExecutor_example : IsExecutor born.state.config (create_payload visit executed).1
history-IsExecutor_example = history-IsExecutor mini_bounded genesis (omega arith) path

-- One stored receipt.
abbrev pub stored : EvmReceipt
stored = record {
  tx_hash = 8;
  tx_index = 0;
  block_hash = 0;
  block_number = 1;
  from = 1;
  to = some 2;
  cumulative_gas_used = 21_000;
  gas_used = 21_000;
  contract_address = none;
  logs = [];
  logs_bloom = [];
  status = 1;
  effective_gas_price = 100;
}

pub balance_fits : Evm.get_balance warm 1 < 256 ^ 32
unfolding Evm.get_balance Evm.cached HashMap.get
balance_fits = omega arith

pub nonce_fits : Evm.get_nonce warm 1 < 256 ^ 8
unfolding Evm.get_nonce Evm.cached HashMap.get
nonce_fits = omega arith

pub slot_fits : Evm.get_storage warm 1 2 < 256 ^ 32
unfolding Evm.get_storage Evm.cached HashMap.get
slot_fits = omega arith
