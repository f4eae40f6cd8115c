-- ===== src/Tests/NodeRuns.antt =====
-- Runs of crates/node and of the texts of crates/types at concrete inputs.

use nbnet.Prelude.{
  ℕ, ◌^◌, ◌<◌, ◌≡◌, ◌⊎◌, refl, true, some, none, List, [], ◌∷◌, arith, ok, list_beq, Bool, false,
  ◌==◌, if◌then◌else◌,
}
use nbnet.Std.HashMap
use nbnet.Types.Tx.{VerifiedTx, decode_and_recover}
use nbnet.State.Evm
use nbnet.Execution.Executor.{submit_raw_tx}
use nbnet.Execution.Admission.{IsAcceptableNow}
use nbnet.Node.Gossip.{receive_tx}
use nbnet.Node.GossipKeeps.{IsProper, NoneAcceptable, receive_tx-acceptable}
use nbnet.Node.Validator.{GenesisValidator, identify, fullnode, find_validator}
use nbnet.Node.Identity.{IsIdentity, identify-IsIdentity}
use nbnet.Node.Sync.{Store}
use nbnet.Node.Start.{Consensus, ConsensusState, Persisted, EngineState, start_state}
use nbnet.Node.StartBounds.{IsReady, start_state-IsReady}
use nbnet.Node.Client.{rpc_get_nonce}
use nbnet.Node.RoundTrip.{served_by, rpc_get_nonce-served_by}
use nbnet.Tests.World.{Envelope, mini_tx, mini_vsdb, mini_revm, mini_host, mini_vm}
use nbnet.Tests.PoolRuns.{raw_a0}
use nbnet.Tests.StateRuns.{warm}
use nbnet.Tests.ExecutorRuns.{live}
use nbnet.Tests.JsonWorld.{Json, mini_json, mini_codec}
use nbnet.Tests.RpcRuns.{server}

nonce_small : Evm.get_nonce warm 1 < 2 ^ 64
unfolding Evm.get_nonce Evm.cached HashMap.get
nonce_small = omega arith

rpc_get_nonce-served_by_example :
    rpc_get_nonce (served_by Json server) 1 ≡ some (Evm.get_nonce warm 1)
rpc_get_nonce-served_by_example = rpc_get_nonce-served_by Json server 1 (omega arith) nonce_small

proper : IsProper live raw_a0
unfolding decode_and_recover
proper t e = (ground (arith, e), ground (arith, e))

receive_tx-acceptable_example :
    NoneAcceptable live raw_a0 × (receive_tx live raw_a0 ≡ live)
    ⊎ (t : VerifiedTx Envelope) × (decode_and_recover raw_a0 ≡ ok t)
      × IsAcceptableNow live t
      × (receive_tx live raw_a0 ≡ (submit_raw_tx live raw_a0).1)
receive_tx-acceptable_example = receive_tx-acceptable live raw_a0 proper

-- Consensus with numbers for everything, and a store of one block at height 5 in view 9.
abbrev pub numbers : Consensus
numbers = record {
  Qc = ℕ;
  Epoch = ℕ;
  PendingEpoch = ℕ;
  ValidatorSet = ℕ;
  validator_set = λ e. e;
  number = λ e. e;
}

abbrev blocks : Store
blocks = record {
  Block = ℕ;
  Qc = ℕ;
  Snapshot = ℕ;
  State = ℕ;
  max_sync_batch = 100;
  height = λ b. b;
  view = λ b. 9;
  get_blocks_in_range = λ s from to. [];
  get_commit_qc = λ s height. none;
  get_block_by_height = λ s height. if height == 5 then some 5 else none;
  list_snapshots = λ s. [];
  load_snapshot_chunk = λ s height chunk. [];
}

abbrev pub first_state : ConsensusState numbers
first_state = record {
  current_view = 1;
  locked_qc = none;
  highest_qc = none;
  last_committed_height = 0;
  last_app_hash = 0;
  validator_set = 0;
  current_epoch = 0;
}

abbrev pub persisted : Persisted numbers
persisted = record {
  current_view = some 4;
  locked_qc = none;
  highest_qc = some 3;
  last_committed_height = some 2;
  current_epoch = some 1;
}

-- The first peer fails, the second one brings the node to height 5.
abbrev syncs : ℕ → EngineState numbers → Bool × EngineState numbers
syncs peer e = if peer == 0 then (false, e) else (true, record e { height = 5 })

start_state-IsReady_example :
    IsReady 4 (start_state {c = numbers} blocks 0 syncs true (0 ∷ 1 ∷ []) persisted first_state)
start_state-IsReady_example =
    start_state-IsReady blocks 0 syncs true (0 ∷ 1 ∷ []) persisted first_state refl
      (λ height b e. omega arith)

abbrev pub validators : List GenesisValidator
validators = record { id = 0; public_key = 10 ∷ [] } ∷ record { id = 1; public_key = 20 ∷ [] } ∷ []

identified :
    identify validators (0 ∷ 1 ∷ []) (20 ∷ []) fullnode
    ≡ some (record { our_vid = 1; is_fullnode = true })
unfolding identify find_validator list_beq
identified = refl

identify-IsIdentity_example :
    IsIdentity validators
      (0 ∷ 1 ∷ [])
      (20 ∷ [])
      fullnode
      (record { our_vid = 1; is_fullnode = true })
identify-IsIdentity_example =
    identify-IsIdentity validators (0 ∷ 1 ∷ []) (20 ∷ []) fullnode _ identified
