-- ===== src/Node/Start.antt =====
-- `run_node` of crates/node/src/main.rs: the consensus state that a node starts with, and what it
-- shares out. Blocks, epochs, certificates and `sync_to_tip` belong to the consensus crates.
use nbnet.Prelude.{
  ℕ, Bool, true, false, Option, none, some, List, [], ◌∷◌, unwrap_or, or_else, if◌then◌else◌, ltb,
}
use nbnet.Types.Genesis.{EvmGenesis}
use nbnet.State.External.{Vsdb, Revm}
use nbnet.Execution.Executor.{EvmExecutor, from_genesis, setup_nonce_fn}
use nbnet.Rpc.Message.{EvmRpcState}
use nbnet.Node.Sync.{Store, ConsensusStatus, view_after_sync}

-- The types that the state holds.
pub record Consensus : Type 1 where
  pub Qc : Type 0
  pub Epoch : Type 0
  pub PendingEpoch : Type 0
  pub ValidatorSet : Type 0
  pub validator_set : Epoch → ValidatorSet
  pub number : Epoch → ℕ

-- The waiting loop: whether one of the polls before the deadline sees a peer.
unfoldable pub wait_for_peer : List ℕ → Bool
wait_for_peer [] = false
wait_for_peer (count ∷ polls) = let rest = wait_for_peer polls in if ltb 0 count then true else rest

module _ (c : Consensus) where
  -- `ConsensusState`: the fields that the source reads or writes.
  pub record ConsensusState : Type 0 where
    pub current_view : ℕ
    pub locked_qc : Option c.Qc
    pub highest_qc : Option c.Qc
    pub last_committed_height : ℕ
    pub last_app_hash : ℕ
    pub validator_set : c.ValidatorSet
    pub current_epoch : c.Epoch

  -- `PersistentConsensusState`: what its `load_` functions answer.
  pub record Persisted : Type 0 where
    pub current_view : Option ℕ
    pub locked_qc : Option c.Qc
    pub highest_qc : Option c.Qc
    pub last_committed_height : Option ℕ
    pub current_epoch : Option c.Epoch

  -- The variables `engine_state_…`.
  pub record EngineState : Type 0 where
    pub epoch : c.Epoch
    pub height : ℕ
    pub app_hash : ℕ
    pub pending_epoch : Option c.PendingEpoch
    pub previous_epoch : Option c.Epoch

module _ {c : Consensus} where
  unfoldable pub restore : Persisted c → ConsensusState c → ConsensusState c × EngineState c
  restore pcs s =
      let height = unwrap_or pcs.last_committed_height s.last_committed_height in
      let epoch = unwrap_or pcs.current_epoch s.current_epoch in
      (
        record {
          current_view = unwrap_or pcs.current_view s.current_view;
          locked_qc = or_else pcs.locked_qc s.locked_qc;
          highest_qc = or_else pcs.highest_qc s.highest_qc;
          last_committed_height = height;
          last_app_hash = s.last_app_hash;
          validator_set = elim pcs.current_epoch [
            | none ↦ s.validator_set
            | some e ↦ c.validator_set e
          ];
          current_epoch = epoch;
        },
        record {
          epoch = epoch;
          height = height;
          app_hash = s.last_app_hash;
          pending_epoch = none;
          previous_epoch = none;
        },
      )

  -- What the watch channel is created with; nothing is ever sent into it.
  unfoldable pub initial_status : ConsensusState c → ConsensusStatus
  initial_status s = record {
    last_committed_height = s.last_committed_height;
    current_view = s.current_view;
    epoch_number = c.number s.current_epoch;
  }

  -- The loop over the peers. `sync_to_tip` changes the state also where it fails.
  unfoldable pub sync_with :
      {Peer : Type 0}
      → (Peer → EngineState c → Bool × EngineState c)
      → List Peer
      → EngineState c
      → Bool × EngineState c
  sync_with sync_to_tip [] e = (false, e)
  sync_with sync_to_tip (p ∷ peers) e =
      let after = sync_to_tip p e in
      let rest = sync_with sync_to_tip peers after.1 in if after.0 then (true, after.1) else rest

  -- "Apply synced state."
  unfoldable pub apply_synced :
      (k : Store) → k.State → EngineState c → ConsensusState c → ConsensusState c
  apply_synced k store e s = record s {
    current_epoch = e.epoch;
    validator_set = c.validator_set e.epoch;
    last_committed_height = e.height;
    last_app_hash = e.app_hash;
    current_view = view_after_sync k store e.height s.current_view;
  }

  -- From the persisted state to the one that consensus starts with. `connected` is whether a peer
  -- is connected when the waiting ends, and `store` what is stored then.
  unfoldable pub start_state :
      {Peer : Type 0}
      → (k : Store) → k.State
      → (Peer → EngineState c → Bool × EngineState c)
      → (connected : Bool) → List Peer
      → Persisted c
      → ConsensusState c
      → ConsensusState c
  start_state k store sync_to_tip connected [] pcs s = (restore pcs s).0
  start_state k store sync_to_tip connected (p ∷ peers) pcs s =
      let restored = restore pcs s in
      if connected
      then apply_synced k store (sync_with sync_to_tip (p ∷ peers) restored.1).1 restored.0
      else restored.0

module _ {E : Type 0} ⦃v : Vsdb⦄ ⦃r : Revm⦄ where
  -- The executor of a node, and what its server shares of it.
  unfoldable pub start_executor : EvmGenesis → EvmExecutor E v r
  start_executor genesis = setup_nonce_fn (from_genesis genesis)

  unfoldable pub start_rpc_state : EvmGenesis → EvmRpcState E v r
  start_rpc_state genesis = record {
    executor = start_executor genesis;
    chain_id = genesis.chain_id;
    network_sink = true;
  }
