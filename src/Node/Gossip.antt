-- ===== src/Node/Gossip.antt =====
-- The mempool gossip of crates/node/src/main.rs: transactions that peers send. The pool is the
-- executor's own, whose nonces are looked up in the present state.
use nbnet.Prelude.{List, [], ◌∷◌, ℕ}
use nbnet.Types.Tx.{TxEnvelope}
use nbnet.State.External.{Vsdb, Revm}
use nbnet.Execution.External.{reject, accept_with_gas}
use nbnet.Execution.Executor.{EvmExecutor, validate_tx, add_tx, live_pool}

module _ {E : Type 0} ⦃tx : TxEnvelope E⦄ ⦃v : Vsdb⦄ ⦃r : Revm⦄ where
  -- One round of `while let Some(tx_bytes) = mempool_tx_rx.recv().await`; what `add_tx` answers is
  -- dropped.
  unfoldable pub receive_tx : EvmExecutor E v r → List ℕ → EvmExecutor E v r
  receive_tx x tx_bytes = elim (validate_tx x tx_bytes) [
    | reject ↦ x
    | accept_with_gas priority gas_wanted ↦ record x { txpool = (add_tx (live_pool x) tx_bytes).1 }
  ]

  unfoldable pub gossip : EvmExecutor E v r → List (List ℕ) → EvmExecutor E v r
  gossip x [] = x
  gossip x (tx_bytes ∷ rest) = gossip (receive_tx x tx_bytes) rest
