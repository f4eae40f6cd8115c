-- ===== src/Node/GossipKeeps.antt =====
-- The mempool gossip of crates/node/src/main.rs: what a peer's transactions can do.
use nbnet.Prelude.{
  ℕ, ◌<◌, ◌≡◌, refl, ◌⊎◌, inl, inr, List, [], ◌∷◌, ok, Result-cases, All, arith, subst, same_value,
}
use nbnet.Std.Words.{u64_max, u256_mod}
use nbnet.Types.Config.{EvmChainConfig}
use nbnet.Types.Tx
use nbnet.Types.Tx.{TxEnvelope, VerifiedTx, decode_and_recover}
use nbnet.Types.Tx.Validation.{true_cost, validate_tx-ok_iff}
use nbnet.State.External.{Vsdb, Revm}
use nbnet.State.Evm
use nbnet.Precompile.External.{Host}
use nbnet.Execution.External.{Interpreter, reject, accept_with_gas}
use nbnet.Execution.Receipts.{GasBounded}
use nbnet.Execution.Executor
use nbnet.Execution.Executor.{EvmExecutor, submit_raw_tx, add_tx}
use nbnet.Execution.Admission.{IsAcceptableNow}
use nbnet.Execution.History.{Step, Reach, IsExecutor, Reach-IsExecutor, LowNonce}
use nbnet.Node.Gossip.{receive_tx, gossip}

module _ {E : Type 0} ⦃tx : TxEnvelope E⦄ ⦃v : Vsdb⦄ ⦃r : Revm⦄ where
  -- The cost and the gas limit of a transaction that the bytes hold are in range.
  abbrev pub IsProper : EvmExecutor E v r → List ℕ → Type 0
  IsProper x raw =
      (t : VerifiedTx E)
      → decode_and_recover raw ≡ ok t
      → (true_cost t.envelope x.state.config.base_fee_per_gas < u256_mod)
        × (tx.gas_limit t.envelope < u64_max)

  -- The bytes hold no transaction that is acceptable in the sender's present state.
  abbrev pub NoneAcceptable : EvmExecutor E v r → List ℕ → Type 0
  NoneAcceptable x raw = (t : VerifiedTx E) → decode_and_recover raw ≡ ok t → ¬ IsAcceptableNow x t

  -- A transaction of a peer that is acceptable in the sender's present state is submitted to the
  -- pool, and any other bytes change nothing; where the cost of the transaction is below 2 ^ 256
  -- and its gas limit below the largest u64.
  pub receive_tx-acceptable :
      (x : EvmExecutor E v r) (raw : List ℕ)
      → IsProper x raw
      → NoneAcceptable x raw × (receive_tx x raw ≡ x)
        ⊎ (t : VerifiedTx E) × (decode_and_recover raw ≡ ok t)
          × IsAcceptableNow x t
          × (receive_tx x raw ≡ (submit_raw_tx x raw).1)
  unfolding receive_tx Executor.validate_tx submit_raw_tx add_tx
  receive_tx-acceptable x raw proper = elim (Result-cases (decode_and_recover {E = E} raw)) [
    | inr (e, d) ↦
        inl
          ((λ t q a. absurd (ground (arith, d, q))), rw (d, receive_tx, Executor.validate_tx) refl)
    | inl (t, d) ↦
        let c = x.state.config in
        let nonce = Evm.get_nonce x.state t.sender in
        let balance = Evm.get_balance x.state t.sender in
        let iff =
          validate_tx-ok_iff t c.chain_id nonce balance c.block_gas_limit c.base_fee_per_gas
            (proper t d).0 (proper t d).1 in
        elim (Result-cases
          (Tx.validate_tx t c.chain_id nonce balance c.block_gas_limit c.base_fee_per_gas)) [
            | inr (e, p) ↦ inl (
              (λ u q a.
                  absurd
                    (ground (arith, p, (iff.1 (subst (IsAcceptableNow x) (same_value q d) a))))),
              rw (d, p, receive_tx, Executor.validate_tx) refl,
            )
            | inl (u, p) ↦ inr (
              t,
              d,
              iff.0 p,
              rw (d, p, receive_tx, Executor.validate_tx, submit_raw_tx, add_tx) refl,
            )
          ]
  ]

module _ {E : Type 0} ⦃tx : TxEnvelope E⦄ ⦃v : Vsdb⦄ ⦃r : Revm⦄ ⦃h : Host⦄
    ⦃vm : Interpreter v r h⦄ where
  receive_tx-Reach :
      (x : EvmExecutor E v r) (raw : List ℕ) → LowNonce E raw → Reach x (receive_tx x raw)
  unfolding receive_tx submit_raw_tx add_tx
  receive_tx-Reach x raw low =
      elim (Executor.validate_tx x raw)
          as (λ o. Executor.validate_tx x raw ≡ o → Reach x (receive_tx x raw)) [
            | reject ↦ λ e. rw (e, receive_tx) Reach.here
            | accept_with_gas p g ↦
                λ e. rw (e, receive_tx, add_tx) (Reach.next Reach.here (Step.submits x raw low))
          ]
        refl

  -- Whatever peers send, the executor's invariants stay: where the interpreter respects gas limits, the
  -- block limit is below the largest u64, and so are the nonces.
  pub gossip-IsExecutor :
      (bounded : GasBounded vm) (config : EvmChainConfig) (raws : List (List ℕ))
      (x : EvmExecutor E v r)
      → config.block_gas_limit < u64_max
      → All (LowNonce E) raws
      → IsExecutor config x
      → IsExecutor config (gossip x raws)
  unfolding gossip
  gossip-IsExecutor bounded config [] x small low i = i
  gossip-IsExecutor bounded config (raw ∷ raws) x small low i =
      gossip-IsExecutor bounded config raws (receive_tx x raw) small low.1
        (Reach-IsExecutor bounded config small (receive_tx-Reach x raw low.0) i)
