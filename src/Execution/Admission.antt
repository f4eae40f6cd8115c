-- ===== src/Execution/Admission.antt =====
-- `validate_tx` of crates/execution/src/executor.rs: what is accepted, in terms of the account's state.
use nbnet.Prelude.{ℕ, ◌<◌, ◌≡◌, refl, List, Result-cases, inl, inr, arith, ok, ◌↔◌}
use nbnet.Std.Words.{u64_max, u256_mod}
use nbnet.Types.Tx
use nbnet.Types.Tx.{TxEnvelope, VerifiedTx, decode_and_recover, effective_gas_tip}
use nbnet.Types.Tx.Validation.{IsAcceptable, validate_tx-ok_iff, true_cost}
use nbnet.State.External.{Vsdb, Revm}
use nbnet.State.Evm
use nbnet.State.Evm
use nbnet.Execution.External.{reject, accept_with_gas}
use nbnet.Execution.Executor
use nbnet.Execution.Executor.{EvmExecutor}

module _ {E : Type 0} ⦃tx : TxEnvelope E⦄ ⦃v : Vsdb⦄ ⦃r : Revm⦄ where
  -- Against the account's state and the chain's configuration.
  abbrev pub IsAcceptableNow : EvmExecutor E v r → VerifiedTx E → Type 0
  IsAcceptableNow x t =
      IsAcceptable t x.state.config.chain_id (Evm.get_nonce x.state t.sender)
        (Evm.get_balance x.state t.sender) x.state.config.block_gas_limit
        x.state.config.base_fee_per_gas

  -- A transaction that decodes, with a cost below 2 ^ 256 and a gas limit below the largest u64, is
  -- accepted by the executor, with its tip as priority and its gas limit as gas wanted, exactly
  -- when it is acceptable in the sender's present state.
  pub validate_tx-accept_iff :
      (x : EvmExecutor E v r) (raw : List ℕ) (t : VerifiedTx E)
      → decode_and_recover raw ≡ ok t
      → true_cost t.envelope x.state.config.base_fee_per_gas < u256_mod
      → tx.gas_limit t.envelope < u64_max
      → (Executor.validate_tx x raw
          ≡ accept_with_gas
              (effective_gas_tip t.envelope x.state.config.base_fee_per_gas)
              (tx.gas_limit t.envelope))
        ↔ IsAcceptableNow x t
  unfolding Executor.validate_tx
  validate_tx-accept_iff x raw t d fits proper =
      let c = x.state.config in
      let nonce = Evm.get_nonce x.state t.sender in
      let balance = Evm.get_balance x.state t.sender in
      let iff =
        validate_tx-ok_iff t c.chain_id nonce balance c.block_gas_limit c.base_fee_per_gas fits
          proper in
      elim (Result-cases
        (Tx.validate_tx t c.chain_id nonce balance c.block_gas_limit c.base_fee_per_gas)) [
          | inl (u, p) ↦ (λ h. iff.0 p, λ a. rw (d, p, Executor.validate_tx) refl)
          | inr (e, p) ↦
              let no : Executor.validate_tx x raw ≡ reject = rw (d, p, Executor.validate_tx) refl in
              (λ h. absurd (ground (arith, no, h)), λ a. absurd (ground (arith, iff.1 a, p)))
        ]
