-- ===== src/Types/Tx/Validation.antt =====
-- What `validate_tx` and `decode_and_recover` of crates/types/src/tx.rs accept and refuse.
use nbnet.Prelude.{
  ℕ, ◌+◌, ◌*◌, ◌≤◌, ◌<◌, ◌≡◌, ◌↔◌, List, [], ◌∷◌, min, max, arith, true, false, ◌==◌, if◌then◌else◌,
  is_some, ok, err,
}
use nbnet.Std.Words.{u64_max, u256_mod}
use nbnet.Types.Tx.{
  TxEnvelope, VerifiedTx, wrong_chain, data_cost, intrinsic_gas, upfront_cost, validate_tx,
  decode_and_recover, chain_id_mismatch, nonce_too_low, gas_limit_exceeds_block,
  intrinsic_gas_too_low, insufficient_balance,
}

-- The price of the call data without saturation: 4 for a zero byte and 16 for any other.
abbrev pub calldata_gas : List ℕ → ℕ
calldata_gas [] = 0
calldata_gas (byte ∷ bytes) = (if byte == 0 then 4 else 16) + calldata_gas bytes

data_cost-eq-min :
    (acc : ℕ) (bytes : List ℕ)
    → acc ≤ u64_max
    → data_cost acc bytes ≡ min (acc + calldata_gas bytes) u64_max
unfolding data_cost
data_cost-eq-min acc [] h = omega arith
data_cost-eq-min acc (byte ∷ bytes) h =
    let step = min (acc + (if byte == 0 then 4 else 16)) u64_max in
    omega (arith, data_cost-eq-min step bytes (omega arith))

module _ {E : Type 0} ⦃tx : TxEnvelope E⦄ where
  -- The intrinsic gas of the yellow paper: 21000, or 53000 for a creation, and the call data.
  abbrev pub yellow_gas : E → ℕ
  yellow_gas e = (if is_some (tx.to e) then 21_000 else 53_000) + calldata_gas (tx.input e)

  -- The code computes that sum, saturated at the largest `u64`.
  pub intrinsic_gas-eq-min : (e : E) → intrinsic_gas e ≡ min (yellow_gas e) u64_max
  unfolding intrinsic_gas
  intrinsic_gas-eq-min e = omega (arith, data_cost-eq-min 0 (tx.input e) (omega arith))

  -- The largest cost of a transaction, as an unbounded number.
  abbrev pub true_cost : E → ℕ → ℕ
  true_cost e base_fee = tx.gas_limit e * max (tx.max_fee_per_gas e) base_fee + tx.value e

  upfront_cost_exact :
      (e : E) (base_fee : ℕ)
      → true_cost e base_fee < u256_mod
      → upfront_cost e base_fee ≡ true_cost e base_fee
  unfolding upfront_cost
  upfront_cost_exact e base_fee h = omega arith

  module _ (v : VerifiedTx E) (chain_id account_nonce balance block_gas_limit base_fee : ℕ) where
    -- What a valid transaction is, said without the code's order of checks and without wrapping.
    pub record IsAcceptable : Type 0 where
      pub right_chain : wrong_chain (tx.chain_id v.envelope) chain_id ≡ false
      pub fresh : account_nonce ≤ tx.nonce v.envelope
      pub fits_block : tx.gas_limit v.envelope ≤ block_gas_limit
      pub pays_intrinsic : yellow_gas v.envelope ≤ tx.gas_limit v.envelope
      pub affordable : true_cost v.envelope base_fee ≤ balance

    -- For a transaction whose cost is below 2 ^ 256 and whose gas limit is below the largest u64,
    -- validation succeeds exactly on the acceptable ones: the right chain, a nonce that is not
    -- used, a gas limit between the intrinsic gas and the block's limit, and a cost that the
    -- balance covers.
    pub validate_tx-ok_iff :
        true_cost v.envelope base_fee < u256_mod
        → tx.gas_limit v.envelope < u64_max
        → (validate_tx v chain_id account_nonce balance block_gas_limit base_fee ≡ ok tt)
          ↔ IsAcceptable
    unfolding validate_tx
    validate_tx-ok_iff fits proper =
        let i = intrinsic_gas-eq-min v.envelope in
        let u = upfront_cost_exact v.envelope base_fee fits in
        (λ h. ground (arith, i, u), λ a. ground (arith, i, u))

    -- Where the cost passes 2 ^ 256 the sum wraps: a transaction that meets the other conditions is
    -- accepted although the balance covers only what is left above 2 ^ 256.
    pub validate_tx_wraps :
        (rest : ℕ)
        → wrong_chain (tx.chain_id v.envelope) chain_id ≡ false
        → account_nonce ≤ tx.nonce v.envelope
        → tx.gas_limit v.envelope ≤ block_gas_limit
        → yellow_gas v.envelope ≤ tx.gas_limit v.envelope
        → true_cost v.envelope base_fee ≡ u256_mod + rest
        → rest < u256_mod
        → rest ≤ balance
        → validate_tx v chain_id account_nonce balance block_gas_limit base_fee ≡ ok tt
    unfolding validate_tx upfront_cost
    validate_tx_wraps rest c n g y e r b = ground (arith, intrinsic_gas-eq-min v.envelope)

    -- Each error of validation is reported exactly when its own condition holds and no earlier
    -- check failed.
    pub validate_tx_errors :
        let e = v.envelope in
        let r = validate_tx v chain_id account_nonce balance block_gas_limit base_fee in
        let right = wrong_chain (tx.chain_id e) chain_id ≡ false in
        ((r ≡ err (chain_id_mismatch chain_id (tx.chain_id e)))
          ↔ (wrong_chain (tx.chain_id e) chain_id ≡ true))
        × ((r ≡ err (nonce_too_low account_nonce (tx.nonce e)))
            ↔ (right × (tx.nonce e < account_nonce)))
        × ((r ≡ err (gas_limit_exceeds_block (tx.gas_limit e) block_gas_limit))
            ↔ (right × (account_nonce ≤ tx.nonce e) × (block_gas_limit < tx.gas_limit e)))
        × ((r ≡ err (intrinsic_gas_too_low (min (yellow_gas e) u64_max) (tx.gas_limit e))) ↔ (
            right
            × (account_nonce ≤ tx.nonce e)
            × (tx.gas_limit e ≤ block_gas_limit)
            × (tx.gas_limit e < min (yellow_gas e) u64_max)))
        × ((r ≡ err (insufficient_balance (upfront_cost e base_fee) balance)) ↔ (
            right
            × (account_nonce ≤ tx.nonce e)
            × (tx.gas_limit e ≤ block_gas_limit)
            × (min (yellow_gas e) u64_max ≤ tx.gas_limit e)
            × (balance < upfront_cost e base_fee)))
    unfolding validate_tx
    validate_tx_errors =
        let i = intrinsic_gas-eq-min v.envelope in
        (
          (λ h. ground (arith, i), λ h. ground (arith, i)),
          (λ h. ground (arith, i), λ h. ground (arith, i)),
          (λ h. ground (arith, i), λ h. ground (arith, i)),
          (λ h. ground (arith, i), λ h. ground (arith, i)),
          (λ h. ground (arith, i), λ h. ground (arith, i)),
        )

  -- A decoded transaction keeps its bytes, and its envelope, sender and hash are alloy's.
  pub record Decodes (raw : List ℕ) (v : VerifiedTx E) : Type 0 where
    pub raw_kept : v.raw ≡ raw
    pub decoded : tx.decode_2718 raw ≡ ok v.envelope
    pub recovered : tx.recover_signer v.envelope ≡ ok v.sender
    pub hashed : v.tx_hash ≡ tx.tx_hash v.envelope

  -- `decode_and_recover` succeeds with a transaction exactly when that is what the bytes decode to.
  pub decode_and_recover-ok_iff :
      (raw : List ℕ) (v : VerifiedTx E) → (decode_and_recover raw ≡ ok v) ↔ Decodes raw v
  unfolding decode_and_recover
  decode_and_recover-ok_iff raw v = (λ h. ground arith, λ d. ground arith)
