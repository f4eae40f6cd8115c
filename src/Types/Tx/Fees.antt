-- ===== src/Types/Tx/Fees.antt =====
-- The effective tip of crates/types/src/tx.rs.
use nbnet.Prelude.{ℕ, ◌-◌, ◌+◌, ◌≤◌, ◌<◌, ◌≡◌, min, max, arith, unwrap_or}
use nbnet.Std.Words.{u64_mod}
use nbnet.Types.Tx.{TxEnvelope, effective_gas_tip}

module _ {E : Type 0} ⦃tx : TxEnvelope E⦄ (e : E) (base_fee : ℕ) where
  -- Fees below 2 ^ 64 are read whole: the tip is what the fee cap leaves above the base fee, and at
  -- most the priority fee.
  pub effective_gas_tip_exact :
      tx.max_fee_per_gas e < u64_mod
      → unwrap_or (tx.max_priority_fee_per_gas e) 0 < u64_mod
      → effective_gas_tip e base_fee
        ≡ min (tx.max_fee_per_gas e - base_fee) (unwrap_or (tx.max_priority_fee_per_gas e) 0)
  unfolding effective_gas_tip
  effective_gas_tip_exact h k = omega arith

  -- Whatever the fees are, the tip is a u64, and with the base fee it stays within the fee cap
  -- unless the cap lies below the base fee.
  pub effective_gas_tip_bounds :
      (effective_gas_tip e base_fee < u64_mod)
      × (base_fee + effective_gas_tip e base_fee ≤ max (tx.max_fee_per_gas e) base_fee)
  unfolding effective_gas_tip
  effective_gas_tip_bounds = omega arith
