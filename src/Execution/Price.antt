-- ===== src/Execution/Price.antt =====
-- The effective gas price in the receipts of crates/execution/src/executor.rs.
use nbnet.Prelude.{◌+◌, ◌≤◌, ◌<◌, ◌≡◌, arith, unwrap_or, max}
use nbnet.Std.Words.{u64_mod, saturating_add, saturating_sub}
use nbnet.Types.Config.{EvmChainConfig}
use nbnet.Types.Tx.{TxEnvelope, effective_gas_tip}
use nbnet.Execution.Block.{effective_gas_price}

module _ {E : Type 0} ⦃tx : TxEnvelope E⦄ where
  -- Where the fees fit 64 bits, the price in a receipt is the base fee plus the tip by which the
  -- pool orders the transaction, and no more than the larger of the offered maximum and the base
  -- fee.
  pub effective_gas_price_lem :
      (config : EvmChainConfig) (e : E)
      → config.base_fee_per_gas < u64_mod
      → tx.max_fee_per_gas e < u64_mod
      → unwrap_or (tx.max_priority_fee_per_gas e) 0 < u64_mod
      → (effective_gas_price config e
          ≡ config.base_fee_per_gas + effective_gas_tip e config.base_fee_per_gas)
        × (effective_gas_price config e ≤ max (tx.max_fee_per_gas e) config.base_fee_per_gas)
  unfolding effective_gas_price effective_gas_tip saturating_add saturating_sub
  effective_gas_price_lem config e hb hf hp = (omega arith, omega arith)
