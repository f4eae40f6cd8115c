-- ===== src/Types/Tx.antt =====
-- crates/types/src/tx.rs: decoding, validation and fees of a transaction. The envelope and its
-- accessors belong to the alloy crates, and are the interface `TxEnvelope` over an unknown type.
pub mod Validation
pub mod Fees
pub mod Display
use Prim.Native.String.{String}
use nbnet.Prelude.{
  ℕ, ◌+◌, ◌*◌, ◌%◌, Bool, Option, none, some, List, [], ◌∷◌, min, max, ltb, not, ◌==◌,
  if◌then◌else◌, is_some, unwrap_or, Result, ok, err,
}
use nbnet.Std.Words.{u64_mod, u64_max, u256_mod, saturating_add, saturating_sub}

-- `alloy_consensus::TxEnvelope` with `Decodable2718`, `SignerRecoverable` and `Transaction`. A
-- failure of alloy is its message.
pub record TxEnvelope (E : Type 0) : Type 0 where
  pub decode_2718 : List ℕ → Result E String
  pub recover_signer : E → Result ℕ String
  pub tx_hash : E → ℕ
  pub tx_type : E → ℕ
  pub chain_id : E → Option ℕ
  pub nonce : E → ℕ
  pub gas_limit : E → ℕ
  pub max_fee_per_gas : E → ℕ
  pub max_priority_fee_per_gas : E → Option ℕ
  pub to : E → Option ℕ
  pub value : E → ℕ
  pub input : E → List ℕ

pub record VerifiedTx (E : Type 0) : Type 0 where
  pub raw : List ℕ
  pub envelope : E
  pub sender : ℕ
  pub tx_hash : ℕ

pub data TxError : Type 0 where
  rlp_decode : String → TxError
  signature_recovery : String → TxError
  chain_id_mismatch : (expected : ℕ) (got : Option ℕ) → TxError
  nonce_too_low : (expected got : ℕ) → TxError
  insufficient_balance : (required available : ℕ) → TxError
  intrinsic_gas_too_low : (required got : ℕ) → TxError
  gas_limit_exceeds_block : (tx_gas block_limit : ℕ) → TxError

-- The chain id is checked only where the transaction carries one.
abbrev pub wrong_chain : Option ℕ → ℕ → Bool
wrong_chain none chain_id = Bool.false
wrong_chain (some id) chain_id = not (id == chain_id)

unfoldable pub data_cost : ℕ → List ℕ → ℕ
unfolding saturating_add
data_cost acc [] = acc
data_cost acc (byte ∷ bytes) =
    data_cost (saturating_add u64_max acc (if byte == 0 then 4 else 16)) bytes

module _ {E : Type 0} ⦃tx : TxEnvelope E⦄ where
  unfoldable pub decode_and_recover : List ℕ → Result (VerifiedTx E) TxError
  decode_and_recover raw = elim (tx.decode_2718 raw) [
    | err e ↦ err (rlp_decode e)
    | ok envelope ↦ elim (tx.recover_signer envelope) [
      | err e ↦ err (signature_recovery e)
      | ok sender ↦ ok (record {
        raw = raw;
        envelope = envelope;
        sender = sender;
        tx_hash = tx.tx_hash envelope;
      })
    ]
  ]

  unfoldable pub intrinsic_gas : E → ℕ
  unfolding saturating_add
  intrinsic_gas e =
      saturating_add u64_max (if is_some (tx.to e) then 21_000 else 53_000)
        (data_cost 0 (tx.input e))

  -- The upfront cost; the product and the sum are those of `U256` and wrap.
  unfoldable pub upfront_cost : E → ℕ → ℕ
  upfront_cost e base_fee =
      (tx.gas_limit e * max (tx.max_fee_per_gas e) base_fee % u256_mod + tx.value e) % u256_mod

  unfoldable pub validate_tx :
      VerifiedTx E
      → (chain_id account_nonce account_balance block_gas_limit base_fee : ℕ)
      → Result (Unit {0}) TxError
  validate_tx v chain_id account_nonce account_balance block_gas_limit base_fee =
      let e = v.envelope in
      let tx_gas = tx.gas_limit e in
      let upfront = upfront_cost e base_fee in
      if wrong_chain (tx.chain_id e) chain_id
      then err (chain_id_mismatch chain_id (tx.chain_id e))
      else if ltb (tx.nonce e) account_nonce
      then err (nonce_too_low account_nonce (tx.nonce e))
      else if ltb block_gas_limit tx_gas
      then err (gas_limit_exceeds_block tx_gas block_gas_limit)
      else if ltb tx_gas (intrinsic_gas e)
      then err (intrinsic_gas_too_low (intrinsic_gas e) tx_gas)
      else if ltb account_balance upfront
      then err (insufficient_balance upfront account_balance)
      else ok tt

  -- `as u64` keeps the low 64 bits of the fees.
  unfoldable pub effective_gas_tip : E → ℕ → ℕ
  unfolding saturating_sub
  effective_gas_tip e base_fee =
      min (saturating_sub (tx.max_fee_per_gas e % u64_mod) base_fee)
        (unwrap_or (tx.max_priority_fee_per_gas e) 0 % u64_mod)
