-- ===== src/Types/Tx/Display.antt =====
-- `Display` of `TxError`, crates/types/src/tx.rs.
use nbnet.Prelude.{ℕ, Option, none, some, List, ◌++◌}
use nbnet.Std.Text.{codes, decimal_u64, decimal_u256}
use nbnet.Types.Tx.{
  TxError, rlp_decode, signature_recovery, chain_id_mismatch, nonce_too_low, insufficient_balance,
  intrinsic_gas_too_low, gas_limit_exceeds_block,
}

-- `{got:?}`
abbrev pub debug_option : Option ℕ → List ℕ
debug_option none = codes "None"
debug_option (some n) = codes "Some(" ++ decimal_u64 n ++ codes ")"

unfoldable pub display : TxError → List ℕ
display (rlp_decode e) = codes "RLP decode: " ++ codes e
display (signature_recovery e) = codes "signature recovery: " ++ codes e
display (chain_id_mismatch expected got) =
    codes "chain_id mismatch: expected "
    ++ decimal_u64 expected
    ++ codes ", got "
    ++ debug_option got
display (nonce_too_low expected got) =
    codes "nonce too low: expected >= " ++ decimal_u64 expected ++ codes ", got " ++ decimal_u64 got
display (insufficient_balance required available) =
    codes "insufficient balance: need "
    ++ decimal_u256 required
    ++ codes ", have "
    ++ decimal_u256 available
display (intrinsic_gas_too_low required got) =
    codes "intrinsic gas too low: need "
    ++ decimal_u64 required
    ++ codes ", got "
    ++ decimal_u64 got
display (gas_limit_exceeds_block tx_gas block_limit) =
    codes "gas limit "
    ++ decimal_u64 tx_gas
    ++ codes " exceeds block limit "
    ++ decimal_u64 block_limit
