-- ===== src/Rpc/Wire.antt =====
-- crates/rpc/src/lib.rs, crates/txpool/src/lib.rs and crates/execution/src/executor.rs: the texts of
-- the errors, and a response as the JSON that goes to the client.
use Prim.Native.String.{String}
use nbnet.Prelude.{ℕ, Option, none, some, List, [], ◌∷◌, ◌++◌, map_option}
use nbnet.Std.Text.{codes, decimal_u64}
use nbnet.Types.Tx.{TxEnvelope}
use nbnet.Types.Tx.Display
use nbnet.TxPool.Submit.{
  SubmitError, undecodable, already_known, nonce_too_low, replacement_underpriced, queue_full,
}
use nbnet.State.External.{Vsdb, Revm}
use nbnet.Precompile.External.{Host}
use nbnet.Execution.External.{Interpreter}
use nbnet.Execution.Executor.{CallError, execution_reverted, execution_halted, evm_error}
use nbnet.Rpc.External.{Serde, Codec}
use nbnet.Rpc.Json.{
  ParamError, plain, invalid_hex, wrong_address_length, wrong_hash_length, invalid_u256,
  invalid_data_hex, invalid_value,
}
use nbnet.Rpc.Message.{
  RpcMessage, invalid_params, call_failed, submit_failed, method_not_found, JsonRpcRequest,
  JsonRpcError, JsonRpcResponse, EvmRpcState,
}
use nbnet.Rpc.Server.{dispatch}

unfoldable pub param_text : ParamError → List ℕ
param_text (plain s) = codes s
param_text (invalid_hex e) = codes "invalid hex: " ++ codes e
param_text (wrong_address_length n) = codes "address must be 20 bytes, got " ++ decimal_u64 n
param_text (wrong_hash_length n) = codes "hash must be 32 bytes, got " ++ decimal_u64 n
param_text (invalid_u256 e) = codes "invalid U256: " ++ codes e
param_text (invalid_data_hex e) = codes "invalid data hex: " ++ codes e
param_text (invalid_value e) = codes "invalid value: " ++ codes e

unfoldable pub submit_text : SubmitError → List ℕ
submit_text (undecodable e) = Display.display e
submit_text already_known = codes "transaction already known"
submit_text (nonce_too_low tx_nonce current_nonce) =
    codes "nonce too low: tx nonce "
    ++ decimal_u64 tx_nonce
    ++ codes " < current "
    ++ decimal_u64 current_nonce
submit_text (replacement_underpriced min_tip got) =
    codes "replacement underpriced: need tip >= "
    ++ decimal_u64 min_tip
    ++ codes ", got "
    ++ decimal_u64 got
submit_text queue_full = codes "sender queue full"

module _ ⦃cx : Codec⦄ where
  unfoldable pub call_text : CallError → List ℕ
  call_text (execution_reverted output) = codes "execution reverted: 0x" ++ cx.encode output
  call_text (execution_halted reason) = codes "execution halted: " ++ codes reason
  call_text (evm_error e) = codes "EVM error: " ++ codes e

  unfoldable pub message_text : RpcMessage → List ℕ
  message_text (invalid_params e) = param_text e
  message_text (call_failed e) = call_text e
  message_text (submit_failed e) = submit_text e
  message_text (method_not_found m) = codes "method not found: " ++ codes m

module _ {J : Type 0} ⦃js : Serde J⦄ ⦃cx : Codec⦄ where
  unfoldable pub error_json : JsonRpcError → J
  error_json e =
      js.object (("code", js.number e.code) ∷ ("message", js.string (message_text e.message)) ∷ [])

  -- A field that is `none` is left out.
  abbrev pub optional_field : String → Option J → List (String × J)
  optional_field name none = []
  optional_field name (some x) = (name, x) ∷ []

  unfoldable pub response_json : JsonRpcResponse J → J
  response_json res = js.object (
      ("jsonrpc", js.string (codes res.jsonrpc))
      ∷ (optional_field "result" res.result
          ++ optional_field "error" (map_option error_json res.error)
          ++ ("id", res.id) ∷ []))

module _ {E : Type 0} ⦃tx : TxEnvelope E⦄ ⦃v : Vsdb⦄ ⦃r : Revm⦄ ⦃h : Host⦄ ⦃vm : Interpreter v r h⦄
    {J : Type 0} ⦃js : Serde J⦄ ⦃cx : Codec⦄ where
  -- What a client receives.
  unfoldable pub handle_rpc : EvmRpcState E v r → JsonRpcRequest J → J
  handle_rpc s req = response_json (dispatch s req).0
