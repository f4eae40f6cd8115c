-- ===== src/Tests/RpcRuns.antt =====
-- Runs of crates/rpc/src/lib.rs at concrete inputs.

use nbnet.Prelude.{◌≡◌, refl, subst, true, some, [], ◌∷◌, arith, ok, Result, replicate, map_option}
use nbnet.Std.Text
use nbnet.Types.Hex
use nbnet.Types.Receipt.{EvmLog}
use nbnet.Types.Tx.{decode_and_recover}
use nbnet.State.Evm
use nbnet.Execution.Executor.{EvmExecutor, execute_block, on_commit, from_genesis}
use nbnet.Execution.History.{Reach, IsExecutor, LowNonce, history-IsExecutor}
use nbnet.Rpc.Json
use nbnet.Rpc.Message
use nbnet.Rpc.Server
use nbnet.Rpc.Json.{ParamError, hex_json, hash_json, to_hex_u64, to_hex_u256, parse_bytes}
use nbnet.Rpc.Message.{
  minus, EvmRpcState, JsonRpcRequest, method_of, get_balance, get_transaction_count, get_storage_at,
}
use nbnet.Rpc.Read.{read, tx_count}
use nbnet.Rpc.Logs.{get_logs, parse_filter}
use nbnet.Rpc.Server.{dispatch, serve_all, raw_bytes}
use nbnet.Rpc.Conformance.{OneOf, dispatch-OneOf}
use nbnet.Rpc.Safety.{IsLow, Announces, dispatch-Announces, serve_all-IsExecutor}
use nbnet.Rpc.LogFilter.{entries, keep, shown, get_logs-keep}
use nbnet.Rpc.Readings.{at_latest, at_slot, read-state}
use nbnet.Rpc.Receipts.{tx_count-on_commit}
use nbnet.Tests.World.{Envelope, mini_tx, mini_vsdb, mini_revm, mini_host, mini_vm, mini_bounded}
use nbnet.Tests.PoolRuns.{raw_b0, visit}
use nbnet.Tests.StateRuns.{genesis, warm}
use nbnet.Tests.ExecutorRuns.{
  born, live, block, context, stored, balance_fits, nonce_fits, slot_fits,
}
use nbnet.Tests.JsonWorld.{Json, mini_json, mini_codec}

abbrev pub server : EvmRpcState Envelope mini_vsdb mini_revm
server = record { executor = live; chain_id = 1337; network_sink = true }

-- A transaction that is submitted, and a method that does not exist.
abbrev sends : JsonRpcRequest Json
sends = record {
  jsonrpc = some "2.0";
  method = "eth_sendRawTransaction";
  params = mini_json.array (hex_json raw_b0 ∷ []);
  id = mini_json.null;
}

abbrev asks : JsonRpcRequest Json
asks = record sends { method = "eth_nothing" }

dispatch-OneOf_example :
    ((dispatch server asks).0.jsonrpc ≡ "2.0")
    × ((dispatch server asks).0.id ≡ mini_json.null)
    × OneOf
        (method_of asks.method)
        asks.method
        (dispatch server asks).0.result
        (dispatch server asks).0.error
dispatch-OneOf_example = dispatch-OneOf server asks

dispatch-Announces_example :
    Announces server
      (method_of sends.method)
      sends.params
      (dispatch server sends).1.outcome
      (dispatch server sends).1.broadcast
      raw_b0
dispatch-Announces_example = dispatch-Announces server sends raw_b0

given : raw_bytes sends.params ≡ ok raw_b0
unfolding raw_bytes hex_json parse_bytes Hex.decode Text.strip_0x Hex.encode Text.hex_byte
    Hex.decode_pairs Hex.inside_char Text.hex_digit Text.from_str_radix Text.parse_digits
    Text.digit_value
given = refl

raw_b0-LowNonce : LowNonce Envelope raw_b0
unfolding decode_and_recover
raw_b0-LowNonce t e = ground (arith, e)

ok_injective : {A : Type 0} {e : Result A ParamError} {a b : A} → e ≡ ok a → e ≡ ok b → a ≡ b
ok_injective p q = cc

sends-IsLow : IsLow Envelope sends.params
sends-IsLow raw e = subst (LowNonce Envelope) (ok_injective given e) raw_b0-LowNonce

abbrev newborn : EvmRpcState Envelope mini_vsdb mini_revm
newborn = record server { executor = born }

serve_all-IsExecutor_example :
    IsExecutor born.state.config (serve_all newborn (sends ∷ [])).executor
unfolding from_genesis Evm.from_genesis
serve_all-IsExecutor_example =
    serve_all-IsExecutor mini_bounded born.state.config (sends ∷ []) newborn (omega arith)
      (sends-IsLow, tt) (history-IsExecutor mini_bounded genesis (omega arith) Reach.here)

-- A log with two topics, and a filter for the second one.
abbrev log : EvmLog
log = record { address = 9; topics = 40 ∷ 41 ∷ []; payload = 1 ∷ [] }

abbrev logging : EvmExecutor Envelope mini_vsdb mini_revm
logging = record live { receipts = (record stored { logs = log ∷ [] } ∷ []) ∷ [] }

abbrev wanted : Json
wanted =
    mini_json.array (mini_json.object (("topics", mini_json.array (hash_json 41 ∷ [])) ∷ []) ∷ [])

get_logs-keep_example :
    get_logs logging wanted ≡ shown (keep (parse_filter wanted) (entries logging.receipts))
get_logs-keep_example = get_logs-keep logging wanted (omega arith)

read-state_example :
    (read {J = Json} server get_balance "" (at_latest 1)
      ≡ ok (to_hex_u256 {J = Json} (Evm.get_balance warm 1)))
    × (read {J = Json} server get_transaction_count "" (at_latest 1)
        ≡ ok (to_hex_u64 (Evm.get_nonce warm 1)))
    × (read {J = Json} server get_storage_at "" (at_slot 1 2)
        ≡ ok (to_hex_u256 (Evm.get_storage warm 1 2)))
read-state_example =
    read-state Json server "" 1 2 (omega arith) (omega arith) balance_fits nonce_fits slot_fits

tx_count-on_commit_example :
    tx_count (on_commit visit (execute_block live block context).1 context) ≡ 0
tx_count-on_commit_example = tx_count-on_commit visit live block context (omega arith) (omega arith)

-- An address that is one byte short, and a method that only reads.
abbrev short : JsonRpcRequest Json
short = record sends {
  method = "eth_getBalance";
  params = mini_json.array (hex_json (replicate 19 0) ∷ []);
}

short_refused : map_option (λ e. e.code) (dispatch server short).0.error ≡ some (minus 32602)
unfolding dispatch Message.respond Server.serve method_of read Json.parse_addr_block
    Json.parse_address hex_json Json.parse_address_str Hex.decode Text.strip_0x Hex.encode
    Text.hex_byte Hex.decode_pairs Hex.inside_char Text.hex_digit Text.from_str_radix
    Text.parse_digits Text.digit_value
short_refused = refl
