-- ===== src/Node/Client.antt =====
-- The JSON-RPC client of crates/node/src/bench.rs. Sending a request over HTTP is a parameter, which
-- answers with the response's JSON or nothing.
use Prim.Native.String.{String}
use nbnet.Prelude.{ℕ, Bool, Option, some, List, [], ◌∷◌, and_then, is_some, pos}
use nbnet.Std.Words.{u64_max}
use nbnet.Std.Text.{codes, strip_prefix, from_str_radix}
use nbnet.Rpc.External.{Serde, Codec}
use nbnet.Rpc.Json.{address_json, hex_json}
use nbnet.Rpc.Message.{JsonRpcRequest}

module _ {J : Type 0} ⦃js : Serde J⦄ where
  unfoldable pub rpc_json : (JsonRpcRequest J → Option J) → String → J → Option J
  rpc_json post method params =
      post
        (record { jsonrpc = some "2.0"; method = method; params = params; id = js.number (pos 1) })

  -- `u64::from_str_radix(resp["result"].as_str()?.strip_prefix("0x")?, 16).ok()`
  unfoldable pub hex_result : J → Option ℕ
  hex_result resp =
      and_then (js.as_str (js.index resp "result"))
        (λ hex. and_then (strip_prefix hex) (λ digits. from_str_radix u64_max digits))

  unfoldable pub rpc_block_number : (JsonRpcRequest J → Option J) → Option ℕ
  rpc_block_number post = and_then (rpc_json post "eth_blockNumber" (js.array [])) hex_result

module _ {J : Type 0} ⦃js : Serde J⦄ ⦃cx : Codec⦄ where
  unfoldable pub rpc_get_nonce : (JsonRpcRequest J → Option J) → ℕ → Option ℕ
  rpc_get_nonce post addr =
      and_then
        (rpc_json post "eth_getTransactionCount"
          (js.array (address_json addr ∷ js.string (codes "latest") ∷ [])))
        hex_result

  unfoldable pub rpc_send_raw_tx : (JsonRpcRequest J → Option J) → List ℕ → Bool
  rpc_send_raw_tx post raw_tx =
      is_some (rpc_json post "eth_sendRawTransaction" (js.array (hex_json raw_tx ∷ [])))
