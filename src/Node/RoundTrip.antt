-- ===== src/Node/RoundTrip.antt =====
-- The client of crates/node/src/bench.rs against the server of crates/rpc/src/lib.rs, from the request
-- to the number that the client reads.

use nbnet.Prelude.{ℕ, ◌<◌, ◌^◌, ◌≡◌, refl, true, Option, some, List, ok, arith}
use nbnet.Std.Text.{lower_hex_u64, from_str_radix-lower_hex, strip_prefix}
use nbnet.Types.Tx.{TxEnvelope}
use nbnet.State.External.{Vsdb, Revm}
use nbnet.State.Evm
use nbnet.Precompile.External.{Host}
use nbnet.Execution.External.{Interpreter}
use nbnet.Rpc.External.{field, Serde, Codec}
use nbnet.Rpc.Json.{prefixed, to_hex_u64}
use nbnet.Rpc.Message.{EvmRpcState, JsonRpcRequest, respond, method_of}
use nbnet.Rpc.Read.{read}
use nbnet.Rpc.Server.{serve, dispatch}
use nbnet.Rpc.Wire.{response_json, handle_rpc}
use nbnet.Rpc.Readings.{query_nonce-get_nonce, query_block_number-height, parse_addr_block-address}
use nbnet.Node.Client.{rpc_json, hex_result, rpc_block_number, rpc_get_nonce, rpc_send_raw_tx}

module _ {J : Type 0} ⦃js : Serde J⦄ ⦃cx : Codec⦄ where
  result-respond : (id x : J) → js.index (response_json (respond id (ok x))) "result" ≡ x
  unfolding response_json respond field
  result-respond id x = rw (js.index-object _ "result") refl

  -- A number in a response is read back.
  hex_result-respond :
      (id : J) (n : ℕ)
      → n < 2 ^ 64
      → hex_result (response_json (respond id (ok (to_hex_u64 n)))) ≡ some n
  unfolding hex_result to_hex_u64 strip_prefix
  hex_result-respond id n h =
      rw
        (
          result-respond id (js.string (prefixed (lower_hex_u64 n))),
          js.as_str-string (prefixed (lower_hex_u64 n)),
        )
        (from_str_radix-lower_hex n h)

module _ {E : Type 0} ⦃tx : TxEnvelope E⦄ ⦃v : Vsdb⦄ ⦃r : Revm⦄ ⦃h : Host⦄ ⦃vm : Interpreter v r h⦄
    (J : Type 0) ⦃js : Serde J⦄ ⦃cx : Codec⦄ where
  -- A connection to the server.
  abbrev pub served_by : EvmRpcState E v r → JsonRpcRequest J → Option J
  served_by s req = some (handle_rpc s req)

  -- The benchmark's client, connected to the server, reads the nonce of an address exactly as the
  -- state has it, through the request, the hexadecimal texts and the response; address and nonce
  -- are in range.
  pub rpc_get_nonce-served_by :
      (s : EvmRpcState E v r) (addr : ℕ)
      → addr < 256 ^ 20
      → Evm.get_nonce s.executor.state addr < 2 ^ 64
      → rpc_get_nonce (served_by s) addr ≡ some (Evm.get_nonce s.executor.state addr)
  unfolding rpc_get_nonce rpc_json handle_rpc dispatch serve read method_of
  rpc_get_nonce-served_by s addr a n =
      rw
        (
          parse_addr_block-address J addr a,
          query_nonce-get_nonce s.executor addr a (omega (arith, n)),
        )
        (hex_result-respond _ (Evm.get_nonce s.executor.state addr) n)

  -- The client reads the height of the executor.
  pub rpc_block_number-served_by :
      (s : EvmRpcState E v r)
      → s.executor.block_height < 2 ^ 64
      → rpc_block_number (served_by s) ≡ some s.executor.block_height
  unfolding rpc_block_number rpc_json handle_rpc dispatch serve read method_of
  rpc_block_number-served_by s l =
      rw (query_block_number-height s.executor (omega (arith, l)))
        (hex_result-respond _ s.executor.block_height l)

  -- A transaction counts as submitted, whatever the pool has said to it.
  pub rpc_send_raw_tx-served_by :
      (s : EvmRpcState E v r) (raw : List ℕ) → rpc_send_raw_tx (served_by s) raw ≡ true
  unfolding rpc_send_raw_tx rpc_json
  rpc_send_raw_tx-served_by s raw = refl
