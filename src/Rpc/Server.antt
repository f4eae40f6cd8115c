-- ===== src/Rpc/Server.antt =====
-- crates/rpc/src/lib.rs: `dispatch`. The executor is shared, so a call returns
-- the executor that it leaves, and the transactions that it hands to the network.
use Prim.Native.String.{String}
use nbnet.Prelude.{
  ℕ, Option, none, List, [], ◌∷◌, if◌then◌else◌, is_some, Result, ok, err, ◌>>=◌, ok_or, and_then,
  head?, ℤ, pos,
}
use nbnet.Types.Tx.{TxEnvelope}
use nbnet.State.External.{Vsdb, Revm}
use nbnet.Precompile.External.{Host}
use nbnet.Execution.External.{Interpreter}
use nbnet.Execution.Executor.{EvmExecutor, eth_call, submit_raw_tx}
use nbnet.Rpc.External.{Serde, Codec}
use nbnet.Rpc.Json.{
  ParamError, invalid_hex, plain, CallParams, parse_call_params, parse_bytes, to_hex_u64, hex_json,
  hash_json,
}
use nbnet.Rpc.Message.{
  invalid_params, call_failed, submit_failed, EvmRpcState, JsonRpcRequest, JsonRpcResponse, Method,
  reading, estimate_gas, send_raw_transaction, call, method_of, Outcome, minus, fail, respond,
}
use nbnet.Rpc.Read.{read}

module _ {J : Type 0} ⦃js : Serde J⦄ ⦃cx : Codec⦄ where
  -- The bytes of the first parameter.
  unfoldable pub raw_bytes : J → Result (List ℕ) ParamError
  raw_bytes params = do
    first ← ok_or (and_then (js.as_array params) head?) (plain "missing params")
    s ← ok_or (js.as_str first) (plain "expected hex string")
    parse_bytes invalid_hex s

-- What a request returns and leaves, and what it sends to the peers.
pub record Served (E : Type 0) (v : Vsdb) (r : Revm) (J : Type 0) : Type 0 where
  pub outcome : Outcome J
  pub executor : EvmExecutor E v r
  pub broadcast : List (List ℕ)

module _ {E : Type 0} ⦃tx : TxEnvelope E⦄ ⦃v : Vsdb⦄ ⦃r : Revm⦄ ⦃h : Host⦄ ⦃vm : Interpreter v r h⦄
    {J : Type 0} ⦃js : Serde J⦄ ⦃cx : Codec⦄ where
  -- `eth_call`, and `eth_estimateGas`, which runs the call without the caller's gas.
  unfoldable pub run_call :
      EvmExecutor E v r
      → ℤ
      → (CallParams → Option ℕ)
      → (CallParams → List ℕ → J)
      → J
      → Served E v r J
  run_call x code gas show params = elim (parse_call_params params) [
    | err e ↦ record {
      outcome = fail (minus 32602) (invalid_params e);
      executor = x;
      broadcast = [];
    }
    | ok p ↦
        let (result, after) = eth_call x p.from p.to p.input p.value (gas p) in
        record {
          outcome = elim result [
            | ok output ↦ ok (show p output)
            | err e ↦ fail code (call_failed e)
          ];
          executor = after;
          broadcast = [];
        }
  ]

  -- A transaction that the pool takes goes to the peers.
  unfoldable pub send_raw : EvmRpcState E v r → List ℕ → Served E v r J
  send_raw s raw =
      let (result, after) = submit_raw_tx s.executor raw in
      elim result [
        | err e ↦ record {
          outcome = fail (minus 32000) (submit_failed e);
          executor = after;
          broadcast = [];
        }
        | ok hash ↦ record {
          outcome = ok (hash_json hash);
          executor = after;
          broadcast = if s.network_sink then raw ∷ [] else [];
        }
      ]

  unfoldable pub send_raw_param : EvmRpcState E v r → J → Served E v r J
  send_raw_param s params = elim (raw_bytes params) [
    | err e ↦ record {
      outcome = fail (minus 32602) (invalid_params e);
      executor = s.executor;
      broadcast = [];
    }
    | ok raw ↦ send_raw s raw
  ]

  unfoldable pub serve : EvmRpcState E v r → Method → String → J → Served E v r J
  serve s estimate_gas name params =
      run_call s.executor (minus 32000) (λ p. none)
        (λ p output. to_hex_u64 (if is_some p.to then 21_000 else 100_000)) params
  serve s call name params =
      run_call s.executor (pos 3) (λ p. p.gas) (λ p output. hex_json output) params
  serve s send_raw_transaction name params = send_raw_param s params
  serve s (reading q) name params = record {
    outcome = read s q name params;
    executor = s.executor;
    broadcast = [];
  }

  unfoldable pub dispatch :
      EvmRpcState E v r → JsonRpcRequest J → JsonRpcResponse J × Served E v r J
  dispatch s req =
      let served = serve s (method_of req.method) req.method req.params in
      (respond req.id served.outcome, served)

  -- One request after the other.
  unfoldable pub serve_all : EvmRpcState E v r → List (JsonRpcRequest J) → EvmRpcState E v r
  serve_all s [] = s
  serve_all s (req ∷ reqs) = serve_all (record s { executor = (dispatch s req).1.executor }) reqs
