-- ===== src/Rpc/Safety.antt =====
-- crates/rpc/src/lib.rs: what requests can do to the executor and to the network.
use Prim.Native.String.{String}
use nbnet.Prelude.{
  ℕ, ◌<◌, ◌≡◌, refl, subst, ap, ◌∙◌, Bool, Bool-cases, inl, inr, true, List, [], ◌∷◌, ok,
  Result-cases, same_value, All, length, ◌≤◌, ◌↔◌, arith,
}
use nbnet.Std.Words.{u64_max}
use nbnet.Types.Config.{EvmChainConfig}
use nbnet.Types.Tx.{TxEnvelope}
use nbnet.State.External.{Vsdb, Revm}
use nbnet.Precompile.External.{Host}
use nbnet.Execution.External.{Interpreter}
use nbnet.Execution.Receipts.{GasBounded}
use nbnet.Execution.Executor.{EvmExecutor, submit_raw_tx}
use nbnet.Execution.History.{Step, Reach, IsExecutor, Reach-IsExecutor, LowNonce}
use nbnet.Rpc.External.{Serde, Codec}
use nbnet.Rpc.Json.{parse_call_params, hash_json}
use nbnet.Rpc.Message.{
  Outcome, Method, reading, estimate_gas, send_raw_transaction, call, method_of, JsonRpcRequest,
  EvmRpcState,
}
use nbnet.Rpc.Server.{
  serve, dispatch, run_call, send_raw, send_raw_param, raw_bytes, serve_all, Served,
}

-- The nonce of the transaction that the parameters hold stays below the largest `u64`.
abbrev pub IsLow :
    (E : Type 0) {J : Type 0} → ⦃tx : TxEnvelope E⦄ → ⦃js : Serde J⦄ → ⦃cx : Codec⦄ → J → Type 0
IsLow E params = (raw : List ℕ) → raw_bytes params ≡ ok raw → LowNonce E raw

same_single {ℓ} : {A : Type ℓ} {a b : A} → a ∷ [] ≡ b ∷ [] → a ≡ b
same_single p = cc

module _ {E : Type 0} ⦃tx : TxEnvelope E⦄ ⦃v : Vsdb⦄ ⦃r : Revm⦄ ⦃h : Host⦄ ⦃vm : Interpreter v r h⦄
    ⦃cx : Codec⦄ where
  send_raw-Reach :
      (J : Type 0) ⦃js : Serde J⦄ (s : EvmRpcState E v r) (raw : List ℕ)
      → Reach s.executor (submit_raw_tx s.executor raw).1
      → Reach s.executor (send_raw {J = J} s raw).executor
  unfolding send_raw
  send_raw-Reach J s raw path = elim (Result-cases (submit_raw_tx s.executor raw).0) [
    | inl (o, f) ↦ rw (f, send_raw) path
    | inr (c, f) ↦ rw (f, send_raw) path
  ]

module _ {E : Type 0} ⦃tx : TxEnvelope E⦄ ⦃v : Vsdb⦄ ⦃r : Revm⦄ ⦃h : Host⦄ ⦃vm : Interpreter v r h⦄
    {J : Type 0} ⦃js : Serde J⦄ ⦃cx : Codec⦄ where
  run_call-Reach :
      (x : EvmExecutor E v r) (code : _) (gas show : _) (params : J)
      → Reach x (run_call x code gas show params).executor
  unfolding run_call
  run_call-Reach x code gas show params = elim (Result-cases (parse_call_params params)) [
    | inl (p, e) ↦
        rw (e, run_call) (Reach.next Reach.here (Step.calls x p.from p.to p.input p.value (gas p)))
    | inr (p, e) ↦ rw (e, run_call) Reach.here
  ]

  send_raw_param-Reach :
      (s : EvmRpcState E v r) (params : J)
      → IsLow E params
      → Reach s.executor (send_raw_param s params).executor
  unfolding send_raw_param
  send_raw_param-Reach s params low = elim (Result-cases (raw_bytes params)) [
    | inl (raw, e) ↦
        rw (e, send_raw_param)
          (send_raw-Reach J s raw (Reach.next Reach.here (Step.submits s.executor raw (low raw e))))
    | inr (p, e) ↦ rw (e, send_raw_param) Reach.here
  ]

  serve-Reach :
      (s : EvmRpcState E v r) (m : Method) (name : String) (params : J)
      → IsLow E params
      → Reach s.executor (serve s m name params).executor
  unfolding serve
  serve-Reach s (reading q) name params low = Reach.here
  serve-Reach s estimate_gas name params low = run_call-Reach s.executor _ _ _ params
  serve-Reach s call name params low = run_call-Reach s.executor _ _ _ params
  serve-Reach s send_raw_transaction name params low = send_raw_param-Reach s params low

  -- Whatever sequence of requests is served, the executor keeps its configuration, its pool stays
  -- well formed with an exact hash index, and the gas of each stored block stays within the limit:
  -- where the interpreter respects gas limits, the block limit is below the largest u64, and so are
  -- the nonces of the transactions that the requests hold.
  pub serve_all-IsExecutor :
      (bounded : GasBounded vm) (config : EvmChainConfig) (reqs : List (JsonRpcRequest J))
      (s : EvmRpcState E v r)
      → config.block_gas_limit < u64_max
      → All (λ req. IsLow E req.params) reqs
      → IsExecutor config s.executor
      → IsExecutor config (serve_all s reqs).executor
  unfolding serve_all dispatch
  serve_all-IsExecutor bounded config [] s small low i = i
  serve_all-IsExecutor bounded config (req ∷ reqs) s small low i =
      let path = serve-Reach s (method_of req.method) req.method req.params low.0 in
      serve_all-IsExecutor bounded config reqs _ small low.1
        (Reach-IsExecutor bounded config small path i)

  -- Why a transaction is sent to the peers, and by what answer the client learns of it.
  pub record IsAnnounced (x : EvmExecutor E v r) (sink : Bool) (m : Method) (params : J)
      (o : Outcome J) (raw : List ℕ) : Type 0 where
    pub asked : m ≡ send_raw_transaction
    pub given : raw_bytes params ≡ ok raw
    pub has_sink : sink ≡ true
    pub hash : ℕ
    pub accepted : (submit_raw_tx x raw).0 ≡ ok hash
    pub answered : o ≡ ok (hash_json hash)

  -- At most one message, and exactly that of an announced transaction.
  abbrev pub Announces :
      EvmRpcState E v r → Method → J → Outcome J → List (List ℕ) → List ℕ → Type 0
  Announces s m params outcome broadcast raw =
      (length broadcast ≤ 1)
      × ((broadcast ≡ raw ∷ []) ↔ IsAnnounced s.executor s.network_sink m params outcome raw)

  send_raw-Announces :
      (s : EvmRpcState E v r) (params : J) (raw sent : List ℕ)
      → raw_bytes params ≡ ok sent
      → let served : Served E v r J = send_raw s sent in
        Announces s send_raw_transaction params served.outcome served.broadcast raw
  unfolding send_raw
  send_raw-Announces s params raw sent g = elim (Result-cases (submit_raw_tx s.executor sent).0) [
    | inr (c, f) ↦ rw (f, send_raw) (omega arith, (λ e. absurd cc, λ a. absurd cc))
    | inl (o, f) ↦ elim (Bool-cases s.network_sink) [
      | inl n ↦
          rw (f, n, send_raw)
            (
              omega arith,
              (
                λ e. record {
                  asked = refl;
                  given = g ∙ ap ok (same_single e);
                  has_sink = refl;
                  hash = o;
                  accepted = subst (λ b. (submit_raw_tx s.executor b).0 ≡ ok o) (same_single e) f;
                  answered = refl;
                },
                λ a. ap (λ b. b ∷ []) (same_value g a.given),
              ),
            )
      | inr n ↦
          rw (f, n, send_raw)
            (omega arith, (λ e. absurd cc, λ a. absurd (ground (arith, a.has_sink))))
    ]
  ]

  -- Nothing is sent by any other method.
  silent-Announces :
      (s : EvmRpcState E v r) (m : Method) (params : J) (o : Outcome J) (sent : List (List ℕ))
      (raw : List ℕ)
      → sent ≡ []
      → (IsAnnounced s.executor s.network_sink m params o raw → ⊥)
      → Announces s m params o sent raw
  silent-Announces s m params o sent raw e never =
      rw e (omega arith, (λ q. absurd cc, λ a. absurd (never a)))

  run_call-broadcast :
      (x : EvmExecutor E v r) (code : _) (gas show : _) (params : J)
      → (run_call x code gas show params).broadcast ≡ []
  unfolding run_call
  run_call-broadcast x code gas show params = elim (Result-cases (parse_call_params params)) [
    | inl (p, e) ↦ rw (e, run_call) refl
    | inr (p, e) ↦ rw (e, run_call) refl
  ]

  send_raw_param-Announces :
      (s : EvmRpcState E v r) (params : J) (raw : List ℕ)
      → let served : Served E v r J = send_raw_param s params in
        Announces s send_raw_transaction params served.outcome served.broadcast raw
  unfolding send_raw_param
  send_raw_param-Announces s params raw = elim (Result-cases (raw_bytes params)) [
    | inl (sent, e) ↦ rw (e, send_raw_param) (send_raw-Announces s params raw sent e)
    | inr (p, e) ↦
        rw (e, send_raw_param)
          (silent-Announces s send_raw_transaction params _ [] raw refl
            (λ a. absurd (ground (arith, e, a.given))))
  ]

  serve-Announces :
      (s : EvmRpcState E v r) (m : Method) (name : String) (params : J) (raw : List ℕ)
      → let served : Served E v r J = serve s m name params in
        Announces s m params served.outcome served.broadcast raw
  unfolding serve
  serve-Announces s (reading q) name params raw =
      silent-Announces s (reading q) params _ _ raw refl (λ a. absurd (ground (arith, a.asked)))
  serve-Announces s estimate_gas name params raw =
      silent-Announces s estimate_gas params _ _ raw (run_call-broadcast s.executor _ _ _ params)
        (λ a. absurd (ground (arith, a.asked)))
  serve-Announces s call name params raw =
      silent-Announces s call params _ _ raw (run_call-broadcast s.executor _ _ _ params)
        (λ a. absurd (ground (arith, a.asked)))
  serve-Announces s send_raw_transaction name params raw = send_raw_param-Announces s params raw

  -- A request leads to one message to the peers at most, and it leads to the message with certain
  -- bytes exactly where it is an eth_sendRawTransaction whose parameter decodes to those bytes,
  -- there is a network sink, the pool has accepted the bytes, and the client is answered with the
  -- hash that the pool gave.
  pub dispatch-Announces :
      (s : EvmRpcState E v r) (req : JsonRpcRequest J) (raw : List ℕ)
      → Announces s
          (method_of req.method)
          req.params
          (dispatch s req).1.outcome
          (dispatch s req).1.broadcast
          raw
  unfolding dispatch
  dispatch-Announces s req raw = serve-Announces s (method_of req.method) req.method req.params raw
