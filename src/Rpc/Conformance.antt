-- ===== src/Rpc/Conformance.antt =====
-- crates/rpc/src/lib.rs: what `dispatch` answers to any request, as JSON-RPC 2.0 has it.
use Prim.Native.String.{String}
use nbnet.Prelude.{
  ◌≡◌, refl, ◌⊎◌, inl, inr, Option, none, some, Result, ok, err, Result-cases, pos, subst,
}
use nbnet.Types.Tx.{TxEnvelope}
use nbnet.State.External.{Vsdb, Revm}
use nbnet.Precompile.External.{Host}
use nbnet.Execution.External.{Interpreter}
use nbnet.Execution.Executor.{EvmExecutor, submit_raw_tx, eth_call}
use nbnet.Rpc.External.{Serde, Codec}
use nbnet.Rpc.Json.{
  parse_call_params, parse_hash_param, parse_addr_block, parse_address, parse_u256,
}
use nbnet.Rpc.Message.{
  Outcome, minus, checked, respond, Query, reading, Method, method_of, chain_id, net_version,
  client_version, block_number, get_balance, get_transaction_count, get_code, get_storage_at,
  gas_price, estimate_gas, max_priority_fee, send_raw_transaction, call, get_transaction_receipt,
  get_transaction_by_hash, get_logs_method, get_block_by_number, get_block_by_hash, fee_history,
  syncing, accounts, unknown, JsonRpcRequest, JsonRpcError, EvmRpcState, invalid_params,
  call_failed, submit_failed, method_not_found,
}
use nbnet.Rpc.Read.{read, slot_params, receipt_answer}
use nbnet.Rpc.Server.{serve, dispatch, run_call, send_raw, send_raw_param, raw_bytes}

-- The code that goes with a message, in the answer to a method.
abbrev pub Coded : Method → String → JsonRpcError → Type 0
Coded m name e = elim e.message [
  | invalid_params p ↦ e.code ≡ minus 32602
  | call_failed c ↦ (m ≡ call) × (e.code ≡ pos 3) ⊎ (m ≡ estimate_gas) × (e.code ≡ minus 32000)
  | submit_failed c ↦ (m ≡ send_raw_transaction) × (e.code ≡ minus 32000)
  | method_not_found n ↦ (m ≡ reading unknown) × (n ≡ name) × (e.code ≡ minus 32601)
]

abbrev pub IsCoded : {J : Type 0} → Method → String → Outcome J → Type 0
IsCoded m name (ok result) = Unit
IsCoded m name (err e) = Coded m name e

-- Exactly one of the result and the error, and the error coded.
abbrev pub OneOf : {J : Type 0} → Method → String → Option J → Option JsonRpcError → Type 0
OneOf m name (some x) none = Unit
OneOf m name none (some e) = Coded m name e
OneOf m name _ _ = ⊥

module _ {J : Type 0} (m : Method) (name : String) where
  checked-IsCoded :
      {A : Type 0} (a : Result A _) (f : A → Outcome J)
      → ((x : A) → IsCoded m name (f x))
      → IsCoded m name (checked a f)
  checked-IsCoded (ok x) f h = h x
  checked-IsCoded (err e) f h = refl

module _ {E : Type 0} ⦃v : Vsdb⦄ ⦃r : Revm⦄ {J : Type 0} ⦃js : Serde J⦄ ⦃cx : Codec⦄ where
  receipt_answer-IsCoded :
      (x : EvmExecutor E v r) (show : _) (params : J) (m : Method) (name : String)
      → IsCoded m name (receipt_answer x show params)
  unfolding receipt_answer
  receipt_answer-IsCoded x show params m name =
      checked-IsCoded m name (parse_hash_param params) _ (λ hash. tt)

  read-IsCoded :
      (s : EvmRpcState E v r) (q : Query) (name : String) (params : J)
      → IsCoded (reading q) name (read s q name params)
  unfolding read
  read-IsCoded s chain_id name params = tt
  read-IsCoded s net_version name params = tt
  read-IsCoded s client_version name params = tt
  read-IsCoded s block_number name params = tt
  read-IsCoded s get_balance name params =
      checked-IsCoded (reading get_balance) name (parse_addr_block params) _ (λ p. tt)
  read-IsCoded s get_transaction_count name params =
      checked-IsCoded (reading get_transaction_count) name (parse_addr_block params) _ (λ p. tt)
  read-IsCoded s get_code name params =
      checked-IsCoded (reading get_code) name (parse_addr_block params) _ (λ p. tt)
  read-IsCoded s get_storage_at name params =
      checked-IsCoded (reading get_storage_at) name (slot_params params) _ (λ p.
        checked-IsCoded (reading get_storage_at) name (parse_address p.0) _
          (λ addr. checked-IsCoded (reading get_storage_at) name (parse_u256 p.1) _ (λ slot. tt)))
  read-IsCoded s gas_price name params = tt
  read-IsCoded s max_priority_fee name params = tt
  read-IsCoded s get_transaction_receipt name params =
      receipt_answer-IsCoded s.executor _ params (reading get_transaction_receipt) name
  read-IsCoded s get_transaction_by_hash name params =
      receipt_answer-IsCoded s.executor _ params (reading get_transaction_by_hash) name
  read-IsCoded s get_logs_method name params = tt
  read-IsCoded s get_block_by_number name params = tt
  read-IsCoded s get_block_by_hash name params = tt
  read-IsCoded s fee_history name params = tt
  read-IsCoded s syncing name params = tt
  read-IsCoded s accounts name params = tt
  read-IsCoded s unknown name params = (refl, refl, refl)

module _ {E : Type 0} ⦃tx : TxEnvelope E⦄ ⦃v : Vsdb⦄ ⦃r : Revm⦄ ⦃h : Host⦄ ⦃vm : Interpreter v r h⦄
    {J : Type 0} ⦃js : Serde J⦄ ⦃cx : Codec⦄ where
  run_call-IsCoded :
      (x : EvmExecutor E v r) (m : Method) (name : String) (code : _) (gas show : _) (params : J)
      → (m ≡ call) × (code ≡ pos 3) ⊎ (m ≡ estimate_gas) × (code ≡ minus 32000)
      → IsCoded m name (run_call x code gas show params).outcome
  unfolding run_call
  run_call-IsCoded x m name code gas show params known =
      elim (Result-cases (parse_call_params params)) [
        | inl (p, e) ↦ elim (Result-cases (eth_call x p.from p.to p.input p.value (gas p)).0) [
          | inl (o, f) ↦ rw (e, f, run_call) tt
          | inr (c, f) ↦ rw (e, f, run_call) known
        ]
        | inr (p, e) ↦ rw (e, run_call) refl
      ]

  send_raw_param-IsCoded :
      (s : EvmRpcState E v r) (name : String) (params : J)
      → IsCoded send_raw_transaction name (send_raw_param s params).outcome
  unfolding send_raw_param send_raw
  send_raw_param-IsCoded s name params = elim (Result-cases (raw_bytes params)) [
    | inl (raw, e) ↦ elim (Result-cases (submit_raw_tx s.executor raw).0) [
      | inl (o, f) ↦ rw (e, f, send_raw_param, send_raw) tt
      | inr (c, f) ↦ rw (e, f, send_raw_param, send_raw) (refl, refl)
    ]
    | inr (p, e) ↦ rw (e, send_raw_param) refl
  ]

  serve-IsCoded :
      (s : EvmRpcState E v r) (m : Method) (name : String) (params : J)
      → IsCoded m name (serve s m name params).outcome
  unfolding serve
  serve-IsCoded s (reading q) name params = read-IsCoded s q name params
  serve-IsCoded s estimate_gas name params =
      run_call-IsCoded s.executor estimate_gas name _ _ _ params (inr (refl, refl))
  serve-IsCoded s call name params =
      run_call-IsCoded s.executor call name _ _ _ params (inl (refl, refl))
  serve-IsCoded s send_raw_transaction name params = send_raw_param-IsCoded s name params

  -- Every response has the version 2.0, the id of its request, and exactly one of a result and an
  -- error. The code of an error fits its message: -32602 for parameters, -32601 for a method that
  -- the server does not know, with that method's name, 3 for a failed eth_call, -32000 for a failed
  -- eth_estimateGas and for a refused transaction.
  pub dispatch-OneOf :
      (s : EvmRpcState E v r) (req : JsonRpcRequest J)
      → ((dispatch s req).0.jsonrpc ≡ "2.0")
        × ((dispatch s req).0.id ≡ req.id)
        × OneOf (method_of req.method) req.method (dispatch s req).0.result (dispatch s req).0.error
  unfolding dispatch respond
  dispatch-OneOf s req =
      let coded = serve-IsCoded s (method_of req.method) req.method req.params in
      elim (Result-cases (serve s (method_of req.method) req.method req.params).outcome) [
        | inl (x, e) ↦ rw e (refl, refl, tt)
        | inr (x, e) ↦ rw e (refl, refl, subst (IsCoded (method_of req.method) req.method) e coded)
      ]
