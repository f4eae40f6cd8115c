-- ===== src/Rpc/Read.antt =====
-- crates/rpc/src/lib.rs: the arms of `dispatch` that only read the executor.
use Prim.Native.String.{String}
use nbnet.Prelude.{
  ℕ, false, some, [], ◌∷◌, length, unwrap_or, map_option, Result, ok, err, replicate,
}
use nbnet.Std.Text.{decimal_u64}
use nbnet.Types.Receipt.{EvmReceipt}
use nbnet.State.External.{Vsdb, Revm}
use nbnet.Execution.Executor.{EvmExecutor, get_receipts, get_receipt_by_tx_hash}
use nbnet.Rpc.External.{Serde, Codec}
use nbnet.Rpc.Json.{
  ParamError, plain, parse_addr_block, parse_address, parse_u256, parse_hash_param, to_hex_u64,
  to_hex_u256, hex_json, address_json, hash_json, optional_address, literal, receipt_to_json,
}
use nbnet.Rpc.Queries.{query_balance, query_nonce, query_block_number, query_code, query_storage}
use nbnet.Rpc.Logs.{get_logs}
use nbnet.Rpc.Message.{
  method_not_found, EvmRpcState, Query, unknown, chain_id, net_version, client_version,
  block_number, get_balance, get_transaction_count, get_code, get_storage_at, gas_price,
  max_priority_fee, get_transaction_receipt, get_transaction_by_hash, get_logs_method,
  get_block_by_number, get_block_by_hash, fee_history, syncing, accounts, Outcome, minus, fail,
  checked,
}

module _ {J : Type 0} ⦃js : Serde J⦄ where
  -- The elements of `[addr, slot, …]`.
  unfoldable pub slot_params : J → Result (J × J) ParamError
  slot_params params = elim (js.as_array params) [
    | some (a ∷ b ∷ rest) ↦ ok (a, b)
    | _ ↦ err (plain "expected [addr, slot, block]")
  ]

module _ {J : Type 0} ⦃js : Serde J⦄ ⦃cx : Codec⦄ where
  -- What is known of a transaction: only its receipt.
  unfoldable pub transaction_json : EvmReceipt → J
  transaction_json x = js.object (
      ("hash", hash_json x.tx_hash)
      ∷ ("blockNumber", to_hex_u64 x.block_number)
      ∷ ("blockHash", hash_json x.block_hash)
      ∷ ("transactionIndex", to_hex_u64 x.tx_index)
      ∷ ("from", address_json x.from)
      ∷ ("to", optional_address x.to)
      ∷ ("value", literal "0x0")
      ∷ ("gas", to_hex_u64 x.gas_used)
      ∷ ("gasPrice", to_hex_u256 x.effective_gas_price)
      ∷ [])

module _ {E : Type 0} ⦃v : Vsdb⦄ ⦃r : Revm⦄ where
  -- How many transactions `eth_getBlockByNumber` reports.
  unfoldable pub tx_count : EvmExecutor E v r → ℕ
  tx_count x = unwrap_or (map_option length (get_receipts x (query_block_number x))) 0

module _ {E : Type 0} ⦃v : Vsdb⦄ ⦃r : Revm⦄ {J : Type 0} ⦃js : Serde J⦄ ⦃cx : Codec⦄ where
  unfoldable pub block_json : EvmExecutor E v r → J
  block_json x = js.object (
      ("number", to_hex_u64 (query_block_number x))
      ∷ ("hash", hash_json 0)
      ∷ ("parentHash", hash_json 0)
      ∷ ("timestamp", literal "0x0")
      ∷ ("gasLimit", to_hex_u64 x.state.config.block_gas_limit)
      ∷ ("gasUsed", literal "0x0")
      ∷ ("baseFeePerGas", to_hex_u64 x.state.config.base_fee_per_gas)
      ∷ ("miner", address_json 0)
      ∷ ("transactions", js.array (replicate (tx_count x) js.null))
      ∷ [])

  unfoldable pub fee_history_json : EvmExecutor E v r → J
  fee_history_json x =
      let base_fee = to_hex_u64 x.state.config.base_fee_per_gas in
      js.object (
        ("oldestBlock", literal "0x0")
        ∷ ("baseFeePerGas", js.array (base_fee ∷ base_fee ∷ []))
        ∷ ("gasUsedRatio", js.array (js.float_zero ∷ []))
        ∷ ("reward", js.array (js.array (to_hex_u64 1_000_000_000 ∷ []) ∷ []))
        ∷ [])

  -- The receipt that a hash names, or null.
  unfoldable pub receipt_answer : EvmExecutor E v r → (EvmReceipt → J) → J → Outcome J
  receipt_answer x show params =
      checked (parse_hash_param params)
        (λ hash. ok (unwrap_or (map_option show (get_receipt_by_tx_hash x hash)) js.null))

  -- The methods that only read.
  unfoldable pub read : EvmRpcState E v r → Query → String → J → Outcome J
  read s chain_id name params = ok (to_hex_u64 s.chain_id)
  read s net_version name params = ok (js.string (decimal_u64 s.chain_id))
  read s client_version name params = ok (literal "nbnet/0.1.0")
  read s block_number name params = ok (to_hex_u64 (query_block_number s.executor))
  read s get_balance name params =
      checked (parse_addr_block params) (λ p. ok (to_hex_u256 (query_balance s.executor p.0)))
  read s get_transaction_count name params =
      checked (parse_addr_block params) (λ p. ok (to_hex_u64 (query_nonce s.executor p.0)))
  read s get_code name params =
      checked (parse_addr_block params) (λ p. ok (hex_json (query_code s.executor p.0)))
  read s get_storage_at name params = checked (slot_params params) (λ p.
      checked (parse_address p.0) (λ addr.
        checked (parse_u256 p.1) (λ slot. ok (to_hex_u256 (query_storage s.executor addr slot)))))
  read s gas_price name params = ok (to_hex_u64 s.executor.state.config.base_fee_per_gas)
  read s max_priority_fee name params = ok (to_hex_u64 1_000_000_000)
  read s get_transaction_receipt name params = receipt_answer s.executor receipt_to_json params
  read s get_transaction_by_hash name params = receipt_answer s.executor transaction_json params
  read s get_logs_method name params = ok (js.array (get_logs s.executor params))
  read s get_block_by_number name params = ok (block_json s.executor)
  read s get_block_by_hash name params = ok js.null
  read s fee_history name params = ok (fee_history_json s.executor)
  read s syncing name params = ok (js.bool false)
  read s accounts name params = ok (js.array [])
  read s unknown name params = fail (minus 32601) (method_not_found name)
