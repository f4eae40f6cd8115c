-- ===== src/Rpc/Receipts.antt =====
-- Receipts and blocks over crates/rpc/src/lib.rs: the hash that names a transaction, and the latest
-- block's transactions.
use Prim.Native.String.{String}
use nbnet.Prelude.{
  ℕ, zero, suc, ◌<◌, ◌≤◌, ◌^◌, ◌≡◌, refl, ap, none, List, [], ◌∷◌, length, get_elem?, ok, unwrap_or,
  map_option, arith,
}
use nbnet.Std.Bytes.{to_be_bytes, from_be-to_be, length-to_be, to_be_bytes-All}
use nbnet.Std.Text.{strip_0x_prefixed}
use nbnet.Types.Tx.{TxEnvelope}
use nbnet.TxPool.Pool.{SenderQueue}
use nbnet.State.External.{Vsdb, Revm}
use nbnet.Precompile.External.{Host}
use nbnet.Execution.External.{BlockContext, Interpreter}
use nbnet.Execution.Executor.{
  EvmExecutor, execute_block, on_commit, get_receipts, get_receipt_by_tx_hash,
}
use nbnet.Execution.Lookup.{get_receipts-execute_block}
use nbnet.Rpc.External.{Serde, Codec}
use nbnet.Rpc.Json.{
  prefixed, parse_b256_str, parse_hash_param, hash_json, hex_json, receipt_to_json,
}
use nbnet.Rpc.Message.{EvmRpcState, get_transaction_receipt}
use nbnet.Rpc.Readings.{query_block_number-height}
use nbnet.Rpc.Read.{read, receipt_answer, tx_count}

module _ (J : Type 0) ⦃js : Serde J⦄ ⦃cx : Codec⦄ where
  parse_hash_param-hash_json :
      (hash : ℕ)
      → hash < 256 ^ 32
      → parse_hash_param {J = J} (js.array (hash_json hash ∷ [])) ≡ ok hash
  unfolding parse_hash_param parse_b256_str hex_json
  parse_hash_param-hash_json hash h =
      let text = cx.encode (to_be_bytes 32 hash) in
      rw
        (
          js.as_array-array (hash_json hash ∷ []),
          js.as_str-string (prefixed text),
          strip_0x_prefixed text,
          cx.decode-encode (to_be_bytes 32 hash) (to_be_bytes-All 32 hash),
          length-to_be 32 hash,
        )
        (ap ok (from_be-to_be 32 hash h))

module _ {E : Type 0} ⦃v : Vsdb⦄ ⦃r : Revm⦄ (J : Type 0) ⦃js : Serde J⦄ ⦃cx : Codec⦄ where
  -- The hash that a submission returns names the transaction's receipt, or null where there is none.
  pub read-receipt :
      (s : EvmRpcState E v r) (name : String) (hash : ℕ)
      → hash < 256 ^ 32
      → read {J = J} s get_transaction_receipt name (js.array (hash_json hash ∷ []))
        ≡ ok (
            unwrap_or (map_option receipt_to_json (get_receipt_by_tx_hash s.executor hash)) js.null)
  unfolding read receipt_answer
  read-receipt s name hash h = rw (parse_hash_param-hash_json J hash h, receipt_answer) refl

get_elem?_out {ℓ} : {A : Type ℓ} (xs : List A) (i : ℕ) → length xs ≤ i → get_elem? xs i ≡ none
get_elem?_out [] i h = refl
get_elem?_out (x ∷ xs) zero h = absurd (omega arith)
get_elem?_out (x ∷ xs) (suc i) h = get_elem?_out xs i (omega arith)

module _ {E : Type 0} ⦃tx : TxEnvelope E⦄ ⦃v : Vsdb⦄ ⦃r : Revm⦄ ⦃h : Host⦄
    ⦃vm : Interpreter v r h⦄ where
  -- After a block is executed and committed at its height, the height being one more than the
  -- number of blocks before it, eth_getBlockByNumber reports no transaction, whatever the block
  -- holds; the height is a u64.
  pub tx_count-on_commit :
      (visit : List (ℕ × SenderQueue E) → List (ℕ × SenderQueue E)) (x : EvmExecutor E v r)
      (txs : List (List ℕ)) (ctx : BlockContext)
      → ctx.height ≡ suc (length x.receipts)
      → ctx.height < 256 ^ 8
      → tx_count (on_commit visit (execute_block x txs ctx).1 ctx) ≡ 0
  unfolding tx_count on_commit get_receipts
  tx_count-on_commit visit x txs ctx e small =
      let after = on_commit visit (execute_block x txs ctx).1 ctx in
      rw
        (
          query_block_number-height after small,
          get_receipts-execute_block x txs ctx ctx.height,
          get_elem?_out x.receipts ctx.height (omega (arith, e)),
        )
        (ground (arith, e))
