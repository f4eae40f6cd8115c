-- ===== src/TxPool/Submit.antt =====
-- `submit_tx` of crates/txpool/src/lib.rs. It returns the outcome and the new pool: an error can
-- leave an empty queue of the sender behind, which `entry(sender).or_default()` has made.
use nbnet.Prelude.{
  ℕ, ◌/◌, Bool, ◌||◌, Option, none, some, List, length, ltb, leb, ◌==◌, if◌then◌else◌, unwrap_or,
  map_option, Result, ok, err, nat_eq,
}
use nbnet.Std.Words.{u64_max, saturating_sub, saturating_mul, wrapping_add}
use nbnet.Std.HashMap
use nbnet.Std.HashMap.{HashMap}
use nbnet.Std.BTreeMap
use nbnet.Std.BTreeMap.{BTreeMap}
use nbnet.Types.Tx.{TxEnvelope, VerifiedTx, TxError, decode_and_recover, effective_gas_tip}
use nbnet.TxPool.Pool.{
  EvmTxPoolConfig, PoolEntry, SenderQueue, PoolInner, EvmTxPool, empty_queue, promote_queued_static,
}

-- The error messages of `submit_tx`.
pub data SubmitError : Type 0 where
  undecodable : TxError → SubmitError
  already_known : SubmitError
  nonce_too_low : (tx_nonce current_nonce : ℕ) → SubmitError
  replacement_underpriced : (min_tip got : ℕ) → SubmitError
  queue_full : SubmitError

-- The least tip that replaces a transaction of the given tip.
unfoldable pub min_tip : EvmTxPoolConfig → ℕ → ℕ
min_tip config tip = saturating_mul u64_max tip (wrapping_add 100 config.replacement_bump_pct) / 100

-- The hash index after an insertion.
unfoldable pub index_entry : HashMap ℕ ℕ → Option ℕ → ℕ → ℕ → HashMap ℕ ℕ
index_entry by_hash none tx_hash sender = HashMap.insert by_hash tx_hash sender
index_entry by_hash (some old_hash) tx_hash sender =
    HashMap.insert (HashMap.remove by_hash old_hash) tx_hash sender

module _ {E : Type 0} where
  -- The replacement check, the capacity check and the insertion into the chosen side of the queue:
  -- the new side, and the hash of the entry that was replaced.
  unfoldable pub put_entry :
      EvmTxPoolConfig
      → ℕ
      → BTreeMap (PoolEntry E)
      → ℕ
      → PoolEntry E
      → Result (BTreeMap (PoolEntry E) × Option ℕ) SubmitError
  put_entry config limit target nonce entry = elim (BTreeMap.get target nonce) [
    | none ↦
        if leb limit (length target)
        then err queue_full
        else ok (BTreeMap.insert target nonce entry, none)
    | some existing ↦
        if ltb entry.effective_tip (min_tip config existing.effective_tip)
        then err
            (replacement_underpriced (min_tip config existing.effective_tip) entry.effective_tip)
        else ok (BTreeMap.insert target nonce entry, some existing.verified.tx_hash)
  ]

  -- Whether the transaction continues the account's nonces.
  unfoldable pub is_pending : SenderQueue E → ℕ → ℕ → Bool
  is_pending queue tx_nonce current_nonce =
      tx_nonce == current_nonce || BTreeMap.contains_key queue.pending (saturating_sub tx_nonce 1)

  -- Insertion into `pending` or `queued`.
  unfoldable pub put_queue :
      EvmTxPoolConfig
      → SenderQueue E
      → ℕ
      → ℕ
      → PoolEntry E
      → Result (SenderQueue E × Option ℕ) SubmitError
  put_queue config queue tx_nonce current_nonce entry =
      if is_pending queue tx_nonce current_nonce
      then elim (put_entry config config.max_pending_per_sender queue.pending tx_nonce entry) [
        | err e ↦ err e
        | ok (pending, old_hash) ↦ ok (record queue { pending = pending }, old_hash)
      ]
      else elim (put_entry config config.max_queued_per_sender queue.queued tx_nonce entry) [
        | err e ↦ err e
        | ok (queued, old_hash) ↦ ok (record queue { queued = queued }, old_hash)
      ]

module _ {E : Type 0} ⦃tx : TxEnvelope E⦄ where
  -- The part below the two early returns.
  unfoldable pub add_entry :
      EvmTxPoolConfig → PoolInner E → PoolEntry E → ℕ → Result ℕ SubmitError × PoolInner E
  add_entry config inner entry current_nonce =
      let sender = entry.verified.sender in
      let queue = HashMap.or_default empty_queue inner.senders sender in
      let senders = HashMap.insert inner.senders sender queue in
      elim (put_queue config queue (tx.nonce entry.verified.envelope) current_nonce entry) [
        | err e ↦ (err e, record inner { senders = senders })
        | ok (queue', old_hash) ↦ (
          ok entry.verified.tx_hash,
          record inner {
            senders = HashMap.insert senders sender (promote_queued_static queue' current_nonce);
            by_hash = index_entry inner.by_hash old_hash entry.verified.tx_hash sender;
          },
        )
      ]

  -- `nonce_fn` applied to the sender, or 0.
  unfoldable pub lookup_nonce : PoolInner E → ℕ → ℕ
  lookup_nonce inner sender = unwrap_or (map_option (λ f. f sender) inner.nonce_fn) 0

  unfoldable pub submit_verified :
      EvmTxPoolConfig → PoolInner E → VerifiedTx E → Result ℕ SubmitError × PoolInner E
  submit_verified config inner verified =
      let tx_nonce = tx.nonce verified.envelope in
      let current_nonce = lookup_nonce inner verified.sender in
      let entry : PoolEntry E = record {
        verified = verified;
        effective_tip = effective_gas_tip verified.envelope config.base_fee;
      } in
      if HashMap.contains_key inner.by_hash verified.tx_hash
      then (err already_known, inner)
      else if ltb tx_nonce current_nonce
      then (err (nonce_too_low tx_nonce current_nonce), inner)
      else add_entry config inner entry current_nonce

  unfoldable pub submit_tx : EvmTxPool E → List ℕ → Result ℕ SubmitError × EvmTxPool E
  submit_tx pool raw = elim (decode_and_recover raw) [
    | err e ↦ (err (undecodable e), pool)
    | ok verified ↦
        let (outcome, inner) = submit_verified pool.config pool.inner verified in
        (outcome, record pool { inner = inner })
  ]
