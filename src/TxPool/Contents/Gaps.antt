-- ===== src/TxPool/Contents/Gaps.antt =====
-- crates/txpool/src/lib.rs: queues with a gap. Promotion starts above the last pending nonce, so what
-- is queued below it stays where it is.
use nbnet.Prelude.{
  ℕ, zero, suc, ◌≤◌, ◌<◌, ◌≡◌, refl, ◌∙◌, true, false, none, some, List, [], ◌∷◌, length, leb,
  arith, inl, inr, Option-cases, ok, nat_eq, ltb,
}
use nbnet.Std.Words.{u64_max}
use nbnet.Std.HashMap
use nbnet.Std.BTreeMap
use nbnet.Std.BTreeMap.{last_key_ge}
use nbnet.Types.Tx.{TxEnvelope, VerifiedTx, decode_and_recover}
use nbnet.TxPool.Pool.{
  PoolEntry, SenderQueue, EvmTxPool, promote_loop, next_nonce, promote_queued_static,
}
use nbnet.TxPool.Submit.{
  put_entry, put_queue, is_pending, add_entry, lookup_nonce, submit_verified, submit_tx,
}
use nbnet.TxPool.Tally.{IsQueue}
use nbnet.TxPool.Promotion.{Ready, moved, next_in_range, moved-Ready, start-Ready, wrapping_next}
use nbnet.TxPool.Index.{IsPool, queue_of}
use nbnet.TxPool.Contents.{held}
use nbnet.TxPool.Contents.Insertion.{entry_of, submit_tx-held}

module _ {E : Type 0} where
  promote_loop-behind :
      (fuel next : ℕ) (q : SenderQueue E) (n : ℕ)
      → Ready next q
      → n < next
      → BTreeMap.get (promote_loop fuel next q).queued n ≡ BTreeMap.get q.queued n
  unfolding promote_loop
  promote_loop-behind zero next q n r h = refl
  promote_loop-behind (suc fuel) next q n r h = elim (Option-cases (BTreeMap.get q.queued next)) [
    | inl stop ↦ rw (stop, promote_loop) refl
    | inr (entry, found) ↦
        let low = next_in_range next q entry r found in
        rw (found, promote_loop, wrapping_next next low)
          (promote_loop-behind fuel (suc next) (moved next q entry) n
              (moved-Ready next q entry r low) (omega arith)
            ∙ ground (arith, BTreeMap.get-remove q.queued next n))
  ]

  -- A queued transaction below the last pending nonce stays queued, also where the nonce before it
  -- is pending.
  pub promote_queued_static-behind :
      (current : ℕ) (q : SenderQueue E) (last n : ℕ)
      → IsQueue q
      → current ≤ u64_max
      → BTreeMap.last_key q.pending ≡ some last
      → n ≤ last
      → BTreeMap.get (promote_queued_static q current).queued n ≡ BTreeMap.get q.queued n
  unfolding promote_queued_static next_nonce
  promote_queued_static-behind current q last n s h e le =
      promote_loop-behind (length q.queued) (next_nonce q current) q n (start-Ready current q s h) (
        rw
          (
            e,
            next_nonce,
            wrapping_next last (last_key_ge 0 u64_max q.pending last s.pending_keys e).1,
          )
          (omega arith))

module _ {E : Type 0} ⦃tx : TxEnvelope E⦄ where
  -- Where the nonce continues the pending ones and is free, there is room, and the transaction is
  -- new, it is accepted.
  submit_tx-ok :
      (pool : EvmTxPool E) (raw : List ℕ) (t : VerifiedTx E)
      → decode_and_recover raw ≡ ok t
      → HashMap.contains_key pool.inner.by_hash t.tx_hash ≡ false
      → lookup_nonce pool.inner t.sender ≤ tx.nonce t.envelope
      → is_pending
          (queue_of pool.inner.senders t.sender)
          (tx.nonce t.envelope)
          (lookup_nonce pool.inner t.sender)
        ≡ true
      → BTreeMap.get (queue_of pool.inner.senders t.sender).pending (tx.nonce t.envelope) ≡ none
      → length (queue_of pool.inner.senders t.sender).pending < pool.config.max_pending_per_sender
      → (submit_tx pool raw).0 ≡ ok t.tx_hash
  unfolding submit_tx submit_verified add_entry put_queue put_entry queue_of
  submit_tx-ok pool raw t e fresh ge continues vacant room =
      let q = queue_of pool.inner.senders t.sender in
      let current : ltb (tx.nonce t.envelope) (lookup_nonce pool.inner t.sender) ≡ false =
        ground arith in
      let space : leb pool.config.max_pending_per_sender (length q.pending) ≡ false =
        ground arith in
      rw
        (
          e, submit_tx, fresh, submit_verified, current, add_entry, put_queue, continues, put_entry,
          vacant, space,
        )
        refl

  -- In a well-formed pool where another transaction of the same sender and nonce is queued, a
  -- transaction that continues the pending ones is accepted whatever its tip, and the pool then
  -- holds both: where it decodes, its hash is new, its nonce is below the largest u64 and not below
  -- the account's nonce, its place among the pending ones is free, and there is room among them.
  pub submit_tx-second :
      (pool : EvmTxPool E) (raw : List ℕ) (t : VerifiedTx E) (old : PoolEntry E)
      → decode_and_recover raw ≡ ok t
      → IsPool pool.inner
      → tx.nonce t.envelope < u64_max
      → HashMap.contains_key pool.inner.by_hash t.tx_hash ≡ false
      → lookup_nonce pool.inner t.sender ≤ tx.nonce t.envelope
      → is_pending
          (queue_of pool.inner.senders t.sender)
          (tx.nonce t.envelope)
          (lookup_nonce pool.inner t.sender)
        ≡ true
      → BTreeMap.get (queue_of pool.inner.senders t.sender).pending (tx.nonce t.envelope) ≡ none
      → length (queue_of pool.inner.senders t.sender).pending < pool.config.max_pending_per_sender
      → BTreeMap.get (queue_of pool.inner.senders t.sender).queued (tx.nonce t.envelope) ≡ some old
      → ((submit_tx pool raw).0 ≡ ok t.tx_hash)
        × (held (queue_of (submit_tx pool raw).1.inner.senders t.sender) (tx.nonce t.envelope)
            ≡ entry_of pool.config t ∷ old ∷ [])
  submit_tx-second pool raw t old e i low fresh ge continues vacant room stands =
      let accepted : (submit_tx pool raw).0 ≡ ok t.tx_hash =
        submit_tx-ok pool raw t e fresh ge continues vacant room in
      (
        accepted,
        (rw accepted at (submit_tx-held pool raw t e i low)).2 t.sender (tx.nonce t.envelope)
            ∙ ground (arith, continues, stands),
      )
