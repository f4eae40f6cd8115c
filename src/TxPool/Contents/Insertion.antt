-- ===== src/TxPool/Contents/Insertion.antt =====
-- crates/txpool/src/lib.rs: exactly what `submit_tx` puts into the pool.
use nbnet.Prelude.{
  ℕ, ◌≤◌, ◌<◌, ◌≡◌, refl, ap, ◌∙◌, ◌&&◌, Option, List, [], ◌∷◌, ◌++◌, ltb, ◌==◌, ==_iff,
  if◌then◌else◌, arith, inl, inr, Bool-cases, Result-cases, Result, ok, err, nat_eq,
}
use nbnet.Std.Words.{u64_max}
use nbnet.Std.HashMap
use nbnet.Std.HashMap.{HashMap}
use nbnet.Std.BTreeMap
use nbnet.Std.BTreeMap.{insert-Keys}
use nbnet.Types.Tx.{TxEnvelope, VerifiedTx, decode_and_recover, effective_gas_tip}
use nbnet.TxPool.Pool.{
  EvmTxPoolConfig, PoolEntry, SenderQueue, PoolInner, EvmTxPool, promote_queued_static,
}
use nbnet.TxPool.Submit.{
  SubmitError, put_entry, put_queue, is_pending, add_entry, lookup_nonce, submit_verified,
  submit_tx,
}
use nbnet.TxPool.SubmitKeeps.{put_entry-Replaces, put_queue-cases}
use nbnet.TxPool.Tally.{IsQueue}
use nbnet.TxPool.Errors.{same_queues}
use nbnet.TxPool.Index.{IsPool, queue_of, queue_of-insert, with_queue}
use nbnet.TxPool.Contents.{held, listed, promote_queued_static-held}

module _ {E : Type 0} where
  -- What a nonce holds with a new entry: the entry takes the place of the one on its side.
  abbrev pub placed : SenderQueue E → ℕ → ℕ → PoolEntry E → List (PoolEntry E)
  placed q nonce current entry =
      if is_pending q nonce current
      then entry ∷ listed (BTreeMap.get q.queued nonce)
      else listed (BTreeMap.get q.pending nonce) ++ entry ∷ []

  put_queue-held :
      (config : EvmTxPoolConfig) (q : SenderQueue E) (nonce current : ℕ) (entry : PoolEntry E)
      (q' : SenderQueue E) (old_hash : Option ℕ) (n : ℕ)
      → put_queue config q nonce current entry ≡ ok (q', old_hash)
      → held q' n ≡ (if nonce == n then placed q nonce current entry else held q n)
  unfolding put_queue
  put_queue-held config q nonce current entry q' old_hash n h =
      elim (Bool-cases (is_pending q nonce current)) [
        | inl p ↦
            elim (Result-cases
              (put_entry config config.max_pending_per_sender q.pending nonce entry)) [
                | inl ((side, old), e) ↦
                    let r = (put_entry-Replaces config _ q.pending nonce entry side old e).0 in
                    ground (arith, r, BTreeMap.get-insert q.pending nonce n entry)
                | inr (x, e) ↦ absurd (ground arith)
              ]
        | inr p ↦
            elim (Result-cases
              (put_entry config config.max_queued_per_sender q.queued nonce entry)) [
                | inl ((side, old), e) ↦
                    let r = (put_entry-Replaces config _ q.queued nonce entry side old e).0 in
                    ground (arith, r, BTreeMap.get-insert q.queued nonce n entry)
                | inr (x, e) ↦ absurd (ground arith)
              ]
      ]

  put_queue-IsQueue :
      (config : EvmTxPoolConfig) (q : SenderQueue E) (nonce current : ℕ) (entry : PoolEntry E)
      (q' : SenderQueue E) (old_hash : Option ℕ)
      → nonce < u64_max
      → IsQueue q
      → put_queue config q nonce current entry ≡ ok (q', old_hash)
      → IsQueue q'
  put_queue-IsQueue config q nonce current entry q' old_hash low s h =
      elim (put_queue-cases config q nonce current entry q' old_hash h) [
        | inl (e, r) ↦ rw e (record {
          pending_keys =
              insert-Keys 0 u64_max q.pending nonce entry (omega arith) low s.pending_keys;
          queued_keys = s.queued_keys;
        })
        | inr (e, r) ↦ rw e (record {
          pending_keys = s.pending_keys;
          queued_keys = insert-Keys 0 u64_max q.queued nonce entry (omega arith) low s.queued_keys;
        })
      ]

module _ {E : Type 0} ⦃tx : TxEnvelope E⦄ where
  -- The entry that the pool makes of a decoded transaction.
  abbrev pub entry_of : EvmTxPoolConfig → VerifiedTx E → PoolEntry E
  entry_of config t = record {
    verified = t;
    effective_tip = effective_gas_tip t.envelope config.base_fee;
  }

  -- A refusal leaves what is held; an acceptance places the entry under its sender and nonce, and
  -- leaves what is held elsewhere.
  abbrev pub Places :
      EvmTxPoolConfig → PoolInner E → VerifiedTx E → Result ℕ SubmitError → PoolInner E → Type 0
  Places config before t (err e) after =
      (a n : ℕ) → held (queue_of after.senders a) n ≡ held (queue_of before.senders a) n
  Places config before t (ok hash) after =
      (hash ≡ t.tx_hash)
      × (lookup_nonce before t.sender ≤ tx.nonce t.envelope)
      × ((a n : ℕ)
          → held (queue_of after.senders a) n ≡ (
              if t.sender == a && tx.nonce t.envelope == n
              then placed (queue_of before.senders t.sender) n (lookup_nonce before t.sender)
                  (entry_of config t)
              else held (queue_of before.senders a) n))

  add_entry-held :
      (config : EvmTxPoolConfig) (inner : PoolInner E) (t : VerifiedTx E)
      → IsPool inner
      → tx.nonce t.envelope < u64_max
      → lookup_nonce inner t.sender ≤ tx.nonce t.envelope
      → Places config inner t
          (add_entry config inner (entry_of config t) (lookup_nonce inner t.sender)).0
          (add_entry config inner (entry_of config t) (lookup_nonce inner t.sender)).1
  unfolding add_entry queue_of
  add_entry-held config inner t i low ge =
      let a = t.sender in
      let nonce = tx.nonce t.envelope in
      let current = lookup_nonce inner a in
      let entry = entry_of config t in
      let q = queue_of inner.senders a in
      elim (Result-cases (put_queue config q nonce current entry)) [
        | inr (x, e) ↦ rw (e, add_entry) (λ b n. ap (λ p. held p n) (same_queues inner.senders a b))
        | inl ((q', old), e) ↦
            let shape = put_queue-IsQueue config q nonce current entry q' old low (i.shape a) e in
            rw (e, add_entry)
              (
                refl,
                ge,
                λ b n.
                    ap (λ p. held p n)
                      (queue_of-insert (HashMap.insert inner.senders a q) a b
                        (promote_queued_static q' current))
                    ∙ stored q' b n (
                        promote_queued_static-held current q' n shape (omega arith)
                        ∙ put_queue-held config q nonce current entry q' old n e),
              )
      ]
    where
      stored :
          (q' : SenderQueue E) (b n : ℕ)
          → held (promote_queued_static q' (lookup_nonce inner t.sender)) n ≡ (
              if tx.nonce t.envelope == n
              then placed
                  (queue_of inner.senders t.sender)
                  (tx.nonce t.envelope)
                  (lookup_nonce inner t.sender)
                  (entry_of config t)
              else held (queue_of inner.senders t.sender) n)
          → held
              (with_queue
                (HashMap.insert inner.senders t.sender (queue_of inner.senders t.sender))
                t.sender
                (promote_queued_static q' (lookup_nonce inner t.sender))
                b)
              n
            ≡ (if t.sender == b && tx.nonce t.envelope == n
                then placed
                    (queue_of inner.senders t.sender)
                    n
                    (lookup_nonce inner t.sender)
                    (entry_of config t)
                else held (queue_of inner.senders b) n)
      stored q' b n now = elim (Bool-cases (t.sender == b)) [
        | inr e ↦ rw e (ap (λ p. held p n) (same_queues inner.senders t.sender b))
        | inl e ↦
            let own : queue_of inner.senders t.sender ≡ queue_of inner.senders b =
              ap (queue_of inner.senders) ((==_iff t.sender b).0 e) in
            elim (Bool-cases (tx.nonce t.envelope == n)) [
              | inl k ↦
                  rw (e, k)
                    (rw k at now
                      ∙ ap
                          (λ m.
                            placed (queue_of inner.senders t.sender) m (lookup_nonce inner t.sender)
                              (entry_of config t))
                          ((==_iff _ n).0 k))
              | inr k ↦ rw (e, k) (rw k at now ∙ ap (λ p. held p n) own)
            ]
      ]

  submit_verified-held :
      (config : EvmTxPoolConfig) (inner : PoolInner E) (t : VerifiedTx E)
      → IsPool inner
      → tx.nonce t.envelope < u64_max
      → Places config inner t (submit_verified config inner t).0 (submit_verified config inner t).1
  unfolding submit_verified
  submit_verified-held config inner t i low =
      elim (Bool-cases (HashMap.contains_key inner.by_hash t.tx_hash)) [
        | inl p ↦ rw (p, submit_verified) (λ a n. refl)
        | inr p ↦ elim (Bool-cases (ltb (tx.nonce t.envelope) (lookup_nonce inner t.sender))) [
          | inl q ↦ rw (p, q, submit_verified) (λ a n. refl)
          | inr q ↦ rw (p, q, submit_verified) (add_entry-held config inner t i low (ground arith))
        ]
      ]

  -- A refused submission leaves what the pool holds; an accepted one, whose nonce is not below the
  -- sender's, puts the transaction with its tip under its sender and nonce, in place of the one on
  -- its side of the queue only, and leaves everything else. The pool is well formed, and the nonce
  -- below the largest u64.
  pub submit_tx-held :
      (pool : EvmTxPool E) (raw : List ℕ) (t : VerifiedTx E)
      → decode_and_recover raw ≡ ok t
      → IsPool pool.inner
      → tx.nonce t.envelope < u64_max
      → Places pool.config pool.inner t (submit_tx pool raw).0 (submit_tx pool raw).1.inner
  unfolding submit_tx
  submit_tx-held pool raw t e i low =
      rw (e, submit_tx) (submit_verified-held pool.config pool.inner t i low)
