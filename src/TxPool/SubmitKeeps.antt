-- ===== src/TxPool/SubmitKeeps.antt =====
-- `submit_tx` keeps the hash index and the queues in agreement.
use nbnet.Prelude.{
  ℕ, ◌≤◌, ◌<◌, ◌≡◌, ◌⊎◌, Option, none, some, List, arith, inl, inr, Bool-cases, Option-cases, ok,
  nat_eq, subst, ◌∙◌, Result-cases, ltb,
}
use nbnet.Std.Words.{u64_max}
use nbnet.Std.HashMap
use nbnet.Std.HashMap.{HashMap}
use nbnet.Std.BTreeMap
use nbnet.Std.BTreeMap.{BTreeMap, insert-Keys, remove-Keys}
use nbnet.Types.Tx.{TxEnvelope, VerifiedTx, decode_and_recover}
use nbnet.TxPool.Pool.{EvmTxPoolConfig, PoolEntry, SenderQueue, PoolInner, EvmTxPool}
use nbnet.TxPool.Submit.{
  put_entry, index_entry, is_pending, put_queue, add_entry, lookup_nonce, submit_verified,
  submit_tx,
}
use nbnet.TxPool.Tally.{IsQueue, tally-insert, tally-remove, tally-remove_absent}
use nbnet.TxPool.Promotion.{promote_queued_static-Promoted}
use nbnet.TxPool.Index.{
  IsIndexed, IsIndexedAt, IsPool, queue_of, queue_of-insert, own_queue, own_shape, focus, unfocus,
  keep_entries, drop_entry, add_entry as add_entry_lem,
}

module _ {E : Type 0} where
  -- What `put_entry` found under the nonce.
  abbrev pub Replaces : BTreeMap (PoolEntry E) → ℕ → Option ℕ → Type 0
  Replaces m nonce old_hash =
      ((BTreeMap.get m nonce ≡ none) × (old_hash ≡ none))
      ⊎ ((e : PoolEntry E) × (BTreeMap.get m nonce ≡ some e)
          × (old_hash ≡ some (e.verified.tx_hash)))

  pub put_entry-Replaces :
      (config : EvmTxPoolConfig) (limit : ℕ) (m : BTreeMap (PoolEntry E)) (nonce : ℕ)
      (entry : PoolEntry E) (side : BTreeMap (PoolEntry E)) (old_hash : Option ℕ)
      → put_entry config limit m nonce entry ≡ ok (side, old_hash)
      → (side ≡ BTreeMap.insert m nonce entry) × Replaces m nonce old_hash
  unfolding put_entry
  put_entry-Replaces config limit m nonce entry side old_hash h =
      elim (Option-cases (BTreeMap.get m nonce)) [
        | inl e ↦ (ground arith, inl (e, ground arith))
        | inr (old, e) ↦ (ground arith, inr (old, e, ground arith))
      ]

  -- A successful insertion is one of two: into `pending` or into `queued`.
  pub put_queue-cases :
      (config : EvmTxPoolConfig) (q : SenderQueue E) (nonce current : ℕ) (entry : PoolEntry E)
      (q' : SenderQueue E) (old_hash : Option ℕ)
      → put_queue config q nonce current entry ≡ ok (q', old_hash)
      → ((q' ≡ record q { pending = BTreeMap.insert q.pending nonce entry })
          × Replaces q.pending nonce old_hash)
        ⊎ ((q' ≡ record q { queued = BTreeMap.insert q.queued nonce entry })
            × Replaces q.queued nonce old_hash)
  unfolding put_queue
  put_queue-cases config q nonce current entry q' old_hash h =
      elim (Bool-cases (is_pending q nonce current)) [
        | inl p ↦
            inl
              (elim (Result-cases
                (put_entry config config.max_pending_per_sender q.pending nonce entry)) [
                  | inl ((side, old), e) ↦
                      let r = put_entry-Replaces config _ q.pending nonce entry side old e in
                      let same : old ≡ old_hash = ground arith in
                      (ground (arith, r.0), subst (Replaces q.pending nonce) same r.1)
                  | inr (x, e) ↦ absurd (ground arith)
                ])
        | inr p ↦
            inr
              (elim (Result-cases
                (put_entry config config.max_queued_per_sender q.queued nonce entry)) [
                  | inl ((side, old), e) ↦
                      let r = put_entry-Replaces config _ q.queued nonce entry side old e in
                      let same : old ≡ old_hash = ground arith in
                      (ground (arith, r.0), subst (Replaces q.queued nonce) same r.1)
                  | inr (x, e) ↦ absurd (ground arith)
                ])
      ]

  module _ (senders : HashMap ℕ (SenderQueue E)) (a : ℕ) (q : SenderQueue E) (by_hash : HashMap ℕ ℕ)
      (i : IsIndexedAt senders a q by_hash) (nonce : ℕ) (low : nonce < u64_max)
      (entry : PoolEntry E) (fresh : HashMap.get by_hash entry.verified.tx_hash ≡ none) where
    own : IsQueue q
    own = own_shape senders a q by_hash i

    pending_shape : IsQueue (record q { pending = BTreeMap.insert q.pending nonce entry })
    pending_shape = record {
      pending_keys = insert-Keys 0 u64_max q.pending nonce entry (omega arith) low own.pending_keys;
      queued_keys = own.queued_keys;
    }

    queued_shape : IsQueue (record q { queued = BTreeMap.insert q.queued nonce entry })
    queued_shape = record {
      pending_keys = own.pending_keys;
      queued_keys = insert-Keys 0 u64_max q.queued nonce entry (omega arith) low own.queued_keys;
    }

    put_pending :
        (old_hash : Option ℕ)
        → Replaces q.pending nonce old_hash
        → IsIndexedAt senders a
            (record q { pending = BTreeMap.insert q.pending nonce entry })
            (index_entry by_hash old_hash entry.verified.tx_hash a)
    unfolding index_entry
    put_pending old_hash (inl (absent, e)) = rw e (
        add_entry_lem senders a q _ by_hash i pending_shape _ fresh λ h. omega (
          arith,
          tally-insert h 0 u64_max q.pending nonce entry own.pending_keys,
          tally-remove_absent h q.pending nonce absent,
        ))
    put_pending old_hash (inr (old, found, e)) =
        let less : SenderQueue E = record q { pending = BTreeMap.remove q.pending nonce } in
        let dropped =
          drop_entry senders a q less by_hash i
            (record {
              pending_keys = remove-Keys 0 u64_max q.pending nonce own.pending_keys;
              queued_keys = own.queued_keys;
            })
            old.verified.tx_hash
            (λ h.
              omega (arith, tally-remove h 0 u64_max q.pending nonce old own.pending_keys found)) in
        rw e (
          add_entry_lem senders a less _ _ dropped pending_shape _
            (ground (arith, HashMap.get-remove by_hash old.verified.tx_hash entry.verified.tx_hash))
            λ h. omega (arith, tally-insert h 0 u64_max q.pending nonce entry own.pending_keys))

    put_queued :
        (old_hash : Option ℕ)
        → Replaces q.queued nonce old_hash
        → IsIndexedAt senders a
            (record q { queued = BTreeMap.insert q.queued nonce entry })
            (index_entry by_hash old_hash entry.verified.tx_hash a)
    unfolding index_entry
    put_queued old_hash (inl (absent, e)) = rw e (
        add_entry_lem senders a q _ by_hash i queued_shape _ fresh λ h. omega (
          arith,
          tally-insert h 0 u64_max q.queued nonce entry own.queued_keys,
          tally-remove_absent h q.queued nonce absent,
        ))
    put_queued old_hash (inr (old, found, e)) =
        let less : SenderQueue E = record q { queued = BTreeMap.remove q.queued nonce } in
        let dropped =
          drop_entry senders a q less by_hash i
            (record {
              pending_keys = own.pending_keys;
              queued_keys = remove-Keys 0 u64_max q.queued nonce own.queued_keys;
            })
            old.verified.tx_hash
            (λ h.
              omega (arith, tally-remove h 0 u64_max q.queued nonce old own.queued_keys found)) in
        rw e (
          add_entry_lem senders a less _ _ dropped queued_shape _
            (ground (arith, HashMap.get-remove by_hash old.verified.tx_hash entry.verified.tx_hash))
            λ h. omega (arith, tally-insert h 0 u64_max q.queued nonce entry own.queued_keys))

    pub put_queue-IsIndexedAt :
        (config : EvmTxPoolConfig) (current : ℕ) (q' : SenderQueue E) (old_hash : Option ℕ)
        → put_queue config q nonce current entry ≡ ok (q', old_hash)
        → IsIndexedAt senders a q' (index_entry by_hash old_hash entry.verified.tx_hash a)
    put_queue-IsIndexedAt config current q' old_hash h =
        elim (put_queue-cases config q nonce current entry q' old_hash h) [
          | inl (e, r) ↦ rw e (put_pending old_hash r)
          | inr (e, r) ↦ rw e (put_queued old_hash r)
        ]

module _ {E : Type 0} ⦃tx : TxEnvelope E⦄ where
  -- Creating the sender's empty queue changes nothing that can be seen.
  touch-IsIndexed :
      (senders : HashMap ℕ (SenderQueue E)) (by_hash : HashMap ℕ ℕ) (a : ℕ)
      → IsIndexed senders by_hash
      → IsIndexed (HashMap.insert senders a (queue_of senders a)) by_hash
  touch-IsIndexed senders by_hash a i =
      unfocus senders a (queue_of senders a) by_hash (focus senders a by_hash i)

  add_entry-IsPool :
      (config : EvmTxPoolConfig) (inner : PoolInner E) (entry : PoolEntry E) (current : ℕ)
      → IsPool inner
      → tx.nonce entry.verified.envelope < u64_max
      → current ≤ tx.nonce entry.verified.envelope
      → HashMap.get inner.by_hash entry.verified.tx_hash ≡ none
      → IsPool (add_entry config inner entry current).1
  unfolding add_entry queue_of
  add_entry-IsPool config inner entry current i low ge fresh =
      let a = entry.verified.sender in
      let nonce = tx.nonce entry.verified.envelope in
      let q = queue_of inner.senders a in
      let senders = HashMap.insert inner.senders a q in
      let touched = touch-IsIndexed inner.senders inner.by_hash a i in
      let same : queue_of senders a ≡ q =
        queue_of-insert inner.senders a a q ∙ own_queue inner.senders a q in
      let at =
        subst (λ x. IsIndexedAt senders a x inner.by_hash) same
          (focus senders a inner.by_hash touched) in
      elim (Result-cases (put_queue config q nonce current entry)) [
        | inl ((q', old_hash), e) ↦
            let put =
              put_queue-IsIndexedAt senders a q inner.by_hash at nonce low entry fresh config
                current q' old_hash e in
            let p =
              promote_queued_static-Promoted current q' (own_shape senders a q' _ put)
                (omega arith) in
            rw (e, add_entry)
              (unfocus senders a _ _ (keep_entries senders a q' _ _ put p.shape p.kept))
        | inr (x, e) ↦ rw (e, add_entry) touched
      ]

  submit_verified-IsPool :
      (config : EvmTxPoolConfig) (inner : PoolInner E) (v : VerifiedTx E)
      → IsPool inner
      → tx.nonce v.envelope < u64_max
      → IsPool (submit_verified config inner v).1
  unfolding submit_verified HashMap.contains_key
  submit_verified-IsPool config inner v i low =
      elim (Option-cases (HashMap.get inner.by_hash v.tx_hash)) [
        | inr (b, known) ↦ rw (known, submit_verified) i
        | inl fresh ↦ elim (Bool-cases (ltb (tx.nonce v.envelope) (lookup_nonce inner v.sender))) [
          | inl old ↦ rw (fresh, old, submit_verified) i
          | inr new ↦
              rw (fresh, new, submit_verified)
                (add_entry-IsPool config inner _ (lookup_nonce inner v.sender) i low (ground arith)
                  fresh)
        ]
      ]

  -- Submission keeps the queues well formed and the hash index exact, whether it succeeds or fails,
  -- for transactions whose nonce is below the largest `u64`.
  pub submit_tx-IsPool :
      (pool : EvmTxPool E) (raw : List ℕ)
      → IsPool pool.inner
      → ((v : VerifiedTx E) → decode_and_recover raw ≡ ok v → tx.nonce v.envelope < u64_max)
      → IsPool (submit_tx pool raw).1.inner
  unfolding submit_tx
  submit_tx-IsPool pool raw i low = elim (Result-cases (decode_and_recover {E = E} raw)) [
    | inl (v, e) ↦ rw (e, submit_tx) (submit_verified-IsPool pool.config pool.inner v i (low v e))
    | inr (x, e) ↦ rw (e, submit_tx) i
  ]
