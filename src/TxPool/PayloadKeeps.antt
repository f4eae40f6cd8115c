-- ===== src/TxPool/PayloadKeeps.antt =====
-- `collect_payload` keeps the hash index and the queues in agreement.
use nbnet.Prelude.{ℕ, List, [], ◌∷◌, arith, inl, inr, Option-cases, subst, nat_eq}
use nbnet.Std.Words.{u64_max}
use nbnet.Std.HashMap
use nbnet.Std.BTreeMap
use nbnet.Std.BTreeMap.{remove-Keys}
use nbnet.Types.Tx.{TxEnvelope}
use nbnet.TxPool.Pool.{SenderQueue, PoolInner, EvmTxPool}
use nbnet.TxPool.Payload.{Candidate, remove_included, collect_payload}
use nbnet.TxPool.Tally.{IsQueue, tally-remove}
use nbnet.TxPool.Index.{IsPool, IsIndexedAt, own_shape, focus, unfocus, drop_entry, get-queue_of}

module _ {E : Type 0} where
  remove_included-IsPool :
      (cs : List Candidate) (inner : PoolInner E) → IsPool inner → IsPool (remove_included cs inner)
  unfolding remove_included
  remove_included-IsPool [] inner i = i
  remove_included-IsPool (c ∷ cs) inner i =
      elim (Option-cases (HashMap.get inner.senders c.sender)) [
        | inl e ↦ rw (e, remove_included) (remove_included-IsPool cs inner i)
        | inr (q, e) ↦ elim (Option-cases (BTreeMap.get q.pending c.nonce)) [
          | inl f ↦ rw (e, f, remove_included) (remove_included-IsPool cs inner i)
          | inr (entry, f) ↦
              let same = get-queue_of inner.senders c.sender q e in
              let at =
                subst (λ x. IsIndexedAt inner.senders c.sender x inner.by_hash) same
                  (focus inner.senders c.sender inner.by_hash i) in
              let own = own_shape inner.senders c.sender q inner.by_hash at in
              let q' : SenderQueue E = record q { pending = BTreeMap.remove q.pending c.nonce } in
              let shape : IsQueue q' = record {
                pending_keys = remove-Keys 0 u64_max q.pending c.nonce own.pending_keys;
                queued_keys = own.queued_keys;
              } in
              let less =
                drop_entry inner.senders c.sender q q' inner.by_hash at shape entry.verified.tx_hash
                  (λ h.
                    omega (
                      arith,
                      tally-remove h 0 u64_max q.pending c.nonce entry own.pending_keys f,
                    )) in
              rw (e, f, remove_included)
                (remove_included-IsPool cs _ (unfocus inner.senders c.sender q' _ less))
        ]
      ]

module _ {E : Type 0} ⦃tx : TxEnvelope E⦄ where
  -- Collecting a payload keeps the queues well formed and the hash index exact, in whatever order it
  -- visits the senders and whatever the limits are.
  pub collect_payload-IsPool :
      (visit : List (ℕ × SenderQueue E) → List (ℕ × SenderQueue E)) (pool : EvmTxPool E)
      (max_bytes max_gas : ℕ)
      → IsPool pool.inner
      → IsPool (collect_payload visit pool max_bytes max_gas).1.inner
  unfolding collect_payload
  collect_payload-IsPool visit pool max_bytes max_gas i = remove_included-IsPool _ pool.inner i
