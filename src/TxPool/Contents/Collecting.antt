-- ===== src/TxPool/Contents/Collecting.antt =====
-- crates/txpool/src/lib.rs: exactly what `collect_payload` takes out of the pool.
use nbnet.Prelude.{
  ℕ, ◌≡◌, refl, sym, ap, ◌∙◌, subst, Bool, false, ◌||◌, ◌&&◌, Option, none, List, [], ◌∷◌, ◌==◌,
  ==_iff, if◌then◌else◌, arith, inl, inr, Option-cases, Bool-cases, nat_eq,
}
use nbnet.Std.HashMap
use nbnet.Std.HashMap.{HashMap}
use nbnet.Std.BTreeMap
use nbnet.TxPool.Pool.{PoolEntry, SenderQueue, PoolInner, EvmTxPool}
use nbnet.TxPool.Payload.{Candidate, remove_included, selection, collect_payload}
use nbnet.Types.Tx.{TxEnvelope}
use nbnet.TxPool.Index.{queue_of, queue_of-insert, get-queue_of}

-- Whether the candidates have one of the sender with the nonce.
pub is_among : List Candidate → ℕ → ℕ → Bool
is_among [] a n = false
is_among (c ∷ cs) a n = (c.sender == a && c.nonce == n) || is_among cs a n

module _ {E : Type 0} where
  -- What is left under a sender and nonce once a list of candidates is taken out of `pending`.
  abbrev pub Left : (before after : HashMap ℕ (SenderQueue E)) → List Candidate → ℕ → ℕ → Type 0
  Left before after cs a n =
      (BTreeMap.get (queue_of after a).pending n
        ≡ (if is_among cs a n then none else BTreeMap.get (queue_of before a).pending n))
      × (BTreeMap.get (queue_of after a).queued n ≡ BTreeMap.get (queue_of before a).queued n)

  Left-one :
      (c : Candidate) (senders : HashMap ℕ (SenderQueue E)) (q : SenderQueue E) (a n : ℕ)
      → queue_of senders c.sender ≡ q
      → Left senders
          (HashMap.insert senders c.sender
            (record q { pending = BTreeMap.remove q.pending c.nonce }))
          (c ∷ [])
          a
          n
  unfolding is_among
  Left-one c senders q a n same =
      rw (queue_of-insert senders c.sender a _) (elim (Bool-cases (c.sender == a)) [
        | inl e ↦
            let own : queue_of senders a ≡ q =
              ap (queue_of senders) (sym ((==_iff _ a).0 e)) ∙ same in
            rw (e, own) (ground (arith, BTreeMap.get-remove q.pending c.nonce n), refl)
        | inr e ↦ rw e (refl, refl)
      ])

  -- A candidate that is not pending takes nothing.
  Left-absent :
      (c : Candidate) (cs : List Candidate) (senders after : HashMap ℕ (SenderQueue E)) (a n : ℕ)
      → BTreeMap.get (queue_of senders c.sender).pending c.nonce ≡ none
      → Left senders after cs a n
      → Left senders after (c ∷ cs) a n
  unfolding is_among
  Left-absent c cs senders after a n absent left = (
    elim (Bool-cases (c.sender == a && c.nonce == n)) [
      | inl e ↦
          let sender : c.sender ≡ a = ground (arith, e) in
          let nonce : c.nonce ≡ n = ground (arith, e) in
          rw e (
            left.0
            ∙ both (is_among cs a n) (
                subst (λ b. BTreeMap.get (queue_of senders b).pending n ≡ none) sender
                  (subst (λ k. BTreeMap.get (queue_of senders c.sender).pending k ≡ none) nonce
                    absent)))
      | inr e ↦ rw e left.0
    ],
    left.1,
  )
    where
      both : (x : Bool) {y : Option (PoolEntry E)} → y ≡ none → (if x then none else y) ≡ none
      both x e = ground arith

  remove_included-Left :
      (cs : List Candidate) (inner : PoolInner E) (a n : ℕ)
      → Left inner.senders (remove_included cs inner).senders cs a n
  unfolding remove_included is_among queue_of BTreeMap.get HashMap.or_default
  remove_included-Left [] inner a n = (refl, refl)
  remove_included-Left (c ∷ cs) inner a n =
      elim (Option-cases (HashMap.get inner.senders c.sender)) [
        | inl e ↦
            rw (e, remove_included)
              (Left-absent c cs inner.senders _ a n (rw (queue_of, HashMap.or_default, e) refl)
                (remove_included-Left cs inner a n))
        | inr (q, e) ↦ elim (Option-cases (BTreeMap.get q.pending c.nonce)) [
          | inl f ↦
              rw (e, f, remove_included)
                (Left-absent c cs inner.senders _ a n
                  (rw (get-queue_of inner.senders c.sender q e) f)
                  (remove_included-Left cs inner a n))
          | inr (entry, f) ↦
              let one = Left-one c inner.senders q a n (get-queue_of inner.senders c.sender q e) in
              let rest = remove_included-Left cs _ a n in
              rw (e, f, remove_included) (rest.0 ∙ ground (arith, one.0), rest.1 ∙ one.1)
        ]
      ]

module _ {E : Type 0} ⦃tx : TxEnvelope E⦄ where
  -- Collecting a payload takes exactly the selected transactions out of the pending ones, and
  -- leaves the queued ones.
  pub collect_payload-Left :
      (visit : List (ℕ × SenderQueue E) → List (ℕ × SenderQueue E)) (pool : EvmTxPool E)
      (max_bytes max_gas a n : ℕ)
      → Left pool.inner.senders
          (collect_payload visit pool max_bytes max_gas).1.inner.senders
          (selection visit pool.inner max_bytes max_gas).included
          a
          n
  unfolding collect_payload
  collect_payload-Left visit pool max_bytes max_gas a n =
      remove_included-Left (selection visit pool.inner max_bytes max_gas).included pool.inner a n
