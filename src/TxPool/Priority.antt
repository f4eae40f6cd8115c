-- ===== src/TxPool/Priority.antt =====
-- crates/txpool/src/lib.rs: the first transaction of a sender, with the highest tip, is the first
-- candidate for the next payload.
use mathlib.Core.List.{Memᴰ}
use nbnet.Prelude.{
  ℕ, ◌<◌, ◌≡◌, ◌⊎◌, refl, sym, ap, ◌∙◌, inl, inr, false, none, some, List, [], ◌∷◌, beq_refl, ltb,
  lt→ltb, arith, All, ok, nat_eq, Option-cases,
}
use nbnet.Std.HashMap
use nbnet.Std.HashMap.{HashMap}
use nbnet.Std.BTreeMap
use nbnet.Types.Tx.{TxEnvelope, VerifiedTx, decode_and_recover}
use nbnet.TxPool.Payload.{Candidate, insert_by_tip, sort_by_tip, candidates, gas_of, pending_entry}
use nbnet.TxPool.Pool.{
  EvmTxPoolConfig, PoolEntry, SenderQueue, EvmTxPool, empty_queue, promote_queued_static,
  promote_loop,
}
use nbnet.TxPool.Submit.{
  submit_tx, submit_verified, add_entry, put_queue, put_entry, is_pending, lookup_nonce,
}
use nbnet.TxPool.Index.{queue_of}
use nbnet.TxPool.Contents.Insertion.{entry_of}
use nbnet.TxPool.Picks.{All-insert_by_tip}

-- The candidate, or one with a lower tip.
abbrev pub Below : Candidate → Candidate → Type 0
Below c d = (d ≡ c) ⊎ (d.tip < c.tip)

sort_by_tip-All : (P : Candidate → Type 0) (cs : List Candidate) → All P cs → All P (sort_by_tip cs)
unfolding sort_by_tip
sort_by_tip-All P [] a = tt
sort_by_tip-All P (c ∷ cs) a = All-insert_by_tip P c _ a.0 (sort_by_tip-All P cs a.1)

-- In front of candidates that are not above it.
insert_by_tip-first :
    (c : Candidate) (ds : List Candidate) → All (Below c) ds → insert_by_tip c ds ≡ c ∷ ds
unfolding insert_by_tip
insert_by_tip-first c [] a = refl
insert_by_tip-first c (d ∷ ds) a = let low : ltb c.tip d.tip ≡ false = not_above a.0 in rw low refl
  where
    not_above : Below c d → ltb c.tip d.tip ≡ false
    not_above (inl e) = rw e (ground arith)
    not_above (inr h) = ground arith

-- Another one goes behind it.
insert_by_tip-behind :
    (c x : Candidate) (ds : List Candidate)
    → Below c x
    → (rest : List Candidate) × (insert_by_tip x (c ∷ ds) ≡ c ∷ rest)
unfolding insert_by_tip
insert_by_tip-behind c x ds (inl e) = (c ∷ ds, rw e (rw same refl))
  where
    same : ltb c.tip c.tip ≡ false
    same = ground arith
insert_by_tip-behind c x ds (inr h) = (insert_by_tip x ds, rw (lt→ltb x.tip c.tip h) refl)

pub sort_by_tip-first :
    (c : Candidate) (cs : List Candidate)
    → Memᴰ c cs
    → All (Below c) cs
    → (rest : List Candidate) × (sort_by_tip cs ≡ c ∷ rest)
unfolding sort_by_tip
sort_by_tip-first c [] m a = elim m [ ]
sort_by_tip-first c (d ∷ cs) (Memᴰ.head e) a = (
  sort_by_tip cs,
  rw (sym e) (insert_by_tip-first c (sort_by_tip cs) (sort_by_tip-All (Below c) cs a.1)),
)
sort_by_tip-first c (d ∷ cs) (Memᴰ.tail m) a =
    let (rest, e) = sort_by_tip-first c cs m a.1 in rw e (insert_by_tip-behind c d rest a.0)

module _ {E : Type 0} where
  candidates-Mem :
      (a n : ℕ) (entry : PoolEntry E) (m : List (ℕ × SenderQueue E)) (q : SenderQueue E)
      → BTreeMap.first q.pending ≡ some (n, entry)
      → Memᴰ (a, q) m
      → Memᴰ
          (record { sender = a; nonce = n; tip = entry.effective_tip; raw = entry.verified.raw })
          (candidates m)
  unfolding candidates
  candidates-Mem a n entry [] q e k = elim k [ ]
  candidates-Mem a n entry (x ∷ m) q e (Memᴰ.head same) =
      rw (sym same) (rw (e, candidates) (Memᴰ.head refl))
  candidates-Mem a n entry ((b, p) ∷ m) q e (Memᴰ.tail k) =
      elim (Option-cases (BTreeMap.first p.pending)) [
        | inl f ↦ rw (f, candidates) (candidates-Mem a n entry m q e k)
        | inr (f, g) ↦ rw (g, candidates) (Memᴰ.tail (candidates-Mem a n entry m q e k))
      ]

  -- A queue of one transaction.
  abbrev pub lone_queue : ℕ → PoolEntry E → SenderQueue E
  lone_queue nonce entry = record { pending = (nonce, entry) ∷ []; queued = [] }

  -- A traversal that passes every entry of a map.
  abbrev pub Passes : (List (ℕ × SenderQueue E) → List (ℕ × SenderQueue E)) → Type 0
  Passes visit =
      (m : HashMap ℕ (SenderQueue E)) (a : ℕ) (q : SenderQueue E)
      → HashMap.get m a ≡ some q
      → Memᴰ (a, q) (visit m)

  put_queue-lone :
      (config : EvmTxPoolConfig) (q : SenderQueue E) (nonce current : ℕ) (entry : PoolEntry E)
      → q ≡ empty_queue
      → current ≡ nonce
      → 0 < config.max_pending_per_sender
      → put_queue config q nonce current entry ≡ ok (lone_queue nonce entry, none)
  unfolding put_queue put_entry is_pending BTreeMap.get BTreeMap.insert
  put_queue-lone config q nonce current entry empty same room = rw empty (ground arith)

  promote-lone :
      (nonce current : ℕ) (entry : PoolEntry E)
      → promote_queued_static (lone_queue nonce entry) current ≡ lone_queue nonce entry
  unfolding promote_queued_static promote_loop
  promote-lone nonce current entry = refl

module _ {E : Type 0} ⦃tx : TxEnvelope E⦄ where
  -- The first transaction of a sender who has none, with the account's nonce.
  submit_tx-lone :
      (pool : EvmTxPool E) (raw : List ℕ) (t : VerifiedTx E)
      → decode_and_recover raw ≡ ok t
      → HashMap.contains_key pool.inner.by_hash t.tx_hash ≡ false
      → lookup_nonce pool.inner t.sender ≡ tx.nonce t.envelope
      → queue_of pool.inner.senders t.sender ≡ empty_queue
      → 0 < pool.config.max_pending_per_sender
      → ((submit_tx pool raw).0 ≡ ok t.tx_hash)
        × (HashMap.get (submit_tx pool raw).1.inner.senders t.sender
            ≡ some (lone_queue (tx.nonce t.envelope) (entry_of pool.config t)))
  unfolding submit_tx submit_verified add_entry queue_of
  submit_tx-lone pool raw t e fresh nonce empty room =
      let current : ltb (tx.nonce t.envelope) (lookup_nonce pool.inner t.sender) ≡ false =
        ground (arith, nonce) in
      let put =
        put_queue-lone pool.config (queue_of pool.inner.senders t.sender) (tx.nonce t.envelope)
          (lookup_nonce pool.inner t.sender) (entry_of pool.config t) empty nonce room in
      (
        rw (e, submit_tx, fresh, submit_verified, current, add_entry, put) refl,
        rw (e, submit_tx, fresh, submit_verified, current, add_entry, put)
            (HashMap.get-insert
                (HashMap.insert pool.inner.senders t.sender (queue_of pool.inner.senders t.sender))
                t.sender t.sender _
              ∙ rw (beq_refl t.sender) (
                  ap some
                    (promote-lone _ (lookup_nonce pool.inner t.sender) (entry_of pool.config t)))),
      )

  -- The candidate that a transaction becomes.
  abbrev pub candidate_of : EvmTxPoolConfig → VerifiedTx E → Candidate
  candidate_of config t = record {
    sender = t.sender;
    nonce = tx.nonce t.envelope;
    tip = (entry_of config t).effective_tip;
    raw = t.raw;
  }

  gas_of-lone :
      (senders : HashMap ℕ (SenderQueue E)) (config : EvmTxPoolConfig) (t : VerifiedTx E)
      → HashMap.get senders t.sender ≡ some (lone_queue (tx.nonce t.envelope) (entry_of config t))
      → gas_of senders (candidate_of config t) ≡ tx.gas_limit t.envelope
  unfolding gas_of pending_entry BTreeMap.get
  gas_of-lone senders config t e = rw (e, gas_of, pending_entry) (ground arith)

  -- ... it is then the first candidate, where no other has as high a tip.
  pub submit_tx-first :
      (visit : List (ℕ × SenderQueue E) → List (ℕ × SenderQueue E)) (pool : EvmTxPool E)
      (raw : List ℕ) (t : VerifiedTx E)
      → decode_and_recover raw ≡ ok t
      → HashMap.contains_key pool.inner.by_hash t.tx_hash ≡ false
      → lookup_nonce pool.inner t.sender ≡ tx.nonce t.envelope
      → queue_of pool.inner.senders t.sender ≡ empty_queue
      → 0 < pool.config.max_pending_per_sender
      → Passes visit
      → All
          (Below (candidate_of pool.config t))
          (candidates (visit (submit_tx pool raw).1.inner.senders))
      → ((submit_tx pool raw).0 ≡ ok t.tx_hash)
        × (gas_of (submit_tx pool raw).1.inner.senders (candidate_of pool.config t)
            ≡ tx.gas_limit t.envelope)
        × (others : List Candidate) × (sort_by_tip
              (candidates (visit (submit_tx pool raw).1.inner.senders))
            ≡ candidate_of pool.config t ∷ others)
  unfolding BTreeMap.first
  submit_tx-first visit pool raw t e fresh nonce empty room passes top =
      let inner = (submit_tx pool raw).1.inner in
      let (accepted, stored) = submit_tx-lone pool raw t e fresh nonce empty room in
      let among =
        candidates-Mem t.sender (tx.nonce t.envelope) (entry_of pool.config t) (visit inner.senders)
          (lone_queue (tx.nonce t.envelope) (entry_of pool.config t)) refl
          (passes inner.senders t.sender _ stored) in
      (
        accepted,
        gas_of-lone inner.senders pool.config t stored,
        (sort_by_tip-first (candidate_of pool.config t) (candidates (visit inner.senders)) among
            top).0,
        (sort_by_tip-first (candidate_of pool.config t) (candidates (visit inner.senders)) among
            top).1,
      )
