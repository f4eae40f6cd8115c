-- ===== src/TxPool/Errors.antt =====
-- The outcomes of `submit_tx` of crates/txpool/src/lib.rs: what a refusal leaves, what an acceptance
-- does, and the least tip of a replacement.
use nbnet.Prelude.{
  ℕ, ◌+◌, ◌*◌, ◌%◌, ◌≤◌, ◌<◌, ◌≡◌, refl, Option, none, some, List, ltb, Bool-cases, Result-cases,
  inl, inr, arith, Result, ok, err, nat_eq, ◌↔◌,
}
use nbnet.Std.Words.{u64_mod, u64_max, saturating_mul, wrapping_add}
use nbnet.Std.HashMap
use nbnet.Std.HashMap.{HashMap, get-insert}
use nbnet.Types.Tx.{TxEnvelope, VerifiedTx, decode_and_recover}
use nbnet.TxPool.Pool.{EvmTxPoolConfig, PoolEntry, PoolInner, SenderQueue, EvmTxPool, empty_queue}
use nbnet.TxPool.Submit.{
  SubmitError, min_tip, put_queue, index_entry, add_entry, lookup_nonce, submit_verified, submit_tx,
}
use nbnet.TxPool.Index.{queue_of}

-- With the default bump of 10 percent and tips that do not saturate, a tip that is not higher than
-- the old one is enough for a replacement exactly where the old tip is below 10, since the
-- threshold is rounded down.
pub min_tip-le_iff :
    (config : EvmTxPoolConfig) (old : ℕ)
    → config.replacement_bump_pct ≡ 10
    → old * 110 ≤ u64_max
    → (min_tip config old ≤ old) ↔ (old < 10)
unfolding min_tip saturating_mul wrapping_add
min_tip-le_iff config old e fits =
    let p : (100 + config.replacement_bump_pct) % u64_mod ≡ 110 = omega arith in
    rw (p, min_tip) (λ h. omega arith, λ h. omega arith)

index_entry-get :
    (m : HashMap ℕ ℕ) (old : Option ℕ) (h sender : ℕ)
    → HashMap.get (index_entry m old h sender) h ≡ some sender
unfolding index_entry
index_entry-get m none h sender = ground (arith, get-insert m h h sender)
index_entry-get m (some o) h sender = ground (arith, get-insert (HashMap.remove m o) h h sender)

module _ {E : Type 0} ⦃tx : TxEnvelope E⦄ where
  -- What an outcome says of the pool before and after.
  abbrev pub Settles : PoolInner E → Result ℕ SubmitError → PoolInner E → Type 0
  Settles before (err e) after =
      (after.by_hash ≡ before.by_hash)
      × ((a : ℕ) → queue_of after.senders a ≡ queue_of before.senders a)
  Settles before (ok h) after = (a : ℕ) × (HashMap.get after.by_hash h ≡ some a)

  pub same_queues :
      (m : HashMap ℕ (SenderQueue E)) (sender a : ℕ)
      → queue_of (HashMap.insert m sender (HashMap.or_default empty_queue m sender)) a
        ≡ queue_of m a
  unfolding queue_of HashMap.or_default
  same_queues m sender a =
      ground (arith, get-insert m sender a (HashMap.or_default empty_queue m sender))

  add_entry-Settles :
      (config : EvmTxPoolConfig) (inner : PoolInner E) (entry : PoolEntry E) (nonce : ℕ)
      → Settles inner (add_entry config inner entry nonce).0 (add_entry config inner entry nonce).1
  unfolding add_entry
  add_entry-Settles config inner entry nonce =
      let sender = entry.verified.sender in
      let queue = HashMap.or_default empty_queue inner.senders sender in
      elim (Result-cases (put_queue config queue (tx.nonce entry.verified.envelope) nonce entry)) [
        | inr (e, p) ↦ rw (p, add_entry) (refl, λ a. same_queues inner.senders sender a)
        | inl ((q, old), p) ↦
            rw (p, add_entry)
              (sender, index_entry-get inner.by_hash old entry.verified.tx_hash sender)
      ]

  submit_verified-Settles :
      (config : EvmTxPoolConfig) (inner : PoolInner E) (t : VerifiedTx E)
      → Settles inner (submit_verified config inner t).0 (submit_verified config inner t).1
  unfolding submit_verified
  submit_verified-Settles config inner t =
      let nonce = lookup_nonce inner t.sender in
      elim (Bool-cases (HashMap.contains_key inner.by_hash t.tx_hash)) [
        | inl p ↦ rw (p, submit_verified) (refl, λ a. refl)
        | inr p ↦ elim (Bool-cases (ltb (tx.nonce t.envelope) nonce)) [
          | inl q ↦ rw (p, q, submit_verified) (refl, λ a. refl)
          | inr q ↦ rw (p, q, submit_verified) (add_entry-Settles config inner _ nonce)
        ]
      ]

  -- A refused submission leaves the hash index and every sender's queue as they were. An accepted
  -- one leaves its hash in the index.
  pub submit_tx-Settles :
      (pool : EvmTxPool E) (raw : List ℕ)
      → Settles pool.inner (submit_tx pool raw).0 (submit_tx pool raw).1.inner
  unfolding submit_tx
  submit_tx-Settles pool raw = elim (Result-cases (decode_and_recover {E = E} raw)) [
    | inl (t, e) ↦ rw (e, submit_tx) (submit_verified-Settles pool.config pool.inner t)
    | inr (x, e) ↦ rw (e, submit_tx) (refl, λ a. refl)
  ]
