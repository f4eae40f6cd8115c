-- ===== src/TxPool/Reach.antt =====
-- Any sequence of the pool's operations, from the empty pool.
use nbnet.Prelude.{
  ℕ, ◌<◌, ◌≤◌, ◌≡◌, ◌↔◌, refl, true, false, List, arith, inl, inr, ok, Option-cases, nat_eq, ◌==◌,
}
use nbnet.Std.Words.{u64_max}
use nbnet.Std.HashMap
use nbnet.Types.Tx.{TxEnvelope, VerifiedTx, decode_and_recover}
use nbnet.TxPool.Pool.{EvmTxPoolConfig, EvmTxPool, SenderQueue, new, set_nonce_fn, contains}
use nbnet.TxPool.Submit.{submit_tx}
use nbnet.TxPool.Payload.{collect_payload}
use nbnet.TxPool.Commit.{on_commit}
use nbnet.TxPool.Tally.{tally, tally_side}
use nbnet.TxPool.Index.{IsPool, queue_of}
use nbnet.TxPool.SubmitKeeps.{submit_tx-IsPool}
use nbnet.TxPool.PayloadKeeps.{collect_payload-IsPool}
use nbnet.TxPool.CommitKeeps.{on_commit-IsPool}

module _ {E : Type 0} ⦃tx : TxEnvelope E⦄ where
  -- One operation. Nonces of transactions stay below the largest `u64`, and account nonces are `u64`.
  pub data Step : EvmTxPool E → EvmTxPool E → Type 0 where
    submits :
        (pool : EvmTxPool E) (raw : List ℕ)
        → ((v : VerifiedTx E) → decode_and_recover raw ≡ ok v → tx.nonce v.envelope < u64_max)
        → Step pool (submit_tx pool raw).1
    wires : (pool : EvmTxPool E) (f : ℕ → ℕ) → Step pool (set_nonce_fn pool f)
    collects :
        (pool : EvmTxPool E) (visit : List (ℕ × SenderQueue E) → List (ℕ × SenderQueue E))
        (max_bytes max_gas : ℕ)
        → Step pool (collect_payload visit pool max_bytes max_gas).1
    commits :
        (pool : EvmTxPool E) (visit : List (ℕ × SenderQueue E) → List (ℕ × SenderQueue E))
        (f : ℕ → ℕ)
        → ((a : ℕ) → f a ≤ u64_max)
        → Step pool (on_commit visit pool f)

  pub data Reach (pool : EvmTxPool E) : EvmTxPool E → Type 0 where
    here : Reach pool pool
    next : {p q : EvmTxPool E} → Reach pool p → Step p q → Reach pool q

  pub new-IsPool : (config : EvmTxPoolConfig) → IsPool {E = E} (new config).inner
  unfolding new queue_of HashMap.or_default HashMap.get tally_side
  new-IsPool config = record {
    shape = λ b. record { pending_keys = tt; queued_keys = tt };
    indexed = λ h b. refl;
  }

  Step-IsPool : {p q : EvmTxPool E} → Step p q → IsPool p.inner → IsPool q.inner
  unfolding set_nonce_fn
  Step-IsPool (submits pool raw low) i = submit_tx-IsPool pool raw i low
  Step-IsPool (wires pool f) i = i
  Step-IsPool (collects pool visit max_bytes max_gas) i =
      collect_payload-IsPool visit pool max_bytes max_gas i
  Step-IsPool (commits pool visit f low) i = on_commit-IsPool visit pool f low i

  -- After any sequence of submissions, payload collections, commits and rewirings of the nonce
  -- lookup, from the empty pool, the queues of every sender are well formed and the hash index
  -- holds exactly the queued hashes. Transaction nonces stay below the largest u64, and account
  -- nonces are u64.
  pub Reach-IsPool :
      (config : EvmTxPoolConfig) {p : EvmTxPool E} → Reach (new config) p → IsPool p.inner
  Reach-IsPool config here = new-IsPool config
  Reach-IsPool config (next r s) = Step-IsPool s (Reach-IsPool config r)

  -- In a pool reached from the empty one by submissions of transactions with nonces below the
  -- largest u64, payload collections, commits with account nonces that are u64, and rewirings of
  -- the nonce lookup, `contains` answers yes exactly for the hashes that one sender's queue holds
  -- once, and no other sender's queue holds at all.
  pub contains_iff :
      (config : EvmTxPoolConfig) (p : EvmTxPool E)
      → Reach (new config) p
      → (h : ℕ)
      → (contains p h ≡ true) ↔ (
          (a : ℕ) × (tally h (queue_of p.inner.senders a) ≡ 1)
          × ((b : ℕ) → (a == b) ≡ false → tally h (queue_of p.inner.senders b) ≡ 0))
  unfolding contains HashMap.contains_key
  contains_iff config p r h =
      let i = Reach-IsPool config r in
      elim (Option-cases (HashMap.get p.inner.by_hash h)) [
        | inl e ↦ (λ k. absurd (ground arith), λ w. absurd (ground (arith, w.1, i.indexed h w.0)))
        | inr (a, e) ↦ (
          λ k. (a, ground (arith, i.indexed h a), λ b n. ground (arith, i.indexed h b)),
          λ w. rw e refl,
        )
      ]
