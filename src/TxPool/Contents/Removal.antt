-- ===== src/TxPool/Contents/Removal.antt =====
-- crates/txpool/src/lib.rs: exactly what `on_commit` takes out of the pool.
use nbnet.Prelude.{
  ℕ, ◌≤◌, ◌≡◌, refl, sym, ap, ◌∙◌, subst, true, ◌&&◌, none, List, [], ◌∷◌, map, ltb, ◌==◌, ==_iff,
  if◌then◌else◌, arith, inl, inr, Option-cases, Bool-cases, nat_eq,
}
use nbnet.Std.Words.{u64_max}
use nbnet.Std.HashMap
use nbnet.Std.HashMap.{HashMap}
use nbnet.Std.BTreeMap
use nbnet.TxPool.Pool.{PoolEntry, SenderQueue, EvmTxPool}
use nbnet.TxPool.Commit.{Sweep, sweep_sender, sweep_senders, remove_all, on_commit}
use nbnet.TxPool.Tally.{IsQueue}
use nbnet.TxPool.Index.{IsPool, queue_of, queue_of-insert, get-queue_of}
use nbnet.TxPool.CommitKeeps.{sweep_senders-IsSwept, queue_of-remove_all}
use nbnet.TxPool.Contents.{elem, held, commit_queue-held, commit_queue-IsQueue}

module _ {E : Type 0} where
  -- The queues of a pool, each well formed.
  abbrev Shaped : HashMap ℕ (SenderQueue E) → Type 0
  Shaped senders = (b : ℕ) → IsQueue (queue_of senders b)

  abbrev held_by : HashMap ℕ (SenderQueue E) → ℕ → ℕ → List (PoolEntry E)
  held_by senders a n = held (queue_of senders a) n

  held-missing :
      (senders : HashMap ℕ (SenderQueue E)) (a n : ℕ)
      → HashMap.get senders a ≡ none
      → held_by senders a n ≡ []
  unfolding queue_of HashMap.or_default BTreeMap.get
  held-missing senders a n e = rw e refl

  Shaped-insert :
      (senders : HashMap ℕ (SenderQueue E)) (a : ℕ) (q : SenderQueue E)
      → Shaped senders
      → IsQueue q
      → Shaped (HashMap.insert senders a q)
  Shaped-insert senders a q s k b =
      rw (queue_of-insert senders a b q)
        (elim (Bool-cases (a == b)) [ inl e ↦ rw e k | inr e ↦ rw e (s b) ])

  held-insert :
      (senders : HashMap ℕ (SenderQueue E)) (a b n : ℕ) (q : SenderQueue E)
      → held_by (HashMap.insert senders a q) b n
        ≡ (if a == b then held q n else held_by senders b n)
  held-insert senders a b n q =
      rw (queue_of-insert senders a b q)
        (elim (Bool-cases (a == b)) [ inl e ↦ rw e refl | inr e ↦ rw e refl ])

  sweep_sender-Shaped :
      (f : ℕ → ℕ) (a : ℕ) (s : Sweep E)
      → ((b : ℕ) → f b ≤ u64_max)
      → Shaped s.senders
      → Shaped (sweep_sender f a s).senders
  unfolding sweep_sender
  sweep_sender-Shaped f a s low k = elim (Option-cases (HashMap.get s.senders a)) [
    | inl e ↦ rw (e, sweep_sender) k
    | inr (q, e) ↦
        let own = rw (get-queue_of s.senders a q e) at (k a) in
        rw (e, sweep_sender)
          (Shaped-insert s.senders a _ k
            (commit_queue-IsQueue (f a) q s.hashes_to_remove own (low a)))
  ]

  sweep_sender-held :
      (f : ℕ → ℕ) (a : ℕ) (s : Sweep E) (b n : ℕ)
      → ((c : ℕ) → f c ≤ u64_max)
      → Shaped s.senders
      → held_by (sweep_sender f a s).senders b n
        ≡ (if a == b && ltb n (f b) then [] else held_by s.senders b n)
  unfolding sweep_sender
  sweep_sender-held f a s b n low k = elim (Option-cases (HashMap.get s.senders a)) [
    | inl e ↦ rw (e, sweep_sender) (ground (arith, ==_iff a b, held-missing s.senders b n))
    | inr (q, e) ↦
        let same = get-queue_of s.senders a q e in
        let own = rw same at (k a) in
        rw (e, sweep_sender)
          (held-insert s.senders a b n _
            ∙ swept same (commit_queue-held (f a) q s.hashes_to_remove n own (low a)))
  ]
    where
      swept :
          {q : SenderQueue E} {after : List (PoolEntry E)}
          → queue_of s.senders a ≡ q
          → after ≡ (if ltb n (f a) then [] else held q n)
          → (if a == b then after else held_by s.senders b n)
            ≡ (if a == b && ltb n (f b) then [] else held_by s.senders b n)
      swept {after = after} same now = elim (Bool-cases (a == b)) [
        | inl e ↦ rw e (
            subst (λ c. after ≡ (if ltb n (f c) then [] else held_by s.senders c n))
              ((==_iff a b).0 e) (now ∙ ap (λ q. if ltb n (f a) then [] else held q n) (sym same)))
        | inr e ↦ rw e refl
      ]

  sweep_senders-Shaped :
      (f : ℕ → ℕ) (as' : List ℕ) (s : Sweep E)
      → ((b : ℕ) → f b ≤ u64_max)
      → Shaped s.senders
      → Shaped (sweep_senders f as' s).senders
  unfolding sweep_senders
  sweep_senders-Shaped f [] s low k = k
  sweep_senders-Shaped f (a ∷ as') s low k =
      sweep_senders-Shaped f as' (sweep_sender f a s) low (sweep_sender-Shaped f a s low k)

  sweep_senders-held :
      (f : ℕ → ℕ) (as' : List ℕ) (s : Sweep E) (b n : ℕ)
      → ((c : ℕ) → f c ≤ u64_max)
      → Shaped s.senders
      → held_by (sweep_senders f as' s).senders b n
        ≡ (if elem as' b && ltb n (f b) then [] else held_by s.senders b n)
  unfolding sweep_senders elem
  sweep_senders-held f [] s b n low k = refl
  sweep_senders-held f (a ∷ as') s b n low k =
      sweep_senders-held f as' (sweep_sender f a s) b n low (sweep_sender-Shaped f a s low k)
      ∙ ground (arith, sweep_sender-held f a s b n low k)

  -- The traversal of the map of senders passes every one of them.
  abbrev pub Covers :
      (List (ℕ × SenderQueue E) → List (ℕ × SenderQueue E)) → HashMap ℕ (SenderQueue E) → Type 0
  Covers visit senders =
      (a : ℕ)
      → HashMap.contains_key senders a ≡ true
      → elem (map (λ e. e.0) (visit senders)) a ≡ true

  -- A commit takes from the pool exactly the transactions whose nonces lie below their sender's:
  -- under any other nonce it holds what it held before, pending or queued. The pool is well formed,
  -- the traversal passes every sender, and account nonces are u64.
  pub on_commit-held :
      (visit : List (ℕ × SenderQueue E) → List (ℕ × SenderQueue E)) (pool : EvmTxPool E)
      (nonce_fn : ℕ → ℕ) (a n : ℕ)
      → IsPool pool.inner
      → Covers visit pool.inner.senders
      → ((b : ℕ) → nonce_fn b ≤ u64_max)
      → held (queue_of (on_commit visit pool nonce_fn).inner.senders a) n
        ≡ (if ltb n (nonce_fn a) then [] else held (queue_of pool.inner.senders a) n)
  unfolding on_commit remove_all HashMap.contains_key
  on_commit-held visit pool nonce_fn a n i covers low =
      let inner = pool.inner in
      let as' = map (λ e. e.0) (visit inner.senders) in
      let start : Sweep E = record {
        senders = inner.senders;
        hashes_to_remove = [];
        empty_senders = [];
      } in
      let swept =
        sweep_senders-IsSwept nonce_fn as' inner.by_hash start low
          (record { indexed = i; emptied = tt }) in
      ap (λ q. held q n) (queue_of-remove_all _ _ a swept.emptied)
      ∙ sweep_senders-held nonce_fn as' start a n low i.shape
      ∙ elim (Option-cases (HashMap.get inner.senders a)) [
        | inl e ↦ ground (arith, held-missing inner.senders a n e)
        | inr (q, e) ↦ ground (arith, covers a)
      ]
