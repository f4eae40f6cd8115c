-- ===== src/TxPool/CommitKeeps.antt =====
-- `on_commit` keeps the hash index and the queues in agreement: while it sweeps the senders, the
-- index is exact up to the hashes that it has still to remove.
use native.Mathlib.Nat.{add_comm}
use nbnet.Prelude.{
  ℕ, ◌+◌, ◌≤◌, ◌≡◌, refl, sym, ap, ◌∙◌, true, List, [], ◌∷◌, ◌++◌, map, arith, inl, inr, Bool-cases,
  Option-cases, nat_eq, ==_iff, ◌==◌, ◌&&◌, subst, All, All-append,
}
use nbnet.Std.Words.{u64_max}
use nbnet.Std.HashMap
use nbnet.Std.HashMap.{HashMap}
use nbnet.Std.BTreeMap
use nbnet.Std.BTreeMap.{BTreeMap, Keys, remove-Keys}
use nbnet.TxPool.Pool.{
  PoolEntry, SenderQueue, EvmTxPool, empty_queue, promote_queued_static, promote_loop,
}
use nbnet.TxPool.Commit.{
  remove_stale, commit_queue, Sweep, sweep_sender, sweep_senders, remove_all, on_commit,
}
use nbnet.TxPool.Tally.{tally, tally_side, IsQueue, tally-remove}
use nbnet.TxPool.Promotion.{promote_queued_static-Promoted}
use nbnet.TxPool.Index.{
  IsIndexed, IsIndexedAt, IsPool, queue_of, queue_of-insert, own_shape, focus, unfocus,
  keep_entries, drop_entry, get-queue_of,
}

remove_all-snoc {ℓ} :
    {V : Type ℓ} (ks : List ℕ) (k : ℕ) (m : HashMap ℕ V)
    → remove_all (ks ++ k ∷ []) m ≡ HashMap.remove (remove_all ks m) k
unfolding remove_all
remove_all-snoc [] k m = refl
remove_all-snoc (j ∷ ks) k m = remove_all-snoc ks k (HashMap.remove m j)

module _ {E : Type 0} (senders : HashMap ℕ (SenderQueue E)) (a : ℕ) (by_hash : HashMap ℕ ℕ) where
  -- The index is exact once the hashes are removed.
  abbrev IsOwing : SenderQueue E → List ℕ → Type 0
  IsOwing q hashes = IsIndexedAt senders a q (remove_all hashes by_hash)

  -- One side of the queue, the other fixed.
  module _ (put : BTreeMap (PoolEntry E) → SenderQueue E) (other : ℕ → ℕ)
      (tally_put : (h : ℕ) (m : BTreeMap (PoolEntry E))
        → tally h (put m) ≡ tally_side h m + other h)
      (shape_put : (m : BTreeMap (PoolEntry E)) → Keys 0 u64_max m → IsQueue (put m)) where
    remove_stale-IsOwing :
        (ns : List ℕ) (m : BTreeMap (PoolEntry E)) (hashes : List ℕ)
        → Keys 0 u64_max m
        → IsOwing (put m) hashes
        → Keys 0 u64_max (remove_stale ns m hashes).0
          × IsOwing (put (remove_stale ns m hashes).0) (remove_stale ns m hashes).1
    unfolding remove_stale
    remove_stale-IsOwing [] m hashes s i = (s, i)
    remove_stale-IsOwing (n ∷ ns) m hashes s i = elim (Option-cases (BTreeMap.get m n)) [
      | inl e ↦ rw (e, remove_stale) (remove_stale-IsOwing ns m hashes s i)
      | inr (entry, e) ↦
          let x = entry.verified.tx_hash in
          let m' = BTreeMap.remove m n in
          let s' = remove-Keys 0 u64_max m n s in
          let less =
            drop_entry senders a (put m) (put m') (remove_all hashes by_hash) i (shape_put m' s') x
              (λ h.
                omega
                  (arith, tally_put h m, tally_put h m', tally-remove h 0 u64_max m n entry s e)) in
          rw (e, remove_stale)
            (remove_stale-IsOwing ns m' (hashes ++ x ∷ []) s' (
              subst (IsIndexedAt senders a (put m')) (sym (remove_all-snoc hashes x by_hash)) less))
    ]

  commit_queue-IsOwing :
      (current : ℕ) (q : SenderQueue E) (hashes : List ℕ)
      → current ≤ u64_max
      → IsOwing q hashes
      → IsOwing (commit_queue current q hashes).0 (commit_queue current q hashes).1
  unfolding commit_queue
  commit_queue-IsOwing current q hashes low i =
      let own = own_shape senders a q _ i in
      let first =
        remove_stale-IsOwing (λ m. record { pending = m; queued = q.queued })
          (λ h. tally_side h q.queued) (λ h m. refl)
          (λ m s. record { pending_keys = s; queued_keys = own.queued_keys })
          (BTreeMap.keys_below current q.pending) q.pending hashes own.pending_keys i in
      let pending = (remove_stale (BTreeMap.keys_below current q.pending) q.pending hashes).0 in
      let second =
        remove_stale-IsOwing (λ m. record { pending = pending; queued = m })
          (λ h. tally_side h pending) (λ h m. add_comm (tally_side h pending) (tally_side h m))
          (λ m s. record { pending_keys = first.0; queued_keys = s })
          (BTreeMap.keys_below current q.queued) q.queued _ own.queued_keys first.1 in
      let p = promote_queued_static-Promoted current _ (own_shape senders a _ _ second.1) low in
      keep_entries senders a _ _ _ second.1 p.shape p.kept

module _ {E : Type 0} where
  IsIndexed-ext :
      (senders senders' : HashMap ℕ (SenderQueue E)) (by_hash : HashMap ℕ ℕ)
      → ((b : ℕ) → queue_of senders' b ≡ queue_of senders b)
      → IsIndexed senders by_hash
      → IsIndexed senders' by_hash
  IsIndexed-ext senders senders' by_hash e i = record {
    shape = λ b. rw (e b) (i.shape b);
    indexed = λ h b. rw (e b) (i.indexed h b);
  }

  -- The loop invariant over the senders.
  pub record IsSwept (by_hash : HashMap ℕ ℕ) (s : Sweep E) : Type 0 where
    pub indexed : IsIndexed s.senders (remove_all s.hashes_to_remove by_hash)
    pub emptied : All (λ b. queue_of s.senders b ≡ empty_queue) s.empty_senders

  commit_queue-empty :
      (current : ℕ) (hashes : List ℕ)
      → (commit_queue {E = E} current empty_queue hashes).0 ≡ empty_queue
  unfolding commit_queue remove_stale promote_queued_static promote_loop BTreeMap.keys_below
  commit_queue-empty current hashes = refl

  is_empty-eq :
      (q : SenderQueue E)
      → (BTreeMap.is_empty q.pending && BTreeMap.is_empty q.queued) ≡ true
      → q ≡ empty_queue
  unfolding BTreeMap.is_empty
  is_empty-eq q e = ground arith

  -- After one sender is swept, the queues noted as empty are still empty.
  emptied_after :
      (senders : HashMap ℕ (SenderQueue E)) (a : ℕ) (q q' : SenderQueue E) (bs : List ℕ)
      → queue_of senders a ≡ q
      → (q ≡ empty_queue → q' ≡ empty_queue)
      → All (λ b. queue_of senders b ≡ empty_queue) bs
      → All (λ b. queue_of (HashMap.insert senders a q') b ≡ empty_queue) bs
  emptied_after senders a q q' [] e k h = tt
  emptied_after senders a q q' (b ∷ bs) e k h = (
    rw (queue_of-insert senders a b q') (elim (Bool-cases (a == b)) [
      | inl same ↦ rw same (k (sym e ∙ ap (queue_of senders) ((==_iff a b).0 same) ∙ h.0))
      | inr other ↦ rw other h.0
    ]),
    emptied_after senders a q q' bs e k h.1,
  )

  sweep_sender-IsSwept :
      (nonce_fn : ℕ → ℕ) (a : ℕ) (by_hash : HashMap ℕ ℕ) (s : Sweep E)
      → nonce_fn a ≤ u64_max
      → IsSwept by_hash s
      → IsSwept by_hash (sweep_sender nonce_fn a s)
  unfolding sweep_sender
  sweep_sender-IsSwept nonce_fn a by_hash s low i = elim (Option-cases (HashMap.get s.senders a)) [
    | inl e ↦ rw (e, sweep_sender) i
    | inr (q, e) ↦
        let same = get-queue_of s.senders a q e in
        let at =
          subst (λ x. IsOwing s.senders a by_hash x s.hashes_to_remove) same
            (focus s.senders a _ i.indexed) in
        let q' = (commit_queue (nonce_fn a) q s.hashes_to_remove).0 in
        let swept =
          commit_queue-IsOwing s.senders a by_hash (nonce_fn a) q s.hashes_to_remove low at in
        let still =
          emptied_after s.senders a q q' s.empty_senders same
            (λ z. rw z (commit_queue-empty (nonce_fn a) s.hashes_to_remove)) i.emptied in
        rw (e, sweep_sender)
          (record {
            indexed = unfocus s.senders a q' _ swept;
            emptied =
                elim (Bool-cases (BTreeMap.is_empty q'.pending && BTreeMap.is_empty q'.queued)) [
                  | inl z ↦ rw z (
                      All-append _ s.empty_senders (a ∷ []) still (
                        get-queue_of _ a q' (ground (arith, HashMap.get-insert s.senders a a q'))
                            ∙ is_empty-eq q' z,
                        tt,
                      ))
                  | inr z ↦ rw z still
                ];
          })
  ]

  pub sweep_senders-IsSwept :
      (nonce_fn : ℕ → ℕ) (as' : List ℕ) (by_hash : HashMap ℕ ℕ) (s : Sweep E)
      → ((a : ℕ) → nonce_fn a ≤ u64_max)
      → IsSwept by_hash s
      → IsSwept by_hash (sweep_senders nonce_fn as' s)
  unfolding sweep_senders
  sweep_senders-IsSwept nonce_fn [] by_hash s low i = i
  sweep_senders-IsSwept nonce_fn (a ∷ as') by_hash s low i =
      sweep_senders-IsSwept nonce_fn as' by_hash _ low
        (sweep_sender-IsSwept nonce_fn a by_hash s (low a) i)

  -- Removing a sender whose queue is empty cannot be seen.
  queue_of-remove :
      (senders : HashMap ℕ (SenderQueue E)) (a b : ℕ)
      → queue_of senders a ≡ empty_queue
      → queue_of (HashMap.remove senders a) b ≡ queue_of senders b
  unfolding queue_of HashMap.or_default
  queue_of-remove senders a b e = ground (arith, HashMap.get-remove senders a b, ==_iff a b)

  pub queue_of-remove_all :
      (as' : List ℕ) (senders : HashMap ℕ (SenderQueue E)) (b : ℕ)
      → All (λ a. queue_of senders a ≡ empty_queue) as'
      → queue_of (remove_all as' senders) b ≡ queue_of senders b
  unfolding remove_all
  queue_of-remove_all [] senders b h = refl
  queue_of-remove_all (a ∷ as') senders b h =
      queue_of-remove_all as' (HashMap.remove senders a) b (rest as' h.1)
      ∙ queue_of-remove senders a b h.0
    where
      rest :
          (cs : List ℕ)
          → All (λ c. queue_of senders c ≡ empty_queue) cs
          → All (λ c. queue_of (HashMap.remove senders a) c ≡ empty_queue) cs
      rest [] k = tt
      rest (c ∷ cs) k = (queue_of-remove senders a c h.0 ∙ k.0, rest cs k.1)

  -- A commit keeps the queues well formed and the hash index exact, in whatever order it visits the
  -- senders.
  pub on_commit-IsPool :
      (visit : List (ℕ × SenderQueue E) → List (ℕ × SenderQueue E)) (pool : EvmTxPool E)
      (nonce_fn : ℕ → ℕ)
      → ((a : ℕ) → nonce_fn a ≤ u64_max)
      → IsPool pool.inner
      → IsPool (on_commit visit pool nonce_fn).inner
  unfolding on_commit remove_all
  on_commit-IsPool visit pool nonce_fn low i =
      let inner = pool.inner in
      let swept =
        sweep_senders-IsSwept nonce_fn (map (λ e. e.0) (visit inner.senders)) inner.by_hash
          (record { senders = inner.senders; hashes_to_remove = []; empty_senders = [] }) low
          (record { indexed = i; emptied = tt }) in
      IsIndexed-ext _ _ _ (λ b. queue_of-remove_all _ _ b swept.emptied) swept.indexed
