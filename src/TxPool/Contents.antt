-- ===== src/TxPool/Contents.antt =====
-- What the pool of crates/txpool/src/lib.rs holds under each sender and nonce, whichever side of the
-- queue it stands in: what promotion and the removal of stale transactions do to it.
pub mod Removal
pub mod Collecting
pub mod Insertion
pub mod Gaps
use nbnet.Prelude.{
  ℕ, zero, suc, ◌≤◌, ◌<◌, ◌≡◌, refl, sym, ◌∙◌, Bool, true, false, ◌||◌, ◌&&◌, Option, none, some,
  List, [], ◌∷◌, ◌++◌, length, ltb, ◌==◌, if◌then◌else◌, arith, is_some, inl, inr, Option-cases,
}
use nbnet.Std.Words.{u64_max, wrapping_add}
use nbnet.Std.BTreeMap
use nbnet.Std.BTreeMap.{BTreeMap, Keys, get_from, get_below, remove-Keys}
use nbnet.TxPool.Pool.{PoolEntry, SenderQueue, promote_loop, next_nonce, promote_queued_static}
use nbnet.TxPool.Commit.{remove_stale, commit_queue}
use nbnet.TxPool.Tally.{IsQueue}
use nbnet.TxPool.Promotion.{
  Ready, moved, next_in_range, moved-Ready, start-Ready, wrapping_next,
  promote_queued_static-Promoted,
}

-- Nothing, or the one value.
abbrev pub listed {ℓ} : {A : Type ℓ} → Option A → List A
listed none = []
listed (some a) = a ∷ []

unfoldable pub elem : List ℕ → ℕ → Bool
elem [] k = false
elem (n ∷ ns) k = n == k || elem ns k

module _ {E : Type 0} where
  -- What a queue holds at a nonce, the pending transaction before the queued one.
  abbrev pub held : SenderQueue E → ℕ → List (PoolEntry E)
  held q n = listed (BTreeMap.get q.pending n) ++ listed (BTreeMap.get q.queued n)

  moved-held :
      (next : ℕ) (q : SenderQueue E) (entry : PoolEntry E) (n : ℕ)
      → Ready next q
      → BTreeMap.get q.queued next ≡ some entry
      → held (moved next q entry) n ≡ held q n
  moved-held next q entry n r e = ground (
    arith,
    BTreeMap.get-insert q.pending next n entry,
    BTreeMap.get-remove q.queued next n,
    get_from 0 next q.pending next r.below,
  )

  promote_loop-held :
      (fuel next : ℕ) (q : SenderQueue E) (n : ℕ)
      → Ready next q
      → held (promote_loop fuel next q) n ≡ held q n
  unfolding promote_loop
  promote_loop-held zero next q n r = refl
  promote_loop-held (suc fuel) next q n r = elim (Option-cases (BTreeMap.get q.queued next)) [
    | inl stop ↦ rw (stop, promote_loop) refl
    | inr (entry, found) ↦
        let low = next_in_range next q entry r found in
        rw (found, promote_loop, wrapping_next next low)
          (promote_loop-held fuel (suc next) (moved next q entry) n (moved-Ready next q entry r low)
            ∙ moved-held next q entry n r found)
  ]

  -- Promotion moves transactions from one side to the other, and neither drops nor adds one.
  pub promote_queued_static-held :
      (current : ℕ) (q : SenderQueue E) (n : ℕ)
      → IsQueue q
      → current ≤ u64_max
      → held (promote_queued_static q current) n ≡ held q n
  unfolding promote_queued_static
  promote_queued_static-held current q n s h =
      promote_loop-held (length q.queued) (next_nonce q current) q n (start-Ready current q s h)

  get-remove_stale :
      (ns : List ℕ) (m : BTreeMap (PoolEntry E)) (hashes : List ℕ) (n : ℕ)
      → BTreeMap.get (remove_stale ns m hashes).0 n ≡ (if elem ns n then none else BTreeMap.get m n)
  unfolding remove_stale elem
  get-remove_stale [] m hashes n = refl
  get-remove_stale (k ∷ ns) m hashes n = elim (Option-cases (BTreeMap.get m k)) [
    | inl e ↦ rw (e, remove_stale) (ground (arith, get-remove_stale ns m hashes n))
    | inr (entry, e) ↦
        rw (e, remove_stale)
          (ground (
            arith,
            get-remove_stale ns (BTreeMap.remove m k) (hashes ++ entry.verified.tx_hash ∷ []) n,
            BTreeMap.get-remove m k n,
          ))
  ]

  -- The listed keys are those of the map below the bound.
  elem-keys_below :
      (lo hi current : ℕ) (m : BTreeMap (PoolEntry E)) (n : ℕ)
      → Keys lo hi m
      → (if elem (BTreeMap.keys_below current m) n then none else BTreeMap.get m n)
        ≡ (if ltb n current then none else BTreeMap.get m n)
  unfolding elem BTreeMap.keys_below BTreeMap.get
  elem-keys_below lo hi current [] n s = ground arith
  elem-keys_below lo hi current ((k, e) ∷ m) n s =
      ground (arith, elem-keys_below (suc k) hi current m n s.2, get_below (suc k) hi m n s.2)

  get-stale :
      (current : ℕ) (m : BTreeMap (PoolEntry E)) (hashes : List ℕ) (n : ℕ)
      → Keys 0 u64_max m
      → BTreeMap.get (remove_stale (BTreeMap.keys_below current m) m hashes).0 n
        ≡ (if ltb n current then none else BTreeMap.get m n)
  get-stale current m hashes n s =
      get-remove_stale (BTreeMap.keys_below current m) m hashes n
      ∙ elem-keys_below 0 u64_max current m n s

  remove_stale-Keys :
      (ns : List ℕ) (m : BTreeMap (PoolEntry E)) (hashes : List ℕ)
      → Keys 0 u64_max m
      → Keys 0 u64_max (remove_stale ns m hashes).0
  unfolding remove_stale
  remove_stale-Keys [] m hashes s = s
  remove_stale-Keys (n ∷ ns) m hashes s = elim (Option-cases (BTreeMap.get m n)) [
    | inl e ↦ rw (e, remove_stale) (remove_stale-Keys ns m hashes s)
    | inr (entry, e) ↦
        rw (e, remove_stale)
          (remove_stale-Keys ns (BTreeMap.remove m n) _ (remove-Keys 0 u64_max m n s))
  ]

  -- A commit drops from a queue exactly what is below the account's nonce.
  pub commit_queue-held :
      (current : ℕ) (q : SenderQueue E) (hashes : List ℕ) (n : ℕ)
      → IsQueue q
      → current ≤ u64_max
      → held (commit_queue current q hashes).0 n ≡ (if ltb n current then [] else held q n)
  unfolding commit_queue
  commit_queue-held current q hashes n s h =
      let (pending, hashes') =
        remove_stale (BTreeMap.keys_below current q.pending) q.pending hashes in
      let (queued, hashes'') =
        remove_stale (BTreeMap.keys_below current q.queued) q.queued hashes' in
      promote_queued_static-held current (record { pending = pending; queued = queued }) n
        (record {
          pending_keys = remove_stale-Keys _ q.pending hashes s.pending_keys;
          queued_keys = remove_stale-Keys _ q.queued hashes' s.queued_keys;
        })
        h
      ∙ ground (
        arith,
        get-stale current q.pending hashes n s.pending_keys,
        get-stale current q.queued hashes' n s.queued_keys,
      )

  pub commit_queue-IsQueue :
      (current : ℕ) (q : SenderQueue E) (hashes : List ℕ)
      → IsQueue q
      → current ≤ u64_max
      → IsQueue (commit_queue current q hashes).0
  unfolding commit_queue
  commit_queue-IsQueue current q hashes s h =
      let (pending, hashes') =
        remove_stale (BTreeMap.keys_below current q.pending) q.pending hashes in
      let (queued, hashes'') =
        remove_stale (BTreeMap.keys_below current q.queued) q.queued hashes' in
      (promote_queued_static-Promoted current (record { pending = pending; queued = queued })
        (record {
          pending_keys = remove_stale-Keys _ q.pending hashes s.pending_keys;
          queued_keys = remove_stale-Keys _ q.queued hashes' s.queued_keys;
        })
        h).shape
