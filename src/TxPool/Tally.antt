-- ===== src/TxPool/Tally.antt =====
-- How often a hash stands in one side of a sender's queue, and in the queue.
use nbnet.Prelude.{ℕ, suc, ◌+◌, ◌≤◌, ◌≡◌, refl, none, some, [], ◌∷◌, ◌==◌, if◌then◌else◌, arith}
use nbnet.Std.Words.{u64_max}
use nbnet.Std.BTreeMap
use nbnet.Std.BTreeMap.{BTreeMap, Keys, get_below}
use nbnet.TxPool.Pool.{PoolEntry, SenderQueue}

-- 1 if the two hashes are equal, and 0 otherwise.
abbrev pub hit : ℕ → ℕ → ℕ
hit x h = if x == h then 1 else 0

module _ {E : Type 0} where
  unfoldable pub tally_side : ℕ → BTreeMap (PoolEntry E) → ℕ
  tally_side h [] = 0
  tally_side h ((n, e) ∷ m) = hit e.verified.tx_hash h + tally_side h m

  abbrev pub tally : ℕ → SenderQueue E → ℕ
  tally h q = tally_side h q.pending + tally_side h q.queued

  -- Both sides of a queue are maps with keys below the largest `u64`.
  pub record IsQueue (q : SenderQueue E) : Type 0 where
    pub pending_keys : Keys 0 u64_max q.pending
    pub queued_keys : Keys 0 u64_max q.queued

  pub tally-remove_absent :
      (h : ℕ) (m : BTreeMap (PoolEntry E)) (k : ℕ)
      → BTreeMap.get m k ≡ none
      → tally_side h (BTreeMap.remove m k) ≡ tally_side h m
  unfolding tally_side BTreeMap.get BTreeMap.remove
  tally-remove_absent h [] k e = refl
  tally-remove_absent h ((j, w) ∷ m) k e = ground (arith, tally-remove_absent h m k)

  pub tally-remove :
      (h lo hi : ℕ) (m : BTreeMap (PoolEntry E)) (k : ℕ) (old : PoolEntry E)
      → Keys lo hi m
      → BTreeMap.get m k ≡ some old
      → tally_side h (BTreeMap.remove m k) + hit old.verified.tx_hash h ≡ tally_side h m
  unfolding tally_side BTreeMap.get BTreeMap.remove
  tally-remove h lo hi [] k old s e = absurd (none≢some e)
    where
      none≢some : none ≡ some old → ⊥
      none≢some p = cc
  tally-remove h lo hi ((j, w) ∷ m) k old s e = ground (
    arith,
    tally-remove h (suc j) hi m k old s.2,
    tally-remove_absent h m k,
    get_below (suc j) hi m k s.2,
  )

  pub tally-insert :
      (h lo hi : ℕ) (m : BTreeMap (PoolEntry E)) (k : ℕ) (new : PoolEntry E)
      → Keys lo hi m
      → tally_side h (BTreeMap.insert m k new)
        ≡ hit new.verified.tx_hash h + tally_side h (BTreeMap.remove m k)
  unfolding tally_side BTreeMap.insert BTreeMap.remove
  tally-insert h lo hi [] k new s = refl
  tally-insert h lo hi ((j, w) ∷ m) k new s = ground (
    arith,
    tally-insert h (suc j) hi m k new s.2,
    tally-remove_absent h m k,
    get_below (suc j) hi m k s.2,
  )

  pub tally_present :
      (m : BTreeMap (PoolEntry E)) (k : ℕ) (old : PoolEntry E)
      → BTreeMap.get m k ≡ some old
      → 1 ≤ tally_side old.verified.tx_hash m
  unfolding tally_side BTreeMap.get
  tally_present [] k old e = cc
  tally_present ((j, w) ∷ m) k old e = ground (arith, tally_present m k old)
