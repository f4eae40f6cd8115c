-- ===== src/TxPool/Promotion.antt =====
-- Promotion keeps the queue's shape and contents, and leaves nothing that could still move.
use nbnet.Prelude.{
  ℕ, zero, suc, ◌≤◌, ◌<◌, ◌≡◌, refl, none, some, [], ◌∷◌, length, arith, inl, inr, ◌∙◌,
  Option-cases,
}
use nbnet.Std.Words.{u64_max, wrapping_add}
use nbnet.Std.BTreeMap
use nbnet.Std.BTreeMap.{
  BTreeMap, Keys, last_key_ge, insert-Keys, remove-Keys, get_from, Keys-tighten, Keys-raise,
  last_key-insert, last_key-eq-none, length-remove_present,
}
use nbnet.TxPool.Pool.{PoolEntry, SenderQueue, promote_loop, next_nonce, promote_queued_static}
use nbnet.TxPool.Tally.{tally, IsQueue, tally-insert, tally-remove, tally-remove_absent}

pub wrapping_next : (next : ℕ) → next < u64_max → wrapping_add next 1 ≡ suc next
unfolding wrapping_add
wrapping_next next h = omega arith

module _ {E : Type 0} where
  -- The state of the loop: every pending nonce lies below the next one.
  pub record Ready (next : ℕ) (q : SenderQueue E) : Type 0 where
    pub below : Keys 0 next q.pending
    pub queued_keys : Keys 0 u64_max q.queued
    pub in_range : next ≤ u64_max

  -- One round of the loop.
  abbrev pub moved : ℕ → SenderQueue E → PoolEntry E → SenderQueue E
  moved next q entry = record {
    pending = BTreeMap.insert q.pending next entry;
    queued = BTreeMap.remove q.queued next;
  }

  pub next_in_range :
      (next : ℕ) (q : SenderQueue E) (entry : PoolEntry E)
      → Ready next q
      → BTreeMap.get q.queued next ≡ some entry
      → next < u64_max
  next_in_range next q entry r e = grind (arith, get_from 0 u64_max q.queued next r.queued_keys)

  pub moved-Ready :
      (next : ℕ) (q : SenderQueue E) (entry : PoolEntry E)
      → Ready next q
      → next < u64_max
      → Ready (suc next) (moved next q entry)
  moved-Ready next q entry r h = record {
    below =
        insert-Keys 0 (suc next) q.pending next entry (omega arith) (omega arith)
          (Keys-raise 0 next (suc next) q.pending (omega arith) r.below);
    queued_keys = remove-Keys 0 u64_max q.queued next r.queued_keys;
    in_range = omega arith;
  }

  moved-tally :
      (h next : ℕ) (q : SenderQueue E) (entry : PoolEntry E)
      → Ready next q
      → BTreeMap.get q.queued next ≡ some entry
      → tally h (moved next q entry) ≡ tally h q
  moved-tally h next q entry r e = omega (
    arith,
    tally-insert h 0 next q.pending next entry r.below,
    tally-remove_absent h q.pending next (get_from 0 next q.pending next r.below (omega arith)),
    tally-remove h 0 u64_max q.queued next entry r.queued_keys e,
  )

  moved-next :
      (next current : ℕ) (q : SenderQueue E) (entry : PoolEntry E)
      → Ready next q
      → next < u64_max
      → next_nonce (moved next q entry) current ≡ suc next
  unfolding next_nonce
  moved-next next current q entry r h =
      rw (last_key-insert 0 q.pending next entry r.below, next_nonce) (wrapping_next next h)

  -- What promotion guarantees of its result.
  pub record Promoted (current : ℕ) (q q' : SenderQueue E) : Type 0 where
    pub shape : IsQueue q'
    pub kept : (h : ℕ) → tally h q' ≡ tally h q
    pub settled : BTreeMap.get q'.queued (next_nonce q' current) ≡ none

  Ready-IsQueue : (next : ℕ) (q : SenderQueue E) → Ready next q → IsQueue q
  Ready-IsQueue next q r = record {
    pending_keys = Keys-raise 0 next u64_max q.pending r.in_range r.below;
    queued_keys = r.queued_keys;
  }

  get-no_fuel : (m : BTreeMap (PoolEntry E)) (k : ℕ) → length m ≤ 0 → BTreeMap.get m k ≡ none
  unfolding BTreeMap.get
  get-no_fuel [] k h = refl
  get-no_fuel (e ∷ m) k h = absurd (omega arith)

  promote_loop-Promoted :
      (fuel next current : ℕ) (q : SenderQueue E)
      → Ready next q
      → next_nonce q current ≡ next
      → length q.queued ≤ fuel
      → Promoted current q (promote_loop fuel next q)
  unfolding promote_loop
  promote_loop-Promoted zero next current q r e f = record {
    shape = Ready-IsQueue next q r;
    kept = λ h. refl;
    settled = get-no_fuel q.queued _ f;
  }
  promote_loop-Promoted (suc fuel) next current q r e f =
      elim (Option-cases (BTreeMap.get q.queued next)) [
        | inl stop ↦
            rw (stop, promote_loop)
              (record { shape = Ready-IsQueue next q r; kept = λ h. refl; settled = rw e stop })
        | inr (entry, found) ↦
            let low = next_in_range next q entry r found in
            let p =
              promote_loop-Promoted fuel (suc next) current (moved next q entry)
                (moved-Ready next q entry r low) (moved-next next current q entry r low)
                (omega (
                  arith,
                  length-remove_present 0 u64_max q.queued next entry r.queued_keys found,
                )) in
            rw (found, promote_loop, wrapping_next next low)
              (record {
                shape = p.shape;
                kept = λ h. p.kept h ∙ moved-tally h next q entry r found;
                settled = p.settled;
              })
      ]

  pub start-Ready :
      (current : ℕ) (q : SenderQueue E)
      → IsQueue q
      → current ≤ u64_max
      → Ready (next_nonce q current) q
  unfolding next_nonce
  start-Ready current q s h = elim (Option-cases (BTreeMap.last_key q.pending)) [
    | inl e ↦
        rw (e, next_nonce)
          (record {
            below = rw (last_key-eq-none q.pending e) tt;
            queued_keys = s.queued_keys;
            in_range = h;
          })
    | inr (l, e) ↦
        let low = (last_key_ge 0 u64_max q.pending l s.pending_keys e).1 in
        rw (e, next_nonce, wrapping_next l low)
          (record {
            below = Keys-tighten 0 u64_max q.pending l s.pending_keys e;
            queued_keys = s.queued_keys;
            in_range = low;
          })
  ]

  -- Promotion of a well-formed queue keeps it well formed, keeps every transaction in it, and stops
  -- only where the next nonce is not queued, so the fuel of the loop is enough. The account's nonce
  -- is a u64.
  pub promote_queued_static-Promoted :
      (current : ℕ) (q : SenderQueue E)
      → IsQueue q
      → current ≤ u64_max
      → Promoted current q (promote_queued_static q current)
  unfolding promote_queued_static
  promote_queued_static-Promoted current q s h =
      promote_loop-Promoted (length q.queued) (next_nonce q current) current q
        (start-Ready current q s h) refl (omega arith)
