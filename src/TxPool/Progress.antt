-- ===== src/TxPool/Progress.antt =====
-- `collect_payload` of crates/txpool/src/lib.rs: what is certain to be selected, and what stops it.
use mathlib.Core.List.{append_assoc}
use nbnet.Prelude.{
  ℕ, ◌+◌, ◌≤◌, ◌<◌, ◌≡◌, refl, ◌∙◌, Bool-cases, inl, inr, false, List, [], ◌∷◌, ◌++◌, length, ltb,
  arith, length-append,
}
use nbnet.Std.Words.{u64_mod, wrapping_add, wrapping_add_exact}
use nbnet.Std.HashMap.{HashMap}
use nbnet.Types.Tx.{TxEnvelope}
use nbnet.TxPool.Pool.{SenderQueue, PoolInner, EvmTxPool}
use nbnet.TxPool.Payload.{
  Candidate, Selection, no_selection, candidates, sort_by_tip, frame, gas_of, select, selection,
  collect_payload, remove_included,
}
use nbnet.TxPool.Picks.{length-frame, frames, gas_sum, taken, select-Picks}

module _ {E : Type 0} ⦃tx : TxEnvelope E⦄ (senders : HashMap ℕ (SenderQueue E)) where
  select-take :
      (b g : ℕ) (c : Candidate) (cs : List Candidate) (s : Selection)
      → length s.payload + 4 + length c.raw ≤ b
      → wrapping_add s.total_gas (gas_of senders c) ≤ g
      → (select senders b g (c ∷ cs) s).included
        ≡ (select senders b g cs (taken senders s c)).included
  unfolding select
  select-take b g c cs s room light =
      let fits : ltb b (length s.payload + 4 + length c.raw) ≡ false = ground arith in
      let cheap : ltb g (wrapping_add s.total_gas (gas_of senders c)) ≡ false = ground arith in
      elim (Bool-cases (ltb 0 g)) [
        | inl p ↦ rw (p, fits, cheap, select) refl
        | inr p ↦ rw (p, fits, select) refl
      ]

  -- Candidates for which there is room on top of what is selected are taken.
  select-prefix :
      (b g : ℕ) (pre post : List Candidate) (s : Selection)
      → length s.payload + length (frames pre) ≤ b
      → s.total_gas + gas_sum senders pre ≤ g
      → g < u64_mod
      → (rest : List Candidate) × ((select senders b g (pre ++ post) s).included
          ≡ s.included ++ (pre ++ rest))
  select-prefix b g [] post s fits cheap small =
      let p = select-Picks senders b g post s in (p.picked, p.included)
  select-prefix b g (c ∷ pre) post s fits cheap small =
      let len = length-append (frame c.raw) (frames pre) in
      let size = length-append s.payload (frame c.raw) in
      let exact = wrapping_add_exact s.total_gas (gas_of senders c) (omega (arith, cheap)) in
      let (rest, e) =
        select-prefix b g pre post (taken senders s c) (omega (arith, len, size, fits))
          (omega (arith, exact, cheap)) small in
      (
        rest,
        select-take b g c (pre ++ post) s (omega (arith, len, length-frame c.raw))
              (omega (arith, exact, cheap))
            ∙ e
            ∙ append_assoc s.included (c ∷ []) (pre ++ rest),
      )

module _ {E : Type 0} ⦃tx : TxEnvelope E⦄
    (visit : List (ℕ × SenderQueue E) → List (ℕ × SenderQueue E)) (inner : PoolInner E)
    (max_bytes max_gas : ℕ) where
  -- Whatever first part of the candidates, in the order of falling tips, fits the byte limit and
  -- the gas limit together is selected, in that order and before anything else; the gas limit is a
  -- u64.
  pub selection-prefix :
      (pre post : List Candidate)
      → sort_by_tip (candidates (visit inner.senders)) ≡ pre ++ post
      → length (frames pre) ≤ max_bytes
      → gas_sum inner.senders pre ≤ max_gas
      → max_gas < u64_mod
      → (rest : List Candidate) × ((selection visit inner max_bytes max_gas).included ≡ pre ++ rest)
  unfolding selection
  selection-prefix pre post e fits cheap small = rw e (
      select-prefix inner.senders max_bytes max_gas pre post no_selection (omega (arith, fits))
        (omega (arith, cheap)) small)

  selection_blocked :
      (c : Candidate) (cs : List Candidate)
      → sort_by_tip (candidates (visit inner.senders)) ≡ c ∷ cs
      → max_bytes < 4 + length c.raw
      → selection visit inner max_bytes max_gas ≡ no_selection
  unfolding selection select
  selection_blocked c cs e big = rw e (ground arith)

module _ {E : Type 0} ⦃tx : TxEnvelope E⦄ where
  -- Where the first candidate is alone too long for the byte limit, the payload is empty and the pool
  -- is left as it is.
  pub collect_payload-blocked :
      (visit : List (ℕ × SenderQueue E) → List (ℕ × SenderQueue E)) (pool : EvmTxPool E)
      (max_bytes max_gas : ℕ) (c : Candidate) (cs : List Candidate)
      → sort_by_tip (candidates (visit pool.inner.senders)) ≡ c ∷ cs
      → max_bytes < 4 + length c.raw
      → collect_payload visit pool max_bytes max_gas ≡ ([], pool)
  unfolding collect_payload remove_included
  collect_payload-blocked visit pool max_bytes max_gas c cs e big =
      rw (selection_blocked visit pool.inner max_bytes max_gas c cs e big) refl
