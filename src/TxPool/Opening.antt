-- ===== src/TxPool/Opening.antt =====
-- crates/txpool/src/lib.rs: the payload after a submission that becomes the first candidate.

use nbnet.Prelude.{
  ℕ, ◌+◌, ◌≤◌, ◌<◌, ◌≡◌, sym, ap, ◌∙◌, false, List, [], ◌∷◌, ◌++◌, length, length-append, arith,
  All, ok, nat_eq,
}
use nbnet.Std.Words.{u64_mod}
use nbnet.Std.HashMap
use nbnet.Std.HashMap.{HashMap}
use nbnet.Types.Tx.{TxEnvelope, VerifiedTx, decode_and_recover}
use nbnet.TxPool.Payload.{
  Candidate, sort_by_tip, candidates, frame, selection, collect_payload, no_selection,
}
use nbnet.TxPool.Pool.{SenderQueue, PoolInner, EvmTxPool, empty_queue}
use nbnet.TxPool.Submit.{submit_tx, lookup_nonce}
use nbnet.TxPool.Index.{queue_of}
use nbnet.TxPool.Picks.{length-frame, frames, select-Picks}
use nbnet.TxPool.Progress.{selection-prefix, collect_payload-blocked}
use nbnet.TxPool.Priority.{Below, Passes, candidate_of, submit_tx-first}

module _ {E : Type 0} ⦃tx : TxEnvelope E⦄ where
  -- What is selected opens the payload.
  selection-opens :
      (visit : List (ℕ × SenderQueue E) → List (ℕ × SenderQueue E)) (inner : PoolInner E)
      (max_bytes max_gas : ℕ) (c : Candidate) (rest : List Candidate)
      → (selection visit inner max_bytes max_gas).included ≡ c ∷ rest
      → (selection visit inner max_bytes max_gas).payload ≡ frame c.raw ++ frames rest
  unfolding selection
  selection-opens visit inner max_bytes max_gas c rest e =
      let p =
        select-Picks inner.senders max_bytes max_gas
          (sort_by_tip (candidates (visit inner.senders))) no_selection in
      p.framed ∙ ap frames (sym p.included ∙ e)

  pub submit_tx-collect_payload :
      (visit : List (ℕ × SenderQueue E) → List (ℕ × SenderQueue E)) (pool : EvmTxPool E)
      (raw : List ℕ) (t : VerifiedTx E) (max_bytes max_gas : ℕ)
      → decode_and_recover raw ≡ ok t
      → HashMap.contains_key pool.inner.by_hash t.tx_hash ≡ false
      → lookup_nonce pool.inner t.sender ≡ tx.nonce t.envelope
      → queue_of pool.inner.senders t.sender ≡ empty_queue
      → 0 < pool.config.max_pending_per_sender
      → Passes visit
      → All
          (Below (candidate_of pool.config t))
          (candidates (visit (submit_tx pool raw).1.inner.senders))
      → 4 + length t.raw ≤ max_bytes
      → tx.gas_limit t.envelope ≤ max_gas
      → max_gas < u64_mod
      → ((submit_tx pool raw).0 ≡ ok t.tx_hash)
        × (rest : List ℕ) × ((collect_payload visit (submit_tx pool raw).1 max_bytes max_gas).0
            ≡ frame t.raw ++ rest)
  unfolding collect_payload
  submit_tx-collect_payload visit pool raw t b g e fresh nonce empty room passes top fits cheap
        small =
      let inner = (submit_tx pool raw).1.inner in
      let c = candidate_of pool.config t in
      let (accepted, gas, others, sorted) =
        submit_tx-first visit pool raw t e fresh nonce empty room passes top in
      let (rest, chosen) =
        selection-prefix visit inner b g (c ∷ []) others sorted
          (omega (arith, length-frame t.raw, length-append (frame t.raw) [])) (omega (arith, gas))
          small in
      (accepted, frames rest, selection-opens visit inner b g c rest chosen)

  -- A transaction that is alone too long for a payload is accepted with the account's nonce from a
  -- sender with nothing in the pool, and where no other candidate has as high a tip the next
  -- payload is empty, whatever else is pending, and leaves the pool as it is: provided that the
  -- transaction decodes and is new, that the pool has room, and that the traversal passes every
  -- sender.
  pub submit_tx-starves :
      (visit : List (ℕ × SenderQueue E) → List (ℕ × SenderQueue E)) (pool : EvmTxPool E)
      (raw : List ℕ) (t : VerifiedTx E) (max_bytes max_gas : ℕ)
      → decode_and_recover raw ≡ ok t
      → HashMap.contains_key pool.inner.by_hash t.tx_hash ≡ false
      → lookup_nonce pool.inner t.sender ≡ tx.nonce t.envelope
      → queue_of pool.inner.senders t.sender ≡ empty_queue
      → 0 < pool.config.max_pending_per_sender
      → Passes visit
      → All
          (Below (candidate_of pool.config t))
          (candidates (visit (submit_tx pool raw).1.inner.senders))
      → max_bytes < 4 + length t.raw
      → ((submit_tx pool raw).0 ≡ ok t.tx_hash)
        × (collect_payload visit (submit_tx pool raw).1 max_bytes max_gas
            ≡ ([], (submit_tx pool raw).1))
  submit_tx-starves visit pool raw t b g e fresh nonce empty room passes top long =
      let (accepted, gas, others, sorted) =
        submit_tx-first visit pool raw t e fresh nonce empty room passes top in
      (
        accepted,
        collect_payload-blocked visit (submit_tx pool raw).1 b g (candidate_of pool.config t) others
            sorted long,
      )
