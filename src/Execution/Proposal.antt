-- ===== src/Execution/Proposal.antt =====
-- From `submit_raw_tx` to the next payload of crates/execution/src/executor.rs.
use mathlib.Core.List.{Memᴰ}
use nbnet.Prelude.{ℕ, ◌+◌, ◌*◌, ◌≤◌, ◌<◌, ◌≡◌, false, some, List, ◌++◌, length, All, ok, nat_eq}
use nbnet.Std.Words.{u64_mod}
use nbnet.Std.HashMap
use nbnet.Std.HashMap.{HashMap}
use nbnet.Types.Tx.{TxEnvelope, VerifiedTx, decode_and_recover}
use nbnet.State.External.{Vsdb, Revm}
use nbnet.State.Evm
use nbnet.TxPool.Pool.{SenderQueue, empty_queue, set_nonce_fn}
use nbnet.TxPool.Payload.{candidates, frame}
use nbnet.TxPool.Submit.{lookup_nonce}
use nbnet.TxPool.Index.{queue_of}
use nbnet.TxPool.Priority.{Below, candidate_of}
use nbnet.TxPool.Opening.{submit_tx-collect_payload}
use nbnet.Execution.Executor.{EvmExecutor, live_pool, submit_raw_tx, create_payload}

module _ {E : Type 0} ⦃tx : TxEnvelope E⦄ ⦃v : Vsdb⦄ ⦃r : Revm⦄ where
  -- A transaction with the account's nonce, from a sender with nothing in the pool, is accepted,
  -- and where no other candidate has as high a tip it opens the next payload: provided that it is
  -- new, that it fits a payload's bytes and the block's gas, that the pool is wired to the state
  -- and has room, and that the traversal passes every sender.
  pub submit_raw_tx-create_payload :
      (visit : List (ℕ × SenderQueue E) → List (ℕ × SenderQueue E)) (x : EvmExecutor E v r)
      (raw : List ℕ) (t : VerifiedTx E) (f : ℕ → ℕ)
      → x.txpool.inner.nonce_fn ≡ some f
      → decode_and_recover raw ≡ ok t
      → HashMap.contains_key x.txpool.inner.by_hash t.tx_hash ≡ false
      → Evm.get_nonce x.state t.sender ≡ tx.nonce t.envelope
      → queue_of x.txpool.inner.senders t.sender ≡ empty_queue
      → 0 < x.txpool.config.max_pending_per_sender
      → ((m : HashMap ℕ (SenderQueue E)) (a : ℕ) (q : SenderQueue E)
          → HashMap.get m a ≡ some q
          → Memᴰ (a, q) (visit m))
      → All
          (Below (candidate_of x.txpool.config t))
          (candidates (visit (submit_raw_tx x raw).1.txpool.inner.senders))
      → 4 + length t.raw ≤ 4 * 1024 * 1024
      → tx.gas_limit t.envelope ≤ x.state.config.block_gas_limit
      → x.state.config.block_gas_limit < u64_mod
      → ((submit_raw_tx x raw).0 ≡ ok t.tx_hash)
        × (rest : List ℕ) × ((create_payload visit (submit_raw_tx x raw).1).0 ≡ frame t.raw ++ rest)
  unfolding submit_raw_tx create_payload live_pool set_nonce_fn lookup_nonce
  submit_raw_tx-create_payload visit x raw t f wired e fresh nonce empty room passes top fits cheap
        small =
      rw (wired, submit_raw_tx, live_pool)
        (submit_tx-collect_payload visit
          (set_nonce_fn x.txpool (λ addr. Evm.get_nonce x.state addr)) raw t (4 * 1024 * 1024)
          x.state.config.block_gas_limit e fresh nonce empty room passes
          (rw (wired, submit_raw_tx, live_pool) at top) fits cheap small)
