-- ===== src/TxPool/Commit.antt =====
-- `on_commit` of crates/txpool/src/lib.rs. The order in which the keys of the hash map of senders
-- are collected is the argument `visit`.
use nbnet.Prelude.{ℕ, ◌&&◌, none, some, List, [], ◌∷◌, ◌++◌, map, if◌then◌else◌, nat_eq}
use nbnet.Std.HashMap
use nbnet.Std.HashMap.{HashMap}
use nbnet.Std.BTreeMap
use nbnet.Std.BTreeMap.{BTreeMap}
use nbnet.TxPool.Pool.{PoolEntry, SenderQueue, EvmTxPool, promote_queued_static}

-- The variables of the loop over the senders.
pub record Sweep (E : Type 0) : Type 0 where
  pub senders : HashMap ℕ (SenderQueue E)
  pub hashes_to_remove : List ℕ
  pub empty_senders : List ℕ

module _ {E : Type 0} where
  -- Removes the listed nonces; the hashes of what was removed go to the end of `hashes`.
  unfoldable pub remove_stale :
      List ℕ → BTreeMap (PoolEntry E) → List ℕ → BTreeMap (PoolEntry E) × List ℕ
  remove_stale [] side hashes = (side, hashes)
  remove_stale (n ∷ ns) side hashes = elim (BTreeMap.get side n) [
    | none ↦ remove_stale ns side hashes
    | some entry ↦ remove_stale ns (BTreeMap.remove side n) (hashes ++ entry.verified.tx_hash ∷ [])
  ]

  -- One sender: stale pending and queued transactions go, then queued ones are promoted.
  unfoldable pub commit_queue : ℕ → SenderQueue E → List ℕ → SenderQueue E × List ℕ
  commit_queue current_nonce queue hashes =
      let (pending, hashes') =
        remove_stale (BTreeMap.keys_below current_nonce queue.pending) queue.pending hashes in
      let (queued, hashes'') =
        remove_stale (BTreeMap.keys_below current_nonce queue.queued) queue.queued hashes' in
      (
        promote_queued_static (record { pending = pending; queued = queued }) current_nonce,
        hashes'',
      )

  unfoldable pub sweep_sender : (ℕ → ℕ) → ℕ → Sweep E → Sweep E
  sweep_sender nonce_fn sender s = elim (HashMap.get s.senders sender) [
    | none ↦ s
    | some queue ↦
        let (queue', hashes) = commit_queue (nonce_fn sender) queue s.hashes_to_remove in
        record {
          senders = HashMap.insert s.senders sender queue';
          hashes_to_remove = hashes;
          empty_senders =
              if BTreeMap.is_empty queue'.pending && BTreeMap.is_empty queue'.queued
              then s.empty_senders ++ sender ∷ []
              else s.empty_senders;
        }
  ]

  unfoldable pub sweep_senders : (ℕ → ℕ) → List ℕ → Sweep E → Sweep E
  sweep_senders nonce_fn [] s = s
  sweep_senders nonce_fn (a ∷ as') s = sweep_senders nonce_fn as' (sweep_sender nonce_fn a s)

-- `for k in list { map.remove(k) }`
unfoldable pub remove_all {ℓ} : {V : Type ℓ} → List ℕ → HashMap ℕ V → HashMap ℕ V
remove_all [] m = m
remove_all (k ∷ ks) m = remove_all ks (HashMap.remove m k)

module _ {E : Type 0} where
  unfoldable pub on_commit :
      (List (ℕ × SenderQueue E) → List (ℕ × SenderQueue E)) → EvmTxPool E → (ℕ → ℕ) → EvmTxPool E
  on_commit visit pool nonce_fn =
      let inner = pool.inner in
      let swept =
        sweep_senders nonce_fn (map (λ e. e.0) (visit inner.senders))
          (record { senders = inner.senders; hashes_to_remove = []; empty_senders = [] }) in
      record pool {
        inner = record inner {
          senders = remove_all swept.empty_senders swept.senders;
          by_hash = remove_all swept.hashes_to_remove inner.by_hash;
        };
      }
