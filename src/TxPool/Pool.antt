-- ===== src/TxPool/Pool.antt =====
-- crates/txpool/src/lib.rs: the state of the pool, its counters, and the promotion of queued
-- transactions. An operation holds the mutex from start to end, so it is one function of the state.
use nbnet.Prelude.{
  ℕ, zero, suc, ◌+◌, Bool, Option, none, some, [], ◌∷◌, length, unwrap_or, map_option, nat_eq,
}
use nbnet.Std.Words.{wrapping_add}
use nbnet.Std.HashMap
use nbnet.Std.HashMap.{HashMap}
use nbnet.Std.BTreeMap
use nbnet.Std.BTreeMap.{BTreeMap}
use nbnet.Types.Tx.{VerifiedTx}

pub record EvmTxPoolConfig : Type 0 where
  pub max_pending_per_sender : ℕ
  pub max_queued_per_sender : ℕ
  pub replacement_bump_pct : ℕ
  pub base_fee : ℕ

-- `EvmTxPoolConfig::default`
abbrev pub default_pool_config : EvmTxPoolConfig
default_pool_config = record {
  max_pending_per_sender = 64;
  max_queued_per_sender = 64;
  replacement_bump_pct = 10;
  base_fee = 1_000_000_000;
}

pub record PoolEntry (E : Type 0) : Type 0 where
  pub verified : VerifiedTx E
  pub effective_tip : ℕ

pub record SenderQueue (E : Type 0) : Type 0 where
  pub pending : BTreeMap (PoolEntry E)
  pub queued : BTreeMap (PoolEntry E)

-- `nonce_fn` is what the lookup answers at the time of the call: the closure reads live state.
pub record PoolInner (E : Type 0) : Type 0 where
  pub senders : HashMap ℕ (SenderQueue E)
  pub by_hash : HashMap ℕ ℕ
  pub nonce_fn : Option (ℕ → ℕ)

pub record EvmTxPool (E : Type 0) : Type 0 where
  pub config : EvmTxPoolConfig
  pub inner : PoolInner E

module _ {E : Type 0} where
  -- `SenderQueue::default`
  abbrev pub empty_queue : SenderQueue E
  empty_queue = record { pending = []; queued = [] }

  -- `EvmTxPool::new`
  unfoldable pub new : EvmTxPoolConfig → EvmTxPool E
  new config = record {
    config = config;
    inner = record { senders = []; by_hash = []; nonce_fn = none };
  }

  unfoldable pub set_nonce_fn : EvmTxPool E → (ℕ → ℕ) → EvmTxPool E
  set_nonce_fn pool f = record pool { inner = record (pool.inner) { nonce_fn = some f } }

  -- The sums over `senders.values()`.
  abbrev pub count_pending : HashMap ℕ (SenderQueue E) → ℕ
  count_pending [] = 0
  count_pending ((_, q) ∷ m) = length q.pending + count_pending m

  abbrev pub count_queued : HashMap ℕ (SenderQueue E) → ℕ
  count_queued [] = 0
  count_queued ((_, q) ∷ m) = length q.queued + count_queued m

  unfoldable pub pending_count : EvmTxPool E → ℕ
  pending_count pool = count_pending pool.inner.senders

  unfoldable pub queued_count : EvmTxPool E → ℕ
  queued_count pool = count_queued pool.inner.senders

  unfoldable pub contains : EvmTxPool E → ℕ → Bool
  contains pool hash = HashMap.contains_key pool.inner.by_hash hash

  -- The `while let` loop; every round removes an entry of `queued`, so its length is enough fuel.
  unfoldable pub promote_loop : ℕ → ℕ → SenderQueue E → SenderQueue E
  promote_loop zero next queue = queue
  promote_loop (suc fuel) next queue = elim (BTreeMap.get queue.queued next) [
    | none ↦ queue
    | some entry ↦ promote_loop fuel (wrapping_add next 1) (record {
      pending = BTreeMap.insert queue.pending next entry;
      queued = BTreeMap.remove queue.queued next;
    })
  ]

  -- Where promotion starts.
  unfoldable pub next_nonce : SenderQueue E → ℕ → ℕ
  next_nonce queue current_nonce =
      unwrap_or (map_option (λ n. wrapping_add n 1) (BTreeMap.last_key queue.pending)) current_nonce

  unfoldable pub promote_queued_static : SenderQueue E → ℕ → SenderQueue E
  promote_queued_static queue current_nonce =
      promote_loop (length queue.queued) (next_nonce queue current_nonce) queue

  -- `update_base_fee` only logs.
  unfoldable pub update_base_fee : EvmTxPool E → ℕ → EvmTxPool E
  update_base_fee pool new_base_fee = pool
