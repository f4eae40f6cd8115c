-- ===== src/Execution/Spent.antt =====
-- A block of crates/execution/src/executor.rs and the pool: what the executed transactions leave of the
-- nonces, and of the pool once the block is committed.
use nbnet.Prelude.{
  ℕ, ◌≤◌, ◌<◌, ◌≡◌, refl, ap, ◌∙◌, none, some, List, [], ◌∷◌, get_elem?, true, ltb, Option-cases,
  Result-cases, inl, inr, arith, ok, All, All-append, nat_eq,
}
use nbnet.Std.Words.{u64_max, saturating_add}
use nbnet.Std.HashMap
use nbnet.Types.Config.{EvmChainConfig}
use nbnet.Types.Receipt.{EvmReceipt}
use nbnet.Types.Tx.{TxEnvelope, VerifiedTx}
use nbnet.State.External.{Vsdb, Revm}
use nbnet.State.Evm
use nbnet.State.Evm.{EvmState, CacheDb}
use nbnet.State.Db
use nbnet.Precompile.External.{Host}
use nbnet.Precompile.Provider
use nbnet.Precompile.Provider.{HotmintPrecompiles}
use nbnet.Precompile.Staking.{StakingState}
use nbnet.Execution.Loop.{execute_txs-keeps}
use nbnet.Execution.External.{
  BlockContext, BlockEnv, TxEnv, ExecutionResult, gas_used_of, Interpreter,
}
use nbnet.Execution.Executor.{EvmExecutor, execute_block, on_commit}
use nbnet.State.Accounts.{address_mod}
use nbnet.State.Persist.{CacheFits, Distinct, flush-persists}
use nbnet.TxPool.Pool.{SenderQueue, EvmTxPool}
use nbnet.TxPool.Index.{IsPool, queue_of}
use nbnet.TxPool.Contents.{held}
use nbnet.TxPool.Contents.Removal.{Covers, on_commit-held}
use nbnet.Execution.Block.{
  start, Progress, receipt, execute_tx, tx_env, block_env, decode_all, run_block,
}

-- The nonce of an account in the cached database.
abbrev pub nonce_in : {v : Vsdb} {r : Revm} → CacheDb v r → ℕ → ℕ
nonce_in {v} db a = elim (HashMap.get db.accounts a) [
  | some acc ↦ acc.info.nonce
  | none ↦ Db.get_nonce ⦃v = v⦄ db.db a
]

-- What revm documents of nonces: no run lowers one, and a transaction that has a result has used its own.
pub record NonceRules {v : Vsdb} {r : Revm} {h : Host} (vm : Interpreter v r h) : Type 0 where
  pub rises :
      (chain_id : ℕ) (block : BlockEnv) (env : TxEnv) (db : CacheDb v r)
      (pre : HotmintPrecompiles h) (a : ℕ)
      → nonce_in db a ≤ nonce_in (vm.transact_commit chain_id block env db pre).db a
  pub spends :
      (chain_id : ℕ) (block : BlockEnv) (env : TxEnv) (db : CacheDb v r)
      (pre : HotmintPrecompiles h) (result : ExecutionResult)
      → (vm.transact_commit chain_id block env db pre).outcome ≡ ok result
      → env.nonce < nonce_in (vm.transact_commit chain_id block env db pre).db env.caller

module _ {E : Type 0} ⦃tx : TxEnvelope E⦄ ⦃v : Vsdb⦄ ⦃r : Revm⦄ (txs : List (VerifiedTx E)) where
  -- The receipt is that of a transaction whose nonce lies below the sender's nonce in the state.
  abbrev pub Spent : EvmState v r → EvmReceipt → Type 0
  Spent state x =
      (t : VerifiedTx E) × (get_elem? txs x.tx_index ≡ some t)
      × (x.tx_hash ≡ t.tx_hash)
      × (tx.nonce t.envelope < Evm.get_nonce state t.sender)

  Spent-rises :
      (s s' : EvmState v r) (xs : List EvmReceipt)
      → ((a : ℕ) → Evm.get_nonce s a ≤ Evm.get_nonce s' a)
      → All (Spent s) xs
      → All (Spent s') xs
  Spent-rises s s' [] up k = tt
  Spent-rises s s' (x ∷ xs) up ((t, at, same, low), k) =
      ((t, at, same, omega (arith, up t.sender)), Spent-rises s s' xs up k)

module _ {E : Type 0} ⦃tx : TxEnvelope E⦄ ⦃v : Vsdb⦄ ⦃r : Revm⦄ ⦃h : Host⦄ ⦃vm : Interpreter v r h⦄
    (config : EvmChainConfig) (ctx : BlockContext) (txs : List (VerifiedTx E))
    (rules : NonceRules vm) where
  execute_tx-Spent :
      (tx_idx : ℕ) (vtx : VerifiedTx E) (p : Progress v r)
      → get_elem? txs tx_idx ≡ some vtx
      → All (Spent txs p.state) p.block_receipts
      → All
          (Spent txs (execute_tx config ctx tx_idx vtx p).state)
          (execute_tx config ctx tx_idx vtx p).block_receipts
  unfolding execute_tx receipt tx_env Evm.get_nonce Evm.cached
  execute_tx-Spent tx_idx vtx p e k =
      let pre = Provider.new vm.cancun p.staking in
      let block = block_env config ctx in
      let ran = vm.transact_commit config.chain_id block (tx_env vtx) p.state.db pre in
      let after : EvmState v r = record (p.state) { db = ran.db } in
      let kept =
        Spent-rises txs p.state after p.block_receipts
          (rules.rises config.chain_id block (tx_env vtx) p.state.db pre) k in
      elim (Result-cases ran.outcome) [
        | inr (x, q) ↦ rw (q, execute_tx) kept
        | inl (result, q) ↦
            let cum = saturating_add u64_max p.cumulative_gas_used (gas_used_of result) in
            rw (q, execute_tx)
              (All-append (Spent txs after) p.block_receipts
                (receipt config ctx tx_idx vtx cum result ∷ []) kept
                (
                  (
                    vtx,
                    e,
                    refl,
                    rules.spends config.chain_id block (tx_env vtx) p.state.db pre result q,
                  ),
                  tt,
                ))
      ]

module _ (E : Type 0) ⦃tx : TxEnvelope E⦄ ⦃v : Vsdb⦄ ⦃r : Revm⦄ ⦃h : Host⦄
    ⦃vm : Interpreter v r h⦄ where
  pub run_block-Spent :
      (rules : NonceRules vm) (state : EvmState v r) (staking : StakingState) (txs : List (List ℕ))
      (ctx : BlockContext)
      → All
          (Spent (decode_all {E = E} txs) (run_block E state staking txs ctx).state)
          (run_block E state staking txs ctx).block_receipts
  unfolding run_block start
  run_block-Spent rules state staking txs ctx =
      let vtxs = decode_all {E = E} txs in
      execute_txs-keeps state.config ctx vtxs (λ p. All (Spent vtxs p.state) p.block_receipts)
        (λ i vtx p e k. execute_tx-Spent state.config ctx vtxs rules i vtx p e k) 0 vtxs
        (start state staking ctx) (λ j. ap (get_elem? vtxs) (omega arith)) tt

  -- The nonce that an address reads after the block is that at the end of the loop.
  get_nonce-execute_block :
      (x : EvmExecutor E v r) (txs : List (List ℕ)) (ctx : BlockContext) (a : ℕ)
      → a < address_mod
      → CacheFits (run_block E x.state x.staking txs ctx).state.db.accounts
      → Distinct (run_block E x.state x.staking txs ctx).state.db.accounts
      → Evm.get_nonce ((execute_block x txs ctx).1).state a
        ≡ Evm.get_nonce (run_block E x.state x.staking txs ctx).state a
  unfolding execute_block Evm.state_root Evm.flush_cache_to_vsdb Evm.get_nonce Evm.cached
  get_nonce-execute_block x txs ctx a ha f d =
      let final = (run_block E x.state x.staking txs ctx).state in
      let same = (flush-persists final a 0 ha (omega arith) f d).same_nonce in
      elim (Option-cases (HashMap.get final.db.accounts a)) [
        | inl e ↦ rw (e, Evm.get_nonce, Evm.cached) (rw (e, Evm.get_nonce, Evm.cached) at same)
        | inr (acc, e) ↦ rw (e, Evm.get_nonce, Evm.cached) refl
      ]

  -- Each receipt is that of a transaction under whose sender and nonce the pool holds nothing.
  abbrev pub Gone : List (VerifiedTx E) → EvmTxPool E → EvmReceipt → Type 0
  Gone txs pool x =
      (t : VerifiedTx E) × (get_elem? txs x.tx_index ≡ some t)
      × (x.tx_hash ≡ t.tx_hash)
      × (held (queue_of pool.inner.senders t.sender) (tx.nonce t.envelope) ≡ [])

  -- Once a block is executed and committed, the pool holds nothing under the sender and the nonce
  -- of any transaction that has a receipt in it. This needs that the interpreter lowers no nonce
  -- and uses that of a transaction with a result, that the pool is well formed and its traversal
  -- passes every sender, that nonces are u64, that senders and cached accounts are in range, and
  -- that no account is cached twice.
  pub on_commit-Gone :
      (visit : List (ℕ × SenderQueue E) → List (ℕ × SenderQueue E)) (x : EvmExecutor E v r)
      (txs : List (List ℕ)) (ctx : BlockContext)
      → NonceRules vm
      → IsPool x.txpool.inner
      → Covers visit x.txpool.inner.senders
      → ((a : ℕ) → Evm.get_nonce ((execute_block x txs ctx).1).state a ≤ u64_max)
      → ((i : ℕ) (t : VerifiedTx E)
          → get_elem? (decode_all txs) i ≡ some t
          → t.sender < address_mod)
      → CacheFits (run_block E x.state x.staking txs ctx).state.db.accounts
      → Distinct (run_block E x.state x.staking txs ctx).state.db.accounts
      → All
          (Gone (decode_all txs) (on_commit visit (execute_block x txs ctx).1 ctx).txpool)
          (run_block E x.state x.staking txs ctx).block_receipts
  unfolding on_commit execute_block
  on_commit-Gone visit x txs ctx rules i covers low ranges f d =
      each (run_block E x.state x.staking txs ctx).block_receipts
        (run_block-Spent rules x.state x.staking txs ctx)
    where
      each :
          (xs : List EvmReceipt)
          → All (Spent (decode_all {E = E} txs) (run_block E x.state x.staking txs ctx).state) xs
          → All (Gone (decode_all txs) (on_commit visit (execute_block x txs ctx).1 ctx).txpool) xs
      each [] k = tt
      each (y ∷ ys) ((t, at, same, less), k) =
          let a = t.sender in
          let n = tx.nonce t.envelope in
          let after = (execute_block x txs ctx).1 in
          let nonce = get_nonce-execute_block x txs ctx a (ranges _ t at) f d in
          let stale : ltb n (Evm.get_nonce after.state a) ≡ true = ground (arith, nonce, less) in
          (
            (
              t,
              at,
              same,
              on_commit-held visit x.txpool (λ b. Evm.get_nonce after.state b) a n i covers low
                  ∙ rw stale refl,
            ),
            each ys k,
          )
