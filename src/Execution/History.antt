-- ===== src/Execution/History.antt =====
-- Histories of the executor of crates/execution/src/executor.rs: the invariants of any sequence of
-- operations from the genesis, and the database after a block.
use nbnet.Prelude.{
  ℕ, ◌≤◌, ◌<◌, ◌≡◌, refl, sym, ap, ◌∙◌, subst, Option, List, [], ◌∷◌, All, All-append, ok, arith,
}
use nbnet.Std.Words.{u64_max}
use nbnet.Types.Config.{EvmChainConfig}
use nbnet.Types.Genesis.{EvmGenesis}
use nbnet.Types.Receipt.{EvmReceipt}
use nbnet.Types.Tx.{TxEnvelope, VerifiedTx, decode_and_recover}
use nbnet.TxPool.Pool
use nbnet.TxPool.Pool.{SenderQueue}
use nbnet.TxPool.Index.{IsPool}
use nbnet.TxPool.Reach.{new-IsPool}
use nbnet.TxPool.SubmitKeeps.{submit_tx-IsPool}
use nbnet.TxPool.PayloadKeeps.{collect_payload-IsPool}
use nbnet.TxPool.CommitKeeps.{on_commit-IsPool}
use nbnet.State.External.{Vsdb, Revm}
use nbnet.State.Evm
use nbnet.State.Evm
use nbnet.State.Accounts.{address_mod, word_mod}
use nbnet.State.Persist.{CacheFits, Distinct, SameReadings, flush-persists}
use nbnet.Precompile.External.{Host}
use nbnet.Execution.External.{BlockContext, Interpreter}
use nbnet.Execution.Block.{run_block}
use nbnet.Execution.Receipts.{Running, GasBounded, run_block-IsProgress}
use nbnet.Execution.Executor.{
  EvmExecutor, from_genesis, submit_raw_tx, setup_nonce_fn, live_pool, create_payload, on_commit,
  eth_call, execute_block,
}
use nbnet.Execution.Unchanged.{execute_block-config, eth_call-rest, live_pool-IsPool}

module _ {E : Type 0} ⦃tx : TxEnvelope E⦄ ⦃v : Vsdb⦄ ⦃r : Revm⦄ ⦃h : Host⦄
    ⦃vm : Interpreter v r h⦄ where
  -- After a block the database alone answers as the state at the end of the loop did, for every
  -- address and slot; the cached numbers are in range and no account is cached twice.
  pub execute_block-persists :
      (x : EvmExecutor E v r) (txs : List (List ℕ)) (ctx : BlockContext) (a t : ℕ)
      → a < address_mod
      → t < word_mod
      → CacheFits (run_block E x.state x.staking txs ctx).state.db.accounts
      → Distinct (run_block E x.state x.staking txs ctx).state.db.accounts
      → SameReadings
          (run_block E x.state x.staking txs ctx).state
          ((execute_block x txs ctx).1).state.db.db
          a
          t
  unfolding execute_block Evm.state_root
  execute_block-persists x txs ctx a t ha ht f d =
      flush-persists (run_block E x.state x.staking txs ctx).state a t ha ht f d

-- The nonce of the transaction that the bytes hold stays below the largest `u64`.
abbrev pub LowNonce : (E : Type 0) → ⦃tx : TxEnvelope E⦄ → List ℕ → Type 0
LowNonce E ⦃tx⦄ raw =
    (t : VerifiedTx E) → decode_and_recover raw ≡ ok t → tx.nonce t.envelope < u64_max

-- The gas of a block's receipts adds up to a total within the limit.
abbrev pub GasFits : ℕ → List EvmReceipt → Type 0
GasFits limit block = (total : ℕ) × (total ≤ limit) × Running 0 block total

module _ {E : Type 0} ⦃tx : TxEnvelope E⦄ ⦃v : Vsdb⦄ ⦃r : Revm⦄ ⦃h : Host⦄
    ⦃vm : Interpreter v r h⦄ where
  -- One operation. Nonces of transactions stay below the largest `u64`, and account nonces are `u64`.
  pub data Step : EvmExecutor E v r → EvmExecutor E v r → Type 0 where
    submits :
        (x : EvmExecutor E v r) (raw : List ℕ) → LowNonce E raw → Step x (submit_raw_tx x raw).1
    wires : (x : EvmExecutor E v r) → Step x (setup_nonce_fn x)
    calls :
        (x : EvmExecutor E v r) (from : ℕ) (to : Option ℕ) (input : List ℕ) (value : ℕ)
        (gas : Option ℕ)
        → Step x (eth_call x from to input value gas).1
    executes :
        (x : EvmExecutor E v r) (txs : List (List ℕ)) (ctx : BlockContext)
        → Step x (execute_block x txs ctx).1
    creates :
        (x : EvmExecutor E v r) (visit : List (ℕ × SenderQueue E) → List (ℕ × SenderQueue E))
        → Step x (create_payload visit x).1
    commits :
        (x : EvmExecutor E v r) (visit : List (ℕ × SenderQueue E) → List (ℕ × SenderQueue E))
        (ctx : BlockContext)
        → ((a : ℕ) → Evm.get_nonce x.state a ≤ u64_max)
        → Step x (on_commit visit x ctx)

  pub data Reach (x : EvmExecutor E v r) : EvmExecutor E v r → Type 0 where
    here : Reach x x
    next : {y z : EvmExecutor E v r} → Reach x y → Step y z → Reach x z

  -- The configuration is that of the start, the pool is well formed with an exact hash index, and
  -- every block stored keeps the gas limit.
  pub record IsExecutor (config : EvmChainConfig) (x : EvmExecutor E v r) : Type 0 where
    pub same_config : x.state.config ≡ config
    pub pool : IsPool x.txpool.inner
    pub blocks : All (GasFits config.block_gas_limit) x.receipts

  module _ (bounded : GasBounded vm) (config : EvmChainConfig)
      (small : config.block_gas_limit < u64_max) where
    Step-IsExecutor :
        {x y : EvmExecutor E v r} → Step x y → IsExecutor config x → IsExecutor config y
    unfolding submit_raw_tx setup_nonce_fn create_payload on_commit execute_block Pool.set_nonce_fn
    Step-IsExecutor (submits x raw low) i = record {
      same_config = i.same_config;
      pool = submit_tx-IsPool (live_pool x) raw (live_pool-IsPool x i.pool) low;
      blocks = i.blocks;
    }
    Step-IsExecutor (wires x) i = record {
      same_config = i.same_config;
      pool = i.pool;
      blocks = i.blocks;
    }
    Step-IsExecutor (calls x from to input value gas) i =
        let rest = eth_call-rest x from to input value gas in
        record {
          same_config = rest.0 ∙ i.same_config;
          pool = subst (λ p. IsPool p.inner) (sym rest.1) i.pool;
          blocks = subst (All (GasFits config.block_gas_limit)) (sym rest.2) i.blocks;
        }
    Step-IsExecutor (executes x txs ctx) i =
        let limits = ap (λ c. c.block_gas_limit) i.same_config in
        let done = run_block-IsProgress bounded x.state x.staking txs ctx (omega (arith, limits)) in
        record {
          same_config = execute_block-config x txs ctx ∙ i.same_config;
          pool = i.pool;
          blocks =
              All-append (GasFits config.block_gas_limit) x.receipts
                ((run_block E x.state x.staking txs ctx).block_receipts ∷ []) i.blocks
                ((_, omega (arith, limits, done.gas_within), done.running), tt);
        }
    Step-IsExecutor (creates x visit) i = record {
      same_config = i.same_config;
      pool = collect_payload-IsPool visit x.txpool _ _ i.pool;
      blocks = i.blocks;
    }
    Step-IsExecutor (commits x visit ctx low) i = record {
      same_config = i.same_config;
      pool = on_commit-IsPool visit x.txpool _ low i.pool;
      blocks = i.blocks;
    }

    genesis-IsExecutor :
        (genesis : EvmGenesis)
        → (from_genesis {E = E} genesis).state.config ≡ config
        → IsExecutor config (from_genesis genesis)
    unfolding from_genesis
    genesis-IsExecutor genesis e = record { same_config = e; pool = new-IsPool _; blocks = tt }

    pub Reach-IsExecutor :
        {x y : EvmExecutor E v r} → Reach x y → IsExecutor config x → IsExecutor config y
    Reach-IsExecutor here i = i
    Reach-IsExecutor (next path s) i = Step-IsExecutor s (Reach-IsExecutor path i)

  -- After any history of submissions, rewirings of the nonce lookup, calls, executed blocks,
  -- payloads and commits from the genesis, in which every transaction submitted to the pool has a
  -- nonce below the largest u64 and every commit finds account nonces that are u64, the
  -- configuration is the genesis' one, the pool is well formed with an exact hash index, and the
  -- gas of each stored block adds up within the limit: where the interpreter respects gas limits
  -- and the block limit is below the largest u64.
  pub history-IsExecutor :
      (bounded : GasBounded vm) (genesis : EvmGenesis) {y : EvmExecutor E v r}
      → genesis.gas_limit < u64_max
      → Reach (from_genesis genesis) y
      → IsExecutor (from_genesis {E = E} ⦃v = v⦄ ⦃r = r⦄ genesis).state.config y
  unfolding from_genesis Evm.from_genesis
  history-IsExecutor bounded genesis small path =
      Reach-IsExecutor bounded (from_genesis {E = E} ⦃v = v⦄ ⦃r = r⦄ genesis).state.config small
        path (genesis-IsExecutor bounded _ small genesis refl)
