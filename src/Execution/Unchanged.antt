-- ===== src/Execution/Unchanged.antt =====
-- What the operations of crates/execution/src/executor.rs leave as it is.
use nbnet.Prelude.{
  ℕ, ◌≡◌, refl, ◌∙◌, Option, List, [], ◌∷◌, ltb, not, unwrap_or, ◌==◌, suc, Bool-cases,
  Option-cases, Result-cases, inl, inr,
}
use nbnet.Std.Words.{u64_max, saturating_add}
use nbnet.Types.Config.{EvmChainConfig}
use nbnet.Types.Tx.{TxEnvelope, VerifiedTx}
use nbnet.TxPool.Pool
use nbnet.TxPool.Pool
use nbnet.TxPool.Index.{IsPool}
use nbnet.State.External.{Vsdb, Revm}
use nbnet.State.Evm
use nbnet.State.Evm.{EvmState}
use nbnet.Precompile.External.{Host}
use nbnet.Precompile.Provider
use nbnet.Precompile.Staking.{StakingState}
use nbnet.Execution.External.{BlockContext, Interpreter, success, revert, halt}
use nbnet.Execution.Block.{
  kind_of, run_block, tx_env, block_env, Progress, round, execute_tx, execute_txs, start,
  with_parent_hash, decode_all,
}
use nbnet.Execution.Executor.{EvmExecutor, live_pool, eth_call, execute_block}

module _ ⦃v : Vsdb⦄ ⦃r : Revm⦄ where
  start-config :
      (state : EvmState v r) (staking : StakingState) (ctx : BlockContext)
      → (start state staking ctx).state.config ≡ state.config
  unfolding start with_parent_hash Evm.record_block_hash
  start-config state staking ctx = elim (Bool-cases (ltb 0 ctx.height)) [
    | inl p ↦ rw p refl
    | inr p ↦ rw p refl
  ]

module _ {E : Type 0} ⦃tx : TxEnvelope E⦄ ⦃v : Vsdb⦄ ⦃r : Revm⦄ ⦃h : Host⦄
    ⦃vm : Interpreter v r h⦄ where
  execute_tx-config :
      (config : EvmChainConfig) (ctx : BlockContext) (tx_idx : ℕ) (vtx : VerifiedTx E)
      (p : Progress v r)
      → (execute_tx config ctx tx_idx vtx p).state.config ≡ p.state.config
  unfolding execute_tx
  execute_tx-config config ctx tx_idx vtx p =
      let pre = Provider.new vm.cancun p.staking in
      let ran =
        vm.transact_commit config.chain_id (block_env config ctx) (tx_env vtx) p.state.db pre in
      elim (Result-cases ran.outcome) [
        | inl (result, q) ↦ rw (q, execute_tx) refl
        | inr (e, q) ↦ rw (q, execute_tx) refl
      ]

  execute_txs-config :
      (config : EvmChainConfig) (ctx : BlockContext) (tx_idx : ℕ) (txs : List (VerifiedTx E))
      (p : Progress v r)
      → (execute_txs config ctx tx_idx txs p).state.config ≡ p.state.config
  unfolding execute_txs round
  execute_txs-config config ctx tx_idx [] p = refl
  execute_txs-config config ctx tx_idx (vtx ∷ rest) p =
      let gas = saturating_add u64_max p.cumulative_gas_used (tx.gas_limit vtx.envelope) in
      let ran = execute_tx config ctx tx_idx vtx p in
      elim (Bool-cases (not (tx.nonce vtx.envelope == Evm.get_nonce p.state vtx.sender))) [
        | inl a ↦ rw (a, execute_txs, round) (execute_txs-config config ctx (suc tx_idx) rest p)
        | inr a ↦ elim (Bool-cases (ltb config.block_gas_limit gas)) [
          | inl b ↦ rw (a, b, execute_txs, round) refl
          | inr b ↦
              rw (a, b, execute_txs, round)
                (execute_txs-config config ctx (suc tx_idx) rest ran
                  ∙ execute_tx-config config ctx tx_idx vtx p)
        ]
      ]

  pub execute_block-config :
      (x : EvmExecutor E v r) (txs : List (List ℕ)) (ctx : BlockContext)
      → ((execute_block x txs ctx).1).state.config ≡ x.state.config
  unfolding execute_block run_block Evm.state_root Evm.flush_cache_to_vsdb
  execute_block-config x txs ctx =
      execute_txs-config x.state.config ctx 0 (decode_all txs) _
      ∙ start-config x.state x.staking ctx

  pub eth_call-rest :
      (x : EvmExecutor E v r) (from : ℕ) (to : Option ℕ) (input : List ℕ) (value : ℕ)
      (gas : Option ℕ)
      → (((eth_call x from to input value gas).1).state.config ≡ x.state.config)
        × (((eth_call x from to input value gas).1).txpool ≡ x.txpool)
        × (((eth_call x from to input value gas).1).receipts ≡ x.receipts)
  unfolding eth_call
  eth_call-rest x from to input value gas =
      let c = x.state.config in
      let env = record (vm.default_tx) {
        caller = from;
        gas_limit = unwrap_or gas c.block_gas_limit;
        gas_price = c.base_fee_per_gas;
        kind = kind_of to;
        value = value;
        input = input;
      } in
      let block = record (vm.default_block) {
        number = x.block_height;
        gas_limit = c.block_gas_limit;
        basefee = c.base_fee_per_gas;
      } in
      let ran =
        vm.transact_one c.chain_id block env x.state.db (Provider.new vm.cancun x.staking) in
      elim (Result-cases ran.outcome) [
        | inr (e, q) ↦ rw (q, eth_call) (refl, refl, refl)
        | inl (success g logs output, q) ↦ rw (q, eth_call) (refl, refl, refl)
        | inl (revert g logs output, q) ↦ rw (q, eth_call) (refl, refl, refl)
        | inl (halt g reason, q) ↦ rw (q, eth_call) (refl, refl, refl)
      ]

  pub live_pool-IsPool :
      (x : EvmExecutor E v r) → IsPool x.txpool.inner → IsPool (live_pool x).inner
  unfolding live_pool Pool.set_nonce_fn
  live_pool-IsPool x i = elim (Option-cases x.txpool.inner.nonce_fn) [
    | inl e ↦ rw (e, live_pool) i
    | inr (f, e) ↦ rw (e, live_pool) (record { shape = i.shape; indexed = i.indexed })
  ]
