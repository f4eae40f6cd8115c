-- ===== src/Execution/Receipts.antt =====
-- The receipts that the loop of `execute_block` of crates/execution/src/executor.rs makes: gas, order,
-- and the transactions they are about.
use nbnet.Prelude.{
  ℕ, suc, ◌+◌, ◌≤◌, ◌<◌, ◌≡◌, refl, ap, none, some, List, [], ◌∷◌, ◌++◌, length, get_elem?, min,
  ltb, ◌==◌, not, Bool-cases, Option-cases, Result-cases, inl, inr, arith, ok, All, All-append, sym,
  ◌∙◌, subst,
}
use mathlib.Core.Option.{some-injective}
use nbnet.Std.Words.{u64_max, saturating_add}
use nbnet.Types.Config.{EvmChainConfig}
use nbnet.Types.Receipt.{EvmReceipt}
use nbnet.Types.Tx.{TxEnvelope, VerifiedTx}
use nbnet.State.External.{Vsdb, Revm}
use nbnet.State.Evm
use nbnet.State.Evm.{EvmState, CacheDb}
use nbnet.Precompile.External.{Host}
use nbnet.Precompile.Provider
use nbnet.Precompile.Provider.{HotmintPrecompiles}
use nbnet.Precompile.Staking.{StakingState}
use nbnet.Execution.External.{
  BlockContext, BlockEnv, TxEnv, ExecutionResult, gas_used_of, Interpreter,
}
use nbnet.Execution.Block.{
  start, Progress, receipt, execute_tx, round, execute_txs, tx_env, block_env, decode_all,
  run_block,
}

-- Each receipt's cumulative gas is that of the one before plus its own; the last one's is `total`.
abbrev pub Running : ℕ → List EvmReceipt → ℕ → Type 0
Running acc [] total = acc ≡ total
Running acc (x ∷ xs) total =
    (x.cumulative_gas_used ≡ acc + x.gas_used) × Running x.cumulative_gas_used xs total

-- The indices rise, from `lo` on and below `hi`.
abbrev pub Rising : ℕ → List EvmReceipt → ℕ → Type 0
Rising lo [] hi = lo ≤ hi
Rising lo (x ∷ xs) hi = (lo ≤ x.tx_index) × Rising (suc x.tx_index) xs hi

Running-snoc :
    (acc : ℕ) (xs : List EvmReceipt) (total : ℕ) (x : EvmReceipt)
    → Running acc xs total
    → x.cumulative_gas_used ≡ total + x.gas_used
    → Running acc (xs ++ x ∷ []) x.cumulative_gas_used
Running-snoc acc [] total x k e = (omega arith, refl)
Running-snoc acc (y ∷ ys) total x k e = (k.0, Running-snoc y.cumulative_gas_used ys total x k.1 e)

Rising-raise :
    (lo : ℕ) (xs : List EvmReceipt) (hi top : ℕ) → hi ≤ top → Rising lo xs hi → Rising lo xs top
Rising-raise lo [] hi top l k = omega arith
Rising-raise lo (x ∷ xs) hi top l k = (k.0, Rising-raise (suc x.tx_index) xs hi top l k.1)

Rising-snoc :
    (lo : ℕ) (xs : List EvmReceipt) (x : EvmReceipt)
    → Rising lo xs x.tx_index
    → Rising lo (xs ++ x ∷ []) (suc x.tx_index)
Rising-snoc lo [] x k = (k, omega arith)
Rising-snoc lo (y ∷ ys) x k = (k.0, Rising-snoc (suc y.tx_index) ys x k.1)

module _ {E : Type 0} ⦃tx : TxEnvelope E⦄ where
  -- The receipt is that of the transaction at its index.
  pub record IsReceiptOf (ctx : BlockContext) (x : EvmReceipt) (vtx : VerifiedTx E) : Type 0 where
    pub same_hash : x.tx_hash ≡ vtx.tx_hash
    pub same_sender : x.from ≡ vtx.sender
    pub same_height : x.block_number ≡ ctx.height
    pub gas_within : x.gas_used ≤ tx.gas_limit vtx.envelope

  abbrev pub Reports : BlockContext → List (VerifiedTx E) → EvmReceipt → Type 0
  Reports ctx txs x =
      (vtx : VerifiedTx E) × (get_elem? txs x.tx_index ≡ some vtx) × IsReceiptOf ctx x vtx

-- revm documents that a transaction uses no more gas than its limit.
abbrev pub GasBounded : {v : Vsdb} {r : Revm} {h : Host} → Interpreter v r h → Type 0
GasBounded {v} {r} {h} vm =
    (chain_id : ℕ) (block : BlockEnv) (env : TxEnv) (db : CacheDb v r) (pre : HotmintPrecompiles h)
    (result : ExecutionResult)
    → (vm.transact_commit chain_id block env db pre).outcome ≡ ok result
    → gas_used_of result ≤ env.gas_limit

module _ {E : Type 0} ⦃tx : TxEnvelope E⦄ ⦃v : Vsdb⦄ ⦃r : Revm⦄ (config : EvmChainConfig)
    (ctx : BlockContext) (txs : List (VerifiedTx E)) where
  pub record IsProgress (tx_idx : ℕ) (p : Progress v r) : Type 0 where
    pub gas_within : p.cumulative_gas_used ≤ config.block_gas_limit
    pub running : Running 0 p.block_receipts p.cumulative_gas_used
    pub rising : Rising 0 p.block_receipts tx_idx
    pub reported : All (Reports ctx txs) p.block_receipts

module _ {E : Type 0} ⦃tx : TxEnvelope E⦄ ⦃v : Vsdb⦄ ⦃r : Revm⦄ ⦃h : Host⦄ ⦃vm : Interpreter v r h⦄
    (config : EvmChainConfig) (ctx : BlockContext) (txs : List (VerifiedTx E))
    (bounded : GasBounded vm) (small : config.block_gas_limit < u64_max) where
  raise :
      (tx_idx n : ℕ) (p : Progress v r)
      → tx_idx ≤ n
      → IsProgress config ctx txs tx_idx p
      → IsProgress config ctx txs n p
  raise tx_idx n p l k = record {
    gas_within = k.gas_within;
    running = k.running;
    rising = Rising-raise 0 p.block_receipts tx_idx n l k.rising;
    reported = k.reported;
  }

  execute_tx-IsProgress :
      (tx_idx : ℕ) (vtx : VerifiedTx E) (p : Progress v r)
      → get_elem? txs tx_idx ≡ some vtx
      → saturating_add u64_max p.cumulative_gas_used (tx.gas_limit vtx.envelope)
        ≤ config.block_gas_limit
      → IsProgress config ctx txs tx_idx p
      → IsProgress config ctx txs (suc tx_idx) (execute_tx config ctx tx_idx vtx p)
  unfolding execute_tx receipt saturating_add tx_env
  execute_tx-IsProgress tx_idx vtx p e fits k =
      let pre = Provider.new vm.cancun p.staking in
      let block = block_env config ctx in
      let ran = vm.transact_commit config.chain_id block (tx_env vtx) p.state.db pre in
      elim (Result-cases ran.outcome) [
        | inr (x, q) ↦
            rw (q, execute_tx)
              (record {
                gas_within = k.gas_within;
                running = k.running;
                rising = Rising-raise 0 p.block_receipts tx_idx (suc tx_idx) (omega arith) k.rising;
                reported = k.reported;
              })
        | inl (result, q) ↦
            let used = bounded config.chain_id block (tx_env vtx) p.state.db pre result q in
            let cum = min (p.cumulative_gas_used + gas_used_of result) u64_max in
            let x = receipt config ctx tx_idx vtx cum result in
            rw (q, execute_tx)
              (record {
                gas_within = omega arith;
                running =
                    Running-snoc 0 p.block_receipts p.cumulative_gas_used x k.running (omega arith);
                rising = Rising-snoc 0 p.block_receipts x k.rising;
                reported = All-append (Reports ctx txs) p.block_receipts (x ∷ []) k.reported (
                  (
                    vtx,
                    e,
                    record {
                      same_hash = refl;
                      same_sender = refl;
                      same_height = refl;
                      gas_within = used;
                    },
                  ),
                  tt,
                );
              })
      ]

  round-IsProgress :
      (tx_idx : ℕ) (vtx : VerifiedTx E) (p q : Progress v r)
      → get_elem? txs tx_idx ≡ some vtx
      → IsProgress config ctx txs tx_idx p
      → round config ctx tx_idx vtx p ≡ some q
      → IsProgress config ctx txs (suc tx_idx) q
  unfolding round
  round-IsProgress tx_idx vtx p q e k done =
      let gas = saturating_add u64_max p.cumulative_gas_used (tx.gas_limit vtx.envelope) in
      elim (Bool-cases (not (tx.nonce vtx.envelope == Evm.get_nonce p.state vtx.sender))) [
        | inl a ↦
            let same : p ≡ q = some-injective _ _ (sym (rw (a, round) refl) ∙ done) in
            subst (IsProgress config ctx txs (suc tx_idx)) same
              (raise tx_idx (suc tx_idx) p (omega arith) k)
        | inr a ↦ elim (Bool-cases (ltb config.block_gas_limit gas)) [
          | inl b ↦ let left : round config ctx tx_idx vtx p ≡ none = rw (a, b, round) refl in cc
          | inr b ↦
              let same : execute_tx config ctx tx_idx vtx p ≡ q =
                some-injective _ _ (sym (rw (a, b, round) refl) ∙ done) in
              subst (IsProgress config ctx txs (suc tx_idx)) same
                (execute_tx-IsProgress tx_idx vtx p e (ground arith) k)
        ]
      ]

  execute_txs-IsProgress :
      (tx_idx : ℕ) (rest : List (VerifiedTx E)) (p : Progress v r)
      → ((j : ℕ) → get_elem? txs (tx_idx + j) ≡ get_elem? rest j)
      → IsProgress config ctx txs tx_idx p
      → IsProgress config ctx txs (tx_idx + length rest) (execute_txs config ctx tx_idx rest p)
  unfolding execute_txs
  execute_txs-IsProgress tx_idx [] p at k = raise tx_idx (tx_idx + 0) p (omega arith) k
  execute_txs-IsProgress tx_idx (vtx ∷ rest) p at k =
      elim (Option-cases (round config ctx tx_idx vtx p)) [
        | inl e ↦ rw (e, execute_txs) (raise tx_idx (tx_idx + suc (length rest)) p (omega arith) k)
        | inr (q, e) ↦
            let here : get_elem? txs tx_idx ≡ some vtx = ap (get_elem? txs) (omega arith) ∙ at 0 in
            rw (e, execute_txs)
              (subst (λ n. IsProgress config ctx txs n (execute_txs config ctx (suc tx_idx) rest q))
                (omega arith)
                (execute_txs-IsProgress (suc tx_idx) rest q
                  (λ j. ap (get_elem? txs) (omega arith) ∙ at (suc j))
                  (round-IsProgress tx_idx vtx p q here k e)))
      ]

module _ {E : Type 0} ⦃tx : TxEnvelope E⦄ ⦃v : Vsdb⦄ ⦃r : Revm⦄ ⦃h : Host⦄
    ⦃vm : Interpreter v r h⦄ where
  -- The receipts of a block: the gas used stays within the block's limit, each cumulative gas is
  -- the sum so far, the indices rise and are those of decoded transactions, and each receipt is
  -- about the transaction at its index. This needs that the interpreter respects gas limits, and a
  -- block limit below the largest u64.
  pub run_block-IsProgress :
      (bounded : GasBounded vm) (state : EvmState v r) (staking : StakingState)
      (txs : List (List ℕ)) (ctx : BlockContext) (small : state.config.block_gas_limit < u64_max)
      → IsProgress state.config ctx
          (decode_all {E = E} txs)
          (length (decode_all {E = E} txs))
          (run_block E state staking txs ctx)
  unfolding run_block start
  run_block-IsProgress bounded state staking txs ctx small =
      let vtxs = decode_all {E = E} txs in
      let first = start state staking ctx in
      subst (λ n. IsProgress state.config ctx vtxs n (execute_txs state.config ctx 0 vtxs first))
        (omega arith)
        (execute_txs-IsProgress state.config ctx vtxs bounded small 0 vtxs first
          (λ j. ap (get_elem? vtxs) (omega arith))
          (record {
            gas_within = omega arith;
            running = refl;
            rising = omega arith;
            reported = tt;
          }))
