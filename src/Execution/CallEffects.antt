-- ===== src/Execution/CallEffects.antt =====
-- What `eth_call` of crates/execution/src/executor.rs leaves behind: the staking ledger is shared with
-- the precompiles of the call.
use nbnet.Prelude.{
  ℕ, ◌+◌, ◌≤◌, ◌≡◌, ◌≢◌, ◌⊎◌, refl, sym, ap, subst, Bool-cases, ◌∙◌, true, false, Option, none,
  some, List, length, take, ok, Result-cases, inl, inr, ltb, if◌then◌else◌, unwrap_or, arith,
  list_beq, list_beq_iff, min, pair_beq, pair_eq,
}
use nbnet.Std.Words.{u256_max}
use nbnet.State.External.{Vsdb, Revm}
use nbnet.State.Evm.{CacheDb}
use nbnet.Precompile.External.{Host, CallInputs, bytes}
use nbnet.Precompile.Staking.{StakingState, get_stake}
use nbnet.Precompile.Provider
use nbnet.Precompile.Provider.{
  HotmintPrecompiles, slice, staking_addr, sel_delegate, precompile_write_gas, charge,
  extract_input, run_staking,
}
use nbnet.Precompile.Outcomes.{run_delegate_outcome}
use nbnet.Precompile.Own.{run_staking-own}
use nbnet.Execution.External.{BlockEnv, TxEnv, TxKind, Ran, Interpreter, success, revert, halt}
use nbnet.Execution.Executor.{EvmExecutor, eth_call}
use nbnet.Execution.Block.{kind_of}

-- A call of the staking precompile.
abbrev pub staking_call : (caller : ℕ) → (input : List ℕ) → (gas_limit : ℕ) → CallInputs
staking_call caller input gas_limit = record {
  input = bytes input;
  gas_limit = gas_limit;
  bytecode_address = staking_addr;
  caller = caller;
}

module _ ⦃h : Host⦄ where
  -- What a call of `delegate` in a journal, with some gas, makes of the stake of `d` with `w`: where
  -- the gas is paid and the transfer of the tokens is done the stake of the caller with the validator
  -- grows by the amount, up to the largest number; otherwise every stake stays.
  abbrev pub Delegated :
      h.Context
      → (limit caller : ℕ) → (input : List ℕ) → (before after : StakingState) → (d w : ℕ) → Type 0
  Delegated c limit caller input before after d w =
      (((h.record_cost (h.gas_new limit) precompile_write_gas).0 ≡ true)
        × ((h.transfer c caller staking_addr (slice input 36 68)).0 ≡ ok none)
        × (get_stake after d w ≡ (
            if pair_beq (caller, slice input 16 36) (d, w)
            then min (get_stake before caller (slice input 16 36) + slice input 36 68) u256_max
            else get_stake before d w)))
      ⊎ ((((h.record_cost (h.gas_new limit) precompile_write_gas).0 ≡ false)
            ⊎ ((h.transfer c caller staking_addr (slice input 36 68)).0 ≢ ok none))
          × (get_stake after d w ≡ get_stake before d w))

  -- Without a call the ledger stays.
  abbrev pub Effect :
      Option (h.Context × ℕ)
      → (caller : ℕ) → (input : List ℕ) → (before after : StakingState) → (d w : ℕ) → Type 0
  Effect none caller input before after d w = after ≡ before
  Effect (some (c, limit)) caller input before after d w =
      Delegated c limit caller input before after d w

  -- The dispatch on address and selector, with an input that is long enough.
  run-Delegated :
      (p : HotmintPrecompiles h) (c : h.Context) (caller limit : ℕ) (input : List ℕ) (d w : ℕ)
      → take 4 input ≡ sel_delegate
      → 68 ≤ length input
      → Delegated c limit caller input p.staking
          ((Provider.run p c (staking_call caller input limit)).1.0).staking
          d
          w
  unfolding Provider.run run_staking charge extract_input
  run-Delegated p c caller limit input d w sel len =
      let some_input : ltb (length input) 4 ≡ false = ground arith in
      let whole : ltb (length input) 68 ≡ false = ground arith in
      let same : list_beq sel_delegate sel_delegate ≡ true =
        (list_beq_iff sel_delegate sel_delegate).1 refl in
      let gas = (h.record_cost (h.gas_new limit) precompile_write_gas).1 in
      elim (Bool-cases ((h.record_cost (h.gas_new limit) precompile_write_gas).0)) [
        | inr unpaid ↦ inr (inl unpaid, rw (some_input, sel, same, whole, unpaid) refl)
        | inl paid ↦ elim (run_delegate_outcome c caller input p.staking gas d w) [
          | inl (done, grown) ↦ inl (paid, done.0, rw (some_input, sel, same, whole, paid) grown)
          | inr (refused, kept) ↦ inr (inr refused.0, rw (some_input, sel, same, whole, paid) kept)
        ]
      ]

module _ {E : Type 0} ⦃v : Vsdb⦄ ⦃r : Revm⦄ ⦃h : Host⦄ ⦃vm : Interpreter v r h⦄ where
  -- The block and the transaction that an eth_call gives the interpreter, and its run.
  abbrev pub call_block : EvmExecutor E v r → BlockEnv
  call_block x = record (vm.default_block) {
    number = x.block_height;
    gas_limit = x.state.config.block_gas_limit;
    basefee = x.state.config.base_fee_per_gas;
  }

  abbrev pub call_env :
      EvmExecutor E v r
      → (from : ℕ) → (to : Option ℕ) → (input : List ℕ) → (value : ℕ) → (gas : Option ℕ) → TxEnv
  call_env x from to input value gas = record (vm.default_tx) {
    caller = from;
    gas_limit = unwrap_or gas x.state.config.block_gas_limit;
    gas_price = x.state.config.base_fee_per_gas;
    kind = kind_of to;
    value = value;
    input = input;
  }

  abbrev pub ran :
      EvmExecutor E v r
      → (from : ℕ) → (to : Option ℕ) → (input : List ℕ) → (value : ℕ) → (gas : Option ℕ) → Ran v r h
  ran x from to input value gas =
      vm.transact_one x.state.config.chain_id (call_block x) (call_env x from to input value gas)
        x.state.db (Provider.new vm.cancun x.staking)

  eth_call-staking :
      (x : EvmExecutor E v r) (from : ℕ) (to : Option ℕ) (input : List ℕ) (value : ℕ)
      (gas : Option ℕ)
      → (eth_call x from to input value gas).1.staking
        ≡ (ran x from to input value gas).precompiles.staking
  unfolding eth_call
  eth_call-staking x from to input value gas =
      elim (Result-cases (ran x from to input value gas).outcome) [
        | inr (e, q) ↦ rw (q, eth_call) refl
        | inl (success g logs output, q) ↦ rw (q, eth_call) refl
        | inl (revert g logs output, q) ↦ rw (q, eth_call) refl
        | inl (halt g reason, q) ↦ rw (q, eth_call) refl
      ]

-- The ledger after no call, or after one call of the staking precompile in a journal with some gas.
abbrev pub ledger_after :
    {h : Host}
    → HotmintPrecompiles h
    → (caller : ℕ) → (input : List ℕ) → Option (h.Context × ℕ)
    → StakingState
ledger_after {h} p caller input none = p.staking
ledger_after {h} p caller input (some (c, limit)) =
    ((Provider.run ⦃h = h⦄ p c (staking_call caller input limit)).1.0).staking

-- A transaction to the staking precompile calls it once, in some journal with some gas, or ends
-- before that, for its nonce, its balance or its gas: which of them, and the ledger that it leaves.
pub record CallsDirectly {v : Vsdb} {r : Revm} {h : Host} (vm : Interpreter v r h) : Type 0 where
  pub call_of :
      (chain_id : ℕ)
      → BlockEnv
      → TxEnv
      → CacheDb v r
      → HotmintPrecompiles h
      → Option (h.Context × ℕ)
  pub transact_one-staking :
      (chain_id : ℕ) (block : BlockEnv) (env : TxEnv) (db : CacheDb v r) (p : HotmintPrecompiles h)
      → env.kind ≡ TxKind.call staking_addr
      → (vm.transact_one chain_id block env db p).precompiles.staking
        ≡ ledger_after p env.caller env.input (call_of chain_id block env db p)

module _ {E : Type 0} ⦃v : Vsdb⦄ ⦃r : Revm⦄ ⦃h : Host⦄ ⦃vm : Interpreter v r h⦄
    (direct : CallsDirectly vm) (x : EvmExecutor E v r) (from value : ℕ) (gas : Option ℕ)
    (input : List ℕ) where
  -- The call of the precompile that an eth_call to it makes.
  abbrev pub direct_call : Option (h.Context × ℕ)
  direct_call =
      direct.call_of x.state.config.chain_id (call_block x)
        (call_env x from (some staking_addr) input value gas) x.state.db
        (Provider.new vm.cancun x.staking)

  ledger_after-Effect :
      (call : Option (h.Context × ℕ)) (d w : ℕ)
      → take 4 input ≡ sel_delegate
      → 68 ≤ length input
      → Effect call from input x.staking
          (ledger_after (Provider.new vm.cancun x.staking) from input call)
          d
          w
  unfolding Provider.new
  ledger_after-Effect none d w sel len = refl
  ledger_after-Effect (some (c, limit)) d w sel len =
      run-Delegated (Provider.new vm.cancun x.staking) c from limit input d w sel len

  eth_call-ledger_after :
      (eth_call x from (some staking_addr) input value gas).1.staking
      ≡ ledger_after (Provider.new vm.cancun x.staking) from input direct_call
  eth_call-ledger_after =
      eth_call-staking x from (some staking_addr) input value gas
      ∙ direct.transact_one-staking _ _ _ x.state.db (Provider.new vm.cancun x.staking) refl

  -- What an eth_call of delegate at the staking precompile does to the executor's ledger: where the
  -- interpreter ends before a call of the precompile, the ledger is as before; where it calls it in
  -- some journal with some gas, that gas covers the cost, and the transfer of the tokens is done in
  -- that journal, the caller's stake with the validator has grown by the amount, up to the largest
  -- 256-bit number, with every other stake as before; and otherwise every stake is as before. The
  -- input has the selector and is long enough, and the interpreter runs a transaction to the
  -- precompile as at most one call of it.
  pub eth_call-delegate :
      (d w : ℕ)
      → take 4 input ≡ sel_delegate
      → 68 ≤ length input
      → Effect direct_call from input x.staking
          (eth_call x from (some staking_addr) input value gas).1.staking
          d
          w
  eth_call-delegate d w sel len =
      subst (λ s. Effect direct_call from input x.staking s d w) (sym eth_call-ledger_after)
        (ledger_after-Effect direct_call d w sel len)

  ledger_after-own :
      (call : Option (h.Context × ℕ)) (d w : ℕ)
      → d ≢ from
      → get_stake (ledger_after (Provider.new vm.cancun x.staking) from input call) d w
        ≡ get_stake x.staking d w
  unfolding Provider.new Provider.run
  ledger_after-own none d w ne = refl
  ledger_after-own (some (c, limit)) d w ne =
      run_staking-own c (staking_call from input limit) x.staking d w ne

  -- An eth_call at the staking precompile, whatever its input and however it ends, changes no stake
  -- but those of the account that it names as its sender.
  pub eth_call-own :
      (d w : ℕ)
      → d ≢ from
      → get_stake (eth_call x from (some staking_addr) input value gas).1.staking d w
        ≡ get_stake x.staking d w
  eth_call-own d w ne =
      ap (λ s. get_stake s d w) eth_call-ledger_after ∙ ledger_after-own direct_call d w ne
