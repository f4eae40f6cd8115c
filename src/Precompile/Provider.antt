-- ===== src/Precompile/Provider.antt =====
-- `HotmintPrecompiles` of crates/precompile/src/lib.rs. The staking ledger behind the shared mutex is
-- passed along and returned.
use Prim.Native.String.{String}
use nbnet.Prelude.{
  ℕ, ◌-◌, Bool, ◌||◌, Option, none, some, List, [], ◌∷◌, ◌++◌, ltb, ◌==◌, if◌then◌else◌, length,
  take, drop, unwrap_or, list_beq, Result, ok, err,
}
use nbnet.Std.Bytes.{to_be_bytes, from_be_bytes}
use nbnet.Precompile.External.{
  Host, InstructionResult, return, precompile_error, precompile_oog, revert, InterpreterResult,
  shared_buffer, bytes, CallInputs,
}
use nbnet.Precompile.Staking.{StakingState, delegate, unbond, get_stake, total_stake}

abbrev pub balances_addr : ℕ
balances_addr = 0x0800

abbrev pub staking_addr : ℕ
staking_addr = 0x0801

abbrev pub precompile_base_gas : ℕ
precompile_base_gas = 150

abbrev pub precompile_write_gas : ℕ
precompile_write_gas = 500

abbrev pub sel_balance_of : List ℕ
sel_balance_of = 0x70 ∷ 0xa0 ∷ 0x82 ∷ 0x31 ∷ []

abbrev pub sel_transfer : List ℕ
sel_transfer = 0xa9 ∷ 0x05 ∷ 0x9c ∷ 0xbb ∷ []

abbrev pub sel_delegate : List ℕ
sel_delegate = 0x02 ∷ 0x6e ∷ 0x40 ∷ 0x2b ∷ []

abbrev pub sel_unbond : List ℕ
sel_unbond = 0xa5 ∷ 0xd0 ∷ 0x59 ∷ 0xca ∷ []

abbrev pub sel_get_stake : List ℕ
sel_get_stake = 0x82 ∷ 0xdd ∷ 0xa2 ∷ 0x2d ∷ []

abbrev pub sel_total_stake : List ℕ
sel_total_stake = 0xb2 ∷ 0x73 ∷ 0xfc ∷ 0x9a ∷ []

-- `Address::from_slice` and `U256::from_be_slice` of a range of the input.
unfoldable pub slice : List ℕ → ℕ → ℕ → ℕ
slice input start end = from_be_bytes (take (end - start) (drop start input))

-- `U256::to_be_bytes::<32>` of an answer.
unfoldable pub word : ℕ → List ℕ
word x = to_be_bytes 32 x

-- What a precompile call returns and leaves.
pub record Answer (h : Host) : Type 0 where
  pub answer : InterpreterResult (h.Gas)
  pub context : h.Context
  pub staking : StakingState

pub record HotmintPrecompiles (h : Host) : Type 0 where
  pub eth : h.Eth
  pub staking : StakingState

module _ ⦃h : Host⦄ where
  -- `HotmintPrecompiles::new`
  unfoldable pub new : ℕ → StakingState → HotmintPrecompiles h
  new spec staking = record { eth = h.eth_new spec; staking = staking }

  unfoldable pub set_spec : HotmintPrecompiles h → ℕ → Bool × HotmintPrecompiles h
  set_spec p spec =
      let (changed, eth) = h.eth_set_spec p.eth spec in (changed, record p { eth = eth })

  unfoldable pub extract_input : h.Context → CallInputs → List ℕ
  extract_input c inputs = elim inputs.input [
    | shared_buffer start end ↦ unwrap_or (h.shared_memory_buffer_slice c start end) []
    | bytes b ↦ b
  ]

  -- The guards that every selector starts with: the length of the input, then the gas.
  unfoldable pub charge :
      List ℕ
      → (needed cost gas_limit : ℕ) → h.Context
      → StakingState
      → (h.Gas → Answer h)
      → Answer h
  charge input needed cost gas_limit c s act =
      let full = h.gas_new gas_limit in
      let (paid, gas) = h.record_cost full cost in
      if ltb (length input) needed
      then record {
        answer = record { result = precompile_error; gas = full; output = [] };
        context = c;
        staking = s;
      }
      else if paid
      then act gas
      else record {
        answer = record { result = precompile_oog; gas = gas; output = [] };
        context = c;
        staking = s;
      }

  -- An unknown selector, or an input with none.
  unfoldable pub refuse : ℕ → h.Context → StakingState → Answer h
  refuse gas_limit c s = record {
    answer = record { result = precompile_error; gas = h.gas_new gas_limit; output = [] };
    context = c;
    staking = s;
  }

  unfoldable pub finish : InstructionResult → h.Gas → ℕ → h.Context → StakingState → Answer h
  finish result gas output c s = record {
    answer = record { result = result; gas = gas; output = word output };
    context = c;
    staking = s;
  }

  -- `balanceOf(address)`
  unfoldable pub balance_of : List ℕ → h.Context → StakingState → h.Gas → Answer h
  balance_of input c s gas =
      let (account, c') = h.load_account c (slice input 16 36) in
      elim account [
        | ok balance ↦ finish return gas balance c' s
        | err e ↦ finish return gas 0 c' s
      ]

  -- A transfer through the journal, and what follows it: an answer of 1 and the ledger `done` when it
  -- is done, an answer of 0, a revert and the ledger `undone` when it is not.
  unfoldable pub settle :
      h.Context → (from to amount : ℕ) → h.Gas → (done undone : StakingState) → Answer h
  settle c from to amount gas done undone =
      let (outcome, c') = h.transfer c from to amount in
      elim outcome [
        | ok none ↦ finish return gas 1 c' done
        | ok (some e) ↦ finish revert gas 0 c' undone
        | err e ↦ finish revert gas 0 c' undone
      ]

  unfoldable pub run_balances : h.Context → CallInputs → StakingState → Answer h
  run_balances c inputs s =
      let input = extract_input c inputs in
      let selector = take 4 input in
      let limit = inputs.gas_limit in
      if ltb (length input) 4
      then refuse limit c s
      else if list_beq selector sel_balance_of
      then charge input 36 precompile_base_gas limit c s (λ gas. balance_of input c s gas)
      else if list_beq selector sel_transfer
      then charge input 68 precompile_write_gas limit c s
          (λ gas. settle c inputs.caller (slice input 16 36) (slice input 36 68) gas s s)
      else refuse limit c s

  -- `delegate(address,uint256)`: the tokens are locked first, then the delegation is recorded.
  unfoldable pub run_delegate : h.Context → ℕ → List ℕ → StakingState → h.Gas → Answer h
  run_delegate c caller input s gas =
      let amount = slice input 36 68 in
      settle c caller staking_addr amount gas (delegate s caller (slice input 16 36) amount) s

  -- `unbond(address,uint256)`: the ledger is reduced first, then the tokens are returned; a transfer
  -- that is not done leaves the ledger reduced.
  unfoldable pub run_unbond : h.Context → ℕ → List ℕ → StakingState → h.Gas → Answer h
  run_unbond c caller input s gas =
      let amount = slice input 36 68 in
      let (outcome, s') = unbond s caller (slice input 16 36) amount in
      elim outcome [
        | err e ↦ finish revert gas 0 c s'
        | ok u ↦ settle c staking_addr caller amount gas s' s'
      ]

  unfoldable pub run_staking : h.Context → CallInputs → StakingState → Answer h
  run_staking c inputs s =
      let input = extract_input c inputs in
      let selector = take 4 input in
      let limit = inputs.gas_limit in
      if ltb (length input) 4
      then refuse limit c s
      else if list_beq selector sel_delegate
      then charge input 68 precompile_write_gas limit c s
          (λ gas. run_delegate c inputs.caller input s gas)
      else if list_beq selector sel_unbond
      then charge input 68 precompile_write_gas limit c s
          (λ gas. run_unbond c inputs.caller input s gas)
      else if list_beq selector sel_get_stake
      then charge input 68 precompile_base_gas limit c s
          (λ gas. finish return gas (get_stake s (slice input 16 36) (slice input 48 68)) c s)
      else if list_beq selector sel_total_stake
      then charge input 36 precompile_base_gas limit c s
          (λ gas. finish return gas (total_stake s (slice input 16 36)) c s)
      else refuse limit c s

  unfoldable pub run :
      HotmintPrecompiles h
      → h.Context
      → CallInputs
      → Result (Option (InterpreterResult (h.Gas))) String × (HotmintPrecompiles h × h.Context)
  run p c inputs =
      let target = inputs.bytecode_address in
      let b = run_balances c inputs p.staking in
      let s = run_staking c inputs p.staking in
      let (outcome, (eth, c')) = h.eth_run p.eth c inputs in
      if target == balances_addr
      then (ok (some b.answer), (record p { staking = b.staking }, b.context))
      else if target == staking_addr
      then (ok (some s.answer), (record p { staking = s.staking }, s.context))
      else (outcome, (record p { eth = eth }, c'))

  unfoldable pub warm_addresses : HotmintPrecompiles h → List ℕ
  warm_addresses p = h.eth_warm_addresses p.eth ++ (balances_addr ∷ staking_addr ∷ [])

  unfoldable pub contains : HotmintPrecompiles h → ℕ → Bool
  contains p address =
      address == balances_addr || (address == staking_addr || h.eth_contains p.eth address)
