-- ===== src/Tests/StakingRuns.antt =====
-- Runs of crates/precompile/src/lib.rs at concrete inputs.
use nbnet.Prelude.{
  ℕ, ◌-◌, ◌≤◌, ◌≡◌, ◌≢◌, refl, List, [], ◌∷◌, ◌++◌, replicate, ok, none, arith, if◌then◌else◌,
  pair_eq, pair_beq, min, ◌+◌, ◌⊎◌,
}
use nbnet.Std.Words.{u256_max}
use nbnet.Std.Bytes.{from_be_bytes}
use nbnet.Std.HashMap
use nbnet.Precompile.External.{CallInputs, bytes, return, revert}
use nbnet.Precompile.Staking.{StakingState, get_stake}
use nbnet.Precompile.Stakes.{locked}
use nbnet.Precompile.Provider.{
  HotmintPrecompiles, run, run_delegate, run_unbond, slice, staking_addr,
}
use nbnet.Precompile.Solvency.{IsSolvent, run-IsSolvent}
use nbnet.Precompile.Outcomes.{run_delegate_outcome, run_unbond_reverted}
use nbnet.Tests.World.{mini_host, mini_ledger}

-- Account 1 has 10 with validator 2, and account 3 has 4 with it.
abbrev ledger : StakingState
ledger = record { delegations = ((1, 2), 10) ∷ ((3, 2), 4) ∷ [] }

-- Every account holds 14.
abbrev pub accounts : ℕ → ℕ
accounts a = 14

-- The arguments: 16 bytes that are not read, the address of validator 2, and an amount of 7.
abbrev pub arguments : List ℕ → List ℕ
arguments selector = selector ++ (replicate 31 0 ++ (2 ∷ [])) ++ (replicate 31 0 ++ (7 ∷ []))

abbrev unbond_call : CallInputs
unbond_call = record {
  input = bytes (arguments (0xa5 ∷ 0xd0 ∷ 0x59 ∷ 0xca ∷ []));
  gas_limit = 1000;
  bytecode_address = 0x0801;
  caller = 1;
}

abbrev provider : HotmintPrecompiles mini_host
provider = record { eth = tt; staking = ledger }

ledger-IsSolvent : IsSolvent mini_ledger accounts ledger
unfolding locked
ledger-IsSolvent = omega arith

run-IsSolvent_example :
    IsSolvent mini_ledger
      ((run provider accounts unbond_call).1.1)
      ((run provider accounts unbond_call).1.0).staking
run-IsSolvent_example =
    run-IsSolvent mini_ledger provider accounts unbond_call (omega arith) ledger-IsSolvent

abbrev input : List ℕ
input = arguments (0xa5 ∷ 0xd0 ∷ 0x59 ∷ 0xca ∷ [])

run_delegate_outcome_example :
    ((((mini_host.transfer accounts 1 staking_addr (slice input 36 68)).0 ≡ ok none)
        × ((run_delegate accounts 1 input ledger 500).answer.result ≡ return))
      × (get_stake (run_delegate accounts 1 input ledger 500).staking 1 2 ≡ (
          if pair_beq (1, slice input 16 36) (1, 2)
          then min (get_stake ledger 1 (slice input 16 36) + slice input 36 68) u256_max
          else get_stake ledger 1 2)))
    ⊎ ((((mini_host.transfer accounts 1 staking_addr (slice input 36 68)).0 ≢ ok none)
          × ((run_delegate accounts 1 input ledger 500).answer.result ≡ revert))
        × (get_stake (run_delegate accounts 1 input ledger 500).staking 1 2 ≡ get_stake ledger 1 2))
run_delegate_outcome_example = run_delegate_outcome accounts 1 input ledger 500 1 2

-- Nobody holds anything: the tokens cannot be returned.
abbrev empty : ℕ → ℕ
empty a = 0

two : slice input 16 36 ≡ 2
unfolding slice from_be_bytes
two = refl

covered : slice input 36 68 ≤ get_stake ledger 1 (slice input 16 36)
unfolding get_stake HashMap.get slice from_be_bytes
covered = omega arith

bankrupt : (mini_host.transfer empty staking_addr 1 (slice input 36 68)).0 ≢ ok none
unfolding slice from_be_bytes
bankrupt e = ground (arith, e)

run_unbond_reverted_example :
    ((run_unbond empty 1 input ledger 500).answer.result ≡ revert)
    × (get_stake (run_unbond empty 1 input ledger 500).staking 1 (slice input 16 36)
        ≡ get_stake ledger 1 (slice input 16 36) - slice input 36 68)
run_unbond_reverted_example = run_unbond_reverted empty 1 input ledger 500 covered bankrupt
