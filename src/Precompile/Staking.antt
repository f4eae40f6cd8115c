-- ===== src/Precompile/Staking.antt =====
-- `StakingState` of crates/precompile/src/lib.rs. The sum of `total_stake` runs over the map in the
-- order of the list.
use nbnet.Prelude.{ℕ, [], ◌∷◌, ltb, ◌==◌, if◌then◌else◌, Result, ok, err, unwrap_or, pair_eq}
use nbnet.Std.Words.{u256_max, saturating_add, saturating_sub}
use nbnet.Std.HashMap
use nbnet.Std.HashMap.{HashMap}

-- (delegator, validator) → amount
pub record StakingState : Type 0 where
  pub delegations : HashMap (ℕ × ℕ) ℕ

-- "insufficient delegation"
pub data UnbondError : Type 0 where
  insufficient_delegation : UnbondError

abbrev pub new : StakingState
new = record { delegations = [] }

unfoldable pub delegate : StakingState → (delegator validator amount : ℕ) → StakingState
delegate s delegator validator amount =
    let entry = HashMap.or_default 0 s.delegations (delegator, validator) in
    record {
      delegations =
          HashMap.insert s.delegations (delegator, validator)
            (saturating_add u256_max entry amount);
    }

-- The entry is made before the check, so a refused unbonding leaves an entry of 0 behind.
unfoldable pub unbond :
    StakingState → (delegator validator amount : ℕ) → Result (Unit {0}) UnbondError × StakingState
unbond s delegator validator amount =
    let key : ℕ × ℕ = (delegator, validator) in
    let entry = HashMap.or_default 0 s.delegations key in
    if ltb entry amount
    then (
      err insufficient_delegation,
      record { delegations = HashMap.insert s.delegations key entry },
    )
    else (
      ok tt,
      record { delegations = HashMap.insert s.delegations key (saturating_sub entry amount) },
    )

unfoldable pub get_stake : StakingState → (delegator validator : ℕ) → ℕ
get_stake s delegator validator = unwrap_or (HashMap.get s.delegations (delegator, validator)) 0

unfoldable pub sum_stakes : ℕ → HashMap (ℕ × ℕ) ℕ → ℕ → ℕ
sum_stakes acc [] validator = acc
sum_stakes acc (((_, v), amt) ∷ m) validator =
    sum_stakes (if v == validator then saturating_add u256_max acc amt else acc) m validator

unfoldable pub total_stake : StakingState → ℕ → ℕ
total_stake s validator = sum_stakes 0 s.delegations validator
