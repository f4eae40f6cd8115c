-- ===== src/Precompile/Stakes.antt =====
-- The staking ledger of crates/precompile/src/lib.rs: what its operations do to stakes and totals.
use nbnet.Prelude.{
  ℕ, ◌+◌, ◌-◌, ◌≤◌, ◌≡◌, [], ◌∷◌, min, leb, ◌&&◌, ◌==◌, pair_beq, if◌then◌else◌, arith, ok, err,
  pair_eq, unwrap_or,
}
use nbnet.Std.Words.{u256_max, saturating_add, saturating_sub}
use nbnet.Std.HashMap
use nbnet.Std.HashMap.{HashMap, get-insert}
use nbnet.Precompile.Staking.{
  StakingState, insufficient_delegation, delegate, unbond, get_stake, sum_stakes, total_stake,
}

-- Delegating adds to the stake of that pair, up to the largest number, and to no other.
pub get_stake-delegate :
    (s : StakingState) (d v a d' v' : ℕ)
    → get_stake (delegate s d v a) d' v'
      ≡ (if pair_beq (d, v) (d', v') then min (get_stake s d v + a) u256_max else get_stake s d' v')
unfolding get_stake delegate HashMap.or_default saturating_add
get_stake-delegate s d v a d' v' =
    let x = min (unwrap_or (HashMap.get s.delegations (d, v)) 0 + a) u256_max in
    ground (arith, get-insert s.delegations (d, v) (d', v') x)

-- Unbonding succeeds exactly when the stake covers the amount; then that stake falls by the amount
-- and no other changes. A refused unbonding changes no stake.
pub unbond_outcome :
    (s : StakingState) (d v a d' v' : ℕ)
    → ((unbond s d v a).0
        ≡ (if leb a (get_stake s d v) then ok tt else err insufficient_delegation))
      × (get_stake ((unbond s d v a).1) d' v' ≡ (
          if leb a (get_stake s d v) && pair_beq (d, v) (d', v')
          then get_stake s d v - a
          else get_stake s d' v'))
unfolding get_stake unbond HashMap.or_default saturating_sub
unbond_outcome s d v a d' v' =
    let e = unwrap_or (HashMap.get s.delegations (d, v)) 0 in
    (
      ground arith,
      ground (
        arith,
        get-insert s.delegations (d, v) (d', v') (e - a),
        get-insert s.delegations (d, v) (d', v') e,
      ),
    )

-- The stakes with a validator, added up without a bound.
unfoldable pub staked : HashMap (ℕ × ℕ) ℕ → ℕ → ℕ
staked [] validator = 0
staked (((_, v), amt) ∷ m) validator = (if v == validator then amt else 0) + staked m validator

sum_stakes-min :
    (m : HashMap (ℕ × ℕ) ℕ) (acc v : ℕ)
    → acc ≤ u256_max
    → sum_stakes acc m v ≡ min (acc + staked m v) u256_max
unfolding sum_stakes staked saturating_add
sum_stakes-min [] acc v h = omega arith
sum_stakes-min (((d, w), amt) ∷ m) acc v h =
    ground
      (arith, sum_stakes-min m acc v h, sum_stakes-min m (min (acc + amt) u256_max) v (omega arith))

-- The total of a validator is the sum of the stakes with it, or the largest number where that is
-- less.
pub total_stake-min :
    (s : StakingState) (v : ℕ) → total_stake s v ≡ min (staked s.delegations v) u256_max
unfolding total_stake
total_stake-min s v = ground (arith, sum_stakes-min s.delegations 0 v (omega arith))

-- Writing a stake changes the sum by the difference.
pub staked-insert :
    (m : HashMap (ℕ × ℕ) ℕ) (d v x w : ℕ)
    → staked (HashMap.insert m (d, v) x) w
        + (if v == w then unwrap_or (HashMap.get m (d, v)) 0 else 0)
      ≡ staked m w + (if v == w then x else 0)
unfolding staked HashMap.insert HashMap.get
staked-insert [] d v x w = ground arith
staked-insert (((c, u), y) ∷ m) d v x w = ground (arith, staked-insert m d v x w)

stake_le : (m : HashMap (ℕ × ℕ) ℕ) (d v : ℕ) → unwrap_or (HashMap.get m (d, v)) 0 ≤ staked m v
stake_le m d v = ground (arith, staked-insert m d v 0 v)

-- Without saturation, delegating adds the amount to the total of the validator, and unbonding takes
-- off what is granted.
pub total_stake_moves :
    (s : StakingState) (d v a : ℕ)
    → staked s.delegations v + a ≤ u256_max
    → (total_stake (delegate s d v a) v ≡ total_stake s v + a)
      × (total_stake ((unbond s d v a).1) v + (if leb a (get_stake s d v) then a else 0)
          ≡ total_stake s v)
unfolding delegate unbond get_stake HashMap.or_default saturating_add saturating_sub
total_stake_moves s d v a h =
    let e = unwrap_or (HashMap.get s.delegations (d, v)) 0 in
    let own = stake_le s.delegations d v in
    let old = total_stake-min s v in
    let added = delegate s d v a in
    let taken = (unbond s d v a).1 in
    let less = staked-insert s.delegations d v (e - a) v in
    let same = staked-insert s.delegations d v e v in
    (
      ground (
        arith,
        own,
        old,
        total_stake-min added v,
        staked-insert s.delegations d v (min (e + a) u256_max) v,
      ),
      ground (arith, own, old, total_stake-min taken v, less, same),
    )

-- All delegations, with every validator.
unfoldable pub locked : HashMap (ℕ × ℕ) ℕ → ℕ
locked [] = 0
locked ((_, amt) ∷ m) = amt + locked m

locked-insert :
    (m : HashMap (ℕ × ℕ) ℕ) (k : ℕ × ℕ) (x : ℕ)
    → locked (HashMap.insert m k x) + unwrap_or (HashMap.get m k) 0 ≡ locked m + x
unfolding locked HashMap.insert HashMap.get
locked-insert [] k x = ground arith
locked-insert ((j, y) ∷ m) k x = ground (arith, locked-insert m k x)

pub locked-delegate :
    (s : StakingState) (d v a : ℕ)
    → locked (delegate s d v a).delegations ≤ locked s.delegations + a
unfolding delegate HashMap.or_default saturating_add
locked-delegate s d v a =
    let key : ℕ × ℕ = (d, v) in
    let e = unwrap_or (HashMap.get s.delegations key) 0 in
    ground (arith, locked-insert s.delegations key (min (e + a) u256_max))

pub locked-unbond :
    (s : StakingState) (d v a : ℕ)
    → (locked ((unbond s d v a).1).delegations ≤ locked s.delegations)
      × ((unbond s d v a).0 ≡ ok tt
          → locked ((unbond s d v a).1).delegations + a ≤ locked s.delegations)
unfolding unbond HashMap.or_default saturating_sub
locked-unbond s d v a =
    let key : ℕ × ℕ = (d, v) in
    let e = unwrap_or (HashMap.get s.delegations key) 0 in
    let same = locked-insert s.delegations key e in
    let less = locked-insert s.delegations key (e - a) in
    (ground (arith, same, less), λ h. ground (arith, same, less))
