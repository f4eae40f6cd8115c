-- ===== src/Precompile/Outcomes.antt =====
-- What a call of the staking precompile of crates/precompile/src/lib.rs leaves when the transfer of
-- the tokens is not done.
use nbnet.Prelude.{
  ℕ, ◌+◌, ◌-◌, min, pair_beq, ◌⊎◌, pair_eq, ◌≤◌, ◌≡◌, ◌≢◌, refl, Option-cases, Result-cases, inl,
  inr, none, ok, err, List, arith, if◌then◌else◌, ◌<◌,
}
use nbnet.Std.Words.{u256_max}
use nbnet.Precompile.External.{Host, return, revert}
use nbnet.Precompile.Staking.{StakingState, unbond, get_stake, insufficient_delegation}
use nbnet.Precompile.Stakes.{get_stake-delegate, unbond_outcome}
use nbnet.Precompile.Provider.{slice, settle, finish, run_delegate, run_unbond, staking_addr}

module _ ⦃h : Host⦄ where
  settle_undone :
      (c : h.Context) (from to amount : ℕ) (gas : h.Gas) (done undone : StakingState)
      → (h.transfer c from to amount).0 ≢ ok none
      → settle c from to amount gas done undone
        ≡ finish revert gas 0 ((h.transfer c from to amount).1) undone
  unfolding settle
  settle_undone c from to amount gas done undone n =
      elim (Result-cases ((h.transfer c from to amount).0)) [
        | inr (e, p) ↦ rw (p, settle) refl
        | inl (o, p) ↦ elim (Option-cases o) [
          | inl q ↦ absurd (n (rw (p, q) refl))
          | inr (e, q) ↦ rw (p, q, settle) refl
        ]
      ]

  -- A delegation is atomic, as read from the stakes: either the transfer of the tokens is done, the
  -- call returns, and the caller's stake with the validator has grown by the amount, up to the
  -- largest 256-bit number, with every other stake as before; or the transfer is not done, the call
  -- reverts, and every stake is as before.
  pub run_delegate_outcome :
      (c : h.Context) (caller : ℕ) (input : List ℕ) (s : StakingState) (gas : h.Gas) (d v : ℕ)
      → ((((h.transfer c caller staking_addr (slice input 36 68)).0 ≡ ok none)
            × ((run_delegate c caller input s gas).answer.result ≡ return))
          × (get_stake (run_delegate c caller input s gas).staking d v ≡ (
              if pair_beq (caller, slice input 16 36) (d, v)
              then min (get_stake s caller (slice input 16 36) + slice input 36 68) u256_max
              else get_stake s d v)))
        ⊎ ((((h.transfer c caller staking_addr (slice input 36 68)).0 ≢ ok none)
              × ((run_delegate c caller input s gas).answer.result ≡ revert))
            × (get_stake (run_delegate c caller input s gas).staking d v ≡ get_stake s d v))
  unfolding run_delegate finish settle
  run_delegate_outcome c caller input s gas d v =
      elim (Result-cases ((h.transfer c caller staking_addr (slice input 36 68)).0)) [
        | inr (e, p) ↦
            inr (rw (p, run_delegate, settle) (((λ q. ground (arith, p, q)), refl), refl))
        | inl (o, p) ↦ elim (Option-cases o) [
          | inl q ↦ inl (
              rw (p, q, run_delegate, settle)
                (
                  (refl, refl),
                  get_stake-delegate s caller (slice input 16 36) (slice input 36 68) d v,
                ))
          | inr (e, q) ↦
              inr (rw (p, q, run_delegate, settle) (((λ k. ground (arith, p, q, k)), refl), refl))
        ]
      ]

  -- An unbonding is not atomic: when the stake covers the amount but the tokens are not transferred
  -- back, the call reverts and the stake is reduced all the same.
  pub run_unbond_reverted :
      (c : h.Context) (caller : ℕ) (input : List ℕ) (s : StakingState) (gas : h.Gas)
      → slice input 36 68 ≤ get_stake s caller (slice input 16 36)
      → (h.transfer c staking_addr caller (slice input 36 68)).0 ≢ ok none
      → ((run_unbond c caller input s gas).answer.result ≡ revert)
        × (get_stake (run_unbond c caller input s gas).staking caller (slice input 16 36)
            ≡ get_stake s caller (slice input 16 36) - slice input 36 68)
  unfolding run_unbond finish
  run_unbond_reverted c caller input s gas k n =
      let v = slice input 16 36 in
      let a = slice input 36 68 in
      let s' = (unbond s caller v a).1 in
      let all = unbond_outcome s caller v a caller v in
      let granted : (unbond s caller v a).0 ≡ ok tt = ground (arith, all.0) in
      rw (granted, settle_undone c staking_addr caller a gas s' s' n, run_unbond)
        (refl, ground (arith, all.1))

  -- An unbonding that the stake does not cover reverts before any transfer: the balances are as
  -- before and so is every stake.
  pub run_unbond_refused :
      (c : h.Context) (caller : ℕ) (input : List ℕ) (s : StakingState) (gas : h.Gas) (d v : ℕ)
      → get_stake s caller (slice input 16 36) < slice input 36 68
      → ((run_unbond c caller input s gas).answer.result ≡ revert)
        × ((run_unbond c caller input s gas).context ≡ c)
        × (get_stake (run_unbond c caller input s gas).staking d v ≡ get_stake s d v)
  unfolding run_unbond finish
  run_unbond_refused c caller input s gas d v k =
      let w = slice input 16 36 in
      let all = unbond_outcome s caller w (slice input 36 68) d v in
      let refused : (unbond s caller w (slice input 36 68)).0 ≡ err insufficient_delegation =
        ground (arith, all.0) in
      rw (refused, run_unbond) (refl, refl, ground (arith, all.1))
