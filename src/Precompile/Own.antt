-- ===== src/Precompile/Own.antt =====
-- Whose stakes a call of the staking precompile of crates/precompile/src/lib.rs changes.
use nbnet.Prelude.{ℕ, ◌≡◌, ◌≢◌, refl, List, Option-cases, Result-cases, inl, inr, arith, pair_eq}
use nbnet.Precompile.External.{Host, CallInputs}
use nbnet.Precompile.Staking.{StakingState, unbond, get_stake}
use nbnet.Precompile.Stakes.{unbond_outcome}
use nbnet.Precompile.Provider.{
  slice, settle, finish, run_delegate, run_unbond, run_staking, staking_addr, extract_input,
}
use nbnet.Precompile.Outcomes.{run_delegate_outcome}
use nbnet.Precompile.Dispatch.{run_staking-elim}

module _ ⦃h : Host⦄ where
  settle_staking :
      (c : h.Context) (from to amount : ℕ) (gas : h.Gas) (s : StakingState)
      → (settle c from to amount gas s s).staking ≡ s
  unfolding settle finish
  settle_staking c from to amount gas s = elim (Result-cases ((h.transfer c from to amount).0)) [
    | inr (e, p) ↦ rw (p, settle) refl
    | inl (o, p) ↦ elim (Option-cases o) [
      | inl q ↦ rw (p, q, settle) refl
      | inr (e, q) ↦ rw (p, q, settle) refl
    ]
  ]

  delegate_own :
      (c : h.Context) (caller : ℕ) (input : List ℕ) (s : StakingState) (gas : h.Gas) (d v : ℕ)
      → d ≢ caller
      → get_stake (run_delegate c caller input s gas).staking d v ≡ get_stake s d v
  delegate_own c caller input s gas d v ne = elim (run_delegate_outcome c caller input s gas d v) [
    | inl (sure, grown) ↦ ground (arith, grown, ne)
    | inr (sure, same) ↦ same
  ]

  unbond_own :
      (c : h.Context) (caller : ℕ) (input : List ℕ) (s : StakingState) (gas : h.Gas) (d v : ℕ)
      → d ≢ caller
      → get_stake (run_unbond c caller input s gas).staking d v ≡ get_stake s d v
  unfolding run_unbond finish
  unbond_own c caller input s gas d v ne =
      let w = slice input 16 36 in
      let a = slice input 36 68 in
      let s' = (unbond s caller w a).1 in
      let all = unbond_outcome s caller w a d v in
      elim (Result-cases ((unbond s caller w a).0)) [
        | inr (e, p) ↦ rw (p, run_unbond) (ground (arith, all.1, ne))
        | inl (u, p) ↦
            rw (p, run_unbond, settle_staking c staking_addr caller a gas s')
              (ground (arith, all.1, ne))
      ]

  -- A call of the staking precompile changes no stake but the caller's, however it ends.
  pub run_staking-own :
      (c : h.Context) (inputs : CallInputs) (s : StakingState) (d v : ℕ)
      → d ≢ inputs.caller
      → get_stake (run_staking c inputs s).staking d v ≡ get_stake s d v
  run_staking-own c inputs s d v ne =
      run_staking-elim (λ a. get_stake a.staking d v ≡ get_stake s d v) c s inputs (λ answer. refl)
        (λ gas. delegate_own c inputs.caller (extract_input c inputs) s gas d v ne)
        (λ gas. unbond_own c inputs.caller (extract_input c inputs) s gas d v ne)
