-- ===== src/Precompile/Solvency.antt =====
-- The balance of the staking address covers the delegations: an invariant of the calls that
-- crates/precompile/src/lib.rs answers.
use nbnet.Prelude.{
  ℕ, ◌≤◌, ◌≡◌, ◌≢◌, refl, sym, ap, ◌∙◌, none, List, ltb, ◌==◌, Bool-cases, Option-cases,
  Result-cases, inl, inr, arith, ok, pair_eq, list_beq, length, take,
}
use nbnet.Precompile.External.{Host, Ledger, CallInputs}
use nbnet.Precompile.Staking.{StakingState, unbond}
use nbnet.Precompile.Stakes.{locked, locked-delegate, locked-unbond}
use nbnet.Precompile.Dispatch.{charge-elim, run_staking-elim}
use nbnet.Precompile.Provider.{
  Answer, HotmintPrecompiles, staking_addr, balances_addr, refuse, finish, settle, slice,
  precompile_base_gas, sel_balance_of, sel_transfer, precompile_write_gas, run_delegate, run_unbond,
  run_balances, run_staking, run, extract_input, balance_of,
}

-- The staking address holds at least what is delegated.
abbrev pub IsSolvent : {h : Host} → Ledger h → h.Context → StakingState → Type 0
IsSolvent l c s = locked s.delegations ≤ l.balance c staking_addr

-- ... in the state that a call leaves.
abbrev IsSolventAfter : {h : Host} → Ledger h → Answer h → Type 0
IsSolventAfter l a = IsSolvent l a.context a.staking

module _ ⦃h : Host⦄ (l : Ledger h) where
  settle_keeps :
      (c : h.Context) (from to amount : ℕ) (gas : h.Gas) (done undone : StakingState)
      → ((h.transfer c from to amount).0 ≡ ok none
          → IsSolvent l ((h.transfer c from to amount).1) done)
      → ((h.transfer c from to amount).0 ≢ ok none
          → IsSolvent l ((h.transfer c from to amount).1) undone)
      → IsSolventAfter l (settle c from to amount gas done undone)
  unfolding settle finish
  settle_keeps c from to amount gas done undone if_done if_not =
      elim (Result-cases ((h.transfer c from to amount).0)) [
        | inr (e, p) ↦ rw (p, settle) (if_not (λ q. ground (arith, p, q)))
        | inl (o, p) ↦ elim (Option-cases o) [
          | inl n ↦ rw (p, n, settle) (if_done (rw (p, n) refl))
          | inr (e, n) ↦ rw (p, n, settle) (if_not (λ q. ground (arith, p, n, q)))
        ]
      ]

  delegate_keeps :
      (c : h.Context) (caller : ℕ) (input : List ℕ) (s : StakingState) (gas : h.Gas)
      → caller ≢ staking_addr
      → IsSolvent l c s
      → IsSolventAfter l (run_delegate c caller input s gas)
  unfolding run_delegate
  delegate_keeps c caller input s gas ne k =
      let a = slice input 36 68 in
      settle_keeps c caller staking_addr a gas _ s
        (λ e. omega (
          arith,
          locked-delegate s caller (slice input 16 36) a,
          l.transfer-credited c caller staking_addr a e ne,
        ))
        (λ e. omega (arith, l.transfer-failed c caller staking_addr a staking_addr e))

  unbond_keeps :
      (c : h.Context) (caller : ℕ) (input : List ℕ) (s : StakingState) (gas : h.Gas)
      → caller ≢ staking_addr
      → IsSolvent l c s
      → IsSolventAfter l (run_unbond c caller input s gas)
  unfolding run_unbond finish
  unbond_keeps c caller input s gas ne k =
      let a = slice input 36 68 in
      let v = slice input 16 36 in
      let m = locked-unbond s caller v a in
      let s' = (unbond s caller v a).1 in
      elim (Result-cases ((unbond s caller v a).0)) [
        | inr (e, p) ↦ rw (p, run_unbond) (omega (arith, m.0))
        | inl (u, p) ↦
            rw (p, run_unbond)
              (settle_keeps c staking_addr caller a gas s' s'
                (λ e.
                  omega
                    (arith, m.1 p, l.transfer-debited c staking_addr caller a e (λ q. ne (sym q))))
                (λ e. omega (arith, m.0, l.transfer-failed c staking_addr caller a staking_addr e)))
      ]

  staking_keeps :
      (c : h.Context) (inputs : CallInputs) (s : StakingState)
      → inputs.caller ≢ staking_addr
      → IsSolvent l c s
      → IsSolventAfter l (run_staking c inputs s)
  staking_keeps c inputs s ne k =
      run_staking-elim (IsSolventAfter l) c s inputs (λ answer. k)
        (λ gas. delegate_keeps c inputs.caller (extract_input c inputs) s gas ne k)
        (λ gas. unbond_keeps c inputs.caller (extract_input c inputs) s gas ne k)

  balance_of_keeps :
      (c : h.Context) (input : List ℕ) (s : StakingState) (gas : h.Gas)
      → IsSolvent l c s
      → IsSolventAfter l (balance_of input c s gas)
  unfolding balance_of finish
  balance_of_keeps c input s gas k =
      let law = l.load_account-balance c (slice input 16 36) staking_addr in
      elim (Result-cases ((h.load_account c (slice input 16 36)).0)) [
        | inl (b, p) ↦ rw (p, balance_of) (omega arith)
        | inr (e, p) ↦ rw (p, balance_of) (omega arith)
      ]

  -- A transfer between others, or to the staking address, leaves the ledger covered.
  transfer_keeps :
      (c : h.Context) (caller to amount : ℕ) (s : StakingState) (gas : h.Gas)
      → caller ≢ staking_addr
      → IsSolvent l c s
      → IsSolventAfter l (settle c caller to amount gas s s)
  transfer_keeps c caller to amount s gas ne k =
      settle_keeps c caller to amount gas s s
        (λ e. elim (Bool-cases (to == staking_addr)) [
          | inl p ↦
              let here : to ≡ staking_addr = ground arith in
              omega (
                arith,
                l.transfer-credited c caller to amount e (λ q. ne (q ∙ here)),
                ap (l.balance ((h.transfer c caller to amount).1)) here,
                ap (l.balance c) here,
              )
          | inr p ↦ omega (
            arith,
            l.transfer-other c caller to amount staking_addr (λ q. ne (sym q)) (ground arith),
          )
        ])
        (λ e. omega (arith, l.transfer-failed c caller to amount staking_addr e))

  balances_keeps :
      (c : h.Context) (inputs : CallInputs) (s : StakingState)
      → inputs.caller ≢ staking_addr
      → IsSolvent l c s
      → IsSolventAfter l (run_balances c inputs s)
  unfolding run_balances refuse
  balances_keeps c inputs s ne k =
      let input = extract_input c inputs in
      let selector = take 4 input in
      let limit = inputs.gas_limit in
      elim (Bool-cases (ltb (length input) 4)) [
        | inl p ↦ rw (p, run_balances) k
        | inr p ↦ elim (Bool-cases (list_beq selector sel_balance_of)) [
          | inl q ↦
              rw (p, q, run_balances)
                (charge-elim (IsSolventAfter l) c s input 36 precompile_base_gas limit
                  (λ gas. balance_of input c s gas) (λ answer. k)
                  (λ gas. balance_of_keeps c input s gas k))
          | inr q ↦ elim (Bool-cases (list_beq selector sel_transfer)) [
            | inl t ↦
                rw (p, q, t, run_balances)
                  (charge-elim (IsSolventAfter l) c s input 68 precompile_write_gas limit
                    (λ gas. settle c inputs.caller (slice input 16 36) (slice input 36 68) gas s s)
                    (λ answer. k)
                    (λ gas.
                      transfer_keeps c inputs.caller (slice input 16 36) (slice input 36 68) s gas
                        ne k))
            | inr t ↦ rw (p, q, t, run_balances) k
          ]
        ]
      ]

  -- Whatever precompile is called and however the call ends, the staking address still holds at
  -- least what is delegated: provided that it did before, that the caller is not the staking
  -- address, and that the journal keeps its documented laws.
  pub run-IsSolvent :
      (p : HotmintPrecompiles h) (c : h.Context) (inputs : CallInputs)
      → inputs.caller ≢ staking_addr
      → IsSolvent l c p.staking
      → IsSolvent l ((run p c inputs).1.1) ((run p c inputs).1.0).staking
  unfolding run
  run-IsSolvent p c inputs ne k = elim (Bool-cases (inputs.bytecode_address == balances_addr)) [
    | inl q ↦ rw (q, run) (balances_keeps c inputs p.staking ne k)
    | inr q ↦ elim (Bool-cases (inputs.bytecode_address == staking_addr)) [
      | inl t ↦ rw (q, t, run) (staking_keeps c inputs p.staking ne k)
      | inr t ↦ rw (q, t, run) (omega (arith, l.eth_run-balance p.eth c inputs staking_addr))
    ]
  ]
