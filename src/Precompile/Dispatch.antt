-- ===== src/Precompile/Dispatch.antt =====
-- The dispatch on the selector in crates/precompile/src/lib.rs: what holds of every answer.
use nbnet.Prelude.{ℕ, List, ltb, Bool-cases, inl, inr, list_beq, length, take}
use nbnet.Precompile.External.{Host, InterpreterResult, return, CallInputs}
use nbnet.Precompile.Staking.{StakingState, get_stake, total_stake}
use nbnet.Precompile.Provider.{
  Answer, charge, refuse, finish, slice, sel_delegate, sel_unbond, sel_get_stake, sel_total_stake,
  precompile_base_gas, precompile_write_gas, run_delegate, run_unbond, run_staking, extract_input,
}

module _ ⦃h : Host⦄ (P : Answer h → Type 0) (c : h.Context) (s : StakingState) where
  -- The journal and the ledger are as before the call.
  abbrev pub Unmoved : Type 0
  Unmoved =
      (answer : InterpreterResult h.Gas) → P (record { answer = answer; context = c; staking = s })

  pub charge-elim :
      (input : List ℕ) (needed cost limit : ℕ) (act : h.Gas → Answer h)
      → Unmoved
      → ((gas : h.Gas) → P (act gas))
      → P (charge input needed cost limit c s act)
  unfolding charge
  charge-elim input needed cost limit act k acts = elim (Bool-cases (ltb (length input) needed)) [
    | inl p ↦ rw p (k _)
    | inr p ↦ elim (Bool-cases ((h.record_cost (h.gas_new limit) cost).0)) [
      | inl q ↦ rw (p, q) (acts _)
      | inr q ↦ rw (p, q) (k _)
    ]
  ]

  -- What holds where nothing moves, after a delegation and after an unbonding, holds after every
  -- call of the staking precompile.
  pub run_staking-elim :
      (inputs : CallInputs)
      → Unmoved
      → ((gas : h.Gas) → P (run_delegate c inputs.caller (extract_input c inputs) s gas))
      → ((gas : h.Gas) → P (run_unbond c inputs.caller (extract_input c inputs) s gas))
      → P (run_staking c inputs s)
  unfolding run_staking refuse finish
  run_staking-elim inputs k delegates unbonds =
      let input = extract_input c inputs in
      let selector = take 4 input in
      let limit = inputs.gas_limit in
      elim (Bool-cases (ltb (length input) 4)) [
        | inl p ↦ rw (p, run_staking) (k _)
        | inr p ↦ elim (Bool-cases (list_beq selector sel_delegate)) [
          | inl q ↦
              rw (p, q, run_staking)
                (charge-elim input 68 precompile_write_gas limit
                  (λ gas. run_delegate c inputs.caller input s gas) k delegates)
          | inr q ↦ elim (Bool-cases (list_beq selector sel_unbond)) [
            | inl t ↦
                rw (p, q, t, run_staking)
                  (charge-elim input 68 precompile_write_gas limit
                    (λ gas. run_unbond c inputs.caller input s gas) k unbonds)
            | inr t ↦ elim (Bool-cases (list_beq selector sel_get_stake)) [
              | inl u ↦
                  rw (p, q, t, u, run_staking)
                    (charge-elim input 68 precompile_base_gas limit
                      (λ gas.
                        finish return gas (get_stake s (slice input 16 36) (slice input 48 68)) c s)
                      k (λ gas. k _))
              | inr u ↦ elim (Bool-cases (list_beq selector sel_total_stake)) [
                | inl w ↦
                    rw (p, q, t, u, w, run_staking)
                      (charge-elim input 36 precompile_base_gas limit
                        (λ gas. finish return gas (total_stake s (slice input 16 36)) c s) k
                        (λ gas. k _))
                | inr w ↦ rw (p, q, t, u, w, run_staking) (k _)
              ]
            ]
          ]
        ]
      ]
