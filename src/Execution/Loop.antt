-- ===== src/Execution/Loop.antt =====
-- The loop of `execute_block` of crates/execution/src/executor.rs: what every executed transaction keeps,
-- the loop keeps.
use nbnet.Prelude.{
  ℕ, suc, ◌+◌, ◌≡◌, refl, sym, ap, ◌∙◌, subst, none, some, List, [], ◌∷◌, get_elem?, ltb, ◌==◌, not,
  Bool-cases, Option-cases, inl, inr, arith,
}
use mathlib.Core.Option.{some-injective}
use nbnet.Std.Words.{u64_max, saturating_add}
use nbnet.Types.Config.{EvmChainConfig}
use nbnet.Types.Tx.{TxEnvelope, VerifiedTx}
use nbnet.State.External.{Vsdb, Revm}
use nbnet.State.Evm
use nbnet.Precompile.External.{Host}
use nbnet.Execution.External.{BlockContext, Interpreter}
use nbnet.Execution.Block.{Progress, execute_tx, round, execute_txs}

module _ {E : Type 0} ⦃tx : TxEnvelope E⦄ ⦃v : Vsdb⦄ ⦃r : Revm⦄ ⦃h : Host⦄ ⦃vm : Interpreter v r h⦄
    (config : EvmChainConfig) (ctx : BlockContext) (txs : List (VerifiedTx E))
    (P : Progress v r → Type 0)
    (keeps : (i : ℕ) (vtx : VerifiedTx E) (p : Progress v r)
      → get_elem? txs i ≡ some vtx
      → P p
      → P (execute_tx config ctx i vtx p)) where
  round-keeps :
      (i : ℕ) (vtx : VerifiedTx E) (p q : Progress v r)
      → get_elem? txs i ≡ some vtx
      → P p
      → round config ctx i vtx p ≡ some q
      → P q
  unfolding round
  round-keeps i vtx p q e k done =
      let gas = saturating_add u64_max p.cumulative_gas_used (tx.gas_limit vtx.envelope) in
      elim (Bool-cases (not (tx.nonce vtx.envelope == Evm.get_nonce p.state vtx.sender))) [
        | inl a ↦ subst P (some-injective _ _ (sym (rw (a, round) refl) ∙ done)) k
        | inr a ↦ elim (Bool-cases (ltb config.block_gas_limit gas)) [
          | inl b ↦ let left : round config ctx i vtx p ≡ none = rw (a, b, round) refl in cc
          | inr b ↦
              subst P (some-injective _ _ (sym (rw (a, b, round) refl) ∙ done)) (keeps i vtx p e k)
        ]
      ]

  -- From an index on, the rest of the transactions is what stands there.
  pub execute_txs-keeps :
      (i : ℕ) (rest : List (VerifiedTx E)) (p : Progress v r)
      → ((j : ℕ) → get_elem? txs (i + j) ≡ get_elem? rest j)
      → P p
      → P (execute_txs config ctx i rest p)
  unfolding execute_txs
  execute_txs-keeps i [] p at k = k
  execute_txs-keeps i (vtx ∷ rest) p at k = elim (Option-cases (round config ctx i vtx p)) [
    | inl e ↦ rw (e, execute_txs) k
    | inr (q, e) ↦
        let here : get_elem? txs i ≡ some vtx = ap (get_elem? txs) (omega arith) ∙ at 0 in
        rw (e, execute_txs)
          (execute_txs-keeps (suc i) rest q (λ j. ap (get_elem? txs) (omega arith) ∙ at (suc j))
            (round-keeps i vtx p q here k e))
  ]
