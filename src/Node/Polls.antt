-- ===== src/Node/Polls.antt =====
-- The waiting loops of crates/node/src/bench.rs.
use nbnet.Prelude.{
  ℕ, ◌≤◌, ◌<◌, ◌≡◌, refl, ◌↔◌, ◌⊎◌, inl, inr, Bool-cases, true, Option, none, some, List, [], ◌∷◌,
  leb, arith,
}
use nbnet.Node.Bench.{wait_for_blocks, wait_from, wait_for_confirmations}

-- Some poll answers with at least this much.
abbrev pub Seen : ℕ → List (Option ℕ) → Type 0
Seen least [] = ⊥
Seen least (none ∷ polls) = Seen least polls
Seen least (some n ∷ polls) = (least ≤ n) ⊎ Seen least polls

wait_from-Seen :
    (confirmed expected : ℕ) (polls : List (Option ℕ))
    → confirmed < expected
    → (expected ≤ wait_from confirmed expected polls) ↔ Seen expected polls
unfolding wait_from
wait_from-Seen confirmed expected [] l = (λ e. absurd (omega arith), λ s. absurd s)
wait_from-Seen confirmed expected (none ∷ polls) l = wait_from-Seen confirmed expected polls l
wait_from-Seen confirmed expected (some n ∷ polls) l = elim (Bool-cases (leb expected n)) [
  | inl p ↦ rw (p, wait_from) (λ e. inl e, λ s. ground arith)
  | inr p ↦
      let rest = wait_from-Seen n expected polls (ground arith) in
      rw (p, wait_from)
        (λ e. inr (rest.0 e), λ s. elim s [ inl q ↦ absurd (ground arith) | inr q ↦ rest.1 q ])
]

-- The benchmark reports at least the expected nonce exactly where a poll before the deadline sees one.
pub wait_for_confirmations-Seen :
    (expected : ℕ) (polls : List (Option ℕ))
    → 0 < expected
    → (expected ≤ wait_for_confirmations expected polls) ↔ Seen expected polls
unfolding wait_for_confirmations
wait_for_confirmations-Seen expected polls h = wait_from-Seen 0 expected polls h

-- Waiting for a height succeeds exactly where a poll before the deadline sees it.
pub wait_for_blocks-Seen :
    (least : ℕ) (polls : List (Option ℕ)) → (wait_for_blocks least polls ≡ true) ↔ Seen least polls
unfolding wait_for_blocks
wait_for_blocks-Seen least [] = (λ e. absurd cc, λ s. absurd s)
wait_for_blocks-Seen least (none ∷ polls) = wait_for_blocks-Seen least polls
wait_for_blocks-Seen least (some n ∷ polls) = elim (Bool-cases (leb least n)) [
  | inl p ↦ rw (p, wait_for_blocks) (λ e. inl (ground arith), λ s. refl)
  | inr p ↦
      let rest = wait_for_blocks-Seen least polls in
      rw (p, wait_for_blocks)
        (λ e. inr (rest.0 e), λ s. elim s [ inl q ↦ absurd (ground arith) | inr q ↦ rest.1 q ])
]
