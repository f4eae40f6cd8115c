-- ===== src/Node/Identity.antt =====
-- `identify`, the choice of the validator id in `run_node` of crates/node/src/main.rs.
use nbnet.Prelude.{
  ℕ, ◌≡◌, ◌≢◌, refl, ◌⊎◌, Bool-cases, inl, inr, true, false, none, some, Option-cases, ◌↔◌, List,
  [], ◌∷◌, All, list_beq, list_beq_iff, arith, subst, sym, ◌∙◌,
}
use nbnet.Std.Words.{u64_max}
use nbnet.Node.Validator.{
  GenesisValidator, NodeMode, Identity, runs_as_fullnode, genesis_identity, sentinel,
  find_validator, any_id, identify, fullnode, validator,
}

-- The first validator with the key.
pub data First (key : List ℕ) (gv : GenesisValidator) : List GenesisValidator → Type 0 where
  here : (rest : List GenesisValidator) → gv.public_key ≡ key → First key gv (gv ∷ rest)
  there :
      (other : GenesisValidator) (rest : List GenesisValidator)
      → other.public_key ≢ key
      → First key gv rest
      → First key gv (other ∷ rest)

find_validator-none :
    (vs : List GenesisValidator) (key : List ℕ)
    → find_validator vs key ≡ none
    → All (λ gv. gv.public_key ≢ key) vs
unfolding find_validator
find_validator-none [] key e = tt
find_validator-none (gv ∷ vs) key e = (
  (λ q. absurd (ground (arith, (list_beq_iff gv.public_key key).1 q))),
  find_validator-none vs key (ground arith),
)

find_validator-First :
    (vs : List GenesisValidator) (key : List ℕ) (gv : GenesisValidator)
    → find_validator vs key ≡ some gv
    → First key gv vs
unfolding find_validator
find_validator-First [] key gv e = absurd cc
find_validator-First (x ∷ vs) key gv e = elim (Bool-cases (list_beq x.public_key key)) [
  | inl p ↦
      let same : x ≡ gv = ground (arith, p, e) in
      subst (λ g. First key g (x ∷ vs)) same (First.here vs ((list_beq_iff x.public_key key).0 p))
  | inr p ↦
      First.there x vs (λ q. absurd (ground (arith, p, (list_beq_iff x.public_key key).1 q)))
        (find_validator-First vs key gv (ground (arith, p, e)))
]

any_id-All : (ids : List ℕ) (id : ℕ) → any_id ids id ≡ false → All (λ x. x ≢ id) ids
unfolding any_id
any_id-All [] id e = tt
any_id-All (x ∷ xs) id e = ((λ q. absurd (ground arith)), any_id-All xs id (ground arith))

-- The node of a genesis validator, or a fullnode under an id that no validator has.
abbrev pub IsIdentity : List GenesisValidator → List ℕ → List ℕ → NodeMode → Identity → Type 0
IsIdentity vs ids key mode i =
    ((gv : GenesisValidator) × First key gv vs
      × (i.our_vid ≡ gv.id)
      × ((i.is_fullnode ≡ true) ↔ (mode ≡ fullnode)))
    ⊎ All (λ gv. gv.public_key ≢ key) vs
      × All (λ id. id ≢ i.our_vid) ids
      × (i.our_vid ≡ u64_max)
      × (i.is_fullnode ≡ true)

fullnode_iff : (mode : NodeMode) → (runs_as_fullnode mode ≡ true) ↔ (mode ≡ fullnode)
fullnode_iff fullnode = (λ e. refl, λ e. refl)
fullnode_iff validator = (λ e. absurd cc, λ e. absurd cc)

some_injective {ℓ} : {A : Type ℓ} {a b : A} → some a ≡ some b → a ≡ b
some_injective e = cc

-- Where the start does not fail, a node whose key is in the genesis takes the id of the first
-- validator with that key and is a fullnode exactly in that mode; any other node is a fullnode
-- under an id that no validator has.
pub identify-IsIdentity :
    (vs : List GenesisValidator) (ids key : List ℕ) (mode : NodeMode) (i : Identity)
    → identify vs ids key mode ≡ some i
    → IsIdentity vs ids key mode i
unfolding identify
identify-IsIdentity vs ids key mode i e = elim (Option-cases (find_validator vs key)) [
  | inr (gv, f) ↦
      let found : identify vs ids key mode ≡ some (genesis_identity gv mode) =
        rw (f, identify) refl in
      let same = some_injective (sym e ∙ found) in
      rw same (inl (gv, find_validator-First vs key gv f, refl, fullnode_iff mode))
  | inl f ↦ elim (Bool-cases (any_id ids u64_max)) [
    | inl p ↦ absurd (ground (arith, f, p, e))
    | inr p ↦
        let missed : identify vs ids key mode ≡ some sentinel = rw (f, p, identify) refl in
        let same = some_injective (sym e ∙ missed) in
        rw same (inr (find_validator-none vs key f, any_id-All ids u64_max p, refl, refl))
  ]
]
