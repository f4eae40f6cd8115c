-- ===== src/Node/Validator.antt =====
-- `run_node` of crates/node/src/main.rs: which validator the node is. The genesis document, the
-- validator set and the mode belong to the consensus crates.
use nbnet.Prelude.{
  ℕ, Bool, true, false, Option, none, some, List, [], ◌∷◌, ◌==◌, ◌||◌, if◌then◌else◌, list_beq,
}
use nbnet.Std.Words.{u64_max}

pub record GenesisValidator : Type 0 where
  pub id : ℕ
  pub public_key : List ℕ

pub data NodeMode : Type 0 where
  validator fullnode : NodeMode

-- `genesis.validators.iter().find(|v| &v.public_key == our_pk_hex)`
unfoldable pub find_validator : List GenesisValidator → List ℕ → Option GenesisValidator
find_validator [] key = none
find_validator (gv ∷ rest) key =
    let others = find_validator rest key in if list_beq gv.public_key key then some gv else others

-- `any(|v| v.id == sentinel)` of the ids of the validator set.
unfoldable pub any_id : List ℕ → ℕ → Bool
any_id [] id = false
any_id (x ∷ xs) id = x == id || any_id xs id

pub record Identity : Type 0 where
  pub our_vid : ℕ
  pub is_fullnode : Bool

abbrev pub runs_as_fullnode : NodeMode → Bool
runs_as_fullnode fullnode = true
runs_as_fullnode validator = false

-- Of a node whose key is in the genesis, and of one whose key is not.
abbrev pub genesis_identity : GenesisValidator → NodeMode → Identity
genesis_identity gv mode = record { our_vid = gv.id; is_fullnode = runs_as_fullnode mode }

abbrev pub sentinel : Identity
sentinel = record { our_vid = u64_max; is_fullnode = true }

-- None where the assertion fails: the sentinel of a fullnode is a validator's id.
unfoldable pub identify :
    List GenesisValidator
    → (validator_ids : List ℕ) → (our_pk_hex : List ℕ) → NodeMode
    → Option Identity
identify validators validator_ids our_pk_hex mode = elim (find_validator validators our_pk_hex) [
  | some gv ↦ some (genesis_identity gv mode)
  | none ↦ if any_id validator_ids u64_max then none else some sentinel
]
