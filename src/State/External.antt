-- ===== src/State/External.antt =====
-- What crates/state uses of the crates vsdb and revm: interfaces with the documented laws.
use nbnet.Prelude.{ℕ, Option, none, some, List, [], ◌≡◌, list_beq, if◌then◌else◌}
use nbnet.Std.HashMap.{HashMap}

-- `vsdb::MapxOrdRawKey`, a map from raw bytes, and `vsdb::MptCalc`, a trie that is only written to
-- and hashed. `root_hash` may rearrange the trie.
pub record Vsdb : Type 1 where
  pub Mapx : Type 0 → Type 0
  pub new : (V : Type 0) → Mapx V
  pub get : (V : Type 0) → Mapx V → List ℕ → Option V
  pub insert : (V : Type 0) → Mapx V → List ℕ → V → Mapx V
  pub get-new : (V : Type 0) (k : List ℕ) → get V (new V) k ≡ none
  pub get-insert :
      (V : Type 0) (m : Mapx V) (k j : List ℕ) (x : V)
      → get V (insert V m k x) j ≡ (if list_beq k j then some x else get V m j)
  pub Trie : Type 0
  pub mpt_new : Trie
  pub mpt_insert : Trie → List ℕ → List ℕ → Trie
  pub root_hash : Trie → Option (List ℕ) × Trie

-- The fields of revm's `AccountInfo` that the source reads; `B` is revm's `Bytecode`.
pub record AccountInfo (B : Type 0) : Type 0 where
  pub balance : ℕ
  pub nonce : ℕ
  pub code_hash : ℕ
  pub code : Option B

-- revm's `Bytecode`, the hash of the empty code, and `AccountInfo::default`.
pub record Revm : Type 1 where
  pub Bytecode : Type 0
  pub new_raw : List ℕ → Bytecode
  pub bytes_slice : Bytecode → List ℕ
  pub default_bytecode : Bytecode
  pub keccak_empty : ℕ
  pub default_code : Option Bytecode

-- revm's `AccountInfo::default`: no balance, no transactions, the hash of the empty code.
abbrev pub default_info : (r : Revm) → AccountInfo (r.Bytecode)
default_info r = record {
  balance = 0;
  nonce = 0;
  code_hash = r.keccak_empty;
  code = r.default_code;
}

-- The fields of revm's `DbAccount` that the source reads, and its default.
pub record DbAccount (B : Type 0) : Type 0 where
  pub info : AccountInfo B
  pub storage : HashMap ℕ ℕ

abbrev pub default_account : (r : Revm) → DbAccount (r.Bytecode)
default_account r = record { info = default_info r; storage = [] }
