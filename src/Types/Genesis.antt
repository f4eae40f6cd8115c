-- ===== src/Types/Genesis.antt =====
-- crates/types/src/genesis.rs: the genesis document. Addresses, slots and values are numbers.
use nbnet.Prelude.{ℕ, List, Result, ◌>>=◌}
use nbnet.Std.BTreeMap.{BTreeMap}
use nbnet.Std.Files.{Fault, Files}

pub record GenesisAlloc : Type 0 where
  pub balance : ℕ
  pub nonce : ℕ
  pub code : List ℕ
  pub storage : BTreeMap ℕ

pub record EvmGenesis : Type 0 where
  pub chain_id : ℕ
  pub alloc : BTreeMap GenesisAlloc
  pub gas_limit : ℕ
  pub base_fee_per_gas : ℕ
  pub coinbase : ℕ
  pub timestamp : ℕ

-- What a document without these fields has.
abbrev pub default_gas_limit : ℕ
default_gas_limit = 30_000_000

abbrev pub default_base_fee : ℕ
default_base_fee = 1_000_000_000

-- What serde_json does with a document.
pub record Serde : Type 0 where
  pub to_string_pretty : EvmGenesis → Result (List ℕ) Fault
  pub from_str : List ℕ → Result EvmGenesis Fault

-- `EvmGenesis::load`
unfoldable pub load : (f : Files) → Serde → f.World → f.FilePath → Result EvmGenesis Fault
load f s w path = do data' ← f.read_to_string w path; s.from_str data'
