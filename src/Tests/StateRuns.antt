-- ===== src/Tests/StateRuns.antt =====
-- Runs of crates/state/src/state.rs at concrete inputs.
use nbnet.Prelude.{
  ℕ, ◌≡◌, refl, some, none, List, [], ◌∷◌, arith, ok, unwrap_or, map_option, is_some, if◌then◌else◌,
  nat_eq, list_beq, list_eq,
}
use nbnet.Std.Bytes.{to_be_bytes, from_be_bytes}
use nbnet.Std.HashMap
use nbnet.Std.BTreeMap
use nbnet.Std.BTreeMap.{BTreeMap, Keys}
use nbnet.Types.Config.{default_config}
use nbnet.Types.Genesis.{EvmGenesis}
use nbnet.State.External.{AccountInfo}
use nbnet.State.Db
use nbnet.State.Db.{VsdbStateDb, from_info, to_info, storage_key, code_bytes}
use nbnet.State.Accounts.{address_mod, InRange}
use nbnet.State.Evm
use nbnet.State.Evm.{
  EvmState, from_genesis, flush_cache_to_vsdb, encode_account_leaf, cached, record_block_hash,
  set_nonce,
}
use nbnet.State.Persist.{CacheFits, Distinct, SameReadings, flush-persists}
use nbnet.State.Alloc.{GenesisFits, from_genesis_readings, get_code-from_genesis}
use nbnet.State.Cache.{set_nonce_readings}
use nbnet.Tests.World.{mini_vsdb, mini_revm}

-- Account 1 has a balance, and account 5 code and a slot.
abbrev pub genesis : EvmGenesis
genesis = record {
  chain_id = 1337;
  alloc =
      (1, record { balance = 1000; nonce = 3; code = []; storage = [] })
      ∷ (5, record { balance = 0; nonce = 1; code = 96 ∷ 0 ∷ []; storage = (4, 44) ∷ [] })
      ∷ [];
  gas_limit = 30_000_000;
  base_fee_per_gas = 100;
  coinbase = 0;
  timestamp = 0;
}

sorted : Keys 0 address_mod genesis.alloc
sorted = (omega arith, omega arith, (omega arith, omega arith, tt))

fits : GenesisFits genesis.alloc
fits = (
  record { balance_fits = omega arith; slots_keys = tt; values_fit = tt },
  (
    record {
      balance_fits = omega arith;
      slots_keys = (omega arith, omega arith, tt);
      values_fit = (omega arith, tt);
    },
    tt,
  ),
)

from_genesis_readings_example :
    (Evm.get_balance (from_genesis genesis) 5
      ≡ unwrap_or (map_option (λ al. al.balance) (BTreeMap.get genesis.alloc 5)) 0)
    × (Evm.get_nonce (from_genesis genesis) 5
        ≡ unwrap_or (map_option (λ al. al.nonce) (BTreeMap.get genesis.alloc 5)) 0)
    × (Evm.get_storage (from_genesis genesis) 5 4
        ≡ unwrap_or
            (elim (BTreeMap.get genesis.alloc 5) [
              | none ↦ none
              | some al ↦ BTreeMap.get al.storage 4
            ])
            0)
from_genesis_readings_example =
    from_genesis_readings genesis sorted fits 5 4 (omega arith) (omega arith)

get_code-from_genesis_example : Evm.get_code (from_genesis genesis) 5 ≡ []
get_code-from_genesis_example = get_code-from_genesis genesis sorted (omega arith) 5 (omega arith)

abbrev info : AccountInfo (List ℕ)
info = record { balance = 700; nonce = 4; code_hash = 77; code = none }

info_fits : InRange info
info_fits = record { balance_fits = omega arith; hash_fits = omega arith }

-- Account 1 is cached with a slot; nothing is stored.
abbrev pub warm : EvmState mini_vsdb mini_revm
warm = record {
  db = record {
    accounts = (1, record { info = info; storage = (2, 22) ∷ [] }) ∷ [];
    db = record { accounts = []; contracts = []; storage = []; block_hashes = [] };
  };
  state_trie = [];
  config = record default_config { base_fee_per_gas = 100 };
  block_hashes = (7, 70) ∷ [];
}

pub warm-CacheFits : CacheFits warm.db.accounts
unfolding HashMap.get
warm-CacheFits = (
  (
    omega arith,
    record {
      info_fits = info_fits;
      slots_fit = ((omega arith, omega arith), tt);
      slots_distinct = (refl, tt);
    },
  ),
  tt,
)

warm-Distinct : Distinct warm.db.accounts
unfolding HashMap.get
warm-Distinct = (refl, tt)

flush-persists_example : SameReadings warm (flush_cache_to_vsdb warm).db.db 1 2
flush-persists_example =
    flush-persists warm 1 2 (omega arith) (omega arith) warm-CacheFits warm-Distinct

-- The account of `info` in an otherwise empty database.
abbrev stocked : VsdbStateDb mini_vsdb
stocked = Db.insert_account warm.db.db 1 info

stocked-basic : Db.basic stocked 1 ≡ ok (some info)
unfolding Db.basic Db.with_code Db.stored Db.insert_account from_info to_info HashMap.get
    HashMap.insert to_be_bytes from_be_bytes list_beq Db.code_bytes
stocked-basic = refl

set_nonce_readings_example :
    (Evm.get_nonce (set_nonce warm 9 6) 9 ≡ 6)
    × (Evm.get_balance (set_nonce warm 9 6) 9
        ≡ (if is_some (cached warm 9) then Evm.get_balance warm 9 else 0))
set_nonce_readings_example = set_nonce_readings warm 9 6
