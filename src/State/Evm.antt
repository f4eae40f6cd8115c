-- ===== src/State/Evm.antt =====
-- The second half of crates/state/src/state.rs: `EvmState`. revm's `CacheDB` is its map of cached
-- accounts over the database; a hash map is a list in the order in which it is traversed.
use nbnet.Prelude.{
  ℕ, ◌-◌, Option, none, some, List, [], ◌∷◌, ◌++◌, ltb, if◌then◌else◌, unwrap_or, length, take,
  replicate, nat_eq, min,
}
use nbnet.Std.HashMap
use nbnet.Std.HashMap.{HashMap}
use nbnet.Std.BTreeMap
use nbnet.Std.BTreeMap.{BTreeMap}
use nbnet.Types.Config.{EvmChainConfig, default_config}
use nbnet.Types.Genesis.{EvmGenesis, GenesisAlloc}
use nbnet.State.External.{Vsdb, Revm, AccountInfo, DbAccount, default_info, default_account}
use nbnet.State.Db
use nbnet.State.Db.{VsdbStateDb, address_bytes, word_bytes, number_bytes}

pub record CacheDb (v : Vsdb) (r : Revm) : Type 0 where
  pub accounts : HashMap ℕ (DbAccount (r.Bytecode))
  pub db : VsdbStateDb v

pub record EvmState (v : Vsdb) (r : Revm) : Type 0 where
  pub db : CacheDb v r
  pub state_trie : v.Trie
  pub config : EvmChainConfig
  pub block_hashes : BTreeMap ℕ

module _ {B : Type 0} where
  unfoldable pub encode_account_leaf : AccountInfo B → List ℕ
  encode_account_leaf info =
      number_bytes info.nonce ++ (word_bytes info.balance ++ word_bytes info.code_hash)

module _ ⦃v : Vsdb⦄ ⦃r : Revm⦄ where
  -- The account of an allocation: the code is set, the code hash is the default one.
  unfoldable pub genesis_info : GenesisAlloc → AccountInfo (r.Bytecode)
  genesis_info alloc = record (default_info r) {
    balance = alloc.balance;
    nonce = alloc.nonce;
    code = elim alloc.code [ [] ↦ r.default_code | b ∷ bs ↦ some (r.new_raw (b ∷ bs)) ];
  }

  unfoldable pub insert_slots : ℕ → List (ℕ × ℕ) → VsdbStateDb v → VsdbStateDb v
  insert_slots addr [] db = db
  insert_slots addr ((slot, value) ∷ slots) db =
      insert_slots addr slots (Db.insert_storage db addr slot value)

  -- The loop over the allocations.
  unfoldable pub load_alloc :
      BTreeMap GenesisAlloc → VsdbStateDb v → v.Trie → VsdbStateDb v × v.Trie
  load_alloc [] db trie = (db, trie)
  load_alloc ((addr, alloc) ∷ rest) db trie =
      let info = genesis_info alloc in
      load_alloc rest (insert_slots addr alloc.storage (Db.insert_account db addr info))
        (v.mpt_insert trie (address_bytes addr) (encode_account_leaf info))

  unfoldable pub from_genesis : EvmGenesis → EvmState v r
  from_genesis genesis =
      let (vsdb_db, state_trie) = load_alloc genesis.alloc Db.new v.mpt_new in
      record {
        db = record { accounts = []; db = vsdb_db };
        state_trie = state_trie;
        config = record default_config {
          chain_id = genesis.chain_id;
          block_gas_limit = genesis.gas_limit;
          base_fee_per_gas = genesis.base_fee_per_gas;
        };
        block_hashes = [];
      }

  -- The first 32 bytes of the root, with zeros behind a shorter one.
  unfoldable pub state_root : EvmState v r → List ℕ × EvmState v r
  state_root s =
      let (root, trie) = v.root_hash s.state_trie in
      let bytes = unwrap_or root [] in
      (take 32 bytes ++ replicate (32 - min (length bytes) 32) 0, record s { state_trie = trie })

  unfoldable pub cached : EvmState v r → ℕ → Option (DbAccount (r.Bytecode))
  cached s addr = HashMap.get s.db.accounts addr

  unfoldable pub get_balance : EvmState v r → ℕ → ℕ
  get_balance s addr = elim (cached s addr) [
    | some acc ↦ acc.info.balance
    | none ↦ Db.get_balance s.db.db addr
  ]

  unfoldable pub get_nonce : EvmState v r → ℕ → ℕ
  get_nonce s addr = elim (cached s addr) [
    | some acc ↦ acc.info.nonce
    | none ↦ Db.get_nonce s.db.db addr
  ]

  -- A cached account whose code is not loaded is looked up in the database.
  unfoldable pub get_code : EvmState v r → ℕ → List ℕ
  get_code s addr = elim (cached s addr) [
    | some acc ↦ elim acc.info.code [
      | some code ↦ r.bytes_slice code
      | none ↦ Db.get_code s.db.db addr
    ]
    | none ↦ Db.get_code s.db.db addr
  ]

  unfoldable pub get_storage : EvmState v r → ℕ → ℕ → ℕ
  get_storage s addr slot = elim (cached s addr) [
    | some acc ↦ elim (HashMap.get acc.storage slot) [
      | some val ↦ val
      | none ↦ Db.get_storage s.db.db addr slot
    ]
    | none ↦ Db.get_storage s.db.db addr slot
  ]

  -- `set_nonce` and `set_balance` start from a default account where none is cached.
  unfoldable pub set_nonce : EvmState v r → ℕ → ℕ → EvmState v r
  set_nonce s addr nonce =
      let entry = HashMap.or_default (default_account r) s.db.accounts addr in
      let info : AccountInfo (r.Bytecode) = record (entry.info) { nonce = nonce } in
      record s {
        db = record {
          accounts = HashMap.insert s.db.accounts addr (record entry { info = info });
          db = Db.set_nonce s.db.db addr nonce;
        };
        state_trie = v.mpt_insert s.state_trie (address_bytes addr) (encode_account_leaf info);
      }

  unfoldable pub set_balance : EvmState v r → ℕ → ℕ → EvmState v r
  set_balance s addr balance =
      let entry = HashMap.or_default (default_account r) s.db.accounts addr in
      let info : AccountInfo (r.Bytecode) = record (entry.info) { balance = balance } in
      record s {
        db = record {
          accounts = HashMap.insert s.db.accounts addr (record entry { info = info });
          db = Db.set_balance s.db.db addr balance;
        };
        state_trie = v.mpt_insert s.state_trie (address_bytes addr) (encode_account_leaf info);
      }

  -- Only the 256 highest numbers stay in memory.
  unfoldable pub trim_hashes : BTreeMap ℕ → BTreeMap ℕ
  trim_hashes hashes =
      if ltb 256 (length hashes)
      then elim (BTreeMap.first hashes) [
        | none ↦ hashes
        | some (oldest, hash) ↦ BTreeMap.remove hashes oldest
      ]
      else hashes

  unfoldable pub record_block_hash : EvmState v r → ℕ → ℕ → EvmState v r
  record_block_hash s number hash = record s {
    block_hashes = trim_hashes (BTreeMap.insert s.block_hashes number hash);
    db = record (s.db) { db = Db.insert_block_hash s.db.db number hash };
  }

  -- The loop over the cached accounts.
  unfoldable pub flush_accounts :
      HashMap ℕ (DbAccount (r.Bytecode)) → VsdbStateDb v → v.Trie → VsdbStateDb v × v.Trie
  flush_accounts [] db trie = (db, trie)
  flush_accounts ((addr, acc) ∷ rest) db trie =
      flush_accounts rest (insert_slots addr acc.storage (Db.insert_account db addr acc.info))
        (v.mpt_insert trie (address_bytes addr) (encode_account_leaf acc.info))

  unfoldable pub flush_cache_to_vsdb : EvmState v r → EvmState v r
  flush_cache_to_vsdb s =
      let (db, trie) = flush_accounts s.db.accounts s.db.db s.state_trie in
      record s { db = record (s.db) { db = db }; state_trie = trie }
