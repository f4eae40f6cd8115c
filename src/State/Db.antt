-- ===== src/State/Db.antt =====
-- The first half of crates/state/src/state.rs: stored accounts, `VsdbStateDb` and its `Database`.
-- An address is a number below 256 ^ 20, a hash or word one below 256 ^ 32; keys are their bytes.
use Prim.Native.String.{String}
use nbnet.Prelude.{
  ℕ, Option, none, some, List, [], ◌++◌, not, ◌==◌, if◌then◌else◌, unwrap_or, map_option, Result,
  ok,
}
use nbnet.Std.Bytes.{to_be_bytes, from_be_bytes}
use nbnet.State.External.{Vsdb, Revm, AccountInfo, default_info}

pub record StoredAccount : Type 0 where
  pub balance_be : List ℕ
  pub nonce : ℕ
  pub code_hash : List ℕ

pub data VsdbError : Type 0 where
  vsdb_error : String → VsdbError

pub record VsdbStateDb (v : Vsdb) : Type 0 where
  pub accounts : v.Mapx StoredAccount
  pub contracts : v.Mapx (List ℕ)
  pub storage : v.Mapx (List ℕ)
  pub block_hashes : v.Mapx (List ℕ)

-- `as_slice` of an address and of a hash, `to_be_bytes` of a word and of a block number.
abbrev pub address_bytes : ℕ → List ℕ
address_bytes = to_be_bytes 20

abbrev pub word_bytes : ℕ → List ℕ
word_bytes = to_be_bytes 32

abbrev pub number_bytes : ℕ → List ℕ
number_bytes = to_be_bytes 8

unfoldable pub storage_key : ℕ → ℕ → List ℕ
storage_key addr slot = address_bytes addr ++ word_bytes slot

module _ ⦃r : Revm⦄ where
  unfoldable pub from_info : AccountInfo (r.Bytecode) → StoredAccount
  from_info info = record {
    balance_be = word_bytes info.balance;
    nonce = info.nonce;
    code_hash = word_bytes info.code_hash;
  }

  unfoldable pub to_info : StoredAccount → AccountInfo (r.Bytecode)
  to_info s = record (default_info r) {
    balance = from_be_bytes s.balance_be;
    nonce = s.nonce;
    code_hash = from_be_bytes s.code_hash;
  }

  -- The account that `set_balance` and `set_nonce` start from where none is stored.
  abbrev pub blank_account : StoredAccount
  blank_account = record {
    balance_be = word_bytes 0;
    nonce = 0;
    code_hash = word_bytes r.keccak_empty;
  }

module _ ⦃v : Vsdb⦄ where
  unfoldable pub new : VsdbStateDb v
  new = record {
    accounts = v.new StoredAccount;
    contracts = v.new (List ℕ);
    storage = v.new (List ℕ);
    block_hashes = v.new (List ℕ);
  }

  unfoldable pub insert_storage : VsdbStateDb v → ℕ → ℕ → ℕ → VsdbStateDb v
  insert_storage db addr slot value = record db {
    storage = v.insert (List ℕ) db.storage (storage_key addr slot) (word_bytes value);
  }

  unfoldable pub insert_block_hash : VsdbStateDb v → ℕ → ℕ → VsdbStateDb v
  insert_block_hash db number hash = record db {
    block_hashes = v.insert (List ℕ) db.block_hashes (number_bytes number) (word_bytes hash);
  }

  unfoldable pub stored : VsdbStateDb v → ℕ → Option StoredAccount
  stored db addr = v.get StoredAccount db.accounts (address_bytes addr)

  unfoldable pub get_balance : VsdbStateDb v → ℕ → ℕ
  get_balance db addr = unwrap_or (map_option (λ s. from_be_bytes s.balance_be) (stored db addr)) 0

  unfoldable pub get_nonce : VsdbStateDb v → ℕ → ℕ
  get_nonce db addr = unwrap_or (map_option (λ s. s.nonce) (stored db addr)) 0

  unfoldable pub get_storage : VsdbStateDb v → ℕ → ℕ → ℕ
  get_storage db addr slot = elim (v.get (List ℕ) db.storage (storage_key addr slot)) [
    | some be_bytes ↦ from_be_bytes be_bytes
    | none ↦ 0
  ]

  -- `Database::storage`, `Database::block_hash` and their `DatabaseRef` twins never fail.
  unfoldable pub storage : VsdbStateDb v → ℕ → ℕ → Result ℕ VsdbError
  storage db address index = elim (v.get (List ℕ) db.storage (storage_key address index)) [
    | some be_bytes ↦ ok (from_be_bytes be_bytes)
    | none ↦ ok 0
  ]

  unfoldable pub storage_ref : VsdbStateDb v → ℕ → ℕ → Result ℕ VsdbError
  storage_ref db address index = elim (v.get (List ℕ) db.storage (storage_key address index)) [
    | some be_bytes ↦ ok (from_be_bytes be_bytes)
    | none ↦ ok 0
  ]

  unfoldable pub block_hash : VsdbStateDb v → ℕ → Result ℕ VsdbError
  block_hash db number = elim (v.get (List ℕ) db.block_hashes (number_bytes number)) [
    | some h ↦ ok (from_be_bytes h)
    | none ↦ ok 0
  ]

  unfoldable pub block_hash_ref : VsdbStateDb v → ℕ → Result ℕ VsdbError
  block_hash_ref db number = elim (v.get (List ℕ) db.block_hashes (number_bytes number)) [
    | some h ↦ ok (from_be_bytes h)
    | none ↦ ok 0
  ]

module _ ⦃v : Vsdb⦄ ⦃r : Revm⦄ where
  -- The code goes to `contracts` only if there is some.
  abbrev pub insert_code : VsdbStateDb v → ℕ → List ℕ → VsdbStateDb v
  insert_code db code_hash [] = db
  insert_code db code_hash bytes = record db {
    contracts = v.insert (List ℕ) db.contracts (word_bytes code_hash) bytes;
  }

  unfoldable pub insert_account : VsdbStateDb v → ℕ → AccountInfo (r.Bytecode) → VsdbStateDb v
  insert_account db addr info =
      let db' : VsdbStateDb v = record db {
        accounts = v.insert StoredAccount db.accounts (address_bytes addr) (from_info info);
      } in
      elim info.code [
        | none ↦ db'
        | some code ↦ insert_code db' info.code_hash (r.bytes_slice code)
      ]

  unfoldable pub get_account : VsdbStateDb v → ℕ → Option (AccountInfo (r.Bytecode))
  get_account db addr = map_option to_info (stored db addr)

  -- The bytes that `contracts` holds for a hash other than that of the empty code.
  unfoldable pub code_bytes : VsdbStateDb v → ℕ → Option (List ℕ)
  code_bytes db code_hash =
      if not (code_hash == r.keccak_empty)
      then v.get (List ℕ) db.contracts (word_bytes code_hash)
      else none

  unfoldable pub get_code : VsdbStateDb v → ℕ → List ℕ
  get_code db addr = elim (stored db addr) [
    | some s ↦ unwrap_or (code_bytes db (from_be_bytes s.code_hash)) []
    | none ↦ []
  ]

  unfoldable pub set_balance : VsdbStateDb v → ℕ → ℕ → VsdbStateDb v
  set_balance db addr balance =
      let s : StoredAccount = record (unwrap_or (stored db addr) blank_account) {
        balance_be = word_bytes balance;
      } in
      record db { accounts = v.insert StoredAccount db.accounts (address_bytes addr) s }

  unfoldable pub set_nonce : VsdbStateDb v → ℕ → ℕ → VsdbStateDb v
  set_nonce db addr nonce =
      let s : StoredAccount = record (unwrap_or (stored db addr) blank_account) { nonce = nonce } in
      record db { accounts = v.insert StoredAccount db.accounts (address_bytes addr) s }

  -- The account with its code, where that is stored.
  unfoldable pub with_code : VsdbStateDb v → AccountInfo (r.Bytecode) → AccountInfo (r.Bytecode)
  with_code db info = elim (code_bytes db info.code_hash) [
    | some bytes ↦ record info { code = some (r.new_raw bytes) }
    | none ↦ info
  ]

  -- `Database::basic` and `DatabaseRef::basic_ref`.
  unfoldable pub basic : VsdbStateDb v → ℕ → Result (Option (AccountInfo (r.Bytecode))) VsdbError
  basic db address = ok (map_option (λ s. with_code db (to_info s)) (stored db address))

  unfoldable pub basic_ref :
      VsdbStateDb v → ℕ → Result (Option (AccountInfo (r.Bytecode))) VsdbError
  basic_ref db address = ok (map_option (λ s. with_code db (to_info s)) (stored db address))

  unfoldable pub code_by_hash : VsdbStateDb v → ℕ → Result (r.Bytecode) VsdbError
  code_by_hash db code_hash = elim (v.get (List ℕ) db.contracts (word_bytes code_hash)) [
    | some bytes ↦ ok (r.new_raw bytes)
    | none ↦ ok r.default_bytecode
  ]

  unfoldable pub code_by_hash_ref : VsdbStateDb v → ℕ → Result (r.Bytecode) VsdbError
  code_by_hash_ref db code_hash = elim (v.get (List ℕ) db.contracts (word_bytes code_hash)) [
    | some bytes ↦ ok (r.new_raw bytes)
    | none ↦ ok r.default_bytecode
  ]
