-- ===== src/Tests/World.antt =====
-- Concrete instances of the interfaces: a transaction format of single bytes, a store of association
-- lists, a journal that is a function from addresses to balances, and an interpreter that charges for
-- a plain transfer and raises the sender's nonce.
use Prim.Native.String.{String}
use nbnet.Prelude.{
  ℕ, ◌+◌, ◌*◌, ◌-◌, ◌≡◌, ◌≢◌, refl, true, false, Option, none, some, List, [], ◌∷◌, min, leb, ltb,
  ◌==◌, if◌then◌else◌, replicate, Result, ok, err, list_eq, nat_eq, arith,
}
use nbnet.Std.HashMap
use nbnet.Std.HashMap.{HashMap}
use nbnet.Types.Tx.{TxEnvelope}
use nbnet.State.External.{Vsdb, Revm, AccountInfo, DbAccount, default_account}
use nbnet.State.Evm.{CacheDb}
use nbnet.Precompile.External.{Host, Ledger}
use nbnet.Precompile.Provider.{HotmintPrecompiles}
use nbnet.Execution.External.{TxEnv, BlockEnv, TxKind, success, Output, Ran, Interpreter}
use nbnet.Execution.Receipts.{GasBounded}

pub record Envelope : Type 0 where
  pub sender : ℕ
  pub nonce : ℕ
  pub gas : ℕ
  pub fee : ℕ
  pub tip : ℕ
  pub to : ℕ
  pub value : ℕ
  pub input : List ℕ

abbrev decode : List ℕ → Result Envelope String
decode (s ∷ n ∷ g ∷ f ∷ p ∷ to ∷ x ∷ input) = ok (record {
  sender = s;
  nonce = n;
  gas = 1000 * g;
  fee = f;
  tip = p;
  to = to;
  value = x;
  input = input;
})
decode _ = err "short"

instance abbrev pub mini_tx : TxEnvelope Envelope
mini_tx = record {
  decode_2718 = decode;
  recover_signer = λ e. ok e.sender;
  tx_hash = λ e. 65_536 * e.fee + 256 * e.sender + e.nonce;
  tx_type = λ e. 2;
  chain_id = λ e. none;
  nonce = λ e. e.nonce;
  gas_limit = λ e. e.gas;
  max_fee_per_gas = λ e. e.fee;
  max_priority_fee_per_gas = λ e. some e.tip;
  to = λ e. some e.to;
  value = λ e. e.value;
  input = λ e. e.input;
}

pub get_nil : (V : Type 0) (k : List ℕ) → HashMap.get {V = V} [] k ≡ none
unfolding HashMap.get
get_nil V k = refl

instance abbrev pub mini_vsdb : Vsdb
mini_vsdb = record {
  Mapx = λ V. HashMap (List ℕ) V;
  new = λ V. [];
  get = λ V m k. HashMap.get m k;
  insert = λ V m k x. HashMap.insert m k x;
  get-new = λ V k. get_nil V k;
  get-insert = λ V m k j x. HashMap.get-insert m k j x;
  Trie = HashMap (List ℕ) (List ℕ);
  mpt_new = [];
  mpt_insert = λ t k x. HashMap.insert t k x;
  root_hash = λ t. (some (replicate 32 7), t);
}

instance abbrev pub mini_revm : Revm
mini_revm = record {
  Bytecode = List ℕ;
  new_raw = λ b. b;
  bytes_slice = λ b. b;
  default_bytecode = [];
  keccak_empty = 77;
  default_code = none;
}

-- A transfer checks the balance and moves the amount.
abbrev pub pay : (ℕ → ℕ) → (from to amount : ℕ) → Result (Option String) String × (ℕ → ℕ)
pay b from to amount =
    if ltb (b from) amount
    then (ok (some "out of funds"), b)
    else if from == to
    then (ok none, b)
    else (ok none, λ a. if a == from then b a - amount else if a == to then b a + amount else b a)

instance abbrev pub mini_host : Host
mini_host = record {
  Gas = ℕ;
  gas_new = λ limit. limit;
  record_cost = λ g cost. if leb cost g then (true, g - cost) else (false, g);
  Context = ℕ → ℕ;
  shared_memory_buffer_slice = λ c start end. none;
  load_account = λ c a. (ok (c a), c);
  transfer = pay;
  Eth = Unit {0};
  eth_new = λ spec. tt;
  eth_set_spec = λ p spec. (false, p);
  eth_run = λ p c inputs. (ok none, (p, c));
  eth_warm_addresses = λ p. 1 ∷ 2 ∷ [];
  eth_contains = λ p a. ltb a 3;
}

pub pay-credited :
    (b : ℕ → ℕ) (from to amount : ℕ)
    → (pay b from to amount).0 ≡ ok none
    → from ≢ to
    → (pay b from to amount).1 to ≡ b to + amount
pay-credited b from to amount e n = ground arith

pub pay-debited :
    (b : ℕ → ℕ) (from to amount : ℕ)
    → (pay b from to amount).0 ≡ ok none
    → from ≢ to
    → (pay b from to amount).1 from + amount ≡ b from
pay-debited b from to amount e n = ground arith

pub pay-other :
    (b : ℕ → ℕ) (from to amount a : ℕ) → a ≢ from → a ≢ to → (pay b from to amount).1 a ≡ b a
pay-other b from to amount a n m = ground arith

pub pay-failed :
    (b : ℕ → ℕ) (from to amount a : ℕ)
    → (pay b from to amount).0 ≢ ok none
    → (pay b from to amount).1 a ≡ b a
pay-failed b from to amount a n = ground arith

abbrev pub mini_ledger : Ledger mini_host
mini_ledger = record {
  balance = λ c a. c a;
  transfer-credited = pay-credited;
  transfer-debited = pay-debited;
  transfer-other = pay-other;
  transfer-failed = pay-failed;
  load_account-balance = λ c a b. refl;
  eth_run-balance = λ p c i a. refl;
}

-- The sender's account with the next nonce.
abbrev bump : CacheDb mini_vsdb mini_revm → ℕ → CacheDb mini_vsdb mini_revm
bump db a =
    let entry : DbAccount (List ℕ) = HashMap.or_default (default_account mini_revm) db.accounts a in
    let info : AccountInfo (List ℕ) = record (entry.info) { nonce = entry.info.nonce + 1 } in
    record db { accounts = HashMap.insert db.accounts a (record entry { info = info }) }

abbrev pub transact :
    ℕ
    → BlockEnv
    → TxEnv
    → CacheDb mini_vsdb mini_revm
    → HotmintPrecompiles mini_host
    → Ran mini_vsdb mini_revm mini_host
transact chain_id block env db pre = record {
  outcome = ok (success (min 21_000 env.gas_limit) [] (Output.call []));
  db = bump db env.caller;
  precompiles = pre;
}

abbrev blank_tx : TxEnv
blank_tx = record {
  tx_type = 0;
  caller = 0;
  gas_limit = 0;
  gas_price = 0;
  gas_priority_fee = none;
  kind = TxKind.create;
  value = 0;
  input = [];
  nonce = 0;
  chain_id = none;
}

instance abbrev pub mini_vm : Interpreter mini_vsdb mini_revm mini_host
mini_vm = record {
  cancun = 17;
  default_tx = blank_tx;
  default_block = record { number = 0; beneficiary = 0; timestamp = 1; gas_limit = 0; basefee = 0 };
  transact_commit = transact;
  transact_one = transact;
  create_address = λ sender nonce. sender * 256 + nonce;
}

pub mini_bounded : GasBounded mini_vm
mini_bounded chain_id block env db pre result e = ground (arith, e)
