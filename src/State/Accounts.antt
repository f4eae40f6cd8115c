-- ===== src/State/Accounts.antt =====
-- `VsdbStateDb` of crates/state/src/state.rs as a map: what a read gives after a write.
use nbnet.Prelude.{
  ℕ, ◌<◌, ◌^◌, ◌≡◌, refl, ap, subst, ◌∙◌, some, List, [], ◌∷◌, ◌++◌, arith, inl, inr, false,
  Bool-cases, ◌==◌, ==_iff, if◌then◌else◌, list_beq, list_beq_iff, ok, Option-cases, unwrap_or,
  list_beq_ne,
}
use nbnet.Std.Bytes.{to_be_bytes, from_be-to_be, length-to_be, to_be_injective, append_injective}
use nbnet.State.External.{Vsdb, Revm, AccountInfo}
use nbnet.State.Db.{
  StoredAccount, VsdbStateDb, address_bytes, word_bytes, storage_key, from_info, to_info,
  insert_account, insert_storage, stored, get_balance, get_nonce, get_storage, set_balance,
  get_account, basic, basic_ref, storage, storage_ref, with_code, insert_code, blank_account,
}

-- The range of addresses and of words.
abbrev pub address_mod : ℕ
address_mod = 256 ^ 20

abbrev pub word_mod : ℕ
word_mod = 256 ^ 32

-- Equality of the bytes of two numbers in range is equality of the numbers.
pub to_be_test :
    (n x y : ℕ)
    → x < 256 ^ n
    → y < 256 ^ n
    → list_beq (to_be_bytes n x) (to_be_bytes n y) ≡ (x == y)
to_be_test n x y hx hy = elim (Bool-cases (x == y)) [
  | inl same ↦ rw same ((list_beq_iff _ _).1 (ap (to_be_bytes n) ((==_iff x y).0 same)))
  | inr other ↦ rw other (list_beq_ne _ _ (λ e. different other (to_be_injective n x y hx hy e)))
]
  where
    different : (x == y) ≡ false → x ≡ y → ⊥
    different n e = ground arith

-- The composite key determines the address and the slot, where both are in range.
pub storage_key_test :
    (a b s t : ℕ)
    → a < address_mod
    → b < address_mod
    → s < word_mod
    → t < word_mod
    → list_beq (storage_key a s) (storage_key b t) ≡ (if a == b then s == t else false)
unfolding storage_key
storage_key_test a b s t ha hb hs ht = elim (Bool-cases (a == b)) [
  | inl same ↦ elim (Bool-cases (s == t)) [
    | inl slot ↦
        rw (same, slot) ((list_beq_iff _ _).1 (equal ((==_iff a b).0 same) ((==_iff s t).0 slot)))
    | inr slot ↦
        rw (same, slot)
          (list_beq_ne _ _ (λ e. clash s t slot (to_be_injective 32 s t hs ht (parts e).1)))
  ]
  | inr other ↦
      rw other (list_beq_ne _ _ (λ e. clash a b other (to_be_injective 20 a b ha hb (parts e).0)))
]
  where
    equal : a ≡ b → s ≡ t → address_bytes a ++ word_bytes s ≡ address_bytes b ++ word_bytes t
    equal p q = rw (p, q)

    clash : (x y : ℕ) → (x == y) ≡ false → x ≡ y → ⊥
    clash x y n e = ground arith

    parts :
        address_bytes a ++ word_bytes s ≡ address_bytes b ++ word_bytes t
        → (address_bytes a ≡ address_bytes b) × (word_bytes s ≡ word_bytes t)
    parts = append_injective 20 _ _ _ _ (length-to_be 20 a) (length-to_be 20 b)

module _ ⦃v : Vsdb⦄ (db : VsdbStateDb v) (a b : ℕ) (ha : a < address_mod)
    (hb : b < address_mod) where
  -- A slot reads back the value that was last written to it, and every other slot what it held.
  pub get_storage-insert_storage :
      (s t value : ℕ)
      → s < word_mod
      → t < word_mod
      → value < word_mod
      → get_storage (insert_storage db a s value) b t
        ≡ (if (if a == b then s == t else false) then value else get_storage db b t)
  unfolding get_storage insert_storage
  get_storage-insert_storage s t value hs ht hv =
      let key = storage_key_test a b s t ha hb hs ht in
      let law =
        v.get-insert (List ℕ) db.storage (storage_key a s) (storage_key b t) (word_bytes value) in
      elim (Bool-cases (if a == b then s == t else false)) [
        | inl same ↦ rw (law, key, same, get_storage) (from_be-to_be 32 value hv)
        | inr other ↦ rw (law, key, other, get_storage)
      ]

module _ ⦃v : Vsdb⦄ where
  -- The accounts after one is written.
  abbrev pub with_stored : VsdbStateDb v → ℕ → StoredAccount → VsdbStateDb v
  with_stored db a s = record db {
    accounts = v.insert StoredAccount db.accounts (address_bytes a) s;
  }

  pub stored-with_stored :
      (db : VsdbStateDb v) (a b : ℕ) (s : StoredAccount)
      → a < address_mod
      → b < address_mod
      → stored (with_stored db a s) b ≡ (if a == b then some s else stored db b)
  unfolding stored
  stored-with_stored db a b s ha hb =
      v.get-insert StoredAccount db.accounts (address_bytes a) (address_bytes b) s
      ∙ ap (λ x. if x then some s else stored db b) (to_be_test 20 a b ha hb)

module _ ⦃v : Vsdb⦄ ⦃r : Revm⦄ where
  -- The range of what an account holds.
  pub record InRange (info : AccountInfo (r.Bytecode)) : Type 0 where
    pub balance_fits : info.balance < word_mod
    pub hash_fits : info.code_hash < word_mod

  -- Storing an account and reading it gives its balance, nonce and code hash; the code is left out.
  pub to_info-from_info :
      (info : AccountInfo (r.Bytecode))
      → InRange info
      → to_info (from_info info) ≡ record info { code = r.default_code }
  unfolding to_info from_info
  to_info-from_info info f =
      rw (from_be-to_be 32 info.balance f.balance_fits, from_be-to_be 32 info.code_hash f.hash_fits)

  pub accounts-insert_account :
      (db : VsdbStateDb v) (a : ℕ) (info : AccountInfo (r.Bytecode))
      → (insert_account db a info).accounts ≡ (with_stored db a (from_info info)).accounts
  unfolding insert_account from_info
  accounts-insert_account db a info = elim (Option-cases info.code) [
    | inl e ↦ rw (e, insert_account)
    | inr (c, e) ↦ rw (e, insert_account) (same _ (r.bytes_slice c))
  ]
    where
      same :
          (db' : VsdbStateDb v) (bytes : List ℕ)
          → (insert_code db' info.code_hash bytes).accounts ≡ db'.accounts
      same db' [] = refl
      same db' (b ∷ bs) = refl

  pub storage-insert_account :
      (db : VsdbStateDb v) (a : ℕ) (info : AccountInfo (r.Bytecode))
      → (insert_account db a info).storage ≡ db.storage
  unfolding insert_account
  storage-insert_account db a info = elim (Option-cases info.code) [
    | inl e ↦ rw (e, insert_account)
    | inr (c, e) ↦ rw (e, insert_account) (same _ (r.bytes_slice c))
  ]
    where
      same :
          (db' : VsdbStateDb v) (bytes : List ℕ)
          → (insert_code db' info.code_hash bytes).storage ≡ db'.storage
      same db' [] = refl
      same db' (b ∷ bs) = refl

  pub stored-insert_account :
      (db : VsdbStateDb v) (a b : ℕ) (info : AccountInfo (r.Bytecode))
      → a < address_mod
      → b < address_mod
      → stored (insert_account db a info) b
        ≡ (if a == b then some (from_info info) else stored db b)
  unfolding stored
  stored-insert_account db a b info ha hb =
      ap (λ m. v.get StoredAccount m (address_bytes b)) (accounts-insert_account db a info)
      ∙ stored-with_stored db a b (from_info info) ha hb

  -- An account that is inserted is read back whole but for its code, and no other account changes;
  -- the addresses and numbers are in range.
  pub get_account-insert_account :
      (db : VsdbStateDb v) (a b : ℕ) (info : AccountInfo (r.Bytecode))
      → a < address_mod
      → b < address_mod
      → InRange info
      → get_account (insert_account db a info) b
        ≡ (if a == b then some (record info { code = r.default_code }) else get_account db b)
  unfolding get_account
  get_account-insert_account db a b info ha hb f = elim (Bool-cases (a == b)) [
    | inl same ↦
        rw (stored-insert_account db a b info ha hb, same, get_account)
          (ap some (to_info-from_info info f))
    | inr other ↦ rw (stored-insert_account db a b info ha hb, other, get_account)
  ]

  -- Setting a balance changes the balance of that account and nothing else: no nonce, and no other
  -- account's balance. Addresses and the amount are in range.
  pub set_balance_lem :
      (db : VsdbStateDb v) (a b amount : ℕ)
      → a < address_mod
      → b < address_mod
      → amount < word_mod
      → (get_balance (set_balance db a amount) b ≡ (if a == b then amount else get_balance db b))
        × (get_nonce (set_balance db a amount) b ≡ get_nonce db b)
  unfolding set_balance get_balance get_nonce
  set_balance_lem db a b amount ha hb h =
      let s : StoredAccount = record (unwrap_or (stored db a) blank_account) {
        balance_be = word_bytes amount;
      } in
      let law = stored-with_stored db a b s ha hb in
      elim (Bool-cases (a == b)) [
        | inl same ↦ (
          rw (law, same, get_balance) (from_be-to_be 32 amount h),
          rw (law, same, get_nonce)
              (subst (λ x. (unwrap_or (stored db a) blank_account).nonce ≡ get_nonce db x)
                ((==_iff a b).0 same) (nonce_of db a)),
        )
        | inr other ↦ (rw (law, other, get_balance), rw (law, other, get_nonce))
      ]
    where
      nonce_of :
          (db : VsdbStateDb v) (a : ℕ)
          → (unwrap_or (stored db a) blank_account).nonce ≡ get_nonce db a
      nonce_of db a = elim (Option-cases (stored db a)) [
        | inl e ↦ rw (e, get_nonce)
        | inr (s, e) ↦ rw (e, get_nonce)
      ]

  -- The `Database` and `DatabaseRef` traits answer alike, and a stored account has the balance and
  -- nonce that the direct getters give.
  pub basic_agrees :
      (db : VsdbStateDb v) (a slot : ℕ) (info : AccountInfo (r.Bytecode))
      → basic db a ≡ ok (some info)
      → (basic_ref db a ≡ ok (some info))
        × (info.balance ≡ get_balance db a)
        × (info.nonce ≡ get_nonce db a)
        × (storage db a slot ≡ ok (get_storage db a slot))
        × (storage_ref db a slot ≡ storage db a slot)
  unfolding basic basic_ref get_balance get_nonce storage storage_ref get_storage with_code to_info
  basic_agrees db a slot info e = ground arith
