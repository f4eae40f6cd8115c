-- ===== src/State/Alloc.antt =====
-- `EvmState::from_genesis` of crates/state/src/state.rs: what the initial state reads.
use nbnet.Prelude.{
  ℕ, suc, ◌<◌, ◌≡◌, refl, ◌∙◌, none, some, [], ◌∷◌, arith, inl, inr, ==_iff, Option-cases,
  unwrap_or, map_option, nat_eq, All,
}
use nbnet.Std.Bytes.{from_be-to_be}
use nbnet.Std.HashMap
use nbnet.Std.BTreeMap
use nbnet.Std.BTreeMap.{BTreeMap, Keys, get_below}
use nbnet.Types.Genesis.{GenesisAlloc, EvmGenesis}
use nbnet.State.External.{Vsdb, Revm}
use nbnet.State.Db
use nbnet.State.Db.{VsdbStateDb, from_info, stored, insert_account, code_bytes}
use nbnet.State.Accounts.{address_mod, word_mod, stored-insert_account}
use nbnet.State.Persist.{
  Distinct, SlotsFit, stored-insert_slots, get_storage-insert_slots, get_storage-insert_account,
}
use nbnet.State.Evm.{
  genesis_info, load_alloc, insert_slots, from_genesis, get_balance, get_nonce, get_code,
  get_storage, cached,
}

-- What the type of an allocation guarantees.
pub record AllocFits (alloc : GenesisAlloc) : Type 0 where
  pub balance_fits : alloc.balance < word_mod
  pub slots_keys : Keys 0 word_mod alloc.storage
  pub values_fit : All (λ e. e.1 < word_mod) alloc.storage

abbrev pub GenesisFits : BTreeMap GenesisAlloc → Type 0
GenesisFits = All (λ e. AllocFits e.1)

hash_get-eq-btree_get : (m : BTreeMap ℕ) (k : ℕ) → HashMap.get m k ≡ BTreeMap.get m k
unfolding HashMap.get BTreeMap.get
hash_get-eq-btree_get [] k = refl
hash_get-eq-btree_get ((j, x) ∷ m) k = ground (arith, hash_get-eq-btree_get m k)

Keys-Distinct : (lo hi : ℕ) (m : BTreeMap ℕ) → Keys lo hi m → Distinct m
Keys-Distinct lo hi [] s = tt
Keys-Distinct lo hi ((k, x) ∷ m) s = (
  hash_get-eq-btree_get m k ∙ get_below (suc k) hi m k s.2 (omega arith),
  Keys-Distinct (suc k) hi m s.2,
)

Keys-SlotsFit :
    (lo : ℕ) (m : BTreeMap ℕ) → Keys lo word_mod m → All (λ e. e.1 < word_mod) m → SlotsFit m
Keys-SlotsFit lo [] s a = tt
Keys-SlotsFit lo ((k, x) ∷ m) s a = ((s.1, a.0), Keys-SlotsFit (suc k) m s.2 a.1)

module _ ⦃v : Vsdb⦄ ⦃r : Revm⦄ where
  stored-load_alloc :
      (lo : ℕ) (m : BTreeMap GenesisAlloc) (db : VsdbStateDb v) (trie : v.Trie) (b : ℕ)
      → b < address_mod
      → Keys lo address_mod m
      → stored (load_alloc m db trie).0 b
        ≡ unwrap_or
            (map_option (λ al. some (from_info (genesis_info al))) (BTreeMap.get m b))
            (stored db b)
  unfolding load_alloc BTreeMap.get
  stored-load_alloc lo [] db trie b hb s = refl
  stored-load_alloc lo ((a, al) ∷ m) db trie b hb s =
      let db' = insert_account db a (genesis_info al) in
      stored-load_alloc (suc a) m (insert_slots a al.storage db') _ b hb s.2
      ∙ ground (
        arith,
        stored-insert_slots a al.storage db' b,
        stored-insert_account db a b (genesis_info al) s.1 hb,
        get_below (suc a) address_mod m a s.2,
        ==_iff a b,
      )

  get_storage-load_alloc :
      (lo : ℕ) (m : BTreeMap GenesisAlloc) (db : VsdbStateDb v) (trie : v.Trie) (b t : ℕ)
      → b < address_mod
      → t < word_mod
      → Keys lo address_mod m
      → GenesisFits m
      → Db.get_storage (load_alloc m db trie).0 b t
        ≡ unwrap_or
            (elim (BTreeMap.get m b) [ none ↦ none | some al ↦ BTreeMap.get al.storage t ])
            (Db.get_storage db b t)
  unfolding load_alloc BTreeMap.get
  get_storage-load_alloc lo [] db trie b t hb ht s f = refl
  get_storage-load_alloc lo ((a, al) ∷ m) db trie b t hb ht s f =
      let db' = insert_account db a (genesis_info al) in
      get_storage-load_alloc (suc a) m (insert_slots a al.storage db') _ b t hb ht s.2 f.1
      ∙ ground (
        arith,
        get_storage-insert_slots a b t al.storage db' s.1 hb ht
            (Keys-SlotsFit 0 al.storage f.0.slots_keys f.0.values_fit)
            (Keys-Distinct 0 word_mod al.storage f.0.slots_keys),
        get_storage-insert_account db a (genesis_info al) b t,
        hash_get-eq-btree_get al.storage t,
        get_below (suc a) address_mod m a s.2,
        ==_iff a b,
      )

  get-GenesisFits :
      (m : BTreeMap GenesisAlloc) (b : ℕ) (al : GenesisAlloc)
      → GenesisFits m
      → BTreeMap.get m b ≡ some al
      → al.balance < word_mod
  unfolding BTreeMap.get
  get-GenesisFits [] b al f e = absurd (none≢some e)
    where
      none≢some : none ≡ some al → ⊥
      none≢some p = cc
  get-GenesisFits ((a, x) ∷ m) b al f e =
      let here = f.0.balance_fits in ground (arith, get-GenesisFits m b al f.1)

  stored-new : (b : ℕ) → stored (Db.new ⦃v = v⦄) b ≡ none
  unfolding stored Db.new
  stored-new b = v.get-new _ _

  get_storage-new : (b t : ℕ) → Db.get_storage (Db.new ⦃v = v⦄) b t ≡ 0
  unfolding Db.get_storage Db.new
  get_storage-new b t = rw (v.get-new, Db.get_storage)

  module _ (g : EvmGenesis) (sorted : Keys 0 address_mod g.alloc) where
    start-stored :
        (b : ℕ)
        → b < address_mod
        → stored (from_genesis g).db.db b
          ≡ map_option (λ al. from_info (genesis_info al)) (BTreeMap.get g.alloc b)
    unfolding from_genesis
    start-stored b hb =
        ground (arith, stored-load_alloc 0 g.alloc Db.new v.mpt_new b hb sorted, stored-new b)

    -- The initial state gives each allocated account its balance, nonce and storage, and every
    -- other account and slot zero. The allocations are in the order of their addresses, and their
    -- numbers in range.
    pub from_genesis_readings :
        GenesisFits g.alloc
        → (b t : ℕ) → b < address_mod
        → t < word_mod
        → (get_balance (from_genesis g) b
            ≡ unwrap_or (map_option (λ al. al.balance) (BTreeMap.get g.alloc b)) 0)
          × (get_nonce (from_genesis g) b
              ≡ unwrap_or (map_option (λ al. al.nonce) (BTreeMap.get g.alloc b)) 0)
          × (get_storage (from_genesis g) b t
              ≡ unwrap_or
                  (elim (BTreeMap.get g.alloc b) [
                    | none ↦ none
                    | some al ↦ BTreeMap.get al.storage t
                  ])
                  0)
    unfolding from_genesis get_balance get_nonce get_storage cached HashMap.get Db.get_balance
        Db.get_nonce from_info genesis_info
    from_genesis_readings f b t hb ht =
        let account = start-stored b hb in
        let slot = get_storage-load_alloc 0 g.alloc Db.new v.mpt_new b t hb ht sorted f in
        elim (Option-cases (BTreeMap.get g.alloc b)) [
          | inl e ↦ (
            ground (arith, account),
            ground (arith, account),
            ground (arith, slot, get_storage-new b t),
          )
          | inr (al, e) ↦ (
            ground (arith, account, from_be-to_be 32 al.balance (get-GenesisFits g.alloc b al f e)),
            ground (arith, account),
            ground (arith, slot, get_storage-new b t),
          )
        ]

    -- No account of the initial state has code that can be read, whatever code the genesis document
    -- gives it: the code hash stays that of the empty code.
    pub get_code-from_genesis :
        r.keccak_empty < word_mod → (b : ℕ) → b < address_mod → get_code (from_genesis g) b ≡ []
    unfolding from_genesis get_code cached HashMap.get Db.get_code code_bytes from_info genesis_info
    get_code-from_genesis h b hb =
        let account = start-stored b hb in
        elim (Option-cases (BTreeMap.get g.alloc b)) [
          | inl e ↦ rw (account, e, Db.get_code)
          | inr (al, e) ↦
              rw (account, e, Db.get_code)
                (rw (from_be-to_be 32 r.keccak_empty h, code_bytes) (ground arith))
        ]
