-- ===== src/State/Persist.antt =====
-- `flush_cache_to_vsdb` of crates/state/src/state.rs: what is cached reaches the database.
use nbnet.Prelude.{
  ℕ, ◌<◌, ◌≡◌, refl, subst, ◌∙◌, Option, none, some, [], ◌∷◌, arith, inl, inr, Bool-cases, ◌==◌,
  ==_iff, if◌then◌else◌, Option-cases, unwrap_or, map_option, nat_eq, All,
}
use nbnet.Std.Bytes.{from_be-to_be}
use nbnet.Std.HashMap
use nbnet.Std.HashMap.{HashMap}
use nbnet.State.External.{Vsdb, Revm, AccountInfo, DbAccount}
use nbnet.State.Db
use nbnet.State.Db.{VsdbStateDb, from_info, stored, insert_account, insert_storage}
use nbnet.State.Accounts.{
  address_mod, word_mod, InRange, get_storage-insert_storage, stored-insert_account,
  storage-insert_account,
}
use nbnet.State.Evm.{
  EvmState, insert_slots, flush_accounts, flush_cache_to_vsdb, cached, get_balance, get_nonce,
  get_storage,
}

-- A hash map holds a key once.
abbrev pub Distinct {ℓ} : {V : Type ℓ} → HashMap ℕ V → Type ℓ
Distinct [] = Unit
Distinct ((k, x) ∷ m) = (HashMap.get m k ≡ none) × Distinct m

-- The slots and the values of an account's storage are words.
abbrev pub SlotsFit : HashMap ℕ ℕ → Type 0
SlotsFit = All (λ e. (e.0 < word_mod) × (e.1 < word_mod))

module _ ⦃v : Vsdb⦄ ⦃r : Revm⦄ where
  -- What the types of the cached accounts guarantee.
  pub record AccountFits (acc : DbAccount (r.Bytecode)) : Type 0 where
    pub info_fits : InRange acc.info
    pub slots_fit : SlotsFit acc.storage
    pub slots_distinct : Distinct acc.storage

  abbrev pub CacheFits : HashMap ℕ (DbAccount (r.Bytecode)) → Type 0
  CacheFits = All (λ e. (e.0 < address_mod) × AccountFits e.1)

  pub stored-insert_slots :
      (a : ℕ) (slots : HashMap ℕ ℕ) (db : VsdbStateDb v) (b : ℕ)
      → stored (insert_slots a slots db) b ≡ stored db b
  unfolding insert_slots stored insert_storage
  stored-insert_slots a [] db b = refl
  stored-insert_slots a ((s, x) ∷ slots) db b =
      stored-insert_slots a slots (insert_storage db a s x) b

  -- Storage after the slots of one account are written.
  pub get_storage-insert_slots :
      (a b t : ℕ) (slots : HashMap ℕ ℕ) (db : VsdbStateDb v)
      → a < address_mod
      → b < address_mod
      → t < word_mod
      → SlotsFit slots
      → Distinct slots
      → Db.get_storage (insert_slots a slots db) b t ≡ (
          if a == b
          then unwrap_or (HashMap.get slots t) (Db.get_storage db b t)
          else Db.get_storage db b t)
  unfolding insert_slots HashMap.get
  get_storage-insert_slots a b t [] db ha hb ht f d = ground arith
  get_storage-insert_slots a b t ((s, x) ∷ slots) db ha hb ht f d =
      get_storage-insert_slots a b t slots (insert_storage db a s x) ha hb ht f.1 d.1
      ∙ ground (arith, get_storage-insert_storage db a b ha hb s t x f.0.0 ht f.0.1, d.0)

  stored-flush_accounts :
      (m : HashMap ℕ (DbAccount (r.Bytecode))) (db : VsdbStateDb v) (trie : v.Trie) (b : ℕ)
      → b < address_mod
      → CacheFits m
      → Distinct m
      → stored (flush_accounts m db trie).0 b
        ≡ unwrap_or (map_option (λ acc. some (from_info acc.info)) (HashMap.get m b)) (stored db b)
  unfolding flush_accounts HashMap.get
  stored-flush_accounts [] db trie b hb f d = refl
  stored-flush_accounts ((a, acc) ∷ m) db trie b hb f d =
      let db' = insert_account db a acc.info in
      stored-flush_accounts m (insert_slots a acc.storage db') _ b hb f.1 d.1
      ∙ ground (
        arith,
        stored-insert_slots a acc.storage db' b,
        stored-insert_account db a b acc.info f.0.0 hb,
        d.0,
        ==_iff a b,
      )

  -- The slot of a cached account, where it is cached.
  abbrev cached_slot : HashMap ℕ (DbAccount (r.Bytecode)) → ℕ → ℕ → Option ℕ
  cached_slot m b t = elim (HashMap.get m b) [ none ↦ none | some acc ↦ HashMap.get acc.storage t ]

  pub get_storage-insert_account :
      (db : VsdbStateDb v) (a : ℕ) (info : AccountInfo (r.Bytecode)) (b t : ℕ)
      → Db.get_storage (insert_account db a info) b t ≡ Db.get_storage db b t
  unfolding Db.get_storage
  get_storage-insert_account db a info b t = rw (storage-insert_account db a info, Db.get_storage)

  get_storage-flush_accounts :
      (m : HashMap ℕ (DbAccount (r.Bytecode))) (db : VsdbStateDb v) (trie : v.Trie) (b t : ℕ)
      → b < address_mod
      → t < word_mod
      → CacheFits m
      → Distinct m
      → Db.get_storage (flush_accounts m db trie).0 b t
        ≡ unwrap_or (cached_slot m b t) (Db.get_storage db b t)
  unfolding flush_accounts HashMap.get
  get_storage-flush_accounts [] db trie b t hb ht f d = refl
  get_storage-flush_accounts ((a, acc) ∷ m) db trie b t hb ht f d =
      let db' = insert_account db a acc.info in
      get_storage-flush_accounts m (insert_slots a acc.storage db') _ b t hb ht f.1 d.1
      ∙ ground (
        arith,
        get_storage-insert_slots a b t acc.storage db' f.0.0 hb ht f.0.1.slots_fit
            f.0.1.slots_distinct,
        get_storage-insert_account db a acc.info b t,
        d.0,
        ==_iff a b,
      )

  get-CacheFits :
      (m : HashMap ℕ (DbAccount (r.Bytecode))) (b : ℕ) (acc : DbAccount (r.Bytecode))
      → CacheFits m
      → HashMap.get m b ≡ some acc
      → AccountFits acc
  unfolding HashMap.get
  get-CacheFits [] b acc f e = absurd (none≢some e)
    where
      none≢some : none ≡ some acc → ⊥
      none≢some p = cc
  get-CacheFits ((a, x) ∷ m) b acc f e = elim (Bool-cases (a == b)) [
    | inl same ↦ subst AccountFits (ground arith) f.0.1
    | inr other ↦ get-CacheFits m b acc f.1 (ground arith)
  ]

  -- The three readings of an account that the cache and the database both give.
  pub record SameReadings (s : EvmState v r) (db : VsdbStateDb v) (a t : ℕ) : Type 0 where
    pub same_balance : Db.get_balance db a ≡ get_balance s a
    pub same_nonce : Db.get_nonce db a ≡ get_nonce s a
    pub same_storage : Db.get_storage db a t ≡ get_storage s a t

  -- After a flush the database alone answers with the balance, the nonce and the storage that the
  -- cached state had, for every address and slot; the numbers of the cached accounts are in range
  -- and no account or slot is cached twice.
  pub flush-persists :
      (s : EvmState v r) (a t : ℕ)
      → a < address_mod
      → t < word_mod
      → CacheFits s.db.accounts
      → Distinct s.db.accounts
      → SameReadings s (flush_cache_to_vsdb s).db.db a t
  unfolding flush_cache_to_vsdb get_balance get_nonce get_storage cached Db.get_balance Db.get_nonce
      from_info
  flush-persists s a t ha ht f d =
      let account = stored-flush_accounts s.db.accounts s.db.db s.state_trie a ha f d in
      let slot = get_storage-flush_accounts s.db.accounts s.db.db s.state_trie a t ha ht f d in
      elim (Option-cases (HashMap.get s.db.accounts a)) [
        | inl e ↦ record {
          same_balance = ground (arith, account);
          same_nonce = ground (arith, account);
          same_storage = ground (arith, slot);
        }
        | inr (acc, e) ↦
            let fits = get-CacheFits s.db.accounts a acc f e in
            record {
              same_balance =
                  ground
                    (arith, account, from_be-to_be 32 acc.info.balance fits.info_fits.balance_fits);
              same_nonce = ground (arith, account);
              same_storage = ground (arith, slot);
            }
      ]

  -- The state itself reads as before the flush.
  pub flush_unseen :
      (s : EvmState v r) (a t : ℕ)
      → a < address_mod
      → t < word_mod
      → CacheFits s.db.accounts
      → Distinct s.db.accounts
      → (get_balance (flush_cache_to_vsdb s) a ≡ get_balance s a)
        × (get_nonce (flush_cache_to_vsdb s) a ≡ get_nonce s a)
        × (get_storage (flush_cache_to_vsdb s) a t ≡ get_storage s a t)
  unfolding flush_cache_to_vsdb get_balance get_nonce get_storage cached
  flush_unseen s a t ha ht f d =
      let p = flush-persists s a t ha ht f d in
      let b = p.same_balance in
      let n = p.same_nonce in let g = p.same_storage in ground (arith, b, n, g)
