-- ===== src/State/Cache.antt =====
-- Writes through `EvmState` of crates/state/src/state.rs, its recent block hashes, and the encoding of
-- an account in the trie.
use nbnet.Prelude.{
  ℕ, ◌≤◌, ◌<◌, ◌≡◌, refl, ap, [], ◌∷◌, ◌++◌, arith, inl, inr, ltb, if◌then◌else◌, Bool-cases,
  length, length-append, is_some, nat_eq, ok, list_beq_iff,
}
use nbnet.Std.Words.{u64_mod}
use nbnet.Std.Bytes.{from_be-to_be, length-to_be, to_be_injective, append_injective}
use nbnet.Std.HashMap
use nbnet.Std.BTreeMap
use nbnet.Std.BTreeMap.{
  BTreeMap, Keys, insert-Keys, remove-Keys, length-insert-le, length-remove_present, get_first,
}
use nbnet.State.External.{Vsdb, Revm, AccountInfo, default_account}
use nbnet.State.Db
use nbnet.State.Db.{VsdbStateDb, number_bytes, word_bytes}
use nbnet.State.Accounts.{word_mod}
use nbnet.State.Evm.{
  EvmState, encode_account_leaf, get_balance, get_nonce, set_nonce, cached, trim_hashes,
  record_block_hash,
}

module _ {B : Type 0} where
  -- An account's leaf is 72 bytes long.
  pub length-encode_account_leaf : (info : AccountInfo B) → length (encode_account_leaf info) ≡ 72
  unfolding encode_account_leaf
  length-encode_account_leaf info = omega (
    arith,
    length-append (number_bytes info.nonce) (word_bytes info.balance ++ word_bytes info.code_hash),
    length-append (word_bytes info.balance) (word_bytes info.code_hash),
    length-to_be 8 info.nonce,
    length-to_be 32 info.balance,
    length-to_be 32 info.code_hash,
  )

  -- Accounts with the same leaf have the same nonce, balance and code hash, where these are in
  -- range.
  pub encode_account_leaf_injective :
      (a b : AccountInfo B)
      → a.nonce < u64_mod
      → b.nonce < u64_mod
      → a.balance < word_mod
      → b.balance < word_mod
      → a.code_hash < word_mod
      → b.code_hash < word_mod
      → encode_account_leaf a ≡ encode_account_leaf b
      → (a.nonce ≡ b.nonce) × (a.balance ≡ b.balance) × (a.code_hash ≡ b.code_hash)
  unfolding encode_account_leaf
  encode_account_leaf_injective a b na nb ba bb ca cb e =
      let first = append_injective 8 _ _ _ _ (length-to_be 8 a.nonce) (length-to_be 8 b.nonce) e in
      let second =
        append_injective 32 _ _ _ _ (length-to_be 32 a.balance) (length-to_be 32 b.balance)
          first.1 in
      (
        to_be_injective 8 a.nonce b.nonce na nb first.0,
        to_be_injective 32 a.balance b.balance ba bb second.0,
        to_be_injective 32 a.code_hash b.code_hash ca cb second.1,
      )

module _ ⦃v : Vsdb⦄ ⦃r : Revm⦄ where
  -- Setting a nonce is read back. The balance of a cached account stays; that of an account that is
  -- not cached reads as zero from then on, whatever the database holds.
  pub set_nonce_readings :
      (s : EvmState v r) (a n : ℕ)
      → (get_nonce (set_nonce s a n) a ≡ n)
        × (get_balance (set_nonce s a n) a ≡ (if is_some (cached s a) then get_balance s a else 0))
  unfolding get_nonce get_balance set_nonce cached HashMap.or_default
  set_nonce_readings s a n =
      let entry = HashMap.or_default (default_account r) s.db.accounts a in
      let set = record entry { info = record entry.info { nonce = n } } in
      let law = HashMap.get-insert s.db.accounts a a set in
      (ground (arith, law), ground (arith, law))

  block_hash-insert_block_hash :
      (db : VsdbStateDb v) (number hash : ℕ)
      → hash < word_mod
      → Db.block_hash (Db.insert_block_hash db number hash) number ≡ ok hash
  unfolding Db.block_hash Db.insert_block_hash
  block_hash-insert_block_hash db number hash hh =
      rw
        (
          v.get-insert,
          (list_beq_iff (number_bytes number) (number_bytes number)).1 refl,
          Db.block_hash,
        )
        (ap ok (from_be-to_be 32 hash hh))

  trim_hashes-Keys :
      (hi : ℕ) (m : BTreeMap ℕ)
      → Keys 0 hi m
      → length m ≤ 257
      → Keys 0 hi (trim_hashes m) × (length (trim_hashes m) ≤ 256)
  unfolding trim_hashes BTreeMap.first
  trim_hashes-Keys hi [] k l = (tt, omega arith)
  trim_hashes-Keys hi ((n, x) ∷ m) k l = elim (Bool-cases (ltb 256 (length ((n, x) ∷ m)))) [
    | inr short ↦ rw short (k, ground arith)
    | inl long ↦ rw long (
      remove-Keys 0 hi ((n, x) ∷ m) n k,
      omega (arith, length-remove_present 0 hi ((n, x) ∷ m) n x k (get_first n x m)),
    )
  ]

  -- Recording a block hash keeps at most 256 hashes in memory, in order, and the database answers
  -- with the recorded one. Number and hash are in range.
  pub record_block_hash_lem :
      (s : EvmState v r) (number hash : ℕ)
      → number < u64_mod
      → hash < word_mod
      → Keys 0 u64_mod s.block_hashes
      → length s.block_hashes ≤ 256
      → Keys 0 u64_mod (record_block_hash s number hash).block_hashes
        × (length (record_block_hash s number hash).block_hashes ≤ 256)
        × (Db.block_hash (record_block_hash s number hash).db.db number ≡ ok hash)
  unfolding record_block_hash
  record_block_hash_lem s number hash hn hh k l =
      let t =
        trim_hashes-Keys u64_mod (BTreeMap.insert s.block_hashes number hash)
          (insert-Keys 0 u64_mod s.block_hashes number hash (omega arith) hn k)
          (omega (arith, length-insert-le s.block_hashes number hash)) in
      (t.0, t.1, block_hash-insert_block_hash s.db.db number hash hh)
