-- ===== src/Node/GenesisReadings.antt =====
-- The genesis documents of crates/node: what an account of the first state has.
use nbnet.Prelude.{
  ℕ, ◌*◌, ◌<◌, ◌≡◌, ◌∙◌, [], ◌∷◌, All, ◌==◌, if◌then◌else◌, ltb, Bool-cases, inl, inr, arith,
}
use nbnet.Std.BTreeMap
use nbnet.Std.BTreeMap.{BTreeMap, get-insert, insert-Keys, Keys}
use nbnet.Types.Genesis.{EvmGenesis}
use nbnet.State.External.{Vsdb, Revm}
use nbnet.State.Accounts.{address_mod, word_mod}
use nbnet.State.Evm
use nbnet.State.Alloc.{AllocFits, from_genesis_readings}
use nbnet.Node.Genesis.{funded, dev_chain, repeat_byte, default_dev_genesis, bench_evm_genesis, eth}

insert-All :
    {V : Type 0} (P : V → Type 0) (m : BTreeMap V) (k : ℕ) (v : V)
    → P v
    → All (λ e. P e.1) m
    → All (λ e. P e.1) (BTreeMap.insert m k v)
unfolding BTreeMap.insert
insert-All P [] k v p a = (p, tt)
insert-All P ((j, w) ∷ m) k v p a = elim (Bool-cases (ltb k j)) [
  | inl q ↦ rw (q, BTreeMap.insert) (p, a)
  | inr q ↦ elim (Bool-cases (j == k)) [
    | inl e ↦ rw (q, e, BTreeMap.insert) (p, a.1)
    | inr e ↦ rw (q, e, BTreeMap.insert) (a.0, insert-All P m k v p a.1)
  ]
]

funded-AllocFits : (balance : ℕ) → balance < word_mod → AllocFits (funded balance)
funded-AllocFits balance h = record { balance_fits = h; slots_keys = tt; values_fit = tt }

-- A document with two funded accounts.
abbrev two_accounts : (a x b y : ℕ) → EvmGenesis
two_accounts a x b y = dev_chain (BTreeMap.insert (BTreeMap.insert [] a (funded x)) b (funded y))

module _ ⦃v : Vsdb⦄ ⦃r : Revm⦄ where
  -- The second entry overwrites the first one for the same address, and everyone else has nothing.
  two_accounts_balance :
      (a x b y c : ℕ)
      → a < address_mod
      → b < address_mod
      → c < address_mod
      → x < word_mod
      → y < word_mod
      → Evm.get_balance (Evm.from_genesis (two_accounts a x b y)) c
        ≡ (if b == c then y else if a == c then x else 0)
  unfolding BTreeMap.get
  two_accounts_balance a x b y c ha hb hc hx hy =
      let one = BTreeMap.insert [] a (funded x) in
      let keys =
        insert-Keys 0 address_mod one b (funded y) (omega arith) hb
          (insert-Keys 0 address_mod [] a (funded x) (omega arith) ha tt) in
      let fits =
        insert-All AllocFits one b (funded y) (funded-AllocFits y hy)
          (insert-All AllocFits [] a (funded x) (funded-AllocFits x hx) tt) in
      (from_genesis_readings (two_accounts a x b y) keys fits c 0 hc (omega arith)).0
      ∙ rw (get-insert one b c (funded y), get-insert [] a c (funded x)) (ground arith)

  -- In the benchmark's document the sender has a million ether, unless it is the recipient, and nobody
  -- else has anything.
  pub bench_evm_genesis_balance :
      (sender recipient a : ℕ)
      → sender < address_mod
      → recipient < address_mod
      → a < address_mod
      → Evm.get_balance (Evm.from_genesis (bench_evm_genesis sender recipient)) a
        ≡ (if recipient == a then 0 else if sender == a then 1_000_000 * eth else 0)
  unfolding bench_evm_genesis
  bench_evm_genesis_balance sender recipient a hs hr ha =
      two_accounts_balance sender (1_000_000 * eth) recipient 0 a hs hr ha (omega arith)
        (omega arith)

  -- In the development document two accounts have ten thousand ether each, and nobody else has anything.
  pub default_dev_genesis_balance :
      (a : ℕ)
      → a < address_mod
      → Evm.get_balance (Evm.from_genesis default_dev_genesis) a ≡ (
          if repeat_byte 0xBB == a
          then 10_000 * eth
          else if repeat_byte 0xAA == a
          then 10_000 * eth
          else 0)
  unfolding default_dev_genesis repeat_byte
  default_dev_genesis_balance a ha =
      two_accounts_balance (repeat_byte 0xAA) (10_000 * eth) (repeat_byte 0xBB) (10_000 * eth) a
        (omega arith) (omega arith) ha (omega arith) (omega arith)
