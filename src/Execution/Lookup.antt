-- ===== src/Execution/Lookup.antt =====
-- Reading the executor of crates/execution/src/executor.rs: stored receipts, receipts by hash, and
-- queries of the state.
use nbnet.Prelude.{
  ℕ, zero, suc, ◌<◌, ◌^◌, ◌≡◌, ◌≢◌, refl, ap, none, some, List, [], ◌∷◌, ◌++◌, length, get_elem?,
  take, drop, ◌==◌, if◌then◌else◌, Option-cases, inl, inr, arith, All, length-append,
}
use nbnet.Std.Bytes.{
  to_be_bytes, from_be_bytes, from_be-to_be, length-to_be, take_append, drop_append,
}
use nbnet.Types.Receipt.{EvmReceipt}
use nbnet.Types.Tx.{TxEnvelope}
use nbnet.State.External.{Vsdb, Revm}
use nbnet.State.Evm
use nbnet.State.Evm
use nbnet.Precompile.External.{Host}
use nbnet.Execution.External.{BlockContext, Interpreter}
use nbnet.Execution.Block.{run_block}
use nbnet.Execution.Executor.{
  EvmExecutor, find_in_block, find_receipt, get_receipts, get_receipt_by_tx_hash, execute_block,
  answer,
}

get_elem?_snoc {ℓ} :
    {A : Type ℓ} (xs : List A) (x : A) (i : ℕ)
    → get_elem? (xs ++ x ∷ []) i ≡ (if i == length xs then some x else get_elem? xs i)
get_elem?_snoc [] x zero = refl
get_elem?_snoc [] x (suc i) = ground arith
get_elem?_snoc (y ∷ ys) x zero = ground arith
get_elem?_snoc (y ∷ ys) x (suc i) = ground (arith, get_elem?_snoc ys x i)

find_receipt-snoc :
    (blocks : List (List EvmReceipt)) (block : List EvmReceipt) (hash : ℕ)
    → find_receipt (blocks ++ block ∷ []) hash
      ≡ (elim (find_in_block block hash) [ some x ↦ some x | none ↦ find_receipt blocks hash ])
unfolding find_receipt
find_receipt-snoc [] block hash = ground arith
find_receipt-snoc (b ∷ blocks) block hash = ground (arith, find_receipt-snoc blocks block hash)

find_in_block-hash :
    (block : List EvmReceipt) (hash : ℕ) (x : EvmReceipt)
    → find_in_block block hash ≡ some x
    → x.tx_hash ≡ hash
unfolding find_in_block
find_in_block-hash [] hash x e = cc
find_in_block-hash (y ∷ ys) hash x e = ground (arith, find_in_block-hash ys hash x)

find_in_block-none :
    (block : List EvmReceipt) (hash : ℕ)
    → find_in_block block hash ≡ none
    → All (λ x. x.tx_hash ≢ hash) block
unfolding find_in_block
find_in_block-none [] hash e = tt
find_in_block-none (y ∷ ys) hash e =
    ((λ q. ground (arith, q)), find_in_block-none ys hash (ground arith))

find_receipt-hash :
    (blocks : List (List EvmReceipt)) (hash : ℕ)
    → ((x : EvmReceipt) → find_receipt blocks hash ≡ some x → x.tx_hash ≡ hash)
      × (find_receipt blocks hash ≡ none → All (All (λ x. x.tx_hash ≢ hash)) blocks)
unfolding find_receipt
find_receipt-hash [] hash = (λ x e. cc, λ e. tt)
find_receipt-hash (b ∷ blocks) hash =
    let rest = find_receipt-hash blocks hash in
    elim (Option-cases (find_receipt blocks hash)) [
      | inl n ↦ (
        λ x e. find_in_block-hash b hash x (ground (arith, n, e)),
        λ e. (find_in_block-none b hash (ground (arith, n, e)), rest.1 n),
      )
      | inr (y, n) ↦ (λ x e. rest.0 x (ground (arith, n, e)), λ e. absurd (ground (arith, n, e)))
    ]

take_all {ℓ} : {A : Type ℓ} (n : ℕ) (xs : List A) → length xs ≡ n → take n xs ≡ xs
take_all zero [] e = refl
take_all zero (x ∷ xs) e = absurd (omega arith)
take_all (suc n) [] e = refl
take_all (suc n) (x ∷ xs) e = ap (λ ys. x ∷ ys) (take_all n xs (omega arith))

pub parsed_address : (a : ℕ) → a < 256 ^ 20 → from_be_bytes (take 20 (to_be_bytes 20 a)) ≡ a
parsed_address a h = rw (take_all 20 (to_be_bytes 20 a) (length-to_be 20 a)) (from_be-to_be 20 a h)

pub parsed_slot :
    (a t : ℕ)
    → t < 256 ^ 32
    → from_be_bytes (take 32 (drop 20 (to_be_bytes 20 a ++ to_be_bytes 32 t))) ≡ t
parsed_slot a t h =
    rw
      (
        drop_append 20 (to_be_bytes 20 a) (to_be_bytes 32 t) (length-to_be 20 a),
        take_all 32 (to_be_bytes 32 t) (length-to_be 32 t),
      )
      (from_be-to_be 32 t h)

module _ {E : Type 0} ⦃v : Vsdb⦄ ⦃r : Revm⦄ where
  -- A receipt found by hash carries that hash.
  pub get_receipt_by_tx_hash_found :
      (x : EvmExecutor E v r) (hash : ℕ) (y : EvmReceipt)
      → get_receipt_by_tx_hash x hash ≡ some y
      → y.tx_hash ≡ hash
  unfolding get_receipt_by_tx_hash
  get_receipt_by_tx_hash_found x hash = (find_receipt-hash x.receipts hash).0

  -- Where no receipt is found by a hash, no stored receipt carries it.
  pub get_receipt_by_tx_hash_missing :
      (x : EvmExecutor E v r) (hash : ℕ)
      → get_receipt_by_tx_hash x hash ≡ none
      → All (All (λ y. y.tx_hash ≢ hash)) x.receipts
  unfolding get_receipt_by_tx_hash
  get_receipt_by_tx_hash_missing x hash = (find_receipt-hash x.receipts hash).1

  -- A query with a packed address, and a packed slot, answers with the state's balance, nonce and
  -- storage, packed; all the numbers are in range.
  pub answer_readings :
      (x : EvmExecutor E v r) (a t : ℕ)
      → a < 256 ^ 20
      → t < 256 ^ 32
      → Evm.get_balance x.state a < 256 ^ 32
      → Evm.get_nonce x.state a < 256 ^ 8
      → Evm.get_storage x.state a t < 256 ^ 32
      → (from_be_bytes (answer x "eth_getBalance" (to_be_bytes 20 a)) ≡ Evm.get_balance x.state a)
        × (from_be_bytes (answer x "eth_getTransactionCount" (to_be_bytes 20 a))
            ≡ Evm.get_nonce x.state a)
        × (from_be_bytes (answer x "eth_getStorageAt" (to_be_bytes 20 a ++ to_be_bytes 32 t))
            ≡ Evm.get_storage x.state a t)
  unfolding answer
  answer_readings x a t ha ht hb hn hs =
      let n = length-to_be 20 a in
      let m = length-to_be 32 t in
      let parsed = parsed_address a ha in
      let slot = parsed_slot a t ht in
      (
        rw (n, answer, parsed) (from_be-to_be 32 (Evm.get_balance x.state a) hb),
        rw (n, answer, parsed) (from_be-to_be 8 (Evm.get_nonce x.state a) hn),
        rw
            (
              length-append (to_be_bytes 20 a) (to_be_bytes 32 t),
              n,
              m,
              answer,
              take_append 20 (to_be_bytes 20 a) (to_be_bytes 32 t) n,
              from_be-to_be 20 a ha,
              slot,
            )
            (from_be-to_be 32 (Evm.get_storage x.state a t) hs),
      )

module _ {E : Type 0} ⦃tx : TxEnvelope E⦄ ⦃v : Vsdb⦄ ⦃r : Revm⦄ ⦃h : Host⦄
    ⦃vm : Interpreter v r h⦄ where
  -- The receipts of the block executed as number `k` from 0 are stored at index `k`; what any other
  -- index answers, nothing at `k + 1` in particular, stays.
  pub get_receipts-execute_block :
      (x : EvmExecutor E v r) (txs : List (List ℕ)) (ctx : BlockContext) (i : ℕ)
      → get_receipts ((execute_block x txs ctx).1) i ≡ (
          if i == length x.receipts
          then some (run_block E x.state x.staking txs ctx).block_receipts
          else get_receipts x i)
  unfolding get_receipts execute_block
  get_receipts-execute_block x txs ctx i =
      get_elem?_snoc x.receipts (run_block E x.state x.staking txs ctx).block_receipts i

  -- A lookup by hash after a block answers from the new block first, and from the earlier ones
  -- otherwise.
  pub get_receipt_by_tx_hash-execute_block :
      (x : EvmExecutor E v r) (txs : List (List ℕ)) (ctx : BlockContext) (hash : ℕ)
      → get_receipt_by_tx_hash ((execute_block x txs ctx).1) hash
        ≡ (elim (find_in_block (run_block E x.state x.staking txs ctx).block_receipts hash) [
          | some y ↦ some y
          | none ↦ get_receipt_by_tx_hash x hash
        ])
  unfolding get_receipt_by_tx_hash execute_block
  get_receipt_by_tx_hash-execute_block x txs ctx hash = find_receipt-snoc x.receipts _ hash
