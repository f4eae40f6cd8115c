-- ===== src/Rpc/LogFilter.antt =====
-- `eth_getLogs` of crates/rpc/src/lib.rs: the loops against a filter of one flat list of logs.
use mathlib.Core.List.{map-append}
use nbnet.Prelude.{
  ℕ, zero, suc, ◌+◌, ◌≤◌, ◌≡◌, refl, ap, ◌∙◌, Bool, Bool-cases, inl, inr, List, [], ◌∷◌, ◌++◌, map,
  length, get_elem?, drop, arith, if◌then◌else◌,
}
use nbnet.Types.Receipt.{EvmLog, EvmReceipt}
use nbnet.State.External.{Vsdb, Revm}
use nbnet.Execution.Executor.{EvmExecutor, get_receipts}
use nbnet.Rpc.External.{Serde, Codec}
use nbnet.Rpc.Logs.{
  LogFilter, passes, parse_filter, log_json, logs_of, logs_in_block, scan_blocks, get_logs,
}

-- A stored log, with its receipt and its place in it.
pub record Entry : Type 0 where
  pub receipt : EvmReceipt
  pub index : ℕ
  pub log : EvmLog

abbrev entries_of : EvmReceipt → ℕ → List EvmLog → List Entry
entries_of r i [] = []
entries_of r i (log ∷ logs) =
    record { receipt = r; index = i; log = log } ∷ entries_of r (suc i) logs

abbrev entries_in : List EvmReceipt → List Entry
entries_in [] = []
entries_in (r ∷ rs) = entries_of r 0 r.logs ++ entries_in rs

-- All stored logs, in their order.
abbrev pub entries : List (List EvmReceipt) → List Entry
entries [] = []
entries (block ∷ blocks) = entries_in block ++ entries blocks

-- The elements that pass a test.
abbrev pub filter {ℓ} : {A : Type ℓ} → (A → Bool) → List A → List A
filter p [] = []
filter p (x ∷ xs) = let rest = filter p xs in if p x then x ∷ rest else rest

abbrev pub keep : LogFilter → List Entry → List Entry
keep f es = filter (λ e. passes f e.log) es

filter-append {ℓ} :
    {A : Type ℓ} (p : A → Bool) (xs ys : List A) → filter p (xs ++ ys) ≡ filter p xs ++ filter p ys
filter-append p [] ys = refl
filter-append p (x ∷ xs) ys = elim (Bool-cases (p x)) [
  | inl q ↦ rw (q, filter-append p xs ys) refl
  | inr q ↦ rw (q, filter-append p xs ys) refl
]

module _ {J : Type 0} ⦃js : Serde J⦄ ⦃cx : Codec⦄ where
  abbrev pub shown : List Entry → List J
  shown es = map (λ e. log_json e.receipt e.index e.log) es

  logs_of-keep :
      (f : LogFilter) (r : EvmReceipt) (i : ℕ) (logs : List EvmLog)
      → logs_of f r i logs ≡ shown (keep f (entries_of r i logs))
  unfolding logs_of
  logs_of-keep f r i [] = refl
  logs_of-keep f r i (log ∷ logs) = elim (Bool-cases (passes f log)) [
    | inl p ↦ rw (p, logs_of-keep f r (suc i) logs) refl
    | inr p ↦ rw (p, logs_of-keep f r (suc i) logs) refl
  ]

  shown-keep-append :
      (f : LogFilter) (xs ys : List Entry)
      → shown (keep f (xs ++ ys)) ≡ shown (keep f xs) ++ shown (keep f ys)
  shown-keep-append f xs ys =
      ap shown (filter-append (λ e. passes f e.log) xs ys)
      ∙ map-append (λ e. log_json e.receipt e.index e.log) (keep f xs) (keep f ys)

  logs_in_block-keep :
      (f : LogFilter) (rs : List EvmReceipt) → logs_in_block f rs ≡ shown (keep f (entries_in rs))
  unfolding logs_in_block
  logs_in_block-keep f [] = refl
  logs_in_block-keep f (r ∷ rs) =
      rw
        (
          shown-keep-append f (entries_of r 0 r.logs) (entries_in rs),
          logs_of-keep f r 0 r.logs,
          logs_in_block-keep f rs,
        )
        refl

module _ {E : Type 0} ⦃v : Vsdb⦄ ⦃r : Revm⦄ where
  -- The blocks stored from a height on.
  abbrev From : EvmExecutor E v r → ℕ → List (List EvmReceipt) → Type 0
  From x h blocks = (i : ℕ) → get_elem? x.receipts (h + i) ≡ get_elem? blocks i

  at_start :
      (x : EvmExecutor E v r) (h : ℕ) (blocks : List (List EvmReceipt))
      → From x h blocks
      → get_elem? x.receipts h ≡ get_elem? blocks 0
  at_start x h blocks same = ap (get_elem? x.receipts) (omega arith) ∙ same 0

  later :
      (x : EvmExecutor E v r) (h : ℕ) (blocks : List (List EvmReceipt))
      → From x h blocks
      → From x (suc h) (drop 1 blocks)
  later x h [] same i = ap (get_elem? x.receipts) (omega arith) ∙ same (suc i)
  later x h (b ∷ bs) same i = ap (get_elem? x.receipts) (omega arith) ∙ same (suc i)

module _ {E : Type 0} ⦃v : Vsdb⦄ ⦃r : Revm⦄ {J : Type 0} ⦃js : Serde J⦄ ⦃cx : Codec⦄ where
  scan_blocks-keep :
      (x : EvmExecutor E v r) (f : LogFilter) (rounds h : ℕ) (blocks : List (List EvmReceipt))
      → length blocks ≤ rounds
      → From x h blocks
      → scan_blocks {J = J} x f rounds h ≡ shown (keep f (entries blocks))
  unfolding scan_blocks get_receipts
  scan_blocks-keep x f zero h [] l same = refl
  scan_blocks-keep x f zero h (b ∷ bs) l same = absurd (omega (arith, l))
  scan_blocks-keep x f (suc rounds) h [] l same =
      rw (at_start x h [] same, scan_blocks, get_receipts)
        (scan_blocks-keep x f rounds (suc h) [] (omega arith) (later x h [] same))
  scan_blocks-keep x f (suc rounds) h (b ∷ bs) l same =
      rw
        (
          at_start x h (b ∷ bs) same,
          scan_blocks,
          get_receipts,
          shown-keep-append f (entries_in b) (entries bs),
          logs_in_block-keep f b,
        )
        (ap (λ rest. shown (keep f (entries_in b)) ++ rest)
          (scan_blocks-keep x f rounds (suc h) bs (omega arith) (later x h (b ∷ bs) same)))

  -- eth_getLogs answers with the stored logs that pass the filter, in the order of blocks, receipts
  -- and logs, each with its receipt and its place in it: as long as the height is not behind the
  -- number of stored blocks by more than one.
  pub get_logs-keep :
      (x : EvmExecutor E v r) (params : J)
      → length x.receipts ≤ suc x.block_height
      → get_logs {J = J} x params ≡ shown (keep (parse_filter params) (entries x.receipts))
  unfolding get_logs
  get_logs-keep x params l =
      scan_blocks-keep x (parse_filter params) (suc x.block_height) 0 x.receipts l
        (λ i. ap (get_elem? x.receipts) (omega arith))
