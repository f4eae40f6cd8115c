-- ===== src/Precompile/External.antt =====
-- What crates/precompile/src/lib.rs uses of revm: the gas meter, the journal and the standard
-- precompiles, as an interface over unknown types, with the plain data that crosses it.
use Prim.Native.String.{String}
use nbnet.Prelude.{ℕ, Bool, Option, none, List, Result, ok, ◌≡◌, ◌≢◌, ◌+◌}

-- The `InstructionResult`s that the source produces.
pub data InstructionResult : Type 0 where
  return precompile_error precompile_oog revert : InstructionResult

pub record InterpreterResult (G : Type 0) : Type 0 where
  pub result : InstructionResult
  pub gas : G
  pub output : List ℕ

pub data CallInput : Type 0 where
  shared_buffer : (start end : ℕ) → CallInput
  bytes : List ℕ → CallInput

-- The fields of `CallInputs` that the source reads.
pub record CallInputs : Type 0 where
  pub input : CallInput
  pub gas_limit : ℕ
  pub bytecode_address : ℕ
  pub caller : ℕ

-- `load_account` answers with the account's balance; a transfer answers `Ok(None)` when it is done,
-- `Ok(Some(e))` when it is refused and `Err(e)` when the database fails.
pub record Host : Type 1 where
  pub Gas : Type 0
  pub gas_new : ℕ → Gas
  pub record_cost : Gas → ℕ → Bool × Gas
  pub Context : Type 0
  pub shared_memory_buffer_slice : Context → ℕ → ℕ → Option (List ℕ)
  pub load_account : Context → ℕ → Result ℕ String × Context
  pub transfer : Context → (from to amount : ℕ) → Result (Option String) String × Context
  pub Eth : Type 0
  pub eth_new : ℕ → Eth
  pub eth_set_spec : Eth → ℕ → Bool × Eth
  pub eth_run :
      Eth → Context → CallInputs → Result (Option (InterpreterResult Gas)) String × (Eth × Context)
  pub eth_warm_addresses : Eth → List ℕ
  pub eth_contains : Eth → ℕ → Bool

-- What the journal documents about balances: a transfer that is done moves the amount, and nothing
-- else here changes a balance.
pub record Ledger (h : Host) : Type 0 where
  pub balance : h.Context → ℕ → ℕ
  pub transfer-credited :
      (c : h.Context) (from to amount : ℕ)
      → (h.transfer c from to amount).0 ≡ ok none
      → from ≢ to
      → balance ((h.transfer c from to amount).1) to ≡ balance c to + amount
  pub transfer-debited :
      (c : h.Context) (from to amount : ℕ)
      → (h.transfer c from to amount).0 ≡ ok none
      → from ≢ to
      → balance ((h.transfer c from to amount).1) from + amount ≡ balance c from
  pub transfer-other :
      (c : h.Context) (from to amount a : ℕ)
      → a ≢ from
      → a ≢ to
      → balance ((h.transfer c from to amount).1) a ≡ balance c a
  pub transfer-failed :
      (c : h.Context) (from to amount a : ℕ)
      → (h.transfer c from to amount).0 ≢ ok none
      → balance ((h.transfer c from to amount).1) a ≡ balance c a
  pub load_account-balance :
      (c : h.Context) (a b : ℕ) → balance ((h.load_account c a).1) b ≡ balance c b
  pub eth_run-balance :
      (p : h.Eth) (c : h.Context) (i : CallInputs) (a : ℕ)
      → balance ((h.eth_run p c i).1.1) a ≡ balance c a
