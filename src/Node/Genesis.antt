-- ===== src/Node/Genesis.antt =====
-- The genesis documents that crates/node writes: `default_dev_genesis` of crates/node/src/main.rs and
-- `bench_evm_genesis` of crates/node/src/bench.rs.
use nbnet.Prelude.{ℕ, ◌*◌, ◌-◌, ◌/◌, ◌^◌, []}
use nbnet.Std.BTreeMap
use nbnet.Std.BTreeMap.{BTreeMap}
use nbnet.Types.Genesis.{GenesisAlloc, EvmGenesis}

-- `Address::repeat_byte`
unfoldable pub repeat_byte : ℕ → ℕ
repeat_byte b = b * ((256 ^ 20 - 1) / 255)

-- An account with a balance only.
abbrev pub funded : ℕ → GenesisAlloc
funded balance = record { balance = balance; nonce = 0; code = []; storage = [] }

-- A document that differs from the others in its accounts.
abbrev pub dev_chain : BTreeMap GenesisAlloc → EvmGenesis
dev_chain alloc = record {
  chain_id = 1337;
  alloc = alloc;
  gas_limit = 30_000_000;
  base_fee_per_gas = 1_000_000_000;
  coinbase = 0;
  timestamp = 0;
}

unfoldable pub default_dev_genesis : EvmGenesis
default_dev_genesis = dev_chain (
    BTreeMap.insert
      (BTreeMap.insert [] (repeat_byte 0xAA) (funded (10_000 * 1_000_000_000_000_000_000)))
      (repeat_byte 0xBB) (funded (10_000 * 1_000_000_000_000_000_000)))

abbrev pub eth : ℕ
eth = 1_000_000_000_000_000_000

unfoldable pub bench_evm_genesis : (sender recipient : ℕ) → EvmGenesis
bench_evm_genesis sender recipient =
    dev_chain
      (BTreeMap.insert (BTreeMap.insert [] sender (funded (1_000_000 * eth))) recipient (funded 0))
