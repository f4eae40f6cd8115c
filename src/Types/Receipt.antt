-- ===== src/Types/Receipt.antt =====
-- crates/types/src/receipt.rs: logs and receipts. The bloom filter is a list of bytes.
use nbnet.Prelude.{ℕ, List, Option}

pub record EvmLog : Type 0 where
  pub address : ℕ
  pub topics : List ℕ
  pub payload : List ℕ

pub record EvmReceipt : Type 0 where
  pub tx_hash : ℕ
  pub tx_index : ℕ
  pub block_hash : ℕ
  pub block_number : ℕ
  pub from : ℕ
  pub to : Option ℕ
  pub cumulative_gas_used : ℕ
  pub gas_used : ℕ
  pub contract_address : Option ℕ
  pub logs : List EvmLog
  pub logs_bloom : List ℕ
  pub status : ℕ
  pub effective_gas_price : ℕ
