-- ===== src/Rpc/Logs.antt =====
-- `eth_getLogs` of crates/rpc/src/lib.rs: the filter, and the loops over the stored receipts.
use nbnet.Prelude.{
  ℕ, zero, suc, Bool, true, false, ◌&&◌, ◌||◌, Option, none, some, List, [], ◌∷◌, ◌++◌, map, ◌==◌,
  if◌then◌else◌, and_then, ok_option, head?,
}
use nbnet.Types.Receipt.{EvmLog, EvmReceipt}
use nbnet.State.External.{Vsdb, Revm}
use nbnet.Execution.Executor.{EvmExecutor, get_receipts}
use nbnet.Rpc.External.{Serde, Codec}
use nbnet.Rpc.Json.{
  parse_address_str, parse_b256_str, address_json, hash_json, hex_json, to_hex_u64,
}

-- `contains` on topics.
unfoldable pub contains_topic : List ℕ → ℕ → Bool
contains_topic [] t = false
contains_topic (x ∷ xs) t = x == t || contains_topic xs t

-- What is asked for: the logs of an address, and those with a topic.
pub record LogFilter : Type 0 where
  pub address : Option ℕ
  pub topic : Option ℕ

-- Whether a filter lets a log pass.
unfoldable pub passes : LogFilter → EvmLog → Bool
passes f log =
    elim f.address [ none ↦ true | some a ↦ log.address == a ]
    && elim f.topic [ none ↦ true | some t ↦ contains_topic log.topics t ]

module _ {J : Type 0} ⦃js : Serde J⦄ ⦃cx : Codec⦄ where
  -- An address or a topic that does not parse counts as none.
  unfoldable pub parse_filter : J → LogFilter
  parse_filter params = elim (and_then (js.as_array params) head?) [
    | none ↦ record { address = none; topic = none }
    | some f ↦ record {
      address = and_then (js.as_str (js.index f "address")) (λ s. ok_option (parse_address_str s));
      topic =
          and_then
            (and_then (and_then (js.as_array (js.index f "topics")) head?) (λ v. js.as_str v))
            (λ s. ok_option (parse_b256_str s));
    }
  ]

  unfoldable pub log_json : EvmReceipt → ℕ → EvmLog → J
  log_json r log_idx log = js.object (
      ("address", address_json log.address)
      ∷ ("topics", js.array (map hash_json log.topics))
      ∷ ("data", hex_json log.payload)
      ∷ ("blockNumber", to_hex_u64 r.block_number)
      ∷ ("transactionHash", hash_json r.tx_hash)
      ∷ ("transactionIndex", to_hex_u64 r.tx_index)
      ∷ ("blockHash", hash_json r.block_hash)
      ∷ ("logIndex", to_hex_u64 log_idx)
      ∷ ("removed", js.bool false)
      ∷ [])

  -- The loops over the logs of a receipt, the receipts of a block and the blocks.
  unfoldable pub logs_of : LogFilter → EvmReceipt → ℕ → List EvmLog → List J
  logs_of f r log_idx [] = []
  logs_of f r log_idx (log ∷ logs) =
      let rest = logs_of f r (suc log_idx) logs in
      if passes f log then log_json r log_idx log ∷ rest else rest

  unfoldable pub logs_in_block : LogFilter → List EvmReceipt → List J
  logs_in_block f [] = []
  logs_in_block f (r ∷ rs) = logs_of f r 0 r.logs ++ logs_in_block f rs

module _ {E : Type 0} ⦃v : Vsdb⦄ ⦃r : Revm⦄ {J : Type 0} ⦃js : Serde J⦄ ⦃cx : Codec⦄ where
  -- The given number of rounds of `for h in 0..=height`, from `h` on.
  unfoldable pub scan_blocks : EvmExecutor E v r → LogFilter → (rounds h : ℕ) → List J
  scan_blocks x f zero h = []
  scan_blocks x f (suc rounds) h =
      elim (get_receipts x h) [ none ↦ [] | some block ↦ logs_in_block f block ]
      ++ scan_blocks x f rounds (suc h)

  unfoldable pub get_logs : EvmExecutor E v r → J → List J
  get_logs x params = scan_blocks x (parse_filter params) (suc x.block_height) 0
