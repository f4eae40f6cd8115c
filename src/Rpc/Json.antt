-- ===== src/Rpc/Json.antt =====
-- crates/rpc/src/lib.rs: what is written into JSON and read from it.
use Prim.Native.String.{String}
use nbnet.Prelude.{
  ℕ, suc, false, Option, none, some, List, [], ◌∷◌, map, length, ◌==◌, if◌then◌else◌, unwrap_or,
  Result, ok, err, ◌>>=◌, map_err, ok_or, traverse, and_then, or_else, head?,
}
use nbnet.Std.Words.{u64_max}
use nbnet.Std.Bytes.{to_be_bytes, from_be_bytes}
use nbnet.Std.Text.{codes, strip_0x, from_str_radix, lower_hex_u64}
use nbnet.Types.Receipt.{EvmLog, EvmReceipt}
use nbnet.Rpc.External.{Serde, Codec}

-- The messages of invalid parameters.
pub data ParamError : Type 0 where
  plain : String → ParamError
  invalid_hex : String → ParamError
  wrong_address_length : ℕ → ParamError
  wrong_hash_length : ℕ → ParamError
  invalid_u256 : String → ParamError
  invalid_data_hex : String → ParamError
  invalid_value : String → ParamError

-- `format!("0x{}", …)`
abbrev pub prefixed : List ℕ → List ℕ
prefixed s = b'0' ∷ b'x' ∷ s

module _ ⦃cx : Codec⦄ where
  unfoldable pub parse_address_str : List ℕ → Result ℕ ParamError
  parse_address_str s = do
    bytes ← map_err invalid_hex (cx.decode (strip_0x s))
    if length bytes == 20
        then ok (from_be_bytes bytes)
        else err (wrong_address_length (length bytes))

  unfoldable pub parse_b256_str : List ℕ → Result ℕ ParamError
  parse_b256_str s = do
    bytes ← map_err invalid_hex (cx.decode (strip_0x s))
    if length bytes == 32 then ok (from_be_bytes bytes) else err (wrong_hash_length (length bytes))

  -- The bytes of a hexadecimal text.
  unfoldable pub parse_bytes : (String → ParamError) → List ℕ → Result (List ℕ) ParamError
  parse_bytes e s = map_err e (cx.decode (strip_0x s))

  unfoldable pub parse_u256_str : (String → ParamError) → List ℕ → Result ℕ ParamError
  parse_u256_str e s = map_err e (cx.u256_from_str_radix (strip_0x s))

-- Parsed parameters of a call.
pub record CallParams : Type 0 where
  pub from : ℕ
  pub to : Option ℕ
  pub input : List ℕ
  pub value : ℕ
  pub gas : Option ℕ

module _ {J : Type 0} ⦃js : Serde J⦄ where
  unfoldable pub to_hex_u64 : ℕ → J
  to_hex_u64 n = js.string (prefixed (lower_hex_u64 n))

  -- A literal.
  abbrev pub literal : String → J
  literal s = js.string (codes s)

module _ {J : Type 0} ⦃js : Serde J⦄ ⦃cx : Codec⦄ where
  unfoldable pub to_hex_u256 : ℕ → J
  to_hex_u256 n = js.string (prefixed (cx.lower_hex_u256 n))

  -- `format!("0x{}", hex::encode(bytes))`, and that of an address and of a hash.
  unfoldable pub hex_json : List ℕ → J
  hex_json bytes = js.string (prefixed (cx.encode bytes))

  abbrev pub address_json : ℕ → J
  address_json a = hex_json (to_be_bytes 20 a)

  abbrev pub hash_json : ℕ → J
  hash_json a = hex_json (to_be_bytes 32 a)

  -- An optional address is null where there is none.
  abbrev pub optional_address : Option ℕ → J
  optional_address none = js.null
  optional_address (some a) = address_json a

  unfoldable pub parse_address : J → Result ℕ ParamError
  parse_address v = do s ← ok_or (js.as_str v) (plain "expected string"); parse_address_str s

  -- The address; the block's tag is read and returned with it.
  unfoldable pub parse_addr_block : J → Result (ℕ × List ℕ) ParamError
  parse_addr_block params = do
    arr ← ok_or (js.as_array params) (plain "expected array params")
    first ← ok_or (head? arr) (plain "missing address parameter")
    addr ← parse_address first
    ok (addr, unwrap_or (and_then (second arr) (λ v. js.as_str v)) (codes "latest"))
    where
      second : List J → Option J
      second (x ∷ y ∷ ys) = some y
      second _ = none

  unfoldable pub parse_u256 : J → Result ℕ ParamError
  parse_u256 v = do
    s ← ok_or (js.as_str v) (plain "expected hex string")
    parse_u256_str invalid_u256 s

  unfoldable pub parse_hash_param : J → Result ℕ ParamError
  parse_hash_param params = do
    s ←
        ok_or (and_then (and_then (js.as_array params) head?) (λ v. js.as_str v))
          (plain "expected [hash]")
    parse_b256_str s

  unfoldable pub parse_call_params : J → Result CallParams ParamError
  parse_call_params params = do
    arr ← ok_or (js.as_array params) (plain "expected array params")
    obj ← ok_or (head? arr) (plain "missing call object")
    from ← traverse parse_address_str (js.as_str (js.index obj "from"))
    to ← traverse parse_address_str (js.as_str (js.index obj "to"))
    input ←
        traverse (parse_bytes invalid_data_hex)
          (or_else (js.as_str (js.index obj "data")) (js.as_str (js.index obj "input")))
    value ← traverse (parse_u256_str invalid_value) (js.as_str (js.index obj "value"))
    ok (record {
      from = unwrap_or from 0;
      to = to;
      input = unwrap_or input [];
      value = unwrap_or value 0;
      gas = and_then (js.as_str (js.index obj "gas")) (λ s. from_str_radix u64_max (strip_0x s));
    })

  -- A log of a receipt, with its place in it.
  unfoldable pub receipt_log : EvmReceipt → ℕ → EvmLog → J
  receipt_log r i log = js.object (
      ("address", address_json log.address)
      ∷ ("topics", js.array (map hash_json log.topics))
      ∷ ("data", hex_json log.payload)
      ∷ ("blockNumber", to_hex_u64 r.block_number)
      ∷ ("transactionHash", hash_json r.tx_hash)
      ∷ ("transactionIndex", to_hex_u64 r.tx_index)
      ∷ ("logIndex", to_hex_u64 i)
      ∷ ("removed", js.bool false)
      ∷ [])

  unfoldable pub receipt_logs : EvmReceipt → ℕ → List EvmLog → List J
  receipt_logs r i [] = []
  receipt_logs r i (log ∷ logs) = receipt_log r i log ∷ receipt_logs r (suc i) logs

  unfoldable pub receipt_to_json : EvmReceipt → J
  receipt_to_json r = js.object (
      ("transactionHash", hash_json r.tx_hash)
      ∷ ("transactionIndex", to_hex_u64 r.tx_index)
      ∷ ("blockHash", hash_json r.block_hash)
      ∷ ("blockNumber", to_hex_u64 r.block_number)
      ∷ ("from", address_json r.from)
      ∷ ("to", optional_address r.to)
      ∷ ("cumulativeGasUsed", to_hex_u64 r.cumulative_gas_used)
      ∷ ("gasUsed", to_hex_u64 r.gas_used)
      ∷ ("contractAddress", optional_address r.contract_address)
      ∷ ("logs", js.array (receipt_logs r 0 r.logs))
      ∷ ("logsBloom", hex_json r.logs_bloom)
      ∷ ("status", to_hex_u64 r.status)
      ∷ ("effectiveGasPrice", to_hex_u256 r.effective_gas_price)
      ∷ ("type", literal "0x2")
      ∷ [])
