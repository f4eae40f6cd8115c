-- ===== src/Rpc/Readings.antt =====
-- The account queries of crates/rpc/src/lib.rs from the JSON parameters to the JSON answers, over
-- `query` of crates/execution/src/executor.rs.
use Prim.Native.String.{String}
use nbnet.Prelude.{ℕ, ◌<◌, ◌^◌, ◌≡◌, refl, ap, [], ◌∷◌, ok, arith, length-append}
use nbnet.Std.Bytes.{to_be_bytes, from_be-to_be, length-to_be, take_append, to_be_bytes-All}
use nbnet.Std.Text.{codes, strip_0x_prefixed}
use nbnet.State.External.{Vsdb, Revm}
use nbnet.State.Evm
use nbnet.Execution.Executor.{EvmExecutor, answer, query}
use nbnet.Execution.Lookup.{parsed_address, parsed_slot}
use nbnet.Rpc.External.{Serde, Codec}
use nbnet.Rpc.Json.{
  prefixed, parse_address_str, parse_address, parse_addr_block, parse_u256, parse_u256_str,
  address_json, hex_json, to_hex_u64, to_hex_u256,
}
use nbnet.Rpc.Message.{EvmRpcState, get_balance, get_transaction_count, get_storage_at}
use nbnet.Rpc.Queries.{sized, query_balance, query_nonce, query_storage, query_block_number}
use nbnet.Rpc.Read.{read, slot_params}

sized-to_be : (n a : ℕ) → a < 256 ^ n → sized n (to_be_bytes n a) ≡ a
unfolding sized
sized-to_be n a h = ground (arith, length-to_be n a, from_be-to_be n a h)

module _ {E : Type 0} ⦃v : Vsdb⦄ ⦃r : Revm⦄ (x : EvmExecutor E v r) where
  pub query_nonce-get_nonce :
      (a : ℕ)
      → a < 256 ^ 20
      → Evm.get_nonce x.state a < 256 ^ 8
      → query_nonce x a ≡ Evm.get_nonce x.state a
  unfolding query_nonce query answer
  query_nonce-get_nonce a ha hn =
      rw (length-to_be 20 a, parsed_address a ha) (sized-to_be 8 (Evm.get_nonce x.state a) hn)

  query_balance-get_balance :
      (a : ℕ)
      → a < 256 ^ 20
      → Evm.get_balance x.state a < 256 ^ 32
      → query_balance x a ≡ Evm.get_balance x.state a
  unfolding query_balance query answer
  query_balance-get_balance a ha hb =
      rw (length-to_be 20 a, parsed_address a ha) (sized-to_be 32 (Evm.get_balance x.state a) hb)

  query_storage-get_storage :
      (a t : ℕ)
      → a < 256 ^ 20
      → t < 256 ^ 32
      → Evm.get_storage x.state a t < 256 ^ 32
      → query_storage x a t ≡ Evm.get_storage x.state a t
  unfolding query_storage query answer
  query_storage-get_storage a t ha ht hs =
      rw
        (
          length-append (to_be_bytes 20 a) (to_be_bytes 32 t),
          length-to_be 20 a,
          length-to_be 32 t,
          take_append 20 (to_be_bytes 20 a) (to_be_bytes 32 t) (length-to_be 20 a),
          from_be-to_be 20 a ha,
          parsed_slot a t ht,
        )
        (sized-to_be 32 (Evm.get_storage x.state a t) hs)

  pub query_block_number-height : x.block_height < 256 ^ 8 → query_block_number x ≡ x.block_height
  unfolding query_block_number query answer
  query_block_number-height h = sized-to_be 8 x.block_height h

module _ ⦃cx : Codec⦄ where
  parse_address_str-prefixed :
      (a : ℕ) → a < 256 ^ 20 → parse_address_str (prefixed (cx.encode (to_be_bytes 20 a))) ≡ ok a
  unfolding parse_address_str
  parse_address_str-prefixed a h =
      rw
        (
          strip_0x_prefixed (cx.encode (to_be_bytes 20 a)),
          cx.decode-encode (to_be_bytes 20 a) (to_be_bytes-All 20 a),
          length-to_be 20 a,
        )
        (ap ok (from_be-to_be 20 a h))

module _ (J : Type 0) ⦃js : Serde J⦄ ⦃cx : Codec⦄ where
  parse_address-address_json :
      (a : ℕ) → a < 256 ^ 20 → parse_address (address_json {J = J} a) ≡ ok a
  unfolding parse_address hex_json
  parse_address-address_json a h =
      rw (js.as_str-string (prefixed (cx.encode (to_be_bytes 20 a))))
        (parse_address_str-prefixed a h)

  pub parse_addr_block-address :
      (a : ℕ)
      → a < 256 ^ 20
      → parse_addr_block (js.array (address_json a ∷ js.string (codes "latest") ∷ []))
        ≡ ok (a, codes "latest")
  unfolding parse_addr_block
  parse_addr_block-address a h =
      rw
        (
          js.as_array-array (address_json a ∷ js.string (codes "latest") ∷ []),
          parse_address-address_json a h,
          js.as_str-string (codes "latest"),
        )
        refl

  pub parse_u256-to_hex : (n : ℕ) → n < 2 ^ 256 → parse_u256 (to_hex_u256 {J = J} n) ≡ ok n
  unfolding parse_u256 to_hex_u256 parse_u256_str
  parse_u256-to_hex n h =
      rw
        (
          js.as_str-string (prefixed (cx.lower_hex_u256 n)),
          strip_0x_prefixed (cx.lower_hex_u256 n),
          cx.u256_from-lower_hex n h,
        )
        refl

-- The parameters of the queries, as a client writes them.
module _ {J : Type 0} ⦃js : Serde J⦄ ⦃cx : Codec⦄ where
  abbrev pub at_latest : ℕ → J
  at_latest a = js.array (address_json a ∷ js.string (codes "latest") ∷ [])

  abbrev pub at_slot : ℕ → ℕ → J
  at_slot a t = js.array (address_json a ∷ to_hex_u256 t ∷ js.string (codes "latest") ∷ [])

module _ (J : Type 0) ⦃js : Serde J⦄ ⦃cx : Codec⦄ where
  slot_params-at_slot :
      (a t : ℕ) → slot_params {J = J} (at_slot a t) ≡ ok (address_json a, to_hex_u256 t)
  unfolding slot_params
  slot_params-at_slot a t =
      rw
        (
          js.as_array-array (address_json a ∷ to_hex_u256 t ∷ js.string (codes "latest") ∷ []),
          slot_params,
        )
        refl

module _ {E : Type 0} ⦃v : Vsdb⦄ ⦃r : Revm⦄ (J : Type 0) ⦃js : Serde J⦄ ⦃cx : Codec⦄ where
  -- With the parameters that a client writes for an address and a slot, eth_getBalance,
  -- eth_getTransactionCount and eth_getStorageAt answer with the hexadecimal text of the state's
  -- balance, nonce and storage; all the numbers are in range.
  pub read-state :
      (s : EvmRpcState E v r) (name : String) (a t : ℕ)
      → a < 256 ^ 20
      → t < 256 ^ 32
      → Evm.get_balance s.executor.state a < 256 ^ 32
      → Evm.get_nonce s.executor.state a < 256 ^ 8
      → Evm.get_storage s.executor.state a t < 256 ^ 32
      → (read {J = J} s get_balance name (at_latest a)
          ≡ ok (to_hex_u256 {J = J} (Evm.get_balance s.executor.state a)))
        × (read {J = J} s get_transaction_count name (at_latest a)
            ≡ ok (to_hex_u64 (Evm.get_nonce s.executor.state a)))
        × (read {J = J} s get_storage_at name (at_slot a t)
            ≡ ok (to_hex_u256 (Evm.get_storage s.executor.state a t)))
  unfolding read slot_params
  read-state s name a t ha ht hb hn hs = (
    rw (parse_addr_block-address J a ha, query_balance-get_balance s.executor a ha hb) refl,
    rw (parse_addr_block-address J a ha, query_nonce-get_nonce s.executor a ha hn) refl,
    rw
        (
          slot_params-at_slot J a t,
          parse_address-address_json J a ha,
          parse_u256-to_hex J t (omega (arith, ht)),
          query_storage-get_storage s.executor a t ha ht hs,
        )
        refl,
  )
