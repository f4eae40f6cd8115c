-- ===== src/Rpc/External.antt =====
-- What crates/rpc/src/lib.rs uses of serde_json, hex and ruint, as interfaces with their documented
-- laws. A JSON text is its bytes; a key is only looked up.
use Prim.Native.String.{String}
use text.Mathlib.Text
use nbnet.Prelude.{
  ℤ, ℕ, ◌<◌, ◌^◌, ◌≡◌, Bool, Option, none, some, List, [], ◌∷◌, if◌then◌else◌, Result, ok, All,
}

-- The value of a key among the fields of an object.
unfoldable pub field {ℓ} : {J : Type ℓ} → J → List (String × J) → String → J
field d [] k = d
field d ((j, x) ∷ fs) k = if Text.◌==◌ j k then x else field d fs k

-- `serde_json::Value`. `index` is `v[key]`, which is null where there is no such key.
pub record Serde (J : Type 0) : Type 0 where
  pub null : J
  pub bool : Bool → J
  pub number : ℤ → J
  pub float_zero : J
  pub string : List ℕ → J
  pub array : List J → J
  pub object : List (String × J) → J
  pub as_str : J → Option (List ℕ)
  pub as_array : J → Option (List J)
  pub index : J → String → J
  pub as_str-string : (s : List ℕ) → as_str (string s) ≡ some s
  pub as_str-null : as_str null ≡ none
  pub as_array-array : (xs : List J) → as_array (array xs) ≡ some xs
  pub index-object : (fs : List (String × J)) (k : String) → index (object fs) k ≡ field null fs k

-- `hex::encode` and `hex::decode`; `{:x}` and `from_str_radix(_, 16)` of `U256`. Their errors are
-- messages.
pub record Codec : Type 0 where
  pub encode : List ℕ → List ℕ
  pub decode : List ℕ → Result (List ℕ) String
  pub decode-encode : (bs : List ℕ) → All (λ b. b < 256) bs → decode (encode bs) ≡ ok bs
  pub lower_hex_u256 : ℕ → List ℕ
  pub u256_from_str_radix : List ℕ → Result ℕ String
  pub u256_from-lower_hex : (n : ℕ) → n < 2 ^ 256 → u256_from_str_radix (lower_hex_u256 n) ≡ ok n
