-- ===== src/Types/Hex.antt =====
-- The hexadecimal texts of crates/types: module `hex_bytes` of src/genesis.rs and `bloom_serde` of
-- src/receipt.rs. Between the text and the document stands serde, which hands the text over.
pub mod RoundTrip
use nbnet.Prelude.{
  ℕ, ◌%◌, Bool, ◌&&◌, true, false, Option, none, some, List, [], ◌∷◌, ◌++◌, length, leb, ltb, not,
  ◌==◌, if◌then◌else◌, Result, ok, err,
}
use nbnet.Std.Text.{strip_0x, from_str_radix, hex_byte}

-- The errors of `decode`. Slicing a text inside a character panics.
pub data HexError : Type 0 where
  odd_length invalid_hex panics : HexError

-- Whether the text goes on inside a character.
unfoldable pub inside_char : List ℕ → Bool
inside_char [] = false
inside_char (b ∷ s) = leb 0x80 b && ltb b 0xc0

unfoldable pub encode : List ℕ → List ℕ
encode [] = []
encode (b ∷ bs) = hex_byte b ++ encode bs

-- The loop over the pairs; the first error ends it.
unfoldable pub decode_pairs : List ℕ → Result (List ℕ) HexError
decode_pairs [] = ok []
decode_pairs (a ∷ []) = err odd_length
decode_pairs (a ∷ b ∷ s) =
    let rest = decode_pairs s in
    if inside_char s then err panics else elim (from_str_radix 255 (a ∷ b ∷ [])) [
      | none ↦ err invalid_hex
      | some x ↦ elim rest [ ok bs ↦ ok (x ∷ bs) | err e ↦ err e ]
    ]

unfoldable pub decode : List ℕ → Result (List ℕ) HexError
decode s = if length s % 2 == 0 then decode_pairs s else err odd_length

-- `hex_bytes::serialize` and `hex_bytes::deserialize`
unfoldable pub serialize : List ℕ → List ℕ
serialize bytes = b'0' ∷ b'x' ∷ encode bytes

unfoldable pub deserialize : List ℕ → Result (List ℕ) HexError
deserialize s = decode (strip_0x s)

-- The errors of `bloom_serde::deserialize`; a pair that is no UTF-8 is as bad as one that is no number.
pub data BloomError : Type 0 where
  wrong_length bad_pair : BloomError

-- `bloom_serde::serialize`
unfoldable pub serialize_bloom : List ℕ → List ℕ
serialize_bloom bloom = b'0' ∷ b'x' ∷ encode bloom

-- The loop over `chunks(2)`.
unfoldable pub fill_bloom : List ℕ → Result (List ℕ) BloomError
fill_bloom [] = ok []
fill_bloom (a ∷ []) = elim (from_str_radix 255 (a ∷ [])) [
  | none ↦ err bad_pair
  | some x ↦ ok (x ∷ [])
]
fill_bloom (a ∷ b ∷ s) =
    let rest = fill_bloom s in
    elim (from_str_radix 255 (a ∷ b ∷ [])) [
      | none ↦ err bad_pair
      | some x ↦ elim rest [ ok bs ↦ ok (x ∷ bs) | err e ↦ err e ]
    ]

-- `bloom_serde::deserialize`
unfoldable pub deserialize_bloom : List ℕ → Result (List ℕ) BloomError
deserialize_bloom s =
    let text = strip_0x s in if length text == 512 then fill_bloom text else err wrong_length
