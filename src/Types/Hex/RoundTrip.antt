-- ===== src/Types/Hex/RoundTrip.antt =====
-- What the hexadecimal texts of crates/types/src/genesis.rs and crates/types/src/receipt.rs decode to.
use nbnet.Prelude.{
  ℕ, ◌+◌, ◌*◌, ◌/◌, ◌%◌, ◌≤◌, ◌<◌, ◌≡◌, ◌≢◌, refl, subst, true, false, some, List, [], ◌∷◌, length,
  ◌==◌, Result, ok, err, All, arith, Bool-cases, Option-cases, Result-cases, inl, inr,
}
use nbnet.Std.Text.{
  from_str_radix, hex_byte, hex_digit, digit_value, parse_digits, from_str_radix-hex_byte,
  hex_digit_bounds, strip_0x_prefixed,
}
use nbnet.Types.Hex.{
  HexError, panics, inside_char, encode, decode_pairs, decode, serialize, deserialize,
  serialize_bloom, fill_bloom, deserialize_bloom,
}

abbrev pub IsByte : ℕ → Type 0
IsByte b = b < 256

length-encode : (bs : List ℕ) → length (encode bs) ≡ 2 * length bs
unfolding encode hex_byte
length-encode [] = refl
length-encode (b ∷ bs) = omega (arith, length-encode bs)

encode_outside : (bs : List ℕ) → All IsByte bs → inside_char (encode bs) ≡ false
unfolding encode hex_byte inside_char
encode_outside [] h = refl
encode_outside (b ∷ bs) h = ground (arith, hex_digit_bounds (b / 16) (omega (arith, h.0)))

decode_pairs-encode : (bs : List ℕ) → All IsByte bs → decode_pairs (encode bs) ≡ ok bs
unfolding encode decode_pairs hex_byte
decode_pairs-encode [] h = refl
decode_pairs-encode (b ∷ bs) h =
    ground (arith, encode_outside bs h.1, from_str_radix-hex_byte b h.0, decode_pairs-encode bs h.1)

pub decode-encode : (bs : List ℕ) → All IsByte bs → decode (encode bs) ≡ ok bs
unfolding decode
decode-encode bs h = ground (arith, length-encode bs, decode_pairs-encode bs h)

-- Bytes that are written to a genesis document are read back.
pub deserialize-serialize : (bs : List ℕ) → All IsByte bs → deserialize (serialize bs) ≡ ok bs
unfolding deserialize serialize
deserialize-serialize bs h = rw (strip_0x_prefixed (encode bs)) (decode-encode bs h)

-- What is read from a text of ASCII characters: it never panics, and bytes come out, one for two
-- characters.
abbrev pub Reads : List ℕ → Result (List ℕ) HexError → Type 0
Reads s (ok bs) = (length s ≡ 2 * length bs) × All IsByte bs
Reads s (err e) = e ≢ panics

ascii_outside : (s : List ℕ) → All (λ c. c < 128) s → inside_char s ≡ false
unfolding inside_char
ascii_outside [] h = refl
ascii_outside (c ∷ s) h = ground arith

parse_digits-le :
    (top acc : ℕ) (s : List ℕ) (x : ℕ) → acc ≤ top → parse_digits top acc s ≡ some x → x ≤ top
unfolding parse_digits
parse_digits-le top acc [] x l e = ground arith
parse_digits-le top acc (c ∷ s) x l e = elim (Option-cases (digit_value c)) [
  | inl n ↦ absurd (ground (arith, n))
  | inr (d, n) ↦ ground (arith, n, parse_digits-le top (16 * acc + d) s x)
]

from_str_radix-le : (top : ℕ) (s : List ℕ) (x : ℕ) → from_str_radix top s ≡ some x → x ≤ top
unfolding from_str_radix
from_str_radix-le top [] x e = cc
from_str_radix-le top (c ∷ []) x e = parse_digits-le top 0 (c ∷ []) x (omega arith) e
from_str_radix-le top (c ∷ d ∷ s) x e = ground (
  arith,
  parse_digits-le top 0 (d ∷ s) x (omega arith),
  parse_digits-le top 0 (c ∷ d ∷ s) x (omega arith),
)

decode_pairs-Reads :
    (s : List ℕ) → All (λ c. c < 128) s → length s % 2 ≡ 0 → Reads s (decode_pairs s)
unfolding decode_pairs
decode_pairs-Reads [] h p = (omega arith, tt)
decode_pairs-Reads (a ∷ []) h p = absurd (omega arith)
decode_pairs-Reads (a ∷ b ∷ s) h p =
    let rest = decode_pairs-Reads s h.1.1 (omega arith) in
    let outside = ascii_outside s h.1.1 in
    elim (Option-cases (from_str_radix 255 (a ∷ b ∷ []))) [
      | inl e ↦ rw (outside, e, decode_pairs) (λ q. cc)
      | inr (x, e) ↦ elim (Result-cases (decode_pairs s)) [
        | inl (bs, d) ↦
            let read : Reads s (ok bs) = subst (Reads s) d rest in
            rw (outside, e, d, decode_pairs)
              (
                omega (arith, read.0),
                (omega (arith, from_str_radix-le 255 (a ∷ b ∷ []) x e), read.1),
              )
        | inr (n, d) ↦ rw (outside, e, d, decode_pairs) (subst (Reads s) d rest)
      ]
    ]

pub decode-Reads : (s : List ℕ) → All (λ c. c < 128) s → Reads s (decode s)
unfolding decode
decode-Reads s h = elim (Bool-cases (length s % 2 == 0)) [
  | inl p ↦ rw (p, decode) (decode_pairs-Reads s h (ground arith))
  | inr p ↦ rw (p, decode) (λ q. cc)
]

-- A sign in front of a digit is read as if it were a zero: two texts for the same bytes.
pub decode_signed :
    (d : ℕ) (s : List ℕ)
    → d < 16
    → decode (b'+' ∷ hex_digit d ∷ s) ≡ decode (b'0' ∷ hex_digit d ∷ s)
unfolding decode decode_pairs from_str_radix parse_digits digit_value
decode_signed d s h = ground (arith, hex_digit_bounds d h)

-- A text with an even number of bytes whose third byte lies inside a character panics.
pub decode_panics :
    (a b : ℕ) (s : List ℕ)
    → length s % 2 ≡ 0
    → inside_char s ≡ true
    → decode (a ∷ b ∷ s) ≡ err panics
unfolding decode decode_pairs
decode_panics a b s e i = ground arith

fill_bloom-encode : (bs : List ℕ) → All IsByte bs → fill_bloom (encode bs) ≡ ok bs
unfolding fill_bloom encode hex_byte
fill_bloom-encode [] h = refl
fill_bloom-encode (b ∷ bs) h =
    ground (arith, from_str_radix-hex_byte b h.0, fill_bloom-encode bs h.1)

-- A bloom filter of 256 bytes that is written to a receipt is read back.
pub deserialize-serialize_bloom :
    (bloom : List ℕ)
    → length bloom ≡ 256
    → All IsByte bloom
    → deserialize_bloom (serialize_bloom bloom) ≡ ok bloom
unfolding deserialize_bloom serialize_bloom
deserialize-serialize_bloom bloom n h =
    rw (strip_0x_prefixed (encode bloom))
      (ground (arith, length-encode bloom, fill_bloom-encode bloom h))
