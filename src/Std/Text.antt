-- ===== src/Std/Text.antt =====
-- What the source uses of Rust's `str` and of the formatting of numbers. A text is the list of its
-- bytes.
use Prim.Native.Char.{code}
use Prim.Native.String.{String}
use mathlib.Core.List.{append-nil, append_assoc}
use native.Mathlib.Nat.{pow-suc}
use nbnet.Std.Words.{u64_mod, u64_max}
use nbnet.Prelude.{
  Bool-cases, inl, inr, ℕ, zero, suc, ◌+◌, ◌-◌, ◌*◌, ◌/◌, ◌%◌, ◌^◌, ◌≤◌, ◌<◌, ◌≡◌, ◌≢◌, refl, sym,
  ap, ◌∙◌, ◌&&◌, Option, none, some, List, [], ◌∷◌, ◌++◌, leb, ltb, ◌==◌, if◌then◌else◌, arith,
}

-- The bytes of an ASCII literal.
abbrev pub codes : String → List ℕ
codes String.[] = []
codes (String.◌∷◌ c s) = code c ∷ codes s

-- `s.strip_prefix("0x")`
unfoldable pub strip_prefix : List ℕ → Option (List ℕ)
strip_prefix [] = none
strip_prefix (a ∷ []) = none
strip_prefix (a ∷ b ∷ s) = if a == b'0' && b == b'x' then some s else none

-- `s.strip_prefix("0x").unwrap_or(s)`
unfoldable pub strip_0x : List ℕ → List ℕ
strip_0x [] = []
strip_0x (a ∷ []) = a ∷ []
strip_0x (a ∷ b ∷ s) = if a == b'0' && b == b'x' then s else a ∷ b ∷ s

-- A hexadecimal digit in lower case, and the value of one in either case.
unfoldable pub hex_digit : ℕ → ℕ
hex_digit d = if ltb d 10 then b'0' + d else b'a' + (d - 10)

unfoldable pub digit_value : ℕ → Option ℕ
digit_value c =
    if leb b'0' c && leb c b'9'
    then some (c - b'0')
    else if leb b'a' c && leb c b'f'
    then some (c - b'a' + 10)
    else if leb b'A' c && leb c b'F'
    then some (c - b'A' + 10)
    else none

-- The digits of a number of a type whose largest value is `top`, after those read into `acc`.
unfoldable pub parse_digits : ℕ → ℕ → List ℕ → Option ℕ
parse_digits top acc [] = some acc
parse_digits top acc (c ∷ s) = elim (digit_value c) [
  | none ↦ none
  | some d ↦ if leb (16 * acc + d) top then parse_digits top (16 * acc + d) s else none
]

-- `from_str_radix(s, 16).ok()` of an unsigned type: a sign `+` may stand in front, and at least one
-- digit has to follow.
unfoldable pub from_str_radix : ℕ → List ℕ → Option ℕ
from_str_radix top [] = none
from_str_radix top (c ∷ []) = parse_digits top 0 (c ∷ [])
from_str_radix top (c ∷ d ∷ s) =
    if c == b'+' then parse_digits top 0 (d ∷ s) else parse_digits top 0 (c ∷ d ∷ s)

-- `format!("{b:02x}")` of a byte.
unfoldable pub hex_byte : ℕ → List ℕ
hex_byte b = hex_digit (b / 16) ∷ hex_digit (b % 16) ∷ []

-- `format!("{n:x}")` of a number with at most the given number of digits and one more.
unfoldable pub hex_digits : ℕ → ℕ → List ℕ
hex_digits zero n = hex_digit n ∷ []
hex_digits (suc k) n =
    if ltb n 16 then hex_digit n ∷ [] else hex_digits k (n / 16) ++ hex_digit (n % 16) ∷ []

-- ... of a `u64`.
unfoldable pub lower_hex_u64 : ℕ → List ℕ
lower_hex_u64 n = hex_digits 15 n

-- `n.to_string()` of a `u64`, which has twenty digits at most.
unfoldable pub decimal_digits : ℕ → ℕ → List ℕ
decimal_digits zero n = (b'0' + n) ∷ []
decimal_digits (suc k) n =
    if ltb n 10 then (b'0' + n) ∷ [] else decimal_digits k (n / 10) ++ (b'0' + n % 10) ∷ []

unfoldable pub decimal_u64 : ℕ → List ℕ
decimal_u64 n = decimal_digits 19 n

-- ... and of a `U256`, which has seventy-eight.
unfoldable pub decimal_u256 : ℕ → List ℕ
decimal_u256 n = decimal_digits 77 n

pub digit_value-hex_digit : (d : ℕ) → d < 16 → digit_value (hex_digit d) ≡ some d
unfolding digit_value hex_digit
digit_value-hex_digit d h = ground arith

-- No digit is a sign, and none is the mark of a prefix.
pub hex_digit_bounds : (d : ℕ) → d < 16 → (48 ≤ hex_digit d) × (hex_digit d ≤ 102)
unfolding hex_digit
hex_digit_bounds d h = ground arith

pub parse_digits_step :
    (top acc d : ℕ) (s : List ℕ)
    → d < 16
    → 16 * acc + d ≤ top
    → parse_digits top acc (hex_digit d ∷ s) ≡ parse_digits top (16 * acc + d) s
unfolding parse_digits
parse_digits_step top acc d s h l = ground (arith, digit_value-hex_digit d h)

pub parse-hex_digits :
    (k top n : ℕ) (s : List ℕ)
    → n < 16 ^ suc k
    → n ≤ top
    → parse_digits top 0 (hex_digits k n ++ s) ≡ parse_digits top n s
unfolding hex_digits
parse-hex_digits zero top n s h l =
    parse_digits_step top 0 n s (omega arith) (omega arith)
    ∙ ap (λ m. parse_digits top m s) (omega arith)
parse-hex_digits (suc k) top n s h l = elim (Bool-cases (ltb n 16)) [
  | inl p ↦ rw p (
      parse_digits_step top 0 n s (ground arith) (omega arith)
      ∙ ap (λ m. parse_digits top m s) (omega arith))
  | inr p ↦
      rw (p, append_assoc (hex_digits k (n / 16)) (hex_digit (n % 16) ∷ []) s)
        (parse-hex_digits k top (n / 16) (hex_digit (n % 16) ∷ s)
            (omega (arith, pow-suc 16 (suc k))) (omega arith)
          ∙ parse_digits_step top (n / 16) (n % 16) s (omega arith) (omega arith)
          ∙ ap (λ m. parse_digits top m s) (omega arith))
]

-- A text without a sign in front is read as its digits.
pub from_str_radix_unsigned :
    (top c : ℕ) (s : List ℕ) → c ≢ b'+' → from_str_radix top (c ∷ s) ≡ parse_digits top 0 (c ∷ s)
unfolding from_str_radix
from_str_radix_unsigned top c [] n = refl
from_str_radix_unsigned top c (d ∷ s) n = ground arith

pub from_str_radix-hex_byte : (b : ℕ) → b < 256 → from_str_radix 255 (hex_byte b) ≡ some b
unfolding hex_byte parse_digits
from_str_radix-hex_byte b h =
    let hi = b / 16 in
    from_str_radix_unsigned 255 (hex_digit hi) (hex_digit (b % 16) ∷ [])
      (λ e. absurd (omega (arith, hex_digit_bounds hi (omega arith), e)))
    ∙ parse_digits_step 255 0 hi (hex_digit (b % 16) ∷ []) (omega arith) (omega arith)
    ∙ parse_digits_step 255 (16 * 0 + hi) (b % 16) [] (omega arith) (omega arith)
    ∙ ap some (omega arith)

-- The first digit of a number.
hex_digits_head :
    (k n : ℕ) → n < 16 ^ suc k → (c : ℕ) × (s : List ℕ) × (hex_digits k n ≡ c ∷ s) × (48 ≤ c)
unfolding hex_digits
hex_digits_head zero n h = (hex_digit n, [], refl, (hex_digit_bounds n (omega arith)).0)
hex_digits_head (suc k) n h = elim (Bool-cases (ltb n 16)) [
  | inl p ↦ (hex_digit n, [], rw p refl, (hex_digit_bounds n (ground arith)).0)
  | inr p ↦
      let (c, s, e, l) = hex_digits_head k (n / 16) (omega (arith, pow-suc 16 (suc k))) in
      (c, s ++ hex_digit (n % 16) ∷ [], rw (p, e) refl, l)
]

-- Printing a number and reading it again, in a type that holds it and has digits enough.
pub from_str_radix-hex_digits :
    (k top n : ℕ) → n < 16 ^ suc k → n ≤ top → from_str_radix top (hex_digits k n) ≡ some n
unfolding parse_digits
from_str_radix-hex_digits k top n h l =
    let (c, s, e, low) = hex_digits_head k n h in
    let digits = parse-hex_digits k top n [] h l in
    rw e (
      from_str_radix_unsigned top c s (λ q. absurd (omega (arith, q)))
      ∙ ap (parse_digits top 0) (sym e ∙ sym (append-nil (hex_digits k n)))
      ∙ digits)

pub from_str_radix-lower_hex :
    (n : ℕ) → n < u64_mod → from_str_radix u64_max (lower_hex_u64 n) ≡ some n
unfolding lower_hex_u64
from_str_radix-lower_hex n h = from_str_radix-hex_digits 15 u64_max n (omega arith) (omega arith)

pub strip_0x_prefixed : (s : List ℕ) → strip_0x (b'0' ∷ b'x' ∷ s) ≡ s
unfolding strip_0x
strip_0x_prefixed s = refl
