-- ===== src/Tests/JsonWorld.antt =====
-- Concrete JSON values and hexadecimal texts, as instances of the interfaces of crates/rpc/src/lib.rs.
use Prim.Native.String.{String}
use text.Mathlib.Text
use nbnet.Prelude.{
  ℕ, ◌<◌, ◌^◌, ◌-◌, ◌≡◌, refl, ap, Bool, Option, none, some, List, [], ◌∷◌, if◌then◌else◌, Result,
  ok, ℤ, All, map_err, ok_or, arith,
}
use nbnet.Std.Text.{hex_digits, from_str_radix, from_str_radix-hex_digits}
use nbnet.Types.Hex.{encode, decode}
use nbnet.Types.Hex.RoundTrip.{decode-encode}
use nbnet.Rpc.External.{Serde, Codec, field}

mutual
  pub data Json : Type 0 where
    null float_zero : Json
    bool : Bool → Json
    number : ℤ → Json
    string : List ℕ → Json
    array : Elements → Json
    object : Fields → Json

  pub data Elements : Type 0 where
    none_left : Elements
    element : Json → Elements → Elements

  pub data Fields : Type 0 where
    no_field : Fields
    entry : String → Json → Fields → Fields

abbrev pub of_list : List Json → Elements
of_list [] = none_left
of_list (x ∷ xs) = element x (of_list xs)

abbrev pub to_list : Elements → List Json
to_list none_left = []
to_list (element x xs) = x ∷ to_list xs

abbrev pub of_fields : List (String × Json) → Fields
of_fields [] = no_field
of_fields ((k, x) ∷ fs) = entry k x (of_fields fs)

abbrev pub lookup : Fields → String → Json
lookup no_field k = null
lookup (entry j x fs) k = if Text.◌==◌ j k then x else lookup fs k

abbrev pub as_str : Json → Option (List ℕ)
as_str (string s) = some s
as_str _ = none

abbrev pub as_array : Json → Option (List Json)
as_array (array xs) = some (to_list xs)
as_array _ = none

abbrev pub index : Json → String → Json
index (object fs) k = lookup fs k
index _ k = null

pub to_list-of_list : (xs : List Json) → to_list (of_list xs) ≡ xs
to_list-of_list [] = refl
to_list-of_list (x ∷ xs) = ap (λ ys. x ∷ ys) (to_list-of_list xs)

pub lookup-field :
    (fs : List (String × Json)) (k : String) → lookup (of_fields fs) k ≡ field null fs k
unfolding field
lookup-field [] k = refl
lookup-field ((j, x) ∷ fs) k = rw (lookup-field fs k) refl

instance abbrev pub mini_json : Serde Json
mini_json = record {
  null = null;
  bool = bool;
  number = number;
  float_zero = float_zero;
  string = string;
  array = λ xs. array (of_list xs);
  object = λ fs. object (of_fields fs);
  as_str = as_str;
  as_array = as_array;
  index = index;
  as_str-string = λ s. refl;
  as_str-null = refl;
  as_array-array = λ xs. ap some (to_list-of_list xs);
  index-object = λ fs k. lookup-field fs k;
}

abbrev pub decode_bytes : List ℕ → Result (List ℕ) String
decode_bytes s = map_err (λ e. "invalid") (decode s)

abbrev pub read_u256 : List ℕ → Result ℕ String
read_u256 s = ok_or (from_str_radix (2 ^ 256 - 1) s) "invalid"

pub decode_bytes-encode : (bs : List ℕ) → All (λ b. b < 256) bs → decode_bytes (encode bs) ≡ ok bs
decode_bytes-encode bs h = rw (decode-encode bs h) refl

pub read_back : (n : ℕ) → n < 2 ^ 256 → read_u256 (hex_digits 63 n) ≡ ok n
read_back n h = rw (from_str_radix-hex_digits 63 (2 ^ 256 - 1) n (omega arith) (omega arith)) refl

instance abbrev pub mini_codec : Codec
mini_codec = record {
  encode = encode;
  decode = decode_bytes;
  decode-encode = decode_bytes-encode;
  lower_hex_u256 = hex_digits 63;
  u256_from_str_radix = read_u256;
  u256_from-lower_hex = read_back;
}
