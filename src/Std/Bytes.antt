-- ===== src/Std/Bytes.antt =====
-- `to_be_bytes`, `from_be_bytes` and `to_le_bytes` of the unsigned integers. An address is a number
-- below 256 ^ 20 and a hash or a 256-bit word one below 256 ^ 32; their bytes are the big-endian ones.
use native.Mathlib.Nat.{pow-suc}
use nbnet.Prelude.{
  ℕ, zero, suc, ◌+◌, ◌*◌, ◌/◌, ◌%◌, ◌^◌, ◌<◌, ◌≡◌, refl, sym, ap, ◌∙◌, List, [], ◌∷◌, ◌++◌, arith,
  length, length-append, take, drop, All, All-append,
}

-- The `n` low bytes of `x`, most significant first.
unfoldable pub to_be_bytes : ℕ → ℕ → List ℕ
to_be_bytes zero x = []
to_be_bytes (suc n) x = to_be_bytes n (x / 256) ++ (x % 256) ∷ []

from_be_acc : ℕ → List ℕ → ℕ
from_be_acc acc [] = acc
from_be_acc acc (b ∷ bs) = from_be_acc (acc * 256 + b) bs

unfoldable pub from_be_bytes : List ℕ → ℕ
unfolding from_be_acc
from_be_bytes = from_be_acc 0

-- The `n` low bytes of `x`, least significant first.
unfoldable pub to_le_bytes : ℕ → ℕ → List ℕ
to_le_bytes zero x = []
to_le_bytes (suc n) x = (x % 256) ∷ to_le_bytes n (x / 256)

unfoldable pub from_le_bytes : List ℕ → ℕ
from_le_bytes [] = 0
from_le_bytes (b ∷ bs) = b + 256 * from_le_bytes bs

from_be_acc-snoc :
    (acc : ℕ) (bs : List ℕ) (b : ℕ) → from_be_acc acc (bs ++ b ∷ []) ≡ from_be_acc acc bs * 256 + b
unfolding from_be_acc
from_be_acc-snoc acc [] b = refl
from_be_acc-snoc acc (c ∷ bs) b = from_be_acc-snoc (acc * 256 + c) bs b

pub from_be-to_be : (n x : ℕ) → x < 256 ^ n → from_be_bytes (to_be_bytes n x) ≡ x
unfolding from_be_bytes to_be_bytes
from_be-to_be zero x h = omega arith
from_be-to_be (suc n) x h =
    from_be_acc-snoc 0 (to_be_bytes n (x / 256)) (x % 256)
    ∙ omega (arith, from_be-to_be n (x / 256) (omega (arith, pow-suc 256 n)))

pub length-to_be : (n x : ℕ) → length (to_be_bytes n x) ≡ n
unfolding to_be_bytes
length-to_be zero x = refl
length-to_be (suc n) x =
    omega
      (arith, length-append (to_be_bytes n (x / 256)) ((x % 256) ∷ []), length-to_be n (x / 256))

pub to_be_bytes-All : (n x : ℕ) → All (λ b. b < 256) (to_be_bytes n x)
unfolding to_be_bytes
to_be_bytes-All zero x = tt
to_be_bytes-All (suc n) x =
    All-append (λ b. b < 256) (to_be_bytes n (x / 256)) ((x % 256) ∷ [])
      (to_be_bytes-All n (x / 256)) (omega arith, tt)

-- Two numbers in range with the same bytes are equal.
pub to_be_injective :
    (n x y : ℕ) → x < 256 ^ n → y < 256 ^ n → to_be_bytes n x ≡ to_be_bytes n y → x ≡ y
to_be_injective n x y hx hy e =
    sym (from_be-to_be n x hx) ∙ ap from_be_bytes e ∙ from_be-to_be n y hy

pub from_le-to_le : (n x : ℕ) → x < 256 ^ n → from_le_bytes (to_le_bytes n x) ≡ x
unfolding from_le_bytes to_le_bytes
from_le-to_le zero x h = omega arith
from_le-to_le (suc n) x h = omega (arith, from_le-to_le n (x / 256) (omega (arith, pow-suc 256 n)))

pub length-to_le : (n x : ℕ) → length (to_le_bytes n x) ≡ n
unfolding to_le_bytes
length-to_le zero x = refl
length-to_le (suc n) x = ap suc (length-to_le n (x / 256))

-- To split a concatenation at the length of its first part.
pub take_append {ℓ} : {A : Type ℓ} (n : ℕ) (xs ys : List A) → length xs ≡ n → take n (xs ++ ys) ≡ xs
take_append zero [] ys e = refl
take_append zero (x ∷ xs) ys e = absurd (omega arith)
take_append (suc n) [] ys e = absurd (omega arith)
take_append (suc n) (x ∷ xs) ys e = ap (◌∷◌ x) (take_append n xs ys (omega arith))

pub drop_append {ℓ} : {A : Type ℓ} (n : ℕ) (xs ys : List A) → length xs ≡ n → drop n (xs ++ ys) ≡ ys
drop_append zero [] ys e = refl
drop_append zero (x ∷ xs) ys e = absurd (omega arith)
drop_append (suc n) [] ys e = absurd (omega arith)
drop_append (suc n) (x ∷ xs) ys e = drop_append n xs ys (omega arith)

pub append_injective {ℓ} :
    {A : Type ℓ} (n : ℕ) (xs ys us vs : List A)
    → length xs ≡ n
    → length us ≡ n
    → xs ++ ys ≡ us ++ vs
    → (xs ≡ us) × (ys ≡ vs)
append_injective n xs ys us vs p q e = (
  sym (take_append n xs ys p) ∙ ap (take n) e ∙ take_append n us vs q,
  sym (drop_append n xs ys p) ∙ ap (drop n) e ∙ drop_append n us vs q,
)
