-- ===== src/Std/Files.antt =====
-- The file system of std::fs and std::path, and the actions that read and change it: an action gets the
-- world and returns an outcome and the world after it.
use nbnet.Prelude.{ℕ, ◌⊎◌, ◌≡◌, refl, Bool, true, List, ◌∷◌, Result, ok, err}

-- Why an action ends early: an error that it returns, with the texts that say where, or a panic.
pub data Fault : Type 0 where
  failed : List (List ℕ) → Fault
  panicked : Fault

-- `ruc`'s `c(d!(…))`: an error gets one more text.
abbrev pub context {ℓ} : {A : Type ℓ} → List ℕ → Result A Fault → Result A Fault
context text (ok a) = ok a
context text (err (failed texts)) = err (failed (text ∷ texts))
context text (err panicked) = err panicked

pub record Files : Type 1 where
  pub FilePath : Type 0
  -- `PathBuf::from`
  pub path : List ℕ → FilePath
  pub join : FilePath → List ℕ → FilePath
  pub World : Type 0
  pub exists : World → FilePath → Bool
  pub read_to_string : World → FilePath → Result (List ℕ) Fault
  pub write : FilePath → List ℕ → World → Result (Unit {0}) Fault × World
  -- What was written is read back, and another path reads as before, unless it leads to that file.
  pub read-write :
      (p : FilePath) (text : List ℕ) (w w' : World)
      → write p text w ≡ (ok tt, w')
      → read_to_string w' p ≡ ok text
  pub read-write_else :
      (p q : FilePath) (text : List ℕ) (w w' : World)
      → write p text w ≡ (ok tt, w')
      → (read_to_string w' q ≡ ok text) ⊎ (read_to_string w' q ≡ read_to_string w q)
  -- What can be read exists.
  pub exists-read :
      (p : FilePath) (text : List ℕ) (w : World) → read_to_string w p ≡ ok text → exists w p ≡ true

abbrev pub Act : Type 0 → Type 0 → Type 0
Act W A = W → Result A Fault × W

module _ {W A : Type 0} where
  -- What needs no world, and what only reads it.
  abbrev pub give : Result A Fault → Act W A
  give r w = (r, w)

  abbrev pub look : (W → Result A Fault) → Act W A
  look r w = (r w, w)

  -- `unwrap` and `expect`: an error becomes a panic.
  abbrev pub unwrap : Act W A → Act W A
  unwrap m w = escalate (m w)
    where
      escalate : Result A Fault × W → Result A Fault × W
      escalate (ok a, w') = (ok a, w')
      escalate (err e, w') = (err panicked, w')

  -- An action with one more text to its error.
  abbrev pub explain : List ℕ → Act W A → Act W A
  explain text m w = let (r, w') = m w in (context text r, w')

infixl 5 ◌>>=◌ ◌>>◌
abbrev pub continue : {W A B : Type 0} → (A → Act W B) → Result A Fault × W → Result B Fault × W
continue k (ok a, w) = k a w
continue k (err e, w) = (err e, w)

abbrev pub ◌>>=◌ : {W A B : Type 0} → Act W A → (A → Act W B) → Act W B
◌>>=◌ m k w = continue k (m w)

abbrev pub ◌>>◌ : {W B : Type 0} → Act W (Unit {0}) → Act W B → Act W B
m >> k = m >>= λ _. k

continue-ok :
    {W A B : Type 0} (k : A → Act W B) (r : Result A Fault × W) (w' : W) (b : B)
    → continue k r ≡ (ok b, w')
    → (a : A) × (v : W) × (r ≡ (ok a, v)) × (k a v ≡ (ok b, w'))
continue-ok k (ok a, v) w' b e = (a, v, refl, e)
continue-ok k (err x, v) w' b e = absurd cc

-- A chain that ends well: so did its first part.
pub >>=-ok :
    {W A B : Type 0} (m : Act W A) (k : A → Act W B) (w w' : W) (b : B)
    → (m >>= k) w ≡ (ok b, w')
    → (a : A) × (v : W) × (m w ≡ (ok a, v)) × (k a v ≡ (ok b, w'))
>>=-ok m k w w' b e = continue-ok k (m w) w' b e
