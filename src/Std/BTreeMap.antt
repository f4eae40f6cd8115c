-- ===== src/Std/BTreeMap.antt =====
-- `std::collections::BTreeMap` with integer keys: the entries in the order of the keys.
use nbnet.Prelude.{
  ℕ, suc, ◌+◌, ◌≤◌, ◌<◌, ◌≡◌, refl, Bool, true, false, Option, none, some, List, [], ◌∷◌, map,
  arith, is_some, ltb, ◌==◌, if◌then◌else◌, length,
}

abbrev pub BTreeMap {ℓ} : Type ℓ → Type ℓ
BTreeMap V = List (ℕ × V)

module _ {ℓ} {V : Type ℓ} where
  abbrev pub keys : BTreeMap V → List ℕ
  keys = map (λ e. e.0)

  unfoldable pub get : BTreeMap V → ℕ → Option V
  get [] k = none
  get ((j, v) ∷ m) k = if j == k then some v else get m k

  unfoldable pub contains_key : BTreeMap V → ℕ → Bool
  contains_key m k = is_some (get m k)

  unfoldable pub insert : BTreeMap V → ℕ → V → BTreeMap V
  insert [] k v = (k, v) ∷ []
  insert ((j, w) ∷ m) k v =
      if ltb k j then (k, v) ∷ (j, w) ∷ m else if j == k then (k, v) ∷ m else (j, w) ∷ insert m k v

  unfoldable pub remove : BTreeMap V → ℕ → BTreeMap V
  remove [] k = []
  remove ((j, w) ∷ m) k = let rest = remove m k in if j == k then rest else (j, w) ∷ rest

  -- `iter().next()`
  unfoldable pub first : BTreeMap V → Option (ℕ × V)
  first [] = none
  first (e ∷ m) = some e

  -- `keys().last()`
  unfoldable pub last_key : BTreeMap V → Option ℕ
  last_key [] = none
  last_key ((k, v) ∷ []) = some k
  last_key ((k, v) ∷ e ∷ m) = last_key (e ∷ m)

  -- The keys of `range(..n)`.
  unfoldable pub keys_below : ℕ → BTreeMap V → List ℕ
  keys_below n [] = []
  keys_below n ((k, v) ∷ m) = let rest = keys_below n m in if ltb k n then k ∷ rest else []

  unfoldable pub is_empty : BTreeMap V → Bool
  is_empty [] = true
  is_empty (e ∷ m) = false

  -- The keys rise along the list, from `lo` on and below `hi`: what a `BTreeMap` guarantees.
  abbrev pub Keys : ℕ → ℕ → BTreeMap V → Type 0
  Keys lo hi [] = Unit
  Keys lo hi ((k, v) ∷ m) = (lo ≤ k) × (k < hi) × Keys (suc k) hi m

  pub get-insert :
      (m : BTreeMap V) (k j : ℕ) (v : V)
      → get (insert m k v) j ≡ (if k == j then some v else get m j)
  unfolding get insert
  get-insert [] k j v = refl
  get-insert ((i, w) ∷ m) k j v = ground (arith, get-insert m k j v)

  pub get-remove :
      (m : BTreeMap V) (k j : ℕ) → get (remove m k) j ≡ (if k == j then none else get m j)
  unfolding get remove
  get-remove [] k j = ground arith
  get-remove ((i, w) ∷ m) k j = ground (arith, get-remove m k j)

  pub Keys-weaken : (lo lo' hi : ℕ) (m : BTreeMap V) → lo' ≤ lo → Keys lo hi m → Keys lo' hi m
  Keys-weaken lo lo' hi [] h s = tt
  Keys-weaken lo lo' hi ((k, v) ∷ m) h s = (omega arith, s.1, s.2)

  pub insert-Keys :
      (lo hi : ℕ) (m : BTreeMap V) (k : ℕ) (v : V)
      → lo ≤ k
      → k < hi
      → Keys lo hi m
      → Keys lo hi (insert m k v)
  unfolding insert
  insert-Keys lo hi [] k v h u s = (h, u, tt)
  insert-Keys lo hi ((j, w) ∷ m) k v h u s = ground (arith, insert-Keys (suc j) hi m k v)

  pub remove-Keys : (lo hi : ℕ) (m : BTreeMap V) (k : ℕ) → Keys lo hi m → Keys lo hi (remove m k)
  unfolding remove
  remove-Keys lo hi [] k s = tt
  remove-Keys lo hi ((j, w) ∷ m) k s =
      ground (arith, remove-Keys (suc j) hi m k s.2, Keys-weaken (suc j) lo hi (remove m k))

  pub get_below : (lo hi : ℕ) (m : BTreeMap V) (j : ℕ) → Keys lo hi m → j < lo → get m j ≡ none
  unfolding get
  get_below lo hi [] j s h = refl
  get_below lo hi ((k, v) ∷ m) j s h = ground (arith, get_below (suc k) hi m j)

  pub last_key_ge :
      (lo hi : ℕ) (m : BTreeMap V) (l : ℕ)
      → Keys lo hi m
      → last_key m ≡ some l
      → (lo ≤ l) × (l < hi)
  unfolding last_key
  last_key_ge lo hi [] l s e = cc
  last_key_ge lo hi ((k, v) ∷ []) l s e = ground arith
  last_key_ge lo hi ((k, v) ∷ (i, w) ∷ m) l s e =
      let rest = last_key_ge (suc k) hi ((i, w) ∷ m) l s.2 e in omega arith

  -- Above the last key there is nothing.
  pub get_above_last :
      (lo hi : ℕ) (m : BTreeMap V) (l j : ℕ)
      → Keys lo hi m
      → last_key m ≡ some l
      → l < j
      → get m j ≡ none
  unfolding get last_key
  get_above_last lo hi [] l j s e h = refl
  get_above_last lo hi ((k, v) ∷ []) l j s e h = ground arith
  get_above_last lo hi ((k, v) ∷ (i, w) ∷ m) l j s e h = ground (
    arith,
    get_above_last (suc k) hi ((i, w) ∷ m) l j s.2,
    last_key_ge (suc k) hi ((i, w) ∷ m) l s.2,
  )

  -- A bound on the keys can be raised, and lowered to just above the last key.
  pub Keys-raise : (lo hi hi' : ℕ) (m : BTreeMap V) → hi ≤ hi' → Keys lo hi m → Keys lo hi' m
  Keys-raise lo hi hi' [] h s = tt
  Keys-raise lo hi hi' ((k, v) ∷ m) h s = (s.0, omega arith, Keys-raise (suc k) hi hi' m h s.2)

  pub Keys-tighten :
      (lo hi : ℕ) (m : BTreeMap V) (l : ℕ) → Keys lo hi m → last_key m ≡ some l → Keys lo (suc l) m
  unfolding last_key
  Keys-tighten lo hi [] l s e = tt
  Keys-tighten lo hi ((k, v) ∷ []) l s e = (s.0, ground arith, tt)
  Keys-tighten lo hi ((k, v) ∷ (i, w) ∷ m) l s e =
      let rest = last_key_ge (suc k) hi ((i, w) ∷ m) l s.2 e in
      (s.0, omega arith, Keys-tighten (suc k) hi ((i, w) ∷ m) l s.2 e)

  pub last_key-eq-none : (m : BTreeMap V) → last_key m ≡ none → m ≡ []
  unfolding last_key
  last_key-eq-none [] e = refl
  last_key-eq-none ((k, v) ∷ []) e = cc
  last_key-eq-none ((k, v) ∷ (i, w) ∷ m) e = cc (last_key-eq-none ((i, w) ∷ m) e)

  -- A key above all others becomes the last one.
  pub last_key-insert :
      (lo : ℕ) (m : BTreeMap V) (k : ℕ) (v : V) → Keys lo k m → last_key (insert m k v) ≡ some k
  unfolding last_key insert
  last_key-insert lo [] k v s = refl
  last_key-insert lo ((j, w) ∷ []) k v s = ground arith
  last_key-insert lo ((j, w) ∷ (i, u) ∷ m) k v s =
      ground (arith, last_key-insert (suc j) ((i, u) ∷ m) k v s.2)

  -- Nothing stands at or above the upper bound.
  pub get_from : (lo hi : ℕ) (m : BTreeMap V) (j : ℕ) → Keys lo hi m → hi ≤ j → get m j ≡ none
  unfolding get
  get_from lo hi [] j s h = refl
  get_from lo hi ((k, v) ∷ m) j s h = ground (arith, get_from (suc k) hi m j)

  pub get_first : (k : ℕ) (v : V) (m : BTreeMap V) → get ((k, v) ∷ m) k ≡ some v
  unfolding get
  get_first k v m = ground arith

  pub length-insert-le : (m : BTreeMap V) (k : ℕ) (v : V) → length (insert m k v) ≤ length m + 1
  unfolding insert
  length-insert-le [] k v = omega arith
  length-insert-le ((j, w) ∷ m) k v = ground (arith, length-insert-le m k v)

  -- A new key adds one entry.
  pub length-insert_new :
      (m : BTreeMap V) (k : ℕ) (v : V) → get m k ≡ none → length (insert m k v) ≡ suc (length m)
  unfolding get insert
  length-insert_new [] k v e = refl
  length-insert_new ((j, w) ∷ m) k v e = ground (arith, length-insert_new m k v)

  remove_absent : (m : BTreeMap V) (k : ℕ) → get m k ≡ none → remove m k ≡ m
  unfolding get remove
  remove_absent [] k e = refl
  remove_absent ((j, w) ∷ m) k e = ground (arith, remove_absent m k)

  -- A key that is there takes one entry with it.
  pub length-remove_present :
      (lo hi : ℕ) (m : BTreeMap V) (k : ℕ) (v : V)
      → Keys lo hi m
      → get m k ≡ some v
      → suc (length (remove m k)) ≡ length m
  unfolding get remove
  length-remove_present lo hi [] k v s e = cc
  length-remove_present lo hi ((j, w) ∷ m) k v s e = ground (
    arith,
    length-remove_present (suc j) hi m k v s.2,
    remove_absent m k,
    get_below (suc j) hi m k s.2,
  )

pub ruleset btree_laws = (get-insert, get-remove)
