-- ===== src/Base/Find.antt =====
-- `std::ranges::find` and the uses that the source makes of the iterator it returns: reading
-- the element, writing it, erasing it, and its distance from the beginning.
use Prim.Native.Nat.{ℕ, suc, ◌+◌, ◌<◌}
use mathlib.Core.Path.{◌≡◌, refl}
use mathlib.Core.Logic.{inl, inr}
use mathlib.Core.Bool.{Bool, true, false}
use mathlib.Core.List.{List, [], ◌∷◌, ◌++◌}
use mathlib.Core.Option.{Option, none, some}
use native.Mathlib.Omega.{arith}
use wallchanger.Base.Tests.{if◌then◌else◌, Bool-cases}
use wallchanger.Base.Lists.{length, get_elem?}

module _ {ℓ} {A : Type ℓ} (p : A → Bool) where
  -- `none` is the end iterator.
  unfoldable pub find_first : List A → Option A
  find_first [] = none
  find_first (x ∷ xs) = if p x then some x else find_first xs

  unfoldable pub modify_first : (A → A) → List A → List A
  modify_first f [] = []
  modify_first f (x ∷ xs) = if p x then f x ∷ xs else x ∷ modify_first f xs

  unfoldable pub erase_first : List A → List A
  erase_first [] = []
  erase_first (x ∷ xs) = if p x then xs else x ∷ erase_first xs

  -- `std::distance(begin, it)`; the length where nothing is found.
  unfoldable pub distance_first : List A → ℕ
  distance_first [] = 0
  distance_first (x ∷ xs) = if p x then 0 else suc (distance_first xs)

  unfoldable pub contains_first : List A → Bool
  contains_first [] = false
  contains_first (x ∷ xs) = if p x then true else contains_first xs

module _ {ℓ} {A : Type ℓ} (p : A → Bool) where
  pub find-append_one :
      (xs : List A) (y : A)
      → find_first p (xs ++ y ∷ [])
        ≡ (if contains_first p xs then find_first p xs else if p y then some y else none)
  unfolding find_first contains_first
  find-append_one [] y = refl
  find-append_one (x ∷ xs) y = ground (arith, find-append_one xs y)

  pub contains-append_one :
      (xs : List A) (y : A)
      → contains_first p (xs ++ y ∷ []) ≡ (if contains_first p xs then true else p y)
  unfolding contains_first
  contains-append_one [] y = ground arith
  contains-append_one (x ∷ xs) y = ground (arith, contains-append_one xs y)

  pub find_of_contains :
      (xs : List A)
      → contains_first p xs ≡ true
      → (x : A) × (find_first p xs ≡ some x) × (p x ≡ true)
  unfolding find_first contains_first
  find_of_contains [] h = cc
  find_of_contains (x ∷ xs) h = elim (Bool-cases (p x)) [
    | inl hit ↦ (x, rw hit, hit)
    | inr miss ↦ let (y, found, hit) = find_of_contains xs (ground arith) in (y, rw miss found, hit)
  ]

  pub find_of_not_contains : (xs : List A) → contains_first p xs ≡ false → find_first p xs ≡ none
  unfolding find_first contains_first
  find_of_not_contains [] h = refl
  find_of_not_contains (x ∷ xs) h = ground (arith, find_of_not_contains xs)

  pub distance-lt_length :
      (xs : List A) → contains_first p xs ≡ true → distance_first p xs < length xs
  unfolding distance_first contains_first
  distance-lt_length [] h = cc
  distance-lt_length (x ∷ xs) h = ground (arith, distance-lt_length xs)

  pub get_elem?-distance : (xs : List A) → get_elem? xs (distance_first p xs) ≡ find_first p xs
  unfolding find_first distance_first
  get_elem?-distance [] = refl
  get_elem?-distance (x ∷ xs) = ground (arith, get_elem?-distance xs)

  pub length-modify : (f : A → A) (xs : List A) → length (modify_first p f xs) ≡ length xs
  unfolding modify_first
  length-modify f [] = refl
  length-modify f (x ∷ xs) = ground (arith, length-modify f xs)

  pub length-erase :
      (xs : List A) → length xs ≡ length (erase_first p xs) + (if contains_first p xs then 1 else 0)
  unfolding erase_first contains_first
  length-erase [] = refl
  length-erase (x ∷ xs) = ground (arith, length-erase xs)
