-- ===== src/Cache/Merge.antt =====
-- `std::ranges::merge`, and what it writes through an iterator.
use mathlib.Core.List.{Perm, append-nil, perm_middle}
use mathlib.Core.List.Perm
use wallchanger.Base.{
  ℕ, zero, suc, ◌+◌, ◌≡◌, refl, ap, Bool, true, false, List, [], ◌∷◌, ◌++◌, Ordered, ◌<<◌, length,
  replicate, arith,
}

module _ {ℓ} {A : Type ℓ} ⦃o : Ordered A⦄ where
  -- An item of the second range goes first only where it is less.
  unfoldable pub merge : List A → List A → List A
  merge [] ys = ys
  merge (x ∷ xs) [] = x ∷ xs
  merge (x ∷ xs) (y ∷ ys) = elim (y << x) [
    | true ↦ y ∷ merge (x ∷ xs) ys
    | false ↦ x ∷ merge xs (y ∷ ys)
  ]

  merge_step :
      (b : Bool) (x y : A) (xs ys p q : List A)
      → Perm p ((x ∷ xs) ++ ys)
      → Perm q (xs ++ y ∷ ys)
      → Perm (elim b [ true ↦ y ∷ p | false ↦ x ∷ q ]) ((x ∷ xs) ++ y ∷ ys)
  merge_step true x y xs ys p q hp hq =
      Perm.trans (Perm.cons y hp) (Perm.symm (perm_middle (x ∷ xs) ys))
  merge_step false x y xs ys p q hp hq = Perm.cons x hq

  -- The merged range holds the items of both, as often.
  pub merge-Perm : (xs ys : List A) → Perm (merge xs ys) (xs ++ ys)
  unfolding merge
  merge-Perm [] ys = Perm.refl ys
  merge-Perm (x ∷ xs) [] = rw append-nil (Perm.refl (x ∷ xs))
  merge-Perm (x ∷ xs) (y ∷ ys) =
      merge_step (y << x) x y xs ys (merge (x ∷ xs) ys) (merge xs (y ∷ ys)) (merge-Perm (x ∷ xs) ys)
        (merge-Perm xs (y ∷ ys))

  pub length-merge :
      (first second : List A) → length first + length second ≡ length (merge first second)
  unfolding merge
  length-merge [] second = omega arith
  length-merge (p ∷ first) [] = omega arith
  length-merge (p ∷ first) (q ∷ second) =
      let after_p = length-merge first (q ∷ second) in
      let after_q = length-merge (p ∷ first) second in ground arith

-- Writing a range through `begin()` of a vector: past its end nothing is stored.
unfoldable pub overwrite {ℓ} : {A : Type ℓ} → List A → List A → List A
overwrite [] old = old
overwrite (x ∷ xs) [] = []
overwrite (x ∷ xs) (y ∷ old) = x ∷ overwrite xs old

pub overwrite_full {ℓ} :
    {A : Type ℓ} (xs old : List A) → length xs ≡ length old → overwrite xs old ≡ xs
unfolding overwrite
overwrite_full [] [] h = refl
overwrite_full [] (y ∷ old) h = absurd (omega arith)
overwrite_full (x ∷ xs) [] h = absurd (omega arith)
overwrite_full (x ∷ xs) (y ∷ old) h = ap (◌∷◌ x) (overwrite_full xs old (omega arith))

pub length-replicate {ℓ} : {A : Type ℓ} (n : ℕ) (a : A) → length (replicate n a) ≡ n
length-replicate zero a = refl
length-replicate (suc n) a = ap suc (length-replicate n a)
