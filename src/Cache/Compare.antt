-- ===== src/Cache/Compare.antt =====
-- The comparisons `<=>` that the compiler generates for the collections of
-- src/change_lib/wall_cache.hpp, member by member, their constant reverse iterators, and the text
-- of an item.
use Prim.Native.Nat.{compare}
use text.Mathlib.Text.{is_eq}
use wallchanger.Base.{
  ℕ, zero, suc, Bool, true, false, ◌≡◌, ◌↔◌, refl, List, [], ◌∷◌, Ordering, Ordered, arith, Outcome,
  fault, still_running,
}
use wallchanger.Cache.{Cache}
use wallchanger.Cache.Item.{CacheItem, then_compare, item_ordered}

abbrev as_number : Bool → ℕ
as_number false = 0
as_number true = 1

abbrev pub compare_flags : Bool → Bool → Ordering
compare_flags a b = compare (as_number a) (as_number b)

compare_flags_iff : (a b : Bool) → (is_eq (compare_flags a b) ≡ true) ↔ (a ≡ b)
compare_flags_iff a b = ground arith

-- `std::vector`, element by element.
module _ {ℓ} {A : Type ℓ} ⦃o : Ordered A⦄ where
  unfoldable pub compare_lists : List A → List A → Ordering
  compare_lists [] [] = Ordering.eq
  compare_lists [] (y ∷ ys) = Ordering.lt
  compare_lists (x ∷ xs) [] = Ordering.gt
  compare_lists (x ∷ xs) (y ∷ ys) = then_compare (o.three_way x y) (compare_lists xs ys)

  pub compare_lists_iff : (xs ys : List A) → (is_eq (compare_lists xs ys) ≡ true) ↔ (xs ≡ ys)
  unfolding compare_lists
  compare_lists_iff [] [] = ((λ h. refl), λ h. refl)
  compare_lists_iff [] (y ∷ ys) = ((λ h. cc), λ h. cc)
  compare_lists_iff (x ∷ xs) [] = ((λ h. cc), λ h. cc)
  compare_lists_iff (x ∷ xs) (y ∷ ys) = ground (arith, o.three_way_iff x y, compare_lists_iff xs ys)

module _ {ℓ} {V : Type ℓ} ⦃o : Ordered V⦄ where
  abbrev pub compare_caches : Cache V → Cache V → Ordering
  compare_caches c d =
      then_compare (compare_flags c.m_modified d.m_modified) (compare_lists c.m_list d.m_list)

  pub compare_caches_iff : (c d : Cache V) → (is_eq (compare_caches c d) ≡ true) ↔ (c ≡ d)
  compare_caches_iff c d =
      ground
        (arith, compare_flags_iff c.m_modified d.m_modified, compare_lists_iff c.m_list d.m_list)

-- The constant `rbegin` and `rend` call themselves, for as many calls as there is room for.
unfoldable pub const_rbegin {ℓ} : {V : Type ℓ} → ℕ → Cache V → Outcome (List (CacheItem V))
const_rbegin zero c = fault still_running
const_rbegin (suc n) c = const_rbegin n c

const_rbegin_lem {ℓ} : {V : Type ℓ} (n : ℕ) (c : Cache V) → const_rbegin n c ≡ fault still_running
unfolding const_rbegin
const_rbegin_lem zero c = refl
const_rbegin_lem (suc n) c = const_rbegin_lem n c
