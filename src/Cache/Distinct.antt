-- ===== src/Cache/Distinct.antt =====
-- The guards of `insert` and `insert_elem` of src/change_lib/wall_cache.hpp, and what they keep.
use wallchanger.Base.{
  ℕ, Bool, true, false, ◌≡◌, refl, List, [], ◌∷◌, ◌++◌, Ordered, ◌==◌, ==_iff, distance_first,
  contains_first, erase_first, contains-append_one, if◌then◌else◌, arith, Bool-cases, inl, inr,
}
use wallchanger.Cache.Item.{CacheItem, item_ordered, unused}
use wallchanger.Cache.{Cache, has_value, contains, insert, erase, erase_at}

module _ {ℓ} {V : Type ℓ} ⦃o : Ordered V⦄ where
  -- No value stands in two items.
  abbrev pub DistinctValues : List (CacheItem V) → Type 0
  DistinctValues [] = Unit {0}
  DistinctValues (x ∷ xs) =
      (contains_first (has_value x.cache_value) xs ≡ false) × DistinctValues xs

  DistinctValues-append :
      (xs : List (CacheItem V)) (y : CacheItem V)
      → DistinctValues xs
      → contains_first (has_value y.cache_value) xs ≡ false
      → DistinctValues (xs ++ y ∷ [])
  unfolding contains_first
  DistinctValues-append [] y d h = (refl, tt)
  DistinctValues-append (x ∷ xs) y d h = (
    ground (
      arith,
      contains-append_one (has_value x.cache_value) xs y,
      ==_iff x.cache_value y.cache_value,
      ==_iff y.cache_value x.cache_value,
    ),
    DistinctValues-append xs y d.1 (ground arith),
  )

  -- `insert` keeps every value in one item at most, whatever the value and the location.
  pub insert-DistinctValues :
      (v : V) (loc : ℕ) (c : Cache V)
      → DistinctValues c.m_list
      → DistinctValues (insert v loc c).m_list
  unfolding insert
  insert-DistinctValues v loc c d = elim (Bool-cases (contains v c)) [
    | inl old ↦ rw (old, insert) d
    | inr new ↦ rw (new, insert) (DistinctValues-append c.m_list _ d new)
  ]

  -- After `insert v`, exactly `v` and the values from before are contained.
  pub contains-insert :
      (v w : V) (loc : ℕ) (c : Cache V)
      → contains w (insert v loc c) ≡ (if v == w then true else contains w c)
  unfolding insert contains
  contains-insert v w loc c = ground (
    arith,
    contains-append_one (has_value w) c.m_list
        (record { cache_value = v; cache_state = unused; loc = loc }),
    ==_iff v w,
  )

  -- `erase` at the iterator of `find` drops the first match.
  pub erase_at-distance :
      (p : CacheItem V → Bool) (xs : List (CacheItem V))
      → erase_at (distance_first p xs) xs ≡ erase_first p xs
  unfolding distance_first erase_first
  erase_at-distance p [] = refl
  erase_at-distance p (x ∷ xs) = ground (arith, erase_at-distance p xs)

  contains-erase :
      (v w : V) (xs : List (CacheItem V))
      → DistinctValues xs
      → contains_first (has_value w) (erase_first (has_value v) xs)
        ≡ (if v == w then false else contains_first (has_value w) xs)
  unfolding contains_first erase_first
  contains-erase v w [] d = ground arith
  contains-erase v w (x ∷ xs) d =
      ground (
        arith,
        contains-erase v w xs d.1,
        ==_iff x.cache_value v,
        ==_iff x.cache_value w,
        ==_iff v w,
      )

  pub erase-DistinctValues :
      (v : V) (xs : List (CacheItem V))
      → DistinctValues xs
      → DistinctValues (erase_first (has_value v) xs)
  unfolding erase_first
  erase-DistinctValues v [] d = tt
  erase-DistinctValues v (x ∷ xs) d =
      ground (arith, erase-DistinctValues v xs d.1, contains-erase v x.cache_value xs d.1)

  -- In a collection of distinct values, erasing what `find` gives for `v` takes `v` away and leaves
  -- the other values.
  pub contains-erase_value :
      (v w : V) (c : Cache V)
      → DistinctValues c.m_list
      → contains w (erase (distance_first (has_value v) c.m_list) c)
        ≡ (if v == w then false else contains w c)
  unfolding contains erase
  contains-erase_value v w c d =
      rw (erase_at-distance (has_value v) c.m_list) (contains-erase v w c.m_list d)
