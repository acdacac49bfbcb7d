-- ===== src/Cache.antt =====
-- src/change_lib/wall_cache.hpp: an item of a collection, and the collection, a vector of items
-- with a flag that is set by every access that could write.
pub mod Item
pub mod Merge
pub mod Distinct
pub mod Compare
pub mod Tests
use wallchanger.Base.{
  ℕ, zero, suc, Bool, true, false, List, [], ◌∷◌, ◌++◌, String, Ordered, ◌==◌, contains_first,
  if◌then◌else◌, length, replicate, get_elem?, Outcome, or_fault, bad_access,
}
use Item.{CacheState, CacheItem, item_ordered, null}

pub record Cache {ℓ} (V : Type ℓ) : Type ℓ where
  pub m_modified : Bool
  pub m_list : List (CacheItem V)

-- `cache() = default`.
abbrev pub empty_cache {ℓ} : {V : Type ℓ} → Cache V
empty_cache = record { m_modified = false; m_list = [] }

-- `explicit cache(size_type size)`: value-initialised items; `blank` is `Value{}`.
unfoldable pub sized_cache {ℓ} : {V : Type ℓ} → V → ℕ → Cache V
sized_cache blank n = record {
  m_modified = false;
  m_list = replicate n (record { cache_value = blank; cache_state = null; loc = 0 });
}

module _ {ℓ} {V : Type ℓ} where
  unfoldable pub clear : Cache V → Cache V
  clear c = record { m_modified = true; m_list = [] }

  -- `erase(pos)`, the position counted from the beginning.
  abbrev pub erase_at : ℕ → List (CacheItem V) → List (CacheItem V)
  erase_at i [] = []
  erase_at zero (x ∷ xs) = xs
  erase_at (suc i) (x ∷ xs) = x ∷ erase_at i xs

  unfoldable pub erase : ℕ → Cache V → Cache V
  erase i c = record { m_modified = true; m_list = erase_at i c.m_list }

  abbrev pub size : Cache V → ℕ
  size c = length c.m_list

  abbrev pub is_empty : Cache V → Bool
  is_empty c = elim c.m_list [ [] ↦ true | _ ↦ false ]

  abbrev pub modified : Cache V → Bool
  modified c = c.m_modified

  -- What the non-const `begin`, `end` and `data` do to the flag.
  abbrev pub touch : Cache V → Cache V
  touch c = record c { m_modified = true }

  -- `operator[]`, which is `std::vector::at`.
  unfoldable pub at : ℕ → Cache V → Outcome (CacheItem V)
  at i c = or_fault bad_access (get_elem? c.m_list i)

module _ {ℓ} {V : Type ℓ} ⦃o : Ordered V⦄ where
  -- The projection that `std::ranges::find` compares with a value.
  abbrev pub has_value : V → CacheItem V → Bool
  has_value v x = x.cache_value == v

  unfoldable pub contains : V → Cache V → Bool
  contains v c = contains_first (has_value v) c.m_list

  unfoldable pub insert : V → ℕ → Cache V → Cache V
  unfolding contains
  insert v loc c = if contains v c then c else record {
    m_modified = true;
    m_list =
        c.m_list ++ record { cache_value = v; cache_state = CacheState.unused; loc = loc } ∷ [];
  }

  unfoldable pub insert_elem : CacheItem V → Cache V → Cache V
  insert_elem x c =
      if contains_first (λ y. y == x) c.m_list
      then c
      else record { m_modified = true; m_list = c.m_list ++ x ∷ [] }
