-- ===== src/CacheLib/Active.antt =====
-- The active collection of src/change_lib/wall_cache_library.cpp: `m_current`, an index into the
-- vector, and `m_active_name`, which `change_active` sets together.
use wallchanger.Base.{
  ℕ, zero, suc, ◌≤◌, ◌^◌, true, false, ◌≡◌, ◌⊎◌, refl, sym, ◌∙◌, List, [], ◌∷◌, ◌++◌, String,
  Option, none, some, ◌==◌, string_ordered, ==_iff, ==_refl, contains_first, modify_first,
  distance_first, if◌then◌else◌, get_elem?, length, arith, done, get_elem?-distance,
  distance-lt_length, Bool-cases, inl, inr, find_of_contains,
}
use wallchanger.Cache.{Cache}
use wallchanger.CacheLib.Error.{value, unexpected, cache_does_not_exists}
use wallchanger.CacheLib.Lookup.{has, DistinctNames, exists_lem, remove-vec, has-erase, renamed}
use wallchanger.CacheLib.{
  CacheStore, CacheLib, has_name, exists, position, change_active, insert, rename_store, remove,
}

-- The name of the collection at an index.
abbrev pub name_at : List CacheStore → ℕ → Option String
name_at l i = elim (get_elem? l i) [ none ↦ none | some s ↦ some s.first ]

-- `m_current` is the index of the collection that `m_active_name` names.
abbrev pub IsActive : CacheLib → Type 0
IsActive lib = name_at lib.m_cache_vec lib.m_current ≡ some lib.m_active_name

pub name_at_of_get :
    (l : List CacheStore) (i : ℕ) (s : CacheStore)
    → get_elem? l i ≡ some s
    → name_at l i ≡ some s.first
name_at_of_get l i s h = ground arith

pub name_at-has : (l : List CacheStore) (i : ℕ) (n : String) → name_at l i ≡ some n → has n l ≡ true
unfolding contains_first
name_at-has [] i n h = cc
name_at-has (s ∷ l) zero n h = ground (arith, ==_iff s.first n)
name_at-has (s ∷ l) (suc i) n h = ground (arith, name_at-has l i n h)

name_at-append :
    (l : List CacheStore) (s : CacheStore) (i : ℕ) (n : String)
    → name_at l i ≡ some n
    → name_at (l ++ s ∷ []) i ≡ some n
name_at-append [] s i n h = cc
name_at-append (x ∷ l) s zero n h = h
name_at-append (x ∷ l) s (suc i) n h = name_at-append l s i n h

name_at-renamed :
    (from to : String) (l : List CacheStore) (i : ℕ) (n : String)
    → DistinctNames l
    → name_at l i ≡ some n
    → name_at (renamed from to l) i ≡ some (if from == n then to else n)
unfolding modify_first
name_at-renamed from to [] i n d h = cc
name_at-renamed from to (s ∷ l) zero n d h = ground (arith, ==_iff s.first from, ==_iff from n)
name_at-renamed from to (s ∷ l) (suc i) n d h = ground (
  arith,
  name_at-renamed from to l i n d.1 h,
  name_at-has l i n h,
  ==_iff s.first from,
  ==_iff from n,
)

position_lem :
    (n : String) (lib : CacheLib)
    → length lib.m_cache_vec ≤ 2 ^ 32
    → has n lib.m_cache_vec ≡ true
    → position n lib ≡ distance_first (has_name n) lib.m_cache_vec
position_lem n lib small h = omega (arith, distance-lt_length (has_name n) lib.m_cache_vec h)

-- `change_active` in a library of at most 2^32 collections, on both branches: it fails on an
-- unknown name and leaves the library, and otherwise it returns, leaves the collections and makes
-- the one of that name the active one, by name and by index.
pub change_active_lem :
    (n : String) (lib : CacheLib)
    → length lib.m_cache_vec ≤ 2 ^ 32
    → (exists n lib ≡ false) × (change_active n lib ≡ done (unexpected cache_does_not_exists, lib))
      ⊎ ((lib' : CacheLib) × (change_active n lib ≡ done (value true, lib'))
          × (exists n lib ≡ true)
          × (lib'.m_cache_vec ≡ lib.m_cache_vec)
          × (lib'.m_active_name ≡ n)
          × IsActive lib')
unfolding change_active
change_active_lem n lib small = elim (Bool-cases (exists n lib)) [
  | inr absent ↦ inl (absent, rw (absent, change_active))
  | inl there ↦
      let h : has n lib.m_cache_vec ≡ true = sym (exists_lem n lib) ∙ there in
      let (s, found, hit) = find_of_contains (has_name n) lib.m_cache_vec h in
      let at : get_elem? lib.m_cache_vec (position n lib) ≡ some s =
        rw (position_lem n lib small h) (get_elem?-distance (has_name n) lib.m_cache_vec ∙ found) in
      inr (
        record lib { m_current = position n lib; m_active_name = s.first },
        rw (there, at, change_active),
        there,
        refl,
        (==_iff s.first n).0 hit,
        name_at_of_get lib.m_cache_vec (position n lib) s at,
      )
]

-- A new collection leaves the active one.
pub insert-IsActive :
    (n : String) (c : Cache String) (lib : CacheLib) → IsActive lib → IsActive (insert n c lib).1
unfolding insert
insert-IsActive n c lib a = ground (
  arith,
  name_at-append lib.m_cache_vec (record { first = n; second = c }) lib.m_current lib.m_active_name,
)

-- Renaming, of the active collection too, keeps the active index and name in step if the names are
-- distinct.
pub rename-IsActive :
    (from to : String) (lib : CacheLib)
    → DistinctNames lib.m_cache_vec
    → IsActive lib
    → IsActive (rename_store from to lib).1
unfolding rename_store
rename-IsActive from to lib d a =
    ground (arith, name_at-renamed from to lib.m_cache_vec lib.m_current lib.m_active_name d a)

-- Removing the active collection never leaves a library whose active index and name agree, if the
-- names are distinct.
pub remove-IsActive_stale :
    (lib : CacheLib) → DistinctNames lib.m_cache_vec → ¬ IsActive (remove lib.m_active_name lib).1
unfolding remove
remove-IsActive_stale lib d a = ground (
  arith,
  name_at-has (remove lib.m_active_name lib).1.m_cache_vec lib.m_current lib.m_active_name,
  remove-vec lib.m_active_name lib,
  has-erase lib.m_active_name lib.m_active_name lib.m_cache_vec d,
  ==_refl lib.m_active_name,
)
