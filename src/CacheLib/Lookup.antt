-- ===== src/CacheLib/Lookup.antt =====
-- The library of src/change_lib/wall_cache_library.cpp seen as a finite map from names to
-- collections, and lists of stores with distinct names.
use wallchanger.Base.{
  Bool, true, false, ◌≡◌, refl, List, [], ◌∷◌, ◌++◌, String, Option, none, some, ◌==◌,
  string_ordered, ==_iff, contains_first, find_first, modify_first, erase_first, if◌then◌else◌,
  arith, is_some, contains-append_one, Option-cases, Bool-cases, inl, inr,
}
use wallchanger.Cache.{Cache, clear}
use wallchanger.CacheLib.{CacheStore, CacheLib, has_name, exists, remove}

-- The collection that `find` gives for a name.
abbrev pub lookup_in : String → List CacheStore → Option (Cache String)
lookup_in n l = elim (find_first (has_name n) l) [ none ↦ none | some s ↦ some s.second ]

abbrev pub lookup : String → CacheLib → Option (Cache String)
lookup n lib = lookup_in n lib.m_cache_vec

abbrev pub has : String → List CacheStore → Bool
has n l = contains_first (has_name n) l

has-eq-is_some : (n : String) (l : List CacheStore) → has n l ≡ is_some (lookup_in n l)
unfolding contains_first find_first
has-eq-is_some n [] = refl
has-eq-is_some n (s ∷ l) = ground (arith, has-eq-is_some n l)

find_named :
    (n : String) (l : List CacheStore) (s : CacheStore)
    → find_first (has_name n) l ≡ some s
    → s.first ≡ n
unfolding find_first
find_named n [] s h = cc
find_named n (x ∷ l) s h = ground (arith, find_named n l s, ==_iff x.first n)

-- `exists` answers whether `find` has a store of that name.
pub exists_lem : (n : String) (lib : CacheLib) → exists n lib ≡ has n lib.m_cache_vec
unfolding exists contains_first find_first
exists_lem n lib = on_list lib.m_cache_vec
  where
    on_list : (l : List CacheStore) → exists n (record lib { m_cache_vec = l }) ≡ has n l
    on_list [] = refl
    on_list (s ∷ l) = elim (Option-cases (find_first (has_name n) l)) [
      | inl e ↦ ground (arith, has-eq-is_some n l)
      | inr (x, e) ↦ ground (arith, has-eq-is_some n l, find_named n l x e, ==_iff x.first n)
    ]

pub exists-eq-is_some : (n : String) (lib : CacheLib) → exists n lib ≡ is_some (lookup n lib)
exists-eq-is_some n lib = rw (exists_lem n lib, has-eq-is_some n lib.m_cache_vec)

-- No name stands in two stores.
abbrev pub DistinctNames : List CacheStore → Type 0
DistinctNames [] = Unit {0}
DistinctNames (s ∷ l) = (has s.first l ≡ false) × DistinctNames l

module _ (n : String) where
  pub lookup_of_not_has : (l : List CacheStore) → has n l ≡ false → lookup_in n l ≡ none
  unfolding contains_first find_first
  lookup_of_not_has [] h = refl
  lookup_of_not_has (s ∷ l) h = ground (arith, lookup_of_not_has l)

  pub lookup-append_one :
      (l : List CacheStore) (s : CacheStore)
      → lookup_in n (l ++ s ∷ [])
        ≡ (if has n l then lookup_in n l else if s.first == n then some s.second else none)
  unfolding contains_first find_first
  lookup-append_one [] s = ground arith
  lookup-append_one (x ∷ l) s = ground (arith, lookup-append_one l s)

  pub has-erase :
      (m : String) (l : List CacheStore)
      → DistinctNames l
      → has m (erase_first (has_name n) l) ≡ (if n == m then false else has m l)
  unfolding contains_first erase_first
  has-erase m [] d = ground arith
  has-erase m (s ∷ l) d =
      ground (arith, has-erase m l d.1, ==_iff s.first n, ==_iff s.first m, ==_iff n m)

  pub lookup-erase :
      (m : String) (l : List CacheStore)
      → DistinctNames l
      → lookup_in m (erase_first (has_name n) l) ≡ (if n == m then none else lookup_in m l)
  unfolding contains_first erase_first find_first
  lookup-erase m [] d = ground arith
  lookup-erase m (s ∷ l) d = ground (
    arith,
    lookup-erase m l d.1,
    lookup_of_not_has l,
    ==_iff s.first n,
    ==_iff s.first m,
    ==_iff n m,
  )

  pub erase-DistinctNames :
      (l : List CacheStore) → DistinctNames l → DistinctNames (erase_first (has_name n) l)
  unfolding erase_first
  erase-DistinctNames [] d = tt
  erase-DistinctNames (s ∷ l) d = ground (arith, erase-DistinctNames l d.1, has-erase s.first l d.1)

  -- Writes to the collection of a store leave the names.
  pub has-update :
      (f : Cache String → Cache String) (m : String) (l : List CacheStore)
      → has m (modify_first (has_name n) (λ s. record s { second = f s.second }) l) ≡ has m l
  unfolding contains_first modify_first
  has-update f m [] = refl
  has-update f m (s ∷ l) = ground (arith, has-update f m l)

  pub lookup-update :
      (f : Cache String → Cache String) (m : String) (l : List CacheStore)
      → lookup_in m (modify_first (has_name n) (λ s. record s { second = f s.second }) l) ≡ (
          if n == m
          then elim (lookup_in n l) [ none ↦ none | some c ↦ some (f c) ]
          else lookup_in m l)
  unfolding find_first modify_first
  lookup-update f m [] = ground arith
  lookup-update f m (s ∷ l) =
      ground (arith, lookup-update f m l, ==_iff s.first n, ==_iff s.first m, ==_iff n m)

  pub update-DistinctNames :
      (f : Cache String → Cache String) (l : List CacheStore)
      → DistinctNames l
      → DistinctNames (modify_first (has_name n) (λ s. record s { second = f s.second }) l)
  unfolding modify_first
  update-DistinctNames f [] d = tt
  update-DistinctNames f (s ∷ l) d =
      ground (arith, update-DistinctNames f l d.1, has-update f s.first l)

  pub append-DistinctNames :
      (l : List CacheStore) (c : Cache String)
      → DistinctNames l
      → has n l ≡ false
      → DistinctNames (l ++ record { first = n; second = c } ∷ [])
  unfolding contains_first
  append-DistinctNames [] c d h = (refl, tt)
  append-DistinctNames (s ∷ l) c d h = (
    ground (
      arith,
      contains-append_one (has_name s.first) l (record { first = n; second = c }),
      ==_iff s.first n,
      ==_iff n s.first,
    ),
    append-DistinctNames l c d.1 (ground arith),
  )

module _ (from to : String) where
  abbrev pub renamed : List CacheStore → List CacheStore
  renamed l = modify_first (has_name from) (λ s. record s { first = to }) l

  pub has-renamed :
      (m : String) (l : List CacheStore)
      → DistinctNames l
      → has from l ≡ true
      → has m (renamed l) ≡ (if to == m then true else if from == m then false else has m l)
  unfolding contains_first modify_first
  has-renamed m [] d h = cc
  has-renamed m (s ∷ l) d h = ground (
    arith,
    has-renamed m l d.1,
    ==_iff s.first from,
    ==_iff s.first m,
    ==_iff from m,
    ==_iff to m,
  )

  pub lookup-renamed :
      (m : String) (l : List CacheStore)
      → DistinctNames l
      → has from l ≡ true
      → has to l ≡ false
      → lookup_in m (renamed l)
        ≡ (if to == m then lookup_in from l else if from == m then none else lookup_in m l)
  unfolding contains_first modify_first find_first
  lookup-renamed m [] d h k = cc
  lookup-renamed m (s ∷ l) d h k = elim (Bool-cases (s.first == from)) [
    | inl hit ↦
        ground (arith, lookup_of_not_has m l, ==_iff s.first from, ==_iff from m, ==_iff to m)
    | inr miss ↦ ground (
      arith,
      lookup-renamed m l d.1,
      ==_iff s.first to,
      ==_iff s.first m,
      ==_iff from m,
      ==_iff to m,
    )
  ]

  pub renamed-DistinctNames :
      (l : List CacheStore)
      → DistinctNames l
      → has from l ≡ true
      → has to l ≡ false
      → DistinctNames (renamed l)
  unfolding contains_first modify_first
  renamed-DistinctNames [] d h k = cc
  renamed-DistinctNames (s ∷ l) d h k = ground (
    arith,
    renamed-DistinctNames l d.1,
    has-renamed s.first l d.1,
    ==_iff s.first from,
    ==_iff s.first to,
    ==_iff to s.first,
  )

-- Clearing a collection before its store is erased makes no difference to what is left.
pub erase-update :
    (n : String) (f : Cache String → Cache String) (l : List CacheStore)
    → erase_first (has_name n) (modify_first (has_name n) (λ s. record s { second = f s.second }) l)
      ≡ erase_first (has_name n) l
unfolding erase_first modify_first
erase-update n f [] = refl
erase-update n f (s ∷ l) = ground (arith, erase-update n f l)

erase_of_not_has :
    (n : String) (l : List CacheStore) → has n l ≡ false → erase_first (has_name n) l ≡ l
unfolding contains_first erase_first
erase_of_not_has n [] h = refl
erase_of_not_has n (s ∷ l) h = ground (arith, erase_of_not_has n l)

-- Whether it succeeds or not, `remove` leaves the vector without its first store of that name.
pub remove-vec :
    (n : String) (lib : CacheLib)
    → (remove n lib).1.m_cache_vec ≡ erase_first (has_name n) lib.m_cache_vec
unfolding remove
remove-vec n lib = ground (
  arith,
  exists_lem n lib,
  erase_of_not_has n lib.m_cache_vec,
  erase-update n clear lib.m_cache_vec,
)
