-- ===== src/Manager/Locations.antt =====
-- Collections whose items have locations of a path table, for src/change_app/wall_manager.cpp, and
-- the operations on lists of items and of collections.
pub mod Calls
use wallchanger.Base.{
  ℕ, zero, suc, Bool, true, false, ◌≡◌, refl, subst, List, [], ◌∷◌, ◌++◌, String, Option, none,
  some, ◌==◌, Ordered, ◌<<◌, string_ordered, nat_ordered, ==_iff, ==_refl, find_first, modify_first,
  erase_first, contains_first, contains-append_one, set, get_elem?, if◌then◌else◌, Outcome, done,
  fault, Option-cases, Bool-cases, inl, inr, arith,
}
use wallchanger.Cache.{Cache, has_value, insert_elem, clear, touch, erase, erase_at}
use wallchanger.Cache
use wallchanger.Cache.Item.{CacheItem, CacheState, item_ordered}
use wallchanger.Cache.Merge.{merge}
use wallchanger.Cache.Distinct.{erase_at-distance}
use wallchanger.CacheLib.{
  CacheLib, CacheStore, has_name, update_cache, get_cache_mut, insert, rename_store, remove,
  remove_cache_item, merge_cache, merged_cache, move_cache_item, erase_item,
}
use wallchanger.CacheLib.Lookup.{renamed, remove-vec}
use wallchanger.CacheLib.Refines.{merged_cache_lem}
use wallchanger.PathTable.{PathTable, path_hash}
use wallchanger.PathTable
use wallchanger.PathTable.Lookup.{exists-insert}
use wallchanger.CacheLib.Spec
use wallchanger.CacheLib.Spec.{Call}
use wallchanger.CacheLib.Calls.{apply}

module _ (t : PathTable) where
  abbrev pub KnownItems : List (CacheItem String) → Type 0
  KnownItems [] = Unit {0}
  KnownItems (x ∷ xs) = (PathTable.exists x.loc t ≡ true) × KnownItems xs

  abbrev pub KnownStores : List CacheStore → Type 0
  KnownStores [] = Unit {0}
  KnownStores (s ∷ l) = KnownItems s.second.m_list × KnownStores l

module _ (t : PathTable) where
  pub KnownItems-append :
      (xs ys : List (CacheItem String))
      → KnownItems t xs
      → KnownItems t ys
      → KnownItems t (xs ++ ys)
  KnownItems-append [] ys h k = k
  KnownItems-append (x ∷ xs) ys h k = (h.0, KnownItems-append xs ys h.1 k)

  pub KnownItems-erase :
      (p : CacheItem String → Bool) (xs : List (CacheItem String))
      → KnownItems t xs
      → KnownItems t (erase_first p xs)
  unfolding erase_first
  KnownItems-erase p [] h = tt
  KnownItems-erase p (x ∷ xs) h = ground (arith, KnownItems-erase p xs h.1)

  pub KnownItems-find :
      (p : CacheItem String → Bool) (xs : List (CacheItem String)) (x : CacheItem String)
      → KnownItems t xs
      → find_first p xs ≡ some x
      → PathTable.exists x.loc t ≡ true
  unfolding find_first
  KnownItems-find p [] x h e = cc
  KnownItems-find p (y ∷ xs) x h e = ground (arith, KnownItems-find p xs x h.1)

  pub KnownItems-get :
      (xs : List (CacheItem String)) (i : ℕ) (x : CacheItem String)
      → KnownItems t xs
      → get_elem? xs i ≡ some x
      → PathTable.exists x.loc t ≡ true
  KnownItems-get [] i x h e = cc
  KnownItems-get (y ∷ xs) zero x h e = ground arith
  KnownItems-get (y ∷ xs) (suc i) x h e = KnownItems-get xs i x h.1 e

  pub KnownItems-set :
      (xs : List (CacheItem String)) (i : ℕ) (x : CacheItem String)
      → KnownItems t xs
      → PathTable.exists x.loc t ≡ true
      → KnownItems t (set xs i x)
  KnownItems-set [] i x h k = tt
  KnownItems-set (y ∷ xs) zero x h k = (k, h.1)
  KnownItems-set (y ∷ xs) (suc i) x h k = (h.0, KnownItems-set xs i x h.1 k)

  pub KnownItems-mark :
      (p : CacheItem String → Bool) (s : CacheState) (xs : List (CacheItem String))
      → KnownItems t xs
      → KnownItems t (modify_first p (λ x. record x { cache_state = s }) xs)
  unfolding modify_first
  KnownItems-mark p s [] h = tt
  KnownItems-mark p s (x ∷ xs) h = ground (arith, KnownItems-mark p s xs h.1)

  pub KnownItems-merge :
      (xs ys : List (CacheItem String))
      → KnownItems t xs
      → KnownItems t ys
      → KnownItems t (merge xs ys)
  unfolding merge
  KnownItems-merge [] ys h k = k
  KnownItems-merge (x ∷ xs) [] h k = h
  KnownItems-merge (x ∷ xs) (y ∷ ys) h k =
      ground (arith, KnownItems-merge xs (y ∷ ys) h.1 k, KnownItems-merge (x ∷ xs) ys h k.1)

  pub KnownItems-insert_elem :
      (x : CacheItem String) (c : Cache String)
      → KnownItems t c.m_list
      → PathTable.exists x.loc t ≡ true
      → KnownItems t (insert_elem x c).m_list
  unfolding insert_elem
  KnownItems-insert_elem x c h k = ground (arith, KnownItems-append c.m_list (x ∷ []) h (k, tt))

  pub KnownItems-erase_item :
      (item : String) (c : Cache String)
      → KnownItems t c.m_list
      → KnownItems t (erase_item item c).m_list
  unfolding erase_item
  KnownItems-erase_item item c h =
      rw (erase_at-distance (has_value item) c.m_list)
        (KnownItems-erase (has_value item) c.m_list h)

  pub KnownItems-insert :
      (v : String) (loc : ℕ) (c : Cache String)
      → KnownItems t c.m_list
      → PathTable.exists loc t ≡ true
      → KnownItems t (Cache.insert v loc c).m_list
  unfolding Cache.insert
  KnownItems-insert v loc c h k = ground (
    arith,
    KnownItems-append c.m_list
        (record { cache_value = v; cache_state = CacheState.unused; loc = loc } ∷ []) h (k, tt),
  )

  pub KnownStores-append :
      (l : List CacheStore) (s : CacheStore)
      → KnownStores t l
      → KnownItems t s.second.m_list
      → KnownStores t (l ++ s ∷ [])
  KnownStores-append [] s h k = (k, tt)
  KnownStores-append (x ∷ l) s h k = (h.0, KnownStores-append l s h.1 k)

  pub KnownStores-erase :
      (n : String) (l : List CacheStore)
      → KnownStores t l
      → KnownStores t (erase_first (has_name n) l)
  unfolding erase_first
  KnownStores-erase n [] h = tt
  KnownStores-erase n (s ∷ l) h = ground (arith, KnownStores-erase n l h.1)

  pub KnownStores-update :
      (n : String) (f : Cache String → Cache String) (l : List CacheStore)
      → ((c : Cache String) → KnownItems t c.m_list → KnownItems t (f c).m_list)
      → KnownStores t l
      → KnownStores t (modify_first (has_name n) (λ s. record s { second = f s.second }) l)
  unfolding modify_first
  KnownStores-update n f [] k h = tt
  KnownStores-update n f (s ∷ l) k h = ground (arith, k s.second, KnownStores-update n f l k h.1)

  pub KnownStores-renamed :
      (from to : String) (l : List CacheStore) → KnownStores t l → KnownStores t (renamed from to l)
  unfolding modify_first
  KnownStores-renamed from to [] h = tt
  KnownStores-renamed from to (s ∷ l) h = ground (arith, KnownStores-renamed from to l h.1)

  pub KnownStores-find :
      (n : String) (l : List CacheStore) (s : CacheStore)
      → KnownStores t l
      → find_first (has_name n) l ≡ some s
      → KnownItems t s.second.m_list
  unfolding find_first
  KnownStores-find n [] s h e = cc
  KnownStores-find n (x ∷ l) s h e = elim (Bool-cases (x.first == n)) [
    | inl hit ↦
        let same : x ≡ s = ground arith in subst (λ q. KnownItems t q.second.m_list) same h.0
    | inr miss ↦ KnownStores-find n l s h.1 (ground arith)
  ]

-- A table that has more paths knows as many locations.
pub KnownItems-insert_path :
    (t : PathTable) (path : String) (xs : List (CacheItem String))
    → KnownItems t xs
    → KnownItems (PathTable.insert path t) xs
KnownItems-insert_path t path [] h = tt
KnownItems-insert_path t path (x ∷ xs) h =
    (exists-insert path x.loc t h.0, KnownItems-insert_path t path xs h.1)

pub KnownStores-insert_path :
    (t : PathTable) (path : String) (l : List CacheStore)
    → KnownStores t l
    → KnownStores (PathTable.insert path t) l
KnownStores-insert_path t path [] h = tt
KnownStores-insert_path t path (s ∷ l) h =
    (KnownItems-insert_path t path s.second.m_list h.0, KnownStores-insert_path t path l h.1)
