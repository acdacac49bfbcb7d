-- ===== src/Manager/Locations/Calls.antt =====
-- The calls of src/change_lib/wall_cache_library.cpp over collections with known locations.
use wallchanger.Base.{
  true, ◌≡◌, String, string_ordered, nat_ordered, find_first, Option-cases, inl, inr, arith,
}
use wallchanger.Cache.{Cache, has_value, insert_elem, touch}
use wallchanger.Cache.Item.{item_ordered}
use wallchanger.CacheLib.{
  CacheLib, has_name, update_cache, insert, rename_store, remove, remove_cache_item, merge_cache,
  merged_cache, move_cache_item, erase_item,
}
use wallchanger.CacheLib.Lookup.{remove-vec}
use wallchanger.CacheLib.Refines.{merged_cache_lem}
use wallchanger.PathTable.{PathTable, path_hash}
use wallchanger.PathTable
use wallchanger.CacheLib.Spec
use wallchanger.CacheLib.Spec.{Call}
use wallchanger.CacheLib.Calls.{apply}
use wallchanger.Manager.Locations.{
  KnownItems, KnownItems-erase_item, KnownItems-find, KnownItems-insert_elem, KnownItems-merge,
  KnownStores, KnownStores-append, KnownStores-erase, KnownStores-find, KnownStores-renamed,
  KnownStores-update,
}

module _ (t : PathTable) where
  insert-KnownStores :
      (n : String) (c : Cache String) (lib : CacheLib)
      → KnownStores t lib.m_cache_vec
      → KnownItems t c.m_list
      → KnownStores t (insert n c lib).1.m_cache_vec
  unfolding insert
  insert-KnownStores n c lib h k =
      ground (arith, KnownStores-append t lib.m_cache_vec (record { first = n; second = c }) h k)

  rename-KnownStores :
      (from to : String) (lib : CacheLib)
      → KnownStores t lib.m_cache_vec
      → KnownStores t (rename_store from to lib).1.m_cache_vec
  unfolding rename_store
  rename-KnownStores from to lib h = ground (arith, KnownStores-renamed t from to lib.m_cache_vec h)

  remove-KnownStores :
      (n : String) (lib : CacheLib)
      → KnownStores t lib.m_cache_vec
      → KnownStores t (remove n lib).1.m_cache_vec
  remove-KnownStores n lib h = rw (remove-vec n lib) (KnownStores-erase t n lib.m_cache_vec h)

  remove_item-KnownStores :
      (n item : String) (lib : CacheLib)
      → KnownStores t lib.m_cache_vec
      → KnownStores t (remove_cache_item n item lib).1.m_cache_vec
  unfolding remove_cache_item
  remove_item-KnownStores n item lib h = ground (
    arith,
    KnownStores-update t n touch lib.m_cache_vec (λ c k. k) h,
    KnownStores-update t n (erase_item item) lib.m_cache_vec (KnownItems-erase_item t item) h,
  )

  merge-KnownStores :
      (a b : String) (lib : CacheLib)
      → KnownStores t lib.m_cache_vec
      → KnownStores t (merge_cache a b lib).1.m_cache_vec
  unfolding merge_cache
  merge-KnownStores a b lib h = elim (Option-cases (find_first (has_name a) lib.m_cache_vec)) [
    | inl e ↦ ground arith
    | inr (s, e) ↦ elim (Option-cases (find_first (has_name b) lib.m_cache_vec)) [
      | inl e' ↦ ground arith
      | inr (u, e') ↦
          let known : KnownItems t (merged_cache s.second u.second).m_list =
            rw (merged_cache_lem s.second u.second) (
              KnownItems-merge t s.second.m_list u.second.m_list
                (KnownStores-find t a lib.m_cache_vec s h e)
                (KnownStores-find t b lib.m_cache_vec u h e')) in
          ground (
            arith,
            KnownStores-append t (remove b (remove a lib).1).1.m_cache_vec
                (record { first = a; second = merged_cache s.second u.second })
                (remove-KnownStores b (remove a lib).1 (remove-KnownStores a lib h)) known,
          )
    ]
  ]

  move-KnownStores :
      (a b item : String) (lib : CacheLib)
      → KnownStores t lib.m_cache_vec
      → KnownStores t (move_cache_item a b item lib).1.m_cache_vec
  unfolding move_cache_item
  move-KnownStores a b item lib h = elim (Option-cases (find_first (has_name a) lib.m_cache_vec)) [
    | inl e ↦ ground arith
    | inr (s, e) ↦ elim (Option-cases (find_first (has_value item) s.second.m_list)) [
      | inl e' ↦ ground arith
      | inr (x, e') ↦
          let known : PathTable.exists x.loc t ≡ true =
            KnownItems-find t (has_value item) s.second.m_list x
              (KnownStores-find t a lib.m_cache_vec s h e) e' in
          ground (
            arith,
            KnownStores-update t a (erase_item item)
                (update_cache b (insert_elem x) lib).m_cache_vec (KnownItems-erase_item t item)
                (KnownStores-update t b (insert_elem x) lib.m_cache_vec
                  (λ c k. KnownItems-insert_elem t x c k known) h),
          )
    ]
  ]

  -- No call of the library takes an item in from outside but `insert`.
  abbrev pub Brings : Call → Type 0
  Brings (Spec.insert n c) = KnownItems t c.m_list
  Brings _ = Unit {0}

  pub apply-KnownStores :
      (c : Call) (lib : CacheLib)
      → Brings c
      → KnownStores t lib.m_cache_vec
      → KnownStores t (apply c lib).1.m_cache_vec
  unfolding apply
  apply-KnownStores (Spec.insert n c) lib k h = insert-KnownStores n c lib h k
  apply-KnownStores (Spec.rename from to) lib k h = rename-KnownStores from to lib h
  apply-KnownStores (Spec.remove n) lib k h = remove-KnownStores n lib h
  apply-KnownStores (Spec.remove_item n item) lib k h = remove_item-KnownStores n item lib h
  apply-KnownStores (Spec.merge_two a b) lib k h = merge-KnownStores a b lib h
  apply-KnownStores (Spec.move_item a b item) lib k h = move-KnownStores a b item lib h
