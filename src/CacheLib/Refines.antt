-- ===== src/CacheLib/Refines.antt =====
-- Each method of src/change_lib/wall_cache_library.cpp against its description over a map.
use wallchanger.Base.{
  Bool, true, false, ◌≡◌, sym, ◌∙◌, ◌+◌, String, none, ◌==◌, string_ordered, ==_iff, if◌then◌else◌,
  find_first, arith, Option-cases, inl, inr,
}
use wallchanger.Cache.{Cache, clear, touch, size, has_value, insert_elem}
use wallchanger.Cache.Item.{item_ordered}
use wallchanger.Cache.Merge.{merge, overwrite_full, length-merge, length-replicate}
use wallchanger.Cache.Distinct.{erase_at-distance}
use wallchanger.CacheLib.Error.{Expected}
use wallchanger.CacheLib.Spec.{
  View, Reply, without_item, spec_insert, spec_rename, spec_remove, spec_remove_item, spec_merge,
  spec_move,
}
use wallchanger.CacheLib.Lookup.{
  lookup, has, DistinctNames, exists_lem, exists-eq-is_some, lookup_of_not_has, lookup-append_one,
  lookup-erase, lookup-update, lookup-renamed, erase-update, remove-vec, has-erase,
  erase-DistinctNames,
}
use wallchanger.CacheLib.{
  CacheLib, insert, rename_store, remove, remove_cache_item, merge_cache, merged_cache,
  move_cache_item, erase_item, update_cache, has_name,
}

abbrev pub view : CacheLib → View
view lib m = lookup m lib

-- The results are equal, and so are the collections of every name.
pub record Matches (r : Expected Bool × CacheLib) (s : Reply) : Type 0 where
  pub result : r.0 ≡ s.0
  pub collections : (m : String) → lookup m r.1 ≡ s.1 m

pub insert-Matches :
    (n : String) (c : Cache String) (lib : CacheLib)
    → Matches (insert n c lib) (spec_insert n c (view lib))
unfolding insert spec_insert
insert-Matches n c lib = record {
  result = ground (arith, exists-eq-is_some n lib);
  collections = λ m. ground (
    arith,
    exists-eq-is_some n lib,
    exists_lem n lib,
    lookup-append_one m lib.m_cache_vec (record { first = n; second = c }),
    lookup_of_not_has m lib.m_cache_vec,
    ==_iff n m,
  );
}

pub remove-Matches :
    (n : String) (lib : CacheLib)
    → DistinctNames lib.m_cache_vec
    → Matches (remove n lib) (spec_remove n (view lib))
unfolding remove spec_remove
remove-Matches n lib d = record {
  result = ground (arith, exists-eq-is_some n lib);
  collections = λ m.
      rw (erase-update n clear lib.m_cache_vec)
        (ground (arith, exists-eq-is_some n lib, lookup-erase n m lib.m_cache_vec d));
}

pub rename-Matches :
    (from to : String) (lib : CacheLib)
    → DistinctNames lib.m_cache_vec
    → Matches (rename_store from to lib) (spec_rename from to (view lib))
unfolding rename_store spec_rename
rename-Matches from to lib d = record {
  result = ground (arith, exists-eq-is_some from lib, exists-eq-is_some to lib);
  collections = λ m. ground (
    arith,
    exists-eq-is_some from lib,
    exists-eq-is_some to lib,
    exists_lem from lib,
    exists_lem to lib,
    lookup-renamed from to m lib.m_cache_vec d,
    ==_iff from to,
  );
}

-- `erase` at the iterator of `find`, as the description writes it.
erase_item_lem : (item : String) (c : Cache String) → erase_item item c ≡ without_item item c
unfolding erase_item
erase_item_lem item c = rw (erase_at-distance (has_value item) c.m_list)

pub remove_item-Matches :
    (n item : String) (lib : CacheLib)
    → Matches (remove_cache_item n item lib) (spec_remove_item n item (view lib))
unfolding remove_cache_item spec_remove_item
remove_item-Matches n item lib = record {
  result = ground (arith, exists-eq-is_some n lib);
  collections = λ m. elim (Option-cases (find_first (has_name n) lib.m_cache_vec)) [
    | inl e ↦ ground (arith, exists-eq-is_some n lib)
    | inr (s, e) ↦ ground (
      arith,
      exists-eq-is_some n lib,
      erase_item_lem item s.second,
      lookup-update n touch m lib.m_cache_vec,
      lookup-update n (erase_item item) m lib.m_cache_vec,
      ==_iff n m,
    )
  ];
}

-- The new store of `merge_cache` has room for exactly the items of both.
pub merged_cache_lem :
    (c d : Cache String)
    → merged_cache c d ≡ record { m_modified = true; m_list = merge c.m_list d.m_list }
unfolding merged_cache
merged_cache_lem c d = rw (
    overwrite_full (merge c.m_list d.m_list) _
      (sym (length-merge c.m_list d.m_list) ∙ sym (length-replicate (size c + size d) _)))

module _ (a b m : String) (lib : CacheLib) (d : DistinctNames lib.m_cache_vec) where
  lookup-removed_both :
      lookup m (remove b (remove a lib).1).1
      ≡ (if b == m then none else if a == m then none else lookup m lib)
  lookup-removed_both =
      rw (remove-vec b (remove a lib).1, remove-vec a lib)
        (ground (
          arith,
          lookup-erase b m _ (erase-DistinctNames a lib.m_cache_vec d),
          lookup-erase a m lib.m_cache_vec d,
        ))

  has-removed_both :
      has m (remove b (remove a lib).1).1.m_cache_vec
      ≡ (if b == m then false else if a == m then false else has m lib.m_cache_vec)
  has-removed_both =
      rw (remove-vec b (remove a lib).1, remove-vec a lib)
        (ground (
          arith,
          has-erase b m _ (erase-DistinctNames a lib.m_cache_vec d),
          has-erase a m lib.m_cache_vec d,
        ))

pub merge-Matches :
    (a b : String) (lib : CacheLib)
    → DistinctNames lib.m_cache_vec
    → Matches (merge_cache a b lib) (spec_merge a b (view lib))
unfolding merge_cache spec_merge
merge-Matches a b lib d = record {
  result = ground (arith, exists-eq-is_some a lib, exists-eq-is_some b lib);
  collections = λ m. elim (Option-cases (find_first (has_name a) lib.m_cache_vec)) [
    | inl e ↦ ground (arith, exists-eq-is_some a lib, exists-eq-is_some b lib)
    | inr (s, e) ↦ elim (Option-cases (find_first (has_name b) lib.m_cache_vec)) [
      | inl e' ↦ ground (arith, exists-eq-is_some a lib, exists-eq-is_some b lib)
      | inr (t, e') ↦ ground (
        arith,
        exists-eq-is_some a lib,
        exists-eq-is_some b lib,
        merged_cache_lem s.second t.second,
        lookup-removed_both a b m lib d,
        has-removed_both a b m lib d,
        lookup_of_not_has m lib.m_cache_vec,
        lookup-append_one m (remove b (remove a lib).1).1.m_cache_vec
            (record { first = a; second = merged_cache s.second t.second }),
        ==_iff a m,
        ==_iff b m,
        ==_iff a b,
      )
    ]
  ];
}

pub move-Matches :
    (a b item : String) (lib : CacheLib)
    → Matches (move_cache_item a b item lib) (spec_move a b item (view lib))
unfolding move_cache_item spec_move
move-Matches a b item lib = record {
  result = ground (arith, exists-eq-is_some a lib, exists-eq-is_some b lib);
  collections = λ m. elim (Option-cases (find_first (has_name a) lib.m_cache_vec)) [
    | inl e ↦ ground (arith, exists-eq-is_some a lib, exists-eq-is_some b lib)
    | inr (s, e) ↦ elim (Option-cases (find_first (has_value item) s.second.m_list)) [
      | inl e' ↦ ground (arith, exists-eq-is_some a lib, exists-eq-is_some b lib)
      | inr (x, e') ↦ ground (
        arith,
        exists-eq-is_some a lib,
        exists-eq-is_some b lib,
        erase_item_lem item s.second,
        lookup-update a (erase_item item) m (update_cache b (insert_elem x) lib).m_cache_vec,
        lookup-update b (insert_elem x) m lib.m_cache_vec,
        lookup-update b (insert_elem x) a lib.m_cache_vec,
        ==_iff a m,
        ==_iff b m,
        ==_iff a b,
        ==_iff b a,
      )
    ]
  ];
}
