-- ===== src/CacheLib/Calls.antt =====
-- Sequences of calls of the collection library, against the description over a map.
use mathlib.Core.Path.{fun_ext}
use wallchanger.Base.{
  Bool, false, ◌≡◌, refl, ap, List, [], ◌∷◌, String, string_ordered, ==_iff, find_first, arith,
  Option-cases, inl, inr,
}
use wallchanger.Cache.{Cache, has_value, insert_elem, touch}
use wallchanger.Cache.Item.{item_ordered}
use wallchanger.CacheLib.Error.{Expected}
use wallchanger.CacheLib.Spec.{View, Reply, Call, spec}
use wallchanger.CacheLib.Spec
use wallchanger.CacheLib.Lookup.{
  has, DistinctNames, exists_lem, update-DistinctNames, append-DistinctNames, renamed-DistinctNames,
  erase-DistinctNames, remove-vec, has-erase,
}
use wallchanger.CacheLib.Refines.{
  view, Matches, insert-Matches, rename-Matches, remove-Matches, remove_item-Matches, merge-Matches,
  move-Matches,
}
use wallchanger.CacheLib.{
  CacheLib, insert, rename_store, remove, remove_cache_item, merge_cache, merged_cache,
  move_cache_item, erase_item, has_name,
}

-- The method that a call names.
unfoldable pub apply : Call → CacheLib → Expected Bool × CacheLib
apply (Spec.insert n c) = insert n c
apply (Spec.rename from to) = rename_store from to
apply (Spec.remove n) = remove n
apply (Spec.remove_item n item) = remove_cache_item n item
apply (Spec.merge_two a b) = merge_cache a b
apply (Spec.move_item a b item) = move_cache_item a b item

unfoldable pub run : List Call → CacheLib → List (Expected Bool) × CacheLib
unfolding apply
run [] lib = ([], lib)
run (c ∷ cs) lib = let (r, lib') = apply c lib in let (rs, end) = run cs lib' in (r ∷ rs, end)

unfoldable pub spec_run : List Call → View → List (Expected Bool) × View
unfolding spec
spec_run [] v = ([], v)
spec_run (c ∷ cs) v = let (r, v') = spec c v in let (rs, end) = spec_run cs v' in (r ∷ rs, end)

insert-DistinctNames :
    (n : String) (c : Cache String) (lib : CacheLib)
    → DistinctNames lib.m_cache_vec
    → DistinctNames (insert n c lib).1.m_cache_vec
unfolding insert
insert-DistinctNames n c lib d =
    ground (arith, exists_lem n lib, append-DistinctNames n lib.m_cache_vec c d)

rename-DistinctNames :
    (from to : String) (lib : CacheLib)
    → DistinctNames lib.m_cache_vec
    → DistinctNames (rename_store from to lib).1.m_cache_vec
unfolding rename_store
rename-DistinctNames from to lib d =
    ground (
      arith,
      exists_lem from lib,
      exists_lem to lib,
      renamed-DistinctNames from to lib.m_cache_vec d,
    )

remove-DistinctNames :
    (n : String) (lib : CacheLib)
    → DistinctNames lib.m_cache_vec
    → DistinctNames (remove n lib).1.m_cache_vec
remove-DistinctNames n lib d = rw (remove-vec n lib) (erase-DistinctNames n lib.m_cache_vec d)

remove_item-DistinctNames :
    (n item : String) (lib : CacheLib)
    → DistinctNames lib.m_cache_vec
    → DistinctNames (remove_cache_item n item lib).1.m_cache_vec
unfolding remove_cache_item
remove_item-DistinctNames n item lib d = ground (
  arith,
  update-DistinctNames n touch lib.m_cache_vec d,
  update-DistinctNames n (erase_item item) lib.m_cache_vec d,
)

module _ (a b : String) (lib : CacheLib) (d : DistinctNames lib.m_cache_vec) where
  has_not-removed_both : has a (remove b (remove a lib).1).1.m_cache_vec ≡ false
  has_not-removed_both =
      rw (remove-vec b (remove a lib).1, remove-vec a lib)
        (ground (
          arith,
          has-erase b a _ (erase-DistinctNames a lib.m_cache_vec d),
          has-erase a a lib.m_cache_vec d,
          ==_iff a a,
        ))

  merge-DistinctNames : DistinctNames (merge_cache a b lib).1.m_cache_vec
  unfolding merge_cache
  merge-DistinctNames = elim (Option-cases (find_first (has_name a) lib.m_cache_vec)) [
    | inl e ↦ ground arith
    | inr (s, e) ↦ elim (Option-cases (find_first (has_name b) lib.m_cache_vec)) [
      | inl e' ↦ ground arith
      | inr (t, e') ↦ ground (
        arith,
        append-DistinctNames a (remove b (remove a lib).1).1.m_cache_vec
            (merged_cache s.second t.second)
            (remove-DistinctNames b (remove a lib).1 (remove-DistinctNames a lib d))
            has_not-removed_both,
      )
    ]
  ]

  move-DistinctNames : (item : String) → DistinctNames (move_cache_item a b item lib).1.m_cache_vec
  unfolding move_cache_item
  move-DistinctNames item = elim (Option-cases (find_first (has_name a) lib.m_cache_vec)) [
    | inl e ↦ ground arith
    | inr (s, e) ↦ elim (Option-cases (find_first (has_value item) s.second.m_list)) [
      | inl e' ↦ ground arith
      | inr (x, e') ↦ ground (
        arith,
        update-DistinctNames a (erase_item item) _
            (update-DistinctNames b (insert_elem x) lib.m_cache_vec d),
      )
    ]
  ]

-- Every changing call, failing or not, keeps the names of the collections distinct.
pub apply-DistinctNames :
    (c : Call) (lib : CacheLib)
    → DistinctNames lib.m_cache_vec
    → DistinctNames (apply c lib).1.m_cache_vec
unfolding apply
apply-DistinctNames (Spec.insert n c) lib d = insert-DistinctNames n c lib d
apply-DistinctNames (Spec.rename from to) lib d = rename-DistinctNames from to lib d
apply-DistinctNames (Spec.remove n) lib d = remove-DistinctNames n lib d
apply-DistinctNames (Spec.remove_item n item) lib d = remove_item-DistinctNames n item lib d
apply-DistinctNames (Spec.merge_two a b) lib d = merge-DistinctNames a b lib d
apply-DistinctNames (Spec.move_item a b item) lib d = move-DistinctNames a b lib d item

pub apply-Matches :
    (c : Call) (lib : CacheLib)
    → DistinctNames lib.m_cache_vec
    → Matches (apply c lib) (spec c (view lib))
unfolding apply spec
apply-Matches (Spec.insert n c) lib d = insert-Matches n c lib
apply-Matches (Spec.rename from to) lib d = rename-Matches from to lib d
apply-Matches (Spec.remove n) lib d = remove-Matches n lib d
apply-Matches (Spec.remove_item n item) lib d = remove_item-Matches n item lib
apply-Matches (Spec.merge_two a b) lib d = merge-Matches a b lib d
apply-Matches (Spec.move_item a b item) lib d = move-Matches a b item lib

-- Any sequence of the six changing calls gives the same answers, and leaves the same map from names
-- to collections, as the description over a map. The names of the collections are distinct at the
-- start.
pub run-Refines :
    (cs : List Call) (lib : CacheLib)
    → DistinctNames lib.m_cache_vec
    → ((run cs lib).0 ≡ (spec_run cs (view lib)).0)
      × (view (run cs lib).1 ≡ (spec_run cs (view lib)).1)
unfolding run spec_run
run-Refines [] lib d = (refl, refl)
run-Refines (c ∷ cs) lib d =
    let m = apply-Matches c lib d in
    let after : view (apply c lib).1 ≡ (spec c (view lib)).1 = fun_ext m.collections in
    let rest = run-Refines cs (apply c lib).1 (apply-DistinctNames c lib d) in
    rw (← m.result, ← after) (ap (◌∷◌ (apply c lib).0) rest.0, rest.1)
