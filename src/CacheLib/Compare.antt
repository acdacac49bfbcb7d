-- ===== src/CacheLib/Compare.antt =====
-- The comparison `<=>` that the compiler generates for `cache_lib` of
-- src/change_lib/wall_cache_library.hpp: the collections with their names, the index of the active
-- one, and its name, in the order of the members.
use Prim.Native.Nat.{compare}
use text.Mathlib.Text.{is_eq}
use wallchanger.Base.{true, ◌≡◌, ◌↔◌, Ordering, Ordered, compare_iff, string_ordered, arith}
use wallchanger.Cache.Item.{then_compare}
use wallchanger.Cache.Compare.{compare_caches, compare_caches_iff, compare_lists, compare_lists_iff}
use wallchanger.CacheLib.{CacheStore, CacheLib}

abbrev pub compare_stores : CacheStore → CacheStore → Ordering
compare_stores a b =
    then_compare (string_ordered.three_way a.first b.first) (compare_caches a.second b.second)

pub compare_stores_iff : (a b : CacheStore) → (is_eq (compare_stores a b) ≡ true) ↔ (a ≡ b)
compare_stores_iff a b =
    ground
      (arith, string_ordered.three_way_iff a.first b.first, compare_caches_iff a.second b.second)

instance abbrev pub store_ordered : Ordered CacheStore
store_ordered = record { three_way = compare_stores; three_way_iff = compare_stores_iff }

unfoldable pub compare_libs : CacheLib → CacheLib → Ordering
compare_libs a b = then_compare (compare_lists a.m_cache_vec b.m_cache_vec) (
    then_compare (compare a.m_current b.m_current)
      (string_ordered.three_way a.m_active_name b.m_active_name))

-- Two libraries compare as equal just when they are the same: the same collections in the same
-- order, with their names, items, states, locations and flags, and the same active collection by
-- index and by name.
pub compare_libs_iff : (a b : CacheLib) → (is_eq (compare_libs a b) ≡ true) ↔ (a ≡ b)
unfolding compare_libs
compare_libs_iff a b = ground (
  arith,
  compare_lists_iff a.m_cache_vec b.m_cache_vec,
  compare_iff a.m_current b.m_current,
  string_ordered.three_way_iff a.m_active_name b.m_active_name,
)
