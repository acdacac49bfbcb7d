-- ===== src/CacheLib/Spec.antt =====
-- What the collection library promises: a map from names to collections, with no order, no
-- vector and no iterator. An independent description of the calls of wall_cache_library.cpp.
use wallchanger.Base.{
  Bool, true, String, Option, none, some, ◌==◌, string_ordered, find_first, erase_first,
  if◌then◌else◌, is_some,
}
use wallchanger.Cache.{Cache, has_value, insert_elem}
use wallchanger.Cache.Item.{CacheItem, item_ordered}
use wallchanger.Cache.Merge.{merge}
use wallchanger.CacheLib.Error.{
  Expected, value, unexpected, cache_does_not_exists, cache_frm_cache_to_same,
  cache_elem_not_exists, cache_name_item_name_same,
}

abbrev pub View : Type 0
View = String → Option (Cache String)

-- The calls that change which collections there are, or what is in them.
pub data Call : Type 0 where
  insert : String → Cache String → Call
  rename : String → String → Call
  remove : String → Call
  remove_item : String → String → Call
  merge_two : String → String → Call
  move_item : String → String → String → Call

abbrev pub put : String → Cache String → View → View
put n c v m = if n == m then some c else v m

abbrev pub drop : String → View → View
drop n v m = if n == m then none else v m

-- A collection without its first item of that value; a search that fails sets the flag as well.
abbrev pub without_item : String → Cache String → Cache String
without_item item c = record { m_modified = true; m_list = erase_first (has_value item) c.m_list }

abbrev pub found_in : String → Cache String → Option (CacheItem String)
found_in item c = find_first (has_value item) c.m_list

abbrev pub Reply : Type 0
Reply = Expected Bool × View

unfoldable pub spec_insert : String → Cache String → View → Reply
spec_insert n c v =
    if is_some (v n) then (unexpected cache_does_not_exists, v) else (value true, put n c v)

abbrev rename_found : String → String → View → Option (Cache String) → Reply
rename_found from to v none = (unexpected cache_does_not_exists, v)
rename_found from to v (some c) =
    if is_some (v to)
    then (unexpected cache_does_not_exists, v)
    else (value true, put to c (drop from v))

unfoldable pub spec_rename : String → String → View → Reply
spec_rename from to v =
    if from == to then (unexpected cache_frm_cache_to_same, v) else rename_found from to v (v from)

unfoldable pub spec_remove : String → View → Reply
spec_remove n v =
    if is_some (v n) then (value true, drop n v) else (unexpected cache_does_not_exists, v)

abbrev remove_item_found : String → String → View → Option (Cache String) → Reply
remove_item_found n item v none = (unexpected cache_does_not_exists, v)
remove_item_found n item v (some c) = elim (found_in item c) [
  | none ↦ (unexpected cache_elem_not_exists, put n (record c { m_modified = true }) v)
  | some x ↦ (value true, put n (without_item item c) v)
]

unfoldable pub spec_remove_item : String → String → View → Reply
spec_remove_item n item v =
    if n == item
    then (unexpected cache_name_item_name_same, v)
    else remove_item_found n item v (v n)

-- The merged collection takes the first name, and the second name goes.
abbrev merge_found : String → String → View → Option (Cache String) → Option (Cache String) → Reply
merge_found a b v none d = (unexpected cache_does_not_exists, v)
merge_found a b v (some c) none = (unexpected cache_does_not_exists, v)
merge_found a b v (some c) (some d) =
    (value true, put a (record { m_modified = true; m_list = merge c.m_list d.m_list }) (drop b v))

unfoldable pub spec_merge : String → String → View → Reply
spec_merge a b v =
    if a == b then (unexpected cache_frm_cache_to_same, v) else merge_found a b v (v a) (v b)

abbrev move_found :
    String → String → String → View → Option (Cache String) → Option (Cache String) → Reply
move_found a b item v none d = (unexpected cache_does_not_exists, v)
move_found a b item v (some c) none = (unexpected cache_does_not_exists, v)
move_found a b item v (some c) (some d) = elim (found_in item c) [
  | none ↦ (unexpected cache_elem_not_exists, v)
  | some x ↦ (value true, put a (without_item item c) (put b (insert_elem x d) v))
]

unfoldable pub spec_move : String → String → String → View → Reply
spec_move a b item v =
    if a == b
    then (unexpected cache_frm_cache_to_same, v)
    else if b == item
    then (unexpected cache_frm_cache_to_same, v)
    else move_found a b item v (v a) (v b)

unfoldable pub spec : Call → View → Reply
unfolding spec_insert spec_rename spec_remove spec_remove_item spec_merge spec_move
spec (insert n c) v = spec_insert n c v
spec (rename from to) v = spec_rename from to v
spec (remove n) v = spec_remove n v
spec (remove_item n item) v = spec_remove_item n item v
spec (merge_two a b) v = spec_merge a b v
spec (move_item a b item) v = spec_move a b item v
