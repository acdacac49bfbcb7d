-- ===== src/CacheLib.antt =====
-- src/change_lib/wall_cache_library.hpp and wall_cache_library.cpp: the library of named
-- collections. A method returns its result and the library after the call.
pub mod Error
pub mod Spec
pub mod Active
pub mod Lookup
pub mod Refines
pub mod Calls
pub mod Compare
pub mod Modified
pub mod Saved
pub mod Samples
pub mod Tests
use wallchanger.Base.{
  ℕ, zero, suc, ◌+◌, ◌%◌, ◌^◌, Bool, true, false, not, ◌&&◌, List, [], ◌∷◌, ◌++◌, map, String,
  Option, none, some, string_ordered, ◌==◌, find_first, modify_first, erase_first, distance_first,
  if◌then◌else◌, length, get_elem?, Outcome, done, fault, past_end, bad_access, or_fault, ◌>>=◌,
}
use wallchanger.Cache.{
  Cache, sized_cache, has_value, contains, insert_elem, erase, clear, size, touch,
}
use wallchanger.Cache
use wallchanger.Cache.Item.{CacheItem, item_ordered}
use wallchanger.Cache.Merge.{merge, overwrite}
use Error.{
  Expected, value, unexpected, cache_does_not_exists, cache_frm_cache_to_same,
  cache_elem_not_exists, cache_name_item_name_same,
}

-- `cache_store`, a pair of a name and a collection.
pub record CacheStore : Type 0 where
  pub first : String
  pub second : Cache String

pub record CacheLib : Type 0 where
  pub m_cache_vec : List CacheStore
  pub m_current : ℕ
  pub m_active_name : String

-- `cache_lib() = default`.
abbrev pub empty_lib : CacheLib
empty_lib = record { m_cache_vec = []; m_current = 0; m_active_name = "" }

-- The projection that `std::ranges::find` compares with a name.
abbrev pub has_name : String → CacheStore → Bool
has_name name s = s.first == name

abbrev pub is_empty : CacheLib → Bool
is_empty lib = elim lib.m_cache_vec [ [] ↦ true | _ ↦ false ]

unfoldable pub exists : String → CacheLib → Bool
exists name lib =
    if is_empty lib then false else elim (find_first (has_name name) lib.m_cache_vec) [
      | none ↦ false
      | some s ↦ s.first == name
    ]

abbrev pub active_cache_name : CacheLib → String
active_cache_name lib = lib.m_active_name

abbrev pub cache_count : CacheLib → ℕ
cache_count lib = length lib.m_cache_vec

abbrev pub cache_list : CacheLib → List String
cache_list lib = map (λ s. s.first) lib.m_cache_vec

-- A write through the iterator of `find` to the collection of that name.
abbrev pub update_cache : String → (Cache String → Cache String) → CacheLib → CacheLib
update_cache name f lib = record lib {
  m_cache_vec =
      modify_first (has_name name) (λ s. record s { second = f s.second }) lib.m_cache_vec;
}

-- The const `get_current`: `operator[]` of a vector does not check its index.
unfoldable pub get_current : CacheLib → Outcome (List (CacheItem String))
get_current lib =
    or_fault past_end (get_elem? lib.m_cache_vec lib.m_current) >>= λ s. done s.second.m_list

-- The const `operator[]`: the iterator is not checked.
unfoldable pub index : String → CacheLib → Outcome (Cache String)
index name lib =
    or_fault past_end (find_first (has_name name) lib.m_cache_vec) >>= λ s. done s.second

-- The const `get_cache`.
unfoldable pub get_cache : String → CacheLib → Expected (List (CacheItem String))
unfolding exists
get_cache name lib =
    if exists name lib
    then elim (find_first (has_name name) lib.m_cache_vec) [
      | none ↦ unexpected cache_does_not_exists
      | some s ↦ value s.second.m_list
    ]
    else unexpected cache_does_not_exists

-- The other `get_cache`: a span over `data()`, which sets the flag of the collection.
unfoldable pub get_cache_mut : String → CacheLib → Expected (List (CacheItem String)) × CacheLib
unfolding exists get_cache
get_cache_mut name lib =
    if exists name lib
    then (get_cache name lib, update_cache name touch lib)
    else (unexpected cache_does_not_exists, lib)

unfoldable pub insert : String → Cache String → CacheLib → Expected Bool × CacheLib
unfolding exists
insert name c lib =
    if not (exists name lib)
    then (
      value true,
      record lib { m_cache_vec = lib.m_cache_vec ++ record { first = name; second = c } ∷ [] },
    )
    else (unexpected cache_does_not_exists, lib)

-- `static_cast<u32>(std::distance(...))`.
abbrev pub position : String → CacheLib → ℕ
position name lib = distance_first (has_name name) lib.m_cache_vec % 2 ^ 32

unfoldable pub change_active : String → CacheLib → Outcome (Expected Bool × CacheLib)
unfolding exists
change_active new_active lib =
    if exists new_active lib
    then or_fault past_end (get_elem? lib.m_cache_vec (position new_active lib)) >>= (λ s.
      done
        (value true, record lib { m_current = position new_active lib; m_active_name = s.first }))
    else done (unexpected cache_does_not_exists, lib)

unfoldable pub rename_store : String → String → CacheLib → Expected Bool × CacheLib
unfolding exists
rename_store from_name to_name lib =
    if not (from_name == to_name)
    then if exists from_name lib && not (exists to_name lib)
      then (
        value true,
        record lib {
          m_cache_vec =
              modify_first (has_name from_name) (λ s. record s { first = to_name }) lib.m_cache_vec;
          m_active_name = if from_name == lib.m_active_name then to_name else lib.m_active_name;
        },
      )
      else (unexpected cache_does_not_exists, lib)
    else (unexpected cache_frm_cache_to_same, lib)

-- The collection is cleared before it is erased.
unfoldable pub remove : String → CacheLib → Expected Bool × CacheLib
unfolding exists clear
remove name lib =
    if exists name lib
    then (
      value true,
      record lib {
        m_cache_vec = erase_first (has_name name) (update_cache name clear lib).m_cache_vec;
      },
    )
    else (unexpected cache_does_not_exists, lib)

-- `erase(find(collection, item))`.
unfoldable pub erase_item : String → Cache String → Cache String
unfolding erase
erase_item item_name c = erase (distance_first (has_value item_name) c.m_list) c

-- Looking for the item goes through the non-const `begin`, so the flag is set either way.
unfoldable pub remove_cache_item : String → String → CacheLib → Expected Bool × CacheLib
unfolding exists
remove_cache_item cache_name item_name lib =
    if not (cache_name == item_name)
    then if exists cache_name lib
      then elim (find_first (has_name cache_name) lib.m_cache_vec) [
        | none ↦ (unexpected cache_does_not_exists, lib)
        | some s ↦ elim (find_first (has_value item_name) s.second.m_list) [
          | none ↦ (unexpected cache_elem_not_exists, update_cache cache_name touch lib)
          | some x ↦ (value true, update_cache cache_name (erase_item item_name) lib)
        ]
      ]
      else (unexpected cache_does_not_exists, lib)
    else (unexpected cache_name_item_name_same, lib)

-- `new_store` of `merge_cache`: as many blank items as both have, overwritten by the merge. The
-- flag is set by its `begin()`.
unfoldable pub merged_cache : Cache String → Cache String → Cache String
unfolding overwrite sized_cache merge
merged_cache c1 c2 = record {
  m_modified = true;
  m_list = overwrite (merge c1.m_list c2.m_list) (sized_cache "" (size c1 + size c2)).m_list;
}

-- `begin()` sets the flags of the two collections too, which are then removed.
unfoldable pub merge_cache : String → String → CacheLib → Expected Bool × CacheLib
unfolding exists
merge_cache col1 col2 lib =
    if not (col1 == col2)
    then if exists col1 lib && exists col2 lib
      then elim (find_first (has_name col1) lib.m_cache_vec) [
        | none ↦ (unexpected cache_does_not_exists, lib)
        | some s1 ↦ elim (find_first (has_name col2) lib.m_cache_vec) [
          | none ↦ (unexpected cache_does_not_exists, lib)
          | some s2 ↦
              let rest = (remove col2 (remove col1 lib).1).1 in
              (
                value true,
                record rest {
                  m_cache_vec =
                      rest.m_cache_vec
                      ++ record { first = col1; second = merged_cache s1.second s2.second } ∷ [];
                },
              )
        ]
      ]
      else (unexpected cache_does_not_exists, lib)
    else (unexpected cache_frm_cache_to_same, lib)

-- The collection is searched twice for the item, by `contains` and by `find`.
unfoldable pub move_cache_item : String → String → String → CacheLib → Expected Bool × CacheLib
unfolding exists
move_cache_item source dest item_name lib =
    if not (source == dest) && not (dest == item_name)
    then if exists source lib && exists dest lib
      then elim (find_first (has_name source) lib.m_cache_vec) [
        | none ↦ (unexpected cache_does_not_exists, lib)
        | some src ↦ elim (find_first (has_value item_name) src.second.m_list) [
          | none ↦ (unexpected cache_elem_not_exists, lib)
          | some item ↦ (
            value true,
            update_cache source (erase_item item_name) (update_cache dest (insert_elem item) lib),
          )
        ]
      ]
      else (unexpected cache_does_not_exists, lib)
    else (unexpected cache_frm_cache_to_same, lib)

-- `find_if` gives the end where no collection is modified, and `->` is applied to it.
unfoldable pub modified : CacheLib → Outcome Bool
modified lib =
    if is_empty lib
    then done false
    else or_fault past_end (find_first (λ s. s.second.m_modified) lib.m_cache_vec) >>= λ s.
        done s.second.m_modified
