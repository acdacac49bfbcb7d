-- ===== src/CacheLib/Saved.antt =====
-- `serialize`, `deserialize` and the constructor of src/change_lib/wall_cache_library.cpp, over the
-- conversions of src/change_lib/json_helper.hpp. A JSON value is the record of its members, `null`
-- is `none`; the printing and parsing of JSON text is the library's that the source calls.
pub mod Round
use mathlib.Core.List.{foldl}
use wallchanger.Base.{
  ℕ, ◌%◌, ◌^◌, Bool, true, false, List, [], ◌∷◌, map, String, Option, none, some, string_ordered,
  ◌==◌, contains_first, distance_first, if◌then◌else◌, length, get_elem?, Outcome, done, past_end,
  or_fault, ◌>>=◌,
}
use wallchanger.Cache.{Cache, empty_cache, clear, insert_elem, size}
use wallchanger.Cache
use wallchanger.Cache.Item.{CacheItem, CacheState}
use wallchanger.CacheLib.{CacheStore, CacheLib, empty_lib, has_name, position, modified}

pub record JsonItem : Type 0 where
  pub value : String
  pub state : Option String
  pub loc : ℕ

pub record JsonStore : Type 0 where
  pub name : String
  pub count : ℕ
  pub store : Option (List JsonItem)

-- What `libraries.json` holds.
pub record SavedLib : Type 0 where
  pub total_count : ℕ
  pub active : String
  pub cache_libraries : List JsonStore

-- The pairs of `NLOHMANN_JSON_SERIALIZE_ENUM`, read both ways; the first is the default.
abbrev pub state_to_json : CacheState → Option String
state_to_json CacheState.null = none
state_to_json CacheState.unused = some "unused"
state_to_json CacheState.used = some "used"
state_to_json CacheState.favorate = some "favorate"

abbrev pub state_from_json : Option String → CacheState
state_from_json none = CacheState.null
state_from_json (some s) =
    if s == "unused"
    then CacheState.unused
    else if s == "used"
    then CacheState.used
    else if s == "favorate"
    then CacheState.favorate
    else CacheState.null

abbrev pub item_to_json : CacheItem String → JsonItem
item_to_json rhs = record {
  value = rhs.cache_value;
  state = state_to_json rhs.cache_state;
  loc = rhs.loc;
}

abbrev pub item_from_json : JsonItem → CacheItem String
item_from_json j = record {
  cache_value = j.value;
  cache_state = state_from_json j.state;
  loc = j.loc;
}

unfoldable pub cache_to_json : Cache String → Option (List JsonItem)
cache_to_json rhs = if Cache.is_empty rhs then none else some (map item_to_json rhs.m_list)

-- The loop of `from_json` for a collection.
unfoldable pub insert_all : List JsonItem → Cache String → Cache String
insert_all arr rhs = foldl (λ c j. insert_elem (item_from_json j) c) rhs arr

-- A `null` leaves the collection that is read into.
unfoldable pub cache_from_json : Option (List JsonItem) → Cache String → Cache String
cache_from_json none rhs = rhs
cache_from_json (some arr) rhs = insert_all arr (clear rhs)

unfoldable pub store_to_json : CacheStore → JsonStore
store_to_json rhs = record {
  name = rhs.first;
  count = size rhs.second;
  store = cache_to_json rhs.second;
}

unfoldable pub store_from_json : JsonStore → CacheStore
store_from_json j = record { first = j.name; second = cache_from_json j.store empty_cache }

-- What `serialize` writes, if anything; the name of the active collection is read by the index.
unfoldable pub serialize : CacheLib → Outcome (Option SavedLib)
serialize lib = modified lib >>= λ dirty.
    if dirty
    then or_fault past_end (get_elem? lib.m_cache_vec lib.m_current) >>= (λ s. done (
        some (record {
          total_count = length lib.m_cache_vec;
          active = s.first;
          cache_libraries = map store_to_json lib.m_cache_vec;
        })))
    else done none

-- A file that is there holds an object.
unfoldable pub deserialize : Option SavedLib → CacheLib → Bool × CacheLib
deserialize none lib = (false, lib)
deserialize (some obj) lib = (
  true,
  record lib { m_cache_vec = map store_from_json obj.cache_libraries; m_active_name = obj.active },
)

-- `cache_lib(true)`.
unfoldable pub loaded : Option SavedLib → CacheLib
unfolding deserialize
loaded file =
    let (good, lib) = deserialize file empty_lib in
    if good
    then record lib {
      m_current =
          if contains_first (has_name lib.m_active_name) lib.m_cache_vec
          then position lib.m_active_name lib
          else 0;
    }
    else lib
