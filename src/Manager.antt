-- ===== src/Manager.antt =====
-- src/change_app/wall_manager.hpp and wall_manager.cpp: the collections, the path table and the
-- history of wallpapers behind the commands. A method returns its result and the manager after
-- the call, or the fault that it runs into. Logging is left out.
pub mod Records
pub mod Throws
pub mod Next
pub mod Taken
pub mod Locations
pub mod Invariant
pub mod Create
pub mod Marks
pub mod Access
pub mod Store
pub mod Tests
use mathlib.Core.List.{foldl}
use wallchanger.Base.{
  ℕ, ◌-◌, ◌%◌, ◌^◌, Bool, true, false, not, ◌&&◌, ◌||◌, List, [], ◌∷◌, ◌++◌, String, Option, none,
  some, string_ordered, nat_ordered, ◌==◌, find_first, modify_first, if◌then◌else◌, leb, length,
  get_elem?, set, back?, pop_back, Outcome, done, fault, past_end, terminated, empty_range,
  bad_access, still_running, or_fault, ◌>>=◌,
}
use wallchanger.Cache.{Cache, empty_cache, has_value}
use wallchanger.Cache
use wallchanger.Cache.Item.{CacheItem, CacheState, item_ordered}
use wallchanger.CacheLib.{
  CacheLib, CacheStore, exists, update_cache, get_cache, get_cache_mut, insert, rename_store,
  remove, remove_cache_item, merge_cache, move_cache_item, cache_list, has_name,
}
use wallchanger.CacheLib.Error.{Expected, value, unexpected}
use wallchanger.CacheLib
use wallchanger.CacheLib.Saved.{SavedLib, serialize, loaded}
use wallchanger.PathTable
use wallchanger.PathTable.{PathTable, path_hash}
use Records.{Wall, DirEntry, WallPath, FileSystem}

pub record Manager : Type 0 where
  pub m_cache : CacheLib
  pub m_path_buf : PathTable
  pub m_previous : List Wall

-- The constructor: the library and the path table are read, the history is not.
unfoldable pub started : Option SavedLib → Option (List (ℕ × String)) → Manager
started libraries entries = record {
  m_cache = loaded libraries;
  m_path_buf = PathTable.opened entries;
  m_previous = [];
}

-- `if (auto res = ...; res.has_value())`, over a call that returns the library.
abbrev pub answered : Expected Bool → Bool
answered (value b) = true
answered (unexpected e) = false

abbrev pub with_library : Manager → Expected Bool × CacheLib → Bool × Manager
with_library m r = (answered r.0, record m { m_cache = r.1 })

-- The write of `mark_favorate`, through the span over the current collection; `begin` has set the
-- flag.
abbrev pub marked_cache : String → Cache String → Cache String
marked_cache wallpaper c = record {
  m_modified = true;
  m_list =
      modify_first (has_value wallpaper) (λ x. record x { cache_state = CacheState.favorate })
        c.m_list;
}

abbrev pub marked : String → CacheStore → Manager → Manager
marked wallpaper s m = record m {
  m_cache = record m.m_cache {
    m_cache_vec =
        set m.m_cache.m_cache_vec m.m_cache.m_current
          (record s { second = marked_cache wallpaper s.second });
  };
}

-- The current collection is reached by the index, and its item by `find`; neither is checked.
unfoldable pub mark_favorate : Manager → Outcome Manager
mark_favorate m = elim (back? m.m_previous) [
  | none ↦ done m
  | some cur ↦ or_fault past_end (get_elem? m.m_cache.m_cache_vec m.m_cache.m_current) >>= λ s.
      or_fault past_end (find_first (has_value cur.wallpaper) s.second.m_list) >>= λ _.
      done (marked cur.wallpaper s m)
]

-- The three files in the data directory; what is not written stays as it is.
pub record Files : Type 0 where
  pub history : Option (List Wall)
  pub path_table : Option (List (ℕ × String))
  pub libraries : Option SavedLib

unfoldable pub store : Manager → Outcome Files
store m = serialize m.m_cache >>= λ libraries. done (record {
  history = elim m.m_previous [ [] ↦ none | _ ↦ some m.m_previous ];
  path_table = PathTable.store m.m_path_buf;
  libraries = libraries;
})

-- The loop of `next_wall` over the numbers that are drawn. A span does not check its index.
unfoldable pub pick : List ℕ → List (CacheItem String) → Outcome ℕ
pick [] items = fault still_running
pick (idx ∷ draws) items = elim (get_elem? items idx) [
  | none ↦ fault past_end
  | some x ↦ elim x.cache_state [ CacheState.unused ↦ done idx | _ ↦ pick draws items ]
]

-- Whether `dist(1, static_cast<int>(size))` has a range with numbers in it.
abbrev pub has_range : ℕ → Bool
has_range size = leb 1 (size % 2 ^ 32) && not (leb (2 ^ 31) (size % 2 ^ 32))

-- `cache[idx].cache_state = used`, through the span.
abbrev pub mark_used : ℕ → CacheItem String → Cache String → Cache String
mark_used idx x c = record c {
  m_list = set c.m_list idx (record x { cache_state = CacheState.used });
}

-- What `next_wall` does with the index that the loop found.
unfoldable pub take_wall :
    ℕ → List (CacheItem String) → CacheLib → Manager → Outcome (Option Wall × Manager)
take_wall idx items touched m = or_fault past_end (get_elem? items idx) >>= λ ret.
    or_fault bad_access (PathTable.get ret.loc m.m_path_buf) >>= λ path.
    let send : Wall = record {
      wallpaper = ret.cache_value;
      path = path;
      index = idx;
      collection = m.m_cache.m_active_name;
    } in
    done (
      some send,
      record m {
        m_cache = update_cache m.m_cache.m_active_name (mark_used idx ret) touched;
        m_previous = m.m_previous ++ send ∷ [];
      },
    )

-- `none` is the null object. The numbers drawn are an argument.
unfoldable pub next_wall : List ℕ → Manager → Outcome (Option Wall × Manager)
next_wall draws m =
    let (dat, touched) = get_cache_mut m.m_cache.m_active_name m.m_cache in
    elim dat [
      | unexpected e ↦ done (none, record m { m_cache = touched })
      | value items ↦
          if has_range (length items)
          then pick draws items >>= (λ idx. take_wall idx items touched m)
          else fault empty_range
    ]

unfoldable pub previous_wall : Manager → Option Wall × Manager
previous_wall m = elim (back? m.m_previous) [
  | none ↦ (none, m)
  | some previous ↦ (some previous, record m { m_previous = pop_back m.m_previous })
]

unfoldable pub change_active : String → Manager → Outcome (Bool × Manager)
change_active cmd m = CacheLib.change_active cmd m.m_cache >>= λ r. done (with_library m r)

unfoldable pub rename_collection : String → String → Manager → Bool × Manager
rename_collection from to m = with_library m (rename_store from to m.m_cache)

unfoldable pub merge_collection : String → String → Manager → Bool × Manager
merge_collection collection_1 collection_2 m =
    with_library m (merge_cache collection_1 collection_2 m.m_cache)

unfoldable pub remove_collection : String → Manager → Bool × Manager
remove_collection collection m = with_library m (remove collection m.m_cache)

unfoldable pub remove_wallpaper : String → String → Manager → Bool × Manager
remove_wallpaper collection wallpaper_name m =
    with_library m (remove_cache_item collection wallpaper_name m.m_cache)

unfoldable pub move_wallpaper : String → String → String → Manager → Bool × Manager
move_wallpaper origin dest wall_name m =
    with_library m (move_cache_item origin dest wall_name m.m_cache)

unfoldable pub list_collection : Manager → List String
list_collection m = cache_list m.m_cache

-- The empty span where there is no such collection.
unfoldable pub collection_items : String → Manager → List (CacheItem String)
collection_items name m = elim (get_cache name m.m_cache) [ value items ↦ items | _ ↦ [] ]

unfoldable pub add_to_collection : String → WallPath → Manager → Bool × Manager
add_to_collection collection_name wall m =
    if exists collection_name m.m_cache
    then (
      true,
      record m {
        m_cache =
            update_cache collection_name (Cache.insert wall.filename (path_hash wall.parent_path))
              m.m_cache;
        m_path_buf = PathTable.insert wall.parent_path m.m_path_buf;
      },
    )
    else (false, m)

-- The function `inserter` of `create_collection`.
unfoldable pub inserter : ℕ → Cache String → DirEntry → Cache String
inserter crc_loc cache entry =
    if entry.is_directory then cache else Cache.insert entry.filename crc_loc cache

module _ (fs : FileSystem) where
  -- The files of a new collection.
  unfoldable pub collect : String → Bool → Outcome (Cache String)
  unfolding inserter
  collect path recursive =
      or_fault terminated (if recursive then fs.recursive_directory path else fs.directory path)
      >>= λ entries. done (foldl (inserter (path_hash path)) empty_cache entries)

  -- The empty path is not looked up.
  abbrev pub path_exists : String → Outcome Bool
  path_exists path = if path == "" then done false else or_fault terminated (fs.exists path)

  unfoldable pub create_collection : String → String → Bool → Manager → Outcome (Bool × Manager)
  create_collection name path recursive m = path_exists path >>= λ there.
      if there
      then collect path recursive >>= (λ cache. done (
          with_library (record m { m_path_buf = PathTable.insert path m.m_path_buf })
            (insert name cache m.m_cache)))
      else done (with_library m (insert name empty_cache m.m_cache))

  -- The entries whose file does not exist, in order; a location that the table lacks throws.
  unfoldable pub invalid_entries :
      PathTable → List (CacheItem String) → Outcome (List (CacheItem String))
  invalid_entries t [] = done []
  invalid_entries t (ent ∷ rest) = or_fault bad_access (PathTable.get ent.loc t) >>= λ loc.
      or_fault terminated (fs.file_exists loc ent.cache_value) >>= λ valid.
      invalid_entries t rest >>= λ invalid. done (if valid then invalid else ent ∷ invalid)

  -- The numbers that are printed: all entries, the valid ones, and the invalid entries.
  unfoldable pub validate_collection :
      String → Manager → Outcome (Option (ℕ × ℕ × List (CacheItem String)) × Manager)
  validate_collection collection m =
      let (dat, touched) = get_cache_mut collection m.m_cache in
      elim dat [
        | unexpected e ↦ done (none, record m { m_cache = touched })
        | value items ↦ invalid_entries m.m_path_buf items >>= λ invalid. done (
          some (length items, length items - length invalid, invalid),
          record m { m_cache = touched },
        )
      ]
