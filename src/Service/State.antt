-- ===== src/Service/State.antt =====
-- src/change_service/change_state.hpp and change_state.cpp. A command is a JSON object, by what is
-- read of it: a key that is missing or of another type throws, and as the methods are `noexcept`
-- this ends the program. Logging is left out.
use mathlib.Core.List.{foldl}
use wallchanger.Base.{
  string_ordered, ℕ, Bool, true, false, List, [], ◌∷◌, ◌++◌, String, Option, none, some,
  if◌then◌else◌, not, length, get_elem?, back?, pop_back, find_first, is_some, Outcome, done, fault,
  past_end, empty_range, bad_access, no_return, or_fault, ◌>>=◌,
}
use wallchanger.Cache.{Cache, empty_cache, has_value}
use wallchanger.Cache
use wallchanger.PathTable.{PathTable, path_hash}
use wallchanger.PathTable
use wallchanger.CacheLib.Saved.{SavedLib}
use wallchanger.Manager.{Files, pick, has_range, inserter, mark_used}
use wallchanger.Manager.Records.{Wall, DirEntry, WallPath}
use wallchanger.Service.Library.{Library}
use wallchanger.Service.Paths.{history_path}

pub record Command : Type 0 where
  pub text : String → Option String
  pub flag : String → Option Bool
  pub path : String → Option WallPath

-- `directory_iterator` and the recursive one; `none` where the constructor throws.
pub record Directories : Type 0 where
  pub directory : String → Option (List DirEntry)
  pub recursive_directory : String → Option (List DirEntry)

pub record State (L : Type 0) : Type 0 where
  pub m_cache : L
  pub m_path_buf : PathTable
  pub m_previous : List Wall

-- The directory of the data, and whether a stream opens that writes to a path.
pub record Disk : Type 0 where
  pub data_directory : String
  pub writable : String → Bool

-- What `list_collection` gives: a collection, or the names.
pub data Listing : Type 0 where
  collection : Cache String → Listing
  names : List String → Listing

module _ {L : Type 0} (lib : Library L) where
  -- The constructor: the history is not read.
  unfoldable pub started : Option SavedLib → Option (List (ℕ × String)) → State L
  started libraries entries = record {
    m_cache = lib.loaded libraries;
    m_path_buf = PathTable.opened entries;
    m_previous = [];
  }

  -- A stream that does not open takes the history without a word. The streams of the other two are
  -- as those of the client.
  unfoldable pub store_state : Disk → State L → Outcome Files
  store_state disk s = lib.serialize s.m_cache >>= λ libraries. done (record {
    history = elim s.m_previous [
      | [] ↦ none
      | _ ↦ if disk.writable (history_path disk.data_directory) then some s.m_previous else none
    ];
    path_table = PathTable.store s.m_path_buf;
    libraries = libraries;
  })

  abbrev pub with_library : State L → Bool × L → Bool × State L
  with_library s (ok, l) = (ok, record s { m_cache = l })

  -- `cur_cache` is a copy of the collection, and the item that is written is one of the copy.
  unfoldable pub mark_favorate : State L → Outcome (State L)
  unfolding find_first
  mark_favorate s = or_fault past_end (back? s.m_previous) >>= λ cur.
      or_fault bad_access (lib.get_current s.m_cache) >>= λ cur_cache.
      or_fault past_end (find_first (has_value cur.wallpaper) cur_cache.m_list) >>= λ item. done s

  -- The loop runs over a copy of the collection. The mark goes to the copy, of which the location
  -- is read again, and which ends with the call. Without an active collection the function ends
  -- without a `return`.
  unfoldable pub chosen : List ℕ → L → PathTable → Outcome Wall
  unfolding pick
  chosen draws l paths = or_fault no_return (lib.get_cache (lib.active_cache_name l) l) >>= λ cache.
      if has_range (length cache.m_list)
      then pick draws cache.m_list >>= (λ idx.
        or_fault past_end (get_elem? cache.m_list idx) >>= λ ret.
        let copy = mark_used idx ret cache in
        or_fault past_end (get_elem? copy.m_list idx) >>= λ marked.
        or_fault bad_access (PathTable.get marked.loc paths) >>= λ path. done (record {
          wallpaper = ret.cache_value;
          path = path;
          index = idx;
          collection = lib.active_cache_name l;
        }))
      else fault empty_range

  unfoldable pub get_next_wallpaper : List ℕ → State L → Outcome (Wall × State L)
  unfolding chosen
  get_next_wallpaper draws s = chosen draws s.m_cache s.m_path_buf >>= λ send.
      done (send, record s { m_previous = s.m_previous ++ send ∷ [] })

  -- `none` is the null object.
  unfoldable pub get_previous_wallpaper : State L → Option Wall × State L
  get_previous_wallpaper s = elim (back? s.m_previous) [
    | none ↦ (none, s)
    | some previous ↦ (some previous, record s { m_previous = pop_back s.m_previous })
  ]

  unfoldable pub change_active : Command → State L → Outcome (Bool × State L)
  change_active cmd s = or_fault bad_access (cmd.text "new_active_name") >>= λ name.
      lib.change_active name s.m_cache >>= λ r. done (with_library s r)

  unfoldable pub rename_collection : Command → State L → Outcome (Bool × State L)
  rename_collection cmd s = or_fault bad_access (cmd.text "col_name") >>= λ from.
      or_fault bad_access (cmd.text "col_name_new") >>= λ to.
      done (with_library s (lib.rename_store from to s.m_cache))

  abbrev pub listed : Directories → String → Bool → Option (List DirEntry)
  listed fs path recursive =
      if not recursive then fs.directory path else fs.recursive_directory path

  -- The files of the directory, and its path.
  unfoldable pub fill : Directories → Command → State L → Outcome (Cache String × State L)
  unfolding inserter
  fill fs cmd s = or_fault bad_access (cmd.text "col_path") >>= λ col_path.
      or_fault bad_access (cmd.flag "recursive") >>= λ recursive.
      or_fault bad_access (listed fs col_path recursive) >>= λ entries. done (
        foldl (inserter (path_hash col_path)) empty_cache entries,
        record s { m_path_buf = PathTable.insert col_path s.m_path_buf },
      )

  unfoldable pub create_collection : Directories → Command → State L → Outcome (Bool × State L)
  unfolding fill
  create_collection fs cmd s = or_fault bad_access (cmd.flag "col_empty") >>= λ col_empty.
      (if not col_empty then fill fs cmd s else done (empty_cache, s)) >>= λ filled.
      or_fault bad_access (cmd.text "new_col_name") >>= λ name.
      done (with_library filled.1 (lib.insert name filled.0 filled.1.m_cache))

  unfoldable pub add_to_collection : Command → State L → Outcome (Bool × State L)
  add_to_collection cmd s = or_fault bad_access (cmd.text "col_name") >>= λ col_name.
      or_fault bad_access (cmd.path "wall") >>= λ wall. done (
        if is_some (lib.get_cache col_name s.m_cache)
        then (
          true,
          record s {
            m_cache =
                lib.write_cache col_name (Cache.insert wall.filename (path_hash wall.parent_path))
                  s.m_cache;
            m_path_buf = PathTable.insert wall.parent_path s.m_path_buf;
          },
        )
        else (false, s))

  unfoldable pub list_collection : Command → State L → Outcome Listing
  list_collection cmd s = or_fault bad_access (cmd.flag "col_only") >>= λ col_only.
      if not col_only
      then or_fault bad_access (lib.get_current s.m_cache) >>= (λ c. done (collection c))
      else done (names (lib.cache_list s.m_cache))

  unfoldable pub move_collectoion : Command → State L → Outcome (Bool × State L)
  move_collectoion cmd s = or_fault bad_access (cmd.text "col_cur") >>= λ col_frm.
      or_fault bad_access (cmd.text "col_new") >>= λ col_to.
      or_fault bad_access (cmd.text "wall") >>= λ wall.
      done (with_library s (lib.move_cache_item col_frm col_to wall s.m_cache))

  unfoldable pub merge_collection : Command → State L → Outcome (Bool × State L)
  merge_collection cmd s = or_fault bad_access (cmd.text "col1") >>= λ col1.
      or_fault bad_access (cmd.text "col2") >>= λ col2.
      done (with_library s (lib.merge_cache col1 col2 s.m_cache))

  -- With `wall_only` nothing is removed.
  unfoldable pub remove_collection : Command → State L → Outcome (Bool × State L)
  remove_collection cmd s = or_fault bad_access (cmd.flag "wall_only") >>= λ wall_only.
      or_fault bad_access (cmd.text "col") >>= λ col. done (
        if wall_only
        then (is_some (lib.get_cache col s.m_cache), s)
        else with_library s (lib.remove col s.m_cache))
