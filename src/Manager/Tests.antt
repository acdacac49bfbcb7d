-- ===== src/Manager/Tests.antt =====
-- The theorems on src/change_app/wall_manager.cpp at a manager of two collections.
use wallchanger.Base.{
  inl, inr, subst, sym, Outcome, fault, map, none, Bool, true, false, ◌≡◌, ◌≢◌, refl, List, [], ◌∷◌,
  ◌++◌, String, some, done, string_ordered, nat_ordered, find_first, modify_first, contains_first,
  ◌==◌, arith,
}
use wallchanger.Cache.Item.{CacheItem, CacheState}
use wallchanger.CacheLib.Samples.{two, sea, item}
use wallchanger.CacheLib
use wallchanger.CacheLib.Saved.{SavedLib, serialize, store_to_json}
use wallchanger.CacheLib.Saved.Round.{reflagged}
use wallchanger.Crc.{crc, generate_crc_table, generate, byte_checksum, crc_byte}
use wallchanger.PathTable.Lookup.{insert-WellKeyed, exists-insert_self}
use wallchanger.PathTable
use wallchanger.PathTable.{PathTable, path_hash}
use wallchanger.Manager.Records.{Wall, FileSystem}
use wallchanger.Manager.{
  Manager, Files, mark_favorate, next_wall, previous_wall, pick, validate_collection,
  create_collection, store, started, take_wall,
}
use wallchanger.Manager.Taken.{Taken, next_wall-some}
use wallchanger.Manager.Next.{pick-returns, previous_wall-next_wall}
use wallchanger.Manager.Invariant.{IsSafe}
use wallchanger.Manager.Create.{create_collection-Ends}
use wallchanger.Manager.Throws.{Ends}
use wallchanger.Manager.Access.{validate_collection-Ends}
use wallchanger.Manager.Store.{started-store}

-- One directory with two files and a directory in it.
abbrev pub disk : FileSystem
disk = record {
  exists = λ p. some (p == "/pictures");
  directory = λ p. some (
      record { is_directory = false; filename = "a.png" }
      ∷ record { is_directory = true; filename = "old" }
      ∷ record { is_directory = false; filename = "b.png" }
      ∷ []);
  recursive_directory = λ p. none;
  file_exists = λ p f. some (f == "a.png");
}

-- No collection, and then one that is created from the directory.
abbrev nothing : Manager
nothing = record {
  m_cache = CacheLib.empty_lib;
  m_path_buf = PathTable.empty_table;
  m_previous = [];
}

nothing-IsSafe : IsSafe nothing
nothing-IsSafe = record { keyed = tt; names = tt; known = tt }

abbrev pub manager_of : Outcome (Bool × Manager) → Manager
manager_of (done r) = r.1
manager_of (fault e) = nothing

abbrev pub one : Manager
one = manager_of (create_collection disk "sea" "/pictures" false nothing)

manager_of-IsSafe :
    (o : Outcome (Bool × Manager)) → Ends disk (λ q. IsSafe q.1) o → IsSafe (manager_of o)
manager_of-IsSafe (done r) (inl (q, e, safe)) = subst (λ a. IsSafe (manager_of a)) (sym e) safe
manager_of-IsSafe (done r) (inr (e, t)) = absurd (ground arith)
manager_of-IsSafe (fault x) h = nothing-IsSafe

pub one-IsSafe : IsSafe one
one-IsSafe =
    manager_of-IsSafe (create_collection disk "sea" "/pictures" false nothing)
      (create_collection-Ends disk "sea" "/pictures" false nothing nothing-IsSafe)

validate_collection-Ends_example : Ends disk (λ r. IsSafe r.1) (validate_collection disk "sea" one)
validate_collection-Ends_example = validate_collection-Ends disk "sea" one one-IsSafe

-- Two collections whose paths are in the table under the location 7.
abbrev full : Manager
full = record {
  m_cache = two;
  m_path_buf = record { m_store = (7, "/pictures") ∷ []; m_modified = true };
  m_previous = [];
}

abbrev full_saved : SavedLib
full_saved = record {
  total_count = 2;
  active = "sea";
  cache_libraries = map store_to_json two.m_cache_vec;
}

abbrev full_files : Files
full_files = record {
  history = none;
  path_table = some ((7, "/pictures") ∷ []);
  libraries = some full_saved;
}

started-store_example : started full_files.libraries full_files.path_table ≡ record {
  m_cache = record two { m_cache_vec = reflagged two.m_cache_vec };
  m_path_buf = record full.m_path_buf { m_modified = false };
  m_previous = [];
}
unfolding store serialize CacheLib.modified PathTable.store find_first contains_first
started-store_example =
    started-store full full_files full_saved (refl, (refl, tt))
      ((refl, (refl, tt)), ((refl, tt), tt)) refl (omega arith) refl refl refl

abbrev sent : Wall
sent = record { wallpaper = "b.png"; path = "/pictures"; index = 1; collection = "sea" }

abbrev after_next : Manager
after_next = record full {
  m_cache = record two {
    m_cache_vec =
        record {
          first = "sea";
          second = record {
            m_modified = true;
            m_list = item "a.png" CacheState.used 7 ∷ item "b.png" CacheState.used 7 ∷ [];
          };
        }
        ∷ record { first = "sky"; second = wallchanger.CacheLib.Samples.sky }
        ∷ [];
  };
  m_previous = sent ∷ [];
}

next_full : next_wall (1 ∷ []) full ≡ done (some sent, after_next)
unfolding next_wall CacheLib.get_cache_mut CacheLib.get_cache CacheLib.exists find_first
    modify_first contains_first pick take_wall PathTable.get PathTable.exists
next_full = refl

next_wall-some_example : Taken full sent after_next
next_wall-some_example = next_wall-some (1 ∷ []) full after_next sent next_full

previous_wall-next_wall_example :
    previous_wall after_next ≡ (some sent, record after_next { m_previous = full.m_previous })
previous_wall-next_wall_example = previous_wall-next_wall (1 ∷ []) full after_next sent next_full

not_unused : CacheState.used ≢ CacheState.unused
not_unused h = cc

pick-returns_example : pick ((0 ∷ []) ++ 1 ∷ 5 ∷ []) sea.m_list ≡ done 1
pick-returns_example =
    pick-returns (0 ∷ []) (5 ∷ []) 1 sea.m_list (item "b.png" CacheState.unused 7)
      ((item "a.png" CacheState.used 7, refl, not_unused), tt) refl refl

picked_one : pick (1 ∷ []) sea.m_list ≡ done 1
unfolding pick
picked_one = refl

-- A collection in a table that has its path under its checksum, with one wallpaper shown.
abbrev hung_list : CacheState → CacheState → List (CacheItem String)
hung_list s t = item "a.png" s (path_hash "/pictures") ∷ item "b.png" t (path_hash "/pictures") ∷ []

abbrev shown : Wall
shown = record { wallpaper = "a.png"; path = "/pictures"; index = 0; collection = "sea" }

abbrev shown_next : Wall
shown_next = record { wallpaper = "b.png"; path = "/pictures"; index = 1; collection = "sea" }

abbrev hung : Bool → CacheState → CacheState → List Wall → Manager
hung flag s t previous = record {
  m_cache = record {
    m_cache_vec =
        record { first = "sea"; second = record { m_modified = flag; m_list = hung_list s t } }
        ∷ [];
    m_current = 0;
    m_active_name = "sea";
  };
  m_path_buf = PathTable.insert "/pictures" PathTable.empty_table;
  m_previous = previous;
}

abbrev before : Manager
before = hung false CacheState.used CacheState.unused (shown ∷ [])

before-IsSafe : IsSafe before
unfolding contains_first
before-IsSafe =
    let known = exists-insert_self "/pictures" PathTable.empty_table in
    record {
      keyed = insert-WellKeyed "/pictures" PathTable.empty_table tt;
      names = (refl, tt);
      known = ((known, (known, tt)), tt);
    }

abbrev marked_before : Manager
marked_before = hung true CacheState.favorate CacheState.unused (shown ∷ [])

mark_before : mark_favorate before ≡ done marked_before
unfolding mark_favorate find_first modify_first
mark_before = refl

abbrev next_before : Manager
next_before = hung true CacheState.used CacheState.used (shown ∷ shown_next ∷ [])

next_of_before : next_wall (0 ∷ 1 ∷ []) before ≡ done (some shown_next, next_before)
unfolding next_wall CacheLib.get_cache_mut CacheLib.get_cache CacheLib.exists find_first
    modify_first contains_first pick take_wall PathTable.get PathTable.exists PathTable.insert
    path_hash crc generate_crc_table generate byte_checksum crc_byte
next_of_before = refl
