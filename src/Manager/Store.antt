-- ===== src/Manager/Store.antt =====
-- `Manager::store` of src/change_app/wall_manager.cpp, which ends every run of the program.
use wallchanger.Base.{
  ◌≤◌, ◌^◌, ap, ◌∙◌, >>=-eq-done, ◌>>=◌, false, Bool, true, ◌≡◌, refl, [], String, string_ordered,
  done, fault, past_end, arith, get_elem?, find_first, length, map, inl, inr, Option-cases, some,
  none,
}
use wallchanger.CacheLib.{modified, insert, exists}
use wallchanger.CacheLib.Active.{IsActive}
use wallchanger.CacheLib.Modified.{modified_of_any, any_modified}
use wallchanger.CacheLib.Saved.{SavedLib, serialize, store_to_json}
use wallchanger.CacheLib.Saved.Round.{DistinctItems, reflagged, loaded-serialize}
use wallchanger.CacheLib.Lookup.{DistinctNames}
use wallchanger.PathTable
use wallchanger.Manager.Records.{FileSystem}
use wallchanger.Manager.{Manager, Files, store, create_collection, started}

-- Where the active index and name agree and some collection is modified, `store` returns: the
-- library is written under its active name, and the path table as `path_table::store` writes it.
pub store-returns :
    (m : Manager)
    → IsActive m.m_cache
    → any_modified m.m_cache.m_cache_vec ≡ true
    → (files : Files) × (file : SavedLib) × (store m ≡ done files)
      × (files.libraries ≡ some file)
      × (file.active ≡ m.m_cache.m_active_name)
      × (files.path_table ≡ PathTable.store m.m_path_buf)
unfolding store serialize
store-returns m a h = elim (Option-cases (get_elem? m.m_cache.m_cache_vec m.m_cache.m_current)) [
  | inl e ↦ absurd (ground arith)
  | inr (s, e) ↦
      let file : SavedLib = record {
        total_count = length m.m_cache.m_cache_vec;
        active = s.first;
        cache_libraries = map store_to_json m.m_cache.m_cache_vec;
      } in
      (
        record {
          history = elim m.m_previous [ [] ↦ none | _ ↦ some m.m_previous ];
          path_table = PathTable.store m.m_path_buf;
          libraries = some file;
        },
        file,
        simp (modified_of_any m.m_cache h, e),
        refl,
        ground arith,
        refl,
      )
]

-- The first collection of all, created without a path, has an unset flag: storing the state then
-- dereferences the end iterator, whatever the name.
pub create_first-store :
    (fs : FileSystem) (name : String) (r : Bool) (m : Manager)
    → m.m_cache.m_cache_vec ≡ []
    → (create_collection fs name "" r m >>= λ q. store q.1) ≡ fault past_end
unfolding store serialize create_collection insert exists modified find_first
create_first-store fs name r m h = rw h refl

-- A manager that starts from what `store` wrote has the same collections, active collection and
-- paths; only flags differ, and the history is empty. The names, and the items of each collection,
-- are distinct, the active index and name agree, there are at most 2^32 collections, and the path
-- table and the library were both written.
pub started-store :
    (m : Manager) (files : Files) (file : SavedLib)
    → DistinctNames m.m_cache.m_cache_vec
    → DistinctItems m.m_cache.m_cache_vec
    → IsActive m.m_cache
    → length m.m_cache.m_cache_vec ≤ 2 ^ 32
    → m.m_path_buf.m_modified ≡ true
    → store m ≡ done files
    → files.libraries ≡ some file
    → started files.libraries files.path_table ≡ record {
      m_cache = record m.m_cache { m_cache_vec = reflagged m.m_cache.m_cache_vec };
      m_path_buf = record m.m_path_buf { m_modified = false };
      m_previous = [];
    }
unfolding store started PathTable.store
started-store m files file names items active small new h e =
    let (saved, written, rest) = >>=-eq-done (serialize m.m_cache) _ h in
    let same : saved ≡ files.libraries = ground arith in
    let table : files.path_table ≡ some m.m_path_buf.m_store = ground arith in
    let library =
      loaded-serialize m.m_cache file names items active small
        (written ∙ ap (λ o. done o) (same ∙ e)) in
    rw (e, table, library) refl
