-- ===== src/Manager/Create.antt =====
-- `add_to_collection` and `create_collection` of src/change_app/wall_manager.cpp, which bring items
-- and their locations in.
use wallchanger.Base.{
  ℕ, Bool, true, false, refl, done, terminated, or_fault, ◌>>=◌, ◌≡◌, List, [], ◌∷◌, String, ◌==◌,
  string_ordered, if◌then◌else◌, Bool-cases, inl, inr, arith,
}
use mathlib.Core.List.{foldl}
use wallchanger.Cache.{Cache, touch, has_value, empty_cache}
use wallchanger.Cache
use wallchanger.Cache.Item.{item_ordered}
use wallchanger.CacheLib.{exists, insert}
use wallchanger.CacheLib.Spec
use wallchanger.CacheLib.Spec.{Call}
use wallchanger.CacheLib.Calls.{apply}
use wallchanger.CacheLib.Lookup.{update-DistinctNames}
use wallchanger.PathTable
use wallchanger.PathTable.{PathTable, path_hash}
use wallchanger.PathTable.Lookup.{insert-WellKeyed, exists-insert_self}
use wallchanger.Manager.Records.{DirEntry, WallPath, FileSystem}
use wallchanger.Manager.Throws.{Ends, >>=-Ends, asked}
use wallchanger.Manager.Locations.{
  KnownItems, KnownItems-insert, KnownStores-update, KnownStores-insert_path,
}
use wallchanger.Manager.{
  Manager, add_to_collection, inserter, collect, path_exists, create_collection, with_library,
}
use wallchanger.Manager.Invariant.{IsSafe, call-IsSafe}

pub add_to_collection-IsSafe :
    (c : String) (w : WallPath) (m : Manager) → IsSafe m → IsSafe (add_to_collection c w m).1
unfolding add_to_collection
add_to_collection-IsSafe c w m s = elim (Bool-cases (exists c m.m_cache)) [
  | inr absent ↦ rw (absent, add_to_collection) s
  | inl there ↦
      rw (there, add_to_collection)
        (record {
          keyed = insert-WellKeyed w.parent_path m.m_path_buf s.keyed;
          names =
              update-DistinctNames c (Cache.insert w.filename (path_hash w.parent_path))
                m.m_cache.m_cache_vec s.names;
          known =
              KnownStores-update (PathTable.insert w.parent_path m.m_path_buf) c
                (Cache.insert w.filename (path_hash w.parent_path)) m.m_cache.m_cache_vec
                (λ d k.
                  KnownItems-insert _ w.filename (path_hash w.parent_path) d k
                    (exists-insert_self w.parent_path m.m_path_buf))
                (KnownStores-insert_path m.m_path_buf w.parent_path m.m_cache.m_cache_vec s.known);
        })
]

collect-KnownItems :
    (t : PathTable) (loc : ℕ) (entries : List DirEntry) (c : Cache String)
    → PathTable.exists loc t ≡ true
    → KnownItems t c.m_list
    → KnownItems t (foldl (inserter loc) c entries).m_list
unfolding inserter
collect-KnownItems t loc [] c h k = k
collect-KnownItems t loc (e ∷ entries) c h k =
    collect-KnownItems t loc entries (inserter loc c e) h
      (ground (arith, KnownItems-insert t e.filename loc c k h))

create-KnownItems :
    (fs : FileSystem) (path : String) (b : Bool) (t : PathTable)
    → PathTable.exists (path_hash path) t ≡ true
    → Ends fs (λ c. KnownItems t c.m_list) (collect fs path b)
unfolding collect
create-KnownItems fs path b t h =
    >>=-Ends fs (or_fault terminated (if b then fs.recursive_directory path else fs.directory path))
      _ (listed b)
      (λ entries u. inl (_, refl, collect-KnownItems t (path_hash path) entries empty_cache h tt))
  where
    listed :
        (r : Bool)
        → Ends fs
            (λ l. Unit {0})
            (or_fault terminated (if r then fs.recursive_directory path else fs.directory path))
    listed true = asked fs (fs.recursive_directory path) (λ n. inr (inr (inl (path, n)))) (λ l. tt)
    listed false = asked fs (fs.directory path) (λ n. inr (inl (path, n))) (λ l. tt)

path_exists-Ends : (fs : FileSystem) (path : String) → Ends fs (λ b. Unit {0}) (path_exists fs path)
path_exists-Ends fs path = elim (Bool-cases (path == "")) [
  | inl empty ↦ inl (false, rw empty refl, tt)
  | inr given ↦ rw given (asked fs (fs.exists path) (λ n. inl (path, n)) (λ b. tt))
]

with_path :
    (p : String) (n : Manager)
    → IsSafe n
    → IsSafe (record n { m_path_buf = PathTable.insert p n.m_path_buf })
with_path p n k = record {
  keyed = insert-WellKeyed p n.m_path_buf k.keyed;
  names = k.names;
  known = KnownStores-insert_path n.m_path_buf p n.m_cache.m_cache_vec k.known;
}

-- `create_collection` keeps a manager safe on every branch where it returns: without a path, with
-- one that does not exist, from a directory or its subdirectories, and where the name is taken. It
-- returns unless the file system throws.
pub create_collection-Ends :
    (fs : FileSystem) (name path : String) (r : Bool) (m : Manager)
    → IsSafe m
    → Ends fs (λ q. IsSafe q.1) (create_collection fs name path r m)
unfolding create_collection
create_collection-Ends fs name path r m s =
    >>=-Ends fs (path_exists fs path) _ (path_exists-Ends fs path) (λ there u. on there)
  where
    on :
        (there : Bool)
        → Ends fs
            (λ q. IsSafe q.1)
            (if there
              then collect fs path r >>= (λ cache. done (
                  with_library
                    (record m { m_path_buf = PathTable.insert path m.m_path_buf })
                    (insert name cache m.m_cache)))
              else done (with_library m (insert name empty_cache m.m_cache)))
    on false = inl (_, refl, unfold apply in call-IsSafe (Spec.insert name empty_cache) m tt s)
    on true =
        >>=-Ends fs (collect fs path r) _
          (create-KnownItems fs path r (PathTable.insert path m.m_path_buf)
            (exists-insert_self path m.m_path_buf))
          (λ cache known. inl (
            _,
            refl,
            unfold apply in
                call-IsSafe (Spec.insert name cache)
                  (record m { m_path_buf = PathTable.insert path m.m_path_buf }) known
                  (with_path path m s),
          ))
