-- ===== src/Manager/Invariant.antt =====
-- The invariant of the manager of src/change_app/wall_manager.cpp, and the methods that only call
-- the library.
use wallchanger.Base.{String, string_ordered, back?, Option-cases, inl, inr}
use wallchanger.Cache.Item.{item_ordered}
use wallchanger.CacheLib.Spec
use wallchanger.CacheLib.Spec.{Call}
use wallchanger.CacheLib.Calls.{apply, apply-DistinctNames}
use wallchanger.CacheLib.Lookup.{DistinctNames}
use wallchanger.PathTable.Lookup.{WellKeyed}
use wallchanger.Manager.Locations.{KnownStores}
use wallchanger.Manager.Locations.Calls.{Brings, apply-KnownStores}
use wallchanger.Manager.{
  Manager, previous_wall, rename_collection, merge_collection, remove_collection, remove_wallpaper,
  move_wallpaper, with_library,
}

-- The entries of the path table stand under their checksums, the names of the collections are
-- distinct, and every location of an item is in the table.
pub record IsSafe (m : Manager) : Type 0 where
  pub keyed : WellKeyed m.m_path_buf.m_store
  pub names : DistinctNames m.m_cache.m_cache_vec
  pub known : KnownStores m.m_path_buf m.m_cache.m_cache_vec

-- A call of the library that brings known locations only.
pub call-IsSafe :
    (c : Call) (m : Manager)
    → Brings m.m_path_buf c
    → IsSafe m
    → IsSafe (with_library m (apply c m.m_cache)).1
call-IsSafe c m b s = record {
  keyed = s.keyed;
  names = apply-DistinctNames c m.m_cache s.names;
  known = apply-KnownStores m.m_path_buf c m.m_cache b s.known;
}

pub rename_collection-IsSafe :
    (from to : String) (m : Manager) → IsSafe m → IsSafe (rename_collection from to m).1
unfolding rename_collection
rename_collection-IsSafe from to m s = unfold apply in call-IsSafe (Spec.rename from to) m tt s

pub merge_collection-IsSafe :
    (a b : String) (m : Manager) → IsSafe m → IsSafe (merge_collection a b m).1
unfolding merge_collection
merge_collection-IsSafe a b m s = unfold apply in call-IsSafe (Spec.merge_two a b) m tt s

pub remove_collection-IsSafe :
    (c : String) (m : Manager) → IsSafe m → IsSafe (remove_collection c m).1
unfolding remove_collection
remove_collection-IsSafe c m s = unfold apply in call-IsSafe (Spec.remove c) m tt s

pub remove_wallpaper-IsSafe :
    (c w : String) (m : Manager) → IsSafe m → IsSafe (remove_wallpaper c w m).1
unfolding remove_wallpaper
remove_wallpaper-IsSafe c w m s = unfold apply in call-IsSafe (Spec.remove_item c w) m tt s

pub move_wallpaper-IsSafe :
    (a b w : String) (m : Manager) → IsSafe m → IsSafe (move_wallpaper a b w m).1
unfolding move_wallpaper
move_wallpaper-IsSafe a b w m s = unfold apply in call-IsSafe (Spec.move_item a b w) m tt s

pub previous_wall-IsSafe : (m : Manager) → IsSafe m → IsSafe (previous_wall m).1
unfolding previous_wall
previous_wall-IsSafe m s = elim (Option-cases (back? m.m_previous)) [
  | inl e ↦ rw (e, previous_wall) s
  | inr (w, e) ↦
      rw (e, previous_wall) (record { keyed = s.keyed; names = s.names; known = s.known })
]
