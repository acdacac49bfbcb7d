-- ===== src/Service/Library.antt =====
-- What src/change_service/change_state.cpp uses of the library of collections. It is written for a
-- library whose `get_cache` and `get_current` give a reference (`.value().get()`), which
-- src/change_lib/wall_cache_library.hpp no longer has. So the library is a parameter here: a
-- reference is a collection to read and a write to it, and a local `auto` that is initialised with
-- one is a copy.
use wallchanger.Base.{Bool, false, ◌≡◌, List, String, Option, Outcome, done}
use wallchanger.Cache.{Cache}
use wallchanger.CacheLib.Saved.{SavedLib}

pub record Library (L : Type 0) : Type 0 where
  pub active_cache_name : L → String
  pub get_cache : String → L → Option (Cache String)
  pub write_cache : String → (Cache String → Cache String) → L → L
  pub get_current : L → Option (Cache String)
  pub cache_list : L → List String
  pub change_active : String → L → Outcome (Bool × L)
  pub rename_store : String → String → L → Bool × L
  pub insert : String → Cache String → L → Bool × L
  pub merge_cache : String → String → L → Bool × L
  pub move_cache_item : String → String → String → L → Bool × L
  pub remove : String → L → Bool × L
  -- What is written, if anything is, and what is read at the start.
  pub serialize : L → Outcome (Option SavedLib)
  pub loaded : Option SavedLib → L
  -- A call that fails leaves the library.
  pub change_active-false :
      (name : String) (l l' : L) → change_active name l ≡ done (false, l') → l' ≡ l
  pub rename_store-false :
      (from to : String) (l : L)
      → (rename_store from to l).0 ≡ false
      → (rename_store from to l).1 ≡ l
  pub insert-false :
      (name : String) (c : Cache String) (l : L)
      → (insert name c l).0 ≡ false
      → (insert name c l).1 ≡ l
  pub merge_cache-false :
      (a b : String) (l : L) → (merge_cache a b l).0 ≡ false → (merge_cache a b l).1 ≡ l
  pub move_cache_item-false :
      (a b item : String) (l : L)
      → (move_cache_item a b item l).0 ≡ false
      → (move_cache_item a b item l).1 ≡ l
  pub remove-false : (name : String) (l : L) → (remove name l).0 ≡ false → (remove name l).1 ≡ l
