-- ===== src/Manager/Taken.antt =====
-- What `next_wall` of src/change_app/wall_manager.cpp takes, and what it writes to the collections.
use wallchanger.Base.{
  ℕ, true, ◌≡◌, ◌≢◌, sym, ap, ◌∙◌, List, [], ◌∷◌, ◌++◌, String, some, string_ordered, ==_refl,
  ==_iff, get_elem?, set, done, find_first, arith,
}
use mathlib.Core.Option.{some-injective}
use wallchanger.Cache.{Cache, touch}
use wallchanger.Cache.Item.{CacheItem, CacheState}
use wallchanger.CacheLib.{CacheStore, CacheLib, has_name, update_cache}
use wallchanger.CacheLib.Lookup.{lookup, lookup-update}
use wallchanger.PathTable
use wallchanger.Manager.Records.{Wall}
use wallchanger.Manager.Next.{next_wall-Chosen, pick_unused}
use wallchanger.Manager.{Manager, next_wall, mark_used}

-- A wallpaper that was taken, by the collections before and after.
pub record Taken (m : Manager) (w : Wall) (m' : Manager) : Type 0 where
  pub list : Cache String
  pub item : CacheItem String
  pub active : lookup m.m_cache.m_active_name m.m_cache ≡ some list
  pub at : get_elem? list.m_list w.index ≡ some item
  pub unused : item.cache_state ≡ CacheState.unused
  pub wallpaper : w.wallpaper ≡ item.cache_value
  pub path : PathTable.get item.loc m.m_path_buf ≡ some w.path
  pub collection : w.collection ≡ m.m_cache.m_active_name
  pub used :
      lookup m.m_cache.m_active_name m'.m_cache
      ≡ some (record {
        m_modified = true;
        m_list = set list.m_list w.index (record item { cache_state = CacheState.used });
      })
  pub others : (n : String) → n ≢ m.m_cache.m_active_name → lookup n m'.m_cache ≡ lookup n m.m_cache
  pub same_active :
      (m'.m_cache.m_active_name ≡ m.m_cache.m_active_name)
      × (m'.m_cache.m_current ≡ m.m_cache.m_current)
  pub same_paths : m'.m_path_buf ≡ m.m_path_buf
  pub history : m'.m_previous ≡ m.m_previous ++ w ∷ []

module _ (n : String) (f : Cache String → Cache String) (lib : CacheLib) where
  lookup-update_same :
      (c : Cache String) → lookup n lib ≡ some c → lookup n (update_cache n f lib) ≡ some (f c)
  lookup-update_same c h = ground (arith, lookup-update n f n lib.m_cache_vec, ==_refl n)

  lookup-update_other : (m : String) → m ≢ n → lookup m (update_cache n f lib) ≡ lookup m lib
  lookup-update_other m h = ground (arith, lookup-update n f m lib.m_cache_vec, ==_iff n m)

lookup_found :
    (n : String) (lib : CacheLib) (s : CacheStore)
    → find_first (has_name n) lib.m_cache_vec ≡ some s
    → lookup n lib ≡ some s.second
lookup_found n lib s h = ground arith

-- If `next_wall` returns a wallpaper, it is an item of the active collection that was unused, under
-- the path of its location. Exactly this item is marked as used, the flag of its collection is set,
-- and the wallpaper ends the history; the other items and collections, the active collection and
-- the paths are as before.
pub next_wall-some :
    (draws : List ℕ) (m m' : Manager) (w : Wall)
    → next_wall draws m ≡ done (some w, m')
    → Taken m w m'
next_wall-some draws m m' w h =
    let c = next_wall-Chosen draws m m' w h in
    let a = m.m_cache.m_active_name in
    let touched = update_cache a touch m.m_cache in
    let (x, at, unused) = pick_unused draws c.store.second.m_list w.index c.picked in
    let same : x ≡ c.item = some-injective _ _ (sym at ∙ c.at) in
    let here = lookup_found a m.m_cache c.store c.found in
    record {
      list = c.store.second;
      item = c.item;
      active = here;
      at = c.at;
      unused = sym (ap (λ (y : CacheItem String). y.cache_state) same) ∙ unused;
      wallpaper = c.wallpaper;
      path = c.path;
      collection = c.collection;
      used =
          ap (λ (k : Manager). lookup a k.m_cache) c.after
          ∙ lookup-update_same a (mark_used w.index c.item) touched (touch c.store.second)
              (lookup-update_same a touch m.m_cache c.store.second here);
      others = λ n d.
          ap (λ (k : Manager). lookup n k.m_cache) c.after
          ∙ lookup-update_other a (mark_used w.index c.item) touched n d
          ∙ lookup-update_other a touch m.m_cache n d;
      same_active = (
        ap (λ (k : Manager). k.m_cache.m_active_name) c.after,
        ap (λ (k : Manager). k.m_cache.m_current) c.after,
      );
      same_paths = ap (λ (k : Manager). k.m_path_buf) c.after;
      history = ap (λ (k : Manager). k.m_previous) c.after;
    }
