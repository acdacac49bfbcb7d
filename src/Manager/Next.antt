-- ===== src/Manager/Next.antt =====
-- `next_wall` and `previous_wall` of src/change_app/wall_manager.cpp.
use mathlib.Core.Option.{some-injective}
use wallchanger.Base.{
  ℕ, ◌≤◌, false, ◌≡◌, ◌≢◌, ◌⊎◌, ap, sym, ◌∙◌, List, [], ◌∷◌, ◌++◌, String, Option, none, some,
  find_first, get_elem?, length, if◌then◌else◌, done, fault, past_end, bad_access, empty_range,
  ◌>>=◌, or_fault, >>=-eq-done, or_fault-eq-done, back?, pop_back, back?-append, pop_back-append,
  get_elem?-length, Option-cases, Bool-cases, inl, inr, arith, find_of_contains,
}
use wallchanger.Cache.{touch}
use wallchanger.Cache.Item.{CacheItem, CacheState}
use wallchanger.CacheLib.{
  CacheLib, CacheStore, has_name, exists, get_cache, get_cache_mut, update_cache,
}
use wallchanger.CacheLib.Error.{value, unexpected, cache_does_not_exists}
use wallchanger.CacheLib.Lookup.{exists_lem}
use wallchanger.PathTable
use wallchanger.Manager.Records.{Wall}
use wallchanger.Manager.{Manager, pick, take_wall, next_wall, previous_wall, mark_used, has_range}

-- The non-const `get_cache` fails on an unknown name, and touches a known one.
pub get_cache_mut_cases :
    (n : String) (lib : CacheLib)
    → (get_cache_mut n lib ≡ (unexpected cache_does_not_exists, lib)) × (exists n lib ≡ false)
      ⊎ ((s : CacheStore) × (find_first (has_name n) lib.m_cache_vec ≡ some s)
          × (get_cache_mut n lib ≡ (value s.second.m_list, update_cache n touch lib)))
unfolding get_cache_mut get_cache
get_cache_mut_cases n lib = elim (Bool-cases (exists n lib)) [
  | inr absent ↦ inl (rw (absent, get_cache_mut), absent)
  | inl there ↦
      let (s, found, hit) =
        find_of_contains (has_name n) lib.m_cache_vec (sym (exists_lem n lib) ∙ there) in
      inr (s, found, ground arith)
]

-- What is known of a wallpaper that `next_wall` returned.
pub record Chosen (draws : List ℕ) (m : Manager) (w : Wall) (m' : Manager) : Type 0 where
  pub store : CacheStore
  pub item : CacheItem String
  pub found : find_first (has_name m.m_cache.m_active_name) m.m_cache.m_cache_vec ≡ some store
  pub picked : pick draws store.second.m_list ≡ done w.index
  pub at : get_elem? store.second.m_list w.index ≡ some item
  pub wallpaper : w.wallpaper ≡ item.cache_value
  pub path : PathTable.get item.loc m.m_path_buf ≡ some w.path
  pub collection : w.collection ≡ m.m_cache.m_active_name
  pub after : m' ≡ record m {
    m_cache =
        update_cache m.m_cache.m_active_name
          (mark_used w.index item)
          (update_cache m.m_cache.m_active_name touch m.m_cache);
    m_previous = m.m_previous ++ w ∷ [];
  }

pub next_wall_known :
    (draws : List ℕ) (m : Manager) (items : List (CacheItem String)) (touched : CacheLib)
    → get_cache_mut m.m_cache.m_active_name m.m_cache ≡ (value items, touched)
    → next_wall draws m ≡ (
        if has_range (length items)
        then pick draws items >>= (λ idx. take_wall idx items touched m)
        else fault empty_range)
unfolding next_wall
next_wall_known draws m items touched e = simp (e, next_wall)

module _ (idx : ℕ) (items : List (CacheItem String)) (touched : CacheLib) (m : Manager) where
  take_wall_inv :
      (o : Option Wall) (m' : Manager)
      → take_wall idx items touched m ≡ done (o, m')
      → (x : CacheItem String) × (path : String) × (get_elem? items idx ≡ some x)
        × (PathTable.get x.loc m.m_path_buf ≡ some path)
        × (o
            ≡ some (record {
              wallpaper = x.cache_value;
              path = path;
              index = idx;
              collection = m.m_cache.m_active_name;
            }))
        × (m' ≡ record m {
          m_cache = update_cache m.m_cache.m_active_name (mark_used idx x) touched;
          m_previous =
              m.m_previous
              ++ record {
                wallpaper = x.cache_value;
                path = path;
                index = idx;
                collection = m.m_cache.m_active_name;
              }
                ∷ [];
        })
  unfolding take_wall
  take_wall_inv o m' h =
      let (x, at, rest) = >>=-eq-done (or_fault past_end (get_elem? items idx)) _ h in
      let (path, located, sent) =
        >>=-eq-done (or_fault bad_access (PathTable.get x.loc m.m_path_buf)) _ rest in
      (
        x,
        path,
        or_fault-eq-done past_end (get_elem? items idx) at,
        or_fault-eq-done bad_access (PathTable.get x.loc m.m_path_buf) located,
        ground arith,
        ground arith,
      )

-- Where there is no active collection the null object is returned, and nothing changes.
pub next_wall-none :
    (draws : List ℕ) (m m' : Manager)
    → next_wall draws m ≡ done (none, m')
    → (exists m.m_cache.m_active_name m.m_cache ≡ false) × (m' ≡ m)
next_wall-none draws m m' h = elim (get_cache_mut_cases m.m_cache.m_active_name m.m_cache) [
  | inl (e, absent) ↦ (absent, unfold next_wall in ground arith)
  | inr (s, found, e) ↦
      let items = s.second.m_list in
      let touched = update_cache m.m_cache.m_active_name touch m.m_cache in
      let k = rw (next_wall_known draws m items touched e) at h in
      elim (Bool-cases (has_range (length items))) [
        | inr bad ↦ ground arith
        | inl good ↦
            let (idx, picked, t) = >>=-eq-done (pick draws items) _ (rw good at k) in
            let (x, path, at, located, sent, after) = take_wall_inv idx items touched m none m' t in
            cc
      ]
]

-- What the calls inside `next_wall` gave, where it returns a wallpaper.
pub next_wall-Chosen :
    (draws : List ℕ) (m m' : Manager) (w : Wall)
    → next_wall draws m ≡ done (some w, m')
    → Chosen draws m w m'
next_wall-Chosen draws m m' w h = elim (get_cache_mut_cases m.m_cache.m_active_name m.m_cache) [
  | inl (e, absent) ↦ absurd (unfold next_wall in ground arith)
  | inr (s, found, e) ↦
      let items = s.second.m_list in
      let touched = update_cache m.m_cache.m_active_name touch m.m_cache in
      let k = rw (next_wall_known draws m items touched e) at h in
      elim (Bool-cases (has_range (length items))) [
        | inr bad ↦ absurd (ground arith)
        | inl good ↦
            let (idx, picked, t) = >>=-eq-done (pick draws items) _ (rw good at k) in
            let (x, path, at, located, sent, after) =
              take_wall_inv idx items touched m (some w) m' t in
            record {
              store = s;
              item = x;
              found = found;
              picked = ground arith;
              at = ground arith;
              wallpaper = ground arith;
              path = ground arith;
              collection = ground arith;
              after = rw (some-injective _ _ sent) after;
            }
      ]
]

state_cases : (s : CacheState) → (s ≡ CacheState.unused) ⊎ (s ≢ CacheState.unused)
state_cases s = ground arith

-- The loop returns only an index that was drawn, and at which the item is unused.
pub pick_unused :
    (draws : List ℕ) (items : List (CacheItem String)) (idx : ℕ)
    → pick draws items ≡ done idx
    → (x : CacheItem String) × (get_elem? items idx ≡ some x) × (x.cache_state ≡ CacheState.unused)
unfolding pick
pick_unused [] items idx h = cc
pick_unused (d ∷ draws) items idx h = elim (Option-cases (get_elem? items d)) [
  | inl e ↦ absurd (ground arith)
  | inr (x, e) ↦ elim (state_cases x.cache_state) [
    | inl u ↦ (x, ground arith, u)
    | inr n ↦ pick_unused draws items idx (ground arith)
  ]
]

-- It returns at the first number drawn at which there is an unused item, if those before it are
-- indices of items that are not.
abbrev pub Unusable : List (CacheItem String) → List ℕ → Type 0
Unusable items [] = Unit {0}
Unusable items (d ∷ draws) =
    ((x : CacheItem String) × (get_elem? items d ≡ some x) × (x.cache_state ≢ CacheState.unused))
    × Unusable items draws

-- The loop of `next_wall` ends at the first number drawn at which there is an unused item, if the
-- numbers before it are indices of items that are not.
pub pick-returns :
    (before after : List ℕ) (idx : ℕ) (items : List (CacheItem String)) (x : CacheItem String)
    → Unusable items before
    → get_elem? items idx ≡ some x
    → x.cache_state ≡ CacheState.unused
    → pick (before ++ idx ∷ after) items ≡ done idx
unfolding pick
pick-returns [] after idx items x u e h = ground arith
pick-returns (d ∷ before) after idx items x u e h =
    ground (arith, pick-returns before after idx items x u.1 e h, u.0)

-- `dist` draws from 1 to the size. The size itself is no index of the span.
pub pick_size :
    (items : List (CacheItem String)) (draws : List ℕ)
    → pick (length items ∷ draws) items ≡ fault past_end
unfolding pick
pick_size items draws = rw (get_elem?-length items, pick)

abbrev pub Drawn : ℕ → List ℕ → Type 0
Drawn size [] = Unit {0}
Drawn size (d ∷ draws) = (1 ≤ d) × (d ≤ size) × Drawn size draws

-- If all numbers are drawn from 1 to the size, the loop never chooses index 0, the first item of a
-- collection.
pub pick-pos :
    (draws : List ℕ) (items : List (CacheItem String)) (size idx : ℕ)
    → Drawn size draws
    → pick draws items ≡ done idx
    → 1 ≤ idx
unfolding pick
pick-pos [] items size idx u h = cc
pick-pos (d ∷ draws) items size idx u h = ground (arith, pick-pos draws items size idx u.2)

-- `previous_wall` right after `next_wall` gives the wallpaper that `next_wall` gave, and takes the
-- history back to what it was.
pub previous_wall-next_wall :
    (draws : List ℕ) (m m' : Manager) (w : Wall)
    → next_wall draws m ≡ done (some w, m')
    → previous_wall m' ≡ (some w, record m' { m_previous = m.m_previous })
unfolding previous_wall
previous_wall-next_wall draws m m' w h =
    let c = next_wall-Chosen draws m m' w h in
    let kept : m'.m_previous ≡ m.m_previous ++ w ∷ [] =
      ap (λ (n : Manager). n.m_previous) c.after in
    ground (
      arith,
      back?-append m.m_previous w,
      pop_back-append m.m_previous w,
      ap back? kept,
      ap pop_back kept,
    )
