-- ===== src/Manager/Marks.antt =====
-- `mark_favorate` and `next_wall` of src/change_app/wall_manager.cpp write the state of one item.
use wallchanger.Base.{
  ℕ, zero, suc, contains_first, sym, ◌∙◌, ◌≡◌, subst, List, [], ◌∷◌, String, Option, none, some,
  string_ordered, find_first, get_elem?, set, done, back?, Option-cases, inl, inr, arith,
}
use mathlib.Core.Option.{some-injective}
use wallchanger.Manager.Next.{next_wall-none, next_wall-Chosen}
use wallchanger.Cache.{Cache, touch, has_value}
use wallchanger.Cache.Item.{CacheState, item_ordered}
use wallchanger.CacheLib.{CacheStore}
use wallchanger.CacheLib.Lookup.{DistinctNames, update-DistinctNames, has}
use wallchanger.PathTable.{PathTable}
use wallchanger.Manager.Records.{Wall}
use wallchanger.Manager.Locations.{
  KnownItems, KnownStores, KnownItems-get, KnownItems-set, KnownItems-mark, KnownStores-update,
  KnownStores-find,
}
use wallchanger.Manager.{Manager, mark_favorate, next_wall, mark_used, marked, marked_cache}
use wallchanger.Manager.Invariant.{IsSafe}

known-set :
    (t : PathTable) (l : List CacheStore) (i : ℕ) (s : CacheStore)
    → KnownStores t l
    → KnownItems t s.second.m_list
    → KnownStores t (set l i s)
known-set t [] i s h k = tt
known-set t (x ∷ l) zero s h k = (k, h.1)
known-set t (x ∷ l) (suc i) s h k = (h.0, known-set t l i s h.1 k)

known-get :
    (t : PathTable) (l : List CacheStore) (i : ℕ) (s : CacheStore)
    → KnownStores t l
    → get_elem? l i ≡ some s
    → KnownItems t s.second.m_list
known-get t [] i s h e = cc
known-get t (x ∷ l) zero s h e =
    subst (λ q. KnownItems t q.second.m_list) (some-injective _ _ e) h.0
known-get t (x ∷ l) (suc i) s h e = known-get t l i s h.1 e

-- A write that keeps the name at its index keeps the names.
has-set :
    (n : String) (l : List CacheStore) (i : ℕ) (s : CacheStore) (c : Cache String)
    → get_elem? l i ≡ some s
    → has n (set l i (record s { second = c })) ≡ has n l
unfolding contains_first
has-set n [] i s c e = cc
has-set n (x ∷ l) zero s c e = ground arith
has-set n (x ∷ l) (suc i) s c e = ground (arith, has-set n l i s c e)

set-DistinctNames :
    (l : List CacheStore) (i : ℕ) (s : CacheStore) (c : Cache String)
    → get_elem? l i ≡ some s
    → DistinctNames l
    → DistinctNames (set l i (record s { second = c }))
set-DistinctNames [] i s c e d = tt
set-DistinctNames (x ∷ l) zero s c e d = ground arith
set-DistinctNames (x ∷ l) (suc i) s c e d =
    (has-set x.first l i s c e ∙ d.0, set-DistinctNames l i s c e d.1)

-- Where `mark_favorate` returns, a safe manager stays safe.
pub mark_favorate-IsSafe : (m m' : Manager) → IsSafe m → mark_favorate m ≡ done m' → IsSafe m'
unfolding mark_favorate
mark_favorate-IsSafe m m' s h = elim (Option-cases (back? m.m_previous)) [
  | inl e ↦ let same : m ≡ m' = ground arith in subst IsSafe same s
  | inr (cur, e) ↦ elim (Option-cases (get_elem? m.m_cache.m_cache_vec m.m_cache.m_current)) [
    | inl f ↦ absurd (ground arith)
    | inr (st, f) ↦ elim (Option-cases (find_first (has_value cur.wallpaper) st.second.m_list)) [
      | inl g ↦ absurd (ground arith)
      | inr (x, g) ↦
          let same : marked cur.wallpaper st m ≡ m' = ground arith in
          subst IsSafe same (record {
            keyed = s.keyed;
            names =
                set-DistinctNames m.m_cache.m_cache_vec m.m_cache.m_current st
                  (marked_cache cur.wallpaper st.second) f s.names;
            known =
                known-set m.m_path_buf m.m_cache.m_cache_vec m.m_cache.m_current
                  (record st { second = marked_cache cur.wallpaper st.second }) s.known
                  (KnownItems-mark m.m_path_buf (has_value cur.wallpaper) CacheState.favorate
                    st.second.m_list
                    (known-get m.m_path_buf m.m_cache.m_cache_vec m.m_cache.m_current st s.known
                      f));
          })
    ]
  ]
]

-- Where `next_wall` returns, with a wallpaper or without, a safe manager stays safe.
pub next_wall-IsSafe :
    (draws : List ℕ) (m m' : Manager) (w : Option Wall)
    → IsSafe m
    → next_wall draws m ≡ done (w, m')
    → IsSafe m'
next_wall-IsSafe draws m m' none s h = subst IsSafe (sym (next_wall-none draws m m' h).1) s
next_wall-IsSafe draws m m' (some w) s h =
    let c = next_wall-Chosen draws m m' w h in
    subst IsSafe (sym c.after) (record {
      keyed = s.keyed;
      names =
          update-DistinctNames m.m_cache.m_active_name (mark_used w.index c.item) _
            (update-DistinctNames m.m_cache.m_active_name touch m.m_cache.m_cache_vec s.names);
      known =
          KnownStores-update m.m_path_buf m.m_cache.m_active_name (mark_used w.index c.item) _
            (λ d k. KnownItems-set m.m_path_buf d.m_list w.index _ k (
              KnownItems-get m.m_path_buf c.store.second.m_list w.index c.item
                (KnownStores-find m.m_path_buf m.m_cache.m_active_name m.m_cache.m_cache_vec c.store
                  s.known c.found)
                c.at))
            (KnownStores-update m.m_path_buf m.m_cache.m_active_name touch m.m_cache.m_cache_vec
              (λ d k. k) s.known);
    })
