-- ===== src/Manager/Access.antt =====
-- The two methods of src/change_app/wall_manager.cpp that look a location up: `next_wall` and
-- `validate_collection`.
use wallchanger.Base.{
  ℕ, ◌-◌, ◌≡◌, ◌≢◌, refl, List, [], ◌∷◌, String, none, some, string_ordered, get_elem?, length,
  if◌then◌else◌, Outcome, done, fault, bad_access, terminated, or_fault, ◌>>=◌, Option-cases,
  Bool-cases, inl, inr, arith,
}
use wallchanger.Manager.Next.{next_wall_known, get_cache_mut_cases}
use wallchanger.Cache.{touch}
use wallchanger.Cache.Item.{CacheItem, CacheState, item_ordered}
use wallchanger.CacheLib.{CacheLib, update_cache, get_cache_mut}
use wallchanger.CacheLib.Error.{value}
use wallchanger.CacheLib.Lookup.{update-DistinctNames}
use wallchanger.PathTable.{PathTable}
use wallchanger.PathTable.Lookup.{get_of_exists}
use wallchanger.Manager.Records.{FileSystem}
use wallchanger.Manager.Throws.{Ends, >>=-Ends, asked}
use wallchanger.Manager.Locations.{KnownItems, KnownItems-get, KnownStores-update, KnownStores-find}
use wallchanger.Manager.{
  Manager, pick, next_wall, invalid_entries, validate_collection, has_range, take_wall,
}
use wallchanger.Manager.Invariant.{IsSafe}

pick-ne-bad_access :
    (draws : List ℕ) (items : List (CacheItem String)) → pick draws items ≢ fault bad_access
unfolding pick
pick-ne-bad_access [] items h = ground arith
pick-ne-bad_access (idx ∷ draws) items h = elim (Option-cases (get_elem? items idx)) [
  | inl e ↦ ground arith
  | inr (x, e) ↦ later x e x.cache_state refl (pick-ne-bad_access draws items)
]
  where
    later :
        (x : CacheItem String)
        → get_elem? items idx ≡ some x
        → (s : CacheState) → x.cache_state ≡ s
        → (pick draws items ≢ fault bad_access)
        → ⊥
    later x e CacheState.unused f k = ground arith
    later x e CacheState.used f k = k (ground arith)
    later x e CacheState.favorate f k = k (ground arith)
    later x e CacheState.null f k = k (ground arith)

take_wall-ne-bad_access :
    (idx : ℕ) (items : List (CacheItem String)) (touched : CacheLib) (m : Manager)
    → KnownItems m.m_path_buf items
    → take_wall idx items touched m ≢ fault bad_access
unfolding take_wall
take_wall-ne-bad_access idx items touched m k h = elim (Option-cases (get_elem? items idx)) [
  | inl e ↦ ground arith
  | inr (x, e) ↦
      let (p, f) = get_of_exists x.loc m.m_path_buf (KnownItems-get m.m_path_buf items idx x k e) in
      ground arith
]

draw-ne-bad_access :
    (draws : List ℕ) (items : List (CacheItem String)) (touched : CacheLib) (m : Manager)
    → KnownItems m.m_path_buf items
    → (pick draws items >>= (λ idx. take_wall idx items touched m)) ≢ fault bad_access
draw-ne-bad_access draws items touched m k h = later (pick draws items) refl h
  where
    later :
        (o : Outcome ℕ)
        → pick draws items ≡ o
        → (o >>= (λ idx. take_wall idx items touched m)) ≡ fault bad_access
        → ⊥
    later (done idx) e f = take_wall-ne-bad_access idx items touched m k f
    later (fault b) e f = pick-ne-bad_access draws items (ground arith)

-- For a safe manager, `next_wall` never asks for the value of a path that is not in the table,
-- whatever numbers are drawn.
pub next_wall-ne-bad_access :
    (draws : List ℕ) (m : Manager) → IsSafe m → next_wall draws m ≢ fault bad_access
next_wall-ne-bad_access draws m s h = elim (get_cache_mut_cases m.m_cache.m_active_name m.m_cache) [
  | inl (e, absent) ↦ unfold next_wall in ground arith
  | inr (st, found, e) ↦
      let items = st.second.m_list in
      let touched = update_cache m.m_cache.m_active_name touch m.m_cache in
      let k = rw (next_wall_known draws m items touched e) at h in
      elim (Bool-cases (has_range (length items))) [
        | inr bad ↦ ground arith
        | inl good ↦
            draw-ne-bad_access draws items touched m
              (KnownStores-find m.m_path_buf m.m_cache.m_active_name m.m_cache.m_cache_vec st
                s.known found)
              (rw good at k)
      ]
]

-- Every entry is looked up, so the loop of `validate_collection` has no fault of its own.
invalid_entries-Ends :
    (fs : FileSystem) (t : PathTable) (items : List (CacheItem String))
    → KnownItems t items
    → Ends fs (λ l. Unit {0}) (invalid_entries fs t items)
unfolding invalid_entries
invalid_entries-Ends fs t [] h = inl ([], refl, tt)
invalid_entries-Ends fs t (x ∷ items) h =
    let (p, e) = get_of_exists x.loc t h.0 in
    rw e (
      >>=-Ends fs (or_fault terminated (fs.file_exists p x.cache_value)) _
        (asked fs {P = λ b. Unit {0}} (fs.file_exists p x.cache_value)
          (λ n. inr (inr (inr (p, x.cache_value, n)))) (λ b. tt))
        (λ valid u.
          >>=-Ends fs (invalid_entries fs t items) _ (invalid_entries-Ends fs t items h.1)
            (λ l v. inl (if valid then l else x ∷ l, refl, tt))))

validate_known :
    (fs : FileSystem) (c : String) (m : Manager) (items : List (CacheItem String))
    (touched : CacheLib)
    → get_cache_mut c m.m_cache ≡ (value items, touched)
    → validate_collection fs c m ≡ (
        invalid_entries fs m.m_path_buf items >>= λ invalid. done (
          some (length items, length items - length invalid, invalid),
          record m { m_cache = touched },
        ))
unfolding validate_collection
validate_known fs c m items touched e = simp (e, validate_collection)

-- For a safe manager `validate_collection` returns, whatever the collection, and leaves a safe
-- manager, unless the file system throws: only then it ends the program.
pub validate_collection-Ends :
    (fs : FileSystem) (c : String) (m : Manager)
    → IsSafe m
    → Ends fs (λ r. IsSafe r.1) (validate_collection fs c m)
unfolding validate_collection
validate_collection-Ends fs c m s = elim (get_cache_mut_cases c m.m_cache) [
  | inl (e, absent) ↦ inl ((none, m), simp (e, validate_collection), s)
  | inr (st, found, e) ↦
      rw (validate_known fs c m st.second.m_list (update_cache c touch m.m_cache) e) (
        >>=-Ends fs (invalid_entries fs m.m_path_buf st.second.m_list) _
          (invalid_entries-Ends fs m.m_path_buf st.second.m_list
            (KnownStores-find m.m_path_buf c m.m_cache.m_cache_vec st s.known found))
          (λ l u. inl (
            (
              some (length st.second.m_list, length st.second.m_list - length l, l),
              record m { m_cache = update_cache c touch m.m_cache },
            ),
            refl,
            record {
              keyed = s.keyed;
              names = update-DistinctNames c touch m.m_cache.m_cache_vec s.names;
              known =
                  KnownStores-update m.m_path_buf c touch m.m_cache.m_cache_vec (λ d k. k) s.known;
            },
          )))
]
