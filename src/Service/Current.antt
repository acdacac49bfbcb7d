-- ===== src/Service/Current.antt =====
-- The library of src/change_lib/wall_cache_library.cpp behind the calls of
-- src/change_service/change_state.cpp.
use wallchanger.Base.{
  Bool, true, false, ◌≡◌, refl, String, string_ordered, find_first, get_elem?, Outcome, done, fault,
  ◌>>=◌, Bool-cases, Option-cases, inl, inr, arith, past_end,
}
use mathlib.Core.Option.{map}
use wallchanger.Cache.{Cache}
use wallchanger.CacheLib.{
  CacheLib, has_name, update_cache, exists, position, insert, rename_store, remove, merge_cache,
  move_cache_item, cache_list,
}
use wallchanger.CacheLib
use wallchanger.CacheLib.Saved.{serialize, loaded}
use wallchanger.CacheLib.Error.{Expected, value, unexpected, cache_does_not_exists}
use wallchanger.Manager.{answered}
use wallchanger.Service.Library.{Library}

abbrev pub answered_by : Expected Bool × CacheLib → Bool × CacheLib
answered_by (e, l) = (answered e, l)

-- A call that ends in an error code leaves the library.
abbrev pub Leaves : CacheLib → Expected Bool × CacheLib → Type 0
Leaves l r = answered r.0 ≡ false → r.1 ≡ l

pub rename_store-Leaves : (from to : String) (l : CacheLib) → Leaves l (rename_store from to l)
unfolding rename_store
rename_store-Leaves from to l h = ground arith

pub insert-Leaves : (name : String) (c : Cache String) (l : CacheLib) → Leaves l (insert name c l)
unfolding insert
insert-Leaves name c l h = ground arith

pub remove-Leaves : (name : String) (l : CacheLib) → Leaves l (remove name l)
unfolding remove
remove-Leaves name l h = ground arith

pub merge_cache-Leaves : (a b : String) (l : CacheLib) → Leaves l (merge_cache a b l)
unfolding merge_cache
merge_cache-Leaves a b l h = ground arith

pub move_cache_item-Leaves :
    (a b item : String) (l : CacheLib) → Leaves l (move_cache_item a b item l)
unfolding move_cache_item
move_cache_item-Leaves a b item l h = ground arith

pub change_active-Leaves :
    (name : String) (l l' : CacheLib)
    → (CacheLib.change_active name l >>= λ r. done (answered_by r)) ≡ done (false, l')
    → l' ≡ l
unfolding CacheLib.change_active
change_active-Leaves name l l' h = elim (Bool-cases (exists name l)) [
  | inl there ↦ elim (Option-cases (get_elem? l.m_cache_vec (position name l))) [
    | inl past ↦
        let e : CacheLib.change_active name l ≡ fault past_end =
          rw (there, past, CacheLib.change_active) refl in
        let k : ◌≡◌ {A = Outcome (Bool × CacheLib)} (fault past_end) (done (false, l')) =
          rw e at h in
        cc
    | inr (st, at_index) ↦
        let r : CacheLib = record l { m_current = position name l; m_active_name = st.first } in
        let e : CacheLib.change_active name l ≡ done (value true, r) =
          rw (there, at_index, CacheLib.change_active) refl in
        let k : ◌≡◌ {A = Outcome (Bool × CacheLib)} (done (true, r)) (done (false, l')) =
          rw e at h in
        cc
  ]
  | inr missing ↦
      let e : CacheLib.change_active name l ≡ done (unexpected cache_does_not_exists, l) =
        rw (missing, CacheLib.change_active) refl in
      let k : ◌≡◌ {A = Outcome (Bool × CacheLib)} (done (false, l)) (done (false, l')) =
        rw e at h in
      ground arith
]

unfoldable pub current : Library CacheLib
current = record {
  active_cache_name = λ l. l.m_active_name;
  get_cache = λ name l. map (λ s. s.second) (find_first (has_name name) l.m_cache_vec);
  write_cache = update_cache;
  get_current = λ l. map (λ s. s.second) (get_elem? l.m_cache_vec l.m_current);
  cache_list = cache_list;
  change_active = λ name l. CacheLib.change_active name l >>= λ r. done (answered_by r);
  rename_store = λ from to l. answered_by (rename_store from to l);
  insert = λ name c l. answered_by (insert name c l);
  merge_cache = λ a b l. answered_by (merge_cache a b l);
  move_cache_item = λ a b item l. answered_by (move_cache_item a b item l);
  remove = λ name l. answered_by (remove name l);
  serialize = serialize;
  loaded = loaded;
  change_active-false = change_active-Leaves;
  rename_store-false = rename_store-Leaves;
  insert-false = insert-Leaves;
  merge_cache-false = merge_cache-Leaves;
  move_cache_item-false = move_cache_item-Leaves;
  remove-false = remove-Leaves;
}
