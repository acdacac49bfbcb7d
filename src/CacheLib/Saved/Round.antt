-- ===== src/CacheLib/Saved/Round.antt =====
-- Reading back what was written: json_helper.hpp, `serialize` and the constructor `cache_lib(true)`.
use wallchanger.Base.{
  ℕ, zero, suc, ◌≤◌, ◌^◌, true, false, not, ◌≡◌, refl, ap, sym, ◌∙◌, List, [], ◌∷◌, ◌++◌, map,
  String, some, string_ordered, ◌==◌, contains_first, distance_first, distance-lt_length, length,
  get_elem?, done, past_end, or_fault, >>=-eq-done, or_fault-eq-done, arith, ==_iff, Bool-cases,
  inl, inr,
}
use mathlib.Core.Option.{some-injective}
use mathlib.Core.List.{append-nil, append_assoc}
use wallchanger.Cache.{Cache, empty_cache, clear, insert_elem}
use wallchanger.Cache
use wallchanger.Cache.Item.{CacheItem, CacheState, item_ordered}
use wallchanger.CacheLib.{CacheStore, CacheLib, has_name, modified}
use wallchanger.CacheLib.Lookup.{has, DistinctNames}
use wallchanger.CacheLib.Active.{name_at, name_at-has, name_at_of_get, IsActive}
use mathlib.Core.Path.{ap₂}
use wallchanger.CacheLib.Saved.{
  SavedLib, item_to_json, item_from_json, insert_all, cache_to_json, cache_from_json, store_to_json,
  store_from_json, serialize, loaded, state_from_json, state_to_json,
}

state_round : (s : CacheState) → state_from_json (state_to_json s) ≡ s
state_round CacheState.null = refl
state_round CacheState.unused = refl
state_round CacheState.used = refl
state_round CacheState.favorate = refl

item_round : (x : CacheItem String) → item_from_json (item_to_json x) ≡ x
item_round x = ap (λ s. record x { cache_state = s }) (state_round x.cache_state)

-- Each item differs from those before it.
abbrev pub AllNew : List (CacheItem String) → List (CacheItem String) → Type 0
AllNew before [] = Unit {0}
AllNew before (x ∷ xs) =
    (contains_first (λ y. y == x) before ≡ false) × AllNew (before ++ x ∷ []) xs

insert_elem_new :
    (x : CacheItem String) (c : Cache String)
    → contains_first (λ y. y == x) c.m_list ≡ false
    → insert_elem x c ≡ record { m_modified = true; m_list = c.m_list ++ x ∷ [] }
unfolding insert_elem
insert_elem_new x c h = rw (h, insert_elem) refl

insert_all_new :
    (xs before : List (CacheItem String))
    → AllNew before xs
    → insert_all (map item_to_json xs) (record { m_modified = true; m_list = before })
      ≡ record { m_modified = true; m_list = before ++ xs }
unfolding insert_all
insert_all_new [] before h = rw append-nil refl
insert_all_new (x ∷ xs) before h =
    ap (λ c. insert_all (map item_to_json xs) c)
      (ap (λ y. insert_elem y (record { m_modified = true; m_list = before })) (item_round x)
        ∙ insert_elem_new x (record { m_modified = true; m_list = before }) h.0)
    ∙ insert_all_new xs (before ++ x ∷ []) h.1
    ∙ ap (λ (l : List (CacheItem String)). record { m_modified = true; m_list = l })
        (append_assoc before (x ∷ []) xs)

cache_round :
    (c : Cache String)
    → AllNew [] c.m_list
    → cache_from_json (cache_to_json c) empty_cache
      ≡ record { m_modified = not (Cache.is_empty c); m_list = c.m_list }
unfolding cache_from_json cache_to_json clear
cache_round c h = on_list c.m_list h
  where
    on_list :
        (l : List (CacheItem String))
        → AllNew [] l
        → cache_from_json (cache_to_json (record c { m_list = l })) empty_cache
          ≡ record { m_modified = not (Cache.is_empty (record c { m_list = l })); m_list = l }
    on_list [] k = refl
    on_list (x ∷ l) k = insert_all_new (x ∷ l) [] k

-- No collection has two equal items.
abbrev pub DistinctItems : List CacheStore → Type 0
DistinctItems [] = Unit {0}
DistinctItems (s ∷ l) = AllNew [] s.second.m_list × DistinctItems l

-- The collections as a program that loads them sees them: those with items count as modified.
abbrev pub reflagged : List CacheStore → List CacheStore
reflagged l =
    map
      (λ s. record {
        first = s.first;
        second = record { m_modified = not (Cache.is_empty s.second); m_list = s.second.m_list };
      })
      l

stores_round :
    (l : List CacheStore)
    → DistinctItems l
    → map store_from_json (map store_to_json l) ≡ reflagged l
unfolding store_from_json store_to_json
stores_round [] h = refl
stores_round (s ∷ l) h =
    ap₂ (λ c k. record { first = s.first; second = c } ∷ k) (cache_round s.second h.0)
      (stores_round l h.1)

-- The place of the active collection is found again.
has-reflagged : (n : String) (l : List CacheStore) → has n (reflagged l) ≡ has n l
unfolding contains_first
has-reflagged n [] = refl
has-reflagged n (s ∷ l) = ground (arith, has-reflagged n l)

distance-reflagged :
    (n : String) (l : List CacheStore)
    → distance_first (has_name n) (reflagged l) ≡ distance_first (has_name n) l
unfolding distance_first
distance-reflagged n [] = refl
distance-reflagged n (s ∷ l) = ground (arith, distance-reflagged n l)

distance_of_name_at :
    (n : String) (l : List CacheStore) (i : ℕ)
    → DistinctNames l
    → name_at l i ≡ some n
    → distance_first (has_name n) l ≡ i
unfolding distance_first
distance_of_name_at n [] i d h = cc
distance_of_name_at n (s ∷ l) zero d h = ground (arith, ==_iff s.first n)
distance_of_name_at n (s ∷ l) (suc i) d h =
    ground (arith, distance_of_name_at n l i d.1 h, name_at-has l i n h, ==_iff s.first n)

serialize_inv :
    (lib : CacheLib) (file : SavedLib)
    → serialize lib ≡ done (some file)
    → (s : CacheStore) × (get_elem? lib.m_cache_vec lib.m_current ≡ some s)
      × (file.active ≡ s.first)
      × (file.cache_libraries ≡ map store_to_json lib.m_cache_vec)
unfolding serialize
serialize_inv lib file h =
    let (dirty, m, rest) = >>=-eq-done (modified lib) _ h in
    elim (Bool-cases dirty) [
      | inr clean ↦ absurd (ground arith)
      | inl d ↦
          let (s, at, sent) =
            >>=-eq-done (or_fault past_end (get_elem? lib.m_cache_vec lib.m_current)) _
              (rw d at rest) in
          let is : some (record {
            total_count = length lib.m_cache_vec;
            active = s.first;
            cache_libraries = map store_to_json lib.m_cache_vec;
          })
              ≡ some file =
            ground arith in
          (
            s,
            or_fault-eq-done past_end (get_elem? lib.m_cache_vec lib.m_current) at,
            ap (λ (f : SavedLib). f.active) (sym (some-injective _ _ is)),
            ap (λ (f : SavedLib). f.cache_libraries) (sym (some-injective _ _ is)),
          )
    ]

-- Loading what `serialize` wrote gives the same library: the names, the items with their states and
-- locations, the active name and its index. Only the flags differ. The names and the items of each
-- collection are distinct, the index and the name of the active collection agree, and there are at
-- most 2^32 collections.
pub loaded-serialize :
    (lib : CacheLib) (file : SavedLib)
    → DistinctNames lib.m_cache_vec
    → DistinctItems lib.m_cache_vec
    → IsActive lib
    → length lib.m_cache_vec ≤ 2 ^ 32
    → serialize lib ≡ done (some file)
    → loaded (some file) ≡ record lib { m_cache_vec = reflagged lib.m_cache_vec }
unfolding loaded
loaded-serialize lib file d items a small h =
    let (s, at, name, stores) = serialize_inv lib file h in
    let active : file.active ≡ lib.m_active_name =
      name ∙ some-injective _ _ (sym (name_at_of_get lib.m_cache_vec lib.m_current s at) ∙ a) in
    let here : has lib.m_active_name lib.m_cache_vec ≡ true =
      name_at-has lib.m_cache_vec lib.m_current lib.m_active_name a in
    rw
      (
        active,
        stores,
        stores_round lib.m_cache_vec items,
        has-reflagged lib.m_active_name lib.m_cache_vec,
        here,
        distance-reflagged lib.m_active_name lib.m_cache_vec,
      )
      (ap (λ (i : ℕ). record lib { m_cache_vec = reflagged lib.m_cache_vec; m_current = i })
        (omega (
          arith,
          distance_of_name_at lib.m_active_name lib.m_cache_vec lib.m_current d a,
          distance-lt_length (has_name lib.m_active_name) lib.m_cache_vec here,
        )))
