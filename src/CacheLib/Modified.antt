-- ===== src/CacheLib/Modified.antt =====
-- `cache_lib::modified` of src/change_lib/wall_cache_library.cpp, which decides whether `serialize`
-- writes the library.
use wallchanger.Base.{
  Bool, true, false, ◌≡◌, refl, List, [], ◌∷◌, ◌++◌, String, Option, string_ordered, contains_first,
  find_first, modify_first, if◌then◌else◌, arith, Outcome, done, fault, past_end, or_fault, ◌>>=◌,
  Option-cases, inl, inr,
}
use wallchanger.Cache.{Cache, has_value, insert_elem}
use wallchanger.CacheLib.Error.{value}
use wallchanger.CacheLib.Lookup.{has, has-update, renamed, exists_lem}
use wallchanger.CacheLib.{
  CacheStore, CacheLib, has_name, is_empty, modified, rename_store, remove, remove_cache_item,
  merge_cache, merged_cache, move_cache_item, erase_item, update_cache,
}

-- Some collection has its flag set.
abbrev pub any_modified : List CacheStore → Bool
any_modified l = contains_first (λ s. s.second.m_modified) l

abbrev flag_found : Option CacheStore → Outcome Bool
flag_found o = or_fault past_end o >>= λ s. done s.second.m_modified

flag_found_lem :
    (l : List CacheStore)
    → flag_found (find_first (λ s. s.second.m_modified) l)
      ≡ (if any_modified l then done true else fault past_end)
unfolding find_first contains_first
flag_found_lem [] = refl
flag_found_lem (s ∷ l) = ground (arith, flag_found_lem l)

-- Every case of `modified`: it answers only for the empty library and where a flag is set; in a
-- library of unmodified collections the end iterator is dereferenced.
pub modified_lem :
    (lib : CacheLib)
    → modified lib ≡ (
        if is_empty lib
        then done false
        else if any_modified lib.m_cache_vec
        then done true
        else fault past_end)
unfolding modified
modified_lem lib = ground (arith, flag_found_lem lib.m_cache_vec)

any_modified-renamed :
    (from to : String) (l : List CacheStore) → any_modified (renamed from to l) ≡ any_modified l
unfolding contains_first modify_first
any_modified-renamed from to [] = refl
any_modified-renamed from to (s ∷ l) = ground (arith, any_modified-renamed from to l)

abbrev no_stores : List CacheStore → Bool
no_stores l = elim l [ [] ↦ true | _ ↦ false ]

no_stores-renamed :
    (from to : String) (l : List CacheStore) → no_stores (renamed from to l) ≡ no_stores l
unfolding modify_first
no_stores-renamed from to [] = refl
no_stores-renamed from to (s ∷ l) = ground arith

-- A renaming, failed or not, has no effect on what `modified` answers: a library in which nothing
-- else was changed is not written.
pub modified-rename :
    (from to : String) (lib : CacheLib) → modified (rename_store from to lib).1 ≡ modified lib
unfolding rename_store
modified-rename from to lib =
    rw (modified_lem lib, modified_lem (rename_store from to lib).1)
      (ground (
        arith,
        any_modified-renamed from to lib.m_cache_vec,
        no_stores-renamed from to lib.m_cache_vec,
      ))

pub modified_of_any :
    (lib : CacheLib) → any_modified lib.m_cache_vec ≡ true → modified lib ≡ done true
unfolding contains_first
modified_of_any lib h = rw (modified_lem lib) (ground (arith, flagged lib.m_cache_vec))
  where
    flagged : (l : List CacheStore) → any_modified l ≡ true → no_stores l ≡ false
    flagged [] k = cc
    flagged (s ∷ l) k = refl

any_modified-append_one :
    (l : List CacheStore) (s : CacheStore)
    → s.second.m_modified ≡ true
    → any_modified (l ++ s ∷ []) ≡ true
unfolding contains_first
any_modified-append_one [] s h = ground arith
any_modified-append_one (x ∷ l) s h = ground (arith, any_modified-append_one l s)

any_modified-update :
    (n : String) (f : Cache String → Cache String) (l : List CacheStore)
    → ((c : Cache String) → (f c).m_modified ≡ true)
    → has n l ≡ true
    → any_modified (modify_first (has_name n) (λ s. record s { second = f s.second }) l) ≡ true
unfolding contains_first modify_first
any_modified-update n f [] h k = cc
any_modified-update n f (s ∷ l) h k = ground (arith, h s.second, any_modified-update n f l h)

-- The removal of an item is always noted.
pub modified-remove_item :
    (n item : String) (lib : CacheLib)
    → (remove_cache_item n item lib).0 ≡ value true
    → modified (remove_cache_item n item lib).1 ≡ done true
modified-remove_item n item lib h = modified_of_any (remove_cache_item n item lib).1 (
    unfold remove_cache_item in
    ground (
      arith,
      exists_lem n lib,
      any_modified-update n (erase_item item) lib.m_cache_vec (λ c. unfold erase_item in refl),
    ))

-- After a merge that succeeds `modified` answers true.
pub modified-merge :
    (a b : String) (lib : CacheLib)
    → (merge_cache a b lib).0 ≡ value true
    → modified (merge_cache a b lib).1 ≡ done true
modified-merge a b lib h =
    modified_of_any (merge_cache a b lib).1
      (elim (Option-cases (find_first (has_name a) lib.m_cache_vec)) [
        | inl e ↦ unfold merge_cache in ground arith
        | inr (s, e) ↦ elim (Option-cases (find_first (has_name b) lib.m_cache_vec)) [
          | inl e' ↦ unfold merge_cache in ground arith
          | inr (t, e') ↦
              unfold merge_cache merged_cache in
              ground (
                arith,
                any_modified-append_one (remove b (remove a lib).1).1.m_cache_vec
                    (record { first = a; second = merged_cache s.second t.second }) refl,
              )
        ]
      ])

-- After a move of an item that succeeds `modified` answers true.
pub modified-move :
    (a b item : String) (lib : CacheLib)
    → (move_cache_item a b item lib).0 ≡ value true
    → modified (move_cache_item a b item lib).1 ≡ done true
modified-move a b item lib h =
    modified_of_any (move_cache_item a b item lib).1
      (elim (Option-cases (find_first (has_name a) lib.m_cache_vec)) [
        | inl e ↦ unfold move_cache_item in ground arith
        | inr (s, e) ↦ elim (Option-cases (find_first (has_value item) s.second.m_list)) [
          | inl e' ↦ unfold move_cache_item in ground arith
          | inr (x, e') ↦
              unfold move_cache_item in
              ground (
                arith,
                exists_lem a lib,
                has-update b (insert_elem x) a lib.m_cache_vec,
                any_modified-update a (erase_item item)
                    (update_cache b (insert_elem x) lib).m_cache_vec
                    (λ c. unfold erase_item in refl),
              )
        ]
      ])
