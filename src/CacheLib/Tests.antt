-- ===== src/CacheLib/Tests.antt =====
-- The theorems on src/change_lib/wall_cache_library.cpp at concrete libraries.
use wallchanger.Base.{
  true, false, done, ◌≡◌, refl, List, [], ◌∷◌, ◌⊎◌, string_ordered, contains_first, find_first,
  modify_first, erase_first, map, some, arith,
}
use wallchanger.CacheLib.Samples.{two}
use wallchanger.CacheLib.Error.{value, unexpected, cache_does_not_exists}
use wallchanger.CacheLib.Spec.{Call}
use wallchanger.CacheLib.Spec
use wallchanger.CacheLib.Calls.{run, spec_run, apply, run-Refines, apply-DistinctNames}
use wallchanger.CacheLib.Refines.{view}
use wallchanger.CacheLib.Lookup.{DistinctNames}
use wallchanger.CacheLib.Active.{IsActive, change_active_lem}
use wallchanger.CacheLib.Saved.{SavedLib, serialize, loaded, store_to_json}
use wallchanger.CacheLib.Saved.Round.{reflagged, loaded-serialize}
use wallchanger.CacheLib.{
  CacheLib, exists, change_active, rename_store, remove, merge_cache, modified,
}

abbrev calls : List Call
calls = Spec.rename "sea" "lake" ∷ Spec.merge_two "lake" "sky" ∷ Spec.remove "sea" ∷ []

two-DistinctNames : DistinctNames two.m_cache_vec
unfolding contains_first
two-DistinctNames = (refl, (refl, tt))

run-Refines_example :
    ((run calls two).0 ≡ (spec_run calls (view two)).0)
    × (view (run calls two).1 ≡ (spec_run calls (view two)).1)
run-Refines_example = run-Refines calls two two-DistinctNames

-- The answers of the three calls.
run_test : (run calls two).0 ≡ value true ∷ value true ∷ unexpected cache_does_not_exists ∷ []
unfolding run apply rename_store merge_cache remove exists find_first modify_first erase_first
run_test = refl

apply-DistinctNames_example : DistinctNames (apply (Spec.merge_two "sea" "sky") two).1.m_cache_vec
apply-DistinctNames_example = apply-DistinctNames (Spec.merge_two "sea" "sky") two two-DistinctNames

change_active_lem_example :
    (exists "sky" two ≡ false)
      × (change_active "sky" two ≡ done (unexpected cache_does_not_exists, two))
    ⊎ ((lib' : CacheLib) × (change_active "sky" two ≡ done (value true, lib'))
        × (exists "sky" two ≡ true)
        × (lib'.m_cache_vec ≡ two.m_cache_vec)
        × (lib'.m_active_name ≡ "sky")
        × IsActive lib')
change_active_lem_example = change_active_lem "sky" two (omega arith)

abbrev two_saved : SavedLib
two_saved = record {
  total_count = 2;
  active = "sea";
  cache_libraries = map store_to_json two.m_cache_vec;
}

loaded-serialize_example :
    loaded (some two_saved) ≡ record two { m_cache_vec = reflagged two.m_cache_vec }
unfolding serialize modified find_first contains_first
loaded-serialize_example =
    loaded-serialize two two_saved two-DistinctNames ((refl, (refl, tt)), ((refl, tt), tt)) refl
      (omega arith) refl
