-- ===== src/Cache/Tests.antt =====
-- The theorems on src/change_lib/wall_cache.hpp at a collection of two items.
use wallchanger.Base.{false, ◌≡◌, refl, [], ◌∷◌, String, string_ordered, contains_first}
use wallchanger.Cache.{Cache}
use wallchanger.Cache.Item.{CacheItem, CacheState, item_ordered}
use wallchanger.Cache.Distinct.{DistinctValues}
use wallchanger.Cache.Merge.{merge}

abbrev first : String
first = "a"

abbrev second : String
second = "b"

abbrev third : String
third = "c"

abbrev a : CacheItem String
a = record { cache_value = "a"; cache_state = CacheState.used; loc = 7 }

abbrev b : CacheItem String
b = record { cache_value = "b"; cache_state = CacheState.unused; loc = 7 }

abbrev both : Cache String
both = record { m_modified = false; m_list = a ∷ b ∷ [] }

both-DistinctValues : DistinctValues both.m_list
unfolding contains_first
both-DistinctValues = (refl, (refl, tt))

-- The items of both ranges in order.
merge_test : merge (b ∷ []) (a ∷ b ∷ []) ≡ a ∷ b ∷ b ∷ []
unfolding merge
merge_test = refl
