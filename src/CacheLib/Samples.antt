-- ===== src/CacheLib/Samples.antt =====
-- Two small collections, for the tests of src/change_lib/wall_cache_library.cpp and of what uses it.
use wallchanger.Base.{ℕ, true, false, [], ◌∷◌, String}
use wallchanger.Cache.{Cache}
use wallchanger.Cache.Item.{CacheItem, CacheState}
use wallchanger.CacheLib.{CacheLib}

abbrev pub item : String → CacheState → ℕ → CacheItem String
item v s l = record { cache_value = v; cache_state = s; loc = l }

abbrev pub sea : Cache String
sea = record {
  m_modified = true;
  m_list = item "a.png" CacheState.used 7 ∷ item "b.png" CacheState.unused 7 ∷ [];
}

abbrev pub sky : Cache String
sky = record { m_modified = false; m_list = item "c.png" CacheState.favorate 7 ∷ [] }

abbrev pub two : CacheLib
two = record {
  m_cache_vec =
      record { first = "sea"; second = sea } ∷ record { first = "sky"; second = sky } ∷ [];
  m_current = 0;
  m_active_name = "sea";
}
