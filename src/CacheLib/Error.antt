-- ===== src/CacheLib/Error.antt =====
-- src/change_lib/wall_error.hpp and wall_error.cpp: the error codes of the collection library and
-- their messages; and `std::expected<T, std::error_code>`.
use wallchanger.Base.{ℕ, String}

pub data WallErrc : Type 0 where
  success cache_does_not_exists cache_exists cache_frm_cache_to_same : WallErrc
  cache_elem_not_exists cache_name_item_name_same : WallErrc

-- The numbers of the enumerators, `uint8_t`.
unfoldable pub error_value : WallErrc → ℕ
error_value success = 0
error_value cache_does_not_exists = 1
error_value cache_exists = 3
error_value cache_frm_cache_to_same = 4
error_value cache_elem_not_exists = 5
error_value cache_name_item_name_same = 6

-- `wall_error_catagory::message`.
unfoldable pub message : WallErrc → String
message cache_does_not_exists = "Cache Does Not Exists"
message cache_exists = "Cache Already Exists"
message cache_frm_cache_to_same = "Cache From And Cache To Names Cannot Be Same"
message cache_name_item_name_same = "Cache Name And Item Name Are Same"
message _ = "(Unrecognized Error)"

pub data Expected {ℓ} (A : Type ℓ) : Type ℓ where
  value : A → Expected A
  unexpected : WallErrc → Expected A
