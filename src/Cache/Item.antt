-- ===== src/Cache/Item.antt =====
-- src/change_lib/wall_cache.hpp: `cache_state_e`, `cache_item`, the comparison `<=>` that the
-- compiler generates for an item (value, state, loc, in this order), and the printed state.
use Prim.Native.Nat.{compare}
use text.Mathlib.Text.{is_eq}
use wallchanger.Base.{ℕ, true, ◌≡◌, ◌↔◌, String, Ordering, Ordered, compare_iff, arith}

pub data CacheState : Type 0 where
  null unused used favorate : CacheState

-- The numbers of the enumerators, `u8`.
abbrev pub rank : CacheState → ℕ
rank null = 0
rank unused = 1
rank used = 2
rank favorate = 3

pub record CacheItem {ℓ} (V : Type ℓ) : Type ℓ where
  pub cache_value : V
  pub cache_state : CacheState
  pub loc : ℕ

-- `std::formatter<cache_state_e>`.
unfoldable pub state_name : CacheState → String
state_name null = "null"
state_name unused = "unused"
state_name used = "used"
state_name favorate = "favorate"

-- The second comparison counts where the first finds its arguments equal.
abbrev pub then_compare : Ordering → Ordering → Ordering
then_compare Ordering.lt b = Ordering.lt
then_compare Ordering.eq b = b
then_compare Ordering.gt b = Ordering.gt

pub rank_iff : (s t : CacheState) → (is_eq (compare (rank s) (rank t)) ≡ true) ↔ (s ≡ t)
rank_iff s t = ground arith

module _ {ℓ} {V : Type ℓ} ⦃o : Ordered V⦄ where
  abbrev pub compare_items : CacheItem V → CacheItem V → Ordering
  compare_items x y =
      then_compare (o.three_way x.cache_value y.cache_value)
        (then_compare (compare (rank x.cache_state) (rank y.cache_state)) (compare x.loc y.loc))

  pub compare_items_iff : (x y : CacheItem V) → (is_eq (compare_items x y) ≡ true) ↔ (x ≡ y)
  compare_items_iff x y = ground (
    arith,
    o.three_way_iff x.cache_value y.cache_value,
    rank_iff x.cache_state y.cache_state,
    compare_iff x.loc y.loc,
  )

  instance abbrev pub item_ordered : Ordered (CacheItem V)
  item_ordered = record { three_way = compare_items; three_way_iff = compare_items_iff }
