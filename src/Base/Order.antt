-- ===== src/Base/Order.antt =====
-- What the source asks of a value by `operator<=>`: a comparison that answers `eq` for equal
-- values only. `==` and `<` are read off it, as C++ does.
use Prim.Native.Nat.{ℕ, Ordering, compare}
use Prim.Native.String.{String, compare as compare_text}
use mathlib.Core.Path.{◌≡◌, refl}
use mathlib.Core.Logic.{◌↔◌}
use mathlib.Core.Bool.{Bool, true}
use native.Mathlib.Omega.{arith}
use text.Mathlib.Text.{is_eq, is_lt}
use text.Mathlib.TextEquality.{eq_iff}

pub record Ordered {ℓ} (A : Type ℓ) : Type ℓ where
  pub three_way : A → A → Ordering
  pub three_way_iff : (a b : A) → (is_eq (three_way a b) ≡ true) ↔ (a ≡ b)

infix 50 ◌==◌ ◌<<◌
abbrev pub ◌==◌ {ℓ} : {A : Type ℓ} ⦃o : Ordered A⦄ → A → A → Bool
◌==◌ ⦃o⦄ a b = is_eq (o.three_way a b)

abbrev pub ◌<<◌ {ℓ} : {A : Type ℓ} ⦃o : Ordered A⦄ → A → A → Bool
◌<<◌ ⦃o⦄ a b = is_lt (o.three_way a b)

pub ==_iff {ℓ} : {A : Type ℓ} ⦃o : Ordered A⦄ (a b : A) → ((a == b) ≡ true) ↔ (a ≡ b)
==_iff ⦃o⦄ a b = o.three_way_iff a b

pub ==_refl {ℓ} : {A : Type ℓ} ⦃o : Ordered A⦄ (a : A) → (a == a) ≡ true
==_refl a = (==_iff a a).1 refl

pub compare_iff : (a b : ℕ) → (is_eq (compare a b) ≡ true) ↔ (a ≡ b)
compare_iff a b = ground arith

instance abbrev pub nat_ordered : Ordered ℕ
nat_ordered = record { three_way = compare; three_way_iff = compare_iff }

instance abbrev pub string_ordered : Ordered String
string_ordered = record { three_way = compare_text; three_way_iff = eq_iff }
