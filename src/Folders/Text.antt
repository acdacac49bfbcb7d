-- ===== src/Folders/Text.antt =====
-- What src/change_lib/platform/linux/linux_known_folders.cpp does to a line: `contains`,
-- `std::views::split`, `find` with `replace`, and `erase` of what `std::ranges::find` finds.
use wallchanger.Base.{
  ℕ, Bool, true, false, ◌||◌, ◌≡◌, refl, List, [], ◌∷◌, ◌++◌, Option, none, some, ◌==◌, ==_refl,
  nat_ordered, if◌then◌else◌, arith, ◌⊎◌, inl, inr,
}
use mathlib.Core.Option.{map}

-- The bytes of a `std::string`.
abbrev pub Bytes : Type 0
Bytes = List ℕ

unfoldable pub has : ℕ → Bytes → Bool
has b [] = false
has b (c ∷ s) = c == b || has b s

unfoldable pub eq_bytes : Bytes → Bytes → Bool
eq_bytes [] [] = true
eq_bytes [] (d ∷ t) = false
eq_bytes (c ∷ s) [] = false
eq_bytes (c ∷ s) (d ∷ t) = if c == d then eq_bytes s t else false

-- The piece up to the first separator, and the pieces after it.
unfoldable pub pieces : ℕ → Bytes → Bytes × List Bytes
pieces b [] = ([], [])
pieces b (c ∷ s) = let (p, ps) = pieces b s in if c == b then ([], p ∷ ps) else (c ∷ p, ps)

-- An empty text has no pieces.
unfoldable pub split : ℕ → Bytes → List Bytes
unfolding pieces
split b [] = []
split b (c ∷ s) = let (p, ps) = pieces b (c ∷ s) in p ∷ ps

-- What follows a prefix, where the text begins with it.
unfoldable pub strip_prefix : Bytes → Bytes → Option Bytes
strip_prefix [] s = some s
strip_prefix (b ∷ bs) [] = none
strip_prefix (b ∷ bs) (c ∷ s) = let rest = strip_prefix bs s in if b == c then rest else none

-- `s.replace(s.find(old), old.size(), new)`; `none` where `find` gives `npos` and `replace` throws.
unfoldable pub replace_first : Bytes → Bytes → Bytes → Option Bytes
unfolding strip_prefix
replace_first old new [] = map (λ rest. new ++ rest) (strip_prefix old [])
replace_first old new (c ∷ s) =
    let later = map (◌∷◌ c) (replace_first old new s) in
    elim (strip_prefix old (c ∷ s)) [ some rest ↦ some (new ++ rest) | none ↦ later ]

-- `none` where `erase` is given the end iterator.
unfoldable pub erase_byte : ℕ → Bytes → Option Bytes
erase_byte b [] = none
erase_byte b (c ∷ s) = let later = map (◌∷◌ c) (erase_byte b s) in if c == b then some s else later

module _ (b : ℕ) where
  pub has-append : (s t : Bytes) → has b (s ++ t) ≡ (has b s || has b t)
  unfolding has
  has-append [] t = refl
  has-append (c ∷ s) t = ground (arith, has-append s t)

  -- What a text that has no such byte begins with, and goes on with.
  has-cons-false :
      (c : ℕ) (s : Bytes) → has b (c ∷ s) ≡ false → ((c == b) ≡ false) × (has b s ≡ false)
  unfolding has
  has-cons-false c s h = ground arith

  pub pieces-none : (s : Bytes) → has b s ≡ false → pieces b s ≡ (s, [])
  unfolding has pieces
  pieces-none [] h = refl
  pieces-none (c ∷ s) h =
      let (other, none_left) = has-cons-false c s h in rw (other, pieces-none s none_left) refl

  pub pieces-append :
      (s t : Bytes) → has b s ≡ false → pieces b (s ++ b ∷ t) ≡ (s, (pieces b t).0 ∷ (pieces b t).1)
  unfolding has pieces
  pieces-append [] t h = rw (==_refl b) refl
  pieces-append (c ∷ s) t h =
      let (other, none_left) = has-cons-false c s h in rw (other, pieces-append s t none_left) refl

  pub erase-append : (s t : Bytes) → has b s ≡ false → erase_byte b (s ++ b ∷ t) ≡ some (s ++ t)
  unfolding has erase_byte
  erase-append [] t h = rw (==_refl b) refl
  erase-append (c ∷ s) t h = ground (arith, erase-append s t)

  pub split-append :
      (s t : Bytes) → has b s ≡ false → has b t ≡ false → split b (s ++ b ∷ t) ≡ s ∷ t ∷ []
  unfolding split pieces
  split-append [] t h k = rw (==_refl b, pieces-none t k) refl
  split-append (c ∷ s) t h k = rw (pieces-append (c ∷ s) t h, pieces-none t k) refl

  -- No piece follows the first.
  pub split-none : (s : Bytes) → has b s ≡ false → (split b s ≡ []) ⊎ (split b s ≡ s ∷ [])
  unfolding split pieces
  split-none [] h = inl refl
  split-none (c ∷ s) h = inr (rw (pieces-none (c ∷ s) h) refl)

  pub replace-none : (old new s : Bytes) → has b s ≡ false → replace_first (b ∷ old) new s ≡ none
  unfolding replace_first strip_prefix
  replace-none old new [] h = refl
  replace-none old new (c ∷ s) h =
      let (other, none_left) = has-cons-false c s h in
      let no_match : strip_prefix (b ∷ old) (c ∷ s) ≡ none = rw (ne_symm c other) refl in
      rw (no_match, replace-none old new s none_left, replace_first) refl
    where
      ne_symm : (c : ℕ) → (c == b) ≡ false → (b == c) ≡ false
      ne_symm c h = ground arith
