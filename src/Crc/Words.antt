-- ===== src/Crc/Words.antt =====
-- Masks, and `^` of words with free digits, at every width.
use Prim.Native.Nat.{bit_and, bit_xor, min, bit_and-bitwise}
use native.Mathlib.Nat.{
  pow-suc, one-le-pow, mul-add-mod_self_right, mod-eq_of_lt, mod-lt, mod-one, div-add-mod,
}
use mathlib.Core.Path.{ap₂}
use wallchanger.Base.{
  ℕ, zero, suc, ◌+◌, ◌-◌, ◌*◌, ◌/◌, ◌%◌, ◌^◌, ◌≤◌, ◌<◌, ◌≡◌, refl, ◌∙◌, ap, arith,
}
use wallchanger.Crc.Xor.{
  enough_digits, bit_xor_step, bit_xor_even, bit_xor-zero, bit_xor_half, bit_xor_parity,
}

-- The lowest bit of a conjunction, and the others.
pub bit_and_halves : (x y : ℕ) → min (x % 2) (y % 2) + 2 * bit_and (x / 2) (y / 2) ≡ bit_and x y
bit_and_halves zero y = omega (arith, bit_and-bitwise 0 y, bit_and-bitwise 0 (y / 2))
bit_and_halves (suc x) y =
    let half = suc x / 2 in
    let digits_left = enough_digits (λ c. 0) min x half half (y / 2) (omega arith) (omega arith) in
    omega (arith, bit_and-bitwise (suc x) y, bit_and-bitwise half (y / 2), digits_left)

bit_and-zero : (n a : ℕ) → a ≤ n → bit_and a 0 ≡ 0
bit_and-zero n zero h = refl
bit_and-zero zero (suc a) h = absurd (omega arith)
bit_and-zero (suc n) (suc a) h =
    omega (arith, bit_and_halves (suc a) 0, bit_and-zero n (suc a / 2) (omega arith))

ones_half : (k : ℕ) → (2 ^ suc k - 1) / 2 ≡ 2 ^ k - 1
ones_half k = omega (arith, pow-suc 2 k, one-le-pow k 2)

ones_parity : (k : ℕ) → (2 ^ suc k - 1) % 2 ≡ 1
ones_parity k = omega (arith, pow-suc 2 k, one-le-pow k 2)

mod_two_pow : (a k : ℕ) → a % 2 ^ suc k ≡ a / 2 % 2 ^ k * 2 + a % 2
mod_two_pow a k =
    ap (λ (t : ℕ). t % 2 ^ suc k) split
    ∙ mul-add-mod_self_right (a / 2 / 2 ^ k) (2 ^ suc k) (a / 2 % 2 ^ k * 2 + a % 2)
    ∙ mod-eq_of_lt (omega (arith, pow-suc 2 k, one-le-pow k 2, mod-lt (a / 2) {m = 2 ^ k}))
  where
    split : a ≡ a / 2 / 2 ^ k * 2 ^ suc k + (a / 2 % 2 ^ k * 2 + a % 2)
    split =
        omega (arith, div-add-mod (a / 2) (2 ^ k), ap (λ (t : ℕ). a / 2 / 2 ^ k * t) (pow-suc 2 k))

-- A mask of `k` low digits is the remainder by `2 ^ k`.
pub bit_and_mask : (k a : ℕ) → bit_and a (2 ^ k - 1) ≡ a % 2 ^ k
bit_and_mask zero a = omega (arith, bit_and-zero a a (omega arith))
bit_and_mask (suc k) a = omega (
  arith,
  bit_and_halves a (2 ^ suc k - 1),
  ones_parity k,
  ap (λ (t : ℕ). bit_and (a / 2) t) (ones_half k),
  mod_two_pow a k,
  bit_and_mask k (a / 2),
)

pub mask_bit_and : (k a : ℕ) → bit_and (2 ^ k - 1) a ≡ a % 2 ^ k
mask_bit_and zero a = omega (arith, bit_and-bitwise 0 a)
mask_bit_and (suc k) a = omega (
  arith,
  bit_and_halves (2 ^ suc k - 1) a,
  ones_parity k,
  ap (λ (t : ℕ). bit_and t (a / 2)) (ones_half k),
  mod_two_pow a k,
  mask_bit_and k (a / 2),
)

pub bit_xor_mod : (k a b : ℕ) → bit_xor a b % 2 ^ k ≡ bit_xor (a % 2 ^ k) (b % 2 ^ k)
bit_xor_mod zero a b = rw (mod-one (bit_xor a b), mod-one a, mod-one b)
bit_xor_mod (suc k) a b = omega (
  arith,
  mod_two_pow (bit_xor a b) k,
  mod_two_pow a k,
  mod_two_pow b k,
  bit_xor_half a b,
  bit_xor_parity a b,
  ap (λ (t : ℕ). t % 2 ^ k) (bit_xor_half a b),
  bit_xor_mod k (a / 2) (b / 2),
  bit_xor_step (a % 2 ^ suc k) (b % 2 ^ suc k),
  halved a,
  halved b,
  ap₂ bit_xor (halved a) (halved b),
)
  where
    halved : (n : ℕ) → n % 2 ^ suc k / 2 ≡ n / 2 % 2 ^ k
    halved n = omega (arith, mod_two_pow n k)

-- Disjoint words are joined by `^`.
pub bit_xor_fields : (k q r : ℕ) → r < 2 ^ k → bit_xor (q * 2 ^ k) r ≡ q * 2 ^ k + r
bit_xor_fields zero q zero h = omega (arith, bit_xor-zero (q * 1))
bit_xor_fields zero q (suc r) h = absurd (omega arith)
bit_xor_fields (suc k) q r h = omega (
  arith,
  bit_xor_even (q * 2 ^ k) r,
  doubled,
  ap (λ (t : ℕ). bit_xor t r) doubled,
  bit_xor_fields k q (r / 2) (omega (arith, pow-suc 2 k)),
)
  where
    doubled : q * 2 ^ suc k ≡ q * 2 ^ k * 2
    doubled = omega (arith, ap (λ (t : ℕ). q * t) (pow-suc 2 k))
