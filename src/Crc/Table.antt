-- ===== src/Crc/Table.antt =====
-- The table-driven checksum of src/change_lib/crc32.hpp against the checksum bit by bit.
use Prim.Native.Nat.{bit_and, bit_xor}
use mathlib.Core.List.{foldl}
use native.Mathlib.Nat.{mul-one, add-zero, zero-add, pow-suc, mod-eq_of_lt}
use wallchanger.Base.{
  ℕ, zero, suc, ◌+◌, ◌-◌, ◌*◌, ◌/◌, ◌%◌, ◌^◌, ◌<◌, ◌≡◌, refl, sym, ap, ◌∙◌, List, [], ◌∷◌, Option,
  none, some, get_elem?, ◌==◌, nat_ordered, if◌then◌else◌, arith,
}
use wallchanger.Crc.Xor.{bit_xor_half, bit_xor_parity, bit_xor_assoc, bit_xor_lt, bit_xor_comm}
use wallchanger.Crc.Words.{bit_and_mask, mask_bit_and, bit_xor_mod, bit_xor_fields}
use wallchanger.Crc.{
  reverse_polynomial, shift_bit, shift_bits, byte_checksum, generate, generate_crc_table, table_at,
  crc_byte, crc,
}

-- What a bit adds when it is shifted out.
abbrev feedback : ℕ → ℕ
feedback b = if b % 2 == 0 then 0 else reverse_polynomial

shift_bit_lem : (c : ℕ) → shift_bit c ≡ bit_xor (c / 2) (feedback c)
unfolding shift_bit
shift_bit_lem c = rw (bit_and_mask 1 c)

-- Digits above the lowest come through a shift unchanged.
shift_bit_even : (a b : ℕ) → shift_bit (bit_xor (a * 2) b) ≡ bit_xor a (shift_bit b)
shift_bit_even a b =
    rw
      (
        shift_bit_lem (bit_xor (a * 2) b),
        shift_bit_lem b,
        bit_xor_half (a * 2) b,
        bit_xor_parity (a * 2) b,
      )
      (rw (halved, lowest) (bit_xor_assoc a (b / 2) (feedback b)))
  where
    halved : a * 2 / 2 ≡ a
    halved = omega arith

    lowest : (a * 2 + b) % 2 ≡ b % 2
    lowest = omega arith

shift_bits_high : (k a b : ℕ) → shift_bits k (bit_xor (a * 2 ^ k) b) ≡ bit_xor a (shift_bits k b)
unfolding shift_bits
shift_bits_high zero a b = rw (mul-one a)
shift_bits_high (suc k) a b =
    rw (doubled, shift_bit_even (a * 2 ^ k) b) (shift_bits_high k a (shift_bit b))
  where
    doubled : a * 2 ^ suc k ≡ a * 2 ^ k * 2
    doubled = omega (arith, ap (λ (t : ℕ). a * t) (pow-suc 2 k))

generate_lem :
    (left n i : ℕ) → i < left → get_elem? (generate left n) i ≡ some (byte_checksum (n + i))
unfolding generate
generate_lem zero n i h = elim h [ ]
generate_lem (suc left) n zero h = rw add-zero
generate_lem (suc left) n (suc i) h = rw (← next) (generate_lem left (n + 1) i (omega arith))
  where
    next : n + 1 + i ≡ n + suc i
    next = omega arith

-- The index that `crc` computes never leaves the table.
pub table_at_lem :
    (x : ℕ) → table_at generate_crc_table (bit_and x 0xFF) ≡ byte_checksum (x % 2 ^ 8)
unfolding generate_crc_table
table_at_lem x = rw (bit_and_mask 8 x) (
    ap stored (generate_lem 256 0 (x % 2 ^ 8) (omega arith))
    ∙ ap byte_checksum (zero-add (x % 2 ^ 8)))
  where
    stored : Option ℕ → ℕ
    stored o = elim o [ none ↦ 0 | some checksum ↦ checksum ]

-- A byte changes the low digits of the checksum only.
module _ (c v : ℕ) (h : v < 2 ^ 8) where
  low : ℕ
  low = bit_xor (c % 2 ^ 8) v

  low-lt : low < 2 ^ 8
  unfolding low
  low-lt = bit_xor_lt 8 (c % 2 ^ 8) v (omega arith) h

  split_low : bit_xor c v ≡ bit_xor (c / 2 ^ 8 * 2 ^ 8) low
  unfolding low
  split_low =
      ap (λ (t : ℕ). bit_xor t v)
        (sym (bit_xor_fields 8 (c / 2 ^ 8) (c % 2 ^ 8) (omega arith) ∙ omega arith))
      ∙ bit_xor_assoc (c / 2 ^ 8 * 2 ^ 8) (c % 2 ^ 8) v

  low_lem : bit_xor c v % 2 ^ 8 ≡ low
  low_lem = omega (arith, split_low, bit_xor_fields 8 (c / 2 ^ 8) low low-lt, low-lt)

  shift_bits_low :
      shift_bits 8 (bit_xor c v) ≡ bit_xor (c / 2 ^ 8) (shift_bits 8 (bit_xor c v % 2 ^ 8))
  shift_bits_low = rw low_lem (ap (shift_bits 8) split_low ∙ shift_bits_high 8 (c / 2 ^ 8) low)

-- One byte of the checksum, bit by bit.
unfoldable pub crc_byte_bits : ℕ → ℕ → ℕ
crc_byte_bits checksum value = shift_bits 8 (bit_xor checksum (value % 2 ^ 8))

crc_byte_lem :
    (checksum value : ℕ) → crc_byte generate_crc_table checksum value ≡ crc_byte_bits checksum value
unfolding crc_byte crc_byte_bits
crc_byte_lem c v = rw (table_at_lem (bit_xor c (v % 2 ^ 8))) (
    bit_xor_comm (byte_checksum (bit_xor c (v % 2 ^ 8) % 2 ^ 8)) (c / 2 ^ 8)
    ∙ sym (unfold byte_checksum in shift_bits_low c (v % 2 ^ 8) (omega arith)))

-- The checksum bit by bit, with 32-bit words throughout.
unfoldable pub crc_bits : List ℕ → ℕ
unfolding crc_byte_bits
crc_bits bytes = bit_xor (foldl crc_byte_bits 0xFFFFFFFF bytes) 0xFFFFFFFF

foldl_bytes :
    (bytes : List ℕ) (c : ℕ)
    → foldl (crc_byte generate_crc_table) c bytes ≡ foldl crc_byte_bits c bytes
foldl_bytes [] c = refl
foldl_bytes (b ∷ bytes) c = rw (crc_byte_lem c b) (foldl_bytes bytes (crc_byte_bits c b))

shift_bit-lt : (c : ℕ) → c < 2 ^ 32 → shift_bit c < 2 ^ 32
shift_bit-lt c h =
    rw (shift_bit_lem c) (bit_xor_lt 32 (c / 2) (feedback c) (omega arith) (ground arith))

shift_bits-lt : (k c : ℕ) → c < 2 ^ 32 → shift_bits k c < 2 ^ 32
unfolding shift_bits
shift_bits-lt zero c h = h
shift_bits-lt (suc k) c h = shift_bits-lt k (shift_bit c) (shift_bit-lt c h)

foldl_bits-lt : (bytes : List ℕ) (c : ℕ) → c < 2 ^ 32 → foldl crc_byte_bits c bytes < 2 ^ 32
unfolding crc_byte_bits
foldl_bits-lt [] c h = h
foldl_bits-lt (b ∷ bytes) c h =
    foldl_bits-lt bytes (crc_byte_bits c b)
      (shift_bits-lt 8 (bit_xor c (b % 2 ^ 8)) (bit_xor_lt 32 c (b % 2 ^ 8) h (omega arith)))

-- For every sequence of bytes the table-driven checksum is the checksum computed bit by bit with
-- 32-bit words.
pub crc-eq-crc_bits : (bytes : List ℕ) → crc bytes ≡ crc_bits bytes
unfolding crc crc_bits
crc-eq-crc_bits bytes =
    mask_bit_and 32 _
    ∙ bit_xor_mod 32 _ (2 ^ 64 - 1)
    ∙ ap (λ (t : ℕ). bit_xor t 0xFFFFFFFF)
        (ap (λ (t : ℕ). t % 2 ^ 32) (foldl_bytes bytes 0xFFFFFFFF)
          ∙ mod-eq_of_lt (foldl_bits-lt bytes 0xFFFFFFFF (omega arith)))

-- The checksum fits in 32 bits.
pub crc-lt : (bytes : List ℕ) → crc bytes < 2 ^ 32
unfolding crc
crc-lt bytes = rw (mask_bit_and 32) (omega arith)
