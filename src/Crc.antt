-- ===== src/Crc.antt =====
-- src/change_lib/crc32.hpp. `std::uint_fast32_t` is taken with 64 bits; the shifts are `/`.
pub mod Xor
pub mod Words
pub mod Table
pub mod Tests
use Prim.Native.Nat.{bit_and, bit_xor}
use mathlib.Core.List.{foldl}
use wallchanger.Base.{
  ℕ, zero, suc, ◌+◌, ◌-◌, ◌/◌, ◌%◌, ◌^◌, Bool, List, [], ◌∷◌, ◌==◌, nat_ordered, if◌then◌else◌,
  get_elem?, Option, none, some,
}

abbrev pub reverse_polynomial : ℕ
reverse_polynomial = 0xEDB88320

-- The body of the loop of `byte_checksum`.
unfoldable pub shift_bit : ℕ → ℕ
shift_bit checksum =
    bit_xor (checksum / 2) (if bit_and checksum 1 == 0 then 0 else reverse_polynomial)

unfoldable pub shift_bits : ℕ → ℕ → ℕ
unfolding shift_bit
shift_bits zero checksum = checksum
shift_bits (suc i) checksum = shift_bits i (shift_bit checksum)

unfoldable pub byte_checksum : ℕ → ℕ
unfolding shift_bits
byte_checksum n = shift_bits 8 n

-- `std::ranges::generate`: the counter `n` goes up by one for each entry.
unfoldable pub generate : ℕ → ℕ → List ℕ
generate zero n = []
generate (suc left) n = byte_checksum n ∷ generate left (n + 1)

unfoldable pub generate_crc_table : List ℕ
generate_crc_table = generate 256 0

-- `table.at(i)`; an index past the end would throw.
abbrev pub table_at : List ℕ → ℕ → ℕ
table_at table i = elim (get_elem? table i) [ none ↦ 0 | some checksum ↦ checksum ]

-- The function that `std::accumulate` folds; the value is converted to a byte.
unfoldable pub crc_byte : List ℕ → ℕ → ℕ → ℕ
crc_byte table checksum value =
    bit_xor (table_at table (bit_and (bit_xor checksum (value % 2 ^ 8)) 0xFF)) (checksum / 2 ^ 8)

-- `~`
abbrev pub complement : ℕ → ℕ
complement x = bit_xor x (2 ^ 64 - 1)

unfoldable pub crc : List ℕ → ℕ
crc bytes =
    let table = generate_crc_table in
    bit_and 0xFFFFFFFF
      (complement (foldl (crc_byte table) (bit_and (complement 0) 0xFFFFFFFF) bytes))
