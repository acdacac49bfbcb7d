-- ===== src/Crc/Tests.antt =====
-- The checksum of src/change_lib/crc32.hpp at concrete inputs.
use wallchanger.Base.{◌≡◌, refl, ℕ, List, [], ◌∷◌}
use wallchanger.Crc.{crc, generate_crc_table, generate, byte_checksum, crc_byte}
use wallchanger.Crc.Table.{crc_bits, crc-eq-crc_bits}

-- The digits from 1 to 9, for which the CRC-32 catalogues give a check value.
abbrev check_input : List ℕ
check_input = 0x31 ∷ 0x32 ∷ 0x33 ∷ 0x34 ∷ 0x35 ∷ 0x36 ∷ 0x37 ∷ 0x38 ∷ 0x39 ∷ []

check_value : crc check_input ≡ 0xCBF43926
unfolding crc generate_crc_table generate byte_checksum crc_byte
check_value = refl

crc-eq-crc_bits_example : crc check_input ≡ crc_bits check_input
crc-eq-crc_bits_example = crc-eq-crc_bits check_input
