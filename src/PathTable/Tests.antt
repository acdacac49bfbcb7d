-- ===== src/PathTable/Tests.antt =====
-- The theorems on src/change_lib/path_table.cpp at a table of one path.
use wallchanger.Base.{◌≡◌, refl, some, nat_ordered, find_first, contains_first}
use wallchanger.Crc.{crc, generate_crc_table, generate, byte_checksum, crc_byte}
use wallchanger.PathTable.{PathTable, empty_table, path_hash, insert, get, exists}
use wallchanger.PathTable.Lookup.{WellKeyed, insert-WellKeyed}

abbrev pub pictures : PathTable
pictures = insert "/pictures" empty_table

pictures-WellKeyed : WellKeyed pictures.m_store
pictures-WellKeyed = insert-WellKeyed "/pictures" empty_table tt

-- The path is found under its checksum, which here is computed.
get-pictures : get (path_hash "/pictures") pictures ≡ some "/pictures"
unfolding get insert exists path_hash find_first contains_first crc generate_crc_table generate
    byte_checksum crc_byte
get-pictures = refl
