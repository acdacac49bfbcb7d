-- ===== src/PathTable.antt =====
-- src/change_lib/path_table.hpp and path_table.cpp: the directories of the wallpapers, under the
-- checksum of their text. The entries are read and written as they are.
pub mod Lookup
pub mod Tests
use Prim.Native.Char.{code}
use wallchanger.Base.{
  ℕ, ◌+◌, ◌/◌, ◌%◌, ◌^◌, Bool, true, false, List, [], ◌∷◌, ◌++◌, String, Option, none, some, ◌==◌,
  nat_ordered, find_first, contains_first, if◌then◌else◌, ltb,
}
use wallchanger.Crc.{crc}

-- The bytes of a character, and of a `std::string` that holds a text.
abbrev pub utf8 : ℕ → List ℕ
utf8 c =
    if ltb c 0x80
    then c ∷ []
    else if ltb c 0x800
    then (0xC0 + c / 2 ^ 6) ∷ (0x80 + c % 2 ^ 6) ∷ []
    else if ltb c 0x10000
    then (0xE0 + c / 2 ^ 12) ∷ (0x80 + c / 2 ^ 6 % 2 ^ 6) ∷ (0x80 + c % 2 ^ 6) ∷ []
    else (0xF0 + c / 2 ^ 18)
      ∷ (0x80 + c / 2 ^ 12 % 2 ^ 6)
      ∷ (0x80 + c / 2 ^ 6 % 2 ^ 6)
      ∷ (0x80 + c % 2 ^ 6)
      ∷ []

abbrev pub bytes_of : String → List ℕ
bytes_of String.[] = []
bytes_of (String.◌∷◌ c s) = utf8 (code c) ++ bytes_of s

pub record PathTable : Type 0 where
  pub m_store : List (ℕ × String)
  pub m_modified : Bool

abbrev pub empty_table : PathTable
empty_table = record { m_store = []; m_modified = false }

-- The projection that `std::ranges::find` compares with an identifier.
abbrev pub has_id : ℕ → ℕ × String → Bool
has_id id entry = entry.0 == id

unfoldable pub exists : ℕ → PathTable → Bool
exists id t = contains_first (has_id id) t.m_store

-- `static_cast<u32>(crc(...))`.
unfoldable pub path_hash : String → ℕ
path_hash path = crc (bytes_of path) % 2 ^ 32

unfoldable pub insert : String → PathTable → PathTable
unfolding exists
insert path t =
    if exists (path_hash path) t
    then t
    else record { m_store = t.m_store ++ (path_hash path, path) ∷ []; m_modified = true }

unfoldable pub get : ℕ → PathTable → Option String
unfolding exists
get id t =
    if exists id t
    then elim (find_first (has_id id) t.m_store) [ none ↦ none | some entry ↦ some entry.1 ]
    else none

-- The constructor: the entries of the file, if there is one.
abbrev pub opened : Option (List (ℕ × String)) → PathTable
opened none = empty_table
opened (some entries) = record { m_store = entries; m_modified = false }

-- What `store` writes: nothing, or every entry.
unfoldable pub store : PathTable → Option (List (ℕ × String))
store t = if t.m_modified then some t.m_store else none
