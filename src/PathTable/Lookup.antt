-- ===== src/PathTable/Lookup.antt =====
-- `get` after `insert` of src/change_lib/path_table.cpp.
use native.Mathlib.Nat.{mod-eq_of_lt}
use wallchanger.Base.{
  ℕ, true, false, ◌≡◌, refl, List, [], ◌∷◌, ◌++◌, String, none, some, ◌==◌, nat_ordered, ==_iff,
  find_first, contains-append_one, find-append_one, if◌then◌else◌, Option-cases, Bool-cases, inl,
  inr, find_of_contains, ==_refl, arith,
}
use wallchanger.Crc.{crc}
use wallchanger.Crc.Table.{crc-lt}
use wallchanger.PathTable.{PathTable, bytes_of, has_id, exists, path_hash, insert, get}

-- The cast to `u32` does nothing to a checksum.
pub path_hash_lem : (path : String) → path_hash path ≡ crc (bytes_of path)
unfolding path_hash
path_hash_lem path = mod-eq_of_lt (crc-lt (bytes_of path))

-- Every answer of `get` after `insert`, for every identifier: the new path under its own checksum
-- if that was free, and what was there before for all others, a colliding one included.
pub get-insert :
    (path : String) (id : ℕ) (t : PathTable)
    → get id (insert path t)
      ≡ (if path_hash path == id then (if exists id t then get id t else some path) else get id t)
unfolding get insert
get-insert path id t = ground (
  arith,
  ==_iff (path_hash path) id,
  contains-append_one (has_id id) t.m_store (path_hash path, path),
  find-append_one (has_id id) t.m_store (path_hash path, path),
)

-- Each entry stands under the checksum of its path.
abbrev pub WellKeyed : List (ℕ × String) → Type 0
WellKeyed [] = Unit {0}
WellKeyed (e ∷ l) = (e.0 ≡ path_hash e.1) × WellKeyed l

WellKeyed-append :
    (l : List (ℕ × String)) (p : String) → WellKeyed l → WellKeyed (l ++ (path_hash p, p) ∷ [])
WellKeyed-append [] p w = (refl, tt)
WellKeyed-append (e ∷ l) p w = (w.0, WellKeyed-append l p w.1)

-- `insert` keeps each entry under the checksum of its path.
pub insert-WellKeyed :
    (path : String) (t : PathTable) → WellKeyed t.m_store → WellKeyed (insert path t).m_store
unfolding insert
insert-WellKeyed path t w = ground (arith, WellKeyed-append t.m_store path w)

find-WellKeyed :
    (id : ℕ) (l : List (ℕ × String)) (e : ℕ × String)
    → WellKeyed l
    → find_first (has_id id) l ≡ some e
    → path_hash e.1 ≡ id
unfolding find_first
find-WellKeyed id [] e w h = cc
find-WellKeyed id (x ∷ l) e w h = ground (arith, find-WellKeyed id l e w.1, ==_iff x.0 id)

-- In a table whose entries stand under the checksums of their paths, `get` answers with a path of
-- the checksum that is asked for.
pub get-path_hash :
    (id : ℕ) (t : PathTable) (p : String)
    → WellKeyed t.m_store
    → get id t ≡ some p
    → path_hash p ≡ id
unfolding get
get-path_hash id t p w h = elim (Option-cases (find_first (has_id id) t.m_store)) [
  | inl e ↦ ground arith
  | inr (x, e) ↦ ground (arith, find-WellKeyed id t.m_store x w e)
]

get-none : (id : ℕ) (t : PathTable) → get id t ≡ none → exists id t ≡ false
unfolding get exists
get-none id t h = elim (Bool-cases (exists id t)) [
  | inr absent ↦ absent
  | inl there ↦ let (e, found, hit) = find_of_contains (has_id id) t.m_store there in ground arith
]

get-some : (id : ℕ) (t : PathTable) (p : String) → get id t ≡ some p → exists id t ≡ true
unfolding get
get-some id t p h = ground arith

-- After `insert`, the checksum of the path is always found, and the path found has this checksum:
-- it is the path itself unless another one with the same checksum came first.
pub get-insert_self :
    (path : String) (t : PathTable)
    → WellKeyed t.m_store
    → (p : String) × (get (path_hash path) (insert path t) ≡ some p)
      × (path_hash p ≡ path_hash path)
      × (get (path_hash path) t ≡ none → p ≡ path)
get-insert_self path t w = elim (Option-cases (get (path_hash path) t)) [
  | inl e ↦ (
    path,
    rw (
      get-insert path (path_hash path) t,
      get-none (path_hash path) t e,
      ==_refl (path_hash path),
    ),
    refl,
    λ _. refl,
  )
  | inr (p, e) ↦ (
    p,
    rw
        (
          get-insert path (path_hash path) t,
          get-some (path_hash path) t p e,
          ==_refl (path_hash path),
        )
        e,
    get-path_hash (path_hash path) t p w e,
    λ h. cc,
  )
]

pub exists-insert :
    (path : String) (id : ℕ) (t : PathTable) → exists id t ≡ true → exists id (insert path t) ≡ true
unfolding exists insert
exists-insert path id t h =
    ground (arith, contains-append_one (has_id id) t.m_store (path_hash path, path))

pub exists-insert_self :
    (path : String) (t : PathTable) → exists (path_hash path) (insert path t) ≡ true
unfolding exists insert
exists-insert_self path t = ground (
  arith,
  contains-append_one (has_id (path_hash path)) t.m_store (path_hash path, path),
  ==_refl (path_hash path),
)

-- What exists is found.
pub get_of_exists :
    (id : ℕ) (t : PathTable) → exists id t ≡ true → (p : String) × (get id t ≡ some p)
unfolding get exists
get_of_exists id t h =
    let (e, found, hit) = find_of_contains (has_id id) t.m_store h in (e.1, rw (h, found))
