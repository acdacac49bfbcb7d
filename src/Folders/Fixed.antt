-- ===== src/Folders/Fixed.antt =====
-- What src/change_lib/platform/linux/linux_known_folders.cpp answers: the directories that do not
-- come from the file, in every table that is filled, and those that do.
use wallchanger.Base.{
  false, ◌≡◌, refl, ap, sym, ◌∙◌, subst, List, [], ◌∷◌, ◌++◌, Option, none, some, is_some, Outcome,
  done, fault, Fault, ◌>>=◌, Bool-cases, Option-cases, inl, inr, ◌⊎◌, get_elem?, ◌==◌, ==_iff,
  nat_ordered, if◌then◌else◌, ==_refl, find_first,
}
use mathlib.Core.Option.{some-injective}
use wallchanger.PathTable.{bytes_of}
use wallchanger.Folders.Text.{Bytes, has, split}
use wallchanger.Folders.Table.{
  Folders, home, documents, pictures, music, videos, desktop, downloads, public, fonts, app_menu,
  cache, roaming_configuration, local_configuration, global_configuration, data_files, runtime,
  executable_dir, as_u8, Lookup, find, emplace, index, Environment, get_home, fixed_entries, init,
  init_at, read_line, read_lines, value_of, user_dir, get_path, enter, read_pair, read_file, answer,
  data_directory, config_directory, cache_directory,
}
use wallchanger.Folders.Lines.{index-found}

-- The enumerators in the order of the source.
abbrev enumerators : List Folders
enumerators =
    home ∷ documents ∷ pictures ∷ music ∷ videos ∷ desktop ∷ downloads ∷ public ∷ fonts ∷ app_menu
    ∷ cache ∷ roaming_configuration ∷ local_configuration ∷ global_configuration ∷ data_files
    ∷ runtime ∷ executable_dir ∷ []

enumerator : (f : Folders) → get_elem? enumerators (as_u8 f) ≡ some f
unfolding as_u8
enumerator home = refl
enumerator _ = refl

-- The directories that are the same whatever the file says.
abbrev pub fixed_path : Bytes → Bytes → Folders → Option Bytes
fixed_path dir cwd home = some dir
fixed_path dir cwd cache = some (dir ++ bytes_of "/.cache")
fixed_path dir cwd local_configuration = some (dir ++ bytes_of "/.config")
fixed_path dir cwd roaming_configuration = some (dir ++ bytes_of "/.config")
fixed_path dir cwd app_menu = some (dir ++ bytes_of "/.local/share/applications")
fixed_path dir cwd fonts = some (dir ++ bytes_of "/.local/share/fonts")
fixed_path dir cwd data_files = some (dir ++ bytes_of "/.local/share")
fixed_path dir cwd global_configuration = some (bytes_of "/etc")
fixed_path dir cwd runtime = some (bytes_of "/tmp")
fixed_path dir cwd executable_dir = some cwd
fixed_path dir cwd _ = none

pub find-fixed_entries :
    (dir cwd : Bytes) (f : Folders) → find f (fixed_entries dir cwd []) ≡ fixed_path dir cwd f
unfolding fixed_entries find emplace find_first as_u8
find-fixed_entries dir cwd home = refl
find-fixed_entries dir cwd _ = refl

abbrev pub entered : Option Bytes → Bytes → Bytes
entered none s = s
entered (some p) s = p

as_u8-injective : (f g : Folders) → as_u8 f ≡ as_u8 g → f ≡ g
as_u8-injective f g h =
    some-injective f g (sym (enumerator f) ∙ ap (get_elem? enumerators) h ∙ enumerator g)

-- What is found after `emplace`: the entry that was there, or else the new one.
pub find-emplace :
    (g f : Folders) (s : Bytes) (l : Lookup)
    → find g (emplace f s l)
      ≡ (if as_u8 f == as_u8 g then some (entered (find g l) s) else find g l)
unfolding emplace find find_first
find-emplace g f s l = elim (Bool-cases (as_u8 f == as_u8 g)) [
  | inl same ↦
      let at_g : f ≡ g = as_u8-injective f g ((==_iff (as_u8 f) (as_u8 g)).0 same) in
      rw same (subst (λ x. find g (emplace x s l) ≡ some (entered (find g l) s)) (sym at_g) (own s))
  | inr apart ↦ rw apart (other apart)
]
  where
    own : (t : Bytes) → find g (emplace g t l) ≡ some (entered (find g l) t)
    own t = elim (Option-cases (find g l)) [
      | inl missing ↦ rw (missing, emplace, ==_refl (as_u8 g)) refl
      | inr (p, there) ↦ rw (there, emplace) there
    ]

    other : (as_u8 f == as_u8 g) ≡ false → find g (emplace f s l) ≡ find g l
    other apart = elim (Option-cases (find f l)) [
      | inl missing ↦ rw (missing, emplace, apart) refl
      | inr (p, there) ↦ rw (there, emplace) refl
    ]

-- The entries of a table stay.
abbrev pub Keeps : Lookup → Lookup → Type 0
Keeps l l' = (g : Folders) (p : Bytes) → find g l ≡ some p → find g l' ≡ some p

pub emplace-Keeps : (f : Folders) (s : Bytes) (l : Lookup) → Keeps l (emplace f s l)
emplace-Keeps f s l g p h = elim (Bool-cases (as_u8 f == as_u8 g)) [
  | inl same ↦ find-emplace g f s l ∙ (rw (same, h) refl)
  | inr apart ↦ find-emplace g f s l ∙ (rw apart h)
]

pub index-Keeps : (f : Folders) (l : Lookup) → Keeps l (index f l).0
unfolding index
index-Keeps f l = elim (Option-cases (find f l)) [
  | inl missing ↦ rw (missing, index) (emplace-Keeps f [] l)
  | inr (p, there) ↦ rw (there, index) (λ g q h. h)
]

Keeps-trans : (l l' l'' : Lookup) → Keeps l l' → Keeps l' l'' → Keeps l l''
Keeps-trans l l' l'' h k g p e = k g p (h g p e)

enter-Keeps : (first : Bytes) (o : Outcome Bytes) (l : Lookup) → Keeps l (enter first o l).0
unfolding enter
enter-Keeps first (fault x) l = λ g p h. h
enter-Keeps first (done second) l = elim (Option-cases (user_dir first)) [
  | inl other ↦ rw (other, enter) (λ g q h. h)
  | inr (f, known) ↦ rw (known, enter) (emplace-Keeps f second l)
]

read_pair-Keeps : (pair : List Bytes) (l : Lookup) → Keeps l (read_pair pair l).0
unfolding read_pair
read_pair-Keeps [] l = λ g p h. h
read_pair-Keeps (first ∷ []) l = λ g p h. h
read_pair-Keeps (first ∷ piece ∷ more) l =
    Keeps-trans l (index home l).0 _ (index-Keeps home l)
      (enter-Keeps first (value_of (index home l).1 piece) (index home l).0)

read_line-Keeps : (line : Bytes) (l : Lookup) → Keeps l (read_line line l).0
unfolding read_line
read_line-Keeps line l = elim (Bool-cases (has b'#' line)) [
  | inl comment ↦ rw (comment, read_line) (λ g q h. h)
  | inr entry ↦ rw (entry, read_line) (read_pair-Keeps (split b'=' line) l)
]

read_lines-Keeps : (lines : List Bytes) (l : Lookup) → Keeps l (read_lines lines l).0
unfolding read_lines
read_lines-Keeps [] l = λ g p h. h
read_lines-Keeps (line ∷ more) l =
    let first = read_line-Keeps line l in
    let l' = (read_line line l).0 in
    elim (Bool-cases (is_some (read_line line l).1)) [
      | inl threw ↦ rw (threw, read_lines) first
      | inr went_on ↦ rw (went_on, read_lines) (Keeps-trans l l' _ first (read_lines-Keeps more l'))
    ]

abbrev Fixed : Bytes → Bytes → Lookup → Type 0
Fixed dir cwd l = (f : Folders) (p : Bytes) → fixed_path dir cwd f ≡ some p → find f l ≡ some p

init-Fixed :
    (e : Environment) (dir : Bytes) → get_home e ≡ done dir → Fixed dir e.current_path (init e []).0
unfolding init init_at
init-Fixed e dir h = rw (h, init) (go (e.lines _))
  where
    l : Lookup
    l = fixed_entries dir e.current_path []

    filled : Fixed dir e.current_path l
    filled f p k = find-fixed_entries dir e.current_path f ∙ k

    go : (o : Option (List Bytes)) → Fixed dir e.current_path (read_file o (index home l).0).0
    go none f p k = index-Keeps home l f p (filled f p k)
    go (some lines) f p k =
        read_lines-Keeps lines (index home l).0 f p (index-Keeps home l f p (filled f p k))

-- The calls of `get_path`, one after the other: the table that they leave.
unfoldable pub calls : Environment → List Folders → Lookup → Lookup
calls e [] l = l
calls e (f ∷ fs) l = calls e fs (get_path e f l).0

get_path-Fixed :
    (e : Environment) (dir : Bytes) (f : Folders) (l : Lookup)
    → get_home e ≡ done dir
    → (l ≡ []) ⊎ Fixed dir e.current_path l
    → Fixed dir e.current_path (get_path e f l).0
unfolding get_path
get_path-Fixed e dir f [] h k = go (init e []).1 (init e []).0 (init-Fixed e dir h)
  where
    go :
        (x : Option Fault) (l : Lookup)
        → Fixed dir e.current_path l
        → Fixed dir e.current_path (answer f x l).0
    go (some x) l k = k
    go none l k = λ g p m. index-Keeps f l g p (k g p m)
get_path-Fixed e dir f (entry ∷ more) h k = elim k [
  | inl empty ↦ cc
  | inr fixed ↦ λ g p m. index-Keeps f (entry ∷ more) g p (fixed g p m)
]

calls-Fixed :
    (e : Environment) (dir : Bytes) (fs : List Folders) (l : Lookup)
    → get_home e ≡ done dir
    → Fixed dir e.current_path l
    → Fixed dir e.current_path (calls e fs l)
unfolding calls
calls-Fixed e dir [] l h k = k
calls-Fixed e dir (f ∷ fs) l h k =
    calls-Fixed e dir fs (get_path e f l).0 h (get_path-Fixed e dir f l h (inr k))

-- After any calls, of which the first fills the table and may throw at a line of the file, a
-- directory that does not come from the file is the one below the user's own, or the system's:
-- neither the file nor a variable other than `HOME` changes it.
pub get_path-fixed :
    (e : Environment) (dir p : Bytes) (first f : Folders) (fs : List Folders)
    → get_home e ≡ done dir
    → fixed_path dir e.current_path f ≡ some p
    → (get_path e f (calls e (first ∷ fs) [])).1 ≡ done p
unfolding calls get_path find find_first
get_path-fixed e dir p first f fs h k =
    go (calls e (first ∷ fs) [])
      (calls-Fixed e dir fs _ h (get_path-Fixed e dir first [] h (inl refl)) f p k)
  where
    go : (l : Lookup) → find f l ≡ some p → (get_path e f l).1 ≡ done p
    go [] m = cc
    go (entry ∷ more) m = rw (index-found f p (entry ∷ more) m) refl

-- After one call or more, the directories of the program's own files stand in the user's own
-- directory: for data in `.local/share`, for the configuration in `.config`, for the cache in
-- `.cache`.
pub directories :
    (e : Environment) (dir : Bytes) (first : Folders) (fs : List Folders)
    → get_home e ≡ done dir
    → ((data_directory e (calls e (first ∷ fs) [])).1
        ≡ done ((dir ++ bytes_of "/.local/share") ++ bytes_of "/wallchanger"))
      × ((config_directory e (calls e (first ∷ fs) [])).1
          ≡ done ((dir ++ bytes_of "/.config") ++ bytes_of "/wallchanger"))
      × ((cache_directory e (calls e (first ∷ fs) [])).1
          ≡ done ((dir ++ bytes_of "/.cache") ++ bytes_of "/wallchanger"))
unfolding data_directory config_directory cache_directory
directories e dir first fs h =
    let l = calls e (first ∷ fs) [] in
    let below : Outcome Bytes → Outcome Bytes =
      λ o. o >>= λ ret. done (ret ++ bytes_of "/wallchanger") in
    (
      ap below (get_path-fixed e dir (dir ++ bytes_of "/.local/share") first data_files fs h refl),
      ap below
          (get_path-fixed e dir (dir ++ bytes_of "/.config") first local_configuration fs h refl),
      ap below (get_path-fixed e dir (dir ++ bytes_of "/.cache") first cache fs h refl),
    )
