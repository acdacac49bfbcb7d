-- ===== src/Folders/Table.antt =====
-- The directories of src/change_lib/known-folders.hpp, and the table of
-- src/change_lib/platform/linux/linux_known_folders.cpp that holds them. The table outlives a call
-- that throws, so each step gives the table that it leaves and the fault, if there is one.
use wallchanger.Base.{
  ℕ, List, [], ◌∷◌, ◌++◌, Option, none, some, is_some, ◌==◌, not, nat_ordered, if◌then◌else◌,
  Outcome, done, fault, Fault, bad_access, past_end, ◌>>=◌, or_fault, find_first,
}
use mathlib.Core.Option.{map}
use wallchanger.PathTable.{bytes_of}
use wallchanger.Folders.Text.{Bytes, has, eq_bytes, split, replace_first, erase_byte}

pub data Folders : Type 0 where
  home documents pictures music videos desktop downloads public fonts app_menu cache : Folders
  roaming_configuration local_configuration global_configuration data_files runtime : Folders
  executable_dir : Folders

-- `static_cast<u8>` of an enumerator.
unfoldable pub as_u8 : Folders → ℕ
as_u8 home = 0
as_u8 documents = 1
as_u8 pictures = 2
as_u8 music = 3
as_u8 videos = 4
as_u8 desktop = 5
as_u8 downloads = 6
as_u8 public = 7
as_u8 fonts = 8
as_u8 app_menu = 9
as_u8 cache = 10
as_u8 roaming_configuration = 11
as_u8 local_configuration = 12
as_u8 global_configuration = 13
as_u8 data_files = 14
as_u8 runtime = 15
as_u8 executable_dir = 16

-- `std::unordered_map<u8, std::string>`.
abbrev pub Lookup : Type 0
Lookup = List (ℕ × Bytes)

unfoldable pub find : Folders → Lookup → Option Bytes
unfolding find_first
find f l = map (λ e. e.1) (find_first (λ e. e.0 == as_u8 f) l)

-- `emplace`: an entry that is there stays.
unfoldable pub emplace : Folders → Bytes → Lookup → Lookup
unfolding find
emplace f s l = if is_some (find f l) then l else (as_u8 f, s) ∷ l

-- `operator[]`: an entry that is missing becomes an empty text.
unfoldable pub index : Folders → Lookup → Lookup × Bytes
unfolding emplace find
index f l = elim (find f l) [ some s ↦ (l, s) | none ↦ (emplace f [] l, []) ]

-- What the process asks the system for: the user, `$HOME`, the entry of the user in the database
-- of users, the working directory, and the lines of a file that can be opened.
pub record Environment : Type 0 where
  pub uid : ℕ
  pub home_variable : Option Bytes
  pub pw_dir : Option Bytes
  pub current_path : Bytes
  pub lines : Bytes → Option (List Bytes)

-- Without an entry the null pointer is dereferenced.
unfoldable pub get_home : Environment → Outcome Bytes
get_home e = elim e.home_variable [
  | some dir ↦ if not (e.uid == 0) then done dir else or_fault past_end e.pw_dir
  | none ↦ or_fault past_end e.pw_dir
]

-- The directory that a name in `user-dirs.dirs` stands for.
unfoldable pub user_dir : Bytes → Option Folders
unfolding eq_bytes
user_dir first =
    if eq_bytes first (bytes_of "XDG_DESKTOP_DIR")
    then some desktop
    else if eq_bytes first (bytes_of "XDG_DOWNLOAD_DIR")
    then some downloads
    else if eq_bytes first (bytes_of "XDG_PUBLICSHARE_DIR")
    then some public
    else if eq_bytes first (bytes_of "XDG_DOCUMENTS_DIR")
    then some documents
    else if eq_bytes first (bytes_of "XDG_MUSIC_DIR")
    then some music
    else if eq_bytes first (bytes_of "XDG_PICTURES_DIR")
    then some pictures
    else if eq_bytes first (bytes_of "XDG_VIDEOS_DIR")
    then some videos
    else none

-- The second piece of a line, with `$HOME` replaced and two quotation marks taken out.
unfoldable pub value_of : Bytes → Bytes → Outcome Bytes
unfolding replace_first erase_byte
value_of dir piece = or_fault bad_access (replace_first (bytes_of "$HOME") dir piece) >>= λ second.
    or_fault past_end (erase_byte b'"' second) >>= λ once. or_fault past_end (erase_byte b'"' once)

-- The tests of the name, and `emplace`.
unfoldable pub enter : Bytes → Outcome Bytes → Lookup → Lookup × Option Fault
unfolding user_dir emplace
enter first (fault e) l = (l, some e)
enter first (done second) l = elim (user_dir first) [
  | none ↦ (l, none)
  | some f ↦ (emplace f second l, none)
]

-- `pair.at(0)`, `pair.at(1)` and what is done with them.
unfoldable pub read_pair : List Bytes → Lookup → Lookup × Option Fault
unfolding index value_of enter
read_pair [] l = (l, some bad_access)
read_pair (first ∷ []) l = (l, some bad_access)
read_pair (first ∷ piece ∷ more) l =
    let (l', dir) = index home l in enter first (value_of dir piece) l'

-- One round of the loop over the lines.
unfoldable pub read_line : Bytes → Lookup → Lookup × Option Fault
unfolding has split read_pair
read_line line l = if has b'#' line then (l, none) else read_pair (split b'=' line) l

-- The loop ends with the first line that throws.
unfoldable pub read_lines : List Bytes → Lookup → Lookup × Option Fault
unfolding read_line
read_lines [] l = (l, none)
read_lines (line ∷ more) l =
    let (l', e) = read_line line l in
    let rest = read_lines more l' in if is_some e then (l', e) else rest

-- The entries that do not come from the file. Each `get_home` is the same call.
unfoldable pub fixed_entries : Bytes → Bytes → Lookup → Lookup
unfolding emplace
fixed_entries dir cwd l =
    let l = emplace home dir l in
    let l = emplace cache (dir ++ bytes_of "/.cache") l in
    let l = emplace local_configuration (dir ++ bytes_of "/.config") l in
    let l = emplace roaming_configuration (dir ++ bytes_of "/.config") l in
    let l = emplace app_menu (dir ++ bytes_of "/.local/share/applications") l in
    let l = emplace fonts (dir ++ bytes_of "/.local/share/fonts") l in
    let l = emplace data_files (dir ++ bytes_of "/.local/share") l in
    let l = emplace global_configuration (bytes_of "/etc") l in
    let l = emplace runtime (bytes_of "/tmp") l in emplace executable_dir cwd l

-- What follows `getline` until the file ends; nothing where the file cannot be opened.
abbrev pub read_file : Option (List Bytes) → Lookup → Lookup × Option Fault
read_file none l = (l, none)
read_file (some lines) l = read_lines lines l

unfoldable pub init_at : Outcome Bytes → Environment → Lookup → Lookup × Option Fault
unfolding fixed_entries index read_lines
init_at (fault x) e l = (l, some x)
init_at (done dir) e l =
    let (l', root) = index home (fixed_entries dir e.current_path l) in
    read_file (e.lines (root ++ bytes_of "/.config/user-dirs.dirs")) l'

unfoldable pub init : Environment → Lookup → Lookup × Option Fault
unfolding get_home init_at
init e l = init_at (get_home e) e l

abbrev pub answer : Folders → Option Fault → Lookup → Lookup × Outcome Bytes
answer f (some x) l = (l, fault x)
answer f none l = let (l', s) = index f l in (l', done s)

-- `linux_get_path`, which `get_path` calls.
unfoldable pub get_path : Environment → Folders → Lookup → Lookup × Outcome Bytes
unfolding init index
get_path e f [] = let (l, x) = init e [] in answer f x l
get_path e f (entry ∷ more) = answer f none (entry ∷ more)

-- src/change_lib/helpers.cpp.
abbrev in_wallchanger : Lookup × Outcome Bytes → Lookup × Outcome Bytes
in_wallchanger (l, o) = (l, o >>= λ ret. done (ret ++ bytes_of "/wallchanger"))

unfoldable pub data_directory : Environment → Lookup → Lookup × Outcome Bytes
unfolding get_path
data_directory e l = in_wallchanger (get_path e data_files l)

unfoldable pub config_directory : Environment → Lookup → Lookup × Outcome Bytes
unfolding get_path
config_directory e l = in_wallchanger (get_path e local_configuration l)

unfoldable pub cache_directory : Environment → Lookup → Lookup × Outcome Bytes
unfolding get_path
cache_directory e l = in_wallchanger (get_path e cache l)
