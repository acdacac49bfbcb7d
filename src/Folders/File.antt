-- ===== src/Folders/File.antt =====
-- The file `user-dirs.dirs` as the XDG tools write it, read by
-- src/change_lib/platform/linux/linux_known_folders.cpp at the first call of `get_path`.
use wallchanger.Base.{
  Bool, true, false, ◌≡◌, ◌≢◌, refl, ap, sym, ◌∙◌, List, [], ◌∷◌, ◌++◌, map, Option, none, some,
  ◌==◌, nat_ordered, if◌then◌else◌, Option-cases, inl, inr,
}
use wallchanger.Folders.Text.{Bytes, has}
use wallchanger.Folders.Table.{
  Folders, home, as_u8, Lookup, find, emplace, index, fixed_entries, read_lines,
}
use wallchanger.Folders.Lines.{xdg_name, line_of, IsPlain, read_line-line_of}
use wallchanger.Folders.Fixed.{fixed_path, find-fixed_entries, find-emplace, entered, emplace-Keeps}

pub data Line : Type 0 where
  -- `# text`.
  comment : Bytes → Line
  -- A directory of the user, by the text after `$HOME`.
  user : Folders → Bytes → Line

abbrev text_of : Option Bytes → Bytes
text_of none = []
text_of (some s) = s

abbrev pub print : Line → Bytes
print (comment text) = b'#' ∷ text
print (user f sub) = line_of (text_of (xdg_name f)) sub

abbrev pub AreWritten : List Line → Type 0
AreWritten [] = Unit
AreWritten (comment text ∷ ds) = AreWritten ds
AreWritten (user f sub ∷ ds) = ((xdg_name f ≢ none) × IsPlain sub) × AreWritten ds

-- The first line for a directory.
abbrev pub first_line : Bytes → List Line → Folders → Option Bytes
first_line dir [] f = none
first_line dir (comment text ∷ ds) f = first_line dir ds f
first_line dir (user g sub ∷ ds) f =
    let rest = first_line dir ds f in if as_u8 g == as_u8 f then some (dir ++ sub) else rest

abbrev pub or_else : Option Bytes → Option Bytes → Option Bytes
or_else (some p) o = some p
or_else none o = o

-- What the directories are, with the file: no text where it does not name one.
abbrev pub expected : Bytes → Bytes → List Line → Folders → Bytes
expected dir cwd ds f = text_of (or_else (fixed_path dir cwd f) (first_line dir ds f))

abbrev pub entries : Bytes → List Line → Lookup → Lookup
entries dir [] l = l
entries dir (comment text ∷ ds) l = entries dir ds l
entries dir (user f sub ∷ ds) l = entries dir ds (emplace f (dir ++ sub) l)

-- Written lines are entered; then come the lines after them.
pub read_lines-print :
    (dir : Bytes) (ds : List Line) (more : List Bytes) (l : Lookup)
    → AreWritten ds
    → has b'"' dir ≡ false
    → find home l ≡ some dir
    → read_lines (map print ds ++ more) l ≡ read_lines more (entries dir ds l)
unfolding read_lines
read_lines-print dir [] more l w clean h = refl
read_lines-print dir (comment text ∷ ds) more l w clean h = read_lines-print dir ds more l w clean h
read_lines-print dir (user f sub ∷ ds) more l ((named, plain), w) clean h =
    elim (Option-cases (xdg_name f)) [
      | inl unnamed ↦ absurd (named unnamed)
      | inr (name, k) ↦
          let read = read_line-line_of f name sub dir l k plain clean h in
          rw (k, read)
            (read_lines-print dir ds more (emplace f (dir ++ sub) l) w clean
              (emplace-Keeps f (dir ++ sub) l home dir h))
    ]

or_else-none : (o : Option Bytes) → or_else o none ≡ o
or_else-none none = refl
or_else-none (some p) = refl

index-text_of : (f : Folders) (l : Lookup) → (index f l).1 ≡ text_of (find f l)
unfolding index
index-text_of f l = elim (Option-cases (find f l)) [
  | inl missing ↦ rw (missing, index) refl
  | inr (p, there) ↦ rw (there, index) refl
]

pub find-entries :
    (dir : Bytes) (ds : List Line) (l : Lookup) (f : Folders)
    → find f (entries dir ds l) ≡ or_else (find f l) (first_line dir ds f)
find-entries dir [] l f = sym (or_else-none (find f l))
find-entries dir (comment text ∷ ds) l f = find-entries dir ds l f
find-entries dir (user g sub ∷ ds) l f =
    find-entries dir ds (emplace g (dir ++ sub) l) f
    ∙ (rw (find-emplace f g (dir ++ sub) l)
        (go (as_u8 g == as_u8 f) (find f l) (first_line dir ds f)))
  where
    go :
        (b : Bool) (o r : Option Bytes)
        → or_else (if b then some (entered o (dir ++ sub)) else o) r
          ≡ or_else o (if b then some (dir ++ sub) else r)
    go true none r = refl
    go true (some p) r = refl
    go false o r = refl

pub index-entries :
    (dir cwd : Bytes) (ds : List Line) (f : Folders)
    → (index f (entries dir ds (fixed_entries dir cwd []))).1 ≡ expected dir cwd ds f
index-entries dir cwd ds f =
    let l = fixed_entries dir cwd [] in
    index-text_of f (entries dir ds l)
    ∙ ap text_of (
        find-entries dir ds l f
        ∙ ap (λ o. or_else o (first_line dir ds f)) (find-fixed_entries dir cwd f))
