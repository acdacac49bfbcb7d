-- ===== src/Folders/Lines.antt =====
-- The lines of `user-dirs.dirs`, as the XDG tools write them, read by
-- src/change_lib/platform/linux/linux_known_folders.cpp.
use wallchanger.Base.{ℕ, false, subst, ◌≡◌, refl, sym, ◌∙◌, [], ◌∷◌, ◌++◌, Option, none, some, done}
use mathlib.Core.List.{append_assoc, append-nil}
use wallchanger.PathTable.{bytes_of}
use wallchanger.Folders.Text.{
  Bytes, has, eq_bytes, split, strip_prefix, replace_first, erase_byte, has-append, split-append,
  erase-append,
}
use wallchanger.Folders.Table.{
  Folders, home, documents, pictures, music, videos, desktop, downloads, public, Lookup, find,
  emplace, index, user_dir, value_of, enter, read_pair, read_line,
}

-- The names that the XDG tools give the directories of a user.
abbrev pub xdg_name : Folders → Option Bytes
xdg_name desktop = some (bytes_of "XDG_DESKTOP_DIR")
xdg_name downloads = some (bytes_of "XDG_DOWNLOAD_DIR")
xdg_name public = some (bytes_of "XDG_PUBLICSHARE_DIR")
xdg_name documents = some (bytes_of "XDG_DOCUMENTS_DIR")
xdg_name music = some (bytes_of "XDG_MUSIC_DIR")
xdg_name pictures = some (bytes_of "XDG_PICTURES_DIR")
xdg_name videos = some (bytes_of "XDG_VIDEOS_DIR")
xdg_name _ = none

abbrev quoted : Bytes → Bytes
quoted sub = b'"' ∷ (bytes_of "$HOME" ++ (sub ++ b'"' ∷ []))

-- `XDG_MUSIC_DIR="$HOME/Music"`.
abbrev pub line_of : Bytes → Bytes → Bytes
line_of name sub = name ++ (b'=' ∷ quoted sub)

-- A directory below `$HOME` without the bytes that the reader takes for its own.
abbrev pub IsPlain : Bytes → Type 0
IsPlain sub = (has b'#' sub ≡ false) × (has b'=' sub ≡ false) × (has b'"' sub ≡ false)

user_dir-xdg_name :
    (f : Folders) (name : Bytes)
    → xdg_name f ≡ some name
    → (user_dir name ≡ some f) × (has b'#' name ≡ false) × (has b'=' name ≡ false)
unfolding user_dir eq_bytes has
user_dir-xdg_name f name h = subst (Known f) h (known f)
  where
    Known : Folders → Option Bytes → Type 0
    Known g none = Unit
    Known g (some n) = (user_dir n ≡ some g) × (has b'#' n ≡ false) × (has b'=' n ≡ false)

    known : (g : Folders) → Known g (xdg_name g)
    known desktop = (refl, refl, refl)
    known downloads = (refl, refl, refl)
    known public = (refl, refl, refl)
    known documents = (refl, refl, refl)
    known music = (refl, refl, refl)
    known pictures = (refl, refl, refl)
    known videos = (refl, refl, refl)
    known _ = tt

value_of-line :
    (dir sub : Bytes)
    → has b'"' dir ≡ false
    → has b'"' sub ≡ false
    → value_of dir (quoted sub) ≡ done (dir ++ sub)
unfolding value_of replace_first strip_prefix erase_byte
value_of-line dir sub h k =
    rw
      (
        sym (append_assoc dir sub (b'"' ∷ [])),
        erase-append b'"' (dir ++ sub) [] (rw (has-append b'"' dir sub, h) k),
        append-nil (dir ++ sub),
      )
      refl

pub index-found : (f : Folders) (s : Bytes) (l : Lookup) → find f l ≡ some s → index f l ≡ (l, s)
unfolding index
index-found f s l h = rw (h, index) refl

-- A line that the XDG tools write is read as the directory below the user's own, quotation marks
-- left out, and entered under its name, unless that has an entry.
pub read_line-line_of :
    (f : Folders) (name sub dir : Bytes) (l : Lookup)
    → xdg_name f ≡ some name
    → IsPlain sub
    → has b'"' dir ≡ false
    → find home l ≡ some dir
    → read_line (line_of name sub) l ≡ (emplace f (dir ++ sub) l, none)
unfolding read_line read_pair enter
read_line-line_of f name sub dir l h (no_hash, no_equals, no_quote) clean at_home =
    let (known, no_hash', no_equals') = user_dir-xdg_name f name h in
    let no_comment : has b'#' (line_of name sub) ≡ false =
      has-append b'#' name (b'=' ∷ quoted sub) ∙ (rw (no_hash', has_rest b'#' refl no_hash) refl) in
    let two : split b'=' (line_of name sub) ≡ name ∷ quoted sub ∷ [] =
      split-append b'=' name (quoted sub) no_equals' (has_rest b'=' refl no_equals) in
    rw
      (
        no_comment,
        two,
        index-found home dir l at_home,
        value_of-line dir sub clean no_quote,
        known,
        read_pair,
        enter,
      )
      refl
  where
    has_rest : (b : ℕ) → has b (quoted []) ≡ false → has b sub ≡ false → has b (quoted sub) ≡ false
    has_rest b e e' = rw (has-append b sub (b'"' ∷ []), e') e
