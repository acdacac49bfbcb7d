-- ===== src/Folders/Refused.antt =====
-- The lines at which src/change_lib/platform/linux/linux_known_folders.cpp throws, and the table
-- that is left.
use wallchanger.Base.{false, ◌≡◌, ◌⊎◌, ◌∷◌, ◌++◌}
use wallchanger.Folders.Text.{Bytes, has}
use wallchanger.Folders.Table.{Folders}

-- No comment, and no `=`, as on a blank line, or no `$` in what follows it, as in the absolute
-- path that the XDG tools allow.
abbrev pub Refused : Bytes → Type 0
Refused line =
    (has b'#' line ≡ false)
    × ((has b'=' line ≡ false)
        ⊎ ((name : Bytes) × (value : Bytes) × (line ≡ name ++ b'=' ∷ value)
            × (has b'=' name ≡ false)
            × (has b'=' value ≡ false)
            × (has b'$' value ≡ false)))
