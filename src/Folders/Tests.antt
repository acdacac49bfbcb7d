-- ===== src/Folders/Tests.antt =====
-- The theorems on src/change_lib/platform/linux/linux_known_folders.cpp at a user with a file.
use wallchanger.Base.{◌≡◌, refl, List, [], ◌∷◌, ◌++◌, map, some, none, done}
use wallchanger.PathTable.{bytes_of}
use wallchanger.Folders.Text.{Bytes}
use wallchanger.Folders.Table.{
  music, desktop, Environment, get_home, data_directory, config_directory, cache_directory,
}
use wallchanger.Folders.Fixed.{calls, directories}
use wallchanger.Folders.File.{Line, comment, user, print}
use wallchanger.Folders.Refused.{Refused}

abbrev ada : Bytes
ada = bytes_of "/home/ada"

abbrev written : List Line
written =
    comment (bytes_of " written by xdg-user-dirs-update")
    ∷ user music (bytes_of "/Music")
    ∷ user desktop (bytes_of "/Desktop")
    ∷ user music (bytes_of "/Other")
    ∷ []

abbrev with_file : List Bytes → Environment
with_file lines = record {
  uid = 1000;
  home_variable = some ada;
  pw_dir = none;
  current_path = bytes_of "/";
  lines = λ path. some lines;
}

at_ada : (lines : List Bytes) → get_home (with_file lines) ≡ done ada
unfolding get_home
at_ada lines = refl

directories_example :
    ((data_directory (with_file []) (calls (with_file []) (music ∷ []) [])).1
      ≡ done (bytes_of "/home/ada/.local/share/wallchanger"))
    × ((config_directory (with_file []) (calls (with_file []) (music ∷ []) [])).1
        ≡ done (bytes_of "/home/ada/.config/wallchanger"))
    × ((cache_directory (with_file []) (calls (with_file []) (music ∷ []) [])).1
        ≡ done (bytes_of "/home/ada/.cache/wallchanger"))
directories_example = directories (with_file []) ada music [] (at_ada [])

-- An absolute path, which the XDG tools allow.
abbrev absolute : Bytes
absolute = bytes_of "XDG_VIDEOS_DIR=\"/mnt/videos\""

abbrev stops_early : Environment
stops_early = with_file (map print written ++ absolute ∷ [])
