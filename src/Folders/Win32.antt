-- ===== src/Folders/Win32.antt =====
-- src/change_lib/platform/win32/win32_known_folders.cpp. What the shell answers is a record; a path
-- that it allocates is counted, as is each `CoTaskMemFree`.
use wallchanger.Base.{
  ℕ, Bool, true, false, ◌≡◌, refl, ◌++◌, Option, none, some, if◌then◌else◌, arith,
}
use wallchanger.PathTable.{bytes_of}
use wallchanger.Folders.Text.{Bytes}
use wallchanger.Folders.Table.{
  Folders, home, documents, pictures, music, videos, desktop, downloads, public, fonts, app_menu,
  cache, roaming_configuration, local_configuration, global_configuration, data_files, runtime,
  executable_dir,
}

pub data KnownFolderId : Type 0 where
  folderid_profile folderid_documents folderid_pictures folderid_music : KnownFolderId
  folderid_videos folderid_desktop folderid_downloads folderid_public : KnownFolderId
  folderid_fonts folderid_start_menu folderid_roaming_app_data : KnownFolderId
  folderid_local_app_data folderid_program_data : KnownFolderId
  -- `{}`.
  folderid_none : KnownFolderId

unfoldable pub convert : Folders → KnownFolderId
convert home = folderid_profile
convert documents = folderid_documents
convert pictures = folderid_pictures
convert music = folderid_music
convert videos = folderid_videos
convert desktop = folderid_desktop
convert downloads = folderid_downloads
convert public = folderid_public
convert fonts = folderid_fonts
convert app_menu = folderid_start_menu
convert roaming_configuration = folderid_roaming_app_data
convert local_configuration = folderid_local_app_data
convert global_configuration = folderid_program_data
convert data_files = folderid_local_app_data
convert cache = folderid_local_app_data
convert runtime = folderid_local_app_data
convert executable_dir = folderid_none

pub data Win32Path : Type 0 where
  path : Bytes → Win32Path
  unexpected : ℕ → Win32Path

pub record Shell : Type 0 where
  -- The directory of the module, or the error.
  pub module_parent : Win32Path
  -- `SHGetKnownFolderPath`, which allocates in any case.
  pub known_folder : KnownFolderId → Win32Path
  -- The error of `StringCchLength`, if it has one.
  pub length_error : Bytes → Option ℕ

-- The directories below `Temp`.
abbrev pub is_temporary : Folders → Bool
is_temporary cache = true
is_temporary data_files = true
is_temporary runtime = true
is_temporary _ = false

-- The answer, with the paths allocated and freed.
unfoldable pub get_win32_path : Shell → Folders → Win32Path × ℕ × ℕ
unfolding convert
get_win32_path shell executable_dir = (shell.module_parent, 0, 0)
get_win32_path shell fld = elim (shell.known_folder (convert fld)) [
  | unexpected e ↦ (unexpected e, 1, 1)
  | path p ↦ elim (shell.length_error p) [
    | some e ↦ (unexpected e, 1, 1)
    | none ↦ (path (if is_temporary fld then p ++ bytes_of "\\Temp\\" else p), 1, 1)
  ]
]

-- Every path that is allocated is freed, with a path as the answer and with an error.
get_win32_path-freed :
    (shell : Shell) (fld : Folders) → (get_win32_path shell fld).1 ≡ (get_win32_path shell fld).2
unfolding get_win32_path
get_win32_path-freed shell executable_dir = refl
get_win32_path-freed shell _ = ground arith
