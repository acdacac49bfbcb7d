-- ===== src/Manager/Records.antt =====
-- What src/change_app/wall_manager.cpp reads of the file system and sends as JSON objects.
use wallchanger.Base.{ℕ, Bool, List, String, Option}

-- The object that `next_wall` builds and `m_previous` keeps, with its four members.
pub record Wall : Type 0 where
  pub wallpaper : String
  pub path : String
  pub index : ℕ
  pub collection : String

-- A `directory_entry`, as far as the source asks for it.
pub record DirEntry : Type 0 where
  pub is_directory : Bool
  pub filename : String

-- The path of a wallpaper, by the two parts that the source asks for.
pub record WallPath : Type 0 where
  pub parent_path : String
  pub filename : String

-- `std::filesystem` at the time of a call; `none` where it throws.
pub record FileSystem : Type 0 where
  pub exists : String → Option Bool
  pub directory : String → Option (List DirEntry)
  pub recursive_directory : String → Option (List DirEntry)
  -- Whether the file of that name exists in that directory.
  pub file_exists : String → String → Option Bool
