-- ===== src/App/Cmds.antt =====
-- src/change_app/wall_cmds.hpp: the options of the command line, group by group, and where they are
-- registered in the constructor of src/change_app/wall_app.cpp.
use wallchanger.Base.{List, [], ◌∷◌, String, Option, none, some}

-- The `po::value<...>()` of an option: its type and what is called on it.
pub data ValueSemantic : Type 0 where
  string strings strings_multitoken int_value : ValueSemantic
  string_implicit : String → ValueSemantic

pub record CommandDesc : Type 0 where
  pub command : String
  pub description : String
  -- `none` is the null pointer of a flag.
  pub value : Option ValueSemantic

abbrev pub Commandline : Type 0
Commandline = List CommandDesc

abbrev pub global_options : Commandline
global_options =
    record {
      command = "command";
      description = "command to execute";
      value = some ValueSemantic.string;
    }
    ∷ record { command = "subargs"; description = "arguments to command"; value = some strings }
    ∷ record { command = "next,n"; description = "next wallpaper"; value = none }
    ∷ record { command = "previous,p"; description = "previous wallpaper"; value = none }
    ∷ record {
      command = "current-info";
      description = "print informatin about current wallpaper";
      value = none;
    }
    ∷ record {
      command = "mark-favorate";
      description = "mark current wallpaper as Favorate";
      value = none;
    }
    ∷ record {
      command = "scrub";
      description = "drop references to removed path's and removed wallpaper's";
      value = none;
    }
    ∷ record { command = "version"; description = "Program version"; value = none }
    ∷ record { command = "help,h"; description = "Print Help Message"; value = none }
    ∷ []

abbrev pub collection_options : Commandline
collection_options =
    record {
      command = "create";
      description = "create new collection. [Col] [Path] (Path Can Be Empty)";
      value = some strings_multitoken;
    }
    ∷ record {
      command = "activate";
      description = "Activate Specified Collection. [Arg]";
      value = some ValueSemantic.string;
    }
    ∷ record {
      command = "add";
      description = "add wallpaper to collection. [Col] [Wall]";
      value = some strings_multitoken;
    }
    ∷ record {
      command = "remove";
      description = "remove collection or wallpaper from collection. [Col] or [Col] [wall]";
      value = some strings_multitoken;
    }
    ∷ record {
      command = "rename";
      description = "rename collection. [Col] [Arg]";
      value = some strings_multitoken;
    }
    ∷ record {
      command = "merge";
      description = "merge two collection. [col1] [col2]";
      value = some strings_multitoken;
    }
    ∷ record {
      command = "list";
      description = "list wallpapers in collection [Col]. If Col Is Empty List All Collections.";
      value = some (string_implicit "collections");
    }
    ∷ record {
      command = "move";
      description = "move wallpaper from one collection to another. [wall] [col1] [col2]";
      value = some strings_multitoken;
    }
    ∷ record {
      command = "validate";
      description = "validate all entries in specifed collection exist. [col]";
      value = some ValueSemantic.string;
    }
    ∷ record { command = "help,h"; description = "print help message"; value = none }
    ∷ []

abbrev pub config_options : Commandline
config_options =
    record {
      command = "collect-favorates";
      description = "collect favorates in all collections to new favorate collection";
      value = none;
    }
    ∷ record {
      command = "recursive-dir";
      description = "recursively search directories when adding to a collection.[default = false]";
      value = none;
    }
    ∷ record {
      command = "priority-favorate";
      description = "prioratize favorate collection first";
      value = none;
    }
    ∷ record {
      command = "interval";
      description = "set change interval between wallpapers in hours.[default = 24]";
      value = some int_value;
    }
    ∷ record { command = "help,h"; description = "print help message"; value = none }
    ∷ []

abbrev pub history_options : Commandline
history_options =
    record { command = "reset-state"; description = "reset state in all collections"; value = none }
    ∷ record { command = "help,h"; description = "print help message"; value = none }
    ∷ []

-- `m_group_name` and `m_cmds`.
abbrev pub m_group_name : List String
m_group_name = "global" ∷ "collection" ∷ "configuration" ∷ "history" ∷ []

pub record CommandGroup : Type 0 where
  pub group_name : String
  pub options : Commandline

abbrev pub m_cmds : List CommandGroup
m_cmds =
    record { group_name = "global"; options = global_options }
    ∷ record { group_name = "collection"; options = collection_options }
    ∷ record { group_name = "configuration"; options = config_options }
    ∷ record { group_name = "history"; options = history_options }
    ∷ []
