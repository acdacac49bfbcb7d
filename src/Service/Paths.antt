-- ===== src/Service/Paths.antt =====
-- The path at which src/change_service/change_state.cpp writes the history.
use Prim.Native.String.{String, ◌++◌}

abbrev pub history_path : String → String
history_path data_directory = data_directory ++ "/data/history.json"
