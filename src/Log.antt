-- ===== src/Log.antt =====
-- src/log.hpp: the loggers by their names. What a logger writes is left out.
pub mod Calls
pub mod Timer
use wallchanger.Base.{
  Bool, List, [], ◌∷◌, ◌++◌, String, Option, none, some, string_ordered, ◌==◌, find_first,
  modify_first, Outcome, past_end, or_fault,
}

pub data Sink : Type 0 where
  stdout_color : Sink
  basic_file : String → Sink

-- What the source sets of a `spdlog::logger`.
pub record SpdLogger : Type 0 where
  pub name : String
  pub pattern : Option String
  pub sinks : List Sink

abbrev pub Logger : Type 0
Logger = List SpdLogger

abbrev pub has_name : String → SpdLogger → Bool
has_name name log = log.name == name

abbrev pub fresh_logger : String → SpdLogger
fresh_logger name = record { name = name; pattern = none; sinks = stdout_color ∷ [] }

unfoldable pub create_logger : String → Logger → Logger
create_logger name log_vec = log_vec ++ fresh_logger name ∷ []

unfoldable pub set_pattern : String → String → Logger → Logger
set_pattern name pattern log_vec =
    modify_first (has_name name) (λ log. record log { pattern = some pattern }) log_vec

-- `none` is the null pointer.
unfoldable pub get_logger : String → Logger → Option SpdLogger
unfolding find_first
get_logger name log_vec = find_first (has_name name) log_vec

unfoldable pub add_file_sink : String → String → Logger → Logger
add_file_sink name file_name log_vec =
    modify_first (has_name name)
      (λ log. record log { sinks = log.sinks ++ basic_file file_name ∷ [] }) log_vec

-- `LOG_INFO` and the others: the logger that writes.
unfoldable pub log_with : String → Logger → Outcome SpdLogger
unfolding get_logger
log_with name log_vec = or_fault past_end (get_logger name log_vec)
