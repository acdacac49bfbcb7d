-- ===== src/Log/Calls.antt =====
-- The loggers of src/log.hpp after calls in any order.
use wallchanger.Base.{
  Bool, true, false, ◌≡◌, refl, List, [], ◌∷◌, ◌++◌, String, some, string_ordered, ◌==◌, ==_refl,
  modify_first, contains_first, contains-append_one, find_of_contains, if◌then◌else◌, done,
  Bool-cases, inl, inr,
}
use wallchanger.Log.{
  SpdLogger, Logger, fresh_logger, basic_file, has_name, create_logger, set_pattern, get_logger,
  add_file_sink, log_with,
}

pub data LogCall : Type 0 where
  creates : String → LogCall
  sets_pattern adds_file_sink : String → String → LogCall

unfoldable pub after_calls : List LogCall → Logger → Logger
unfolding create_logger set_pattern add_file_sink
after_calls [] l = l
after_calls (creates name ∷ cs) l = after_calls cs (create_logger name l)
after_calls (sets_pattern name pattern ∷ cs) l = after_calls cs (set_pattern name pattern l)
after_calls (adds_file_sink name file ∷ cs) l = after_calls cs (add_file_sink name file l)

-- A change of a logger that keeps its name keeps the names.
contains-modify :
    (name other : String) (f : SpdLogger → SpdLogger) (l : Logger)
    → ((x : SpdLogger) → (f x).name ≡ x.name)
    → contains_first (has_name name) (modify_first (has_name other) f l)
      ≡ contains_first (has_name name) l
unfolding contains_first modify_first
contains-modify name other f [] h = refl
contains-modify name other f (x ∷ l) h = elim (Bool-cases (x.name == other)) [
  | inl hit ↦ rw (hit, h x) refl
  | inr miss ↦ rw (miss, contains-modify name other f l h) refl
]

after_calls-contains :
    (cs : List LogCall) (name : String) (l : Logger)
    → contains_first (has_name name) l ≡ true
    → contains_first (has_name name) (after_calls cs l) ≡ true
unfolding after_calls create_logger set_pattern add_file_sink
after_calls-contains [] name l h = h
after_calls-contains (creates other ∷ cs) name l h =
    after_calls-contains cs name (create_logger other l)
      (rw (contains-append_one (has_name name) l (fresh_logger other), h) refl)
after_calls-contains (sets_pattern other pattern ∷ cs) name l h =
    after_calls-contains cs name (set_pattern other pattern l) (
      rw (contains-modify name other (λ log. record log { pattern = some pattern }) l (λ x. refl))
        h)
after_calls-contains (adds_file_sink other file ∷ cs) name l h =
    after_calls-contains cs name (add_file_sink other file l) (
      rw
        (contains-modify name other
          (λ log. record log { sinks = log.sinks ++ basic_file file ∷ [] }) l (λ x. refl))
        h)

-- Once a logger is created, whatever was and is called besides, a message to its name finds a
-- logger of that name, and no null pointer.
pub log_with-create :
    (before after : List LogCall) (name : String)
    → (x : SpdLogger) × (log_with name
          (after_calls after (create_logger name (after_calls before [])))
        ≡ done x)
      × ((x.name == name) ≡ true)
unfolding log_with get_logger create_logger
log_with-create before after name =
    let l = create_logger name (after_calls before []) in
    let there = after_calls-contains after name l (created_there (after_calls before [])) in
    let (x, found, same) = find_of_contains (has_name name) (after_calls after l) there in
    (x, rw found refl, same)
  where
    either : (b : Bool) → (if b then true else true) ≡ true
    either true = refl
    either false = refl

    created_there : (l : Logger) → contains_first (has_name name) (create_logger name l) ≡ true
    created_there l =
        rw (contains-append_one (has_name name) l (fresh_logger name), ==_refl name)
          (either (contains_first (has_name name) l))
