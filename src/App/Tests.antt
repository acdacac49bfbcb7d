-- ===== src/App/Tests.antt =====
-- The theorem on the commands of src/change_app/wall_app.cpp at a command line.
use wallchanger.Base.{
  refl, Option, some, none, Bool-cases, inl, inr, ==_iff, sym, subst, ◌≡◌, List, done, ◌>>=◌, map,
  ◌||◌, String, [], ◌∷◌, ◌==◌, string_ordered, arith, if◌then◌else◌,
}
use wallchanger.Manager.Records.{WallPath}
use wallchanger.Manager.Tests.{disk, one, one-IsSafe}
use wallchanger.App.Cmds.{collection_options, global_options, Commandline, m_cmds}
use wallchanger.App.Values.{
  Typed, Typed-none, Values, text, texts, declared, Conforms, read_arguments, read_arguments_typed,
  Arguments, read_string,
}
use wallchanger.App.Groups.{
  m_group_vec, DistinctGroups, process_commands, process_commands_lem, options_of, help, row,
}
use wallchanger.App.{config, OptionMap, Application, collection_cmds}
use wallchanger.App.Safe.{LeavesSafe, collection_cmds-Ends}
use wallchanger.Manager.Throws.{Ends}

-- `create new --activate new --remove sea a.png`
abbrev line : OptionMap
line = record {
  contains = λ k. k == "create" || k == "activate" || k == "remove";
  strings = λ k. if k == "create" then "new" ∷ [] else "sea" ∷ "a.png" ∷ [];
  string = λ k. "new";
}

abbrev split : String → WallPath
split p = record { parent_path = "/pictures"; filename = p }

abbrev started : Application
started = record { m_state = one; out = [] }

collection_cmds-Ends_example : Ends disk LeavesSafe (collection_cmds disk split line started)
collection_cmds-Ends_example =
    collection_cmds-Ends disk split line started one-IsSafe (λ h. omega arith) (λ h. omega arith)

m_cmds-DistinctGroups : DistinctGroups m_cmds
m_cmds-DistinctGroups = (
  ((λ e. cc), ((λ e. cc), ((λ e. cc), tt))),
  (((λ e. cc), ((λ e. cc), tt)), (((λ e. cc), tt), (tt, tt))),
)

-- A parser that finds `help` whatever it is given.
abbrev asks_help : List String → Commandline → OptionMap → OptionMap
asks_help options cmds opts = record opts { contains = λ k. k == "help" }

process_commands_lem_example :
    (m_group_vec >>= λ groups. process_commands ("configuration" ∷ []) asks_help groups config line)
    ≡ done (asks_help [] (options_of config) line, help (map row (options_of config)) ∷ [])
process_commands_lem_example = process_commands_lem "configuration" [] asks_help config line

-- `collection --create new /pictures --list`
abbrev values : Values
values key =
    if key == "create"
    then some (texts ("new" ∷ "/pictures" ∷ []))
    else if key == "list"
    then some (text "collections")
    else none

abbrev given : Values
given key = if key == "command" then some (text "collection") else none

values-Conforms : Conforms collection_options values
unfolding declared
values-Conforms key = elim (Bool-cases (key == "create")) [
  | inl e ↦
      subst (λ k. Typed (declared collection_options k) (values k))
        (sym ((==_iff key "create").0 e)) refl
  | inr not_create ↦ elim (Bool-cases (key == "list")) [
    | inl e ↦
        subst (λ k. Typed (declared collection_options k) (values k))
          (sym ((==_iff key "list").0 e)) refl
    | inr not_list ↦ rw (not_create, not_list) (Typed-none (declared collection_options key))
  ]
]

given-Conforms : Conforms global_options given
unfolding declared
given-Conforms key = elim (Bool-cases (key == "command")) [
  | inl e ↦
      subst (λ k. Typed (declared global_options k) (given k)) (sym ((==_iff key "command").0 e))
        refl
  | inr other ↦ rw other (Typed-none (declared global_options key))
]

read_arguments_typed_example :
    ((r : Arguments) × (read_arguments values ≡ done r))
    × (c : Option String) × (read_string (given "command") ≡ done c)
read_arguments_typed_example = read_arguments_typed values given values-Conforms given-Conforms
