-- ===== src/App/Groups.antt =====
-- The constructor, the help and `m_process_commands` of src/change_app/wall_app.cpp. A
-- `po::options_description` is its caption with the options that were added; the parsers of boost
-- are arguments. What is printed is a value.
use wallchanger.Base.{
  ℕ, false, not, ◌&&◌, ◌≡◌, ◌≢◌, refl, sym, List, [], ◌∷◌, ◌++◌, String, Option, none, some,
  string_ordered, ◌==◌, ==_refl, ==_iff, if◌then◌else◌, get_elem?, drop, map, Outcome, done, fault,
  past_end, or_fault, ◌>>=◌, Bool-cases, inl, inr,
}
use mathlib.Core.List.{append_assoc}
use wallchanger.App.{OptionMap, Subcommand, global, collection, config, history}
use wallchanger.App.Cmds.{
  Commandline, CommandDesc, CommandGroup, m_group_name, m_cmds, global_options, collection_options,
  config_options, history_options,
}

-- `m_group_vec.emplace_back(data, ...)` for each name.
abbrev pub empty_groups : List String → List CommandGroup
empty_groups [] = []
empty_groups (name ∷ names) = record { group_name = name; options = [] } ∷ empty_groups names

-- The options are added to the first group of the name; `none` where there is none, and the end
-- iterator would be dereferenced.
unfoldable pub add_options : String → Commandline → List CommandGroup → Option (List CommandGroup)
add_options name cmds [] = none
add_options name cmds (g ∷ gs) =
    let rest = add_options name cmds gs in
    if g.group_name == name
    then some (record g { options = g.options ++ cmds } ∷ gs)
    else elim rest [ none ↦ none | some gs' ↦ some (g ∷ gs') ]

-- The loop over `m_cmds`.
unfoldable pub fill_groups : List CommandGroup → List CommandGroup → Outcome (List CommandGroup)
fill_groups [] groups = done groups
fill_groups (c ∷ cmds) groups =
    or_fault past_end (add_options c.group_name c.options groups) >>= λ filled.
    fill_groups cmds filled

abbrev pub m_group_vec : Outcome (List CommandGroup)
m_group_vec = fill_groups m_cmds (empty_groups m_group_name)

-- The values of `subcommand_e`.
abbrev pub subcommand_value : Subcommand → ℕ
subcommand_value global = 0
subcommand_value collection = 1
subcommand_value config = 2
subcommand_value history = 3

-- What is printed of an option: its name and its description.
abbrev pub Row : Type 0
Row = String × String

abbrev pub row : CommandDesc → Row
row d = (d.command, d.description)

pub data Message : Type 0 where
  -- The options after the first two, and the names of the groups after the first.
  usage : List Row → List String → Message
  version : Message
  help : List Row → Message

-- `run` up to the options without a body.
unfoldable pub run_messages : OptionMap → List CommandGroup → Outcome (List Message)
run_messages opts groups =
    let shown : List Message = if opts.contains "version" then version ∷ [] else [] in
    if not (opts.contains "command") && opts.contains "help"
    then or_fault past_end (get_elem? groups (subcommand_value global))
      >>= (λ g. done (usage (map row (drop 2 g.options)) (drop 1 m_group_name) ∷ shown))
    else done shown

-- What boost leaves unrecognized, and its second parser with the map that it adds to. The erased
-- option is the command itself.
unfoldable pub process_commands :
    List String
    → (List String → Commandline → OptionMap → OptionMap)
    → List CommandGroup
    → Subcommand
    → OptionMap
    → Outcome (OptionMap × List Message)
process_commands [] parse groups sub_cmd opts = fault past_end
process_commands (command ∷ options) parse groups sub_cmd opts =
    or_fault past_end (get_elem? groups (subcommand_value sub_cmd)) >>= λ g.
    let stored = parse options g.options opts in
    done (stored, if stored.contains "help" then help (map row g.options) ∷ [] else [])

-- No group of this name.
abbrev pub Lacks : String → List CommandGroup → Type 0
Lacks name [] = Unit
Lacks name (g ∷ gs) = (g.group_name ≢ name) × Lacks name gs

abbrev pub DistinctGroups : List CommandGroup → Type 0
DistinctGroups [] = Unit
DistinctGroups (g ∷ gs) = Lacks g.group_name gs × DistinctGroups gs

-- No group of `front` has a name of a group of `cmds`.
abbrev Apart : List CommandGroup → List CommandGroup → Type 0
Apart front [] = Unit
Apart front (c ∷ cmds) = Lacks c.group_name front × Apart front cmds

abbrev names_of : List CommandGroup → List String
names_of [] = []
names_of (g ∷ gs) = g.group_name ∷ names_of gs

add_options_lem :
    (front rest : List CommandGroup) (c : CommandGroup)
    → Lacks c.group_name front
    → add_options c.group_name c.options
        (front ++ record { group_name = c.group_name; options = [] } ∷ rest)
      ≡ some (front ++ c ∷ rest)
unfolding add_options
add_options_lem [] rest c h = rw (==_refl c.group_name) refl
add_options_lem (g ∷ front) rest c h =
    let other : (g.group_name == c.group_name) ≡ false =
      elim (Bool-cases (g.group_name == c.group_name)) [
        | inl e ↦ absurd (h.0 ((==_iff g.group_name c.group_name).0 e))
        | inr e ↦ e
      ] in
    rw (other, add_options_lem front rest c h.1) refl

Lacks-append :
    (name : String) (front : List CommandGroup) (g : CommandGroup)
    → Lacks name front
    → g.group_name ≢ name
    → Lacks name (front ++ g ∷ [])
Lacks-append name [] g h n = (n, tt)
Lacks-append name (f ∷ front) g h n = (h.0, Lacks-append name front g h.1 n)

Apart-append :
    (front : List CommandGroup) (g : CommandGroup) (cmds : List CommandGroup)
    → Apart front cmds
    → Lacks g.group_name cmds
    → Apart (front ++ g ∷ []) cmds
Apart-append front g [] h l = tt
Apart-append front g (c ∷ cmds) h l =
    (Lacks-append c.group_name front g h.0 (λ e. l.0 (sym e)), Apart-append front g cmds h.1 l.1)

fill_groups_from :
    (cmds front : List CommandGroup)
    → DistinctGroups cmds
    → Apart front cmds
    → fill_groups cmds (front ++ empty_groups (names_of cmds)) ≡ done (front ++ cmds)
unfolding fill_groups
fill_groups_from [] front d a = refl
fill_groups_from (c ∷ cmds) front d a =
    rw (add_options_lem front (empty_groups (names_of cmds)) c a.0) (
      rw
        (
          sym (append_assoc front (c ∷ []) (empty_groups (names_of cmds))),
          sym (append_assoc front (c ∷ []) cmds),
        )
        (fill_groups_from cmds (front ++ c ∷ []) d.1 (Apart-append front c cmds a.1 d.0)))

Apart-nil : (cmds : List CommandGroup) → Apart [] cmds
Apart-nil [] = tt
Apart-nil (c ∷ cmds) = (tt, Apart-nil cmds)

-- With any groups of distinct names, in this order: the constructor finds the group of every name,
-- and each group gets exactly its own options, in their order.
pub fill_groups_lem :
    (cmds : List CommandGroup)
    → DistinctGroups cmds
    → fill_groups cmds (empty_groups (names_of cmds)) ≡ done cmds
fill_groups_lem cmds d = fill_groups_from cmds [] d (Apart-nil cmds)

-- The options of a subcommand, by its name in the source.
abbrev pub options_of : Subcommand → Commandline
options_of global = global_options
options_of collection = collection_options
options_of config = config_options
options_of history = history_options

-- With the groups that the constructor makes of `m_group_name` and `m_cmds`, every subcommand
-- parses with its own options and, where `help` is given, prints these and no other. Whatever the
-- parser gives, no group is looked for past the end.
pub process_commands_lem :
    (command : String) (options : List String)
    (parse : List String → Commandline → OptionMap → OptionMap) (sub : Subcommand)
    (opts : OptionMap)
    → (m_group_vec >>= λ groups. process_commands (command ∷ options) parse groups sub opts)
      ≡ done (
        parse options (options_of sub) opts,
        if (parse options (options_of sub) opts).contains "help"
            then help (map row (options_of sub)) ∷ []
            else [],
      )
unfolding process_commands fill_groups add_options
process_commands_lem command options parse global opts = refl
process_commands_lem command options parse collection opts = refl
process_commands_lem command options parse config opts = refl
process_commands_lem command options parse history opts = refl
