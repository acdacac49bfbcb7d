-- ===== src/App.antt =====
-- src/change_app/wall_app.cpp, wall_app.hpp and wall_cmds.hpp: the command line. Boost parses it;
-- `OptionMap` is what `po::variables_map` answers. What is printed is a value,
-- its layout and the logging are left out.
pub mod Cmds
pub mod Groups
pub mod Values
pub mod Safe
pub mod Tests
use wallchanger.Base.{
  ℕ, Bool, true, false, not, ◌&&◌, List, [], ◌∷◌, ◌++◌, String, Option, none, some, string_ordered,
  nat_ordered, ◌==◌, if◌then◌else◌, leb, length, get_elem?, Outcome, done, fault, past_end,
  or_fault, ◌>>=◌, is_some,
}
use wallchanger.Manager.Records.{WallPath, FileSystem}
use wallchanger.Manager.{Manager, Files}
use wallchanger.Manager
use wallchanger.Cache.Item.{CacheItem}

-- `contains(key)`, and the value of a key by the two types that the source asks for.
pub record OptionMap : Type 0 where
  pub contains : String → Bool
  pub strings : String → List String
  pub string : String → String

-- `res[i]`, which a vector does not check.
abbrev pub at_or_fault : List String → ℕ → Outcome String
at_or_fault res i = or_fault past_end (get_elem? res i)

-- What the commands print of the collections.
pub data Printed : Type 0 where
  -- The names of all collections.
  collections : List String → Printed
  -- The rows of the table of one collection.
  wallpapers : List (CacheItem String) → Printed
  -- The total and valid entries, and the invalid entries.
  validated : ℕ → ℕ → List (CacheItem String) → Printed
  -- The end of the chain of names that `run` compares with the command.
  not_supported : String → Printed

pub record Application : Type 0 where
  pub m_state : Manager
  pub out : List Printed

-- What a command leaves: whether the next one is looked at, or `return` is taken.
abbrev pub Step : Type 0
Step = Outcome (Bool × Application)

-- A call of the manager whose result is tested: `if (!m_state....) { return; }`.
abbrev pub stepped : Application → Bool × Manager → Bool × Application
stepped a r = (r.0, record a { m_state = r.1 })

abbrev pub print : Printed → Application → Application
print p a = record a { out = a.out ++ p ∷ [] }

-- The next command follows, or the method has returned.
abbrev pub and_then : Step → (Application → Step) → Step
and_then s k = s >>= λ r. if r.0 then k r.1 else done r

abbrev pub on_option : OptionMap → String → (Application → Step) → Application → Step
on_option opts key k a = if opts.contains key then k a else done (true, a)

-- What `validate_collection` prints, where it returns true.
abbrev pub report : Option (ℕ × ℕ × List (CacheItem String)) → Application → Bool × Application
report none a = (false, a)
report (some (total, valid, invalid)) a = (true, print (validated total valid invalid) a)

-- A command with one argument or more, and one with two, which is skipped for any other number.
abbrev pub one_or_two :
    (String → Outcome (Bool × Manager))
    → (String → String → Outcome (Bool × Manager))
    → List String
    → Application
    → Step
one_or_two f g res a = at_or_fault res 0 >>= λ x.
    if leb 2 (length res)
    then at_or_fault res 1 >>= (λ y. g x y >>= λ r. done (stepped a r))
    else (f x >>= λ r. done (stepped a r))

abbrev pub exactly_two : (String → String → Bool × Manager) → List String → Application → Step
exactly_two g res a =
    if length res == 2
    then at_or_fault res 0 >>= (λ x. at_or_fault res 1 >>= (λ y. done (stepped a (g x y))))
    else done (true, a)

module _ (fs : FileSystem) (path : String → WallPath) (opts : OptionMap) where
  unfoldable pub create_cmd : Application → Step
  create_cmd = on_option opts "create" (λ a.
      one_or_two (λ name. Manager.create_collection fs name "" false a.m_state)
        (λ name dir. Manager.create_collection fs name dir false a.m_state) (opts.strings "create")
        a)

  unfoldable pub activate_cmd : Application → Step
  activate_cmd =
      on_option opts "activate"
        (λ a. Manager.change_active (opts.string "activate") a.m_state >>= λ r. done (stepped a r))

  unfoldable pub list_cmd : Application → Step
  list_cmd = on_option opts "list" (λ a.
      let res = opts.string "list" in
      done (
        true,
        if res == "collections"
            then print (collections (Manager.list_collection a.m_state)) a
            else print (wallpapers (Manager.collection_items res a.m_state)) a,
      ))

  unfoldable pub add_cmd : Application → Step
  add_cmd = on_option opts "add" (λ a.
      exactly_two (λ name wall. Manager.add_to_collection name (path wall) a.m_state)
        (opts.strings "add") a)

  unfoldable pub remove_cmd : Application → Step
  remove_cmd = on_option opts "remove" (λ a.
      one_or_two (λ name. done (Manager.remove_collection name a.m_state))
        (λ name wall. done (Manager.remove_wallpaper name wall a.m_state)) (opts.strings "remove")
        a)

  unfoldable pub rename_cmd : Application → Step
  rename_cmd = on_option opts "rename" (λ a.
      exactly_two (λ from to. Manager.rename_collection from to a.m_state) (opts.strings "rename")
        a)

  unfoldable pub merge_cmd : Application → Step
  merge_cmd =
      on_option opts "merge"
        (λ a. exactly_two (λ c d. Manager.merge_collection c d a.m_state) (opts.strings "merge") a)

  unfoldable pub move_cmd : Application → Step
  move_cmd = on_option opts "move" (λ a.
      let res = opts.strings "move" in
      if length res == 3
      then at_or_fault res 1 >>= (λ c. at_or_fault res 2 >>= (λ d.
        at_or_fault res 0
        >>= (λ wall. done (stepped a (Manager.move_wallpaper c d wall a.m_state)))))
      else done (true, a))

  unfoldable pub validate_cmd : Application → Step
  validate_cmd = on_option opts "validate" (λ a.
      Manager.validate_collection fs (opts.string "validate") a.m_state >>= λ r.
      done (report r.0 (record a { m_state = r.1 })))

  -- `m_collection_cmds`, after `m_process_commands` has stored the options.
  unfoldable pub collection_cmds : Application → Step
  collection_cmds a = and_then (create_cmd a) (λ a1. and_then (activate_cmd a1) (λ a2.
      and_then (list_cmd a2) (λ a3. and_then (add_cmd a3) (λ a4. and_then (remove_cmd a4) (λ a5.
        and_then (rename_cmd a5)
          (λ a6. and_then (merge_cmd a6) (λ a7. and_then (move_cmd a7) validate_cmd)))))))

pub data Subcommand : Type 0 where
  global collection config history : Subcommand

module _ (fs : FileSystem) (path : String → WallPath) (opts : OptionMap)
    (processed : Subcommand → OptionMap) where
  -- The chain over the name of the command; `processed` is the map after `m_process_commands`.
  unfoldable pub dispatch : Application → Outcome Application
  dispatch a =
      let command = opts.string "command" in
      if opts.contains "command"
      then if command == "collection"
        then collection_cmds fs path (processed collection) a >>= (λ r. done r.1)
        else if command == "configuration"
        then done a
        else if command == "history"
        then done a
        else done (print (not_supported command) a)
      else done a

  -- `run`: the state is stored whatever the command did. The texts of `help` and `version` are
  -- left out, and the other options have empty bodies.
  unfoldable pub run : Application → Outcome (Application × Files)
  run a = dispatch a >>= λ after. Manager.store after.m_state >>= λ files. done (after, files)
