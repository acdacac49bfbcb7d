-- ===== src/App/Values.antt =====
-- The types of the options: what the tables of src/change_app/wall_cmds.hpp declare, and what
-- src/change_app/wall_app.cpp reads with `as`. A value is the `boost::any` that is kept for an
-- option.
use wallchanger.Base.{
  ℕ, Bool, true, false, ◌≡◌, refl, List, [], ◌∷◌, String, Option, none, some, string_ordered, ◌==◌,
  if◌then◌else◌, Outcome, done, fault, bad_access, ◌>>=◌,
}
use wallchanger.App.Cmds.{
  ValueSemantic, strings, strings_multitoken, int_value, string_implicit, Commandline,
  global_options, collection_options,
}

pub data AnyValue : Type 0 where
  text : String → AnyValue
  texts : List String → AnyValue
  number : ℕ → AnyValue

-- The value of an option that was given.
abbrev pub Values : Type 0
Values = String → Option AnyValue

-- `as` throws for a value of another type.
abbrev pub as_string : AnyValue → Outcome String
as_string (text s) = done s
as_string _ = fault bad_access

abbrev pub as_strings : AnyValue → Outcome (List String)
as_strings (texts l) = done l
as_strings _ = fault bad_access

-- `if (contains(key)) { ...[key].as<...>() }`
abbrev pub read_string : Option AnyValue → Outcome (Option String)
read_string none = done none
read_string (some v) = as_string v >>= λ s. done (some s)

abbrev pub read_strings : Option AnyValue → Outcome (Option (List String))
read_strings none = done none
read_strings (some v) = as_strings v >>= λ l. done (some l)

-- What the commands read.
pub record Arguments : Type 0 where
  pub create : Option (List String)
  pub add : Option (List String)
  pub remove : Option (List String)
  pub rename : Option (List String)
  pub merge : Option (List String)
  pub move : Option (List String)
  pub activate : Option String
  pub list : Option String
  pub validate : Option String

-- Every `as` of `m_collection_cmds`.
unfoldable pub read_arguments : Values → Outcome Arguments
read_arguments m = read_strings (m "create") >>= λ create.
    read_string (m "activate") >>= λ activate. read_string (m "list") >>= λ list.
    read_strings (m "add") >>= λ add. read_strings (m "remove") >>= λ remove.
    read_strings (m "rename") >>= λ rename. read_strings (m "merge") >>= λ merge.
    read_strings (m "move") >>= λ move. read_string (m "validate") >>= λ validate. done (record {
      create = create;
      add = add;
      remove = remove;
      rename = rename;
      merge = merge;
      move = move;
      activate = activate;
      list = list;
      validate = validate;
    })

-- The value that an option is declared with.
unfoldable pub declared : Commandline → String → Option ValueSemantic
declared [] key = none
declared (d ∷ cmds) key = let rest = declared cmds key in if d.command == key then d.value else rest

-- `po::value<...>()` keeps a value of its type.
abbrev pub has_type : ValueSemantic → AnyValue → Bool
has_type ValueSemantic.string (text s) = true
has_type (string_implicit s) (text t) = true
has_type strings (texts l) = true
has_type strings_multitoken (texts l) = true
has_type int_value (number n) = true
has_type _ v = false

abbrev pub Typed : Option ValueSemantic → Option AnyValue → Type 0
Typed (some sem) (some v) = has_type sem v ≡ true
Typed _ _ = Unit

-- Every value that was given is of the type that the table declares.
abbrev pub Conforms : Commandline → Values → Type 0
Conforms cmds m = (key : String) → Typed (declared cmds key) (m key)

-- An option that was not given.
pub Typed-none : (d : Option ValueSemantic) → Typed d none
Typed-none none = tt
Typed-none (some sem) = tt

strings_read :
    (o : Option AnyValue)
    → Typed (some strings_multitoken) o
    → (r : Option (List String)) × (read_strings o ≡ done r)
strings_read none h = (none, refl)
strings_read (some (texts l)) h = (some l, refl)
strings_read (some (text s)) h = cc
strings_read (some (number n)) h = cc

string_read :
    (o : Option AnyValue)
    → Typed (some ValueSemantic.string) o
    → (r : Option String) × (read_string o ≡ done r)
string_read none h = (none, refl)
string_read (some (text s)) h = (some s, refl)
string_read (some (texts l)) h = cc
string_read (some (number n)) h = cc

implicit_read :
    (o : Option AnyValue) (s : String)
    → Typed (some (string_implicit s)) o
    → (r : Option String) × (read_string o ≡ done r)
implicit_read none s h = (none, refl)
implicit_read (some (text t)) s h = (some t, refl)
implicit_read (some (texts l)) s h = cc
implicit_read (some (number n)) s h = cc

-- The commands read every option at the type that its table declares: where the values given are of
-- the declared types, whichever are given, no `as` of the collection commands, and not that of
-- `run` for the command itself, throws.
pub read_arguments_typed :
    (m given : Values)
    → Conforms collection_options m
    → Conforms global_options given
    → ((r : Arguments) × (read_arguments m ≡ done r))
      × (c : Option String) × (read_string (given "command") ≡ done c)
unfolding read_arguments declared
read_arguments_typed m given h g =
    let (create, e1) = strings_read (m "create") (h "create") in
    let (activate, e2) = string_read (m "activate") (h "activate") in
    let (list, e3) = implicit_read (m "list") "collections" (h "list") in
    let (add, e4) = strings_read (m "add") (h "add") in
    let (rem, e5) = strings_read (m "remove") (h "remove") in
    let (rename, e6) = strings_read (m "rename") (h "rename") in
    let (merge, e7) = strings_read (m "merge") (h "merge") in
    let (move, e8) = strings_read (m "move") (h "move") in
    let (validate, e9) = string_read (m "validate") (h "validate") in
    let (command, e) = string_read (given "command") (g "command") in
    let r : Arguments = record {
      create = create;
      add = add;
      remove = rem;
      rename = rename;
      merge = merge;
      move = move;
      activate = activate;
      list = list;
      validate = validate;
    } in
    ((r, rw (e1, e2, e3, e4, e5, e6, e7, e8, e9) refl), command, e)
