-- ===== src/App/Safe.antt =====
-- `m_collection_cmds` of src/change_app/wall_app.cpp, command by command, over safe managers.
use wallchanger.Base.{
  ℕ, Bool, true, false, ◌≡◌, refl, List, [], ◌∷◌, String, Option, none, some, string_ordered,
  nat_ordered, ◌==◌, ==_iff, if◌then◌else◌, leb, length, get_elem?, Outcome, done, ◌>>=◌, arith,
  Bool-cases, inl, inr, sym, ◌∙◌, ◌<◌, ◌≤◌, distance-lt_length, zero, suc,
}
use wallchanger.CacheLib.{exists, position, has_name}
use wallchanger.CacheLib
use wallchanger.CacheLib.Lookup.{has, exists_lem}
use wallchanger.Manager.Records.{WallPath, FileSystem}
use wallchanger.Manager.{Manager}
use wallchanger.Manager
use wallchanger.Manager.Invariant.{
  IsSafe, rename_collection-IsSafe, merge_collection-IsSafe, remove_collection-IsSafe,
  remove_wallpaper-IsSafe, move_wallpaper-IsSafe,
}
use wallchanger.Manager.Create.{add_to_collection-IsSafe, create_collection-Ends}
use wallchanger.Manager.Throws.{Ends, >>=-Ends}
use wallchanger.Manager.Access.{validate_collection-Ends}
use wallchanger.Cache.Item.{CacheItem}
use wallchanger.App.{
  OptionMap, Application, collections, wallpapers, report, Step, stepped, and_then, print,
  create_cmd, activate_cmd, one_or_two, exactly_two, list_cmd, add_cmd, remove_cmd, rename_cmd,
  merge_cmd, move_cmd, validate_cmd, collection_cmds,
}

abbrev pub LeavesSafe : Bool × Application → Type 0
LeavesSafe r = IsSafe r.1.m_state

-- The command returns, and leaves a safe manager.
abbrev pub Returns : Step → Type 0
Returns s = (r : Bool × Application) × (s ≡ done r) × LeavesSafe r

and_then-Ends :
    (fs : FileSystem) (s : Step) (k : Application → Step)
    → Ends fs LeavesSafe s
    → ((a : Application) → IsSafe a.m_state → Ends fs LeavesSafe (k a))
    → Ends fs LeavesSafe (and_then s k)
and_then-Ends fs s k (inl ((true, a), e, h)) next = rw e (next a h)
and_then-Ends fs s k (inl ((false, a), e, h)) next = inl ((false, a), rw e refl, h)
and_then-Ends fs s k (inr (e, t)) next = inr (rw e refl, t)

guarded-Returns :
    (b : Bool) (t : Step) (a : Application)
    → IsSafe a.m_state
    → (b ≡ true → Returns t)
    → Returns (if b then t else done (true, a))
guarded-Returns true t a s next = next refl
guarded-Returns false t a s next = ((true, a), refl, s)

guarded-Ends :
    (fs : FileSystem) (b : Bool) (t : Step) (a : Application)
    → IsSafe a.m_state
    → (b ≡ true → Ends fs LeavesSafe t)
    → Ends fs LeavesSafe (if b then t else done (true, a))
guarded-Ends fs true t a s next = next refl
guarded-Ends fs false t a s next = inl ((true, a), refl, s)

get_elem?_lt : {A : Type 0} (l : List A) (i : ℕ) → i < length l → (x : A) × (get_elem? l i ≡ some x)
get_elem?_lt [] i h = absurd (omega arith)
get_elem?_lt (x ∷ l) zero h = (x, refl)
get_elem?_lt (x ∷ l) (suc i) h = get_elem?_lt l i (omega arith)

change_active-Returns :
    (n : String) (a : Application)
    → IsSafe a.m_state
    → Returns (Manager.change_active n a.m_state >>= (λ r. done (stepped a r)))
unfolding Manager.change_active CacheLib.change_active
change_active-Returns n a s = elim (Bool-cases (exists n a.m_state.m_cache)) [
  | inr absent ↦ (
    (false, record a { m_state = record a.m_state { m_cache = a.m_state.m_cache } }),
    rw (absent, Manager.change_active, CacheLib.change_active) refl,
    record { keyed = s.keyed; names = s.names; known = s.known },
  )
  | inl there ↦
      let vec = a.m_state.m_cache.m_cache_vec in
      let h : has n vec ≡ true = sym (exists_lem n a.m_state.m_cache) ∙ there in
      let (x, at) =
        get_elem?_lt vec (position n a.m_state.m_cache)
          (omega (arith, distance-lt_length (has_name n) vec h)) in
      (
        (
          true,
          record a {
            m_state = record a.m_state {
              m_cache = record a.m_state.m_cache {
                m_current = position n a.m_state.m_cache;
                m_active_name = x.first;
              };
            };
          },
        ),
        rw (there, at, Manager.change_active, CacheLib.change_active) refl,
        record { keyed = s.keyed; names = s.names; known = s.known },
      )
]

report_state :
    (r : Option (ℕ × ℕ × List (CacheItem String))) (a : Application)
    → (report r a).1.m_state ≡ a.m_state
report_state none a = refl
report_state (some r) a = refl

module _ (a : Application) (s : IsSafe a.m_state) (g : String → String → Bool × Manager)
    (safe : (x y : String) → IsSafe (g x y).1) where
  exactly_two-Returns : (res : List String) → Returns (exactly_two g res a)
  exactly_two-Returns res = elim (Bool-cases (length res == 2)) [
    | inr other ↦ ((true, a), rw other refl, s)
    | inl two ↦
        let n : length res ≡ 2 = (==_iff (length res) 2).0 two in
        let (x, at_x) = get_elem?_lt res 0 (omega arith) in
        let (y, at_y) = get_elem?_lt res 1 (omega arith) in
        (stepped a (g x y), rw (two, at_x, at_y) refl, safe x y)
  ]

abbrev SafeResult : Bool × Manager → Type 0
SafeResult q = IsSafe q.1

one_or_two-Ends :
    (fs : FileSystem) (f : String → Outcome (Bool × Manager))
    (g : String → String → Outcome (Bool × Manager)) (res : List String) (a : Application)
    → ((x : String) → Ends fs SafeResult (f x))
    → ((x y : String) → Ends fs SafeResult (g x y))
    → 1 ≤ length res
    → Ends fs LeavesSafe (one_or_two f g res a)
one_or_two-Ends fs f g res a safe safe' one =
    let (x, at_x) = get_elem?_lt res 0 (omega arith) in
    elim (Bool-cases (leb 2 (length res))) [
      | inr other ↦
          rw (other, at_x)
            (>>=-Ends fs (f x) (λ r. done (stepped a r)) (safe x)
              (λ r h. inl (stepped a r, refl, h)))
      | inl two ↦
          let (y, at_y) = get_elem?_lt res 1 (ground arith) in
          rw (two, at_x, at_y)
            (>>=-Ends fs (g x y) (λ r. done (stepped a r)) (safe' x y)
              (λ r h. inl (stepped a r, refl, h)))
    ]

-- What boost promises of an option that takes at least one argument.
abbrev pub GivesOne : OptionMap → String → Type 0
GivesOne opts key = opts.contains key ≡ true → 1 ≤ length (opts.strings key)

module _ (fs : FileSystem) (path : String → WallPath) (opts : OptionMap) (a : Application)
    (s : IsSafe a.m_state) where
  create_cmd-Ends : GivesOne opts "create" → Ends fs LeavesSafe (create_cmd fs path opts a)
  unfolding create_cmd
  create_cmd-Ends one = guarded-Ends fs (opts.contains "create") _ a s (λ there.
      one_or_two-Ends fs (λ name. Manager.create_collection fs name "" false a.m_state)
        (λ name dir. Manager.create_collection fs name dir false a.m_state) (opts.strings "create")
        a (λ name. create_collection-Ends fs name "" false a.m_state s)
        (λ name dir. create_collection-Ends fs name dir false a.m_state s) (one there))

  activate_cmd-Returns : Returns (activate_cmd fs path opts a)
  unfolding activate_cmd
  activate_cmd-Returns =
      guarded-Returns (opts.contains "activate") _ a s
        (λ _. change_active-Returns (opts.string "activate") a s)

  list_cmd-Returns : Returns (list_cmd fs path opts a)
  unfolding list_cmd
  list_cmd-Returns = guarded-Returns (opts.contains "list") _ a s (λ _. (
    (
      true,
      if opts.string "list" == "collections"
          then print (collections (Manager.list_collection a.m_state)) a
          else print (wallpapers (Manager.collection_items (opts.string "list") a.m_state)) a,
    ),
    refl,
    elim (Bool-cases (opts.string "list" == "collections")) [ inl e ↦ rw e s | inr e ↦ rw e s ],
  ))

  add_cmd-Returns : Returns (add_cmd fs path opts a)
  unfolding add_cmd
  add_cmd-Returns = guarded-Returns (opts.contains "add") _ a s (λ _.
      exactly_two-Returns a s (λ name wall. Manager.add_to_collection name (path wall) a.m_state)
        (λ name wall. add_to_collection-IsSafe name (path wall) a.m_state s) (opts.strings "add"))

  remove_cmd-Ends : GivesOne opts "remove" → Ends fs LeavesSafe (remove_cmd fs path opts a)
  unfolding remove_cmd
  remove_cmd-Ends one = guarded-Ends fs (opts.contains "remove") _ a s (λ there.
      one_or_two-Ends fs (λ name. done (Manager.remove_collection name a.m_state))
        (λ name wall. done (Manager.remove_wallpaper name wall a.m_state)) (opts.strings "remove") a
        (λ name. inl (_, refl, remove_collection-IsSafe name a.m_state s))
        (λ name wall. inl (_, refl, remove_wallpaper-IsSafe name wall a.m_state s)) (one there))

  rename_cmd-Returns : Returns (rename_cmd fs path opts a)
  unfolding rename_cmd
  rename_cmd-Returns = guarded-Returns (opts.contains "rename") _ a s (λ _.
      exactly_two-Returns a s (λ from to. Manager.rename_collection from to a.m_state)
        (λ from to. rename_collection-IsSafe from to a.m_state s) (opts.strings "rename"))

  merge_cmd-Returns : Returns (merge_cmd fs path opts a)
  unfolding merge_cmd
  merge_cmd-Returns = guarded-Returns (opts.contains "merge") _ a s (λ _.
      exactly_two-Returns a s (λ c d. Manager.merge_collection c d a.m_state)
        (λ c d. merge_collection-IsSafe c d a.m_state s) (opts.strings "merge"))

  move_three-Returns :
      (c d w : String)
      → get_elem? (opts.strings "move") 1 ≡ some c
      → get_elem? (opts.strings "move") 2 ≡ some d
      → get_elem? (opts.strings "move") 0 ≡ some w
      → (length (opts.strings "move") == 3) ≡ true
      → opts.contains "move" ≡ true
      → Returns (move_cmd fs path opts a)
  unfolding move_cmd
  move_three-Returns c d w at_c at_d at_w three there = (
    stepped a (Manager.move_wallpaper c d w a.m_state),
    rw (there, three, at_c, at_d, at_w) refl,
    move_wallpaper-IsSafe c d w a.m_state s,
  )

  move_cmd-Returns : Returns (move_cmd fs path opts a)
  unfolding move_cmd
  move_cmd-Returns = elim (Bool-cases (opts.contains "move")) [
    | inr absent ↦ ((true, a), rw absent refl, s)
    | inl there ↦ elim (Bool-cases (length (opts.strings "move") == 3)) [
      | inr other ↦ ((true, a), rw (there, other) refl, s)
      | inl three ↦
          let n : length (opts.strings "move") ≡ 3 =
            (==_iff (length (opts.strings "move")) 3).0 three in
          let (c, at_c) = get_elem?_lt (opts.strings "move") 1 (omega arith) in
          let (d, at_d) = get_elem?_lt (opts.strings "move") 2 (omega arith) in
          let (w, at_w) = get_elem?_lt (opts.strings "move") 0 (omega arith) in
          move_three-Returns c d w at_c at_d at_w three there
    ]
  ]

  validate_cmd-Ends : Ends fs LeavesSafe (validate_cmd fs path opts a)
  unfolding validate_cmd
  validate_cmd-Ends = guarded-Ends fs (opts.contains "validate") _ a s (λ _.
      >>=-Ends fs (Manager.validate_collection fs (opts.string "validate") a.m_state) _
        (validate_collection-Ends fs (opts.string "validate") a.m_state s)
        (λ r safe. inl (
          report r.0 (record a { m_state = r.1 }),
          refl,
          rw (report_state r.0 (record a { m_state = r.1 })) safe,
        )))

-- The collection commands of one command line, in their order and with their early returns: the
-- method returns and leaves a safe manager, unless the file system throws, which ends the program.
-- No element past the end of an argument list is read, no missing path is looked up, and no other
-- fault is left. The manager is safe before, and the options `create` and `remove` have at least
-- one argument where they are given.
pub collection_cmds-Ends :
    (fs : FileSystem) (path : String → WallPath) (opts : OptionMap) (a : Application)
    → IsSafe a.m_state
    → GivesOne opts "create"
    → GivesOne opts "remove"
    → Ends fs LeavesSafe (collection_cmds fs path opts a)
unfolding collection_cmds
collection_cmds-Ends fs path opts a s create remove =
    and_then-Ends fs _ _ (create_cmd-Ends fs path opts a s create) (λ a1 s1.
      and_then-Ends fs _ _ (inl (activate_cmd-Returns fs path opts a1 s1)) (λ a2 s2.
        and_then-Ends fs _ _ (inl (list_cmd-Returns fs path opts a2 s2)) (λ a3 s3.
          and_then-Ends fs _ _ (inl (add_cmd-Returns fs path opts a3 s3)) (λ a4 s4.
            and_then-Ends fs _ _ (remove_cmd-Ends fs path opts a4 s4 remove) (λ a5 s5.
              and_then-Ends fs _ _ (inl (rename_cmd-Returns fs path opts a5 s5)) (λ a6 s6.
                and_then-Ends fs _ _ (inl (merge_cmd-Returns fs path opts a6 s6)) (λ a7 s7.
                  and_then-Ends fs _ _ (inl (move_cmd-Returns fs path opts a7 s7))
                    (validate_cmd-Ends fs path opts))))))))
