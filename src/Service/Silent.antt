-- ===== src/Service/Silent.antt =====
-- The requests that src/change_service/change_server.hpp leaves without an answer, and the marks
-- that src/change_service/change_state.cpp does not keep.
use wallchanger.Base.{
  Bool, true, false, if◌then◌else◌, ◌≡◌, refl, ◌∙◌, is_some, not, Option, none, some, Outcome, done,
  fault, ◌>>=◌, or_fault, bad_access, Satisfies, >>=-Satisfies, >>=-Satisfies_of, Satisfies-done,
  Bool-cases, inl, inr, String,
}
use wallchanger.Cache.{Cache, empty_cache}
use wallchanger.Manager.Records.{Wall}
use wallchanger.Net.Message.{Message, validate}
use wallchanger.Net.Types.{MessageType, msg_to_json}
use wallchanger.Service.Library.{Library}
use wallchanger.Service.State.{
  Command, Directories, State, get_next_wallpaper, get_previous_wallpaper, list_collection,
  mark_favorate, change_active, rename_collection, create_collection, add_to_collection,
  move_collectoion, merge_collection, remove_collection, fill, with_library, listed,
}
use wallchanger.Service.Server.{Json, World, if_done, handle, m_process, on_message, previous_reply}

module _ {L J : Type 0} (lib : Library L) (json : Json J) (w : World) (s : State L) where
  -- The collections and the history are those of before.
  abbrev pub Same : State L → Type 0
  Same s' = (s'.m_cache ≡ s.m_cache) × (s'.m_previous ≡ s.m_previous)

  abbrev Failed : Bool × State L → Type 0
  Failed (true, s') = Unit
  Failed (false, s') = Same s'

  abbrev Silent : Option (Message MessageType) × State L → Type 0
  Silent (some m, s') = Unit
  Silent (none, s') = Same s'

  if_done-Silent :
      (o : Outcome (Bool × State L)) → Satisfies Failed o → Satisfies Silent (if_done lib json w o)
  if_done-Silent (done (true, s')) h = tt
  if_done-Silent (done (false, s')) h = h
  if_done-Silent (fault e) h = tt

  call-Failed :
      (before : State L) (r : Bool × L)
      → before.m_cache ≡ s.m_cache
      → before.m_previous ≡ s.m_previous
      → (r.0 ≡ false → r.1 ≡ before.m_cache)
      → Failed (with_library lib before r)
  call-Failed before (true, l) c p h = tt
  call-Failed before (false, l) c p h = (h refl ∙ c, p)

  change_active-Failed : (cmd : Command) → Satisfies Failed (change_active lib cmd s)
  unfolding change_active
  change_active-Failed cmd =
      >>=-Satisfies Failed (or_fault bad_access (cmd.text "new_active_name")) _
        (λ name. go name (lib.change_active name s.m_cache) refl)
    where
      go :
          (name : String) (o : Outcome (Bool × L))
          → lib.change_active name s.m_cache ≡ o
          → Satisfies Failed (o >>= λ r. done (with_library lib s r))
      go name (done (true, l)) e = tt
      go name (done (false, l)) e = (lib.change_active-false name s.m_cache l e, refl)
      go name (fault x) e = tt

  rename-Failed : (cmd : Command) → Satisfies Failed (rename_collection lib cmd s)
  unfolding rename_collection
  rename-Failed cmd = >>=-Satisfies Failed (or_fault bad_access (cmd.text "col_name")) _ (λ from.
      >>=-Satisfies Failed (or_fault bad_access (cmd.text "col_name_new")) _ (λ to.
        call-Failed s (lib.rename_store from to s.m_cache) refl refl
          (lib.rename_store-false from to s.m_cache)))

  merge-Failed : (cmd : Command) → Satisfies Failed (merge_collection lib cmd s)
  unfolding merge_collection
  merge-Failed cmd = >>=-Satisfies Failed (or_fault bad_access (cmd.text "col1")) _ (λ a.
      >>=-Satisfies Failed (or_fault bad_access (cmd.text "col2")) _ (λ b.
        call-Failed s (lib.merge_cache a b s.m_cache) refl refl
          (lib.merge_cache-false a b s.m_cache)))

  move-Failed : (cmd : Command) → Satisfies Failed (move_collectoion lib cmd s)
  unfolding move_collectoion
  move-Failed cmd = >>=-Satisfies Failed (or_fault bad_access (cmd.text "col_cur")) _ (λ a.
      >>=-Satisfies Failed (or_fault bad_access (cmd.text "col_new")) _ (λ b.
        >>=-Satisfies Failed (or_fault bad_access (cmd.text "wall")) _ (λ x.
          call-Failed s (lib.move_cache_item a b x s.m_cache) refl refl
            (lib.move_cache_item-false a b x s.m_cache))))

  remove-Failed : (cmd : Command) → Satisfies Failed (remove_collection lib cmd s)
  unfolding remove_collection
  remove-Failed cmd =
      >>=-Satisfies Failed (or_fault bad_access (cmd.flag "wall_only")) _ (λ wall_only.
        >>=-Satisfies Failed (or_fault bad_access (cmd.text "col")) _
          (λ col. go wall_only (is_some (lib.get_cache col s.m_cache)) col))
    where
      go :
          (wall_only found : Bool) (col : String)
          → Failed (if wall_only then (found, s) else with_library lib s (lib.remove col s.m_cache))
      go true true col = tt
      go true false col = (refl, refl)
      go false found col =
          call-Failed s (lib.remove col s.m_cache) refl refl (lib.remove-false col s.m_cache)

  add-Failed : (cmd : Command) → Satisfies Failed (add_to_collection lib cmd s)
  unfolding add_to_collection
  add-Failed cmd = >>=-Satisfies Failed (or_fault bad_access (cmd.text "col_name")) _ (λ col_name.
      >>=-Satisfies Failed (or_fault bad_access (cmd.path "wall")) _
        (λ wall. go (is_some (lib.get_cache col_name s.m_cache)) _))
    where
      go : (found : Bool) (s' : State L) → Failed (if found then (true, s') else (false, s))
      go true s' = tt
      go false s' = (refl, refl)

  create-Failed :
      (fs : Directories) (cmd : Command) → Satisfies Failed (create_collection lib fs cmd s)
  unfolding create_collection fill
  create-Failed fs cmd =
      >>=-Satisfies Failed (or_fault bad_access (cmd.flag "col_empty")) _ (λ empty.
        >>=-Satisfies_of Failed (if not empty then fill lib fs cmd s else done (empty_cache, s))
          inserted (filled empty))
    where
      inserted : Cache String × State L → Outcome (Bool × State L)
      inserted r = or_fault bad_access (cmd.text "new_col_name") >>= λ name.
          done (with_library lib r.1 (lib.insert name r.0 r.1.m_cache))

      keeps :
          (c : Cache String) (before : State L)
          → before.m_cache ≡ s.m_cache
          → before.m_previous ≡ s.m_previous
          → Satisfies Failed (inserted (c, before))
      keeps c before k p =
          >>=-Satisfies Failed (or_fault bad_access (cmd.text "new_col_name")) _ (λ name.
            call-Failed before (lib.insert name c before.m_cache) k p
              (lib.insert-false name c before.m_cache))

      Fails : Cache String × State L → Type 0
      Fails r = Satisfies Failed (inserted r)

      filled :
          (empty : Bool)
          → Satisfies Fails (if not empty then fill lib fs cmd s else done (empty_cache, s))
      filled true = keeps empty_cache s refl refl
      filled false = >>=-Satisfies Fails (or_fault bad_access (cmd.text "col_path")) _ (λ path.
          >>=-Satisfies Fails (or_fault bad_access (cmd.flag "recursive")) _ (λ recursive.
            >>=-Satisfies Fails (or_fault bad_access (listed lib fs path recursive)) _
              (λ entries. keeps _ _ refl refl)))

  handle-Silent :
      (type : MessageType) (msg : Message MessageType) (cmd : Command)
      → Satisfies Silent (handle lib json w type msg cmd s)
  unfolding handle
  handle-Silent MessageType.Get_Next_Wallpaper msg cmd =
      >>=-Satisfies Silent (get_next_wallpaper lib w.draws s) _ (λ r. tt)
  handle-Silent MessageType.Get_Previous_Wallpaper msg cmd =
      go (get_previous_wallpaper lib s).0 (get_previous_wallpaper lib s).1
    where
      go :
          (prev : Option Wall) (s' : State L) → Satisfies Silent (previous_reply lib json w prev s')
      go none s' = tt
      go (some p) s' = tt
  handle-Silent MessageType.Get_Current msg cmd =
      >>=-Satisfies Silent (get_next_wallpaper lib w.draws s) _ (λ r. tt)
  handle-Silent MessageType.Mark_Favorate msg cmd =
      >>=-Satisfies Silent (mark_favorate lib s) _ (λ s'. tt)
  handle-Silent MessageType.Change_Active_Collection msg cmd =
      if_done-Silent (change_active lib cmd s) (change_active-Failed cmd)
  handle-Silent MessageType.Create_Collection msg cmd =
      if_done-Silent (create_collection lib w.directories cmd s) (create-Failed w.directories cmd)
  handle-Silent MessageType.Add_To_Collection msg cmd =
      if_done-Silent (add_to_collection lib cmd s) (add-Failed cmd)
  handle-Silent MessageType.Rename_Collection msg cmd =
      if_done-Silent (rename_collection lib cmd s) (rename-Failed cmd)
  handle-Silent MessageType.remove msg cmd =
      if_done-Silent (remove_collection lib cmd s) (remove-Failed cmd)
  handle-Silent MessageType.List_Collections msg cmd =
      >>=-Satisfies Silent (list_collection lib cmd s) _ (λ l. tt)
  handle-Silent MessageType.Merge_Collection msg cmd =
      if_done-Silent (merge_collection lib cmd s) (merge-Failed cmd)
  handle-Silent MessageType.move msg cmd =
      if_done-Silent (move_collectoion lib cmd s) (move-Failed cmd)
  handle-Silent MessageType.Server_GetStatus msg cmd = tt
  handle-Silent MessageType.Server_GetPing msg cmd = tt
  handle-Silent _ msg cmd = (refl, refl)

  -- A message that gets no answer, corrupted, of a type without one, or a request that failed,
  -- leaves the collections and the history as they were.
  pub on_message-Silent :
      (msg : Message MessageType) (s' : State L)
      → on_message lib json w msg s ≡ done (none, s')
      → Same s'
  unfolding on_message m_process
  on_message-Silent msg s' h =
      Satisfies-done Silent _ (none, s')
        (elim (Bool-cases (validate msg)) [
          | inl valid ↦
              rw (valid, on_message)
                (>>=-Satisfies Silent
                  (or_fault bad_access (msg_to_json json.to_cbor json.from_cbor msg)) _
                  (λ cmd. handle-Silent msg.header.id msg (json.command cmd)))
          | inr corrupted ↦ rw (corrupted, on_message) (refl, refl)
        ])
        h
