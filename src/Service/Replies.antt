-- ===== src/Service/Replies.antt =====
-- What the server of src/change_service/change_server.hpp answers, and what the client of
-- src/change_app/change_client.hpp does with it.
use wallchanger.Base.{
  ℕ, Bool, true, false, if◌then◌else◌, ◌≡◌, refl, ap, sym, subst, ◌∙◌, [], ◌∷◌, ◌++◌, Option, none,
  some, length, ◌%◌, ◌^◌, Outcome, done, ◌>>=◌, Bool-cases, inl, inr, nat_ordered, bad_access,
  or_fault, Satisfies, >>=-Satisfies, Satisfies-done,
}
use wallchanger.Crc.{crc}
use wallchanger.Manager.Records.{Wall}
use wallchanger.Net.Message.{Message, push, pull, validate, finalize, validate-push, pull-push}
use wallchanger.Net.Types.{MessageType, json_to_msg, msg_to_json, msg_to_json-json_to_msg}
use wallchanger.Net.Client.{
  Shown, status, wallpaper, current, collections, ping, success, server_error, process_one, answer,
  show_json,
}
use wallchanger.Service.Library.{Library}
use wallchanger.Service.State.{
  Command, State, get_next_wallpaper, get_previous_wallpaper, list_collection, mark_favorate,
}
use wallchanger.Service.Server.{
  Json, World, blank, with_bool, sent_json, if_done, handle, m_process, on_message, previous_reply,
}

module _ {L J : Type 0} (lib : Library L) (json : Json J) (w : World)
    (back : (j : J) → json.from_cbor (json.to_cbor j) ≡ some j)
    (eight : (t : ℕ) → length (w.time_bytes t) ≡ 8) where
  -- The client processes a message, and shows something.
  abbrev pub IsProcessed : Message MessageType → Type 0
  IsProcessed m = (x : Shown J) × (process_one json.from_cbor m ≡ done (true, x))

  abbrev Sent : Option (Message MessageType) × State L → Type 0
  Sent (some m, s) = IsProcessed m
  Sent (none, s) = Unit

  -- What is sent, if anything is, is processed.
  abbrev AllProcessed : Outcome (Option (Message MessageType) × State L) → Type 0
  AllProcessed = Satisfies Sent

  valid-IsProcessed :
      (m : Message MessageType) (x : Shown J)
      → validate m ≡ true
      → answer json.from_cbor m.header.id m ≡ done (true, x)
      → IsProcessed m
  unfolding process_one
  valid-IsProcessed m x valid shown = (x, rw (valid, process_one) shown)

  success-IsProcessed : IsProcessed (with_bool w.now MessageType.Status_Success 1)
  unfolding answer push finalize
  success-IsProcessed =
      valid-IsProcessed _ success (validate-push w.now (1 ∷ []) (blank MessageType.Status_Success))
        refl

  failure-IsProcessed : IsProcessed (with_bool w.now MessageType.Status_Failure 0)
  unfolding answer push finalize
  failure-IsProcessed =
      valid-IsProcessed _ server_error
        (validate-push w.now (0 ∷ []) (blank MessageType.Status_Failure)) refl

  -- The types whose messages are shown as JSON.
  abbrev IsShown : MessageType → Type 0
  IsShown type =
      (show : J → Shown J) × ((m : Message MessageType)
        → answer json.from_cbor type m ≡ show_json json.from_cbor show m)

  sent_json-IsProcessed :
      (type : MessageType) (j : J) → IsShown type → IsProcessed (sent_json lib json w type j)
  unfolding json_to_msg finalize msg_to_json
  sent_json-IsProcessed type j (show, shown) =
      let (valid, same, sized, read) =
        msg_to_json-json_to_msg json.to_cbor json.from_cbor w.now type j (back j) in
      let m = json_to_msg json.to_cbor json.from_cbor w.now type j in
      valid-IsProcessed m (show j) valid (shown m ∙ (rw (back j) refl))

  ping-IsProcessed :
      (msg : Message MessageType)
      → msg.header.id ≡ MessageType.Server_GetPing
      → IsProcessed (push w.now (w.time_bytes msg.time) msg)
  unfolding answer push finalize
  ping-IsProcessed msg h =
      let bytes = w.time_bytes msg.time in
      let m = push w.now bytes msg in
      let rest : Message MessageType = record msg {
        header = record msg.header {
          size = length msg.body % 2 ^ 32;
          hash = crc (msg.body ++ bytes);
        };
        time = w.now;
      } in
      let pulled =
        subst (λ n. pull n m ≡ done (some bytes, rest)) (eight msg.time)
          (pull-push w.now bytes msg) in
      valid-IsProcessed m (ping (some bytes)) (validate-push w.now bytes msg) (
        subst (λ t. answer json.from_cbor t m ≡ done (true, ping (some bytes))) (sym h)
          (ap (λ o. o >>= λ r. done (true, ping r.0)) pulled))

  if_done-AllProcessed : (o : Outcome (Bool × State L)) → AllProcessed (if_done lib json w o)
  if_done-AllProcessed o = >>=-Satisfies Sent o _ (λ r. go r.0 r.1)
    where
      go :
          (b : Bool) (s : State L)
          → AllProcessed
              (done (if b then some (with_bool w.now MessageType.Status_Success 1) else none, s))
      go true s = success-IsProcessed
      go false s = tt

  handle-AllProcessed :
      (type : MessageType) (msg : Message MessageType) (cmd : Command) (s : State L)
      → msg.header.id ≡ type
      → AllProcessed (handle lib json w type msg cmd s)
  unfolding handle answer
  handle-AllProcessed MessageType.Get_Next_Wallpaper msg cmd s h =
      >>=-Satisfies Sent (get_next_wallpaper lib w.draws s) _
        (λ r. sent_json-IsProcessed MessageType.Get_Next_Wallpaper _ (wallpaper, λ m. refl))
  handle-AllProcessed MessageType.Get_Previous_Wallpaper msg cmd s h =
      go (get_previous_wallpaper lib s).0 (get_previous_wallpaper lib s).1
    where
      go : (prev : Option Wall) (s : State L) → AllProcessed (previous_reply lib json w prev s)
      go none s = failure-IsProcessed
      go (some p) s =
          sent_json-IsProcessed MessageType.Get_Previous_Wallpaper _ (wallpaper, λ m. refl)
  handle-AllProcessed MessageType.Get_Current msg cmd s h =
      >>=-Satisfies Sent (get_next_wallpaper lib w.draws s) _
        (λ r. sent_json-IsProcessed MessageType.Get_Current _ (current, λ m. refl))
  handle-AllProcessed MessageType.Mark_Favorate msg cmd s h =
      >>=-Satisfies Sent (mark_favorate lib s) _ (λ s'. success-IsProcessed)
  handle-AllProcessed MessageType.Change_Active_Collection msg cmd s h = if_done-AllProcessed _
  handle-AllProcessed MessageType.Create_Collection msg cmd s h = if_done-AllProcessed _
  handle-AllProcessed MessageType.Add_To_Collection msg cmd s h = if_done-AllProcessed _
  handle-AllProcessed MessageType.Rename_Collection msg cmd s h = if_done-AllProcessed _
  handle-AllProcessed MessageType.remove msg cmd s h = if_done-AllProcessed _
  handle-AllProcessed MessageType.List_Collections msg cmd s h =
      >>=-Satisfies Sent (list_collection lib cmd s) _
        (λ l. sent_json-IsProcessed MessageType.List_Collections _ (collections, λ m. refl))
  handle-AllProcessed MessageType.Merge_Collection msg cmd s h = if_done-AllProcessed _
  handle-AllProcessed MessageType.move msg cmd s h = if_done-AllProcessed _
  handle-AllProcessed MessageType.Server_GetStatus msg cmd s h =
      sent_json-IsProcessed MessageType.Server_GetStatus _ (status, λ m. refl)
  handle-AllProcessed MessageType.Server_GetPing msg cmd s h = ping-IsProcessed msg h
  handle-AllProcessed _ msg cmd s h = tt

  -- Whatever a client requests, in whatever state: what the server sends to it, if it sends
  -- anything, is valid and of a type that the client processes, so that its loop ends. A JSON value
  -- is read back from its binary form, and a time point has eight bytes.
  pub on_message-IsProcessed :
      (msg m : Message MessageType) (s s' : State L)
      → on_message lib json w msg s ≡ done (some m, s')
      → IsProcessed m
  unfolding on_message m_process
  on_message-IsProcessed msg m s s' h =
      Satisfies-done Sent _ (some m, s')
        (elim (Bool-cases (validate msg)) [
          | inl valid ↦
              rw (valid, on_message)
                (>>=-Satisfies Sent
                  (or_fault bad_access (msg_to_json json.to_cbor json.from_cbor msg)) _
                  (λ cmd. handle-AllProcessed msg.header.id msg (json.command cmd) s refl))
          | inr corrupted ↦ rw (corrupted, on_message) tt
        ])
        h
