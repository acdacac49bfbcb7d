-- ===== src/Service/Server.antt =====
-- src/change_service/change_server.hpp over the state of change_state.cpp. The conversions of JSON
-- and the clock are parameters; what is sent to the client is a value.
use wallchanger.Base.{
  ℕ, Bool, true, false, List, [], ◌∷◌, String, Option, none, some, if◌then◌else◌, Outcome, done,
  bad_access, or_fault, ◌>>=◌, ◌-◌,
}
use wallchanger.Cache.{Cache}
use wallchanger.Manager.Records.{Wall}
use wallchanger.Net.Message.{Message, push, validate}
use wallchanger.Net.Types.{MessageType, json_to_msg, msg_to_json}
use wallchanger.Service.Library.{Library}
use wallchanger.Service.State.{
  Command, Directories, State, Listing, collection, names, mark_favorate, get_next_wallpaper,
  get_previous_wallpaper, change_active, rename_collection, create_collection, add_to_collection,
  list_collection, move_collectoion, merge_collection, remove_collection,
}

-- The JSON library: the binary form, what is read of an object, and the objects that are built.
pub record Json (J : Type 0) : Type 0 where
  pub to_cbor : J → List ℕ
  pub from_cbor : List ℕ → Option J
  pub command : J → Command
  pub of_wall : Wall → J
  -- "list" and "list-only".
  pub of_collection : Cache String → Bool → J
  pub of_names : List String → Bool → J
  -- "connections" and "uptime".
  pub of_status : ℕ → ℕ → J

-- What a call of the server meets: the numbers drawn, the directories, the clock, and the list of
-- connections. A time point is eight bytes.
pub record World : Type 0 where
  pub draws : List ℕ
  pub directories : Directories
  pub now : ℕ
  pub start_time : ℕ
  pub connections : ℕ
  pub time_bytes : ℕ → List ℕ

abbrev pub blank : MessageType → Message MessageType
blank type = record { header = record { id = type; size = 0; hash = 0 }; time = 0; body = [] }

-- A message with one byte, of a `bool`.
abbrev pub with_bool : ℕ → MessageType → ℕ → Message MessageType
with_bool now type byte = push now (byte ∷ []) (blank type)

abbrev pub m_success : ℕ → Message MessageType
m_success now = with_bool now MessageType.Status_Success 1

-- `on_client_connect`: what is sent, and that the client may stay.
abbrev pub on_client_connect : ℕ → Bool × Message MessageType
on_client_connect now = (true, with_bool now MessageType.Client_Accepted 1)

module _ {L J : Type 0} (lib : Library L) (json : Json J) (w : World) where
  -- What is sent to the client, at most one message, and the state after the call.
  abbrev pub Reply : Type 0
  Reply = Outcome (Option (Message MessageType) × State L)

  abbrev pub sent_json : MessageType → J → Message MessageType
  sent_json type j = json_to_msg json.to_cbor json.from_cbor w.now type j

  -- `if (m_state...(server_cmd)) { client->send_message(m_success()); }`
  abbrev pub if_done : Outcome (Bool × State L) → Reply
  if_done o = o >>= λ r. done (if r.0 then some (m_success w.now) else none, r.1)

  abbrev pub listing : Listing → J
  listing (collection c) = json.of_collection c false
  listing (names l) = json.of_names l true

  abbrev pub previous_reply : Option Wall → State L → Reply
  previous_reply none s = done (some (with_bool w.now MessageType.Status_Failure 0), s)
  previous_reply (some previous) s =
      done (some (sent_json MessageType.Get_Previous_Wallpaper (json.of_wall previous)), s)

  -- The `switch`.
  unfoldable pub handle : MessageType → Message MessageType → Command → State L → Reply
  unfolding get_previous_wallpaper
  handle MessageType.Get_Next_Wallpaper msg cmd s = get_next_wallpaper lib w.draws s >>= λ r.
      done (some (sent_json MessageType.Get_Next_Wallpaper (json.of_wall r.0)), r.1)
  handle MessageType.Get_Previous_Wallpaper msg cmd s =
      let (prev, s') = get_previous_wallpaper lib s in previous_reply prev s'
  handle MessageType.Get_Current msg cmd s = get_next_wallpaper lib w.draws s >>= λ r.
      done (some (sent_json MessageType.Get_Current (json.of_wall r.0)), r.1)
  handle MessageType.Mark_Favorate msg cmd s =
      mark_favorate lib s >>= λ s'. done (some (m_success w.now), s')
  handle MessageType.Change_Active_Collection msg cmd s = if_done (change_active lib cmd s)
  handle MessageType.Create_Collection msg cmd s =
      if_done (create_collection lib w.directories cmd s)
  handle MessageType.Add_To_Collection msg cmd s = if_done (add_to_collection lib cmd s)
  handle MessageType.Rename_Collection msg cmd s = if_done (rename_collection lib cmd s)
  handle MessageType.remove msg cmd s = if_done (remove_collection lib cmd s)
  handle MessageType.List_Collections msg cmd s = list_collection lib cmd s >>= λ l.
      done (some (sent_json MessageType.List_Collections (listing l)), s)
  handle MessageType.Merge_Collection msg cmd s = if_done (merge_collection lib cmd s)
  handle MessageType.move msg cmd s = if_done (move_collectoion lib cmd s)
  handle MessageType.Server_GetStatus msg cmd s = done (
    some (
        sent_json MessageType.Server_GetStatus
          (json.of_status w.connections (w.now - w.start_time))),
    s,
  )
  handle MessageType.Server_GetPing msg cmd s =
      done (some (push w.now (w.time_bytes msg.time) msg), s)
  handle _ msg cmd s = done (none, s)

  unfoldable pub m_process : MessageType → Message MessageType → State L → Reply
  unfolding handle
  m_process type msg s =
      or_fault bad_access (msg_to_json json.to_cbor json.from_cbor msg) >>= λ server_cmd.
      handle type msg (json.command server_cmd) s

  -- A message that is not valid is logged.
  unfoldable pub on_message : Message MessageType → State L → Reply
  unfolding m_process
  on_message msg s = if validate msg then m_process msg.header.id msg s else done (none, s)
