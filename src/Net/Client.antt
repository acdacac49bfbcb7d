-- ===== src/Net/Client.antt =====
-- src/change_lib/net/client_interface.hpp and src/change_app/change_client.hpp: the client, and
-- what it does with the answers of the server. What it prints or shows is a value.
use wallchanger.Base.{
  ℕ, Bool, true, false, ◌≡◌, refl, List, [], ◌∷◌, ◌++◌, Option, none, some, if◌then◌else◌, Outcome,
  done, bad_access, or_fault, ◌>>=◌,
}
use wallchanger.Net.Message.{Message, push, pull, validate}
use wallchanger.Net.Connection.{Connection, OwnedMessage}
use wallchanger.Net.Connection
use wallchanger.Net.Types.{MessageType, msg_to_json}

pub record ClientInterface (T : Type 0) : Type 0 where
  pub m_connection : Option (Connection T)
  -- Whether the context is stopped, and whether the thread is joinable.
  pub stopped : Bool
  pub running : Bool

module _ {T : Type 0} where
  abbrev pub is_connected : ClientInterface T → Bool
  is_connected c = elim c.m_connection [ none ↦ false | some con ↦ Connection.is_connected con ]

  unfoldable pub send_message : Message T → ClientInterface T → ClientInterface T
  send_message msg c = elim c.m_connection [
    | none ↦ c
    | some con ↦
        if Connection.is_connected con
        then record c { m_connection = some (Connection.send_message msg con) }
        else c
  ]

  -- `disconnect`: the pointer is released, and with it the connection as it then is.
  unfoldable pub disconnect : ClientInterface T → ClientInterface T × Option (Connection T)
  disconnect c = (
    record c { m_connection = none; stopped = true; running = false },
    elim c.m_connection [
      | none ↦ none
      | some con ↦ some (if Connection.is_connected con then Connection.disconnect con else con)
    ],
  )

-- The requests of `ping_server` and `get_server_status`; `true` is one byte.
abbrev pub request : ℕ → MessageType → Message MessageType
request now type =
    push now (1 ∷ [])
      (record { header = record { id = type; size = 0; hash = 0 }; time = 0; body = [] })

unfoldable pub ping_server : ℕ → ClientInterface MessageType → ClientInterface MessageType
ping_server now c = send_message (request now MessageType.Server_GetPing) c

unfoldable pub get_server_status : ℕ → ClientInterface MessageType → ClientInterface MessageType
get_server_status now c = send_message (request now MessageType.Server_GetStatus) c

-- What the client does with one message.
pub data Shown (Json : Type 0) : Type 0 where
  status wallpaper current collections : Json → Shown Json
  -- The bytes of the time point that are read, if the message is valid.
  ping : Option (List ℕ) → Shown Json
  success server_error corrupted ignored : Shown Json

module _ {Json : Type 0} (from_cbor : List ℕ → Option Json) where
  abbrev pub show_json : (Json → Shown Json) → Message MessageType → Outcome (Bool × Shown Json)
  show_json show msg =
      or_fault bad_access (msg_to_json (λ j. []) from_cbor msg) >>= λ j. done (true, show j)

  -- The `switch`: whether the message is processed, and what is shown. `from_cbor` throws on bytes
  -- that are no JSON value. A time point has eight bytes.
  unfoldable pub answer : MessageType → Message MessageType → Outcome (Bool × Shown Json)
  unfolding pull
  answer MessageType.Server_GetStatus msg = show_json status msg
  answer MessageType.Server_GetPing msg = pull 8 msg >>= λ r. done (true, ping r.0)
  answer MessageType.Status_Success msg = done (true, success)
  answer MessageType.Status_Failure msg = done (true, server_error)
  answer MessageType.Get_Next_Wallpaper msg = show_json wallpaper msg
  answer MessageType.Get_Previous_Wallpaper msg = show_json wallpaper msg
  answer MessageType.Get_Current msg = show_json current msg
  answer MessageType.List_Collections msg = show_json collections msg
  answer _ msg = done (false, ignored)

  -- One message of the queue.
  unfoldable pub process_one : Message MessageType → Outcome (Bool × Shown Json)
  unfolding answer
  process_one msg = if validate msg then answer msg.header.id msg else done (false, corrupted)

  -- `run` over the messages that come in: `m_processing` is false after one that is processed. What
  -- is left of the queue, and what was shown.
  unfoldable pub run :
      List (OwnedMessage MessageType)
      → Outcome (List (OwnedMessage MessageType) × List (Shown Json))
  run [] = done ([], [])
  run (m ∷ queue) =
      let rest = run queue in
      process_one m.msg >>= λ r.
      if r.0 then done (queue, r.1 ∷ []) else rest >>= λ s. done (s.0, r.1 ∷ s.1)

  -- Messages that end nothing.
  abbrev pub Passed : List (OwnedMessage MessageType) → List (Shown Json) → Type 0
  Passed [] [] = Unit {0}
  Passed (m ∷ ms) (x ∷ xs) = (process_one m.msg ≡ done (false, x)) × Passed ms xs
  Passed _ _ = ⊥

  -- The client goes on over messages that are corrupted or of types without an answer, and ends at
  -- the first message that is processed: the messages behind it stay in the queue.
  pub run-append :
      (before after : List (OwnedMessage MessageType)) (xs : List (Shown Json))
      (m : OwnedMessage MessageType) (x : Shown Json)
      → Passed before xs
      → process_one m.msg ≡ done (true, x)
      → run (before ++ m ∷ after) ≡ done (after, xs ++ x ∷ [])
  unfolding run
  run-append [] after [] m x p h = rw h refl
  run-append [] after (y ∷ ys) m x p h = absurd p
  run-append (b ∷ before) after [] m x p h = absurd p
  run-append (b ∷ before) after (y ∷ ys) m x p h =
      rw (p.0, run-append before after ys m x p.1 h) refl
