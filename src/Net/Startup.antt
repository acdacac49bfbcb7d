-- ===== src/Net/Startup.antt =====
-- A connection and a client right after their constructors: src/change_lib/net/connection.hpp and
-- src/change_app/change_client.hpp. The handler of `async_connect` is called by the thread of the
-- context, which `connect` makes, before the constructor has returned or later.
use wallchanger.Base.{
  ℕ, Bool, true, false, not, ◌&&◌, ◌≡◌, refl, List, [], ◌∷◌, Option, none, some, if◌then◌else◌,
  Outcome, done, ◌>>=◌,
}
use wallchanger.Net.Message.{Message}
use wallchanger.Net.Connection.{
  Connection, OwnedMessage, Owner, Posted, sending, client, idle, on_connected, disconnect,
}
use wallchanger.Net.Connection
use wallchanger.Net.Types.{MessageType}
use wallchanger.Net.Reached.{Fresh}
use wallchanger.Net.Client.{
  ClientInterface, Shown, is_connected, send_message, ping_server, get_server_status, request, run,
}
use wallchanger.Net.Lifetime.{connect}

-- `message<T>{}`, with the first type.
abbrev pub blank_message : {T : Type 0} → T → Message T
blank_message id = record { header = record { id = id; size = 0; hash = 0 }; time = 0; body = [] }

-- The owner, the identity of the object, whether the socket is open, and the queue that it shares.
unfoldable pub new_connection :
    {T : Type 0} → T → Owner → ℕ → Bool → List (OwnedMessage T) → Connection T
new_connection id parent self is_open incomming = record {
  self = self;
  m_open = is_open;
  m_outbound = [];
  m_incomming = incomming;
  m_temp_in = blank_message id;
  m_id = 0;
  m_owner = parent;
  m_connected = false;
  reading = idle;
  writing = idle;
  posted = [];
  sent = [];
  unfinished = [];
}

-- A new connection is one that the theorems on connections begin with.
new_connection-Fresh :
    {T : Type 0} (id : T) (parent : Owner) (self : ℕ) (is_open : Bool)
    (incomming : List (OwnedMessage T))
    → Fresh (new_connection id parent self is_open incomming)
unfolding new_connection
new_connection-Fresh id parent self is_open incomming = (refl, refl, refl, refl)

abbrev pub fresh_client : {T : Type 0} → ClientInterface T
fresh_client = record { m_connection = none; stopped = false; running = false }

-- The handler of `async_connect`, where the thread of the context has called it, with its result.
abbrev pub after_handler : {T : Type 0} → Option Bool → ClientInterface T → ClientInterface T
after_handler none c = c
after_handler (some ok) c = elim c.m_connection [
  | none ↦ c
  | some con ↦ record c { m_connection = some (on_connected ok con) }
]

-- The constructor: `m_active`, and the client. `async_connect` opens the socket, and the thread may
-- call its handler before the constructor returns, or later (`none`).
unfoldable pub change_client :
    Bool → Bool → Option Bool → ℕ → Outcome (Bool × ClientInterface MessageType)
unfolding new_connection connect
change_client resolve_throws thread_throws handled self =
    connect resolve_throws thread_throws
      (new_connection MessageType.Server_GetStatus client self true []) fresh_client
    >>= λ r. done (r.0, if r.0 then after_handler handled r.1 else r.1)

abbrev pub in_time : Option Bool → Bool
in_time (some true) = true
in_time _ = false

abbrev pub posted_of : {T : Type 0} → ClientInterface T → List (Posted T)
posted_of c = elim c.m_connection [ none ↦ [] | some con ↦ con.posted ]

module _ {Json : Type 0} (from_cbor : List ℕ → Option Json) where
  -- `run` while the connection stays as it is: what is left of the messages, and what was shown.
  unfoldable pub run_client :
      ClientInterface MessageType
      → List (OwnedMessage MessageType)
      → Outcome (List (OwnedMessage MessageType) × List (Shown Json))
  run_client c queue = if is_connected c then run from_cbor queue else done (queue, [])

  -- What the client does right after its constructor, by whether it is connected.
  abbrev pub Early :
      Bool → ℕ → List (OwnedMessage MessageType) → ClientInterface MessageType → Type 0
  Early up now queue c =
      (is_connected c ≡ up)
      × (posted_of (ping_server now c)
          ≡ (if up then sending (request now MessageType.Server_GetPing) ∷ [] else []))
      × (posted_of (get_server_status now c)
          ≡ (if up then sending (request now MessageType.Server_GetStatus) ∷ [] else []))
      × (run_client c queue ≡ (if up then run from_cbor queue else done (queue, [])))

  -- The constructor returns, and the client is active if the host was resolved and the thread made.
  -- It is connected only if besides the handler of `async_connect` has run by then, and without an
  -- error. Then a request is posted and `run` handles the messages; in every other case, active or
  -- not, the request is dropped without a word, and `run` ends at once and leaves every message:
  -- the constructor only begins to connect, and nothing waits for the end of it.
  pub change_client-Early :
      (resolve_throws thread_throws : Bool) (handled : Option Bool) (self now : ℕ)
      (queue : List (OwnedMessage MessageType))
      → (c : ClientInterface MessageType) × (change_client resolve_throws thread_throws handled self
          ≡ done (not resolve_throws && not thread_throws, c))
        × Early (not resolve_throws && not thread_throws && in_time handled) now queue c
  unfolding change_client connect new_connection ping_server get_server_status send_message
      run_client on_connected Connection.send_message disconnect
  change_client-Early true t handled self now queue = (_, refl, (refl, refl, refl, refl))
  change_client-Early false true handled self now queue = (_, refl, (refl, refl, refl, refl))
  change_client-Early false false none self now queue = (_, refl, (refl, refl, refl, refl))
  change_client-Early false false (some true) self now queue = (_, refl, (refl, refl, refl, refl))
  change_client-Early false false (some false) self now queue = (_, refl, (refl, refl, refl, refl))
