-- ===== src/Net/Connection.antt =====
-- src/change_lib/net/connection.hpp. An operation that asio has started is a field, and its
-- completion handler a function of the error code; a function given to `asio::post` waits in
-- `posted`. `sent` are the buffers that the socket has taken whole, and `unfinished` is the one
-- whose write ended with an error: the socket may have taken some bytes of it, from its beginning.
use wallchanger.Base.{
  ℕ, Bool, true, false, ◌&&◌, List, [], ◌∷◌, ◌++◌, Option, none, some, if◌then◌else◌, ltb, length,
  take, replicate, get_elem?, Outcome, done, fault, past_end, or_fault, ◌>>=◌,
}
use wallchanger.Net.Message.{Message, MessageHeader}

pub data Owner : Type 0 where
  server client : Owner

-- The operation in progress on one direction of the socket.
pub data Pending : Type 0 where
  idle header body : Pending

-- One buffer that is written.
pub data Frame (T : Type 0) : Type 0 where
  head : MessageHeader T → Frame T
  payload : List ℕ → Frame T

pub data Posted (T : Type 0) : Type 0 where
  close : Posted T
  sending : Message T → Posted T

pub record OwnedMessage (T : Type 0) : Type 0 where
  -- The connection that `remote` points to, by its identity; `none` is the null pointer.
  pub remote : Option ℕ
  pub msg : Message T

pub record Connection (T : Type 0) : Type 0 where
  pub self : ℕ
  pub m_open : Bool
  pub m_outbound : List (Message T)
  pub m_incomming : List (OwnedMessage T)
  pub m_temp_in : Message T
  pub m_id : ℕ
  pub m_owner : Owner
  pub m_connected : Bool
  pub reading : Pending
  pub writing : Pending
  pub posted : List (Posted T)
  pub sent : List (Frame T)
  pub unfinished : List (Frame T)

abbrev pub is_server : Owner → Bool
is_server server = true
is_server client = false

abbrev pub no_messages {ℓ} : {A : Type ℓ} → List A → Bool
no_messages [] = true
no_messages (x ∷ xs) = false

-- `resize` of a body: cut, or filled with zeros.
abbrev pub resize : ℕ → List ℕ → List ℕ
resize n bytes = take n (bytes ++ replicate n 0)

module _ {T : Type 0} where
  abbrev pub is_connected : Connection T → Bool
  is_connected c = c.m_open && c.m_connected

  unfoldable pub disconnect : Connection T → Connection T
  disconnect c =
      if is_connected c
      then record c { m_connected = false; posted = c.posted ++ close ∷ [] }
      else c

  unfoldable pub send_message : Message T → Connection T → Connection T
  send_message msg c =
      if is_connected c then record c { posted = c.posted ++ sending msg ∷ [] } else c

  abbrev pub read_header : Connection T → Connection T
  read_header c = record c { reading = header }

  abbrev pub read_body : Connection T → Connection T
  read_body c = record c { reading = body }

  unfoldable pub connect_to_client : ℕ → Connection T → Connection T
  connect_to_client id c =
      if is_server c.m_owner
      then if c.m_open then read_header (record c { m_connected = true; m_id = id }) else c
      else c

  -- The handler of `connect_to_server`: whether there was no error.
  unfoldable pub on_connected : Bool → Connection T → Connection T
  unfolding disconnect
  on_connected true c = read_header (record c { m_connected = true })
  on_connected false c = disconnect (record c { m_connected = false })

  unfoldable pub add_to_incomming : Connection T → Connection T
  add_to_incomming c = read_header (record c {
    m_incomming =
        c.m_incomming
        ++ record { remote = if is_server c.m_owner then some c.self else none; msg = c.m_temp_in }
          ∷ [];
  })

  -- The handler of `read_header`: the header that came, or an error.
  unfoldable pub on_header_read : Option (MessageHeader T) → Connection T → Connection T
  unfolding disconnect add_to_incomming
  on_header_read none c = disconnect (record c { reading = idle })
  on_header_read (some h) c =
      if ltb 0 h.size
      then read_body (record c {
        m_temp_in = record c.m_temp_in { header = h; body = resize h.size c.m_temp_in.body };
      })
      else add_to_incomming (record c { m_temp_in = record c.m_temp_in { header = h } })

  -- The handler of `read_body`: as many bytes as the body has, or an error.
  unfoldable pub on_body_read : Option (List ℕ) → Connection T → Connection T
  unfolding disconnect add_to_incomming
  on_body_read none c = disconnect (record c { reading = idle })
  on_body_read (some bytes) c =
      add_to_incomming (record c { m_temp_in = record c.m_temp_in { body = bytes } })

  -- `m_outbound.front()` of an empty deque has no element.
  unfoldable pub write_header : Connection T → Outcome (Connection T)
  write_header c =
      or_fault past_end (get_elem? c.m_outbound 0) >>= λ _. done (record c { writing = header })

  -- `pop_front`, and the next header if there is a message left.
  unfoldable pub pop_and_next : Connection T → Outcome (Connection T)
  unfolding write_header
  pop_and_next c = elim c.m_outbound [
    | [] ↦ fault past_end
    | m ∷ rest ↦
        if no_messages rest
        then done (record c { m_outbound = rest; writing = idle })
        else write_header (record c { m_outbound = rest })
  ]

  -- The buffer that a write in progress takes, if the queue has a message.
  abbrev pub front_header : List (Message T) → List (Frame T)
  front_header [] = []
  front_header (m ∷ ms) = head m.header ∷ []

  abbrev pub front_body : List (Message T) → List (Frame T)
  front_body [] = []
  front_body (m ∷ ms) = payload m.body ∷ []

  unfoldable pub on_header_written : Bool → Connection T → Outcome (Connection T)
  unfolding disconnect pop_and_next
  on_header_written false c =
      done (disconnect (record c { writing = idle; unfinished = front_header c.m_outbound }))
  on_header_written true c = or_fault past_end (get_elem? c.m_outbound 0) >>= λ msg.
      let after = record c { sent = c.sent ++ head msg.header ∷ [] } in
      if ltb 0 (length msg.body) then done (record after { writing = body }) else pop_and_next after

  unfoldable pub on_body_written : Bool → Connection T → Outcome (Connection T)
  unfolding disconnect pop_and_next
  on_body_written false c =
      done (disconnect (record c { writing = idle; unfinished = front_body c.m_outbound }))
  on_body_written true c = or_fault past_end (get_elem? c.m_outbound 0) >>= λ msg.
      pop_and_next (record c { sent = c.sent ++ payload msg.body ∷ [] })

  -- The function that `send_message` posts.
  unfoldable pub enqueue : Message T → Connection T → Outcome (Connection T)
  unfolding write_header
  enqueue msg c =
      let queued = record c { m_outbound = c.m_outbound ++ msg ∷ [] } in
      if no_messages c.m_outbound then write_header queued else done queued

  -- The context runs the functions posted, in order.
  unfoldable pub run_posted : Connection T → Outcome (Connection T)
  unfolding enqueue
  run_posted c = elim c.posted [
    | [] ↦ done c
    | p ∷ rest ↦ elim p [
      | close ↦ done (record c { m_open = false; posted = rest })
      | sending msg ↦ enqueue msg (record c { posted = rest })
    ]
  ]
