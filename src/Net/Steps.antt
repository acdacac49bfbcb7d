-- ===== src/Net/Steps.antt =====
-- The steps of a connection of src/change_lib/net/connection.hpp: calls of its methods, posted
-- functions and completion handlers, in any order that asio allows.
use wallchanger.Base.{
  ℕ, Bool, true, false, ◌≡◌, refl, sym, ◌∙◌, subst, List, [], ◌∷◌, ◌++◌, Option, none, some,
  Outcome, done, arith, Bool-cases, inl, inr,
}
use mathlib.Core.List.{append-nil}
use wallchanger.Net.Message.{Message, MessageHeader}
use wallchanger.Net.Connection.{
  Connection, idle, header, body, Posted, close, sending, disconnect, send_message, on_header_read,
  on_body_read, on_header_written, on_body_written, run_posted, front_header, front_body,
  add_to_incomming, is_connected, connect_to_client, on_connected,
}
use wallchanger.Net.Writer.{
  Ordered, Continues, header_written-Continues, body_written-Continues, stopped, disconnect-Ordered,
  enqueue-Continues,
}

module _ {T : Type 0} where
  -- The messages that the function posted first takes into the queue.
  abbrev pub takes : List (Posted T) → List (Message T)
  takes [] = []
  takes (close ∷ ps) = []
  takes (sending msg ∷ ps) = msg ∷ []

  -- A step, with the messages that it takes into the queue.
  pub data Step : Connection T → List (Message T) → Connection T → Type 0 where
    calls_send : (c : Connection T) (msg : Message T) → Step c [] (send_message msg c)
    calls_connect : (c : Connection T) (id : ℕ) → Step c [] (connect_to_client id c)
    connected : (c : Connection T) (ok : Bool) → Step c [] (on_connected ok c)
    calls_disconnect : (c : Connection T) → Step c [] (disconnect c)
    runs_posted : (c c' : Connection T) → run_posted c ≡ done c' → Step c (takes c.posted) c'
    wrote_header :
        (c c' : Connection T) (ok : Bool)
        → c.writing ≡ header
        → on_header_written ok c ≡ done c'
        → Step c [] c'
    wrote_body :
        (c c' : Connection T) (ok : Bool)
        → c.writing ≡ body
        → on_body_written ok c ≡ done c'
        → Step c [] c'
    got_header :
        (c : Connection T) (h : Option (MessageHeader T))
        → c.reading ≡ header
        → Step c [] (on_header_read h c)
    got_body :
        (c : Connection T) (bytes : Option (List ℕ))
        → c.reading ≡ body
        → Step c [] (on_body_read bytes c)

  -- The states that a connection gets to, with all the messages taken.
  pub data Reaches : Connection T → List (Message T) → Connection T → Type 0 where
    here : (c : Connection T) → Reaches c [] c
    then_step :
        (c₀ c c' : Connection T) (accepted taken : List (Message T))
        → Reaches c₀ accepted c
        → Step c taken c'
        → Reaches c₀ (accepted ++ taken) c'

  pub header_written-total :
      (accepted : List (Message T)) (ok : Bool) (c : Connection T)
      → c.writing ≡ header
      → Ordered accepted c
      → Continues accepted (on_header_written ok c)
  unfolding on_header_written
  header_written-total accepted true c w h = header_written-Continues accepted c w h
  header_written-total accepted false c w h = (
    disconnect (record c { writing = idle; unfinished = front_header c.m_outbound }),
    refl,
    disconnect-Ordered accepted
        (record c { writing = idle; unfinished = front_header c.m_outbound })
        (stopped accepted c.writing c.m_outbound c.sent h),
  )

  pub body_written-total :
      (accepted : List (Message T)) (ok : Bool) (c : Connection T)
      → c.writing ≡ body
      → Ordered accepted c
      → Continues accepted (on_body_written ok c)
  unfolding on_body_written
  body_written-total accepted true c w h = body_written-Continues accepted c w h
  body_written-total accepted false c w h = (
    disconnect (record c { writing = idle; unfinished = front_body c.m_outbound }),
    refl,
    disconnect-Ordered accepted (record c { writing = idle; unfinished = front_body c.m_outbound })
        (stopped accepted c.writing c.m_outbound c.sent h),
  )

  pub posted-total :
      (accepted : List (Message T)) (c : Connection T)
      → Ordered accepted c
      → Continues (accepted ++ takes c.posted) (run_posted c)
  unfolding run_posted
  posted-total accepted c h = go c.posted
    where
      go :
          (ps : List (Posted T))
          → Continues (accepted ++ takes ps) (run_posted (record c { posted = ps }))
      go [] = (record c { posted = [] }, refl, rw (append-nil accepted) h)
      go (close ∷ ps) = (record c { m_open = false; posted = ps }, refl, rw (append-nil accepted) h)
      go (sending msg ∷ ps) = enqueue-Continues accepted msg (record c { posted = ps }) h

  result_of :
      (accepted : List (Message T)) (o : Outcome (Connection T)) (c' : Connection T)
      → Continues accepted o
      → o ≡ done c'
      → Ordered accepted c'
  result_of accepted o c' k e =
      let same : k.0 ≡ c' = done_injective (sym k.1 ∙ e) in subst (Ordered accepted) same k.2
    where
      done_injective : {a b : Connection T} → Outcome.done a ≡ done b → a ≡ b
      done_injective {a} {b} h = ground arith

  header_read-Ordered :
      (accepted : List (Message T)) (h : Option (MessageHeader T)) (c : Connection T)
      → Ordered accepted c
      → Ordered accepted (on_header_read h c)
  unfolding on_header_read disconnect add_to_incomming
  header_read-Ordered accepted none c o = ground arith
  header_read-Ordered accepted (some h) c o = ground arith

  body_read-Ordered :
      (accepted : List (Message T)) (bytes : Option (List ℕ)) (c : Connection T)
      → Ordered accepted c
      → Ordered accepted (on_body_read bytes c)
  unfolding on_body_read disconnect add_to_incomming
  body_read-Ordered accepted none c o = ground arith
  body_read-Ordered accepted (some h) c o = o

  send-Ordered :
      (accepted : List (Message T)) (msg : Message T) (c : Connection T)
      → Ordered accepted c
      → Ordered accepted (send_message msg c)
  unfolding send_message
  send-Ordered accepted msg c o = elim (Bool-cases (is_connected c)) [
    | inl up ↦ rw (up, send_message) o
    | inr down ↦ rw (down, send_message) o
  ]

  connect-Ordered :
      (accepted : List (Message T)) (id : ℕ) (c : Connection T)
      → Ordered accepted c
      → Ordered accepted (connect_to_client id c)
  unfolding connect_to_client
  connect-Ordered accepted id c o = ground arith

  connected-Ordered :
      (accepted : List (Message T)) (ok : Bool) (c : Connection T)
      → Ordered accepted c
      → Ordered accepted (on_connected ok c)
  unfolding on_connected
  connected-Ordered accepted true c o = o
  connected-Ordered accepted false c o =
      disconnect-Ordered accepted (record c { m_connected = false }) o

  pub step-Ordered :
      (accepted taken : List (Message T)) (c c' : Connection T)
      → Step c taken c'
      → Ordered accepted c
      → Ordered (accepted ++ taken) c'
  step-Ordered accepted _ c _ (calls_send _ msg) o =
      rw (append-nil accepted) (send-Ordered accepted msg c o)
  step-Ordered accepted _ c _ (calls_connect _ id) o =
      rw (append-nil accepted) (connect-Ordered accepted id c o)
  step-Ordered accepted _ c _ (connected _ ok) o =
      rw (append-nil accepted) (connected-Ordered accepted ok c o)
  step-Ordered accepted _ c _ (calls_disconnect _) o =
      rw (append-nil accepted) (disconnect-Ordered accepted c o)
  step-Ordered accepted _ c c' (runs_posted _ _ e) o =
      result_of _ _ c' (posted-total accepted c o) e
  step-Ordered accepted _ c c' (wrote_header _ _ ok w e) o =
      rw (append-nil accepted) (result_of accepted _ c' (header_written-total accepted ok c w o) e)
  step-Ordered accepted _ c c' (wrote_body _ _ ok w e) o =
      rw (append-nil accepted) (result_of accepted _ c' (body_written-total accepted ok c w o) e)
  step-Ordered accepted _ c _ (got_header _ h r) o =
      rw (append-nil accepted) (header_read-Ordered accepted h c o)
  step-Ordered accepted _ c _ (got_body _ bytes r) o =
      rw (append-nil accepted) (body_read-Ordered accepted bytes c o)
