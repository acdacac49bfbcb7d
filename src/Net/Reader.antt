-- ===== src/Net/Reader.antt =====
-- The reading side of src/change_lib/net/connection.hpp: what comes in, and what is delivered.
use wallchanger.Base.{
  ℕ, ◌≡◌, ap, sym, ◌∙◌, List, [], ◌∷◌, ◌++◌, map, none, some, if◌then◌else◌, ltb, length,
  Bool-cases, inl, inr,
}
use mathlib.Core.List.{append-nil, append_assoc}
use wallchanger.Net.Message.{Message}
use wallchanger.Net.Connection.{
  Connection, OwnedMessage, Frame, head, payload, on_header_read, on_body_read, add_to_incomming,
  is_server,
}
use wallchanger.Net.Writer.{frames, frames_of}

module _ {T : Type 0} where
  -- The buffers come in one after the other, without an error.
  abbrev pub receive : List (Frame T) → Connection T → Connection T
  receive [] c = c
  receive (head h ∷ fs) c = receive fs (on_header_read (some h) c)
  receive (payload bytes ∷ fs) c = receive fs (on_body_read (some bytes) c)

  -- The header says how long the body is.
  abbrev pub Sized : List (Message T) → Type 0
  Sized [] = Unit {0}
  Sized (m ∷ ms) = (m.header.size ≡ length m.body) × Sized ms

  -- What is delivered of the messages: a message without a body takes the body of the one before.
  abbrev pub delivered : ℕ → List ℕ → List (Message T) → List (Message T)
  delivered time last [] = []
  delivered time last (m ∷ ms) =
      let now : List ℕ = if ltb 0 (length m.body) then m.body else last in
      record { header = m.header; time = time; body = now } ∷ delivered time now ms

  abbrev pub owned : Connection T → Message T → OwnedMessage T
  owned c m = record { remote = if is_server c.m_owner then some c.self else none; msg = m }

  -- The two handlers, over a message whose header gives its size.
  receive-frames_of :
      (m : Message T) (rest : List (Frame T)) (c : Connection T)
      → m.header.size ≡ length m.body
      → receive (frames_of m ++ rest) c
        ≡ receive rest (
            add_to_incomming (record c {
              m_temp_in = record c.m_temp_in {
                header = m.header;
                body = if ltb 0 (length m.body) then m.body else c.m_temp_in.body;
              };
            }))
  unfolding on_header_read on_body_read add_to_incomming
  receive-frames_of m rest c h =
      let test : ltb 0 m.header.size ≡ ltb 0 (length m.body) = ap (ltb 0) h in
      elim (Bool-cases (ltb 0 (length m.body))) [
        | inl some_body ↦ simp (some_body, test)
        | inr no_body ↦ simp (no_body, test)
      ]

  -- The buffers of messages whose headers give their sizes, read from the first to the last: every
  -- message is delivered once, in order, with its header and its body, but one without a body is
  -- delivered with the body of the message before it.
  pub receive-frames :
      (ms : List (Message T)) (c : Connection T)
      → Sized ms
      → (receive (frames ms) c).m_incomming
        ≡ c.m_incomming ++ map (owned c) (delivered c.m_temp_in.time c.m_temp_in.body ms)
  unfolding add_to_incomming
  receive-frames [] c h = sym (append-nil c.m_incomming)
  receive-frames (m ∷ ms) c h =
      ap (λ (d : Connection T). d.m_incomming) (receive-frames_of m (frames ms) c h.0)
      ∙ receive-frames ms (add_to_incomming (record c { m_temp_in = arrived })) h.1
      ∙ append_assoc c.m_incomming (owned c arrived ∷ [])
          (map (owned c) (delivered c.m_temp_in.time arrived.body ms))
    where
      arrived : Message T
      arrived = record {
        header = m.header;
        time = c.m_temp_in.time;
        body = if ltb 0 (length m.body) then m.body else c.m_temp_in.body;
      }
