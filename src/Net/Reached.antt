-- ===== src/Net/Reached.antt =====
-- The states that a connection of src/change_lib/net/connection.hpp reaches from a fresh one.
use wallchanger.Base.{Bool, ◌≡◌, refl, ◌∙◌, subst, List, [], ◌∷◌, ◌++◌, Outcome, done}
use mathlib.Core.List.{append-nil}
use wallchanger.Net.Message.{Message}
use wallchanger.Net.Connection.{
  Connection, Pending, idle, header, body, Frame, on_header_written, on_body_written, run_posted,
}
use wallchanger.Net.Writer.{frames, InOrder, Ordered, Continues}
use wallchanger.Net.Steps.{
  Reaches, here, then_step, header_written-total, body_written-total, posted-total, step-Ordered,
}

module _ {T : Type 0} where
  pub Reaches-Ordered :
      (accepted : List (Message T)) (c₀ c : Connection T)
      → Reaches c₀ accepted c
      → Ordered [] c₀
      → Ordered accepted c
  Reaches-Ordered _ c₀ _ (here _) o = o
  Reaches-Ordered _ c₀ c' (then_step _ c _ accepted taken r s) o =
      step-Ordered accepted taken c c' s (Reaches-Ordered accepted c₀ c r o)

  -- A connection that has written nothing yet.
  abbrev pub Fresh : Connection T → Type 0
  Fresh c = (c.writing ≡ idle) × (c.m_outbound ≡ []) × (c.sent ≡ []) × (c.unfinished ≡ [])

  pub fresh-Ordered : (c : Connection T) → Fresh c → Ordered [] c
  fresh-Ordered c (w, q, e, u) = rw (w, q) e

  pub beginning :
      (accepted : List (Message T)) (w : Pending) (out : List (Message T)) (sent : List (Frame T))
      → InOrder accepted w out sent
      → (rest : List (Frame T)) × (sent ++ rest ≡ frames accepted)
  beginning accepted idle [] sent h = ([], append-nil sent ∙ h)
  beginning accepted idle (m ∷ ms) sent h = h
  beginning accepted header [] sent h = absurd h
  beginning accepted header (m ∷ ms) sent h = (frames (m ∷ ms), h)
  beginning accepted body [] sent h = absurd h
  beginning accepted body (m ∷ ms) sent h = (_, h)

  -- And when the queue is empty, it has taken all of them.
  pub Reaches-empty-sent :
      (accepted : List (Message T)) (c₀ c : Connection T)
      → Reaches c₀ accepted c
      → Fresh c₀
      → c.m_outbound ≡ []
      → c.sent ≡ frames accepted
  Reaches-empty-sent accepted c₀ c r f q = go c.writing (
      subst (λ out. InOrder accepted c.writing out c.sent) q
        (Reaches-Ordered accepted c₀ c r (fresh-Ordered c₀ f)))
    where
      go : (w : Pending) → InOrder accepted w [] c.sent → c.sent ≡ frames accepted
      go idle h = h
      go header h = absurd h
      go body h = absurd h

  -- The handler of the write in progress, if there is one.
  abbrev pub write_handler : Pending → Bool → Connection T → Outcome (Connection T)
  write_handler idle ok c = done c
  write_handler header ok c = on_header_written ok c
  write_handler body ok c = on_body_written ok c

  write_handler-total :
      (accepted : List (Message T)) (ok : Bool) (c : Connection T) (w : Pending)
      → c.writing ≡ w
      → Ordered accepted c
      → Continues accepted (write_handler w ok c)
  write_handler-total accepted ok c idle w o = (c, refl, o)
  write_handler-total accepted ok c header w o = header_written-total accepted ok c w o
  write_handler-total accepted ok c body w o = body_written-total accepted ok c w o

  -- In every state that a fresh connection reaches, the handler of the write in progress, after an
  -- error or without, and the function posted first return: `front` and `pop_front` are never
  -- called on an empty queue.
  pub Reaches-returns :
      (accepted : List (Message T)) (c₀ c : Connection T) (ok : Bool)
      → Reaches c₀ accepted c
      → Fresh c₀
      → ((c' : Connection T) × (write_handler c.writing ok c ≡ done c'))
        × ((c' : Connection T) × (run_posted c ≡ done c'))
  Reaches-returns accepted c₀ c ok r f =
      let o = Reaches-Ordered accepted c₀ c r (fresh-Ordered c₀ f) in
      let written = write_handler-total accepted ok c c.writing refl o in
      let run = posted-total accepted c o in ((written.0, written.1), (run.0, run.1))
