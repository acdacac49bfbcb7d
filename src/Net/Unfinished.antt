-- ===== src/Net/Unfinished.antt =====
-- The write of src/change_lib/net/connection.hpp that ends with an error: what the socket may have
-- taken of its buffer, and that nothing follows it.
use wallchanger.Base.{
  ℕ, Bool, true, false, ◌≡◌, refl, sym, ap, ◌∙◌, subst, List, [], ◌∷◌, ◌++◌, ◌⊎◌, inl, inr, Option,
  none, some, arith, ltb, length, Bool-cases, Satisfies, Satisfies-done, Satisfies-weaken, ◌≢◌,
}
use mathlib.Core.List.{append-nil, append_assoc}
use wallchanger.Net.Message.{Message, MessageHeader}
use wallchanger.Net.Connection.{
  Connection, Pending, idle, header, body, Frame, head, payload, Posted, close, sending, disconnect,
  send_message, is_connected, on_header_read, on_body_read, on_header_written, on_body_written,
  write_header, pop_and_next, enqueue, run_posted, front_header, front_body, add_to_incomming,
  connect_to_client, on_connected,
}
use wallchanger.Net.Writer.{frames, frames-append, InOrder, Ordered}
use wallchanger.Net.Steps.{
  Reaches, here, then_step, Step, takes, calls_send, calls_connect, connected, calls_disconnect,
  runs_posted, wrote_header, wrote_body, got_header, got_body,
}
use wallchanger.Net.Reached.{Fresh, fresh-Ordered, Reaches-Ordered, beginning}

module _ {T : Type 0} where
  -- One buffer at most, the one that follows those taken whole, with no write in progress and a
  -- queue that is not empty, so that no write begins.
  abbrev Cut :
      List (Message T) → List (Frame T) → Pending → List (Message T) → List (Frame T) → Type 0
  Cut accepted [] w out sent = Unit
  Cut accepted (f ∷ fs) idle [] sent = ⊥
  Cut accepted (f ∷ fs) idle (m ∷ ms) sent =
      (fs ≡ []) × (rest : List (Frame T)) × (sent ++ f ∷ rest ≡ frames accepted)
  Cut accepted (f ∷ fs) header out sent = ⊥
  Cut accepted (f ∷ fs) body out sent = ⊥

  abbrev Kept : List (Message T) → Connection T → Type 0
  Kept accepted c = Cut accepted c.unfinished c.writing c.m_outbound c.sent

  whole-Kept :
      (accepted : List (Message T)) (c : Connection T) → c.unfinished ≡ [] → Kept accepted c
  whole-Kept accepted c h = subst (λ u. Cut accepted u c.writing c.m_outbound c.sent) (sym h) tt

  whole_of_header :
      (accepted : List (Message T)) (u : List (Frame T)) (out : List (Message T))
      (sent : List (Frame T))
      → Cut accepted u header out sent
      → u ≡ []
  whole_of_header accepted [] out sent h = refl
  whole_of_header accepted (f ∷ fs) out sent h = absurd h

  whole_of_body :
      (accepted : List (Message T)) (u : List (Frame T)) (out : List (Message T))
      (sent : List (Frame T))
      → Cut accepted u body out sent
      → u ≡ []
  whole_of_body accepted [] out sent h = refl
  whole_of_body accepted (f ∷ fs) out sent h = absurd h

  -- A write that ends well leaves no buffer unfinished.
  abbrev Leaves : List (Frame T) → Connection T → Type 0
  Leaves u c = c.unfinished ≡ u

  next-Leaves : (c : Connection T) → Satisfies (Leaves c.unfinished) (pop_and_next c)
  unfolding pop_and_next write_header
  next-Leaves c = go c.m_outbound
    where
      go :
          (out : List (Message T))
          → Satisfies (Leaves c.unfinished) (pop_and_next (record c { m_outbound = out }))
      go [] = tt
      go (m ∷ []) = refl
      go (m ∷ n ∷ ms) = refl

  header-Leaves : (c : Connection T) → Satisfies (Leaves c.unfinished) (on_header_written true c)
  unfolding on_header_written
  header-Leaves c = go c.m_outbound
    where
      go :
          (out : List (Message T))
          → Satisfies (Leaves c.unfinished) (on_header_written true (record c { m_outbound = out }))
      go [] = tt
      go (m ∷ ms) = elim (Bool-cases (ltb 0 (length m.body))) [
        | inl some_body ↦ rw some_body refl
        | inr no_body ↦
            rw no_body
              (next-Leaves (record c { m_outbound = m ∷ ms; sent = c.sent ++ head m.header ∷ [] }))
      ]

  body-Leaves : (c : Connection T) → Satisfies (Leaves c.unfinished) (on_body_written true c)
  unfolding on_body_written
  body-Leaves c = go c.m_outbound
    where
      go :
          (out : List (Message T))
          → Satisfies (Leaves c.unfinished) (on_body_written true (record c { m_outbound = out }))
      go [] = tt
      go (m ∷ ms) =
          next-Leaves (record c { m_outbound = m ∷ ms; sent = c.sent ++ payload m.body ∷ [] })

  disconnect-Kept :
      (accepted : List (Message T)) (c : Connection T)
      → Kept accepted c
      → Kept accepted (disconnect c)
  unfolding disconnect
  disconnect-Kept accepted c h = elim (Bool-cases (is_connected c)) [
    | inl up ↦ rw (up, disconnect) h
    | inr down ↦ rw (down, disconnect) h
  ]

  -- What a failed write leaves of the buffers.
  cut_header :
      (accepted : List (Message T)) (c : Connection T)
      → InOrder accepted header c.m_outbound c.sent
      → Kept accepted (record c { writing = idle; unfinished = front_header c.m_outbound })
  cut_header accepted c h = go c.m_outbound h
    where
      go :
          (out : List (Message T))
          → InOrder accepted header out c.sent
          → Cut accepted (front_header out) idle out c.sent
      go [] k = absurd k
      go (m ∷ ms) k = (refl, _, k)

  cut_body :
      (accepted : List (Message T)) (c : Connection T)
      → InOrder accepted body c.m_outbound c.sent
      → Kept accepted (record c { writing = idle; unfinished = front_body c.m_outbound })
  cut_body accepted c h = go c.m_outbound h
    where
      go :
          (out : List (Message T))
          → InOrder accepted body out c.sent
          → Cut accepted (front_body out) idle out c.sent
      go [] k = absurd k
      go (m ∷ ms) k = (refl, _, k)

  header_written-Kept :
      (accepted : List (Message T)) (ok : Bool) (c : Connection T)
      → c.writing ≡ header
      → Ordered accepted c
      → Kept accepted c
      → Satisfies (Kept accepted) (on_header_written ok c)
  unfolding on_header_written
  header_written-Kept accepted false c w o k =
      disconnect-Kept accepted (record c { writing = idle; unfinished = front_header c.m_outbound })
        (cut_header accepted c (subst (λ p. InOrder accepted p c.m_outbound c.sent) w o))
  header_written-Kept accepted true c w o k =
      let whole =
        whole_of_header accepted c.unfinished c.m_outbound c.sent
          (subst (λ p. Cut accepted c.unfinished p c.m_outbound c.sent) w k) in
      Satisfies-weaken (on_header_written true c) (λ c' e. whole-Kept accepted c' (e ∙ whole))
        (header-Leaves c)

  body_written-Kept :
      (accepted : List (Message T)) (ok : Bool) (c : Connection T)
      → c.writing ≡ body
      → Ordered accepted c
      → Kept accepted c
      → Satisfies (Kept accepted) (on_body_written ok c)
  unfolding on_body_written
  body_written-Kept accepted false c w o k =
      disconnect-Kept accepted (record c { writing = idle; unfinished = front_body c.m_outbound })
        (cut_body accepted c (subst (λ p. InOrder accepted p c.m_outbound c.sent) w o))
  body_written-Kept accepted true c w o k =
      let whole =
        whole_of_body accepted c.unfinished c.m_outbound c.sent
          (subst (λ p. Cut accepted c.unfinished p c.m_outbound c.sent) w k) in
      Satisfies-weaken (on_body_written true c) (λ c' e. whole-Kept accepted c' (e ∙ whole))
        (body-Leaves c)

  enqueue-Kept :
      (accepted : List (Message T)) (msg : Message T) (c : Connection T)
      → Kept accepted c
      → Satisfies (Kept (accepted ++ msg ∷ [])) (enqueue msg c)
  unfolding enqueue write_header
  enqueue-Kept accepted msg c h = go c.unfinished c.writing c.m_outbound h
    where
      go :
          (u : List (Frame T)) (w : Pending) (out : List (Message T))
          → Cut accepted u w out c.sent
          → Satisfies
              (Kept (accepted ++ msg ∷ []))
              (enqueue msg (record c { unfinished = u; writing = w; m_outbound = out }))
      go [] w [] k = tt
      go [] w (m ∷ ms) k = tt
      go (f ∷ fs) idle [] k = absurd k
      go (f ∷ fs) idle (m ∷ ms) k = (
        k.0,
        k.1 ++ frames (msg ∷ []),
        sym (append_assoc c.sent (f ∷ k.1) (frames (msg ∷ [])))
            ∙ ap (λ l. l ++ frames (msg ∷ [])) k.2
            ∙ sym (frames-append accepted (msg ∷ [])),
      )
      go (f ∷ fs) header out k = absurd k
      go (f ∷ fs) body out k = absurd k

  posted-Kept :
      (accepted : List (Message T)) (c : Connection T)
      → Kept accepted c
      → Satisfies (Kept (accepted ++ takes c.posted)) (run_posted c)
  unfolding run_posted
  posted-Kept accepted c h = go c.posted
    where
      go :
          (ps : List (Posted T))
          → Satisfies (Kept (accepted ++ takes ps)) (run_posted (record c { posted = ps }))
      go [] = rw (append-nil accepted) h
      go (close ∷ ps) = rw (append-nil accepted) h
      go (sending msg ∷ ps) = enqueue-Kept accepted msg (record c { posted = ps }) h

  header_read-Kept :
      (accepted : List (Message T)) (h : Option (MessageHeader T)) (c : Connection T)
      → Kept accepted c
      → Kept accepted (on_header_read h c)
  unfolding on_header_read disconnect add_to_incomming
  header_read-Kept accepted none c o = ground arith
  header_read-Kept accepted (some h) c o = ground arith

  body_read-Kept :
      (accepted : List (Message T)) (bytes : Option (List ℕ)) (c : Connection T)
      → Kept accepted c
      → Kept accepted (on_body_read bytes c)
  unfolding on_body_read disconnect add_to_incomming
  body_read-Kept accepted none c o = ground arith
  body_read-Kept accepted (some h) c o = o

  send-Kept :
      (accepted : List (Message T)) (msg : Message T) (c : Connection T)
      → Kept accepted c
      → Kept accepted (send_message msg c)
  unfolding send_message
  send-Kept accepted msg c o = elim (Bool-cases (is_connected c)) [
    | inl up ↦ rw (up, send_message) o
    | inr down ↦ rw (down, send_message) o
  ]

  connect-Kept :
      (accepted : List (Message T)) (id : ℕ) (c : Connection T)
      → Kept accepted c
      → Kept accepted (connect_to_client id c)
  unfolding connect_to_client
  connect-Kept accepted id c o = ground arith

  connected-Kept :
      (accepted : List (Message T)) (ok : Bool) (c : Connection T)
      → Kept accepted c
      → Kept accepted (on_connected ok c)
  unfolding on_connected
  connected-Kept accepted true c o = o
  connected-Kept accepted false c o = disconnect-Kept accepted (record c { m_connected = false }) o

  step-Kept :
      (accepted taken : List (Message T)) (c c' : Connection T)
      → Step c taken c'
      → Ordered accepted c
      → Kept accepted c
      → Kept (accepted ++ taken) c'
  step-Kept accepted _ c _ (calls_send _ msg) o k =
      rw (append-nil accepted) (send-Kept accepted msg c k)
  step-Kept accepted _ c _ (calls_connect _ id) o k =
      rw (append-nil accepted) (connect-Kept accepted id c k)
  step-Kept accepted _ c _ (connected _ ok) o k =
      rw (append-nil accepted) (connected-Kept accepted ok c k)
  step-Kept accepted _ c _ (calls_disconnect _) o k =
      rw (append-nil accepted) (disconnect-Kept accepted c k)
  step-Kept accepted _ c c' (runs_posted _ _ e) o k =
      Satisfies-done (Kept (accepted ++ takes c.posted)) _ c' (posted-Kept accepted c k) e
  step-Kept accepted _ c c' (wrote_header _ _ ok w e) o k =
      rw (append-nil accepted)
        (Satisfies-done (Kept accepted) _ c' (header_written-Kept accepted ok c w o k) e)
  step-Kept accepted _ c c' (wrote_body _ _ ok w e) o k =
      rw (append-nil accepted)
        (Satisfies-done (Kept accepted) _ c' (body_written-Kept accepted ok c w o k) e)
  step-Kept accepted _ c _ (got_header _ h r) o k =
      rw (append-nil accepted) (header_read-Kept accepted h c k)
  step-Kept accepted _ c _ (got_body _ bytes r) o k =
      rw (append-nil accepted) (body_read-Kept accepted bytes c k)

  Reaches-Kept :
      (accepted : List (Message T)) (c₀ c : Connection T)
      → Reaches c₀ accepted c
      → Ordered [] c₀
      → Kept [] c₀
      → Kept accepted c
  Reaches-Kept _ c₀ _ (here _) o k = k
  Reaches-Kept _ c₀ c' (then_step _ c _ accepted taken r s) o k =
      step-Kept accepted taken c c' s (Reaches-Ordered accepted c₀ c r o)
        (Reaches-Kept accepted c₀ c r o k)

  -- At most one buffer is unfinished, and then no write is in progress.
  abbrev pub Last : Connection T → Type 0
  Last c =
      (c.unfinished ≡ [])
      ⊎ ((f : Frame T) × (c.unfinished ≡ f ∷ []) × (c.writing ≡ idle) × (c.m_outbound ≢ []))

  -- In every state that a fresh connection reaches, with failed operations and disconnections in
  -- any order, the buffers that the socket has taken whole, and after them the one whose write
  -- failed, if there is one, are a beginning of the headers and bodies of the messages that were
  -- queued: in the order of the queue, none left out and none twice. After a failed write nothing
  -- is written: no write is in progress, and the queue keeps the message, so that none begins.
  pub Reaches-sent :
      (accepted : List (Message T)) (c₀ c : Connection T)
      → Reaches c₀ accepted c
      → Fresh c₀
      → ((rest : List (Frame T)) × (c.sent ++ c.unfinished ++ rest ≡ frames accepted)) × Last c
  Reaches-sent accepted c₀ c r f =
      go c.unfinished c.writing c.m_outbound refl refl refl
        (Reaches-Ordered accepted c₀ c r (fresh-Ordered c₀ f))
        (Reaches-Kept accepted c₀ c r (fresh-Ordered c₀ f) (whole-Kept [] c₀ f.3))
    where
      go :
          (u : List (Frame T)) (w : Pending) (out : List (Message T))
          → c.unfinished ≡ u
          → c.writing ≡ w
          → c.m_outbound ≡ out
          → InOrder accepted w out c.sent
          → Cut accepted u w out c.sent
          → ((rest : List (Frame T)) × (c.sent ++ u ++ rest ≡ frames accepted)) × Last c
      go [] w out e ew eo o k = (
        let (rest, b) = beginning accepted w out c.sent o in
            (rest, ap (λ l. l ++ rest) (append-nil c.sent) ∙ b),
        inl e,
      )
      go (f ∷ fs) idle [] e ew eo o k = absurd k
      go (f ∷ fs) idle (m ∷ ms) e ew eo o k = (
        (k.1, ap (λ l. c.sent ++ f ∷ l ++ k.1) k.0 ∙ append_assoc c.sent (f ∷ []) k.1 ∙ k.2),
        inr (f, e ∙ ap (λ l. f ∷ l) k.0, ew, λ q. cc),
      )
      go (f ∷ fs) header out e ew eo o k = absurd k
      go (f ∷ fs) body out e ew eo o k = absurd k
