-- ===== src/Net/Writer.antt =====
-- The writing side of src/change_lib/net/connection.hpp: what goes out, in which order.
use wallchanger.Base.{
  true, ◌≡◌, refl, ap, sym, ◌∙◌, subst, List, [], ◌∷◌, ◌++◌, if◌then◌else◌, ltb, length, Outcome,
  done, Bool-cases, inl, inr,
}
use mathlib.Core.List.{append-nil, append_assoc}
use wallchanger.Net.Message.{Message}
use wallchanger.Net.Connection.{
  Connection, Pending, idle, header, body, Frame, head, payload, is_connected, disconnect,
  on_header_written, on_body_written, write_header, pop_and_next, enqueue,
}

module _ {T : Type 0} where
  -- The buffers of a message: the header, and the body where it has bytes.
  abbrev pub frames_of : Message T → List (Frame T)
  frames_of m = head m.header ∷ (if ltb 0 (length m.body) then payload m.body ∷ [] else [])

  abbrev pub frames : List (Message T) → List (Frame T)
  frames [] = []
  frames (m ∷ ms) = frames_of m ++ frames ms

  pub frames-append : (ms ns : List (Message T)) → frames (ms ++ ns) ≡ frames ms ++ frames ns
  frames-append [] ns = refl
  frames-append (m ∷ ms) ns =
      ap (λ l. frames_of m ++ l) (frames-append ms ns)
      ∙ sym (append_assoc (frames_of m) (frames ms) (frames ns))

  -- What is sent and what is still to be sent are the buffers of the messages accepted, in order.
  -- After an error nothing more is sent: what was sent is the beginning.
  abbrev pub InOrder : List (Message T) → Pending → List (Message T) → List (Frame T) → Type 0
  InOrder accepted idle [] sent = sent ≡ frames accepted
  InOrder accepted idle (m ∷ ms) sent = (rest : List (Frame T)) × (sent ++ rest ≡ frames accepted)
  InOrder accepted header [] sent = ⊥
  InOrder accepted header (m ∷ ms) sent = sent ++ frames (m ∷ ms) ≡ frames accepted
  InOrder accepted body [] sent = ⊥
  InOrder accepted body (m ∷ ms) sent = sent ++ payload m.body ∷ frames ms ≡ frames accepted

  abbrev pub Ordered : List (Message T) → Connection T → Type 0
  Ordered accepted c = InOrder accepted c.writing c.m_outbound c.sent

  -- A handler returns, and what it leaves is in order.
  abbrev pub Continues : List (Message T) → Outcome (Connection T) → Type 0
  Continues accepted o = (c : Connection T) × (o ≡ done c) × Ordered accepted c

  next-Continues :
      (accepted : List (Message T)) (c : Connection T) (m : Message T) (ms : List (Message T))
      → c.sent ++ frames ms ≡ frames accepted
      → Continues accepted (pop_and_next (record c { m_outbound = m ∷ ms }))
  unfolding pop_and_next write_header
  next-Continues accepted c m [] h =
      (record c { m_outbound = []; writing = idle }, refl, sym (append-nil c.sent) ∙ h)
  next-Continues accepted c m (n ∷ ms) h =
      (record c { m_outbound = n ∷ ms; writing = header }, refl, h)

  pub header_written-Continues :
      (accepted : List (Message T)) (c : Connection T)
      → c.writing ≡ header
      → Ordered accepted c
      → Continues accepted (on_header_written true c)
  unfolding on_header_written
  header_written-Continues accepted c w h =
      go c.m_outbound (subst (λ p. InOrder accepted p c.m_outbound c.sent) w h)
    where
      go :
          (out : List (Message T))
          → InOrder accepted header out c.sent
          → Continues accepted (on_header_written true (record c { m_outbound = out }))
      go [] k = absurd k
      go (m ∷ ms) k = elim (Bool-cases (ltb 0 (length m.body))) [
        | inl some_body ↦ (
          record c { m_outbound = m ∷ ms; sent = c.sent ++ head m.header ∷ []; writing = body },
          rw some_body refl,
          append_assoc c.sent (head m.header ∷ []) (payload m.body ∷ frames ms)
              ∙ (rw some_body at k),
        )
        | inr no_body ↦
            let (c', e, k') =
              next-Continues accepted (record c { sent = c.sent ++ head m.header ∷ [] }) m ms
                (append_assoc c.sent (head m.header ∷ []) (frames ms) ∙ (rw no_body at k)) in
            (c', rw no_body e, k')
      ]

  pub body_written-Continues :
      (accepted : List (Message T)) (c : Connection T)
      → c.writing ≡ body
      → Ordered accepted c
      → Continues accepted (on_body_written true c)
  unfolding on_body_written
  body_written-Continues accepted c w h =
      go c.m_outbound (subst (λ p. InOrder accepted p c.m_outbound c.sent) w h)
    where
      go :
          (out : List (Message T))
          → InOrder accepted body out c.sent
          → Continues accepted (on_body_written true (record c { m_outbound = out }))
      go [] k = absurd k
      go (m ∷ ms) k =
          next-Continues accepted (record c { sent = c.sent ++ payload m.body ∷ [] }) m ms
            (append_assoc c.sent (payload m.body ∷ []) (frames ms) ∙ k)

  -- What an error leaves: a beginning of the buffers, and a queue that is never taken up again.
  pub stopped :
      (accepted : List (Message T)) (w : Pending) (out : List (Message T)) (sent : List (Frame T))
      → InOrder accepted w out sent
      → InOrder accepted idle out sent
  stopped accepted idle out sent h = h
  stopped accepted header [] sent h = absurd h
  stopped accepted header (m ∷ ms) sent h = (frames (m ∷ ms), h)
  stopped accepted body [] sent h = absurd h
  stopped accepted body (m ∷ ms) sent h = (payload m.body ∷ frames ms, h)

  pub disconnect-Ordered :
      (accepted : List (Message T)) (c : Connection T)
      → Ordered accepted c
      → Ordered accepted (disconnect c)
  unfolding disconnect
  disconnect-Ordered accepted c h = elim (Bool-cases (is_connected c)) [
    | inl up ↦ rw (up, disconnect) h
    | inr down ↦ rw (down, disconnect) h
  ]

  pub enqueue-Continues :
      (accepted : List (Message T)) (msg : Message T) (c : Connection T)
      → Ordered accepted c
      → Continues (accepted ++ msg ∷ []) (enqueue msg c)
  unfolding enqueue write_header
  enqueue-Continues accepted msg c h = go c.writing c.m_outbound h
    where
      more :
          (l : List (Frame T))
          → l ≡ frames accepted
          → l ++ frames (msg ∷ []) ≡ frames (accepted ++ msg ∷ [])
      more l e = ap (λ k. k ++ frames (msg ∷ [])) e ∙ sym (frames-append accepted (msg ∷ []))

      go :
          (w : Pending) (out : List (Message T))
          → InOrder accepted w out c.sent
          → Continues
              (accepted ++ msg ∷ [])
              (enqueue msg (record c { writing = w; m_outbound = out }))
      go idle [] k = (record c { m_outbound = msg ∷ []; writing = header }, refl, more c.sent k)
      go idle (m ∷ ms) k = (
        record c { m_outbound = (m ∷ ms) ++ msg ∷ []; writing = idle },
        refl,
        (
          k.0 ++ frames (msg ∷ []),
          sym (append_assoc c.sent k.0 (frames (msg ∷ []))) ∙ more (c.sent ++ k.0) k.1,
        ),
      )
      go header [] k = absurd k
      go header (m ∷ ms) k = (
        record c { m_outbound = (m ∷ ms) ++ msg ∷ []; writing = header },
        refl,
        ap (λ l. c.sent ++ l) (frames-append (m ∷ ms) (msg ∷ []))
            ∙ sym (append_assoc c.sent (frames (m ∷ ms)) (frames (msg ∷ [])))
            ∙ more _ k,
      )
      go body [] k = absurd k
      go body (m ∷ ms) k = (
        record c { m_outbound = (m ∷ ms) ++ msg ∷ []; writing = body },
        refl,
        ap (λ l. c.sent ++ payload m.body ∷ l) (frames-append ms (msg ∷ []))
            ∙ sym (append_assoc c.sent (payload m.body ∷ frames ms) (frames (msg ∷ [])))
            ∙ more _ k,
      )
