-- ===== src/Net/Drain.antt =====
-- The writes of a connection of src/change_lib/net/connection.hpp, each with success: the queue
-- is worked off.
use wallchanger.Base.{
  ℕ, zero, suc, ◌≤◌, true, ◌≡◌, ◌≢◌, refl, ap, sym, ◌∙◌, List, [], ◌∷◌, ◌++◌, ltb, length,
  length-append, Outcome, done, ◌>>=◌, Bool-cases, inl, inr, arith,
}
use mathlib.Core.List.{append-nil, append_assoc}
use wallchanger.Net.Message.{Message}
use wallchanger.Net.Connection.{
  Connection, Pending, idle, header, body, head, payload, on_header_written, on_body_written,
  write_header, pop_and_next,
}
use wallchanger.Net.Steps.{Reaches}
use wallchanger.Net.Writer.{frames, frames_of, InOrder}
use wallchanger.Net.Reached.{Fresh, fresh-Ordered, write_handler, Reaches-Ordered}

module _ {T : Type 0} where
  -- So many writes that end well.
  unfoldable pub drain : ℕ → Connection T → Outcome (Connection T)
  drain zero c = done c
  drain (suc n) c = write_handler c.writing true c >>= drain n

  abbrev drained : Connection T → List (Message T) → Connection T
  drained c ms = record c { writing = idle; m_outbound = []; sent = c.sent ++ frames ms }

  drain-idle :
      (n : ℕ) (c : Connection T)
      → drain n (record c { writing = idle }) ≡ done (record c { writing = idle })
  unfolding drain
  drain-idle zero c = refl
  drain-idle (suc n) c = drain-idle n c

  -- What the queue's rest comes to once its first message is written.
  abbrev Drains : Message T → List (Message T) → Type 0
  Drains k ks =
      (n : ℕ) (c : Connection T)
      → length (frames ks) ≤ n
      → (pop_and_next (record c { m_outbound = k ∷ ks }) >>= drain n) ≡ done (drained c ks)

  from_body :
      (k : Message T) (ks : List (Message T)) (n : ℕ) (c : Connection T)
      → Drains k ks
      → suc (length (frames ks)) ≤ n
      → drain n (record c { writing = body; m_outbound = k ∷ ks })
        ≡ done (record c {
          writing = idle;
          m_outbound = [];
          sent = c.sent ++ payload k.body ∷ frames ks;
        })
  unfolding drain on_body_written
  from_body k ks zero c rest h = let none_left : ⊥ = omega arith in absurd none_left
  from_body k ks (suc n) c rest h =
      rest n (record c { sent = c.sent ++ payload k.body ∷ [] }) (omega arith)
      ∙ ap (λ l. done (record c { writing = idle; m_outbound = []; sent = l }))
          (append_assoc c.sent (payload k.body ∷ []) (frames ks))

  from_header :
      (k : Message T) (ks : List (Message T)) (n : ℕ) (c : Connection T)
      → Drains k ks
      → length (frames (k ∷ ks)) ≤ n
      → drain n (record c { writing = header; m_outbound = k ∷ ks }) ≡ done (drained c (k ∷ ks))
  unfolding drain on_header_written
  from_header k ks zero c rest h = let none_left : ⊥ = omega arith in absurd none_left
  from_header k ks (suc n) c rest h =
      let after = record c { sent = c.sent ++ head k.header ∷ [] } in
      elim (Bool-cases (ltb 0 (length k.body))) [
        | inl some_body ↦
            let fits : suc (suc (length (frames ks))) ≤ suc n = rw some_body at h in
            rw some_body (
              from_body k ks n after rest (omega arith)
              ∙ ap (λ l. done (record c { writing = idle; m_outbound = []; sent = l }))
                  (append_assoc c.sent (head k.header ∷ []) (payload k.body ∷ frames ks)))
        | inr no_body ↦
            let fits : suc (length (frames ks)) ≤ suc n = rw no_body at h in
            rw no_body (
              rest n after (omega arith)
              ∙ ap (λ l. done (record c { writing = idle; m_outbound = []; sent = l }))
                  (append_assoc c.sent (head k.header ∷ []) (frames ks)))
      ]

  drain_next : (k : Message T) (ks : List (Message T)) → Drains k ks
  unfolding drain pop_and_next write_header
  drain_next m [] n c h =
      drain-idle n (record c { m_outbound = [] })
      ∙ ap (λ l. done (record c { writing = idle; m_outbound = []; sent = l }))
          (sym (append-nil c.sent))
  drain_next m (k ∷ ks) n c h = from_header k ks n c (λ j d. drain_next k ks j d) h

  -- In every state that a fresh connection reaches with a write in progress, when the write and the
  -- next ones end well, as many of them as the queue has headers and bodies work the queue off: no
  -- write is in progress, and the socket has taken the headers and bodies of all the messages
  -- accepted.
  pub Reaches-drain :
      (accepted : List (Message T)) (c₀ c : Connection T)
      → Reaches c₀ accepted c
      → Fresh c₀
      → c.writing ≢ idle
      → drain (length (frames c.m_outbound)) c
        ≡ done (record c { writing = idle; m_outbound = []; sent = frames accepted })
  Reaches-drain accepted c₀ c r f busy =
      go c.writing c.m_outbound busy (Reaches-Ordered accepted c₀ c r (fresh-Ordered c₀ f))
    where
      go :
          (w : Pending) (out : List (Message T))
          → w ≢ idle
          → InOrder accepted w out c.sent
          → drain (length (frames out)) (record c { writing = w; m_outbound = out })
            ≡ done (record c { writing = idle; m_outbound = []; sent = frames accepted })
      go idle out b o = absurd (b refl)
      go header [] b o = absurd o
      go header (m ∷ ms) b o = rw (sym o) (from_header m ms _ c (drain_next m ms) (omega arith))
      go body [] b o = absurd o
      go body (m ∷ ms) b o = rw (sym o) (
          from_body m ms _ c (drain_next m ms)
            (omega (arith, length-append (frames_of m) (frames ms))))
