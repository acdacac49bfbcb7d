-- ===== src/Net/Pointers.antt =====
-- Null pointers in `m_connections` of src/change_lib/net/server_interface.hpp, over any sequence of
-- calls, and `on_client_disconnect` of src/change_service/change_server.hpp, which reads its client.
use wallchanger.Base.{
  ℕ, Bool, true, false, ◌≡◌, refl, List, [], ◌∷◌, ◌++◌, Option, none, some, if◌then◌else◌, Outcome,
  done, fault, null_pointer, ◌>>=◌, nat_ordered, ◌==◌,
}
use wallchanger.Net.Message.{Message}
use wallchanger.Net.Server.{
  Effect, sends, client_disconnected, connects, Server, drop_null, on_accepted, message_client,
  visit, message_all_client,
}

abbrev pub NoNull : List (Option ℕ) → Type 0
NoNull [] = Unit
NoNull (none ∷ l) = ⊥
NoNull (some i ∷ l) = NoNull l

-- `client->get_id()`, for the text that is logged.
abbrev pub on_client_disconnect : Option ℕ → Outcome ℕ
on_client_disconnect none = fault null_pointer
on_client_disconnect (some id) = done id

drop_null-NoNull : (l : List (Option ℕ)) → NoNull (drop_null l)
drop_null-NoNull [] = tt
drop_null-NoNull (none ∷ l) = drop_null-NoNull l
drop_null-NoNull (some i ∷ l) = drop_null-NoNull l

NoNull-append : (k : List (Option ℕ)) (i : ℕ) → NoNull k → NoNull (k ++ some i ∷ [])
NoNull-append [] i h = tt
NoNull-append (none ∷ k) i h = absurd h
NoNull-append (some j ∷ k) i h = NoNull-append k i h

-- A call of the server: the handler of the acceptor, or a message to a client, or to all of them
-- but one.
pub data Call (T : Type 0) : Type 0 where
  accepts : Option (ℕ × ℕ) → Call T
  messages : ℕ → Message T → Call T
  messages_all : Option ℕ → Message T → Call T

module _ {T : Type 0} where
  -- The calls of `on_client_disconnect` among what the server does.
  unfoldable pub report_all : List (Effect T) → Outcome (List ℕ)
  report_all [] = done []
  report_all (client_disconnected p ∷ l) =
      on_client_disconnect p >>= λ id. report_all l >>= λ ids. done (id ∷ ids)
  report_all (sends i msg ∷ l) = report_all l
  report_all (connects i id ∷ l) = report_all l

  -- The connections that are up, which change from call to call.
  unfoldable pub call : (ℕ → Bool) → (ℕ → Bool) → Call T → Server T → Server T
  unfolding on_accepted message_client message_all_client visit
  call accepted is_connected (accepts con) s = on_accepted accepted con s
  call accepted is_connected (messages i msg) s = message_client is_connected (some i) msg s
  call accepted is_connected (messages_all ignore msg) s =
      message_all_client is_connected ignore msg s

  unfoldable pub calls : (ℕ → Bool) → List ((ℕ → Bool) × Call T) → Server T → Server T
  calls accepted [] s = s
  calls accepted ((is_connected, c) ∷ cs) s = calls accepted cs (call accepted is_connected c s)

  Readable : List (Effect T) → Type 0
  Readable [] = Unit
  Readable (client_disconnected none ∷ l) = ⊥
  Readable (client_disconnected (some i) ∷ l) = Readable l
  Readable (sends i msg ∷ l) = Readable l
  Readable (connects i id ∷ l) = Readable l

  Readable-append : (k l : List (Effect T)) → Readable k → Readable l → Readable (k ++ l)
  unfolding Readable
  Readable-append [] l h g = g
  Readable-append (client_disconnected none ∷ k) l h g = absurd h
  Readable-append (client_disconnected (some i) ∷ k) l h g = Readable-append k l h g
  Readable-append (sends i msg ∷ k) l h g = Readable-append k l h g
  Readable-append (connects i id ∷ k) l h g = Readable-append k l h g

  report_all-Readable :
      (l : List (Effect T)) → Readable l → (ids : List ℕ) × (report_all l ≡ done ids)
  unfolding Readable report_all
  report_all-Readable [] h = ([], refl)
  report_all-Readable (client_disconnected none ∷ l) h = absurd h
  report_all-Readable (client_disconnected (some i) ∷ l) h =
      let (ids, e) = report_all-Readable l h in (i ∷ ids, rw e refl)
  report_all-Readable (sends i msg ∷ l) h = report_all-Readable l h
  report_all-Readable (connects i id ∷ l) h = report_all-Readable l h

  -- What one live or lost client adds.
  abbrev visited :
      Bool
      → Bool
      → ℕ
      → Message T
      → List (Option ℕ)
      → List (Option ℕ)
      → List (Effect T)
      → List (Option ℕ) × List (Effect T)
  visited up ignored i msg p q rest =
      if up
      then (p, if ignored then rest else sends i msg ∷ rest)
      else (q, client_disconnected (some i) ∷ rest)

  visited-Readable :
      (up ignored : Bool) (i : ℕ) (msg : Message T) (p q : List (Option ℕ)) (rest : List (Effect T))
      → Readable rest
      → Readable (visited up ignored i msg p q rest).1
  unfolding Readable
  visited-Readable true true i msg p q rest h = h
  visited-Readable true false i msg p q rest h = h
  visited-Readable false ignored i msg p q rest h = h

  visit-Readable :
      (up : ℕ → Bool) (ignore : Option ℕ) (msg : Message T) (l : List (Option ℕ))
      → NoNull l
      → Readable (visit up ignore msg l).1
  unfolding visit Readable
  visit-Readable up ignore msg [] h = tt
  visit-Readable up ignore msg (none ∷ l) h = absurd h
  visit-Readable up ignore msg (some i ∷ l) h =
      visited-Readable (up i) (elim ignore [ none ↦ false | some j ↦ i == j ]) i msg _ _
        (visit up ignore msg l).1 (visit-Readable up ignore msg l h)

  record Sound (s : Server T) : Type 0 where
    no_null : NoNull s.m_connections
    readable : Readable s.effects

  if-Sound : (b : Bool) (s t : Server T) → Sound s → Sound t → Sound (if b then s else t)
  if-Sound true s t h k = h
  if-Sound false s t h k = k

  call-Sound :
      (accepted up : ℕ → Bool) (c : Call T) (s : Server T) → Sound s → Sound (call accepted up c s)
  unfolding call on_accepted message_client message_all_client Readable
  call-Sound accepted up (accepts none) s h = h
  call-Sound accepted up (accepts (some (con, id))) s h =
      if-Sound (accepted con) _ _
        (record {
          no_null = NoNull-append s.m_connections con h.no_null;
          readable = Readable-append s.effects (connects con id ∷ []) h.readable tt;
        })
        h
  call-Sound accepted up (messages i msg) s h =
      if-Sound (up i) _ _
        (record {
          no_null = h.no_null;
          readable = Readable-append s.effects (sends i msg ∷ []) h.readable tt;
        })
        (record {
          no_null = drop_null-NoNull s.m_connections;
          readable = Readable-append s.effects (client_disconnected (some i) ∷ []) h.readable tt;
        })
  call-Sound accepted up (messages_all ignore msg) s h = record {
    no_null = drop_null-NoNull (visit up ignore msg s.m_connections).0;
    readable =
        Readable-append s.effects (visit up ignore msg s.m_connections).1 h.readable
          (visit-Readable up ignore msg s.m_connections h.no_null);
  }

  calls-Sound :
      (accepted : ℕ → Bool) (cs : List ((ℕ → Bool) × Call T)) (s : Server T)
      → Sound s
      → Sound (calls accepted cs s)
  unfolding calls
  calls-Sound accepted [] s h = h
  calls-Sound accepted ((up, c) ∷ cs) s h =
      calls-Sound accepted cs (call accepted up c s) (call-Sound accepted up c s h)

  -- A server that begins without connections, and then takes connections in and sends messages to
  -- clients and to all of them, in any order, while connections are lost: its list never holds a
  -- null pointer between two calls, and `on_client_disconnect`, which reads its client, returns
  -- each time that it is called.
  pub calls-NoNull :
      (accepted : ℕ → Bool) (cs : List ((ℕ → Bool) × Call T))
      → NoNull (calls accepted cs (record { m_connections = []; effects = [] })).m_connections
        × (ids : List ℕ) × (report_all
              (calls accepted cs (record { m_connections = []; effects = [] })).effects
            ≡ done ids)
  unfolding Readable
  calls-NoNull accepted cs =
      let sound =
        calls-Sound accepted cs (record { m_connections = []; effects = [] })
          (record { no_null = tt; readable = tt }) in
      let (ids, e) = report_all-Readable _ sound.readable in (sound.no_null, ids, e)
