-- ===== src/Net/Server.antt =====
-- src/change_lib/net/server_interface.hpp: the loops over the queue and over the connections. A
-- `shared_ptr` is the identity of its connection, or `none`; the callbacks that a server overrides
-- are arguments.
use wallchanger.Base.{
  ℕ, zero, suc, Bool, false, ◌≡◌, refl, ap, List, [], ◌∷◌, ◌++◌, Option, none, some, if◌then◌else◌,
  nat_ordered, ◌==◌, contains_first, take, drop, arith, Bool-cases, inl, inr,
}
use mathlib.Core.List.{foldl}
use wallchanger.Net.Message.{Message}
use wallchanger.Net.Connection.{OwnedMessage}

-- What a server does to its clients.
pub data Effect (T : Type 0) : Type 0 where
  sends : ℕ → Message T → Effect T
  client_disconnected : Option ℕ → Effect T
  -- `connect_to_client` with a new identifier.
  connects : ℕ → ℕ → Effect T

pub record Server (T : Type 0) : Type 0 where
  pub m_connections : List (Option ℕ)
  pub effects : List (Effect T)

-- `std::remove` and `erase` of the null pointers.
abbrev pub drop_null : List (Option ℕ) → List (Option ℕ)
drop_null [] = []
drop_null (none ∷ l) = drop_null l
drop_null (some i ∷ l) = some i ∷ drop_null l

abbrev pub is_live : (ℕ → Bool) → Option ℕ → Bool
is_live is_connected none = false
is_live is_connected (some i) = is_connected i

module _ {T : Type 0} where
  -- The handler of `wait_for_client_connection`, which then waits again: an error, or a new
  -- connection with the identifier it may get, whose address was read for the log (Service.Accepting
  -- has the case that it cannot). `on_client_connect` decides.
  unfoldable pub on_accepted : (ℕ → Bool) → Option (ℕ × ℕ) → Server T → Server T
  on_accepted on_client_connect none s = s
  on_accepted on_client_connect (some (con, id)) s =
      if on_client_connect con
      then record {
        m_connections = s.m_connections ++ some con ∷ [];
        effects = s.effects ++ connects con id ∷ [];
      }
      else s

module _ {T : Type 0} (is_connected : ℕ → Bool) where
  -- `client` is reset before the list is searched for it.
  unfoldable pub message_client : Option ℕ → Message T → Server T → Server T
  message_client none msg s = record {
    m_connections = drop_null s.m_connections;
    effects = s.effects ++ client_disconnected none ∷ [];
  }
  message_client (some i) msg s =
      if is_connected i then record s { effects = s.effects ++ sends i msg ∷ [] } else record {
        m_connections = drop_null s.m_connections;
        effects = s.effects ++ client_disconnected (some i) ∷ [];
      }

  -- The loop of `message_all_client`: the pointers it leaves, and what it does.
  unfoldable pub visit : Option ℕ → Message T → List (Option ℕ) → List (Option ℕ) × List (Effect T)
  visit ignore msg [] = ([], [])
  visit ignore msg (none ∷ l) =
      let rest = visit ignore msg l in (none ∷ rest.0, client_disconnected none ∷ rest.1)
  visit ignore msg (some i ∷ l) =
      let rest = visit ignore msg l in
      if is_connected i
      then (
        some i ∷ rest.0,
        if elim ignore [ none ↦ false | some j ↦ i == j ] then rest.1 else sends i msg ∷ rest.1,
      )
      else (none ∷ rest.0, client_disconnected (some i) ∷ rest.1)

  unfoldable pub message_all_client : Option ℕ → Message T → Server T → Server T
  message_all_client ignore msg s = record {
    m_connections = drop_null (visit ignore msg s.m_connections).0;
    effects = s.effects ++ (visit ignore msg s.m_connections).1;
  }

-- `update`: the messages handled so far are counted up to `max_msg`.
module _ {T S : Type 0} (on_message : Option ℕ → Message T → S → S) where
  unfoldable pub update : ℕ → List (OwnedMessage T) → S → List (OwnedMessage T) × S
  update zero queue s = (queue, s)
  update (suc left) [] s = ([], s)
  update (suc left) (m ∷ queue) s = update left queue (on_message m.remote m.msg s)

-- The pointers that stay, and what is to be done for one.
abbrev pub live_only : (ℕ → Bool) → List (Option ℕ) → List (Option ℕ)
live_only is_connected [] = []
live_only is_connected (p ∷ l) =
    if is_live is_connected p then p ∷ live_only is_connected l else live_only is_connected l

module _ {T : Type 0} (is_connected : ℕ → Bool) where
  abbrev pub effects_of : Option ℕ → Message T → Option ℕ → List (Effect T)
  effects_of ignore msg none = client_disconnected none ∷ []
  effects_of ignore msg (some i) =
      if is_connected i
      then if elim ignore [ none ↦ false | some j ↦ i == j ] then [] else sends i msg ∷ []
      else client_disconnected (some i) ∷ []

  abbrev pub all_effects : Option ℕ → Message T → List (Option ℕ) → List (Effect T)
  all_effects ignore msg [] = []
  all_effects ignore msg (p ∷ l) = effects_of ignore msg p ++ all_effects ignore msg l

  visit_lem :
      (ignore : Option ℕ) (msg : Message T) (l : List (Option ℕ))
      → (drop_null (visit is_connected ignore msg l).0 ≡ live_only is_connected l)
        × ((visit is_connected ignore msg l).1 ≡ all_effects ignore msg l)
  unfolding visit
  visit_lem ignore msg [] = (refl, refl)
  visit_lem ignore msg (none ∷ l) =
      let k = visit_lem ignore msg l in (k.0, ap (◌∷◌ (client_disconnected none)) k.1)
  visit_lem ignore msg (some i ∷ l) =
      let k = visit_lem ignore msg l in
      elim (Bool-cases (is_connected i)) [
        | inl up ↦ (rw up (ap (◌∷◌ (some i)) k.0), rw up (ground (arith, k.1)))
        | inr down ↦ (rw down k.0, rw down (ap (◌∷◌ (client_disconnected (some i))) k.1))
      ]

  -- `message_all_client` keeps the live connections, in their order, and no other; each of them but
  -- the one to ignore gets the message once, in this order, and every other pointer is reported.
  pub message_all_client_lem :
      (ignore : Option ℕ) (msg : Message T) (s : Server T)
      → ((message_all_client is_connected ignore msg s).m_connections
          ≡ live_only is_connected s.m_connections)
        × ((message_all_client is_connected ignore msg s).effects
            ≡ s.effects ++ all_effects ignore msg s.m_connections)
  unfolding message_all_client
  message_all_client_lem ignore msg s =
      let k = visit_lem ignore msg s.m_connections in (k.0, ap (λ l. s.effects ++ l) k.1)

-- Whether the list points to a connection.
abbrev pub points_to : ℕ → List (Option ℕ) → Bool
points_to j l = contains_first (λ p. elim p [ none ↦ false | some i ↦ i == j ]) l

points_to-drop_null : (j : ℕ) (l : List (Option ℕ)) → points_to j (drop_null l) ≡ points_to j l
unfolding contains_first
points_to-drop_null j [] = refl
points_to-drop_null j (none ∷ l) = points_to-drop_null j l
points_to-drop_null j (some i ∷ l) = ground (arith, points_to-drop_null j l)

-- `message_client`, of any pointer and connected or not, takes no connection off the list.
pub points_to-message_client :
    {T : Type 0} (is_connected : ℕ → Bool) (client : Option ℕ) (msg : Message T) (s : Server T)
    (j : ℕ)
    → points_to j (message_client is_connected client msg s).m_connections
      ≡ points_to j s.m_connections
unfolding message_client
points_to-message_client is_connected none msg s j = points_to-drop_null j s.m_connections
points_to-message_client is_connected (some i) msg s j = elim (Bool-cases (is_connected i)) [
  | inl up ↦ rw (up, message_client) refl
  | inr down ↦ rw (down, message_client) (points_to-drop_null j s.m_connections)
]

-- The call of `on_message` for one message.
abbrev pub handle : {T S : Type 0} → (Option ℕ → Message T → S → S) → S → OwnedMessage T → S
handle on_message s m = on_message m.remote m.msg s

-- `update` hands over the first messages of the queue, as many as the limit allows, each once and
-- in order, and leaves the others.
pub update_lem :
    {T S : Type 0} (on_message : Option ℕ → Message T → S → S) (max_msg : ℕ)
    (queue : List (OwnedMessage T)) (s : S)
    → update on_message max_msg queue s
      ≡ (drop max_msg queue, foldl (handle on_message) s (take max_msg queue))
unfolding update
update_lem on_message zero queue s = refl
update_lem on_message (suc left) [] s = refl
update_lem on_message (suc left) (m ∷ queue) s =
    update_lem on_message left queue (on_message m.remote m.msg s)
