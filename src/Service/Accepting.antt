-- ===== src/Service/Accepting.antt =====
-- How a client is taken in: the handler of `wait_for_client_connection` in
-- src/change_lib/net/server_interface.hpp with `on_client_connect` of
-- src/change_service/change_server.hpp, on the connection itself.
use wallchanger.Base.{
  ℕ, Bool, true, false, ◌≡◌, refl, [], if◌then◌else◌, Outcome, done, fault, terminated,
}
use wallchanger.Net.Connection.{Connection, server, send_message, connect_to_client, is_connected}
use wallchanger.Net.Startup.{new_connection}
use wallchanger.Net.Types.{MessageType}
use wallchanger.Service.Server.{on_client_connect}

-- The time, the new identifier, the identity of the connection, and whether `remote_endpoint` can
-- be read for the log: it throws when the client is gone again, and nothing catches that in the
-- thread of the context. `on_client_connect` is called before `connect_to_client`.
unfoldable pub accept : ℕ → ℕ → ℕ → Bool → Outcome (Connection MessageType)
unfolding new_connection send_message connect_to_client
accept now id self endpoint_read =
    if endpoint_read
    then (let con = new_connection MessageType.Server_GetStatus server self true [] in
        let (allowed, msg) = on_client_connect now in
        let greeted = send_message msg con in
        if allowed then done (connect_to_client id greeted) else done greeted)
    else fault terminated

-- A client whose connection is lost before its address is logged ends the program. Any other one is
-- taken in, with its identifier and connected, but without a greeting: the message of
-- `on_client_connect` is dropped, as the connection counts as connected only afterwards, and
-- nothing is queued or posted.
pub accept_lem :
    (now id self : ℕ)
    → (accept now id self false ≡ fault terminated)
      × (con : Connection MessageType) × (accept now id self true ≡ done con)
      × (con.posted ≡ [])
      × (con.m_outbound ≡ [])
      × (is_connected con ≡ true)
      × (con.m_id ≡ id)
unfolding accept new_connection send_message connect_to_client
accept_lem now id self = (refl, _, refl, refl, refl, refl, refl)
