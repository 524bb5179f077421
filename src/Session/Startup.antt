-- ===== src/Session/Startup.antt =====
-- src/Session/Session.cpp before the bridge: the connection to the database, the client's first
-- packet, and the two TLS handshakes.
use single_flight_proxy_serv.Prelude.{
  ℕ, Bool, true, false, not, ◌&&◌, ◌||◌, Option, none, some, [], ◌∷◌, Bytes, length, take, ◌==◌,
  if◌then◌else◌, is_some,
}
use single_flight_proxy_serv.Session.{
  Socket, client, server, client_ssl, server_ssl, Target, started, reconnected, resolved, connected,
  client_startup_read, ssl_startup_read, ssl_startup_sent, ssl_request_sent, ssl_answer_read,
  refusal_sent, acceptance_sent, client_handshaken, server_handshaken, startup_relayed, resolves,
  connects, reads, handshakes, writes, Act, both, close, closed, fail, fill, ErrorCode, success,
}
use single_flight_proxy_serv.Session.Bridge.{bridge_client_to_server, bridge_server_to_client}
use single_flight_proxy_serv.Session.Message.{is_ssl_request, byte_at}

-- Whether the construction of the two TLS streams throws, and where: at the first stream, at the
-- second, or when a verify mode is set behind both.
pub data Creation : Type 0 where
  created client_throws server_throws mode_throws : Creation

unfoldable pub connect_to_database : Target → Act
connect_to_database t s = if s.is_destroying then (s, []) else (s, resolves (resolved t) ∷ [])

unfoldable pub start : Act
unfolding connect_to_database
start s =
    if s.is_destroying
    then (s, [])
    else (if is_some s.client_socket then connect_to_database started s else (s, []))

unfoldable pub read_client_startup : Act
read_client_startup s =
    if s.is_destroying || not (is_some s.client_socket)
    then (s, [])
    else (s, reads client client_startup_read ∷ [])

unfoldable pub read_client_startup_after_ssl : Act
read_client_startup_after_ssl s =
    if s.is_destroying || not (is_some s.client_ssl_socket)
    then (s, [])
    else (s, reads client_ssl ssl_startup_read ∷ [])

-- 00 00 00 08 04 d2 16 2f
abbrev pub ssl_request_data : Bytes
ssl_request_data = 0 ∷ 0 ∷ 0 ∷ 8 ∷ 4 ∷ 210 ∷ 22 ∷ 47 ∷ []

abbrev pub is_closed : Option Socket → Bool
is_closed none = false
is_closed (some socket) = not socket.is_open

unfoldable pub check_server_ssl_support : Act
unfolding connect_to_database
check_server_ssl_support s =
    if s.is_destroying || not (is_some s.server_socket)
    then (s, [])
    else (if is_closed s.server_socket
        then connect_to_database reconnected s
        else (s, writes server ssl_request_data ssl_request_sent ∷ []))

unfoldable pub handle_ssl_request : Act
handle_ssl_request s =
    if s.is_destroying || not (is_some s.client_socket)
    then (s, [])
    else (s, writes client (b'N' ∷ []) refusal_sent ∷ [])

unfoldable pub perform_ssl_handshake : Act
unfolding close
perform_ssl_handshake s =
    if s.is_destroying
    then (s, [])
    else (if is_some s.client_socket && is_some s.server_socket
        then (s, writes client (b'S' ∷ []) acceptance_sent ∷ [])
        else close s)

unfoldable pub relay_to_server : ℕ → Act
relay_to_server length s =
    if s.is_destroying || not (is_some s.server_socket)
    then (s, [])
    else (s, writes server (take length s.client_buffer) startup_relayed ∷ [])

-- The callback that `connect_to_database` was given.
unfoldable pub on_connected : Target → ErrorCode → Act
on_connected started success s = read_client_startup s
on_connected reconnected success s = check_server_ssl_support s
on_connected t ec s = close s

-- `async_connect` opens the socket.
abbrev pub opened : Option Socket → Option Socket
opened none = none
opened (some socket) = some (record { is_open = true })

-- `async_connect` is given `*server_socket_`: `resolved_derefs` of Session/Dereferences.
unfoldable pub on_resolved : Target → ErrorCode → Act
on_resolved t success s =
    (record s { server_socket = opened s.server_socket }, connects server (connected t) ∷ [])
on_resolved t ec s = on_connected t ec s

unfoldable pub on_client_startup : ErrorCode → Bytes → Act
on_client_startup success bytes s =
    let s1 = record s { client_buffer = fill bytes s.client_buffer } in
    if is_ssl_request s1.client_buffer (length bytes)
    then check_server_ssl_support
        (record s1 { startup_packet = take (length bytes) s1.client_buffer })
    else relay_to_server (length bytes) s1
on_client_startup ec bytes s = fail ec s

unfoldable pub on_ssl_startup : ErrorCode → Bytes → Act
on_ssl_startup success bytes s =
    let s1 = record s { client_buffer = fill bytes s.client_buffer } in
    if is_some s1.server_ssl_socket
    then (s1, writes server_ssl (take (length bytes) s1.client_buffer) ssl_startup_sent ∷ [])
    else (s1, [])
on_ssl_startup ec bytes s = fail ec s

unfoldable pub on_ssl_startup_sent : ErrorCode → Act
on_ssl_startup_sent success s = both bridge_server_to_client bridge_client_to_server s
on_ssl_startup_sent ec s = close s

-- `async_read` is given `*server_socket_`: `request_derefs` of Session/Dereferences.
unfoldable pub on_ssl_request_sent : ErrorCode → Act
on_ssl_request_sent success s = (s, reads server ssl_answer_read ∷ [])
on_ssl_request_sent ec s = fail ec s

unfoldable pub on_ssl_answer : ErrorCode → Bytes → Act
on_ssl_answer success bytes s =
    if byte_at 0 bytes == b'S' then perform_ssl_handshake s else handle_ssl_request s
on_ssl_answer ec bytes s = fail ec s

unfoldable pub on_refusal_sent : ErrorCode → Act
on_refusal_sent success s = relay_to_server (length s.startup_packet) s
on_refusal_sent ec s = fail ec s

-- The `try` block: the TLS streams take over the two sockets, unless a constructor throws. A socket
-- that has been moved from is closed. Both sockets are dereferenced: `streams_derefs` of
-- Session/Dereferences.
unfoldable pub create_streams : Creation → Act
create_streams created s = (
  record s {
    client_ssl_socket = s.client_socket;
    server_ssl_socket = s.server_socket;
    client_socket = none;
    server_socket = none;
  },
  handshakes client_ssl client_handshaken ∷ [],
)
create_streams client_throws s = close (record s { client_socket = closed s.client_socket })
create_streams server_throws s = close (record s {
  client_ssl_socket = s.client_socket;
  client_socket = closed s.client_socket;
  server_socket = closed s.server_socket;
})
create_streams mode_throws s = close (record s {
  client_ssl_socket = s.client_socket;
  server_ssl_socket = s.server_socket;
  client_socket = none;
  server_socket = none;
})

unfoldable pub on_acceptance_sent : ErrorCode → Creation → Act
on_acceptance_sent success c s = create_streams c s
on_acceptance_sent ec c s = fail ec s

unfoldable pub on_client_handshake : ErrorCode → Act
on_client_handshake success s =
    if is_some s.server_ssl_socket
    then (s, handshakes server_ssl server_handshaken ∷ [])
    else close s
on_client_handshake ec s = close s

unfoldable pub on_server_handshake : ErrorCode → Act
on_server_handshake success s = read_client_startup_after_ssl (record s { ssl_enabled = true })
on_server_handshake ec s = fail ec s

unfoldable pub on_startup_relayed : ErrorCode → Act
on_startup_relayed success s = both bridge_client_to_server bridge_server_to_client s
on_startup_relayed ec s = fail ec s
