-- ===== src/Session/Bridge.antt =====
-- The bridge of src/Session/Session.cpp: what a session reads from one side it writes to the other.
-- The handlers that ask the query cache are in Proxy.
use single_flight_proxy_serv.Prelude.{
  ℕ, true, ◌&&◌, ◌||◌, Option, none, some, [], ◌∷◌, Bytes, length, take, if◌then◌else◌, is_some,
}
use single_flight_proxy_serv.Session.{
  Session, Stream, client, server, client_ssl, server_ssl, client_read, forwarded_to_server,
  response_sent, server_read, forwarded_to_client, Effect, reads, writes, Act, close, fail,
  ErrorCode, success, eof, is_server_ssl_enabled, get_server_socket,
}

-- `ssl_enabled_ && client_ssl_socket_`, else `client_socket_`: the stream to the client.
unfoldable pub client_stream : Session → Option Stream
client_stream s =
    if s.ssl_enabled && is_some s.client_ssl_socket
    then some client_ssl
    else (if is_some s.client_socket then some client else none)

-- The stream to the server.
unfoldable pub server_stream : Session → Option Stream
unfolding is_server_ssl_enabled get_server_socket
server_stream s =
    if is_server_ssl_enabled s
    then some server_ssl
    else (if get_server_socket s then some server else none)

-- Where there is no stream, the session closes.
unfoldable pub or_close : Option Stream → (Stream → Effect) → Act
or_close (some stream) e s = (s, e stream ∷ [])
or_close none e s = close s

unfoldable pub bridge_client_to_server : Act
bridge_client_to_server s =
    if s.is_destroying
    then (s, [])
    else or_close (client_stream s) (λ stream. reads stream client_read) s

unfoldable pub bridge_server_to_client : Act
bridge_server_to_client s =
    if s.is_destroying || s.server_closed
    then (s, [])
    else or_close (server_stream s) (λ stream. reads stream server_read) s

-- The end of the client's read handler.
unfoldable pub forward_to_server : ℕ → Act
forward_to_server length s =
    if s.server_closed
    then (s, [])
    else or_close (server_stream s)
        (λ stream. writes stream (take length s.client_buffer) forwarded_to_server) s

-- The end of the server's read handler.
unfoldable pub forward_to_client : ℕ → Act
forward_to_client length s =
    if s.client_closed
    then (s, [])
    else or_close (client_stream s)
        (λ stream. writes stream (take length s.server_buffer) forwarded_to_client) s

unfoldable pub on_client_error : ErrorCode → Act
on_client_error eof s =
    let s1 = record s { client_closed = true } in if s1.server_closed then close s1 else (s1, [])
on_client_error ec s = fail ec s

unfoldable pub on_server_error : ErrorCode → Act
on_server_error eof s =
    let s1 = record s { server_closed = true } in if s1.client_closed then close s1 else (s1, [])
on_server_error ec s = fail ec s

unfoldable pub on_forwarded_to_server : ErrorCode → Act
on_forwarded_to_server success s = bridge_client_to_server s
on_forwarded_to_server ec s = fail ec s

unfoldable pub on_forwarded_to_client : ErrorCode → Act
on_forwarded_to_client success s = bridge_server_to_client s
on_forwarded_to_client ec s = fail ec s

-- `send_result`: no stream, no write.
unfoldable pub send_result : Bytes → Act
send_result response s = elim (client_stream s) [
  | none ↦ (s, [])
  | some stream ↦ (s, writes stream response response_sent ∷ [])
]

-- The callback that a session leaves with the cache.
unfoldable pub on_result : Bytes → Act
on_result result s =
    if s.is_destroying
    then (s, [])
    else (let s1 = record s { cached_response = result } in send_result s1.cached_response s1)

unfoldable pub on_response_sent : ErrorCode → Act
on_response_sent success s = bridge_client_to_server s
on_response_sent ec s = (s, [])
