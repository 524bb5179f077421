-- ===== src/Session/Tidy.antt =====
-- The sockets of a session of src/Session/Session.cpp that is closing: none of them is open.
use single_flight_proxy_serv.Prelude.{
  ℕ, ◌≡◌, refl, Bool, true, false, Option, none, some, List, Bytes, Option-cases, inl, inr,
  if◌then◌else◌, is_some,
}
use single_flight_proxy_serv.Session.{
  Session, Socket, Effect, closed, cleanup_sockets, close, fail, ErrorCode, success, Target,
  started, reconnected, Stream, is_expected_ssl_error,
}
use single_flight_proxy_serv.Session.Startup.{
  connect_to_database, start, read_client_startup, check_server_ssl_support, perform_ssl_handshake,
  relay_to_server, on_connected,
}
use single_flight_proxy_serv.Session.Bridge.{
  or_close, bridge_client_to_server, bridge_server_to_client, forward_to_server, forward_to_client,
  send_result, client_stream, server_stream,
}

abbrev pub NotOpen : Option Socket → Type 0
NotOpen none = Unit {0}
NotOpen (some socket) = socket.is_open ≡ false

pub record IsShut (s : Session) : Type 0 where
  pub client_ssl : NotOpen s.client_ssl_socket
  pub server_ssl : NotOpen s.server_ssl_socket
  pub client : NotOpen s.client_socket
  pub server : NotOpen s.server_socket

-- The session is not closing, or all its sockets are closed.
pub data IsTidy (s : Session) : Type 0 where
  is_running : s.is_destroying ≡ false → IsTidy s
  is_shut : IsShut s → IsTidy s

closed-NotOpen : (o : Option Socket) → NotOpen (closed o)
closed-NotOpen none = tt
closed-NotOpen (some socket) = refl

cleanup_sockets-IsShut : (s : Session) → IsShut (cleanup_sockets s).0
unfolding cleanup_sockets
cleanup_sockets-IsShut s = record {
  client_ssl = closed-NotOpen s.client_ssl_socket;
  server_ssl = closed-NotOpen s.server_ssl_socket;
  client = closed-NotOpen s.client_socket;
  server = closed-NotOpen s.server_socket;
}

pub if-IsTidy :
    (b : Bool) (x y : Session × List Effect)
    → IsTidy x.0
    → IsTidy y.0
    → IsTidy (if b then x else y).0
if-IsTidy true x y h k = h
if-IsTidy false x y h k = k

module _ (s : Session) (t : IsTidy s) where
  pub close-IsTidy : IsTidy (close s).0
  unfolding close
  close-IsTidy = if-IsTidy s.is_destroying _ _ t (is_shut (cleanup_sockets-IsShut _))

  pub fail-IsTidy : (ec : ErrorCode) → IsTidy (fail ec s).0
  unfolding fail
  fail-IsTidy ec = if-IsTidy (is_expected_ssl_error ec) _ _ t close-IsTidy

  pub or_close-IsTidy : (o : Option Stream) (e : Stream → Effect) → IsTidy (or_close o e s).0
  unfolding or_close
  or_close-IsTidy (some stream) e = t
  or_close-IsTidy none e = close-IsTidy

  pub connect_to_database-IsTidy : (target : Target) → IsTidy (connect_to_database target s).0
  unfolding connect_to_database
  connect_to_database-IsTidy target = if-IsTidy s.is_destroying _ _ t t

  pub start-IsTidy : IsTidy (start s).0
  unfolding start
  start-IsTidy =
      if-IsTidy s.is_destroying _ _ t
        (if-IsTidy (is_some s.client_socket) _ _ (connect_to_database-IsTidy started) t)

  pub read_client_startup-IsTidy : IsTidy (read_client_startup s).0
  unfolding read_client_startup
  read_client_startup-IsTidy = if-IsTidy _ _ _ t t

  pub check_server_ssl_support-IsTidy : IsTidy (check_server_ssl_support s).0
  unfolding check_server_ssl_support
  check_server_ssl_support-IsTidy =
      if-IsTidy _ _ _ t (if-IsTidy _ _ _ (connect_to_database-IsTidy reconnected) t)

  pub perform_ssl_handshake-IsTidy : IsTidy (perform_ssl_handshake s).0
  unfolding perform_ssl_handshake
  perform_ssl_handshake-IsTidy = if-IsTidy s.is_destroying _ _ t (if-IsTidy _ _ _ t close-IsTidy)

  pub relay_to_server-IsTidy : (n : ℕ) → IsTidy (relay_to_server n s).0
  unfolding relay_to_server
  relay_to_server-IsTidy n = if-IsTidy _ _ _ t t

  pub on_connected-IsTidy : (target : Target) (ec : ErrorCode) → IsTidy (on_connected target ec s).0
  unfolding on_connected
  on_connected-IsTidy started success = read_client_startup-IsTidy
  on_connected-IsTidy reconnected success = check_server_ssl_support-IsTidy
  on_connected-IsTidy started _ = close-IsTidy
  on_connected-IsTidy reconnected _ = close-IsTidy

  pub bridge_client_to_server-IsTidy : IsTidy (bridge_client_to_server s).0
  unfolding bridge_client_to_server
  bridge_client_to_server-IsTidy =
      if-IsTidy s.is_destroying _ _ t (or_close-IsTidy (client_stream s) _)

  pub bridge_server_to_client-IsTidy : IsTidy (bridge_server_to_client s).0
  unfolding bridge_server_to_client
  bridge_server_to_client-IsTidy = if-IsTidy _ _ _ t (or_close-IsTidy (server_stream s) _)

  pub forward_to_server-IsTidy : (n : ℕ) → IsTidy (forward_to_server n s).0
  unfolding forward_to_server
  forward_to_server-IsTidy n = if-IsTidy s.server_closed _ _ t (or_close-IsTidy (server_stream s) _)

  pub forward_to_client-IsTidy : (n : ℕ) → IsTidy (forward_to_client n s).0
  unfolding forward_to_client
  forward_to_client-IsTidy n = if-IsTidy s.client_closed _ _ t (or_close-IsTidy (client_stream s) _)

  pub send_result-IsTidy : (response : Bytes) → IsTidy (send_result response s).0
  unfolding send_result
  send_result-IsTidy response = elim (Option-cases (client_stream s)) [
    | inl absent ↦ rw (absent, send_result) t
    | inr (stream, there) ↦ rw (there, send_result) t
  ]
