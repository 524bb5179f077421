-- ===== src/Session.antt =====
-- src/Session/Session.{hpp,cpp}: the state of one session, its sockets, and how it closes. A session
-- starts asynchronous operations of Boost.Asio, each with a handler that runs when the operation
-- completes. The handlers are data; a function returns the operations that it starts. The log lines
-- are left out.
pub mod Message
pub mod Startup
pub mod Bridge
pub mod Tls
pub mod Stages
pub mod Tidy
pub mod Handlers
pub mod Lanes
pub mod Dereferences
pub mod Origin
pub mod Starting
pub mod Bridging
use mathlib.Core.Option
use single_flight_proxy_serv.Prelude.{
  ℕ, zero, suc, Bool, true, false, not, ◌&&◌, ◌||◌, Option, none, some, List, [], ◌∷◌, ◌++◌, Bytes,
  length, take, drop, ◌==◌, if◌then◌else◌, is_some,
}
use Message.{contains, stream_truncated, short_read, protocol_is_shutdown, bad_record_mac}

-- What the code tells apart of an error code; `success` is the code that is false.
pub data ErrorCode : Type 0 where
  success operation_aborted eof system_error : ErrorCode
  ssl_error : Bytes → ErrorCode

unfoldable pub is_expected_ssl_error : ErrorCode → Bool
is_expected_ssl_error operation_aborted = true
is_expected_ssl_error (ssl_error msg) =
    contains stream_truncated msg
    || contains short_read msg
    || contains protocol_is_shutdown msg
    || contains bad_record_mac msg
is_expected_ssl_error success = false
is_expected_ssl_error eof = false
is_expected_ssl_error system_error = false

pub record Socket : Type 0 where
  pub is_open : Bool

pub record Session : Type 0 where
  pub client_ssl_socket : Option Socket
  pub server_ssl_socket : Option Socket
  pub client_buffer : Bytes
  pub server_buffer : Bytes
  pub startup_packet : Bytes
  pub current_query : Bytes
  pub cached_response : Bytes
  pub client_socket : Option Socket
  pub server_socket : Option Socket
  pub ssl_enabled : Bool
  pub is_destroying : Bool
  pub client_closed : Bool
  pub server_closed : Bool

unfoldable pub zeros : ℕ → Bytes
zeros zero = []
zeros (suc n) = 0 ∷ zeros n

-- The constructor, for a client that has connected.
unfoldable pub new_session : Session
new_session = record {
  client_ssl_socket = none;
  server_ssl_socket = none;
  client_buffer = zeros 8192;
  server_buffer = zeros 8192;
  startup_packet = zeros 8192;
  current_query = [];
  cached_response = [];
  client_socket = some (record { is_open = true });
  server_socket = some (record { is_open = false });
  ssl_enabled = false;
  is_destroying = false;
  client_closed = false;
  server_closed = false;
}

pub data Stream : Type 0 where
  client server client_ssl server_ssl : Stream

-- Which callback `connect_to_database` was given.
pub data Target : Type 0 where
  started reconnected : Target

-- The lambdas that the code passes to Boost.Asio.
pub data Handler : Type 0 where
  resolved connected : Target → Handler
  client_startup_read ssl_startup_read ssl_startup_sent : Handler
  ssl_request_sent ssl_answer_read refusal_sent acceptance_sent : Handler
  client_handshaken server_handshaken startup_relayed : Handler
  client_read forwarded_to_server response_sent : Handler
  server_read forwarded_to_client : Handler

pub data Effect : Type 0 where
  resolves : Handler → Effect
  connects reads handshakes : Stream → Handler → Effect
  writes : Stream → Bytes → Handler → Effect
  cancels shuts_down closes : Stream → Effect

-- A step of a session: its state after, and what it starts.
abbrev pub Act : Type 0
Act = Session → Session × List Effect

-- One after the other.
abbrev pub both : Act → Act → Act
both f g s = let (s1, xs) = f s in let (s2, ys) = g s1 in (s2, xs ++ ys)

abbrev pub on_open : Option Socket → Effect → List Effect
on_open none e = []
on_open (some socket) e = if socket.is_open then e ∷ [] else []

abbrev pub closed : Option Socket → Option Socket
closed none = none
closed (some socket) = some (record { is_open = false })

unfoldable pub cleanup_sockets : Act
cleanup_sockets s = (
  record s {
    client_ssl_socket = closed s.client_ssl_socket;
    server_ssl_socket = closed s.server_ssl_socket;
    client_socket = closed s.client_socket;
    server_socket = closed s.server_socket;
  },
  on_open s.client_ssl_socket (cancels client_ssl)
      ++ on_open s.server_ssl_socket (cancels server_ssl)
      ++ on_open s.client_socket (cancels client)
      ++ on_open s.server_socket (cancels server)
      ++ on_open s.client_ssl_socket (shuts_down client_ssl)
      ++ on_open s.server_ssl_socket (shuts_down server_ssl)
      ++ on_open s.client_ssl_socket (closes client_ssl)
      ++ on_open s.server_ssl_socket (closes server_ssl)
      ++ on_open s.client_socket (closes client)
      ++ on_open s.server_socket (closes server),
)

unfoldable pub close : Act
close s = if s.is_destroying then (s, []) else cleanup_sockets (record s { is_destroying = true })

-- The destructor.
unfoldable pub destroy : Act
destroy s =
    let (s1, effects) = cleanup_sockets (record s { is_destroying = true }) in
    (record s1 { client_ssl_socket = none; server_ssl_socket = none }, effects)

-- What most handlers do with an error.
unfoldable pub fail : ErrorCode → Act
fail ec s = if is_expected_ssl_error ec then (s, []) else close s

-- A read fills the front of a buffer.
abbrev pub fill : Bytes → Bytes → Bytes
fill bytes buffer = bytes ++ drop (length bytes) buffer

unfoldable pub is_server_ssl_enabled : Session → Bool
is_server_ssl_enabled s = s.ssl_enabled && is_some s.server_ssl_socket

unfoldable pub get_server_socket : Session → Bool
get_server_socket s = elim s.server_socket [ none ↦ false | some socket ↦ socket.is_open ]
