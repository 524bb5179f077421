-- ===== src/Tests/Sessions.antt =====
-- Tests of src/Session/Session.cpp: messages, requests for TLS, and two sessions with one query.
use mathlib.Core.List.{lookup}
use single_flight_proxy_serv.Prelude.{
  ℕ, ◌/◌, ◌^◌, ◌<◌, ◌≡◌, ◌≢◌, ◌↔◌, refl, true, false, Option, none, some, [], ◌∷◌, ◌++◌, map, Bytes,
  length, take, drop, arith, Bytes-discrete,
}
use single_flight_proxy_serv.Prelude.Outcome.{ok}
use single_flight_proxy_serv.SingleFlight as Flights
use single_flight_proxy_serv.SingleFlight.{update, do_single_flight, find_or_create, create, init}
use single_flight_proxy_serv.Prelude.Dict.{insert}
use single_flight_proxy_serv.SingleFlight.Refinement.{
  view as waiting, asks, init-IsQuiet, step, step-Agree,
}
use single_flight_proxy_serv.SingleFlight.Delivery.{step-leads}
use single_flight_proxy_serv.QueryCache.Sound.{IsSound}
use single_flight_proxy_serv.QueryCache.L1.History.{spec_exec, init-Inv}
use single_flight_proxy_serv.QueryCache.L1.Spec.{spec_get}
use single_flight_proxy_serv.QueryCache.L2.{connect_redis}
use single_flight_proxy_serv.QueryCache.Hash.{hash_query}
use single_flight_proxy_serv.QueryCache.{QueryCache, new_cache}
use single_flight_proxy_serv.Session.{
  response_sent, Session, Socket, client, server, writes, eof, forwarded_to_server,
  forwarded_to_client,
}
use single_flight_proxy_serv.Session.Message.{
  is_sql_query, extract_sql_query, until_zero, query_message, extract_sql_query-until_zero,
  query_message-extract, HasNoZero, is_ssl_request, request_packet, is_ssl_request-code, byte_at,
}
use single_flight_proxy_serv.Session.Bridge.{client_stream, server_stream}
use single_flight_proxy_serv.Session.Tls.{Refused, request-Refused}
use single_flight_proxy_serv.Proxy.{Proxy, Started, complete, run}
use single_flight_proxy_serv.Proxy.Relay.{IsQuery, responses}
use single_flight_proxy_serv.Proxy.Closed.{Proceeds, run-Proceeds}
use single_flight_proxy_serv.Proxy.Turns.{client_sends, server_sends}
use single_flight_proxy_serv.Proxy.Fetch.{
  query-Fetched, query-Refetched, requests, operations, Setting,
}
use single_flight_proxy_serv.Proxy.Lost.{server_fails, flight-Lost}
use single_flight_proxy_serv.Tests.{key_a, result_one}
use single_flight_proxy_serv.Tests.Servers.{connected, connected-Absent, memory, build}

-- The message `Q`, its length, `a`, and a zero byte; and what an older read has left behind it.
abbrev pub message : Bytes
message = query_message (0 ∷ 0 ∷ 0 ∷ 6 ∷ []) key_a

abbrev pub left : Bytes
left = b'x' ∷ b'y' ∷ []

no_zero : HasNoZero key_a
no_zero = (λ e. omega arith, tt)

extract_sql_query-until_zero_example :
    extract_sql_query (message ++ left) 7 ≡ until_zero (drop 5 (take 7 (message ++ left)))
unfolding query_message
extract_sql_query-until_zero_example =
    extract_sql_query-until_zero (message ++ left) 7 (omega arith)

query_message-extract_example :
    (is_sql_query (message ++ left) (length message) ≡ true)
    × (extract_sql_query (message ++ left) (length message) ≡ key_a)
query_message-extract_example = query_message-extract 0 0 0 6 key_a left no_zero

abbrev gss_code : ℕ
gss_code = 80877104

is_ssl_request-code_example :
    (is_ssl_request (request_packet gss_code ++ left) 8 ≡ true) ↔ (gss_code / 2 ^ 16 ≡ 1234)
is_ssl_request-code_example = is_ssl_request-code gss_code left (omega arith)

abbrev open_socket : Option Socket
open_socket = some (record { is_open = true })

-- A session between its two sockets.
abbrev pub session : Session
session = record {
  client_ssl_socket = none;
  server_ssl_socket = none;
  client_buffer = left;
  server_buffer = left;
  startup_packet = [];
  current_query = [];
  cached_response = [];
  client_socket = open_socket;
  server_socket = open_socket;
  ssl_enabled = false;
  is_destroying = false;
  client_closed = false;
  server_closed = false;
}

abbrev pub ssl_code : ℕ
ssl_code = 80877103

request-Refused_example : Refused session (request_packet ssl_code) b'N'
unfolding is_ssl_request byte_at
request-Refused_example =
    request-Refused (request_packet ssl_code) b'N' session
      (record {
        running = refl;
        client = (record { is_open = true }, refl);
        server = (record { is_open = true }, refl, refl);
      })
      (λ old. refl) refl

-- An empty cache with an empty server behind it.
abbrev pub empty : QueryCache memory ℕ
empty = record (new_cache build []) { l2 = connected }

pub empty-IsSound : IsSound empty
unfolding new_cache
empty-IsSound = record { list = init-Inv; positive = omega arith; quiet = init-IsQuiet }

abbrev pub proxy : Proxy memory
proxy = record { sessions = λ i. session; cache = empty }

run-Proceeds_example :
    Proceeds proxy
      (λ i. Unit {0})
      (run build
        (client_sends message 1 ∷ server_sends result_one 1 ∷ server_fails eof 2 ∷ [])
        proxy)
run-Proceeds_example =
    run-Proceeds build
      (client_sends message 1 ∷ server_sends result_one 1 ∷ server_fails eof 2 ∷ []) proxy
      empty-IsSound

pub message-IsQuery : IsQuery message key_a
message-IsQuery old = query_message-extract 0 0 0 6 key_a old no_zero

-- Session 1 asks, and sessions 2 and 3 after it.
setting : Setting build 1 (2 ∷ 3 ∷ []) message key_a server (λ j. client) proxy
unfolding new_cache connect_redis Flights.init lookup hash_query spec_exec spec_get client_stream
    server_stream
setting = record {
  sound = empty-IsSound;
  absent = connected-Absent (hash_query build.md5 key_a);
  missing = refl;
  free = refl;
  message = message-IsQuery;
  not_empty = refl;
  server_reads = refl;
  server = refl;
  client_reads = refl;
  ready = (refl, refl, (refl, refl, (refl, refl, tt)));
}

query-Fetched_example :
    (after : Proxy memory) × (run build
        (client_sends message 1 ∷ map (client_sends message) (2 ∷ 3 ∷ [])
          ++ server_sends result_one 1 ∷ [])
        proxy
      ≡ ok (
        after,
        (1, writes server message forwarded_to_server)
              ∷ responses (λ j. client) result_one (2 ∷ 3 ∷ [])
            ++ (1, writes client result_one forwarded_to_client) ∷ [],
      ))
    × (waiting after.cache.singleflight (hash_query build.md5 key_a) ≡ none)
query-Fetched_example =
    query-Fetched build 1 (2 ∷ 3 ∷ []) message key_a result_one server (λ j. client) proxy setting

-- Session 1 leads, and its server goes away.
abbrev key : Bytes
key = hash_query build.md5 key_a

abbrev led : QueryCache memory ℕ
led = record empty { singleflight = (step (asks key 1) Flights.init).0 }

led-IsSound : IsSound led
unfolding new_cache
led-IsSound = record {
  list = init-Inv;
  positive = omega arith;
  quiet = (step-Agree (asks key 1) Flights.init init-IsQuiet).quiet;
}

abbrev leading : Proxy memory
leading = record { sessions = λ i. session; cache = led }

abbrev one : ℕ
one = 1

apart : (j : ℕ) → 1 < j → one ≢ j
apart j h e = omega arith

flight-Lost_example :
    (failed after : Proxy memory) × (xs : Started) × (complete build (server_fails eof 1) leading
      ≡ ok (failed, xs))
    × (failed.cache ≡ led)
    × (run build (map (client_sends message) (2 ∷ 3 ∷ [])) failed ≡ ok (after, []))
unfolding new_cache connect_redis step do_single_flight find_or_create create init lookup insert
    Bytes-discrete hash_query spec_exec spec_get client_stream
flight-Lost_example =
    flight-Lost build eof 1 (2 ∷ 3 ∷ []) [] message key_a (λ j. client) leading (λ e. cc) refl
      led-IsSound (connected-Absent key) refl (step-leads key 1 Flights.init init-IsQuiet refl).1
      message-IsQuery (apart 2 (omega arith), (apart 3 (omega arith), tt))
      (refl, refl, (refl, refl, tt))

-- Session 1 asks, and session 2 after it.
pub pair : Setting build 1 (2 ∷ []) message key_a server (λ j. client) proxy
unfolding new_cache connect_redis Flights.init lookup hash_query spec_exec spec_get client_stream
    server_stream
pair = record {
  sound = empty-IsSound;
  absent = connected-Absent (hash_query build.md5 key_a);
  missing = refl;
  free = refl;
  message = message-IsQuery;
  not_empty = refl;
  server_reads = refl;
  server = refl;
  client_reads = refl;
  ready = (refl, refl, (refl, refl, tt));
}

-- Session 4 asks after the answer.
query-Refetched_example :
    (after : Proxy memory) × (run build
        (requests build 1 (2 ∷ []) message result_one ++ client_sends message 4 ∷ [])
        proxy
      ≡ ok (
        after,
        operations build 1 (2 ∷ []) message result_one server (λ j. client)
            ++ (4, writes client result_one response_sent) ∷ [],
      ))
unfolding new_cache client_stream
query-Refetched_example =
    query-Refetched build 1 4 (2 ∷ []) message key_a result_one server (λ j. client) proxy pair refl
      (refl, refl, tt)
