-- ===== src/Proxy.antt =====
-- The sessions of src/Session/Session.cpp with the query cache that they share: the handlers that ask
-- the cache, and what the proxy does when an operation of one session completes. A session leaves
-- its number with the cache as its callback. A handler runs to its end before the next one starts.
pub mod Kept
pub mod Closed
pub mod Alike
pub mod Relay
pub mod Turns
pub mod Answers
pub mod Served
pub mod Fetch
pub mod Lost
pub mod Start
pub mod Opening
pub mod Bridged
pub mod Passing
pub mod Cut
pub mod Lanes
pub mod Pending
pub mod Pipelined
pub mod Origin
pub mod Tidy
use single_flight_proxy_serv.Prelude.{
  ℕ, Bool, true, false, not, ◌&&◌, ◌||◌, Option, none, some, List, [], ◌∷◌, ◌++◌, map, Bytes,
  length, take, if◌then◌else◌,
}
use single_flight_proxy_serv.Prelude.Outcome.{Outcome, ok, undefined, ◌>>=◌}
use single_flight_proxy_serv.SingleFlight.{update}
use single_flight_proxy_serv.QueryCache.L2.{Hiredis, is_empty}
use single_flight_proxy_serv.QueryCache.{
  QueryCache, Build, Flown, FlightResult, cache_hit, is_leader, is_waiter, do_single_flight,
  notify_flight_result,
}
use single_flight_proxy_serv.Session.{
  Session, Handler, resolved, connected, client_startup_read, ssl_startup_read, ssl_startup_sent,
  ssl_request_sent, ssl_answer_read, refusal_sent, acceptance_sent, client_handshaken,
  server_handshaken, startup_relayed, client_read, forwarded_to_server, response_sent, server_read,
  forwarded_to_client, Effect, Act, fill, ErrorCode, success,
}
use single_flight_proxy_serv.Session.Message.{is_sql_query, extract_sql_query}
use single_flight_proxy_serv.Session.Startup.{
  Creation, on_resolved, on_connected, on_client_startup, on_ssl_startup, on_ssl_startup_sent,
  on_ssl_request_sent, on_ssl_answer, on_refusal_sent, on_acceptance_sent, on_client_handshake,
  on_server_handshake, on_startup_relayed,
}
use single_flight_proxy_serv.Session.Bridge.{
  forward_to_server, forward_to_client, on_client_error, on_server_error, on_forwarded_to_server,
  on_forwarded_to_client, on_result, on_response_sent,
}

pub record Proxy (lib : Hiredis) : Type 0 where
  pub sessions : ℕ → Session
  pub cache : QueryCache lib ℕ

-- An operation of session `i` completes: its handler, its error code, the bytes that it has read,
-- and whether the construction of the TLS streams throws.
pub record Event : Type 0 where
  pub i : ℕ
  pub handler : Handler
  pub ec : ErrorCode
  pub bytes : Bytes
  pub creation : Creation

-- The operations that have been started, each with its session.
abbrev pub Started : Type 0
Started = List (ℕ × Effect)

-- The handlers that a session runs without the cache.
unfoldable pub act_of : Event → Act
act_of e = elim e.handler [
  | resolved t ↦ on_resolved t e.ec
  | connected t ↦ on_connected t e.ec
  | client_startup_read ↦ on_client_startup e.ec e.bytes
  | ssl_startup_read ↦ on_ssl_startup e.ec e.bytes
  | ssl_startup_sent ↦ on_ssl_startup_sent e.ec
  | ssl_request_sent ↦ on_ssl_request_sent e.ec
  | ssl_answer_read ↦ on_ssl_answer e.ec e.bytes
  | refusal_sent ↦ on_refusal_sent e.ec
  | acceptance_sent ↦ on_acceptance_sent e.ec e.creation
  | client_handshaken ↦ on_client_handshake e.ec
  | server_handshaken ↦ on_server_handshake e.ec
  | startup_relayed ↦ on_startup_relayed e.ec
  | forwarded_to_server ↦ on_forwarded_to_server e.ec
  | response_sent ↦ on_response_sent e.ec
  | forwarded_to_client ↦ on_forwarded_to_client e.ec
  | client_read ↦ λ s. (s, [])
  | server_read ↦ λ s. (s, [])
]

module _ {lib : Hiredis} where
  -- One session acts.
  unfoldable pub acts : ℕ → Act → Proxy lib → Proxy lib × Started
  acts i act p =
      let (s, effects) = act (p.sessions i) in
      (record p { sessions = update p.sessions i s }, map (λ e. (i, e)) effects)

  -- The calls of the sessions' callbacks, in order.
  unfoldable pub call_back : List (ℕ × Bytes) → Proxy lib → Proxy lib × Started
  call_back [] p = (p, [])
  call_back ((j, result) ∷ calls) p =
      let (p1, xs) = acts j (on_result result) p in
      let (p2, ys) = call_back calls p1 in (p2, xs ++ ys)

  abbrev pub set_session : ℕ → Session → Proxy lib → Proxy lib
  set_session i s p = record p { sessions = update p.sessions i s }

  -- After the callbacks of a query: the leader sends it to the server.
  unfoldable pub after_flight :
      ℕ → Bytes → ℕ → FlightResult → Proxy lib × Started → Proxy lib × Started
  after_flight i sql length cache_hit (p, xs) = (p, xs)
  after_flight i sql length is_waiter (p, xs) = (p, xs)
  after_flight i sql length is_leader (p, xs) =
      let (p1, ys) = acts i (λ s. forward_to_server length (record s { current_query = sql })) p in
      (p1, xs ++ ys)

module _ (b : Build) where
  open b use {lib}

  -- The client's read handler, where the bytes are a query.
  unfoldable pub on_query : ℕ → ℕ → Proxy lib → Outcome (Proxy lib × Started)
  on_query i length p = do
    let sql_query = extract_sql_query (p.sessions i).client_buffer length
    (cache, flown) ← do_single_flight b sql_query i p.cache
    ok (
        after_flight i sql_query length flown.result
          (call_back flown.calls (record p { cache = cache })))

  unfoldable pub on_client_bytes : ℕ → ℕ → Proxy lib → Outcome (Proxy lib × Started)
  on_client_bytes i length p =
      if is_sql_query (p.sessions i).client_buffer length
      then on_query i length p
      else ok (acts i (forward_to_server length) p)

  unfoldable pub on_client_read : ℕ → ErrorCode → Bytes → Proxy lib → Outcome (Proxy lib × Started)
  on_client_read i success bytes p =
      let s = p.sessions i in
      on_client_bytes i (length bytes)
        (set_session i (record s { client_buffer = fill bytes s.client_buffer }) p)
  on_client_read i ec bytes p = ok (acts i (on_client_error ec) p)

  -- The server's read handler, where the session leads a flight.
  unfoldable pub on_response : ℕ → ℕ → Proxy lib → Outcome (Proxy lib × Started)
  on_response i length p = do
    let s = p.sessions i
    (cache, calls) ← notify_flight_result b s.current_query (take length s.server_buffer) p.cache
    let (p1, xs) = call_back calls (record p { cache = cache })
    let (p2, ys) = acts i (λ s1. forward_to_client length (record s1 { current_query = [] })) p1
    ok (p2, xs ++ ys)

  unfoldable pub on_server_bytes : ℕ → ℕ → Proxy lib → Outcome (Proxy lib × Started)
  on_server_bytes i length p =
      if is_empty (p.sessions i).current_query
      then ok (acts i (forward_to_client length) p)
      else on_response i length p

  unfoldable pub on_server_read : ℕ → ErrorCode → Bytes → Proxy lib → Outcome (Proxy lib × Started)
  on_server_read i success bytes p =
      let s = p.sessions i in
      on_server_bytes i (length bytes)
        (set_session i (record s { server_buffer = fill bytes s.server_buffer }) p)
  on_server_read i ec bytes p = ok (acts i (on_server_error ec) p)

  unfoldable pub handle : Event → Proxy lib → Outcome (Proxy lib × Started)
  handle e p = elim e.handler [
    | client_read ↦ on_client_read e.i e.ec e.bytes p
    | server_read ↦ on_server_read e.i e.ec e.bytes p
    | _ ↦ ok (acts e.i (act_of e) p)
  ]

  -- Every handler begins with the same test.
  unfoldable pub complete : Event → Proxy lib → Outcome (Proxy lib × Started)
  complete e p = if (p.sessions e.i).is_destroying then ok (p, []) else handle e p

  -- Operations complete, one after the other.
  unfoldable pub run : List Event → Proxy lib → Outcome (Proxy lib × Started)
  run [] p = ok (p, [])
  run (e ∷ es) p = do (p1, xs) ← complete e p; (p2, ys) ← run es p1; ok (p2, xs ++ ys)
