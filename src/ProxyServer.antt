-- ===== src/ProxyServer.antt =====
-- src/ProxyServer/ProxyServer.{hpp,cpp}: the accept loop. One accept is pending at a time: its
-- handler starts a session and then the next accept. `accepting_` is read three times on the way, and
-- a signal can shut the server down between any two steps, so every read is a step of its own.
pub mod Port
pub mod Loop
pub mod Accepts
pub mod Serves
use single_flight_proxy_serv.Prelude.{
  ℕ, ◌+◌, Bool, true, false, ◌&&◌, List, [], ◌∷◌, ◌++◌, ◌≡◌, Bytes, if◌then◌else◌,
}
use single_flight_proxy_serv.Prelude.Int.{ℤ}
use single_flight_proxy_serv.Prelude.Outcome.{Outcome, ok, ◌>>=◌}
use single_flight_proxy_serv.QueryCache.L2.{Hiredis}
use single_flight_proxy_serv.QueryCache.{QueryCache, Build}
use single_flight_proxy_serv.Session.{
  Session, new_session, ErrorCode, success, operation_aborted, eof, system_error, ssl_error,
}
use single_flight_proxy_serv.Session.Startup.{start}
use single_flight_proxy_serv.Proxy.{Proxy, Event, Started, acts, set_session, complete}
use Port.{short_of}

-- How far the accept loop is: in `do_accept` before its test and behind it; with an accept pending; in
-- the handler before its first test, behind it, and before its second test; or at its end, with no
-- accept pending.
pub data Phase : Type 0 where
  do_accept_called test_passed waiting starts_session session_part_done ended : Phase
  accepted : ErrorCode → Phase

-- `sessions` counts the sessions that have been started: the next one has that number.
pub record Server (lib : Hiredis) : Type 0 where
  pub accepting : Bool
  pub acceptor_is_open : Bool
  pub db_host : Bytes
  pub db_port : ℤ
  pub phase : Phase
  pub sessions : ℕ
  pub proxy : Proxy lib

-- The pending accept completes; the thread in the accept loop takes its next step; an operation of a
-- session completes.
pub data Happening : Type 0 where
  accepts : ErrorCode → Happening
  continues : Happening
  completes : Event → Happening

unfoldable pub accept_completed : ErrorCode → Phase → Phase
accept_completed ec waiting = accepted ec
accept_completed ec do_accept_called = do_accept_called
accept_completed ec test_passed = test_passed
accept_completed ec starts_session = starts_session
accept_completed ec session_part_done = session_part_done
accept_completed ec ended = ended
accept_completed ec (accepted first) = accepted first

module _ {lib : Hiredis} where
  -- The constructor, behind the binding of the acceptor; `proxy` is what the sessions share.
  unfoldable pub new_server : Bytes → ℤ → Proxy lib → Server lib
  new_server db_host db_port proxy = record {
    accepting = true;
    acceptor_is_open = true;
    db_host = db_host;
    db_port = db_port;
    phase = do_accept_called;
    sessions = 0;
    proxy = proxy;
  }

  unfoldable pub shutdown : Server lib → Server lib
  shutdown s = record s { accepting = false; acceptor_is_open = false }

  -- `std::make_shared<Session>(...)` and `session->start()`.
  unfoldable pub start_session : Server lib → Server lib × Started
  start_session s =
      let (p, xs) = acts s.sessions start (set_session s.sessions new_session s.proxy) in
      (record s { phase = session_part_done; sessions = s.sessions + 1; proxy = p }, xs)

  abbrev in_phase : Phase → Server lib → Server lib × Started
  in_phase phase s = (record s { phase = phase }, [])

  -- The next step of the accept loop, where its first test reads the error code and `accepting_`.
  unfoldable pub first_test : ErrorCode → Server lib → Server lib × Started
  first_test success s = in_phase (if s.accepting then starts_session else session_part_done) s
  first_test ec s = in_phase session_part_done s

  unfoldable pub advance_from : Phase → Server lib → Server lib × Started
  unfolding first_test start_session
  advance_from do_accept_called s = in_phase (if s.accepting then test_passed else ended) s
  advance_from test_passed s = in_phase waiting s
  advance_from waiting s = (s, [])
  advance_from (accepted ec) s = first_test ec s
  advance_from starts_session s = start_session s
  advance_from session_part_done s = in_phase (if s.accepting then do_accept_called else ended) s
  advance_from ended s = (s, [])

module _ (b : Build) where
  open b use {lib}

  unfoldable pub step : Happening → Server lib → Outcome (Server lib × Started)
  unfolding advance_from accept_completed
  step (accepts ec) s = ok (record s { phase = accept_completed ec s.phase }, [])
  step continues s = ok (advance_from s.phase s)
  step (completes e) s = do (p, xs) ← complete b e s.proxy; ok (record s { proxy = p }, xs)

  unfoldable pub run : List Happening → Server lib → Outcome (Server lib × Started)
  unfolding step
  run [] s = ok (s, [])
  run (h ∷ hs) s = do (s1, xs) ← step h s; (s2, ys) ← run hs s1; ok (s2, xs ++ ys)
