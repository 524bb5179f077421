-- ===== src/Proxy/Origin/Runs.antt =====
-- Any completions in the proxy of src/Session/Session.cpp, and where the bytes that it writes come from.
use single_flight_proxy_serv.Prelude.{
  ℕ, ◌≡◌, refl, sym, ap, subst, ◌∙◌, List, [], ◌∷◌, ◌++◌, Bytes, length, take, drop, Bool-cases,
  inl, inr,
}
use single_flight_proxy_serv.Prelude.Outcome.{Outcome, ok}
use single_flight_proxy_serv.QueryCache.L2.{is_empty}
use single_flight_proxy_serv.QueryCache.Redis.{Redis}
use single_flight_proxy_serv.QueryCache.Source.{
  Sourced, do_single_flight-Answers, notify_flight_result-Answers,
}
use single_flight_proxy_serv.QueryCache.{Build}
use single_flight_proxy_serv.Session.{Act, ErrorCode, success, client_read, server_read, fill}
use single_flight_proxy_serv.Session.Message.{is_sql_query, extract_sql_query, take-append}
use single_flight_proxy_serv.Session.Bridge.{forward_to_client, forward_to_server}
use single_flight_proxy_serv.Session.Origin.{
  Faithful, forward_to_server-Faithful, forward_to_client-Faithful, on_client_error-Faithful,
  on_server_error-Faithful,
}
use single_flight_proxy_serv.Session.Origin.Startup.{act_of-Faithful}
use single_flight_proxy_serv.Proxy.Alike.{update_self}
use single_flight_proxy_serv.Proxy.Kept.{call_back-cache, after_flight-cache}
use single_flight_proxy_serv.Proxy.{
  Proxy, Event, Started, acts, call_back, set_session, after_flight, on_query, on_client_bytes,
  on_client_read, on_response, on_server_bytes, on_server_read, act_of, handle, complete, run,
}
use single_flight_proxy_serv.Proxy.Origin.{
  IsGiven-IsPacket, Known, Known-append, AllGiven, IsGiven, acts-Known, call_back-Known,
  call_back-same, after_flight-Known,
}

module _ (P : Bytes → Type 0) (Q : ℕ → Bytes → Type 0) where
  module _ (b : Build) (redis : Redis (λ key v. P v) b.lib) where
    open b use {lib}

    -- The outcome is defined, its cache holds only such values, and it writes what it may.
    pub record Origin (r : Outcome (Proxy lib × Started)) : Type 0 where
      pub after : Proxy lib
      pub started : Started
      pub returns : r ≡ ok (after, started)
      pub sourced : Sourced P b redis after.cache
      pub known : Known P Q started

    acts-Origin :
        (i : ℕ) (act : Act) (p : Proxy lib)
        → Sourced P b redis p.cache
        → Faithful P (Q i) (act (p.sessions i))
        → Origin (ok (acts i act p))
    unfolding acts
    acts-Origin i act p sourced h = record {
      after = (acts i act p).0;
      started = (acts i act p).1;
      returns = refl;
      sourced = sourced;
      known = acts-Known P Q i act p h;
    }

    on_query-Origin :
        (i n : ℕ) (p : Proxy lib)
        → Sourced P b redis p.cache
        → Q i (take n (p.sessions i).client_buffer)
        → Origin (on_query b i n p)
    unfolding on_query
    on_query-Origin i n p sourced q =
        let sql = extract_sql_query (p.sessions i).client_buffer n in
        let a = do_single_flight-Answers P b redis sql i p.cache sourced in
        let p1 : Proxy lib = record p { cache = a.after } in
        let called = call_back a.given.calls p1 in
        let same = ap (λ x. take n x.0) (call_back-same a.given.calls i p1) in
        record {
          after = (after_flight i sql n a.given.result called).0;
          started = (after_flight i sql n a.given.result called).1;
          returns = rw a.returns refl;
          sourced =
              subst (Sourced P b redis)
                (sym (
                  after_flight-cache i sql n a.given.result called
                  ∙ call_back-cache a.given.calls p1))
                a.sourced;
          known =
              after_flight-Known P Q i sql n a.given.result called (subst (Q i) (sym same) q)
                (call_back-Known P Q a.given.calls p1 a.results);
        }

    on_response-Origin :
        (i n : ℕ) (p : Proxy lib)
        → Sourced P b redis p.cache
        → P (take n (p.sessions i).server_buffer)
        → Origin (on_response b i n p)
    unfolding on_response acts
    on_response-Origin i n p sourced h =
        let s = p.sessions i in
        let a =
          notify_flight_result-Answers P b redis s.current_query (take n s.server_buffer) p.cache
            sourced h in
        let p1 : Proxy lib = record p { cache = a.after } in
        let called = call_back a.given p1 in
        let act : Act = λ s1. forward_to_client n (record s1 { current_query = [] }) in
        let same = ap (λ x. take n x.1) (call_back-same a.given i p1) in
        record {
          after = (acts i act called.0).0;
          started = called.1 ++ (acts i act called.0).1;
          returns = rw a.returns refl;
          sourced = subst (Sourced P b redis) (sym (call_back-cache a.given p1)) a.sourced;
          known = Known-append P Q called.1 _ (call_back-Known P Q a.given p1 a.results) (
              acts-Known P Q i act called.0 (
                forward_to_client-Faithful P (Q i) n
                  (record (called.0.sessions i) { current_query = [] }) (subst P (sym same) h)));
        }

    on_client_bytes-Origin :
        (i n : ℕ) (p : Proxy lib)
        → Sourced P b redis p.cache
        → Q i (take n (p.sessions i).client_buffer)
        → Origin (on_client_bytes b i n p)
    unfolding on_client_bytes
    on_client_bytes-Origin i n p sourced q =
        elim (Bool-cases (is_sql_query (p.sessions i).client_buffer n)) [
          | inl query ↦ rw query (on_query-Origin i n p sourced q)
          | inr other ↦ rw other (
              acts-Origin i (forward_to_server n) p sourced
                (forward_to_server-Faithful P (Q i) n (p.sessions i) q))
        ]

    on_server_bytes-Origin :
        (i n : ℕ) (p : Proxy lib)
        → Sourced P b redis p.cache
        → P (take n (p.sessions i).server_buffer)
        → Origin (on_server_bytes b i n p)
    unfolding on_server_bytes
    on_server_bytes-Origin i n p sourced h =
        elim (Bool-cases (is_empty (p.sessions i).current_query)) [
          | inl idle ↦ rw idle (
              acts-Origin i (forward_to_client n) p sourced
                (forward_to_client-Faithful P (Q i) n (p.sessions i) h))
          | inr leads ↦ rw leads (on_response-Origin i n p sourced h)
        ]

    on_client_read-Origin :
        (i : ℕ) (ec : ErrorCode) (bytes : Bytes) (p : Proxy lib)
        → Sourced P b redis p.cache
        → IsGiven P Q client_read ec i bytes
        → Origin (on_client_read b i ec bytes p)
    unfolding on_client_read
    on_client_read-Origin i success bytes p sourced q =
        let s = record (p.sessions i) { client_buffer = fill bytes (p.sessions i).client_buffer } in
        let read =
          ap (λ x. take (length bytes) x.client_buffer) (update_self p.sessions i s)
          ∙ take-append bytes (drop (length bytes) (p.sessions i).client_buffer) in
        on_client_bytes-Origin i (length bytes) (set_session i s p) sourced
          (subst (Q i) (sym read) q)
    on_client_read-Origin i _ bytes p sourced q =
        acts-Origin i _ p sourced (on_client_error-Faithful P (Q i) _ (p.sessions i))

    on_server_read-Origin :
        (i : ℕ) (ec : ErrorCode) (bytes : Bytes) (p : Proxy lib)
        → Sourced P b redis p.cache
        → IsGiven P Q server_read ec i bytes
        → Origin (on_server_read b i ec bytes p)
    unfolding on_server_read
    on_server_read-Origin i success bytes p sourced h =
        let s = record (p.sessions i) { server_buffer = fill bytes (p.sessions i).server_buffer } in
        let read =
          ap (λ x. take (length bytes) x.server_buffer) (update_self p.sessions i s)
          ∙ take-append bytes (drop (length bytes) (p.sessions i).server_buffer) in
        on_server_bytes-Origin i (length bytes) (set_session i s p) sourced (subst P (sym read) h)
    on_server_read-Origin i _ bytes p sourced h =
        acts-Origin i _ p sourced (on_server_error-Faithful P (Q i) _ (p.sessions i))

    handle-Origin :
        (e : Event) (p : Proxy lib)
        → Sourced P b redis p.cache
        → IsGiven P Q e.handler e.ec e.i e.bytes
        → Origin (handle b e p)
    unfolding handle
    handle-Origin e p sourced given =
        let packet = IsGiven-IsPacket P Q e.handler e.ec e.i e.bytes given in
        elim e.handler
            as (λ h.
              IsGiven P Q h e.ec e.i e.bytes
              → Origin (elim h [
                | client_read ↦ on_client_read b e.i e.ec e.bytes p
                | server_read ↦ on_server_read b e.i e.ec e.bytes p
                | _ ↦ ok (acts e.i (act_of e) p)
              ])) [
                | client_read ↦ on_client_read-Origin e.i e.ec e.bytes p sourced
                | server_read ↦ on_server_read-Origin e.i e.ec e.bytes p sourced
                | _ ↦
                    λ _. acts-Origin e.i (act_of e) p sourced (act_of-Faithful P (Q e.i) e _ packet)
              ]
          given

    pub complete-Origin :
        (e : Event) (p : Proxy lib)
        → Sourced P b redis p.cache
        → IsGiven P Q e.handler e.ec e.i e.bytes
        → Origin (complete b e p)
    unfolding complete
    complete-Origin e p sourced given = elim (Bool-cases (p.sessions e.i).is_destroying) [
      | inl closing ↦
          rw closing
            (record { after = p; started = []; returns = refl; sourced = sourced; known = tt })
      | inr running ↦ rw running (handle-Origin e p sourced given)
    ]

    -- Take any property `P` of responses, and for each session one `Q` of messages. If all that
    -- the first level holds and all that Redis holds has `P`, what the servers send has `P`, and
    -- what the client of each session sends has that session's `Q`, then, whatever completes in
    -- whatever order, each response that the proxy writes to a client has `P`, be it relayed,
    -- cached or shared, and each message that a session's bridge, or the relay of the first packet
    -- over TLS, writes to its server has that session's `Q`. The request for TLS and the two
    -- answers to one are the program's own bytes.
    pub run-Origin :
        (es : List Event) (p : Proxy lib)
        → Sourced P b redis p.cache
        → AllGiven P Q es
        → Origin (run b es p)
    unfolding run
    run-Origin [] p sourced given = record {
      after = p;
      started = [];
      returns = refl;
      sourced = sourced;
      known = tt;
    }
    run-Origin (e ∷ es) p sourced given =
        let now = complete-Origin e p sourced given.0 in
        let rest = run-Origin es now.after now.sourced given.1 in
        record {
          after = rest.after;
          started = now.started ++ rest.started;
          returns = rw (now.returns, rest.returns) refl;
          sourced = rest.sourced;
          known = Known-append P Q now.started rest.started now.known rest.known;
        }
