-- ===== src/Proxy/Tidy.antt =====
-- The sockets of the sessions of src/Session/Session.cpp that are closing, over everything that the
-- proxy does.
pub mod Handlers
use single_flight_proxy_serv.Prelude.{
  ℕ, ◌≡◌, refl, sym, ap, subst, ◌∙◌, Bool, true, false, List, [], ◌∷◌, ◌++◌, Bytes, length, take,
  ℕ_discrete, if_pos, if_neg, ite, if◌then◌else◌, Bool-cases, inl, inr, if_true, if_false,
}
use single_flight_proxy_serv.Prelude.Outcome.{Outcome, ok, ◌>>=◌, >>=-ok, ok-injective}
use single_flight_proxy_serv.SingleFlight.{update}
use single_flight_proxy_serv.QueryCache.L2.{Hiredis, is_empty}
use single_flight_proxy_serv.QueryCache.{
  Build, FlightResult, cache_hit, is_leader, is_waiter, do_single_flight, notify_flight_result,
}
use single_flight_proxy_serv.Session.{
  Session, Act, ErrorCode, success, operation_aborted, eof, system_error, ssl_error, client_read,
  server_read, fill,
}
use single_flight_proxy_serv.Session.Startup.{Creation}
use single_flight_proxy_serv.Session.Message.{is_sql_query, extract_sql_query}
use single_flight_proxy_serv.Session.Bridge.{
  forward_to_client, forward_to_server, on_result, on_client_error, on_server_error,
}
use single_flight_proxy_serv.Session.Tidy.{
  IsTidy, is_running, forward_to_server-IsTidy, forward_to_client-IsTidy,
}
use single_flight_proxy_serv.Proxy.{
  Proxy, Event, Started, acts, call_back, set_session, after_flight, on_query, on_client_bytes,
  on_client_read, on_response, on_server_bytes, on_server_read, act_of, handle, complete, run,
}
use Handlers.{
  IsTidy-alike, on_client_error-IsTidy, on_server_error-IsTidy, on_result-IsTidy, act_of-IsTidy,
}

module _ {lib : Hiredis} where
  abbrev pub AllTidy : Proxy lib → Type 0
  AllTidy p = (i : ℕ) → IsTidy (p.sessions i)

  pub set_session-AllTidy :
      (i : ℕ) (s : Session) (p : Proxy lib) → AllTidy p → IsTidy s → AllTidy (set_session i s p)
  set_session-AllTidy i s p all t j = elim (ℕ_discrete i j) [
    | yes same ↦ rw (if_pos (ℕ_discrete i j) same s (p.sessions j)) t
    | no other ↦ rw (if_neg (ℕ_discrete i j) other s (p.sessions j)) (all j)
  ]

  pub acts-AllTidy :
      (i : ℕ) (act : Act) (p : Proxy lib)
      → AllTidy p
      → IsTidy (act (p.sessions i)).0
      → AllTidy (acts i act p).0
  unfolding acts
  acts-AllTidy i act p all t = set_session-AllTidy i (act (p.sessions i)).0 p all t

  call_back-AllTidy :
      (calls : List (ℕ × Bytes)) (p : Proxy lib) → AllTidy p → AllTidy (call_back calls p).0
  unfolding call_back
  call_back-AllTidy [] p all = all
  call_back-AllTidy ((j, result) ∷ calls) p all =
      call_back-AllTidy calls _
        (acts-AllTidy j (on_result result) p all (on_result-IsTidy (p.sessions j) (all j) result))

  after_flight-AllTidy :
      (i : ℕ) (sql : Bytes) (n : ℕ) (result : FlightResult) (r : Proxy lib × Started)
      → AllTidy r.0
      → AllTidy (after_flight i sql n result r).0
  unfolding after_flight
  after_flight-AllTidy i sql n cache_hit r all = all
  after_flight-AllTidy i sql n is_waiter r all = all
  after_flight-AllTidy i sql n is_leader r all = acts-AllTidy i _ r.0 all (
      forward_to_server-IsTidy _ (IsTidy-alike (r.0.sessions i) _ refl refl refl refl refl (all i))
        n)

  -- Where the call returns, the sessions are tidy.
  unfoldable pub Tidies : Outcome (Proxy lib × Started) → Type 0
  Tidies m = (r : Proxy lib × Started) → m ≡ ok r → AllTidy r.0

  ok-Tidies : (r : Proxy lib × Started) → AllTidy r.0 → Tidies (ok r)
  unfolding Tidies
  ok-Tidies r all q e = subst (λ x. AllTidy x.0) (ok-injective e) all

  if-Tidies :
      (b : Bool) (x y : Outcome (Proxy lib × Started))
      → Tidies x
      → Tidies y
      → Tidies (if b then x else y)
  if-Tidies true x y h k = h
  if-Tidies false x y h k = k

module _ (b : Build) where
  open b use {lib}

  on_query-Tidies : (i n : ℕ) (p : Proxy lib) → AllTidy p → Tidies (on_query b i n p)
  unfolding on_query Tidies
  on_query-Tidies i n p all r e =
      let sql = extract_sql_query (p.sessions i).client_buffer n in
      let ((cache, flown), _, same) = >>=-ok (do_single_flight b sql i p.cache) _ e in
      ok-Tidies _
        (after_flight-AllTidy i sql n flown.result _
          (call_back-AllTidy flown.calls (record p { cache = cache }) all))
        r same

  on_client_bytes-Tidies : (i n : ℕ) (p : Proxy lib) → AllTidy p → Tidies (on_client_bytes b i n p)
  unfolding on_client_bytes
  on_client_bytes-Tidies i n p all =
      if-Tidies (is_sql_query (p.sessions i).client_buffer n) _ _ (on_query-Tidies i n p all) (
        ok-Tidies _ (
          acts-AllTidy i (forward_to_server n) p all
            (forward_to_server-IsTidy (p.sessions i) (all i) n)))

  on_client_read-Tidies :
      (i : ℕ) (ec : ErrorCode) (bytes : Bytes) (p : Proxy lib)
      → AllTidy p
      → Tidies (on_client_read b i ec bytes p)
  unfolding on_client_read
  on_client_read-Tidies i success bytes p all = on_client_bytes-Tidies i (length bytes) _ (
      set_session-AllTidy i _ p all
        (IsTidy-alike (p.sessions i) _ refl refl refl refl refl (all i)))
  on_client_read-Tidies i _ bytes p all =
      ok-Tidies _
        (acts-AllTidy i (on_client_error _) p all (on_client_error-IsTidy (p.sessions i) (all i) _))

  on_response-Tidies : (i n : ℕ) (p : Proxy lib) → AllTidy p → Tidies (on_response b i n p)
  unfolding on_response Tidies
  on_response-Tidies i n p all r e =
      let s = p.sessions i in
      let ((cache, calls), _, same) =
        >>=-ok (notify_flight_result b s.current_query (take n s.server_buffer) p.cache) _ e in
      let called = call_back calls (record p { cache = cache }) in
      let tidy = call_back-AllTidy calls (record p { cache = cache }) all in
      ok-Tidies _
        (acts-AllTidy i _ called.0 tidy (
          forward_to_client-IsTidy _
            (IsTidy-alike (called.0.sessions i) _ refl refl refl refl refl (tidy i)) n))
        r same

  on_server_bytes-Tidies : (i n : ℕ) (p : Proxy lib) → AllTidy p → Tidies (on_server_bytes b i n p)
  unfolding on_server_bytes
  on_server_bytes-Tidies i n p all =
      if-Tidies (is_empty (p.sessions i).current_query) _ _
        (ok-Tidies _ (
          acts-AllTidy i (forward_to_client n) p all
            (forward_to_client-IsTidy (p.sessions i) (all i) n)))
        (on_response-Tidies i n p all)

  on_server_read-Tidies :
      (i : ℕ) (ec : ErrorCode) (bytes : Bytes) (p : Proxy lib)
      → AllTidy p
      → Tidies (on_server_read b i ec bytes p)
  unfolding on_server_read
  on_server_read-Tidies i success bytes p all = on_server_bytes-Tidies i (length bytes) _ (
      set_session-AllTidy i _ p all
        (IsTidy-alike (p.sessions i) _ refl refl refl refl refl (all i)))
  on_server_read-Tidies i _ bytes p all =
      ok-Tidies _
        (acts-AllTidy i (on_server_error _) p all (on_server_error-IsTidy (p.sessions i) (all i) _))

  handle-Tidies :
      (e : Event) (p : Proxy lib)
      → (p.sessions e.i).is_destroying ≡ false
      → AllTidy p
      → Tidies (handle b e p)
  unfolding handle
  handle-Tidies e p running all =
      elim e.handler
        as (λ h. Tidies (elim h [
          | client_read ↦ on_client_read b e.i e.ec e.bytes p
          | server_read ↦ on_server_read b e.i e.ec e.bytes p
          | _ ↦ ok (acts e.i (act_of e) p)
        ])) [
          | client_read ↦ on_client_read-Tidies e.i e.ec e.bytes p all
          | server_read ↦ on_server_read-Tidies e.i e.ec e.bytes p all
          | _ ↦
              ok-Tidies _
                (acts-AllTidy e.i (act_of e) p all (act_of-IsTidy (p.sessions e.i) running e))
        ]

  pub complete-Tidies : (e : Event) (p : Proxy lib) → AllTidy p → Tidies (complete b e p)
  unfolding complete
  complete-Tidies e p all = elim (Bool-cases (p.sessions e.i).is_destroying) [
    | inl closing ↦ rw closing (ok-Tidies (p, []) all)
    | inr running ↦ rw running (handle-Tidies e p running all)
  ]

  -- Whatever operations complete, from a proxy whose closing sessions have no open socket: afterwards
  -- every session runs, or none of its sockets is open, neither the TCP sockets nor those below the TLS
  -- streams.
  pub run-AllTidy :
      (es : List Event) (p : Proxy lib) {after : Proxy lib} {xs : Started}
      → AllTidy p
      → run b es p ≡ ok (after, xs)
      → AllTidy after
  unfolding run Tidies
  run-AllTidy [] p all e = subst (λ x. AllTidy x.0) (ok-injective e) all
  run-AllTidy (x ∷ es) p all e =
      let ((p1, ys), first, rest) = >>=-ok (complete b x p) _ e in
      let ((p2, zs), second, last) = >>=-ok (run b es p1) _ rest in
      subst (λ r. AllTidy r.0) (ok-injective last)
        (run-AllTidy es p1 (complete-Tidies x p all (p1, ys) first) second)
