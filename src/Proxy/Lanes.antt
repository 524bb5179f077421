-- ===== src/Proxy/Lanes.antt =====
-- How many operations that have to do with server_buffer_ a handler of src/Session/Session.cpp starts,
-- and in which session.
use single_flight_proxy_serv.Prelude.{
  length, take, ℕ, ◌+◌, ◌≤◌, ◌≡◌, ite, List, [], ◌∷◌, ◌++◌, map, Bytes, ℕ_discrete, Bool, true,
  false, arith, if◌then◌else◌,
}
use single_flight_proxy_serv.Prelude.Outcome.{Outcome, ok, undefined, ◌>>=◌}
use single_flight_proxy_serv.QueryCache.L2.{Hiredis, is_empty}
use single_flight_proxy_serv.QueryCache.{
  Build, FlightResult, cache_hit, is_leader, is_waiter, do_single_flight, notify_flight_result,
}
use single_flight_proxy_serv.Session.{
  Effect, Act, ErrorCode, success, client_read, server_read, forwarded_to_server, response_sent,
}
use single_flight_proxy_serv.Session.Message.{is_sql_query, extract_sql_query}
use single_flight_proxy_serv.Session.Bridge.{on_result, forward_to_client, forward_to_server}
use single_flight_proxy_serv.Session.Lanes.{
  weight, load, load_all, AtMost, on_result-AtMost, forward_to_server-AtMost,
  forward_to_client-AtMost, on_client_error-AtMost, on_server_error-AtMost,
  on_forwarded_to_server-AtMost, on_response_sent-AtMost, act_of-AtMost,
}
use single_flight_proxy_serv.Proxy.{
  on_response_sent, on_forwarded_to_server, Creation, on_client_error, Handler, on_server_error,
  Proxy, Event, Started, acts, call_back, after_flight, on_query, on_client_bytes, on_client_read,
  on_response, on_server_bytes, on_server_read, act_of, handle, complete,
}

-- Session `i`'s share of a number that belongs to session `j`.
abbrev pub share : ℕ → ℕ → ℕ → ℕ
share j i n = ite (ℕ_discrete i j) n 0

abbrev pub load_of : ℕ → Started → ℕ
load_of j [] = 0
load_of j ((i, e) ∷ xs) = share j i (load e) + load_of j xs

pub load_of-append : (j : ℕ) (xs ys : Started) → load_of j (xs ++ ys) ≡ load_of j xs + load_of j ys
load_of-append j [] ys = omega arith
load_of-append j (x ∷ xs) ys = omega (arith, load_of-append j xs ys)

load_of-map :
    (j i : ℕ) (es : List Effect) → load_of j (map (λ e. (i, e)) es) ≡ share j i (load_all es)
load_of-map j i [] = ground arith
load_of-map j i (e ∷ es) = ground (arith, load_of-map j i es)

share-le : (j i m n : ℕ) → m ≤ n → share j i m ≤ share j i n
share-le j i m n h = ground arith

share-zero : (j i : ℕ) → share j i 0 ≡ 0
share-zero j i = ground arith

module _ {lib : Hiredis} where
  -- What is started is at most so many operations of session `i`, and none of another.
  abbrev pub Within : ℕ → ℕ → Outcome (Proxy lib × Started) → Type 0
  Within i n undefined = Unit {0}
  Within i n (ok x) = (j : ℕ) → load_of j x.1 ≤ share j i n

  pub acts-Within :
      (i n : ℕ) (act : Act) (p : Proxy lib)
      → AtMost n (act (p.sessions i))
      → Within i n (ok (acts i act p))
  unfolding acts
  acts-Within i n act p h j =
      let es = (act (p.sessions i)).1 in
      omega (arith, load_of-map j i es, share-le j i (load_all es) n h.bound)

  call_back-none :
      (calls : List (ℕ × Bytes)) (p : Proxy lib) (j : ℕ) → load_of j (call_back calls p).1 ≤ 0
  unfolding call_back
  call_back-none [] p j = omega arith
  call_back-none ((i, r) ∷ calls) p j =
      let now = acts i (on_result r) p in
      omega (
        arith,
        load_of-append j now.1 (call_back calls now.0).1,
        acts-Within i 0 (on_result r) p (on_result-AtMost 0 r (p.sessions i)) j,
        share-zero j i,
        call_back-none calls now.0 j,
      )

  after_flight-Within :
      (i : ℕ) (sql : Bytes) (n : ℕ) (r : FlightResult) (x : Proxy lib × Started)
      → ((j : ℕ) → load_of j x.1 ≤ 0)
      → Within i 0 (ok (after_flight i sql n r x))
  unfolding after_flight
  after_flight-Within i sql n cache_hit x h j = omega (arith, h j)
  after_flight-Within i sql n is_waiter x h j = omega (arith, h j)
  after_flight-Within i sql n is_leader x h j =
      let act : Act = λ s. forward_to_server n (record s { current_query = sql }) in
      omega (
        arith,
        h j,
        load_of-append j x.1 (acts i act x.0).1,
        acts-Within i 0 act x.0
            (forward_to_server-AtMost 0 n (record (x.0.sessions i) { current_query = sql })) j,
      )

  >>=-Within :
      {A : Type 0} (i n : ℕ) (m : Outcome A) (f : A → Outcome (Proxy lib × Started))
      → ((x : A) → Within i n (f x))
      → Within i n (m >>= f)
  >>=-Within i n (ok x) f h = h x
  >>=-Within i n undefined f h = tt

  if-Within :
      (i n : ℕ) (c : Bool) (x y : Outcome (Proxy lib × Started))
      → Within i n x
      → Within i n y
      → Within i n (if c then x else y)
  if-Within i n true x y h k = h
  if-Within i n false x y h k = k

module _ (b : Build) where
  open b use {lib}

  on_query-Within : (i n : ℕ) (p : Proxy lib) → Within i 0 (on_query b i n p)
  unfolding on_query
  on_query-Within i n p =
      let sql = extract_sql_query (p.sessions i).client_buffer n in
      >>=-Within i 0 (do_single_flight b sql i p.cache) _ (λ x.
        after_flight-Within i sql n x.1.result _
          (call_back-none x.1.calls (record p { cache = x.0 })))

  on_response-Within : (i n : ℕ) (p : Proxy lib) → Within i 1 (on_response b i n p)
  unfolding on_response
  on_response-Within i n p =
      let s = p.sessions i in
      >>=-Within i 1 (notify_flight_result b s.current_query (take n s.server_buffer) p.cache) _
        (λ x j.
          let p1 : Proxy lib = record p { cache = x.0 } in
          let called = call_back x.1 p1 in
          let act : Act = λ s1. forward_to_client n (record s1 { current_query = [] }) in
          omega (
            arith,
            load_of-append j called.1 (acts i act called.0).1,
            call_back-none x.1 p1 j,
            acts-Within i 1 act called.0
                (forward_to_client-AtMost n (record (called.0.sessions i) { current_query = [] }))
                j,
          ))

  on_client_bytes-Within : (i n : ℕ) (p : Proxy lib) → Within i 0 (on_client_bytes b i n p)
  unfolding on_client_bytes
  on_client_bytes-Within i n p =
      if-Within i 0 (is_sql_query (p.sessions i).client_buffer n) (on_query b i n p)
        (ok (acts i (forward_to_server n) p)) (on_query-Within i n p)
        (acts-Within i 0 (forward_to_server n) p (forward_to_server-AtMost 0 n (p.sessions i)))

  on_client_read-Within :
      (i : ℕ) (ec : ErrorCode) (bytes : Bytes) (p : Proxy lib)
      → Within i 0 (on_client_read b i ec bytes p)
  unfolding on_client_read
  on_client_read-Within i success bytes p = on_client_bytes-Within i (length bytes) _
  on_client_read-Within i ec bytes p =
      acts-Within i 0 (on_client_error ec) p (on_client_error-AtMost 0 ec (p.sessions i))

  on_server_bytes-Within : (i n : ℕ) (p : Proxy lib) → Within i 1 (on_server_bytes b i n p)
  unfolding on_server_bytes
  on_server_bytes-Within i n p =
      if-Within i 1 (is_empty (p.sessions i).current_query) (ok (acts i (forward_to_client n) p))
        (on_response b i n p)
        (acts-Within i 1 (forward_to_client n) p (forward_to_client-AtMost n (p.sessions i)))
        (on_response-Within i n p)

  on_server_read-Within :
      (i : ℕ) (ec : ErrorCode) (bytes : Bytes) (p : Proxy lib)
      → Within i 1 (on_server_read b i ec bytes p)
  unfolding on_server_read
  on_server_read-Within i success bytes p = on_server_bytes-Within i (length bytes) _
  on_server_read-Within i ec bytes p =
      acts-Within i 1 (on_server_error ec) p (on_server_error-AtMost 1 ec (p.sessions i))

  handler-Within :
      (h : Handler) (i : ℕ) (ec : ErrorCode) (bytes : Bytes) (c : Creation) (p : Proxy lib)
      → Within i
          (weight h)
          (handle b (record { i = i; handler = h; ec = ec; bytes = bytes; creation = c }) p)
  unfolding handle act_of
  handler-Within client_read i ec bytes c p = on_client_read-Within i ec bytes p
  handler-Within server_read i ec bytes c p = on_server_read-Within i ec bytes p
  handler-Within forwarded_to_server i ec bytes c p =
      acts-Within i 0 (on_forwarded_to_server ec) p
        (on_forwarded_to_server-AtMost 0 ec (p.sessions i))
  handler-Within response_sent i ec bytes c p =
      acts-Within i 0 (on_response_sent ec) p (on_response_sent-AtMost 0 ec (p.sessions i))
  handler-Within h i ec bytes c p =
      let e : Event = record { i = i; handler = h; ec = ec; bytes = bytes; creation = c } in
      acts-Within i 1 (act_of e) p (act_of-AtMost e (p.sessions i))

  -- One completion: at most one such operation for one that was such, and none for another.
  pub complete-Within : (e : Event) (p : Proxy lib) → Within e.i (weight e.handler) (complete b e p)
  unfolding complete
  complete-Within e p =
      if-Within e.i (weight e.handler) (p.sessions e.i).is_destroying (ok (p, [])) (handle b e p)
        (λ j. omega arith) (handler-Within e.handler e.i e.ec e.bytes e.creation p)
