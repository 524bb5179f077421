-- ===== src/Session/Lanes.antt =====
-- The operations of a session of src/Session/Session.cpp that have to do with server_buffer_: all those
-- before the bridge, and then the read from the server and the write of its bytes to the client.
use single_flight_proxy_serv.Prelude.{
  ℕ, ◌+◌, ◌≤◌, ◌≡◌, refl, Bool, true, false, Option, none, some, List, [], ◌∷◌, ◌++◌, Bytes,
  Option-cases, inl, inr, if◌then◌else◌, arith,
}
use single_flight_proxy_serv.Session.{
  ssl_startup_read, ssl_startup_sent, server_ssl, Session, Stream, Handler, client_read,
  forwarded_to_server, response_sent, server_read, Effect, resolves, connects, reads, handshakes,
  writes, cancels, shuts_down, closes, cleanup_sockets, ErrorCode, success, eof, close, fail, Act,
  both, is_expected_ssl_error,
}
use single_flight_proxy_serv.Session.Stages.{AllSync}
use single_flight_proxy_serv.Session.Starting.{cleanup_sockets-IsSync}
use single_flight_proxy_serv.Session.Handlers.{Laws, IsPacket, act_of_holds, start_holds}
use single_flight_proxy_serv.Session.Startup.{start}
use single_flight_proxy_serv.Session.Bridge.{
  or_close, client_stream, server_stream, bridge_client_to_server, bridge_server_to_client,
  forward_to_server, forward_to_client, on_client_error, on_server_error, on_forwarded_to_server,
  send_result, on_result, on_response_sent,
}
use single_flight_proxy_serv.Proxy.{Event, act_of}

abbrev pub weight : Handler → ℕ
weight client_read = 0
weight forwarded_to_server = 0
weight response_sent = 0
weight _ = 1

abbrev pub load : Effect → ℕ
load (resolves h) = weight h
load (connects stream h) = weight h
load (reads stream h) = weight h
load (handshakes stream h) = weight h
load (writes stream bytes h) = weight h
load _ = 0

abbrev pub load_all : List Effect → ℕ
load_all [] = 0
load_all (e ∷ es) = load e + load_all es

weight_le : (h : Handler) → weight h ≤ 1
weight_le client_read = omega arith
weight_le forwarded_to_server = omega arith
weight_le response_sent = omega arith
weight_le _ = omega arith

load_le : (e : Effect) → load e ≤ 1
load_le (resolves h) = weight_le h
load_le (connects stream h) = weight_le h
load_le (reads stream h) = weight_le h
load_le (handshakes stream h) = weight_le h
load_le (writes stream bytes h) = weight_le h
load_le _ = omega arith

load_all-append : (xs ys : List Effect) → load_all (xs ++ ys) ≡ load_all xs + load_all ys
load_all-append [] ys = omega arith
load_all-append (x ∷ xs) ys = omega (arith, load_all-append xs ys)

AllSync-load : (xs : List Effect) → AllSync xs → load_all xs ≡ 0
AllSync-load [] h = refl
AllSync-load (cancels x ∷ xs) h = omega (arith, AllSync-load xs h)
AllSync-load (shuts_down x ∷ xs) h = omega (arith, AllSync-load xs h)
AllSync-load (closes x ∷ xs) h = omega (arith, AllSync-load xs h)
AllSync-load (resolves k ∷ xs) h = absurd h
AllSync-load (connects x k ∷ xs) h = absurd h
AllSync-load (reads x k ∷ xs) h = absurd h
AllSync-load (handshakes x k ∷ xs) h = absurd h
AllSync-load (writes x bytes k ∷ xs) h = absurd h

-- An act starts so many of these operations at most.
pub record AtMost (n : ℕ) (r : Session × List Effect) : Type 0 where
  pub bound : load_all r.1 ≤ n

module _ (n : ℕ) where
  idle : (s : Session) → AtMost n (s, [])
  idle s = record { bound = omega arith }

  single : (s : Session) (e : Effect) → load e ≤ n → AtMost n (s, e ∷ [])
  single s e h = record { bound = omega arith }

  if-AtMost :
      (b : Bool) (x y : Session × List Effect)
      → AtMost n x
      → AtMost n y
      → AtMost n (if b then x else y)
  if-AtMost true x y h k = h
  if-AtMost false x y h k = k

  close-AtMost : (s : Session) → AtMost n (close s)
  unfolding close
  close-AtMost s =
      let s1 = record s { is_destroying = true } in
      if-AtMost s.is_destroying _ _ (idle s) (record {
        bound = omega (arith, AllSync-load (cleanup_sockets s1).1 (cleanup_sockets-IsSync s1).all);
      })

  pub fail-AtMost : (ec : ErrorCode) (s : Session) → AtMost n (fail ec s)
  unfolding fail
  fail-AtMost ec s = if-AtMost (is_expected_ssl_error ec) _ _ (idle s) (close-AtMost s)

  or_close-AtMost :
      (o : Option Stream) (e : Stream → Effect) (s : Session)
      → ((x : Stream) → load (e x) ≤ n)
      → AtMost n (or_close o e s)
  unfolding or_close
  or_close-AtMost (some x) e s h = single s (e x) (h x)
  or_close-AtMost none e s h = close-AtMost s

  bridge_client_to_server-AtMost : (s : Session) → AtMost n (bridge_client_to_server s)
  unfolding bridge_client_to_server
  bridge_client_to_server-AtMost s =
      if-AtMost _ _ _ (idle s)
        (or_close-AtMost (client_stream s) (λ x. reads x client_read) s (λ x. omega arith))

  pub forward_to_server-AtMost : (k : ℕ) (s : Session) → AtMost n (forward_to_server k s)
  unfolding forward_to_server
  forward_to_server-AtMost k s =
      if-AtMost _ _ _ (idle s) (or_close-AtMost (server_stream s) _ s (λ x. omega arith))

  send_result-AtMost : (r : Bytes) (s : Session) → AtMost n (send_result r s)
  unfolding send_result
  send_result-AtMost r s = elim (Option-cases (client_stream s)) [
    | inl absent ↦ rw (absent, send_result) (idle s)
    | inr (x, there) ↦ rw (there, send_result) (single s (writes x r response_sent) (omega arith))
  ]

  pub on_result-AtMost : (r : Bytes) (s : Session) → AtMost n (on_result r s)
  unfolding on_result
  on_result-AtMost r s = if-AtMost _ _ _ (idle s) (send_result-AtMost r _)

  pub on_client_error-AtMost : (ec : ErrorCode) (s : Session) → AtMost n (on_client_error ec s)
  unfolding on_client_error
  on_client_error-AtMost eof s =
      let s1 = record s { client_closed = true } in
      if-AtMost s.server_closed (close s1) (s1, []) (close-AtMost s1) (idle s1)
  on_client_error-AtMost _ s = fail-AtMost _ s

  pub on_server_error-AtMost : (ec : ErrorCode) (s : Session) → AtMost n (on_server_error ec s)
  unfolding on_server_error
  on_server_error-AtMost eof s =
      let s1 = record s { server_closed = true } in
      if-AtMost s.client_closed (close s1) (s1, []) (close-AtMost s1) (idle s1)
  on_server_error-AtMost _ s = fail-AtMost _ s

  pub on_forwarded_to_server-AtMost :
      (ec : ErrorCode) (s : Session) → AtMost n (on_forwarded_to_server ec s)
  unfolding on_forwarded_to_server
  on_forwarded_to_server-AtMost success s = bridge_client_to_server-AtMost s
  on_forwarded_to_server-AtMost _ s = fail-AtMost _ s

  pub on_response_sent-AtMost : (ec : ErrorCode) (s : Session) → AtMost n (on_response_sent ec s)
  unfolding on_response_sent
  on_response_sent-AtMost success s = bridge_client_to_server-AtMost s
  on_response_sent-AtMost _ s = idle s

bridge_server_to_client-AtMost : (s : Session) → AtMost 1 (bridge_server_to_client s)
unfolding bridge_server_to_client
bridge_server_to_client-AtMost s =
    if-AtMost 1 _ _ _ (idle 1 s)
      (or_close-AtMost 1 (server_stream s) (λ x. reads x server_read) s (λ x. omega arith))

pub forward_to_client-AtMost : (k : ℕ) (s : Session) → AtMost 1 (forward_to_client k s)
unfolding forward_to_client
forward_to_client-AtMost k s =
    if-AtMost 1 _ _ _ (idle 1 s) (or_close-AtMost 1 (client_stream s) _ s (λ x. omega arith))

both-AtMost :
    (m n : ℕ) (f g : Act) (s : Session)
    → AtMost m (f s)
    → ((t : Session) → AtMost n (g t))
    → AtMost (m + n) (both f g s)
both-AtMost m n f g s h k = record {
  bound = omega (arith, load_all-append (f s).1 (g (f s).0).1, h.bound, (k (f s).0).bound);
}

AtMost-Laws : Laws (λ bytes. Unit {0}) (AtMost 1)
AtMost-Laws = record {
  nothing = idle 1;
  one = λ s e h. single 1 s e (load_le e);
  packet = λ bytes s h. single 1 s (writes server_ssl bytes ssl_startup_sent) (omega arith);
  closes = close-AtMost 1;
  to_server = bridge_client_to_server-AtMost 1;
  to_client = bridge_server_to_client-AtMost;
  starts = λ s.
      both-AtMost 0 1 bridge_client_to_server bridge_server_to_client s
        (bridge_client_to_server-AtMost 0 s) bridge_server_to_client-AtMost;
  ssl_starts = λ s.
      both-AtMost 1 0 bridge_server_to_client bridge_client_to_server s
        (bridge_server_to_client-AtMost s) (bridge_client_to_server-AtMost 0);
}

pub start-AtMost : (s : Session) → AtMost 1 (start s)
start-AtMost = start_holds AtMost-Laws

no-IsPacket : (h : Handler) (ec : ErrorCode) (bytes : Bytes) → IsPacket (λ x. Unit {0}) h ec bytes
no-IsPacket ssl_startup_read success bytes = tt
no-IsPacket _ _ bytes = tt

pub act_of-AtMost : (e : Event) (s : Session) → AtMost 1 (act_of e s)
act_of-AtMost e s = act_of_holds AtMost-Laws e s (no-IsPacket e.handler e.ec e.bytes)
