-- ===== src/Session/Origin.antt =====
-- What a session of src/Session/Session.cpp writes once the bridge has started: the bytes that it
-- has read, and results.
pub mod Startup
use single_flight_proxy_serv.Prelude.{
  ℕ, ◌≡◌, refl, sym, ap, subst, ◌∙◌, Bool, true, false, Option, none, some, List, [], ◌∷◌, ◌++◌,
  Bytes, length, take, Option-cases, inl, inr, if◌then◌else◌, is_some,
}
use single_flight_proxy_serv.Session.{
  Session, Stream, Handler, resolved, connected, client_startup_read, ssl_startup_read,
  ssl_startup_sent, ssl_request_sent, ssl_answer_read, refusal_sent, acceptance_sent,
  client_handshaken, server_handshaken, startup_relayed, client_read, forwarded_to_server,
  server_read, forwarded_to_client, response_sent, Effect, resolves, connects, reads, handshakes,
  writes, cancels, shuts_down, closes, Target, started, reconnected, ErrorCode, success,
  operation_aborted, eof, system_error, ssl_error, cleanup_sockets, close, fail, fill, Act, both,
  client, server, client_ssl, server_ssl, is_expected_ssl_error,
}
use single_flight_proxy_serv.Session.Stages.{AllSync}
use single_flight_proxy_serv.Session.Starting.{cleanup_sockets-IsSync}
use single_flight_proxy_serv.Session.Startup.{
  start, ssl_request_data, Creation, created, client_throws, server_throws, connect_to_database,
  read_client_startup, read_client_startup_after_ssl, check_server_ssl_support, handle_ssl_request,
  perform_ssl_handshake, relay_to_server, on_connected, on_resolved, on_client_startup,
  on_ssl_startup, on_ssl_startup_sent, on_ssl_request_sent, on_ssl_answer, on_refusal_sent,
  create_streams, on_acceptance_sent, on_client_handshake, on_server_handshake, on_startup_relayed,
}
use single_flight_proxy_serv.Session.Bridge.{
  or_close, client_stream, server_stream, bridge_client_to_server, bridge_server_to_client,
  forward_to_server, forward_to_client, on_client_error, on_server_error, on_forwarded_to_server,
  on_forwarded_to_client, send_result, on_result, on_response_sent,
}

-- What the bridge writes to the client is such a response, and what it writes to the server such a
-- message, like the first packet over TLS. The request for TLS and the two answers to it are the
-- program's own. The first packet without TLS and the other operations are free.
module _ (P Q : Bytes → Type 0) where
  abbrev pub Comes : Effect → Type 0
  Comes (writes stream bytes forwarded_to_server) = Q bytes
  Comes (writes stream bytes forwarded_to_client) = P bytes
  Comes (writes stream bytes response_sent) = P bytes
  Comes (writes stream bytes ssl_startup_sent) = Q bytes
  Comes (writes stream bytes ssl_request_sent) = bytes ≡ ssl_request_data
  Comes (writes stream bytes refusal_sent) = bytes ≡ b'N' ∷ []
  Comes (writes stream bytes acceptance_sent) = bytes ≡ b'S' ∷ []
  Comes _ = Unit {0}

  abbrev pub AllCome : List Effect → Type 0
  AllCome [] = Unit {0}
  AllCome (e ∷ es) = Comes e × AllCome es

  AllCome-append : (xs ys : List Effect) → AllCome xs → AllCome ys → AllCome (xs ++ ys)
  AllCome-append [] ys h k = k
  AllCome-append (x ∷ xs) ys h k = (h.0, AllCome-append xs ys h.1 k)

  AllSync-AllCome : (xs : List Effect) → AllSync xs → AllCome xs
  AllSync-AllCome [] h = tt
  AllSync-AllCome (cancels x ∷ xs) h = (tt, AllSync-AllCome xs h)
  AllSync-AllCome (shuts_down x ∷ xs) h = (tt, AllSync-AllCome xs h)
  AllSync-AllCome (closes x ∷ xs) h = (tt, AllSync-AllCome xs h)
  AllSync-AllCome (resolves k ∷ xs) h = absurd h
  AllSync-AllCome (connects x k ∷ xs) h = absurd h
  AllSync-AllCome (reads x k ∷ xs) h = absurd h
  AllSync-AllCome (handshakes x k ∷ xs) h = absurd h
  AllSync-AllCome (writes x bytes k ∷ xs) h = absurd h

  -- All that an act starts.
  pub record Faithful (r : Session × List Effect) : Type 0 where
    pub all : AllCome r.1

  nothing : (s : Session) → Faithful (s, [])
  nothing s = record { all = tt }

  one : (s : Session) (e : Effect) → Comes e → Faithful (s, e ∷ [])
  one s e h = record { all = (h, tt) }

  if-Faithful :
      (b : Bool) (x y : Session × List Effect)
      → Faithful x
      → Faithful y
      → Faithful (if b then x else y)
  if-Faithful true x y h k = h
  if-Faithful false x y h k = k

  close-Faithful : (s : Session) → Faithful (close s)
  unfolding close
  close-Faithful s = if-Faithful s.is_destroying _ _ (nothing s) (record {
    all = AllSync-AllCome _ (cleanup_sockets-IsSync (record s { is_destroying = true })).all;
  })

  fail-Faithful : (ec : ErrorCode) (s : Session) → Faithful (fail ec s)
  unfolding fail
  fail-Faithful ec s = if-Faithful (is_expected_ssl_error ec) _ _ (nothing s) (close-Faithful s)

  or_close-Faithful :
      (o : Option Stream) (e : Stream → Effect) (s : Session)
      → ((x : Stream) → Comes (e x))
      → Faithful (or_close o e s)
  unfolding or_close
  or_close-Faithful (some x) e s h = one s (e x) (h x)
  or_close-Faithful none e s h = close-Faithful s

  -- The bridge.
  bridge_client_to_server-Faithful : (s : Session) → Faithful (bridge_client_to_server s)
  unfolding bridge_client_to_server
  bridge_client_to_server-Faithful s =
      if-Faithful _ _ _ (nothing s)
        (or_close-Faithful (client_stream s) (λ x. reads x client_read) s (λ x. tt))

  bridge_server_to_client-Faithful : (s : Session) → Faithful (bridge_server_to_client s)
  unfolding bridge_server_to_client
  bridge_server_to_client-Faithful s =
      if-Faithful _ _ _ (nothing s)
        (or_close-Faithful (server_stream s) (λ x. reads x server_read) s (λ x. tt))

  pub forward_to_server-Faithful :
      (n : ℕ) (s : Session) → Q (take n s.client_buffer) → Faithful (forward_to_server n s)
  unfolding forward_to_server
  forward_to_server-Faithful n s h = if-Faithful _ _ _ (nothing s) (
      or_close-Faithful (server_stream s)
        (λ x. writes x (take n s.client_buffer) forwarded_to_server) s (λ x. h))

  pub forward_to_client-Faithful :
      (n : ℕ) (s : Session) → P (take n s.server_buffer) → Faithful (forward_to_client n s)
  unfolding forward_to_client
  forward_to_client-Faithful n s h = if-Faithful _ _ _ (nothing s) (
      or_close-Faithful (client_stream s)
        (λ x. writes x (take n s.server_buffer) forwarded_to_client) s (λ x. h))

  send_result-Faithful : (r : Bytes) (s : Session) → P r → Faithful (send_result r s)
  unfolding send_result
  send_result-Faithful r s h = elim (Option-cases (client_stream s)) [
    | inl absent ↦ rw (absent, send_result) (nothing s)
    | inr (x, there) ↦ rw (there, send_result) (one s (writes x r response_sent) h)
  ]

  pub on_result-Faithful : (r : Bytes) (s : Session) → P r → Faithful (on_result r s)
  unfolding on_result
  on_result-Faithful r s h = if-Faithful _ _ _ (nothing s) (send_result-Faithful r _ h)

  pub on_client_error-Faithful : (ec : ErrorCode) (s : Session) → Faithful (on_client_error ec s)
  unfolding on_client_error
  on_client_error-Faithful eof s =
      let s1 = record s { client_closed = true } in
      if-Faithful s.server_closed (close s1) (s1, []) (close-Faithful s1) (nothing s1)
  on_client_error-Faithful _ s = fail-Faithful _ s

  pub on_server_error-Faithful : (ec : ErrorCode) (s : Session) → Faithful (on_server_error ec s)
  unfolding on_server_error
  on_server_error-Faithful eof s =
      let s1 = record s { server_closed = true } in
      if-Faithful s.client_closed (close s1) (s1, []) (close-Faithful s1) (nothing s1)
  on_server_error-Faithful _ s = fail-Faithful _ s

  both-Faithful :
      (f g : Act) (s : Session)
      → Faithful (f s)
      → ((t : Session) → Faithful (g t))
      → Faithful (both f g s)
  both-Faithful f g s h k = record {
    all = AllCome-append (f s).1 (g (f s).0).1 h.all (k (f s).0).all;
  }
