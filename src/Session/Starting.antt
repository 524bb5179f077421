-- ===== src/Session/Starting.antt =====
-- The steps of the start of a session of src/Session/Session.cpp, by stages.
use single_flight_proxy_serv.Prelude.{
  ℕ, ◌≡◌, refl, Bool, true, false, not, ◌&&◌, ◌||◌, Option, none, some, List, [], ◌∷◌, ◌++◌, Bytes,
  length, take, ◌==◌, if◌then◌else◌, is_some,
}
use single_flight_proxy_serv.Session.{
  Session, Socket, client, server, client_ssl, server_ssl, resolved, connected, Target, started,
  reconnected, client_startup_read, ssl_startup_read, ssl_startup_sent, ssl_request_sent,
  ssl_answer_read, refusal_sent, acceptance_sent, client_handshaken, server_handshaken,
  startup_relayed, Effect, resolves, connects, reads, writes, handshakes, cancels, shuts_down,
  closes, ErrorCode, success, operation_aborted, eof, system_error, ssl_error, fill, close, fail,
  cleanup_sockets, on_open, is_expected_ssl_error,
}
use single_flight_proxy_serv.Session.Message.{is_ssl_request, byte_at}
use single_flight_proxy_serv.Session.Startup.{
  opened, Creation, created, client_throws, server_throws, mode_throws, connect_to_database, start,
  read_client_startup, read_client_startup_after_ssl, check_server_ssl_support, handle_ssl_request,
  perform_ssl_handshake, relay_to_server, on_connected, on_resolved, on_client_startup,
  on_ssl_startup, on_ssl_request_sent, on_ssl_answer, on_refusal_sent, create_streams,
  on_acceptance_sent, on_client_handshake, on_server_handshake, ssl_request_data, is_closed,
}
use single_flight_proxy_serv.Session.Stages.{
  Has, IsPlain, IsTls, AllSync, Stage, stopped, plain, tls,
}

choose :
    (b : Bool) {x y : Session × List Effect}
    → (b ≡ true → Stage x)
    → (b ≡ false → Stage y)
    → Stage (if b then x else y)
choose true f g = f refl
choose false f g = g refl

AllSync-append : (xs ys : List Effect) → AllSync xs → AllSync ys → AllSync (xs ++ ys)
AllSync-append [] ys h g = g
AllSync-append (cancels x ∷ xs) ys h g = AllSync-append xs ys h g
AllSync-append (shuts_down x ∷ xs) ys h g = AllSync-append xs ys h g
AllSync-append (closes x ∷ xs) ys h g = AllSync-append xs ys h g
AllSync-append (resolves k ∷ xs) ys h g = absurd h
AllSync-append (connects x k ∷ xs) ys h g = absurd h
AllSync-append (reads x k ∷ xs) ys h g = absurd h
AllSync-append (handshakes x k ∷ xs) ys h g = absurd h
AllSync-append (writes x bytes k ∷ xs) ys h g = absurd h

pub record IsSync (xs : List Effect) : Type 0 where
  pub all : AllSync xs

IsSync-append : (xs ys : List Effect) → IsSync xs → IsSync ys → IsSync (xs ++ ys)
IsSync-append xs ys h g = record { all = AllSync-append xs ys h.all g.all }

if_sync : (b : Bool) (e : Effect) → AllSync (e ∷ []) → AllSync (if b then e ∷ [] else [])
if_sync true e h = h
if_sync false e h = tt

on_open-AllSync : (o : Option Socket) (e : Effect) → AllSync (e ∷ []) → AllSync (on_open o e)
on_open-AllSync none e h = tt
on_open-AllSync (some socket) e h = if_sync socket.is_open e h

-- One more call on a socket that may be there.
on_open-IsSync :
    (o : Option Socket) (e : Effect) (xs : List Effect)
    → AllSync (e ∷ [])
    → IsSync xs
    → IsSync (xs ++ on_open o e)
on_open-IsSync o e xs h g =
    IsSync-append xs (on_open o e) g (record { all = on_open-AllSync o e h })

pub cleanup_sockets-IsSync : (s : Session) → IsSync (cleanup_sockets s).1
unfolding cleanup_sockets
cleanup_sockets-IsSync s =
    let x0 : IsSync (on_open s.client_ssl_socket (cancels client_ssl)) = record {
      all = on_open-AllSync s.client_ssl_socket (cancels client_ssl) tt;
    } in
    let x1 = on_open-IsSync s.server_ssl_socket (cancels server_ssl) _ tt x0 in
    let x2 = on_open-IsSync s.client_socket (cancels client) _ tt x1 in
    let x3 = on_open-IsSync s.server_socket (cancels server) _ tt x2 in
    let x4 = on_open-IsSync s.client_ssl_socket (shuts_down client_ssl) _ tt x3 in
    let x5 = on_open-IsSync s.server_ssl_socket (shuts_down server_ssl) _ tt x4 in
    let x6 = on_open-IsSync s.client_ssl_socket (closes client_ssl) _ tt x5 in
    let x7 = on_open-IsSync s.server_ssl_socket (closes server_ssl) _ tt x6 in
    let x8 = on_open-IsSync s.client_socket (closes client) _ tt x7 in
    on_open-IsSync s.server_socket (closes server) _ tt x8

pub close-Stage : (s : Session) → Stage (close s)
unfolding close
close-Stage s =
    choose s.is_destroying (λ e. stopped s [] tt)
      (λ e. stopped _ _ ((cleanup_sockets-IsSync (record s { is_destroying = true })).all))

pub fail-Stage : (ec : ErrorCode) (s : Session) → Stage (fail ec s)
unfolding fail
fail-Stage ec s = choose (is_expected_ssl_error ec) (λ e. stopped s [] tt) (λ e. close-Stage s)

opened-Has : (o : Option Socket) → Has o → Has (opened o)
opened-Has none h = h
opened-Has (some socket) h = tt

module _ (s : Session) (p : IsPlain s) where
  pub connect_to_database-Stage : (t : Target) → Stage (connect_to_database t s)
  unfolding connect_to_database
  connect_to_database-Stage t =
      choose s.is_destroying (λ e. stopped s [] tt) (λ e. plain s (resolves (resolved t)) p tt)

  pub start-Stage : Stage (start s)
  unfolding start
  start-Stage =
      choose s.is_destroying (λ e. stopped s [] tt)
        (λ e.
          choose (is_some s.client_socket) (λ g. connect_to_database-Stage started)
            (λ g. stopped s [] tt))

  pub read_client_startup-Stage : Stage (read_client_startup s)
  unfolding read_client_startup
  read_client_startup-Stage =
      choose (s.is_destroying || not (is_some s.client_socket)) (λ e. stopped s [] tt)
        (λ e. plain s (reads client client_startup_read) p (tt, tt))

  pub check_server_ssl_support-Stage : Stage (check_server_ssl_support s)
  unfolding check_server_ssl_support
  check_server_ssl_support-Stage =
      choose (s.is_destroying || not (is_some s.server_socket)) (λ e. stopped s [] tt)
        (λ e.
          choose (is_closed s.server_socket) (λ g. connect_to_database-Stage reconnected)
            (λ g. plain s (writes server ssl_request_data ssl_request_sent) p (tt, tt)))

  pub handle_ssl_request-Stage : Stage (handle_ssl_request s)
  unfolding handle_ssl_request
  handle_ssl_request-Stage =
      choose (s.is_destroying || not (is_some s.client_socket)) (λ e. stopped s [] tt)
        (λ e. plain s (writes client (b'N' ∷ []) refusal_sent) p (tt, tt))

  pub perform_ssl_handshake-Stage : Stage (perform_ssl_handshake s)
  unfolding perform_ssl_handshake
  perform_ssl_handshake-Stage =
      choose s.is_destroying (λ e. stopped s [] tt)
        (λ e.
          choose (is_some s.client_socket && is_some s.server_socket)
            (λ g. plain s (writes client (b'S' ∷ []) acceptance_sent) p (tt, tt))
            (λ g. close-Stage s))

  pub relay_to_server-Stage : (n : ℕ) → Stage (relay_to_server n s)
  unfolding relay_to_server
  relay_to_server-Stage n =
      choose (s.is_destroying || not (is_some s.server_socket)) (λ e. stopped s [] tt)
        (λ e. plain s (writes server (take n s.client_buffer) startup_relayed) p (tt, tt))

  pub on_connected-Stage : (t : Target) (ec : ErrorCode) → Stage (on_connected t ec s)
  unfolding on_connected
  on_connected-Stage started success = read_client_startup-Stage
  on_connected-Stage reconnected success = check_server_ssl_support-Stage
  on_connected-Stage started operation_aborted = close-Stage s
  on_connected-Stage started eof = close-Stage s
  on_connected-Stage started system_error = close-Stage s
  on_connected-Stage started (ssl_error msg) = close-Stage s
  on_connected-Stage reconnected operation_aborted = close-Stage s
  on_connected-Stage reconnected eof = close-Stage s
  on_connected-Stage reconnected system_error = close-Stage s
  on_connected-Stage reconnected (ssl_error msg) = close-Stage s

  pub on_resolved-Stage : (t : Target) (ec : ErrorCode) → Stage (on_resolved t ec s)
  unfolding on_resolved
  on_resolved-Stage t success =
      plain _ (connects server (connected t))
        (record { client = p.client; server = opened-Has s.server_socket p.server }) (tt, tt)
  on_resolved-Stage t operation_aborted = on_connected-Stage t operation_aborted
  on_resolved-Stage t eof = on_connected-Stage t eof
  on_resolved-Stage t system_error = on_connected-Stage t system_error
  on_resolved-Stage t (ssl_error msg) = on_connected-Stage t (ssl_error msg)

  pub create_streams-Stage : (c : Creation) → Stage (create_streams c s)
  unfolding create_streams
  create_streams-Stage created =
      tls _ (handshakes client_ssl client_handshaken)
        (record { client = p.client; server = p.server }) (tt, tt)
  create_streams-Stage client_throws = close-Stage _
  create_streams-Stage server_throws = close-Stage _
  create_streams-Stage mode_throws = close-Stage _

module _ (s : Session) (p : IsPlain s) where
  pub on_client_startup-Stage :
      (ec : ErrorCode) (bytes : Bytes) → Stage (on_client_startup ec bytes s)
  unfolding on_client_startup
  on_client_startup-Stage success bytes =
      choose (is_ssl_request (fill bytes s.client_buffer) (length bytes))
        (λ e. check_server_ssl_support-Stage _ (record { client = p.client; server = p.server }))
        (λ e.
          relay_to_server-Stage _ (record { client = p.client; server = p.server }) (length bytes))
  on_client_startup-Stage operation_aborted bytes = fail-Stage operation_aborted s
  on_client_startup-Stage eof bytes = fail-Stage eof s
  on_client_startup-Stage system_error bytes = fail-Stage system_error s
  on_client_startup-Stage (ssl_error m) bytes = fail-Stage (ssl_error m) s

  pub on_ssl_request_sent-Stage : (ec : ErrorCode) → Stage (on_ssl_request_sent ec s)
  unfolding on_ssl_request_sent
  on_ssl_request_sent-Stage success = plain s (reads server ssl_answer_read) p (tt, tt)
  on_ssl_request_sent-Stage operation_aborted = fail-Stage operation_aborted s
  on_ssl_request_sent-Stage eof = fail-Stage eof s
  on_ssl_request_sent-Stage system_error = fail-Stage system_error s
  on_ssl_request_sent-Stage (ssl_error m) = fail-Stage (ssl_error m) s

  pub on_ssl_answer-Stage : (ec : ErrorCode) (bytes : Bytes) → Stage (on_ssl_answer ec bytes s)
  unfolding on_ssl_answer
  on_ssl_answer-Stage success bytes =
      choose (byte_at 0 bytes == b'S') (λ e. perform_ssl_handshake-Stage s p)
        (λ e. handle_ssl_request-Stage s p)
  on_ssl_answer-Stage operation_aborted bytes = fail-Stage operation_aborted s
  on_ssl_answer-Stage eof bytes = fail-Stage eof s
  on_ssl_answer-Stage system_error bytes = fail-Stage system_error s
  on_ssl_answer-Stage (ssl_error m) bytes = fail-Stage (ssl_error m) s

  pub on_refusal_sent-Stage : (ec : ErrorCode) → Stage (on_refusal_sent ec s)
  unfolding on_refusal_sent
  on_refusal_sent-Stage success = relay_to_server-Stage s p (length s.startup_packet)
  on_refusal_sent-Stage operation_aborted = fail-Stage operation_aborted s
  on_refusal_sent-Stage eof = fail-Stage eof s
  on_refusal_sent-Stage system_error = fail-Stage system_error s
  on_refusal_sent-Stage (ssl_error m) = fail-Stage (ssl_error m) s

  pub on_acceptance_sent-Stage : (ec : ErrorCode) (c : Creation) → Stage (on_acceptance_sent ec c s)
  unfolding on_acceptance_sent
  on_acceptance_sent-Stage success c = create_streams-Stage s p c
  on_acceptance_sent-Stage operation_aborted c = fail-Stage operation_aborted s
  on_acceptance_sent-Stage eof c = fail-Stage eof s
  on_acceptance_sent-Stage system_error c = fail-Stage system_error s
  on_acceptance_sent-Stage (ssl_error m) c = fail-Stage (ssl_error m) s

module _ (s : Session) (p : IsTls s) where
  pub read_after_ssl-Stage : Stage (read_client_startup_after_ssl s)
  unfolding read_client_startup_after_ssl
  read_after_ssl-Stage =
      choose (s.is_destroying || not (is_some s.client_ssl_socket)) (λ e. stopped s [] tt)
        (λ e. tls s (reads client_ssl ssl_startup_read) p (tt, tt))

  pub on_ssl_startup-Stage : (ec : ErrorCode) (bytes : Bytes) → Stage (on_ssl_startup ec bytes s)
  unfolding on_ssl_startup
  on_ssl_startup-Stage success bytes =
      choose (is_some s.server_ssl_socket)
        (λ e.
          tls _
            (writes server_ssl (take (length bytes) (fill bytes s.client_buffer)) ssl_startup_sent)
            (record { client = p.client; server = p.server }) (tt, tt))
        (λ e. stopped _ [] tt)
  on_ssl_startup-Stage operation_aborted bytes = fail-Stage operation_aborted s
  on_ssl_startup-Stage eof bytes = fail-Stage eof s
  on_ssl_startup-Stage system_error bytes = fail-Stage system_error s
  on_ssl_startup-Stage (ssl_error m) bytes = fail-Stage (ssl_error m) s

  pub on_client_handshake-Stage : (ec : ErrorCode) → Stage (on_client_handshake ec s)
  unfolding on_client_handshake
  on_client_handshake-Stage success =
      choose (is_some s.server_ssl_socket)
        (λ e. tls s (handshakes server_ssl server_handshaken) p (tt, tt)) (λ e. close-Stage s)
  on_client_handshake-Stage operation_aborted = close-Stage s
  on_client_handshake-Stage eof = close-Stage s
  on_client_handshake-Stage system_error = close-Stage s
  on_client_handshake-Stage (ssl_error m) = close-Stage s

module _ (s : Session) (p : IsTls s) where
  pub on_server_handshake-Stage : (ec : ErrorCode) → Stage (on_server_handshake ec s)
  unfolding on_server_handshake
  on_server_handshake-Stage success =
      read_after_ssl-Stage (record s { ssl_enabled = true })
        (record { client = p.client; server = p.server })
  on_server_handshake-Stage operation_aborted = fail-Stage operation_aborted s
  on_server_handshake-Stage eof = fail-Stage eof s
  on_server_handshake-Stage system_error = fail-Stage system_error s
  on_server_handshake-Stage (ssl_error m) = fail-Stage (ssl_error m) s
