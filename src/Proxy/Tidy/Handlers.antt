-- ===== src/Proxy/Tidy/Handlers.antt =====
-- The handlers of a session of src/Session/Session.cpp, and its sockets when it is closing.
use single_flight_proxy_serv.Prelude.{ℕ, ◌≡◌, refl, ◌∙◌, false, Bytes, length}
use single_flight_proxy_serv.Session.{
  Session, Handler, resolved, connected, client_startup_read, ssl_startup_read, ssl_startup_sent,
  ssl_request_sent, ssl_answer_read, refusal_sent, acceptance_sent, client_handshaken,
  server_handshaken, startup_relayed, client_read, forwarded_to_server, server_read,
  forwarded_to_client, response_sent, ErrorCode, success, eof, Target,
}
use single_flight_proxy_serv.Session.Startup.{
  Creation, created, client_throws, server_throws, mode_throws, read_client_startup_after_ssl,
  handle_ssl_request, on_resolved, on_client_startup, on_ssl_startup, on_ssl_startup_sent,
  on_ssl_request_sent, on_ssl_answer, on_refusal_sent, create_streams, on_acceptance_sent,
  on_client_handshake, on_server_handshake, on_startup_relayed,
}
use single_flight_proxy_serv.Session.Bridge.{
  on_client_error, on_server_error, on_forwarded_to_server, on_forwarded_to_client, on_result,
  on_response_sent,
}
use single_flight_proxy_serv.Session.Tidy.{
  IsTidy, is_running, is_shut, if-IsTidy, close-IsTidy, fail-IsTidy,
  check_server_ssl_support-IsTidy, perform_ssl_handshake-IsTidy, relay_to_server-IsTidy,
  on_connected-IsTidy, bridge_client_to_server-IsTidy, bridge_server_to_client-IsTidy,
  send_result-IsTidy,
}
use single_flight_proxy_serv.Proxy.{Event, act_of}

-- The session changes in something other than its sockets.
pub IsTidy-alike :
    (s s1 : Session)
    → s1.is_destroying ≡ s.is_destroying
    → s1.client_ssl_socket ≡ s.client_ssl_socket
    → s1.server_ssl_socket ≡ s.server_ssl_socket
    → s1.client_socket ≡ s.client_socket
    → s1.server_socket ≡ s.server_socket
    → IsTidy s
    → IsTidy s1
IsTidy-alike s s1 d a b e f (is_running h) = is_running (d ∙ h)
IsTidy-alike s s1 d a b e f (is_shut h) = is_shut (record {
  client_ssl = rw a h.client_ssl;
  server_ssl = rw b h.server_ssl;
  client = rw e h.client;
  server = rw f h.server;
})

module _ (s : Session) (t : IsTidy s) where
  on_client_startup-IsTidy :
      (ec : ErrorCode) (bytes : Bytes) → IsTidy (on_client_startup ec bytes s).0
  unfolding on_client_startup
  on_client_startup-IsTidy success bytes =
      if-IsTidy _ _ _
        (check_server_ssl_support-IsTidy _ (IsTidy-alike s _ refl refl refl refl refl t))
        (relay_to_server-IsTidy _ (IsTidy-alike s _ refl refl refl refl refl t) (length bytes))
  on_client_startup-IsTidy _ bytes = fail-IsTidy s t _

  on_ssl_startup-IsTidy : (ec : ErrorCode) (bytes : Bytes) → IsTidy (on_ssl_startup ec bytes s).0
  unfolding on_ssl_startup
  on_ssl_startup-IsTidy success bytes =
      let t1 = IsTidy-alike s _ refl refl refl refl refl t in if-IsTidy _ _ _ t1 t1
  on_ssl_startup-IsTidy _ bytes = fail-IsTidy s t _

  on_ssl_startup_sent-IsTidy : (ec : ErrorCode) → IsTidy (on_ssl_startup_sent ec s).0
  unfolding on_ssl_startup_sent
  on_ssl_startup_sent-IsTidy success =
      bridge_client_to_server-IsTidy _ (bridge_server_to_client-IsTidy s t)
  on_ssl_startup_sent-IsTidy _ = close-IsTidy s t

  on_ssl_request_sent-IsTidy : (ec : ErrorCode) → IsTidy (on_ssl_request_sent ec s).0
  unfolding on_ssl_request_sent
  on_ssl_request_sent-IsTidy success = t
  on_ssl_request_sent-IsTidy _ = fail-IsTidy s t _

  on_ssl_answer-IsTidy : (ec : ErrorCode) (bytes : Bytes) → IsTidy (on_ssl_answer ec bytes s).0
  unfolding on_ssl_answer handle_ssl_request
  on_ssl_answer-IsTidy success bytes =
      if-IsTidy _ _ _ (perform_ssl_handshake-IsTidy s t) (if-IsTidy _ _ _ t t)
  on_ssl_answer-IsTidy _ bytes = fail-IsTidy s t _

  on_refusal_sent-IsTidy : (ec : ErrorCode) → IsTidy (on_refusal_sent ec s).0
  unfolding on_refusal_sent
  on_refusal_sent-IsTidy success = relay_to_server-IsTidy s t _
  on_refusal_sent-IsTidy _ = fail-IsTidy s t _

  on_client_handshake-IsTidy : (ec : ErrorCode) → IsTidy (on_client_handshake ec s).0
  unfolding on_client_handshake
  on_client_handshake-IsTidy success = if-IsTidy _ _ _ t (close-IsTidy s t)
  on_client_handshake-IsTidy _ = close-IsTidy s t

  on_server_handshake-IsTidy : (ec : ErrorCode) → IsTidy (on_server_handshake ec s).0
  unfolding on_server_handshake read_client_startup_after_ssl
  on_server_handshake-IsTidy success =
      let t1 = IsTidy-alike s _ refl refl refl refl refl t in if-IsTidy _ _ _ t1 t1
  on_server_handshake-IsTidy _ = fail-IsTidy s t _

  on_startup_relayed-IsTidy : (ec : ErrorCode) → IsTidy (on_startup_relayed ec s).0
  unfolding on_startup_relayed
  on_startup_relayed-IsTidy success =
      bridge_server_to_client-IsTidy _ (bridge_client_to_server-IsTidy s t)
  on_startup_relayed-IsTidy _ = fail-IsTidy s t _

  pub on_client_error-IsTidy : (ec : ErrorCode) → IsTidy (on_client_error ec s).0
  unfolding on_client_error
  on_client_error-IsTidy eof =
      let t1 = IsTidy-alike s _ refl refl refl refl refl t in if-IsTidy _ _ _ (close-IsTidy _ t1) t1
  on_client_error-IsTidy _ = fail-IsTidy s t _

  pub on_server_error-IsTidy : (ec : ErrorCode) → IsTidy (on_server_error ec s).0
  unfolding on_server_error
  on_server_error-IsTidy eof =
      let t1 = IsTidy-alike s _ refl refl refl refl refl t in if-IsTidy _ _ _ (close-IsTidy _ t1) t1
  on_server_error-IsTidy _ = fail-IsTidy s t _

  on_forwarded_to_server-IsTidy : (ec : ErrorCode) → IsTidy (on_forwarded_to_server ec s).0
  unfolding on_forwarded_to_server
  on_forwarded_to_server-IsTidy success = bridge_client_to_server-IsTidy s t
  on_forwarded_to_server-IsTidy _ = fail-IsTidy s t _

  on_forwarded_to_client-IsTidy : (ec : ErrorCode) → IsTidy (on_forwarded_to_client ec s).0
  unfolding on_forwarded_to_client
  on_forwarded_to_client-IsTidy success = bridge_server_to_client-IsTidy s t
  on_forwarded_to_client-IsTidy _ = fail-IsTidy s t _

  on_response_sent-IsTidy : (ec : ErrorCode) → IsTidy (on_response_sent ec s).0
  unfolding on_response_sent
  on_response_sent-IsTidy success = bridge_client_to_server-IsTidy s t
  on_response_sent-IsTidy _ = t

  pub on_result-IsTidy : (result : Bytes) → IsTidy (on_result result s).0
  unfolding on_result
  on_result-IsTidy result =
      if-IsTidy _ _ _ t (send_result-IsTidy _ (IsTidy-alike s _ refl refl refl refl refl t) result)

-- The handlers that can open a socket or move one: they run only while the session is not closing.
module _ (s : Session) (running : s.is_destroying ≡ false) where
  on_resolved-IsTidy : (target : Target) (ec : ErrorCode) → IsTidy (on_resolved target ec s).0
  unfolding on_resolved
  on_resolved-IsTidy target success = is_running running
  on_resolved-IsTidy target _ = on_connected-IsTidy s (is_running running) target _

  on_acceptance_sent-IsTidy : (ec : ErrorCode) (c : Creation) → IsTidy (on_acceptance_sent ec c s).0
  unfolding on_acceptance_sent create_streams
  on_acceptance_sent-IsTidy success created = is_running running
  on_acceptance_sent-IsTidy success client_throws = close-IsTidy _ (is_running running)
  on_acceptance_sent-IsTidy success server_throws = close-IsTidy _ (is_running running)
  on_acceptance_sent-IsTidy success mode_throws = close-IsTidy _ (is_running running)
  on_acceptance_sent-IsTidy _ c = fail-IsTidy s (is_running running) _

  -- The handler of an event that does not ask the cache.
  handler-IsTidy :
      (h : Handler) (i : ℕ) (ec : ErrorCode) (bytes : Bytes) (c : Creation)
      → IsTidy (act_of (record { i = i; handler = h; ec = ec; bytes = bytes; creation = c }) s).0
  unfolding act_of
  handler-IsTidy (resolved target) i ec bytes c = on_resolved-IsTidy target ec
  handler-IsTidy (connected target) i ec bytes c =
      on_connected-IsTidy s (is_running running) target ec
  handler-IsTidy client_startup_read i ec bytes c =
      on_client_startup-IsTidy s (is_running running) ec bytes
  handler-IsTidy ssl_startup_read i ec bytes c =
      on_ssl_startup-IsTidy s (is_running running) ec bytes
  handler-IsTidy ssl_startup_sent i ec bytes c =
      on_ssl_startup_sent-IsTidy s (is_running running) ec
  handler-IsTidy ssl_request_sent i ec bytes c =
      on_ssl_request_sent-IsTidy s (is_running running) ec
  handler-IsTidy ssl_answer_read i ec bytes c = on_ssl_answer-IsTidy s (is_running running) ec bytes
  handler-IsTidy refusal_sent i ec bytes c = on_refusal_sent-IsTidy s (is_running running) ec
  handler-IsTidy acceptance_sent i ec bytes c = on_acceptance_sent-IsTidy ec c
  handler-IsTidy client_handshaken i ec bytes c =
      on_client_handshake-IsTidy s (is_running running) ec
  handler-IsTidy server_handshaken i ec bytes c =
      on_server_handshake-IsTidy s (is_running running) ec
  handler-IsTidy startup_relayed i ec bytes c = on_startup_relayed-IsTidy s (is_running running) ec
  handler-IsTidy forwarded_to_server i ec bytes c =
      on_forwarded_to_server-IsTidy s (is_running running) ec
  handler-IsTidy response_sent i ec bytes c = on_response_sent-IsTidy s (is_running running) ec
  handler-IsTidy forwarded_to_client i ec bytes c =
      on_forwarded_to_client-IsTidy s (is_running running) ec
  handler-IsTidy client_read i ec bytes c = is_running running
  handler-IsTidy server_read i ec bytes c = is_running running

  pub act_of-IsTidy : (e : Event) → IsTidy (act_of e s).0
  act_of-IsTidy e = handler-IsTidy e.handler e.i e.ec e.bytes e.creation
