-- ===== src/Session/Handlers.antt =====
-- The handlers of src/Session/Session.cpp that do not ask the cache, and any judgement on what an act
-- starts.
use single_flight_proxy_serv.Session.Message.{take-append}
use single_flight_proxy_serv.Prelude.{
  refl, sym, subst, drop, ◌≡◌, false, if◌then◌else◌, Bool, List, ℕ, true, not, ◌||◌, [], ◌∷◌, Bytes,
  length, take, is_some,
}
use single_flight_proxy_serv.Session.{
  is_expected_ssl_error, both, fail, close, Effect, Session, Handler, resolved, connected,
  client_startup_read, ssl_startup_read, ssl_startup_sent, ssl_request_sent, ssl_answer_read,
  refusal_sent, acceptance_sent, client_handshaken, server_handshaken, startup_relayed, client_read,
  forwarded_to_server, server_read, forwarded_to_client, response_sent, connects, reads, handshakes,
  writes, Target, started, reconnected, ErrorCode, success, fill, client, server, client_ssl,
  server_ssl,
}
use single_flight_proxy_serv.Session.Startup.{
  start, ssl_request_data, Creation, created, client_throws, server_throws, mode_throws,
  connect_to_database, read_client_startup, read_client_startup_after_ssl, check_server_ssl_support,
  handle_ssl_request, perform_ssl_handshake, relay_to_server, on_connected, on_resolved,
  on_client_startup, on_ssl_startup, on_ssl_startup_sent, on_ssl_request_sent, on_ssl_answer,
  on_refusal_sent, create_streams, on_acceptance_sent, on_client_handshake, on_server_handshake,
  on_startup_relayed,
}
use single_flight_proxy_serv.Session.Bridge.{
  bridge_client_to_server, bridge_server_to_client, on_forwarded_to_server, on_forwarded_to_client,
  on_response_sent,
}
use single_flight_proxy_serv.Proxy.{Event, act_of}

-- The effects of a session before the bridge, but for the write of the first packet over TLS.
abbrev pub Early : Effect → Type 0
Early (writes stream bytes ssl_startup_sent) = ⊥
Early (writes stream bytes ssl_request_sent) = bytes ≡ ssl_request_data
Early (writes stream bytes refusal_sent) = bytes ≡ b'N' ∷ []
Early (writes stream bytes acceptance_sent) = bytes ≡ b'S' ∷ []
Early (writes stream bytes forwarded_to_server) = ⊥
Early (writes stream bytes forwarded_to_client) = ⊥
Early (writes stream bytes response_sent) = ⊥
Early _ = Unit {0}

-- What the client sends over TLS first.
abbrev pub IsPacket : (Bytes → Type 0) → Handler → ErrorCode → Bytes → Type 0
IsPacket G ssl_startup_read success bytes = G bytes
IsPacket G _ _ bytes = Unit {0}

-- A judgement on what an act starts: what it takes to hold of every handler but the two reads of the
-- bridge.
pub record Laws (G : Bytes → Type 0) (J : Session × List Effect → Type 0) : Type 0 where
  pub nothing : (s : Session) → J (s, [])
  pub one : (s : Session) (e : Effect) → Early e → J (s, e ∷ [])
  pub packet :
      (bytes : Bytes) (s : Session) → G bytes → J (s, writes server_ssl bytes ssl_startup_sent ∷ [])
  pub closes : (s : Session) → J (close s)
  pub to_server : (s : Session) → J (bridge_client_to_server s)
  pub to_client : (s : Session) → J (bridge_server_to_client s)
  pub starts : (s : Session) → J (both bridge_client_to_server bridge_server_to_client s)
  pub ssl_starts : (s : Session) → J (both bridge_server_to_client bridge_client_to_server s)

module _ {G : Bytes → Type 0} {J : Session × List Effect → Type 0} (laws : Laws G J) where
  open laws use {nothing, one, packet, closes, to_server, to_client, starts, ssl_starts}

  if_holds : (b : Bool) (x y : Session × List Effect) → J x → J y → J (if b then x else y)
  if_holds true x y h k = h
  if_holds false x y h k = k

  fails : (ec : ErrorCode) (s : Session) → J (fail ec s)
  unfolding fail
  fails ec s = if_holds (is_expected_ssl_error ec) _ _ (nothing s) (closes s)

  connect_to_database_holds : (target : Target) (s : Session) → J (connect_to_database target s)
  unfolding connect_to_database
  connect_to_database_holds target s = if_holds _ _ _ (nothing s) (one s _ tt)

  pub start_holds : (s : Session) → J (start s)
  unfolding start
  start_holds s =
      if_holds _ _ _ (nothing s) (if_holds _ _ _ (connect_to_database_holds started s) (nothing s))

  check_server_ssl_support_holds : (s : Session) → J (check_server_ssl_support s)
  unfolding check_server_ssl_support
  check_server_ssl_support_holds s = if_holds _ _ _ (nothing s) (
      if_holds _ _ _ (connect_to_database_holds reconnected s)
        (one s (writes server ssl_request_data ssl_request_sent) refl))

  relay_to_server_holds : (n : ℕ) (s : Session) → J (relay_to_server n s)
  unfolding relay_to_server
  relay_to_server_holds n s =
      if_holds _ _ _ (nothing s) (one s (writes server (take n s.client_buffer) startup_relayed) tt)

  on_connected_holds :
      (target : Target) (ec : ErrorCode) (s : Session) → J (on_connected target ec s)
  unfolding on_connected read_client_startup
  on_connected_holds started success s =
      if_holds _ _ _ (nothing s) (one s (reads client client_startup_read) tt)
  on_connected_holds reconnected success s = check_server_ssl_support_holds s
  on_connected_holds started _ s = closes s
  on_connected_holds reconnected _ s = closes s

  on_resolved_holds : (target : Target) (ec : ErrorCode) (s : Session) → J (on_resolved target ec s)
  unfolding on_resolved
  on_resolved_holds target success s = one _ (connects server (connected target)) tt
  on_resolved_holds target _ s = on_connected_holds target _ s

  on_client_startup_holds :
      (ec : ErrorCode) (bytes : Bytes) (s : Session) → J (on_client_startup ec bytes s)
  unfolding on_client_startup
  on_client_startup_holds success bytes s =
      if_holds _ _ _ (check_server_ssl_support_holds _) (relay_to_server_holds (length bytes) _)
  on_client_startup_holds _ bytes s = fails _ s

  on_ssl_startup_holds :
      (ec : ErrorCode) (bytes : Bytes) (s : Session)
      → IsPacket G ssl_startup_read ec bytes
      → J (on_ssl_startup ec bytes s)
  unfolding on_ssl_startup
  on_ssl_startup_holds success bytes s g =
      let s1 = record s { client_buffer = fill bytes s.client_buffer } in
      let e = writes server_ssl (take (length bytes) s1.client_buffer) ssl_startup_sent in
      if_holds (is_some s.server_ssl_socket) (s1, e ∷ []) (s1, [])
        (packet (take (length bytes) s1.client_buffer) s1
          (subst G (sym (take-append bytes (drop (length bytes) s.client_buffer))) g))
        (nothing s1)
  on_ssl_startup_holds _ bytes s g = fails _ s

  on_ssl_answer_holds :
      (ec : ErrorCode) (bytes : Bytes) (s : Session) → J (on_ssl_answer ec bytes s)
  unfolding on_ssl_answer handle_ssl_request perform_ssl_handshake
  on_ssl_answer_holds success bytes s =
      if_holds _ _ _
        (if_holds _ _ _ (nothing s)
          (if_holds _ _ _ (one s (writes client (b'S' ∷ []) acceptance_sent) refl) (closes s)))
        (if_holds _ _ _ (nothing s) (one s (writes client (b'N' ∷ []) refusal_sent) refl))
  on_ssl_answer_holds _ bytes s = fails _ s

  on_acceptance_sent_holds :
      (ec : ErrorCode) (c : Creation) (s : Session) → J (on_acceptance_sent ec c s)
  unfolding on_acceptance_sent create_streams
  on_acceptance_sent_holds success created s = one _ (handshakes client_ssl client_handshaken) tt
  on_acceptance_sent_holds success client_throws s = closes _
  on_acceptance_sent_holds success server_throws s = closes _
  on_acceptance_sent_holds success mode_throws s = closes _
  on_acceptance_sent_holds _ c s = fails _ s

  on_client_handshake_holds : (ec : ErrorCode) (s : Session) → J (on_client_handshake ec s)
  unfolding on_client_handshake
  on_client_handshake_holds success s =
      if_holds _ _ _ (one s (handshakes server_ssl server_handshaken) tt) (closes s)
  on_client_handshake_holds _ s = closes s

  on_server_handshake_holds : (ec : ErrorCode) (s : Session) → J (on_server_handshake ec s)
  unfolding on_server_handshake read_client_startup_after_ssl
  on_server_handshake_holds success s =
      let s1 = record s { ssl_enabled = true } in
      let e = reads client_ssl ssl_startup_read in
      if_holds (s1.is_destroying || not (is_some s1.client_ssl_socket)) (s1, []) (s1, e ∷ [])
        (nothing s1) (one s1 e tt)
  on_server_handshake_holds _ s = fails _ s

  handler_holds :
      (h : Handler) (i : ℕ) (ec : ErrorCode) (bytes : Bytes) (c : Creation) (s : Session)
      → IsPacket G h ec bytes
      → J (act_of (record { i = i; handler = h; ec = ec; bytes = bytes; creation = c }) s)
  unfolding act_of on_ssl_startup_sent on_ssl_request_sent on_refusal_sent on_startup_relayed
      on_forwarded_to_server on_forwarded_to_client on_response_sent
  handler_holds (resolved target) i ec bytes c s g = on_resolved_holds target ec s
  handler_holds (connected target) i ec bytes c s g = on_connected_holds target ec s
  handler_holds client_startup_read i ec bytes c s g = on_client_startup_holds ec bytes s
  handler_holds ssl_startup_read i ec bytes c s g = on_ssl_startup_holds ec bytes s g
  handler_holds ssl_startup_sent i success bytes c s g = ssl_starts s
  handler_holds ssl_startup_sent i _ bytes c s g = closes s
  handler_holds ssl_request_sent i success bytes c s g = one s (reads server ssl_answer_read) tt
  handler_holds ssl_request_sent i _ bytes c s g = fails _ s
  handler_holds ssl_answer_read i ec bytes c s g = on_ssl_answer_holds ec bytes s
  handler_holds refusal_sent i success bytes c s g = relay_to_server_holds _ s
  handler_holds refusal_sent i _ bytes c s g = fails _ s
  handler_holds acceptance_sent i ec bytes c s g = on_acceptance_sent_holds ec c s
  handler_holds client_handshaken i ec bytes c s g = on_client_handshake_holds ec s
  handler_holds server_handshaken i ec bytes c s g = on_server_handshake_holds ec s
  handler_holds startup_relayed i success bytes c s g = starts s
  handler_holds startup_relayed i _ bytes c s g = fails _ s
  handler_holds forwarded_to_server i success bytes c s g = to_server s
  handler_holds forwarded_to_server i _ bytes c s g = fails _ s
  handler_holds response_sent i success bytes c s g = to_server s
  handler_holds response_sent i _ bytes c s g = nothing s
  handler_holds forwarded_to_client i success bytes c s g = to_client s
  handler_holds forwarded_to_client i _ bytes c s g = fails _ s
  handler_holds client_read i ec bytes c s g = nothing s
  handler_holds server_read i ec bytes c s g = nothing s

  -- The handler of an event that does not ask the cache.
  pub act_of_holds : (e : Event) (s : Session) → IsPacket G e.handler e.ec e.bytes → J (act_of e s)
  act_of_holds e s g = handler_holds e.handler e.i e.ec e.bytes e.creation s g
