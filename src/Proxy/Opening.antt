-- ===== src/Proxy/Opening.antt =====
-- From `start` of src/Session/Session.cpp to the bridge, when everything succeeds: over TCP, and over
-- TLS when the client asks for it and the server agrees.
use single_flight_proxy_serv.Prelude.{
  ◌≡◌, refl, true, false, none, some, List, [], ◌∷◌, Bytes, length, take, ◌∙◌, ap,
}
use single_flight_proxy_serv.Session.{
  Session, new_session, fill, client, server, client_ssl, server_ssl, client_read, server_read,
  client_startup_read, startup_relayed, ssl_request_sent, Effect, reads, writes, success,
}
use single_flight_proxy_serv.Session.Message.{is_ssl_request, byte_at}
use single_flight_proxy_serv.Session.Startup.{
  created, start, on_resolved, on_connected, read_client_startup, on_client_startup,
  relay_to_server, check_server_ssl_support, ssl_request_data, on_startup_relayed,
  on_ssl_request_sent, on_ssl_answer, perform_ssl_handshake, on_acceptance_sent, create_streams,
  on_client_handshake, on_server_handshake, read_client_startup_after_ssl, on_ssl_startup,
  on_ssl_startup_sent,
}
use single_flight_proxy_serv.Session.Bridge.{
  bridge_client_to_server, bridge_server_to_client, client_stream, server_stream, or_close,
}
use single_flight_proxy_serv.Proxy.{act_of}
use single_flight_proxy_serv.Proxy.Start.{Completion, drive, next, handles}

-- An operation that succeeds, and a read.
abbrev pub succeeds : Completion
succeeds = record { ec = success; bytes = []; creation = created }

abbrev pub received : Bytes → Completion
received bytes = record { ec = success; bytes = bytes; creation = created }

-- A new session that is connected, and reads its client's first packet.
abbrev pub connected_session : Session
connected_session = record new_session { server_socket = some (record { is_open = true }) }

abbrev pub with_packet : Bytes → Session
with_packet packet = record connected_session {
  client_buffer = fill packet connected_session.client_buffer;
}

connects_first :
    (cs : List Completion)
    → drive (succeeds ∷ succeeds ∷ cs) (start new_session)
      ≡ drive cs (connected_session, reads client client_startup_read ∷ [])
unfolding drive next handles act_of start on_resolved on_connected read_client_startup new_session
connects_first cs = refl

relays_first :
    (packet : Bytes)
    → is_ssl_request (with_packet packet).client_buffer (length packet) ≡ false
    → next (received packet) (connected_session, reads client client_startup_read ∷ []) ≡ (
      with_packet packet,
      writes server (take (length packet) (with_packet packet).client_buffer) startup_relayed ∷ [],
    )
unfolding next handles act_of on_client_startup relay_to_server new_session
relays_first packet plain = rw plain refl

asks_for_tls :
    (packet : Bytes)
    → is_ssl_request (with_packet packet).client_buffer (length packet) ≡ true
    → next (received packet) (connected_session, reads client client_startup_read ∷ []) ≡ (
      record (with_packet packet) {
        startup_packet = take (length packet) (with_packet packet).client_buffer;
      },
      writes server ssl_request_data ssl_request_sent ∷ [],
    )
unfolding next handles act_of on_client_startup check_server_ssl_support new_session
asks_for_tls packet tls = rw tls refl

abbrev pub both_tcp : List Effect
both_tcp = reads client client_read ∷ reads server server_read ∷ []

abbrev pub both_tls : List Effect
both_tls = reads server_ssl server_read ∷ reads client_ssl client_read ∷ []

-- The session's two sockets as TLS streams.
abbrev pub tls_session : Bytes → Bytes → Session
tls_session request packet = record new_session {
  client_ssl_socket = some (record { is_open = true });
  server_ssl_socket = some (record { is_open = true });
  client_socket = none;
  server_socket = none;
  ssl_enabled = true;
  startup_packet = take (length request) (fill request new_session.client_buffer);
  client_buffer = fill packet (fill request new_session.client_buffer);
}

bridges_tcp :
    (packet : Bytes)
    → next succeeds (
      with_packet packet,
      writes server (take (length packet) (with_packet packet).client_buffer) startup_relayed ∷ [],
    )
      ≡ (with_packet packet, both_tcp)
unfolding next handles act_of on_startup_relayed bridge_client_to_server bridge_server_to_client
    client_stream server_stream or_close new_session
bridges_tcp packet = refl

-- What completes after a request for TLS that the server agrees to.
abbrev pub agreed : Bytes → List Completion
agreed packet =
    succeeds
    ∷ received (b'S' ∷ [])
    ∷ succeeds
    ∷ succeeds
    ∷ succeeds
    ∷ received packet
    ∷ succeeds
    ∷ []

bridges_tls :
    (request packet : Bytes)
    → drive (agreed packet) (
      record (with_packet request) {
        startup_packet = take (length request) (with_packet request).client_buffer;
      },
      writes server ssl_request_data ssl_request_sent ∷ [],
    )
      ≡ (tls_session request packet, both_tls)
unfolding drive next handles act_of on_ssl_request_sent on_ssl_answer perform_ssl_handshake
    on_acceptance_sent create_streams on_client_handshake on_server_handshake
    read_client_startup_after_ssl on_ssl_startup on_ssl_startup_sent bridge_client_to_server
    bridge_server_to_client client_stream server_stream or_close new_session byte_at
bridges_tls request packet = refl

over_tcp :
    (packet : Bytes)
    → is_ssl_request (with_packet packet).client_buffer (length packet) ≡ false
    → drive (succeeds ∷ succeeds ∷ received packet ∷ succeeds ∷ []) (start new_session)
      ≡ (with_packet packet, both_tcp)
unfolding drive
over_tcp packet plain =
    connects_first (received packet ∷ succeeds ∷ [])
    ∙ ap (next succeeds) (relays_first packet plain)
    ∙ bridges_tcp packet

over_tls :
    (request packet : Bytes)
    → is_ssl_request (with_packet request).client_buffer (length request) ≡ true
    → drive (succeeds ∷ succeeds ∷ received request ∷ agreed packet) (start new_session)
      ≡ (tls_session request packet, both_tls)
unfolding drive
over_tls request packet tls =
    connects_first (received request ∷ agreed packet)
    ∙ ap (drive (agreed packet)) (asks_for_tls request tls)
    ∙ bridges_tls request packet

-- A new session whose operations succeed resolves and connects to the server and reads its client's
-- first packet. When that is not a request for TLS, it is relayed, and then both directions of the
-- bridge read, from the two TCP sockets. When it is one and the server answers the session's own
-- request with `S`, the client is answered, both sockets become TLS streams, the two handshakes are
-- done, the client's next packet is relayed, and both directions read, from the two TLS streams.
-- Either way nothing has been closed, and one read is pending on each side.
pub start-bridges :
    (plain request packet : Bytes)
    → is_ssl_request (with_packet plain).client_buffer (length plain) ≡ false
    → is_ssl_request (with_packet request).client_buffer (length request) ≡ true
    → (drive (succeeds ∷ succeeds ∷ received plain ∷ succeeds ∷ []) (start new_session)
        ≡ (with_packet plain, both_tcp))
      × (drive (succeeds ∷ succeeds ∷ received request ∷ agreed packet) (start new_session)
          ≡ (tls_session request packet, both_tls))
start-bridges plain request packet no_tls tls = (over_tcp plain no_tls, over_tls request packet tls)
