-- ===== src/Session/Tls.antt =====
-- What a session of src/Session/Session.cpp does with a client that asks for TLS.
use single_flight_proxy_serv.Prelude.{
  ℕ, ◌≡◌, refl, ap, ◌∙◌, true, false, some, [], ◌∷◌, ◌++◌, Bytes, length, take, drop, ◌==◌, if_true,
  if_false, arith,
}
use single_flight_proxy_serv.Session.{
  Session, Socket, client, server, reads, writes, success, fill, ssl_request_sent, ssl_answer_read,
  refusal_sent, startup_relayed,
}
use single_flight_proxy_serv.Session.Message.{is_ssl_request, byte_at, take-append}
use single_flight_proxy_serv.Session.Startup.{
  check_server_ssl_support, handle_ssl_request, relay_to_server, on_client_startup,
  on_ssl_request_sent, on_ssl_answer, on_refusal_sent, ssl_request_data,
}

-- The connected session, its client waiting for an answer.
pub record IsPlain (s : Session) : Type 0 where
  pub running : s.is_destroying ≡ false
  pub client : (c : Socket) × (s.client_socket ≡ some c)
  pub server : (c : Socket) × (s.server_socket ≡ some c) × (c.is_open ≡ true)

-- The four handlers of a request that the server refuses: the session after the first, which the
-- others leave alone, and all that they start.
pub record Refused (s : Session) (request : Bytes) (answer : ℕ) : Type 0 where
  pub after : Session
  pub asked :
      on_client_startup success request s
      ≡ (after, writes server ssl_request_data ssl_request_sent ∷ [])
  pub reading : on_ssl_request_sent success after ≡ (after, reads server ssl_answer_read ∷ [])
  pub refusing :
      on_ssl_answer success (answer ∷ []) after
      ≡ (after, writes client (b'N' ∷ []) refusal_sent ∷ [])
  pub relayed : on_refusal_sent success after ≡ (after, writes server request startup_relayed ∷ [])

checks :
    (s : Session)
    → IsPlain s
    → check_server_ssl_support s ≡ (s, writes server ssl_request_data ssl_request_sent ∷ [])
unfolding check_server_ssl_support
checks s h = let (c, e, up) = h.server in ground arith

refuses :
    (s : Session)
    → IsPlain s
    → handle_ssl_request s ≡ (s, writes client (b'N' ∷ []) refusal_sent ∷ [])
unfolding handle_ssl_request
refuses s h = let (c, e) = h.client in ground arith

relays :
    (n : ℕ) (s : Session)
    → IsPlain s
    → relay_to_server n s ≡ (s, writes server (take n s.client_buffer) startup_relayed ∷ [])
unfolding relay_to_server
relays n s h = let (c, e, up) = h.server in ground arith

-- A connected session has a request for TLS from its client, and the operations that it starts
-- then succeed. When the server answers the session's own request with anything but `S`, the
-- client is refused TLS with `N`, and its request is written to the server after the refusal: the
-- server receives two requests for TLS.
pub request-Refused :
    (request : Bytes) (answer : ℕ) (s : Session)
    → IsPlain s
    → ((old : Bytes) → is_ssl_request (request ++ old) (length request) ≡ true)
    → (answer == b'S') ≡ false
    → Refused s request answer
unfolding on_client_startup on_ssl_request_sent on_ssl_answer on_refusal_sent byte_at
request-Refused request answer s h ssl refused =
    let buffer = fill request s.client_buffer in
    let front = take-append request (drop (length request) s.client_buffer) in
    let s1 = record s { client_buffer = buffer; startup_packet = take (length request) buffer } in
    let plain : IsPlain s1 = record { running = h.running; client = h.client; server = h.server } in
    record {
      after = s1;
      asked = if_true _ _ _ (ssl (drop (length request) s.client_buffer)) ∙ checks s1 plain;
      reading = refl;
      refusing = if_false _ _ _ refused ∙ refuses s1 plain;
      relayed =
          relays (length s1.startup_packet) s1 plain
          ∙ ap (λ x. (s1, writes server (take (length x) buffer) startup_relayed ∷ [])) front
          ∙ ap (λ x. (s1, writes server x startup_relayed ∷ [])) front;
    }
