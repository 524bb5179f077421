-- ===== src/Session/Stages.antt =====
-- The stages of the start of a session of src/Session/Session.cpp: which sockets are there while which
-- operations are pending.
use single_flight_proxy_serv.Prelude.{Option, none, some, List, [], ◌∷◌}
use single_flight_proxy_serv.Session.{
  Session, Socket, Stream, client, server, client_ssl, server_ssl, Handler, resolved, connected,
  client_startup_read, ssl_startup_read, ssl_startup_sent, ssl_request_sent, ssl_answer_read,
  refusal_sent, acceptance_sent, client_handshaken, server_handshaken, startup_relayed, client_read,
  server_read, Effect, resolves, connects, reads, writes, handshakes, cancels, shuts_down, closes,
}

abbrev pub Has : Option Socket → Type 0
Has none = ⊥
Has (some socket) = Unit {0}

-- The two TCP sockets are there, or the two TLS streams.
pub record IsPlain (s : Session) : Type 0 where
  pub client : Has s.client_socket
  pub server : Has s.server_socket

pub record IsTls (s : Session) : Type 0 where
  pub client : Has s.client_ssl_socket
  pub server : Has s.server_ssl_socket

-- A handler that runs while the sockets are plain, and one that runs while they are TLS streams.
abbrev pub ForPlain : Handler → Type 0
ForPlain (resolved t) = Unit {0}
ForPlain (connected t) = Unit {0}
ForPlain client_startup_read = Unit {0}
ForPlain ssl_request_sent = Unit {0}
ForPlain ssl_answer_read = Unit {0}
ForPlain refusal_sent = Unit {0}
ForPlain acceptance_sent = Unit {0}
ForPlain startup_relayed = Unit {0}
ForPlain h = ⊥

abbrev pub ForTls : Handler → Type 0
ForTls client_handshaken = Unit {0}
ForTls server_handshaken = Unit {0}
ForTls ssl_startup_read = Unit {0}
ForTls ssl_startup_sent = Unit {0}
ForTls h = ⊥

abbrev pub OnPlain : Stream → Type 0
OnPlain client = Unit {0}
OnPlain server = Unit {0}
OnPlain client_ssl = ⊥
OnPlain server_ssl = ⊥

abbrev pub OnTls : Stream → Type 0
OnTls client = ⊥
OnTls server = ⊥
OnTls client_ssl = Unit {0}
OnTls server_ssl = Unit {0}

abbrev pub PlainOp : Effect → Type 0
PlainOp (resolves h) = ForPlain h
PlainOp (connects x h) = OnPlain x × ForPlain h
PlainOp (reads x h) = OnPlain x × ForPlain h
PlainOp (writes x bytes h) = OnPlain x × ForPlain h
PlainOp e = ⊥

abbrev pub TlsOp : Effect → Type 0
TlsOp (reads x h) = OnTls x × ForTls h
TlsOp (writes x bytes h) = OnTls x × ForTls h
TlsOp (handshakes x h) = OnTls x × ForTls h
TlsOp e = ⊥

-- Nothing that completes later.
abbrev pub AllSync : List Effect → Type 0
AllSync [] = Unit {0}
AllSync (cancels x ∷ xs) = AllSync xs
AllSync (shuts_down x ∷ xs) = AllSync xs
AllSync (closes x ∷ xs) = AllSync xs
AllSync (_ ∷ xs) = ⊥

-- The stream is there.
abbrev pub Present : Session → Stream → Type 0
Present s client = Has s.client_socket
Present s server = Has s.server_socket
Present s client_ssl = Has s.client_ssl_socket
Present s server_ssl = Has s.server_ssl_socket

-- Every operation that completes later is one on a stream that is there.
abbrev pub AllPresent : Session → List Effect → Type 0
AllPresent s [] = Unit {0}
AllPresent s (resolves h ∷ xs) = AllPresent s xs
AllPresent s (connects x h ∷ xs) = Present s x × AllPresent s xs
AllPresent s (reads x h ∷ xs) = Present s x × AllPresent s xs
AllPresent s (handshakes x h ∷ xs) = Present s x × AllPresent s xs
AllPresent s (writes x bytes h ∷ xs) = Present s x × AllPresent s xs
AllPresent s (cancels x ∷ xs) = AllPresent s xs
AllPresent s (shuts_down x ∷ xs) = AllPresent s xs
AllPresent s (closes x ∷ xs) = AllPresent s xs

-- The operations of the bridge.
abbrev pub AllBridge : List Effect → Type 0
AllBridge [] = Unit {0}
AllBridge (reads x client_read ∷ xs) = AllBridge xs
AllBridge (reads x server_read ∷ xs) = AllBridge xs
AllBridge (cancels x ∷ xs) = AllBridge xs
AllBridge (shuts_down x ∷ xs) = AllBridge xs
AllBridge (closes x ∷ xs) = AllBridge xs
AllBridge (_ ∷ xs) = ⊥

-- Where the start of a session stands, and the operations that were started last.
pub data Stage : Session × List Effect → Type 0 where
  stopped : (s : Session) (xs : List Effect) → AllSync xs → Stage (s, xs)
  plain : (s : Session) (e : Effect) → IsPlain s → PlainOp e → Stage (s, e ∷ [])
  tls : (s : Session) (e : Effect) → IsTls s → TlsOp e → Stage (s, e ∷ [])
  bridged : (s : Session) (xs : List Effect) → AllPresent s xs → AllBridge xs → Stage (s, xs)
