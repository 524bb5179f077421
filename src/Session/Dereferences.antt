-- ===== src/Session/Dereferences.antt =====
-- The optionals that src/Session/Session.cpp dereferences without a test right before, while a session
-- starts: to dereference an empty one is undefined behaviour.
use single_flight_proxy_serv.Prelude.{
  ◌≡◌, refl, Bool, true, ◌&&◌, Option, none, some, List, [], ◌∷◌, is_some, if◌then◌else◌, ◌∙◌,
  if_true, ap,
}
use single_flight_proxy_serv.Prelude.Outcome.{Outcome, ok, undefined}
use single_flight_proxy_serv.Session.{
  Session, Socket, Stream, client, server, client_ssl, server_ssl, Handler, resolved,
  ssl_startup_read, ssl_startup_sent, ssl_request_sent, acceptance_sent, client_handshaken,
  server_handshaken, client_read, server_read, Effect, resolves, connects, reads, writes,
  handshakes, cancels, shuts_down, closes, ErrorCode, success,
}
use single_flight_proxy_serv.Session.Startup.{start}
use single_flight_proxy_serv.Session.Stages.{
  Has, IsPlain, ForTls, TlsOp, AllSync, AllBridge, Stage, stopped, plain, tls, bridged,
}
use single_flight_proxy_serv.Session.Starting.{start-Stage}
use single_flight_proxy_serv.Proxy.Start.{Completion, next, next-Stage, drive}
use single_flight_proxy_serv.Proxy.Pending.{handler_of}

-- `async_connect` of the handler of the name's resolution.
abbrev pub resolved_derefs : ErrorCode → List Stream
resolved_derefs success = server ∷ []
resolved_derefs ec = []

-- `async_read` of the handler of the request for TLS.
abbrev pub request_derefs : ErrorCode → List Stream
request_derefs success = server ∷ []
request_derefs ec = []

-- The sockets that are moved into the TLS streams.
abbrev pub streams_derefs : ErrorCode → List Stream
streams_derefs success = client ∷ server ∷ []
streams_derefs ec = []

abbrev pub derefs : Handler → ErrorCode → List Stream
derefs (resolved t) ec = resolved_derefs ec
derefs ssl_request_sent ec = request_derefs ec
derefs acceptance_sent ec = streams_derefs ec
derefs h ec = []

abbrev is_there : Session → Stream → Bool
is_there s client = is_some s.client_socket
is_there s server = is_some s.server_socket
is_there s client_ssl = is_some s.client_ssl_socket
is_there s server_ssl = is_some s.server_ssl_socket

abbrev all_there : Session → List Stream → Bool
all_there s [] = true
all_there s (x ∷ xs) = is_there s x && all_there s xs

abbrev derefs_of : Option Handler → ErrorCode → List Stream
derefs_of none ec = []
derefs_of (some h) ec = derefs h ec

-- What the handler of the one pending operation dereferences.
abbrev pending_derefs : ErrorCode → List Effect → List Stream
pending_derefs ec (op ∷ []) = derefs_of (handler_of op) ec
pending_derefs ec ops = []

-- The session's operations complete one after the other, and a handler that dereferences an empty
-- optional is undefined.
unfoldable pub attempts : List Completion → Session × List Effect → Outcome (Session × List Effect)
attempts [] r = ok r
attempts (c ∷ cs) r =
    let rest = attempts cs (next c r) in
    if all_there r.0 (pending_derefs c.ec r.1) then rest else undefined

Has-is_some : (o : Option Socket) → Has o → is_some o ≡ true
Has-is_some none h = absurd h
Has-is_some (some socket) h = refl

server_there : (s : Session) → IsPlain s → all_there s (server ∷ []) ≡ true
server_there s p = rw (Has-is_some s.server_socket p.server) refl

both_there : (s : Session) → IsPlain s → all_there s (client ∷ server ∷ []) ≡ true
both_there s p =
    rw (Has-is_some s.client_socket p.client, Has-is_some s.server_socket p.server) refl

derefs_there :
    (h : Handler) (ec : ErrorCode) (s : Session) → IsPlain s → all_there s (derefs h ec) ≡ true
derefs_there (resolved t) success s p = server_there s p
derefs_there ssl_request_sent success s p = server_there s p
derefs_there acceptance_sent success s p = both_there s p
derefs_there _ _ s p = refl

derefs-tls : (h : Handler) (ec : ErrorCode) → ForTls h → derefs h ec ≡ []
derefs-tls client_handshaken ec f = refl
derefs-tls server_handshaken ec f = refl
derefs-tls ssl_startup_read ec f = refl
derefs-tls ssl_startup_sent ec f = refl
derefs-tls _ ec f = absurd f

plain_there :
    (e : Effect) (ec : ErrorCode) (s : Session)
    → IsPlain s
    → all_there s (pending_derefs ec (e ∷ [])) ≡ true
plain_there (resolves h) ec s p = derefs_there h ec s p
plain_there (connects x h) ec s p = derefs_there h ec s p
plain_there (reads x h) ec s p = derefs_there h ec s p
plain_there (writes x bytes h) ec s p = derefs_there h ec s p
plain_there (handshakes x h) ec s p = derefs_there h ec s p
plain_there _ ec s p = refl

tls_there :
    (e : Effect) (ec : ErrorCode) (s : Session)
    → TlsOp e
    → all_there s (pending_derefs ec (e ∷ [])) ≡ true
tls_there (reads x h) ec s f = ap (all_there s) (derefs-tls h ec f.1)
tls_there (handshakes x h) ec s f = ap (all_there s) (derefs-tls h ec f.1)
tls_there (writes x bytes h) ec s f = ap (all_there s) (derefs-tls h ec f.1)
tls_there _ ec s f = absurd f

stopped_there :
    (xs : List Effect) (ec : ErrorCode) (s : Session)
    → AllSync xs
    → all_there s (pending_derefs ec xs) ≡ true
stopped_there [] ec s h = refl
stopped_there (cancels x ∷ []) ec s h = refl
stopped_there (shuts_down x ∷ []) ec s h = refl
stopped_there (closes x ∷ []) ec s h = refl
stopped_there (_ ∷ []) ec s h = absurd h
stopped_there (e ∷ f ∷ xs) ec s h = refl

bridge_there :
    (xs : List Effect) (ec : ErrorCode) (s : Session)
    → AllBridge xs
    → all_there s (pending_derefs ec xs) ≡ true
bridge_there [] ec s h = refl
bridge_there (cancels x ∷ []) ec s h = refl
bridge_there (shuts_down x ∷ []) ec s h = refl
bridge_there (closes x ∷ []) ec s h = refl
bridge_there (reads x client_read ∷ []) ec s h = refl
bridge_there (reads x server_read ∷ []) ec s h = refl
bridge_there (_ ∷ []) ec s h = absurd h
bridge_there (e ∷ f ∷ xs) ec s h = refl

Stage-there :
    (ec : ErrorCode) (r : Session × List Effect)
    → Stage r
    → all_there r.0 (pending_derefs ec r.1) ≡ true
Stage-there ec r (stopped s xs h) = stopped_there xs ec s h
Stage-there ec r (plain s e p f) = plain_there e ec s p
Stage-there ec r (tls s e p f) = tls_there e ec s f
Stage-there ec r (bridged s xs p h) = bridge_there xs ec s h

attempts-Stage :
    (cs : List Completion) (r : Session × List Effect) → Stage r → attempts cs r ≡ ok (drive cs r)
unfolding attempts drive
attempts-Stage [] r st = refl
attempts-Stage (c ∷ cs) r st =
    if_true _ _ _ (Stage-there c.ec r st) ∙ attempts-Stage cs (next c r) (next-Stage c r st)

-- From `start` on, however the operations of a session with two sockets complete, one after the
-- other up to the bridge: no handler dereferences an empty optional socket.
pub attempts-start :
    (cs : List Completion) (s : Session)
    → IsPlain s
    → attempts cs (start s) ≡ ok (drive cs (start s))
attempts-start cs s p = attempts-Stage cs (start s) (start-Stage s p)
