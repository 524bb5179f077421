-- ===== src/Proxy/Start.antt =====
-- The start of a session of src/Session/Session.cpp, from `start` to the bridge: one operation after
-- the other completes.
use single_flight_proxy_serv.Prelude.{
  ◌≡◌, refl, sym, subst, Bool, true, false, List, [], ◌∷◌, Bytes, if◌then◌else◌, Bool-cases, inl,
  inr,
}
use single_flight_proxy_serv.Session.{
  Session, Handler, resolved, connected, client_startup_read, ssl_startup_read, ssl_startup_sent,
  ssl_request_sent, ssl_answer_read, refusal_sent, acceptance_sent, client_handshaken,
  server_handshaken, startup_relayed, client_read, server_read, forwarded_to_server, response_sent,
  forwarded_to_client, Effect, resolves, connects, reads, writes, handshakes, cancels, shuts_down,
  closes, ErrorCode,
}
use single_flight_proxy_serv.Session.Startup.{Creation, start}
use single_flight_proxy_serv.Session.Stages.{
  IsPlain, IsTls, ForPlain, ForTls, PlainOp, TlsOp, AllSync, AllPresent, AllBridge, Stage, stopped,
  plain, tls, bridged,
}
use single_flight_proxy_serv.Session.Starting.{
  start-Stage, on_connected-Stage, on_resolved-Stage, on_client_startup-Stage,
  on_ssl_request_sent-Stage, on_ssl_answer-Stage, on_refusal_sent-Stage, on_acceptance_sent-Stage,
  on_ssl_startup-Stage, on_client_handshake-Stage, on_server_handshake-Stage,
}
use single_flight_proxy_serv.Session.Bridging.{on_startup_relayed-Stage, on_ssl_startup_sent-Stage}
use single_flight_proxy_serv.Proxy.{Event, act_of}

-- What an operation completes with.
pub record Completion : Type 0 where
  pub ec : ErrorCode
  pub bytes : Bytes
  pub creation : Creation

-- The handler runs before the bridge.
abbrev pub is_start : Handler → Bool
is_start client_read = false
is_start server_read = false
is_start forwarded_to_server = false
is_start forwarded_to_client = false
is_start response_sent = false
is_start h = true

abbrev pub event : Handler → Completion → Event
event h c = record { i = 0; handler = h; ec = c.ec; bytes = c.bytes; creation = c.creation }

-- The handler of the one pending operation runs, unless it is the bridge's.
unfoldable pub handles : Handler → Completion → Session × List Effect → Session × List Effect
handles h c (s, xs) = if is_start h then act_of (event h c) s else (s, xs)

unfoldable pub next : Completion → Session × List Effect → Session × List Effect
next c (s, resolves h ∷ []) = handles h c (s, resolves h ∷ [])
next c (s, connects x h ∷ []) = handles h c (s, connects x h ∷ [])
next c (s, reads x h ∷ []) = handles h c (s, reads x h ∷ [])
next c (s, handshakes x h ∷ []) = handles h c (s, handshakes x h ∷ [])
next c (s, writes x bytes h ∷ []) = handles h c (s, writes x bytes h ∷ [])
next c r = r

unfoldable pub drive : List Completion → Session × List Effect → Session × List Effect
drive [] r = r
drive (c ∷ cs) r = drive cs (next c r)

plain_handled :
    (h : Handler) (c : Completion) (s : Session)
    → ForPlain h
    → IsPlain s
    → Stage (act_of (event h c) s)
unfolding act_of
plain_handled (resolved t) c s f p = on_resolved-Stage s p t c.ec
plain_handled (connected t) c s f p = on_connected-Stage s p t c.ec
plain_handled client_startup_read c s f p = on_client_startup-Stage s p c.ec c.bytes
plain_handled ssl_request_sent c s f p = on_ssl_request_sent-Stage s p c.ec
plain_handled ssl_answer_read c s f p = on_ssl_answer-Stage s p c.ec c.bytes
plain_handled refusal_sent c s f p = on_refusal_sent-Stage s p c.ec
plain_handled acceptance_sent c s f p = on_acceptance_sent-Stage s p c.ec c.creation
plain_handled startup_relayed c s f p = on_startup_relayed-Stage c.ec s
plain_handled _ c s f p = absurd f

tls_handled :
    (h : Handler) (c : Completion) (s : Session) → ForTls h → IsTls s → Stage (act_of (event h c) s)
unfolding act_of
tls_handled client_handshaken c s f p = on_client_handshake-Stage s p c.ec
tls_handled server_handshaken c s f p = on_server_handshake-Stage s p c.ec
tls_handled ssl_startup_read c s f p = on_ssl_startup-Stage s p c.ec c.bytes
tls_handled ssl_startup_sent c s f p = on_ssl_startup_sent-Stage c.ec s
tls_handled _ c s f p = absurd f

-- A pending operation whose handler the stage provides for.
handles-Stage :
    (h : Handler) (c : Completion) (s : Session) (xs : List Effect)
    → Stage (s, xs)
    → (is_start h ≡ true → Stage (act_of (event h c) s))
    → Stage (handles h c (s, xs))
unfolding handles
handles-Stage h c s xs stage g = elim (Bool-cases (is_start h)) [
  | inl e ↦ rw e (g e)
  | inr e ↦ rw e stage
]

next-plain :
    (c : Completion) (s : Session) (e : Effect) → IsPlain s → PlainOp e → Stage (next c (s, e ∷ []))
unfolding next
next-plain c s (resolves h) p f =
    handles-Stage h c s _ (plain s (resolves h) p f) (λ e. plain_handled h c s f p)
next-plain c s (connects x h) p f =
    handles-Stage h c s _ (plain s (connects x h) p f) (λ e. plain_handled h c s f.1 p)
next-plain c s (reads x h) p f =
    handles-Stage h c s _ (plain s (reads x h) p f) (λ e. plain_handled h c s f.1 p)
next-plain c s (writes x bytes h) p f =
    handles-Stage h c s _ (plain s (writes x bytes h) p f) (λ e. plain_handled h c s f.1 p)
next-plain c s _ p f = absurd f

next-tls :
    (c : Completion) (s : Session) (e : Effect) → IsTls s → TlsOp e → Stage (next c (s, e ∷ []))
unfolding next
next-tls c s (reads x h) p f =
    handles-Stage h c s _ (tls s (reads x h) p f) (λ e. tls_handled h c s f.1 p)
next-tls c s (handshakes x h) p f =
    handles-Stage h c s _ (tls s (handshakes x h) p f) (λ e. tls_handled h c s f.1 p)
next-tls c s (writes x bytes h) p f =
    handles-Stage h c s _ (tls s (writes x bytes h) p f) (λ e. tls_handled h c s f.1 p)
next-tls c s _ p f = absurd f

-- While two operations are pending nothing more is driven.
next_more :
    (c : Completion) (s : Session) (e f : Effect) (xs : List Effect)
    → next c (s, e ∷ f ∷ xs) ≡ (s, e ∷ f ∷ xs)
unfolding next
next_more c s (resolves h) f xs = refl
next_more c s (connects x h) f xs = refl
next_more c s (reads x h) f xs = refl
next_more c s (handshakes x h) f xs = refl
next_more c s (writes x bytes h) f xs = refl
next_more c s (cancels x) f xs = refl
next_more c s (shuts_down x) f xs = refl
next_more c s (closes x) f xs = refl

next-stopped :
    (c : Completion) (s : Session) (xs : List Effect) → AllSync xs → Stage (next c (s, xs))
unfolding next
next-stopped c s [] h = stopped s [] h
next-stopped c s (cancels x ∷ []) h = stopped s (cancels x ∷ []) h
next-stopped c s (shuts_down x ∷ []) h = stopped s (shuts_down x ∷ []) h
next-stopped c s (closes x ∷ []) h = stopped s (closes x ∷ []) h
next-stopped c s (resolves k ∷ []) h = absurd h
next-stopped c s (connects x k ∷ []) h = absurd h
next-stopped c s (reads x k ∷ []) h = absurd h
next-stopped c s (handshakes x k ∷ []) h = absurd h
next-stopped c s (writes x bytes k ∷ []) h = absurd h
next-stopped c s (e ∷ f ∷ xs) h =
    subst Stage (sym (next_more c s e f xs)) (stopped s (e ∷ f ∷ xs) h)

next-bridged :
    (c : Completion) (s : Session) (xs : List Effect)
    → AllPresent s xs
    → AllBridge xs
    → Stage (next c (s, xs))
unfolding next handles
next-bridged c s [] p h = bridged s [] p h
next-bridged c s (cancels x ∷ []) p h = bridged s (cancels x ∷ []) p h
next-bridged c s (shuts_down x ∷ []) p h = bridged s (shuts_down x ∷ []) p h
next-bridged c s (closes x ∷ []) p h = bridged s (closes x ∷ []) p h
next-bridged c s (reads x client_read ∷ []) p h = bridged s (reads x client_read ∷ []) p h
next-bridged c s (reads x server_read ∷ []) p h = bridged s (reads x server_read ∷ []) p h
next-bridged c s (_ ∷ []) p h = absurd h
next-bridged c s (e ∷ f ∷ xs) p h =
    subst Stage (sym (next_more c s e f xs)) (bridged s (e ∷ f ∷ xs) p h)

pub next-Stage : (c : Completion) (r : Session × List Effect) → Stage r → Stage (next c r)
next-Stage c r (stopped s xs h) = next-stopped c s xs h
next-Stage c r (plain s e p f) = next-plain c s e p f
next-Stage c r (tls s e p f) = next-tls c s e p f
next-Stage c r (bridged s xs p h) = next-bridged c s xs p h

drive-Stage : (cs : List Completion) (r : Session × List Effect) → Stage r → Stage (drive cs r)
unfolding drive
drive-Stage [] r st = st
drive-Stage (c ∷ cs) r st = drive-Stage cs (next c r) (next-Stage c r st)

-- From `start` on, however the operations of a session with two sockets complete, one after the
-- other, it stands at a stage: it has stopped, with nothing pending; or one operation is pending, on
-- a TCP socket or a TLS stream that is there, with a handler that fits it; or the bridge has started,
-- on streams that are there.
pub start-Staged : (cs : List Completion) (s : Session) → IsPlain s → Stage (drive cs (start s))
start-Staged cs s p = drive-Stage cs (start s) (start-Stage s p)
