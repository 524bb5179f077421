-- ===== src/Session/Bridging.antt =====
-- The reads with which the bridge of src/Session/Session.cpp begins, and the streams that are there.
use single_flight_proxy_serv.Prelude.{
  ◌≡◌, refl, subst, Bool, true, false, ◌&&◌, ◌||◌, Option, none, some, List, [], ◌∷◌, ◌++◌,
  if◌then◌else◌, Option-cases, inl, inr, ◌⊎◌, is_some,
}
use single_flight_proxy_serv.Session.{
  Session, Socket, Stream, client, server, client_ssl, server_ssl, client_read, server_read, Effect,
  resolves, connects, reads, writes, handshakes, cancels, shuts_down, closes, Act, both, ErrorCode,
  success, operation_aborted, eof, system_error, ssl_error, close, closed, cleanup_sockets,
  get_server_socket, is_server_ssl_enabled,
}
use single_flight_proxy_serv.Session.Startup.{on_ssl_startup_sent, on_startup_relayed}
use single_flight_proxy_serv.Session.Bridge.{
  bridge_client_to_server, bridge_server_to_client, client_stream, server_stream, or_close,
}
use single_flight_proxy_serv.Session.Stages.{
  Has, AllSync, Present, AllPresent, AllBridge, Stage, bridged,
}
use single_flight_proxy_serv.Session.Starting.{cleanup_sockets-IsSync, fail-Stage, close-Stage}

-- What an act of the bridge leaves: the same streams, and operations on them.
pub record Bridges (s : Session) (r : Session × List Effect) : Type 0 where
  pub keeps : (x : Stream) → Present s x → Present r.0 x
  pub present : AllPresent r.0 r.1
  pub bridge : AllBridge r.1

choose :
    (s : Session) (b : Bool) {x y : Session × List Effect}
    → Bridges s x
    → Bridges s y
    → Bridges s (if b then x else y)
choose s true f g = f
choose s false f g = g

nothing : (s : Session) → Bridges s (s, [])
nothing s = record { keeps = λ x h. h; present = tt; bridge = tt }

AllSync-AllPresent : (s : Session) (xs : List Effect) → AllSync xs → AllPresent s xs × AllBridge xs
AllSync-AllPresent s [] h = (tt, tt)
AllSync-AllPresent s (cancels x ∷ xs) h = AllSync-AllPresent s xs h
AllSync-AllPresent s (shuts_down x ∷ xs) h = AllSync-AllPresent s xs h
AllSync-AllPresent s (closes x ∷ xs) h = AllSync-AllPresent s xs h
AllSync-AllPresent s (resolves k ∷ xs) h = absurd h
AllSync-AllPresent s (connects x k ∷ xs) h = absurd h
AllSync-AllPresent s (reads x k ∷ xs) h = absurd h
AllSync-AllPresent s (handshakes x k ∷ xs) h = absurd h
AllSync-AllPresent s (writes x bytes k ∷ xs) h = absurd h

closed-Has : (o : Option Socket) → Has o → Has (closed o)
closed-Has none h = absurd h
closed-Has (some socket) h = tt

-- A closed socket is there still.
cleanup_sockets-Bridges : (s : Session) → Bridges s (cleanup_sockets s)
unfolding cleanup_sockets
cleanup_sockets-Bridges s =
    let sync =
      AllSync-AllPresent (cleanup_sockets s).0 (cleanup_sockets s).1
        (cleanup_sockets-IsSync s).all in
    record { keeps = stays; present = sync.0; bridge = sync.1 }
  where
    stays : (x : Stream) → Present s x → Present (cleanup_sockets s).0 x
    stays client h = closed-Has s.client_socket h
    stays server h = closed-Has s.server_socket h
    stays client_ssl h = closed-Has s.client_ssl_socket h
    stays server_ssl h = closed-Has s.server_ssl_socket h

same_streams :
    (s t : Session) (r : Session × List Effect)
    → ((x : Stream) → Present s x → Present t x)
    → Bridges t r
    → Bridges s r
same_streams s t r h b = record {
  keeps = λ x k. b.keeps x (h x k);
  present = b.present;
  bridge = b.bridge;
}

close-Bridges : (s : Session) → Bridges s (close s)
unfolding close
close-Bridges s = choose s s.is_destroying (nothing s) (
    same_streams s (record s { is_destroying = true }) _ stays
      (cleanup_sockets-Bridges (record s { is_destroying = true })))
  where
    stays : (x : Stream) → Present s x → Present (record s { is_destroying = true }) x
    stays client h = h
    stays server h = h
    stays client_ssl h = h
    stays server_ssl h = h

is_some-Has : (o : Option Socket) → is_some o ≡ true → Has o
is_some-Has none e = cc
is_some-Has (some socket) e = tt

and_right : (a b : Bool) → (a && b) ≡ true → b ≡ true
and_right true b e = e
and_right false b e = cc

open-Has : (s : Session) → get_server_socket s ≡ true → Has s.server_socket
unfolding get_server_socket
open-Has s e =
    elim s.server_socket
        as (λ o. (elim o [ none ↦ false | some socket ↦ socket.is_open ]) ≡ true → Has o) [
          | none ↦ λ h. cc
          | some socket ↦ λ h. tt
        ]
      e

-- Which stream was chosen, and why.
chosen :
    (a b : Bool) (x y z : Stream)
    → (if a then some y else (if b then some z else none)) ≡ some x
    → ((a ≡ true) × (y ≡ x)) ⊎ ((b ≡ true) × (z ≡ x))
chosen true b x y z e = inl (refl, cc)
chosen false true x y z e = inr (refl, cc)
chosen false false x y z e = absurd (cc e)

client_stream-Present : (s : Session) (x : Stream) → client_stream s ≡ some x → Present s x
unfolding client_stream
client_stream-Present s x e =
    elim (chosen (s.ssl_enabled && is_some s.client_ssl_socket) (is_some s.client_socket) x
      client_ssl client e) [
        | inl (a, f) ↦
            subst (Present s) f (is_some-Has s.client_ssl_socket (and_right s.ssl_enabled _ a))
        | inr (a, f) ↦ subst (Present s) f (is_some-Has s.client_socket a)
      ]

server_stream-Present : (s : Session) (x : Stream) → server_stream s ≡ some x → Present s x
unfolding server_stream is_server_ssl_enabled
server_stream-Present s x e =
    elim (chosen (s.ssl_enabled && is_some s.server_ssl_socket) (get_server_socket s) x server_ssl
      server e) [
        | inl (a, f) ↦
            subst (Present s) f (is_some-Has s.server_ssl_socket (and_right s.ssl_enabled _ a))
        | inr (a, f) ↦ subst (Present s) f (open-Has s a)
      ]

bridge_client_to_server-Bridges : (s : Session) → Bridges s (bridge_client_to_server s)
unfolding bridge_client_to_server or_close
bridge_client_to_server-Bridges s =
    choose s s.is_destroying (nothing s) (elim (Option-cases (client_stream s)) [
      | inl e ↦ rw (e, or_close) (close-Bridges s)
      | inr (x, e) ↦
          rw (e, or_close)
            (record { keeps = λ y h. h; present = (client_stream-Present s x e, tt); bridge = tt })
    ])

bridge_server_to_client-Bridges : (s : Session) → Bridges s (bridge_server_to_client s)
unfolding bridge_server_to_client or_close
bridge_server_to_client-Bridges s =
    choose s (s.is_destroying || s.server_closed) (nothing s)
      (elim (Option-cases (server_stream s)) [
        | inl e ↦ rw (e, or_close) (close-Bridges s)
        | inr (x, e) ↦
            rw (e, or_close)
              (record {
                keeps = λ y h. h;
                present = (server_stream-Present s x e, tt);
                bridge = tt;
              })
      ])

AllPresent-mono :
    (s t : Session) (xs : List Effect)
    → ((x : Stream) → Present s x → Present t x)
    → AllPresent s xs
    → AllPresent t xs
AllPresent-mono s t [] h p = tt
AllPresent-mono s t (resolves k ∷ xs) h p = AllPresent-mono s t xs h p
AllPresent-mono s t (connects x k ∷ xs) h p = (h x p.0, AllPresent-mono s t xs h p.1)
AllPresent-mono s t (reads x k ∷ xs) h p = (h x p.0, AllPresent-mono s t xs h p.1)
AllPresent-mono s t (handshakes x k ∷ xs) h p = (h x p.0, AllPresent-mono s t xs h p.1)
AllPresent-mono s t (writes x bytes k ∷ xs) h p = (h x p.0, AllPresent-mono s t xs h p.1)
AllPresent-mono s t (cancels x ∷ xs) h p = AllPresent-mono s t xs h p
AllPresent-mono s t (shuts_down x ∷ xs) h p = AllPresent-mono s t xs h p
AllPresent-mono s t (closes x ∷ xs) h p = AllPresent-mono s t xs h p

AllPresent-append :
    (s : Session) (xs ys : List Effect)
    → AllPresent s xs
    → AllPresent s ys
    → AllPresent s (xs ++ ys)
AllPresent-append s [] ys p q = q
AllPresent-append s (resolves k ∷ xs) ys p q = AllPresent-append s xs ys p q
AllPresent-append s (connects x k ∷ xs) ys p q = (p.0, AllPresent-append s xs ys p.1 q)
AllPresent-append s (reads x k ∷ xs) ys p q = (p.0, AllPresent-append s xs ys p.1 q)
AllPresent-append s (handshakes x k ∷ xs) ys p q = (p.0, AllPresent-append s xs ys p.1 q)
AllPresent-append s (writes x bytes k ∷ xs) ys p q = (p.0, AllPresent-append s xs ys p.1 q)
AllPresent-append s (cancels x ∷ xs) ys p q = AllPresent-append s xs ys p q
AllPresent-append s (shuts_down x ∷ xs) ys p q = AllPresent-append s xs ys p q
AllPresent-append s (closes x ∷ xs) ys p q = AllPresent-append s xs ys p q

AllBridge-append : (xs ys : List Effect) → AllBridge xs → AllBridge ys → AllBridge (xs ++ ys)
AllBridge-append [] ys p q = q
AllBridge-append (cancels x ∷ xs) ys p q = AllBridge-append xs ys p q
AllBridge-append (shuts_down x ∷ xs) ys p q = AllBridge-append xs ys p q
AllBridge-append (closes x ∷ xs) ys p q = AllBridge-append xs ys p q
AllBridge-append (reads x client_read ∷ xs) ys p q = AllBridge-append xs ys p q
AllBridge-append (reads x server_read ∷ xs) ys p q = AllBridge-append xs ys p q
AllBridge-append (_ ∷ xs) ys p q = absurd p

both-Stage :
    (f g : Act) (s : Session)
    → Bridges s (f s)
    → ((t : Session) → Bridges t (g t))
    → Stage (both f g s)
both-Stage f g s b c =
    let d = c (f s).0 in
    bridged (g (f s).0).0 ((f s).1 ++ (g (f s).0).1)
      (AllPresent-append (g (f s).0).0 (f s).1 (g (f s).0).1
        (AllPresent-mono (f s).0 (g (f s).0).0 (f s).1 d.keeps b.present) d.present)
      (AllBridge-append (f s).1 (g (f s).0).1 b.bridge d.bridge)

pub on_startup_relayed-Stage : (ec : ErrorCode) (s : Session) → Stage (on_startup_relayed ec s)
unfolding on_startup_relayed
on_startup_relayed-Stage success s =
    both-Stage bridge_client_to_server bridge_server_to_client s (bridge_client_to_server-Bridges s)
      bridge_server_to_client-Bridges
on_startup_relayed-Stage operation_aborted s = fail-Stage operation_aborted s
on_startup_relayed-Stage eof s = fail-Stage eof s
on_startup_relayed-Stage system_error s = fail-Stage system_error s
on_startup_relayed-Stage (ssl_error m) s = fail-Stage (ssl_error m) s

pub on_ssl_startup_sent-Stage : (ec : ErrorCode) (s : Session) → Stage (on_ssl_startup_sent ec s)
unfolding on_ssl_startup_sent
on_ssl_startup_sent-Stage success s =
    both-Stage bridge_server_to_client bridge_client_to_server s (bridge_server_to_client-Bridges s)
      bridge_client_to_server-Bridges
on_ssl_startup_sent-Stage operation_aborted s = close-Stage s
on_ssl_startup_sent-Stage eof s = close-Stage s
on_ssl_startup_sent-Stage system_error s = close-Stage s
on_ssl_startup_sent-Stage (ssl_error m) s = close-Stage s
