-- ===== src/Proxy/Origin.antt =====
-- Where the bytes come from that the proxy of src/Session/Session.cpp writes: to a client, from a
-- server, through a session or the cache; to a server, from its own session's client.
pub mod Runs
use single_flight_proxy_serv.Session.Handlers.{IsPacket}
use single_flight_proxy_serv.Prelude.{
  ℕ, ◌≡◌, refl, sym, ap, subst, ◌∙◌, Bool, true, false, List, [], ◌∷◌, ◌++◌, map, Bytes, length,
  take, drop, Bool-cases, Option-cases, none, some, inl, inr, if◌then◌else◌,
}
use single_flight_proxy_serv.Prelude.Outcome.{Outcome, ok}
use single_flight_proxy_serv.QueryCache.L2.{Hiredis, is_empty}
use single_flight_proxy_serv.QueryCache.Values.{AllResults}
use single_flight_proxy_serv.QueryCache.Source.{
  Sourced, do_single_flight-Answers, notify_flight_result-Answers,
}
use single_flight_proxy_serv.QueryCache.{Build, FlightResult, cache_hit, is_leader, is_waiter}
use single_flight_proxy_serv.Session.{
  ssl_startup_read, Session, Effect, Act, ErrorCode, success, Handler, client_read, server_read,
  fill,
}
use single_flight_proxy_serv.Session.Message.{is_sql_query, extract_sql_query, take-append}
use single_flight_proxy_serv.Session.Bridge.{
  client_stream, forward_to_client, forward_to_server, on_result, send_result, on_client_error,
  on_server_error,
}
use single_flight_proxy_serv.Session.Origin.{
  Comes, AllCome, Faithful, forward_to_server-Faithful, forward_to_client-Faithful,
  on_result-Faithful, on_client_error-Faithful, on_server_error-Faithful,
}
use single_flight_proxy_serv.Session.Origin.Startup.{act_of-Faithful}
use single_flight_proxy_serv.Proxy.Alike.{update_self, update_same}
use single_flight_proxy_serv.Proxy.Kept.{call_back-cache, after_flight-cache}
use single_flight_proxy_serv.Proxy.{
  Proxy, Event, Started, acts, call_back, set_session, after_flight, on_query, on_client_bytes,
  on_client_read, on_response, on_server_bytes, on_server_read, act_of, handle, complete, run,
}

-- A result that is sent leaves the buffers alone.
abbrev buffers : Session → Bytes × Bytes
buffers s = (s.client_buffer, s.server_buffer)

if-same :
    (b : Bool) (x y : Session × List Effect) (s : Session)
    → buffers x.0 ≡ buffers s
    → buffers y.0 ≡ buffers s
    → buffers (if b then x else y).0 ≡ buffers s
if-same true x y s h k = h
if-same false x y s h k = k

send_result-same : (r : Bytes) (s : Session) → (send_result r s).0 ≡ s
unfolding send_result
send_result-same r s = elim (Option-cases (client_stream s)) [
  | inl absent ↦ rw (absent, send_result) refl
  | inr (x, there) ↦ rw (there, send_result) refl
]

on_result-same : (r : Bytes) (s : Session) → buffers (on_result r s).0 ≡ buffers s
unfolding on_result
on_result-same r s =
    let s1 = record s { cached_response = r } in
    if-same s.is_destroying (s, []) (send_result r s1) s refl (ap buffers (send_result-same r s1))

module _ {lib : Hiredis} where
  call_back-same :
      (calls : List (ℕ × Bytes)) (i : ℕ) (p : Proxy lib)
      → buffers ((call_back calls p).0.sessions i) ≡ buffers (p.sessions i)
  unfolding call_back acts
  call_back-same [] i p = refl
  call_back-same ((j, r) ∷ calls) i p =
      call_back-same calls i (acts j (on_result r) p).0
      ∙ update_same buffers p.sessions j (on_result r (p.sessions j)).0
          (on_result-same r (p.sessions j)) i

module _ (P : Bytes → Type 0) (Q : ℕ → Bytes → Type 0) where
  -- Every operation that has been started writes what it may.
  abbrev pub Known : Started → Type 0
  Known [] = Unit {0}
  Known ((i, e) ∷ xs) = Comes P (Q i) e × Known xs

  pub Known-append : (xs ys : Started) → Known xs → Known ys → Known (xs ++ ys)
  Known-append [] ys h k = k
  Known-append (x ∷ xs) ys h k = (h.0, Known-append xs ys h.1 k)

  Known-map : (i : ℕ) (es : List Effect) → AllCome P (Q i) es → Known (map (λ e. (i, e)) es)
  Known-map i [] h = tt
  Known-map i (e ∷ es) h = (h.0, Known-map i es h.1)

  -- What a server sends to a session, and what a client does.
  abbrev pub IsGiven : Handler → ErrorCode → ℕ → Bytes → Type 0
  IsGiven client_read success i bytes = Q i bytes
  IsGiven server_read success i bytes = P bytes
  IsGiven ssl_startup_read success i bytes = Q i bytes
  IsGiven _ _ i bytes = Unit {0}

  pub IsGiven-IsPacket :
      (h : Handler) (ec : ErrorCode) (i : ℕ) (bytes : Bytes)
      → IsGiven h ec i bytes
      → IsPacket (Q i) h ec bytes
  IsGiven-IsPacket ssl_startup_read success i bytes g = g
  IsGiven-IsPacket _ _ i bytes g = tt

  abbrev pub AllGiven : List Event → Type 0
  AllGiven [] = Unit {0}
  AllGiven (e ∷ es) = IsGiven e.handler e.ec e.i e.bytes × AllGiven es

  module _ {lib : Hiredis} where
    pub acts-Known :
        (i : ℕ) (act : Act) (p : Proxy lib)
        → Faithful P (Q i) (act (p.sessions i))
        → Known (acts i act p).1
    unfolding acts
    acts-Known i act p h = Known-map i (act (p.sessions i)).1 h.all

    call_back-Known :
        (calls : List (ℕ × Bytes)) (p : Proxy lib)
        → AllResults P calls
        → Known (call_back calls p).1
    unfolding call_back
    call_back-Known [] p h = tt
    call_back-Known ((j, r) ∷ calls) p h =
        Known-append (acts j (on_result r) p).1 _
          (acts-Known j (on_result r) p (on_result-Faithful P (Q j) r (p.sessions j) h.0))
          (call_back-Known calls _ h.1)

    after_flight-Known :
        (i : ℕ) (sql : Bytes) (n : ℕ) (result : FlightResult) (r : Proxy lib × Started)
        → Q i (take n (r.0.sessions i).client_buffer)
        → Known r.1
        → Known (after_flight i sql n result r).1
    unfolding after_flight
    after_flight-Known i sql n cache_hit r q h = h
    after_flight-Known i sql n is_waiter r q h = h
    after_flight-Known i sql n is_leader r q h = Known-append r.1 _ h (
        acts-Known i _ r.0 (
          forward_to_server-Faithful P (Q i) n (record (r.0.sessions i) { current_query = sql }) q))
