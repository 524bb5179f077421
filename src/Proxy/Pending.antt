-- ===== src/Proxy/Pending.antt =====
-- The operations that are pending in the sessions of src/Session/Session.cpp: each completes once, and
-- its handler starts others.
use single_flight_proxy_serv.Prelude.{
  if_neg, if_pos, sym, ℕ, ◌≤◌, ◌≡◌, ◌≢◌, refl, ap, subst, ◌∙◌, Option, none, some, [], ◌∷◌, ◌++◌,
  arith, ℕ_discrete,
}
use single_flight_proxy_serv.Prelude.Outcome.{ok}
use single_flight_proxy_serv.QueryCache.{Build}
use single_flight_proxy_serv.Session.{
  Handler, Effect, resolves, connects, reads, handshakes, writes, new_session,
}
use single_flight_proxy_serv.Session.Startup.{start}
use single_flight_proxy_serv.Session.Lanes.{weight, load, start-AtMost}
use single_flight_proxy_serv.Proxy.{Proxy, Event, Started, acts, set_session, complete}
use single_flight_proxy_serv.Proxy.Lanes.{
  share, load_of, load_of-append, Within, acts-Within, complete-Within,
}

-- The handler of an operation. To cancel, shut down and close have none.
abbrev pub handler_of : Effect → Option Handler
handler_of (resolves h) = some h
handler_of (connects stream h) = some h
handler_of (reads stream h) = some h
handler_of (handshakes stream h) = some h
handler_of (writes stream bytes h) = some h
handler_of _ = none

-- None of these operations is the session's.
abbrev pub NoneOf : ℕ → Started → Type 0
NoneOf i [] = Unit {0}
NoneOf i ((j, op) ∷ xs) = (j ≢ i) × NoneOf i xs

module _ (b : Build) where
  open b use {lib}

  -- The proxy and what is pending.
  pub record Running : Type 0 where
    pub proxy : Proxy lib
    pub pending : Started

  -- A pending operation completes, or a session starts that has nothing pending.
  pub data Goes : Running → Running → Type 0 where
    completes :
        (e : Event) (xs ys zs : Started) (op : Effect) (p q : Proxy lib)
        → handler_of op ≡ some e.handler
        → complete b e p ≡ ok (q, zs)
        → Goes
            (record { proxy = p; pending = xs ++ (e.i, op) ∷ ys })
            (record { proxy = q; pending = xs ++ ys ++ zs })
    begins :
        (i : ℕ) (xs : Started) (p : Proxy lib)
        → NoneOf i xs
        → Goes
            (record { proxy = p; pending = xs })
            (record {
              proxy = (acts i start (set_session i new_session p)).0;
              pending = xs ++ (acts i start (set_session i new_session p)).1;
            })

  pub data Reaches : Running → Running → Type 0 where
    at_once : (s : Running) → Reaches s s
    then : (s t u : Running) → Reaches s t → Goes t u → Reaches s u

  load-handler_of :
      (op : Effect) (e : Event) → handler_of op ≡ some e.handler → load op ≡ weight e.handler
  load-handler_of (resolves h) e same = let k : h ≡ e.handler = cc same in ap weight k
  load-handler_of (connects stream h) e same = let k : h ≡ e.handler = cc same in ap weight k
  load-handler_of (reads stream h) e same = let k : h ≡ e.handler = cc same in ap weight k
  load-handler_of (handshakes stream h) e same = let k : h ≡ e.handler = cc same in ap weight k
  load-handler_of (writes stream bytes h) e same = let k : h ≡ e.handler = cc same in ap weight k
  load-handler_of _ e same = absurd (cc same)

  NoneOf-load : (i : ℕ) (xs : Started) → NoneOf i xs → load_of i xs ≡ 0
  NoneOf-load i [] h = refl
  NoneOf-load i ((j, op) ∷ xs) h = ground (arith, NoneOf-load i xs h.1)

  -- Each session has at most one of these operations pending.
  abbrev pub OneEach : Running → Type 0
  OneEach s = (j : ℕ) → load_of j s.pending ≤ 1

  Goes-OneEach : (s t : Running) → Goes s t → OneEach s → OneEach t
  Goes-OneEach _ _ (completes e xs ys zs op p q h returns) one j =
      let within = subst (Within e.i (weight e.handler)) returns (complete-Within b e p) j in
      omega (
        arith,
        within,
        ap (share j e.i) (load-handler_of op e h),
        one j,
        load_of-append j xs ((e.i, op) ∷ ys),
        load_of-append j xs ys,
        load_of-append j (xs ++ ys) zs,
      )
  Goes-OneEach _ _ (begins i xs p new) one j =
      let p1 : Proxy lib = set_session i new_session p in
      let within = acts-Within i 1 start p1 (start-AtMost (p1.sessions i)) j in
      let both = load_of-append j xs (acts i start p1).1 in
      elim (ℕ_discrete i j) [
        | yes same ↦
            let none_there : load_of j xs ≡ 0 =
              ap (λ k. load_of k xs) (sym same) ∙ NoneOf-load i xs new in
            omega (arith, within, both, none_there, if_pos {C = ℕ} (ℕ_discrete i j) same 1 0)
        | no other ↦ omega (arith, within, both, one j, if_neg {C = ℕ} (ℕ_discrete i j) other 1 0)
      ]

  -- From a proxy with nothing pending on, whatever sessions start and whatever pending operations
  -- complete, in whatever order and with whatever results: of the operations before the bridge, the
  -- reads from the server into server_buffer_ and the writes from it to the client, each session has
  -- at most one pending. So server_buffer_ is never filled while its bytes are being written.
  pub Reaches-OneEach :
      (p : Proxy lib) (s : Running) → Reaches (record { proxy = p; pending = [] }) s → OneEach s
  Reaches-OneEach p _ (at_once _) j = omega arith
  Reaches-OneEach p _ (then _ t u reached goes) j =
      Goes-OneEach t u goes (Reaches-OneEach p t reached) j
