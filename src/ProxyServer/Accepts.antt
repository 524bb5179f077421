-- ===== src/ProxyServer/Accepts.antt =====
-- The accept loop of src/ProxyServer/ProxyServer.cpp: it goes on while the server accepts, and starts
-- nothing after a shutdown.
use single_flight_proxy_serv.Prelude.{
  ℕ, ◌+◌, ◌≤◌, ◌≡◌, refl, ap, ◌∙◌, subst, Bool, false, List, [], ◌∷◌, arith,
}
use single_flight_proxy_serv.Prelude.Outcome.{ok, >>=-ok, ok-injective}
use single_flight_proxy_serv.QueryCache.{Build}
use single_flight_proxy_serv.Session.{ErrorCode}
use single_flight_proxy_serv.Proxy.{Started, complete}
use single_flight_proxy_serv.ProxyServer.{
  Phase, do_accept_called, accepted, Server, Happening, accepts, continues, completes,
  accept_completed, shutdown, start_session, first_test, advance_from, step, run,
}
use single_flight_proxy_serv.ProxyServer.Loop.{
  moved_from, starting, moved, begun, walk, total, total_off,
}

module _ (b : Build) where
  open b use {lib}

  pub record Moves (s : Server lib) (on : Bool) (to : Phase) (more : ℕ) (after : Server lib)
      : Type 0 where
    pub accepting : after.accepting ≡ on
    pub phase : after.phase ≡ to
    pub sessions : after.sessions ≡ s.sessions + more

  Moves-subst :
      (s : Server lib) (on : Bool) (to : Phase) (more : ℕ) {r r' : Server lib × Started}
      → r ≡ r'
      → Moves s on to more r.0
      → Moves s on to more r'.0
  Moves-subst s on to more e m = subst (λ r. Moves s on to more r.0) e m

  first_test-Moves :
      (ec : ErrorCode) (s : Server lib)
      → Moves s s.accepting (moved_from s.accepting (accepted ec)) 0 (first_test ec s).0
  unfolding first_test
  first_test-Moves ec s = ground arith

  advance_from-Moves :
      (phase : Phase) (s : Server lib)
      → s.phase ≡ phase
      → Moves s s.accepting (moved_from s.accepting phase) (starting phase) (advance_from phase s).0
  unfolding advance_from start_session
  advance_from-Moves do_accept_called s e = ground arith
  advance_from-Moves (accepted ec) s e = first_test-Moves ec s
  advance_from-Moves _ s e = ground arith

  pub step-Moves :
      (h : Happening) (s : Server lib) {after : Server lib} {xs : Started}
      → step b h s ≡ ok (after, xs)
      → Moves s s.accepting (moved h s.accepting s.phase) (begun h s.phase) after
  unfolding step
  step-Moves (accepts ec) s e =
      Moves-subst s s.accepting (accept_completed ec s.phase) 0 (ok-injective e)
        (record { accepting = refl; phase = refl; sessions = omega arith })
  step-Moves continues s e =
      Moves-subst s s.accepting _ _ (ok-injective e) (advance_from-Moves s.phase s refl)
  step-Moves (completes x) s e =
      let ((p, ys), _, rest) = >>=-ok (complete b x s.proxy) _ e in
      Moves-subst s s.accepting s.phase 0 (ok-injective rest)
        (record { accepting = refl; phase = refl; sessions = omega arith })

  -- The two parts of a run.
  run-cons :
      (h : Happening) (hs : List Happening) (s : Server lib) {after : Server lib} {xs : Started}
      → run b (h ∷ hs) s ≡ ok (after, xs)
      → (s1 : Server lib) × (ys zs : Started) × (step b h s ≡ ok (s1, ys))
        × (run b hs s1 ≡ ok (after, zs))
  unfolding run
  run-cons h hs s e =
      let ((s1, ys), first, rest) = >>=-ok (step b h s) _ e in
      let ((s2, zs), second, last) = >>=-ok (run b hs s1) _ rest in
      (s1, ys, zs, first, second ∙ ap (λ r. ok (r, zs)) (ap (λ p. p.0) (ok-injective last)))

  run-Moves :
      (hs : List Happening) (s : Server lib) {after : Server lib} {xs : Started}
      → run b hs s ≡ ok (after, xs)
      → Moves s s.accepting (walk hs s.accepting s.phase) (total hs s.accepting s.phase) after
  unfolding run
  run-Moves [] s e =
      Moves-subst s s.accepting s.phase 0 (ok-injective e)
        (record { accepting = refl; phase = refl; sessions = omega arith })
  run-Moves (h ∷ hs) s e =
      let (s1, ys, zs, first, second) = run-cons h hs s e in
      let m = step-Moves h s first in
      let n = run-Moves hs s1 second in
      record {
        accepting = n.accepting ∙ m.accepting;
        phase =
            n.phase ∙ ap (λ on. walk hs on s1.phase) m.accepting ∙ ap (walk hs s.accepting) m.phase;
        sessions = omega (
          arith,
          n.sessions,
          m.sessions,
          ap (λ on. total hs on s1.phase) m.accepting,
          ap (total hs s.accepting) m.phase,
        );
      }

  -- After a shutdown the server does not accept again, and starts at most one session more: that one
  -- whose handler is already behind its test, and then only if it is.
  pub shutdown-starts :
      (hs : List Happening) (s : Server lib) {after : Server lib} {xs : Started}
      → run b hs (shutdown s) ≡ ok (after, xs)
      → (after.accepting ≡ false) × (after.sessions ≤ s.sessions + starting s.phase)
  unfolding shutdown
  shutdown-starts hs s e =
      let m = run-Moves hs (shutdown s) e in
      (m.accepting, omega (arith, m.sessions, total_off hs s.phase))
