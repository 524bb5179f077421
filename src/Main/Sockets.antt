-- ===== src/Main/Sockets.antt =====
-- The sockets of the sessions that are closing, over the whole run of the program of src/main.cpp.
use single_flight_proxy_serv.Prelude.{ℕ, ◌≡◌, refl, sym, subst, Bool, List, Bytes, inl, inr, arith}
use single_flight_proxy_serv.Prelude.Outcome.{ok, >>=-ok, ok-injective}
use single_flight_proxy_serv.QueryCache.{Build}
use single_flight_proxy_serv.Session.{new_session, ErrorCode, success}
use single_flight_proxy_serv.Session.Startup.{start}
use single_flight_proxy_serv.Session.Tidy.{IsTidy, is_running, start-IsTidy}
use single_flight_proxy_serv.Config.Yaml.{YamlCpp}
use single_flight_proxy_serv.Proxy.{Started, complete}
use single_flight_proxy_serv.Proxy.Tidy.{
  AllTidy, Tidies, acts-AllTidy, set_session-AllTidy, complete-Tidies,
}
use single_flight_proxy_serv.ProxyServer as Servers
use single_flight_proxy_serv.ProxyServer.{
  Server, Phase, do_accept_called, test_passed, waiting, accepted, starts_session,
  session_part_done, ended, Happening, accepts, continues, completes, start_session, first_test,
  advance_from, shutdown, new_server,
}
use single_flight_proxy_serv.Main.Boot.{main-serves}
use single_flight_proxy_serv.Main.Steps.{works-cases, run_keeps}
use single_flight_proxy_serv.Main.{
  Process, serves, main, new_process, signal_handler, Event, signalled, works, worker_ends,
  worker_throws, step, run,
}

module _ (b : Build) where
  open b use {lib}

  new_session-IsTidy : IsTidy new_session
  unfolding new_session
  new_session-IsTidy = is_running refl

  start_session-AllTidy : (s : Server lib) → AllTidy s.proxy → AllTidy (start_session s).0.proxy
  unfolding start_session
  start_session-AllTidy s all =
      let fresh = set_session-AllTidy s.sessions new_session s.proxy all new_session-IsTidy in
      acts-AllTidy s.sessions start _ fresh (start-IsTidy _ (fresh s.sessions))

  first_test-AllTidy :
      (ec : ErrorCode) (s : Server lib) → AllTidy s.proxy → AllTidy (first_test ec s).0.proxy
  unfolding first_test
  first_test-AllTidy success s all = all
  first_test-AllTidy _ s all = all

  advance_from-AllTidy :
      (phase : Phase) (s : Server lib) → AllTidy s.proxy → AllTidy (advance_from phase s).0.proxy
  unfolding advance_from
  advance_from-AllTidy (accepted ec) s all = first_test-AllTidy ec s all
  advance_from-AllTidy starts_session s all = start_session-AllTidy s all
  advance_from-AllTidy _ s all = all

  server_step-AllTidy :
      (h : Happening) (s : Server lib) {after : Server lib} {xs : Started}
      → Servers.step b h s ≡ ok (after, xs)
      → AllTidy s.proxy
      → AllTidy after.proxy
  unfolding Servers.step Tidies
  server_step-AllTidy (accepts ec) s e all = subst (λ r. AllTidy r.0.proxy) (ok-injective e) all
  server_step-AllTidy continues s e all =
      subst (λ r. AllTidy r.0.proxy) (ok-injective e) (advance_from-AllTidy s.phase s all)
  server_step-AllTidy (completes x) s e all =
      let ((p, ys), first, rest) = >>=-ok (complete b x s.proxy) _ e in
      subst (λ r. AllTidy r.0.proxy) (ok-injective rest)
        (complete-Tidies b x s.proxy all (p, ys) first)

  signal_handler-proxy : (p : Process lib) → (signal_handler b p).server.proxy ≡ p.server.proxy
  unfolding signal_handler shutdown
  signal_handler-proxy p = ground arith

  step-AllTidy :
      (e : Event b) (p after : Process lib) (xs : Started)
      → step b e p ≡ ok (after, xs)
      → AllTidy p.server.proxy
      → AllTidy after.server.proxy
  unfolding step
  step-AllTidy signalled p after xs e all =
      subst (λ r. AllTidy r.0.server.proxy) (ok-injective e) (rw (signal_handler-proxy p) all)
  step-AllTidy (works h) p after xs e all = elim (works-cases b h p e) [
    | inl (s, some_left, stepped, same) ↦
        subst (λ q. AllTidy q.server.proxy) (sym same) (server_step-AllTidy h p.server stepped all)
    | inr (none_left, same, nothing) ↦ subst (λ q. AllTidy q.server.proxy) (sym same) all
  ]
  step-AllTidy worker_ends p after xs e all =
      subst (λ r. AllTidy r.0.server.proxy) (ok-injective e) all
  step-AllTidy worker_throws p after xs e all =
      subst (λ r. AllTidy r.0.server.proxy) (ok-injective e) all

  -- Whatever happens from the start of the program on, each of its sessions runs, or none of its
  -- sockets is open, neither the TCP sockets nor those below the TLS streams.
  pub main-AllTidy :
      (yaml : YamlCpp) (binds : Bytes → ℕ → Bool) (args : List Bytes) (w : lib.World)
      {p q : Process lib} {xs : Started} (es : List (Event b))
      → main b yaml binds args w ≡ serves p
      → run b es p ≡ ok (q, xs)
      → AllTidy q.server.proxy
  unfolding new_process new_server
  main-AllTidy yaml binds args w {p} es start_up e =
      run_keeps b (λ p. AllTidy p.server.proxy) step-AllTidy es p e
        (subst (λ p. AllTidy p.server.proxy) (sym (main-serves b yaml binds args w start_up))
          (λ i. new_session-IsTidy))
