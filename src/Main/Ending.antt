-- ===== src/Main/Ending.antt =====
-- How the program of src/main.cpp ends after a signal.
use single_flight_proxy_serv.Prelude.{
  ◌-◌, ℕ, ◌+◌, ◌≤◌, ◌≡◌, refl, sym, ap, subst, ◌∙◌, Bool, false, List, ◌∷◌, Bytes, arith,
}
use single_flight_proxy_serv.Prelude.Outcome.{ok, ok-injective}
use single_flight_proxy_serv.QueryCache.{Build}
use single_flight_proxy_serv.Config.Yaml.{YamlCpp}
use single_flight_proxy_serv.Proxy.{Started}
use single_flight_proxy_serv.ProxyServer.Loop.{starting}
use single_flight_proxy_serv.Main.Boot.{main-serves}
use single_flight_proxy_serv.Main.{
  Process, serves, main, new_process, Event, signalled, step, run, leave, exited, status,
}
use single_flight_proxy_serv.Main.Steps.{
  ends, IsOff, IsGlobal, signal_handler-workers, signal_handler_shuts, step-IsOff, step-IsGlobal,
  run-cons, run_keeps, run-workers, status-exited,
}

module _ (b : Build) where
  open b use {lib}

  signalled-IsOff :
      (p : Process lib) {after : Process lib} {xs : Started}
      → IsGlobal b p
      → step b signalled p ≡ ok (after, xs)
      → IsOff b (p.server.sessions + starting p.server.phase) after
  unfolding step
  signalled-IsOff p g e =
      subst (λ r. IsOff b (p.server.sessions + starting p.server.phase) r.0) (ok-injective e)
        (signal_handler_shuts b p g)

  signalled-workers :
      (p : Process lib) {after : Process lib} {xs : Started}
      → step b signalled p ≡ ok (after, xs)
      → after.workers ≡ p.workers - 0
  unfolding step
  signalled-workers p e = sym (ap (λ r. r.0.workers) (ok-injective e)) ∙ signal_handler-workers b p

  module _ (yaml : YamlCpp) (binds : Bytes → ℕ → Bool) (args : List Bytes) (w : lib.World) where
    main-IsGlobal : {p : Process lib} → main b yaml binds args w ≡ serves p → IsGlobal b p
    unfolding new_process
    main-IsGlobal e =
        subst (IsGlobal b) (sym (main-serves b yaml binds args w e))
          (record { io_context = refl; work_guard = refl; server = refl })

  -- Once the program runs, whatever has happened: a signal shuts the server down and stops the
  -- io_context, so that `run` of each worker thread can return. When each has returned, or thrown,
  -- whatever else happens meanwhile, the program has ended, with status 0; the server does not accept
  -- any more, and after the signal it has started at most one session, and that only if the accept
  -- loop was already behind its test.
  pub signal-ends :
      (yaml : YamlCpp) (binds : Bytes → ℕ → Bool) (args : List Bytes) (w : lib.World)
      {p p1 q : Process lib} {xs ys : Started} (es fs : List (Event b))
      → main b yaml binds args w ≡ serves p
      → run b es p ≡ ok (p1, xs)
      → p1.workers ≤ ends b fs
      → run b (signalled ∷ fs) p1 ≡ ok (q, ys)
      → (status b q ≡ exited 0 (leave b q))
        × (q.server.accepting ≡ false)
        × (q.server.sessions ≤ p1.server.sessions + starting p1.server.phase)
  signal-ends yaml binds args w {p} {p1} es fs start before all_end after =
      let globals =
        run_keeps b (IsGlobal b) (λ e q r zs. step-IsGlobal b e q) es p before
          (main-IsGlobal yaml binds args w start) in
      let (p2, zs, us, first, rest, same) = run-cons b signalled fs p1 after in
      let off =
        run_keeps b (IsOff b _) (λ e q r zs. step-IsOff b e _ q) fs p2 rest
          (signalled-IsOff p1 globals first) in
      let count = run-workers b fs _ p2 (signalled-IsOff p1 globals first) rest in
      (
        status-exited b _ (omega (arith, count, signalled-workers p1 first, all_end)),
        off.accepting,
        omega (arith, off.sessions),
      )
