-- ===== src/Main/Life.antt =====
-- The program of src/main.cpp from its start to its end: the signal handler, the worker threads and
-- what `main` does behind the joins.
use single_flight_proxy_serv.Prelude.{
  ℕ, ◌<◌, ◌≡◌, refl, Bool, List, [], ◌∷◌, ◌++◌, Bytes, arith, ltb, Bool-cases, inl, inr,
}
use single_flight_proxy_serv.Prelude.Outcome.{Outcome, ok}
use single_flight_proxy_serv.QueryCache.{Build}
use single_flight_proxy_serv.QueryCache.Sound.{IsSound}
use single_flight_proxy_serv.Config.Yaml.{YamlCpp}
use single_flight_proxy_serv.Proxy.{Started}
use single_flight_proxy_serv.ProxyServer.{shutdown}
use single_flight_proxy_serv.ProxyServer.Serves.{step-Serves}
use single_flight_proxy_serv.Main.Boot.{main-IsSound}
use single_flight_proxy_serv.Main.{
  Process, serves, main, signal_handler, Event, signalled, works, worker_ends, worker_throws, step,
  run,
}

module _ (b : Build) where
  open b use {lib}

  -- The call is defined, and leaves a sound cache.
  pub record Lives (r : Outcome (Process lib × Started)) : Type 0 where
    pub after : Process lib
    pub started : Started
    pub returns : r ≡ ok (after, started)
    pub sound : IsSound after.server.proxy.cache

  pub signal_handler-cache :
      (p : Process lib) → (signal_handler b p).server.proxy.cache ≡ p.server.proxy.cache
  unfolding signal_handler shutdown
  signal_handler-cache p = ground arith

  step-Lives : (e : Event b) (p : Process lib) → IsSound p.server.proxy.cache → Lives (step b e p)
  unfolding step
  step-Lives signalled p s = record {
    after = signal_handler b p;
    started = [];
    returns = refl;
    sound = rw (signal_handler-cache p) s;
  }
  step-Lives (works h) p s = elim (Bool-cases (ltb 0 p.workers)) [
    | inl some_left ↦
        let r = step-Serves b h p.server s in
        record {
          after = record p { server = r.after };
          started = r.started;
          returns = rw (some_left, r.returns) refl;
          sound = r.sound;
        }
    | inr none_left ↦ record { after = p; started = []; returns = rw none_left refl; sound = s }
  ]
  step-Lives worker_ends p s = record { after = _; started = []; returns = refl; sound = s }
  step-Lives worker_throws p s = record { after = _; started = []; returns = refl; sound = s }

  run-Lives :
      (es : List (Event b)) (p : Process lib) → IsSound p.server.proxy.cache → Lives (run b es p)
  unfolding run
  run-Lives [] p s = record { after = p; started = []; returns = refl; sound = s }
  run-Lives (e ∷ es) p s =
      let now = step-Lives e p s in
      let rest = run-Lives es now.after now.sound in
      record {
        after = rest.after;
        started = now.started ++ rest.started;
        returns = rw (now.returns, rest.returns) refl;
        sound = rest.sound;
      }

  -- From any settings whose first level has a size other than zero, whatever signals, accepts and
  -- completions of operations come to the program that starts, with whatever codes and bytes, in
  -- whatever order, and whatever threads end: no call of the cache that it makes is undefined, and
  -- the cache stays sound.
  pub main-Lives :
      (yaml : YamlCpp) (binds : Bytes → ℕ → Bool) (args : List Bytes) (w : lib.World)
      {p : Process lib} (es : List (Event b))
      → main b yaml binds args w ≡ serves p
      → 0 < p.config.l1_max_size
      → Lives (run b es p)
  main-Lives yaml binds args w {p} es e h = run-Lives es p (main-IsSound b yaml binds args w e h)
