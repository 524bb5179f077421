-- ===== src/ProxyServer/Serves.antt =====
-- The accept loop of src/ProxyServer/ProxyServer.cpp over the proxy: every step is defined.
use single_flight_proxy_serv.Prelude.{◌≡◌, refl, List, [], ◌∷◌, ◌++◌}
use single_flight_proxy_serv.Prelude.Outcome.{Outcome, ok}
use single_flight_proxy_serv.QueryCache.{Build}
use single_flight_proxy_serv.QueryCache.Sound.{IsSound}
use single_flight_proxy_serv.Session.{ErrorCode, success}
use single_flight_proxy_serv.Proxy.{Started, acts}
use single_flight_proxy_serv.Proxy.Closed.{complete-Proceeds}
use single_flight_proxy_serv.ProxyServer.{
  Phase, accepted, Server, Happening, accepts, continues, completes, start_session, first_test,
  advance_from, step, run,
}

module _ (b : Build) where
  open b use {lib}

  first_test-cache :
      (ec : ErrorCode) (s : Server lib) → (first_test ec s).0.proxy.cache ≡ s.proxy.cache
  unfolding first_test
  first_test-cache success s = refl
  first_test-cache ec s = refl

  -- The accept loop does not touch the cache.
  pub advance_from-cache :
      (phase : Phase) (s : Server lib) → (advance_from phase s).0.proxy.cache ≡ s.proxy.cache
  unfolding advance_from start_session acts
  advance_from-cache (accepted ec) s = first_test-cache ec s
  advance_from-cache _ s = refl

  pub record Serves (r : Outcome (Server lib × Started)) : Type 0 where
    pub after : Server lib
    pub started : Started
    pub returns : r ≡ ok (after, started)
    pub sound : IsSound after.proxy.cache

  pub step-Serves : (h : Happening) (s : Server lib) → IsSound s.proxy.cache → Serves (step b h s)
  unfolding step
  step-Serves (accepts ec) s sound = record {
    after = _;
    started = _;
    returns = refl;
    sound = sound;
  }
  step-Serves continues s sound = record {
    after = (advance_from s.phase s).0;
    started = (advance_from s.phase s).1;
    returns = refl;
    sound = rw (advance_from-cache s.phase s) sound;
  }
  step-Serves (completes e) s sound =
      let p = complete-Proceeds b e s.proxy sound in
      record {
        after = record s { proxy = p.after };
        started = p.started;
        returns = rw p.returns refl;
        sound = p.sound;
      }

  -- With a sound cache every step of the server is defined, in whatever order the accepts, the steps
  -- of the accept loop and the operations of the sessions come, and leaves a sound cache.
  pub run-Serves :
      (hs : List Happening) (s : Server lib) → IsSound s.proxy.cache → Serves (run b hs s)
  unfolding run
  run-Serves [] s sound = record { after = s; started = []; returns = refl; sound = sound }
  run-Serves (h ∷ hs) s sound =
      let now = step-Serves h s sound in
      let rest = run-Serves hs now.after now.sound in
      record {
        after = rest.after;
        started = now.started ++ rest.started;
        returns = rw (now.returns, rest.returns) refl;
        sound = rest.sound;
      }
