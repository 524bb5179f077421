-- ===== src/Proxy/Passing.antt =====
-- What src/Session/Session.cpp does with traffic that is no query and no response to one: the bytes go
-- through as they are.
use single_flight_proxy_serv.Prelude.{ℕ, ◌≡◌, refl, ◌∙◌, List, [], ◌∷◌, map}
use single_flight_proxy_serv.Prelude.Outcome.{Outcome, ok}
use single_flight_proxy_serv.QueryCache.{Build}
use single_flight_proxy_serv.Session.{Stream}
use single_flight_proxy_serv.Proxy.{Proxy, Started, run}
use single_flight_proxy_serv.Proxy.Alike.{Alike-trans, Alike-refl}
use single_flight_proxy_serv.Proxy.Relay.{AllAlike}
use single_flight_proxy_serv.Proxy.Bridged.{Turn, AllOther, event, started_by, Bridged, turn_taken}

module _ (b : Build) (i : ℕ) (near far : Stream) where
  open b use {lib}

  pub record Passes (p : Proxy lib) (xs : Started) (r : Outcome (Proxy lib × Started))
      : Type 0 where
    pub after : Proxy lib
    pub returns : r ≡ ok (after, xs)
    pub cache : after.cache ≡ p.cache
    pub bridged : Bridged near far (after.sessions i)
    pub alike : AllAlike p after

  -- A bridged session that leads no flight passes on everything that is no query, in whatever order
  -- its reads and writes complete: each read is written to the other side byte for byte, with nothing
  -- added or left out, and each write that has succeeded is followed by the next read of the side
  -- whose bytes it has written. Nothing else is started, the cache is not asked, and the session is
  -- bridged as before.
  pub turns-Passes :
      (ts : List Turn) (p : Proxy lib)
      → AllOther ts
      → Bridged near far (p.sessions i)
      → Passes p (map (λ t. (i, started_by near far t)) ts) (run b (map (event i) ts) p)
  unfolding run
  turns-Passes [] p other s = record {
    after = p;
    returns = refl;
    cache = refl;
    bridged = s;
    alike = λ j. Alike-refl (p.sessions j);
  }
  turns-Passes (t ∷ ts) p other s =
      let (now, later) = turn_taken b i near far t ts p other s in
      let rest = turns-Passes ts now.after later now.bridged in
      record {
        after = rest.after;
        returns = rw (now.returns, rest.returns) refl;
        cache = rest.cache ∙ now.cache;
        bridged = rest.bridged;
        alike =
            λ j. Alike-trans (p.sessions j) (now.after.sessions j) _ (now.alike j) (rest.alike j);
      }
