-- ===== src/Proxy/Served.antt =====
-- A query in src/Session/Session.cpp that the first level of src/QueryCache/QueryCache.cpp holds.
use single_flight_proxy_serv.Prelude.{ℕ, ◌≡◌, ◌∙◌, some, [], ◌∷◌, Bytes}
use single_flight_proxy_serv.Prelude.Outcome.{ok}
use single_flight_proxy_serv.QueryCache.L1.History.{gets, spec_exec, view}
use single_flight_proxy_serv.QueryCache.Hash.{hash_query}
use single_flight_proxy_serv.QueryCache.Sound.{IsSound}
use single_flight_proxy_serv.QueryCache.Serve.{cached_hit}
use single_flight_proxy_serv.QueryCache.{Build}
use single_flight_proxy_serv.Session.{Stream, writes, response_sent}
use single_flight_proxy_serv.Proxy.{Proxy, complete}
use single_flight_proxy_serv.Proxy.Relay.{IsQuery, Ready}
use single_flight_proxy_serv.Proxy.Turns.{client_sends, complete_client}
use single_flight_proxy_serv.Proxy.Answers.{serves}

module _ (b : Build) where
  open b use {lib, md5}

  -- With a sound cache, while the first level holds the result of a query, a session that runs and
  -- whose client asks for it starts one operation: the write of that result to its client. Nothing
  -- goes to the server.
  pub query-Served :
      (j : ℕ) (bytes sql value : Bytes) (to : ℕ → Stream) (p : Proxy lib)
      → IsSound p.cache
      → (spec_exec (gets (hash_query md5 sql)) (view p.cache.l1)).1 ≡ some value
      → IsQuery bytes sql
      → Ready to p (j ∷ [])
      → (after : Proxy lib) × (complete b (client_sends bytes j) p
          ≡ ok (after, (j, writes (to j) value response_sent) ∷ []))
  query-Served j bytes sql value to p s found q ready =
      let (cache, cached) = cached_hit b sql value j p.cache s found in
      let (after, returns) = serves b j bytes sql value to p cache q ready cached in
      (after, complete_client b bytes j p ready.0 ∙ returns)
