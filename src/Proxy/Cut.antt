-- ===== src/Proxy/Cut.antt =====
-- A response that src/Session/Session.cpp reads from the server in several pieces.
use single_flight_proxy_serv.Prelude.{ℕ, ◌≡◌, refl, ◌∙◌, ap, true, List, [], ◌∷◌, ◌++◌, map, Bytes}
use single_flight_proxy_serv.Prelude.Outcome.{ok}
use single_flight_proxy_serv.QueryCache.{Build, do_single_flight}
use single_flight_proxy_serv.Session.{Stream, writes, response_sent}
use single_flight_proxy_serv.Proxy.{Proxy, run}
use single_flight_proxy_serv.Proxy.Relay.{Ready, Ready-Alike}
use single_flight_proxy_serv.Proxy.Turns.{client_sends, complete_client}
use single_flight_proxy_serv.Proxy.Answers.{serves}
use single_flight_proxy_serv.Proxy.Fetch.{
  Setting, requests, operations, run-append, fetched, fetched-hits,
}
use single_flight_proxy_serv.Proxy.Bridged.{Turn, AllOther, Bridged, event, started_by}
use single_flight_proxy_serv.Proxy.Passing.{turns-Passes}

module _ (b : Build) where
  open b use {lib}

  fetched-Bridged :
      (i : ℕ) (js : List ℕ) (bytes sql reply : Bytes) (to_server : Stream) (to_client : ℕ → Stream)
      (p : Proxy lib) (h : Setting b i js bytes sql to_server to_client p)
      → Bridged
          (to_client i)
          to_server
          ((fetched b i js bytes sql reply to_server to_client p h).0.sessions i)
  fetched-Bridged i js bytes sql reply to_server to_client p h =
      let f = fetched b i js bytes sql reply to_server to_client p h in
      let same = f.3 i in
      record {
        running = same.is_destroying ∙ h.ready.0;
        client_is_open = same.client_closed ∙ h.client_reads;
        server_is_open = same.server_closed ∙ h.server_reads;
        client = same.to_client ∙ h.ready.1;
        server = same.to_server ∙ h.server;
        leads_none = f.4;
      }

  -- With a sound cache whose first level is enabled, and sessions that run and whose clients can be
  -- written to, a query with a text, in neither level and not in flight, is fetched by session `i`
  -- for itself and the sessions `js`, and `reply` is what the first read from the server gives.
  -- While the client of session `i` sends no further query, every later read in session `i` is
  -- written to its other side only, and every write that succeeds is followed by a read: further
  -- pieces of the response go to its own client, nothing more goes to the sessions `js`, and a
  -- running session `k` whose client asks for the query after all of it is sent `reply`, the first
  -- piece alone.
  pub response-Cut :
      (i k : ℕ) (js : List ℕ) (bytes sql reply : Bytes) (turns : List Turn) (to_server : Stream)
      (to_client : ℕ → Stream) (p : Proxy lib)
      → Setting b i js bytes sql to_server to_client p
      → p.cache.l1.l1_enabled ≡ true
      → AllOther turns
      → Ready to_client p (k ∷ [])
      → (after : Proxy lib) × (run b
            (requests b i js bytes reply ++ map (event i) turns ++ client_sends bytes k ∷ [])
            p
          ≡ ok (
            after,
            operations b i js bytes reply to_server to_client
                ++ map (λ t. (i, started_by (to_client i) to_server t)) turns
                ++ (k, writes (to_client k) reply response_sent) ∷ [],
          ))
  unfolding run
  response-Cut i k js bytes sql reply turns to_server to_client p h on other ready =
      let f = fetched b i js bytes sql reply to_server to_client p h in
      let passed =
        turns-Passes b i (to_client i) to_server turns f.0 other
          (fetched-Bridged i js bytes sql reply to_server to_client p h) in
      let (cache, hit) = fetched-hits b i k js bytes sql reply to_server to_client p h on in
      let ready' =
        Ready-Alike to_client f.0 passed.after (k ∷ []) passed.alike
          (Ready-Alike to_client p f.0 (k ∷ []) f.3 ready) in
      let (after, served) =
        serves b k bytes sql reply to_client passed.after cache h.message ready'
          (ap (do_single_flight b sql k) passed.cache ∙ hit) in
      let asked : run b (client_sends bytes k ∷ []) passed.after
          ≡ ok (after, (k, writes (to_client k) reply response_sent) ∷ []) =
        rw (complete_client b bytes k passed.after ready'.0, served) refl in
      (
        after,
        run-append b (requests b i js bytes reply ++ map (event i) turns)
            (client_sends bytes k ∷ []) p passed.after after _ _
            (run-append b (requests b i js bytes reply) (map (event i) turns) p f.0 passed.after _ _
              f.1 passed.returns)
            asked,
      )
