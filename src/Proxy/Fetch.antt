-- ===== src/Proxy/Fetch.antt =====
-- One query, many clients: what the proxy of src/Session/Session.cpp and src/QueryCache/QueryCache.cpp
-- sends to whom.
use mathlib.Core.List.{append_assoc, append-nil}
use single_flight_proxy_serv.Prelude.{
  true, ℕ, ◌≡◌, refl, sym, ap, subst, ◌∙◌, false, none, some, List, [], ◌∷◌, ◌++◌, map, Bytes,
}
use single_flight_proxy_serv.Prelude.Outcome.{ok, >>=-ok, ok-injective}
use single_flight_proxy_serv.SingleFlight.Refinement.{view as waiting}
use single_flight_proxy_serv.QueryCache.L2.{is_empty}
use single_flight_proxy_serv.QueryCache.L1.History.{view}
use single_flight_proxy_serv.QueryCache.Hash.{hash_query}
use single_flight_proxy_serv.QueryCache.Sound.{IsSound}
use single_flight_proxy_serv.QueryCache.Dedup.{ask_all, IsMiss, query-Deduplicates}
use single_flight_proxy_serv.QueryCache.Absent.{Absent}
use single_flight_proxy_serv.QueryCache.{Build, do_single_flight, notify_flight_result}
use single_flight_proxy_serv.Session.{Stream, writes, forwarded_to_server, forwarded_to_client}
use single_flight_proxy_serv.Session.Bridge.{server_stream}
use single_flight_proxy_serv.Proxy.{
  cache_hit, QueryCache, response_sent, Proxy, Event, Started, complete, run,
}
use single_flight_proxy_serv.Proxy.Alike.{Alike-trans}
use single_flight_proxy_serv.QueryCache.Serve.{answered-hits}
use single_flight_proxy_serv.Proxy.Relay.{AllAlike, IsQuery, Ready, Ready-Alike, responses}
use single_flight_proxy_serv.Proxy.Turns.{
  client_sends, server_sends, leads, complete_client, complete_server, clients_wait,
}
use single_flight_proxy_serv.Proxy.Answers.{answers, serves}

module _ (b : Build) where
  open b use {lib, md5}

  pub run-append :
      (es fs : List Event) (p p1 p2 : Proxy lib) (xs ys : Started)
      → run b es p ≡ ok (p1, xs)
      → run b fs p1 ≡ ok (p2, ys)
      → run b (es ++ fs) p ≡ ok (p2, xs ++ ys)
  unfolding run
  run-append [] fs p p1 p2 xs ys e f =
      subst (λ r. run b fs p ≡ ok (p2, r.1 ++ ys)) (ok-injective e)
        (subst (λ q. run b fs q ≡ ok (p2, ys)) (sym (ap (λ r. r.0) (ok-injective e))) f)
  run-append (e ∷ es) fs p p1 p2 xs ys h f =
      let (x, g, k) = >>=-ok (complete b e p) _ h in
      let (y, l, m) = >>=-ok (run b es x.0) _ k in
      let rest =
        run-append es fs x.0 p1 p2 y.1 ys
          (l ∙ ap (λ q. ok (q, y.1)) (ap (λ r. r.0) (ok-injective m))) f in
      rw (g, rest)
        (ap (λ zs. ok (p2, zs)) (sym (append_assoc x.1 y.1 ys))
          ∙ ap (λ r. ok (p2, r.1 ++ ys)) (ok-injective m))

  -- The setting: a query message arrives in session `i`, and then in each of the sessions `js`,
  -- whose clients can be written to; then the server answers session `i`.
  pub record Setting (i : ℕ) (js : List ℕ) (bytes sql : Bytes) (to_server : Stream)
      (to_client : ℕ → Stream) (p : Proxy lib) : Type 1 where
    pub sound : IsSound p.cache
    pub absent : Absent lib (hash_query md5 sql) p.cache.l2
    pub missing : IsMiss (hash_query md5 sql) (view p.cache.l1)
    pub free : waiting p.cache.singleflight (hash_query md5 sql) ≡ none
    pub message : IsQuery bytes sql
    pub not_empty : is_empty sql ≡ false
    pub server_reads : (p.sessions i).server_closed ≡ false
    pub server : server_stream (p.sessions i) ≡ some to_server
    pub client_reads : (p.sessions i).client_closed ≡ false
    pub ready : Ready to_client p (i ∷ js)

  abbrev pub requests : ℕ → List ℕ → Bytes → Bytes → List Event
  requests i js bytes reply =
      client_sends bytes i ∷ map (client_sends bytes) js ++ server_sends reply i ∷ []

  abbrev pub operations : ℕ → List ℕ → Bytes → Bytes → Stream → (ℕ → Stream) → Started
  operations i js bytes reply to_server to_client =
      (i, writes to_server bytes forwarded_to_server) ∷ responses to_client reply js
      ++ (i, writes (to_client i) reply forwarded_to_client) ∷ []

  pub fetched :
      (i : ℕ) (js : List ℕ) (bytes sql reply : Bytes) (to_server : Stream) (to_client : ℕ → Stream)
      (p : Proxy lib) (h : Setting i js bytes sql to_server to_client p)
      → let d = query-Deduplicates b sql reply i js p.cache h.sound h.absent h.missing h.free in
        (after : Proxy lib) × (run b (requests i js bytes reply) p
          ≡ ok (after, operations i js bytes reply to_server to_client))
        × (after.cache ≡ d.answered)
        × AllAlike p after
        × ((after.sessions i).current_query ≡ [])
  unfolding run
  fetched i js bytes sql reply to_server to_client p h =
      let d = query-Deduplicates b sql reply i js p.cache h.sound h.absent h.missing h.free in
      let first = leads b i bytes sql to_server p d.led h.message h.server_reads h.server d.leads in
      let p1 = first.moves.after in
      let ready1 = Ready-Alike to_client p p1 (i ∷ js) first.moves.alike h.ready in
      let then_wait =
        clients_wait b bytes sql to_client js p1 d.waited h.message ready1.2
          (ap (ask_all b sql js) first.moves.cached ∙ d.waits) in
      let p2 = then_wait.moves.after in
      let ready2 = Ready-Alike to_client p1 p2 (i ∷ js) then_wait.moves.alike ready1 in
      let last =
        answers b i reply sql to_client js p2 d.answered (then_wait.queries i ∙ first.query)
          h.not_empty
          ((then_wait.moves.alike i).client_closed
            ∙ (first.moves.alike i).client_closed
            ∙ h.client_reads)
          ready2 (ap (notify_flight_result b sql reply) then_wait.moves.cached ∙ d.answers_all) in
      let answered : run b (server_sends reply i ∷ []) p2
          ≡ ok (
            last.0,
            responses to_client reply js
                ++ (i, writes (to_client i) reply forwarded_to_client) ∷ [],
          ) =
        rw (complete_server b reply i p2 ready2.0, last.1)
          (ap (λ xs. ok (last.0, xs)) (append-nil _)) in
      (
        last.0,
        rw
            (
              complete_client b bytes i p h.ready.0,
              first.moves.returns,
              run-append (map (client_sends bytes) js) (server_sends reply i ∷ []) p1 p2 last.0 [] _
                  then_wait.moves.returns answered,
            )
            refl,
        last.2,
        λ j.
            Alike-trans (p.sessions j) (p1.sessions j) _ (first.moves.alike j)
              (Alike-trans (p1.sessions j) (p2.sessions j) _ (then_wait.moves.alike j) (last.3 j)),
        last.4,
      )

  -- The cache is sound, and the sessions run and their clients can be written to. A query with a
  -- text that is not empty, that neither level of the cache holds and that is not in flight reaches
  -- session `i` in a message, and then the sessions `js`, and then the server answers session `i`.
  -- All that the proxy starts is, in this order: the write of that message to the server of session
  -- `i`; for each of the sessions `js`, in their order, the write of the answer to its client; and
  -- the write of the answer to the client of session `i`. The query is then no longer in flight.
  pub query-Fetched :
      (i : ℕ) (js : List ℕ) (bytes sql reply : Bytes) (to_server : Stream) (to_client : ℕ → Stream)
      (p : Proxy lib)
      → Setting i js bytes sql to_server to_client p
      → (after : Proxy lib) × (run b (requests i js bytes reply) p
          ≡ ok (after, operations i js bytes reply to_server to_client))
        × (waiting after.cache.singleflight (hash_query md5 sql) ≡ none)
  query-Fetched i js bytes sql reply to_server to_client p h =
      let d = query-Deduplicates b sql reply i js p.cache h.sound h.absent h.missing h.free in
      let f = fetched i js bytes sql reply to_server to_client p h in
      (f.0, f.1, ap (λ q. waiting q.singleflight (hash_query md5 sql)) f.2 ∙ d.idle)

  -- Whoever asks after the query has been fetched is answered from the cache.
  pub fetched-hits :
      (i k : ℕ) (js : List ℕ) (bytes sql reply : Bytes) (to_server : Stream)
      (to_client : ℕ → Stream) (p : Proxy lib) (h : Setting i js bytes sql to_server to_client p)
      → p.cache.l1.l1_enabled ≡ true
      → (cache : QueryCache lib ℕ) × (do_single_flight b sql k
            (fetched i js bytes sql reply to_server to_client p h).0.cache
          ≡ ok (cache, record { result = cache_hit; calls = (k, reply) ∷ [] }))
  fetched-hits i k js bytes sql reply to_server to_client p h on =
      let d = query-Deduplicates b sql reply i js p.cache h.sound h.absent h.missing h.free in
      let f = fetched i js bytes sql reply to_server to_client p h in
      let (answered, calls, notified, hits) =
        answered-hits b sql reply d.waited d.waited_sound (ap (λ m. m.enabled) d.waited_l1 ∙ on) in
      let same : answered ≡ f.0.cache =
        ap (λ r. r.0) (ok-injective (sym notified ∙ d.answers_all)) ∙ sym f.2 in
      let (cache, hit) = hits k in (cache, ap (do_single_flight b sql k) (sym same) ∙ hit)

  -- With a sound cache whose first level is enabled, and sessions that run and whose clients can be
  -- written to: after a query with a text, that neither level held and that was not in flight, has
  -- been fetched by session `i` for itself and the sessions `js`, if a session `k` has the same
  -- query from its client, the proxy starts one operation more, the write of the answer to that
  -- client. The server is not asked again.
  pub query-Refetched :
      (i k : ℕ) (js : List ℕ) (bytes sql reply : Bytes) (to_server : Stream)
      (to_client : ℕ → Stream) (p : Proxy lib)
      → Setting i js bytes sql to_server to_client p
      → p.cache.l1.l1_enabled ≡ true
      → Ready to_client p (k ∷ [])
      → (after : Proxy lib) × (run b (requests i js bytes reply ++ client_sends bytes k ∷ []) p
          ≡ ok (
            after,
            operations i js bytes reply to_server to_client
                ++ (k, writes (to_client k) reply response_sent) ∷ [],
          ))
  unfolding run
  query-Refetched i k js bytes sql reply to_server to_client p h on ready =
      let f = fetched i js bytes sql reply to_server to_client p h in
      let (cache, hit) = fetched-hits i k js bytes sql reply to_server to_client p h on in
      let ready' = Ready-Alike to_client p f.0 (k ∷ []) f.3 ready in
      let (after, served) = serves b k bytes sql reply to_client f.0 cache h.message ready' hit in
      (
        after,
        run-append (requests i js bytes reply) (client_sends bytes k ∷ []) p f.0 after _ _ f.1
            (rw (complete_client b bytes k f.0 ready'.0, served) refl),
      )
