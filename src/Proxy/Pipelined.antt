-- ===== src/Proxy/Pipelined.antt =====
-- A client of src/Session/Session.cpp that sends its next query before the answer to the first.
use single_flight_proxy_serv.Prelude.{
  ℕ, ◌≡◌, refl, sym, ap, subst, ◌∙◌, false, some, List, [], ◌∷◌, map, Bytes, if_false,
}
use single_flight_proxy_serv.Prelude.Outcome.{ok}
use single_flight_proxy_serv.SingleFlight.Refinement.{view as waiting}
use single_flight_proxy_serv.QueryCache.L2.{is_empty}
use single_flight_proxy_serv.QueryCache.L1.History.{gets, spec_exec, view}
use single_flight_proxy_serv.QueryCache.Hash.{hash_query}
use single_flight_proxy_serv.QueryCache.Sound.{IsSound}
use single_flight_proxy_serv.QueryCache.Dedup.{ask_all, ask_all-waits}
use single_flight_proxy_serv.QueryCache.Mixed.{Apart, leads-Overtaken}
use single_flight_proxy_serv.QueryCache.{Build, do_single_flight, notify_flight_result}
use single_flight_proxy_serv.Session.{
  Session, Stream, reads, writes, success, client_read, forwarded_to_server, forwarded_to_client,
  response_sent,
}
use single_flight_proxy_serv.Session.Bridge.{
  client_stream, server_stream, bridge_client_to_server, on_forwarded_to_server, or_close,
}
use single_flight_proxy_serv.Session.Startup.{created}
use single_flight_proxy_serv.Proxy.{
  Proxy, Event, Started, act_of, handle, set_session, complete, run,
}
use single_flight_proxy_serv.Proxy.Alike.{Alike-refl, Alike-trans, update-Alike}
use single_flight_proxy_serv.Proxy.Relay.{AllAlike, IsQuery, Ready, Ready-Alike, acts_writes}
use single_flight_proxy_serv.Proxy.Turns.{
  client_sends, server_sends, Moves, leads, complete_client, complete_server, clients_wait,
}
use single_flight_proxy_serv.Proxy.Answers.{answers}
use single_flight_proxy_serv.Proxy.Served.{query-Served}

-- The write of the client's bytes to the server of session `i` succeeds.
abbrev pub sent_on : ℕ → Event
sent_on i = record {
  i = i;
  handler = forwarded_to_server;
  ec = success;
  bytes = [];
  creation = created;
}

bridge_client_to_server-reads :
    (to : Stream) (s : Session)
    → s.is_destroying ≡ false
    → client_stream s ≡ some to
    → bridge_client_to_server s ≡ (s, reads to client_read ∷ [])
unfolding bridge_client_to_server or_close
bridge_client_to_server-reads to s running e =
    if_false s.is_destroying (s, []) _ running ∙ rw e refl

module _ (b : Build) where
  open b use {lib, md5}

  -- The session reads from its client again.
  reads_on :
      (i : ℕ) (to : Stream) (p : Proxy lib)
      → (p.sessions i).is_destroying ≡ false
      → client_stream (p.sessions i) ≡ some to
      → Moves b p p.cache ((i, reads to client_read) ∷ []) (complete b (sent_on i) p)
  unfolding complete handle act_of on_forwarded_to_server
  reads_on i to p running e =
      let s = p.sessions i in
      let read =
        acts_writes i bridge_client_to_server p s (reads to client_read)
          (bridge_client_to_server-reads to s running e) in
      record {
        after = set_session i s p;
        returns = if_false s.is_destroying (ok (p, [])) _ running ∙ ap ok read;
        alike = update-Alike p.sessions i s (Alike-refl s);
        cached = refl;
      }

  -- The setting: two queries, with different keys, that are neither in a level nor in flight; the client
  -- of session `i` sends the second when the first has been sent on, before the server has answered.
  pub record Pipelining (i : ℕ) (bytes1 sql1 bytes2 sql2 : Bytes) (to_server : Stream)
      (to : ℕ → Stream) (p : Proxy lib) : Type 1 where
    pub apart : Apart b sql1 sql2 p.cache
    pub message1 : IsQuery bytes1 sql1
    pub message2 : IsQuery bytes2 sql2
    pub not_empty : is_empty sql2 ≡ false
    pub server_reads : (p.sessions i).server_closed ≡ false
    pub server : server_stream (p.sessions i) ≡ some to_server
    pub client_reads : (p.sessions i).client_closed ≡ false
    pub ready : Ready to p (i ∷ [])

  abbrev pub pipeline : ℕ → Bytes → Bytes → Bytes → List Event
  pipeline i bytes1 bytes2 reply =
      client_sends bytes1 i ∷ sent_on i ∷ client_sends bytes2 i ∷ server_sends reply i ∷ []

  abbrev pub pipelined : ℕ → Bytes → Bytes → Bytes → Stream → (ℕ → Stream) → Started
  pipelined i bytes1 bytes2 reply to_server to =
      (i, writes to_server bytes1 forwarded_to_server)
      ∷ (i, reads (to i) client_read)
      ∷ (i, writes to_server bytes2 forwarded_to_server)
      ∷ (i, writes (to i) reply forwarded_to_client)
      ∷ []

  pipelines :
      (i : ℕ) (bytes1 sql1 bytes2 sql2 reply : Bytes) (to_server : Stream) (to : ℕ → Stream)
      (p : Proxy lib) (h : Pipelining i bytes1 sql1 bytes2 sql2 to_server to p)
      → (after : Proxy lib) × (run b (pipeline i bytes1 bytes2 reply) p
          ≡ ok (after, pipelined i bytes1 bytes2 reply to_server to))
        × (after.cache ≡ (leads-Overtaken b sql1 sql2 reply i i p.cache h.apart).told)
        × AllAlike p after
  unfolding run
  pipelines i bytes1 sql1 bytes2 sql2 reply to_server to p h =
      let o = leads-Overtaken b sql1 sql2 reply i i p.cache h.apart in
      let first =
        leads b i bytes1 sql1 to_server p o.led1 h.message1 h.server_reads h.server o.leads1 in
      let p1 = first.moves.after in
      let at1 = first.moves.alike i in
      let again =
        reads_on i (to i) p1 (at1.is_destroying ∙ h.ready.0) (at1.to_client ∙ h.ready.1) in
      let p2 = again.after in
      let alike2 : AllAlike p p2 =
        λ j. Alike-trans (p.sessions j) (p1.sessions j) _ (first.moves.alike j) (again.alike j) in
      let second =
        leads b i bytes2 sql2 to_server p2 o.led2 h.message2
          ((alike2 i).server_closed ∙ h.server_reads) ((alike2 i).to_server ∙ h.server)
          (ap (do_single_flight b sql2 i) (again.cached ∙ first.moves.cached) ∙ o.leads2) in
      let p3 = second.moves.after in
      let alike3 : AllAlike p p3 =
        λ j. Alike-trans (p.sessions j) (p2.sessions j) _ (alike2 j) (second.moves.alike j) in
      let ready3 = Ready-Alike to p p3 (i ∷ []) alike3 h.ready in
      let last =
        answers b i reply sql2 to [] p3 o.told second.query h.not_empty
          ((alike3 i).client_closed ∙ h.client_reads) ready3
          (ap (notify_flight_result b sql2 reply) second.moves.cached ∙ o.tells) in
      (
        last.0,
        rw
            (
              complete_client b bytes1 i p h.ready.0,
              first.moves.returns,
              again.returns,
              complete_client b bytes2 i p2 ((alike2 i).is_destroying ∙ h.ready.0),
              second.moves.returns,
              complete_server b reply i p3 ready3.0,
              last.1,
            )
            refl,
        last.2,
        λ j. Alike-trans (p.sessions j) (p3.sessions j) _ (alike3 j) (last.3 j),
      )

  -- With a sound cache whose first level is enabled, and sessions that run and whose clients can be
  -- written to, the client of session `i` sends one query and, when that has been sent on, another
  -- with a text, with different keys, both in neither level and not in flight; then the first
  -- answer comes from the server. It goes to the client, and is taken for the result of the second
  -- query: a running session `k` whose client asks for the second query is sent the answer to the
  -- first. The first query is still in flight: of the running sessions `js` whoever asks for it
  -- waits, and nothing is written for it.
  pub query-Pipelined :
      (i k : ℕ) (js : List ℕ) (bytes1 sql1 bytes2 sql2 reply : Bytes) (to_server : Stream)
      (to : ℕ → Stream) (p : Proxy lib)
      → Pipelining i bytes1 sql1 bytes2 sql2 to_server to p
      → Ready to p (k ∷ [])
      → Ready to p js
      → (after served later : Proxy lib) × (run b (pipeline i bytes1 bytes2 reply) p
          ≡ ok (after, pipelined i bytes1 bytes2 reply to_server to))
        × (complete b (client_sends bytes2 k) after
            ≡ ok (served, (k, writes (to k) reply response_sent) ∷ []))
        × (waiting after.cache.singleflight (hash_query md5 sql1) ≡ some [])
        × (run b (map (client_sends bytes1) js) after ≡ ok (later, []))
  query-Pipelined i k js bytes1 sql1 bytes2 sql2 reply to_server to p h ready_k ready_js =
      let o = leads-Overtaken b sql1 sql2 reply i i p.cache h.apart in
      let (after, ran, cached, alike) =
        pipelines i bytes1 sql1 bytes2 sql2 reply to_server to p h in
      let waits =
        clients_wait b bytes1 sql1 to js after _ h.message1
          (Ready-Alike to p after js alike ready_js)
          (ap (ask_all b sql1 js) cached
            ∙ (ask_all-waits b sql1 js [] o.told o.sound o.absent1 o.missing1 o.flying1).1) in
      let served =
        query-Served b k bytes2 sql2 reply to after (subst IsSound (sym cached) o.sound)
          (ap (λ q. (spec_exec (gets (hash_query md5 sql2)) (view q.l1)).1) cached ∙ o.cached2)
          h.message2 (Ready-Alike to p after (k ∷ []) alike ready_k) in
      (
        after,
        served.0,
        waits.moves.after,
        ran,
        served.1,
        ap (λ q. waiting q.singleflight (hash_query md5 sql1)) cached ∙ o.flying1,
        waits.moves.returns,
      )
