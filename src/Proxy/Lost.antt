-- ===== src/Proxy/Lost.antt =====
-- A session of src/Session/Session.cpp whose server goes away while a query is in flight.
use single_flight_proxy_serv.Prelude.{
  ℕ, ◌≡◌, ◌≢◌, refl, ap, ◌∙◌, false, some, List, [], ◌∷◌, map, Bytes, if_false, ℕ_discrete, if_neg,
}
use single_flight_proxy_serv.Prelude.Outcome.{ok}
use single_flight_proxy_serv.SingleFlight.Refinement.{view as waiting}
use single_flight_proxy_serv.QueryCache.L1.History.{view}
use single_flight_proxy_serv.QueryCache.L2.{Hiredis}
use single_flight_proxy_serv.QueryCache.Hash.{hash_query}
use single_flight_proxy_serv.QueryCache.Sound.{IsSound}
use single_flight_proxy_serv.QueryCache.Dedup.{IsMiss, ask_all-waits}
use single_flight_proxy_serv.QueryCache.Absent.{Absent}
use single_flight_proxy_serv.QueryCache.{Build}
use single_flight_proxy_serv.Session.{
  Stream, Act, ErrorCode, success, operation_aborted, eof, system_error, ssl_error, server_read,
}
use single_flight_proxy_serv.Session.Bridge.{client_stream, on_server_error}
use single_flight_proxy_serv.Session.Startup.{created}
use single_flight_proxy_serv.Proxy.{
  Proxy, Event, Started, acts, on_server_read, handle, complete, run,
}
use single_flight_proxy_serv.Proxy.Relay.{IsQuery, Ready}
use single_flight_proxy_serv.Proxy.Turns.{client_sends, clients_wait}

-- The read of session `i` from its server fails.
abbrev pub server_fails : ErrorCode → ℕ → Event
server_fails ec i = record { i = i; handler = server_read; ec = ec; bytes = []; creation = created }

-- Session `i` is none of these.
abbrev pub Without : ℕ → List ℕ → Type 0
Without i [] = Unit {0}
Without i (j ∷ js) = (i ≢ j) × Without i js

module _ {lib : Hiredis} where
  Ready-acts :
      (i : ℕ) (act : Act) (to : ℕ → Stream) (p : Proxy lib) (js : List ℕ)
      → Without i js
      → Ready to p js
      → Ready to (acts i act p).0 js
  unfolding acts
  Ready-acts i act to p [] h ready = tt
  Ready-acts i act to p (j ∷ js) h ready =
      let same = if_neg (ℕ_discrete i j) h.0 (act (p.sessions i)).0 (p.sessions j) in
      (
        ap (λ s. s.is_destroying) same ∙ ready.0,
        ap client_stream same ∙ ready.1,
        Ready-acts i act to p js h.1 ready.2,
      )

module _ (b : Build) where
  open b use {lib, md5}

  fails :
      (ec : ErrorCode) (i : ℕ) (p : Proxy lib)
      → ec ≢ success
      → (p.sessions i).is_destroying ≡ false
      → complete b (server_fails ec i) p ≡ ok (acts i (on_server_error ec) p)
  unfolding complete handle on_server_read
  fails success i p h running = absurd (h refl)
  fails operation_aborted i p h running = if_false _ _ _ running
  fails eof i p h running = if_false _ _ _ running
  fails system_error i p h running = if_false _ _ _ running
  fails (ssl_error msg) i p h running = if_false _ _ _ running

  -- With a sound cache, a query is in flight and in neither level. When the read of the running
  -- session `i` from its server fails, be it the leader's or not, the cache stays as it is: of the
  -- other running sessions that can be written to whoever asks for the query after that waits, and
  -- nothing is written for it, neither to its server nor to its client.
  pub flight-Lost :
      (ec : ErrorCode) (i : ℕ) (js ds : List ℕ) (bytes sql : Bytes) (to : ℕ → Stream)
      (p : Proxy lib)
      → ec ≢ success
      → (p.sessions i).is_destroying ≡ false
      → IsSound p.cache
      → Absent lib (hash_query md5 sql) p.cache.l2
      → IsMiss (hash_query md5 sql) (view p.cache.l1)
      → waiting p.cache.singleflight (hash_query md5 sql) ≡ some ds
      → IsQuery bytes sql
      → Without i js
      → Ready to p js
      → (failed after : Proxy lib) × (xs : Started) × (complete b (server_fails ec i) p
          ≡ ok (failed, xs))
        × (failed.cache ≡ p.cache)
        × (run b (map (client_sends bytes) js) failed ≡ ok (after, []))
  unfolding acts
  flight-Lost ec i js ds bytes sql to p h running sound far missing flying message apart ready =
      let failed = (acts i (on_server_error ec) p).0 in
      let (cache, asked) = ask_all-waits b sql js ds p.cache sound far missing flying in
      let w =
        clients_wait b bytes sql to js failed cache message
          (Ready-acts i (on_server_error ec) to p js apart ready) asked in
      (
        failed,
        w.moves.after,
        (acts i (on_server_error ec) p).1,
        fails ec i p h running,
        refl,
        w.moves.returns,
      )
