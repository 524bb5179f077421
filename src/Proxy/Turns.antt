-- ===== src/Proxy/Turns.antt =====
-- One event in the proxy of src/Session/Session.cpp: a session that leads, and sessions that wait.
use single_flight_proxy_serv.Prelude.{
  ℕ, ◌≡◌, refl, sym, ap, subst, ◌∙◌, false, some, List, [], ◌∷◌, map, Bytes, length, drop, if_false,
}
use single_flight_proxy_serv.Prelude.Outcome.{Outcome, ok, >>=-ok, ok-injective}
use single_flight_proxy_serv.QueryCache.Dedup.{ask_all}
use single_flight_proxy_serv.QueryCache.{
  QueryCache, Build, Flown, is_leader, is_waiter, do_single_flight,
}
use single_flight_proxy_serv.Session.{
  Stream, writes, Act, success, fill, client_read, server_read, forwarded_to_server,
}
use single_flight_proxy_serv.Session.Message.{take-append}
use single_flight_proxy_serv.Session.Bridge.{client_stream, server_stream, forward_to_server}
use single_flight_proxy_serv.Session.Startup.{created}
use single_flight_proxy_serv.Proxy.{
  Proxy, Event, Started, call_back, set_session, after_flight, on_client_read, on_server_read,
  handle, complete, run,
}
use single_flight_proxy_serv.Proxy.Alike.{
  Alike, Alike-refl, Alike-trans, update_self, update-Alike, update_same,
}
use single_flight_proxy_serv.Proxy.Relay.{
  IsQuery, AllAlike, Ready, Ready-Alike, with_client_bytes-AllAlike, acts_writes,
  forward_to_server-writes, on_client_read-asks,
}

-- The client of session `j` has sent these bytes; the server of session `i` has.
abbrev pub client_sends : Bytes → ℕ → Event
client_sends bytes j = record {
  i = j;
  handler = client_read;
  ec = success;
  bytes = bytes;
  creation = created;
}

abbrev pub server_sends : Bytes → ℕ → Event
server_sends bytes i = record {
  i = i;
  handler = server_read;
  ec = success;
  bytes = bytes;
  creation = created;
}

module _ (b : Build) where
  open b use {lib, md5}

  -- What one event does, where the cache after it is given.
  pub record Moves (p : Proxy lib) (cache : QueryCache lib ℕ) (xs : Started)
      (r : Outcome (Proxy lib × Started)) : Type 0 where
    pub after : Proxy lib
    pub returns : r ≡ ok (after, xs)
    pub alike : AllAlike p after
    pub cached : after.cache ≡ cache

  -- A session that leads sends its client's message on.
  pub record Leads (i : ℕ) (sql : Bytes) (p : Proxy lib) (cache : QueryCache lib ℕ) (xs : Started)
      (r : Outcome (Proxy lib × Started)) : Type 0 where
    pub moves : Moves p cache xs r
    pub query : (moves.after.sessions i).current_query ≡ sql

  pub leads :
      (i : ℕ) (bytes sql : Bytes) (to : Stream) (p : Proxy lib) (cache : QueryCache lib ℕ)
      → IsQuery bytes sql
      → (p.sessions i).server_closed ≡ false
      → server_stream (p.sessions i) ≡ some to
      → do_single_flight b sql i p.cache ≡ ok (cache, record { result = is_leader; calls = [] })
      → Leads i sql p cache
          ((i, writes to bytes forwarded_to_server) ∷ [])
          (on_client_read b i success bytes p)
  unfolding after_flight call_back server_stream client_stream
  leads i bytes sql to p cache q running stream e =
      let s = record (p.sessions i) { client_buffer = fill bytes (p.sessions i).client_buffer } in
      let p1 : Proxy lib = record (set_session i s p) { cache = cache } in
      let s1 = record s { current_query = sql } in
      let act : Act = λ t. forward_to_server (length bytes) (record t { current_query = sql }) in
      let forwarded : act s ≡ (s1, writes to bytes forwarded_to_server ∷ []) =
        forward_to_server-writes (length bytes) to s1 running stream
        ∙ ap (λ x. (s1, writes to x forwarded_to_server ∷ []))
            (take-append bytes (drop (length bytes) (p.sessions i).client_buffer)) in
      let written =
        acts_writes i act p1 s1 (writes to bytes forwarded_to_server)
          (ap act (update_self p.sessions i s) ∙ forwarded) in
      record {
        moves = record {
          after = set_session i s1 p1;
          returns = on_client_read-asks b i bytes sql p cache _ q e ∙ ap ok written;
          alike = λ j.
              Alike-trans (p.sessions j) (p1.sessions j) _
                (with_client_bytes-AllAlike i s.client_buffer p j)
                (update-Alike p1.sessions i s1
                  (subst (λ t. Alike t s1) (sym (update_self p.sessions i s))
                    (record {
                      to_client = refl;
                      to_server = refl;
                      is_destroying = refl;
                      client_closed = refl;
                      server_closed = refl;
                    }))
                  j);
          cached = refl;
        };
        query = ap (λ x. x.current_query) (update_self p1.sessions i s1);
      }

  -- Sessions that wait send nothing, and the leader keeps its query.
  pub record Waits (p : Proxy lib) (cache : QueryCache lib ℕ) (r : Outcome (Proxy lib × Started))
      : Type 0 where
    pub moves : Moves p cache [] r
    pub queries : (k : ℕ) → (moves.after.sessions k).current_query ≡ (p.sessions k).current_query

  waits :
      (j : ℕ) (bytes sql : Bytes) (p : Proxy lib) (cache : QueryCache lib ℕ)
      → IsQuery bytes sql
      → do_single_flight b sql j p.cache ≡ ok (cache, record { result = is_waiter; calls = [] })
      → Waits p cache (on_client_read b j success bytes p)
  unfolding after_flight call_back
  waits j bytes sql p cache q e =
      let s = record (p.sessions j) { client_buffer = fill bytes (p.sessions j).client_buffer } in
      record {
        moves = record {
          after = record (set_session j s p) { cache = cache };
          returns = on_client_read-asks b j bytes sql p cache _ q e;
          alike = with_client_bytes-AllAlike j s.client_buffer p;
          cached = refl;
        };
        queries = update_same (λ t. t.current_query) p.sessions j s refl;
      }

  pub complete_client :
      (bytes : Bytes) (j : ℕ) (p : Proxy lib)
      → (p.sessions j).is_destroying ≡ false
      → complete b (client_sends bytes j) p ≡ on_client_read b j success bytes p
  unfolding complete handle
  complete_client bytes j p running = if_false (p.sessions j).is_destroying (ok (p, [])) _ running

  pub complete_server :
      (bytes : Bytes) (i : ℕ) (p : Proxy lib)
      → (p.sessions i).is_destroying ≡ false
      → complete b (server_sends bytes i) p ≡ on_server_read b i success bytes p
  unfolding complete handle
  complete_server bytes i p running = if_false (p.sessions i).is_destroying (ok (p, [])) _ running

  -- A sequence of askers that has been answered, seen as its first and the others.
  ask_all-cons :
      (sql : Bytes) (j : ℕ) (js : List ℕ) (q q' : QueryCache lib ℕ) (f : Flown ℕ)
      (fs : List (Flown ℕ))
      → ask_all b sql (j ∷ js) q ≡ ok (q', f ∷ fs)
      → (q1 : QueryCache lib ℕ) × (do_single_flight b sql j q ≡ ok (q1, f))
        × (ask_all b sql js q1 ≡ ok (q', fs))
  unfolding ask_all
  ask_all-cons sql j js q q' f fs e =
      let (x, h, k) = >>=-ok (do_single_flight b sql j q) _ e in
      let (y, g, l) = >>=-ok (ask_all b sql js x.0) _ k in
      (x.0, h ∙ ap (λ r. ok (x.0, r)) (cc l), g ∙ ap ok (cc l))

  pub clients_wait :
      (bytes sql : Bytes) (to : ℕ → Stream) (js : List ℕ) (p : Proxy lib) (cache : QueryCache lib ℕ)
      → IsQuery bytes sql
      → Ready to p js
      → ask_all b sql js p.cache
        ≡ ok (cache, map (λ _. record { result = is_waiter; calls = [] }) js)
      → Waits p cache (run b (map (client_sends bytes) js) p)
  unfolding run ask_all
  clients_wait bytes sql to [] p cache q ready e = record {
    moves = record {
      after = p;
      returns = refl;
      alike = λ j. Alike-refl (p.sessions j);
      cached = ap (λ x. x.0) (ok-injective e);
    };
    queries = λ k. refl;
  }
  clients_wait bytes sql to (j ∷ js) p cache q ready e =
      let (c1, asked, rest) = ask_all-cons sql j js p.cache cache _ _ e in
      let now = waits j bytes sql p c1 q asked in
      let p1 = now.moves.after in
      let later =
        clients_wait bytes sql to js p1 cache q (Ready-Alike to p p1 js now.moves.alike ready.2)
          (ap (ask_all b sql js) now.moves.cached ∙ rest) in
      record {
        moves = record {
          after = later.moves.after;
          returns =
              rw (complete_client bytes j p ready.0, now.moves.returns, later.moves.returns) refl;
          alike = λ k.
              Alike-trans (p.sessions k) (p1.sessions k) _ (now.moves.alike k)
                (later.moves.alike k);
          cached = later.moves.cached;
        };
        queries = λ k. later.queries k ∙ now.queries k;
      }
