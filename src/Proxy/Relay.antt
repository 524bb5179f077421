-- ===== src/Proxy/Relay.antt =====
-- What src/Session/Session.cpp does with a query, by what the cache answers, and with the response.
use single_flight_proxy_serv.Prelude.{
  ℕ, ◌≡◌, refl, ap, ◌∙◌, true, false, some, List, [], ◌∷◌, ◌++◌, map, Bytes, length, take, drop,
  if_false,
}
use single_flight_proxy_serv.Prelude.Outcome.{ok}
use single_flight_proxy_serv.SingleFlight.{call_all}
use single_flight_proxy_serv.QueryCache.L2.{Hiredis, is_empty}
use single_flight_proxy_serv.QueryCache.{
  QueryCache, Build, Flown, do_single_flight, notify_flight_result,
}
use single_flight_proxy_serv.Session.{
  Session, Stream, Effect, writes, Act, success, fill, response_sent, forwarded_to_server,
  forwarded_to_client,
}
use single_flight_proxy_serv.Session.Message.{is_sql_query, extract_sql_query, take-append}
use single_flight_proxy_serv.Session.Bridge.{
  client_stream, server_stream, or_close, on_result, send_result, forward_to_client,
  forward_to_server,
}
use single_flight_proxy_serv.Proxy.Alike.{
  Alike, Alike-refl, Alike-trans, update_self, update-Alike, update_same,
}
use single_flight_proxy_serv.Proxy.{
  Proxy, Started, acts, call_back, set_session, after_flight, on_query, on_client_bytes,
  on_client_read, on_response, on_server_bytes, on_server_read,
}

-- The bytes are a query message with this text, whatever stands behind them in the buffer.
abbrev pub IsQuery : Bytes → Bytes → Type 0
IsQuery bytes sql =
    (old : Bytes)
    → (is_sql_query (bytes ++ old) (length bytes) ≡ true)
      × (extract_sql_query (bytes ++ old) (length bytes) ≡ sql)

send_result-writes :
    (result : Bytes) (stream : Stream) (s : Session)
    → client_stream s ≡ some stream
    → send_result result s ≡ (s, writes stream result response_sent ∷ [])
unfolding send_result
send_result-writes result stream s e = rw (e, send_result) refl

-- A session that has received a result, and sends it.
on_result-Sends :
    (result : Bytes) (stream : Stream) (s : Session)
    → s.is_destroying ≡ false
    → client_stream s ≡ some stream
    → on_result result s
      ≡ (record s { cached_response = result }, writes stream result response_sent ∷ [])
unfolding on_result client_stream
on_result-Sends result stream s running e =
    if_false s.is_destroying (s, []) _ running
    ∙ send_result-writes result stream (record s { cached_response = result }) e

abbrev pub responses : (ℕ → Stream) → Bytes → List ℕ → Started
responses to result js = map (λ j. (j, writes (to j) result response_sent)) js

module _ {lib : Hiredis} where
  abbrev pub AllAlike : Proxy lib → Proxy lib → Type 0
  AllAlike p q = (j : ℕ) → Alike (p.sessions j) (q.sessions j)

  -- The sessions run, and can be written to.
  abbrev pub Ready : (ℕ → Stream) → Proxy lib → List ℕ → Type 0
  Ready to p [] = Unit {0}
  Ready to p (j ∷ js) =
      ((p.sessions j).is_destroying ≡ false)
      × (client_stream (p.sessions j) ≡ some (to j))
      × Ready to p js

  pub Ready-Alike :
      (to : ℕ → Stream) (p q : Proxy lib) (js : List ℕ)
      → AllAlike p q
      → Ready to p js
      → Ready to q js
  Ready-Alike to p q [] h ready = tt
  Ready-Alike to p q (j ∷ js) h ready =
      ((h j).is_destroying ∙ ready.0, (h j).to_client ∙ ready.1, Ready-Alike to p q js h ready.2)

  -- Every session that is called back sends the result to its client, in order.
  pub record Sends (p : Proxy lib) (xs : Started) (r : Proxy lib × Started) : Type 0 where
    pub started : r.1 ≡ xs
    pub alike : AllAlike p r.0
    pub cache : r.0.cache ≡ p.cache
    pub buffers : (j : ℕ) → (r.0.sessions j).server_buffer ≡ (p.sessions j).server_buffer

  acts_result :
      (to : ℕ → Stream) (result : Bytes) (j : ℕ) (p : Proxy lib)
      → (p.sessions j).is_destroying ≡ false
      → client_stream (p.sessions j) ≡ some (to j)
      → Sends p ((j, writes (to j) result response_sent) ∷ []) (acts j (on_result result) p)
  unfolding acts client_stream server_stream
  acts_result to result j p running e =
      rw (on_result-Sends result (to j) (p.sessions j) running e) (record {
        started = refl;
        alike =
            update-Alike p.sessions j (record (p.sessions j) { cached_response = result })
              (record {
                to_client = refl;
                to_server = refl;
                is_destroying = refl;
                client_closed = refl;
                server_closed = refl;
              });
        cache = refl;
        buffers =
            update_same (λ s. s.server_buffer) p.sessions j
              (record (p.sessions j) { cached_response = result }) refl;
      })

  pub call_back-Sends :
      (to : ℕ → Stream) (result : Bytes) (js : List ℕ) (p : Proxy lib)
      → Ready to p js
      → Sends p (responses to result js) (call_back (call_all js result) p)
  unfolding call_back
  call_back-Sends to result [] p ready = record {
    started = refl;
    alike = λ j. Alike-refl (p.sessions j);
    cache = refl;
    buffers = λ j. refl;
  }
  call_back-Sends to result (j ∷ js) p ready =
      let first = acts_result to result j p ready.0 ready.1 in
      let p1 = (acts j (on_result result) p).0 in
      let rest = call_back-Sends to result js p1 (Ready-Alike to p p1 js first.alike ready.2) in
      record {
        started =
            ap (λ xs. xs ++ (call_back (call_all js result) p1).1) first.started
            ∙ ap (◌∷◌ (j, writes (to j) result response_sent)) rest.started;
        alike = λ k. Alike-trans (p.sessions k) (p1.sessions k) _ (first.alike k) (rest.alike k);
        cache = rest.cache ∙ first.cache;
        buffers = λ k. rest.buffers k ∙ first.buffers k;
      }

  -- A read fills the front of the session's own buffer.
  pub with_client_bytes-AllAlike :
      (j : ℕ) (bytes : Bytes) (p : Proxy lib)
      → AllAlike p (set_session j (record (p.sessions j) { client_buffer = bytes }) p)
  unfolding client_stream server_stream
  with_client_bytes-AllAlike j bytes p =
      update-Alike p.sessions j (record (p.sessions j) { client_buffer = bytes })
        (record {
          to_client = refl;
          to_server = refl;
          is_destroying = refl;
          client_closed = refl;
          server_closed = refl;
        })

  pub with_server_bytes-AllAlike :
      (j : ℕ) (bytes : Bytes) (p : Proxy lib)
      → AllAlike p (set_session j (record (p.sessions j) { server_buffer = bytes }) p)
  unfolding client_stream server_stream
  with_server_bytes-AllAlike j bytes p =
      update-Alike p.sessions j (record (p.sessions j) { server_buffer = bytes })
        (record {
          to_client = refl;
          to_server = refl;
          is_destroying = refl;
          client_closed = refl;
          server_closed = refl;
        })

  pub acts_writes :
      (i : ℕ) (act : Act) (p : Proxy lib) (s : Session) (e : Effect)
      → act (p.sessions i) ≡ (s, e ∷ [])
      → acts i act p ≡ (set_session i s p, (i, e) ∷ [])
  unfolding acts
  acts_writes i act p s e h = rw h refl

-- The bytes that the client has sent go to the server.
pub forward_to_server-writes :
    (n : ℕ) (stream : Stream) (s : Session)
    → s.server_closed ≡ false
    → server_stream s ≡ some stream
    → forward_to_server n s ≡ (s, writes stream (take n s.client_buffer) forwarded_to_server ∷ [])
unfolding forward_to_server or_close
forward_to_server-writes n stream s running e =
    if_false s.server_closed (s, []) _ running ∙ rw e refl

pub forward_to_client-writes :
    (n : ℕ) (stream : Stream) (s : Session)
    → s.client_closed ≡ false
    → client_stream s ≡ some stream
    → forward_to_client n s ≡ (s, writes stream (take n s.server_buffer) forwarded_to_client ∷ [])
unfolding forward_to_client or_close
forward_to_client-writes n stream s running e =
    if_false s.client_closed (s, []) _ running ∙ rw e refl

module _ (b : Build) where
  open b use {lib}

  -- A read of a query message asks the cache for its text.
  pub on_client_read-asks :
      (j : ℕ) (bytes sql : Bytes) (p : Proxy lib) (cache : QueryCache lib ℕ) (flown : Flown ℕ)
      → IsQuery bytes sql
      → do_single_flight b sql j p.cache ≡ ok (cache, flown)
      → let s = record (p.sessions j) { client_buffer = fill bytes (p.sessions j).client_buffer } in
        on_client_read b j success bytes p
        ≡ ok (
            after_flight j sql
              (length bytes)
              flown.result
              (call_back flown.calls (record (set_session j s p) { cache = cache })))
  unfolding on_client_read on_client_bytes on_query
  on_client_read-asks j bytes sql p cache flown q e =
      let s = record (p.sessions j) { client_buffer = fill bytes (p.sessions j).client_buffer } in
      let same = ap (λ x. x.client_buffer) (update_self p.sessions j s) in
      let (query, text) = q (drop (length bytes) (p.sessions j).client_buffer) in
      rw (same, query, text, e) refl

  -- A read from the server, for a session that leads, reports the bytes as the query's result.
  pub on_server_read-notifies :
      (i : ℕ) (reply sql : Bytes) (p : Proxy lib) (cache : QueryCache lib ℕ)
      (calls : List (ℕ × Bytes))
      → (p.sessions i).current_query ≡ sql
      → is_empty sql ≡ false
      → notify_flight_result b sql reply p.cache ≡ ok (cache, calls)
      → let s = record (p.sessions i) { server_buffer = fill reply (p.sessions i).server_buffer } in
        let called = call_back calls (record (set_session i s p) { cache = cache }) in
        let sent =
          acts i
            (λ t. forward_to_client (length reply) (record t { current_query = [] }))
            called.0 in
        on_server_read b i success reply p ≡ ok (sent.0, called.1 ++ sent.1)
  unfolding on_server_read on_server_bytes on_response
  on_server_read-notifies i reply sql p cache calls current filled e =
      let s = record (p.sessions i) { server_buffer = fill reply (p.sessions i).server_buffer } in
      let same = update_self p.sessions i s in
      rw
        (
          ap (λ x. x.current_query) same ∙ current,
          filled,
          ap (λ x. x.server_buffer) same,
          take-append reply (drop (length reply) (p.sessions i).server_buffer),
          e,
        )
        refl
