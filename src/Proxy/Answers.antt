-- ===== src/Proxy/Answers.antt =====
-- The answer to a query and a hit in the proxy of src/Session/Session.cpp, as one event each.
use single_flight_proxy_serv.Prelude.{
  ℕ, ◌≡◌, refl, ap, ◌∙◌, false, List, [], ◌∷◌, ◌++◌, Bytes, length, take, drop,
}
use single_flight_proxy_serv.Prelude.Outcome.{ok}
use single_flight_proxy_serv.SingleFlight.{call_all}
use single_flight_proxy_serv.QueryCache.L2.{is_empty}
use single_flight_proxy_serv.QueryCache.{QueryCache, Build, do_single_flight, notify_flight_result}
use single_flight_proxy_serv.Session.{Stream, writes, Act, success, fill, forwarded_to_client}
use single_flight_proxy_serv.Session.Message.{take-append}
use single_flight_proxy_serv.Session.Bridge.{client_stream, server_stream, forward_to_client}
use single_flight_proxy_serv.Proxy.{
  response_sent, cache_hit, Proxy, call_back, set_session, after_flight, on_client_read,
  on_server_read,
}
use single_flight_proxy_serv.Proxy.Alike.{Alike-trans, update_self, update-Alike}
use single_flight_proxy_serv.Proxy.Relay.{
  IsQuery, AllAlike, Ready, Ready-Alike, responses, with_client_bytes-AllAlike,
  with_server_bytes-AllAlike, on_server_read-notifies, acts_writes, forward_to_client-writes,
  on_client_read-asks, call_back-Sends,
}

module _ (b : Build) where
  open b use {lib, md5}

  -- The response goes to the clients that wait, in order, and then to the leader's own.
  pub answers :
      (i : ℕ) (reply sql : Bytes) (to : ℕ → Stream) (js : List ℕ) (p : Proxy lib)
      (cache : QueryCache lib ℕ)
      → (p.sessions i).current_query ≡ sql
      → is_empty sql ≡ false
      → (p.sessions i).client_closed ≡ false
      → Ready to p (i ∷ js)
      → notify_flight_result b sql reply p.cache ≡ ok (cache, call_all js reply)
      → (after : Proxy lib) × (on_server_read b i success reply p
          ≡ ok (after, responses to reply js ++ (i, writes (to i) reply forwarded_to_client) ∷ []))
        × (after.cache ≡ cache)
        × AllAlike p after
        × ((after.sessions i).current_query ≡ [])
  unfolding client_stream server_stream
  answers i reply sql to js p cache current filled reads ready e =
      let s = record (p.sessions i) { server_buffer = fill reply (p.sessions i).server_buffer } in
      let p2 : Proxy lib = record (set_session i s p) { cache = cache } in
      let alike : AllAlike p p2 = with_server_bytes-AllAlike i s.server_buffer p in
      let sent = call_back-Sends to reply js p2 (Ready-Alike to p p2 js alike ready.2) in
      let called = call_back (call_all js reply) p2 in
      let last = Alike-trans (p.sessions i) (p2.sessions i) _ (alike i) (sent.alike i) in
      let s3 = record (called.0.sessions i) { current_query = [] } in
      let act : Act = λ t. forward_to_client (length reply) (record t { current_query = [] }) in
      let buffer = sent.buffers i ∙ ap (λ x. x.server_buffer) (update_self p.sessions i s) in
      let forwarded : act (called.0.sessions i)
          ≡ (s3, writes (to i) reply forwarded_to_client ∷ []) =
        forward_to_client-writes (length reply) (to i) s3 (last.client_closed ∙ reads)
          (last.to_client ∙ ready.1)
        ∙ ap (λ x. (s3, writes (to i) (take (length reply) x) forwarded_to_client ∷ [])) buffer
        ∙ ap (λ x. (s3, writes (to i) x forwarded_to_client ∷ []))
            (take-append reply (drop (length reply) (p.sessions i).server_buffer)) in
      (
        set_session i s3 called.0,
        on_server_read-notifies b i reply sql p cache (call_all js reply) current filled e
            ∙ (ap (λ r. ok (r.0, called.1 ++ r.1))
                  (acts_writes i act called.0 s3 (writes (to i) reply forwarded_to_client)
                    forwarded)
                ∙ ap
                    (λ xs. ok (
                      set_session i s3 called.0,
                      xs ++ (i, writes (to i) reply forwarded_to_client) ∷ [],
                    ))
                    sent.started),
        sent.cache,
        λ j.
            Alike-trans (p.sessions j) (called.0.sessions j) _
              (Alike-trans (p.sessions j) (p2.sessions j) _ (alike j) (sent.alike j))
              (update-Alike called.0.sessions i s3
                (record {
                  to_client = refl;
                  to_server = refl;
                  is_destroying = refl;
                  client_closed = refl;
                  server_closed = refl;
                })
                j),
        ap (λ t. t.current_query) (update_self called.0.sessions i s3),
      )

  -- A hit goes to the client that has asked.
  pub serves :
      (j : ℕ) (bytes sql value : Bytes) (to : ℕ → Stream) (p : Proxy lib) (cache : QueryCache lib ℕ)
      → IsQuery bytes sql
      → Ready to p (j ∷ [])
      → do_single_flight b sql j p.cache
        ≡ ok (cache, record { result = cache_hit; calls = (j, value) ∷ [] })
      → (after : Proxy lib) × (on_client_read b j success bytes p
          ≡ ok (after, (j, writes (to j) value response_sent) ∷ []))
  unfolding after_flight
  serves j bytes sql value to p cache q ready e =
      let s = record (p.sessions j) { client_buffer = fill bytes (p.sessions j).client_buffer } in
      let p1 : Proxy lib = record (set_session j s p) { cache = cache } in
      let alike : AllAlike p p1 = with_client_bytes-AllAlike j s.client_buffer p in
      let sent = call_back-Sends to value (j ∷ []) p1 (Ready-Alike to p p1 (j ∷ []) alike ready) in
      let called = call_back (call_all (j ∷ []) value) p1 in
      (
        called.0,
        on_client_read-asks b j bytes sql p cache _ q e ∙ ap (λ xs. ok (called.0, xs)) sent.started,
      )
