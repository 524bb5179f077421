-- ===== src/Proxy/Bridged.antt =====
-- One read or write that completes in a bridged session of src/Session/Session.cpp.
use single_flight_proxy_serv.Prelude.{
  ℕ, ◌≡◌, refl, sym, ap, subst, ◌∙◌, Bool, true, false, ◌||◌, some, List, [], ◌∷◌, ◌++◌, Bytes,
  length, if_false, if_true,
}
use single_flight_proxy_serv.Prelude.Outcome.{Outcome, ok}
use single_flight_proxy_serv.QueryCache.L2.{is_empty}
use single_flight_proxy_serv.QueryCache.{Build}
use single_flight_proxy_serv.Session.{
  Session, Stream, Effect, reads, writes, Handler, success, fill, client_read, server_read,
  forwarded_to_server, forwarded_to_client,
}
use single_flight_proxy_serv.Session.Message.{is_sql_query, take-append}
use single_flight_proxy_serv.Session.Bridge.{
  client_stream, server_stream, or_close, forward_to_client, forward_to_server,
  bridge_client_to_server, bridge_server_to_client, on_forwarded_to_server, on_forwarded_to_client,
}
use single_flight_proxy_serv.Session.Startup.{created}
use single_flight_proxy_serv.Proxy.{
  Proxy, Event, Started, acts, set_session, on_client_bytes, on_client_read, on_server_bytes,
  on_server_read, act_of, handle, complete,
}
use single_flight_proxy_serv.Proxy.Alike.{Alike-trans, Alike, update-Alike, Alike-refl, update_self}
use single_flight_proxy_serv.Proxy.Relay.{
  AllAlike, acts_writes, forward_to_server-writes, forward_to_client-writes,
}
use single_flight_proxy_serv.Proxy.Turns.{
  client_sends, server_sends, complete_client, complete_server,
}

-- Bytes that are not taken for a query, whatever stands behind them in the buffer.
abbrev pub IsOther : Bytes → Type 0
IsOther bytes = (old : Bytes) → is_sql_query (bytes ++ old) (length bytes) ≡ false

-- What completes in a bridged session: a read of these bytes from the client or from the server, or the
-- write of the client's bytes to the server, or of the server's to the client.
pub data Turn : Type 0 where
  by_client by_server : Bytes → Turn
  to_server_written to_client_written : Turn

abbrev pub AllOther : List Turn → Type 0
AllOther [] = Unit {0}
AllOther (by_client bytes ∷ turns) = IsOther bytes × AllOther turns
AllOther (by_server bytes ∷ turns) = AllOther turns
AllOther (to_server_written ∷ turns) = AllOther turns
AllOther (to_client_written ∷ turns) = AllOther turns

-- A write of session `i` succeeds.
abbrev written : Handler → ℕ → Event
written h i = record { i = i; handler = h; ec = success; bytes = []; creation = created }

abbrev pub event : ℕ → Turn → Event
event i (by_client bytes) = client_sends bytes i
event i (by_server bytes) = server_sends bytes i
event i to_server_written = written forwarded_to_server i
event i to_client_written = written forwarded_to_client i

-- What each of them starts: the same bytes go to the other side, or the side whose bytes have been
-- written is read again.
abbrev pub started_by : Stream → Stream → Turn → Effect
started_by near far (by_client bytes) = writes far bytes forwarded_to_server
started_by near far (by_server bytes) = writes near bytes forwarded_to_client
started_by near far to_server_written = reads near client_read
started_by near far to_client_written = reads far server_read

-- The session is bridged, on these streams, and leads no flight.
pub record Bridged (near far : Stream) (s : Session) : Type 0 where
  pub running : s.is_destroying ≡ false
  pub client_is_open : s.client_closed ≡ false
  pub server_is_open : s.server_closed ≡ false
  pub client : client_stream s ≡ some near
  pub server : server_stream s ≡ some far
  pub leads_none : s.current_query ≡ []

both_false : {x y : Bool} → x ≡ false → y ≡ false → (x || y) ≡ false
both_false h k = rw (h, k) refl

module _ (b : Build) (i : ℕ) (near far : Stream) where
  open b use {lib}

  -- One event: the session's new state, and the one operation that it starts.
  pub record Turns (p : Proxy lib) (x : Effect) (r : Outcome (Proxy lib × Started)) : Type 0 where
    pub after : Proxy lib
    pub returns : r ≡ ok (after, (i, x) ∷ [])
    pub cache : after.cache ≡ p.cache
    pub bridged : Bridged near far (after.sessions i)
    pub alike : AllAlike p after

  -- A session that is set twice, to a state with the same streams and flags.
  set_twice :
      (t : Session) (p : Proxy lib)
      → Alike (p.sessions i) t
      → AllAlike p (set_session i t (set_session i t p))
  set_twice t p same j =
      let p1 : Proxy lib = set_session i t p in
      Alike-trans (p.sessions j) (p1.sessions j) _ (update-Alike p.sessions i t same j) (
        update-Alike p1.sessions i t
          (subst (λ u. Alike u t) (sym (update_self p.sessions i t)) (Alike-refl t)) j)

  client_says :
      (bytes : Bytes) (p : Proxy lib)
      → IsOther bytes
      → Bridged near far (p.sessions i)
      → Turns p (writes far bytes forwarded_to_server) (complete b (client_sends bytes i) p)
  unfolding on_client_read on_client_bytes client_stream server_stream
  client_says bytes p other s =
      let n = length bytes in
      let t = record (p.sessions i) { client_buffer = fill bytes (p.sessions i).client_buffer } in
      let p1 = set_session i t p in
      let at_i = update_self p.sessions i t in
      let not_query : is_sql_query (p1.sessions i).client_buffer n ≡ false =
        ap (λ u. is_sql_query u.client_buffer n) at_i ∙ other _ in
      let forwarded : forward_to_server n (p1.sessions i)
          ≡ (t, writes far bytes forwarded_to_server ∷ []) =
        ap (forward_to_server n) at_i
        ∙ forward_to_server-writes n far t s.server_is_open s.server
        ∙ ap (λ x. (t, writes far x forwarded_to_server ∷ [])) (take-append bytes _) in
      record {
        after = set_session i t p1;
        returns =
            complete_client b bytes i p s.running
            ∙ if_false _ _ _ not_query
            ∙ ap ok (acts_writes i (forward_to_server n) p1 t _ forwarded);
        cache = refl;
        bridged = subst (Bridged near far) (sym (update_self p1.sessions i t)) (record {
          running = s.running;
          client_is_open = s.client_is_open;
          server_is_open = s.server_is_open;
          client = s.client;
          server = s.server;
          leads_none = s.leads_none;
        });
        alike = set_twice t p (record {
          to_client = refl;
          to_server = refl;
          is_destroying = refl;
          client_closed = refl;
          server_closed = refl;
        });
      }

  server_says :
      (bytes : Bytes) (p : Proxy lib)
      → Bridged near far (p.sessions i)
      → Turns p (writes near bytes forwarded_to_client) (complete b (server_sends bytes i) p)
  unfolding on_server_read on_server_bytes client_stream server_stream
  server_says bytes p s =
      let n = length bytes in
      let t = record (p.sessions i) { server_buffer = fill bytes (p.sessions i).server_buffer } in
      let p1 = set_session i t p in
      let at_i = update_self p.sessions i t in
      let no_query : is_empty (p1.sessions i).current_query ≡ true =
        ap (λ u. is_empty u.current_query) at_i ∙ ap is_empty s.leads_none in
      let forwarded : forward_to_client n (p1.sessions i)
          ≡ (t, writes near bytes forwarded_to_client ∷ []) =
        ap (forward_to_client n) at_i
        ∙ forward_to_client-writes n near t s.client_is_open s.client
        ∙ ap (λ x. (t, writes near x forwarded_to_client ∷ [])) (take-append bytes _) in
      record {
        after = set_session i t p1;
        returns =
            complete_server b bytes i p s.running
            ∙ if_true _ _ _ no_query
            ∙ ap ok (acts_writes i (forward_to_client n) p1 t _ forwarded);
        cache = refl;
        bridged = subst (Bridged near far) (sym (update_self p1.sessions i t)) (record {
          running = s.running;
          client_is_open = s.client_is_open;
          server_is_open = s.server_is_open;
          client = s.client;
          server = s.server;
          leads_none = s.leads_none;
        });
        alike = set_twice t p (record {
          to_client = refl;
          to_server = refl;
          is_destroying = refl;
          client_closed = refl;
          server_closed = refl;
        });
      }

  -- A handler that only starts the next read.
  read_again :
      (h : Handler) (x : Effect) (p : Proxy lib)
      → complete b (written h i) p ≡ ok (acts i (act_of (written h i)) p)
      → act_of (written h i) (p.sessions i) ≡ (p.sessions i, x ∷ [])
      → Bridged near far (p.sessions i)
      → Turns p x (complete b (written h i) p)
  read_again h x p runs reads_next s = record {
    after = set_session i (p.sessions i) p;
    returns = runs ∙ ap ok (acts_writes i (act_of (written h i)) p (p.sessions i) x reads_next);
    cache = refl;
    bridged = subst (Bridged near far) (sym (update_self p.sessions i (p.sessions i))) s;
    alike = update-Alike p.sessions i (p.sessions i) (Alike-refl (p.sessions i));
  }

  client_read_again :
      (p : Proxy lib)
      → Bridged near far (p.sessions i)
      → Turns p (reads near client_read) (complete b (written forwarded_to_server i) p)
  unfolding complete handle act_of on_forwarded_to_server bridge_client_to_server or_close
  client_read_again p s =
      read_again forwarded_to_server _ p (if_false _ _ _ s.running)
        (if_false _ _ _ s.running ∙ rw s.client refl) s

  server_read_again :
      (p : Proxy lib)
      → Bridged near far (p.sessions i)
      → Turns p (reads far server_read) (complete b (written forwarded_to_client i) p)
  unfolding complete handle act_of on_forwarded_to_client bridge_server_to_client or_close
  server_read_again p s =
      read_again forwarded_to_client _ p (if_false _ _ _ s.running)
        (if_false _ _ _ (both_false s.running s.server_is_open) ∙ rw s.server refl) s

  pub turn_taken :
      (t : Turn) (ts : List Turn) (p : Proxy lib)
      → AllOther (t ∷ ts)
      → Bridged near far (p.sessions i)
      → Turns p (started_by near far t) (complete b (event i t) p) × AllOther ts
  turn_taken (by_client bytes) ts p other s = (client_says bytes p other.0 s, other.1)
  turn_taken (by_server bytes) ts p other s = (server_says bytes p s, other)
  turn_taken to_server_written ts p other s = (client_read_again p s, other)
  turn_taken to_client_written ts p other s = (server_read_again p s, other)
