-- ===== src/Proxy/Closed.antt =====
-- Any completions in the proxy of src/Session/Session.cpp, and sessions that are closing.
use single_flight_proxy_serv.Prelude.{
  ℕ, ◌≡◌, ◌≢◌, refl, sym, ap, subst, ◌∙◌, true, List, [], ◌∷◌, ◌++◌, Bytes, length, take,
  ℕ_discrete, if_neg, inl, inr, Bool-cases,
}
use single_flight_proxy_serv.Prelude.Outcome.{Outcome, ok}
use single_flight_proxy_serv.QueryCache.L2.{Hiredis, is_empty}
use single_flight_proxy_serv.QueryCache.{Build}
use single_flight_proxy_serv.QueryCache.Sound.{
  IsSound, do_single_flight-Ends, notify_flight_result-Notifies,
}
use single_flight_proxy_serv.Session.{
  Session, Act, ErrorCode, success, operation_aborted, eof, system_error, ssl_error, client_read,
  server_read,
}
use single_flight_proxy_serv.Session.Message.{is_sql_query, extract_sql_query}
use single_flight_proxy_serv.Session.Bridge.{forward_to_client, forward_to_server}
use single_flight_proxy_serv.Proxy.{
  Proxy, Event, Started, acts, call_back, set_session, after_flight, on_query, on_client_bytes,
  on_client_read, on_response, on_server_bytes, on_server_read, act_of, handle, complete, run,
}
use single_flight_proxy_serv.Proxy.Kept.{
  Kept, Kept-both, acts-Kept, call_back-Kept, after_flight-Kept, call_back-cache,
  after_flight-cache,
}

module _ {lib : Hiredis} where
  -- The proxy goes on: the outcome is defined, the cache sound, and every session among those that
  -- may not move is as it was.
  pub record Proceeds (p : Proxy lib) (stays : ℕ → Type 0) (r : Outcome (Proxy lib × Started))
      : Type 0 where
    pub after : Proxy lib
    pub started : Started
    pub returns : r ≡ ok (after, started)
    pub sound : IsSound after.cache
    pub kept : (i : ℕ) → (p.sessions i).is_destroying ≡ true → stays i → Kept i p (after, started)

module _ (b : Build) where
  open b use {lib}

  abbrev pub Other : ℕ → ℕ → Type 0
  Other j i = i ≢ j

  acts-Proceeds :
      (j : ℕ) (act : Act) (p : Proxy lib)
      → IsSound p.cache
      → Proceeds p (Other j) (ok (acts j act p))
  unfolding acts
  acts-Proceeds j act p s = record {
    after = (acts j act p).0;
    started = (acts j act p).1;
    returns = refl;
    sound = s;
    kept = λ i closing other. acts-Kept i j act p other;
  }

  on_query-Proceeds :
      (j n : ℕ) (p : Proxy lib) → IsSound p.cache → Proceeds p (Other j) (on_query b j n p)
  unfolding on_query
  on_query-Proceeds j n p s =
      let sql = extract_sql_query (p.sessions j).client_buffer n in
      let e = do_single_flight-Ends b sql j p.cache s in
      let called = call_back e.value.calls (record p { cache = e.after }) in
      let r = after_flight j sql n e.value.result called in
      record {
        after = r.0;
        started = r.1;
        returns = rw e.returns refl;
        sound =
            subst IsSound
              (sym (
                after_flight-cache j sql n e.value.result called ∙ call_back-cache e.value.calls _))
              e.sound;
        kept = λ i closing other.
            let k = call_back-Kept i e.value.calls (record p { cache = e.after }) closing in
            after_flight-Kept i j sql n e.value.result p called other
              (record { session = k.session; others = k.others });
      }

  on_response-Proceeds :
      (j n : ℕ) (p : Proxy lib) → IsSound p.cache → Proceeds p (Other j) (on_response b j n p)
  unfolding on_response acts
  on_response-Proceeds j n p s =
      let e =
        notify_flight_result-Notifies b (p.sessions j).current_query
          (take n (p.sessions j).server_buffer) p.cache s in
      let called = call_back e.calls (record p { cache = e.after }) in
      let act : Act = λ s1. forward_to_client n (record s1 { current_query = [] }) in
      record {
        after = (acts j act called.0).0;
        started = called.1 ++ (acts j act called.0).1;
        returns = rw e.returns refl;
        sound =
            subst IsSound (sym (call_back-cache e.calls (record p { cache = e.after }))) e.sound;
        kept = λ i closing other.
            let k = call_back-Kept i e.calls (record p { cache = e.after }) closing in
            Kept-both i p called.0 called.1 (acts j act called.0)
              (record { session = k.session; others = k.others })
              (acts-Kept i j act called.0 other);
      }

  -- What a handler does after its read has filled a buffer of its own session.
  set_session-Proceeds :
      (j : ℕ) (s : Session) (p : Proxy lib) (r : Outcome (Proxy lib × Started))
      → Proceeds (set_session j s p) (Other j) r
      → Proceeds p (Other j) r
  set_session-Proceeds j s p r h = record {
    after = h.after;
    started = h.started;
    returns = h.returns;
    sound = h.sound;
    kept = λ i closing other.
        let same : (set_session j s p).sessions i ≡ p.sessions i =
          if_neg (ℕ_discrete j i) (λ e. other (sym e)) s (p.sessions i) in
        let k = h.kept i (ap (λ x. x.is_destroying) same ∙ closing) other in
        record { session = k.session ∙ same; others = k.others };
  }

  on_client_bytes-Proceeds :
      (j n : ℕ) (p : Proxy lib) → IsSound p.cache → Proceeds p (Other j) (on_client_bytes b j n p)
  unfolding on_client_bytes
  on_client_bytes-Proceeds j n p s =
      elim (Bool-cases (is_sql_query (p.sessions j).client_buffer n)) [
        | inl query ↦ rw query (on_query-Proceeds j n p s)
        | inr other ↦ rw other (acts-Proceeds j (forward_to_server n) p s)
      ]

  on_server_bytes-Proceeds :
      (j n : ℕ) (p : Proxy lib) → IsSound p.cache → Proceeds p (Other j) (on_server_bytes b j n p)
  unfolding on_server_bytes
  on_server_bytes-Proceeds j n p s = elim (Bool-cases (is_empty (p.sessions j).current_query)) [
    | inl idle ↦ rw idle (acts-Proceeds j (forward_to_client n) p s)
    | inr leads ↦ rw leads (on_response-Proceeds j n p s)
  ]

  on_client_read-Proceeds :
      (j : ℕ) (ec : ErrorCode) (bytes : Bytes) (p : Proxy lib)
      → IsSound p.cache
      → Proceeds p (Other j) (on_client_read b j ec bytes p)
  unfolding on_client_read
  on_client_read-Proceeds j success bytes p s =
      set_session-Proceeds j _ p _ (on_client_bytes-Proceeds j (length bytes) (set_session j _ p) s)
  on_client_read-Proceeds j operation_aborted bytes p s = acts-Proceeds j _ p s
  on_client_read-Proceeds j eof bytes p s = acts-Proceeds j _ p s
  on_client_read-Proceeds j system_error bytes p s = acts-Proceeds j _ p s
  on_client_read-Proceeds j (ssl_error msg) bytes p s = acts-Proceeds j _ p s

  on_server_read-Proceeds :
      (j : ℕ) (ec : ErrorCode) (bytes : Bytes) (p : Proxy lib)
      → IsSound p.cache
      → Proceeds p (Other j) (on_server_read b j ec bytes p)
  unfolding on_server_read
  on_server_read-Proceeds j success bytes p s =
      set_session-Proceeds j _ p _ (on_server_bytes-Proceeds j (length bytes) (set_session j _ p) s)
  on_server_read-Proceeds j operation_aborted bytes p s = acts-Proceeds j _ p s
  on_server_read-Proceeds j eof bytes p s = acts-Proceeds j _ p s
  on_server_read-Proceeds j system_error bytes p s = acts-Proceeds j _ p s
  on_server_read-Proceeds j (ssl_error msg) bytes p s = acts-Proceeds j _ p s

  handle-Proceeds :
      (e : Event) (p : Proxy lib) → IsSound p.cache → Proceeds p (Other e.i) (handle b e p)
  unfolding handle
  handle-Proceeds e p s =
      elim e.handler
        as (λ h. Proceeds p (Other e.i) (elim h [
          | client_read ↦ on_client_read b e.i e.ec e.bytes p
          | server_read ↦ on_server_read b e.i e.ec e.bytes p
          | _ ↦ ok (acts e.i (act_of e) p)
        ])) [
          | client_read ↦ on_client_read-Proceeds e.i e.ec e.bytes p s
          | server_read ↦ on_server_read-Proceeds e.i e.ec e.bytes p s
          | _ ↦ acts-Proceeds e.i (act_of e) p s
        ]

  pub complete-Proceeds :
      (e : Event) (p : Proxy lib) → IsSound p.cache → Proceeds p (λ i. Unit {0}) (complete b e p)
  unfolding complete
  complete-Proceeds e p s = elim (Bool-cases (p.sessions e.i).is_destroying) [
    | inl closing ↦ rw closing (record {
      after = p;
      started = [];
      returns = refl;
      sound = s;
      kept = λ i h stays. record { session = refl; others = tt };
    })
    | inr running ↦
        let h = handle-Proceeds e p s in
        rw running (record {
          after = h.after;
          started = h.started;
          returns = h.returns;
          sound = h.sound;
          kept = λ i closing stays.
              h.kept i closing (λ same. cc (ap (λ j. (p.sessions j).is_destroying) same));
        })
  ]

  -- With a sound cache, whatever operations complete, with whatever error codes and bytes: no call of
  -- the cache by a handler is undefined, and each leaves a sound cache. A session that is closing
  -- stays exactly as it is, and no operation is started for it, neither by its own handlers nor by
  -- the results that others report to it.
  pub run-Proceeds :
      (es : List Event) (p : Proxy lib) → IsSound p.cache → Proceeds p (λ i. Unit {0}) (run b es p)
  unfolding run
  run-Proceeds [] p s = record {
    after = p;
    started = [];
    returns = refl;
    sound = s;
    kept = λ i closing stays. record { session = refl; others = tt };
  }
  run-Proceeds (e ∷ es) p s =
      let now = complete-Proceeds e p s in
      let rest = run-Proceeds es now.after now.sound in
      record {
        after = rest.after;
        started = now.started ++ rest.started;
        returns = rw (now.returns, rest.returns) refl;
        sound = rest.sound;
        kept = λ i closing stays.
            let k = now.kept i closing tt in
            Kept-both i p now.after now.started _ k
              (rest.kept i (ap (λ x. x.is_destroying) k.session ∙ closing) tt);
      }
