-- ===== src/QueryCache/Dedup.antt =====
-- Queries in src/QueryCache/QueryCache.cpp that are not cached: who leads and who waits.
use mathlib.Core.Option
use single_flight_proxy_serv.Prelude.{
  ◌≡◌, refl, ap, ◌∙◌, false, none, some, List, [], ◌∷◌, map, arith, Bytes,
}
use single_flight_proxy_serv.Prelude.Outcome.{Outcome, ok, ◌>>=◌}
use single_flight_proxy_serv.SingleFlight
use single_flight_proxy_serv.SingleFlight.{SingleFlight, notify_result, call_all}
use single_flight_proxy_serv.SingleFlight.Refinement.{
  Reply, asks, step, step-Agree, view as waiting,
}
use single_flight_proxy_serv.SingleFlight.Delivery.{
  run, Leaves-map, asked-map, flight-delivers, step-leads, waits, run-waits,
}
use single_flight_proxy_serv.QueryCache.L1.Spec.{spec_get}
use single_flight_proxy_serv.QueryCache.L1.History.{gets, spec_exec, view, Lru}
use single_flight_proxy_serv.QueryCache.Hash.{hash_query}
use single_flight_proxy_serv.QueryCache.Sound.{IsSound, l1_gets, notify_flight_result-Notifies}
use single_flight_proxy_serv.QueryCache.Absent.{Absent, get_below-FindsNothing}
use single_flight_proxy_serv.QueryCache.{
  QueryCache, Build, Flown, is_leader, is_waiter, flight_result, count, get_after_l1, get,
  join_flight, do_single_flight, notify_flight_result,
}

-- A miss leaves the first level as it was.
spec_miss : (k : Bytes) (m : Lru) → (spec_exec (gets k) m).1 ≡ none → (spec_exec (gets k) m).0 ≡ m
unfolding spec_exec spec_get
spec_miss k m e = ground arith

abbrev pub IsMiss : Bytes → Lru → Type 0
IsMiss key m = (spec_exec (gets key) m).1 ≡ none

-- The flights' reply, as `doSingleFlight` of the cache passes it on.
abbrev pub flown_of : {C : Type 0} → Reply C → Flown C
flown_of reply = record {
  result = flight_result (Option.get_or reply.returned SingleFlight.Result.is_waiter);
  calls = reply.calls;
}

map_constant :
    {C : Type 0} (cs : List C)
    → map (flown_of {C = C}) (map (λ _. waits) cs)
      ≡ map (λ _. record { result = is_waiter; calls = [] }) cs
map_constant [] = refl
map_constant (c ∷ cs) = ap (◌∷◌ (record { result = is_waiter; calls = [] })) (map_constant cs)

module _ (b : Build) {C : Type 0} where
  open b use {have_hiredis, lib, md5}

  -- A query that neither level holds: the flights decide.
  pub record Misses (query : Bytes) (c : C) (q : QueryCache lib C) : Type 1 where
    pub after : QueryCache lib C
    pub flown : Flown C
    pub returns : do_single_flight b query c q ≡ ok (after, flown)
    pub sound : IsSound after
    pub l1 : view after.l1 ≡ view q.l1
    pub absent : (k : Bytes) → Absent lib k q.l2 → Absent lib k after.l2
    pub flights : after.singleflight ≡ (step (asks (hash_query md5 query) c) q.singleflight).0
    pub replied : flown ≡ flown_of (step (asks (hash_query md5 query) c) q.singleflight).1

  pub miss :
      (query : Bytes) (c : C) (q : QueryCache lib C)
      → IsSound q
      → Absent lib (hash_query md5 query) q.l2
      → IsMiss (hash_query md5 query) (view q.l1)
      → Misses query c q
  unfolding do_single_flight get get_after_l1 join_flight step
  miss query c q s far missing =
      let key = hash_query md5 query in
      let (d, returns, inv, positive, seen) = l1_gets q.l1 s.list s.positive key in
      let q' : QueryCache lib C = count b false false (record q { l1 = d }) in
      let below = get_below-FindsNothing b key q' far in
      let q2 = record q' { l2 = below.l2; stats = below.stats } in
      record {
        after = (join_flight b query c none q2).0;
        flown = (join_flight b query c none q2).1;
        returns = rw (returns, missing, below.returns) refl;
        sound = record {
          list = inv;
          positive = positive;
          quiet = (step-Agree (asks key c) q.singleflight s.quiet).quiet;
        };
        l1 = seen ∙ spec_miss key (view q.l1) missing;
        absent = below.absent;
        flights = refl;
        replied = refl;
      }

  -- Further sessions ask for the same query, one after the other.
  unfoldable pub ask_all :
      Bytes → List C → QueryCache lib C → Outcome (QueryCache lib C × List (Flown C))
  ask_all query [] q = ok (q, [])
  ask_all query (c ∷ cs) q = do
    (q1, flown) ← do_single_flight b query c q
    (q2, rest) ← ask_all query cs q1
    ok (q2, flown ∷ rest)

  record Waits (query : Bytes) (cs : List C) (q : QueryCache lib C) : Type 1 where
    after : QueryCache lib C
    flown : List (Flown C)
    returns : ask_all query cs q ≡ ok (after, flown)
    sound : IsSound after
    l1 : view after.l1 ≡ view q.l1
    absent : (k : Bytes) → Absent lib k q.l2 → Absent lib k after.l2
    flights : after.singleflight ≡ (run (map (asks (hash_query md5 query)) cs) q.singleflight).0
    replied : flown ≡ map flown_of (run (map (asks (hash_query md5 query)) cs) q.singleflight).1

  ask_all-Waits :
      (query : Bytes) (cs : List C) (q : QueryCache lib C)
      → IsSound q
      → Absent lib (hash_query md5 query) q.l2
      → IsMiss (hash_query md5 query) (view q.l1)
      → Waits query cs q
  unfolding ask_all run
  ask_all-Waits query [] q s far missing = record {
    after = q;
    flown = [];
    returns = refl;
    sound = s;
    l1 = refl;
    absent = λ k h. h;
    flights = refl;
    replied = refl;
  }
  ask_all-Waits query (c ∷ cs) q s far missing =
      let m = miss query c q s far missing in
      let w =
        ask_all-Waits query cs m.after m.sound (m.absent (hash_query md5 query) far)
          (ap (λ l1. (spec_exec (gets (hash_query md5 query)) l1).1) m.l1 ∙ missing) in
      record {
        after = w.after;
        flown = m.flown ∷ w.flown;
        returns = rw (m.returns, w.returns) refl;
        sound = w.sound;
        l1 = w.l1 ∙ m.l1;
        absent = λ k h. w.absent k (m.absent k h);
        flights = w.flights ∙ ap (λ x. (run (map (asks (hash_query md5 query)) cs) x).0) m.flights;
        replied =
            ap (λ x. x ∷ w.flown) m.replied
            ∙ ap (◌∷◌ (flown_of (step (asks (hash_query md5 query) c) q.singleflight).1)) (
                w.replied
                ∙ ap (λ x. map flown_of (run (map (asks (hash_query md5 query)) cs) x).1)
                    m.flights);
      }

  -- Whoever asks for a query that is in flight waits, and no callback is called.
  pub ask_all-waits :
      (query : Bytes) (cs ds : List C) (q : QueryCache lib C)
      → IsSound q
      → Absent lib (hash_query md5 query) q.l2
      → IsMiss (hash_query md5 query) (view q.l1)
      → waiting q.singleflight (hash_query md5 query) ≡ some ds
      → (after : QueryCache lib C) × (ask_all query cs q
          ≡ ok (after, map (λ _. record { result = is_waiter; calls = [] }) cs))
  ask_all-waits query cs ds q s far missing flying =
      let key = hash_query md5 query in
      let w = ask_all-Waits query cs q s far missing in
      (
        w.after,
        w.returns
            ∙ ap (λ x. ok (w.after, x))
                (w.replied
                  ∙ (ap (map flown_of) (run-waits key cs ds q.singleflight s.quiet flying)
                      ∙ map_constant cs)),
      )

  -- A query that is asked for, and asked for again by others, before its result is reported.
  pub record Deduplicates (query result : Bytes) (c : C) (cs : List C) (q : QueryCache lib C)
      : Type 0 where
    pub led : QueryCache lib C
    pub leads : do_single_flight b query c q ≡ ok (led, record { result = is_leader; calls = [] })
    pub waited : QueryCache lib C
    pub waits :
        ask_all query cs led ≡ ok (waited, map (λ _. record { result = is_waiter; calls = [] }) cs)
    pub waited_sound : IsSound waited
    pub waited_l1 : view waited.l1 ≡ view q.l1
    pub answered : QueryCache lib C
    pub answers_all : notify_flight_result b query result waited ≡ ok (answered, call_all cs result)
    pub idle : waiting answered.singleflight (hash_query md5 query) ≡ none

  -- On a sound object, for a query that neither level holds and that is not in flight: the first to
  -- ask leads, all who ask after it wait, without a callback, and when the result is reported each
  -- of them is called back with it, once and in the order in which they asked.
  pub query-Deduplicates :
      (query result : Bytes) (c : C) (cs : List C) (q : QueryCache lib C)
      → IsSound q
      → Absent lib (hash_query md5 query) q.l2
      → IsMiss (hash_query md5 query) (view q.l1)
      → waiting q.singleflight (hash_query md5 query) ≡ none
      → Deduplicates query result c cs q
  unfolding step
  query-Deduplicates query result c cs q s far missing free =
      let key = hash_query md5 query in
      let m = miss query c q s far missing in
      let first = step-leads key c q.singleflight s.quiet free in
      let now = step-Agree (asks key c) q.singleflight s.quiet in
      let w =
        ask_all-Waits query cs m.after m.sound (m.absent (hash_query md5 query) far)
          (ap (λ l1. (spec_exec (gets key) l1).1) m.l1 ∙ missing) in
      let same = w.flights ∙ ap (λ x. (run (map (asks key) cs) x).0) m.flights in
      let delivered =
        flight-delivers key result c (map (asks key) cs) q.singleflight s.quiet free
          (Leaves-map key cs) in
      let n = notify_flight_result-Notifies b query result w.after w.sound in
      record {
        led = m.after;
        leads = m.returns ∙ ap (λ x. ok (m.after, x)) (m.replied ∙ ap flown_of first.0);
        waited = w.after;
        waits =
            w.returns
            ∙ ap (λ x. ok (w.after, x))
                (w.replied
                  ∙ ap (map flown_of) (
                      ap (λ x. (run (map (asks key) cs) x).1) m.flights
                      ∙ run-waits key cs [] _ now.quiet first.1)
                  ∙ map_constant cs);
        waited_sound = w.sound;
        waited_l1 = w.l1 ∙ m.l1;
        answered = n.after;
        answers_all =
            n.returns
            ∙ ap (λ x. ok (n.after, x))
                (ap (λ x. x.1) n.notified
                  ∙ (ap (λ x. (notify_result key result x).1) same
                      ∙ delivered.1
                      ∙ ap (λ l. call_all l result) (asked-map key cs)));
        idle =
            ap (λ x. waiting x.0 key) n.notified
            ∙ (ap (λ x. waiting (notify_result key result x).0 key) same ∙ delivered.2);
      }
