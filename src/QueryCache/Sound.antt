-- ===== src/QueryCache/Sound.antt =====
-- Sound objects of src/QueryCache/QueryCache.cpp, and its calls on them.
use single_flight_proxy_serv.Prelude.{
  ◌<◌, ◌≡◌, refl, ap, ◌∙◌, inl, inr, true, false, Option, none, some, List, arith, Bytes,
  if◌then◌else◌, Bool-cases,
}
use single_flight_proxy_serv.Prelude.Outcome.{Outcome, ok, ok_of_pair}
use single_flight_proxy_serv.SingleFlight.{SingleFlight, notify_result}
use single_flight_proxy_serv.SingleFlight.Refinement.{asks, answers, IsQuiet, step, step-Agree}
use single_flight_proxy_serv.QueryCache.L1.{L1Cache, get_l1, put_l1}
use single_flight_proxy_serv.QueryCache.L1.Invariant.{Inv}
use single_flight_proxy_serv.QueryCache.L1.History.{gets, puts, exec, spec_exec, view, exec-Agrees}
use single_flight_proxy_serv.QueryCache.L2.{Hiredis, get_l2, put_l2}
use single_flight_proxy_serv.QueryCache.Hash.{hash_query}
use single_flight_proxy_serv.QueryCache.{
  join_flight, refill, get_after_l1, QueryCache, Build, count, get_below, get, put,
  do_single_flight as cached_flight, notify_flight_result,
}

-- The first level, enabled or not.
module _ (c : L1Cache) (v : Inv c) (positive : 0 < c.l1_max_size) where
  pub l1_gets :
      (k : Bytes)
      → (d : L1Cache) × (get_l1 k c ≡ ok (d, (spec_exec (gets k) (view c)).1))
        × Inv d
        × (0 < d.l1_max_size)
        × (view d ≡ (spec_exec (gets k) (view c)).0)
  unfolding exec
  l1_gets k =
      let a = exec-Agrees c v positive (gets k) tt in
      (a.after, a.returns, a.inv, a.positive, a.seen)

  pub l1_puts :
      (k r : Bytes)
      → (d : L1Cache) × (put_l1 k r c ≡ ok d)
        × Inv d
        × (0 < d.l1_max_size)
        × (view d ≡ (spec_exec (puts k r) (view c)).0)
  unfolding exec
  l1_puts k r =
      let a = exec-Agrees c v positive (puts k r) tt in
      (a.after, ok_of_pair (put_l1 k r c) none a.returns, a.inv, a.positive, a.seen)

-- The list and the table agree, there is room for an entry, and no flight in the table is ready.
pub record Sound {C : Type 0} (c : L1Cache) (s : SingleFlight C) : Type 0 where
  pub list : Inv c
  pub positive : 0 < c.l1_max_size
  pub quiet : IsQuiet s

module _ {lib : Hiredis} {C : Type 0} where
  abbrev pub IsSound : QueryCache lib C → Type 0
  IsSound q = Sound q.l1 q.singleflight

  -- The call is defined, and leaves a sound object with the same flights.
  pub record Keeps {ℓ} {A : Type ℓ} (q : QueryCache lib C) (r : Outcome (QueryCache lib C × A))
      : Type ℓ where
    pub after : QueryCache lib C
    pub value : A
    pub returns : r ≡ ok (after, value)
    pub sound : IsSound after
    pub flights : after.singleflight ≡ q.singleflight

module _ (b : Build) {C : Type 0} where
  open b use {have_hiredis, lib, md5}

  refill-Keeps :
      (k : Bytes) (o : Option Bytes) (q : QueryCache lib C) → IsSound q → Keeps q (refill b k o q)
  unfolding refill
  refill-Keeps k none q v = record {
    after = count b false false q;
    value = none;
    returns = refl;
    sound = v;
    flights = refl;
  }
  refill-Keeps k (some x) q v =
      let (d, returns, inv, positive, _) = l1_puts q.l1 v.list v.positive k x in
      record {
        after = count b false true (record q { l1 = d });
        value = some x;
        returns = rw returns refl;
        sound = record { list = inv; positive = positive; quiet = v.quiet };
        flights = refl;
      }

  pub get_below_on :
      (k : Bytes) (q : QueryCache lib C)
      → q.l2.redis_enabled ≡ true
      → get_below b k q
        ≡ refill b k
            (get_l2 have_hiredis lib k q.l2).1
            (record q { l2 = (get_l2 have_hiredis lib k q.l2).0 })
  unfolding get_below
  get_below_on k q e = ground arith

  pub get_below_off :
      (k : Bytes) (q : QueryCache lib C)
      → q.l2.redis_enabled ≡ false
      → get_below b k q ≡ ok (q, none)
  unfolding get_below
  get_below_off k q e = ground arith

  get_below-Keeps : (k : Bytes) (q : QueryCache lib C) → IsSound q → Keeps q (get_below b k q)
  get_below-Keeps k q v = elim (Bool-cases q.l2.redis_enabled) [
    | inl on ↦
        let r =
          refill-Keeps k (get_l2 have_hiredis lib k q.l2).1
            (record q { l2 = (get_l2 have_hiredis lib k q.l2).0 }) v in
        record {
          after = r.after;
          value = r.value;
          returns = get_below_on k q on ∙ r.returns;
          sound = r.sound;
          flights = r.flights;
        }
    | inr off ↦ record {
      after = q;
      value = none;
      returns = get_below_off k q off;
      sound = v;
      flights = refl;
    }
  ]

  get_after_l1-Keeps :
      (k : Bytes) (o : Option Bytes) (q : QueryCache lib C)
      → IsSound q
      → Keeps q (get_after_l1 b k o q)
  unfolding get_after_l1
  get_after_l1-Keeps k none q v =
      let r = get_below-Keeps k (count b false false q) v in
      record {
        after = r.after;
        value = r.value;
        returns = r.returns;
        sound = r.sound;
        flights = r.flights;
      }
  get_after_l1-Keeps k (some x) q v = record {
    after = count b true false q;
    value = some x;
    returns = refl;
    sound = v;
    flights = refl;
  }

  -- `get` on a sound object.
  pub get-Keeps : (query : Bytes) (q : QueryCache lib C) → IsSound q → Keeps q (get b query q)
  unfolding get
  get-Keeps query q v =
      let key = hash_query md5 query in
      let (d, returns, inv, positive, _) = l1_gets q.l1 v.list v.positive key in
      let r =
        get_after_l1-Keeps key (spec_exec (gets key) (view q.l1)).1 (record q { l1 = d })
          (record { list = inv; positive = positive; quiet = v.quiet }) in
      record {
        after = r.after;
        value = r.value;
        returns = rw returns r.returns;
        sound = r.sound;
        flights = r.flights;
      }

  pub record Puts (query result : Bytes) (q : QueryCache lib C) : Type 0 where
    pub after : QueryCache lib C
    pub returns : put b query result q ≡ ok after
    pub sound : IsSound after
    pub flights : after.singleflight ≡ q.singleflight
    pub l1 : view after.l1 ≡ (spec_exec (puts (hash_query md5 query) result) (view q.l1)).0
    pub stats : after.stats ≡ q.stats
    pub l2 : after.l2 ≡ (
        if q.l2.redis_enabled
        then put_l2 have_hiredis lib (hash_query md5 query) result q.l2
        else q.l2)

  pub put-Puts : (query result : Bytes) (q : QueryCache lib C) → IsSound q → Puts query result q
  unfolding put
  put-Puts query result q v =
      let key = hash_query md5 query in
      let (d, returns, inv, positive, seen) = l1_puts q.l1 v.list v.positive key result in
      record {
        after = record q {
          l1 = d;
          l2 = if q.l2.redis_enabled then put_l2 have_hiredis lib key result q.l2 else q.l2;
        };
        returns = rw returns refl;
        sound = record { list = inv; positive = positive; quiet = v.quiet };
        flights = refl;
        l1 = seen;
        stats = refl;
        l2 = refl;
      }

  -- `doSingleFlight` and `notifyFlightResult` on a sound object.
  pub record Ends {A : Type 0} (r : Outcome (QueryCache lib C × A)) : Type 0 where
    pub after : QueryCache lib C
    pub value : A
    pub returns : r ≡ ok (after, value)
    pub sound : IsSound after

  join_flight-IsSound :
      (query : Bytes) (c : C) (o : Option Bytes) (q : QueryCache lib C)
      → IsSound q
      → IsSound (join_flight b query c o q).0
  unfolding join_flight step
  join_flight-IsSound query c (some x) q v = v
  join_flight-IsSound query c none q v = record {
    list = v.list;
    positive = v.positive;
    quiet = (step-Agree (asks (hash_query md5 query) c) q.singleflight v.quiet).quiet;
  }

  -- On a sound object `doSingleFlight` is defined, for any query and callback, and leaves a sound
  -- object.
  pub do_single_flight-Ends :
      (query : Bytes) (c : C) (q : QueryCache lib C) → IsSound q → Ends (cached_flight b query c q)
  unfolding cached_flight
  do_single_flight-Ends query c q v =
      let g = get-Keeps query q v in
      let joined = join_flight b query c g.value g.after in
      record {
        after = joined.0;
        value = joined.1;
        returns = rw g.returns refl;
        sound = join_flight-IsSound query c g.value g.after g.sound;
      }

  -- `notifyFlightResult` on a sound object: the entry is stored, and the flight answered.
  pub record Notifies (query result : Bytes) (q : QueryCache lib C) : Type 0 where
    pub after : QueryCache lib C
    pub calls : List (C × Bytes)
    pub returns : notify_flight_result b query result q ≡ ok (after, calls)
    pub sound : IsSound after
    pub l1 : view after.l1 ≡ (spec_exec (puts (hash_query md5 query) result) (view q.l1)).0
    pub l2 : after.l2 ≡ (
        if q.l2.redis_enabled
        then put_l2 have_hiredis lib (hash_query md5 query) result q.l2
        else q.l2)
    pub notified :
        (after.singleflight, calls) ≡ notify_result (hash_query md5 query) result q.singleflight

  -- On a sound object `notifyFlightResult` is defined, for any query and result: it leaves a sound
  -- object, stores the result in the first level if that is enabled, and answers the flight.
  pub notify_flight_result-Notifies :
      (query result : Bytes) (q : QueryCache lib C) → IsSound q → Notifies query result q
  unfolding notify_flight_result step
  notify_flight_result-Notifies query result q v =
      let p = put-Puts query result q v in
      let key = hash_query md5 query in
      let notified = notify_result key result p.after.singleflight in
      record {
        after = record p.after { singleflight = notified.0 };
        calls = notified.1;
        returns = rw p.returns refl;
        sound = record {
          list = p.sound.list;
          positive = p.sound.positive;
          quiet = (step-Agree (answers key result) p.after.singleflight p.sound.quiet).quiet;
        };
        l1 = p.l1;
        l2 = p.l2;
        notified = ap (λ s. notify_result key result s) p.flights;
      }
