-- ===== src/QueryCache/Source.antt =====
-- The calls of src/QueryCache/QueryCache.cpp and the values that they hand out, over both levels and
-- the flights.
use single_flight_proxy_serv.Prelude.{
  ◌≡◌, refl, sym, ap, subst, ◌∙◌, true, false, Option, none, some, List, Bytes, Bool-cases,
  Option-cases, inl, inr,
}
use single_flight_proxy_serv.Prelude.Outcome.{Outcome, ok}
use single_flight_proxy_serv.SingleFlight.Refinement.{asks, step, step-Agree}
use single_flight_proxy_serv.QueryCache.L1.History.{gets, spec_exec, view}
use single_flight_proxy_serv.QueryCache.L2.{get_l2, put_l2}
use single_flight_proxy_serv.QueryCache.Redis.{
  Redis, choice-Holds, get_l2-Holds, get_l2_value, put_l2-Holds,
}
use single_flight_proxy_serv.QueryCache.Hash.{hash_query}
use single_flight_proxy_serv.QueryCache.Sound.{
  IsSound, l1_gets, l1_puts, get_below_on, get_below_off, notify_flight_result-Notifies,
}
use single_flight_proxy_serv.QueryCache.Values.{
  AllValues, AllResults, puts-AllValues, gets-AllValues, gets_value, asks-AllResults,
  answers-AllResults,
}
use single_flight_proxy_serv.QueryCache.{
  QueryCache, Build, count, refill, get_below, get_after_l1, get, join_flight, do_single_flight,
  notify_flight_result,
}

module _ (P : Bytes → Type 0) (b : Build) (redis : Redis (λ key v. P v) b.lib) {C : Type 0} where
  open b use {have_hiredis, lib, md5}
  open redis use {Holds}

  -- A sound object whose levels hold only such values.
  abbrev pub Sourced : QueryCache lib C → Type 0
  Sourced q = IsSound q × AllValues P (view q.l1).items × Holds q.l2.world

  -- The call returns, leaves a sourced object, and what it has found is such a value.
  record Gets (r : Outcome (QueryCache lib C × Option Bytes)) : Type 0 where
    after : QueryCache lib C
    found : Option Bytes
    returns : r ≡ ok (after, found)
    sourced : Sourced after
    value : (v : Bytes) → found ≡ some v → P v

  -- The call returns, leaves a sourced object, and calls back with such values.
  pub record Answers {A : Type 0} (calls : A → List (C × Bytes))
      (r : Outcome (QueryCache lib C × A)) : Type 0 where
    pub after : QueryCache lib C
    pub given : A
    pub returns : r ≡ ok (after, given)
    pub sourced : Sourced after
    pub results : AllResults P (calls given)

  refill-Gets :
      (k : Bytes) (o : Option Bytes) (q : QueryCache lib C)
      → Sourced q
      → ((v : Bytes) → o ≡ some v → P v)
      → Gets (refill b k o q)
  unfolding refill
  refill-Gets k none q sourced h = record {
    after = count b false false q;
    found = none;
    returns = refl;
    sourced = sourced;
    value = h;
  }
  refill-Gets k (some x) q (s, all, world) h =
      let (d, returns, inv, positive, seen) = l1_puts q.l1 s.list s.positive k x in
      record {
        after = count b false true (record q { l1 = d });
        found = some x;
        returns = rw returns refl;
        sourced = (
          record { list = inv; positive = positive; quiet = s.quiet },
          subst (λ m. AllValues P m.items) (sym seen)
              (puts-AllValues P k x (view q.l1) (h x refl) all),
          world,
        );
        value = h;
      }

  get_below-Gets : (k : Bytes) (q : QueryCache lib C) → Sourced q → Gets (get_below b k q)
  get_below-Gets k q sourced = elim (Bool-cases q.l2.redis_enabled) [
    | inl on ↦ subst Gets (sym (get_below_on b k q on)) (
        refill-Gets k (get_l2 have_hiredis lib k q.l2).1
          (record q { l2 = (get_l2 have_hiredis lib k q.l2).0 })
          (
            sourced.0,
            sourced.1,
            get_l2-Holds (λ key v. P v) have_hiredis lib redis k q.l2 sourced.2,
          )
          (λ v e. get_l2_value (λ key v. P v) have_hiredis lib redis k v q.l2 sourced.2 e))
    | inr off ↦ record {
      after = q;
      found = none;
      returns = get_below_off b k q off;
      sourced = sourced;
      value = λ v e. absurd (cc e);
    }
  ]

  get-Gets : (query : Bytes) (q : QueryCache lib C) → Sourced q → Gets (get b query q)
  unfolding get get_after_l1
  get-Gets query q (s, all, world) =
      let key = hash_query md5 query in
      let (d, returns, inv, positive, seen) = l1_gets q.l1 s.list s.positive key in
      let sound : IsSound (record q { l1 = d }) = record {
        list = inv;
        positive = positive;
        quiet = s.quiet;
      } in
      let values : AllValues P (view d).items =
        subst (λ m. AllValues P m.items) (sym seen) (gets-AllValues P key (view q.l1) all) in
      elim (Option-cases (spec_exec (gets key) (view q.l1)).1) [
        | inl missing ↦
            rw (returns, missing)
              (get_below-Gets key (count b false false (record q { l1 = d }))
                (sound, values, world))
        | inr (x, found) ↦ record {
          after = count b true false (record q { l1 = d });
          found = some x;
          returns = rw (returns, found) refl;
          sourced = (sound, values, world);
          value = λ v e. gets_value P key v (view q.l1) all (found ∙ e);
        }
      ]

  -- What `doSingleFlight` calls back with, it has from the first level or from Redis.
  join_flight-Answers :
      (query : Bytes) (c : C) (o : Option Bytes) (q : QueryCache lib C)
      → Sourced q
      → ((v : Bytes) → o ≡ some v → P v)
      → Answers (λ f. f.calls) (ok (join_flight b query c o q))
  unfolding join_flight step
  join_flight-Answers query c (some v) q sourced h = record {
    after = q;
    given = (join_flight b query c (some v) q).1;
    returns = refl;
    sourced = sourced;
    results = (h v refl, tt);
  }
  join_flight-Answers query c none q (s, all, world) h =
      let now = step-Agree (asks (hash_query md5 query) c) q.singleflight s.quiet in
      record {
        after = (join_flight b query c none q).0;
        given = (join_flight b query c none q).1;
        returns = refl;
        sourced = (record { list = s.list; positive = s.positive; quiet = now.quiet }, all, world);
        results = asks-AllResults P (hash_query md5 query) c q.singleflight s.quiet;
      }

  pub do_single_flight-Answers :
      (query : Bytes) (c : C) (q : QueryCache lib C)
      → Sourced q
      → Answers (λ f. f.calls) (do_single_flight b query c q)
  unfolding do_single_flight
  do_single_flight-Answers query c q sourced =
      let g = get-Gets query q sourced in
      rw g.returns (join_flight-Answers query c g.found g.after g.sourced g.value)

  pub notify_flight_result-Answers :
      (query result : Bytes) (q : QueryCache lib C)
      → Sourced q
      → P result
      → Answers (λ calls. calls) (notify_flight_result b query result q)
  unfolding step
  notify_flight_result-Answers query result q (s, all, world) h =
      let key = hash_query md5 query in
      let n = notify_flight_result-Notifies b query result q s in
      record {
        after = n.after;
        given = n.calls;
        returns = n.returns;
        sourced = (
          n.sound,
          subst (λ m. AllValues P m.items) (sym n.l1)
              (puts-AllValues P key result (view q.l1) h all),
          subst (λ x. Holds x.world) (sym n.l2)
              (choice-Holds (λ key v. P v) have_hiredis lib redis q.l2.redis_enabled
                (put_l2 have_hiredis lib key result q.l2) q.l2
                (put_l2-Holds (λ key v. P v) have_hiredis lib redis key result q.l2 h world) world),
        );
        results =
            subst (AllResults P) (sym (ap (λ x. x.1) n.notified))
              (answers-AllResults P key result q.singleflight s.quiet h);
      }
