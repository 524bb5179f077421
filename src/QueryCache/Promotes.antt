-- ===== src/QueryCache/Promotes.antt =====
-- `get` in src/QueryCache/QueryCache.cpp after a `get` that has found a value: what the second level
-- has answered stands in the first.
use single_flight_proxy_serv.Prelude.{
  ◌≡◌, refl, sym, ap, subst, ◌∙◌, true, false, Option, none, some, Bytes, Bool-cases, Option-cases,
  inl, inr, arith,
}
use single_flight_proxy_serv.Prelude.Outcome.{Outcome, ok, ok-injective}
use single_flight_proxy_serv.QueryCache.L1.Spec.{Entries, spec_get}
use single_flight_proxy_serv.QueryCache.L1.History.{gets, spec_exec, view, Lru}
use single_flight_proxy_serv.QueryCache.L2.{get_l2}
use single_flight_proxy_serv.QueryCache.Hash.{hash_query}
use single_flight_proxy_serv.QueryCache.Sound.{
  IsSound, l1_gets, l1_puts, get_below_on, get_below_off, get-Keeps,
}
use single_flight_proxy_serv.QueryCache.Serve.{spec_get-put, lookup-use_entry}
use single_flight_proxy_serv.QueryCache.RoundTrip.{get_first}
use single_flight_proxy_serv.QueryCache.{
  QueryCache, Build, count, refill, get_below, get_after_l1, get,
}

spec_get-found :
    (k v : Bytes) (es : Entries)
    → (spec_get k es).1 ≡ some v
    → (spec_get k (spec_get k es).0).1 ≡ some v
unfolding spec_get
spec_get-found k v es e = ground (arith, lookup-use_entry k v es)

-- In the contract, a lookup finds again what it has found.
spec_found_again :
    (k v : Bytes) (m : Lru)
    → (spec_exec (gets k) m).1 ≡ some v
    → (spec_exec (gets k) (spec_exec (gets k) m).0).1 ≡ some v
unfolding spec_exec
spec_found_again k v m e = ground (arith, spec_get-found k v m.items)

stays_enabled : (k : Bytes) (m : Lru) → m.enabled ≡ true → (spec_exec (gets k) m).0.enabled ≡ true
unfolding spec_exec
stays_enabled k m on = ground arith

module _ (b : Build) {C : Type 0} where
  open b use {have_hiredis, lib, md5}

  abbrev Holds : Bytes → Bytes → QueryCache lib C → Type 0
  Holds k v q = (spec_exec (gets k) (view q.l1)).1 ≡ some v

  -- What a lookup of the key has returned, the first level holds after it.
  record Promotes (k : Bytes) (r : Outcome (QueryCache lib C × Option Bytes)) : Type 0 where
    after : QueryCache lib C
    found : Option Bytes
    returns : r ≡ ok (after, found)
    holds : (v : Bytes) → found ≡ some v → Holds k v after

  refill-Promotes :
      (k : Bytes) (o : Option Bytes) (q : QueryCache lib C)
      → IsSound q
      → q.l1.l1_enabled ≡ true
      → Promotes k (refill b k o q)
  unfolding refill
  refill-Promotes k none q s on = record {
    after = count b false false q;
    found = none;
    returns = refl;
    holds = λ v e. absurd (cc e);
  }
  refill-Promotes k (some x) q s on =
      let (d, returns, _, _, seen) = l1_puts q.l1 s.list s.positive k x in
      record {
        after = count b false true (record q { l1 = d });
        found = some x;
        returns = rw returns refl;
        holds =
            λ v e. ap (λ m. (spec_exec (gets k) m).1) seen ∙ spec_get-put k x (view q.l1) on ∙ e;
      }

  get_below-Promotes :
      (k : Bytes) (q : QueryCache lib C)
      → IsSound q
      → q.l1.l1_enabled ≡ true
      → Promotes k (get_below b k q)
  get_below-Promotes k q s on = elim (Bool-cases q.l2.redis_enabled) [
    | inl redis ↦
        let r =
          refill-Promotes k (get_l2 have_hiredis lib k q.l2).1
            (record q { l2 = (get_l2 have_hiredis lib k q.l2).0 }) s on in
        subst (Promotes k) (sym (get_below_on b k q redis)) r
    | inr off ↦ record {
      after = q;
      found = none;
      returns = get_below_off b k q off;
      holds = λ v e. absurd (cc e);
    }
  ]

  get-Promotes :
      (query : Bytes) (q : QueryCache lib C)
      → IsSound q
      → q.l1.l1_enabled ≡ true
      → Promotes (hash_query md5 query) (get b query q)
  unfolding get get_after_l1
  get-Promotes query q s on =
      let key = hash_query md5 query in
      let (d, returns, inv, positive, seen) = l1_gets q.l1 s.list s.positive key in
      elim (Option-cases (spec_exec (gets key) (view q.l1)).1) [
        | inl missing ↦
            let enabled : d.l1_enabled ≡ true =
              ap (λ m. m.enabled) seen ∙ stays_enabled key (view q.l1) on in
            let r =
              get_below-Promotes key (count b false false (record q { l1 = d }))
                (record { list = inv; positive = positive; quiet = s.quiet }) enabled in
            rw (returns, missing) r
        | inr (x, found) ↦ record {
          after = count b true false (record q { l1 = d });
          found = some x;
          returns = rw (returns, found) refl;
          holds = λ v e.
              ap (λ m. (spec_exec (gets key) m).1) seen
              ∙ spec_found_again key v (view q.l1) (found ∙ e);
        }
      ]

  -- On a sound object with the first level enabled: after a lookup that has found a value, in the
  -- first level or in Redis, the next lookup of that query finds the same value, and leaves the second
  -- level as it is: Redis is not asked again.
  pub get-again :
      (query v : Bytes) (q : QueryCache lib C) {after : QueryCache lib C}
      → IsSound q
      → q.l1.l1_enabled ≡ true
      → get b query q ≡ ok (after, some v)
      → (again : QueryCache lib C) × (get b query after ≡ ok (again, some v))
        × (again.l2 ≡ after.l2)
  get-again query v q {after} s on e =
      let p = get-Promotes query q s on in
      let k = get-Keeps b query q s in
      let same = ok-injective (sym p.returns ∙ e) in
      let kept = ok-injective (sym k.returns ∙ e) in
      let holds : Holds (hash_query md5 query) v after =
        subst (Holds (hash_query md5 query) v) (ap (λ x. x.0) same)
          (p.holds v (ap (λ x. x.1) same)) in
      get_first b query v after (subst IsSound (ap (λ x. x.0) kept) k.sound) holds
