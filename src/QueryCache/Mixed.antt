-- ===== src/QueryCache/Mixed.antt =====
-- Two queries in src/QueryCache/QueryCache.cpp: what asking for one, and reporting a result for it,
-- leaves of the other.
use mathlib.Core.List.{lookup}
use mathlib.Core.Option
use single_flight_proxy_serv.Prelude.{
  subst, ℕ, ◌≡◌, ◌≢◌, sym, ap, ◌∙◌, true, none, some, [], ◌∷◌, ◌++◌, arith, Bytes, Bytes-discrete,
  Option-cases, inl, inr, if_neg,
}
use single_flight_proxy_serv.Prelude.Outcome.{ok}
use single_flight_proxy_serv.Prelude.Dict.{erase, lookup-append, lookup-erase}
use single_flight_proxy_serv.SingleFlight.{SingleFlight, notify_result, call_all}
use single_flight_proxy_serv.SingleFlight.Refinement.{
  Waiting, asks, answers, IsQuiet, step, spec_step, step-Agree, view as waiting,
}
use single_flight_proxy_serv.SingleFlight.Delivery.{step-leads}
use single_flight_proxy_serv.QueryCache.L1.Spec.{Entries, spec_get, spec_put, make_room}
use single_flight_proxy_serv.QueryCache.L1.History.{gets, puts, spec_exec, view, Lru}
use single_flight_proxy_serv.QueryCache.Hash.{hash_query}
use single_flight_proxy_serv.QueryCache.Sound.{IsSound, notify_flight_result-Notifies}
use single_flight_proxy_serv.QueryCache.Dedup.{IsMiss, flown_of, miss}
use single_flight_proxy_serv.QueryCache.Serve.{lookup-make_room, spec_get-put}
use single_flight_proxy_serv.QueryCache.Absent.{Absent, put_l2-Absent}
use single_flight_proxy_serv.QueryCache.{
  QueryCache, Build, is_leader, do_single_flight, notify_flight_result,
}

lookup-spec_put_other :
    (n : ℕ) (k j v : Bytes) (es : Entries)
    → k ≢ j
    → lookup Bytes-discrete j es ≡ none
    → lookup Bytes-discrete j (spec_put n k v es) ≡ none
unfolding spec_put lookup
lookup-spec_put_other n k j v es other e = elim (Option-cases (lookup Bytes-discrete k es)) [
  | inl fresh ↦
      rw (fresh, spec_put)
        (ground (
          arith,
          lookup-append Bytes-discrete j (make_room n es) ((k, v) ∷ []),
          lookup-make_room n j es e,
        ))
  | inr (w, there) ↦
      rw (there, spec_put)
        (ground (
          arith,
          lookup-append Bytes-discrete j (erase Bytes-discrete k es) ((k, v) ∷ []),
          lookup-erase Bytes-discrete k j es,
        ))
]

-- In the contract, storing one query does not cache another.
pub puts-IsMiss :
    (k j v : Bytes) (m : Lru) → k ≢ j → IsMiss j m → IsMiss j (spec_exec (puts k v) m).0
unfolding spec_exec spec_get
puts-IsMiss k j v m other missing =
    ground (arith, lookup-spec_put_other m.max_size k j v m.items other)

module _ {C : Type 0} (k j : Bytes) (other : k ≢ j) (s : SingleFlight C) (quiet : IsQuiet s) where
  spec_asks_other : (c : C) (w : Waiting C) → (spec_step (asks k c) w).0 j ≡ w j
  unfolding spec_step
  spec_asks_other c w = elim (Option-cases (w k)) [
    | inl e ↦ rw (e, spec_step) (if_neg (Bytes-discrete k j) other (some []) (w j))
    | inr (cs, e) ↦
        rw (e, spec_step) (if_neg (Bytes-discrete k j) other (some (cs ++ c ∷ [])) (w j))
  ]

  asks-other : (c : C) → waiting (step (asks k c) s).0 j ≡ waiting s j
  asks-other c = ap (λ w. w j) (step-Agree (asks k c) s quiet).seen ∙ spec_asks_other c (waiting s)

  answers-other : (r : Bytes) → waiting (notify_result k r s).0 j ≡ waiting s j
  unfolding step spec_step
  answers-other r =
      ap (λ w. w j) (step-Agree (answers k r) s quiet).seen
      ∙ if_neg (Bytes-discrete k j) other none (waiting s j)

module _ (b : Build) {C : Type 0} where
  open b use {lib, md5}

  -- The first to ask for a query that neither level holds.
  pub record Leads (query : Bytes) (c : C) (q : QueryCache lib C) : Type 1 where
    pub after : QueryCache lib C
    pub returns :
        do_single_flight b query c q ≡ ok (after, record { result = is_leader; calls = [] })
    pub sound : IsSound after
    pub l1 : view after.l1 ≡ view q.l1
    pub absent : (k : Bytes) → Absent lib k q.l2 → Absent lib k after.l2
    pub flying : waiting after.singleflight (hash_query md5 query) ≡ some []
    pub others :
        (k : Bytes)
        → hash_query md5 query ≢ k
        → waiting after.singleflight k ≡ waiting q.singleflight k

  pub do_single_flight-Leads :
      (query : Bytes) (c : C) (q : QueryCache lib C)
      → IsSound q
      → Absent lib (hash_query md5 query) q.l2
      → IsMiss (hash_query md5 query) (view q.l1)
      → waiting q.singleflight (hash_query md5 query) ≡ none
      → Leads query c q
  do_single_flight-Leads query c q s far missing free =
      let key = hash_query md5 query in
      let m = miss b query c q s far missing in
      let first = step-leads key c q.singleflight s.quiet free in
      record {
        after = m.after;
        returns = m.returns ∙ ap (λ x. ok (m.after, x)) (m.replied ∙ ap flown_of first.0);
        sound = m.sound;
        l1 = m.l1;
        absent = m.absent;
        flying = ap (λ x. waiting x key) m.flights ∙ first.1;
        others = λ k other.
            ap (λ x. waiting x k) m.flights ∙ asks-other key k other q.singleflight s.quiet c;
      }

  -- A result for a query that only its leader has asked for.
  pub record Reports (query result : Bytes) (q : QueryCache lib C) : Type 1 where
    pub after : QueryCache lib C
    pub returns : notify_flight_result b query result q ≡ ok (after, [])
    pub sound : IsSound after
    pub l1 : view after.l1 ≡ (spec_exec (puts (hash_query md5 query) result) (view q.l1)).0
    pub absent : (k : Bytes) → hash_query md5 query ≢ k → Absent lib k q.l2 → Absent lib k after.l2
    pub others :
        (k : Bytes)
        → hash_query md5 query ≢ k
        → waiting after.singleflight k ≡ waiting q.singleflight k

  pub notify_flight_result-Reports :
      (query result : Bytes) (q : QueryCache lib C)
      → IsSound q
      → waiting q.singleflight (hash_query md5 query) ≡ some []
      → Reports query result q
  unfolding step spec_step
  notify_flight_result-Reports query result q s flying =
      let key = hash_query md5 query in
      let n = notify_flight_result-Notifies b query result q s in
      let calls : n.calls ≡ [] =
        ap (λ x. x.1) n.notified
        ∙ ap (λ r. r.calls) (step-Agree (answers key result) q.singleflight s.quiet).replied
        ∙ ap (λ o. call_all (Option.get_or o []) result) flying in
      record {
        after = n.after;
        returns = n.returns ∙ ap (λ x. ok (n.after, x)) calls;
        sound = n.sound;
        l1 = n.l1;
        absent = λ k other h.
            subst (Absent lib k) (sym n.l2) (put_l2-Absent b key k result q.l2 other h);
        others = λ k other.
            ap (λ x. waiting x.0 k) n.notified
            ∙ answers-other key k other q.singleflight s.quiet result;
      }

  -- Two queries that are neither cached nor in flight: someone leads the first and then the second,
  -- and a result is reported for the second alone.
  pub record Apart (first second : Bytes) (q : QueryCache lib C) : Type 1 where
    pub sound : IsSound q
    pub absent1 : Absent lib (hash_query md5 first) q.l2
    pub absent2 : Absent lib (hash_query md5 second) q.l2
    pub enabled : q.l1.l1_enabled ≡ true
    pub missing1 : IsMiss (hash_query md5 first) (view q.l1)
    pub missing2 : IsMiss (hash_query md5 second) (view q.l1)
    pub free1 : waiting q.singleflight (hash_query md5 first) ≡ none
    pub free2 : waiting q.singleflight (hash_query md5 second) ≡ none
    pub different : hash_query md5 first ≢ hash_query md5 second

  -- The first is then still in flight and not cached, and the result is cached for the second.
  pub record Overtaken (first second result : Bytes) (c d : C) (q : QueryCache lib C) : Type 1 where
    pub led1 : QueryCache lib C
    pub leads1 : do_single_flight b first c q ≡ ok (led1, record { result = is_leader; calls = [] })
    pub led2 : QueryCache lib C
    pub leads2 :
        do_single_flight b second d led1 ≡ ok (led2, record { result = is_leader; calls = [] })
    pub told : QueryCache lib C
    pub tells : notify_flight_result b second result led2 ≡ ok (told, [])
    pub sound : IsSound told
    pub absent1 : Absent lib (hash_query md5 first) told.l2
    pub missing1 : IsMiss (hash_query md5 first) (view told.l1)
    pub flying1 : waiting told.singleflight (hash_query md5 first) ≡ some []
    pub cached2 : (spec_exec (gets (hash_query md5 second)) (view told.l1)).1 ≡ some result

  pub leads-Overtaken :
      (first second result : Bytes) (c d : C) (q : QueryCache lib C)
      → Apart first second q
      → Overtaken first second result c d q
  leads-Overtaken first second result c d q h =
      let key1 = hash_query md5 first in
      let key2 = hash_query md5 second in
      let one = do_single_flight-Leads first c q h.sound h.absent1 h.missing1 h.free1 in
      let two =
        do_single_flight-Leads second d one.after one.sound (one.absent key2 h.absent2)
          (ap (λ m. (spec_exec (gets key2) m).1) one.l1 ∙ h.missing2)
          (one.others key2 h.different ∙ h.free2) in
      let told = notify_flight_result-Reports second result two.after two.sound two.flying in
      let l1 : view told.after.l1 ≡ (spec_exec (puts key2 result) (view q.l1)).0 =
        told.l1 ∙ ap (λ m. (spec_exec (puts key2 result) m).0) (two.l1 ∙ one.l1) in
      let different' : key2 ≢ key1 = λ e. h.different (sym e) in
      record {
        led1 = one.after;
        leads1 = one.returns;
        led2 = two.after;
        leads2 = two.returns;
        told = told.after;
        tells = told.returns;
        sound = told.sound;
        absent1 = told.absent key1 different' (two.absent key1 (one.absent key1 h.absent1));
        missing1 =
            ap (λ m. (spec_exec (gets key1) m).1) l1
            ∙ puts-IsMiss key2 key1 result (view q.l1) different' h.missing1;
        flying1 = told.others key1 different' ∙ two.others key1 different' ∙ one.flying;
        cached2 =
            ap (λ m. (spec_exec (gets key2) m).1) l1
            ∙ spec_get-put key2 result (view q.l1) h.enabled;
      }
