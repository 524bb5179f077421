-- ===== src/QueryCache/Counts.antt =====
-- What src/QueryCache/QueryCache.cpp counts: the statistics after a lookup, on each of its paths.
use single_flight_proxy_serv.Prelude.{
  ◌+◌, ◌^◌, ◌<◌, ◌≡◌, refl, ap, ◌∙◌, inl, inr, Bool, true, false, not, ◌&&◌, Option, none, some,
  arith, Bytes, if◌then◌else◌, Bool-cases, Option-cases, is_some, inc64,
}
use single_flight_proxy_serv.Prelude.Outcome.{ok}
use single_flight_proxy_serv.QueryCache.L1.History.{gets, spec_exec, view}
use single_flight_proxy_serv.QueryCache.L2.{get_l2}
use single_flight_proxy_serv.QueryCache.Counters.{Stats, update_stats}
use single_flight_proxy_serv.QueryCache.Hash.{hash_query}
use single_flight_proxy_serv.QueryCache.Sound.{
  IsSound, l1_gets, l1_puts, get_below_on, get_below_off,
}
use single_flight_proxy_serv.QueryCache.{QueryCache, Build, count, refill, get_after_l1, get}

-- The counters are far from wrapping around.
pub record IsSmall (s : Stats) : Type 0 where
  pub l1_hits : s.l1_hits + 2 < 2 ^ 64
  pub l1_misses : s.l1_misses + 2 < 2 ^ 64
  pub l2_hits : s.l2_hits + 2 < 2 ^ 64
  pub l2_misses : s.l2_misses + 2 < 2 ^ 64

-- How much a lookup adds, by what it found where, and whether there is a second level.
pub record Adds (hit on below : Bool) (s t : Stats) : Type 0 where
  pub l1_hits : t.l1_hits ≡ s.l1_hits + (if hit then 1 else 0)
  pub l1_misses : t.l1_misses ≡ s.l1_misses + (if hit then 0 else if on then 2 else 1)
  pub l2_hits : t.l2_hits ≡ s.l2_hits + (if hit then 0 else if on && below then 1 else 0)
  pub l2_misses : t.l2_misses ≡ s.l2_misses + (if hit then 0 else if on && not below then 2 else 1)

module _ (s : Stats) (small : IsSmall s) where
  hit-Adds : (on below : Bool) → Adds true on below s (update_stats true false s)
  unfolding update_stats inc64
  hit-Adds on below = record {
    l1_hits = omega arith;
    l1_misses = omega arith;
    l2_hits = omega arith;
    l2_misses = omega arith;
  }

  off-Adds : (below : Bool) → Adds false false below s (update_stats false false s)
  unfolding update_stats inc64
  off-Adds below = record {
    l1_hits = omega arith;
    l1_misses = omega arith;
    l2_hits = omega arith;
    l2_misses = omega arith;
  }

  on-Adds :
      (below : Bool)
      → Adds false true below s (update_stats false below (update_stats false false s))
  unfolding update_stats inc64
  on-Adds true = record {
    l1_hits = omega arith;
    l1_misses = omega arith;
    l2_hits = omega arith;
    l2_misses = omega arith;
  }
  on-Adds false = record {
    l1_hits = omega arith;
    l1_misses = omega arith;
    l2_hits = omega arith;
    l2_misses = omega arith;
  }

  Adds-eq :
      (hit on below : Bool) (t u : Stats) (hit' on' : Bool)
      → hit ≡ hit'
      → on ≡ on'
      → t ≡ u
      → Adds hit' on' below s u
      → Adds hit on below s t
  Adds-eq hit on below t u hit' on' e f g a = rw (e, f, g) a

module _ (b : Build) {C : Type 0} where
  open b use {have_hiredis, lib, md5}

  abbrev l1_found : Bytes → QueryCache lib C → Option Bytes
  l1_found query q = (spec_exec (gets (hash_query md5 query)) (view q.l1)).1

  abbrev l2_found : Bytes → QueryCache lib C → Option Bytes
  l2_found query q = (get_l2 have_hiredis lib (hash_query md5 query) q.l2).1

  pub record Counted (query : Bytes) (q : QueryCache lib C) : Type 0 where
    pub after : QueryCache lib C
    pub value : Option Bytes
    pub returns : get b query q ≡ ok (after, value)
    pub adds :
        Adds
          (is_some (l1_found query q))
          q.l2.redis_enabled
          (is_some (l2_found query q))
          q.stats
          after.stats

  -- The statistics after the second level's result.
  refill_stats :
      (k : Bytes) (o : Option Bytes) (q : QueryCache lib C)
      → IsSound q
      → (after : QueryCache lib C) × (value : Option Bytes) × (refill b k o q ≡ ok (after, value))
        × (after.stats ≡ update_stats false (is_some o) q.stats)
  unfolding refill
  refill_stats k none q v = (count b false false q, none, refl, refl)
  refill_stats k (some x) q v =
      let (d, returns, _, _, _) = l1_puts q.l1 v.list v.positive k x in
      (count b false true (record q { l1 = d }), some x, rw returns refl, refl)

  hit-Counted :
      (query x : Bytes) (q : QueryCache lib C)
      → IsSound q
      → IsSmall q.stats
      → l1_found query q ≡ some x
      → Counted query q
  unfolding get get_after_l1
  hit-Counted query x q v small e =
      let (d, returns, _, _, _) = l1_gets q.l1 v.list v.positive (hash_query md5 query) in
      record {
        after = count b true false (record q { l1 = d });
        value = some x;
        returns = rw (returns, e) refl;
        adds = rw e (hit-Adds q.stats small _ _);
      }

  miss-Counted :
      (query : Bytes) (q : QueryCache lib C)
      → IsSound q
      → IsSmall q.stats
      → l1_found query q ≡ none
      → Counted query q
  unfolding get get_after_l1
  miss-Counted query q v small e =
      let key = hash_query md5 query in
      let (d, returns, inv, positive, _) = l1_gets q.l1 v.list v.positive key in
      let q' : QueryCache lib C = count b false false (record q { l1 = d }) in
      elim (Bool-cases q.l2.redis_enabled) [
        | inl on ↦
            let (after, value, filled, stats) =
              refill_stats key (l2_found query q)
                (record q' { l2 = (get_l2 have_hiredis lib key q.l2).0 })
                (record { list = inv; positive = positive; quiet = v.quiet }) in
            record {
              after = after;
              value = value;
              returns = rw (returns, e) (get_below_on b key q' on ∙ filled);
              adds =
                  Adds-eq q.stats small _ _ _ _ _ _ _ (ap is_some e) on stats
                    (on-Adds q.stats small (is_some (l2_found query q)));
            }
        | inr off ↦ record {
          after = q';
          value = none;
          returns = rw (returns, e) (get_below_off b key q' off);
          adds =
              Adds-eq q.stats small _ _ _ _ _ _ _ (ap is_some e) off refl
                (off-Adds q.stats small (is_some (l2_found query q)));
        }
      ]

  -- A lookup on a sound object whose counters are not within two of wrapping around is defined,
  -- and counts: one hit if the first level holds the key; without a second level one miss of each
  -- level; with one two misses of the first level, and one miss of the second with its hit, or two
  -- misses.
  pub get-Counted :
      (query : Bytes) (q : QueryCache lib C) → IsSound q → IsSmall q.stats → Counted query q
  get-Counted query q v small = elim (Option-cases (l1_found query q)) [
    | inl e ↦ miss-Counted query q v small e
    | inr (x, e) ↦ hit-Counted query x q v small e
  ]
