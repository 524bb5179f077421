-- ===== src/QueryCache/Absent.antt =====
-- A key that the second level of src/QueryCache/QueryCache.cpp does not find: there is no server, or
-- the server has no value for it.
use single_flight_proxy_serv.Prelude.{
  ◌≡◌, ◌≢◌, refl, sym, ap, subst, ◌∙◌, true, false, none, ◌++◌, Bytes, Bool-cases, Option-cases,
  inl, inr, ◌⊎◌, if_true, if_false, if◌then◌else◌, drop,
}
use single_flight_proxy_serv.Prelude.Outcome.{ok}
use single_flight_proxy_serv.QueryCache.L2.{Hiredis, L2Cache, get_l2, put_l2, key_prefix}
use single_flight_proxy_serv.QueryCache.Redis.{Redis, get_l2-Holds, get_l2_value, put_l2-Holds}
use single_flight_proxy_serv.QueryCache.Sound.{get_below_on, get_below_off}
use single_flight_proxy_serv.QueryCache.Counters.{Stats}
use single_flight_proxy_serv.QueryCache.{QueryCache, Build, count, refill, get_below}

-- Any key of the server but this one.
abbrev pub Other : Bytes → Bytes → Bytes → Type 0
Other key stored v = stored ≢ key_prefix ++ key

-- Redis is not in use, or it holds no value for the key.
pub record Absent (lib : Hiredis) (key : Bytes) (s : L2Cache lib) : Type 1 where
  pub redis : Redis (Other key) lib
  pub absent : (s.redis_enabled ≡ false) ⊎ redis.Holds s.world

module _ (b : Build) where
  open b use {have_hiredis, lib}

  in_use :
      (key : Bytes) (s : L2Cache lib) (a : Absent lib key s)
      → s.redis_enabled ≡ true
      → a.redis.Holds s.world
  in_use key s a on = elim a.absent [ inl off ↦ absurd (cc (on, off)) | inr h ↦ h ]

  get_l2-none :
      (key : Bytes) (s : L2Cache lib)
      → Absent lib key s
      → s.redis_enabled ≡ true
      → (get_l2 have_hiredis lib key s).1 ≡ none
  get_l2-none key s a on = elim (Option-cases (get_l2 have_hiredis lib key s).1) [
    | inl e ↦ e
    | inr (v, e) ↦
        absurd
          (get_l2_value (Other key) have_hiredis lib a.redis key v s (in_use key s a on) e refl)
  ]

  get_l2-Absent :
      (j key : Bytes) (s : L2Cache lib)
      → s.redis_enabled ≡ true
      → Absent lib key s
      → Absent lib key (get_l2 have_hiredis lib j s).0
  get_l2-Absent j key s on a = record {
    redis = a.redis;
    absent = inr (get_l2-Holds (Other key) have_hiredis lib a.redis j s (in_use key s a on));
  }

  -- After a result has been stored for another key, in a second level that is in use.
  pub put_l2-Absent :
      (j key v : Bytes) (s : L2Cache lib)
      → j ≢ key
      → Absent lib key s
      → Absent lib key (if s.redis_enabled then put_l2 have_hiredis lib j v s else s)
  put_l2-Absent j key v s other a = elim (Bool-cases s.redis_enabled) [
    | inl on ↦
        let stored = in_use key s a on in
        subst (Absent lib key) (sym (if_true s.redis_enabled _ s on)) record {
          redis = a.redis;
          absent = inr (
              put_l2-Holds (Other key) have_hiredis lib a.redis j v s (λ e. other (ap (drop 6) e))
                stored);
        }
    | inr off ↦ subst (Absent lib key) (sym (if_false s.redis_enabled _ s off)) a
  ]

  -- A lookup in the second level of a key that it does not find: only the level itself and the counters
  -- change, and what was absent still is.
  pub record FindsNothing {C : Type 0} (key : Bytes) (q : QueryCache lib C) : Type 1 where
    pub l2 : L2Cache lib
    pub stats : Stats
    pub returns : get_below b key q ≡ ok (record q { l2 = l2; stats = stats }, none)
    pub absent : (k : Bytes) → Absent lib k q.l2 → Absent lib k l2

  pub get_below-FindsNothing :
      {C : Type 0} (key : Bytes) (q : QueryCache lib C) → Absent lib key q.l2 → FindsNothing key q
  unfolding refill
  get_below-FindsNothing key q a = elim (Bool-cases q.l2.redis_enabled) [
    | inl on ↦
        let (l2, found) = get_l2 have_hiredis lib key q.l2 in
        let q' = record q { l2 = l2 } in
        record {
          l2 = l2;
          stats = (count b false false q').stats;
          returns =
              get_below_on b key q on ∙ ap (λ o. refill b key o q') (get_l2-none key q.l2 a on);
          absent = λ k h. get_l2-Absent key k q.l2 on h;
        }
    | inr off ↦ record {
      l2 = q.l2;
      stats = q.stats;
      returns = get_below_off b key q off;
      absent = λ k h. h;
    }
  ]
