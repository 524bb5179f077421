-- ===== src/QueryCache.antt =====
-- src/QueryCache/QueryCache.{hpp,cpp}: the two cache levels and the flights behind one object. A
-- callback that a call makes is reported, with its argument, in a list, in the order of the calls.
-- The log lines are left out.
pub mod L1
pub mod L2
pub mod Hash
pub mod Counters
pub mod Sound
pub mod Serve
pub mod Dedup
pub mod Counts
pub mod History
pub mod RoundTrip
pub mod Promotes
pub mod Mixed
pub mod Values
pub mod Redis
pub mod Absent
pub mod Source
use single_flight_proxy_serv.Prelude.{
  ℕ, zero, suc, ◌+◌, ◌-◌, ◌*◌, ◌/◌, ◌%◌, ◌^◌, ◌≤◌, ◌<◌, ◌≡◌, refl, sym, ap, subst, fun_ext, ◌∙◌,
  ◌≢◌, ◌↔◌, ◌⊎◌, inl, inr, ite, if_pos, if_neg, Bool, true, false, not, ◌&&◌, ◌||◌, Option, none,
  some, List, [], ◌∷◌, ◌++◌, map, arith, dec_lt, ℕ_discrete, Bytes, Bytes-discrete, length, take,
  drop, length-append, ltb, leb, ◌==◌, if◌then◌else◌, Bool-cases, Option-cases, is_some, inc64,
}
use single_flight_proxy_serv.Prelude.Outcome.{Outcome, ok, undefined, ◌>>=◌}
use single_flight_proxy_serv.Prelude.Int.{ℤ}
use single_flight_proxy_serv.SingleFlight
use single_flight_proxy_serv.SingleFlight.{SingleFlight}
use L1.{L1Cache, get_l1, put_l1, l1_size}
use L2.{Hiredis, L2Cache, connect_redis, disconnect_redis, get_l2, put_l2, flush, initial}
use Hash.{hash_query}
use Counters.{Stats, zero_stats, update_stats}

pub data FlightResult : Type 0 where
  cache_hit is_leader is_waiter : FlightResult

pub record QueryCache (lib : Hiredis) (C : Type 0) : Type 0 where
  pub l1 : L1Cache
  pub l2 : L2Cache lib
  pub stats : Stats
  pub singleflight : SingleFlight C

abbrev pub flight_result : SingleFlight.Result → FlightResult
flight_result SingleFlight.Result.is_leader = is_leader
flight_result SingleFlight.Result.is_waiter = is_waiter

-- What a call of `doSingleFlight` returns, and the callbacks that it makes.
pub record Flown (C : Type 0) : Type 0 where
  pub result : FlightResult
  pub calls : List (C × Bytes)

-- How the program was built, and the libraries that it calls.
pub record Build : Type 1 where
  pub have_hiredis : Bool
  pub lib : Hiredis
  pub md5 : Bytes → Bytes

module _ (b : Build) {C : Type 0} where
  open b use {have_hiredis, lib, md5}

  abbrev pub count : Bool → Bool → QueryCache lib C → QueryCache lib C
  count l1_hit l2_hit q = record q { stats = update_stats l1_hit l2_hit q.stats }

  -- The constructor.
  unfoldable pub new_cache : lib.World → QueryCache lib C
  new_cache w = record {
    l1 = L1.init;
    l2 = (connect_redis have_hiredis lib (initial lib w)).0;
    stats = zero_stats;
    singleflight = SingleFlight.init;
  }

  -- The destructor.
  unfoldable pub destroy : QueryCache lib C → QueryCache lib C
  destroy q = record q { l2 = disconnect_redis have_hiredis lib q.l2 }

  unfoldable pub set_redis_config : Bytes → ℤ → ℤ → QueryCache lib C → QueryCache lib C
  set_redis_config host port timeout_ms q = record q {
    l2 = L2.set_redis_config have_hiredis lib host port timeout_ms q.l2;
  }

  unfoldable pub set_l1_max_size : ℕ → QueryCache lib C → QueryCache lib C
  set_l1_max_size n q = record q { l1 = L1.set_l1_max_size n q.l1 }

  unfoldable pub set_l1_enabled : Bool → QueryCache lib C → QueryCache lib C
  set_l1_enabled enabled q = record q { l1 = L1.set_l1_enabled enabled q.l1 }

  -- What `get` makes of the second level's result.
  unfoldable pub refill :
      Bytes → Option Bytes → QueryCache lib C → Outcome (QueryCache lib C × Option Bytes)
  refill key none q = ok (count false false q, none)
  refill key (some v) q = do
    l1 ← put_l1 key v q.l1
    ok (count false true (record q { l1 = l1 }), some v)

  -- What `get` does after a miss in the first level.
  unfoldable pub get_below : Bytes → QueryCache lib C → Outcome (QueryCache lib C × Option Bytes)
  get_below key q =
      if q.l2.redis_enabled
      then (let (l2, l2_result) = get_l2 have_hiredis lib key q.l2 in
          refill key l2_result (record q { l2 = l2 }))
      else ok (q, none)

  unfoldable pub get_after_l1 :
      Bytes → Option Bytes → QueryCache lib C → Outcome (QueryCache lib C × Option Bytes)
  get_after_l1 key none q = get_below key (count false false q)
  get_after_l1 key (some v) q = ok (count true false q, some v)

  unfoldable pub get : Bytes → QueryCache lib C → Outcome (QueryCache lib C × Option Bytes)
  get query q = do
    let key = hash_query md5 query
    (l1, l1_result) ← get_l1 key q.l1
    get_after_l1 key l1_result (record q { l1 = l1 })

  unfoldable pub put : Bytes → Bytes → QueryCache lib C → Outcome (QueryCache lib C)
  put query result q = do
    let key = hash_query md5 query
    l1 ← put_l1 key result q.l1
    let l2 = if q.l2.redis_enabled then put_l2 have_hiredis lib key result q.l2 else q.l2
    ok (record q { l1 = l1; l2 = l2 })

  -- What `doSingleFlight` does with the cached value, or without one.
  unfoldable pub join_flight :
      Bytes → C → Option Bytes → QueryCache lib C → QueryCache lib C × Flown C
  join_flight query on_result (some v) q =
      (q, record { result = cache_hit; calls = (on_result, v) ∷ [] })
  join_flight query on_result none q =
      let (flights, result, calls) =
        SingleFlight.do_single_flight (hash_query md5 query) on_result q.singleflight in
      (record q { singleflight = flights }, record { result = flight_result result; calls = calls })

  unfoldable pub do_single_flight :
      Bytes → C → QueryCache lib C → Outcome (QueryCache lib C × Flown C)
  do_single_flight query on_result q = do
    (q', cached) ← get query q
    ok (join_flight query on_result cached q')

  unfoldable pub notify_flight_result :
      Bytes → Bytes → QueryCache lib C → Outcome (QueryCache lib C × List (C × Bytes))
  notify_flight_result query result q = do
    q' ← put query result q
    let (flights, calls) = SingleFlight.notify_result (hash_query md5 query) result q'.singleflight
    ok (record q' { singleflight = flights }, calls)

  unfoldable pub clear : QueryCache lib C → QueryCache lib C
  clear q = record q { l1 = L1.clear q.l1; l2 = flush have_hiredis lib q.l2; stats = zero_stats }

  unfoldable pub get_stats : QueryCache lib C → Stats
  get_stats q = record q.stats { l1_size = l1_size q.l1 }
