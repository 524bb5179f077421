-- ===== src/Tests/Caches.antt =====
-- Tests of src/QueryCache/QueryCache.cpp: the callbacks are numbers.
use mathlib.Core.List.{lookup}
use single_flight_proxy_serv.Prelude.{
  ℕ, ◌≡◌, refl, true, false, Option, some, List, [], ◌∷◌, ◌++◌, Bytes, arith, Bytes-discrete,
}
use single_flight_proxy_serv.Prelude.Outcome.{Outcome, ok, undefined}
use single_flight_proxy_serv.SingleFlight as Flights
use single_flight_proxy_serv.QueryCache.L1.History.{spec_exec}
use single_flight_proxy_serv.QueryCache.L1.Spec.{spec_get}
use single_flight_proxy_serv.QueryCache.Hash.{hash_query}
use single_flight_proxy_serv.QueryCache.Sound.{IsSound}
use single_flight_proxy_serv.QueryCache.L1
use single_flight_proxy_serv.QueryCache.L1.History.{settings-Inv, init-Inv}
use single_flight_proxy_serv.QueryCache.L2.{initial, key_prefix, get_l2, ask, with_retry, retry}
use single_flight_proxy_serv.QueryCache.Hash.{hex_string, hex_digit}
use single_flight_proxy_serv.QueryCache.{get_after_l1, get_below, refill}
use single_flight_proxy_serv.QueryCache.RoundTrip.{put-get}
use single_flight_proxy_serv.QueryCache.Promotes.{get-again}
use single_flight_proxy_serv.SingleFlight.Refinement.{init-IsQuiet}
use single_flight_proxy_serv.QueryCache.{put, get as get_value}
use single_flight_proxy_serv.Prelude.{inr}
use single_flight_proxy_serv.QueryCache.Serve.{answered-hits}
use single_flight_proxy_serv.QueryCache.Dedup.{Deduplicates, query-Deduplicates}
use single_flight_proxy_serv.QueryCache.Counts.{Counted, get-Counted}
use single_flight_proxy_serv.QueryCache.History.{
  Op, asks, answers, resizes, clears, run, new_cache-IsSound, run-Defined,
}
use single_flight_proxy_serv.QueryCache.{
  QueryCache, new_cache, cache_hit, notify_flight_result, do_single_flight,
}
use single_flight_proxy_serv.Tests.Servers.{
  memory, digest, build, memory-Stores, connected, connected-Absent,
}
use single_flight_proxy_serv.Tests.{key_a, result_one}

abbrev fresh : QueryCache memory ℕ
fresh = new_cache build []

fresh-IsSound : IsSound fresh
fresh-IsSound = new_cache-IsSound build []

-- An empty cache with an empty server behind it.
abbrev behind : QueryCache memory ℕ
behind = record fresh { l2 = connected }

behind-IsSound : IsSound behind
unfolding new_cache
behind-IsSound = record { list = init-Inv; positive = omega arith; quiet = init-IsQuiet }

query-Deduplicates_example : Deduplicates build key_a result_one 1 (2 ∷ 3 ∷ []) behind
unfolding new_cache Flights.init lookup spec_exec spec_get
query-Deduplicates_example =
    query-Deduplicates build key_a result_one 1 (2 ∷ 3 ∷ []) behind behind-IsSound
      (connected-Absent (hash_query digest key_a)) refl refl

answered-hits_example :
    (answered : QueryCache memory ℕ) × (calls : List (ℕ × Bytes)) × (notify_flight_result build
        key_a result_one fresh
      ≡ ok (answered, calls))
    × ((c : ℕ)
        → (after : QueryCache memory ℕ) × (do_single_flight build key_a c answered
            ≡ ok (after, record { result = cache_hit; calls = (c, result_one) ∷ [] })))
unfolding new_cache
answered-hits_example = answered-hits build key_a result_one fresh fresh-IsSound refl

get-Counted_example : Counted build key_a fresh
unfolding new_cache
get-Counted_example = get-Counted build key_a fresh fresh-IsSound (record {
  l1_hits = omega arith;
  l1_misses = omega arith;
  l2_hits = omega arith;
  l2_misses = omega arith;
})

abbrev day : List (Op ℕ)
day = asks key_a 1 ∷ asks key_a 2 ∷ answers key_a result_one ∷ resizes 2 ∷ clears ∷ []

run-Defined_example :
    (after : QueryCache memory ℕ) × (calls : List (ℕ × Bytes)) × (run build day fresh
      ≡ ok (after, calls))
    × IsSound after
run-Defined_example =
    run-Defined build day fresh fresh-IsSound (tt, (tt, (tt, (omega arith, (tt, tt)))))

-- A disabled first level, and a server.
abbrev remote : QueryCache memory ℕ
remote = record fresh { l1 = record L1.init { l1_enabled = false }; l2 = connected }

remote-IsSound : IsSound remote
unfolding new_cache
remote-IsSound = record {
  list = settings-Inv L1.init 1000 false init-Inv;
  positive = omega arith;
  quiet = init-IsQuiet;
}

put-get_example :
    (stored after : QueryCache memory ℕ) × (put build key_a result_one remote ≡ ok stored)
    × (get_value build key_a stored ≡ ok (after, some result_one))
put-get_example = put-get build key_a result_one remote memory-Stores remote-IsSound (inr (1, refl))

-- An empty first level, and a server that holds the result.
abbrev promoting : QueryCache memory ℕ
promoting = record fresh {
  l2 = record (initial memory ((key_prefix ++ hash_query digest key_a, result_one) ∷ [])) {
    redis_ctx = some 1;
    redis_host = key_a;
    redis_enabled = true;
  };
}

abbrev left : Outcome (QueryCache memory ℕ × Option Bytes) → QueryCache memory ℕ
left (ok (q, found)) = q
left undefined = fresh

abbrev promoted : QueryCache memory ℕ
promoted = left (get_value build key_a promoting)

promoting_run : get_value build key_a promoting ≡ ok (promoted, some result_one)
unfolding get_value hash_query lookup new_cache L1.get_l1 get_after_l1 get_below refill get_l2 ask
    with_retry retry Bytes-discrete hex_string hex_digit L1.put_l1
promoting_run = refl

promoting-IsSound : IsSound promoting
unfolding new_cache
promoting-IsSound = record { list = init-Inv; positive = omega arith; quiet = init-IsQuiet }

promoting_enabled : promoting.l1.l1_enabled ≡ true
unfolding new_cache
promoting_enabled = refl

get-again_example :
    (again : QueryCache memory ℕ) × (get_value build key_a promoted ≡ ok (again, some result_one))
    × (again.l2 ≡ promoted.l2)
get-again_example =
    get-again build key_a result_one promoting promoting-IsSound promoting_enabled promoting_run
