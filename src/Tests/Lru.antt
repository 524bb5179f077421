-- ===== src/Tests/Lru.antt =====
-- Tests of the first cache level of src/QueryCache/QueryCache.cpp.
use mathlib.Core.List.{lookup}
use single_flight_proxy_serv.Prelude.{
  ◌≤◌, ◌<◌, ◌≡◌, ◌↔◌, refl, true, false, Option, List, [], ◌∷◌, Bytes, arith, Bytes-discrete,
}
use single_flight_proxy_serv.Prelude.Dict.{insert}
use single_flight_proxy_serv.Prelude.Outcome.{ok, undefined}
use single_flight_proxy_serv.QueryCache.L1.{L1Cache, init, push_back, put_l1, l1_size}
use single_flight_proxy_serv.QueryCache.L1.Invariant.{Inv}
use single_flight_proxy_serv.QueryCache.L1.Put.{put_l1-undefined}
use single_flight_proxy_serv.QueryCache.L1.History.{
  Op, gets, puts, resizes, enables, run, spec_run, view, RunAgrees, run-RunAgrees, init-Inv,
  settings-Inv,
}
use single_flight_proxy_serv.QueryCache.L1.Room.{push_back-Inv}
use single_flight_proxy_serv.QueryCache.L1.Bounds.{run-bounded}
use single_flight_proxy_serv.Tests.{key_a, key_b, result_one, result_two}

-- A cache for one entry, which is full.
abbrev full : L1Cache
full = push_back key_a result_one (record init { l1_max_size = 1 })

full-Inv : Inv full
unfolding lookup
full-Inv = push_back-Inv key_a result_one (settings-Inv init 1 true init-Inv) refl

-- Of size zero, and empty.
abbrev closed : L1Cache
closed = record init { l1_max_size = 0 }

put_l1-undefined_example :
    (put_l1 key_a result_one closed ≡ undefined)
    ↔ ((closed.l1_enabled ≡ true) × (closed.l1_max_size ≡ 0) × (closed.l1_list ≡ []))
put_l1-undefined_example = put_l1-undefined key_a result_one (settings-Inv init 0 true init-Inv)

abbrev mixed : List Op
mixed =
    resizes 1
    ∷ puts key_a result_one
    ∷ puts key_b result_two
    ∷ gets key_a
    ∷ gets key_b
    ∷ enables false
    ∷ []

positive : 0 < init.l1_max_size
positive = omega arith

run-RunAgrees_example : RunAgrees (run mixed init) (spec_run mixed (view init))
run-RunAgrees_example =
    run-RunAgrees mixed init init-Inv positive (omega arith, (tt, (tt, (tt, (tt, (tt, tt))))))

run-bounded_example :
    (d : L1Cache) × (found : List (Option Bytes)) × (run
        (puts key_a result_one ∷ puts key_b result_two ∷ gets key_b ∷ [])
        full
      ≡ ok (d, found))
    × (l1_size d ≤ full.l1_max_size)
unfolding push_back l1_size insert Bytes-discrete
run-bounded_example =
    run-bounded (puts key_a result_one ∷ puts key_b result_two ∷ gets key_b ∷ []) full full-Inv
      (tt, (tt, (tt, tt))) (omega arith) (omega arith)
