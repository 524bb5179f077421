-- ===== src/Tests/Flights.antt =====
-- Tests of src/SingleFlight/SingleFlight.cpp: the callbacks are numbers.
use single_flight_proxy_serv.Prelude.{
  ℕ, ◌≡◌, ◌≢◌, refl, none, some, false, List, [], ◌∷◌, ◌++◌, arith, Bytes-discrete, ℕ_discrete,
}
use single_flight_proxy_serv.Prelude.Dict.{insert}
use mathlib.Core.List.{lookup}
use single_flight_proxy_serv.SingleFlight.{
  is_leader, call_all, init, find_or_create, create, join, publish,
}
use single_flight_proxy_serv.SingleFlight.Refinement.{
  Call, asks, answers, view, init-IsQuiet, step as call_step,
}
use single_flight_proxy_serv.SingleFlight.Delivery.{
  run as run_calls, spec_run, Agrees, run-Agrees, asked, flight-delivers,
}
use single_flight_proxy_serv.SingleFlight.Threads.{
  System, Event, ask, answer, go, start, step, run, begin_ask, begin_answer, advance,
}
use single_flight_proxy_serv.SingleFlight.Threads.Sound.{run-IsSound, start-IsSound}
use single_flight_proxy_serv.SingleFlight.Threads.Owed.{Owed, waiter-Owed}
use single_flight_proxy_serv.SingleFlight.Threads.Race.{
  goes, CalledBack, goes-CalledBack, late_waiter_lost,
}
use single_flight_proxy_serv.Tests.{key_a, key_b, result_one, result_two}

-- Others ask for the key, and for another key, which is answered.
abbrev busy : List (Call ℕ)
busy = asks key_a 2 ∷ asks key_b 3 ∷ answers key_b result_two ∷ asks key_a 4 ∷ []

a_not_b : key_a ≢ key_b
a_not_b e = ground arith

run-Agrees_example : Agrees (run_calls busy (init {C = ℕ})) (spec_run busy (view init))
run-Agrees_example = run-Agrees busy init init-IsQuiet

flight-delivers_example :
    let led = call_step (asks key_a 1) (init {C = ℕ}) in
    let waited = run_calls busy led.0 in
    let answered = call_step (answers key_a result_one) waited.0 in
    (led.1.returned ≡ some is_leader)
    × (answered.1.calls ≡ call_all (asked key_a busy) result_one)
    × (view answered.0 key_a ≡ none)
unfolding init lookup
flight-delivers_example =
    flight-delivers key_a result_one 1 busy init init-IsQuiet refl (a_not_b, tt)

-- Thread 0 leads, and thread 1 waits.
abbrev asked_twice : List (Event ℕ)
asked_twice = ask 0 key_a 10 ∷ ask 1 key_a 11 ∷ []

waiter-Owed_example :
    Owed 11 0 (run (go 1 ∷ answer 2 key_a result_one ∷ go 2 ∷ []) (run asked_twice start))
unfolding run step start begin_ask find_or_create create init lookup ℕ_discrete insert
    Bytes-discrete
waiter-Owed_example =
    waiter-Owed 1 0 11 (answer 2 key_a result_one ∷ go 2 ∷ []) (run asked_twice start)
      (run-IsSound asked_twice start start-IsSound) refl

abbrev published : System ℕ
published =
    run (ask 0 key_a 10 ∷ ask 1 key_a 11 ∷ go 1 ∷ answer 2 key_a result_one ∷ go 2 ∷ []) start

goes-CalledBack_example :
    CalledBack 2 key_a result_one (11 ∷ []) published (run (goes 2 2) published)
unfolding run step start begin_ask begin_answer advance lookup find_or_create create init join
    publish ℕ_discrete insert Bytes-discrete
goes-CalledBack_example = goes-CalledBack 2 key_a result_one (11 ∷ []) published refl

abbrev two : ℕ
two = 2

two_not_three : two ≢ 3
two_not_three e = omega arith

two_not_four : two ≢ 4
two_not_four e = omega arith

late_waiter_lost_example :
    let n = published.flights.next in
    let t = run (ask 3 key_a 12 ∷ ask 4 key_a 13 ∷ go 4 ∷ []) published in
    let u = run (goes 2 2) t in
    (step (answer 3 key_a result_two) u ≡ u)
    × (lookup Bytes-discrete key_a u.flights.flights ≡ none)
    × (u.log ≡ published.log ++ call_all (11 ∷ []) result_one)
    × ((u.flights.store n).ready ≡ false)
    × ((u.flights.store n).callbacks ≡ 13 ∷ [])
unfolding run step start begin_ask begin_answer advance lookup find_or_create create init join
    publish ℕ_discrete insert Bytes-discrete
late_waiter_lost_example =
    late_waiter_lost 2 3 4 key_a result_one (11 ∷ []) 12 13 0 published two_not_three two_not_four
      refl refl refl refl refl result_two
