-- ===== src/SingleFlight/Threads.antt =====
-- src/SingleFlight/SingleFlight.cpp under threads: the blocks under one lock are the steps, and a
-- schedule says which thread takes the next one. `log` holds the callbacks made so far.
pub mod Sound
pub mod Owed
pub mod Race
use mathlib.Core.List.{lookup}
use single_flight_proxy_serv.Prelude.{
  ℕ, ◌≡◌, ◌<◌, ◌≤◌, Bool, true, false, Option, none, some, List, [], ◌∷◌, ◌++◌, arith, Bytes,
  if◌then◌else◌,
}
use single_flight_proxy_serv.SingleFlight.{
  SingleFlight, update, init, find_or_create, join, locate, publish, retire,
}
use single_flight_proxy_serv.SingleFlight.Invariant.{
  Inv, init-Inv, find_or_create-Inv, join-Inv, publish-Inv, retire-Inv,
}

-- Where a thread stands between two blocks, with the local variables that it still needs.
pub data Pc (C : Type 0) : Type 0 where
  idle : Pc C
  joining : ℕ → C → Pc C
  located : ℕ → Bytes → Bytes → Pc C
  calling : Bytes → Bytes → List C → Pc C

pub record System (C : Type 0) : Type 0 where
  pub flights : SingleFlight C
  pub pc : ℕ → Pc C
  pub log : List (C × Bytes)

-- Thread `i` calls `doSingleFlight` or `notifyResult`, or goes on.
pub data Event (C : Type 0) : Type 0 where
  ask : ℕ → Bytes → C → Event C
  answer : ℕ → Bytes → Bytes → Event C
  go : ℕ → Event C

module _ {C : Type 0} where
  unfoldable pub start : System C
  unfolding init
  start = record { flights = init; pc = λ _. idle; log = [] }

  -- The first block of a call. A thread that is in a call cannot begin another one.
  unfoldable pub begin_ask : Pc C → ℕ → Bytes → C → System C → System C
  begin_ask idle i k c s =
      let (flights, f, is_new) = find_or_create k s.flights in
      record s { flights = flights; pc = update s.pc i (if is_new then idle else joining f c) }
  begin_ask _ i k c s = s

  unfoldable pub begin_answer : Pc C → ℕ → Bytes → Bytes → System C → System C
  begin_answer idle i k r s = elim (locate k s.flights) [
    | none ↦ s
    | some f ↦ record s { pc = update s.pc i (located f k r) }
  ]
  begin_answer _ i k r s = s

  -- The next block of the call that the thread is in.
  unfoldable pub advance : Pc C → ℕ → System C → System C
  advance idle i s = s
  advance (joining f c) i s =
      let (flights, calls) = join f c s.flights in
      record s { flights = flights; pc = update s.pc i idle; log = s.log ++ calls }
  advance (located f k r) i s =
      let (flights, callbacks) = publish f r s.flights in
      record s { flights = flights; pc = update s.pc i (calling k r callbacks) }
  advance (calling k r (c ∷ cs)) i s = record s {
    pc = update s.pc i (calling k r cs);
    log = s.log ++ (c, r) ∷ [];
  }
  advance (calling k r []) i s = record s { flights = retire k s.flights; pc = update s.pc i idle }

  unfoldable pub step : Event C → System C → System C
  step (ask i k c) s = begin_ask (s.pc i) i k c s
  step (answer i k r) s = begin_answer (s.pc i) i k r s
  step (go i) s = advance (s.pc i) i s

  unfoldable pub run : List (Event C) → System C → System C
  run [] s = s
  run (e ∷ es) s = run es (step e s)

  -- The addresses that a thread holds are allocated.
  abbrev pub Holds : ℕ → Pc C → Type 0
  Holds n idle = Unit {0}
  Holds n (joining f c) = f < n
  Holds n (located f k r) = f < n
  Holds n (calling k r cs) = Unit {0}

pub record IsSound {C : Type 0} (s : System C) : Type 0 where
  pub inv : Inv s.flights
  pub holds : (i : ℕ) → Holds s.flights.next (s.pc i)
