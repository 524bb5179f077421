-- ===== src/SingleFlight/Threads/Sound.antt =====
-- Under threads, the table of src/SingleFlight/SingleFlight.cpp and the addresses that the threads
-- hold.
use mathlib.Core.List.{lookup}
use single_flight_proxy_serv.Prelude.{
  ℕ, ◌≡◌, ◌<◌, ◌≤◌, refl, Bool, true, false, List, [], ◌∷◌, arith, Bytes, Bytes-discrete,
  ℕ_discrete, Option-cases, Bool-cases, inl, inr, ite, if◌then◌else◌,
}
use single_flight_proxy_serv.SingleFlight.{
  SingleFlight, update, create, find_or_create, join, locate, publish, retire,
}
use single_flight_proxy_serv.SingleFlight.Invariant.{
  Inv, init-Inv, find_or_create-Inv, join-Inv, publish-Inv, retire-Inv,
}
use single_flight_proxy_serv.SingleFlight.Threads.{
  Pc, idle, joining, located, calling, System, Event, ask, answer, go, start, begin_ask,
  begin_answer, advance, step, run, Holds, IsSound,
}

module _ {C : Type 0} where
  -- What the first block leaves: old flights as they were, and an allocated address.
  pub record Found (s : SingleFlight C) (r : SingleFlight C × ℕ × Bool) : Type 0 where
    pub grows : s.next ≤ r.0.next
    pub allocated : r.1 < r.0.next
    pub keeps : (f : ℕ) → f < s.next → r.0.store f ≡ s.store f

  create-Found : (k : Bytes) (s : SingleFlight C) → Found s (create k s)
  unfolding create
  create-Found k s = record {
    grows = omega arith;
    allocated = omega arith;
    keeps = λ f h. ground arith;
  }

  pub find_or_create-Found : (k : Bytes) (s : SingleFlight C) → Inv s → Found s (find_or_create k s)
  unfolding find_or_create retire
  find_or_create-Found k s v = elim (Option-cases (lookup Bytes-discrete k s.flights)) [
    | inl e ↦ rw (e, find_or_create) (create-Found k s)
    | inr (f, e) ↦ elim (Bool-cases (s.store f).ready) [
      | inl done ↦
          let c = create-Found k (retire k s) in
          rw (e, find_or_create, done)
            (record { grows = c.grows; allocated = c.allocated; keeps = c.keeps })
      | inr pending ↦
          rw (e, find_or_create, pending)
            (record { grows = omega arith; allocated = v.below k f e; keeps = λ g h. refl })
    ]
  ]

  Holds-mono : (m n : ℕ) (p : Pc C) → m ≤ n → Holds m p → Holds n p
  Holds-mono m n idle h held = tt
  Holds-mono m n (joining f c) h held = omega arith
  Holds-mono m n (located f k r) h held = omega arith
  Holds-mono m n (calling k r cs) h held = tt

  -- One thread moves, and no address is freed.
  moved :
      (s : System C) (m n i : ℕ) (p : Pc C)
      → m ≤ n
      → ((j : ℕ) → Holds m (s.pc j))
      → Holds n p
      → (j : ℕ) → Holds n (update s.pc i p j)
  moved s m n i p h held new j = elim (ℕ_discrete i j) as (λ d. Holds n (ite d p (s.pc j))) [
    | yes e ↦ new
    | no e ↦ Holds-mono m n (s.pc j) h (held j)
  ]

  new-Holds :
      (n f : ℕ) (c : C) (is_new : Bool) → f < n → Holds n (if is_new then idle else joining f c)
  new-Holds n f c true h = tt
  new-Holds n f c false h = h

  pub join-next : (f : ℕ) (c : C) (s : SingleFlight C) → (join f c s).0.next ≡ s.next
  unfolding join
  join-next f c s = ground arith

  begin_ask-IsSound :
      (p : Pc C) (i : ℕ) (k : Bytes) (c : C) (s : System C)
      → IsSound s
      → IsSound (begin_ask p i k c s)
  unfolding begin_ask
  begin_ask-IsSound idle i k c s v =
      let found = find_or_create-Found k s.flights v.inv in
      record {
        inv = find_or_create-Inv k s.flights v.inv;
        holds =
            moved s _ _ i _ found.grows v.holds
              (new-Holds _ _ c (find_or_create k s.flights).2 found.allocated);
      }
  begin_ask-IsSound _ i k c s v = v

  begin_answer-IsSound :
      (p : Pc C) (i : ℕ) (k r : Bytes) (s : System C) → IsSound s → IsSound (begin_answer p i k r s)
  unfolding begin_answer
  begin_answer-IsSound idle i k r s v = elim (Option-cases (locate k s.flights)) [
    | inl e ↦ rw (e, begin_answer) v
    | inr (f, e) ↦
        rw (e, begin_answer)
          (record {
            inv = v.inv;
            holds = moved s _ _ i (located f k r) (omega arith) v.holds (v.inv.below k f e);
          })
  ]
  begin_answer-IsSound _ i k r s v = v

  advance-IsSound : (p : Pc C) (i : ℕ) (s : System C) → IsSound s → IsSound (advance p i s)
  unfolding advance publish retire
  advance-IsSound idle i s v = v
  advance-IsSound (joining f c) i s v = record {
    inv = join-Inv f c s.flights v.inv;
    holds = moved s _ _ i idle (omega (arith, join-next f c s.flights)) v.holds tt;
  }
  advance-IsSound (located f k r) i s v = record {
    inv = publish-Inv f r s.flights v.inv;
    holds = moved s _ _ i (calling k r _) (omega arith) v.holds tt;
  }
  advance-IsSound (calling k r (c ∷ cs)) i s v = record {
    inv = v.inv;
    holds = moved s _ _ i (calling k r cs) (omega arith) v.holds tt;
  }
  advance-IsSound (calling k r []) i s v = record {
    inv = retire-Inv k s.flights v.inv;
    holds = moved s _ _ i idle (omega arith) v.holds tt;
  }

  pub step-IsSound : (e : Event C) (s : System C) → IsSound s → IsSound (step e s)
  unfolding step
  step-IsSound (ask i k c) s v = begin_ask-IsSound (s.pc i) i k c s v
  step-IsSound (answer i k r) s v = begin_answer-IsSound (s.pc i) i k r s v
  step-IsSound (go i) s v = advance-IsSound (s.pc i) i s v

  pub start-IsSound : IsSound {C = C} start
  unfolding start
  start-IsSound = record { inv = init-Inv; holds = λ i. tt }

  -- From a state in which the table's flights are allocated and one-to-one with its keys, and the
  -- threads hold allocated addresses, every schedule leads to such a state.
  pub run-IsSound : (es : List (Event C)) (s : System C) → IsSound s → IsSound (run es s)
  unfolding run
  run-IsSound [] s v = v
  run-IsSound (e ∷ es) s v = run-IsSound es (step e s) (step-IsSound e s v)
