-- ===== src/SingleFlight/Refinement.antt =====
-- src/SingleFlight/SingleFlight.cpp against its contract, where each call runs without another one
-- in between: a key is idle, or a list of callbacks waits for its leader's result.
use mathlib.Core.List.{lookup}
use mathlib.Core.Option
use single_flight_proxy_serv.Prelude.{
  ℕ, ◌≡◌, refl, false, Option, none, some, List, [], ◌∷◌, ◌++◌, arith, Bytes, ite, fun_ext,
  Bytes-discrete, Option-cases, inl, inr,
}
use single_flight_proxy_serv.Prelude.Dict.{lookup-erase, lookup-insert}
use single_flight_proxy_serv.SingleFlight.{
  SingleFlight, Result, is_leader, is_waiter, init, create, find_or_create, join, publish, retire,
  clear, do_single_flight, notify_result, call_all,
}
use single_flight_proxy_serv.SingleFlight.Invariant.{
  Inv, init-Inv, retire-Inv, create-Inv, join-Inv, publish-Inv, clear-Inv,
}

-- The contract's state: the callbacks that wait for a key, if a leader is fetching it.
abbrev pub Waiting : Type 0 → Type 0
Waiting C = Bytes → Option (List C)

pub data Call (C : Type 0) : Type 0 where
  asks : Bytes → C → Call C
  answers : Bytes → Bytes → Call C
  clears : Call C

-- What a call returns, and the callbacks that it makes.
pub record Reply (C : Type 0) : Type 0 where
  pub returned : Option Result
  pub calls : List (C × Bytes)

-- Between two calls no flight in the table is ready.
pub record IsQuiet {C : Type 0} (s : SingleFlight C) : Type 0 where
  pub inv : Inv s
  pub pending :
      (k : Bytes) (f : ℕ) → lookup Bytes-discrete k s.flights ≡ some f → (s.store f).ready ≡ false

module _ {C : Type 0} where
  abbrev pub assign : Bytes → Option (List C) → Waiting C → Waiting C
  assign k o w j = ite (Bytes-discrete k j) o (w j)

  -- The contract: the first to ask leads, the others wait in order, an answer goes to all of them.
  unfoldable pub spec_step : Call C → Waiting C → Waiting C × Reply C
  spec_step (asks k c) w = elim (w k) [
    | none ↦ (assign k (some []) w, record { returned = some is_leader; calls = [] })
    | some cs ↦ (assign k (some (cs ++ c ∷ [])) w, record { returned = some is_waiter; calls = [] })
  ]
  spec_step (answers k r) w =
      (assign k none w, record { returned = none; calls = call_all (Option.get_or (w k) []) r })
  spec_step clears w = (λ _. none, record { returned = none; calls = [] })

  unfoldable pub step : Call C → SingleFlight C → SingleFlight C × Reply C
  step (asks k c) s =
      let (s', r, calls) = do_single_flight k c s in
      (s', record { returned = some r; calls = calls })
  step (answers k r) s =
      let (s', calls) = notify_result k r s in (s', record { returned = none; calls = calls })
  step clears s = (clear s, record { returned = none; calls = [] })

  abbrev pub view : SingleFlight C → Waiting C
  view s k = Option.map (λ f. (s.store f).callbacks) (lookup Bytes-discrete k s.flights)

  pub init-IsQuiet : IsQuiet {C = C} init
  unfolding init lookup
  init-IsQuiet = record { inv = init-Inv; pending = λ k f e. ground arith }

  -- The code and the contract, after the same call.
  pub record Agree (x : SingleFlight C × Reply C) (y : Waiting C × Reply C) : Type 0 where
    pub quiet : IsQuiet x.0
    pub seen : view x.0 ≡ y.0
    pub replied : x.1 ≡ y.1

  module _ (k : Bytes) (s : SingleFlight C) where
    do_single_flight_first :
        (c : C)
        → lookup Bytes-discrete k s.flights ≡ none
        → do_single_flight k c s ≡ ((create k s).0, is_leader, [])
    unfolding do_single_flight create
    do_single_flight_first c e = rw (e, find_or_create)

    do_single_flight_again :
        (c : C) (f : ℕ)
        → lookup Bytes-discrete k s.flights ≡ some f
        → (s.store f).ready ≡ false
        → do_single_flight k c s ≡ ((join f c s).0, is_waiter, [])
    unfolding do_single_flight
    do_single_flight_again c f e pending = ground arith

    notify_result-some :
        (r : Bytes) (f : ℕ)
        → lookup Bytes-discrete k s.flights ≡ some f
        → notify_result k r s ≡ (retire k (publish f r s).0, call_all (s.store f).callbacks r)
    unfolding notify_result
    notify_result-some r f e = rw (e, notify_result)

    notify_result-none :
        (r : Bytes) → lookup Bytes-discrete k s.flights ≡ none → notify_result k r s ≡ (s, [])
    unfolding notify_result
    notify_result-none r e = rw (e, notify_result)

    view-create : (j : Bytes) → Inv s → view (create k s).0 j ≡ assign k (some []) (view s) j
    unfolding create
    view-create j v = elim (Option-cases (lookup Bytes-discrete j s.flights)) [
      | inl e ↦ ground (arith, lookup-insert Bytes-discrete k j s.next s.flights)
      | inr (f, e) ↦
          ground (arith, lookup-insert Bytes-discrete k j s.next s.flights, v.below j f e)
    ]

    create-IsQuiet : IsQuiet s → lookup Bytes-discrete k s.flights ≡ none → IsQuiet (create k s).0
    unfolding create
    create-IsQuiet q e = record {
      inv = create-Inv k s q.inv;
      pending =
          λ j g h. ground (arith, lookup-insert Bytes-discrete k j s.next s.flights, q.pending j g);
    }

    ask_first :
        (c : C)
        → IsQuiet s
        → lookup Bytes-discrete k s.flights ≡ none
        → Agree (step (asks k c) s) (spec_step (asks k c) (view s))
    unfolding step spec_step
    ask_first c q e =
        rw (do_single_flight_first c e, e, spec_step)
          (record {
            quiet = create-IsQuiet q e;
            seen = fun_ext λ j. view-create j q.inv;
            replied = refl;
          })

    ask_again :
        (c : C) (f : ℕ)
        → IsQuiet s
        → lookup Bytes-discrete k s.flights ≡ some f
        → Agree (step (asks k c) s) (spec_step (asks k c) (view s))
    unfolding step spec_step join
    ask_again c f q e =
        rw (do_single_flight_again c f e (q.pending k f e), e, spec_step)
          (record {
            quiet = record {
              inv = join-Inv f c s q.inv;
              pending = λ j g h. ground (arith, q.pending j g, q.pending k f);
            };
            seen = fun_ext λ j. ground (arith, q.inv.apart k j f, q.pending k f);
            replied = refl;
          })

    answer :
        (r : Bytes) (f : ℕ)
        → IsQuiet s
        → lookup Bytes-discrete k s.flights ≡ some f
        → Agree (step (answers k r) s) (spec_step (answers k r) (view s))
    unfolding step spec_step publish retire
    answer r f q e =
        rw (notify_result-some r f e, e)
          (record {
            quiet = record {
              inv = retire-Inv k (publish f r s).0 (publish-Inv f r s q.inv);
              pending = λ j g h. ground (
                arith,
                lookup-erase Bytes-discrete k j s.flights,
                q.pending j g,
                q.inv.apart k j g,
              );
            };
            seen =
                fun_ext
                  λ j. ground (arith, lookup-erase Bytes-discrete k j s.flights, q.inv.apart k j f);
            replied = refl;
          })

    answer_none :
        (r : Bytes)
        → IsQuiet s
        → lookup Bytes-discrete k s.flights ≡ none
        → Agree (step (answers k r) s) (spec_step (answers k r) (view s))
    unfolding step spec_step
    answer_none r q e =
        rw (notify_result-none r e, e)
          (record { quiet = q; seen = fun_ext λ j. ground arith; replied = refl })

  -- Each call does what the contract says, and leaves the code between two calls again.
  pub step-Agree :
      (call : Call C) (s : SingleFlight C)
      → IsQuiet s
      → Agree (step call s) (spec_step call (view s))
  unfolding step spec_step clear lookup
  step-Agree (asks k c) s q = elim (Option-cases (lookup Bytes-discrete k s.flights)) [
    | inl e ↦ ask_first k s c q e
    | inr (f, e) ↦ ask_again k s c f q e
  ]
  step-Agree (answers k r) s q = elim (Option-cases (lookup Bytes-discrete k s.flights)) [
    | inl e ↦ answer_none k s r q e
    | inr (f, e) ↦ answer k s r f q e
  ]
  step-Agree clears s q = record {
    quiet = record { inv = clear-Inv s q.inv; pending = λ k f e. ground arith };
    seen = refl;
    replied = refl;
  }
