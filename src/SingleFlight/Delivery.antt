-- ===== src/SingleFlight/Delivery.antt =====
-- Histories of src/SingleFlight/SingleFlight.cpp, one call after the other: who leads, who waits,
-- and who is called back with what.
use mathlib.Core.List.{map, append_assoc, append-nil}
use single_flight_proxy_serv.Prelude.{
  ◌≡◌, ◌≢◌, refl, ap, ◌∙◌, none, some, List, [], ◌∷◌, ◌++◌, arith, Bytes, Bytes-discrete, ite,
  if_pos, if_neg, Option-cases, inl, inr,
}
use single_flight_proxy_serv.SingleFlight.{is_waiter, SingleFlight, is_leader, call_all}
use single_flight_proxy_serv.SingleFlight.Refinement.{
  Waiting, Call, asks, answers, clears, Reply, IsQuiet, spec_step, step, view, step-Agree,
}

module _ {C : Type 0} where
  unfoldable pub run : List (Call C) → SingleFlight C → SingleFlight C × List (Reply C)
  run [] s = (s, [])
  run (call ∷ calls) s =
      let (s1, reply) = step call s in let (s2, replies) = run calls s1 in (s2, reply ∷ replies)

  unfoldable pub spec_run : List (Call C) → Waiting C → Waiting C × List (Reply C)
  spec_run [] w = (w, [])
  spec_run (call ∷ calls) w =
      let (w1, reply) = spec_step call w in
      let (w2, replies) = spec_run calls w1 in (w2, reply ∷ replies)

  pub record Agrees (x : SingleFlight C × List (Reply C)) (y : Waiting C × List (Reply C))
      : Type 0 where
    pub quiet : IsQuiet x.0
    pub seen : view x.0 ≡ y.0
    pub replied : x.1 ≡ y.1

  -- Between two calls, any history of calls gets the contract's replies, and leaves what the
  -- contract's state describes, between two calls again.
  pub run-Agrees :
      (calls : List (Call C)) (s : SingleFlight C)
      → IsQuiet s
      → Agrees (run calls s) (spec_run calls (view s))
  unfolding run spec_run
  run-Agrees [] s q = record { quiet = q; seen = refl; replied = refl }
  run-Agrees (call ∷ calls) s q =
      let now = step-Agree call s q in
      let rest = run-Agrees calls (step call s).0 now.quiet in
      record {
        quiet = rest.quiet;
        seen = rw (← now.seen) rest.seen;
        replied = rw (← now.seen, now.replied) (ap (◌∷◌ (spec_step call (view s)).1) rest.replied);
      }

  -- The callbacks that ask for a key, in order.
  unfoldable pub asked : Bytes → List (Call C) → List C
  asked k [] = []
  asked k (asks j c ∷ calls) = ite (Bytes-discrete k j) (c ∷ asked k calls) (asked k calls)
  asked k (_ ∷ calls) = asked k calls

  -- Nobody answers for the key, or clears the table.
  abbrev pub Leaves : Bytes → List (Call C) → Type 0
  Leaves k [] = Unit {0}
  Leaves k (asks j c ∷ calls) = Leaves k calls
  Leaves k (answers j r ∷ calls) = (k ≢ j) × Leaves k calls
  Leaves k (clears ∷ calls) = ⊥

  spec_ask :
      (k j : Bytes) (c : C) (w : Waiting C) (cs : List C)
      → w k ≡ some cs
      → (spec_step (asks j c) w).0 k ≡ some (ite (Bytes-discrete k j) (cs ++ c ∷ []) cs)
  unfolding spec_step
  spec_ask k j c w cs e = elim (Option-cases (w j)) [
    | inl idle ↦ rw (idle, spec_step) (ground arith)
    | inr (ds, waits) ↦ rw (waits, spec_step) (ground arith)
  ]

  spec_answer :
      (k j r : Bytes) (w : Waiting C) (cs : List C)
      → k ≢ j
      → w k ≡ some cs
      → (spec_step (answers j r) w).0 k ≡ some cs
  unfolding spec_step
  spec_answer k j r w cs h e = ground arith

  spec_run-asked :
      (k : Bytes) (calls : List (Call C)) (w : Waiting C) (cs : List C)
      → Leaves k calls
      → w k ≡ some cs
      → (spec_run calls w).0 k ≡ some (cs ++ asked k calls)
  unfolding spec_run asked
  spec_run-asked k [] w cs h e = rw append-nil e
  spec_run-asked k (asks j c ∷ calls) w cs h e = elim (Bytes-discrete k j) [
    | yes p ↦ rw (if_pos _ p) (
        spec_run-asked k calls (spec_step (asks j c) w).0 (cs ++ c ∷ []) h
          (spec_ask k j c w cs e ∙ ap some (if_pos (Bytes-discrete k j) p (cs ++ c ∷ []) cs))
        ∙ ap some (append_assoc cs (c ∷ []) (asked k calls)))
    | no n ↦ rw (if_neg _ n) (
        spec_run-asked k calls (spec_step (asks j c) w).0 cs h
          (spec_ask k j c w cs e ∙ ap some (if_neg (Bytes-discrete k j) n (cs ++ c ∷ []) cs)))
  ]
  spec_run-asked k (answers j r ∷ calls) w cs h e =
      spec_run-asked k calls (spec_step (answers j r) w).0 cs h.1 (spec_answer k j r w cs h.0 e)
  spec_run-asked k (clears ∷ calls) w cs h e = absurd h

  spec_ask_idle :
      (k : Bytes) (c : C) (w : Waiting C)
      → w k ≡ none
      → ((spec_step (asks k c) w).0 k ≡ some [])
        × ((spec_step (asks k c) w).1.returned ≡ some is_leader)
        × ((spec_step (asks k c) w).1 ≡ record { returned = some is_leader; calls = [] })
  unfolding spec_step
  spec_ask_idle k c w e =
      rw (e, spec_step) (if_pos (Bytes-discrete k k) refl (some []) (w k), refl, refl)

  spec_waits :
      (k : Bytes) (c : C) (w : Waiting C) (cs : List C)
      → w k ≡ some cs
      → (spec_step (asks k c) w).1 ≡ record { returned = some is_waiter; calls = [] }
  unfolding spec_step
  spec_waits k c w cs e = rw (e, spec_step) refl

  spec_answer_self :
      (k r : Bytes) (w : Waiting C) (cs : List C)
      → w k ≡ some cs
      → ((spec_step (answers k r) w).1.calls ≡ call_all cs r)
        × ((spec_step (answers k r) w).0 k ≡ none)
  unfolding spec_step
  spec_answer_self k r w cs e = (rw e, if_pos (Bytes-discrete k k) refl none (w k))

  -- Between two calls, for an idle key: whatever else is asked and answered between the first call
  -- that asks for it and its answer, as long as nobody else answers for it or clears the table,
  -- the first to ask leads, and the answer goes to all who asked after, once each, in their order.
  -- Then the key is idle again.
  pub flight-delivers :
      (k r : Bytes) (c : C) (calls : List (Call C)) (s : SingleFlight C)
      → IsQuiet s
      → view s k ≡ none
      → Leaves k calls
      → let led = step (asks k c) s in
        let waited = run calls led.0 in
        let answered = step (answers k r) waited.0 in
        (led.1.returned ≡ some is_leader)
        × (answered.1.calls ≡ call_all (asked k calls) r)
        × (view answered.0 k ≡ none)
  flight-delivers k r c calls s q idle h =
      let led = step-Agree (asks k c) s q in
      let waited = run-Agrees calls (step (asks k c) s).0 led.quiet in
      let answered = step-Agree (answers k r) _ waited.quiet in
      let first = spec_ask_idle k c (view s) idle in
      let waiting =
        ap (λ w. w k) waited.seen
        ∙ spec_run-asked k calls (view (step (asks k c) s).0) [] h
            (ap (λ w. w k) led.seen ∙ first.0) in
      let last = spec_answer_self k r _ (asked k calls) waiting in
      (
        ap (λ reply. reply.returned) led.replied ∙ first.1,
        ap (λ reply. reply.calls) answered.replied ∙ last.0,
        ap (λ w. w k) answered.seen ∙ last.1,
      )

module _ {C : Type 0} where
  abbrev pub leads : Reply C
  leads = record { returned = some is_leader; calls = [] }

  abbrev pub waits : Reply C
  waits = record { returned = some is_waiter; calls = [] }

  -- The first to ask for an idle key.
  pub step-leads :
      (k : Bytes) (c : C) (s : SingleFlight C)
      → IsQuiet s
      → view s k ≡ none
      → ((step (asks k c) s).1 ≡ leads) × (view (step (asks k c) s).0 k ≡ some [])
  step-leads k c s q idle =
      let now = step-Agree (asks k c) s q in
      let first = spec_ask_idle k c (view s) idle in
      (now.replied ∙ first.2, ap (λ w. w k) now.seen ∙ first.0)

  spec_run-waits :
      (k : Bytes) (cs ds : List C) (w : Waiting C)
      → w k ≡ some ds
      → (spec_run (map (asks k) cs) w).1 ≡ map (λ _. waits) cs
  unfolding spec_run
  spec_run-waits k [] ds w e = refl
  spec_run-waits k (c ∷ cs) ds w e = rw (spec_waits k c w ds e) (
      ap (◌∷◌ waits) (
        spec_run-waits k cs (ds ++ c ∷ []) (spec_step (asks k c) w).0
          (spec_ask k k c w ds e ∙ ap some (if_pos (Bytes-discrete k k) refl (ds ++ c ∷ []) ds))))

  -- All who ask while it is being fetched.
  pub run-waits :
      (k : Bytes) (cs ds : List C) (s : SingleFlight C)
      → IsQuiet s
      → view s k ≡ some ds
      → (run (map (asks k) cs) s).1 ≡ map (λ _. waits) cs
  run-waits k cs ds s q e =
      (run-Agrees (map (asks k) cs) s q).replied ∙ spec_run-waits k cs ds (view s) e

  pub asked-map : (k : Bytes) (cs : List C) → asked k (map (asks k) cs) ≡ cs
  unfolding asked
  asked-map k [] = refl
  asked-map k (c ∷ cs) = if_pos (Bytes-discrete k k) refl _ _ ∙ ap (◌∷◌ c) (asked-map k cs)

  pub Leaves-map : (k : Bytes) (cs : List C) → Leaves k (map (asks k) cs)
  Leaves-map k [] = tt
  Leaves-map k (c ∷ cs) = Leaves-map k cs
