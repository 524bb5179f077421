-- ===== src/QueryCache/Values.antt =====
-- The values that src/QueryCache/QueryCache.cpp hands out from the first level and
-- the flights.
use mathlib.Core.List.{lookup}
use mathlib.Core.Option
use single_flight_proxy_serv.Prelude.{
  ℕ, ◌≡◌, sym, subst, some, List, [], ◌∷◌, ◌++◌, Bytes, Bytes-discrete, Bool-cases, Option-cases,
  inl, inr, arith,
}
use single_flight_proxy_serv.Prelude.Dict.{erase}
use single_flight_proxy_serv.SingleFlight.{SingleFlight, call_all}
use single_flight_proxy_serv.SingleFlight.Refinement.{
  Reply, asks, answers, IsQuiet, step, spec_step, step-Agree, view as waiting,
}
use single_flight_proxy_serv.QueryCache.L1.Spec.{Entries, spec_get, spec_put, make_room, use_entry}
use single_flight_proxy_serv.QueryCache.L1.History.{gets, puts, spec_exec, Lru}

module _ (P : Bytes → Type 0) where
  abbrev pub AllValues : Entries → Type 0
  AllValues [] = Unit {0}
  AllValues ((k, v) ∷ es) = P v × AllValues es

  abbrev pub AllResults : {C : Type 0} → List (C × Bytes) → Type 0
  AllResults [] = Unit {0}
  AllResults ((c, r) ∷ calls) = P r × AllResults calls

  AllValues-append : (es fs : Entries) → AllValues es → AllValues fs → AllValues (es ++ fs)
  AllValues-append [] fs h k = k
  AllValues-append ((k, v) ∷ es) fs h g = (h.0, AllValues-append es fs h.1 g)

  AllValues-erase :
      (k : Bytes) (es : Entries) → AllValues es → AllValues (erase Bytes-discrete k es)
  unfolding erase
  AllValues-erase k [] h = h
  AllValues-erase k ((j, v) ∷ es) h = ground (arith, AllValues-erase k es h.1)

  pub AllValues-lookup :
      (k v : Bytes) (es : Entries) → AllValues es → lookup Bytes-discrete k es ≡ some v → P v
  unfolding lookup
  AllValues-lookup k v [] h e = absurd (cc e)
  AllValues-lookup k v ((j, w) ∷ es) h e = ground (arith, AllValues-lookup k v es h.1)

  AllValues-use_entry :
      (k v : Bytes) (es : Entries) → P v → AllValues es → AllValues (use_entry k v es)
  AllValues-use_entry k v es h all =
      AllValues-append (erase Bytes-discrete k es) ((k, v) ∷ []) (AllValues-erase k es all) (h, tt)

  AllValues-make_room : (n : ℕ) (es : Entries) → AllValues es → AllValues (make_room n es)
  unfolding make_room
  AllValues-make_room n [] h = ground arith
  AllValues-make_room n (e ∷ es) h = ground arith

  AllValues-spec_put :
      (n : ℕ) (k v : Bytes) (es : Entries) → P v → AllValues es → AllValues (spec_put n k v es)
  unfolding spec_put
  AllValues-spec_put n k v es h all = elim (Option-cases (lookup Bytes-discrete k es)) [
    | inl fresh ↦
        rw (fresh, spec_put)
          (AllValues-append (make_room n es) ((k, v) ∷ []) (AllValues-make_room n es all) (h, tt))
    | inr (w, there) ↦ rw (there, spec_put) (AllValues-use_entry k v es h all)
  ]

  AllValues-spec_get : (k : Bytes) (es : Entries) → AllValues es → AllValues (spec_get k es).0
  unfolding spec_get
  AllValues-spec_get k es all = elim (Option-cases (lookup Bytes-discrete k es)) [
    | inl missing ↦ rw (missing, spec_get) all
    | inr (w, there) ↦
        rw (there, spec_get) (AllValues-use_entry k w es (AllValues-lookup k w es all there) all)
  ]

  -- The contract's calls.
  pub puts-AllValues :
      (k v : Bytes) (m : Lru) → P v → AllValues m.items → AllValues (spec_exec (puts k v) m).0.items
  unfolding spec_exec
  puts-AllValues k v m h all = elim (Bool-cases m.enabled) [
    | inl on ↦ rw on (AllValues-spec_put m.max_size k v m.items h all)
    | inr off ↦ rw off all
  ]

  pub gets-AllValues :
      (k : Bytes) (m : Lru) → AllValues m.items → AllValues (spec_exec (gets k) m).0.items
  unfolding spec_exec
  gets-AllValues k m all = elim (Bool-cases m.enabled) [
    | inl on ↦ rw on (AllValues-spec_get k m.items all)
    | inr off ↦ rw off all
  ]

  pub gets_value :
      (k v : Bytes) (m : Lru) → AllValues m.items → (spec_exec (gets k) m).1 ≡ some v → P v
  unfolding spec_exec spec_get
  gets_value k v m all e = ground (arith, AllValues-lookup k v m.items all)

  AllResults-call_all : {C : Type 0} (cs : List C) (r : Bytes) → P r → AllResults (call_all cs r)
  AllResults-call_all [] r h = tt
  AllResults-call_all (c ∷ cs) r h = (h, AllResults-call_all cs r h)

  -- Nobody who asks is answered by the flights, while none of them is ready.
  pub asks-AllResults :
      {C : Type 0} (k : Bytes) (c : C) (s : SingleFlight C)
      → IsQuiet s
      → AllResults (step (asks k c) s).1.calls
  unfolding spec_step
  asks-AllResults {C} k c s quiet =
      let replied = (step-Agree (asks k c) s quiet).replied in
      subst (λ (r : Reply C). AllResults r.calls) (sym replied)
        (elim (Option-cases (waiting s k)) [
          | inl idle ↦ rw (idle, spec_step) tt
          | inr (cs, flying) ↦ rw (flying, spec_step) tt
        ])

  pub answers-AllResults :
      {C : Type 0} (k r : Bytes) (s : SingleFlight C)
      → IsQuiet s
      → P r
      → AllResults (step (answers k r) s).1.calls
  unfolding spec_step
  answers-AllResults {C} k r s quiet h =
      let replied = (step-Agree (answers k r) s quiet).replied in
      subst (λ (x : Reply C). AllResults x.calls) (sym replied)
        (AllResults-call_all (Option.get_or (waiting s k) []) r h)
