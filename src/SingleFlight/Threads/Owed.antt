-- ===== src/SingleFlight/Threads/Owed.antt =====
-- Under threads, where the callback of a waiter of src/SingleFlight/SingleFlight.cpp stands.
use mathlib.Core.List.{append-nil}
use single_flight_proxy_serv.Prelude.{
  ℕ, ◌≡◌, ◌<◌, ◌⊎◌, refl, true, false, List, [], ◌∷◌, ◌++◌, arith, Bytes, ℕ_discrete, Option-cases,
  Bool-cases, inl, inr, sym, ap, ◌∙◌, if_neg, if_pos, subst, ite,
}
use single_flight_proxy_serv.SingleFlight.{SingleFlight, update, join, locate, publish, retire}
use single_flight_proxy_serv.SingleFlight.Threads.{
  Pc, idle, joining, located, calling, System, Event, ask, answer, go, begin_ask, begin_answer,
  advance, step, run, Holds, IsSound,
}
use single_flight_proxy_serv.SingleFlight.Threads.Sound.{
  find_or_create-Found, join-next, step-IsSound,
}

-- The element stands in the list.
abbrev pub In : {A : Type 0} → A → List A → Type 0
In a [] = ⊥
In a (x ∷ xs) = (a ≡ x) ⊎ In a xs

In-append_left : {A : Type 0} (a : A) (xs ys : List A) → In a xs → In a (xs ++ ys)
In-append_left a [] ys h = absurd h
In-append_left a (x ∷ xs) ys (inl e) = inl e
In-append_left a (x ∷ xs) ys (inr h) = inr (In-append_left a xs ys h)

In-snoc : {A : Type 0} (a : A) (xs : List A) → In a (xs ++ a ∷ [])
In-snoc a [] = inl refl
In-snoc a (x ∷ xs) = inr (In-snoc a xs)

-- A thread at another point leaves a thread that stands here alone.
update_other :
    {P : Type 0} (pc : ℕ → P) (i j : ℕ) (p q r : P)
    → pc i ≡ p
    → pc j ≡ q
    → ¬ (p ≡ q)
    → update pc i r j ≡ q
update_other pc i j p q r e g h = elim (ℕ_discrete i j) [
  | yes same ↦ absurd (h (sym e ∙ ap pc same ∙ g))
  | no other ↦ if_neg (ℕ_discrete i j) other r (pc j) ∙ g
]

module _ {C : Type 0} where
  pub data Owed (c : C) (f : ℕ) (s : System C) : Type 0 where
    waits :
        f < s.flights.next
        → (s.flights.store f).ready ≡ false
        → In c (s.flights.store f).callbacks
        → Owed c f s
    due : (i : ℕ) (k r : Bytes) (cs : List C) → s.pc i ≡ calling k r cs → In c cs → Owed c f s
    called : (r : Bytes) → In (c, r) s.log → Owed c f s

  begin_ask-Owed :
      (p : Pc C) (i : ℕ) (k : Bytes) (c' : C) (s : System C) (c : C) (f : ℕ)
      → s.pc i ≡ p
      → IsSound s
      → Owed c f s
      → Owed c f (begin_ask p i k c' s)
  unfolding begin_ask
  begin_ask-Owed idle i k c' s c f e v (waits h ready m) =
      let found = find_or_create-Found k s.flights v.inv in
      waits (omega (arith, found.grows)) (rw (found.keeps f h) ready) (rw (found.keeps f h) m)
  begin_ask-Owed idle i k c' s c f e v (due j k' r cs g m) =
      due j k' r cs (update_other s.pc i j idle (calling k' r cs) _ e g (λ x. cc)) m
  begin_ask-Owed idle i k c' s c f e v (called r m) = called r m
  begin_ask-Owed _ i k c' s c f e v o = o

  located-Owed :
      (i : ℕ) (k r : Bytes) (g : ℕ) (s : System C) (c : C) (f : ℕ)
      → s.pc i ≡ idle
      → Owed c f s
      → Owed c f (record s { pc = update s.pc i (located g k r) })
  located-Owed i k r g s c f e (waits h ready m) = waits h ready m
  located-Owed i k r g s c f e (due j k' r' cs p m) =
      due j k' r' cs (update_other s.pc i j idle (calling k' r' cs) _ e p (λ x. cc)) m
  located-Owed i k r g s c f e (called r' m) = called r' m

  begin_answer-Owed :
      (p : Pc C) (i : ℕ) (k r : Bytes) (s : System C) (c : C) (f : ℕ)
      → s.pc i ≡ p
      → Owed c f s
      → Owed c f (begin_answer p i k r s)
  unfolding begin_answer
  begin_answer-Owed idle i k r s c f e o = elim (Option-cases (locate k s.flights)) [
    | inl missing ↦ rw (missing, begin_answer) o
    | inr (g, found) ↦ rw (found, begin_answer) (located-Owed i k r g s c f e o)
  ]
  begin_answer-Owed _ i k r s c f e o = o

  ready-join :
      (g : ℕ) (c : C) (s : SingleFlight C) (f : ℕ)
      → ((join g c s).0.store f).ready ≡ (s.store f).ready
  unfolding join
  ready-join g c s f = ground arith

  callbacks-join :
      (g : ℕ) (c : C) (s : SingleFlight C) (f : ℕ)
      → (s.store f).ready ≡ false
      → ((join g c s).0.store f).callbacks
        ≡ (s.store f).callbacks ++ ite (ℕ_discrete g f) (c ∷ []) []
  unfolding join
  callbacks-join g c s f e = ground (arith, append-nil (s.store f).callbacks)

  join_ready :
      (g : ℕ) (c : C) (s : SingleFlight C)
      → (s.store g).ready ≡ true
      → (join g c s).1 ≡ (c, (s.store g).result) ∷ []
  unfolding join
  join_ready g c s e = rw e

  store-publish_ne :
      (g : ℕ) (r : Bytes) (s : SingleFlight C) (f : ℕ)
      → ¬ (g ≡ f)
      → (publish g r s).0.store f ≡ s.store f
  unfolding publish
  store-publish_ne g r s f h = if_neg (ℕ_discrete g f) h _ (s.store f)

  -- The block under the flight's mutex, in which a waiter registers.
  join-Owed :
      (g : ℕ) (c' : C) (i : ℕ) (s : System C) (c : C) (f : ℕ)
      → s.pc i ≡ joining g c'
      → Owed c f s
      → Owed c f (advance (joining g c') i s)
  unfolding advance
  join-Owed g c' i s c f e (waits h ready m) =
      waits (rw (join-next g c' s.flights) h) (ready-join g c' s.flights f ∙ ready)
        (subst (In c) (sym (callbacks-join g c' s.flights f ready)) (In-append_left c _ _ m))
  join-Owed g c' i s c f e (due j k' r cs p m) =
      due j k' r cs (update_other s.pc i j (joining g c') (calling k' r cs) idle e p (λ x. cc)) m
  join-Owed g c' i s c f e (called r m) = called r (In-append_left (c, r) s.log _ m)

  publish-Owed :
      (g : ℕ) (k r : Bytes) (i : ℕ) (s : System C) (c : C) (f : ℕ)
      → s.pc i ≡ located g k r
      → Owed c f s
      → Owed c f (advance (located g k r) i s)
  unfolding advance publish
  publish-Owed g k r i s c f e (waits h ready m) = elim (ℕ_discrete g f) [
    | yes same ↦
        due i k r (publish g r s.flights).1 (if_pos (ℕ_discrete i i) refl _ (s.pc i)) (rw same m)
    | no other ↦
        let same = store-publish_ne g r s.flights f other in waits h (rw same ready) (rw same m)
  ]
  publish-Owed g k r i s c f e (due j k' r' cs p m) =
      due j k' r' cs (update_other s.pc i j (located g k r) (calling k' r' cs) _ e p (λ x. cc)) m
  publish-Owed g k r i s c f e (called r' m) = called r' m

  calling_inj :
      {k k' r r' : Bytes} {xs ys : List C}
      → calling k r xs ≡ calling k' r' ys
      → (r ≡ r') × (xs ≡ ys)
  calling_inj e = (cc, cc)

  -- The thread that calls back pays the first callback, and owes the rest.
  paid :
      (k r : Bytes) (c' : C) (cs : List C) (i : ℕ) (s : System C) (c : C) (f : ℕ)
      → In c (c' ∷ cs)
      → Owed c f (advance (calling k r (c' ∷ cs)) i s)
  unfolding advance
  paid k r c' cs i s c f (inl e) = called r (rw e (In-snoc (c', r) s.log))
  paid k r c' cs i s c f (inr m) = due i k r cs (if_pos (ℕ_discrete i i) refl _ (s.pc i)) m

  call-Owed :
      (k r : Bytes) (c' : C) (cs : List C) (i : ℕ) (s : System C) (c : C) (f : ℕ)
      → s.pc i ≡ calling k r (c' ∷ cs)
      → Owed c f s
      → Owed c f (advance (calling k r (c' ∷ cs)) i s)
  unfolding advance
  call-Owed k r c' cs i s c f e (waits h ready m) = waits h ready m
  call-Owed k r c' cs i s c f e (due j k' r' ds p m) = elim (ℕ_discrete i j) [
    | yes same ↦
        paid k r c' cs i s c f (subst (In c) (sym (calling_inj (sym e ∙ ap s.pc same ∙ p)).1) m)
    | no other ↦ due j k' r' ds (if_neg (ℕ_discrete i j) other _ (s.pc j) ∙ p) m
  ]
  call-Owed k r c' cs i s c f e (called r' m) = called r' (In-append_left (c, r') s.log _ m)

  retire-Owed :
      (k r : Bytes) (i : ℕ) (s : System C) (c : C) (f : ℕ)
      → s.pc i ≡ calling k r []
      → Owed c f s
      → Owed c f (advance (calling k r []) i s)
  unfolding advance retire
  retire-Owed k r i s c f e (waits h ready m) = waits h ready m
  retire-Owed k r i s c f e (due j k' r' ds p m) = elim (ℕ_discrete i j) [
    | yes same ↦ absurd (subst (In c) (sym (calling_inj (sym e ∙ ap s.pc same ∙ p)).1) m)
    | no other ↦ due j k' r' ds (if_neg (ℕ_discrete i j) other _ (s.pc j) ∙ p) m
  ]
  retire-Owed k r i s c f e (called r' m) = called r' m

  advance-Owed :
      (p : Pc C) (i : ℕ) (s : System C) (c : C) (f : ℕ)
      → s.pc i ≡ p
      → Owed c f s
      → Owed c f (advance p i s)
  unfolding advance
  advance-Owed idle i s c f e o = o
  advance-Owed (joining g c') i s c f e o = join-Owed g c' i s c f e o
  advance-Owed (located g k r) i s c f e o = publish-Owed g k r i s c f e o
  advance-Owed (calling k r (c' ∷ cs)) i s c f e o = call-Owed k r c' cs i s c f e o
  advance-Owed (calling k r []) i s c f e o = retire-Owed k r i s c f e o

  step-Owed :
      (ev : Event C) (s : System C) (c : C) (f : ℕ) → IsSound s → Owed c f s → Owed c f (step ev s)
  unfolding step
  step-Owed (ask i k c') s c f v o = begin_ask-Owed (s.pc i) i k c' s c f refl v o
  step-Owed (answer i k r) s c f v o = begin_answer-Owed (s.pc i) i k r s c f refl o
  step-Owed (go i) s c f v o = advance-Owed (s.pc i) i s c f refl o

  pub run-Owed :
      (es : List (Event C)) (s : System C) (c : C) (f : ℕ)
      → IsSound s
      → Owed c f s
      → Owed c f (run es s)
  unfolding run
  run-Owed [] s c f v o = o
  run-Owed (e ∷ es) s c f v o =
      run-Owed es (step e s) c f (step-IsSound e s v) (step-Owed e s c f v o)

  -- The waiter's own block: it registers, or it is called at once.
  joined-Owed :
      (f : ℕ) (c : C) (i : ℕ) (s : System C)
      → f < s.flights.next
      → Owed c f (advance (joining f c) i s)
  unfolding advance
  joined-Owed f c i s h = elim (Bool-cases (s.flights.store f).ready) [
    | inl done ↦ called (s.flights.store f).result (
        subst (λ calls. In (c, (s.flights.store f).result) (s.log ++ calls))
          (sym (join_ready f c s.flights done)) (In-snoc (c, (s.flights.store f).result) s.log))
    | inr pending ↦ waits (rw (join-next f c s.flights) h) (ready-join f c s.flights f ∙ pending) (
        subst (In c)
          (sym (
            callbacks-join f c s.flights f pending
            ∙ ap (◌++◌ (s.flights.store f).callbacks) (if_pos (ℕ_discrete f f) refl _ _)))
          (In-snoc c (s.flights.store f).callbacks))
  ]

  -- In a sound state, once a thread has found a flight to wait for, its callback is never lost:
  -- whatever the threads do from the block on in which it registers, it has been called back, or a
  -- thread is about to call it back, or it waits in that flight, which then has no result yet.
  pub waiter-Owed :
      (i f : ℕ) (c : C) (es : List (Event C)) (s : System C)
      → IsSound s
      → s.pc i ≡ joining f c
      → Owed c f (run (go i ∷ es) s)
  unfolding run step
  waiter-Owed i f c es s v e =
      run-Owed es _ c f (step-IsSound (go i) s v)
        (rw e (joined-Owed f c i s (subst (Holds s.flights.next) e (v.holds i))))
