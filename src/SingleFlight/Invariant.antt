-- ===== src/SingleFlight/Invariant.antt =====
-- The invariant of the table of flights of src/SingleFlight/SingleFlight.cpp.
use mathlib.Core.List.{lookup}
use single_flight_proxy_serv.Prelude.{
  ℕ, ◌%◌, ◌^◌, ◌<◌, ◌≡◌, refl, some, [], ◌∷◌, arith, Bytes, Bytes-discrete, length, length-append,
  Option-cases, Bool-cases, inl, inr,
}
use single_flight_proxy_serv.Prelude.Dict.{
  IsMap, lookup-erase, lookup-insert, erase-IsMap, insert-IsMap,
}
use single_flight_proxy_serv.SingleFlight.{
  SingleFlight, init, create, find_or_create, join, publish, retire, clear,
}

-- Each key has one flight, two keys never share one, and no address in use is allocated again.
-- `waiters` counts the callbacks, as an `int` can.
pub record Inv {C : Type 0} (s : SingleFlight C) : Type 0 where
  pub unique : IsMap Bytes-discrete s.flights
  pub below : (k : Bytes) (f : ℕ) → lookup Bytes-discrete k s.flights ≡ some f → f < s.next
  pub apart :
      (k j : Bytes) (f : ℕ)
      → lookup Bytes-discrete k s.flights ≡ some f
      → lookup Bytes-discrete j s.flights ≡ some f
      → k ≡ j
  pub counted : (f : ℕ) → (s.store f).waiters ≡ length (s.store f).callbacks % 2 ^ 32

module _ {C : Type 0} where
  pub init-Inv : Inv {C = C} init
  unfolding init lookup
  init-Inv = record {
    unique = tt;
    below = λ k f e. ground arith;
    apart = λ k j f e g. ground arith;
    counted = λ f. refl;
  }

  pub retire-Inv : (k : Bytes) (s : SingleFlight C) → Inv s → Inv (retire k s)
  unfolding retire
  retire-Inv k s v = record {
    unique = erase-IsMap Bytes-discrete k s.flights v.unique;
    below = λ j f e. ground (arith, lookup-erase Bytes-discrete k j s.flights, v.below j f);
    apart = λ i j f e g. ground (
      arith,
      lookup-erase Bytes-discrete k i s.flights,
      lookup-erase Bytes-discrete k j s.flights,
      v.apart i j f,
    );
    counted = v.counted;
  }

  pub create-Inv : (k : Bytes) (s : SingleFlight C) → Inv s → Inv (create k s).0
  unfolding create
  create-Inv k s v = record {
    unique = insert-IsMap Bytes-discrete k s.next s.flights v.unique;
    below = λ j f e. ground (arith, lookup-insert Bytes-discrete k j s.next s.flights, v.below j f);
    apart = λ i j f e g. ground (
      arith,
      lookup-insert Bytes-discrete k i s.next s.flights,
      lookup-insert Bytes-discrete k j s.next s.flights,
      v.below i f,
      v.below j f,
      v.apart i j f,
    );
    counted = λ f. ground (arith, v.counted f);
  }

  pub find_or_create-Inv : (k : Bytes) (s : SingleFlight C) → Inv s → Inv (find_or_create k s).0
  unfolding find_or_create retire
  find_or_create-Inv k s v = elim (Option-cases (lookup Bytes-discrete k s.flights)) [
    | inl e ↦ rw (e, find_or_create) (create-Inv k s v)
    | inr (f, e) ↦ elim (Bool-cases (s.store f).ready) [
      | inl done ↦ rw (e, find_or_create, done) (create-Inv k (retire k s) (retire-Inv k s v))
      | inr pending ↦ rw (e, find_or_create, pending) v
    ]
  ]

  pub join-Inv : (f : ℕ) (c : C) (s : SingleFlight C) → Inv s → Inv (join f c s).0
  unfolding join
  join-Inv f c s v = elim (Bool-cases (s.store f).ready) [
    | inl done ↦ rw done v
    | inr pending ↦ rw pending (record {
      unique = v.unique;
      below = v.below;
      apart = v.apart;
      counted = λ g. ground (arith, v.counted g, length-append (s.store f).callbacks (c ∷ []));
    })
  ]

  pub publish-Inv : (f : ℕ) (r : Bytes) (s : SingleFlight C) → Inv s → Inv (publish f r s).0
  unfolding publish
  publish-Inv f r s v = record {
    unique = v.unique;
    below = v.below;
    apart = v.apart;
    counted = λ g. ground (arith, v.counted g);
  }

  pub clear-Inv : (s : SingleFlight C) → Inv s → Inv (clear s)
  unfolding clear lookup
  clear-Inv s v = record {
    unique = tt;
    below = λ k f e. ground arith;
    apart = λ k j f e g. ground arith;
    counted = v.counted;
  }
