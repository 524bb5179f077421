-- ===== src/SingleFlight.antt =====
-- src/SingleFlight/SingleFlight.{hpp,cpp}: one flight for each key that is being fetched.
-- Each function below up to `retire` is the code under one lock; `do_single_flight` and
-- `notify_result` compose them as the methods do. A `shared_ptr<Flight>` is an address into
-- `store`, and `next` is the address that the next `make_shared` returns. The callbacks are of any
-- type; a callback that the code invokes is reported, with its argument, in a list. The log lines
-- are left out. A callback that throws is caught by the loop, which goes on with the next.
pub mod Invariant
pub mod Refinement
pub mod Delivery
pub mod Threads
use mathlib.Core.List.{lookup}
use single_flight_proxy_serv.Prelude.{
  ℕ, ◌+◌, ◌%◌, ◌^◌, Bool, true, false, Option, none, some, List, [], ◌∷◌, ◌++◌, map, ite,
  ℕ_discrete, Bytes, Bytes-discrete, if◌then◌else◌,
}
use single_flight_proxy_serv.Prelude.Dict.{erase, insert}

pub record Flight (C : Type 0) : Type 0 where
  pub result : Bytes
  pub ready : Bool
  pub waiters : ℕ
  pub callbacks : List C

pub record SingleFlight (C : Type 0) : Type 0 where
  pub flights : List (Bytes × ℕ)
  pub store : ℕ → Flight C
  pub next : ℕ

pub data Result : Type 0 where
  is_leader is_waiter : Result

-- A write to one address.
abbrev pub update {ℓ} : {A : Type ℓ} → (ℕ → A) → ℕ → A → ℕ → A
update f i a j = ite (ℕ_discrete i j) a (f j)

module _ {C : Type 0} where
  -- `Flight` with its default member initialisers.
  abbrev pub new_flight : Flight C
  new_flight = record { result = []; ready = false; waiters = 0; callbacks = [] }

  unfoldable pub init : SingleFlight C
  init = record { flights = []; store = λ _. new_flight; next = 0 }

  -- `flight = std::make_shared<Flight>(); flights_[key] = flight; is_new_flight = true;`
  unfoldable pub create : Bytes → SingleFlight C → SingleFlight C × ℕ × Bool
  create key s = (
    record s {
      flights = insert Bytes-discrete key s.next s.flights;
      store = update s.store s.next new_flight;
      next = s.next + 1;
    },
    s.next,
    true,
  )

  -- The block under `flights_mutex_`: the flight to use, and whether it is new.
  unfoldable pub find_or_create : Bytes → SingleFlight C → SingleFlight C × ℕ × Bool
  unfolding create
  find_or_create key s = elim (lookup Bytes-discrete key s.flights) [
    | none ↦ create key s
    | some f ↦
        if (s.store f).ready
        then create key (record s { flights = erase Bytes-discrete key s.flights })
        else (s, f, false)
  ]

  -- The block under `flight->mutex`. `waiters` is the bit pattern of an `int`, which
  -- nothing reads: that its addition overflows after 2^31 waiters has no other effect here.
  unfoldable pub join : ℕ → C → SingleFlight C → SingleFlight C × List (C × Bytes)
  join f on_result s = if flight.ready then (s, (on_result, flight.result) ∷ []) else (
    record s {
      store = update s.store f (record flight {
        waiters = (flight.waiters + 1) % 2 ^ 32;
        callbacks = flight.callbacks ++ on_result ∷ [];
      });
    },
    [],
  )
    where
      flight : Flight C
      flight = s.store f

  unfoldable pub do_single_flight :
      Bytes → C → SingleFlight C → SingleFlight C × Result × List (C × Bytes)
  unfolding find_or_create join
  do_single_flight key on_result s =
      let (s1, f, is_new) = find_or_create key s in
      if is_new
      then (s1, is_leader, [])
      else (let (s2, calls) = join f on_result s1 in (s2, is_waiter, calls))

  -- The first block of `notifyResult`, under `flights_mutex_`.
  abbrev pub locate : Bytes → SingleFlight C → Option ℕ
  locate key s = lookup Bytes-discrete key s.flights

  -- The block under `flight->mutex`: the callbacks to notify.
  unfoldable pub publish : ℕ → Bytes → SingleFlight C → SingleFlight C × List C
  publish f result s = (
    record s { store = update s.store f (record (s.store f) { result = result; ready = true }) },
    (s.store f).callbacks,
  )

  -- The loop over `callbacks_to_notify`.
  abbrev pub call_all : List C → Bytes → List (C × Bytes)
  call_all callbacks result = map (λ c. (c, result)) callbacks

  -- The last block of `notifyResult`, under `flights_mutex_`: whatever flight stands there now.
  unfoldable pub retire : Bytes → SingleFlight C → SingleFlight C
  retire key s = record s { flights = erase Bytes-discrete key s.flights }

  unfoldable pub notify_result : Bytes → Bytes → SingleFlight C → SingleFlight C × List (C × Bytes)
  unfolding publish retire
  notify_result key result s = elim (locate key s) [
    | none ↦ (s, [])
    | some f ↦
        let (s1, callbacks) = publish f result s in (retire key s1, call_all callbacks result)
  ]

  unfoldable pub clear : SingleFlight C → SingleFlight C
  clear s = record s { flights = [] }
