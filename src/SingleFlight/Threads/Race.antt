-- ===== src/SingleFlight/Threads/Race.antt =====
-- One thread's loop over the callbacks of src/SingleFlight/SingleFlight.cpp, and another leader that
-- asks for the same key meanwhile.
use mathlib.Core.List.{lookup, append_assoc, append-nil}
use single_flight_proxy_serv.Prelude.{
  ℕ, zero, suc, ◌≡◌, ◌≢◌, refl, true, false, none, some, List, [], ◌∷◌, ◌++◌, arith, Bytes,
  Bytes-discrete, ℕ_discrete, length, sym, ap, ◌∙◌, if_neg, if_pos, subst,
}
use single_flight_proxy_serv.Prelude.Dict.{lookup-erase, lookup-insert}
use single_flight_proxy_serv.SingleFlight.{update, create, find_or_create, join, retire, call_all}
use single_flight_proxy_serv.SingleFlight.Threads.{
  idle, joining, calling, System, Event, ask, answer, go, begin_ask, begin_answer, advance, step,
  run,
}

module _ {C : Type 0} where
  -- One thread takes `n` steps.
  unfoldable pub goes : ℕ → ℕ → List (Event C)
  goes i zero = []
  goes i (suc n) = go i ∷ goes i n

  go_call :
      (i : ℕ) (k r : Bytes) (c : C) (cs : List C) (s : System C)
      → s.pc i ≡ calling k r (c ∷ cs)
      → step (go i) s ≡ record s { pc = update s.pc i (calling k r cs); log = s.log ++ (c, r) ∷ [] }
  unfolding step advance
  go_call i k r c cs s e = rw (e, advance)

  go_retire :
      (i : ℕ) (k r : Bytes) (s : System C)
      → s.pc i ≡ calling k r []
      → step (go i) s ≡ record s { flights = retire k s.flights; pc = update s.pc i idle }
  unfolding step advance
  go_retire i k r s e = rw (e, advance)

  -- What a thread's loop over the callbacks comes to, and its last block.
  pub record CalledBack (i : ℕ) (k r : Bytes) (cs : List C) (s t : System C) : Type 0 where
    pub calls : t.log ≡ s.log ++ call_all cs r
    pub returned : t.pc i ≡ idle
    pub erased : lookup Bytes-discrete k t.flights.flights ≡ none
    pub store : t.flights.store ≡ s.flights.store
    pub others : (m : ℕ) → i ≢ m → t.pc m ≡ s.pc m

  -- A thread that has its list of callbacks calls every one on it, in order, takes the key off the
  -- table and returns, in as many steps of its own as there are callbacks and one more; no other
  -- thread moves, and no flight is written.
  pub goes-CalledBack :
      (i : ℕ) (k r : Bytes) (cs : List C) (s : System C)
      → s.pc i ≡ calling k r cs
      → CalledBack i k r cs s (run (goes i (suc (length cs))) s)
  unfolding run goes retire
  goes-CalledBack i k r [] s e = rw (go_retire i k r s e) (record {
    calls = sym (append-nil s.log);
    returned = if_pos (ℕ_discrete i i) refl idle (s.pc i);
    erased =
        lookup-erase Bytes-discrete k k s.flights.flights ∙ if_pos (Bytes-discrete k k) refl none _;
    store = refl;
    others = λ m h. if_neg (ℕ_discrete i m) h idle (s.pc m);
  })
  goes-CalledBack i k r (c ∷ cs) s e =
      let rest =
        goes-CalledBack i k r cs
          (record s { pc = update s.pc i (calling k r cs); log = s.log ++ (c, r) ∷ [] })
          (if_pos (ℕ_discrete i i) refl (calling k r cs) (s.pc i)) in
      subst (λ u. CalledBack i k r (c ∷ cs) s (run (goes i (suc (length cs))) u))
        (sym (go_call i k r c cs s e))
        (record {
          calls = rest.calls ∙ append_assoc s.log ((c, r) ∷ []) (call_all cs r);
          returned = rest.returned;
          erased = rest.erased;
          store = rest.store;
          others = λ m h. rest.others m h ∙ if_neg (ℕ_discrete i m) h (calling k r cs) (s.pc m);
        })

  ask_ready :
      (j : ℕ) (k : Bytes) (c : C) (f : ℕ) (s : System C)
      → s.pc j ≡ idle
      → lookup Bytes-discrete k s.flights.flights ≡ some f
      → (s.flights.store f).ready ≡ true
      → step (ask j k c) s
        ≡ record s { flights = (create k (retire k s.flights)).0; pc = update s.pc j idle }
  unfolding step begin_ask find_or_create create retire
  ask_ready j k c f s e g h = rw (e, begin_ask, g, find_or_create, h)

  ask_pending :
      (l : ℕ) (k : Bytes) (c : C) (n : ℕ) (s : System C)
      → s.pc l ≡ idle
      → lookup Bytes-discrete k s.flights.flights ≡ some n
      → (s.flights.store n).ready ≡ false
      → step (ask l k c) s ≡ record s { pc = update s.pc l (joining n c) }
  unfolding step begin_ask find_or_create
  ask_pending l k c n s e g h = rw (e, begin_ask, g, find_or_create, h)

  go_join :
      (l : ℕ) (c : C) (n : ℕ) (s : System C)
      → s.pc l ≡ joining n c
      → step (go l) s ≡ record s {
        flights = (join n c s.flights).0;
        pc = update s.pc l idle;
        log = s.log ++ (join n c s.flights).1;
      }
  unfolding step advance
  go_join l c n s e = rw (e, advance)

  answer_missing :
      (j : ℕ) (k r : Bytes) (s : System C)
      → s.pc j ≡ idle
      → lookup Bytes-discrete k s.flights.flights ≡ none
      → step (answer j k r) s ≡ s
  unfolding step begin_answer
  answer_missing j k r s e g = rw (e, begin_answer, g)

module _ {C : Type 0} (i j l : ℕ) (k r : Bytes) (cs : List C) (c1 c2 : C) (f : ℕ)
    (s : System C) where
  -- After a new leader has asked, and a waiter after it.
  led : System C
  led = record s { flights = (create k (retire k s.flights)).0; pc = update s.pc j idle }

  found : System C
  found = record led { pc = update led.pc l (joining s.flights.next c2) }

  joined : System C
  joined = record found {
    flights = (join s.flights.next c2 found.flights).0;
    pc = update found.pc l idle;
    log = s.log ++ (join s.flights.next c2 found.flights).1;
  }

  record Joined (u : System C) : Type 0 where
    about : u.pc i ≡ calling k r cs
    free : u.pc j ≡ idle
    log : u.log ≡ s.log
    fresh : (u.flights.store s.flights.next).ready ≡ false
    callbacks : (u.flights.store s.flights.next).callbacks ≡ c2 ∷ []

  led_finds : lookup Bytes-discrete k led.flights.flights ≡ some s.flights.next
  unfolding led create retire
  led_finds =
      lookup-insert Bytes-discrete k k s.flights.next (retire k s.flights).flights
      ∙ if_pos (Bytes-discrete k k) refl (some s.flights.next) _

  run-joined :
      s.pc j ≡ idle
      → s.pc l ≡ idle
      → lookup Bytes-discrete k s.flights.flights ≡ some f
      → (s.flights.store f).ready ≡ true
      → run (ask j k c1 ∷ ask l k c2 ∷ go l ∷ []) s ≡ joined
  unfolding run led found joined create retire
  run-joined ej el g h =
      ap (λ u. step (go l) (step (ask l k c2) u)) (ask_ready j k c1 f s ej g h)
      ∙ ap (step (go l))
          (ask_pending l k c2 s.flights.next led (ground arith) led_finds (ground arith))
      ∙ go_join l c2 s.flights.next found
          (if_pos (ℕ_discrete l l) refl (joining s.flights.next c2) (led.pc l))

  joined-Joined : i ≢ j → i ≢ l → s.pc i ≡ calling k r cs → s.pc j ≡ idle → Joined joined
  unfolding led found joined create retire join
  joined-Joined ij il ei ej = record {
    about = ground arith;
    free = ground arith;
    log = ground (arith, append-nil s.log);
    fresh = ground arith;
    callbacks = ground arith;
  }

  -- While thread `i` is calling back the waiters of a flight that it has published, another thread
  -- `j` asks for the same key and leads a new flight, and a thread `l` waits for that one. Then
  -- `i` ends its call, and with it takes the new flight off the table: the answer of the new
  -- leader changes nothing, and the waiter stays in a flight without a result that is not in the
  -- table.
  pub late_waiter_lost :
      i ≢ j
      → i ≢ l
      → s.pc i ≡ calling k r cs
      → s.pc j ≡ idle
      → s.pc l ≡ idle
      → lookup Bytes-discrete k s.flights.flights ≡ some f
      → (s.flights.store f).ready ≡ true
      → (r2 : Bytes)
      → let n = s.flights.next in
        let t = run (ask j k c1 ∷ ask l k c2 ∷ go l ∷ []) s in
        let u = run (goes i (suc (length cs))) t in
        (step (answer j k r2) u ≡ u)
        × (lookup Bytes-discrete k u.flights.flights ≡ none)
        × (u.log ≡ s.log ++ call_all cs r)
        × ((u.flights.store n).ready ≡ false)
        × ((u.flights.store n).callbacks ≡ c2 ∷ [])
  late_waiter_lost ij il ei ej el g h r2 = rw (run-joined ej el g h) (
      let at = joined-Joined ij il ei ej in
      let back = goes-CalledBack i k r cs joined at.about in
      (
        answer_missing j k r2 _ (back.others j ij ∙ at.free) back.erased,
        back.erased,
        back.calls ∙ ap (λ log. log ++ call_all cs r) at.log,
        rw back.store at.fresh,
        rw back.store at.callbacks,
      ))
