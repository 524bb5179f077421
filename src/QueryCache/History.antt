-- ===== src/QueryCache/History.antt =====
-- Any sequence of calls on the object of src/QueryCache/QueryCache.cpp.
use single_flight_proxy_serv.QueryCache.L1
use single_flight_proxy_serv.QueryCache.L1.{
  set_l1_max_size as resized, set_l1_enabled as enabled_as, clear as cleared,
}
use single_flight_proxy_serv.Prelude.{
  ℕ, ◌<◌, ◌≡◌, refl, Bool, true, false, List, [], ◌∷◌, ◌++◌, arith, Bytes,
}
use single_flight_proxy_serv.Prelude.Int.{ℤ}
use single_flight_proxy_serv.Prelude.Outcome.{Outcome, ok, ◌>>=◌}
use single_flight_proxy_serv.SingleFlight.Refinement.{init-IsQuiet}
use single_flight_proxy_serv.QueryCache.Sound.{
  IsSound, get-Keeps, put-Puts, do_single_flight-Ends, notify_flight_result-Notifies,
}
use single_flight_proxy_serv.QueryCache.{
  QueryCache, Build, new_cache, set_redis_config, set_l1_max_size, set_l1_enabled, get, put,
  do_single_flight, notify_flight_result, clear,
}

-- A call, with its arguments; a callback is of any type.
pub data Op (C : Type 0) : Type 0 where
  asks : Bytes → C → Op C
  answers : Bytes → Bytes → Op C
  gets : Bytes → Op C
  puts : Bytes → Bytes → Op C
  configures : Bytes → ℤ → ℤ → Op C
  resizes : ℕ → Op C
  enables : Bool → Op C
  clears : Op C

-- No call sets the size of the first level to zero.
abbrev pub IsSized : {C : Type 0} → Op C → Type 0
IsSized (resizes n) = 0 < n
IsSized op = Unit {0}

abbrev pub AllSized : {C : Type 0} → List (Op C) → Type 0
AllSized [] = Unit {0}
AllSized (op ∷ ops) = IsSized op × AllSized ops

module _ (b : Build) {C : Type 0} where
  open b use {have_hiredis, lib, md5}

  -- The object after a call, and the callbacks that the call makes.
  unfoldable pub exec : Op C → QueryCache lib C → Outcome (QueryCache lib C × List (C × Bytes))
  exec (asks query c) q = do (q', flown) ← do_single_flight b query c q; ok (q', flown.calls)
  exec (answers query result) q = notify_flight_result b query result q
  exec (gets query) q = do (q', found) ← get b query q; ok (q', [])
  exec (puts query result) q = do q' ← put b query result q; ok (q', [])
  exec (configures host port ms) q = ok (set_redis_config b host port ms q, [])
  exec (resizes n) q = ok (set_l1_max_size b n q, [])
  exec (enables e) q = ok (set_l1_enabled b e q, [])
  exec clears q = ok (clear b q, [])

  unfoldable pub run :
      List (Op C) → QueryCache lib C → Outcome (QueryCache lib C × List (C × Bytes))
  run [] q = ok (q, [])
  run (op ∷ ops) q = do (q1, calls) ← exec op q; (q2, rest) ← run ops q1; ok (q2, calls ++ rest)

  -- The new object is sound: its list is empty and there is room for a thousand entries.
  pub new_cache-IsSound : (w : lib.World) → IsSound {lib = lib} {C = C} (new_cache b w)
  unfolding new_cache
  new_cache-IsSound w = record {
    list = L1.History.init-Inv;
    positive = omega arith;
    quiet = init-IsQuiet;
  }

  record Steps (q : QueryCache lib C) (r : Outcome (QueryCache lib C × List (C × Bytes)))
      : Type 0 where
    after : QueryCache lib C
    calls : List (C × Bytes)
    returns : r ≡ ok (after, calls)
    sound : IsSound after

  exec-asks :
      (query : Bytes) (c : C) (q : QueryCache lib C) → IsSound q → Steps q (exec (asks query c) q)
  unfolding exec
  exec-asks query c q s =
      let e = do_single_flight-Ends b query c q s in
      record {
        after = e.after;
        calls = e.value.calls;
        returns = rw e.returns refl;
        sound = e.sound;
      }

  exec-answers :
      (query result : Bytes) (q : QueryCache lib C)
      → IsSound q
      → Steps q (exec (answers query result) q)
  unfolding exec
  exec-answers query result q s =
      let n = notify_flight_result-Notifies b query result q s in
      record { after = n.after; calls = n.calls; returns = n.returns; sound = n.sound }

  exec-gets : (query : Bytes) (q : QueryCache lib C) → IsSound q → Steps q (exec (gets query) q)
  unfolding exec
  exec-gets query q s =
      let g = get-Keeps b query q s in
      record { after = g.after; calls = []; returns = rw g.returns refl; sound = g.sound }

  exec-puts :
      (query result : Bytes) (q : QueryCache lib C)
      → IsSound q
      → Steps q (exec (puts query result) q)
  unfolding exec
  exec-puts query result q s =
      let p = put-Puts b query result q s in
      record { after = p.after; calls = []; returns = rw p.returns refl; sound = p.sound }

  -- The calls that keep the flights.
  exec_sets :
      (op : Op C) (q : QueryCache lib C) (d : QueryCache lib C)
      → exec op q ≡ ok (d, [])
      → d.singleflight ≡ q.singleflight
      → L1.Invariant.Inv d.l1
      → 0 < d.l1.l1_max_size
      → IsSound q
      → Steps q (exec op q)
  exec_sets op q d e f inv positive s = record {
    after = d;
    calls = [];
    returns = e;
    sound = record { list = inv; positive = positive; quiet = rw f s.quiet };
  }

  exec-Steps : (op : Op C) (q : QueryCache lib C) → IsSized op → IsSound q → Steps q (exec op q)
  unfolding exec set_redis_config set_l1_max_size set_l1_enabled clear resized enabled_as cleared
  exec-Steps (asks query c) q h s = exec-asks query c q s
  exec-Steps (answers query result) q h s = exec-answers query result q s
  exec-Steps (gets query) q h s = exec-gets query q s
  exec-Steps (puts query result) q h s = exec-puts query result q s
  exec-Steps (configures host port ms) q h s =
      exec_sets (configures host port ms) q (set_redis_config b host port ms q) refl refl s.list
        s.positive s
  exec-Steps (resizes n) q h s =
      exec_sets (resizes n) q (set_l1_max_size b n q) refl refl
        (L1.History.settings-Inv q.l1 n q.l1.l1_enabled s.list) h s
  exec-Steps (enables true) q h s =
      exec_sets (enables true) q (set_l1_enabled b true q) refl refl
        (L1.History.settings-Inv q.l1 q.l1.l1_max_size true s.list) s.positive s
  exec-Steps (enables false) q h s =
      exec_sets (enables false) q (set_l1_enabled b false q) refl refl
        (L1.History.clear-Inv _ (L1.History.settings-Inv q.l1 q.l1.l1_max_size false s.list))
        s.positive s
  exec-Steps clears q h s =
      exec_sets clears q (clear b q) refl refl (L1.History.clear-Inv q.l1 s.list) s.positive s

  -- Any sequence of calls on a sound object, the new one for example, that sets no size of zero is
  -- defined and leaves a sound object.
  pub run-Defined :
      (ops : List (Op C)) (q : QueryCache lib C)
      → IsSound q
      → AllSized ops
      → (after : QueryCache lib C) × (calls : List (C × Bytes)) × (run ops q ≡ ok (after, calls))
        × IsSound after
  unfolding run
  run-Defined [] q s h = (q, [], refl, s)
  run-Defined (op ∷ ops) q s h =
      let now = exec-Steps op q h.0 s in
      let (after, calls, returns, sound) = run-Defined ops now.after now.sound h.1 in
      (after, now.calls ++ calls, rw (now.returns, returns) refl, sound)
