-- ===== src/QueryCache/L1/Bounds.antt =====
-- How large the first cache level gets.
use mathlib.Core.List.{lookup}
use single_flight_proxy_serv.Prelude.{
  ℕ, ◌+◌, ◌-◌, ◌≤◌, ◌<◌, ◌≡◌, refl, ap, inl, inr, Option, some, List, [], ◌∷◌, arith, Bytes,
  Bytes-discrete, length, drop, length-append, Option-cases,
}
use single_flight_proxy_serv.Prelude.Outcome.{ok}
use single_flight_proxy_serv.Prelude.Dict.{erase}
use single_flight_proxy_serv.QueryCache.L1.{L1Cache, l1_size}
use single_flight_proxy_serv.QueryCache.L1.Invariant.{Inv, entry, length-map}
use single_flight_proxy_serv.QueryCache.L1.Spec.{Entries, spec_get, spec_put}
use single_flight_proxy_serv.QueryCache.L1.History.{
  Op, gets, puts, resizes, enables, clears, Lru, run, spec_exec, spec_run, view, AllSized,
  run-RunAgrees,
}

-- No call changes the size.
abbrev pub IsFixed : Op → Type 0
IsFixed (resizes n) = ⊥
IsFixed op = Unit {0}

abbrev pub AllFixed : List Op → Type 0
AllFixed [] = Unit {0}
AllFixed (op ∷ ops) = IsFixed op × AllFixed ops

length-drop_one : (es : Entries) → length (drop 1 es) ≡ length es - 1
length-drop_one [] = omega arith
length-drop_one (e ∷ es) = omega arith

length-erase-le : (k : Bytes) (es : Entries) → length (erase Bytes-discrete k es) ≤ length es
unfolding erase
length-erase-le k [] = omega arith
length-erase-le k (e ∷ es) = ground (arith, length-erase-le k es)

length-erase-lt :
    (k v : Bytes) (es : Entries)
    → lookup Bytes-discrete k es ≡ some v
    → length (erase Bytes-discrete k es) + 1 ≤ length es
unfolding erase lookup
length-erase-lt k v [] e = ground arith
length-erase-lt k v ((j, w) ∷ es) e = ground (arith, length-erase-lt k v es, length-erase-le k es)

-- The contract never holds more than its size.
spec_put-le :
    (n : ℕ) (k r : Bytes) (es : Entries) → 0 < n → length es ≤ n → length (spec_put n k r es) ≤ n
unfolding spec_put
spec_put-le n k r es h fits = elim (Option-cases (lookup Bytes-discrete k es)) [
  | inl e ↦
      rw (e, spec_put)
        (ground (
          arith,
          length-append es ((k, r) ∷ []),
          length-append (drop 1 es) ((k, r) ∷ []),
          length-drop_one es,
        ))
  | inr (v, e) ↦
      rw (e, spec_put)
        (omega (
          arith,
          length-append (erase Bytes-discrete k es) ((k, r) ∷ []),
          length-erase-lt k v es e,
        ))
]

spec_get-le : (k : Bytes) (es : Entries) → length (spec_get k es).0 ≤ length es
unfolding spec_get
spec_get-le k es = elim (Option-cases (lookup Bytes-discrete k es)) [
  | inl e ↦ rw (e, spec_get) (omega arith)
  | inr (v, e) ↦
      rw (e, spec_get)
        (omega (
          arith,
          length-append (erase Bytes-discrete k es) ((k, v) ∷ []),
          length-erase-lt k v es e,
        ))
]

spec_exec-le :
    (op : Op) (m : Lru)
    → IsFixed op
    → 0 < m.max_size
    → length m.items ≤ m.max_size
    → (length (spec_exec op m).0.items ≤ m.max_size) × ((spec_exec op m).0.max_size ≡ m.max_size)
unfolding spec_exec
spec_exec-le (gets k) m f h fits = ground (arith, spec_get-le k m.items)
spec_exec-le (puts k r) m f h fits = ground (arith, spec_put-le m.max_size k r m.items h fits)
spec_exec-le (resizes n) m f h fits = absurd f
spec_exec-le (enables b) m f h fits = ground arith
spec_exec-le clears m f h fits = (omega arith, refl)

spec_run-le :
    (ops : List Op) (m : Lru)
    → AllFixed ops
    → 0 < m.max_size
    → length m.items ≤ m.max_size
    → length (spec_run ops m).0.items ≤ m.max_size
unfolding spec_run
spec_run-le [] m f h fits = fits
spec_run-le (op ∷ ops) m f h fits =
    let (now, same) = spec_exec-le op m f.0 h fits in
    omega (
      arith,
      same,
      now,
      spec_run-le ops (spec_exec op m).0 f.1 (omega (arith, same)) (omega (arith, same, now)),
    )

AllFixed-sized : (ops : List Op) → AllFixed ops → AllSized ops
AllFixed-sized [] f = tt
AllFixed-sized (gets k ∷ ops) f = (tt, AllFixed-sized ops f.1)
AllFixed-sized (puts k r ∷ ops) f = (tt, AllFixed-sized ops f.1)
AllFixed-sized (resizes n ∷ ops) f = absurd f.0
AllFixed-sized (enables b ∷ ops) f = (tt, AllFixed-sized ops f.1)
AllFixed-sized (clears ∷ ops) f = (tt, AllFixed-sized ops f.1)

-- Where the list and the table agree and a size that is not zero is kept, any sequence of calls
-- that sets no size is defined and keeps it.
pub run-bounded :
    (ops : List Op) (c : L1Cache)
    → Inv c
    → AllFixed ops
    → 0 < c.l1_max_size
    → l1_size c ≤ c.l1_max_size
    → (d : L1Cache) × (found : List (Option Bytes)) × (run ops c ≡ ok (d, found))
      × (l1_size d ≤ c.l1_max_size)
unfolding l1_size
run-bounded ops c v f h fits =
    let agrees = run-RunAgrees ops c v h (AllFixed-sized ops f) in
    (
      agrees.after,
      (spec_run ops (view c)).1,
      agrees.returns,
      omega (
        arith,
        v.sized,
        agrees.inv.sized,
        length-map entry c.l1_list,
        length-map entry agrees.after.l1_list,
        ap (λ m. length m.items) agrees.seen,
        spec_run-le ops (view c) f h (omega (arith, v.sized, length-map entry c.l1_list)),
      ),
    )
