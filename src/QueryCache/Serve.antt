-- ===== src/QueryCache/Serve.antt =====
-- Queries in src/QueryCache/QueryCache.cpp that have been answered before.
use mathlib.Core.List.{lookup}
use single_flight_proxy_serv.Prelude.{
  ℕ, ◌≡◌, refl, ap, ◌∙◌, inl, inr, true, false, none, some, List, [], ◌∷◌, arith, Bytes,
  Bytes-discrete, Option-cases,
}
use single_flight_proxy_serv.Prelude.Outcome.{ok}
use single_flight_proxy_serv.Prelude.Dict.{erase, lookup-append, lookup-erase}
use single_flight_proxy_serv.QueryCache.L1.Spec.{Entries, spec_get, spec_put, make_room, use_entry}
use single_flight_proxy_serv.QueryCache.L1.History.{gets, puts, spec_exec, view, Lru}
use single_flight_proxy_serv.QueryCache.Hash.{hash_query}
use single_flight_proxy_serv.QueryCache.Sound.{IsSound, l1_gets, notify_flight_result-Notifies}
use single_flight_proxy_serv.QueryCache.{
  QueryCache, Build, cache_hit, count, get_after_l1, get, join_flight, do_single_flight,
  notify_flight_result,
}

pub lookup-use_entry :
    (k v : Bytes) (es : Entries) → lookup Bytes-discrete k (use_entry k v es) ≡ some v
unfolding lookup
lookup-use_entry k v es = ground (
  arith,
  lookup-append Bytes-discrete k (erase Bytes-discrete k es) ((k, v) ∷ []),
  lookup-erase Bytes-discrete k k es,
)

pub lookup-make_room :
    (n : ℕ) (k : Bytes) (es : Entries)
    → lookup Bytes-discrete k es ≡ none
    → lookup Bytes-discrete k (make_room n es) ≡ none
unfolding make_room lookup
lookup-make_room n k [] e = ground arith
lookup-make_room n k (x ∷ es) e = ground arith

lookup-spec_put :
    (n : ℕ) (k r : Bytes) (es : Entries) → lookup Bytes-discrete k (spec_put n k r es) ≡ some r
unfolding spec_put lookup
lookup-spec_put n k r es = elim (Option-cases (lookup Bytes-discrete k es)) [
  | inl e ↦
      rw (e, spec_put)
        (ground (
          arith,
          lookup-append Bytes-discrete k (make_room n es) ((k, r) ∷ []),
          lookup-make_room n k es e,
        ))
  | inr (v, e) ↦ rw (e, spec_put) (lookup-use_entry k r es)
]

-- The contract finds what it has stored.
pub spec_get-put :
    (k r : Bytes) (m : Lru)
    → m.enabled ≡ true
    → (spec_exec (gets k) (spec_exec (puts k r) m).0).1 ≡ some r
unfolding spec_exec spec_get
spec_get-put k r m on = ground (arith, lookup-spec_put m.max_size k r m.items)

module _ (b : Build) {C : Type 0} where
  open b use {have_hiredis, lib, md5}

  -- A query whose key the first level holds.
  pub cached_hit :
      (query v : Bytes) (c : C) (q : QueryCache lib C)
      → IsSound q
      → (spec_exec (gets (hash_query md5 query)) (view q.l1)).1 ≡ some v
      → (after : QueryCache lib C) × (do_single_flight b query c q
          ≡ ok (after, record { result = cache_hit; calls = (c, v) ∷ [] }))
  unfolding do_single_flight get get_after_l1 join_flight
  cached_hit query v c q s found =
      let (d, returns, _, _, _) = l1_gets q.l1 s.list s.positive (hash_query md5 query) in
      (count b true false (record q { l1 = d }), rw (returns, found) refl)

  -- On a sound object with the first level enabled, once a result has been reported for a query,
  -- whoever asks next is answered at once with that result, as a cache hit.
  pub answered-hits :
      (query result : Bytes) (q : QueryCache lib C)
      → IsSound q
      → q.l1.l1_enabled ≡ true
      → (answered : QueryCache lib C) × (calls : List (C × Bytes)) × (notify_flight_result b query
            result q
          ≡ ok (answered, calls))
        × ((c : C)
            → (after : QueryCache lib C) × (do_single_flight b query c answered
                ≡ ok (after, record { result = cache_hit; calls = (c, result) ∷ [] })))
  answered-hits query result q s on =
      let key = hash_query md5 query in
      let n = notify_flight_result-Notifies b query result q s in
      (
        n.after,
        n.calls,
        n.returns,
        λ c.
            cached_hit query result c n.after n.sound
              (ap (λ m. (spec_exec (gets key) m).1) n.l1 ∙ spec_get-put key result (view q.l1) on),
      )
