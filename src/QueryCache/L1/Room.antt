-- ===== src/QueryCache/L1/Room.antt =====
-- `putL1` of src/QueryCache/QueryCache.cpp with a new key: a node at the end, and the first node
-- dropped if the cache is full.
use mathlib.Core.List.{lookup}
use single_flight_proxy_serv.Prelude.{
  ℕ, ◌+◌, ◌≤◌, ◌<◌, ◌≡◌, refl, ap, subst, ◌≢◌, inl, inr, ite, if_pos, none, some, List, [], ◌∷◌,
  ◌++◌, map, arith, dec_lt, ℕ_discrete, Bytes, Bytes-discrete, length, length-append, Option-cases,
}
use single_flight_proxy_serv.Prelude.Outcome.{Outcome, ok}
use single_flight_proxy_serv.Prelude.Dict.{
  or_else, erase, IsMap, lookup-erase, lookup-append, lookup-insert, erase-IsMap, insert-IsMap,
  length-erase, snoc-IsMap, length-insert_new,
}
use single_flight_proxy_serv.QueryCache.L1.{L1Cache, LruNode, evict, push_back}
use single_flight_proxy_serv.QueryCache.L1.Invariant.{Inv, entry, entries, absent, length-map}
use single_flight_proxy_serv.QueryCache.L1.Spec.{make_room}

module _ (k r : Bytes) {c : L1Cache} (v : Inv c) where
  fresh_address : lookup ℕ_discrete c.l1_next c.l1_list ≡ none
  fresh_address = elim (Option-cases (lookup ℕ_discrete c.l1_next c.l1_list)) [
    | inl e ↦ e
    | inr (n, e) ↦ absurd (omega (arith, v.allocated c.l1_next n e))
  ]

  -- A new node under a new key.
  pub push_back-Inv : lookup Bytes-discrete k c.l1_map ≡ none → Inv (push_back k r c)
  unfolding push_back lookup
  push_back-Inv e = record {
    unique = insert-IsMap Bytes-discrete k c.l1_next c.l1_map v.unique;
    distinct = snoc-IsMap ℕ_discrete c.l1_next node c.l1_list v.distinct fresh_address;
    linked = λ it n g. ground (
      arith,
      appended it,
      lookup-insert Bytes-discrete k n.key c.l1_next c.l1_map,
      v.linked it n,
      absent v k e it n,
    );
    indexed = λ j it g. elim (Bytes-discrete k j) [
      | yes same ↦ (
        node,
        ground (
          arith,
          appended it,
          fresh_address,
          lookup-insert Bytes-discrete k j c.l1_next c.l1_map,
        ),
        same,
      )
      | no other ↦
          let (n, p, q) =
            v.indexed j it (ground (arith, lookup-insert Bytes-discrete k j c.l1_next c.l1_map)) in
          (n, ground (arith, appended it), q)
    ];
    allocated = λ it n g. ground (arith, appended it, v.allocated it n);
    sized = omega (
      arith,
      v.sized,
      length-insert_new Bytes-discrete k c.l1_next c.l1_map e,
      length-append c.l1_list ((c.l1_next, node) ∷ []),
    );
  }
    where
      node : LruNode
      node = record { key = k; value = r }

      appended :
          (it : ℕ)
          → lookup ℕ_discrete it (c.l1_list ++ (c.l1_next, node) ∷ [])
            ≡ or_else
                (lookup ℕ_discrete it c.l1_list)
                (ite (ℕ_discrete it c.l1_next) (some node) none)
      appended it = lookup-append ℕ_discrete it c.l1_list ((c.l1_next, node) ∷ [])

-- To drop the first node, with its entry in the table.
module _ (it : ℕ) (n : LruNode) (rest : List (ℕ × LruNode)) (c : L1Cache)
    (e : c.l1_list ≡ (it, n) ∷ rest) (v : Inv c) where
  rest-IsMap : IsMap ℕ_discrete ((it, n) ∷ rest)
  rest-IsMap = subst (IsMap ℕ_discrete) e v.distinct

  head_linked : lookup Bytes-discrete n.key c.l1_map ≡ some it
  unfolding lookup
  head_linked = v.linked it n (rw e (if_pos (ℕ_discrete it it) refl (some n) _))

  lookup-rest :
      (i : ℕ) (m : LruNode)
      → lookup ℕ_discrete i rest ≡ some m
      → lookup ℕ_discrete i c.l1_list ≡ some m
  unfolding lookup
  lookup-rest i m g = rw e (ground (arith, rest-IsMap.0))

  kept :
      (j : Bytes) (i : ℕ)
      → lookup Bytes-discrete j (erase Bytes-discrete n.key c.l1_map) ≡ some i
      → (n.key ≢ j) × (lookup Bytes-discrete j c.l1_map ≡ some i)
  kept j i g = ground (arith, lookup-erase Bytes-discrete n.key j c.l1_map)

  rest_indexed :
      (j : Bytes) (i : ℕ)
      → n.key ≢ j
      → lookup Bytes-discrete j c.l1_map ≡ some i
      → (m : LruNode) × (lookup ℕ_discrete i rest ≡ some m) × (m.key ≡ j)
  unfolding lookup
  rest_indexed j i h g =
      let (m, p, q) = v.indexed j i g in
      let p' : lookup ℕ_discrete i ((it, n) ∷ rest) ≡ some m =
        subst (λ l. lookup ℕ_discrete i l ≡ some m) e p in
      (m, ground arith, q)

  pop_oldest-Inv : Inv (record c { l1_list = rest; l1_map = erase Bytes-discrete n.key c.l1_map })
  unfolding lookup
  pop_oldest-Inv = record {
    unique = erase-IsMap Bytes-discrete n.key c.l1_map v.unique;
    distinct = rest-IsMap.1;
    linked = λ i m g. ground (
      arith,
      lookup-erase Bytes-discrete n.key m.key c.l1_map,
      v.linked i m (lookup-rest i m g),
      head_linked,
      rest-IsMap.0,
    );
    indexed = λ j i g. rest_indexed j i (kept j i g).0 (kept j i g).1;
    allocated = λ i m g. v.allocated i m (lookup-rest i m g);
    sized = omega (
      arith,
      v.sized,
      ap length e,
      length-erase Bytes-discrete n.key it c.l1_map v.unique head_linked,
    );
  }

module _ (k r : Bytes) {c : L1Cache} (v : Inv c)
    (new : lookup Bytes-discrete k c.l1_map ≡ none) where
  -- What the eviction before an insertion leaves.
  pub record Evicts (x : Outcome L1Cache) : Type 0 where
    pub after : L1Cache
    pub returns : x ≡ ok after
    pub inv : Inv after
    pub seen : entries after ≡ make_room c.l1_max_size (entries c)
    pub missing : lookup Bytes-discrete k after.l1_map ≡ none
    pub max_size : after.l1_max_size ≡ c.l1_max_size
    pub enabled : after.l1_enabled ≡ c.l1_enabled

  evict_full :
      (l : List (ℕ × LruNode))
      → c.l1_list ≡ l
      → 0 < length l
      → c.l1_max_size ≤ length l
      → Evicts (evict c)
  unfolding evict make_room
  evict_full [] e h full = absurd (omega arith)
  evict_full ((it, n) ∷ rest) e h full = record {
    after = record c { l1_list = rest; l1_map = erase Bytes-discrete n.key c.l1_map };
    returns = ground (arith, ap length e);
    inv = pop_oldest-Inv it n rest c e v;
    seen = ground (arith, ap (map entry) e, length-map entry c.l1_list, ap length e);
    missing = ground (arith, lookup-erase Bytes-discrete n.key k c.l1_map);
    max_size = refl;
    enabled = refl;
  }

  evict_roomy : length c.l1_list < c.l1_max_size → Evicts (evict c)
  unfolding evict make_room
  evict_roomy h = record {
    after = c;
    returns = ground arith;
    inv = v;
    seen = ground (arith, length-map entry c.l1_list);
    missing = new;
    max_size = refl;
    enabled = refl;
  }

  pub evict-Evicts : 0 < c.l1_max_size + length c.l1_list → Evicts (evict c)
  evict-Evicts h = elim (dec_lt (length c.l1_list) c.l1_max_size) [
    | yes roomy ↦ evict_roomy roomy
    | no full ↦ evict_full c.l1_list refl (omega arith) (omega arith)
  ]
