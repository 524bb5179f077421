-- ===== src/QueryCache/L1/Invariant.antt =====
-- The invariant of the list and the table of the first level of src/QueryCache/QueryCache.cpp.
use mathlib.Core.List.{lookup, map-append}
use single_flight_proxy_serv.Prelude.{
  if_neg, if_pos, ite, ap, ℕ, suc, ◌≡◌, ◌≢◌, ◌<◌, refl, none, some, List, [], ◌∷◌, ◌++◌, map,
  ℕ_discrete, Bytes, arith, Bytes-discrete, length, length-append, ◌∙◌,
}
use single_flight_proxy_serv.Prelude.Dict.{
  erase, IsMap, lookup-erase, lookup-append, erase-IsMap, length-erase, snoc-IsMap,
}
use single_flight_proxy_serv.QueryCache.L1.{LruNode, L1Cache, splice}

pub record Inv (c : L1Cache) : Type 0 where
  pub unique : IsMap Bytes-discrete c.l1_map
  pub distinct : IsMap ℕ_discrete c.l1_list
  -- Every node is in the table, under its key.
  pub linked :
      (it : ℕ) (n : LruNode)
      → lookup ℕ_discrete it c.l1_list ≡ some n
      → lookup Bytes-discrete n.key c.l1_map ≡ some it
  -- Every entry of the table leads to a node with its key.
  pub indexed :
      (k : Bytes) (it : ℕ)
      → lookup Bytes-discrete k c.l1_map ≡ some it
      → (n : LruNode) × (lookup ℕ_discrete it c.l1_list ≡ some n) × (n.key ≡ k)
  pub allocated : (it : ℕ) (n : LruNode) → lookup ℕ_discrete it c.l1_list ≡ some n → it < c.l1_next
  pub sized : length c.l1_map ≡ length c.l1_list

-- What a client sees: the keys with their values, least recently used first.
abbrev pub entry : ℕ × LruNode → Bytes × Bytes
entry e = (e.1.key, e.1.value)

abbrev pub entries : L1Cache → List (Bytes × Bytes)
entries c = map entry c.l1_list

pub length-map {ℓ} : {A B : Type ℓ} (f : A → B) (xs : List A) → length (map f xs) ≡ length xs
length-map f [] = refl
length-map f (x ∷ xs) = ap suc (length-map f xs)

-- `it` is the address of the one node with the key.
pub record Located (k : Bytes) (it : ℕ) (l : List (ℕ × LruNode)) : Type 0 where
  pub address : (i : ℕ) (n : LruNode) → lookup ℕ_discrete i l ≡ some n → n.key ≡ k → i ≡ it
  pub keyed : (n : LruNode) → lookup ℕ_discrete it l ≡ some n → n.key ≡ k

Located-tail :
    (k : Bytes) (it j : ℕ) (n : LruNode) (l : List (ℕ × LruNode))
    → lookup ℕ_discrete j l ≡ none
    → Located k it ((j, n) ∷ l)
    → Located k it l
unfolding lookup
Located-tail k it j n l d h = record {
  address = λ i m e q. h.address i m (ground arith) q;
  keyed = λ m e. h.keyed m (ground arith);
}

-- To take out the node is to take out the key.
pub entries-erase :
    (k : Bytes) (it : ℕ) (l : List (ℕ × LruNode))
    → IsMap ℕ_discrete l
    → Located k it l
    → erase Bytes-discrete k (map entry l) ≡ map entry (erase ℕ_discrete it l)
unfolding erase lookup
entries-erase k it [] d h = refl
entries-erase k it ((j, n) ∷ l) d h =
    ground
      (arith, entries-erase k it l d.1 (Located-tail k it j n l d.0 h), h.address j n, h.keyed n)

pub lookup-entries :
    (k : Bytes) (it : ℕ) (n : LruNode) (l : List (ℕ × LruNode))
    → IsMap ℕ_discrete l
    → Located k it l
    → lookup ℕ_discrete it l ≡ some n
    → lookup Bytes-discrete k (map entry l) ≡ some n.value
unfolding lookup
lookup-entries k it n [] d h e = ground arith
lookup-entries k it n ((j, m) ∷ l) d h e =
    ground
      (arith, lookup-entries k it n l d.1 (Located-tail k it j m l d.0 h), h.address j m, h.keyed m)

pub lookup-entries_none :
    (k : Bytes) (l : List (ℕ × LruNode))
    → IsMap ℕ_discrete l
    → ((i : ℕ) (n : LruNode) → lookup ℕ_discrete i l ≡ some n → n.key ≢ k)
    → lookup Bytes-discrete k (map entry l) ≡ none
unfolding lookup
lookup-entries_none k [] d h = refl
lookup-entries_none k ((j, m) ∷ l) d h =
    ground (arith, lookup-entries_none k l d.1 (λ i n e. h i n (ground arith)), h j m)

pub lookup-splice :
    (it i : ℕ) (n : LruNode) (l : List (ℕ × LruNode))
    → lookup ℕ_discrete i (splice it n l) ≡ ite (ℕ_discrete it i) (some n) (lookup ℕ_discrete i l)
unfolding lookup
lookup-splice it i n l = ground (
  arith,
  lookup-append ℕ_discrete i (erase ℕ_discrete it l) ((it, n) ∷ []),
  lookup-erase ℕ_discrete it i l,
)

module _ {c : L1Cache} (v : Inv c) where
  pub Inv-Located :
      (k : Bytes) (it : ℕ) → lookup Bytes-discrete k c.l1_map ≡ some it → Located k it c.l1_list
  Inv-Located k it e = record {
    address = λ i n g h. ground (arith, v.linked i n g);
    keyed = λ n g. let (m, p, q) = v.indexed k it e in ground arith;
  }

  -- A key that is not in the table is in no node.
  pub absent :
      (k : Bytes)
      → lookup Bytes-discrete k c.l1_map ≡ none
      → (i : ℕ) (n : LruNode) → lookup ℕ_discrete i c.l1_list ≡ some n
      → n.key ≢ k
  absent k e i n g h = ground (arith, v.linked i n g)

  -- What a client sees under a key.
  pub seen_none :
      (k : Bytes)
      → lookup Bytes-discrete k c.l1_map ≡ none
      → lookup Bytes-discrete k (entries c) ≡ none
  seen_none k e = lookup-entries_none k c.l1_list v.distinct (absent k e)

  pub seen_some :
      (k : Bytes) (it : ℕ) (n : LruNode)
      → lookup Bytes-discrete k c.l1_map ≡ some it
      → lookup ℕ_discrete it c.l1_list ≡ some n
      → lookup Bytes-discrete k (entries c) ≡ some n.value
  seen_some k it n e g = lookup-entries k it n c.l1_list v.distinct (Inv-Located k it e) g

  -- To move a node to the end, with a new value or the old one, keeps list and table in step.
  pub splice-Inv :
      (it : ℕ) (n m : LruNode)
      → lookup ℕ_discrete it c.l1_list ≡ some n
      → m.key ≡ n.key
      → Inv (record c { l1_list = splice it m c.l1_list })
  splice-Inv it n m e h = record {
    unique = v.unique;
    distinct =
        snoc-IsMap ℕ_discrete it m (erase ℕ_discrete it c.l1_list)
          (erase-IsMap ℕ_discrete it c.l1_list v.distinct)
          (ground (arith, lookup-erase ℕ_discrete it it c.l1_list));
    linked = λ i o g. ground (arith, lookup-splice it i m c.l1_list, v.linked i o, v.linked it n e);
    indexed = λ k i g.
        let (o, p, q) = v.indexed k i g in
        elim (ℕ_discrete it i) [
          | yes same ↦ (
            m,
            lookup-splice it i m c.l1_list
                ∙ if_pos (ℕ_discrete it i) same (some m) (lookup ℕ_discrete i c.l1_list),
            ground arith,
          )
          | no other ↦ (
            o,
            lookup-splice it i m c.l1_list
                ∙ if_neg (ℕ_discrete it i) other (some m) (lookup ℕ_discrete i c.l1_list)
                ∙ p,
            q,
          )
        ];
    allocated = λ i o g.
        ground (arith, lookup-splice it i m c.l1_list, v.allocated i o, v.allocated it n e);
    sized = omega (
      arith,
      v.sized,
      length-erase ℕ_discrete it n c.l1_list v.distinct e,
      length-append (erase ℕ_discrete it c.l1_list) ((it, m) ∷ []),
    );
  }

  pub entries-splice :
      (k : Bytes) (it : ℕ) (m : LruNode)
      → lookup Bytes-discrete k c.l1_map ≡ some it
      → m.key ≡ k
      → map entry (splice it m c.l1_list) ≡ erase Bytes-discrete k (entries c) ++ (k, m.value) ∷ []
  entries-splice k it m e h =
      map-append entry (erase ℕ_discrete it c.l1_list) ((it, m) ∷ [])
      ∙ rw (entries-erase k it c.l1_list v.distinct (Inv-Located k it e))
          (ap (λ x. map entry (erase ℕ_discrete it c.l1_list) ++ (x, m.value) ∷ []) h)
