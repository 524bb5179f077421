-- ===== src/QueryCache/L1/Put.antt =====
-- `putL1` of src/QueryCache/QueryCache.cpp against the bounded list, and where it is undefined.
use mathlib.Core.List.{lookup, map-append}
use single_flight_proxy_serv.Prelude.{
  ℕ, ◌+◌, ◌<◌, ◌≡◌, refl, subst, ◌≢◌, ◌↔◌, inl, inr, true, false, none, some, List, [], ◌∷◌, arith,
  dec_lt, ℕ_discrete, Bytes, Bytes-discrete, length, Bool-cases, Option-cases,
}
use single_flight_proxy_serv.Prelude.Outcome.{Outcome, ok, undefined}
use single_flight_proxy_serv.QueryCache.L1.{L1Cache, LruNode, store, put_l1, push_back, splice}
use single_flight_proxy_serv.QueryCache.L1.Invariant.{
  Inv, entry, entries, seen_none, seen_some, splice-Inv, entries-splice,
}
use single_flight_proxy_serv.QueryCache.L1.Spec.{Entries, spec_put}
use single_flight_proxy_serv.QueryCache.L1.Room.{push_back-Inv, evict-Evicts}

-- The call ends, with the contract's entries, and the settings as they were.
pub record Puts (c : L1Cache) (r : Outcome L1Cache) (es : Entries) : Type 0 where
  pub after : L1Cache
  pub returns : r ≡ ok after
  pub inv : Inv after
  pub seen : entries after ≡ es
  pub max_size : after.l1_max_size ≡ c.l1_max_size
  pub enabled : after.l1_enabled ≡ c.l1_enabled

module _ (k r : Bytes) {c : L1Cache} (v : Inv c) where
  store_hit :
      (it : ℕ) (n : LruNode)
      → lookup Bytes-discrete k c.l1_map ≡ some it
      → lookup ℕ_discrete it c.l1_list ≡ some n
      → n.key ≡ k
      → Puts c (store k r c) (spec_put c.l1_max_size k r (entries c))
  unfolding store spec_put
  store_hit it n e g h = record {
    after = record c { l1_list = splice it (record n { value = r }) c.l1_list };
    returns = rw (e, store, g) refl;
    inv = splice-Inv v it n (record n { value = r }) g refl;
    seen =
        rw (seen_some v k it n e g, spec_put) (entries-splice v k it (record n { value = r }) e h);
    max_size = refl;
    enabled = refl;
  }

module _ (k r : Bytes) {c : L1Cache} (v : Inv c)
    (new : lookup Bytes-discrete k c.l1_map ≡ none) where
  store_new :
      0 < c.l1_max_size + length c.l1_list
      → Puts c (store k r c) (spec_put c.l1_max_size k r (entries c))
  unfolding store spec_put
  store_new h =
      let room = evict-Evicts k r v new h in
      record {
        after = push_back k r room.after;
        returns = rw (new, store, room.returns) refl;
        inv = push_back-Inv k r room.inv room.missing;
        seen = ground (
          arith,
          seen_none v k new,
          room.seen,
          map-append entry room.after.l1_list
              ((room.after.l1_next, record { key = k; value = r }) ∷ []),
        );
        max_size = room.max_size;
        enabled = room.enabled;
      }

nil_of_length : (l : List (ℕ × LruNode)) → length l ≡ 0 → l ≡ []
nil_of_length [] h = refl
nil_of_length (x ∷ l) h = absurd (omega arith)

-- A disabled cache stores nothing.
pub put_l1_disabled : (k r : Bytes) (c : L1Cache) → c.l1_enabled ≡ false → put_l1 k r c ≡ ok c
unfolding put_l1
put_l1_disabled k r c off = ground arith

module _ (k r : Bytes) {c : L1Cache} (v : Inv c) where
  store-Puts :
      0 < c.l1_max_size + length c.l1_list
      → Puts c (store k r c) (spec_put c.l1_max_size k r (entries c))
  store-Puts h = elim (Option-cases (lookup Bytes-discrete k c.l1_map)) [
    | inl e ↦ store_new k r v e h
    | inr (it, e) ↦ let (n, g, q) = v.indexed k it e in store_hit k r v it n e g q
  ]

  put_l1-store : c.l1_enabled ≡ true → put_l1 k r c ≡ store k r c
  unfolding put_l1
  put_l1-store on = ground arith

  nothing_stored : c.l1_list ≡ [] → lookup Bytes-discrete k c.l1_map ≡ none
  unfolding lookup
  nothing_stored e = elim (Option-cases (lookup Bytes-discrete k c.l1_map)) [
    | inl g ↦ g
    | inr (it, g) ↦
        let (n, p, q) = v.indexed k it g in
        let p' : lookup ℕ_discrete it [] ≡ some n =
          subst (λ l. lookup ℕ_discrete it l ≡ some n) e p in
        cc
  ]

  -- Where the list and the table agree, with the cache enabled and not both empty and of size
  -- zero, `putL1` stores what the contract stores, evicting the least recent entry for a new key
  -- if the cache is full, and they agree after it.
  pub put_l1-Puts :
      c.l1_enabled ≡ true
      → 0 < c.l1_max_size + length c.l1_list
      → Puts c (put_l1 k r c) (spec_put c.l1_max_size k r (entries c))
  put_l1-Puts on h = rw (put_l1-store on) (store-Puts h)

  put_l1_defined : 0 < c.l1_max_size + length c.l1_list → put_l1 k r c ≢ undefined
  put_l1_defined h e = elim (Bool-cases c.l1_enabled) [
    | inl on ↦ cc ((put_l1-Puts on h).returns)
    | inr off ↦ cc (put_l1_disabled k r c off)
  ]

  put_l1_empty : c.l1_enabled ≡ true → c.l1_max_size ≡ 0 → c.l1_list ≡ [] → put_l1 k r c ≡ undefined
  unfolding put_l1
  put_l1_empty on zero_size e = ground (arith, nothing_stored e)

  -- Where the list and the table agree, `putL1` is undefined exactly when it has to make room in
  -- an empty cache: it is enabled, of size zero and empty, and `l1_list_.begin()` is the end of
  -- the list.
  pub put_l1-undefined :
      (put_l1 k r c ≡ undefined) ↔ ((c.l1_enabled ≡ true) × (c.l1_max_size ≡ 0) × (c.l1_list ≡ []))
  put_l1-undefined = (
    λ e. elim (dec_lt 0 (c.l1_max_size + length c.l1_list)) [
      | yes h ↦ absurd (put_l1_defined h e)
      | no h ↦ (enabled e, omega arith, nil_of_length c.l1_list (omega arith))
    ],
    λ h. put_l1_empty h.0 h.1 h.2,
  )
    where
      enabled : put_l1 k r c ≡ undefined → c.l1_enabled ≡ true
      enabled e = elim (Bool-cases c.l1_enabled) [
        | inl on ↦ on
        | inr off ↦ cc (put_l1_disabled k r c off)
      ]
