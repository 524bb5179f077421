-- ===== src/QueryCache/L1/Get.antt =====
-- `getL1` of src/QueryCache/QueryCache.cpp against the bounded list.
use mathlib.Core.List.{lookup}
use single_flight_proxy_serv.Prelude.{
  ℕ, ◌≡◌, refl, inl, inr, true, false, Option, none, some, arith, ℕ_discrete, Bytes, Bytes-discrete,
  Option-cases,
}
use single_flight_proxy_serv.Prelude.Outcome.{Outcome, ok}
use single_flight_proxy_serv.QueryCache.L1.{L1Cache, LruNode, touch, get_l1, splice}
use single_flight_proxy_serv.QueryCache.L1.Invariant.{
  Inv, entries, seen_none, seen_some, splice-Inv, entries-splice,
}
use single_flight_proxy_serv.QueryCache.L1.Spec.{Entries, spec_get}

-- The call ends, with the contract's answer and entries, and the settings as they were.
pub record Gets (c : L1Cache) (r : Outcome (L1Cache × Option Bytes)) (y : Entries × Option Bytes)
    : Type 0 where
  pub after : L1Cache
  pub returns : r ≡ ok (after, y.1)
  pub inv : Inv after
  pub seen : entries after ≡ y.0
  pub max_size : after.l1_max_size ≡ c.l1_max_size
  pub enabled : after.l1_enabled ≡ c.l1_enabled

module _ (k : Bytes) {c : L1Cache} (v : Inv c) where
  touch_hit :
      (it : ℕ) (n : LruNode)
      → lookup Bytes-discrete k c.l1_map ≡ some it
      → lookup ℕ_discrete it c.l1_list ≡ some n
      → n.key ≡ k
      → Gets c (touch k c) (spec_get k (entries c))
  unfolding touch spec_get
  touch_hit it n e g h = record {
    after = record c { l1_list = splice it n c.l1_list };
    returns = rw (e, touch, g, seen_some v k it n e g, spec_get) refl;
    inv = splice-Inv v it n n g refl;
    seen = rw (seen_some v k it n e g, spec_get) (entries-splice v k it n e h);
    max_size = refl;
    enabled = refl;
  }

  touch_miss : lookup Bytes-discrete k c.l1_map ≡ none → Gets c (touch k c) (spec_get k (entries c))
  unfolding touch spec_get
  touch_miss e = record {
    after = c;
    returns = rw (e, touch, seen_none v k e, spec_get) refl;
    inv = v;
    seen = rw (seen_none v k e, spec_get) refl;
    max_size = refl;
    enabled = refl;
  }

  -- The block of `getL1` under the unique lock, in any state in which the list and the table
  -- agree, whatever the block under the shared lock has seen: it is defined, returns what is
  -- cached under the key, makes the entry the most recent one, and they agree after it.
  pub touch-Gets : Gets c (touch k c) (spec_get k (entries c))
  touch-Gets = elim (Option-cases (lookup Bytes-discrete k c.l1_map)) [
    | inl e ↦ touch_miss e
    | inr (it, e) ↦ let (n, g, h) = v.indexed k it e in touch_hit it n e g h
  ]

  get_l1-touch : c.l1_enabled ≡ true → get_l1 k c ≡ touch k c
  unfolding get_l1
  get_l1-touch on = ground arith

  -- With the cache enabled, `getL1` returns what the contract returns, and makes the entry the most
  -- recent one.
  pub get_l1-Gets : c.l1_enabled ≡ true → Gets c (get_l1 k c) (spec_get k (entries c))
  get_l1-Gets on = rw (get_l1-touch on) touch-Gets

-- A disabled cache finds nothing and changes nothing.
pub get_l1_disabled : (k : Bytes) (c : L1Cache) → c.l1_enabled ≡ false → get_l1 k c ≡ ok (c, none)
unfolding get_l1
get_l1_disabled k c off = ground arith
