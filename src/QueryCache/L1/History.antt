-- ===== src/QueryCache/L1/History.antt =====
-- Any sequence of calls on the first cache level, against the bounded list that it promises.
use mathlib.Core.List.{lookup}
use single_flight_proxy_serv.Prelude.{
  ℕ, ◌<◌, ◌≡◌, refl, inl, inr, Bool, true, false, Option, none, List, [], ◌∷◌, arith, Bytes,
  if◌then◌else◌, Bool-cases,
}
use single_flight_proxy_serv.Prelude.Outcome.{Outcome, ok, ◌>>=◌}
use single_flight_proxy_serv.QueryCache.L1.{
  L1Cache, init, get_l1, put_l1, clear, set_l1_max_size, set_l1_enabled,
}
use single_flight_proxy_serv.QueryCache.L1.Invariant.{Inv, entries}
use single_flight_proxy_serv.QueryCache.L1.Spec.{Entries, spec_get, spec_put}
use single_flight_proxy_serv.QueryCache.L1.Get.{get_l1-Gets, get_l1_disabled}
use single_flight_proxy_serv.QueryCache.L1.Put.{put_l1-Puts, put_l1_disabled}

pub data Op : Type 0 where
  gets : Bytes → Op
  puts : Bytes → Bytes → Op
  resizes : ℕ → Op
  enables : Bool → Op
  clears : Op

pub record Lru : Type 0 where
  pub max_size : ℕ
  pub enabled : Bool
  pub items : Entries

unfoldable pub exec : Op → L1Cache → Outcome (L1Cache × Option Bytes)
exec (gets k) c = get_l1 k c
exec (puts k r) c = do c' ← put_l1 k r c; ok (c', none)
exec (resizes n) c = ok (set_l1_max_size n c, none)
exec (enables b) c = ok (set_l1_enabled b c, none)
exec clears c = ok (clear c, none)

unfoldable pub run : List Op → L1Cache → Outcome (L1Cache × List (Option Bytes))
run [] c = ok (c, [])
run (op ∷ ops) c = do (c1, found) ← exec op c; (c2, rest) ← run ops c1; ok (c2, found ∷ rest)

-- The contract. A disabled cache is empty: it is cleared as it is switched off.
unfoldable pub spec_exec : Op → Lru → Lru × Option Bytes
spec_exec (gets k) m =
    if m.enabled
    then (let (items, found) = spec_get k m.items in (record m { items = items }, found))
    else (m, none)
spec_exec (puts k r) m =
    if m.enabled then (record m { items = spec_put m.max_size k r m.items }, none) else (m, none)
spec_exec (resizes n) m = (record m { max_size = n }, none)
spec_exec (enables b) m = (record m { enabled = b; items = if b then m.items else [] }, none)
spec_exec clears m = (record m { items = [] }, none)

unfoldable pub spec_run : List Op → Lru → Lru × List (Option Bytes)
spec_run [] m = (m, [])
spec_run (op ∷ ops) m =
    let (m1, found) = spec_exec op m in let (m2, rest) = spec_run ops m1 in (m2, found ∷ rest)

abbrev pub view : L1Cache → Lru
view c = record { max_size = c.l1_max_size; enabled = c.l1_enabled; items = entries c }

-- No call sets the size to zero.
abbrev pub IsSized : Op → Type 0
IsSized (resizes n) = 0 < n
IsSized op = Unit {0}

abbrev pub AllSized : List Op → Type 0
AllSized [] = Unit {0}
AllSized (op ∷ ops) = IsSized op × AllSized ops

pub record Agrees (x : Outcome (L1Cache × Option Bytes)) (y : Lru × Option Bytes) : Type 0 where
  pub after : L1Cache
  pub returns : x ≡ ok (after, y.1)
  pub inv : Inv after
  pub seen : view after ≡ y.0
  pub positive : 0 < after.l1_max_size

pub settings-Inv :
    (c : L1Cache) (n : ℕ) (b : Bool) → Inv c → Inv (record c { l1_max_size = n; l1_enabled = b })
settings-Inv c n b v = record {
  unique = v.unique;
  distinct = v.distinct;
  linked = v.linked;
  indexed = v.indexed;
  allocated = v.allocated;
  sized = v.sized;
}

pub clear-Inv : (c : L1Cache) → Inv c → Inv (clear c)
unfolding clear lookup
clear-Inv c v = record {
  unique = tt;
  distinct = tt;
  linked = λ it n e. ground arith;
  indexed = λ k it e. cc;
  allocated = λ it n e. ground arith;
  sized = refl;
}

module _ (c : L1Cache) (v : Inv c) (positive : 0 < c.l1_max_size) where
  gets-Agrees : (k : Bytes) → Agrees (exec (gets k) c) (spec_exec (gets k) (view c))
  unfolding exec spec_exec
  gets-Agrees k = elim (Bool-cases c.l1_enabled) [
    | inl on ↦
        let g = get_l1-Gets k v on in
        record {
          after = g.after;
          returns = ground (arith, g.returns);
          inv = g.inv;
          seen = ground (arith, g.seen, g.max_size, g.enabled);
          positive = omega (arith, g.max_size);
        }
    | inr off ↦ record {
      after = c;
      returns = ground (arith, get_l1_disabled k c off);
      inv = v;
      seen = ground arith;
      positive = positive;
    }
  ]

  puts-Agrees : (k r : Bytes) → Agrees (exec (puts k r) c) (spec_exec (puts k r) (view c))
  unfolding exec spec_exec
  puts-Agrees k r = elim (Bool-cases c.l1_enabled) [
    | inl on ↦
        let p = put_l1-Puts k r v on (omega arith) in
        record {
          after = p.after;
          returns = ground (arith, p.returns);
          inv = p.inv;
          seen = ground (arith, p.seen, p.max_size, p.enabled);
          positive = omega (arith, p.max_size);
        }
    | inr off ↦ record {
      after = c;
      returns = ground (arith, put_l1_disabled k r c off);
      inv = v;
      seen = ground arith;
      positive = positive;
    }
  ]

  pub exec-Agrees : (op : Op) → IsSized op → Agrees (exec op c) (spec_exec op (view c))
  unfolding exec spec_exec set_l1_max_size set_l1_enabled clear
  exec-Agrees (gets k) h = gets-Agrees k
  exec-Agrees (puts k r) h = puts-Agrees k r
  exec-Agrees (resizes n) h = record {
    after = set_l1_max_size n c;
    returns = refl;
    inv = settings-Inv c n c.l1_enabled v;
    seen = refl;
    positive = h;
  }
  exec-Agrees (enables true) h = record {
    after = record c { l1_enabled = true };
    returns = refl;
    inv = settings-Inv c c.l1_max_size true v;
    seen = refl;
    positive = positive;
  }
  exec-Agrees (enables false) h = record {
    after = clear (record c { l1_enabled = false });
    returns = refl;
    inv = clear-Inv _ (settings-Inv c c.l1_max_size false v);
    seen = refl;
    positive = positive;
  }
  exec-Agrees clears h = record {
    after = clear c;
    returns = refl;
    inv = clear-Inv c v;
    seen = refl;
    positive = positive;
  }

pub init-Inv : Inv init
unfolding lookup
init-Inv = record {
  unique = tt;
  distinct = tt;
  linked = λ it n e. ground arith;
  indexed = λ k it e. cc;
  allocated = λ it n e. ground arith;
  sized = refl;
}

pub record RunAgrees (x : Outcome (L1Cache × List (Option Bytes))) (y : Lru × List (Option Bytes))
    : Type 0 where
  pub after : L1Cache
  pub returns : x ≡ ok (after, y.1)
  pub inv : Inv after
  pub seen : view after ≡ y.0

-- Where the list and the table agree and the size is not zero, any sequence of calls that sets no
-- size of zero is defined, is answered as the bounded list answers it, and leaves its entries and
-- settings.
pub run-RunAgrees :
    (ops : List Op) (c : L1Cache)
    → Inv c
    → 0 < c.l1_max_size
    → AllSized ops
    → RunAgrees (run ops c) (spec_run ops (view c))
unfolding run spec_run
run-RunAgrees [] c v h sized = record { after = c; returns = refl; inv = v; seen = refl }
run-RunAgrees (op ∷ ops) c v h sized =
    let now = exec-Agrees c v h op sized.0 in
    let rest = run-RunAgrees ops now.after now.inv now.positive sized.1 in
    record {
      after = rest.after;
      returns = rw (now.returns, ← now.seen, rest.returns) refl;
      inv = rest.inv;
      seen = rw (← now.seen) rest.seen;
    }
