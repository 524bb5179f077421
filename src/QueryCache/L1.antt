-- ===== src/QueryCache/L1.antt =====
-- The first level of src/QueryCache/QueryCache.cpp: an LRU list of nodes, least recent first, and a
-- table from keys to the list's iterators. An iterator is the address of its node: `l1_list` pairs
-- each node with it, and `l1_next` is the address of the next node to be allocated. To follow an
-- iterator to a node that is gone, or to take the first node of an empty list, is undefined.
pub mod Invariant
pub mod Spec
pub mod Get
pub mod Room
pub mod Put
pub mod History
pub mod Bounds
use mathlib.Core.List.{lookup}
use single_flight_proxy_serv.Prelude.{
  ℕ, ◌+◌, Bool, true, false, Option, none, some, List, [], ◌∷◌, ◌++◌, map, ℕ_discrete, Bytes,
  Bytes-discrete, length, leb, is_some, if◌then◌else◌,
}
use single_flight_proxy_serv.Prelude.Dict.{erase, insert}
use single_flight_proxy_serv.Prelude.Outcome.{Outcome, ok, undefined, ◌>>=◌}

pub record LruNode : Type 0 where
  pub key : Bytes
  pub value : Bytes

pub record L1Cache : Type 0 where
  pub l1_max_size : ℕ
  pub l1_enabled : Bool
  pub l1_list : List (ℕ × LruNode)
  pub l1_map : List (Bytes × ℕ)
  pub l1_next : ℕ

-- The member initialisers of the class.
abbrev pub init : L1Cache
init = record { l1_max_size = 1000; l1_enabled = true; l1_list = []; l1_map = []; l1_next = 0 }

unfoldable pub set_l1_max_size : ℕ → L1Cache → L1Cache
set_l1_max_size max_size c = record c { l1_max_size = max_size }

unfoldable pub clear : L1Cache → L1Cache
clear c = record c { l1_list = []; l1_map = [] }

unfoldable pub set_l1_enabled : Bool → L1Cache → L1Cache
unfolding clear
set_l1_enabled enabled c =
    let c' = record c { l1_enabled = enabled } in if enabled then c' else clear c'

-- `splice(end, list, it)`: the node goes to the end.
abbrev pub splice : ℕ → LruNode → List (ℕ × LruNode) → List (ℕ × LruNode)
splice it node l = erase ℕ_discrete it l ++ (it, node) ∷ []

-- The block of `getL1` under the shared lock.
unfoldable pub probe : Bytes → L1Cache → Bool
probe query c = is_some (lookup Bytes-discrete query c.l1_map)

-- The block of `getL1` under the unique lock.
unfoldable pub touch : Bytes → L1Cache → Outcome (L1Cache × Option Bytes)
touch query c = elim (lookup Bytes-discrete query c.l1_map) [
  | none ↦ ok (c, none)
  | some it ↦ elim (lookup ℕ_discrete it c.l1_list) [
    | none ↦ undefined
    | some node ↦ ok (record c { l1_list = splice it node c.l1_list }, some node.value)
  ]
]

unfoldable pub get_l1 : Bytes → L1Cache → Outcome (L1Cache × Option Bytes)
unfolding probe touch
get_l1 query c =
    if c.l1_enabled then (if probe query c then touch query c else ok (c, none)) else ok (c, none)

-- `l1_map_.erase(oldest->key); l1_list_.pop_front();` where `oldest` is `l1_list_.begin()`.
unfoldable pub pop_oldest : List (ℕ × LruNode) → L1Cache → Outcome L1Cache
pop_oldest [] c = undefined
pop_oldest ((_, oldest) ∷ rest) c =
    ok (record c { l1_list = rest; l1_map = erase Bytes-discrete oldest.key c.l1_map })

unfoldable pub evict : L1Cache → Outcome L1Cache
unfolding pop_oldest
evict c = if leb c.l1_max_size (length c.l1_list) then pop_oldest c.l1_list c else ok c

unfoldable pub push_back : Bytes → Bytes → L1Cache → L1Cache
push_back query result c = record c {
  l1_list = c.l1_list ++ (c.l1_next, record { key = query; value = result }) ∷ [];
  l1_map = insert Bytes-discrete query c.l1_next c.l1_map;
  l1_next = c.l1_next + 1;
}

-- The block of `putL1` under the unique lock.
unfoldable pub store : Bytes → Bytes → L1Cache → Outcome L1Cache
unfolding evict push_back
store query result c = elim (lookup Bytes-discrete query c.l1_map) [
  | none ↦ do c' ← evict c; ok (push_back query result c')
  | some it ↦ elim (lookup ℕ_discrete it c.l1_list) [
    | none ↦ undefined
    | some node ↦ ok (record c { l1_list = splice it (record node { value = result }) c.l1_list })
  ]
]

unfoldable pub put_l1 : Bytes → Bytes → L1Cache → Outcome L1Cache
unfolding store
put_l1 query result c = if c.l1_enabled then store query result c else ok c

-- The number that `getStats` reports.
unfoldable pub l1_size : L1Cache → ℕ
l1_size c = length c.l1_map
