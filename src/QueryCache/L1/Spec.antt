-- ===== src/QueryCache/L1/Spec.antt =====
-- What the first cache level promises: a bounded list of entries, least recently used first.
use mathlib.Core.List.{lookup}
use single_flight_proxy_serv.Prelude.{
  ℕ, Option, none, some, List, [], ◌∷◌, ◌++◌, Bytes, Bytes-discrete, length, leb, drop,
  if◌then◌else◌,
}
use single_flight_proxy_serv.Prelude.Dict.{erase}

abbrev pub Entries : Type 0
Entries = List (Bytes × Bytes)

-- The entry becomes the most recent one.
abbrev pub use_entry : Bytes → Bytes → Entries → Entries
use_entry k v es = erase Bytes-discrete k es ++ (k, v) ∷ []

unfoldable pub spec_get : Bytes → Entries → Entries × Option Bytes
spec_get k es = elim (lookup Bytes-discrete k es) [
  | none ↦ (es, none)
  | some v ↦ (use_entry k v es, some v)
]

-- A full cache loses its least recent entry.
unfoldable pub make_room : ℕ → Entries → Entries
make_room max es = if leb max (length es) then drop 1 es else es

unfoldable pub spec_put : ℕ → Bytes → Bytes → Entries → Entries
unfolding make_room
spec_put max k v es = elim (lookup Bytes-discrete k es) [
  | none ↦ make_room max es ++ (k, v) ∷ []
  | some _ ↦ use_entry k v es
]
