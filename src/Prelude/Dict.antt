-- ===== src/Prelude/Dict.antt =====
-- Association lists: the contents of an `unordered_map`, and of a `list` whose elements are known
-- by their addresses. Reading is the library's `lookup`.
use Prim.Native.Nat.{◌+◌}
use mathlib.Core.Path.{◌≡◌, refl}
use mathlib.Core.Logic.{ite}
use mathlib.Core.Option.{Option, none, some}
use mathlib.Core.List.{List, [], ◌∷◌, ◌++◌, lookup}
use native.Mathlib.Omega.{arith}
use single_flight_proxy_serv.Prelude.Lists.{length}

-- Reading falls back to a second reading.
abbrev pub or_else {ℓ} : {A : Type ℓ} → Option A → Option A → Option A
or_else none o = o
or_else (some a) o = some a

module _ {ℓ} {K V : Type ℓ} (dec : Discrete K) where
  -- `erase(key)`
  unfoldable pub erase : K → List (K × V) → List (K × V)
  erase k [] = []
  erase k ((j, w) ∷ m) = ite (dec k j) (erase k m) ((j, w) ∷ erase k m)

  -- `m[key] = value`
  unfoldable pub insert : K → V → List (K × V) → List (K × V)
  insert k v [] = (k, v) ∷ []
  insert k v ((j, w) ∷ m) = ite (dec k j) ((k, v) ∷ m) ((j, w) ∷ insert k v m)

  -- No key stands twice.
  abbrev pub IsMap : List (K × V) → Type ℓ
  IsMap [] = Unit
  IsMap ((k, v) ∷ m) = (lookup dec k m ≡ none) × IsMap m

  pub lookup-erase :
      (k j : K) (m : List (K × V)) → lookup dec j (erase k m) ≡ ite (dec k j) none (lookup dec j m)
  unfolding erase lookup
  lookup-erase k j [] = ground arith
  lookup-erase k j ((i, w) ∷ m) = ground (arith, lookup-erase k j m)

  pub lookup-insert :
      (k j : K) (v : V) (m : List (K × V))
      → lookup dec j (insert k v m) ≡ ite (dec k j) (some v) (lookup dec j m)
  unfolding insert lookup
  lookup-insert k j v [] = ground arith
  lookup-insert k j v ((i, w) ∷ m) = ground (arith, lookup-insert k j v m)

  pub lookup-append :
      (j : K) (m n : List (K × V))
      → lookup dec j (m ++ n) ≡ or_else (lookup dec j m) (lookup dec j n)
  unfolding lookup
  lookup-append j [] n = refl
  lookup-append j ((i, w) ∷ m) n = ground (arith, lookup-append j m n)

  pub erase-IsMap : (k : K) (m : List (K × V)) → IsMap m → IsMap (erase k m)
  unfolding erase
  erase-IsMap k [] h = h
  erase-IsMap k ((j, w) ∷ m) h = ground (arith, lookup-erase k j m, erase-IsMap k m h.1)

  pub insert-IsMap : (k : K) (v : V) (m : List (K × V)) → IsMap m → IsMap (insert k v m)
  unfolding insert lookup
  insert-IsMap k v [] h = (refl, h)
  insert-IsMap k v ((j, w) ∷ m) h = ground (arith, lookup-insert k j v m, insert-IsMap k v m h.1)

  pub snoc-IsMap :
      (k : K) (v : V) (m : List (K × V))
      → IsMap m
      → lookup dec k m ≡ none
      → IsMap (m ++ (k, v) ∷ [])
  unfolding lookup
  snoc-IsMap k v [] h e = (refl, h)
  snoc-IsMap k v ((j, w) ∷ m) h e =
      ground (arith, lookup-append j m ((k, v) ∷ []), snoc-IsMap k v m h.1)

  erase_absent : (k : K) (m : List (K × V)) → lookup dec k m ≡ none → erase k m ≡ m
  unfolding erase lookup
  erase_absent k [] e = refl
  erase_absent k ((j, w) ∷ m) e = ground (arith, erase_absent k m)

  pub length-erase :
      (k : K) (v : V) (m : List (K × V))
      → IsMap m
      → lookup dec k m ≡ some v
      → length (erase k m) + 1 ≡ length m
  unfolding erase lookup
  length-erase k v [] h e = ground arith
  length-erase k v ((j, w) ∷ m) h e = ground (arith, length-erase k v m h.1, erase_absent k m)

  pub length-insert_new :
      (k : K) (v : V) (m : List (K × V))
      → lookup dec k m ≡ none
      → length (insert k v m) ≡ length m + 1
  unfolding insert lookup
  length-insert_new k v [] e = omega arith
  length-insert_new k v ((j, w) ∷ m) e = ground (arith, length-insert_new k v m)

  pub length-insert_old :
      (k : K) (v w : V) (m : List (K × V))
      → lookup dec k m ≡ some w
      → length (insert k v m) ≡ length m
  unfolding insert lookup
  length-insert_old k v w [] e = ground arith
  length-insert_old k v w ((j, x) ∷ m) e = ground (arith, length-insert_old k v w m)
