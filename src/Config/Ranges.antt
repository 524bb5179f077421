-- ===== src/Config/Ranges.antt =====
-- The types of the settings of src/Config/Config.hpp: the numbers that a document says fit the members
-- that they are stored in.
use single_flight_proxy_serv.Prelude.{
  ℕ, ◌^◌, ◌<◌, ◌≡◌, sym, ap, subst, ◌∙◌, true, String, Option, none, some, List, [], ◌∷◌, Bytes,
  inl, inr, arith,
}
use single_flight_proxy_serv.Prelude.Int.{ℤ, pos, negsuc}
use single_flight_proxy_serv.Config.Yaml.{
  bad_file, yaml_exception, std_exception, Try, returns, throws, YamlCpp,
}
use single_flight_proxy_serv.Config.Paths.{at, present, kept, find, settled}
use single_flight_proxy_serv.Config.Document.{parse_yaml-settles}
use single_flight_proxy_serv.Config.Load.{returns-injective}
use single_flight_proxy_serv.Config.{Config, new_config, set_defaults, loaded_file, load_from_file}

-- The values of an unsigned type of `w` bits, and those of an `int`.
abbrev pub IsUnsigned : ℕ → ℕ → Type 0
IsUnsigned w n = n < 2 ^ w

abbrev pub IsInt : ℤ → Type 0
IsInt (pos n) = n < 2 ^ 31
IsInt (negsuc n) = n < 2 ^ 31

abbrev pub Fits : {A : Type 0} → (A → Type 0) → Try A → Type 0
Fits P (returns v) = P v
Fits P (throws e) = Unit {0}

abbrev pub InRange : Config → Type 0
InRange c =
    IsUnsigned 16 c.listen_port
    × IsUnsigned 32 c.num_threads
    × IsUnsigned 16 c.db_port
    × IsUnsigned 64 c.pool_min_size
    × IsUnsigned 64 c.pool_max_size
    × IsUnsigned 64 c.pool_idle_timeout_seconds
    × IsUnsigned 64 c.l1_max_size
    × IsInt c.redis_port
    × IsInt c.redis_timeout_ms

-- `Node::as<T>` gives a value of the type T, or throws.
pub record Converts (yaml : YamlCpp) : Type 0 where
  pub unsigned_short : (n : yaml.Node) → Fits (IsUnsigned 16) (yaml.as_unsigned_short n)
  pub unsigned_int : (n : yaml.Node) → Fits (IsUnsigned 32) (yaml.as_unsigned_int n)
  pub size_t : (n : yaml.Node) → Fits (IsUnsigned 64) (yaml.as_size_t n)
  pub int : (n : yaml.Node) → Fits IsInt (yaml.as_int n)

pub new_config-InRange : InRange new_config
unfolding new_config
new_config-InRange = (
  omega arith,
  omega arith,
  omega arith,
  omega arith,
  omega arith,
  omega arith,
  omega arith,
  omega arith,
  omega arith,
)

-- A setting that a document says fits, and so does the one before.
abbrev AllFit : {A : Type 0} → (A → Type 0) → Try (Option A) → Type 0
AllFit P (returns none) = Unit {0}
AllFit P (returns (some v)) = P v
AllFit P (throws e) = Unit {0}

kept-Fits :
    {A : Type 0} (P : A → Type 0) (old : A) (t : Try (Option A))
    → P old
    → AllFit P t
    → P (kept old t)
unfolding kept
kept-Fits P old (returns none) h k = h
kept-Fits P old (returns (some v)) h k = k
kept-Fits P old (throws e) h k = h

module _ (yaml : YamlCpp) where
  open yaml use {Node, lookup}

  module _ {A : Type 0} (P : A → Type 0) (as_value : Node → Try A)
      (fits : (n : Node) → Fits P (as_value n)) where
    present-AllFit : (t : Try A) → Fits P t → AllFit P (present t)
    unfolding present
    present-AllFit (returns v) h = h
    present-AllFit (throws e) h = tt

    at-AllFit :
        (t : Try (Option Node)) (f : Node → Try (Option A))
        → ((n : Node) → AllFit P (f n))
        → AllFit P (at t f)
    unfolding at
    at-AllFit (returns none) f h = tt
    at-AllFit (returns (some n)) f h = h n
    at-AllFit (throws e) f h = tt

    find-AllFit : (keys : List String) (n : Node) → AllFit P (find yaml n keys as_value)
    unfolding find
    find-AllFit [] n = present-AllFit (as_value n) (fits n)
    find-AllFit (key ∷ keys) n = at-AllFit (lookup n key) _ (find-AllFit keys)

    setting-Fits :
        (keys : List String) (n : Node) (old : A) → P old → P (kept old (find yaml n keys as_value))
    setting-Fits keys n old h = kept-Fits P old _ h (find-AllFit keys n)

  module _ (converts : Converts yaml) where
    settled-InRange : (n : Node) (c : Config) → InRange c → InRange (settled yaml n c)
    unfolding settled
    settled-InRange n c (a, b, d, e, f, g, h, i, j) =
        let short = setting-Fits (IsUnsigned 16) _ converts.unsigned_short in
        let threads = setting-Fits (IsUnsigned 32) _ converts.unsigned_int in
        let size = setting-Fits (IsUnsigned 64) _ converts.size_t in
        let int = setting-Fits IsInt _ converts.int in
        (
          short ("server" ∷ "listen_port" ∷ []) n _ a,
          threads ("server" ∷ "num_threads" ∷ []) n _ b,
          short ("database" ∷ "port" ∷ []) n _ d,
          size ("database" ∷ "pool" ∷ "min_size" ∷ []) n _ e,
          size ("database" ∷ "pool" ∷ "max_size" ∷ []) n _ f,
          size ("database" ∷ "pool" ∷ "idle_timeout_seconds" ∷ []) n _ g,
          size ("cache" ∷ "l1" ∷ "max_size" ∷ []) n _ h,
          int ("cache" ∷ "l2" ∷ "redis" ∷ "port" ∷ []) n _ i,
          int ("cache" ∷ "l2" ∷ "redis" ∷ "timeout_ms" ∷ []) n _ j,
        )

    loaded_file-InRange :
        (t : Try Node) (c : Config) {d : Config}
        → InRange c
        → loaded_file yaml t c ≡ returns (d, true)
        → InRange d
    unfolding loaded_file set_defaults
    loaded_file-InRange (returns n) c h e = elim (parse_yaml-settles yaml n c) [
      | inl (good, settles) ↦
          subst InRange (ap (λ p. p.0) (sym settles ∙ returns-injective e)) (settled-InRange n c h)
      | inr (x, y, bad, refused) ↦ absurd (cc (ap (λ p. p.1) (sym refused ∙ returns-injective e)))
    ]
    loaded_file-InRange (throws (bad_file text)) c h e =
        subst InRange (ap (λ p. p.0) (returns-injective e)) h
    loaded_file-InRange (throws (yaml_exception text)) c h e =
        absurd (cc (ap (λ p. p.1) (returns-injective e)))
    loaded_file-InRange (throws (std_exception text)) c h e = absurd (cc e)

    -- After a load that succeeds the numbers are values of their members' types, if they were before.
    pub load-InRange :
        (path : Bytes) (c : Config) {d : Config}
        → InRange c
        → load_from_file yaml path c ≡ returns (d, true)
        → InRange d
    unfolding load_from_file
    load-InRange path c h e = loaded_file-InRange (yaml.load_file path) c h e
