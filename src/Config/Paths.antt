-- ===== src/Config/Paths.antt =====
-- What a YAML document says, as parseYaml of src/Config/Config.cpp reads it: each setting stands at a
-- path of keys.
use single_flight_proxy_serv.Prelude.{true, String, Option, none, some, List, [], ◌∷◌}
use single_flight_proxy_serv.Config.Yaml.{Exception, Try, returns, throws, YamlCpp}
use single_flight_proxy_serv.Config.{Config}

-- The value, if it is there; a lookup or a conversion on the way can throw.
unfoldable pub at : {A B : Type 0} → Try (Option A) → (A → Try (Option B)) → Try (Option B)
at (returns none) f = returns none
at (returns (some a)) f = f a
at (throws e) f = throws e

unfoldable pub present : {A : Type 0} → Try A → Try (Option A)
present (returns a) = returns (some a)
present (throws e) = throws e

-- The setting that a document says, or else the one before.
unfoldable pub kept : {A : Type 0} → A → Try (Option A) → A
kept old (returns (some a)) = a
kept old (returns none) = old
kept old (throws e) = old

-- What a lookup or a conversion on the way has thrown.
unfoldable pub thrown : {A : Type 0} → Try (Option A) → Option Exception
thrown (returns o) = none
thrown (throws e) = some e

unfoldable pub first : List (Option Exception) → Option Exception
first [] = none
first (none ∷ os) = first os
first (some e ∷ os) = some e

module _ (yaml : YamlCpp) where
  open yaml use {
    Node, lookup, as_unsigned_short, as_unsigned_int, as_size_t, as_int, as_bool, as_string,
  }

  unfoldable pub find : {A : Type 0} → Node → List String → (Node → Try A) → Try (Option A)
  unfolding at present
  find node [] as_value = present (as_value node)
  find node (key ∷ keys) as_value = at (lookup node key) (λ child. find child keys as_value)

  -- All settings of a document, over those before.
  unfoldable pub settled : Node → Config → Config
  unfolding find kept
  settled n c = record {
    listen_port = kept c.listen_port (find n ("server" ∷ "listen_port" ∷ []) as_unsigned_short);
    listen_address = kept c.listen_address (find n ("server" ∷ "listen_address" ∷ []) as_string);
    num_threads = kept c.num_threads (find n ("server" ∷ "num_threads" ∷ []) as_unsigned_int);
    db_host = kept c.db_host (find n ("database" ∷ "host" ∷ []) as_string);
    db_port = kept c.db_port (find n ("database" ∷ "port" ∷ []) as_unsigned_short);
    pool_min_size = kept c.pool_min_size (find n ("database" ∷ "pool" ∷ "min_size" ∷ []) as_size_t);
    pool_max_size = kept c.pool_max_size (find n ("database" ∷ "pool" ∷ "max_size" ∷ []) as_size_t);
    pool_idle_timeout_seconds =
        kept c.pool_idle_timeout_seconds
          (find n ("database" ∷ "pool" ∷ "idle_timeout_seconds" ∷ []) as_size_t);
    l1_max_size = kept c.l1_max_size (find n ("cache" ∷ "l1" ∷ "max_size" ∷ []) as_size_t);
    l1_enabled = kept c.l1_enabled (find n ("cache" ∷ "l1" ∷ "enabled" ∷ []) as_bool);
    redis_enabled =
        kept c.redis_enabled (find n ("cache" ∷ "l2" ∷ "redis" ∷ "enabled" ∷ []) as_bool);
    redis_host = kept c.redis_host (find n ("cache" ∷ "l2" ∷ "redis" ∷ "host" ∷ []) as_string);
    redis_port = kept c.redis_port (find n ("cache" ∷ "l2" ∷ "redis" ∷ "port" ∷ []) as_int);
    redis_timeout_ms =
        kept c.redis_timeout_ms (find n ("cache" ∷ "l2" ∷ "redis" ∷ "timeout_ms" ∷ []) as_int);
    log_level = kept c.log_level (find n ("logging" ∷ "level" ∷ []) as_string);
    log_pattern = kept c.log_pattern (find n ("logging" ∷ "pattern" ∷ []) as_string);
    ssl_enabled = kept c.ssl_enabled (find n ("ssl" ∷ "enabled" ∷ []) as_bool);
    valid = true;
    error_message = [];
  }

  abbrev fault : {A : Type 0} → Node → List String → (Node → Try A) → Option Exception
  fault n path as_value = thrown (find n path as_value)

  -- The first exception on the way to a setting, in the order in which the settings are read.
  unfoldable pub document_error : Node → Option Exception
  unfolding find thrown first
  document_error n = first (
      fault n ("server" ∷ "listen_port" ∷ []) as_unsigned_short
      ∷ fault n ("server" ∷ "listen_address" ∷ []) as_string
      ∷ fault n ("server" ∷ "num_threads" ∷ []) as_unsigned_int
      ∷ fault n ("database" ∷ "host" ∷ []) as_string
      ∷ fault n ("database" ∷ "port" ∷ []) as_unsigned_short
      ∷ fault n ("database" ∷ "pool" ∷ "min_size" ∷ []) as_size_t
      ∷ fault n ("database" ∷ "pool" ∷ "max_size" ∷ []) as_size_t
      ∷ fault n ("database" ∷ "pool" ∷ "idle_timeout_seconds" ∷ []) as_size_t
      ∷ fault n ("cache" ∷ "l1" ∷ "max_size" ∷ []) as_size_t
      ∷ fault n ("cache" ∷ "l1" ∷ "enabled" ∷ []) as_bool
      ∷ fault n ("cache" ∷ "l2" ∷ "redis" ∷ "enabled" ∷ []) as_bool
      ∷ fault n ("cache" ∷ "l2" ∷ "redis" ∷ "host" ∷ []) as_string
      ∷ fault n ("cache" ∷ "l2" ∷ "redis" ∷ "port" ∷ []) as_int
      ∷ fault n ("cache" ∷ "l2" ∷ "redis" ∷ "timeout_ms" ∷ []) as_int
      ∷ fault n ("logging" ∷ "level" ∷ []) as_string
      ∷ fault n ("logging" ∷ "pattern" ∷ []) as_string
      ∷ fault n ("ssl" ∷ "enabled" ∷ []) as_bool
      ∷ [])
