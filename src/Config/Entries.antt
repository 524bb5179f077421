-- ===== src/Config/Entries.antt =====
-- The settings that parseYaml of src/Config/Config.cpp reads, block by block.
use single_flight_proxy_serv.Prelude.{String, List, [], ◌∷◌, ◌≡◌, refl}
use single_flight_proxy_serv.Config.Yaml.{Try, YamlCpp}
use single_flight_proxy_serv.Config.Reads.{Entry, concat, below}
use single_flight_proxy_serv.Config.{Config}

module _ (yaml : YamlCpp) where
  open yaml use {
    Node, lookup, as_unsigned_short, as_unsigned_int, as_size_t, as_int, as_bool, as_string,
  }

  abbrev entry :
      {A : Type 0} (key : String) (as_value : Node → Try A) (get : Config → A)
      (assign : A → Config → Config)
      → ((c : Config) → assign (get c) c ≡ c)
      → Entry yaml
  entry {A} key as_value get assign same = record {
    A = A;
    path = key ∷ [];
    as_value = as_value;
    get = get;
    assign = assign;
    same = same;
  }

  abbrev pub listen_port : Entry yaml
  listen_port =
      entry "listen_port" as_unsigned_short (λ c. c.listen_port)
        (λ v c. record c { listen_port = v }) (λ c. refl)

  abbrev pub listen_address : Entry yaml
  listen_address =
      entry "listen_address" as_string (λ c. c.listen_address)
        (λ v c. record c { listen_address = v }) (λ c. refl)

  abbrev pub num_threads : Entry yaml
  num_threads =
      entry "num_threads" as_unsigned_int (λ c. c.num_threads) (λ v c. record c { num_threads = v })
        (λ c. refl)

  abbrev pub db_host : Entry yaml
  db_host = entry "host" as_string (λ c. c.db_host) (λ v c. record c { db_host = v }) (λ c. refl)

  abbrev pub db_port : Entry yaml
  db_port =
      entry "port" as_unsigned_short (λ c. c.db_port) (λ v c. record c { db_port = v }) (λ c. refl)

  abbrev pub pool_min_size : Entry yaml
  pool_min_size =
      entry "min_size" as_size_t (λ c. c.pool_min_size) (λ v c. record c { pool_min_size = v })
        (λ c. refl)

  abbrev pub pool_max_size : Entry yaml
  pool_max_size =
      entry "max_size" as_size_t (λ c. c.pool_max_size) (λ v c. record c { pool_max_size = v })
        (λ c. refl)

  abbrev pub pool_idle_timeout_seconds : Entry yaml
  pool_idle_timeout_seconds =
      entry "idle_timeout_seconds" as_size_t (λ c. c.pool_idle_timeout_seconds)
        (λ v c. record c { pool_idle_timeout_seconds = v }) (λ c. refl)

  abbrev pub l1_max_size : Entry yaml
  l1_max_size =
      entry "max_size" as_size_t (λ c. c.l1_max_size) (λ v c. record c { l1_max_size = v })
        (λ c. refl)

  abbrev pub l1_enabled : Entry yaml
  l1_enabled =
      entry "enabled" as_bool (λ c. c.l1_enabled) (λ v c. record c { l1_enabled = v }) (λ c. refl)

  abbrev pub redis_enabled : Entry yaml
  redis_enabled =
      entry "enabled" as_bool (λ c. c.redis_enabled) (λ v c. record c { redis_enabled = v })
        (λ c. refl)

  abbrev pub redis_host : Entry yaml
  redis_host =
      entry "host" as_string (λ c. c.redis_host) (λ v c. record c { redis_host = v }) (λ c. refl)

  abbrev pub redis_port : Entry yaml
  redis_port =
      entry "port" as_int (λ c. c.redis_port) (λ v c. record c { redis_port = v }) (λ c. refl)

  abbrev pub redis_timeout_ms : Entry yaml
  redis_timeout_ms =
      entry "timeout_ms" as_int (λ c. c.redis_timeout_ms) (λ v c. record c { redis_timeout_ms = v })
        (λ c. refl)

  abbrev pub log_level : Entry yaml
  log_level =
      entry "level" as_string (λ c. c.log_level) (λ v c. record c { log_level = v }) (λ c. refl)

  abbrev pub log_pattern : Entry yaml
  log_pattern =
      entry "pattern" as_string (λ c. c.log_pattern) (λ v c. record c { log_pattern = v })
        (λ c. refl)

  abbrev pub ssl_enabled : Entry yaml
  ssl_enabled =
      entry "enabled" as_bool (λ c. c.ssl_enabled) (λ v c. record c { ssl_enabled = v }) (λ c. refl)

  abbrev pub server_entries : List (Entry yaml)
  server_entries = listen_port ∷ listen_address ∷ num_threads ∷ []

  abbrev pub pool_entries : List (Entry yaml)
  pool_entries = below yaml "pool" (pool_min_size ∷ pool_max_size ∷ pool_idle_timeout_seconds ∷ [])

  abbrev pub database_entries : List (Entry yaml)
  database_entries = db_host ∷ db_port ∷ pool_entries

  abbrev pub l1_entries : List (Entry yaml)
  l1_entries = below yaml "l1" (l1_max_size ∷ l1_enabled ∷ [])

  abbrev pub redis_entries : List (Entry yaml)
  redis_entries =
      below yaml "redis" (redis_enabled ∷ redis_host ∷ redis_port ∷ redis_timeout_ms ∷ [])

  abbrev pub logging_entries : List (Entry yaml)
  logging_entries = log_level ∷ log_pattern ∷ []

  abbrev pub cache_entries : List (Entry yaml)
  cache_entries = concat l1_entries (below yaml "l2" redis_entries)

  abbrev pub from_ssl : List (Entry yaml)
  from_ssl = below yaml "ssl" (ssl_enabled ∷ [])

  abbrev pub from_logging : List (Entry yaml)
  from_logging = concat (below yaml "logging" logging_entries) from_ssl

  abbrev pub from_cache : List (Entry yaml)
  from_cache = concat (below yaml "cache" cache_entries) from_logging

  abbrev pub from_database : List (Entry yaml)
  from_database = concat (below yaml "database" database_entries) from_cache

  abbrev pub from_server : List (Entry yaml)
  from_server = concat (below yaml "server" server_entries) from_database
