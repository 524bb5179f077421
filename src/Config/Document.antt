-- ===== src/Config/Document.antt =====
-- parseYaml of src/Config/Config.cpp reads exactly what a document says.
use single_flight_proxy_serv.Prelude.{
  true, false, List, [], ◌∷◌, ◌≡◌, refl, ap, ◌∙◌, ◌⊎◌, inl, inr, Option, none, some, Option-cases,
}
use single_flight_proxy_serv.Config.Yaml.{Exception, YamlCpp}
use single_flight_proxy_serv.Config.Paths.{at, first, settled, document_error}
use single_flight_proxy_serv.Config.Reads.{
  Reads-first, IsBlock, below, faults, settle, here, then-IsBlock, under-IsBlock, setting-IsBlock,
}
use single_flight_proxy_serv.Config.{
  Config, under, finish, refuse, read_server, read_pool, read_database, read_l1, read_redis,
  read_cache, read_logging, read_ssl, read_document, parse_yaml,
}
use single_flight_proxy_serv.Config.Entries.{
  listen_port, listen_address, num_threads, db_host, db_port, pool_min_size, pool_max_size,
  pool_idle_timeout_seconds, l1_max_size, l1_enabled, redis_enabled, redis_host, redis_port,
  redis_timeout_ms, log_level, log_pattern, ssl_enabled, server_entries, pool_entries,
  database_entries, l1_entries, redis_entries, logging_entries, cache_entries, from_ssl,
  from_logging, from_cache, from_database, from_server,
}

module _ (yaml : YamlCpp) where
  open yaml use {Node}

  read_server-IsBlock :
      IsBlock yaml
        ((listen_port yaml) ∷ (listen_address yaml) ∷ (num_threads yaml) ∷ [])
        (read_server yaml)
  unfolding read_server
  read_server-IsBlock =
      then-IsBlock yaml ((listen_port yaml) ∷ []) ((listen_address yaml) ∷ (num_threads yaml) ∷ [])
        (setting-IsBlock yaml "listen_port" (listen_port yaml))
        (then-IsBlock yaml ((listen_address yaml) ∷ []) ((num_threads yaml) ∷ [])
          (setting-IsBlock yaml "listen_address" (listen_address yaml))
          (setting-IsBlock yaml "num_threads" (num_threads yaml)))

  read_pool-IsBlock :
      IsBlock yaml
        ((pool_min_size yaml) ∷ (pool_max_size yaml) ∷ (pool_idle_timeout_seconds yaml) ∷ [])
        (read_pool yaml)
  unfolding read_pool
  read_pool-IsBlock =
      then-IsBlock yaml ((pool_min_size yaml) ∷ [])
        ((pool_max_size yaml) ∷ (pool_idle_timeout_seconds yaml) ∷ [])
        (setting-IsBlock yaml "min_size" (pool_min_size yaml))
        (then-IsBlock yaml ((pool_max_size yaml) ∷ []) ((pool_idle_timeout_seconds yaml) ∷ [])
          (setting-IsBlock yaml "max_size" (pool_max_size yaml))
          (setting-IsBlock yaml "idle_timeout_seconds" (pool_idle_timeout_seconds yaml)))

  read_l1-IsBlock : IsBlock yaml ((l1_max_size yaml) ∷ (l1_enabled yaml) ∷ []) (read_l1 yaml)
  unfolding read_l1
  read_l1-IsBlock =
      then-IsBlock yaml ((l1_max_size yaml) ∷ []) ((l1_enabled yaml) ∷ [])
        (setting-IsBlock yaml "max_size" (l1_max_size yaml))
        (setting-IsBlock yaml "enabled" (l1_enabled yaml))

  read_redis-IsBlock :
      IsBlock yaml
        ((redis_enabled yaml)
          ∷ (redis_host yaml)
          ∷ (redis_port yaml)
          ∷ (redis_timeout_ms yaml)
          ∷ [])
        (read_redis yaml)
  unfolding read_redis
  read_redis-IsBlock =
      then-IsBlock yaml ((redis_enabled yaml) ∷ [])
        ((redis_host yaml) ∷ (redis_port yaml) ∷ (redis_timeout_ms yaml) ∷ [])
        (setting-IsBlock yaml "enabled" (redis_enabled yaml))
        (then-IsBlock yaml ((redis_host yaml) ∷ [])
          ((redis_port yaml) ∷ (redis_timeout_ms yaml) ∷ [])
          (setting-IsBlock yaml "host" (redis_host yaml))
          (then-IsBlock yaml ((redis_port yaml) ∷ []) ((redis_timeout_ms yaml) ∷ [])
            (setting-IsBlock yaml "port" (redis_port yaml))
            (setting-IsBlock yaml "timeout_ms" (redis_timeout_ms yaml))))

  read_logging-IsBlock :
      IsBlock yaml ((log_level yaml) ∷ (log_pattern yaml) ∷ []) (read_logging yaml)
  unfolding read_logging
  read_logging-IsBlock =
      then-IsBlock yaml ((log_level yaml) ∷ []) ((log_pattern yaml) ∷ [])
        (setting-IsBlock yaml "level" (log_level yaml))
        (setting-IsBlock yaml "pattern" (log_pattern yaml))

  read_ssl-IsBlock : IsBlock yaml ((ssl_enabled yaml) ∷ []) (read_ssl yaml)
  unfolding read_ssl
  read_ssl-IsBlock = setting-IsBlock yaml "enabled" (ssl_enabled yaml)

  read_database-IsBlock : IsBlock yaml (database_entries yaml) (read_database yaml)
  unfolding read_database
  read_database-IsBlock =
      then-IsBlock yaml ((db_host yaml) ∷ []) ((db_port yaml) ∷ (pool_entries yaml))
        (setting-IsBlock yaml "host" (db_host yaml))
        (then-IsBlock yaml ((db_port yaml) ∷ []) (pool_entries yaml)
          (setting-IsBlock yaml "port" (db_port yaml))
          (under-IsBlock yaml "pool" (pool_min_size yaml) _ read_pool-IsBlock))

  read_l2-IsBlock :
      IsBlock yaml (redis_entries yaml) (λ l2. under yaml l2 "redis" (read_redis yaml))
  read_l2-IsBlock = under-IsBlock yaml "redis" (redis_enabled yaml) _ read_redis-IsBlock

  read_cache-IsBlock : IsBlock yaml (cache_entries yaml) (read_cache yaml)
  unfolding read_cache
  read_cache-IsBlock =
      then-IsBlock yaml (l1_entries yaml) (below yaml "l2" (redis_entries yaml))
        (under-IsBlock yaml "l1" (l1_max_size yaml) _ read_l1-IsBlock)
        (under-IsBlock yaml "l2" _ _ read_l2-IsBlock)

  read_document-IsBlock : IsBlock yaml (from_server yaml) (read_document yaml)
  unfolding read_document
  read_document-IsBlock =
      then-IsBlock yaml (below yaml "server" (server_entries yaml)) (from_database yaml)
        (under-IsBlock yaml "server" _ _ read_server-IsBlock)
        (then-IsBlock yaml (below yaml "database" (database_entries yaml)) (from_cache yaml)
          (under-IsBlock yaml "database" _ _ read_database-IsBlock)
          (then-IsBlock yaml (below yaml "cache" (cache_entries yaml)) (from_logging yaml)
            (under-IsBlock yaml "cache" _ _ read_cache-IsBlock)
            (then-IsBlock yaml (below yaml "logging" (logging_entries yaml)) (from_ssl yaml)
              (under-IsBlock yaml "logging" _ _ read_logging-IsBlock)
              (under-IsBlock yaml "ssl" _ _ read_ssl-IsBlock))))

  abbrev all_settled : Node → Config → Config
  all_settled n c = settle yaml (here yaml n) (from_server yaml) c

  abbrev all_faults : Node → List (Option Exception)
  all_faults n = faults yaml (here yaml n) (from_server yaml)

  settled_lem :
      (n : Node) (c : Config)
      → record (all_settled n c) { valid = true; error_message = [] } ≡ settled yaml n c
  unfolding settled at
  settled_lem n c = refl

  faults_lem : (n : Node) → first (all_faults n) ≡ document_error yaml n
  unfolding document_error at
  faults_lem n = refl

  -- `parseYaml` succeeds exactly on a document on which no lookup and no conversion on the way to a
  -- setting throws, whatever the object held before. Then every setting that the document says has
  -- its value, every other is as it was, and the object is valid, without an error. On any other
  -- document it returns false, and the object is not valid and says what the first exception says, in
  -- the order in which the settings are read.
  pub parse_yaml-settles :
      (n : Node) (c : Config)
      → ((document_error yaml n ≡ none) × (parse_yaml yaml n c ≡ (settled yaml n c, true)))
        ⊎ ((e : Exception) × (d : Config) × (document_error yaml n ≡ some e)
            × (parse_yaml yaml n c ≡ (refuse e d, false)))
  unfolding parse_yaml finish
  parse_yaml-settles n c =
      let (good, bad) =
        Reads-first (all_faults n) (all_settled n c) (read_document yaml n c)
          (read_document-IsBlock.reads n c) in
      elim (Option-cases (document_error yaml n)) [
        | inl t ↦
            inl (t, ap finish (good (faults_lem n ∙ t)) ∙ ap (λ d. (d, true)) (settled_lem n c))
        | inr (e, f) ↦ let (d, r) = bad e (faults_lem n ∙ f) in inr (e, d, f, ap finish r)
      ]
