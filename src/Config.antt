-- ===== src/Config.antt =====
-- src/Config/Config.{hpp,cpp}: the settings, their defaults, and how a YAML document changes them.
-- A getter of the class is the field of that name. The log lines are left out.
pub mod Yaml
pub mod Paths
pub mod Reads
pub mod Entries
pub mod Document
pub mod Load
pub mod Ranges
use single_flight_proxy_serv.Prelude.{
  ℕ, Bool, true, false, String, Option, none, some, ◌∷◌, [], ◌++◌, Bytes, codes,
}
use single_flight_proxy_serv.Prelude.Int.{ℤ, pos}
use Yaml.{Exception, bad_file, yaml_exception, std_exception, Try, returns, throws, YamlCpp}

pub record Config : Type 0 where
  pub listen_port : ℕ
  pub listen_address : Bytes
  pub num_threads : ℕ
  pub db_host : Bytes
  pub db_port : ℕ
  pub pool_min_size : ℕ
  pub pool_max_size : ℕ
  pub pool_idle_timeout_seconds : ℕ
  pub l1_max_size : ℕ
  pub l1_enabled : Bool
  pub redis_enabled : Bool
  pub redis_host : Bytes
  pub redis_port : ℤ
  pub redis_timeout_ms : ℤ
  pub log_level : Bytes
  pub log_pattern : Bytes
  pub ssl_enabled : Bool
  pub valid : Bool
  pub error_message : Bytes

-- The members' initialisers.
abbrev pub initial : Config
initial = record {
  listen_port = 6000;
  listen_address = codes "0.0.0.0";
  num_threads = 4;
  db_host = codes "127.0.0.1";
  db_port = 5432;
  pool_min_size = 5;
  pool_max_size = 20;
  pool_idle_timeout_seconds = 300;
  l1_max_size = 1000;
  l1_enabled = true;
  redis_enabled = false;
  redis_host = codes "127.0.0.1";
  redis_port = pos 6379;
  redis_timeout_ms = pos 1000;
  log_level = codes "info";
  log_pattern = codes "[%Y-%m-%d %H:%M:%S.%e] [%^%l%$] %v";
  ssl_enabled = true;
  valid = false;
  error_message = [];
}

unfoldable pub set_defaults : Config → Config
set_defaults c = record c { valid = true }

-- The constructor.
unfoldable pub new_config : Config
unfolding set_defaults
new_config = set_defaults initial

-- What the `try` block of `parseYaml` comes to: the settings that have been read by its end, or by
-- the exception that leaves it.
pub data Reading : Type 0 where
  read : Config → Reading
  failed : Exception → Config → Reading

infixl 5 ◌>>=◌
abbrev pub ◌>>=◌ : Reading → (Config → Reading) → Reading
read c >>= f = f c
failed e c >>= f = failed e c

unfoldable pub assigned : {A : Type 0} → (A → Config → Config) → Try A → Config → Reading
assigned assign (returns v) c = read (assign v c)
assigned assign (throws e) c = failed e c

-- What the handlers of the exceptions do.
unfoldable pub what : Exception → Bytes
what (bad_file text) = codes "YAML parse error: " ++ text
what (yaml_exception text) = codes "YAML parse error: " ++ text
what (std_exception text) = codes "Config error: " ++ text

unfoldable pub refuse : Exception → Config → Config
unfolding what
refuse e c = record c { error_message = what e; valid = false }

-- The end of `parseYaml`.
unfoldable pub finish : Reading → Config × Bool
unfolding refuse
finish (read c) = (record c { valid = true; error_message = [] }, true)
finish (failed e c) = (refuse e c, false)

module _ (yaml : YamlCpp) where
  open yaml use {
    Node, lookup, as_unsigned_short, as_unsigned_int, as_size_t, as_int, as_bool, as_string,
  }

  -- The block under `if (node[key])`, where the lookup has given this.
  unfoldable pub enter : (Node → Config → Reading) → Try (Option Node) → Config → Reading
  enter block (returns none) c = read c
  enter block (returns (some node)) c = block node c
  enter block (throws e) c = failed e c

  unfoldable pub under : Node → String → (Node → Config → Reading) → Config → Reading
  unfolding enter
  under node key block c = enter block (lookup node key) c

  -- `if (node[key]) { member = node[key].as<A>(); }`
  unfoldable pub setting :
      {A : Type 0} → Node → String → (Node → Try A) → (A → Config → Config) → Config → Reading
  unfolding under assigned
  setting node key as_value assign c = under node key (λ found. assigned assign (as_value found)) c

  unfoldable pub read_server : Node → Config → Reading
  unfolding setting
  read_server server c = do
    c1 ← setting server "listen_port" as_unsigned_short (λ v d. record d { listen_port = v }) c
    c2 ← setting server "listen_address" as_string (λ v d. record d { listen_address = v }) c1
    setting server "num_threads" as_unsigned_int (λ v d. record d { num_threads = v }) c2

  unfoldable pub read_pool : Node → Config → Reading
  unfolding setting
  read_pool pool c = do
    c1 ← setting pool "min_size" as_size_t (λ v d. record d { pool_min_size = v }) c
    c2 ← setting pool "max_size" as_size_t (λ v d. record d { pool_max_size = v }) c1
    setting pool "idle_timeout_seconds" as_size_t
        (λ v d. record d { pool_idle_timeout_seconds = v }) c2

  unfoldable pub read_database : Node → Config → Reading
  unfolding setting read_pool under
  read_database db c = do
    c1 ← setting db "host" as_string (λ v d. record d { db_host = v }) c
    c2 ← setting db "port" as_unsigned_short (λ v d. record d { db_port = v }) c1
    under db "pool" read_pool c2

  unfoldable pub read_l1 : Node → Config → Reading
  unfolding setting
  read_l1 l1 c = do
    c1 ← setting l1 "max_size" as_size_t (λ v d. record d { l1_max_size = v }) c
    setting l1 "enabled" as_bool (λ v d. record d { l1_enabled = v }) c1

  unfoldable pub read_redis : Node → Config → Reading
  unfolding setting
  read_redis redis c = do
    c1 ← setting redis "enabled" as_bool (λ v d. record d { redis_enabled = v }) c
    c2 ← setting redis "host" as_string (λ v d. record d { redis_host = v }) c1
    c3 ← setting redis "port" as_int (λ v d. record d { redis_port = v }) c2
    setting redis "timeout_ms" as_int (λ v d. record d { redis_timeout_ms = v }) c3

  unfoldable pub read_cache : Node → Config → Reading
  unfolding under read_l1 read_redis
  read_cache cache c = do
    c1 ← under cache "l1" read_l1 c
    under cache "l2" (λ l2. under l2 "redis" read_redis) c1

  unfoldable pub read_logging : Node → Config → Reading
  unfolding setting
  read_logging logging c = do
    c1 ← setting logging "level" as_string (λ v d. record d { log_level = v }) c
    setting logging "pattern" as_string (λ v d. record d { log_pattern = v }) c1

  unfoldable pub read_ssl : Node → Config → Reading
  unfolding setting
  read_ssl ssl c = setting ssl "enabled" as_bool (λ v d. record d { ssl_enabled = v }) c

  unfoldable pub read_document : Node → Config → Reading
  unfolding under read_server read_database read_cache read_logging read_ssl
  read_document config c = do
    c1 ← under config "server" read_server c
    c2 ← under config "database" read_database c1
    c3 ← under config "cache" read_cache c2
    c4 ← under config "logging" read_logging c3
    under config "ssl" read_ssl c4

  unfoldable pub parse_yaml : Node → Config → Config × Bool
  unfolding finish read_document
  parse_yaml config c = finish (read_document config c)

  -- What `loadFromFile` does with what the library has made of the file.
  unfoldable pub loaded_file : Try Node → Config → Try (Config × Bool)
  unfolding parse_yaml set_defaults refuse
  loaded_file (returns config) c = returns (parse_yaml config c)
  loaded_file (throws (bad_file text)) c = returns (set_defaults c, true)
  loaded_file (throws (yaml_exception text)) c = returns (refuse (yaml_exception text) c, false)
  loaded_file (throws (std_exception text)) c = throws (std_exception text)

  unfoldable pub load_from_file : Bytes → Config → Try (Config × Bool)
  unfolding loaded_file
  load_from_file path c = loaded_file (yaml.load_file path) c

  unfoldable pub loaded_string : Try Node → Config → Try (Config × Bool)
  unfolding parse_yaml refuse
  loaded_string (returns config) c = returns (parse_yaml config c)
  loaded_string (throws (bad_file text)) c = returns (refuse (bad_file text) c, false)
  loaded_string (throws (yaml_exception text)) c = returns (refuse (yaml_exception text) c, false)
  loaded_string (throws (std_exception text)) c = throws (std_exception text)

  unfoldable pub load_from_string : Bytes → Config → Try (Config × Bool)
  unfolding loaded_string
  load_from_string content c = loaded_string (yaml.load content) c
