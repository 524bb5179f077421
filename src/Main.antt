-- ===== src/Main.antt =====
-- src/main.cpp: how the program starts from its settings, and how it ends. The binding of the acceptor
-- is a parameter, like yaml-cpp and the libraries of the cache. The log lines and the log's pattern
-- are left out.
pub mod Logging
pub mod Boot
pub mod Life
pub mod Steps
pub mod Ending
pub mod Sockets
pub mod Ranges
pub mod Origin
use single_flight_proxy_serv.Prelude.{
  ℕ, zero, suc, ◌-◌, Bool, true, false, ◌&&◌, List, [], ◌∷◌, ◌++◌, ◌≡◌, Bytes, codes, ltb, ◌==◌,
  if◌then◌else◌,
}
use single_flight_proxy_serv.Prelude.Outcome.{Outcome, ok, ◌>>=◌}
use single_flight_proxy_serv.QueryCache.L2.{Hiredis}
use single_flight_proxy_serv.QueryCache.{
  QueryCache, Build, new_cache, set_l1_max_size, set_l1_enabled, set_redis_config,
}
use single_flight_proxy_serv.Session.{Session, new_session}
use single_flight_proxy_serv.Config.Yaml.{Try, returns, throws, YamlCpp}
use single_flight_proxy_serv.Config.{Config, new_config, load_from_file}
use single_flight_proxy_serv.Proxy.{Proxy, Started}
use single_flight_proxy_serv.ProxyServer as Servers
use single_flight_proxy_serv.ProxyServer.{Server, Happening, new_server, shutdown}
use single_flight_proxy_serv.ProxyServer.Port.{short_of, listen_endpoint}
use Logging.{Level, log_level}

-- The running program. A global pointer is set or null; the worker threads are counted.
pub record Process (lib : Hiredis) : Type 0 where
  pub config : Config
  pub level : Level
  pub server : Server lib
  pub g_io_context : Bool
  pub g_work_guard : Bool
  pub g_server : Bool
  pub work_is_guarded : Bool
  pub io_is_stopped : Bool
  pub workers : ℕ

-- What a start comes to: the program has ended with this status, or it runs.
pub data Start (lib : Hiredis) : Type 0 where
  exits : ℕ → Start lib
  serves : Process lib → Start lib

-- The arguments behind the program's name.
unfoldable pub config_path : List Bytes → Bytes
config_path [] = codes "config.yaml"
config_path (path ∷ rest) = path

module _ (b : Build) where
  open b use {lib}

  unfoldable pub configure : Config → QueryCache lib ℕ → QueryCache lib ℕ
  configure c q =
      let q1 = set_l1_enabled b c.l1_enabled (set_l1_max_size b c.l1_max_size q) in
      if c.redis_enabled
      then set_redis_config b c.redis_host c.redis_port c.redis_timeout_ms q1
      else q1

  -- What the sessions share, before there are any.
  abbrev pub new_proxy : Config → lib.World → Proxy lib
  new_proxy c w = record { sessions = λ i. new_session; cache = configure c (new_cache b w) }

  -- The program when all worker threads have been started.
  unfoldable pub new_process : Config → lib.World → Process lib
  new_process c w = record {
    config = c;
    level = log_level c.log_level;
    server = new_server c.db_host (short_of c.db_port) (new_proxy c w);
    g_io_context = true;
    g_work_guard = true;
    g_server = true;
    work_is_guarded = true;
    io_is_stopped = false;
    workers = c.num_threads;
  }

  -- `binds` says whether the acceptor can be bound to an address and a port; where it cannot, its
  -- constructor throws.
  module _ (yaml : YamlCpp) (binds : Bytes → ℕ → Bool) where
    unfoldable pub set_up : Config → lib.World → Start lib
    set_up c w =
        if binds c.listen_address (listen_endpoint c.listen_port)
        then serves (new_process c w)
        else exits 1

    -- What `main` does with the result of `loadFromFile`.
    unfoldable pub loaded : Try (Config × Bool) → lib.World → Start lib
    unfolding set_up
    loaded (throws e) w = exits 1
    loaded (returns (c, true)) w = set_up c w
    loaded (returns (c, false)) w = if c.valid then set_up c w else exits 1

    unfoldable pub main : List Bytes → lib.World → Start lib
    unfolding loaded
    main args w = loaded (load_from_file yaml (config_path args) new_config) w

  unfoldable pub signal_handler : Process lib → Process lib
  signal_handler p =
      if p.g_io_context && p.g_work_guard
      then record p {
        server = if p.g_server then shutdown p.server else p.server;
        work_is_guarded = false;
        io_is_stopped = true;
      }
      else p

  -- A signal arrives; a worker thread runs a step of the server; `run` of a worker thread returns, or it
  -- throws what a handler has thrown, and the thread ends.
  pub data Event : Type 0 where
    signalled : Event
    works : Happening → Event
    worker_ends worker_throws : Event

  -- `run` of the io_context does not return before it is stopped: the guard keeps it busy until the
  -- signal handler lets go of it, and stops it.
  unfoldable pub step : Event → Process lib → Outcome (Process lib × Started)
  unfolding signal_handler
  step signalled p = ok (signal_handler p, [])
  step (works h) p =
      if ltb 0 p.workers
      then (do (s, xs) ← Servers.step b h p.server; ok (record p { server = s }, xs))
      else ok (p, [])
  step worker_ends p =
      ok (record p { workers = if p.io_is_stopped then p.workers - 1 else p.workers }, [])
  step worker_throws p = ok (record p { workers = p.workers - 1 }, [])

  unfoldable pub run : List Event → Process lib → Outcome (Process lib × Started)
  unfolding step
  run [] p = ok (p, [])
  run (e ∷ es) p = do (p1, xs) ← step e p; (p2, ys) ← run es p1; ok (p2, xs ++ ys)

  -- The rest of `main`, behind the joins of the worker threads.
  unfoldable pub leave : Process lib → Process lib
  leave p = record p {
    server = shutdown p.server;
    g_io_context = false;
    g_work_guard = false;
    g_server = false;
  }

  -- The status that the program has ended with, if it has.
  pub data Status : Type 0 where
    running : Process lib → Status
    exited : ℕ → Process lib → Status

  unfoldable pub status : Process lib → Status
  unfolding leave
  status p = if p.workers == 0 then exited 0 (leave p) else running p
