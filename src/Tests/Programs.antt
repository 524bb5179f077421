-- ===== src/Tests/Programs.antt =====
-- Tests of src/ProxyServer/ProxyServer.cpp, src/main.cpp and src/Session/SharedSSLContext.cpp:
-- programs that start from the documents of Tests/Settings.
use single_flight_proxy_serv.Prelude.{
  ℕ, ◌+◌, ◌≤◌, ◌<◌, ◌≡◌, refl, Bool, true, false, List, [], ◌∷◌, ◌++◌, Bytes, Bytes-discrete, codes,
  arith,
}
use single_flight_proxy_serv.Prelude.Int.{pos}
use single_flight_proxy_serv.Prelude.Outcome.{ok}
use single_flight_proxy_serv.Session.{success}
use single_flight_proxy_serv.Config.{load_from_file}
use single_flight_proxy_serv.Config.Paths.{settled}
use single_flight_proxy_serv.ProxyServer as Servers
use single_flight_proxy_serv.ProxyServer.{
  Server, accepts, continues, waiting, starts_session, new_server, shutdown, start_session,
}
use single_flight_proxy_serv.ProxyServer.Loop.{starting}
use single_flight_proxy_serv.ProxyServer.Accepts.{shutdown-starts}
use single_flight_proxy_serv.Main.{
  Process, signal_handler, Event, serves, exits, config_path, main, new_process, run, signalled,
  works, worker_ends, status, exited, leave,
}
use single_flight_proxy_serv.Main.Logging.{warn, log_level}
use single_flight_proxy_serv.Main.Boot.{Boots, main-Boots}
use single_flight_proxy_serv.Main.Life.{Lives, main-Lives}
use single_flight_proxy_serv.Main.Steps.{ends}
use single_flight_proxy_serv.Main.Ending.{signal-ends}
use single_flight_proxy_serv.SharedSslContext.{Results, Object, rsa, new_shared_context}
use single_flight_proxy_serv.SharedSslContext.Memory.{
  unborn, freed, after_calls, return_of, setup-frees,
}
use single_flight_proxy_serv.Proxy.Tidy.{AllTidy}
use single_flight_proxy_serv.Main.Sockets.{main-AllTidy}
use single_flight_proxy_serv.Main.Ranges.{PassesOn, main-PassesOn}
use single_flight_proxy_serv.Tests.Settings.{trees, after_load, trees-Converts}
use single_flight_proxy_serv.Tests.Servers.{build}

level_read : log_level (codes "Warn") ≡ warn
unfolding log_level
level_read = refl

-- Every address can be bound.
abbrev pub binds : Bytes → ℕ → Bool
binds address port = true

abbrev pub args : Bytes → List Bytes
args path = path ∷ []

abbrev pub process : Process build.lib
process = new_process build after_load []

pub runs : main build trees binds (args (codes "a.yaml")) [] ≡ serves process
unfolding main load_from_file settled Bytes-discrete config_path
runs = refl

scalar_exits : main build trees binds (args (codes "scalar.yaml")) [] ≡ exits 1
unfolding main load_from_file Bytes-discrete config_path
scalar_exits = refl

main-Boots_example :
    Boots build trees binds
      (args (codes "a.yaml"))
      []
      (main build trees binds (args (codes "a.yaml")) [])
main-Boots_example = main-Boots build trees binds (args (codes "a.yaml")) []

pub three : 0 < process.config.l1_max_size
unfolding new_process settled
three = omega arith

main-Lives_example : Lives build (run build (works (accepts success) ∷ signalled ∷ []) process)
main-Lives_example =
    main-Lives build trees binds (args (codes "a.yaml")) []
      (works (accepts success) ∷ signalled ∷ []) runs three

-- A server whose accept loop is about to start a session, and one with an accept pending.
abbrev server : Server build.lib
server = record process.server { phase = starts_session }

abbrev idle : Server build.lib
idle = record process.server { phase = waiting }

abbrev with_session : Server build.lib → Server build.lib
with_session s = (start_session s).0

shut_run :
    Servers.run build (continues ∷ []) (shutdown server)
    ≡ ok (with_session (shutdown server), (start_session (shutdown server)).1 ++ [])
unfolding Servers.run shutdown
shut_run = refl

shutdown-starts_example :
    ((with_session (shutdown server)).accepting ≡ false)
    × ((with_session (shutdown server)).sessions ≤ server.sessions + starting starts_session)
shutdown-starts_example = shutdown-starts build (continues ∷ []) server shut_run

abbrev five : List Servers.Happening
five = continues ∷ continues ∷ continues ∷ continues ∷ continues ∷ []

abbrev after_accept : Server build.lib
after_accept = record (with_session idle) { phase = waiting }

accepting : idle.accepting ≡ true
unfolding new_process new_server
accepting = refl

-- Two worker threads and a signal.
abbrev both_end : List (Event build)
both_end = worker_ends ∷ worker_ends ∷ []

abbrev at_end : Process build.lib
at_end = record (signal_handler build process) { workers = 0 }

nothing_run : run build [] process ≡ ok (process, [])
unfolding run
nothing_run = refl

signal_run : run build (signalled ∷ both_end) process ≡ ok (at_end, [])
unfolding run signal_handler new_process settled
signal_run = refl

two_threads : process.workers ≤ ends build both_end
unfolding new_process settled
two_threads = omega arith

signal-ends_example :
    (status build at_end ≡ exited 0 (leave build at_end))
    × (at_end.server.accepting ≡ false)
    × (at_end.server.sessions ≤ process.server.sessions + starting process.server.phase)
signal-ends_example =
    signal-ends build trees binds (args (codes "a.yaml")) [] [] both_end runs nothing_run
      two_threads signal_run

main-PassesOn_example : PassesOn build trees binds process
main-PassesOn_example =
    main-PassesOn build trees binds (args (codes "a.yaml")) [] trees-Converts runs

-- The key does not match.
abbrev allocates_rsa : Object → Bool
allocates_rsa rsa = true
allocates_rsa _ = false

abbrev no_match : Results
no_match = record {
  allocates = allocates_rsa;
  certificate = pos 1;
  private_key = pos 1;
  check = pos 0;
}

setup-frees_example :
    (after_calls no_match.allocates rsa (new_shared_context no_match).0 unborn ≡ freed)
    × ((new_shared_context no_match).1 ≡ return_of no_match)
setup-frees_example = setup-frees no_match rsa

main-AllTidy_example : AllTidy at_end.server.proxy
main-AllTidy_example =
    main-AllTidy build trees binds (args (codes "a.yaml")) [] (signalled ∷ both_end) runs signal_run
