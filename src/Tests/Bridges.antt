-- ===== src/Tests/Bridges.antt =====
-- Tests of src/Session/Session.cpp: sessions on the way from start to the bridge, and on the bridge.
use mathlib.Core.List.{List}
use single_flight_proxy_serv.Prelude.{
  ℕ_discrete, ◌≡◌, refl, true, false, [], ◌∷◌, map, Bytes, length,
}
use single_flight_proxy_serv.Session.{
  resolves, started, resolved, success, new_session, client, server, eof,
}
use single_flight_proxy_serv.Session.Message.{is_sql_query, is_ssl_request, request_packet, byte_at}
use single_flight_proxy_serv.Session.Bridge.{client_stream, server_stream}
use single_flight_proxy_serv.Proxy.{handle, run}
use single_flight_proxy_serv.Session.Startup.{start, created}
use single_flight_proxy_serv.Session.Stages.{Stage}
use single_flight_proxy_serv.Proxy.Start.{Completion, drive, start-Staged}
use single_flight_proxy_serv.Session.Dereferences.{attempts, attempts-start}
use single_flight_proxy_serv.Proxy.Opening.{
  succeeds, received, with_packet, tls_session, both_tcp, both_tls, agreed, start-bridges,
}
use single_flight_proxy_serv.Proxy.Bridged.{
  Turn, by_client, by_server, to_server_written, to_client_written, event, started_by,
}
use single_flight_proxy_serv.Proxy.Passing.{Passes, turns-Passes}
use single_flight_proxy_serv.Tests.{result_one}
use single_flight_proxy_serv.Tests.Sessions.{session, proxy, ssl_code}
use single_flight_proxy_serv.Proxy.Pending.{
  Reaches, at_once, then, begins, completes, OneEach, Reaches-OneEach,
}
use single_flight_proxy_serv.Proxy.{Proxy, Started, Event, acts, set_session, act_of, complete}
use single_flight_proxy_serv.Prelude.Outcome.{ok}
use single_flight_proxy_serv.Prelude.{◌++◌}
use single_flight_proxy_serv.Tests.Servers.{memory, build}

abbrev completions : List Completion
completions =
    record { ec = success; bytes = []; creation = created }
    ∷ record { ec = success; bytes = []; creation = created }
    ∷ record { ec = success; bytes = request_packet ssl_code; creation = created }
    ∷ record { ec = success; bytes = []; creation = created }
    ∷ record { ec = success; bytes = b'S' ∷ []; creation = created }
    ∷ record { ec = success; bytes = []; creation = created }
    ∷ record { ec = eof; bytes = []; creation = created }
    ∷ []

start-Staged_example : Stage (drive completions (start session))
start-Staged_example = start-Staged completions session (record { client = tt; server = tt })

attempts-start_example :
    attempts completions (start session) ≡ ok (drive completions (start session))
attempts-start_example = attempts-start completions session (record { client = tt; server = tt })

-- A startup packet of nine bytes, and the request for TLS.
abbrev startup : Bytes
startup = 0 ∷ 0 ∷ 0 ∷ 9 ∷ 0 ∷ 3 ∷ 0 ∷ 0 ∷ 0 ∷ []

abbrev tls_request : Bytes
tls_request = request_packet 80877103

not_tls : is_ssl_request (with_packet startup).client_buffer (length startup) ≡ false
unfolding is_ssl_request
not_tls = refl

is_tls : is_ssl_request (with_packet tls_request).client_buffer (length tls_request) ≡ true
unfolding is_ssl_request byte_at
is_tls = refl

start-bridges_example :
    (drive (succeeds ∷ succeeds ∷ received startup ∷ succeeds ∷ []) (start new_session)
      ≡ (with_packet startup, both_tcp))
    × (drive (succeeds ∷ succeeds ∷ received tls_request ∷ agreed startup) (start new_session)
        ≡ (tls_session tls_request startup, both_tls))
start-bridges_example = start-bridges startup tls_request startup not_tls is_tls

-- A message that is no query, and an answer to it.
abbrev parse_message : Bytes
parse_message = b'P' ∷ 0 ∷ 0 ∷ 0 ∷ 4 ∷ []

abbrev turns : List Turn
turns =
    by_client parse_message
    ∷ by_server result_one
    ∷ to_server_written
    ∷ by_client parse_message
    ∷ to_client_written
    ∷ []

turns-Passes_example :
    Passes build 1 client server proxy
      (map (λ t. (1, started_by client server t)) turns)
      (run build (map (event 1) turns) proxy)
unfolding is_sql_query byte_at client_stream server_stream
turns-Passes_example =
    turns-Passes build 1 client server turns proxy ((λ old. refl), ((λ old. refl), tt))
      (record {
        running = refl;
        client_is_open = refl;
        server_is_open = refl;
        client = refl;
        server = refl;
        leads_none = refl;
      })

-- A session starts, and its database's name is resolved.
abbrev begun : Proxy memory × Started
begun = acts 7 start (set_session 7 new_session proxy)

abbrev named : Event
named = record { i = 7; handler = resolved started; ec = success; bytes = []; creation = created }

abbrev on_the_way : Proxy memory × Started
on_the_way = acts 7 (act_of named) begun.0

named_completes : complete build named begun.0 ≡ ok on_the_way
unfolding complete handle acts start new_session ℕ_discrete
named_completes = refl

two_steps :
    Reaches build
      (record { proxy = proxy; pending = [] })
      (record { proxy = on_the_way.0; pending = [] ++ [] ++ on_the_way.1 })
unfolding acts start new_session ℕ_discrete
two_steps =
    then _ (record { proxy = begun.0; pending = begun.1 }) _
      (then _ _ _ (at_once _) (begins 7 [] proxy tt))
      (completes named [] [] on_the_way.1 (resolves (resolved started)) begun.0 on_the_way.0 refl
        named_completes)

Reaches-OneEach_example :
    OneEach build (record { proxy = on_the_way.0; pending = [] ++ [] ++ on_the_way.1 })
Reaches-OneEach_example = Reaches-OneEach build proxy _ two_steps
