-- ===== src/Tests/Queries.antt =====
-- Tests of src/Session/Session.cpp with src/QueryCache/QueryCache.cpp: two queries, and what is
-- written to whom.
use mathlib.Core.List.{lookup}
use single_flight_proxy_serv.Prelude.{ℕ, ◌≡◌, ◌≢◌, refl, ap, some, [], ◌∷◌, map, Bytes, arith}
use single_flight_proxy_serv.Prelude.Outcome.{ok}
use single_flight_proxy_serv.SingleFlight as Flights
use single_flight_proxy_serv.SingleFlight.Refinement.{view as waiting}
use single_flight_proxy_serv.QueryCache.L1.Spec.{spec_get}
use single_flight_proxy_serv.QueryCache.L1.History.{spec_exec}
use single_flight_proxy_serv.QueryCache.L2.{connect_redis}
use single_flight_proxy_serv.QueryCache.Hash.{hash_query, hex_string, hex_digit}
use single_flight_proxy_serv.QueryCache.Mixed.{Apart}
use single_flight_proxy_serv.QueryCache.{new_cache}
use single_flight_proxy_serv.Session.{client, server, writes, response_sent}
use single_flight_proxy_serv.Session.Bridge.{client_stream, server_stream}
use single_flight_proxy_serv.Session.Message.{HasNoZero, query_message, query_message-extract}
use single_flight_proxy_serv.Proxy.{Proxy, complete, run}
use single_flight_proxy_serv.Proxy.Relay.{IsQuery}
use single_flight_proxy_serv.Proxy.Turns.{client_sends}
use single_flight_proxy_serv.Proxy.Pipelined.{Pipelining, pipeline, pipelined, query-Pipelined}
use single_flight_proxy_serv.Tests.{key_a, result_two}
use single_flight_proxy_serv.Tests.Servers.{connected-Absent, memory, build}
use single_flight_proxy_serv.Proxy.Bridged.{Turn, by_server, to_client_written, event, started_by}
use single_flight_proxy_serv.Proxy.Fetch.{requests, operations}
use single_flight_proxy_serv.Proxy.Cut.{response-Cut}
use single_flight_proxy_serv.Prelude.{List, ◌++◌}
use single_flight_proxy_serv.Tests.{result_one}
use single_flight_proxy_serv.Tests.Sessions.{pair}
use single_flight_proxy_serv.Tests.Sessions.{empty-IsSound, message, empty, proxy, message-IsQuery}

-- A second query, of two bytes.
abbrev text : Bytes
text = b'b' ∷ b'b' ∷ []

abbrev message2 : Bytes
message2 = query_message (0 ∷ 0 ∷ 0 ∷ 7 ∷ []) text

text-HasNoZero : HasNoZero text
text-HasNoZero = (λ e. omega arith, (λ e. omega arith, tt))

message2-IsQuery : IsQuery message2 text
message2-IsQuery old = query_message-extract 0 0 0 7 text old text-HasNoZero

abbrev second : Bytes → ℕ
second (c ∷ d ∷ cs) = d
second (c ∷ []) = 0
second [] = 0

keys_differ : hash_query build.md5 key_a ≢ hash_query build.md5 text
unfolding hash_query hex_string hex_digit
keys_differ e = omega (arith, ap second e)

both_new : Apart build key_a text empty
unfolding new_cache connect_redis Flights.init lookup hash_query spec_exec spec_get
both_new = record {
  sound = empty-IsSound;
  absent1 = connected-Absent (hash_query build.md5 key_a);
  absent2 = connected-Absent (hash_query build.md5 text);
  enabled = refl;
  missing1 = refl;
  missing2 = refl;
  free1 = refl;
  free2 = refl;
  different = keys_differ;
}

overtaking : Pipelining build 1 message key_a message2 text server (λ j. client) proxy
unfolding client_stream server_stream
overtaking = record {
  apart = both_new;
  message1 = message-IsQuery;
  message2 = message2-IsQuery;
  not_empty = refl;
  server_reads = refl;
  server = refl;
  client_reads = refl;
  ready = (refl, refl, tt);
}

-- Session 2 asks for the second query, and sessions 3 and 4 for the first.
query-Pipelined_example :
    (after served later : Proxy memory) × (run build
        (pipeline build 1 message message2 result_two)
        proxy
      ≡ ok (after, pipelined build 1 message message2 result_two server (λ j. client)))
    × (complete build (client_sends message2 2) after
        ≡ ok (served, (2, writes client result_two response_sent) ∷ []))
    × (waiting after.cache.singleflight (hash_query build.md5 key_a) ≡ some [])
    × (run build (map (client_sends message) (3 ∷ 4 ∷ [])) after ≡ ok (later, []))
unfolding client_stream
query-Pipelined_example =
    query-Pipelined build 1 2 (3 ∷ 4 ∷ []) message key_a message2 text result_two server
      (λ j. client) proxy overtaking (refl, refl, tt) (refl, refl, (refl, refl, tt))

-- The answer to session 1 comes in two pieces; session 2 waits for it, and session 4 asks after it.
abbrev pieces : List Turn
pieces = to_client_written ∷ by_server result_two ∷ to_client_written ∷ []

response-Cut_example :
    (after : Proxy memory) × (run build
        (requests build 1 (2 ∷ []) message result_one
          ++ map (event 1) pieces
          ++ client_sends message 4 ∷ [])
        proxy
      ≡ ok (
        after,
        operations build 1 (2 ∷ []) message result_one server (λ j. client)
            ++ map (λ t. (1, started_by client server t)) pieces
            ++ (4, writes client result_one response_sent) ∷ [],
      ))
unfolding new_cache client_stream
response-Cut_example =
    response-Cut build 1 4 (2 ∷ []) message key_a result_one pieces server (λ j. client) proxy pair
      refl tt (refl, refl, tt)
