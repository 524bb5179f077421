-- ===== src/Tests/Origins.antt =====
-- A test of the whole program of src/main.cpp, from its start: where the bytes come from.
use mathlib.Core.List.{lookup}
use single_flight_proxy_serv.Prelude.{ℕ, ◌≡◌, some, List, [], ◌∷◌, Bytes, Bytes-discrete, arith}
use single_flight_proxy_serv.Prelude.Dict.{insert}
use single_flight_proxy_serv.QueryCache.L2.{string}
use single_flight_proxy_serv.QueryCache.Values.{AllValues, AllValues-lookup}
use single_flight_proxy_serv.QueryCache.Redis.{Redis}
use single_flight_proxy_serv.Proxy.Turns.{client_sends, server_sends}
use single_flight_proxy_serv.ProxyServer.{completes}
use single_flight_proxy_serv.Main.{Event, works, signalled}
use single_flight_proxy_serv.Tests.{result_one}
use single_flight_proxy_serv.Tests.Servers.{memory, reply_of, build}
use single_flight_proxy_serv.Tests.Sessions.{message}

abbrev IsReply : Bytes → Type 0
IsReply bytes = bytes ≡ result_one

abbrev IsMessage : ℕ → Bytes → Type 0
IsMessage i bytes = bytes ≡ message

insert-AllValues :
    (k v : Bytes) (w : List (Bytes × Bytes))
    → IsReply v
    → AllValues IsReply w
    → AllValues IsReply (insert Bytes-discrete k v w)
unfolding insert
insert-AllValues k v [] h all = (h, tt)
insert-AllValues k v ((j, u) ∷ w) h all = ground (arith, insert-AllValues k v w h all.1)

reply_value :
    (key v : Bytes) (w : List (Bytes × Bytes))
    → AllValues IsReply w
    → some (reply_of (lookup Bytes-discrete key w)) ≡ some (string v)
    → IsReply v
reply_value key v w all e = ground (arith, AllValues-lookup IsReply key v w all)

abbrev stored : Redis (λ key v. IsReply v) memory
stored = record {
  Holds = AllValues IsReply;
  connects = λ host port t w h. h;
  releases = λ ctx w h. h;
  gets = λ ctx key w h. h;
  replies = λ ctx key v w h e. reply_value key v w h e;
  stores = λ ctx key v seconds w h all. insert-AllValues key v w h all;
}

-- Session 0 asks, and has its answer.
abbrev exchange : List (Event build)
exchange =
    works (completes (client_sends message 0))
    ∷ works (completes (server_sends result_one 0))
    ∷ signalled
    ∷ []
