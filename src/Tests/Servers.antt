-- ===== src/Tests/Servers.antt =====
-- The libraries that src/QueryCache/QueryCache.cpp calls, for the tests: a Redis server in memory, and a
-- digest.
use mathlib.Core.List.{lookup}
use single_flight_proxy_serv.Prelude.{
  ℕ, ◌%◌, ◌≡◌, refl, true, false, Option, none, some, List, [], ◌∷◌, ◌++◌, Bytes, Bytes-discrete,
  length,
}
use single_flight_proxy_serv.Prelude.Dict.{insert}
use single_flight_proxy_serv.QueryCache.L2.{
  Hiredis, Command, get, setex, flushdb, Reply, string, other, L2Cache,
}
use single_flight_proxy_serv.QueryCache.L2.{initial, key_prefix}
use single_flight_proxy_serv.QueryCache.RoundTrip.{Stores}
use single_flight_proxy_serv.Prelude.Dict.{lookup-insert}
use single_flight_proxy_serv.Prelude.{if_pos, ◌∙◌, inr, ap}
use single_flight_proxy_serv.QueryCache.{Build}
use single_flight_proxy_serv.Tests.{key_a}
use single_flight_proxy_serv.QueryCache.Redis.{Redis}
use single_flight_proxy_serv.QueryCache.Absent.{Other, Absent}
use single_flight_proxy_serv.Prelude.{◌≢◌, sym, if_neg}

-- A server that keeps what it is given; a context is a number.
abbrev World : Type 0
World = List (Bytes × Bytes)

abbrev pub reply_of : Option Bytes → Reply
reply_of none = other
reply_of (some value) = string value

abbrev command : ℕ → Command → World → World × Option Reply
command ctx (get key) w = (w, some (reply_of (lookup Bytes-discrete key w)))
command ctx (setex key seconds value) w = (insert Bytes-discrete key value w, some other)
command ctx flushdb w = ([], some other)

abbrev pub memory : Hiredis
memory = record {
  World = World;
  Context = ℕ;
  connect_with_timeout = λ host port timeout w. (w, some 1);
  has_err = λ ctx. false;
  command = command;
  free = λ ctx w. w;
}

-- Sixteen bytes that depend on the query's length.
abbrev pub digest : Bytes → Bytes
digest query = length query % 256 ∷ 0 ∷ 0 ∷ 0 ∷ 0 ∷ 0 ∷ 0 ∷ 0 ∷ 0 ∷ 0 ∷ 0 ∷ 0 ∷ 0 ∷ 0 ∷ 0 ∷ 0 ∷ []

abbrev pub build : Build
build = record { have_hiredis = true; lib = memory; md5 = digest }

pub memory-Stores : Stores memory
memory-Stores = record {
  replies = λ ctx key value seconds w. (other, refl);
  found = λ ctx key value seconds w.
      ap (λ o. some (reply_of o))
        (lookup-insert Bytes-discrete key key value w
          ∙ if_pos (Bytes-discrete key key) refl (some value) (lookup Bytes-discrete key w));
}

-- The server has no value for the key.
abbrev Lacking : Bytes → World → Type 0
Lacking key w = lookup Bytes-discrete (key_prefix ++ key) w ≡ none

Lacking-Other :
    (key stored v : Bytes) (w : World)
    → Lacking key w
    → some (reply_of (lookup Bytes-discrete stored w)) ≡ some (string v)
    → stored ≢ key_prefix ++ key
Lacking-Other key stored v w lacking e same =
    let none_there : lookup Bytes-discrete stored w ≡ none =
      ap (λ k. lookup Bytes-discrete k w) same ∙ lacking in
    absurd (cc (ap (λ o. some (reply_of o)) (sym none_there) ∙ e))

lacking : (key : Bytes) → Redis (Other key) memory
lacking key = record {
  Holds = Lacking key;
  connects = λ host port t w h. h;
  releases = λ ctx w h. h;
  gets = λ ctx k w h. h;
  replies = λ ctx k v w h e. Lacking-Other key k v w h e;
  stores = λ ctx k v seconds w other h.
      lookup-insert Bytes-discrete k (key_prefix ++ key) v w
      ∙ if_neg (Bytes-discrete k (key_prefix ++ key)) other (some v)
          (lookup Bytes-discrete (key_prefix ++ key) w)
      ∙ h;
}

-- A second level that is connected to an empty server.
abbrev pub connected : L2Cache memory
connected = record (initial memory []) {
  redis_ctx = some 1;
  redis_host = key_a;
  redis_enabled = true;
}

pub connected-Absent : (key : Bytes) → Absent memory key connected
unfolding lookup lacking
connected-Absent key = record { redis = lacking key; absent = inr refl }
