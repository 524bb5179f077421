-- ===== src/Main/Origin.antt =====
-- Where the bytes come from that the sessions write, over the whole run of the program of src/main.cpp.
use single_flight_proxy_serv.Prelude.{ℕ, ◌≡◌, List, [], ◌∷◌, Bytes}
use single_flight_proxy_serv.Prelude.Outcome.{Outcome, ok}
use single_flight_proxy_serv.QueryCache.L1.{
  set_l1_max_size as resized, set_l1_enabled as enabled_as,
}
use single_flight_proxy_serv.QueryCache.Redis.{Redis}
use single_flight_proxy_serv.QueryCache.Source.{Sourced}
use single_flight_proxy_serv.QueryCache.{Build, set_l1_max_size, set_l1_enabled}
use single_flight_proxy_serv.Config.{Config}
use single_flight_proxy_serv.Proxy.{Started}
use single_flight_proxy_serv.Proxy.Origin.{Known, IsGiven}
use single_flight_proxy_serv.ProxyServer as Servers
use single_flight_proxy_serv.ProxyServer.{Server, completes, shutdown}
use single_flight_proxy_serv.Main.{Process, Event, works}

module _ (P : Bytes → Type 0) (Q : ℕ → Bytes → Type 0) (b : Build)
    (redis : Redis (λ key v. P v) b.lib) where
  open b use {have_hiredis, lib}
  open redis use {Holds}

  -- What a thread is given by the operation that has completed.
  abbrev pub IsReceived : Event b → Type 0
  IsReceived (works (completes e)) = IsGiven P Q e.handler e.ec e.i e.bytes
  IsReceived _ = Unit {0}

  abbrev pub AllReceived : List (Event b) → Type 0
  AllReceived [] = Unit {0}
  AllReceived (e ∷ es) = IsReceived e × AllReceived es

  -- The call is defined, and what it has started is written as it may be.
  record Serves (r : Outcome (Server lib × Started)) : Type 0 where
    after : Server lib
    started : Started
    returns : r ≡ ok (after, started)
    sourced : Sourced P b redis after.proxy.cache
    known : Known P Q started

  pub record Writes (r : Outcome (Process lib × Started)) : Type 0 where
    pub after : Process lib
    pub started : Started
    pub returns : r ≡ ok (after, started)
    pub sourced : Sourced P b redis after.server.proxy.cache
    pub known : Known P Q started
