-- ===== src/Session/Origin/Startup.antt =====
-- The handlers of src/Session/Session.cpp before the bridge, and those of its writes: what they start
-- is not a message or a response, or has been read.
use single_flight_proxy_serv.Prelude.{Bytes}
use single_flight_proxy_serv.Session.{
  Session, Effect, writes, forwarded_to_server, forwarded_to_client, response_sent,
  ssl_startup_sent, ssl_request_sent, refusal_sent, acceptance_sent, server_ssl,
}
use single_flight_proxy_serv.Session.Startup.{start}
use single_flight_proxy_serv.Session.Bridge.{bridge_client_to_server, bridge_server_to_client}
use single_flight_proxy_serv.Session.Handlers.{Early, IsPacket, Laws, start_holds, act_of_holds}
use single_flight_proxy_serv.Session.Origin.{
  Comes, Faithful, nothing, one, close-Faithful, both-Faithful, bridge_client_to_server-Faithful,
  bridge_server_to_client-Faithful,
}
use single_flight_proxy_serv.Proxy.{Event, act_of}

module _ (P Q : Bytes → Type 0) where
  early : (e : Effect) → Early e → Comes P Q e
  early (writes stream bytes forwarded_to_server) h = absurd h
  early (writes stream bytes forwarded_to_client) h = absurd h
  early (writes stream bytes response_sent) h = absurd h
  early (writes stream bytes ssl_startup_sent) h = absurd h
  early (writes stream bytes ssl_request_sent) h = h
  early (writes stream bytes refusal_sent) h = h
  early (writes stream bytes acceptance_sent) h = h
  early _ h = tt

  Faithful-Laws : Laws Q (Faithful P Q)
  Faithful-Laws = record {
    nothing = nothing P Q;
    one = λ s e h. one P Q s e (early e h);
    packet = λ bytes s h. one P Q s (writes server_ssl bytes ssl_startup_sent) h;
    closes = close-Faithful P Q;
    to_server = bridge_client_to_server-Faithful P Q;
    to_client = bridge_server_to_client-Faithful P Q;
    starts = λ s.
        both-Faithful P Q bridge_client_to_server bridge_server_to_client s
          (bridge_client_to_server-Faithful P Q s) (bridge_server_to_client-Faithful P Q);
    ssl_starts = λ s.
        both-Faithful P Q bridge_server_to_client bridge_client_to_server s
          (bridge_server_to_client-Faithful P Q s) (bridge_client_to_server-Faithful P Q);
  }

  pub start-Faithful : (s : Session) → Faithful P Q (start s)
  start-Faithful = start_holds Faithful-Laws

  -- The handler of an event that does not ask the cache.
  pub act_of-Faithful :
      (e : Event) (s : Session) → IsPacket Q e.handler e.ec e.bytes → Faithful P Q (act_of e s)
  act_of-Faithful = act_of_holds Faithful-Laws
