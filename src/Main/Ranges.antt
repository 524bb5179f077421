-- ===== src/Main/Ranges.antt =====
-- The numbers of the settings of src/Config/Config.hpp, as src/main.cpp passes them on.
use single_flight_proxy_serv.Prelude.{
  ◌≡◌, refl, sym, ap, subst, ◌∙◌, ℕ, ◌<◌, ◌^◌, Bool, true, List, Bytes, inl, inr,
}
use single_flight_proxy_serv.QueryCache.{Build}
use single_flight_proxy_serv.Config.Yaml.{YamlCpp}
use single_flight_proxy_serv.Config.{Config, new_config}
use single_flight_proxy_serv.Config.Ranges.{InRange, Converts, new_config-InRange, load-InRange}
use single_flight_proxy_serv.ProxyServer.{new_server}
use single_flight_proxy_serv.ProxyServer.Port.{
  short_of, unsigned_short_of, listen_endpoint, endpoint_lem,
}
use single_flight_proxy_serv.Main.{Process, serves, config_path, main, new_process}
use single_flight_proxy_serv.Main.Boot.{main-Boots}

port_back : (port : ℕ) → port < 2 ^ 16 → unsigned_short_of (short_of port) ≡ port
unfolding listen_endpoint
port_back port h = endpoint_lem port h

module _ (b : Build) (yaml : YamlCpp) (binds : Bytes → ℕ → Bool) where
  open b use {lib}

  -- The settings are values of their types, the acceptor is bound to the port that they say, and the
  -- server keeps the port of the database, as the same sixteen bits, and starts all the threads.
  abbrev pub PassesOn : Process lib → Type 0
  PassesOn p =
      InRange p.config
      × (binds p.config.listen_address p.config.listen_port ≡ true)
      × (unsigned_short_of p.server.db_port ≡ p.config.db_port)
      × (p.workers ≡ p.config.num_threads)

  new_process-PassesOn :
      (c : Config) (w : lib.World)
      → InRange c
      → binds c.listen_address (listen_endpoint c.listen_port) ≡ true
      → PassesOn (new_process b c w)
  unfolding new_process new_server
  new_process-PassesOn c w h bound = (
    h,
    ap (binds c.listen_address) (sym (endpoint_lem c.listen_port h.0)) ∙ bound,
    port_back c.db_port h.2,
    refl,
  )

  -- Where yaml-cpp converts a node to values of the type that it is asked for, or throws, the program
  -- that runs has settings that are values of their members' types; its acceptor has been bound to
  -- the port that they say, its server keeps the database's port, as the same sixteen bits, and it
  -- has as many worker threads as they say.
  pub main-PassesOn :
      (args : List Bytes) (w : lib.World) {p : Process lib}
      → Converts yaml
      → main b yaml binds args w ≡ serves p
      → PassesOn p
  main-PassesOn args w {p} converts e = elim (main-Boots b yaml binds args w) [
    | inl (c, loaded, bound, r) ↦
        let same : new_process b c w ≡ p = cc (sym r ∙ e) in
        let fits =
          load-InRange yaml converts (config_path args) new_config new_config-InRange loaded in
        subst PassesOn same (new_process-PassesOn c w fits bound)
    | inr (inl (c, loaded, unbound, r)) ↦ absurd (cc (sym e ∙ r))
    | inr (inr (refused, r)) ↦ absurd (cc (sym e ∙ r))
  ]
