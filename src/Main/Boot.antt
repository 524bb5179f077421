-- ===== src/Main/Boot.antt =====
-- The start of src/main.cpp: when the program runs, and with which cache.
use single_flight_proxy_serv.Prelude.{
  ℕ, ◌<◌, ◌≡◌, refl, sym, ap, subst, ◌∙◌, Bool, true, false, ◌⊎◌, inl, inr, List, [], ◌∷◌, Bytes,
  Bool-cases,
}
use single_flight_proxy_serv.Prelude.Outcome.{ok, undefined, ok-injective}
use single_flight_proxy_serv.QueryCache.{
  QueryCache, Build, new_cache, set_l1_max_size, set_l1_enabled, set_redis_config, put,
  notify_flight_result,
}
use single_flight_proxy_serv.QueryCache.L1.{
  L1Cache, init, put_l1, set_l1_max_size as resized, set_l1_enabled as enabled_as,
}
use single_flight_proxy_serv.QueryCache.L1.Invariant.{Inv}
use single_flight_proxy_serv.QueryCache.L1.History.{init-Inv, settings-Inv}
use single_flight_proxy_serv.QueryCache.L1.Put.{put_l1-undefined}
use single_flight_proxy_serv.QueryCache.Hash.{hash_query}
use single_flight_proxy_serv.QueryCache.Sound.{IsSound}
use single_flight_proxy_serv.QueryCache.History as Calls
use single_flight_proxy_serv.Config.Yaml.{Try, returns, throws, YamlCpp}
use single_flight_proxy_serv.Config.{Config, new_config, load_from_file}
use single_flight_proxy_serv.Config.Load.{load-valid}
use single_flight_proxy_serv.ProxyServer.{new_server}
use single_flight_proxy_serv.ProxyServer.Port.{listen_endpoint}
use single_flight_proxy_serv.Main.{
  Process, Start, exits, serves, config_path, configure, new_process, loaded, main,
}

module _ (b : Build) where
  open b use {lib}

  -- The calls that `configure` makes.
  redis_ops : Bool → Config → List (Calls.Op ℕ)
  redis_ops true c = Calls.configures c.redis_host c.redis_port c.redis_timeout_ms ∷ []
  redis_ops false c = []

  ops : Config → List (Calls.Op ℕ)
  ops c = Calls.resizes c.l1_max_size ∷ Calls.enables c.l1_enabled ∷ redis_ops c.redis_enabled c

  ops-AllSized : (c : Config) → 0 < c.l1_max_size → Calls.AllSized (ops c)
  unfolding ops redis_ops
  ops-AllSized c h = elim (Bool-cases c.redis_enabled) [
    | inl on ↦ rw on (h, (tt, (tt, tt)))
    | inr off ↦ rw off (h, (tt, tt))
  ]

  ops-configure :
      (c : Config) (q : QueryCache lib ℕ) → Calls.run b (ops c) q ≡ ok (configure b c q, [])
  unfolding ops redis_ops configure Calls.run Calls.exec
  ops-configure c q = elim (Bool-cases c.redis_enabled) [
    | inl on ↦ rw on refl
    | inr off ↦ rw off refl
  ]

  configure-IsSound :
      (c : Config) (q : QueryCache lib ℕ)
      → 0 < c.l1_max_size
      → IsSound q
      → IsSound (configure b c q)
  configure-IsSound c q h s =
      let (after, calls, called, sound) = Calls.run-Defined b (ops c) q s (ops-AllSized c h) in
      let same : after ≡ configure b c q =
        ap (λ r. r.0) (ok-injective (sym called ∙ ops-configure c q)) in
      subst IsSound same sound

  -- The first level of the configured cache.
  configure-l1 :
      (c : Config) (q : QueryCache lib ℕ)
      → c.l1_enabled ≡ true
      → (configure b c q).l1 ≡ record q.l1 { l1_max_size = c.l1_max_size; l1_enabled = true }
  unfolding configure set_l1_max_size set_l1_enabled set_redis_config resized enabled_as
  configure-l1 c q on = elim (Bool-cases c.redis_enabled) [
    | inl redis ↦ rw (on, redis) refl
    | inr no_redis ↦ rw (on, no_redis) refl
  ]

  put-undefined :
      (query result : Bytes) (q : QueryCache lib ℕ)
      → put_l1 (hash_query b.md5 query) result q.l1 ≡ undefined
      → notify_flight_result b query result q ≡ undefined
  unfolding notify_flight_result put
  put-undefined query result q e = rw e refl

  module _ (yaml : YamlCpp) (binds : Bytes → ℕ → Bool) (args : List Bytes) (w : lib.World) where
    abbrev load : Try (Config × Bool)
    load = load_from_file yaml (config_path args) new_config

    abbrev can_bind : Config → Bool
    can_bind c = binds c.listen_address (listen_endpoint c.listen_port)

    -- What a start comes to, for a result of loading the settings and of binding the acceptor.
    abbrev pub Boots : Start lib → Type 0
    Boots r =
        ((c : Config) × (load ≡ returns (c, true))
          × (can_bind c ≡ true)
          × (r ≡ serves (new_process b c w)))
        ⊎ (((c : Config) × (load ≡ returns (c, true)) × (can_bind c ≡ false) × (r ≡ exits 1))
            ⊎ ((¬ ((c : Config) × (load ≡ returns (c, true)))) × (r ≡ exits 1)))

    loaded-Boots : (t : Try (Config × Bool)) → load ≡ t → Boots (loaded b yaml binds t w)
    unfolding loaded
    loaded-Boots (throws e) l = inr (inr ((λ k. cc (k.1)), refl))
    loaded-Boots (returns (c, true)) l = elim (Bool-cases (can_bind c)) [
      | inl can ↦ inl (c, l, can, rw can refl)
      | inr cannot ↦ inr (inl (c, l, cannot, rw cannot refl))
    ]
    loaded-Boots (returns (c, false)) l =
        inr (inr ((λ k. cc (k.1)), rw (load-valid yaml _ _ l) refl))

    -- The program runs exactly when its settings can be loaded, a missing file among them, and the
    -- acceptor can be bound; it runs with these settings. Else it ends with status 1: also where
    -- `loadFromFile` has returned false, since the settings are then not valid.
    pub main-Boots : Boots (main b yaml binds args w)
    unfolding main
    main-Boots = loaded-Boots load refl

    serves-injective : {p q : Process lib} → serves p ≡ serves q → p ≡ q
    serves-injective e = cc

    -- The program that runs is as its settings say.
    pub main-serves :
        {p : Process lib} → main b yaml binds args w ≡ serves p → p ≡ new_process b p.config w
    unfolding new_process
    main-serves {p} e = elim main-Boots [
      | inl (c, l, can, r) ↦
          let same : p ≡ new_process b c w = serves-injective (sym e ∙ r) in
          same ∙ ap (λ d. new_process b d w) (sym (ap (λ q. q.config) same))
      | inr (inl (c, l, cannot, r)) ↦ absurd (cc (sym e ∙ r))
      | inr (inr (none_good, r)) ↦ absurd (cc (sym e ∙ r))
    ]

    -- While the size of the first level is not zero, the cache that the program starts with is sound.
    pub main-IsSound :
        {p : Process lib}
        → main b yaml binds args w ≡ serves p
        → 0 < p.config.l1_max_size
        → IsSound p.server.proxy.cache
    unfolding new_process new_server
    main-IsSound {p} e h =
        subst (λ (q : Process lib). IsSound q.server.proxy.cache) (sym (main-serves e))
          (configure-IsSound p.config (new_cache b w) h (Calls.new_cache-IsSound b w))

    -- With a size of zero and the first level enabled, the first result that is reported for any query
    -- is undefined behaviour.
    pub main-undefined :
        {p : Process lib} (query result : Bytes)
        → main b yaml binds args w ≡ serves p
        → p.config.l1_enabled ≡ true
        → p.config.l1_max_size ≡ 0
        → notify_flight_result b query result p.server.proxy.cache ≡ undefined
    unfolding new_process new_server new_cache
    main-undefined {p} query result e on zero_size =
        let q = configure b p.config (new_cache b w) in
        let l1 : L1Cache = record init { l1_max_size = p.config.l1_max_size; l1_enabled = true } in
        let inv : Inv l1 = settings-Inv init p.config.l1_max_size true init-Inv in
        let key = hash_query b.md5 query in
        let stored : put_l1 key result q.l1 ≡ undefined =
          ap (put_l1 key result) (configure-l1 p.config (new_cache b w) on)
          ∙ (put_l1-undefined key result inv).1 (refl, zero_size, refl) in
        subst
          (λ (r : Process lib).
            notify_flight_result b query result r.server.proxy.cache ≡ undefined)
          (sym (main-serves e)) (put-undefined query result q stored)
