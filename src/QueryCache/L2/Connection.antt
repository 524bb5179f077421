-- ===== src/QueryCache/L2/Connection.antt =====
-- The connection of src/QueryCache/QueryCache.cpp to Redis, over any calls on the second level.
use single_flight_proxy_serv.Prelude.{
  ◌≡◌, refl, sym, ap, ◌∙◌, Bool, true, false, not, ◌||◌, Option, none, some, List, [], ◌∷◌, Bytes,
  is_some, if◌then◌else◌, if_true, if_false, arith, Bool-cases, Option-cases, inl, inr,
}
use single_flight_proxy_serv.Prelude.Int.{ℤ}
use single_flight_proxy_serv.QueryCache.L2.{
  Hiredis, L2Cache, Command, Reply, initial, opened, connect_redis, disconnect_redis,
  set_redis_config, with_retry, again, retry, ask, flush_on, get_l2, put_l2, flush, is_empty,
  timeout_of,
}

data Op : Type 0 where
  gets : Bytes → Op
  puts : Bytes → Bytes → Op
  flushes disconnects : Op
  configures : Bytes → ℤ → ℤ → Op

module _ (have_hiredis : Bool) (lib : Hiredis) where
  unfoldable exec : Op → L2Cache lib → L2Cache lib
  exec (gets key) s = (get_l2 have_hiredis lib key s).0
  exec (puts key value) s = put_l2 have_hiredis lib key value s
  exec flushes s = flush have_hiredis lib s
  exec disconnects s = disconnect_redis have_hiredis lib s
  exec (configures host port ms) s = set_redis_config have_hiredis lib host port ms s

  unfoldable run : List Op → L2Cache lib → L2Cache lib
  run [] s = s
  run (op ∷ ops) s = run ops (exec op s)

  -- The level is enabled exactly when there is a context, and then the host is known.
  record Connected (s : L2Cache lib) : Type 0 where
    context : s.redis_enabled ≡ is_some s.redis_ctx
    host : s.redis_enabled ≡ true → is_empty s.redis_host ≡ false

  -- No context, and so not enabled.
  record Down (s : L2Cache lib) : Type 0 where
    context : s.redis_ctx ≡ none
    enabled : s.redis_enabled ≡ false

  Down-Connected : (s : L2Cache lib) → Down s → Connected s
  Down-Connected s d = record {
    context = d.enabled ∙ sym (ap is_some d.context);
    host = λ h. cc (d.enabled);
  }

  disconnect_redis-Down : (s : L2Cache lib) → Down (disconnect_redis have_hiredis lib s)
  unfolding disconnect_redis
  disconnect_redis-Down s = elim (Option-cases s.redis_ctx) [
    | inl e ↦ rw (e, disconnect_redis) (record { context = e; enabled = refl })
    | inr (ctx, e) ↦ rw (e, disconnect_redis) (record { context = refl; enabled = refl })
  ]

  opened-Connected :
      (o : Option lib.Context) (s : L2Cache lib)
      → is_empty s.redis_host ≡ false
      → Connected (opened have_hiredis lib o s).0
  unfolding opened
  opened-Connected none s h = Down-Connected _ (record { context = refl; enabled = refl })
  opened-Connected (some ctx) s h = elim (Bool-cases (lib.has_err ctx)) [
    | inl e ↦ rw e (Down-Connected _ (record { context = refl; enabled = refl }))
    | inr e ↦ rw e (record { context = refl; host = λ g. h })
  ]

  connect_redis-Connected :
      (s : L2Cache lib) → s.redis_ctx ≡ none → Connected (connect_redis have_hiredis lib s).0
  unfolding connect_redis
  connect_redis-Connected s e = elim (Bool-cases (not have_hiredis || is_empty s.redis_host)) [
    | inl h ↦ rw h (
        Down-Connected (record s { redis_enabled = false })
          (record { context = e; enabled = refl }))
    | inr h ↦ rw h (
        opened-Connected
          (lib.connect_with_timeout s.redis_host s.redis_port
            (timeout_of have_hiredis lib s.redis_timeout_ms) s.world).1
          (record s {
            world =
                (lib.connect_with_timeout s.redis_host s.redis_port
                  (timeout_of have_hiredis lib s.redis_timeout_ms) s.world).0;
          })
          (ground arith))
  ]

  again-Connected :
      (c : Command) (o : Option lib.Context) (s : L2Cache lib)
      → Connected s
      → Connected (again have_hiredis lib c o s).0
  unfolding again
  again-Connected c none s v = v
  again-Connected c (some ctx) s v = record { context = v.context; host = v.host }

  retry-Connected :
      (c : Command) (o : Option Reply) (s : L2Cache lib)
      → Connected s
      → Connected (retry have_hiredis lib c o s).0
  unfolding retry
  retry-Connected c (some r) s v = v
  retry-Connected c none s v = again-Connected c _ _ (
      connect_redis-Connected (disconnect_redis have_hiredis lib s)
        (disconnect_redis-Down s).context)

  with_retry-Connected :
      (ctx : lib.Context) (c : Command) (s : L2Cache lib)
      → Connected s
      → Connected (with_retry have_hiredis lib ctx c s).0
  unfolding with_retry
  with_retry-Connected ctx c s v =
      retry-Connected c _ _ (record { context = v.context; host = v.host })

  ask-Connected :
      (c : Command) (o : Option lib.Context) (s : L2Cache lib)
      → Connected s
      → Connected (ask have_hiredis lib c o s).0
  unfolding ask
  ask-Connected c none s v = v
  ask-Connected c (some ctx) s v = with_retry-Connected ctx c s v

  flush_on-Connected :
      (o : Option lib.Context) (s : L2Cache lib)
      → Connected s
      → Connected (flush_on have_hiredis lib o s)
  unfolding flush_on
  flush_on-Connected none s v = v
  flush_on-Connected (some ctx) s v = record { context = v.context; host = v.host }

  -- A new host is connected to without a context.
  dropped :
      (s : L2Cache lib)
      → (if is_some s.redis_ctx then disconnect_redis have_hiredis lib s else s).redis_ctx ≡ none
  dropped s = elim (Option-cases s.redis_ctx) [
    | inl e ↦ ap (λ t. t.redis_ctx) (if_false (is_some s.redis_ctx) _ s (ap is_some e)) ∙ e
    | inr (ctx, e) ↦
        ap (λ t. t.redis_ctx) (if_true (is_some s.redis_ctx) _ s (ap is_some e))
        ∙ (disconnect_redis-Down s).context
  ]

  exec-Connected : (op : Op) (s : L2Cache lib) → Connected s → Connected (exec op s)
  unfolding exec get_l2 put_l2 flush set_redis_config
  exec-Connected (gets key) s v = ask-Connected _ _ s v
  exec-Connected (puts key value) s v = ask-Connected _ _ s v
  exec-Connected flushes s v = flush_on-Connected _ s v
  exec-Connected disconnects s v = Down-Connected _ (disconnect_redis-Down s)
  exec-Connected (configures host port ms) s v =
      connect_redis-Connected _
        (dropped (record s { redis_host = host; redis_port = port; redis_timeout_ms = ms }))

  -- Over any calls, failed commands and reconnections among them: if the second level counts as
  -- enabled exactly when it holds a context, and only with a host, then so it does after them.
  run-Connected : (ops : List Op) (s : L2Cache lib) → Connected s → Connected (run ops s)
  unfolding run
  run-Connected [] s v = v
  run-Connected (op ∷ ops) s v = run-Connected ops (exec op s) (exec-Connected op s v)

  initial-Connected : (w : lib.World) → Connected (initial lib w)
  initial-Connected w = record { context = refl; host = λ h. cc }
