-- ===== src/QueryCache/Redis.antt =====
-- What the second level of src/QueryCache/QueryCache.cpp gets from Redis: such keys with such values as
-- have been stored there.
use single_flight_proxy_serv.Prelude.{
  ℕ, ◌≡◌, refl, subst, Bool, true, false, Option, none, some, Bytes, Option-cases, inl, inr,
  if◌then◌else◌, is_some, ◌++◌,
}
use single_flight_proxy_serv.Prelude.Int.{ℤ}
use single_flight_proxy_serv.QueryCache.L2.{
  Hiredis, L2Cache, Timeval, Command, get, setex, flushdb, Reply, string, other, opened,
  connect_redis, disconnect_redis, set_redis_config, again, retry, with_retry, ask, usable, get_l2,
  put_l2, text_of, key_prefix,
}

-- A server that holds only keys with values with `P`, as far as this program's calls are concerned,
-- gives back only such values, and goes on holding only such while it is sent no others.
pub record Redis (P : Bytes → Bytes → Type 0) (lib : Hiredis) : Type 1 where
  pub Holds : lib.World → Type 0
  pub connects :
      (host : Bytes) (port : ℤ) (t : Timeval) (w : lib.World)
      → Holds w
      → Holds (lib.connect_with_timeout host port t w).0
  pub releases : (ctx : lib.Context) (w : lib.World) → Holds w → Holds (lib.free ctx w)
  pub gets :
      (ctx : lib.Context) (key : Bytes) (w : lib.World)
      → Holds w
      → Holds (lib.command ctx (get key) w).0
  pub replies :
      (ctx : lib.Context) (key v : Bytes) (w : lib.World)
      → Holds w
      → (lib.command ctx (get key) w).1 ≡ some (string v)
      → P key v
  pub stores :
      (ctx : lib.Context) (key v : Bytes) (seconds : ℕ) (w : lib.World)
      → P key v
      → Holds w
      → Holds (lib.command ctx (setex key seconds v) w).0

module _ (P : Bytes → Bytes → Type 0) (have_hiredis : Bool) (lib : Hiredis)
    (redis : Redis P lib) where
  open redis use {Holds}

  if-Holds :
      (b : Bool) (x y : L2Cache lib × Bool)
      → Holds x.0.world
      → Holds y.0.world
      → Holds (if b then x else y).0.world
  if-Holds true x y h k = h
  if-Holds false x y h k = k

  opened-Holds :
      (o : Option lib.Context) (s : L2Cache lib)
      → Holds s.world
      → Holds (opened have_hiredis lib o s).0.world
  unfolding opened
  opened-Holds none s h = h
  opened-Holds (some ctx) s h =
      if-Holds (lib.has_err ctx)
        (record s { world = lib.free ctx s.world; redis_ctx = none; redis_enabled = false }, false)
        (record s { redis_ctx = some ctx; redis_enabled = true }, true)
        (redis.releases ctx s.world h) h

  pub connect_redis-Holds :
      (s : L2Cache lib) → Holds s.world → Holds (connect_redis have_hiredis lib s).0.world
  unfolding connect_redis
  connect_redis-Holds s h = if-Holds _ _ _ h (opened-Holds _ _ (redis.connects _ _ _ s.world h))

  disconnect_redis-Holds :
      (s : L2Cache lib) → Holds s.world → Holds (disconnect_redis have_hiredis lib s).world
  unfolding disconnect_redis
  disconnect_redis-Holds s h = elim (Option-cases s.redis_ctx) [
    | inl e ↦ rw (e, disconnect_redis) h
    | inr (ctx, e) ↦ rw (e, disconnect_redis) (redis.releases ctx s.world h)
  ]

  pub choice-Holds :
      (b : Bool) (s t : L2Cache lib)
      → Holds s.world
      → Holds t.world
      → Holds (if b then s else t).world
  choice-Holds true s t h k = h
  choice-Holds false s t h k = k

  pub set_redis_config-Holds :
      (host : Bytes) (port timeout_ms : ℤ) (s : L2Cache lib)
      → Holds s.world
      → Holds (set_redis_config have_hiredis lib host port timeout_ms s).world
  unfolding set_redis_config
  set_redis_config-Holds host port timeout_ms s h =
      let s1 = record s { redis_host = host; redis_port = port; redis_timeout_ms = timeout_ms } in
      connect_redis-Holds _ (
        choice-Holds (is_some s1.redis_ctx) (disconnect_redis have_hiredis lib s1) s1
          (disconnect_redis-Holds s1 h) h)

  -- The commands that store nothing but keys with values with `P`.
  abbrev Allowed : Command → Type 0
  Allowed (get key) = Unit {0}
  Allowed (setex key seconds v) = P key v
  Allowed flushdb = ⊥

  abbrev IsText : Bytes → Option Reply → Type 0
  IsText key none = Unit {0}
  IsText key (some (string v)) = P key v
  IsText key (some other) = Unit {0}

  abbrev Replied : Command → Option Reply → Type 0
  Replied (get key) o = IsText key o
  Replied (setex key seconds v) o = Unit {0}
  Replied flushdb o = Unit {0}

  -- The server is as it should be after a command, and so is the reply.
  record Asked (c : Command) (r : L2Cache lib × Option Reply) : Type 0 where
    holds : Holds r.0.world
    replied : Replied c r.1

  none-Replied : (c : Command) → Replied c none
  none-Replied (get key) = tt
  none-Replied (setex key seconds v) = tt
  none-Replied flushdb = tt

  texts :
      (ctx : lib.Context) (key : Bytes) (w : lib.World) (o : Option Reply)
      → Holds w
      → (lib.command ctx (get key) w).1 ≡ o
      → IsText key o
  texts ctx key w none h e = tt
  texts ctx key w (some (string v)) h e = redis.replies ctx key v w h e
  texts ctx key w (some other) h e = tt

  command-Replied :
      (ctx : lib.Context) (c : Command) (w : lib.World)
      → Allowed c
      → Holds w
      → Replied c (lib.command ctx c w).1
  command-Replied ctx (get key) w a h = texts ctx key w _ h refl
  command-Replied ctx (setex key seconds v) w a h = tt
  command-Replied ctx flushdb w a h = tt

  command-Holds :
      (ctx : lib.Context) (c : Command) (w : lib.World)
      → Allowed c
      → Holds w
      → Holds (lib.command ctx c w).0
  command-Holds ctx (get key) w a h = redis.gets ctx key w h
  command-Holds ctx (setex key seconds v) w a h = redis.stores ctx key v seconds w a h
  command-Holds ctx flushdb w a h = absurd a

  again-Asked :
      (c : Command) (o : Option lib.Context) (s : L2Cache lib)
      → Allowed c
      → Holds s.world
      → Asked c (again have_hiredis lib c o s)
  unfolding again
  again-Asked c none s a h = record { holds = h; replied = none-Replied c }
  again-Asked c (some ctx) s a h = record {
    holds = command-Holds ctx c s.world a h;
    replied = command-Replied ctx c s.world a h;
  }

  retry-Asked :
      (c : Command) (o : Option Reply) (s : L2Cache lib)
      → Allowed c
      → Holds s.world
      → Replied c o
      → Asked c (retry have_hiredis lib c o s)
  unfolding retry
  retry-Asked c (some r) s a h t = record { holds = h; replied = t }
  retry-Asked c none s a h t =
      again-Asked c _ _ a (connect_redis-Holds _ (disconnect_redis-Holds s h))

  ask-Asked :
      (c : Command) (o : Option lib.Context) (s : L2Cache lib)
      → Allowed c
      → Holds s.world
      → Asked c (ask have_hiredis lib c o s)
  unfolding ask with_retry
  ask-Asked c none s a h = record { holds = h; replied = none-Replied c }
  ask-Asked c (some ctx) s a h =
      retry-Asked c _ _ a (command-Holds ctx c s.world a h) (command-Replied ctx c s.world a h)

  text_of-IsText :
      (key v : Bytes) (o : Option Reply)
      → IsText key o
      → text_of have_hiredis lib o ≡ some v
      → P key v
  text_of-IsText key v none h e = absurd (cc e)
  text_of-IsText key v (some other) h e = absurd (cc e)
  text_of-IsText key v (some (string t)) h e = let same : t ≡ v = cc e in subst (P key) same h

  pub get_l2_value :
      (k v : Bytes) (s : L2Cache lib)
      → Holds s.world
      → (get_l2 have_hiredis lib k s).1 ≡ some v
      → P (key_prefix ++ k) v
  unfolding get_l2
  get_l2_value k v s h e =
      text_of-IsText (key_prefix ++ k) v _
        (ask-Asked (get (key_prefix ++ k)) (usable have_hiredis lib s) s tt h).replied e

  pub get_l2-Holds :
      (k : Bytes) (s : L2Cache lib) → Holds s.world → Holds (get_l2 have_hiredis lib k s).0.world
  unfolding get_l2
  get_l2-Holds k s h = (ask-Asked (get (key_prefix ++ k)) (usable have_hiredis lib s) s tt h).holds

  pub put_l2-Holds :
      (k v : Bytes) (s : L2Cache lib)
      → P (key_prefix ++ k) v
      → Holds s.world
      → Holds (put_l2 have_hiredis lib k v s).world
  unfolding put_l2
  put_l2-Holds k v s p h =
      (ask-Asked (setex (key_prefix ++ k) 3600 v) (usable have_hiredis lib s) s p h).holds
