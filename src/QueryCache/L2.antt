-- ===== src/QueryCache/L2.antt =====
-- The second level of src/QueryCache/QueryCache.cpp: a Redis server behind hiredis. The library, the
-- network and the server are parameters; `have_hiredis` says how the program was built.
pub mod Connection
use single_flight_proxy_serv.Prelude.{
  ℕ, Bool, true, false, not, ◌&&◌, ◌||◌, Option, none, some, [], ◌∷◌, ◌++◌, Bytes, if◌then◌else◌,
  is_some,
}
use single_flight_proxy_serv.Prelude.Int.{ℤ, pos, quot, rem, scale}

-- The commands that the code formats, and the replies that it tells apart.
pub data Command : Type 0 where
  get : Bytes → Command
  setex : Bytes → ℕ → Bytes → Command
  flushdb : Command

pub data Reply : Type 0 where
  string : Bytes → Reply
  other : Reply

pub record Timeval : Type 0 where
  pub tv_sec : ℤ
  pub tv_usec : ℤ

-- hiredis: `none` is a null pointer. `World` is all that the library's calls read and change.
pub record Hiredis : Type 1 where
  pub World : Type 0
  pub Context : Type 0
  pub connect_with_timeout : Bytes → ℤ → Timeval → World → World × Option Context
  pub has_err : Context → Bool
  pub command : Context → Command → World → World × Option Reply
  pub free : Context → World → World

pub record L2Cache (lib : Hiredis) : Type 0 where
  pub world : lib.World
  pub redis_ctx : Option lib.Context
  pub redis_host : Bytes
  pub redis_port : ℤ
  pub redis_timeout_ms : ℤ
  pub redis_enabled : Bool

-- "query:"
abbrev pub key_prefix : Bytes
key_prefix = b'q' ∷ b'u' ∷ b'e' ∷ b'r' ∷ b'y' ∷ b':' ∷ []

abbrev pub is_empty : Bytes → Bool
is_empty [] = true
is_empty (x ∷ xs) = false

-- The constructor's member initialisers; its call of `connectRedis` comes after.
abbrev pub initial : (lib : Hiredis) → lib.World → L2Cache lib
initial lib w = record {
  world = w;
  redis_ctx = none;
  redis_host = [];
  redis_port = pos 6379;
  redis_timeout_ms = pos 1000;
  redis_enabled = false;
}

module _ (have_hiredis : Bool) (lib : Hiredis) where
  abbrev pub timeout_of : ℤ → Timeval
  timeout_of ms = record { tv_sec = quot ms 1000; tv_usec = scale (rem ms 1000) 1000 }

  -- What `connectRedis` makes of the new context.
  unfoldable pub opened : Option lib.Context → L2Cache lib → L2Cache lib × Bool
  opened none s = (record s { redis_ctx = none; redis_enabled = false }, false)
  opened (some ctx) s =
      if lib.has_err ctx
      then (
        record s { world = lib.free ctx s.world; redis_ctx = none; redis_enabled = false },
        false,
      )
      else (record s { redis_ctx = some ctx; redis_enabled = true }, true)

  unfoldable pub connect_redis : L2Cache lib → L2Cache lib × Bool
  unfolding opened
  connect_redis s =
      if not have_hiredis || is_empty s.redis_host
      then (record s { redis_enabled = false }, false)
      else (let (w, ctx) =
            lib.connect_with_timeout s.redis_host s.redis_port (timeout_of s.redis_timeout_ms)
              s.world in
          opened ctx (record s { world = w }))

  unfoldable pub disconnect_redis : L2Cache lib → L2Cache lib
  disconnect_redis s = elim s.redis_ctx [
    | none ↦ record s { redis_enabled = false }
    | some ctx ↦ record s { world = lib.free ctx s.world; redis_ctx = none; redis_enabled = false }
  ]

  unfoldable pub set_redis_config : Bytes → ℤ → ℤ → L2Cache lib → L2Cache lib
  unfolding connect_redis disconnect_redis
  set_redis_config host port timeout_ms s =
      let s1 = record s { redis_host = host; redis_port = port; redis_timeout_ms = timeout_ms } in
      (connect_redis (if is_some s1.redis_ctx then disconnect_redis s1 else s1)).0

  -- The second try, on the new context if there is one.
  unfoldable pub again : Command → Option lib.Context → L2Cache lib → L2Cache lib × Option Reply
  again c none s = (s, none)
  again c (some ctx) s =
      let (w, reply) = lib.command ctx c s.world in (record s { world = w }, reply)

  -- A command that has no reply is answered by one more connection.
  unfoldable pub retry : Command → Option Reply → L2Cache lib → L2Cache lib × Option Reply
  retry c (some r) s = (s, some r)
  retry c none s =
      let (s', connected) = connect_redis (disconnect_redis s) in
      again c (if connected then s'.redis_ctx else none) s'

  unfoldable pub with_retry : lib.Context → Command → L2Cache lib → L2Cache lib × Option Reply
  with_retry ctx c s =
      let (w, reply) = lib.command ctx c s.world in retry c reply (record s { world = w })

  -- `!redis_ctx_ || !redis_enabled_` turns a caller away.
  abbrev pub usable : L2Cache lib → Option lib.Context
  usable s = if have_hiredis && s.redis_enabled then s.redis_ctx else none

  abbrev pub text_of : Option Reply → Option Bytes
  text_of none = none
  text_of (some (string t)) = some t
  text_of (some other) = none

  -- A command, for a caller that is not turned away.
  unfoldable pub ask : Command → Option lib.Context → L2Cache lib → L2Cache lib × Option Reply
  ask c none s = (s, none)
  ask c (some ctx) s = with_retry ctx c s

  unfoldable pub get_l2 : Bytes → L2Cache lib → L2Cache lib × Option Bytes
  get_l2 query s =
      let (s', reply) = ask (get (key_prefix ++ query)) (usable s) s in (s', text_of reply)

  unfoldable pub put_l2 : Bytes → Bytes → L2Cache lib → L2Cache lib
  put_l2 key result s = (ask (setex (key_prefix ++ key) 3600 result) (usable s) s).0

  unfoldable pub flush_on : Option lib.Context → L2Cache lib → L2Cache lib
  flush_on none s = s
  flush_on (some ctx) s = record s { world = (lib.command ctx flushdb s.world).0 }

  -- The part of `clear` that empties the server.
  unfoldable pub flush : L2Cache lib → L2Cache lib
  flush s = flush_on (usable s) s
