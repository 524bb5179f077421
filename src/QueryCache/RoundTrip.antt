-- ===== src/QueryCache/RoundTrip.antt =====
-- `get` after `put` in src/QueryCache/QueryCache.cpp, over both levels.
use single_flight_proxy_serv.Prelude.{
  ℕ, ◌≡◌, refl, sym, ap, ◌∙◌, Bool, true, false, Option, none, some, ◌++◌, Bytes, if_true, arith,
  Bool-cases, inl, inr, ◌⊎◌,
}
use single_flight_proxy_serv.Prelude.Outcome.{ok, ◌>>=◌}
use single_flight_proxy_serv.QueryCache.L1.History.{gets, puts, spec_exec, view, Lru}
use single_flight_proxy_serv.QueryCache.L2.{
  Hiredis, L2Cache, Command, get as get_command, setex, Reply, string, usable, with_retry, retry,
  ask, get_l2, put_l2, text_of, key_prefix,
}
use single_flight_proxy_serv.QueryCache.Hash.{hash_query}
use single_flight_proxy_serv.QueryCache.Sound.{IsSound, l1_gets, l1_puts, get_below_on, put-Puts}
use single_flight_proxy_serv.QueryCache.Serve.{spec_get-put}
use single_flight_proxy_serv.QueryCache.{QueryCache, Build, count, refill, get_after_l1, get, put}

-- What the code relies on of Redis: SETEX gets a reply, and GET then returns the value.
pub record Stores (lib : Hiredis) : Type 0 where
  pub replies :
      (ctx : lib.Context) (key value : Bytes) (seconds : ℕ) (w : lib.World)
      → (r : Reply) × ((lib.command ctx (setex key seconds value) w).1 ≡ some r)
  pub found :
      (ctx : lib.Context) (key value : Bytes) (seconds : ℕ) (w : lib.World)
      → (lib.command ctx (get_command key) (lib.command ctx (setex key seconds value) w).0).1
        ≡ some (string value)

-- A command that gets a reply at once.
ask_replies :
    (have_hiredis : Bool) (lib : Hiredis) (ctx : lib.Context) (c : Command) (o : Option lib.Context)
    (r : Reply) (s : L2Cache lib)
    → o ≡ some ctx
    → (lib.command ctx c s.world).1 ≡ some r
    → ask have_hiredis lib c o s ≡ (record s { world = (lib.command ctx c s.world).0 }, some r)
unfolding ask with_retry retry
ask_replies have_hiredis lib ctx c o r s e f =
    ap (λ x. ask have_hiredis lib c x s) e
    ∙ ap (λ x. retry have_hiredis lib c x (record s { world = (lib.command ctx c s.world).0 })) f

module _ (have_hiredis : Bool) (lib : Hiredis) (stores : Stores lib) where
  put_l2-world :
      (ctx : lib.Context) (key value : Bytes) (s : L2Cache lib)
      → usable have_hiredis lib s ≡ some ctx
      → put_l2 have_hiredis lib key value s
        ≡ record s { world = (lib.command ctx (setex (key_prefix ++ key) 3600 value) s.world).0 }
  unfolding put_l2
  put_l2-world ctx key value s e =
      let (r, replied) = stores.replies ctx (key_prefix ++ key) value 3600 s.world in
      ap (λ x. x.0) (ask_replies have_hiredis lib ctx _ _ r s e replied)

  get_l2-found :
      (ctx : lib.Context) (key value : Bytes) (s : L2Cache lib)
      → usable have_hiredis lib s ≡ some ctx
      → (lib.command ctx (get_command (key_prefix ++ key)) s.world).1 ≡ some (string value)
      → (get_l2 have_hiredis lib key s).1 ≡ some value
  unfolding get_l2
  get_l2-found ctx key value s e f =
      ap (λ x. text_of have_hiredis lib x.1)
        (ask_replies have_hiredis lib ctx _ _ (string value) s e f)

  -- The second level finds what it has stored.
  put_l2-get_l2 :
      (ctx : lib.Context) (key value : Bytes) (s : L2Cache lib)
      → usable have_hiredis lib s ≡ some ctx
      → (get_l2 have_hiredis lib key (put_l2 have_hiredis lib key value s)).1 ≡ some value
  put_l2-get_l2 ctx key value s e =
      rw (put_l2-world ctx key value s e)
        (get_l2-found ctx key value _ e (stores.found ctx (key_prefix ++ key) value 3600 s.world))

off_misses : (k : Bytes) (m : Lru) → m.enabled ≡ false → (spec_exec (gets k) m).1 ≡ none
unfolding spec_exec
off_misses k m off = ground arith

off_puts : (k v : Bytes) (m : Lru) → m.enabled ≡ false → (spec_exec (puts k v) m).0 ≡ m
unfolding spec_exec
off_puts k v m off = ground arith

usable_enabled :
    (have_hiredis : Bool) (lib : Hiredis) (ctx : lib.Context) (s : L2Cache lib)
    → usable have_hiredis lib s ≡ some ctx
    → s.redis_enabled ≡ true
usable_enabled true lib ctx s e = ground arith
usable_enabled false lib ctx s e = cc

module _ (b : Build) {C : Type 0} where
  open b use {have_hiredis, lib, md5}

  -- A lookup that the first level answers, and one that it leaves to the second.
  pub get_first :
      (query value : Bytes) (q : QueryCache lib C)
      → IsSound q
      → (spec_exec (gets (hash_query md5 query)) (view q.l1)).1 ≡ some value
      → (after : QueryCache lib C) × (get b query q ≡ ok (after, some value)) × (after.l2 ≡ q.l2)
  unfolding get get_after_l1
  get_first query value q s found =
      let (d, returns, _, _, _) = l1_gets q.l1 s.list s.positive (hash_query md5 query) in
      (count b true false (record q { l1 = d }), rw (returns, found) refl, refl)

  get_second :
      (query value : Bytes) (q : QueryCache lib C)
      → IsSound q
      → (spec_exec (gets (hash_query md5 query)) (view q.l1)).1 ≡ none
      → q.l2.redis_enabled ≡ true
      → (get_l2 have_hiredis lib (hash_query md5 query) q.l2).1 ≡ some value
      → (after : QueryCache lib C) × (get b query q ≡ ok (after, some value))
  unfolding get get_after_l1 refill
  get_second query value q s missing on found =
      let key = hash_query md5 query in
      let (d, returns, inv, positive, _) = l1_gets q.l1 s.list s.positive key in
      let q' : QueryCache lib C = count b false false (record q { l1 = d }) in
      let (d2, stored, _, _, _) = l1_puts d inv positive key value in
      let below = get_below_on b key q' on in
      (
        count b false true (record q' { l1 = d2; l2 = (get_l2 have_hiredis lib key q.l2).0 }),
        rw (returns, missing)
            (below
              ∙ ap (λ o. refill b key o (record q' { l2 = (get_l2 have_hiredis lib key q.l2).0 }))
                  found
              ∙ ap
                  (λ x. x >>= (λ l1. ok (
                    count b false true
                        (record q' { l1 = l1; l2 = (get_l2 have_hiredis lib key q.l2).0 }),
                    some value,
                  )))
                  stored),
      )

  -- On a sound object, with the first level enabled or a Redis server connected that stores what it is
  -- sent, a lookup right after `put` finds what was put.
  pub put-get :
      (query value : Bytes) (q : QueryCache lib C)
      → Stores lib
      → IsSound q
      → (q.l1.l1_enabled ≡ true) ⊎ ((ctx : lib.Context) × (usable have_hiredis lib q.l2 ≡ some ctx))
      → (stored after : QueryCache lib C) × (put b query value q ≡ ok stored)
        × (get b query stored ≡ ok (after, some value))
  put-get query value q stores s levels =
      let key = hash_query md5 query in
      let p = put-Puts b query value q s in
      elim (Bool-cases q.l1.l1_enabled) [
        | inl on ↦
            let (after, found, same) =
              get_first query value p.after p.sound (
                ap (λ m. (spec_exec (gets key) m).1) p.l1
                ∙ spec_get-put key value (view q.l1) on) in
            (p.after, after, p.returns, found)
        | inr off ↦ elim levels [
          | inl on ↦ absurd (cc (sym on ∙ off))
          | inr (ctx, e) ↦
              let on = usable_enabled have_hiredis lib ctx q.l2 e in
              let l2 = p.l2 ∙ if_true q.l2.redis_enabled _ q.l2 on in
              let (after, found) =
                get_second query value p.after p.sound
                  (ap (λ m. (spec_exec (gets key) m).1) (p.l1 ∙ off_puts key value (view q.l1) off)
                    ∙ off_misses key (view q.l1) off)
                  (ap (λ x. x.redis_enabled)
                      (l2 ∙ put_l2-world have_hiredis lib stores ctx key value q.l2 e)
                    ∙ on)
                  (ap (λ x. (get_l2 have_hiredis lib key x).1) l2
                    ∙ put_l2-get_l2 have_hiredis lib stores ctx key value q.l2 e) in
              (p.after, after, p.returns, found)
        ]
      ]
