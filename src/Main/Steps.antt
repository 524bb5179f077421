-- ===== src/Main/Steps.antt =====
-- What the steps of the program of src/main.cpp keep, and what a signal does.
use single_flight_proxy_serv.Prelude.{
  ℕ, suc, ◌+◌, ◌-◌, ◌≤◌, ◌<◌, ◌≡◌, refl, sym, ap, subst, ◌∙◌, true, false, List, [], ◌∷◌, ◌++◌,
  arith, ltb, Bool-cases, ◌⊎◌, inl, inr, if_true, if_false, ltb→lt,
}
use single_flight_proxy_serv.Prelude.Outcome.{ok, >>=-ok, ok-injective}
use single_flight_proxy_serv.QueryCache.{Build}
use single_flight_proxy_serv.Proxy.{Started}
use single_flight_proxy_serv.ProxyServer as Servers
use single_flight_proxy_serv.ProxyServer.{Server, Happening, new_server, shutdown}
use single_flight_proxy_serv.ProxyServer.Loop.{starting, moved, stops_starting}
use single_flight_proxy_serv.ProxyServer.Accepts.{step-Moves}
use single_flight_proxy_serv.Main.{
  Process, signal_handler, Event, signalled, works, worker_ends, worker_throws, step, run, leave,
  exited, status,
}

none_below : (n : ℕ) → ltb 0 n ≡ false → n ≡ 0
none_below n h = ground arith

module _ (b : Build) where
  open b use {lib}

  -- The worker threads that end.
  abbrev pub ends : List (Event b) → ℕ
  ends [] = 0
  ends (signalled ∷ es) = ends es
  ends (works h ∷ es) = ends es
  ends (worker_ends ∷ es) = suc (ends es)
  ends (worker_throws ∷ es) = suc (ends es)

  -- The server has been shut down and the io_context stopped, and no session is started beyond the
  -- first `most`.
  pub record IsOff (most : ℕ) (p : Process lib) : Type 0 where
    pub accepting : p.server.accepting ≡ false
    pub stopped : p.io_is_stopped ≡ true
    pub sessions : p.server.sessions + starting p.server.phase ≤ most

  pub record IsGlobal (p : Process lib) : Type 0 where
    pub io_context : p.g_io_context ≡ true
    pub work_guard : p.g_work_guard ≡ true
    pub server : p.g_server ≡ true

  signal_handler-IsOff :
      (most : ℕ) (p : Process lib) → IsOff most p → IsOff most (signal_handler b p)
  unfolding signal_handler shutdown
  signal_handler-IsOff most p off = ground arith

  signal_handler-IsGlobal : (p : Process lib) → IsGlobal p → IsGlobal (signal_handler b p)
  unfolding signal_handler
  signal_handler-IsGlobal p g = ground arith

  pub signal_handler-workers : (p : Process lib) → (signal_handler b p).workers ≡ p.workers - 0
  unfolding signal_handler
  signal_handler-workers p = ground arith

  pub signal_handler_shuts :
      (p : Process lib)
      → IsGlobal p
      → IsOff (p.server.sessions + starting p.server.phase) (signal_handler b p)
  unfolding signal_handler shutdown
  signal_handler_shuts p g = ground arith

  works-IsOff :
      (h : Happening) (most : ℕ) (p : Process lib) {s : Server lib} {xs : Started}
      → Servers.step b h p.server ≡ ok (s, xs)
      → IsOff most p
      → IsOff most (record p { server = s })
  works-IsOff h most p e off =
      let m = step-Moves b h p.server e in
      let still : moved h p.server.accepting p.server.phase ≡ moved h false p.server.phase =
        ap (λ on. moved h on p.server.phase) off.accepting in
      record {
        accepting = m.accepting ∙ off.accepting;
        stopped = off.stopped;
        sessions = omega (
          arith,
          m.sessions,
          ap starting (m.phase ∙ still),
          stops_starting h p.server.phase,
          off.sessions,
        );
      }

  -- A step of a worker thread, while there is one.
  pub works-cases :
      (h : Happening) (p : Process lib) {after : Process lib} {xs : Started}
      → step b (works h) p ≡ ok (after, xs)
      → ((s : Server lib) × (0 < p.workers)
          × (Servers.step b h p.server ≡ ok (s, xs))
          × (after ≡ record p { server = s }))
        ⊎ ((p.workers ≡ 0) × (after ≡ p) × (xs ≡ []))
  unfolding step
  works-cases h p {after} {xs} e = elim (Bool-cases (ltb 0 p.workers)) [
    | inl some_left ↦
        let ((s, ys), stepped, same) =
          >>=-ok (Servers.step b h p.server) _ (sym (if_true _ _ _ some_left) ∙ e) in
        inl (
          s,
          ltb→lt 0 p.workers some_left,
          stepped ∙ ap (λ x. ok (s, x)) (ap (λ r. r.1) (ok-injective same)),
          sym (ap (λ r. r.0) (ok-injective same)),
        )
    | inr none_left ↦
        let same : (p, []) ≡ (after, xs) = ok-injective (sym (if_false _ _ _ none_left) ∙ e) in
        inr (none_below p.workers none_left, sym (ap (λ r. r.0) same), sym (ap (λ r. r.1) same))
  ]

  ends_add :
      (x : Event b) (es : List (Event b)) (k m : ℕ) {n : ℕ}
      → m ≡ k - ends (x ∷ [])
      → n ≡ m - ends es
      → n ≡ k - ends (x ∷ es)
  ends_add signalled es k m h i = omega arith
  ends_add (works y) es k m h i = omega arith
  ends_add worker_ends es k m h i = omega arith
  ends_add worker_throws es k m h i = omega arith

  fewer-IsOff :
      (most : ℕ) (p : Process lib) (n : ℕ) → IsOff most p → IsOff most (record p { workers = n })
  fewer-IsOff most p n off = record {
    accepting = off.accepting;
    stopped = off.stopped;
    sessions = off.sessions;
  }

  pub step-IsOff :
      (e : Event b) (most : ℕ) (p : Process lib) {after : Process lib} {xs : Started}
      → step b e p ≡ ok (after, xs)
      → IsOff most p
      → IsOff most after
  unfolding step
  step-IsOff signalled most p e off =
      subst (λ r. IsOff most r.0) (ok-injective e) (signal_handler-IsOff most p off)
  step-IsOff (works h) most p e off = elim (works-cases h p e) [
    | inl (s, some_left, stepped, same) ↦
        subst (IsOff most) (sym same) (works-IsOff h most p stepped off)
    | inr (none_left, same, nothing) ↦ subst (IsOff most) (sym same) off
  ]
  step-IsOff worker_ends most p e off =
      subst (λ r. IsOff most r.0) (ok-injective e) (fewer-IsOff most p _ off)
  step-IsOff worker_throws most p e off =
      subst (λ r. IsOff most r.0) (ok-injective e) (fewer-IsOff most p _ off)

  -- Once the io_context is stopped, `run` of a worker thread returns.
  pub step-workers :
      (e : Event b) (p : Process lib) {after : Process lib} {xs : Started}
      → p.io_is_stopped ≡ true
      → step b e p ≡ ok (after, xs)
      → after.workers ≡ p.workers - ends (e ∷ [])
  unfolding step signal_handler
  step-workers signalled p on e =
      sym (ap (λ r. r.0.workers) (ok-injective e)) ∙ signal_handler-workers p
  step-workers (works h) p on e = elim (works-cases h p e) [
    | inl (s, some_left, stepped, same) ↦ omega (arith, ap (λ r. r.workers) same)
    | inr (none_left, same, nothing) ↦ omega (arith, ap (λ r. r.workers) same)
  ]
  step-workers worker_ends p on e =
      sym (ap (λ r. r.0.workers) (ok-injective e))
      ∙ if_true p.io_is_stopped (p.workers - 1) p.workers on
  step-workers worker_throws p on e = sym (ap (λ r. r.0.workers) (ok-injective e))

  pub step-IsGlobal :
      (e : Event b) (p : Process lib) {after : Process lib} {xs : Started}
      → step b e p ≡ ok (after, xs)
      → IsGlobal p
      → IsGlobal after
  unfolding step signal_handler
  step-IsGlobal signalled p e g =
      subst (λ r. IsGlobal r.0) (ok-injective e) (signal_handler-IsGlobal p g)
  step-IsGlobal (works h) p e g = elim (works-cases h p e) [
    | inl (s, some_left, stepped, same) ↦
        subst IsGlobal (sym same)
          (record { io_context = g.io_context; work_guard = g.work_guard; server = g.server })
    | inr (none_left, same, nothing) ↦ subst IsGlobal (sym same) g
  ]
  step-IsGlobal worker_ends p e g =
      subst (λ r. IsGlobal r.0) (ok-injective e)
        (record { io_context = g.io_context; work_guard = g.work_guard; server = g.server })
  step-IsGlobal worker_throws p e g =
      subst (λ r. IsGlobal r.0) (ok-injective e)
        (record { io_context = g.io_context; work_guard = g.work_guard; server = g.server })

  pub run-cons :
      (e : Event b) (es : List (Event b)) (p : Process lib) {after : Process lib} {xs : Started}
      → run b (e ∷ es) p ≡ ok (after, xs)
      → (p1 : Process lib) × (ys zs : Started) × (step b e p ≡ ok (p1, ys))
        × (run b es p1 ≡ ok (after, zs))
        × (xs ≡ ys ++ zs)
  unfolding run
  run-cons e es p returned =
      let ((p1, ys), first, rest) = >>=-ok (step b e p) _ returned in
      let ((p2, zs), second, last) = >>=-ok (run b es p1) _ rest in
      let same = ok-injective last in
      (
        p1,
        ys,
        zs,
        first,
        second ∙ ap (λ r. ok (r, zs)) (ap (λ r. r.0) same),
        sym (ap (λ r. r.1) same),
      )

  -- What every step keeps.
  pub run_keeps :
      (P : Process lib → Type 0)
      → ((e : Event b) (p after : Process lib) (xs : Started)
          → step b e p ≡ ok (after, xs)
          → P p
          → P after)
      → (es : List (Event b)) (p : Process lib) {after : Process lib} {xs : Started}
      → run b es p ≡ ok (after, xs)
      → P p
      → P after
  unfolding run
  run_keeps P keeps [] p e h = subst (λ r. P r.0) (ok-injective e) h
  run_keeps P keeps (x ∷ es) p e h =
      let (p1, ys, zs, first, second, same) = run-cons x es p e in
      run_keeps P keeps es p1 second (keeps x p p1 ys first h)

  pub run-workers :
      (es : List (Event b)) (most : ℕ) (p : Process lib) {after : Process lib} {xs : Started}
      → IsOff most p
      → run b es p ≡ ok (after, xs)
      → after.workers ≡ p.workers - ends es
  unfolding run
  run-workers [] most p off e = omega (arith, ap (λ r. r.0.workers) (ok-injective e))
  run-workers (x ∷ es) most p off e =
      let (p1, ys, zs, first, second, same) = run-cons x es p e in
      ends_add x es p.workers p1.workers (step-workers x p off.stopped first)
        (run-workers es most p1 (step-IsOff x most p first off) second)

  pub status-exited : (p : Process lib) → p.workers ≡ 0 → status b p ≡ exited 0 (leave b p)
  unfolding status
  status-exited p h = rw h refl
