-- ===== src/Proxy/Kept.antt =====
-- The sessions that a step of src/Session/Session.cpp is not about.
use single_flight_proxy_serv.Prelude.{
  ℕ, ◌≡◌, ◌≢◌, refl, sym, ap, subst, ◌∙◌, true, List, [], ◌∷◌, ◌++◌, map, Bytes, ℕ_discrete, if_neg,
  if_pos, if_true,
}
use single_flight_proxy_serv.QueryCache.L2.{Hiredis}
use single_flight_proxy_serv.QueryCache.{FlightResult, cache_hit, is_leader, is_waiter}
use single_flight_proxy_serv.Session.{Session, Effect, Act}
use single_flight_proxy_serv.Session.Bridge.{on_result}
use single_flight_proxy_serv.Proxy.{Proxy, Started, acts, call_back, after_flight}

-- None of the operations is one of session `i`.
abbrev pub AllOther : ℕ → Started → Type 0
AllOther i [] = Unit {0}
AllOther i ((j, e) ∷ xs) = (i ≢ j) × AllOther i xs

AllOther-append : (i : ℕ) (xs ys : Started) → AllOther i xs → AllOther i ys → AllOther i (xs ++ ys)
AllOther-append i [] ys h g = g
AllOther-append i (x ∷ xs) ys h g = (h.0, AllOther-append i xs ys h.1 g)

AllOther-map : (i j : ℕ) (effects : List Effect) → i ≢ j → AllOther i (map (λ e. (j, e)) effects)
AllOther-map i j [] h = tt
AllOther-map i j (e ∷ effects) h = (h, AllOther-map i j effects h)

-- A session that is closing ignores a result.
on_result_closing :
    (result : Bytes) (s : Session) → s.is_destroying ≡ true → on_result result s ≡ (s, [])
unfolding on_result
on_result_closing result s h = if_true s.is_destroying (s, []) _ h

module _ {lib : Hiredis} where
  -- Session `i` is as it was, and nothing was started for it.
  pub record Kept (i : ℕ) (p : Proxy lib) (r : Proxy lib × Started) : Type 0 where
    pub session : r.0.sessions i ≡ p.sessions i
    pub others : AllOther i r.1

  pub Kept-both :
      (i : ℕ) (p q : Proxy lib) (xs : Started) (r : Proxy lib × Started)
      → Kept i p (q, xs)
      → Kept i q r
      → Kept i p (r.0, xs ++ r.1)
  Kept-both i p q xs r h g = record {
    session = g.session ∙ h.session;
    others = AllOther-append i xs r.1 h.others g.others;
  }

  pub acts-Kept : (i j : ℕ) (act : Act) (p : Proxy lib) → i ≢ j → Kept i p (acts j act p)
  unfolding acts
  acts-Kept i j act p h = record {
    session = if_neg (ℕ_discrete j i) (λ e. h (sym e)) _ (p.sessions i);
    others = AllOther-map i j (act (p.sessions j)).1 h;
  }

  acts-Kept_idle :
      (i : ℕ) (act : Act) (p : Proxy lib)
      → act (p.sessions i) ≡ (p.sessions i, [])
      → Kept i p (acts i act p)
  unfolding acts
  acts-Kept_idle i act p e =
      rw e (record {
        session = if_pos (ℕ_discrete i i) refl (p.sessions i) (p.sessions i);
        others = tt;
      })

  pub call_back-Kept :
      (i : ℕ) (calls : List (ℕ × Bytes)) (p : Proxy lib)
      → (p.sessions i).is_destroying ≡ true
      → Kept i p (call_back calls p)
  unfolding call_back
  call_back-Kept i [] p h = record { session = refl; others = tt }
  call_back-Kept i ((j, result) ∷ calls) p h =
      let first : Kept i p (acts j (on_result result) p) = elim (ℕ_discrete i j) [
        | yes same ↦
            subst (λ k. Kept i p (acts k (on_result result) p)) same
              (acts-Kept_idle i (on_result result) p (on_result_closing result (p.sessions i) h))
        | no other ↦ acts-Kept i j (on_result result) p other
      ] in
      let p1 = (acts j (on_result result) p).0 in
      Kept-both i p p1 _ _ first
        (call_back-Kept i calls p1 (ap (λ s. s.is_destroying) first.session ∙ h))

  pub after_flight-Kept :
      (i j : ℕ) (sql : Bytes) (n : ℕ) (result : FlightResult) (p : Proxy lib)
      (r : Proxy lib × Started)
      → i ≢ j
      → Kept i p r
      → Kept i p (after_flight j sql n result r)
  unfolding after_flight
  after_flight-Kept i j sql n cache_hit p r h k = k
  after_flight-Kept i j sql n is_waiter p r h k = k
  after_flight-Kept i j sql n is_leader p r h k = Kept-both i p r.0 r.1 _ k (acts-Kept i j _ r.0 h)

  pub call_back-cache :
      (calls : List (ℕ × Bytes)) (p : Proxy lib) → (call_back calls p).0.cache ≡ p.cache
  unfolding call_back acts
  call_back-cache [] p = refl
  call_back-cache ((j, result) ∷ calls) p = call_back-cache calls (acts j (on_result result) p).0

  pub after_flight-cache :
      (j : ℕ) (sql : Bytes) (n : ℕ) (result : FlightResult) (r : Proxy lib × Started)
      → (after_flight j sql n result r).0.cache ≡ r.0.cache
  unfolding after_flight acts
  after_flight-cache j sql n cache_hit r = refl
  after_flight-cache j sql n is_waiter r = refl
  after_flight-cache j sql n is_leader r = refl
