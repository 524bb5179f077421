-- ===== src/Proxy/Alike.antt =====
-- Sessions of src/Session/Session.cpp that have the same sockets and flags.
use single_flight_proxy_serv.Prelude.{ℕ, ◌≡◌, refl, sym, ap, subst, ◌∙◌, ℕ_discrete, if_neg, if_pos}
use single_flight_proxy_serv.SingleFlight.{update}
use single_flight_proxy_serv.Session.{Session}
use single_flight_proxy_serv.Session.Bridge.{client_stream, server_stream}

-- The same sockets and flags; the buffers and the query may differ.
pub record Alike (s t : Session) : Type 0 where
  pub to_client : client_stream t ≡ client_stream s
  pub to_server : server_stream t ≡ server_stream s
  pub is_destroying : t.is_destroying ≡ s.is_destroying
  pub client_closed : t.client_closed ≡ s.client_closed
  pub server_closed : t.server_closed ≡ s.server_closed

pub Alike-refl : (s : Session) → Alike s s
Alike-refl s = record {
  to_client = refl;
  to_server = refl;
  is_destroying = refl;
  client_closed = refl;
  server_closed = refl;
}

pub Alike-trans : (r s t : Session) → Alike r s → Alike s t → Alike r t
Alike-trans r s t h g = record {
  to_client = g.to_client ∙ h.to_client;
  to_server = g.to_server ∙ h.to_server;
  is_destroying = g.is_destroying ∙ h.is_destroying;
  client_closed = g.client_closed ∙ h.client_closed;
  server_closed = g.server_closed ∙ h.server_closed;
}

pub update_self : (f : ℕ → Session) (i : ℕ) (s : Session) → update f i s i ≡ s
update_self f i s = if_pos (ℕ_discrete i i) refl s (f i)

pub update-Alike :
    (f : ℕ → Session) (i : ℕ) (s : Session) → Alike (f i) s → (j : ℕ) → Alike (f j) (update f i s j)
update-Alike f i s h j = elim (ℕ_discrete i j) [
  | yes same ↦
      subst (Alike (f j)) (sym (if_pos (ℕ_discrete i j) same s (f j)))
        (subst (λ k. Alike (f k) s) same h)
  | no other ↦ subst (Alike (f j)) (sym (if_neg (ℕ_discrete i j) other s (f j))) (Alike-refl (f j))
]

-- What a session's new state leaves alone.
pub update_same :
    {A : Type 0} (g : Session → A) (f : ℕ → Session) (i : ℕ) (s : Session)
    → g s ≡ g (f i)
    → (j : ℕ) → g (update f i s j) ≡ g (f j)
update_same g f i s h j = elim (ℕ_discrete i j) [
  | yes same ↦ ap g (if_pos (ℕ_discrete i j) same s (f j)) ∙ (h ∙ ap (λ k. g (f k)) same)
  | no other ↦ ap g (if_neg (ℕ_discrete i j) other s (f j))
]
