-- ===== src/ProxyServer/Port.antt =====
-- The ports of src/ProxyServer/ProxyServer.cpp and src/Session/Session.cpp: an `unsigned short` of the
-- settings is passed on as a `short`.
use single_flight_proxy_serv.Prelude.{
  ltb→lt, ℕ, zero, suc, ◌+◌, ◌-◌, ◌*◌, ◌/◌, ◌%◌, ◌^◌, ◌<◌, ◌≤◌, ◌≡◌, refl, ◌≢◌, ◌↔◌, ap, sym, ◌∙◌,
  subst, dec_lt, false, inl, inr, [], ◌∷◌, ◌++◌, Bytes, arith, ltb, if◌then◌else◌, Bool-cases,
}
use single_flight_proxy_serv.Prelude.Int.{ℤ, pos, negsuc}

-- The conversion of an `unsigned short` to a `short`, and back.
unfoldable pub short_of : ℕ → ℤ
short_of p = if ltb p (2 ^ 15) then pos p else negsuc (2 ^ 16 - 1 - p)

unfoldable pub unsigned_short_of : ℤ → ℕ
unsigned_short_of (pos n) = n % 2 ^ 16
unsigned_short_of (negsuc n) = 2 ^ 16 - 1 - n % 2 ^ 16

-- The decimal digits of a number, the last ones first to be found; the fuel is above the number.
digits : ℕ → ℕ → Bytes
digits zero n = []
digits (suc fuel) n =
    let more = digits fuel (n / 10) ++ ((b'0' + n % 10) ∷ []) in
    if ltb n 10 then (b'0' + n) ∷ [] else more

unfoldable pub decimal : ℕ → Bytes
unfolding digits
decimal n = digits (n + 1) n

-- `std::to_string` of an integer.
unfoldable pub to_string : ℤ → Bytes
unfolding decimal
to_string (pos n) = decimal n
to_string (negsuc n) = b'-' ∷ decimal (n + 1)

-- The port that the acceptor is bound to, and the service that a session resolves, for a port of the
-- settings.
unfoldable pub listen_endpoint : ℕ → ℕ
unfolding short_of unsigned_short_of
listen_endpoint port = unsigned_short_of (short_of port)

unfoldable pub db_service : ℕ → Bytes
unfolding short_of to_string
db_service port = to_string (short_of port)

abbrev AllDigits : Bytes → Type 0
AllDigits [] = Unit {0}
AllDigits (c ∷ cs) = (b'0' ≤ c) × AllDigits cs

AllDigits-append : (xs ys : Bytes) → AllDigits xs → AllDigits ys → AllDigits (xs ++ ys)
AllDigits-append [] ys h k = k
AllDigits-append (x ∷ xs) ys (h, hs) k = (h, AllDigits-append xs ys hs k)

digits-AllDigits : (fuel n : ℕ) → AllDigits (digits fuel n)
unfolding digits
digits-AllDigits zero n = tt
digits-AllDigits (suc fuel) n = elim (Bool-cases (ltb n 10)) [
  | inl e ↦ rw e (omega arith, tt)
  | inr e ↦ rw e (AllDigits-append _ _ (digits-AllDigits fuel (n / 10)) (omega arith, tt))
]

not_digits : (rest cs : Bytes) → AllDigits cs → b'-' ∷ rest ≢ cs
not_digits rest cs h e =
    let all : AllDigits (b'-' ∷ rest) = subst AllDigits (sym e) h in absurd (omega (arith, all.0))

short_below : (port : ℕ) → port < 2 ^ 15 → short_of port ≡ pos port
unfolding short_of
short_below port h = ground arith

short_above : (port : ℕ) → 2 ^ 15 ≤ port → short_of port ≡ negsuc (2 ^ 16 - 1 - port)
unfolding short_of
short_above port h = ground arith

not_small : (n : ℕ) → ltb n 10 ≡ false → 10 ≤ n
not_small n h = ground arith

not_below : (port : ℕ) → ltb port (2 ^ 15) ≡ false → 2 ^ 15 ≤ port
not_below port h = ground arith

pub endpoint_lem : (port : ℕ) → port < 2 ^ 16 → listen_endpoint port ≡ port
unfolding listen_endpoint
endpoint_lem port h = ground arith

service_above :
    (port : ℕ) → port < 2 ^ 16 → 2 ^ 15 ≤ port → db_service port ≡ b'-' ∷ decimal (2 ^ 16 - port)
unfolding db_service
service_above port h k =
    ap to_string (short_above port k)
    ∙ ap (λ n. b'-' ∷ decimal n)
        (let e : (2 ^ 16 - 1 - port) + 1 ≡ 2 ^ 16 - port = omega arith in e)

service_small : (port : ℕ) → port < 2 ^ 15 → db_service port ≡ decimal port
unfolding db_service
service_small port k = ap to_string (short_below port k)

service_below : (port : ℕ) → db_service port ≡ decimal port → port < 2 ^ 16 → port < 2 ^ 15
unfolding decimal
service_below port e h = elim (dec_lt port (2 ^ 15)) [
  | yes p ↦ p
  | no p ↦ absurd (
      not_digits _ (decimal port) (digits-AllDigits (port + 1) port)
        (sym (service_above port h (omega arith)) ∙ e))
]

-- The number that a text of digits stands for, behind one that has been read.
unfoldable pub value : ℕ → Bytes → ℕ
value n [] = n
value n (c ∷ cs) = value (n * 10 + (c - b'0')) cs

value-append : (n d : ℕ) (cs : Bytes) → value n (cs ++ d ∷ []) ≡ value n cs * 10 + (d - b'0')
unfolding value
value-append n d [] = refl
value-append n d (c ∷ cs) = value-append (n * 10 + (c - b'0')) d cs

value-digits : (fuel n : ℕ) → n < fuel → value 0 (digits fuel n) ≡ n
unfolding digits value
value-digits zero n h = absurd (omega arith)
value-digits (suc fuel) n h = elim (Bool-cases (ltb n 10)) [
  | inl small ↦ rw small (omega arith)
  | inr large ↦
      let rest : value 0 (digits fuel (n / 10)) ≡ n / 10 =
        value-digits fuel (n / 10) (omega (arith, not_small n large)) in
      let last = value-append 0 (b'0' + n % 10) (digits fuel (n / 10)) in
      rw large (omega (arith, rest, last))
]

value-decimal : (n : ℕ) → value 0 (decimal n) ≡ n
unfolding decimal
value-decimal n = value-digits (n + 1) n (omega arith)

-- A listen port survives the conversions. The service that is resolved for a database port is its
-- decimal number below 2^15, and the number less 2^16 from there on: it is the port's decimal number
-- exactly below 2^15. The decimal number of the port stands for the port.
pub ports-converted :
    (port : ℕ)
    → port < 2 ^ 16
    → (listen_endpoint port ≡ port)
      × (db_service port
          ≡ (if ltb port (2 ^ 15) then decimal port else b'-' ∷ decimal (2 ^ 16 - port)))
      × ((db_service port ≡ decimal port) ↔ (port < 2 ^ 15))
      × (value 0 (decimal port) ≡ port)
ports-converted port h = (
  endpoint_lem port h,
  (elim (Bool-cases (ltb port (2 ^ 15))) [
    | inl below ↦ rw below (service_small port (ltb→lt port (2 ^ 15) below))
    | inr above ↦ rw above (service_above port h (not_below port above))
  ]),
  (λ e. service_below port e h, service_small port),
  value-decimal port,
)
