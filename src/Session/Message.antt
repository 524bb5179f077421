-- ===== src/Session/Message.antt =====
-- The bytes that src/Session/Session.cpp looks at: query messages, the client's request for TLS, and
-- the texts of TLS errors.
use single_flight_proxy_serv.Prelude.{
  ℕ, zero, suc, ◌-◌, ◌/◌, ◌%◌, ◌^◌, ◌≤◌, ◌<◌, ◌≡◌, ◌≢◌, ◌↔◌, refl, sym, ap, ◌∙◌, Bool, true, false,
  ◌&&◌, ◌||◌, [], ◌∷◌, ◌++◌, Bytes, length, take, drop, ltb, leb, ◌==◌, if◌then◌else◌, arith,
  length-append, dec_lt,
}

-- "stream truncated"
abbrev pub stream_truncated : Bytes
stream_truncated =
    b's' ∷ b't' ∷ b'r' ∷ b'e' ∷ b'a' ∷ b'm' ∷ b' ' ∷ b't' ∷ b'r' ∷ b'u' ∷ b'n' ∷ b'c' ∷ b'a' ∷ b't'
    ∷ b'e' ∷ b'd' ∷ []

-- "short read"
abbrev pub short_read : Bytes
short_read = b's' ∷ b'h' ∷ b'o' ∷ b'r' ∷ b't' ∷ b' ' ∷ b'r' ∷ b'e' ∷ b'a' ∷ b'd' ∷ []

-- "protocol is shutdown"
abbrev pub protocol_is_shutdown : Bytes
protocol_is_shutdown =
    b'p' ∷ b'r' ∷ b'o' ∷ b't' ∷ b'o' ∷ b'c' ∷ b'o' ∷ b'l' ∷ b' ' ∷ b'i' ∷ b's' ∷ b' ' ∷ b's' ∷ b'h'
    ∷ b'u' ∷ b't' ∷ b'd' ∷ b'o' ∷ b'w' ∷ b'n' ∷ []

-- "bad record mac"
abbrev pub bad_record_mac : Bytes
bad_record_mac =
    b'b' ∷ b'a' ∷ b'd' ∷ b' ' ∷ b'r' ∷ b'e' ∷ b'c' ∷ b'o' ∷ b'r' ∷ b'd' ∷ b' ' ∷ b'm' ∷ b'a' ∷ b'c'
    ∷ []

unfoldable pub starts_with : Bytes → Bytes → Bool
starts_with [] text = true
starts_with (x ∷ word) [] = false
starts_with (x ∷ word) (y ∷ text) = (x == y) && starts_with word text

-- `text.find(word) != npos`
unfoldable pub contains : Bytes → Bytes → Bool
contains word [] = starts_with word []
contains word (y ∷ text) = starts_with word (y ∷ text) || contains word text

-- The byte at an index; past the end of a buffer the code reads nothing.
unfoldable pub byte_at : ℕ → Bytes → ℕ
byte_at i [] = 0
byte_at zero (x ∷ xs) = x
byte_at (suc i) (x ∷ xs) = byte_at i xs

-- The test on the first packet of a client.
unfoldable pub is_ssl_request : Bytes → ℕ → Bool
is_ssl_request buffer length = (length == 8) && (byte_at 4 buffer == 4) && (byte_at 5 buffer == 210)

unfoldable pub is_sql_query : Bytes → ℕ → Bool
is_sql_query buffer length = ltb 0 length && (byte_at 0 buffer == b'Q')

-- The loop: `p` is the bytes from the pointer on, and `n` how many of them come before the end.
unfoldable pub query_length : Bytes → ℕ → ℕ
query_length p zero = 0
query_length [] (suc n) = suc n
query_length (x ∷ p) (suc n) = let rest = query_length p n in if x == 0 then 0 else suc rest

unfoldable pub extract_sql_query : Bytes → ℕ → Bytes
extract_sql_query buffer length =
    if ltb length 5
    then []
    else (let query_start = drop 5 buffer in
        let size = query_length query_start (length - 5) in
        if leb size 0 then [] else take size query_start)

-- The independent description: the bytes up to the first zero.
unfoldable pub until_zero : Bytes → Bytes
until_zero [] = []
until_zero (x ∷ xs) = let rest = until_zero xs in if x == 0 then [] else x ∷ rest

take-query_length :
    (p : Bytes) (n : ℕ) → n ≤ length p → take (query_length p n) p ≡ until_zero (take n p)
unfolding query_length until_zero
take-query_length p zero h = refl
take-query_length [] (suc n) h = absurd (omega arith)
take-query_length (x ∷ p) (suc n) h = ground (arith, take-query_length p n)

take-nil : (n : ℕ) → take {A = ℕ} n [] ≡ []
take-nil zero = refl
take-nil (suc n) = refl

take-eq : (m n : ℕ) (xs : Bytes) → m ≡ n → take m xs ≡ take n xs
take-eq m n xs e = ap (λ k. take k xs) e

drop-take : (m n : ℕ) (xs : Bytes) → drop m (take n xs) ≡ take (n - m) (drop m xs)
drop-take zero n xs = take-eq n (n - 0) xs (omega arith)
drop-take (suc m) zero xs = take-eq 0 (0 - suc m) (drop (suc m) xs) (omega arith)
drop-take (suc m) (suc n) [] = sym (take-nil (suc n - suc m))
drop-take (suc m) (suc n) (x ∷ xs) =
    drop-take m n xs ∙ take-eq (n - m) (suc n - suc m) (drop m xs) (omega arith)

length-drop : (m : ℕ) (xs : Bytes) → length (drop m xs) ≡ length xs - m
length-drop zero xs = omega arith
length-drop (suc m) [] = omega arith
length-drop (suc m) (x ∷ xs) = omega (arith, length-drop m xs)

take-none : (n : ℕ) (xs : Bytes) → n ≤ 0 → take n xs ≡ []
take-none zero xs h = refl
take-none (suc n) xs h = absurd (omega arith)

-- For a message that lies within the buffer, what the code takes for the query is what stands in
-- the message after its first five bytes, up to the first zero byte or the message's end.
pub extract_sql_query-until_zero :
    (buffer : Bytes) (n : ℕ)
    → n ≤ length buffer
    → extract_sql_query buffer n ≡ until_zero (drop 5 (take n buffer))
unfolding extract_sql_query until_zero
extract_sql_query-until_zero buffer n h = elim (dec_lt n 5) [
  | yes short ↦
      rw (drop-take 5 n buffer, take-none (n - 5) (drop 5 buffer) (omega arith)) (ground arith)
  | no long ↦ rw (drop-take 5 n buffer) (
      ground (
        arith,
        take-query_length (drop 5 buffer) (n - 5) (omega (arith, length-drop 5 buffer)),
        take-none (query_length (drop 5 buffer) (n - 5)) (drop 5 buffer),
      ))
]

-- A query message: the type, four bytes of length, the text, and a zero byte.
unfoldable pub query_message : Bytes → Bytes → Bytes
query_message size sql = b'Q' ∷ size ++ sql ++ 0 ∷ []

abbrev pub HasNoZero : Bytes → Type 0
HasNoZero [] = Unit {0}
HasNoZero (x ∷ xs) = (x ≢ 0) × HasNoZero xs

until_zero-append : (sql rest : Bytes) → HasNoZero sql → until_zero (sql ++ 0 ∷ rest) ≡ sql
unfolding until_zero
until_zero-append [] rest h = refl
until_zero-append (x ∷ sql) rest h = ground (arith, until_zero-append sql rest h.1)

pub take-append : (xs ys : Bytes) → take (length xs) (xs ++ ys) ≡ xs
take-append [] ys = refl
take-append (x ∷ xs) ys = ap (◌∷◌ x) (take-append xs ys)

-- A query message with a text without zero bytes, read into the front of the buffer, is seen as a
-- query, whatever the buffer holds after it, and the code finds its text.
pub query_message-extract :
    (a b c d : ℕ) (sql old : Bytes)
    → HasNoZero sql
    → let message = query_message (a ∷ b ∷ c ∷ d ∷ []) sql in
      (is_sql_query (message ++ old) (length message) ≡ true)
      × (extract_sql_query (message ++ old) (length message) ≡ sql)
unfolding query_message is_sql_query byte_at
query_message-extract a b c d sql old h =
    let message = query_message (a ∷ b ∷ c ∷ d ∷ []) sql in
    (
      ground arith,
      extract_sql_query-until_zero (message ++ old) (length message)
            (omega (arith, length-append message old))
          ∙ ap (λ m. until_zero (drop 5 m)) (take-append message old)
          ∙ until_zero-append sql [] h,
    )

-- The first packet of a client: its length, 8, and a request code, both in four bytes.
abbrev pub request_packet : ℕ → Bytes
request_packet code =
    0 ∷ 0 ∷ 0 ∷ 8 ∷ code / 2 ^ 24 ∷ code / 2 ^ 16 % 256 ∷ code / 2 ^ 8 % 256 ∷ code % 256 ∷ []

-- An eight-byte packet with a code below 2^32 is taken for the request for TLS exactly when the
-- upper half of the code is 1234: not the code of that request, 80877103, alone, but also the one
-- that asks for GSSAPI encryption, 80877104, and any other with that upper half.
pub is_ssl_request-code :
    (code : ℕ) (old : Bytes)
    → code < 2 ^ 32
    → (is_ssl_request (request_packet code ++ old) 8 ≡ true) ↔ (code / 2 ^ 16 ≡ 1234)
unfolding is_ssl_request byte_at
is_ssl_request-code code old h = ground arith
