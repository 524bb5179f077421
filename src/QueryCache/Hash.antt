-- ===== src/QueryCache/Hash.antt =====
-- `hash_query` of src/QueryCache/QueryCache.cpp: the cache key of a query is its MD5 digest in
-- hexadecimal. MD5 itself is OpenSSL's and a parameter.
use single_flight_proxy_serv.Prelude.{
  ℕ, ◌+◌, ◌-◌, ◌*◌, ◌/◌, ◌%◌, ◌<◌, ◌≡◌, refl, ap, ◌↔◌, [], ◌∷◌, ◌++◌, arith, Bytes, length, ltb,
  if◌then◌else◌,
}

-- `std::hex << std::setw(2) << std::setfill('0') << (int)digest[i]`.
unfoldable pub hex_digit : ℕ → ℕ
hex_digit d = if ltb d 10 then b'0' + d else b'a' + (d - 10)

abbrev pub hex_byte : ℕ → Bytes
hex_byte b = hex_digit (b / 16) ∷ hex_digit (b % 16) ∷ []

unfoldable pub hex_string : Bytes → Bytes
hex_string [] = []
hex_string (b ∷ digest) = hex_byte b ++ hex_string digest

unfoldable pub hash_query : (Bytes → Bytes) → Bytes → Bytes
hash_query md5 query = hex_string (md5 query)

-- What the program relies on of MD5: a digest is 16 bytes.
abbrev pub AllBytes : Bytes → Type 0
AllBytes [] = Unit {0}
AllBytes (b ∷ bs) = (b < 256) × AllBytes bs

pub record IsDigest (md5 : Bytes → Bytes) : Type 0 where
  pub size : (q : Bytes) → length (md5 q) ≡ 16
  pub bytes : (q : Bytes) → AllBytes (md5 q)

hex_digit_inj : (a b : ℕ) → a < 16 → b < 16 → hex_digit a ≡ hex_digit b → a ≡ b
unfolding hex_digit
hex_digit_inj a b p q e = ground arith

hex_string_inj :
    (xs ys : Bytes) → AllBytes xs → AllBytes ys → hex_string xs ≡ hex_string ys → xs ≡ ys
unfolding hex_string
hex_string_inj [] [] p q e = refl
hex_string_inj [] (y ∷ ys) p q e = cc
hex_string_inj (x ∷ xs) [] p q e = cc
hex_string_inj (x ∷ xs) (y ∷ ys) p q e = ground (
  arith,
  hex_digit_inj (x / 16) (y / 16),
  hex_digit_inj (x % 16) (y % 16),
  hex_string_inj xs ys p.1 q.1,
)

length-hex_string : (xs : Bytes) → length (hex_string xs) ≡ 2 * length xs
unfolding hex_string
length-hex_string [] = refl
length-hex_string (x ∷ xs) = omega (arith, length-hex_string xs)

-- If MD5 gives digests of sixteen bytes, two queries share a cache key exactly when their digests
-- are the same, and every key is 32 bytes.
hash_query_inj :
    (md5 : Bytes → Bytes)
    → IsDigest md5
    → (p q : Bytes)
    → ((hash_query md5 p ≡ hash_query md5 q) ↔ (md5 p ≡ md5 q)) × (length (hash_query md5 p) ≡ 32)
unfolding hash_query
hash_query_inj md5 d p q = (
  (hex_string_inj (md5 p) (md5 q) (d.bytes p) (d.bytes q), λ e. ap hex_string e),
  omega (arith, length-hex_string (md5 p), d.size p),
)
