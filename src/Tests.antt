-- ===== src/Tests.antt =====
-- The tests' data, and the theorems applied to it.
pub mod Flights
pub mod Lru
pub mod Servers
pub mod Caches
pub mod Sessions
pub mod Bridges
pub mod Queries
pub mod Settings
pub mod Origins
pub mod Programs
use single_flight_proxy_serv.Prelude.{ℕ, [], ◌∷◌, Bytes}

-- Two keys and two results.
abbrev pub key_a : Bytes
key_a = b'a' ∷ []

abbrev pub key_b : Bytes
key_b = b'b' ∷ []

abbrev pub result_one : Bytes
result_one = b'1' ∷ b'1' ∷ []

abbrev pub result_two : Bytes
result_two = b'2' ∷ []
