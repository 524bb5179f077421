-- ===== src/SharedSslContext.antt =====
-- src/Session/SharedSSLContext.cpp: the set-up of the two TLS contexts, as the calls of Boost.Asio and
-- OpenSSL that it makes, in their order. What the code looks at of their results is a parameter. The
-- log lines are left out.
pub mod Memory
use single_flight_proxy_serv.Prelude.{
  ℕ, Bool, true, false, not, ◌&&◌, List, [], ◌∷◌, ◌++◌, Bytes, codes, ◌==◌,
}
use single_flight_proxy_serv.Prelude.Int.{ℤ, pos, negsuc}

-- The objects of OpenSSL that `setup_server_context` makes.
pub data Object : Type 0 where
  pkey rsa bn x509 : Object

pub data Side : Type 0 where
  client server : Side

pub data ContextOption : Type 0 where
  default_workarounds no_sslv2 no_sslv3 single_dh_use : ContextOption

-- The calls, with what is not one of the objects.
pub data Call : Type 0 where
  set_default_verify_paths set_verify_none : Side → Call
  set_options : Side → List ContextOption → Call
  set_cipher_list : Bytes → Call
  new free : Object → Call
  set1_rsa : Call
  set_word generate_key set_version set_serial_number set_not_before set_not_after : ℕ → Call
  set_pubkey set_issuer_name sign : Call
  add_entry : Bytes → Bytes → Call
  use_certificate use_private_key check_private_key : Call

-- Whether each object's allocator returns one, or a null pointer; the code does not look at that. And the
-- results of `SSL_CTX_use_certificate`, `SSL_CTX_use_PrivateKey` and `SSL_CTX_check_private_key`.
pub record Results : Type 0 where
  pub allocates : Object → Bool
  pub certificate : ℤ
  pub private_key : ℤ
  pub check : ℤ

abbrev pub is : ℕ → ℤ → Bool
is n (pos m) = m == n
is n (negsuc m) = false

abbrev options : List ContextOption
options = default_workarounds ∷ no_sslv2 ∷ no_sslv3 ∷ single_dh_use ∷ []

-- How `setup_server_context` returns: after its first error, after its second, or at its end.
pub data Return : Type 0 where
  certificate_not_set key_does_not_match configured : Return

unfoldable pub setup_client_context : List Call
setup_client_context =
    set_default_verify_paths client ∷ set_verify_none client ∷ set_options client options ∷ []

-- The frees at every return.
abbrev frees : List Call
frees = free x509 ∷ free pkey ∷ []

-- From `SSL_CTX_check_private_key` on.
unfoldable pub check_key : Bool → List Call × Return
check_key true = (frees, configured)
check_key false = (frees, key_does_not_match)

-- Behind the two calls that set the certificate and the key.
unfoldable pub after_set : Results → Bool → List Call × Return
unfolding check_key
after_set r true =
    let (calls, end) = check_key (not (is 0 r.check)) in (check_private_key ∷ calls, end)
after_set r false = (frees, certificate_not_set)

unfoldable pub setup_server_context : Results → List Call × Return
unfolding after_set
setup_server_context r =
    let (calls, end) = after_set r (is 1 r.certificate && is 1 r.private_key) in
    (
      set_options server options
          ∷ set_verify_none server
          ∷ set_cipher_list (codes "DEFAULT:!aNULL:!eNULL:!MD5:!3DES:!DES:!RC4:!IDEA")
          ∷ new pkey
          ∷ new rsa
          ∷ new bn
          ∷ set_word 65537
          ∷ generate_key 2048
          ∷ set1_rsa
          ∷ free rsa
          ∷ free bn
          ∷ new x509
          ∷ set_version 2
          ∷ set_serial_number 1
          ∷ set_not_before 0
          ∷ set_not_after 31536000
          ∷ set_pubkey
          ∷ add_entry (codes "CN") (codes "localhost")
          ∷ set_issuer_name
          ∷ sign
          ∷ use_certificate
          ∷ use_private_key
          ∷ calls,
      end,
    )

-- The constructor.
unfoldable pub new_shared_context : Results → List Call × Return
unfolding setup_client_context setup_server_context
new_shared_context r =
    let (calls, end) = setup_server_context r in (setup_client_context ++ calls, end)
