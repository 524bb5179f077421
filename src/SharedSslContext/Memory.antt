-- ===== src/SharedSslContext/Memory.antt =====
-- The memory of src/Session/SharedSSLContext.cpp: what becomes of each object of OpenSSL.
use single_flight_proxy_serv.Prelude.{
  Bool, true, false, ◌&&◌, ◌||◌, List, [], ◌∷◌, ◌≡◌, arith, if◌then◌else◌,
}
use single_flight_proxy_serv.SharedSslContext.{
  Object, pkey, rsa, bn, x509, Call, new, free, set_word, generate_key, set1_rsa, set_version,
  set_serial_number, set_not_before, set_not_after, set_pubkey, set_issuer_name, sign, add_entry,
  use_certificate, use_private_key, Results, is, Return, certificate_not_set, key_does_not_match,
  configured, new_shared_context,
}

-- The function's own pointer to an object: not there yet, null, held, or given back; `misused` is a use
-- without the object, a second allocation or a second free. To free a null pointer does nothing.
pub data Held : Type 0 where
  unborn null held freed misused : Held

abbrev same : Object → Object → Bool
same pkey pkey = true
same rsa rsa = true
same bn bn = true
same x509 x509 = true
same _ _ = false

-- The call is given the object.
abbrev uses : Call → Object → Bool
uses (set_word n) o = same bn o
uses (generate_key n) o = same rsa o || same bn o
uses set1_rsa o = same pkey o || same rsa o
uses (set_version n) o = same x509 o
uses (set_serial_number n) o = same x509 o
uses (set_not_before n) o = same x509 o
uses (set_not_after n) o = same x509 o
uses set_pubkey o = same x509 o || same pkey o
uses (add_entry key value) o = same x509 o
uses set_issuer_name o = same x509 o
uses sign o = same x509 o || same pkey o
uses use_certificate o = same x509 o
uses use_private_key o = same pkey o
uses _ o = false

abbrev allocated : Bool → Held → Held
allocated true unborn = held
allocated false unborn = null
allocated _ _ = misused

abbrev released : Held → Held
released held = freed
released null = null
released _ = misused

abbrev used : Held → Held
used held = held
used _ = misused

-- By which allocators return an object.
module _ (allocates : Object → Bool) where
  abbrev after_call : Object → Call → Held → Held
  after_call o (new p) h = if same p o then allocated (allocates p) h else h
  after_call o (free p) h = if same p o then released h else h
  after_call o call h = if uses call o then used h else h

  abbrev pub after_calls : Object → List Call → Held → Held
  after_calls o [] h = h
  after_calls o (call ∷ calls) h = after_calls o calls (after_call o call h)

-- How the set-up returns, by the results that it looks at.
abbrev pub return_of : Results → Return
return_of r =
    if is 1 r.certificate && is 1 r.private_key
    then (if is 0 r.check then key_does_not_match else configured)
    else certificate_not_set

-- Whatever the library's calls return: each of the four objects whose allocator returns it is allocated
-- once, used only while it is held, and has been freed once when the set-up returns, early or not. An
-- object whose allocator returns a null pointer is used all the same. The set-up returns at its end
-- exactly when the certificate and the key have both been set and the check is not zero.
pub setup-frees :
    (r : Results) (o : Object)
    → (after_calls r.allocates o (new_shared_context r).0 unborn
        ≡ (if r.allocates o then freed else misused))
      × ((new_shared_context r).1 ≡ return_of r)
unfolding new_shared_context
setup-frees r pkey = ground arith
setup-frees r rsa = ground arith
setup-frees r bn = ground arith
setup-frees r x509 = ground arith
