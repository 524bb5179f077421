-- ===== src/Config/Load.antt =====
-- loadFromFile and loadFromString of src/Config/Config.cpp: whether the object is valid after a load,
-- and a load that is repeated.
use single_flight_proxy_serv.Prelude.{
  Bool, true, Option, none, some, ◌≡◌, refl, sym, ap, ◌∙◌, Bytes, inl, inr,
}
use single_flight_proxy_serv.Config.Yaml.{
  bad_file, yaml_exception, std_exception, Try, returns, throws, YamlCpp,
}
use single_flight_proxy_serv.Config.Paths.{kept, settled, document_error}
use single_flight_proxy_serv.Config.Document.{parse_yaml-settles}
use single_flight_proxy_serv.Config.{
  Config, Reading, read, failed, finish, read_document, set_defaults, parse_yaml, loaded_file,
  load_from_file,
}

kept-kept : {A : Type 0} (a : A) (t : Try (Option A)) → kept (kept a t) t ≡ kept a t
unfolding kept
kept-kept a (returns none) = refl
kept-kept a (returns (some b)) = refl
kept-kept a (throws e) = refl

finish-valid : (r : Reading) → (finish r).0.valid ≡ (finish r).1
unfolding finish
finish-valid (read c) = refl
finish-valid (failed e c) = refl

pub returns-injective : {A : Type 0} {a b : A} → returns a ≡ returns b → a ≡ b
returns-injective e = cc

valid_of :
    (p : Config × Bool) {d : Config} {b : Bool}
    → returns p ≡ returns (d, b)
    → p.0.valid ≡ p.1
    → d.valid ≡ b
valid_of p e h =
    let same = returns-injective e in ap (λ q. q.0.valid) (sym same) ∙ h ∙ ap (λ q. q.1) same

module _ (yaml : YamlCpp) where
  open yaml use {Node}

  settled-settled : (n : Node) (c : Config) → settled yaml n (settled yaml n c) ≡ settled yaml n c
  unfolding settled
  settled-settled n c = simp kept-kept

  -- The library's result decides, and the object does not matter to it.
  loaded_file-valid :
      (t : Try Node) (c : Config) {d : Config} {b : Bool}
      → loaded_file yaml t c ≡ returns (d, b)
      → d.valid ≡ b
  unfolding loaded_file
  loaded_file-valid (returns n) c e = valid_of _ e (finish-valid (read_document yaml n c))
  loaded_file-valid (throws (bad_file text)) c e = valid_of _ e refl
  loaded_file-valid (throws (yaml_exception text)) c e = valid_of _ e refl
  loaded_file-valid (throws (std_exception text)) c e = absurd (cc e)

  parse_yaml-readable :
      (n : Node) (c : Config)
      → document_error yaml n ≡ none
      → parse_yaml yaml n c ≡ (settled yaml n c, true)
  parse_yaml-readable n c good = elim (parse_yaml-settles yaml n c) [
    | inl (t, settles) ↦ settles
    | inr (x, d, f, refused) ↦ absurd (cc (sym good ∙ f))
  ]

  parse_yaml-again :
      (n : Node) (c : Config) {d : Config}
      → parse_yaml yaml n c ≡ (d, true)
      → parse_yaml yaml n d ≡ (d, true)
  parse_yaml-again n c {d} e = elim (parse_yaml-settles yaml n c) [
    | inl (good, settles) ↦
        let same : settled yaml n c ≡ d = ap (λ p. p.0) (sym settles ∙ e) in
        parse_yaml-readable n d good
        ∙ ap (λ x. (x, true)) (ap (settled yaml n) (sym same) ∙ settled-settled n c ∙ same)
    | inr (x, y, bad, refused) ↦ absurd (cc (ap (λ p. p.1) (sym refused ∙ e)))
  ]

  loaded_file-again :
      (t : Try Node) (c : Config) {d : Config}
      → loaded_file yaml t c ≡ returns (d, true)
      → loaded_file yaml t d ≡ returns (d, true)
  unfolding loaded_file
  loaded_file-again (returns n) c e = ap returns (parse_yaml-again n c (returns-injective e))
  loaded_file-again (throws (bad_file text)) c e =
      cc (ap set_defaults (ap (λ p. p.0) (returns-injective e)), returns-injective e)
  loaded_file-again (throws (yaml_exception text)) c e =
      absurd (cc (ap (λ p. p.1) (returns-injective e)))
  loaded_file-again (throws (std_exception text)) c e = absurd (cc e)

  -- `loadFromFile` returns whether the object is valid after it, whatever the file holds and whatever
  -- the object held.
  pub load-valid :
      (path : Bytes) (c : Config) {d : Config} {b : Bool}
      → load_from_file yaml path c ≡ returns (d, b)
      → d.valid ≡ b
  unfolding load_from_file
  load-valid path c e = loaded_file-valid (yaml.load_file path) c e

  -- A file that has been loaded with success, missing or not, can be loaded again: that succeeds and
  -- changes nothing.
  pub load-again :
      (path : Bytes) (c : Config) {d : Config}
      → load_from_file yaml path c ≡ returns (d, true)
      → load_from_file yaml path d ≡ returns (d, true)
  unfolding load_from_file
  load-again path c e = loaded_file-again (yaml.load_file path) c e
