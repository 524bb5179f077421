-- ===== src/Tests/Settings.antt =====
-- Tests of src/Config/Config.cpp and of the ports in src/ProxyServer/ProxyServer.hpp: documents as trees.
use text.Mathlib.Text.{◌==◌ as text_eq}
use single_flight_proxy_serv.Prelude.{
  ℕ, ◌-◌, ◌^◌, ◌<◌, ◌≡◌, ◌↔◌, ◌⊎◌, refl, Bool, true, false, ite, String, Option, none, some, ◌∷◌,
  Bytes, Bool-cases, ltb→lt, inl, inr, Bytes-discrete, codes, arith, ltb, if◌then◌else◌,
}
use single_flight_proxy_serv.Config.Yaml.{
  Exception, bad_file, yaml_exception, Try, returns, throws, YamlCpp,
}
use single_flight_proxy_serv.Config.{Config, new_config, parse_yaml, load_from_file, refuse}
use single_flight_proxy_serv.Config.Paths.{settled, document_error}
use single_flight_proxy_serv.Config.Document.{parse_yaml-settles}
use single_flight_proxy_serv.Config.Ranges.{IsUnsigned, Fits, Converts}
use single_flight_proxy_serv.ProxyServer.Port.{
  listen_endpoint, db_service, decimal, value, ports-converted,
}

-- A document: a map as a list of keys with their nodes, or a scalar.
pub data Tree : Type 0 where
  number : ℕ → Tree
  flag : Bool → Tree
  words : Bytes → Tree
  end : Tree
  item : String → Tree → Tree → Tree

abbrev bad_conversion : Exception
bad_conversion = yaml_exception (codes "bad conversion")

abbrev find_key : Tree → String → Try (Option Tree)
find_key (item k child rest) key = if text_eq k key then returns (some child) else find_key rest key
find_key end key = returns none
find_key (number n) key = throws (yaml_exception (codes "operator[] call on a scalar"))
find_key (flag b) key = throws (yaml_exception (codes "operator[] call on a scalar"))
find_key (words t) key = throws (yaml_exception (codes "operator[] call on a scalar"))

abbrev as_number : ℕ → Tree → Try ℕ
as_number limit (number n) = if ltb n limit then returns n else throws bad_conversion
as_number limit _ = throws bad_conversion

abbrev as_flag : Tree → Try Bool
as_flag (flag b) = returns b
as_flag _ = throws bad_conversion

abbrev as_text : Tree → Try Bytes
as_text (words t) = returns t
as_text _ = throws bad_conversion

abbrev document : Tree
document = item "server" (item "listen_port" (number 6001) (item "num_threads" (number 2) end)) (
    item "database" (item "port" (number 5433) end)
      (item "cache" (item "l1" (item "max_size" (number 3) end) end) end))

abbrev pub no_threads : Tree
no_threads = item "server" (item "num_threads" (number 0) end) end

abbrev scalar : Tree
scalar = item "server" (number 5) end

-- Three files; every other is missing.
abbrev load_tree : Bytes → Try Tree
load_tree path = ite (Bytes-discrete path (codes "a.yaml")) (returns document) (
    ite (Bytes-discrete path (codes "threads.yaml")) (returns no_threads) (
      ite (Bytes-discrete path (codes "scalar.yaml")) (returns scalar)
        (throws (bad_file (codes "bad file")))))

abbrev pub trees : YamlCpp
trees = record {
  Node = Tree;
  load_file = load_tree;
  load = λ content. throws (yaml_exception content);
  lookup = find_key;
  as_unsigned_short = as_number (2 ^ 16);
  as_unsigned_int = as_number (2 ^ 32);
  as_size_t = as_number (2 ^ 64);
  as_int = λ n. throws bad_conversion;
  as_bool = as_flag;
  as_string = as_text;
}

scalar_refused : (parse_yaml trees scalar new_config).1 ≡ false
unfolding parse_yaml
scalar_refused = refl

document_read : (parse_yaml trees document new_config).0.db_port ≡ 5433
unfolding parse_yaml
document_read = refl

parse_yaml-settles_example :
    ((document_error trees scalar ≡ none)
      × (parse_yaml trees scalar new_config ≡ (settled trees scalar new_config, true)))
    ⊎ ((e : Exception) × (d : Config) × (document_error trees scalar ≡ some e)
        × (parse_yaml trees scalar new_config ≡ (refuse e d, false)))
parse_yaml-settles_example = parse_yaml-settles trees scalar new_config

abbrev pub after_load : Config
after_load = settled trees document new_config

load_a : load_from_file trees (codes "a.yaml") new_config ≡ returns (after_load, true)
unfolding load_from_file settled Bytes-discrete
load_a = refl

reloaded : load_from_file trees (codes "a.yaml") after_load ≡ returns (after_load, true)
unfolding load_from_file settled Bytes-discrete
reloaded = refl

as_number-Fits : (w : ℕ) (n : Tree) → Fits (IsUnsigned w) (as_number (2 ^ w) n)
as_number-Fits w (number n) = elim (Bool-cases (ltb n (2 ^ w))) [
  | inl small ↦ rw small (ltb→lt n (2 ^ w) small)
  | inr large ↦ rw large tt
]
as_number-Fits w (flag b) = tt
as_number-Fits w (words t) = tt
as_number-Fits w end = tt
as_number-Fits w (item key child rest) = tt

pub trees-Converts : Converts trees
trees-Converts = record {
  unsigned_short = as_number-Fits 16;
  unsigned_int = as_number-Fits 32;
  size_t = as_number-Fits 64;
  int = λ n. tt;
}

ports-converted_example :
    (listen_endpoint 40000 ≡ 40000)
    × (db_service 40000
        ≡ (if ltb 40000 (2 ^ 15) then decimal 40000 else b'-' ∷ decimal (2 ^ 16 - 40000)))
    × ((db_service 40000 ≡ decimal 40000) ↔ (40000 < 2 ^ 15))
    × (value 0 (decimal 40000) ≡ 40000)
ports-converted_example = ports-converted 40000 (omega arith)
