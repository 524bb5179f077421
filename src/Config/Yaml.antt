-- ===== src/Config/Yaml.antt =====
-- yaml-cpp, as src/Config/Config.cpp uses it: it loads a document, looks a key up in a node and
-- converts a node to a value, and throws. The library is a parameter.
use single_flight_proxy_serv.Prelude.{ℕ, Bool, String, Option, Bytes}
use single_flight_proxy_serv.Prelude.Int.{ℤ}

-- What the code tells apart of an exception, with its `what()`: a `YAML::BadFile`, another
-- `YAML::Exception`, another `std::exception`.
pub data Exception : Type 0 where
  bad_file yaml_exception std_exception : Bytes → Exception

pub data Try (A : Type 0) : Type 0 where
  returns : A → Try A
  throws : Exception → Try A

-- A lookup has `none` for a node that converts to false.
pub record YamlCpp : Type 1 where
  pub Node : Type 0
  pub load_file : Bytes → Try Node
  pub load : Bytes → Try Node
  pub lookup : Node → String → Try (Option Node)
  pub as_unsigned_short : Node → Try ℕ
  pub as_unsigned_int : Node → Try ℕ
  pub as_size_t : Node → Try ℕ
  pub as_int : Node → Try ℤ
  pub as_bool : Node → Try Bool
  pub as_string : Node → Try Bytes
