-- ===== src/Params/Api.antt =====
-- What FoxgloveServer.cpp uses of `foxglove::Parameter`, as an interface with its documented
-- behaviour: a parameter has a name and a typed value, and is read back as it was made.
use drivebrain_software.Base.{◌≡◌, Bool, String}
use drivebrain_software.Base.Int.{ℤ}

-- The members of `foxglove::ParameterType` that the code tests for; `parameter_other` stands for
-- the rest (not set, arrays, structs).
pub data ParameterType : Type 0 where
  parameter_bool : ParameterType
  parameter_integer : ParameterType
  parameter_double : ParameterType
  parameter_string : ParameterType
  parameter_other : ParameterType

-- `Double` is the C++ `double`. The constructors are `foxglove::Parameter(name, value)`, and the
-- last four `getValue().getValue<T>()`.
pub record ParameterApi (Double : Type 0) : Type 1 where
  pub Parameter : Type 0
  pub of_bool : String → Bool → Parameter
  pub of_int : String → ℤ → Parameter
  pub of_double : String → Double → Parameter
  pub of_string : String → String → Parameter
  pub get_name : Parameter → String
  pub get_type : Parameter → ParameterType
  pub get_bool : Parameter → Bool
  pub get_int : Parameter → ℤ
  pub get_double : Parameter → Double
  pub get_string : Parameter → String

pub record ParameterLaws {Double : Type 0} (api : ParameterApi Double) : Type 0 where
  pub type_bool : (k : String) (v : Bool) → api.get_type (api.of_bool k v) ≡ parameter_bool
  pub type_int : (k : String) (v : ℤ) → api.get_type (api.of_int k v) ≡ parameter_integer
  pub type_double : (k : String) (v : Double) → api.get_type (api.of_double k v) ≡ parameter_double
  pub type_string : (k : String) (v : String) → api.get_type (api.of_string k v) ≡ parameter_string
  pub value_bool : (k : String) (v : Bool) → api.get_bool (api.of_bool k v) ≡ v
  pub value_int : (k : String) (v : ℤ) → api.get_int (api.of_int k v) ≡ v
  pub value_double : (k : String) (v : Double) → api.get_double (api.of_double k v) ≡ v
  pub value_string : (k : String) (v : String) → api.get_string (api.of_string k v) ≡ v
