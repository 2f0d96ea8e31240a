-- ===== src/Params/Change.antt =====
-- `parameterChangeHandler` of the `FoxgloveServer` constructor, with the three conversions between
-- `DBParam` and `foxglove::Parameter` that it calls.
use drivebrain_software.Base.{List, [], ◌∷◌, Option, none, some, String, lookup, insert}
use drivebrain_software.Floats.{Floats}
use drivebrain_software.Params.Db.{
  DbParam, bool_param, int_param, float_param, double_param, string_param, no_param, ParamMap,
  wrap32,
}
use drivebrain_software.Params.Api.{
  ParameterApi, ParameterType, parameter_bool, parameter_integer, parameter_double,
  parameter_string, parameter_other,
}

module _ (n : Floats) (api : ParameterApi (Floats.Double n)) where
  open n use {Float, Double, double, float_to_double, double_to_float}
  open api use {
    Parameter, of_bool, of_int, of_double, of_string, get_name, get_type, get_bool, get_int,
    get_double, get_string,
  }

  -- `_get_foxglove_parameter`
  unfoldable pub get_foxglove_parameter : String → DbParam n → Option Parameter
  get_foxglove_parameter k (bool_param b) = some (of_bool k b)
  get_foxglove_parameter k (int_param i) = some (of_int k i)
  get_foxglove_parameter k (float_param x) = some (of_double k (float_to_double x))
  get_foxglove_parameter k (double_param x) = some (of_double k x)
  get_foxglove_parameter k (string_param s) = some (of_string k s)
  get_foxglove_parameter k no_param = none

  -- `_get_db_param`: the tests of the type in the source's order.
  unfoldable pub get_db_param : Parameter → DbParam n
  get_db_param p = elim (get_type p) [
    | parameter_bool ↦ bool_param (get_bool p)
    | parameter_integer ↦ int_param (wrap32 (get_int p))
    | parameter_double ↦ float_param (double_to_float (get_double p))
    | parameter_string ↦ string_param (get_string p)
    | parameter_other ↦ no_param
  ]

  -- The last four branches of `_convert_foxglove_parameter`, by the types of the current value
  -- `cur`, as a `foxglove::Parameter`, and of the incoming one.
  convert_by_type : Parameter → Parameter → ParameterType → ParameterType → Option Parameter
  convert_by_type cur incoming parameter_bool parameter_bool = some incoming
  convert_by_type cur incoming parameter_integer parameter_integer = some incoming
  convert_by_type cur incoming parameter_double parameter_double = some incoming
  convert_by_type cur incoming parameter_string parameter_string = some incoming
  convert_by_type cur incoming parameter_other parameter_other = some incoming
  convert_by_type cur incoming parameter_integer parameter_double =
      some (of_int (get_name cur) (double.to_int (get_double incoming)))
  convert_by_type cur incoming parameter_double parameter_integer =
      some (of_double (get_name cur) (double.of_int (get_int incoming)))
  convert_by_type _ _ _ _ = none

  -- `_convert_foxglove_parameter`
  unfoldable pub convert_foxglove_parameter : DbParam n → Parameter → Option Parameter
  unfolding get_foxglove_parameter convert_by_type
  convert_foxglove_parameter current incoming =
      elim (get_foxglove_parameter (get_name incoming) current) [
        | none ↦ none
        | some cur ↦ convert_by_type cur incoming (get_type cur) (get_type incoming)
      ]

  -- The body of the handler's loop for one incoming parameter.
  unfoldable pub change_param : ParamMap n → Parameter → ParamMap n
  unfolding convert_foxglove_parameter get_db_param
  change_param m p = elim (lookup (get_name p) m) [
    | none ↦ m
    | some current ↦ elim (convert_foxglove_parameter current p) [
      | none ↦ m
      | some converted ↦ insert (get_name p) (get_db_param converted) m
    ]
  ]

  -- The whole loop. The handler then logs all parameters and hands a copy of the map to the
  -- registered callbacks.
  unfoldable pub change_params : ParamMap n → List Parameter → ParamMap n
  change_params m [] = m
  change_params m (p ∷ ps) = change_params (change_param m p) ps
