-- ===== src/Params/Request.antt =====
-- `parameterRequestHandler` of the `FoxgloveServer` constructor, and `get_all_params`.
use drivebrain_software.Base.{Option, none, some, List, [], ◌∷◌, Dict, insert}
use drivebrain_software.Floats.{Floats}
use drivebrain_software.Params.Db.{
  DbParam, bool_param, int_param, float_param, string_param, ParamMap,
}
use drivebrain_software.Params.Api.{ParameterApi}
use drivebrain_software.Params.Change.{get_foxglove_parameter}
use drivebrain_software.Params.Init.{Json, boolean, number_float, number_integer, string}

module _ (n : Floats) where
  -- The JSON value that `get_all_params` writes for a stored one; a `double` is left out.
  unfoldable pub json_of : DbParam n → Option (Json n)
  json_of (bool_param b) = some (boolean b)
  json_of (float_param x) = some (number_float (n.float_to_double x))
  json_of (int_param i) = some (number_integer i)
  json_of (string_param s) = some (string s)
  json_of _ = none

  add_json : ParamMap n → Dict (Json n) → Dict (Json n)
  add_json [] doc = doc
  add_json ((k, v) ∷ m) doc = add_json m (elim (json_of v) [ none ↦ doc | some j ↦ insert k j doc ])

  -- `get_all_params`: the object starts with `"type": "object"`.
  unfoldable pub get_all_params : ParamMap n → Dict (Json n)
  unfolding add_json
  get_all_params m = add_json m (("type", string "object") ∷ [])

  module _ (api : ParameterApi (Floats.Double n)) where
    open api use {Parameter}

    -- The handler publishes every parameter, whatever names were asked for. `none` is the exception
    -- of `param.value()`.
    unfoldable pub publish_params : ParamMap n → Option (List Parameter)
    publish_params [] = some []
    publish_params ((k, v) ∷ m) = elim (get_foxglove_parameter n api k v) [
      | none ↦ none
      | some p ↦ elim (publish_params m) [ none ↦ none | some ps ↦ some (p ∷ ps) ]
    ]
