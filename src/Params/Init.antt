-- ===== src/Params/Init.antt =====
-- `FoxgloveServer::_init_params`: the parameters of a JSON configuration, nested objects flattened
-- to names with slashes.
use Prim.Native.String.{◌++◌}
use drivebrain_software.Base.{
  Bool, String, Option, none, some, str_eq, if◌then◌else◌, lookup, insert,
}
use drivebrain_software.Base.Int.{ℤ}
use drivebrain_software.Base.Text.{to_lowercase}
use drivebrain_software.Floats.{Floats}
use drivebrain_software.Params.Db.{
  DbParam, bool_param, int_param, float_param, string_param, ParamMap, wrap32,
}

module _ (n : Floats) where
  open n use {Double, double_to_float}

  -- A parsed JSON document, with the types that `nlohmann::json` tells apart. Signed and unsigned
  -- integers are one case, as in `_init_params`.
  mutual
    pub data Json : Type 0 where
      null : Json
      boolean : Bool → Json
      number_float : Double → Json
      number_integer : ℤ → Json
      string : String → Json
      array : Items → Json
      object : Fields → Json

    pub data Items : Type 0 where
      nil : Items
      item : Json → Items → Items

    pub data Fields : Type 0 where
      end : Fields
      field : String → Json → Fields → Fields

  -- `prefix.empty() ? to_lowercase(key) : prefix + "/" + to_lowercase(key)`
  unfoldable pub param_name : String → String → String
  unfolding to_lowercase
  param_name prefix key =
      if str_eq prefix "" then to_lowercase key else prefix ++ ("/" ++ to_lowercase key)

  -- The value that a JSON leaf is stored as; `none` is "Invalid parameter config type".
  unfoldable pub param_value : Json → Option (DbParam n)
  param_value (boolean b) = some (bool_param b)
  param_value (number_float x) = some (float_param (double_to_float x))
  param_value (number_integer i) = some (int_param (wrap32 i))
  param_value (string s) = some (string_param s)
  param_value _ = none

  -- A name that is there already keeps its value.
  unfoldable pub add_param : String → Option (DbParam n) → ParamMap n → ParamMap n
  add_param name none m = m
  add_param name (some v) m = elim (lookup name m) [ some _ ↦ m | none ↦ insert name v m ]

  unfoldable pub init_params : Fields → String → ParamMap n → ParamMap n
  init_params end prefix m = m
  init_params (field key (object inner) rest) prefix m =
      init_params rest prefix (init_params inner (param_name prefix key) m)
  init_params (field key value rest) prefix m =
      init_params rest prefix (add_param (param_name prefix key) (param_value value) m)
