-- ===== src/Checks/Params.antt =====
-- Runs of the parameter server.
use drivebrain_software.Base.{◌≡◌, refl, arith, String, some, List, [], ◌∷◌, foldl, lookup}
use drivebrain_software.Base.Int.{ℤ, pos}
use drivebrain_software.Floats.Micros.{micro_floats}
use drivebrain_software.Params.Db.{DbParam, int_param, float_param, wrap32, ParamMap}
use drivebrain_software.Params.Init.{init_params}
use drivebrain_software.Params.Change.{change_params, change_param, get_foxglove_parameter}
use drivebrain_software.Params.Kinds.{kind_of}
use drivebrain_software.Params.Stable.{server_types_stable}
use drivebrain_software.Params.Effect.{change_param-requested}
use drivebrain_software.Checks.Samples.{
  Value, of_whole, of_real, of_text, values, values-ParameterLaws, sample_config,
}

abbrev start : ParamMap micro_floats
start = init_params micro_floats sample_config "" []

-- A client sends a text for a float, and an integer for another float.
abbrev requests : List (List (String × Value))
requests =
    (("loadcelltorquecontroller/max_torque", of_text "high") ∷ [])
    ∷ (("loadcelltorquecontroller/max_power_kw", of_whole (pos 40)) ∷ [])
    ∷ []

server_types_stable_example :
    kind_of (
      lookup "loadcelltorquecontroller/max_torque"
        (foldl (change_params micro_floats values) start requests))
    ≡ kind_of (lookup "loadcelltorquecontroller/max_torque" start)
server_types_stable_example =
    server_types_stable values-ParameterLaws sample_config requests
      "loadcelltorquecontroller/max_torque"

abbrev small : ParamMap micro_floats
small = ("laps", int_param (pos 22)) ∷ ("scale", float_param (pos 1_500_000)) ∷ []

small-laps : lookup "laps" small ≡ some (int_param (pos 22))
unfolding lookup
small-laps = refl

change_param-requested_example :
    lookup "laps" (change_param micro_floats values small ("laps", of_real (pos 30_700_000)))
    ≡ some (int_param (pos 30))
change_param-requested_example =
    change_param-requested values values-ParameterLaws small ("laps", of_real (pos 30_700_000))
      (int_param (pos 22)) small-laps refl

fits : (i : ℤ) → ◌≡◌ {A = DbParam micro_floats} (int_param (pos 22)) (int_param i) → wrap32 i ≡ i
fits i e = ground arith

published :
    get_foxglove_parameter micro_floats values "laps" (int_param (pos 22))
    ≡ some ("laps", of_whole (pos 22))
unfolding get_foxglove_parameter
published = refl
