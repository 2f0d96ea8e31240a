-- ===== src/LoadCell/Config.antt =====
-- How parameter changes reach the controller.
use drivebrain_software.Base.{
  ◌≡◌, refl, ◌∙◌, arith, Bool, true, String, Option, none, some, List, [], foldl, lookup,
}
use drivebrain_software.Base.Text.{to_lowercase, tolower}
use drivebrain_software.Floats.{Floats}
use drivebrain_software.Params.Db.{DbParam, ParamMap, get_param, get_if_bool, get_if_float}
use drivebrain_software.Params.Api.{ParameterApi, ParameterLaws}
use drivebrain_software.Params.Init.{Fields, init_params}
use drivebrain_software.Params.Change.{change_params}
use drivebrain_software.Params.Kinds.{bool_kind, kind_of}
use drivebrain_software.Params.Stable.{server_types_stable}
use drivebrain_software.LoadCell.Defs.{
  Config, find_float, handle_param_updates, init, load_config, or_keep, map_float, init_result,
}

abbrev pub vectoring_name : String
vectoring_name = "loadcelltorquecontroller/apply_vectoring_in_regen"

module _ {n : Floats} where
  find_float_of_bool :
      (m : ParamMap n) (k : String)
      → kind_of (lookup k m) ≡ some bool_kind
      → find_float n m k ≡ none
  unfolding find_float
  find_float_of_bool m k e = ground arith

  -- While the stored parameter is a boolean, as the controller's own `init` requires, a parameter
  -- change never reaches `apply_vectoring_in_regen`: the handler asks for a `float`.
  vectoring_kept :
      (m : ParamMap n) (c : Config n)
      → kind_of (lookup vectoring_name m) ≡ some bool_kind
      → (handle_param_updates n m c).apply_vectoring_in_regen ≡ c.apply_vectoring_in_regen
  unfolding handle_param_updates
  vectoring_kept m c e = rw (find_float_of_bool m vectoring_name e)

  load_config-update :
      (a b c d e f g : Option (Floats.Float n)) (h : Option Bool) (now old : Config n)
      → (init_result n (load_config n a b c d e f g h) old).1 ≡ true
      → ◌≡◌ {A = Config n}
          (record {
            max_torque = or_keep n a now.max_torque;
            max_regen_torque = or_keep n b now.max_regen_torque;
            rear_torque_scale = or_keep n c now.rear_torque_scale;
            regen_torque_scale = or_keep n d now.regen_torque_scale;
            positive_speed_set = or_keep n e now.positive_speed_set;
            max_power_kw = or_keep n f now.max_power_kw;
            dt_rate_hz = or_keep n (map_float n n.float.to_int g) now.dt_rate_hz;
            apply_vectoring_in_regen = now.apply_vectoring_in_regen;
          })
          (record ((init_result n (load_config n a b c d e f g h) old).0) {
            apply_vectoring_in_regen = now.apply_vectoring_in_regen;
          })
  unfolding load_config
  load_config-update (some a) (some b) (some c) (some d) (some e) (some f) (some g) (some h) now old
        _ =
      refl
  load_config-update _ _ _ _ _ _ _ _ now old loaded = cc

  load_config_vectoring :
      (a b c d e f g : Option (Floats.Float n)) (h : Option Bool) (old : Config n)
      → (init_result n (load_config n a b c d e f g h) old).1 ≡ true
      → (v : Bool) × (h ≡ some v)
  unfolding load_config
  load_config_vectoring (some a) (some b) (some c) (some d) (some e) (some f) (some g) (some h) old
        _ =
      (h, refl)
  load_config_vectoring _ _ _ _ _ _ _ _ old loaded = absurd (cc)

  find_float_of_get_if_bool :
      (o : Option (DbParam n)) (v : Bool)
      → (elim o [ none ↦ none | some p ↦ get_if_bool n p ]) ≡ some v
      → (elim o [ none ↦ none | some p ↦ get_if_float n p ]) ≡ none
  find_float_of_get_if_bool o v e = ground arith

  -- On parameters that `init` accepts, the change handler leaves the configuration that a new `init`
  -- would load, but for `apply_vectoring_in_regen`, which it keeps.
  pub handle_param_updates-init :
      (m : ParamMap n) (c old : Config n)
      → (init n m old).1 ≡ true
      → handle_param_updates n m c
        ≡ record ((init n m old).0) { apply_vectoring_in_regen = c.apply_vectoring_in_regen }
  unfolding handle_param_updates init get_param find_float to_lowercase tolower
  handle_param_updates-init m c old loaded =
      let read = find_float n m in
      let a = read "loadcelltorquecontroller/max_torque" in
      let b = read "loadcelltorquecontroller/max_regen_torque" in
      let d = read "loadcelltorquecontroller/rear_torque_scale" in
      let e = read "loadcelltorquecontroller/regen_torque_scale" in
      let f = read "loadcelltorquecontroller/positive_speed_set" in
      let g = read "loadcelltorquecontroller/max_power_kw" in
      let h = read "loadcelltorquecontroller/dt_rate_hz" in
      let v = get_param n (get_if_bool n) m "LoadCellTorqueController/apply_vectoring_in_regen" in
      let (flag, is_flag) = load_config_vectoring a b d e f g h v old loaded in
      let no_float = find_float_of_get_if_bool (lookup vectoring_name m) flag is_flag in
      rw no_float (load_config-update a b d e f g h v c old loaded)

module _ {n : Floats} {api : ParameterApi (Floats.Double n)} (laws : ParameterLaws api) where
  -- If the configuration file gives a boolean for `apply_vectoring_in_regen`, then after any
  -- requests of clients, one that sets this parameter included, the change handler keeps the value
  -- that the controller has.
  pub vectoring_never_updated :
      (config : Fields n) (requests : List (List (ParameterApi.Parameter api))) (c : Config n)
      → kind_of (lookup vectoring_name (init_params n config "" [])) ≡ some bool_kind
      → (handle_param_updates n
          (foldl (change_params n api) (init_params n config "" []) requests)
          c).apply_vectoring_in_regen
        ≡ c.apply_vectoring_in_regen
  vectoring_never_updated config requests c boolean =
      vectoring_kept (foldl (change_params n api) (init_params n config "" []) requests) c
        (server_types_stable laws config requests vectoring_name ∙ boolean)
