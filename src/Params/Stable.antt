-- ===== src/Params/Stable.antt =====
-- What the change handler keeps, over any sequence of requests from any configuration file.
use drivebrain_software.Base.{
  ◌≡◌, refl, ◌∙◌, arith, true, String, Option, none, some, inl, inr, List, [], ◌∷◌, foldl, lookup,
  lookup-insert, Option-cases,
}
use drivebrain_software.Floats.{Floats}
use drivebrain_software.Params.Db.{DbParam, ParamMap}
use drivebrain_software.Params.Api.{ParameterApi, ParameterLaws}
use drivebrain_software.Params.Init.{
  Json, boolean, object, Fields, end, field, param_name, param_value, add_param, init_params,
}
use drivebrain_software.Params.Change.{change_param, change_params}
use drivebrain_software.Params.Kinds.{is_stored, kind_of, AllStored, change_param-kind}

module _ {n : Floats} where
  pub param_value-is_stored :
      (j : Json n) (v : DbParam n) → param_value n j ≡ some v → is_stored v ≡ true
  unfolding param_value
  param_value-is_stored (boolean b) v e = ground arith
  param_value-is_stored j v e = ground arith

  add_param-AllStored :
      (name : String) (j : Json n) (m : ParamMap n)
      → AllStored m
      → AllStored (add_param n name (param_value n j) m)
  unfolding add_param
  add_param-AllStored name j m stored k v e = elim (Option-cases (param_value n j)) [
    | inl bad ↦ ground (arith, stored k v)
    | inr (w, good) ↦
        ground (arith, stored k v, lookup-insert name k w m, param_value-is_stored j w good)
  ]

  -- The map that `_init_params` makes holds only booleans, integers, floats and texts.
  pub init_params-AllStored :
      (fs : Fields n) (prefix : String) (m : ParamMap n)
      → AllStored m
      → AllStored (init_params n fs prefix m)
  unfolding init_params
  init_params-AllStored end prefix m s = s
  init_params-AllStored (field key (object inner) rest) prefix m s =
      init_params-AllStored rest prefix _ (init_params-AllStored inner _ m s)
  init_params-AllStored (field key value rest) prefix m s =
      init_params-AllStored rest prefix _ (add_param-AllStored (param_name n prefix key) value m s)

  kind_of-eq-is_stored :
      (a b : Option (DbParam n)) (v : DbParam n)
      → kind_of a ≡ kind_of b
      → ((w : DbParam n) → b ≡ some w → is_stored w ≡ true)
      → a ≡ some v
      → is_stored v ≡ true
  kind_of-eq-is_stored none b v e s h = cc
  kind_of-eq-is_stored (some u) none v e s h = cc
  kind_of-eq-is_stored (some u) (some w) v e s h = ground (arith, s w refl)

module _ {n : Floats} {api : ParameterApi (Floats.Double n)} (laws : ParameterLaws api) where
  open api use {Parameter, get_name}

  change_param-AllStored :
      (m : ParamMap n) (p : Parameter) → AllStored m → AllStored (change_param n api m p)
  change_param-AllStored m p s k v =
      kind_of-eq-is_stored _ (lookup k m) v (change_param-kind laws m p k s) (s k)

  change_params-kind :
      (m : ParamMap n) (ps : List Parameter) (k : String)
      → AllStored m
      → kind_of (lookup k (change_params n api m ps)) ≡ kind_of (lookup k m)
  unfolding change_params
  change_params-kind m [] k s = refl
  change_params-kind m (p ∷ ps) k s =
      change_params-kind (change_param n api m p) ps k (change_param-AllStored m p s)
      ∙ change_param-kind laws m p k s

  requests-kind :
      (m : ParamMap n) (requests : List (List Parameter)) (k : String)
      → AllStored m
      → kind_of (lookup k (foldl (change_params n api) m requests)) ≡ kind_of (lookup k m)
  requests-kind m [] k s = refl
  requests-kind m (ps ∷ rest) k s =
      requests-kind (change_params n api m ps) rest k
        (λ j v. kind_of-eq-is_stored _ (lookup j m) v (change_params-kind m ps j s) (s j))
      ∙ change_params-kind m ps k s

  -- Whatever the configuration file and whatever clients send, a name that the file does not give
  -- stays absent, and a parameter keeps the type that the file gave it.
  pub server_types_stable :
      (config : Fields n) (requests : List (List Parameter)) (k : String)
      → let start = init_params n config "" [] in
        kind_of (lookup k (foldl (change_params n api) start requests)) ≡ kind_of (lookup k start)
  unfolding lookup
  server_types_stable config requests k =
      requests-kind (init_params n config "" []) requests k
        (init_params-AllStored config "" [] (λ j v e. cc))
