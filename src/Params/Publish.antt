-- ===== src/Params/Publish.antt =====
-- The handler of parameter requests: `param.value()` is never called on an empty optional.
use drivebrain_software.Base.{
  ◌≡◌, refl, arith, inl, inr, true, String, some, List, [], ◌∷◌, foldl, All, length, lookup, insert,
  str_eq, Option-cases, Bool-cases,
}
use drivebrain_software.Floats.{Floats}
use drivebrain_software.Params.Db.{
  DbParam, bool_param, int_param, float_param, double_param, string_param, no_param, ParamMap,
}
use drivebrain_software.Params.Api.{ParameterApi, ParameterLaws}
use drivebrain_software.Params.Init.{
  Json, Fields, end, field, object, add_param, param_value, param_name, init_params,
}
use drivebrain_software.Params.Change.{
  get_foxglove_parameter, get_db_param, convert_foxglove_parameter, change_param, change_params,
}
use drivebrain_software.Params.Kinds.{kind, is_stored, convert-kind}
use drivebrain_software.Params.Stable.{param_value-is_stored}
use drivebrain_software.Params.Request.{publish_params}

module _ {n : Floats} where
  -- Every entry holds a value of a type that the server stores.
  abbrev pub IsStorable : ParamMap n → Type 0
  IsStorable m = All (λ (e : String × DbParam n). is_stored e.1 ≡ true) m

  insert-IsStorable :
      (k : String) (v : DbParam n) (m : ParamMap n)
      → is_stored v ≡ true
      → IsStorable m
      → IsStorable (insert k v m)
  unfolding insert
  insert-IsStorable k v [] ok all = (ok, tt)
  insert-IsStorable k v ((j, w) ∷ m) ok (one, rest) = elim (Bool-cases (str_eq j k)) [
    | inl same ↦ rw same (ok, rest)
    | inr other ↦ rw other (one, insert-IsStorable k v m ok rest)
  ]

  lookup-is_stored :
      (k : String) (v : DbParam n) (m : ParamMap n)
      → IsStorable m
      → lookup k m ≡ some v
      → is_stored v ≡ true
  unfolding lookup
  lookup-is_stored k v [] all found = absurd (cc)
  lookup-is_stored k v ((j, w) ∷ m) (one, rest) found =
      ground (arith, one, lookup-is_stored k v m rest)

  add_param-IsStorable :
      (name : String) (j : Json n) (m : ParamMap n)
      → IsStorable m
      → IsStorable (add_param n name (param_value n j) m)
  unfolding add_param
  add_param-IsStorable name j m all = elim (Option-cases (param_value n j)) [
    | inl bad ↦ rw (bad, add_param) all
    | inr (w, good) ↦ elim (Option-cases (lookup name m)) [
      | inl missing ↦
          rw (good, missing, add_param)
            (insert-IsStorable name w m (param_value-is_stored j w good) all)
      | inr (old, there) ↦ rw (good, there, add_param) all
    ]
  ]

  init_params-IsStorable :
      (fs : Fields n) (prefix : String) (m : ParamMap n)
      → IsStorable m
      → IsStorable (init_params n fs prefix m)
  unfolding init_params
  init_params-IsStorable end prefix m s = s
  init_params-IsStorable (field key (object inner) rest) prefix m s =
      init_params-IsStorable rest prefix _ (init_params-IsStorable inner _ m s)
  init_params-IsStorable (field key value rest) prefix m s =
      init_params-IsStorable rest prefix _
        (add_param-IsStorable (param_name n prefix key) value m s)

module _ {n : Floats} {api : ParameterApi (Floats.Double n)} (laws : ParameterLaws api) where
  open api use {Parameter, get_name}

  is_stored_of_kind : (u v : DbParam n) → kind u ≡ kind v → is_stored v ≡ true → is_stored u ≡ true
  is_stored_of_kind u v same ok = ground arith

  change_param-IsStorable :
      (m : ParamMap n) (p : Parameter) → IsStorable m → IsStorable (change_param n api m p)
  unfolding change_param
  change_param-IsStorable m p all = elim (Option-cases (lookup (get_name p) m)) [
    | inl missing ↦ rw (missing, change_param) all
    | inr (current, found) ↦
        let ok = lookup-is_stored (get_name p) current m all found in
        elim (Option-cases (convert_foxglove_parameter n api current p)) [
          | inl refused ↦ rw (found, refused, change_param) all
          | inr (c, converted) ↦
              rw (found, converted, change_param)
                (insert-IsStorable (get_name p) (get_db_param n api c) m
                  (is_stored_of_kind (get_db_param n api c) current
                    (convert-kind laws current p c ok converted) ok)
                  all)
        ]
  ]

  change_params-IsStorable :
      (m : ParamMap n) (ps : List Parameter) → IsStorable m → IsStorable (change_params n api m ps)
  unfolding change_params
  change_params-IsStorable m [] all = all
  change_params-IsStorable m (p ∷ ps) all =
      change_params-IsStorable (change_param n api m p) ps (change_param-IsStorable m p all)

  requests-IsStorable :
      (m : ParamMap n) (requests : List (List Parameter))
      → IsStorable m
      → IsStorable (foldl (change_params n api) m requests)
  requests-IsStorable m [] all = all
  requests-IsStorable m (ps ∷ rest) all =
      requests-IsStorable (change_params n api m ps) rest (change_params-IsStorable m ps all)

  get_foxglove_parameter-total :
      (k : String) (v : DbParam n)
      → is_stored v ≡ true
      → (p : Parameter) × (get_foxglove_parameter n api k v ≡ some p)
  unfolding get_foxglove_parameter
  get_foxglove_parameter-total k (bool_param b) ok = (_, refl)
  get_foxglove_parameter-total k (int_param i) ok = (_, refl)
  get_foxglove_parameter-total k (float_param x) ok = (_, refl)
  get_foxglove_parameter-total k (double_param x) ok = (_, refl)
  get_foxglove_parameter-total k (string_param s) ok = (_, refl)
  get_foxglove_parameter-total k no_param ok = absurd (cc)

  publish_params-total :
      (m : ParamMap n)
      → IsStorable m
      → (ps : List Parameter) × (publish_params n api m ≡ some ps) × (length ps ≡ length m)
  unfolding publish_params
  publish_params-total [] all = ([], refl, refl)
  publish_params-total ((k, v) ∷ m) (one, rest) =
      let (p, e) = get_foxglove_parameter-total k v one in
      let (ps, es, same) = publish_params-total m rest in
      (p ∷ ps, rw (e, es, publish_params), ground (arith, same))

  -- Whatever the configuration file and whatever clients sent before, a request for parameters is
  -- answered, with as many parameters as the server has.
  pub publish_params-init_params :
      (config : Fields n) (requests : List (List Parameter))
      → (ps : List Parameter) × (publish_params n api
            (foldl (change_params n api) (init_params n config "" []) requests)
          ≡ some ps)
        × (length ps ≡ length (foldl (change_params n api) (init_params n config "" []) requests))
  publish_params-init_params config requests =
      publish_params-total (foldl (change_params n api) (init_params n config "" []) requests) (
        requests-IsStorable (init_params n config "" []) requests
          (init_params-IsStorable config "" [] tt))
