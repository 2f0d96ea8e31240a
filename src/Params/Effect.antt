-- ===== src/Params/Effect.antt =====
-- What one change request does to the map, against a table written by the types alone; which names
-- it leaves alone; and the round trip between stored and published values.
use drivebrain_software.Base.{
  ◌≡◌, ◌≢◌, refl, ◌∙◌, ap, arith, true, String, Option, none, some, inl, inr, List, [], ◌∷◌, All,
  eq_iff, lookup, lookup-insert, lookup-insert_self, Option-cases,
}
use drivebrain_software.Base.Int.{ℤ}
use drivebrain_software.Base.Text.{to_lowercase, to_lowercase_idem}
use drivebrain_software.Floats.{Floats}
use drivebrain_software.Params.Db.{
  DbParam, bool_param, int_param, float_param, double_param, string_param, no_param, ParamMap,
  get_param, wrap32,
}
use drivebrain_software.Params.Api.{
  ParameterApi, ParameterLaws, ParameterType, parameter_bool, parameter_integer, parameter_double,
  parameter_string,
}
use drivebrain_software.Params.Change.{
  get_foxglove_parameter, get_db_param, convert_foxglove_parameter, change_param, change_params,
}
use drivebrain_software.Params.Kinds.{is_stored}

-- A name and its lower-case form are the same to `get_param`.
pub get_param_case :
    {n : Floats} {T : Type 0} (get_if : DbParam n → Option T) (m : ParamMap n) (name : String)
    → get_param n get_if m (to_lowercase name) ≡ get_param n get_if m name
unfolding get_param
get_param_case get_if m name = rw (to_lowercase_idem name, get_param)

module _ {n : Floats} (api : ParameterApi (Floats.Double n)) where
  open n use {Float, double_to_float, double}
  open api use {Parameter, get_name, get_type, get_bool, get_int, get_double, get_string}

  -- The value that a request should leave: numbers are converted to the type of the parameter, and
  -- any other change of type is ignored.
  abbrev pub requested : DbParam n → Parameter → ParameterType → DbParam n
  requested (bool_param _) p parameter_bool = bool_param (get_bool p)
  requested (int_param _) p parameter_integer = int_param (wrap32 (get_int p))
  requested (int_param _) p parameter_double = int_param (wrap32 (double.to_int (get_double p)))
  requested (float_param _) p parameter_double = float_param (double_to_float (get_double p))
  requested (float_param _) p parameter_integer =
      float_param (double_to_float (double.of_int (get_int p)))
  requested (string_param _) p parameter_string = string_param (get_string p)
  requested current _ _ = current

  change_param_of_found :
      (m : ParamMap n) (p : Parameter) (current : DbParam n)
      → lookup (get_name p) m ≡ some current
      → lookup (get_name p) (change_param n api m p)
        ≡ some (elim (convert_foxglove_parameter n api current p) [
          | none ↦ current
          | some c ↦ get_db_param n api c
        ])
  unfolding change_param
  change_param_of_found m p current found =
      elim (Option-cases (convert_foxglove_parameter n api current p)) [
        | inl refused ↦ ground arith
        | inr (c, converted) ↦
            ground (arith, lookup-insert_self (get_name p) (get_db_param n api c) m)
      ]

  module _ (laws : ParameterLaws api) where
    open laws use {
      type_bool, type_int, type_double, type_string, value_bool, value_int, value_double,
      value_string,
    }

    convert-requested :
        (current : DbParam n) (p : Parameter)
        → is_stored current ≡ true
        → (elim (convert_foxglove_parameter n api current p) [
          | none ↦ current
          | some c ↦ get_db_param n api c
        ])
          ≡ requested current p (get_type p)
    unfolding convert_foxglove_parameter get_db_param
    convert-requested (bool_param b) p s = ground (arith, type_bool (get_name p) b)
    convert-requested (int_param i) p s =
        let named = get_name (api.of_int (get_name p) i) in
        ground (
          arith,
          type_int (get_name p) i,
          type_int named (double.to_int (get_double p)),
          value_int named (double.to_int (get_double p)),
        )
    convert-requested (float_param x) p s =
        let named = get_name (api.of_double (get_name p) (n.float_to_double x)) in
        ground (
          arith,
          type_double (get_name p) (n.float_to_double x),
          type_double named (double.of_int (get_int p)),
          value_double named (double.of_int (get_int p)),
        )
    convert-requested (double_param x) p s = cc
    convert-requested (string_param t) p s = ground (arith, type_string (get_name p) t)
    convert-requested no_param p s = cc

    -- A request for a known parameter leaves exactly the value that the table `requested` gives: a
    -- value of the parameter's own type, an integer or a double converted to the other of the two
    -- number types, or the value from before.
    pub change_param-requested :
        (m : ParamMap n) (p : Parameter) (current : DbParam n)
        → lookup (get_name p) m ≡ some current
        → is_stored current ≡ true
        → lookup (get_name p) (change_param n api m p) ≡ some (requested current p (get_type p))
    change_param-requested m p current found s =
        change_param_of_found m p current found ∙ ap some (convert-requested current p s)

    -- Publishing a stored value and reading it back gives the value, if the integer is an `int` and
    -- the float survives the way through `double`.
    pub get_db_param-get_foxglove_parameter :
        (k : String) (v : DbParam n) (p : Parameter)
        → is_stored v ≡ true
        → ((i : ℤ) → v ≡ int_param i → wrap32 i ≡ i)
        → ((x : Float) → v ≡ float_param x → double_to_float (n.float_to_double x) ≡ x)
        → get_foxglove_parameter n api k v ≡ some p
        → get_db_param n api p ≡ v
    unfolding get_foxglove_parameter get_db_param
    get_db_param-get_foxglove_parameter k (bool_param b) p s fits exact e =
        ground (arith, type_bool k b, value_bool k b)
    get_db_param-get_foxglove_parameter k (int_param i) p s fits exact e =
        ground (arith, type_int k i, value_int k i, fits i refl)
    get_db_param-get_foxglove_parameter k (float_param x) p s fits exact e = ground (
      arith,
      type_double k (n.float_to_double x),
      value_double k (n.float_to_double x),
      exact x refl,
    )
    get_db_param-get_foxglove_parameter k (double_param x) p s fits exact e = cc
    get_db_param-get_foxglove_parameter k (string_param t) p s fits exact e =
        ground (arith, type_string k t, value_string k t)
    get_db_param-get_foxglove_parameter k no_param p s fits exact e = cc

  change_param-other :
      (m : ParamMap n) (p : Parameter) (k : String)
      → get_name p ≢ k
      → lookup k (change_param n api m p) ≡ lookup k m
  unfolding change_param
  change_param-other m p k ne = elim (Option-cases (lookup (get_name p) m)) [
    | inl missing ↦ ground arith
    | inr (current, found) ↦ elim (Option-cases (convert_foxglove_parameter n api current p)) [
      | inl refused ↦ ground arith
      | inr (c, converted) ↦
          ground
            (arith, lookup-insert (get_name p) k (get_db_param n api c) m, eq_iff (get_name p) k)
    ]
  ]

  -- A parameter that a request does not name keeps its value.
  pub change_params-other :
      (m : ParamMap n) (ps : List Parameter) (k : String)
      → All (λ p. get_name p ≢ k) ps
      → lookup k (change_params n api m ps) ≡ lookup k m
  unfolding change_params
  change_params-other m [] k ne = refl
  change_params-other m (p ∷ ps) k ne =
      change_params-other (change_param n api m p) ps k ne.1 ∙ change_param-other m p k ne.0
