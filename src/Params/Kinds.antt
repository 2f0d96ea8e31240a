-- ===== src/Params/Kinds.antt =====
-- The alternative of the variant that a stored parameter holds.
use drivebrain_software.Base.{
  ◌≡◌, inl, inr, arith, Bool, true, false, String, Option, none, some, eq_iff, lookup,
  lookup-insert, Option-cases,
}
use drivebrain_software.Floats.{Floats}
use drivebrain_software.Params.Db.{
  DbParam, bool_param, int_param, float_param, double_param, string_param, no_param, ParamMap,
}
use drivebrain_software.Params.Api.{ParameterApi, ParameterLaws}
use drivebrain_software.Params.Change.{convert_foxglove_parameter, get_db_param, change_param}

pub data Kind : Type 0 where
  bool_kind : Kind
  int_kind : Kind
  float_kind : Kind
  double_kind : Kind
  string_kind : Kind
  no_kind : Kind

module _ {n : Floats} where
  abbrev pub kind : DbParam n → Kind
  kind (bool_param _) = bool_kind
  kind (int_param _) = int_kind
  kind (float_param _) = float_kind
  kind (double_param _) = double_kind
  kind (string_param _) = string_kind
  kind no_param = no_kind

  -- What `_init_params` stores.
  abbrev pub is_stored : DbParam n → Bool
  is_stored (double_param _) = false
  is_stored no_param = false
  is_stored _ = true

  abbrev pub kind_of : Option (DbParam n) → Option Kind
  kind_of none = none
  kind_of (some p) = some (kind p)

  abbrev pub AllStored : ParamMap n → Type 0
  AllStored m = (k : String) (v : DbParam n) → lookup k m ≡ some v → is_stored v ≡ true

module _ {n : Floats} {api : ParameterApi (Floats.Double n)} (laws : ParameterLaws api) where
  open api use {Parameter, get_name, get_type}
  open laws use {type_bool, type_int, type_double, type_string}

  pub convert-kind :
      (current : DbParam n) (p c : Parameter)
      → is_stored current ≡ true
      → convert_foxglove_parameter n api current p ≡ some c
      → kind (get_db_param n api c) ≡ kind current
  unfolding convert_foxglove_parameter get_db_param
  convert-kind (bool_param b) p c s e = ground (arith, type_bool (get_name p) b)
  convert-kind (int_param b) p c s e = ground (
    arith,
    type_int (get_name p) b,
    type_int (get_name (api.of_int (get_name p) b)) (n.double.to_int (api.get_double p)),
  )
  convert-kind (float_param b) p c s e = ground (
    arith,
    type_double (get_name p) (n.float_to_double b),
    type_double (get_name (api.of_double (get_name p) (n.float_to_double b)))
        (n.double.of_int (api.get_int p)),
  )
  convert-kind (double_param b) p c s e = cc
  convert-kind (string_param b) p c s e = ground (arith, type_string (get_name p) b)
  convert-kind no_param p c s e = cc

  -- One change keeps the alternative that each name holds.
  pub change_param-kind :
      (m : ParamMap n) (p : Parameter) (k : String)
      → AllStored m
      → kind_of (lookup k (change_param n api m p)) ≡ kind_of (lookup k m)
  unfolding change_param
  change_param-kind m p k stored = elim (Option-cases (lookup (get_name p) m)) [
    | inl missing ↦ ground arith
    | inr (current, found) ↦ elim (Option-cases (convert_foxglove_parameter n api current p)) [
      | inl refused ↦ ground arith
      | inr (c, converted) ↦ ground (
        arith,
        lookup-insert (get_name p) k (get_db_param n api c) m,
        eq_iff (get_name p) k,
        convert-kind current p c (stored (get_name p) current found) converted,
      )
    ]
  ]
