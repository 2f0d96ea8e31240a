-- ===== src/Params/Db.antt =====
-- The stored values, `core::DBParam`, and `FoxgloveServer::get_param`.
use drivebrain_software.Base.{
  ◌-◌, ◌%◌, ◌^◌, Bool, String, Option, none, some, ltb, if◌then◌else◌, Dict, lookup,
}
use drivebrain_software.Base.Int.{ℤ, pos, negsuc}
use drivebrain_software.Base.Text.{to_lowercase}
use drivebrain_software.Floats.{Floats}

-- The conversion of an `int64_t` to `int`, which keeps the low 32 bits.
abbrev pub wrap32 : ℤ → ℤ
wrap32 (pos m) = let r = m % 2 ^ 32 in if ltb r (2 ^ 31) then pos r else negsuc (2 ^ 32 - 1 - r)
wrap32 (negsuc m) = let r = m % 2 ^ 32 in if ltb r (2 ^ 31) then negsuc r else pos (2 ^ 32 - 1 - r)

module _ (n : Floats) where
  open n use {Float, Double}

  -- `std::variant<bool, int, float, double, std::string, std::monostate>`
  pub data DbParam : Type 0 where
    bool_param : Bool → DbParam
    int_param : ℤ → DbParam
    float_param : Float → DbParam
    double_param : Double → DbParam
    string_param : String → DbParam
    no_param : DbParam

  -- `std::get_if<T>`, for the types that the program asks for.
  abbrev pub get_if_bool : DbParam → Option Bool
  get_if_bool (bool_param b) = some b
  get_if_bool _ = none

  abbrev pub get_if_int : DbParam → Option ℤ
  get_if_int (int_param i) = some i
  get_if_int _ = none

  abbrev pub get_if_float : DbParam → Option Float
  get_if_float (float_param x) = some x
  get_if_float _ = none

  abbrev pub get_if_string : DbParam → Option String
  get_if_string (string_param s) = some s
  get_if_string _ = none

  abbrev pub ParamMap : Type 0
  ParamMap = Dict DbParam

  -- `get_param<T>(name)`: the name in lower case, `nullopt` for a missing name or another type.
  unfoldable pub get_param : {T : Type 0} → (DbParam → Option T) → ParamMap → String → Option T
  get_param get_if params name = elim (lookup (to_lowercase name) params) [
    | none ↦ none
    | some p ↦ get_if p
  ]
