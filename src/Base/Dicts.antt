-- ===== src/Base/Dicts.antt =====
-- A `std::unordered_map` keyed by texts, as an association list.
use Prim.Native.String.{String}
use mathlib.Core.Path.{◌≡◌, refl}
use mathlib.Core.Bool.{true}
use mathlib.Core.List.{List, [], ◌∷◌}
use mathlib.Core.Option.{Option, none, some}
use native.Mathlib.Omega.{arith}
use text.Mathlib.Text.{◌==◌}
use text.Mathlib.TextEquality.{eq_iff}
use text.Mathlib.TextPositions.{eq_refl}
use drivebrain_software.Base.Tests.{if◌then◌else◌}

abbrev pub Dict {ℓ} : Type ℓ → Type ℓ
Dict V = List (String × V)

module _ {ℓ} {V : Type ℓ} where
  -- `m.find(name)`
  unfoldable pub lookup : String → Dict V → Option V
  lookup name [] = none
  lookup name ((key, value) ∷ rest) = if key == name then some value else lookup name rest

  -- `m[name] = value`
  unfoldable pub insert : String → V → Dict V → Dict V
  insert name new [] = (name, new) ∷ []
  insert name new ((key, old) ∷ rest) =
      if key == name then (key, new) ∷ rest else (key, old) ∷ insert name new rest

  -- Only the name that is assigned to changes.
  pub lookup-insert :
      (name other : String) (new : V) (dict : Dict V)
      → lookup other (insert name new dict)
        ≡ (if name == other then some new else lookup other dict)
  unfolding insert lookup
  lookup-insert name other new [] = refl
  lookup-insert name other new ((key, old) ∷ rest) = ground (
    arith,
    eq_iff key name,
    eq_iff key other,
    eq_iff name other,
    lookup-insert name other new rest,
  )

  pub lookup-insert_self :
      (name : String) (new : V) (dict : Dict V) → lookup name (insert name new dict) ≡ some new
  lookup-insert_self name new dict = simp (lookup-insert, eq_refl)

pub str_eq_refl : (k : String) → (k == k) ≡ true
str_eq_refl = eq_refl
