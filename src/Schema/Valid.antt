-- ===== src/Schema/Valid.antt =====
-- The schema that `generate_json_schema` makes of a document allows the document.
use drivebrain_software.Base.{
  ◌≡◌, refl, inl, inr, arith, String, true, none, some, str_eq, eq_iff, Bool-cases,
}
use drivebrain_software.Floats.{Floats}
use drivebrain_software.Params.Init.{
  Json, Items, Fields, null, boolean, number_float, number_integer, string, array, object, nil,
  item, end, field,
}
use drivebrain_software.Schema.Document.{
  generate_json_schema, generate_properties, get_field, member, allows, items_allowed,
  fields_allowed, IsUniform, ItemsUniform, FieldsUniform,
}

module _ {n : Floats} where
  -- Every field of the first object is the one that a search in the second finds.
  FoundIn : Fields n → Fields n → Type 0
  FoundIn end all = Unit
  FoundIn (field key value rest) all = (get_field n key all ≡ some value) × FoundIn rest all

  FoundIn-field :
      (rest all : Fields n) (key : String) (value : Json n)
      → get_field n key rest ≡ none
      → FoundIn rest all
      → FoundIn rest (field key value all)
  unfolding FoundIn get_field
  FoundIn-field end all key value fresh found = tt
  FoundIn-field (field k v rest) all key value fresh (here, found) = (
    ground (arith, eq_iff k key, eq_iff key k, fresh, here),
    FoundIn-field rest all key value (ground (arith, fresh)) found,
  )

  FoundIn-self : (fields : Fields n) → FieldsUniform n fields → FoundIn fields fields
  unfolding FoundIn get_field FieldsUniform
  FoundIn-self end u = tt
  FoundIn-self (field key value rest) (_, fresh, u) = (
    ground (arith, eq_iff key key),
    FoundIn-field rest rest key value fresh (FoundIn-self rest u),
  )

  get_field-generate :
      (key : String) (value : Json n) (fields : Fields n)
      → get_field n key fields ≡ some value
      → get_field n key (generate_properties n fields) ≡ some (generate_json_schema n value)
  unfolding get_field generate_properties
  get_field-generate key value end found = cc
  get_field-generate key value (field k v rest) found = elim (Bool-cases (str_eq k key)) [
    | inl same ↦ rw same (ground (arith, same, found))
    | inr other ↦ rw other (get_field-generate key value rest (rw other at found))
  ]

  mutual
    unfolding generate_json_schema allows member get_field IsUniform FoundIn

    allows-generate :
        (doc : Json n) → IsUniform n doc → allows n doc (generate_json_schema n doc) ≡ true
    allows-generate null u = refl
    allows-generate (boolean b) u = refl
    allows-generate (number_float x) u = refl
    allows-generate (number_integer i) u = refl
    allows-generate (string s) u = refl
    allows-generate (array nil) u = refl
    allows-generate (array (item first rest)) (u, us) =
        rw (allows-generate first u) (items-generate rest (generate_json_schema n first) us)
    allows-generate (object fields) u = fields-generate fields fields u (FoundIn-self fields u)

    items-generate :
        (xs : Items n) (schema : Json n)
        → ItemsUniform n schema xs
        → items_allowed n xs (some schema) ≡ true
    items-generate nil schema u = refl
    items-generate (item x xs) schema (u, same, us) =
        rw (← same) (rw (allows-generate x u) (rw same (items-generate xs schema us)))

    fields-generate :
        (fields all : Fields n)
        → FieldsUniform n fields
        → FoundIn fields all
        → fields_allowed n fields (some (object (generate_properties n all))) ≡ true
    fields-generate end all u found = refl
    fields-generate (field key value rest) all (u, fresh, us) found =
        rw (get_field-generate key value all found.0)
          (rw (allows-generate value u) (fields-generate rest all us found.1))

  -- The schema that is made of a parameter file allows the file, by what the JSON Schema
  -- specification says of `type`, `items` and `properties`, if the keys of every object are distinct
  -- and the elements of every array have the schema of its first.
  pub allows-generate_json_schema :
      (doc : Json n) → IsUniform n doc → allows n doc (generate_json_schema n doc) ≡ true
  allows-generate_json_schema doc u = allows-generate doc u
