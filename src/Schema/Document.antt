-- ===== src/Schema/Document.antt =====
-- `generate_json_schema` of MCAPLogger.cpp: the JSON schema of the parameter file. The order of the
-- fields of an object, which `nlohmann::json` sorts, is left out.
use drivebrain_software.Base.{
  ◌≡◌, String, Bool, true, false, ◌&&◌, Option, none, some, str_eq, if◌then◌else◌,
}
use drivebrain_software.Floats.{Floats}
use drivebrain_software.Params.Init.{
  Json, Items, Fields, null, boolean, number_float, number_integer, string, array, object, nil,
  item, end, field,
}

module _ (n : Floats) where
  -- The object `{"type": kind}`, with what follows.
  abbrev typed : String → Fields n → Json n
  typed kind more = object (field "type" (string kind) more)

  unfoldable mutual
    pub generate_json_schema : Json n → Json n
    generate_json_schema null = typed "null" end
    generate_json_schema (boolean b) = typed "boolean" end
    generate_json_schema (number_float x) = typed "number" end
    generate_json_schema (number_integer i) = typed "integer" end
    generate_json_schema (string s) = typed "string" end
    generate_json_schema (array nil) = typed "array" end
    generate_json_schema (array (item first rest)) =
        typed "array" (field "items" (generate_json_schema first) end)
    generate_json_schema (object fields) =
        typed "object" (field "properties" (object (generate_properties fields)) end)

    pub generate_properties : Fields n → Fields n
    generate_properties end = end
    generate_properties (field key value rest) =
        field key (generate_json_schema value) (generate_properties rest)

  unfoldable pub get_field : String → Fields n → Option (Json n)
  get_field name end = none
  get_field name (field key value rest) =
      if str_eq key name then some value else get_field name rest

  -- A member of a value; `none` if the value is no object or lacks it.
  unfoldable pub member : String → Json n → Option (Json n)
  unfolding get_field
  member name (object fields) = get_field name fields
  member name _ = none

  -- What a schema says, by the JSON Schema specification: `type` names the kind of the value (an
  -- integer is also a number), `items` holds of each element of an array, and each of the
  -- `properties` of the member of that name. A keyword that is not there allows everything.
  abbrev pub kind_allows : String → Json n → Bool
  kind_allows kind null = str_eq kind "null"
  kind_allows kind (boolean b) = str_eq kind "boolean"
  kind_allows kind (number_float x) = str_eq kind "number"
  kind_allows kind (number_integer i) = if str_eq kind "integer" then true else str_eq kind "number"
  kind_allows kind (string s) = str_eq kind "string"
  kind_allows kind (array items) = str_eq kind "array"
  kind_allows kind (object fields) = str_eq kind "object"

  abbrev pub type_allows : Option (Json n) → Json n → Bool
  type_allows none value = true
  type_allows (some (string kind)) value = kind_allows kind value
  type_allows (some other) value = false

  unfoldable mutual
    pub allows : Json n → Json n → Bool
    allows null schema = type_allows (member "type" schema) null
    allows (boolean b) schema = type_allows (member "type" schema) (boolean b)
    allows (number_float x) schema = type_allows (member "type" schema) (number_float x)
    allows (number_integer i) schema = type_allows (member "type" schema) (number_integer i)
    allows (string s) schema = type_allows (member "type" schema) (string s)
    allows (array items) schema =
        type_allows (member "type" schema) (array items)
        && items_allowed items (member "items" schema)
    allows (object fields) schema =
        type_allows (member "type" schema) (object fields)
        && fields_allowed fields (member "properties" schema)

    pub items_allowed : Items n → Option (Json n) → Bool
    items_allowed nil schema = true
    items_allowed (item x xs) none = true
    items_allowed (item x xs) (some schema) = allows x schema && items_allowed xs (some schema)

    pub fields_allowed : Fields n → Option (Json n) → Bool
    fields_allowed end properties = true
    fields_allowed (field key value rest) none = true
    fields_allowed (field key value rest) (some properties) =
        elim (member key properties) [ none ↦ true | some schema ↦ allows value schema ]
        && fields_allowed rest (some properties)

  -- The keys of each object are distinct, and the elements of each array have one schema.
  unfoldable mutual
    pub IsUniform : Json n → Type 0
    IsUniform (array nil) = Unit
    IsUniform (array (item first rest)) =
        IsUniform first × ItemsUniform (generate_json_schema first) rest
    IsUniform (object fields) = FieldsUniform fields
    IsUniform _ = Unit

    pub ItemsUniform : Json n → Items n → Type 0
    ItemsUniform schema nil = Unit
    ItemsUniform schema (item x xs) =
        IsUniform x × (generate_json_schema x ≡ schema) × ItemsUniform schema xs

    pub FieldsUniform : Fields n → Type 0
    FieldsUniform end = Unit
    FieldsUniform (field key value rest) =
        IsUniform value × (get_field key rest ≡ none) × FieldsUniform rest
