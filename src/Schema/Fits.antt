-- ===== src/Schema/Fits.antt =====
-- What a generated schema allows, in terms of the documents alone.
use drivebrain_software.Base.{
  ◌≡◌, refl, ap, ◌∙◌, String, Bool, true, ◌&&◌, Option, none, some, str_eq, Bool-cases, inl, inr,
}
use drivebrain_software.Floats.{Floats}
use drivebrain_software.Params.Init.{
  Json, Items, Fields, null, boolean, number_float, number_integer, string, array, object, nil,
  item, end, field,
}
use drivebrain_software.Schema.Document.{
  generate_json_schema, generate_properties, get_field, member, kind_allows, type_allows, allows,
  items_allowed, fields_allowed,
}

module _ {n : Floats} where
  -- What the first document shows of the values that it is a pattern for.
  abbrev kind_name : Json n → String
  kind_name null = "null"
  kind_name (boolean b) = "boolean"
  kind_name (number_float x) = "number"
  kind_name (number_integer i) = "integer"
  kind_name (string s) = "string"
  kind_name (array items) = "array"
  kind_name (object fields) = "object"

  abbrev first_of : Json n → Option (Json n)
  first_of (array (item first rest)) = some first
  first_of _ = none

  abbrev fields_of : Json n → Option (Fields n)
  fields_of (object fields) = some fields
  fields_of _ = none

  -- Whether a value has the shape of a document: it is of the document's kind, where an integer is
  -- also a number; the elements of an array have the shape of the first element of the document, if
  -- that has one; and each field of an object has the shape of the document's field of that name, if
  -- there is one.
  unfoldable mutual
    pub fits : Json n → Json n → Bool
    fits doc null = kind_allows n (kind_name doc) null
    fits doc (boolean b) = kind_allows n (kind_name doc) (boolean b)
    fits doc (number_float x) = kind_allows n (kind_name doc) (number_float x)
    fits doc (number_integer i) = kind_allows n (kind_name doc) (number_integer i)
    fits doc (string s) = kind_allows n (kind_name doc) (string s)
    fits doc (array items) =
        kind_allows n (kind_name doc) (array items) && items_fit (first_of doc) items
    fits doc (object fields) =
        kind_allows n (kind_name doc) (object fields) && fields_fit (fields_of doc) fields

    pub items_fit : Option (Json n) → Items n → Bool
    items_fit first nil = true
    items_fit none (item x xs) = true
    items_fit (some first) (item x xs) = fits first x && items_fit (some first) xs

    pub fields_fit : Option (Fields n) → Fields n → Bool
    fields_fit pattern end = true
    fields_fit none (field key value rest) = true
    fields_fit (some pattern) (field key value rest) =
        elim (get_field n key pattern) [ none ↦ true | some doc ↦ fits doc value ]
        && fields_fit (some pattern) rest

  type-generate :
      (doc : Json n) → member n "type" (generate_json_schema n doc) ≡ some (string (kind_name doc))
  unfolding member get_field generate_json_schema
  type-generate null = refl
  type-generate (boolean b) = refl
  type-generate (number_float x) = refl
  type-generate (number_integer i) = refl
  type-generate (string s) = refl
  type-generate (array nil) = refl
  type-generate (array (item first rest)) = refl
  type-generate (object fields) = refl

  generated : Option (Json n) → Option (Json n)
  generated none = none
  generated (some doc) = some (generate_json_schema n doc)

  all_generated : Option (Fields n) → Option (Json n)
  all_generated none = none
  all_generated (some fields) = some (object (generate_properties n fields))

  items-generate :
      (doc : Json n) → member n "items" (generate_json_schema n doc) ≡ generated (first_of doc)
  unfolding member get_field generate_json_schema generated
  items-generate null = refl
  items-generate (boolean b) = refl
  items-generate (number_float x) = refl
  items-generate (number_integer i) = refl
  items-generate (string s) = refl
  items-generate (array nil) = refl
  items-generate (array (item first rest)) = refl
  items-generate (object fields) = refl

  properties-generate :
      (doc : Json n)
      → member n "properties" (generate_json_schema n doc) ≡ all_generated (fields_of doc)
  unfolding member get_field generate_json_schema all_generated
  properties-generate null = refl
  properties-generate (boolean b) = refl
  properties-generate (number_float x) = refl
  properties-generate (number_integer i) = refl
  properties-generate (string s) = refl
  properties-generate (array nil) = refl
  properties-generate (array (item first rest)) = refl
  properties-generate (object fields) = refl

  get_field-generate :
      (key : String) (fields : Fields n)
      → get_field n key (generate_properties n fields) ≡ generated (get_field n key fields)
  unfolding get_field generate_properties generated
  get_field-generate key end = refl
  get_field-generate key (field k v rest) = elim (Bool-cases (str_eq k key)) [
    | inl same ↦ rw same refl
    | inr other ↦ rw other (get_field-generate key rest)
  ]

  member-fits :
      (value : Json n) (o : Option (Json n))
      → ((doc : Json n) → allows n value (generate_json_schema n doc) ≡ fits doc value)
      → elim (generated o) [ none ↦ true | some schema ↦ allows n value schema ]
        ≡ elim o [ none ↦ true | some doc ↦ fits doc value ]
  unfolding generated
  member-fits value none same = refl
  member-fits value (some doc) same = same doc

  mutual
    unfolding allows fits generated all_generated member

    allows-fits :
        (value doc : Json n) → allows n value (generate_json_schema n doc) ≡ fits doc value
    allows-fits null doc = ap (λ o. type_allows n o null) (type-generate doc)
    allows-fits (boolean b) doc = ap (λ o. type_allows n o (boolean b)) (type-generate doc)
    allows-fits (number_float x) doc =
        ap (λ o. type_allows n o (number_float x)) (type-generate doc)
    allows-fits (number_integer i) doc =
        ap (λ o. type_allows n o (number_integer i)) (type-generate doc)
    allows-fits (string s) doc = ap (λ o. type_allows n o (string s)) (type-generate doc)
    allows-fits (array items) doc =
        ap
          (λ o.
            type_allows n o (array items)
            && items_allowed n items (member n "items" (generate_json_schema n doc)))
          (type-generate doc)
        ∙ ap (λ o. kind_allows n (kind_name doc) (array items) && items_allowed n items o)
            (items-generate doc)
        ∙ ap (λ b. kind_allows n (kind_name doc) (array items) && b)
            (items-fit items (first_of doc))
    allows-fits (object fields) doc =
        ap
          (λ o.
            type_allows n o (object fields)
            && fields_allowed n fields (member n "properties" (generate_json_schema n doc)))
          (type-generate doc)
        ∙ ap (λ o. kind_allows n (kind_name doc) (object fields) && fields_allowed n fields o)
            (properties-generate doc)
        ∙ ap (λ b. kind_allows n (kind_name doc) (object fields) && b)
            (fields-fit fields (fields_of doc))

    items-fit :
        (items : Items n) (o : Option (Json n))
        → items_allowed n items (generated o) ≡ items_fit o items
    items-fit nil o = refl
    items-fit (item x xs) none = refl
    items-fit (item x xs) (some first) =
        ap (λ b. b && items_allowed n xs (generated (some first))) (allows-fits x first)
        ∙ ap (λ b. fits first x && b) (items-fit xs (some first))

    fields-fit :
        (fields : Fields n) (o : Option (Fields n))
        → fields_allowed n fields (all_generated o) ≡ fields_fit o fields
    fields-fit end o = refl
    fields-fit (field key value rest) none = refl
    fields-fit (field key value rest) (some pattern) =
        ap
          (λ (o : Option (Json n)).
            elim o [ none ↦ true | some schema ↦ allows n value schema ]
            && fields_allowed n rest (all_generated (some pattern)))
          (get_field-generate key pattern)
        ∙ ap (λ b. b && fields_allowed n rest (all_generated (some pattern)))
            (member-fits value (get_field n key pattern) (λ doc. allows-fits value doc))
        ∙ ap (λ b. elim (get_field n key pattern) [ none ↦ true | some doc ↦ fits doc value ] && b)
            (fields-fit rest (some pattern))

  -- The schema that is made of a document allows exactly the values that have the document's shape, by
  -- what the JSON Schema specification says of `type`, `items` and `properties`.
  pub allows-generate_json_schema_eq :
      (doc value : Json n) → allows n value (generate_json_schema n doc) ≡ fits doc value
  allows-generate_json_schema_eq doc value = allows-fits value doc
