-- ===== src/Generator.antt =====
-- pkg/cvt/generator.go: the values that are generated for a schema. A document's schemas form a graph
-- of pointers, which may have cycles; it is a function from pointers to schemas. The faker is the
-- package's, with its state passed through, and so are floating-point numbers and machine integers.
-- A request for a value at depth d is one with 11 - d levels left, since the code stops where the
-- depth exceeds 10. The least number of items is one that an `int` holds.
mod Bounded
mod Fixture
mod Response
pub mod Status
mod Tests
use cvt.Base.{
  ℕ, zero, suc, String, List, [], ◌∷◌, Bool, true, false, ◌&&◌, ◌||◌, Option, none, some, ltb,
  if◌then◌else◌,
}
use text.Mathlib.Text.{◌==◌}
use cvt.Base.Dict.{Dict, get, keys}
use cvt.Base.Sorting.{sort}

-- Go's `interface{}` as JSON values: an object is a map.
mutual
  pub data Value (Num Int : Type 0) : Type 0 where
    null : Value Num Int
    string : String → Value Num Int
    integer : Int → Value Num Int
    number : Num → Value Num Int
    boolean : Bool → Value Num Int
    array : Values Num Int → Value Num Int
    object : Fields Num Int → Value Num Int

  pub data Values (Num Int : Type 0) : Type 0 where
    no_values : Values Num Int
    value : Value Num Int → Values Num Int → Values Num Int

  pub data Fields (Num Int : Type 0) : Type 0 where
    no_fields : Fields Num Int
    field : String → Value Num Int → Fields Num Int → Fields Num Int

-- A pointer to a schema that may be nil.
abbrev pub SchemaRef : Type 0
SchemaRef = Option ℕ

pub record Schema (Num Int : Type 0) : Type 0 where
  pub example : Option (Value Num Int)
  pub all_of : List SchemaRef
  pub one_of : List SchemaRef
  pub any_of : List SchemaRef
  pub types : List String
  pub properties : Dict SchemaRef
  pub additional_properties : SchemaRef
  pub items : SchemaRef
  pub min_items : ℕ
  pub enum : List (Value Num Int)
  pub format : String
  pub pattern : String
  pub min : Option Num
  pub max : Option Num

-- The texts that the faker makes.
pub data TextKind : Type 0 where
  date date_time email url uuid domain_name ipv4_address ipv6_address six_letters word : TextKind

-- The faker, the conversions of numbers and of texts, and the constants of `generateInteger` and
-- `generateNumber`: 1 and 1000, 0.01 and 999.99.
pub record Faker (F Num Int : Type 0) : Type 0 where
  pub draw_text : TextKind → F → String × F
  pub draw_int : Int → Int → F → Int × F
  pub draw_number : Num → Num → F → Num × F
  pub draw_bool : F → Bool × F
  pub to_int : Num → Int
  pub show : Value Num Int → String
  pub base64 : String → String
  pub int_min : Int
  pub int_max : Int
  pub int_add_1000 : Int → Int
  pub number_min : Num
  pub number_max : Num
  pub number_add_1000 : Num → Num

module _ {Num Int : Type 0} where
  -- `m[k] = v`.
  unfoldable pub put_field : String → Value Num Int → Fields Num Int → Fields Num Int
  put_field k v no_fields = field k v no_fields
  put_field k v (field j w fs) = if j == k then field j v fs else field j w (put_field k v fs)

  unfoldable pub put_fields : Fields Num Int → Fields Num Int → Fields Num Int
  put_fields no_fields fs = fs
  put_fields (field k v es) fs = put_fields es (put_field k v fs)

  -- What of a value `generateAllOf` takes: the fields of an object.
  abbrev pub merge : Value Num Int → Fields Num Int → Fields Num Int
  merge (object es) fs = put_fields es fs
  merge null fs = fs
  merge (string t) fs = fs
  merge (integer i) fs = fs
  merge (number n) fs = fs
  merge (boolean b) fs = fs
  merge (array vs) fs = fs

module _ {F Num Int : Type 0} (faker : Faker F Num Int) where
  -- The texts of a format, none for a format that is not known.
  unfoldable pub format_text : String → F → Option (String × F)
  format_text format s =
      if format == "date"
      then some (faker.draw_text date s)
      else (if format == "date-time"
          then some (faker.draw_text date_time s)
          else (if format == "email"
              then some (faker.draw_text email s)
              else (if format == "uri" || format == "url"
                  then some (faker.draw_text url s)
                  else (if format == "uuid"
                      then some (faker.draw_text uuid s)
                      else (if format == "hostname"
                          then some (faker.draw_text domain_name s)
                          else (if format == "ipv4"
                              then some (faker.draw_text ipv4_address s)
                              else (if format == "ipv6"
                                  then some (faker.draw_text ipv6_address s)
                                  else (if format == "byte"
                                      then (let (letters, s') = faker.draw_text six_letters s in
                                          some (faker.base64 letters, s'))
                                      else (if format == "binary"
                                          then some ("binary-data", s)
                                          else (if format == "password"
                                              then some ("********", s)
                                              else none))))))))))

  unfoldable pub generate_string : Schema Num Int → F → String × F
  generate_string schema s = elim schema.enum [
    | e ∷ es ↦ (faker.show e, s)
    | [] ↦ elim (format_text schema.format s) [
      | some drawn ↦ drawn
      | none ↦ if schema.pattern == "" then faker.draw_text word s else ("pattern-value", s)
    ]
  ]

  -- The numbers of an enumeration are floating-point.
  abbrev pub first_number : List (Value Num Int) → Option Num
  first_number (number n ∷ vs) = some n
  first_number vs = none

  unfoldable pub generate_integer : Schema Num Int → F → Int × F
  generate_integer schema s = elim (first_number schema.enum) [
    | some n ↦ (faker.to_int n, s)
    | none ↦
        let min : Int = elim schema.min [ none ↦ faker.int_min | some n ↦ faker.to_int n ] in
        let max : Int = elim schema.max [
          | some n ↦ faker.to_int n
          | none ↦ elim schema.min [ none ↦ faker.int_max | some n ↦ faker.int_add_1000 min ]
        ] in
        faker.draw_int min max s
  ]

  unfoldable pub generate_number : Schema Num Int → F → Num × F
  generate_number schema s = elim (first_number schema.enum) [
    | some n ↦ (n, s)
    | none ↦
        let min : Num = elim schema.min [ none ↦ faker.number_min | some n ↦ n ] in
        let max : Num = elim schema.max [
          | some n ↦ n
          | none ↦ elim schema.min [ none ↦ faker.number_max | some n ↦ faker.number_add_1000 n ]
        ] in
        faker.draw_number min max s
  ]

  abbrev pub first_boolean : List (Value Num Int) → Option Bool
  first_boolean (boolean b ∷ vs) = some b
  first_boolean vs = none

  unfoldable pub generate_boolean : Schema Num Int → F → Bool × F
  generate_boolean schema s = elim (first_boolean schema.enum) [
    | some b ↦ (b, s)
    | none ↦ faker.draw_bool s
  ]

  -- What is made as a value, with the state.
  abbrev pub made {ℓ} : {A : Type ℓ} → (A → Value Num Int) → A × F → Value Num Int × F
  made as_value (a, s) = (as_value a, s)

  -- The parts below take the generation of a value one level further down.
  unfoldable pub generate_fields :
      (SchemaRef → F → Value Num Int × F)
      → List (String × SchemaRef)
      → Fields Num Int
      → F
      → Fields Num Int × F
  generate_fields generate [] fs s = (fs, s)
  generate_fields generate ((k, r) ∷ ps) fs s =
      let (v, s') = generate r s in generate_fields generate ps (put_field k v fs) s'

  unfoldable pub generate_values :
      (SchemaRef → F → Value Num Int × F) → SchemaRef → ℕ → F → Values Num Int × F
  generate_values generate r zero s = (no_values, s)
  generate_values generate r (suc n) s =
      let (v, s') = generate r s in
      let (vs, s'') = generate_values generate r n s' in (value v vs, s'')

  unfoldable pub generate_merged :
      (SchemaRef → F → Value Num Int × F) → List SchemaRef → Fields Num Int → F → Fields Num Int × F
  generate_merged generate [] fs s = (fs, s)
  generate_merged generate (r ∷ rs) fs s =
      let (v, s') = generate r s in generate_merged generate rs (merge v fs) s'

  -- The properties in the order of their names.
  abbrev pub named : Dict SchemaRef → List String → List (String × SchemaRef)
  named properties [] = []
  named properties (k ∷ ks) =
      (k, elim (get k properties) [ none ↦ none | some r ↦ r ]) ∷ named properties ks

  -- An object without fields gets samples of its additional properties.
  unfoldable pub with_samples :
      (SchemaRef → F → Value Num Int × F) → SchemaRef → Fields Num Int × F → Fields Num Int × F
  with_samples generate none made = made
  with_samples generate (some p) (field k v fs, s) = (field k v fs, s)
  with_samples generate (some p) (no_fields, s) =
      generate_fields generate (("key1", some p) ∷ ("key2", some p) ∷ ("key3", some p) ∷ [])
        no_fields s

  unfoldable pub generate_object :
      (SchemaRef → F → Value Num Int × F) → Schema Num Int → F → Value Num Int × F
  generate_object generate schema s = made object (
      with_samples generate schema.additional_properties (
        generate_fields generate (named schema.properties (sort (keys schema.properties))) no_fields
          s))

  unfoldable pub generate_array :
      (SchemaRef → F → Value Num Int × F) → Schema Num Int → F → Value Num Int × F
  generate_array generate schema s = elim schema.items [
    | none ↦ (array no_values, s)
    | some p ↦ made array (
        generate_values generate (some p) (if ltb 1 schema.min_items then schema.min_items else 1)
          s)
  ]

  abbrev pub object_or_null :
      (SchemaRef → F → Value Num Int × F) → Schema Num Int → F → Value Num Int × F
  object_or_null generate schema s = elim schema.properties [
    | [] ↦ (null, s)
    | p ∷ ps ↦ generate_object generate schema s
  ]

  unfoldable pub generate_type :
      (SchemaRef → F → Value Num Int × F) → Schema Num Int → String → F → Value Num Int × F
  generate_type generate schema t s =
      if t == "object"
      then generate_object generate schema s
      else (if t == "array"
          then generate_array generate schema s
          else (if t == "string"
              then made string (generate_string schema s)
              else (if t == "integer"
                  then made integer (generate_integer schema s)
                  else (if t == "number"
                      then made number (generate_number schema s)
                      else (if t == "boolean"
                          then made boolean (generate_boolean schema s)
                          else object_or_null generate schema s)))))

  abbrev pub generate_types :
      (SchemaRef → F → Value Num Int × F) → Schema Num Int → List String → F → Value Num Int × F
  generate_types generate schema [] s = object_or_null generate schema s
  generate_types generate schema (t ∷ ts) s = generate_type generate schema t s

  -- `allOf`, else the first of `oneOf`, else the first of `anyOf`, else by the type.
  unfoldable pub generate_composed :
      (SchemaRef → F → Value Num Int × F) → Schema Num Int → F → Value Num Int × F
  generate_composed generate schema s = elim schema.all_of [
    | r ∷ rs ↦ made object (generate_merged generate (r ∷ rs) no_fields s)
    | [] ↦ elim schema.one_of [
      | r ∷ rs ↦ generate r s
      | [] ↦ elim schema.any_of [
        | r ∷ rs ↦ generate r s
        | [] ↦ generate_types generate schema schema.types s
      ]
    ]
  ]

  abbrev pub example_or : Bool → Option (Value Num Int) → F → Value Num Int × F → Value Num Int × F
  example_or true (some v) s generated = (v, s)
  example_or true none s generated = generated
  example_or false example s generated = generated

  abbrev pub generate_schema :
      Bool → (SchemaRef → F → Value Num Int × F) → Option (Schema Num Int) → F → Value Num Int × F
  generate_schema use_examples generate none s = (null, s)
  generate_schema use_examples generate (some schema) s =
      example_or use_examples schema.example s (generate_composed generate schema s)

  -- `generateValue`, with the levels that are left.
  unfoldable pub generate_value :
      Bool → (ℕ → Option (Schema Num Int)) → ℕ → SchemaRef → F → Value Num Int × F
  generate_value use_examples schemas zero r s = (null, s)
  generate_value use_examples schemas (suc n) none s = (null, s)
  generate_value use_examples schemas (suc n) (some p) s =
      generate_schema use_examples (generate_value use_examples schemas n) (schemas p) s

  -- The call that the fixtures make, at depth 0.
  unfoldable pub generate : Bool → (ℕ → Option (Schema Num Int)) → SchemaRef → F → Value Num Int × F
  generate use_examples schemas = generate_value use_examples schemas 11
