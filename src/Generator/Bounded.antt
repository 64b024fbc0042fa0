-- ===== src/Generator/Bounded.antt =====
-- pkg/cvt/generator.go: the values that are generated are nested at most eleven levels deep, whatever
-- the cycles of the schemas.
use cvt.Base.{
  ℕ, zero, suc, ◌≤◌, String, List, [], ◌∷◌, Bool, true, false, Option, none, some, sym, subst, ltb,
  arith, inl, inr, Bool-cases, if-true, if-false, if◌then◌else◌,
}
use text.Mathlib.Text.{◌==◌}
use cvt.Base.Dict.{Dict, keys}
use cvt.Base.Sorting.{sort}
use cvt.Generator.{
  Value, null, string, integer, number, boolean, array, object, Values, no_values, value, Fields,
  no_fields, field, SchemaRef, Schema, Faker, put_field, put_fields, merge, made, generate_fields,
  generate_values, generate_merged, named, with_samples, generate_object, generate_array,
  object_or_null, generate_type, generate_types, generate_composed, generate_schema, generate_value,
  generate,
}

abbrev larger : ℕ → ℕ → ℕ
larger a b = if ltb a b then b else a

larger-le : (a b n : ℕ) → a ≤ n → b ≤ n → larger a b ≤ n
larger-le a b n p q = ground arith

le-larger_left : (a b n : ℕ) → larger a b ≤ n → a ≤ n
le-larger_left a b n p = ground arith

le-larger_right : (a b n : ℕ) → larger a b ≤ n → b ≤ n
le-larger_right a b n p = ground arith

module _ {Num Int : Type 0} where
  -- The arrays and objects that a value is nested in, itself included.
  mutual
    pub levels : Value Num Int → ℕ
    levels null = 0
    levels (string t) = 0
    levels (integer i) = 0
    levels (number n) = 0
    levels (boolean b) = 0
    levels (array vs) = suc (levels_values vs)
    levels (object fs) = suc (levels_fields fs)

    pub levels_values : Values Num Int → ℕ
    levels_values no_values = 0
    levels_values (value v vs) = larger (levels v) (levels_values vs)

    pub levels_fields : Fields Num Int → ℕ
    levels_fields no_fields = 0
    levels_fields (field k v fs) = larger (levels v) (levels_fields fs)

  put_field-levels :
      (n : ℕ) (k : String) (v : Value Num Int) (fs : Fields Num Int)
      → levels v ≤ n
      → levels_fields fs ≤ n
      → levels_fields (put_field k v fs) ≤ n
  unfolding put_field levels
  put_field-levels n k v no_fields low rest = larger-le (levels v) 0 n low (omega arith)
  put_field-levels n k v (field j w fs) low rest = elim (Bool-cases (j == k)) [
    | inl same ↦
        subst (λ x. levels_fields x ≤ n) (sym (if-true _ _ same))
          (larger-le (levels v) (levels_fields fs) n low
            (le-larger_right (levels w) (levels_fields fs) n rest))
    | inr apart ↦
        subst (λ x. levels_fields x ≤ n) (sym (if-false _ _ apart))
          (larger-le (levels w) (levels_fields (put_field k v fs)) n
            (le-larger_left (levels w) (levels_fields fs) n rest)
            (put_field-levels n k v fs low (le-larger_right (levels w) (levels_fields fs) n rest)))
  ]

  put_fields-levels :
      (n : ℕ) (es fs : Fields Num Int)
      → levels_fields es ≤ n
      → levels_fields fs ≤ n
      → levels_fields (put_fields es fs) ≤ n
  unfolding put_fields levels
  put_fields-levels n no_fields fs low rest = rest
  put_fields-levels n (field k v es) fs low rest =
      put_fields-levels n es (put_field k v fs)
        (le-larger_right (levels v) (levels_fields es) n low)
        (put_field-levels n k v fs (le-larger_left (levels v) (levels_fields es) n low) rest)

  merge-levels :
      (n : ℕ) (v : Value Num Int) (fs : Fields Num Int)
      → levels v ≤ n
      → levels_fields fs ≤ n
      → levels_fields (merge v fs) ≤ n
  unfolding levels
  merge-levels n (object es) fs low rest = put_fields-levels n es fs (omega arith) rest
  merge-levels n null fs low rest = rest
  merge-levels n (string t) fs low rest = rest
  merge-levels n (integer i) fs low rest = rest
  merge-levels n (number m) fs low rest = rest
  merge-levels n (boolean b) fs low rest = rest
  merge-levels n (array vs) fs low rest = rest

pub null-levels : (Num Int : Type 0) (n : ℕ) → levels {Num = Num} {Int = Int} null ≤ n
unfolding levels
null-levels Num Int n = omega arith

suc_le : (a n : ℕ) → a ≤ n → suc a ≤ suc n
suc_le a n p = omega arith

if-levels :
    {F Num Int : Type 0} {n : ℕ} (b : Bool) (x y : Value Num Int × F)
    → levels x.0 ≤ n
    → levels y.0 ≤ n
    → levels (if b then x else y).0 ≤ n
if-levels true x y p q = p
if-levels false x y p q = q

module _ {F Num Int : Type 0} (faker : Faker F Num Int) where
  -- A generation that stays within a number of levels.
  abbrev pub Within : ℕ → (SchemaRef → F → Value Num Int × F) → Type 0
  Within n f = (r : SchemaRef) (s : F) → levels (f r s).0 ≤ n

  module _ (n : ℕ) (f : SchemaRef → F → Value Num Int × F) (within : Within n f) where
    generate_fields-levels :
        (ps : List (String × SchemaRef)) (fs : Fields Num Int) (s : F)
        → levels_fields fs ≤ n
        → levels_fields (generate_fields faker f ps fs s).0 ≤ n
    unfolding generate_fields
    generate_fields-levels [] fs s low = low
    generate_fields-levels ((k, r) ∷ ps) fs s low =
        generate_fields-levels ps _ _ (put_field-levels n k _ fs (within r s) low)

    generate_values-levels :
        (r : SchemaRef) (m : ℕ) (s : F) → levels_values (generate_values faker f r m s).0 ≤ n
    unfolding generate_values levels
    generate_values-levels r zero s = omega arith
    generate_values-levels r (suc m) s =
        larger-le (levels (f r s).0) _ n (within r s) (generate_values-levels r m _)

    generate_merged-levels :
        (rs : List SchemaRef) (fs : Fields Num Int) (s : F)
        → levels_fields fs ≤ n
        → levels_fields (generate_merged faker f rs fs s).0 ≤ n
    unfolding generate_merged
    generate_merged-levels [] fs s low = low
    generate_merged-levels (r ∷ rs) fs s low =
        generate_merged-levels rs _ _ (merge-levels n _ fs (within r s) low)

    with_samples-levels :
        (r : SchemaRef) (made : Fields Num Int × F)
        → levels_fields made.0 ≤ n
        → levels_fields (with_samples faker f r made).0 ≤ n
    unfolding with_samples levels
    with_samples-levels none made low = low
    with_samples-levels (some p) (field k v fs, s) low = low
    with_samples-levels (some p) (no_fields, s) low = generate_fields-levels _ no_fields s low

    generate_object-levels :
        (schema : Schema Num Int) (s : F) → levels (generate_object faker f schema s).0 ≤ suc n
    unfolding generate_object levels
    generate_object-levels schema s = suc_le _ n (
        with_samples-levels schema.additional_properties _ (
          generate_fields-levels (named faker schema.properties (sort (keys schema.properties)))
            no_fields s (omega arith)))

    generate_array-levels :
        (schema : Schema Num Int) (s : F) → levels (generate_array faker f schema s).0 ≤ suc n
    unfolding generate_array levels
    generate_array-levels schema s = by_items schema.items
      where
        by_items :
            (o : SchemaRef)
            → levels
                (elim o as (λ _. Value Num Int × F) [
                  | none ↦ (array no_values, s)
                  | some p ↦ made faker array (
                      generate_values faker f
                        (some p)
                        (if ltb 1 schema.min_items then schema.min_items else 1)
                        s)
                ]).0
              ≤ suc n
        by_items none = omega arith
        by_items (some p) = suc_le _ n (generate_values-levels (some p) _ s)

    object_or_null-levels :
        (schema : Schema Num Int) (s : F) → levels (object_or_null faker f schema s).0 ≤ suc n
    unfolding levels
    object_or_null-levels schema s = by_properties schema.properties
      where
        by_properties :
            (ps : Dict SchemaRef)
            → levels
                (elim ps as (λ _. Value Num Int × F) [
                  | [] ↦ (null, s)
                  | p ∷ qs ↦ generate_object faker f schema s
                ]).0
              ≤ suc n
        by_properties [] = omega arith
        by_properties (p ∷ qs) = generate_object-levels schema s

    generate_type-levels :
        (schema : Schema Num Int) (t : String) (s : F)
        → levels (generate_type faker f schema t s).0 ≤ suc n
    unfolding generate_type levels
    generate_type-levels schema t s =
        if-levels (t == "object") _ _ (generate_object-levels schema s) (
          if-levels (t == "array") _ _ (generate_array-levels schema s) (
            if-levels (t == "string") _ _ (omega arith) (
              if-levels (t == "integer") _ _ (omega arith) (
                if-levels (t == "number") _ _ (omega arith) (
                  if-levels (t == "boolean") _ _ (omega arith) (object_or_null-levels schema s))))))

    generate_types-levels :
        (schema : Schema Num Int) (ts : List String) (s : F)
        → levels (generate_types faker f schema ts s).0 ≤ suc n
    generate_types-levels schema [] s = object_or_null-levels schema s
    generate_types-levels schema (t ∷ ts) s = generate_type-levels schema t s

    generate_composed-levels :
        (schema : Schema Num Int) (s : F) → levels (generate_composed faker f schema s).0 ≤ suc n
    unfolding generate_composed levels
    generate_composed-levels schema s = by_parts schema.all_of schema.one_of schema.any_of
      where
        one_down : (r : SchemaRef) → levels (f r s).0 ≤ suc n
        one_down r = omega (arith, within r s)

        by_parts :
            (all one any : List SchemaRef)
            → levels
                (elim all as (λ _. Value Num Int × F) [
                  | r ∷ rs ↦ made faker object (generate_merged faker f (r ∷ rs) no_fields s)
                  | [] ↦ elim one as (λ _. Value Num Int × F) [
                    | r ∷ rs ↦ f r s
                    | [] ↦ elim any as (λ _. Value Num Int × F) [
                      | r ∷ rs ↦ f r s
                      | [] ↦ generate_types faker f schema schema.types s
                    ]
                  ]
                ]).0
              ≤ suc n
        by_parts (r ∷ rs) one any =
            suc_le _ n (generate_merged-levels (r ∷ rs) no_fields s (omega arith))
        by_parts [] (r ∷ rs) any = one_down r
        by_parts [] [] (r ∷ rs) = one_down r
        by_parts [] [] [] = generate_types-levels schema schema.types s

    generate_schema-levels :
        (o : Option (Schema Num Int)) (s : F) → levels (generate_schema faker false f o s).0 ≤ suc n
    unfolding levels
    generate_schema-levels none s = omega arith
    generate_schema-levels (some schema) s = generate_composed-levels schema s

  generate_value-levels :
      (schemas : ℕ → Option (Schema Num Int)) (n : ℕ) (r : SchemaRef) (s : F)
      → levels (generate_value faker false schemas n r s).0 ≤ n
  unfolding generate_value levels
  generate_value-levels schemas zero r s = omega arith
  generate_value-levels schemas (suc n) none s = omega arith
  generate_value-levels schemas (suc n) (some p) s =
      generate_schema-levels n (generate_value faker false schemas n)
        (generate_value-levels schemas n) (schemas p) s

  -- Without examples, the value that is generated for a schema is nested at most eleven arrays and
  -- objects deep, whatever the schemas are, cyclic ones included.
  pub generate-levels :
      (schemas : ℕ → Option (Schema Num Int)) (r : SchemaRef) (s : F)
      → levels (generate faker false schemas r s).0 ≤ 11
  unfolding generate
  generate-levels schemas r s = generate_value-levels schemas 11 r s
