-- ===== src/Generator/Tests.antt =====
-- pkg/cvt/generator.go: generated values of two schemas that refer to each other.
use cvt.Base.{◌≤◌, false, some, ◌≡◌, refl}
use cvt.Generator.{
  no_values, value, no_fields, field, null, integer, array, object, generate, generate_value,
  generate_composed, generate_type, generate_object, with_samples, generate_fields, put_field,
  generate_integer, generate_array, generate_values,
}
use cvt.Base.Dict.{get}
use cvt.Base.Sorting.{sort, insert}
use cvt.Generator.Bounded.{levels, generate-levels}
use cvt.Samples.Fixtures.{counting, people}

person_of_two_levels : generate_value counting false people 2 (some 0) 0 ≡ (
  object (
      field "age"
        (integer 18)
        (field "friends" (array (value null (value null no_values))) no_fields)),
  1,
)
unfolding generate_value generate_composed generate_type generate_object with_samples
    generate_fields sort insert put_field get generate_integer generate_array generate_values
person_of_two_levels = refl

generate-levels_example : levels (generate counting false people (some 0) 0).0 ≤ 11
generate-levels_example = generate-levels counting people (some 0) 0
