-- ===== src/Compat/Server.antt =====
-- server/cvtservice/compatibility_engine.go: the engine behind the server's RegisterSchema,
-- CompareSchemas and CanIDeploy: what it checks beside Checks.antt, and the whole comparison.
use cvt.Base.{
  String, List, [], ◌∷◌, ◌++◌, Bool, true, false, Option, none, some, collect, on_some, only_if,
  concat, not,
}
use cvt.Base.Dict.{Dict, get, of_list}
use text.Mathlib.Text.{◌==◌}
use cvt.OpenApi.{Ref, Property, Schema, Response, Document, Finder, deref}
use cvt.Compat.Change.{response_schema_changed, BreakingChange}
use cvt.Compat.Endpoints.{body_methods, five_methods, seven_methods, Check}
use cvt.Compat.Checks.{
  first_type, is_breaking_type_change, check_removed_endpoints, check_documents, added_parameters,
  body_schemas, compare_request_bodies, type_change, parameter_type_changes, parameter_enum_changes,
}

-- `checkRequestBodyTypeChanges`.
unfoldable pub typed_property : String × Ref Property → List (String × String)
typed_property (name, prop) =
    on_some prop.value λ p. on_some (first_type p.types) λ t. (name, t) ∷ []

unfoldable pub request_body_type_changes : Check BreakingChange
request_body_type_changes path method old_op new_op =
    collect
      (λ schema.
        collect
          (λ e. on_some e.1.value λ p. on_some (first_type p.types) λ new_type.
            on_some (get e.0 old_props) λ old_type.
              only_if (is_breaking_type_change old_type new_type) (changed e.0 old_type new_type))
          schema.properties)
      (body_schemas new_op.request_body)
  where
    old_props : Dict String
    old_props = of_list (
        collect (λ schema. collect typed_property schema.properties)
          (body_schemas old_op.request_body))

    changed : String → String → String → BreakingChange
    changed name old_type new_type = type_change path method old_type new_type (
        concat (
          "Type of field '" ∷ name ∷ "' in request body changed from '" ∷ old_type ∷ "' to '"
          ∷ new_type ∷ "' in " ∷ method ∷ " " ∷ path ∷ []))

response_change : String → String → String → String → String → BreakingChange
response_change path method old_type new_type description = record {
  change_type = response_schema_changed;
  path = path;
  method = method;
  description = description;
  old_value = old_type;
  new_value = new_type;
}

-- `m[k].Value` of a map of references: nil where the key is missing.
abbrev pub get_value {ℓ} : {A : Type ℓ} → String → Dict (Ref A) → Option A
get_value k m = deref (get k m)

-- `compareResponseSchemas`: one property of the old schema.
unfoldable pub compare_property :
    String → String → String → Dict (Ref Property) → String × Ref Property → List BreakingChange
unfolding response_change
compare_property path method code new_props (name, old_prop) = on_some old_prop.value λ old_p.
    elim (get_value name new_props) [
      | none ↦
          response_change path method "" "" (
            concat (
              "Field '" ∷ name ∷ "' was removed from response (status " ∷ code ∷ ") of " ∷ method
              ∷ " " ∷ path ∷ []))
          ∷ []
      | some new_p ↦ on_some (first_type old_p.types) λ old_type.
          on_some (first_type new_p.types) λ new_type. only_if (not (old_type == new_type)) (
            response_change path method old_type new_type (
              concat (
                "Type of field '" ∷ name ∷ "' in response (status " ∷ code ∷ ") changed from '"
                ∷ old_type ∷ "' to '" ∷ new_type ∷ "' in " ∷ method ∷ " " ∷ path ∷ [])))
    ]

unfoldable pub compare_response_schemas :
    String → String → String → Option (Ref Schema) → Option (Ref Schema) → List BreakingChange
compare_response_schemas path method code old_schema new_schema =
    on_some (deref old_schema) λ old_s.
      on_some (deref new_schema)
        λ new_s. collect (compare_property path method code new_s.properties) old_s.properties

-- `compareResponses`: one status code of the old operation.
unfoldable pub compare_response :
    String → String → Dict (Ref Response) → String × Ref Response → List BreakingChange
unfolding response_change
compare_response path method new_responses (code, old_ref) = on_some old_ref.value λ old_resp.
    elim (get code new_responses) [
      | none ↦
          response_change path method "" "" (
            concat (
              "Response for status code " ∷ code ∷ " was removed from " ∷ method ∷ " " ∷ path ∷ []))
          ∷ []
      | some new_ref ↦ on_some new_ref.value λ new_resp.
          collect
            (λ e.
              on_some (get e.0 new_resp.content)
                λ new_media. compare_response_schemas path method code e.1.schema new_media.schema)
            old_resp.content
    ]

unfoldable pub compare_responses : Check BreakingChange
compare_responses path method old_op new_op = on_some old_op.responses λ old_responses.
    on_some new_op.responses
      λ new_responses. collect (compare_response path method new_responses) old_responses

module _ (finder : Finder) where
  unfoldable pub check_added_required_parameters : Document → Document → List BreakingChange
  check_added_required_parameters = check_documents finder five_methods added_parameters

  unfoldable pub check_added_required_body_fields : Document → Document → List BreakingChange
  check_added_required_body_fields = check_documents finder body_methods compare_request_bodies

  unfoldable pub check_type_changes : Document → Document → List BreakingChange
  check_type_changes = check_documents finder five_methods λ path method old_op new_op.
      parameter_type_changes path method old_op new_op
      ++ request_body_type_changes path method old_op new_op

  unfoldable pub check_removed_enum_values : Document → Document → List BreakingChange
  check_removed_enum_values =
      check_documents finder five_methods (parameter_enum_changes finder.range_order)

  unfoldable pub check_response_changes : Document → Document → List BreakingChange
  check_response_changes = check_documents finder five_methods compare_responses

  -- `CompareSchemas`: the changes, and whether there are none.
  unfoldable pub compare_schemas : Document → Document → List BreakingChange × Bool
  compare_schemas old_doc new_doc = (changes, elim changes [ [] ↦ true | c ∷ cs ↦ false ])
    where
      changes : List BreakingChange
      changes =
          check_removed_endpoints finder seven_methods old_doc new_doc
          ++ (check_added_required_parameters old_doc new_doc
              ++ (check_added_required_body_fields old_doc new_doc
                  ++ (check_type_changes old_doc new_doc
                      ++ (check_removed_enum_values old_doc new_doc
                          ++ check_response_changes old_doc new_doc))))
