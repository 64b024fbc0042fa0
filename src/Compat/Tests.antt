-- ===== src/Compat/Tests.antt =====
-- Runs of both engines on small documents: one path with one operation, whose query parameter is
-- widened from "integer" to "number" and then removed from its enumeration.
use cvt.Base.{[], ◌∷◌, true, false, ◌≡◌, refl, ◌↔◌}
use mathlib.Core.List.Memᴰ.{head}
use cvt.Base.Dict.{get, put, put_all, has, set_of}
use cvt.Samples.{by_key, backwards}
use cvt.Samples.Documents.{document, document_is_regular, document_once}
use cvt.Compat.Change.{enum_value_removed, BreakingChange}
use cvt.Compat.Endpoints.{check_shared, check_path, check_method}
use cvt.Compat.Checks as Checks
use cvt.Compat.Checks.{is_breaking_type_change}
use cvt.Compat.Server as Server
use cvt.Compat.Embedded as Embedded
use cvt.Compat.Spec.{IsCompatible}
use cvt.Compat.Widening.{breaking_trans}
use cvt.Compat.Correct.{compare_schemas-IsCompatible}
use cvt.Compat.Reflexive.{compare_schemas_self}
use cvt.Compat.Engines.{Reports, embedded_changes-server}

abbrev lost : BreakingChange
lost = record {
  change_type = enum_value_removed;
  path = "/users/{id}";
  method = "PUT";
  description = "Enum values [b, c] were removed from parameter 'page' in PUT /users/{id}";
  old_value = "b, c";
  new_value = "";
}

-- Widening keeps the document compatible, and narrowing and a shorter enumeration do not.
widened : (Server.compare_schemas by_key (document "integer" []) (document "number" [])).1 ≡ true
unfolding get has set_of put_all put Checks.check_removed_endpoints Checks.check_removed_method
    Checks.find_item Checks.check_documents check_shared check_path check_method
    Checks.added_parameters Checks.compare_request_bodies Checks.body_schemas Checks.enum_parameter
    is_breaking_type_change Checks.is_compatible_type_change Checks.parameter_enum_changes
    Checks.parameter_name Checks.parameter_type_changes Checks.removed_values Checks.typed_parameter
    Server.check_added_required_parameters Server.check_added_required_body_fields
    Server.compare_schemas Server.check_removed_enum_values Server.check_response_changes
    Server.check_type_changes Server.compare_property Server.compare_response
    Server.compare_response_schemas Server.compare_responses Server.request_body_type_changes
    Server.typed_property
widened = refl

narrowed : (Server.compare_schemas by_key (document "number" []) (document "integer" [])).1 ≡ false
unfolding get has set_of put_all put Checks.check_removed_endpoints Checks.check_removed_method
    Checks.find_item Checks.check_documents check_shared check_path check_method
    Checks.added_parameters Checks.compare_request_bodies Checks.body_schemas Checks.enum_parameter
    is_breaking_type_change Checks.is_compatible_type_change Checks.parameter_enum_changes
    Checks.parameter_name Checks.parameter_type_changes Checks.removed_values Checks.typed_parameter
    Server.check_added_required_parameters Server.check_added_required_body_fields
    Server.compare_schemas Server.check_removed_enum_values Server.check_response_changes
    Server.check_type_changes Server.compare_property Server.compare_response
    Server.compare_response_schemas Server.compare_responses Server.request_body_type_changes
    Server.typed_property
narrowed = refl

shortened :
    (Embedded.compare_schemas by_key
      (document "string" ("a" ∷ "b" ∷ []))
      (document "string" ("a" ∷ []))).1
    ≡ false
unfolding get has set_of put_all put Checks.check_removed_endpoints Checks.check_removed_method
    Checks.find_item Checks.check_documents check_shared check_path check_method
    Checks.added_parameters Checks.compare_request_bodies Checks.body_schemas Checks.enum_parameter
    is_breaking_type_change Checks.is_compatible_type_change Checks.parameter_enum_changes
    Checks.parameter_name Checks.parameter_type_changes Checks.removed_values Checks.typed_parameter
    Embedded.compare_schemas Embedded.check_removed_endpoints
    Embedded.check_added_required_parameters Embedded.check_added_required_body_fields
    Embedded.check_removed_enum_values Embedded.check_response_changes Embedded.check_type_changes
    Embedded.compare_response Embedded.compare_responses
shortened = refl

compare_schemas-IsCompatible_example :
    ((Server.compare_schemas by_key (document "integer" []) (document "number" [])).1 ≡ true)
    ↔ IsCompatible by_key (document "integer" []) (document "number" [])
compare_schemas-IsCompatible_example =
    compare_schemas-IsCompatible by_key (document "integer" []) (document "number" [])
      (document_is_regular "integer" [])

compare_schemas_self_example :
    (Server.compare_schemas by_key
      (document "integer" ("1" ∷ []))
      (document "integer" ("1" ∷ []))).1
    ≡ true
compare_schemas_self_example =
    compare_schemas_self by_key (document "integer" ("1" ∷ []))
      (document_is_regular "integer" ("1" ∷ [])) (document_once "integer" ("1" ∷ []))

breaking_trans_example : is_breaking_type_change "int32" "number" ≡ false
unfolding is_breaking_type_change Checks.is_compatible_type_change get
breaking_trans_example = breaking_trans "int32" "integer" "number" refl refl

embedded_changes-server_example :
    Reports lost
      (Server.compare_schemas
        (record by_key { range_order = backwards })
        (document "string" ("a" ∷ "b" ∷ "c" ∷ []))
        (document "string" ("a" ∷ []))).0
unfolding get has set_of put_all put Checks.check_removed_endpoints Checks.check_removed_method
    Checks.find_item Checks.check_documents check_shared check_path check_method
    Checks.added_parameters Checks.compare_request_bodies Checks.body_schemas Checks.enum_parameter
    is_breaking_type_change Checks.is_compatible_type_change Checks.parameter_enum_changes
    Checks.parameter_name Checks.parameter_type_changes Checks.removed_values Checks.typed_parameter
    Embedded.compare_schemas Embedded.check_removed_endpoints
    Embedded.check_added_required_parameters Embedded.check_added_required_body_fields
    Embedded.check_removed_enum_values Embedded.check_response_changes Embedded.check_type_changes
    Embedded.compare_response Embedded.compare_responses
embedded_changes-server_example =
    embedded_changes-server by_key backwards (document "string" ("a" ∷ "b" ∷ "c" ∷ []))
      (document "string" ("a" ∷ [])) lost (head refl)
