-- ===== src/Compat/Embedded.antt =====
-- pkg/cvt/compatibility.go: the engine of the embedded library and the command line. It looks at
-- five methods, at no request body's types and at no response's schema.
use cvt.Base.{String, List, [], ◌∷◌, ◌++◌, Bool, true, false, none, some, collect, on_some, concat}
use cvt.Base.Dict.{Dict, get}
use cvt.OpenApi.{Ref, Response, Document, Finder}
use cvt.Compat.Change.{response_schema_changed, BreakingChange}
use cvt.Compat.Endpoints.{body_methods, five_methods, Check}
use cvt.Compat.Checks as Checks
use cvt.Compat.Checks.{
  check_documents, added_parameters, compare_request_bodies, parameter_type_changes,
  parameter_enum_changes,
}

-- `compareResponses`: one status code of the old operation.
unfoldable pub compare_response :
    String → String → Dict (Ref Response) → String × Ref Response → List BreakingChange
compare_response path method new_responses (code, old_ref) =
    on_some old_ref.value
      λ old_resp. elim (get code new_responses) [ none ↦ removed ∷ [] | some new_ref ↦ [] ]
  where
    removed : BreakingChange
    removed = record {
      change_type = response_schema_changed;
      path = path;
      method = method;
      description =
          concat
            ("Response for status code " ∷ code ∷ " was removed from " ∷ method ∷ " " ∷ path ∷ []);
      old_value = "";
      new_value = "";
    }

unfoldable pub compare_responses : Check BreakingChange
compare_responses path method old_op new_op = on_some old_op.responses λ old_responses.
    on_some new_op.responses
      λ new_responses. collect (compare_response path method new_responses) old_responses

module _ (finder : Finder) where
  unfoldable pub check_removed_endpoints : Document → Document → List BreakingChange
  check_removed_endpoints = Checks.check_removed_endpoints finder five_methods

  unfoldable pub check_added_required_parameters : Document → Document → List BreakingChange
  check_added_required_parameters = check_documents finder five_methods added_parameters

  unfoldable pub check_added_required_body_fields : Document → Document → List BreakingChange
  check_added_required_body_fields = check_documents finder body_methods compare_request_bodies

  unfoldable pub check_type_changes : Document → Document → List BreakingChange
  check_type_changes = check_documents finder five_methods parameter_type_changes

  unfoldable pub check_removed_enum_values : Document → Document → List BreakingChange
  check_removed_enum_values =
      check_documents finder five_methods (parameter_enum_changes finder.range_order)

  unfoldable pub check_response_changes : Document → Document → List BreakingChange
  check_response_changes = check_documents finder five_methods compare_responses

  -- `CompareSchemas`: the changes, and whether there are none.
  unfoldable pub compare_schemas : Document → Document → List BreakingChange × Bool
  compare_schemas old_doc new_doc = (changes, elim changes [ [] ↦ true | c ∷ cs ↦ false ])
    where
      changes : List BreakingChange
      changes =
          check_removed_endpoints old_doc new_doc
          ++ (check_added_required_parameters old_doc new_doc
              ++ (check_added_required_body_fields old_doc new_doc
                  ++ (check_type_changes old_doc new_doc
                      ++ (check_removed_enum_values old_doc new_doc
                          ++ check_response_changes old_doc new_doc))))
