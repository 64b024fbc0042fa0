-- ===== src/Compat/Checks.antt =====
-- The checks whose text server/cvtservice/compatibility_engine.go and pkg/cvt/compatibility.go
-- share, each for one operation. Log lines are left out.
use cvt.Base.{
  String, List, [], ◌∷◌, Bool, true, false, not, ◌&&◌, Option, none, some, collect, on_some,
  only_if, keep, non_empty, concat, join,
}
use cvt.Base.Dict.{Dict, get, keys, of_list, has, set_of}
use text.Mathlib.Text.{◌==◌}
use cvt.OpenApi.{Ref, Schema, Parameter, RequestBody, PathItem, Document, Finder, RangeOrder, deref}
use cvt.Compat.Endpoints.{Method, Check, check_shared}
use cvt.Compat.Change.{
  endpoint_removed, required_field_added, type_changed, required_parameter_added,
  enum_value_removed, BreakingChange,
}

-- `Type.Slice()[0]`, where there is one.
abbrev pub first_type : List String → Option String
first_type [] = none
first_type (t ∷ ts) = some t

abbrev pub or_empty : Option String → String
or_empty none = ""
or_empty (some s) = s

abbrev pub contains : String → List String → Bool
contains s [] = false
contains s (t ∷ ts) = elim (t == s) [ true ↦ true | false ↦ contains s ts ]

abbrev pub compatible_changes : Dict (List String)
compatible_changes =
    ("integer", "number" ∷ [])
    ∷ ("int32", "int64" ∷ "integer" ∷ "number" ∷ [])
    ∷ ("int64", "number" ∷ [])
    ∷ ("float", "double" ∷ "number" ∷ [])
    ∷ []

unfoldable pub is_compatible_type_change : String → String → Bool
is_compatible_type_change old_type new_type = elim (get old_type compatible_changes) [
  | none ↦ false
  | some allowed ↦ contains new_type allowed
]

-- A change of one type to another that the engines report.
unfoldable pub is_breaking_type_change : String → String → Bool
is_breaking_type_change old_type new_type =
    not (old_type == new_type) && not (is_compatible_type_change old_type new_type)

-- `checkRemovedEndpoints`: one row of the table of methods.
unfoldable pub check_removed_method :
    String → PathItem → Option PathItem → Method → List BreakingChange
check_removed_method path old_item new_item m = on_some (m.operation old_item) λ old_op.
    elim new_item [
      | none ↦ removed ∷ []
      | some item ↦ elim (m.operation item) [ none ↦ removed ∷ [] | some new_op ↦ [] ]
    ]
  where
    removed : BreakingChange
    removed = record {
      change_type = endpoint_removed;
      path = path;
      method = m.name;
      description = concat ("Endpoint " ∷ m.name ∷ " " ∷ path ∷ " was removed" ∷ []);
      old_value = "";
      new_value = "";
    }

unfoldable pub find_item : Finder → Document → String → Option PathItem
find_item finder doc path = elim doc.paths [ none ↦ none | some paths ↦ finder.find paths path ]

unfoldable pub check_removed_endpoints :
    Finder → List Method → Document → Document → List BreakingChange
check_removed_endpoints finder methods old_doc new_doc = on_some old_doc.paths λ old_paths.
    collect (λ e. collect (check_removed_method e.0 e.1 (find_item finder new_doc e.0)) methods)
      old_paths

-- A check of the operations that both documents have.
unfoldable pub check_documents :
    Finder → List Method → Check BreakingChange → Document → Document → List BreakingChange
check_documents finder methods check old_doc new_doc = on_some new_doc.paths λ new_paths.
    on_some old_doc.paths λ old_paths. check_shared finder methods check old_paths new_paths

-- `checkAddedRequiredParameters`, for one operation.
unfoldable pub parameter_name : Ref Parameter → List String
parameter_name param = on_some param.value λ p. p.name ∷ []

unfoldable pub added_parameters : Check BreakingChange
added_parameters path method old_op new_op =
    collect
      (λ param.
        on_some param.value λ p. only_if (p.required && not (has p.name old_params)) (added p.name))
      new_op.parameters
  where
    old_params : Dict Bool
    old_params = set_of (collect parameter_name old_op.parameters)

    added : String → BreakingChange
    added name = record {
      change_type = required_parameter_added;
      path = path;
      method = method;
      description =
          concat ("Required parameter '" ∷ name ∷ "' was added to " ∷ method ∷ " " ∷ path ∷ []);
      old_value = "";
      new_value = "";
    }

-- The schemas of a request body's media types, in the order in which the loops visit them.
unfoldable pub body_schemas : Option (Ref RequestBody) → List Schema
body_schemas body =
    on_some (deref body) λ b. collect (λ e. on_some (deref e.1.schema) λ s. s ∷ []) b.content

-- `compareRequestBodies`.
unfoldable pub compare_request_bodies : Check BreakingChange
compare_request_bodies path method old_op new_op =
    collect
      (λ schema.
        collect (λ field. only_if (not (has field old_required)) (added field)) schema.required)
      (body_schemas new_op.request_body)
  where
    old_required : Dict Bool
    old_required = set_of (collect (λ schema. schema.required) (body_schemas old_op.request_body))

    added : String → BreakingChange
    added field = record {
      change_type = required_field_added;
      path = path;
      method = method;
      description = concat (
          "Required field '" ∷ field ∷ "' was added to request body of " ∷ method ∷ " " ∷ path
          ∷ []);
      old_value = "";
      new_value = "";
    }

abbrev pub type_change : String → String → String → String → String → BreakingChange
type_change path method old_type new_type description = record {
  change_type = type_changed;
  path = path;
  method = method;
  description = description;
  old_value = old_type;
  new_value = new_type;
}

-- `checkParameterTypeChanges`.
unfoldable pub typed_parameter : Ref Parameter → List (String × String)
typed_parameter param =
    on_some param.value
      λ p. on_some (deref p.schema) λ s. on_some (first_type s.types) λ t. (p.name, t) ∷ []

unfoldable pub parameter_type_changes : Check BreakingChange
parameter_type_changes path method old_op new_op =
    collect
      (λ param. on_some param.value λ p. on_some (deref p.schema) λ s.
        on_some (get p.name old_params) λ old_type.
          only_if (is_breaking_type_change old_type (or_empty (first_type s.types)))
            (changed p.name old_type (or_empty (first_type s.types))))
      new_op.parameters
  where
    old_params : Dict String
    old_params = of_list (collect typed_parameter old_op.parameters)

    changed : String → String → String → BreakingChange
    changed name old_type new_type = type_change path method old_type new_type (
        concat (
          "Type of parameter '" ∷ name ∷ "' changed from '" ∷ old_type ∷ "' to '" ∷ new_type
          ∷ "' in " ∷ method ∷ " " ∷ path ∷ []))

-- `checkParameterEnumChanges`.
unfoldable pub enum_parameter : Ref Parameter → List (String × Dict Bool)
enum_parameter param =
    on_some param.value
      λ p. on_some (deref p.schema) λ s. on_some (non_empty s.enum) λ vs. (p.name, set_of vs) ∷ []

unfoldable pub removed_values : RangeOrder → Dict Bool → List String → List String
removed_values order old_set new_values =
    keep (λ v. not (has v (set_of new_values))) (order.visit (keys old_set))

abbrev pub enum_change : String → String → String → List String → BreakingChange
enum_change path method name removed = record {
  change_type = enum_value_removed;
  path = path;
  method = method;
  description = concat (
      "Enum values ["
      ∷ join removed
      ∷ "] were removed from parameter '"
      ∷ name
      ∷ "' in "
      ∷ method
      ∷ " "
      ∷ path
      ∷ []);
  old_value = join removed;
  new_value = "";
}

unfoldable pub parameter_enum_changes : RangeOrder → Check BreakingChange
parameter_enum_changes order path method old_op new_op =
    collect
      (λ param. on_some param.value λ p. on_some (deref p.schema) λ s.
        on_some (get p.name old_enums) λ old_set. on_some (non_empty s.enum) λ vs.
          on_some (non_empty (removed_values order old_set vs))
            λ removed. enum_change path method p.name removed ∷ [])
      new_op.parameters
  where
    old_enums : Dict (Dict Bool)
    old_enums = of_list (collect enum_parameter old_op.parameters)
