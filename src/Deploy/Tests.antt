-- ===== src/Deploy/Tests.antt =====
-- A deployment to two consumers: one pins the old version and one pins none.
use cvt.Base.{ℕ, String, List, [], ◌∷◌, true, false, Option, none, some, ◌≡◌, refl, eqb}
use text.Mathlib.Text.{◌==◌}
use cvt.Base.Dict.{get, put, put_all, has, set_of}
use cvt.Samples.{by_key}
use cvt.OpenApi.{Operation, PathItem, Document}
use cvt.Compat.Change.{endpoint_removed, BreakingChange}
use cvt.Compat.Endpoints.{check_shared, check_path, check_method}
use cvt.Compat.Checks as Checks
use cvt.Compat.Checks.{is_breaking_type_change}
use cvt.Compat.Server as Server
use cvt.Registry.{EndpointUsage, ConsumerEntry}
use cvt.Deploy.{
  SchemaSource, CanIDeployRequest, filter_changes_for_consumer, check_consumer, check_consumers,
  new_schema_entry, verify_consumers, can_i_deploy,
}
use cvt.Deploy.Safety.{SafeAnswer, can_i_deploy-SafeAnswer}

abbrev plain : Operation
plain = record { parameters = []; request_body = none; responses = none }

abbrev item : Option Operation → PathItem
item del = record {
  get_op = some plain;
  post_op = none;
  put_op = none;
  delete_op = del;
  patch_op = none;
  head_op = none;
  options_op = none;
}

-- The old version has an operation that the new one drops.
abbrev old_users : Document
old_users = record { paths = some (("/users", item (some plain)) ∷ []) }

abbrev new_users : Document
new_users = record { paths = some (("/users", item none) ∷ []) }

abbrev consumer : String → String → List EndpointUsage → ConsumerEntry
consumer id version used = record {
  consumer_id = id;
  consumer_version = "1";
  schema_id = "users";
  schema_version = version;
  environment = "prod";
  registered_at = 1;
  last_validated_at = 1;
  used_endpoints = used;
}

abbrev reads : EndpointUsage
reads = record { method = "GET"; path = "/users"; used_fields = [] }

abbrev deletes : EndpointUsage
deletes = record { method = "DELETE"; path = "/users"; used_fields = [] }

-- A source whose state is the list of the consumers.
abbrev source : SchemaSource (List ConsumerEntry)
source = record {
  get_schema_entry = λ schema_id version s.
      ((elim (version == "1") [ true ↦ some old_users | false ↦ some new_users ]), s);
  list_consumers = λ schema_id environment s. s;
}

abbrev request : CanIDeployRequest
request = record { schema_id = "users"; new_version = "2"; environment = "" }

abbrev digits : ℕ → String
digits n = elim (eqb n 0) [ true ↦ "0" | false ↦ "some" ]

abbrev readers : List ConsumerEntry
readers = consumer "web" "1" (reads ∷ []) ∷ consumer "app" "" [] ∷ []

-- Dropping an operation that a consumer uses makes the deployment unsafe for it.
unsafe_for_deleter :
    (can_i_deploy source by_key digits request
      (consumer "admin" "1" (deletes ∷ []) ∷ readers)).0.safe_to_deploy
    ≡ false
unfolding get has set_of put_all put Checks.check_removed_endpoints Checks.check_removed_method
    Checks.find_item Checks.check_documents check_shared check_path check_method
    Checks.added_parameters Checks.compare_request_bodies Checks.body_schemas Checks.enum_parameter
    is_breaking_type_change Checks.is_compatible_type_change Checks.parameter_enum_changes
    Checks.parameter_name Checks.parameter_type_changes Checks.removed_values Checks.typed_parameter
    Server.check_added_required_parameters Server.check_added_required_body_fields
    Server.compare_schemas Server.check_removed_enum_values Server.check_response_changes
    Server.check_type_changes Server.compare_property Server.compare_response
    Server.compare_response_schemas Server.compare_responses Server.request_body_type_changes
    Server.typed_property filter_changes_for_consumer check_consumer check_consumers
    new_schema_entry verify_consumers can_i_deploy
unsafe_for_deleter = refl

can_i_deploy-SafeAnswer_example : SafeAnswer source by_key digits request readers
unfolding get has set_of put_all put Checks.check_removed_endpoints Checks.check_removed_method
    Checks.find_item Checks.check_documents check_shared check_path check_method
    Checks.added_parameters Checks.compare_request_bodies Checks.body_schemas Checks.enum_parameter
    is_breaking_type_change Checks.is_compatible_type_change Checks.parameter_enum_changes
    Checks.parameter_name Checks.parameter_type_changes Checks.removed_values Checks.typed_parameter
    Server.check_added_required_parameters Server.check_added_required_body_fields
    Server.compare_schemas Server.check_removed_enum_values Server.check_response_changes
    Server.check_type_changes Server.compare_property Server.compare_response
    Server.compare_response_schemas Server.compare_responses Server.request_body_type_changes
    Server.typed_property filter_changes_for_consumer check_consumer check_consumers
    new_schema_entry verify_consumers can_i_deploy
can_i_deploy-SafeAnswer_example = can_i_deploy-SafeAnswer source by_key digits request readers refl

abbrev dropped : BreakingChange
dropped = record {
  change_type = endpoint_removed;
  path = "/users";
  method = "DELETE";
  description = "Endpoint DELETE /users was removed";
  old_value = "";
  new_value = "";
}
