-- ===== src/Service/Tests.antt =====
-- Runs of the service over a store with one version, and of a deployment on it.
use cvt.Base.{[], ◌∷◌, true, false, none, some, ◌≡◌, refl}
use text.Mathlib.Text.{◌==◌}
use cvt.Base.Dict.{Dict, get, put}
use cvt.Samples.{by_key, keeping}
use cvt.OpenApi.{Document}
use cvt.Registry.{ConsumerEntry}
use cvt.Store.{SchemaRecord, new_memory_store, get_schema_version}
use cvt.Cache.{SchemaEntry, get_latest, get_version, set_version, list_consumers}
use cvt.Cache as Cache
use cvt.Deploy.{CanIDeployRequest, check_consumer, check_consumers, can_i_deploy, verify_consumers}
use cvt.Deploy as Deploy
use cvt.Service.{
  External, parsed, usable, valid_document, refusal, no_spec, ValidatorService, get_schema_entry,
  new_schema_entry, after_cache, after_plugin, use_answer, use_record, use_result, rehydrate,
  try_fetch_schema_from_plugin,
}
use cvt.Service.Lookup.{get_schema_entry-latest}
use cvt.Service.Registration.{RegisterConsumerRequest, register_consumer, register_found}
use cvt.Service.Registration.Outcome.{Outcome, register_consumer-Outcome}
use cvt.Service.Deregistration.{
  DeregisterConsumerRequest, Removal, after_removal, deregister_consumer,
  deregister_consumer-Removal,
}
use cvt.Service.Deployment.{SafeFor, can_i_deploy-registered}

abbrev document : Document
document = record { paths = none }

-- The plugin refuses the schema "secret" and knows no other.
abbrev ext : External
ext = record {
  fetch_schema = λ schema_id version. elim (schema_id == "secret") [
    | true ↦ refusal "forbidden"
    | false ↦ no_spec
  ];
  parse_and_convert_schema = λ content. parsed document;
  validate = λ doc. none;
  build_router = λ doc. none;
  info_version = λ doc. "";
  openapi = λ doc. "3.0.0";
  schema_hash = λ content. "";
}

abbrev users : SchemaRecord
users = record {
  id = "u1";
  schema_id = "users";
  version = "1.0.0";
  content = "{}";
  content_hash = "";
  openapi_version = "3.0.0";
  endpoint_count = 0;
  is_latest = true;
  registered_at = 5;
  updated_at = 5;
  ownership = none;
  environment = "dev";
}

abbrev latest : SchemaEntry
latest = record { document = document; content = "{}"; metadata = none }

abbrev web : ConsumerEntry
web = record {
  consumer_id = "web";
  consumer_version = "1";
  schema_id = "users";
  schema_version = "";
  environment = "prod";
  registered_at = 3;
  last_validated_at = 3;
  used_endpoints = [];
}

abbrev service : ValidatorService (Dict SchemaEntry)
service = record {
  cache = record {
    cache = ("users", latest) ∷ [];
    schema_versions = [];
    consumers = ("web/users/prod", web) ∷ [];
  };
  store = some (record new_memory_store { schemas = ("users", ("1.0.0", users) ∷ []) ∷ [] });
}

get_schema_entry-latest_example : get_latest keeping "users" service.cache ≡ some latest
unfolding get_latest get get_schema_entry get_version after_cache try_fetch_schema_from_plugin
    use_answer after_plugin rehydrate use_result use_record usable valid_document get_schema_version
    set_version put
get_schema_entry-latest_example =
    get_schema_entry-latest keeping ext "users" "1.0.0" service latest (λ e. cc) refl

abbrev request : CanIDeployRequest
request = record { schema_id = "users"; new_version = "1.0.0"; environment = "" }

can_i_deploy-registered_example : SafeFor keeping ext by_key (λ n. "some") request service
unfolding get_latest get get_schema_entry get_version after_cache try_fetch_schema_from_plugin
    use_answer after_plugin rehydrate use_result use_record usable valid_document get_schema_version
    set_version put can_i_deploy Deploy.new_schema_entry verify_consumers list_consumers
    check_consumer check_consumers new_schema_entry
can_i_deploy-registered_example =
    can_i_deploy-registered keeping ext by_key (λ n. "some") request service refl

abbrev again : RegisterConsumerRequest
again = record {
  consumer_id = "web";
  consumer_version = "2";
  schema_id = "users";
  schema_version = "1.0.0";
  environment = "prod";
  used_endpoints = [];
}

registers_again :
    (register_consumer keeping ext (λ n. "some") "u9" 50 again service).0.success ≡ true
unfolding register_consumer register_found get_schema_entry get_version get_latest get after_cache
    list_consumers
registers_again = refl

register_consumer-Outcome_example :
    Outcome keeping ext
      (λ n. "some")
      50
      again
      service
      (register_consumer keeping ext (λ n. "some") "u9" 50 again service).1
      (register_consumer keeping ext (λ n. "some") "u9" 50 again service).0.success
register_consumer-Outcome_example =
    register_consumer-Outcome keeping ext (λ n. "some") "u9" 50 again service

abbrev gone : DeregisterConsumerRequest
gone = record { consumer_id = "web"; schema_id = "users"; environment = "prod" }

deregisters : (deregister_consumer gone service).0.success ≡ true
unfolding deregister_consumer after_removal Cache.deregister_consumer get
deregisters = refl

deregister_consumer-Removal_example : Removal gone service (deregister_consumer gone service)
deregister_consumer-Removal_example = deregister_consumer-Removal gone service
