-- ===== src/Store/Tests.antt =====
-- Runs of the in-memory store on two versions of one schema.
use cvt.Base.{ℕ, String, [], ◌∷◌, Bool, true, false, none, some, ◌≡◌, refl, ap}
use mathlib.Core.List.Memᴰ.{head, tail}
use cvt.Base.Dict.{Dict, get, put}
use cvt.Registry.{ConsumerRecord, make_consumer_key}
use text.Mathlib.Text.{◌==◌}
use cvt.Store.{
  SchemaRecord, ValidationRecord, MemoryStore, ok, new_memory_store, stored, clear_latest,
  set_schema, get_schema, get_schema_version, get_previous_version, latest_before,
}
use cvt.Store.Validations.{
  pos, ListValidationsFilter, list_validations, count_validations, count_validation,
  get_validation_analytics,
}
use cvt.Store.Consumers.{register_consumer, get_consumer}
use cvt.Store.SetSchema.{get_schema-set_schema, get_schema_version-set_schema}
use cvt.Store.Previous.{PreviousVersion, Named, get_previous_version-PreviousVersion}
use cvt.Store.Reachable.{set_one, register, Reachable, start, next, IsValid, Reachable-IsValid}
use cvt.Store.Analytics.{Statistics, get_validation_analytics-Statistics}
use cvt.Store.Listing.{Page, list_validations-Page}
use cvt.Store.Registrations.{Registered, get_consumer-register_consumer}

abbrev users : String → ℕ → SchemaRecord
users version at = record {
  id = "";
  schema_id = "users";
  version = version;
  content = "{}";
  content_hash = "";
  openapi_version = "3.0.0";
  endpoint_count = 1;
  is_latest = false;
  registered_at = at;
  updated_at = at;
  ownership = none;
  environment = "dev";
}

abbrev one_version : MemoryStore
one_version = set_schema "u1" (users "1.0.0" 5) new_memory_store

abbrev two_versions : MemoryStore
two_versions = set_schema "u2" (users "1.1.0" 9) one_version

abbrev order_service : String → ℕ → ConsumerRecord
order_service version at = record {
  id = "";
  consumer_id = "order-service";
  consumer_version = version;
  schema_id = "users";
  schema_version = "1.0.0";
  environment = "prod";
  registered_at = at;
  last_validated_at = at;
  used_endpoints = [];
}

abbrev with_consumer : MemoryStore
with_consumer = register_consumer "u3" (order_service "2.0.0" 10) two_versions

reached : Reachable with_consumer
reached =
    next (next (next start (set_one "u1" (users "1.0.0" 5))) (set_one "u2" (users "1.1.0" 9)))
      (register "u3" (order_service "2.0.0" 10))

Reachable-IsValid_example : IsValid with_consumer
Reachable-IsValid_example = Reachable-IsValid with_consumer reached

get_schema-set_schema_example :
    get_schema "users" (set_schema "u4" (users "2.0.0" 12) with_consumer)
    ≡ ok (stored "u4" (users "2.0.0" 12))
get_schema-set_schema_example =
    get_schema-set_schema "u4" (users "2.0.0" 12) with_consumer
      (Reachable-IsValid with_consumer reached).schemas_valid

get_schema_version-set_schema_example :
    get_schema_version "users" "1.0.0" two_versions ≡ ok (record (users "1.0.0" 5) { id = "u1" })
unfolding set_schema get put clear_latest
get_schema_version-set_schema_example =
    get_schema_version-set_schema "u2" (users "1.1.0" 9) one_version "users" "1.0.0"

abbrev both : Dict SchemaRecord
both =
    ("1.0.0", record (users "1.0.0" 5) { id = "u1" })
    ∷ ("1.1.0", stored "u2" (users "1.1.0" 9))
    ∷ []

both-Named : Named both
both-Named v r (head e) f = cc (ap (λ x. x.0) e, f)
both-Named v r (tail (head e)) f = cc (ap (λ x. x.0) e, f)
both-Named v r (tail (tail none_left)) f = elim none_left [ ]

get_previous_version-PreviousVersion_example :
    PreviousVersion "users" "1.1.0" 9 both (get_previous_version "users" "1.1.0" two_versions)
unfolding set_schema get put clear_latest
get_previous_version-PreviousVersion_example =
    get_previous_version-PreviousVersion "users" "1.1.0" two_versions both
      (stored "u2" (users "1.1.0" 9)) refl refl both-Named

previous_is_first : get_previous_version "users" "1.1.0" two_versions ≡ ok "1.0.0"
unfolding get_previous_version set_schema get put clear_latest latest_before
previous_is_first = refl

abbrev run : Bool → ValidationRecord
run valid = record {
  id = "v";
  schema_id = "users";
  schema_version = "1.0.0";
  request_method = "GET";
  request_path = "/users/1";
  valid = valid;
  errors = [];
  validated_at = 20;
  environment = "dev";
}

abbrev validated : MemoryStore
validated = record new_memory_store { validations = run true ∷ run false ∷ run true ∷ [] }

abbrev of_users : ListValidationsFilter
of_users = record {
  schema_id = "users";
  method = "";
  environment = "";
  valid = some true;
  start_time = 0;
  end_time = 30;
  page_size = pos 1;
}

get_validation_analytics-Statistics_example :
    Statistics of_users validated.validations (get_validation_analytics of_users validated)
get_validation_analytics-Statistics_example = get_validation_analytics-Statistics of_users validated

two_passed : (get_validation_analytics of_users validated).pass_count ≡ 2
unfolding get_validation_analytics count_validations count_validation
two_passed = refl

list_validations-Page_example :
    Page of_users validated.validations (list_validations of_users validated)
list_validations-Page_example = list_validations-Page of_users validated

get_consumer-register_consumer_example :
    ((stored : ConsumerRecord) × (get_consumer "order-service" "users" "prod"
          (register_consumer "u5" (order_service "3.0.0" 40) with_consumer)
        ≡ ok stored)
      × Registered "u5"
          (order_service "3.0.0" 40)
          (get_consumer "order-service" "users" "prod" with_consumer)
          stored)
    × ((consumer_id schema_id environment : String)
        → (make_consumer_key "order-service" "users" "prod"
            == make_consumer_key consumer_id schema_id environment)
          ≡ false
        → get_consumer consumer_id schema_id environment
            (register_consumer "u5" (order_service "3.0.0" 40) with_consumer)
          ≡ get_consumer consumer_id schema_id environment with_consumer)
get_consumer-register_consumer_example =
    get_consumer-register_consumer "u5" (order_service "3.0.0" 40) with_consumer
