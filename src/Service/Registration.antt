-- ===== src/Service/Registration.antt =====
-- server/cvtservice/consumer_registry.go: the registration of a consumer by the service. The hook
-- that tells a plugin of it is left out.
pub mod Outcome
use cvt.Base.{
  ℕ, String, [], ◌∷◌, Bool, true, false, Option, none, some, ◌≡◌, ◌≢◌, ◌⊎◌, inl, inr, apart_of_test,
  eq_iff, Bool-cases, if-true, if-false, some_inj, subst, refl, ap, ◌∙◌, if◌then◌else◌, concat,
  length, leb, List,
}
use text.Mathlib.Text.{◌==◌}
use cvt.Base.Dict.{get, get-put, get-put_self}
use cvt.Registry.{EndpointUsage, ConsumerEntry, ConsumerRecord, make_consumer_key}
use cvt.Store.{MemoryStore}
use cvt.Store.Consumers as Stored
use cvt.Cache.{SchemaEntry, Ristretto, SchemaCache, list_consumers, get_consumer, renewed}
use cvt.Cache as Cache
use cvt.Service.{External, ValidatorService, get_schema_entry}
use cvt.Service.Lookup.{get_schema_entry-consumers}

pub record RegisterConsumerRequest : Type 0 where
  pub consumer_id : String
  pub consumer_version : String
  pub schema_id : String
  pub schema_version : String
  pub environment : String
  pub used_endpoints : List EndpointUsage

pub record RegisterConsumerResponse : Type 0 where
  pub success : Bool
  pub message : String
  pub consumer : Option ConsumerEntry

abbrev pub max_consumers_per_schema : ℕ
max_consumers_per_schema = 10000

-- The environment of a request, "dev" where it names none.
abbrev pub dev_or : String → String
dev_or environment = if environment == "" then "dev" else environment

-- The entry for the cache, and the record for the store.
abbrev pub entry_of : ℕ → RegisterConsumerRequest → ConsumerEntry
entry_of now req = record {
  consumer_id = req.consumer_id;
  consumer_version = req.consumer_version;
  schema_id = req.schema_id;
  schema_version = req.schema_version;
  environment = dev_or req.environment;
  registered_at = now;
  last_validated_at = now;
  used_endpoints = req.used_endpoints;
}

abbrev pub record_of : ℕ → RegisterConsumerRequest → ConsumerRecord
record_of now req = record {
  id = "";
  consumer_id = req.consumer_id;
  consumer_version = req.consumer_version;
  schema_id = req.schema_id;
  schema_version = req.schema_version;
  environment = dev_or req.environment;
  registered_at = now;
  last_validated_at = now;
  used_endpoints = req.used_endpoints;
}

abbrev pub failure : String → RegisterConsumerResponse
failure message = record { success = false; message = message; consumer = none }

abbrev pub persisted : String → ConsumerRecord → Option MemoryStore → Option MemoryStore
persisted uuid r none = none
persisted uuid r (some store) = some (Stored.register_consumer uuid r store)

module _ {C : Type 0} (ristretto : Ristretto C) (ext : External) (decimal : ℕ → String) where
  -- The part after the lookup of the schema.
  unfoldable pub register_found :
      String
      → ℕ
      → RegisterConsumerRequest
      → Option SchemaEntry
      → ValidatorService C
      → RegisterConsumerResponse × ValidatorService C
  register_found uuid now req none s =
      (failure (concat ("schema not found: " ∷ req.schema_id ∷ [])), s)
  register_found uuid now req (some found) s =
      if leb max_consumers_per_schema (length (list_consumers req.schema_id "" s.cache))
      then (
        failure (
            concat (
              "maximum consumers per schema reached ("
              ∷ decimal max_consumers_per_schema
              ∷ ")"
              ∷ [])),
        s,
      )
      else (
        record {
          success = true;
          message = "Consumer registered successfully";
          consumer = some (entry_of now req);
        },
        record s {
          cache = Cache.register_consumer (entry_of now req) s.cache;
          store = persisted uuid (record_of now req) s.store;
        },
      )

  unfoldable pub register_consumer :
      String
      → ℕ
      → RegisterConsumerRequest
      → ValidatorService C
      → RegisterConsumerResponse × ValidatorService C
  register_consumer uuid now req s =
      if req.consumer_id == ""
      then (failure "consumer_id is required", s)
      else (if req.schema_id == ""
          then (failure "schema_id is required", s)
          else (let (found, s') = get_schema_entry ristretto ext req.schema_id "" s in
              register_found uuid now req found s'))
