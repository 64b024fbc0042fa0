-- ===== src/Service/Queries/Tests.antt =====
-- Runs of `GetSchema` after `RegisterSchema`, and of `CompareSchemas` on two versions in the cache.
use cvt.Base.{ℕ, String, [], ◌∷◌, true, false, none, some, ◌≡◌, refl, inr}
use text.Mathlib.Text.{◌==◌}
use cvt.Base.Dict.{Dict, get}
use cvt.Samples.{by_key, keeping}
use cvt.Samples.Documents.{document, document_is_regular, document_once}
use cvt.Store.{new_memory_store}
use cvt.Cache.{SchemaMetadata, SchemaEntry, get_version}
use cvt.Service.{
  External, parsed, no_spec, ValidatorService, new_schema_entry, get_schema_entry, after_cache,
}
use cvt.Service.Requests.{
  is_blank, validate_schema_id, validate_schema_content, validate_register_schema_request,
}
use cvt.Service.Schemas.{
  RegisterSchemaRequest, commit, register_valid, register_validated, register_parsed,
  register_schema,
}
use cvt.Service.Queries.{CompareSchemasRequest, get_schema, compare_schemas}
use cvt.Service.Queries.ReadBack.{get_schema-register_schema}
use cvt.Service.Queries.Shortcut.{Verdict, compare_schemas-Verdict}

-- No plugin. The text "1" has another parameter type than all others, and every text is its own hash.
abbrev ext : External
ext = record {
  fetch_schema = λ schema_id version. no_spec;
  parse_and_convert_schema = λ content.
      parsed (document (elim (content == "1") [ true ↦ "integer" | false ↦ "number" ]) []);
  validate = λ doc. none;
  build_router = λ doc. none;
  info_version = λ doc. "2.0.0";
  openapi = λ doc. "3.0.0";
  schema_hash = λ content. content;
}

abbrev decimal : ℕ → String
decimal n = "some"

abbrev request : RegisterSchemaRequest
request = record {
  schema_id = "users";
  schema_content = "{}";
  schema_version = "2.0.0";
  ownership = none;
  check_compatibility = false;
}

abbrev fresh : ValidatorService (Dict SchemaEntry)
fresh = record {
  cache = record { cache = []; schema_versions = []; consumers = [] };
  store = some new_memory_store;
}

get_schema-register_schema_example :
    (get_schema keeping ext "users" "2.0.0"
      (register_schema keeping ext by_key decimal "u1" 7 request fresh).service).0
    ≡ record {
      found = true;
      metadata =
          (register_schema keeping ext by_key decimal "u1" 7 request fresh).response.metadata;
      schema_content = "{}";
    }
unfolding register_schema register_parsed register_validated register_valid commit
    validate_register_schema_request validate_schema_id validate_schema_content is_blank get
    new_schema_entry
get_schema-register_schema_example =
    get_schema-register_schema keeping ext by_key decimal "u1" 7 request fresh "2.0.0"
      new_memory_store refl (λ e. cc) refl (record { each = λ schema_id m e. cc }) refl (inr refl)

abbrev metadata_of : String → String → SchemaMetadata
metadata_of version content = record {
  schema_id = "users";
  schema_version = version;
  schema_hash = content;
  openapi_version = "3.0.0";
  endpoint_count = 1;
}

abbrev narrow : SchemaEntry
narrow = record {
  document = document "integer" [];
  content = "1";
  metadata = some (metadata_of "1.0.0" "1");
}

abbrev wide : SchemaEntry
wide = record {
  document = document "number" [];
  content = "2";
  metadata = some (metadata_of "2.0.0" "2");
}

abbrev both : ValidatorService (Dict SchemaEntry)
both = record {
  cache = record {
    cache = ("users@1.0.0", narrow) ∷ ("users@2.0.0", wide) ∷ [];
    schema_versions = ("users", "1.0.0" ∷ "2.0.0" ∷ []) ∷ [];
    consumers = [];
  };
  store = none;
}

abbrev comparison : CompareSchemasRequest
comparison = record { schema_id = "users"; old_version = "1.0.0"; new_version = "2.0.0" }

compare_schemas-Verdict_example :
    Verdict by_key narrow wide (compare_schemas keeping ext by_key comparison both).0
unfolding get_schema_entry after_cache get_version get
compare_schemas-Verdict_example =
    compare_schemas-Verdict keeping ext by_key comparison both narrow wide (λ e. cc) (λ e. cc)
      (λ e. cc) refl refl
      (record {
        metadata = metadata_of "1.0.0" "1";
        has_metadata = refl;
        parsed_as = refl;
        hashed = refl;
      })
      (record {
        metadata = metadata_of "2.0.0" "2";
        has_metadata = refl;
        parsed_as = refl;
        hashed = refl;
      })
      (document_is_regular "integer" []) (document_once "integer" []) (λ e. cc)
