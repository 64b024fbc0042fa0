-- ===== src/Service/Schemas/Tests.antt =====
-- Runs of `RegisterSchema` over a cache that evicts nothing, with and without the check.
use cvt.Base.{ℕ, String, [], ◌∷◌, true, false, none, some, ◌≡◌, refl}
use cvt.Base.Dict.{Dict, get}
use cvt.Samples.{by_key, keeping}
use cvt.Samples.Documents.{document, document_is_regular}
use cvt.Store.{new_memory_store, get_schema}
use cvt.Cache.{SchemaEntry, get_latest}
use cvt.Service.{External, parsed, no_spec, ValidatorService}
use cvt.Service.Requests.{
  is_blank, validate_schema_id, validate_schema_content, validate_register_schema_request,
}
use cvt.Service.Schemas.{
  RegisterSchemaRequest, prior_cached, lookup_prior_schema_for_compat, commit, commit_checked,
  register_valid, register_validated, register_parsed, register_schema,
}
use cvt.Service.Schemas.Committed.{
  Unregistered, ReadsBack, register_schema-Unregistered, register_schema-ReadsBack,
}
use cvt.Service.Schemas.Checked.{Checked, register_schema-Checked, register_schema-first}

-- No plugin; every text is a document with the version "2.0.0".
abbrev ext : External
ext = record {
  fetch_schema = λ schema_id version. no_spec;
  parse_and_convert_schema = λ content. parsed (document "number" []);
  validate = λ doc. none;
  build_router = λ doc. none;
  info_version = λ doc. "2.0.0";
  openapi = λ doc. "3.0.0";
  schema_hash = λ content. "h";
}

abbrev decimal : ℕ → String
decimal n = "some"

abbrev request : RegisterSchemaRequest
request = record {
  schema_id = "users";
  schema_content = "{}";
  schema_version = "";
  ownership = none;
  check_compatibility = false;
}

abbrev checked_request : RegisterSchemaRequest
checked_request = record request { check_compatibility = true }

abbrev earlier : SchemaEntry
earlier = record { document = document "integer" []; content = "{}"; metadata = none }

abbrev fresh : ValidatorService (Dict SchemaEntry)
fresh = record {
  cache = record { cache = []; schema_versions = []; consumers = [] };
  store = some new_memory_store;
}

abbrev known : ValidatorService (Dict SchemaEntry)
known = record fresh {
  cache = record { cache = ("users", earlier) ∷ []; schema_versions = []; consumers = [] };
}

register_schema-Unregistered_example :
    Unregistered keeping ext by_key decimal "u1" 7
      (record request { schema_version = "1.0.0" })
      fresh
      (register_schema keeping ext by_key decimal "u1" 7
        (record request { schema_version = "1.0.0" })
        fresh)
unfolding register_schema register_parsed register_validated register_valid
    validate_register_schema_request validate_schema_id validate_schema_content is_blank
register_schema-Unregistered_example =
    register_schema-Unregistered keeping ext by_key decimal "u1" 7
      (record request { schema_version = "1.0.0" }) fresh refl

register_schema-ReadsBack_example :
    ReadsBack keeping ext by_key decimal "u1" 7 request fresh
      (register_schema keeping ext by_key decimal "u1" 7 request fresh)
unfolding register_schema register_parsed register_validated register_valid commit
    validate_register_schema_request validate_schema_id validate_schema_content is_blank get
register_schema-ReadsBack_example =
    register_schema-ReadsBack keeping ext by_key decimal "u1" 7 request fresh new_memory_store refl
      (record { each = λ schema_id m e. cc }) refl

register_schema-Checked_example :
    Checked keeping ext by_key decimal "u1" 7 checked_request known earlier
      (register_schema keeping ext by_key decimal "u1" 7 checked_request known)
unfolding register_schema register_parsed register_validated register_valid commit commit_checked
    validate_register_schema_request validate_schema_id validate_schema_content is_blank get
    lookup_prior_schema_for_compat prior_cached get_latest
register_schema-Checked_example =
    register_schema-Checked keeping ext by_key decimal "u1" 7 checked_request known earlier known
      refl refl (document_is_regular "integer" []) refl

register_schema-first_example :
    (register_schema keeping ext by_key decimal "u1" 7 checked_request fresh).response.success
    ≡ false
unfolding get get_latest get_schema
register_schema-first_example =
    register_schema-first keeping ext by_key decimal "u1" 7 checked_request fresh new_memory_store
      "schema" "users" refl refl refl refl refl
