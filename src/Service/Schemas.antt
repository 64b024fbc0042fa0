-- ===== src/Service/Schemas.antt =====
-- server/cvtservice/validator_service.go: `RegisterSchema`, with the check of compatibility against
-- the version that was registered before, over the in-memory store, whose `SetSchema` never fails.
-- The metadata is without its times and ownership, as in Cache, and the mirror into the fixture
-- generator is left out. A call of the hook is a value that the answer holds.
pub mod Outcome
pub mod Committed
pub mod Checked
mod Tests
use cvt.Base.{
  ℕ, String, List, [], ◌∷◌, Bool, true, false, not, ◌&&◌, Option, none, some, if◌then◌else◌, concat,
}
use text.Mathlib.Text.{◌==◌}
use cvt.OpenApi.{Document, Finder}
use cvt.Compat.Change.{BreakingChange}
use cvt.Compat.Server.{compare_schemas}
use cvt.Store.{
  SchemaOwnership, SchemaRecord, MemoryStore, Result, ok, not_found, set_schema, get_schema,
}
use cvt.Cache.{SchemaMetadata, SchemaEntry, Ristretto, set, get_latest}
use cvt.Service.{
  Parsed, rejected, parsed, External, ValidatorService, new_schema_entry, PluginAnswer, supplied,
  failed, nothing, try_fetch_schema_from_plugin,
}
use cvt.Service.Requests.{validate_register_schema_request}

pub record RegisterSchemaRequest : Type 0 where
  pub schema_id : String
  pub schema_content : String
  pub schema_version : String
  pub ownership : Option SchemaOwnership
  pub check_compatibility : Bool

pub record RegisterSchemaResponse : Type 0 where
  pub success : Bool
  pub message : String
  pub metadata : Option SchemaMetadata
  pub breaking_changes : List BreakingChange

-- `eventspb.BreakingChangeDetectedRequest`.
pub record BreakingChangeDetected : Type 0 where
  pub schema_id : String
  pub old_version : String
  pub new_version : String
  pub changes : List BreakingChange
  pub detected_by : String

-- What a call comes to: the response, the hook's request where the hook was called, and the state.
pub record Answer (C : Type 0) : Type 0 where
  pub response : RegisterSchemaResponse
  pub fired : Option BreakingChangeDetected
  pub service : ValidatorService C

unfoldable pub fire_on_breaking_change_detected :
    String → String → String → List BreakingChange → String → Option BreakingChangeDetected
fire_on_breaking_change_detected schema_id old_version new_version [] detected_by = none
fire_on_breaking_change_detected schema_id old_version new_version (c ∷ cs) detected_by =
    some (record {
      schema_id = schema_id;
      old_version = old_version;
      new_version = new_version;
      changes = c ∷ cs;
      detected_by = detected_by;
    })

-- The results of `lookupPriorSchemaForCompat`.
pub data Prior : Type 0 where
  prior : SchemaEntry → Prior
  no_prior : Prior
  lookup_error : (message : String) → Prior

abbrev pub version_of : Option SchemaMetadata → String
version_of none = ""
version_of (some metadata) = metadata.schema_version

unfoldable pub prior_valid : External → String → SchemaRecord → Document → Option String → Prior
prior_valid ext schema_id r doc (some message) =
    lookup_error (concat ("validate rehydrated prior schema: " ∷ message ∷ []))
prior_valid ext schema_id r doc none =
    prior (new_schema_entry ext schema_id r.content doc r.version)

unfoldable pub prior_parsed : External → String → SchemaRecord → Parsed → Prior
prior_parsed ext schema_id r (rejected message) =
    lookup_error (concat ("rehydrate prior schema: " ∷ message ∷ []))
prior_parsed ext schema_id r (parsed doc) = prior_valid ext schema_id r doc (ext.validate doc)

-- The store's error is returned, with the text of its `Error` method.
unfoldable pub prior_result : External → String → Result SchemaRecord → Prior
prior_result ext schema_id (not_found resource id) =
    lookup_error (concat (resource ∷ " not found: " ∷ id ∷ []))
prior_result ext schema_id (ok r) =
    prior_parsed ext schema_id r (ext.parse_and_convert_schema r.content)

unfoldable pub prior_stored : External → String → Option MemoryStore → Prior
prior_stored ext schema_id none = no_prior
prior_stored ext schema_id (some store) = prior_result ext schema_id (get_schema schema_id store)

unfoldable pub prior_answer : External → String → PluginAnswer → Option MemoryStore → Prior
prior_answer ext schema_id (supplied entry) store = prior entry
prior_answer ext schema_id (failed message) store = lookup_error message
prior_answer ext schema_id nothing store = prior_stored ext schema_id store

module _ {C : Type 0} (ristretto : Ristretto C) (ext : External) where
  unfoldable pub prior_cached :
      String → ValidatorService C → Option SchemaEntry → Prior × ValidatorService C
  prior_cached schema_id s (some entry) = (prior entry, s)
  prior_cached schema_id s none =
      let (answer, s') = try_fetch_schema_from_plugin ristretto ext schema_id "" s in
      (prior_answer ext schema_id answer s'.store, s')

  unfoldable pub lookup_prior_schema_for_compat :
      String → ValidatorService C → Prior × ValidatorService C
  lookup_prior_schema_for_compat schema_id s =
      prior_cached schema_id s (get_latest ristretto schema_id s.cache)

abbrev pub refuse : {C : Type 0} → String → ValidatorService C → Answer C
refuse message s = record {
  response = record { success = false; message = message; metadata = none; breaking_changes = [] };
  fired = none;
  service = s;
}

-- The entry and the record of a schema that is registered.
abbrev pub registered_entry : External → RegisterSchemaRequest → Document → SchemaEntry
registered_entry ext req doc =
    new_schema_entry ext req.schema_id req.schema_content doc (ext.info_version doc)

abbrev pub registered_record : External → ℕ → RegisterSchemaRequest → Document → SchemaRecord
registered_record ext now req doc = record {
  id = "";
  schema_id = req.schema_id;
  version = ext.info_version doc;
  content = req.schema_content;
  content_hash = elim (registered_entry ext req doc).metadata [
    | none ↦ ""
    | some m ↦ m.schema_hash
  ];
  openapi_version = elim (registered_entry ext req doc).metadata [
    | none ↦ ""
    | some m ↦ m.openapi_version
  ];
  endpoint_count = elim (registered_entry ext req doc).metadata [
    | none ↦ 0
    | some m ↦ m.endpoint_count
  ];
  is_latest = false;
  registered_at = now;
  updated_at = now;
  ownership = req.ownership;
  environment = "";
}

-- The write-through.
unfoldable pub written : String → SchemaRecord → Option MemoryStore → Option MemoryStore
written uuid r none = none
written uuid r (some store) = some (set_schema uuid r store)

abbrev pub mismatched : External → RegisterSchemaRequest → Document → Bool
mismatched ext req doc =
    not (req.schema_version == "") && not (req.schema_version == ext.info_version doc)

module _ {C : Type 0} (ristretto : Ristretto C) (ext : External) (finder : Finder)
    (decimal : ℕ → String) where
  -- The last part of `RegisterSchema`, from the router on, with what `buildRouter` returned.
  unfoldable pub commit :
      String
      → ℕ
      → RegisterSchemaRequest
      → Document
      → String
      → List BreakingChange
      → ValidatorService C
      → Option String
      → Answer C
  commit uuid now req doc prior_version changes s (some message) =
      refuse (concat ("Failed to build router: " ∷ message ∷ [])) s
  commit uuid now req doc prior_version changes s none = record {
    response = record {
      success = true;
      message = "Schema registered successfully";
      metadata = (registered_entry ext req doc).metadata;
      breaking_changes = changes;
    };
    fired =
        fire_on_breaking_change_detected req.schema_id prior_version (ext.info_version doc) changes
          "RegisterSchema";
    service = record s {
      cache = set ristretto req.schema_id (registered_entry ext req doc) s.cache;
      store = written uuid (registered_record ext now req doc) s.store;
    };
  }

  unfoldable pub commit_checked :
      String → ℕ → RegisterSchemaRequest → Document → Prior → ValidatorService C → Answer C
  commit_checked uuid now req doc (lookup_error message) s =
      refuse
        (concat (
          "Failed to check compatibility: storage error during prior-version lookup: " ∷ message
          ∷ []))
        s
  commit_checked uuid now req doc no_prior s =
      commit uuid now req doc "" [] s (ext.build_router doc)
  commit_checked uuid now req doc (prior entry) s =
      commit uuid now req doc (version_of entry.metadata)
        (compare_schemas finder entry.document doc).0 s (ext.build_router doc)

  unfoldable pub register_valid :
      String → ℕ → RegisterSchemaRequest → Document → ValidatorService C → Answer C
  register_valid uuid now req doc s =
      let (found, s') = lookup_prior_schema_for_compat ristretto ext req.schema_id s in
      if ext.info_version doc == ""
      then refuse "Schema must have info.version defined" s
      else (if mismatched ext req doc
          then refuse
              (concat (
                "Version mismatch: provided version '"
                ∷ req.schema_version
                ∷ "' does not match schema info.version '"
                ∷ ext.info_version doc
                ∷ "'"
                ∷ []))
              s
          else (if req.check_compatibility
              then commit_checked uuid now req doc found s'
              else commit uuid now req doc "" [] s (ext.build_router doc)))

  unfoldable pub register_validated :
      String → ℕ → RegisterSchemaRequest → Document → ValidatorService C → Option String → Answer C
  register_validated uuid now req doc s (some message) =
      refuse (concat ("Invalid OpenAPI schema: " ∷ message ∷ [])) s
  register_validated uuid now req doc s none = register_valid uuid now req doc s

  unfoldable pub register_parsed :
      String → ℕ → RegisterSchemaRequest → ValidatorService C → Parsed → Answer C
  register_parsed uuid now req s (rejected message) =
      refuse (concat ("Failed to parse schema: " ∷ message ∷ [])) s
  register_parsed uuid now req s (parsed doc) =
      register_validated uuid now req doc s (ext.validate doc)

  unfoldable pub register_schema :
      String → ℕ → RegisterSchemaRequest → ValidatorService C → Answer C
  register_schema uuid now req s =
      elim (validate_register_schema_request decimal req.schema_id req.schema_content) [
        | some message ↦ refuse (concat ("Validation error: " ∷ message ∷ [])) s
        | none ↦ register_parsed uuid now req s (ext.parse_and_convert_schema req.schema_content)
      ]
