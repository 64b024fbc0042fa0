-- ===== src/Service/Queries.antt =====
-- server/cvtservice/validator_service.go: the calls that ask for a schema and that compare two of its
-- versions, `GetSchema` and `CompareSchemas`.
mod ReadBack
mod Shortcut
mod Tests
use cvt.Base.{String, List, [], ◌∷◌, Bool, true, false, Option, none, some, if◌then◌else◌}
use text.Mathlib.Text.{◌==◌}
use cvt.OpenApi.{Finder}
use cvt.Compat.Change.{BreakingChange}
use cvt.Compat.Server as Server
use cvt.Cache.{SchemaMetadata, SchemaEntry, Ristretto, SchemaCache, get_previous_version}
use cvt.Service.{External, ValidatorService, get_schema_entry}
use cvt.Service.Schemas.{BreakingChangeDetected, fire_on_breaking_change_detected}

pub record GetSchemaResponse : Type 0 where
  pub found : Bool
  pub metadata : Option SchemaMetadata
  pub schema_content : String

unfoldable pub schema_response : Option SchemaEntry → GetSchemaResponse
schema_response none = record { found = false; metadata = none; schema_content = "" }
schema_response (some entry) = record {
  found = true;
  metadata = entry.metadata;
  schema_content = entry.content;
}

pub record CompareSchemasRequest : Type 0 where
  pub schema_id : String
  pub old_version : String
  pub new_version : String

pub record CompareSchemasResponse : Type 0 where
  pub compatible : Bool
  pub breaking_changes : List BreakingChange
  pub old_schema : Option SchemaMetadata
  pub new_schema : Option SchemaMetadata

-- What a comparison comes to: the code panics where an entry has no metadata.
pub data Comparison : Type 0 where
  answered : CompareSchemasResponse → Option BreakingChangeDetected → Comparison
  nil_metadata : Comparison

-- Nothing to compare, which is reported as compatible.
abbrev pub incomparable : CompareSchemasResponse
incomparable = record {
  compatible = true;
  breaking_changes = [];
  old_schema = none;
  new_schema = none;
}

-- The texts of `req.OldVersion` and `req.NewVersion` where the request leaves them out.
unfoldable pub previous_version :
    {C : Type 0} → String → Option SchemaEntry → SchemaCache C → String
previous_version schema_id none c = ""
previous_version schema_id (some entry) c = elim entry.metadata [
  | none ↦ ""
  | some m ↦ elim (get_previous_version schema_id m.schema_version c) [ none ↦ "" | some v ↦ v ]
]

unfoldable pub latest_version : Option SchemaEntry → String
latest_version none = ""
latest_version (some entry) = elim entry.metadata [ none ↦ "" | some m ↦ m.schema_version ]

module _ (finder : Finder) where
  -- The engine's part.
  unfoldable pub compare_documents :
      String
      → String
      → String
      → SchemaEntry
      → SchemaEntry
      → SchemaMetadata
      → SchemaMetadata
      → Comparison
  compare_documents schema_id old_version new_version old new m n =
      let (changes, compatible) = Server.compare_schemas finder old.document new.document in
      answered
        (record {
          compatible = compatible;
          breaking_changes = changes;
          old_schema = some m;
          new_schema = some n;
        })
        (fire_on_breaking_change_detected schema_id old_version new_version changes
          "CompareSchemas")

  -- The shortcut for equal hashes, and the engine.
  unfoldable pub compare_found :
      String
      → String
      → String
      → SchemaEntry
      → SchemaEntry
      → Option SchemaMetadata
      → Option SchemaMetadata
      → Comparison
  compare_found schema_id old_version new_version old new (some m) (some n) =
      let compared = compare_documents schema_id old_version new_version old new m n in
      if m.schema_hash == n.schema_hash
      then answered
          (record {
            compatible = true;
            breaking_changes = [];
            old_schema = some m;
            new_schema = some n;
          })
          none
      else compared
  compare_found schema_id old_version new_version old new none n = nil_metadata
  compare_found schema_id old_version new_version old new (some m) none = nil_metadata

  unfoldable pub compare_entries :
      String → String → String → Option SchemaEntry → Option SchemaEntry → Comparison
  compare_entries schema_id old_version new_version (some old) (some new) =
      compare_found schema_id old_version new_version old new old.metadata new.metadata
  compare_entries schema_id old_version new_version none new = answered incomparable none
  compare_entries schema_id old_version new_version (some old) none = answered incomparable none

module _ {C : Type 0} (ristretto : Ristretto C) (ext : External) where
  unfoldable pub get_schema :
      String → String → ValidatorService C → GetSchemaResponse × ValidatorService C
  get_schema schema_id version s =
      let (entry, s') = get_schema_entry ristretto ext schema_id version s in
      if schema_id == "" then (schema_response none, s) else (schema_response entry, s')

  unfoldable pub old_version_of :
      CompareSchemasRequest → ValidatorService C → String × ValidatorService C
  old_version_of req s =
      let (entry, s') = get_schema_entry ristretto ext req.schema_id "" s in
      if req.old_version == ""
      then (previous_version req.schema_id entry s'.cache, s')
      else (req.old_version, s)

  unfoldable pub new_version_of :
      CompareSchemasRequest → ValidatorService C → String × ValidatorService C
  new_version_of req s =
      let (entry, s') = get_schema_entry ristretto ext req.schema_id "" s in
      if req.new_version == "" then (latest_version entry, s') else (req.new_version, s)

  -- An entry is looked up for a version that is not empty.
  unfoldable pub entry_at :
      String → String → ValidatorService C → Option SchemaEntry × ValidatorService C
  entry_at schema_id version s =
      let looked = get_schema_entry ristretto ext schema_id version s in
      if version == "" then (none, s) else looked

  unfoldable pub compare_schemas :
      Finder → CompareSchemasRequest → ValidatorService C → Comparison × ValidatorService C
  compare_schemas finder req s =
      let (old_version, s₁) = old_version_of req s in
      let (new_version, s₂) = new_version_of req s₁ in
      let (old, s₃) = entry_at req.schema_id old_version s₂ in
      let (new, s₄) = entry_at req.schema_id new_version s₃ in
      if req.schema_id == ""
      then (answered incomparable none, s)
      else (compare_entries finder req.schema_id old_version new_version old new, s₄)
