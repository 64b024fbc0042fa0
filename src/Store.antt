-- ===== src/Store.antt =====
-- server/storage/memory.go: the in-memory implementation of `storage.Store`, its schemas. The
-- records of server/storage/storage.go are held by value: the pointers that a caller keeps are not
-- modelled, nor is the lock. A time is a number, 0 for Go's zero time, and the text that
-- `uuid.New` makes is an argument. A map is read in the order of its `Dict`.
pub mod Consumers
pub mod Validations
pub mod Latest
pub mod SetSchema
mod Previous
mod Reachable
mod Accepted
mod Analytics
mod Listing
pub mod Registrations
mod Tests
use cvt.Base.{
  ℕ, String, List, [], ◌∷◌, ◌++◌, Bool, true, false, not, ◌&&◌, ◌||◌, Option, none, some,
  if◌then◌else◌, concat, ltb, collect, only_if,
}
use text.Mathlib.Text.{◌==◌}
use cvt.Base.Dict.{Dict, get, put, delete, keys}
use cvt.Base.Sorting.{sort}
use cvt.Registry.{EndpointUsage, ConsumerRecord}
use cvt.Compat.Change.{BreakingChange}

-- `ErrNotFound`, the one error of the store, or a result.
pub data Result {ℓ} (A : Type ℓ) : Type ℓ where
  ok : A → Result A
  not_found : (resource id : String) → Result A

pub record SchemaOwnership : Type 0 where
  pub owner : String
  pub team : String

-- The parsed document is transient, and is not stored.
pub record SchemaRecord : Type 0 where
  pub id : String
  pub schema_id : String
  pub version : String
  pub content : String
  pub content_hash : String
  pub openapi_version : String
  pub endpoint_count : ℕ
  pub is_latest : Bool
  pub registered_at : ℕ
  pub updated_at : ℕ
  pub ownership : Option SchemaOwnership
  pub environment : String

pub record ValidationRecord : Type 0 where
  pub id : String
  pub schema_id : String
  pub schema_version : String
  pub request_method : String
  pub request_path : String
  pub valid : Bool
  pub errors : List String
  pub validated_at : ℕ
  pub environment : String

pub record ComparisonRecord : Type 0 where
  pub id : String
  pub schema_id : String
  pub old_version : String
  pub new_version : String
  pub compatible : Bool
  pub breaking_changes : List BreakingChange
  pub compared_at : ℕ

pub record MemoryStore : Type 0 where
  pub schemas : Dict (Dict SchemaRecord)
  pub validations : List ValidationRecord
  pub comparisons : Dict ComparisonRecord
  pub consumers : Dict ConsumerRecord

abbrev pub new_memory_store : MemoryStore
new_memory_store = record { schemas = []; validations = []; comparisons = []; consumers = [] }

-- An identifier that is absent is made.
abbrev pub id_or : String → String → String
id_or uuid id = if id == "" then uuid else id

-- Reading a missing entry of a map of maps reads a nil map, which is empty.
abbrev pub versions_of : String → Dict (Dict SchemaRecord) → Dict SchemaRecord
versions_of schema_id schemas = elim (get schema_id schemas) [
  | none ↦ []
  | some versions ↦ versions
]

-- The loop of `SetSchema` that marks all versions as not latest.
unfoldable pub clear_latest : Dict SchemaRecord → Dict SchemaRecord
clear_latest [] = []
clear_latest ((v, r) ∷ m) = (v, record r { is_latest = false }) ∷ clear_latest m

-- The record that `SetSchema` stores.
abbrev pub stored : String → SchemaRecord → SchemaRecord
stored uuid r = record r { id = id_or uuid r.id; is_latest = true }

unfoldable pub set_schema : String → SchemaRecord → MemoryStore → MemoryStore
set_schema uuid r s = record s { schemas = put r.schema_id versions s.schemas }
  where
    versions : Dict SchemaRecord
    versions = put r.version (stored uuid r) (clear_latest (versions_of r.schema_id s.schemas))

unfoldable pub find_latest : Dict SchemaRecord → Option SchemaRecord
find_latest [] = none
find_latest ((v, r) ∷ m) = if r.is_latest then some r else find_latest m

unfoldable pub get_schema : String → MemoryStore → Result SchemaRecord
get_schema schema_id s = elim (get schema_id s.schemas) [
  | none ↦ not_found "schema" schema_id
  | some versions ↦ elim (find_latest versions) [
    | none ↦ not_found "schema" schema_id
    | some r ↦ ok r
  ]
]

abbrev pub at_version : String → String → String
at_version schema_id version = concat (schema_id ∷ "@" ∷ version ∷ [])

unfoldable pub get_schema_version : String → String → MemoryStore → Result SchemaRecord
get_schema_version schema_id version s = elim (get schema_id s.schemas) [
  | none ↦ not_found "schema" schema_id
  | some versions ↦ elim (get version versions) [
    | none ↦ not_found "schema version" (at_version schema_id version)
    | some r ↦ ok r
  ]
]

unfoldable pub delete_schema : String → MemoryStore → Result MemoryStore
delete_schema schema_id s = elim (get schema_id s.schemas) [
  | none ↦ not_found "schema" schema_id
  | some versions ↦ ok (record s { schemas = delete schema_id s.schemas })
]

unfoldable pub delete_schema_version : String → String → MemoryStore → Result MemoryStore
delete_schema_version schema_id version s = elim (get schema_id s.schemas) [
  | none ↦ not_found "schema" schema_id
  | some versions ↦ elim (get version versions) [
    | none ↦ not_found "schema version" (at_version schema_id version)
    | some r ↦ ok (record s { schemas = put schema_id (delete version versions) s.schemas })
  ]
]

unfoldable pub list_schema_ids : MemoryStore → List String
list_schema_ids s = sort (keys s.schemas)

-- Go returns a nil slice for a missing schema.
unfoldable pub list_versions : String → MemoryStore → List String
list_versions schema_id s = keys (versions_of schema_id s.schemas)

pub record ListSchemasFilter : Type 0 where
  pub owner : String
  pub team : String
  pub environment : String

-- `filter.Owner != "" && (record.Ownership == nil || record.Ownership.Owner != filter.Owner)`,
-- negated; the same for the team.
abbrev pub owned_by : (SchemaOwnership → String) → String → Option SchemaOwnership → Bool
owned_by name wanted ownership =
    wanted == "" || (elim ownership [ none ↦ false | some o ↦ name o == wanted ])

abbrev pub listed_schema : ListSchemasFilter → SchemaRecord → Bool
listed_schema filter r =
    r.is_latest
    && (owned_by (λ o. o.owner) filter.owner r.ownership
        && (owned_by (λ o. o.team) filter.team r.ownership
            && (filter.environment == "" || r.environment == filter.environment)))

-- The schemas that are listed; the page token is empty and the count is their number.
unfoldable pub list_schemas : ListSchemasFilter → MemoryStore → List SchemaRecord
list_schemas filter s =
    collect (λ e. collect (λ d. only_if (listed_schema filter d.1) d.1) e.1) s.schemas

-- The loop of `GetPreviousVersion`, whose variables are empty and zero before it.
unfoldable pub latest_before : String → ℕ → String → ℕ → Dict SchemaRecord → String
latest_before current_version limit previous_version previous_time [] = previous_version
latest_before current_version limit previous_version previous_time ((v, r) ∷ m) =
    let rest = latest_before current_version limit v r.registered_at m in
    let skipped = latest_before current_version limit previous_version previous_time m in
    if not (v == current_version) && ltb r.registered_at limit
    then (if previous_version == "" || ltb previous_time r.registered_at then rest else skipped)
    else skipped

unfoldable pub get_previous_version : String → String → MemoryStore → Result String
get_previous_version schema_id current_version s = elim (get schema_id s.schemas) [
  | none ↦ not_found "schema" schema_id
  | some versions ↦ elim (get current_version versions) [
    | none ↦ not_found "schema version" (at_version schema_id current_version)
    | some current ↦
        let previous = latest_before current_version current.registered_at "" 0 versions in
        if previous == "" then not_found "previous version" schema_id else ok previous
  ]
]
