-- ===== src/Service.antt =====
-- server/cvtservice/validator_service.go and hooks_fire.go: how the server looks a schema up, in its
-- cache, at a plugin and in the store; and schema_metadata.go: the entries that it makes.
mod Requests
mod Lookup
mod Schemas
mod Queries
mod Registration
mod Deregistration
mod Deployment
mod Tests
use cvt.Base.{
  ℕ, ◌+◌, String, List, [], ◌∷◌, Bool, true, false, not, ◌&&◌, ◌||◌, Option, none, some,
  if◌then◌else◌,
}
use text.Mathlib.Text.{◌==◌}
use cvt.OpenApi.{Operation, PathItem, Paths, Document}
use cvt.Registry.{ConsumerEntry}
use cvt.Store.{SchemaRecord, MemoryStore, Result, ok, not_found, get_schema, get_schema_version}
use cvt.Cache.{
  SchemaEntry, Ristretto, SchemaCache, set, set_version, get_latest, get_version, list_consumers,
}
use cvt.Deploy.{SchemaSource}

-- What the `fetch_schema` hook answers: an error, no text, or a text with the version that it was
-- resolved to.
pub data Fetched : Type 0 where
  refusal : (message : String) → Fetched
  no_spec : Fetched
  spec : (content resolved_version : String) → Fetched

-- What `parseAndConvertSchema` returns: an error, or a document.
pub data Parsed : Type 0 where
  rejected : (message : String) → Parsed
  parsed : Document → Parsed

-- What the service asks of code outside the repository: the plugin, the OpenAPI packages and SHA-256.
-- The tests return the text of their error, if they have one: `validate` is `Validate` of a
-- document, and `build_router` that of gorillamux over the document without the paths of its servers.
pub record External : Type 0 where
  pub fetch_schema : String → String → Fetched
  pub parse_and_convert_schema : String → Parsed
  pub validate : Document → Option String
  pub build_router : Document → Option String
  pub info_version : Document → String
  pub openapi : Document → String
  pub schema_hash : String → String

unfoldable pub valid_document : External → Parsed → Option Document
valid_document ext (rejected message) = none
valid_document ext (parsed doc) = elim (ext.validate doc) [
  | some message ↦ none
  | none ↦ elim (ext.build_router doc) [ some message ↦ none | none ↦ some doc ]
]

-- The document of a text that can be parsed, is valid and has a router: what is tested wherever a
-- text of the plugin or of the store becomes an entry.
unfoldable pub usable : External → String → Option Document
usable ext content = valid_document ext (ext.parse_and_convert_schema content)

-- The state that the lookup reads and writes. The store is absent where none is configured.
pub record ValidatorService (C : Type 0) : Type 0 where
  pub cache : SchemaCache C
  pub store : Option MemoryStore

abbrev pub present : Option Operation → ℕ
present none = 0
present (some op) = 1

abbrev pub count_methods : PathItem → ℕ
count_methods p =
    present p.get_op
    + (present p.post_op
        + (present p.put_op
            + (present p.delete_op
                + (present p.patch_op + (present p.head_op + present p.options_op)))))

abbrev pub count_paths : Paths → ℕ
count_paths [] = 0
count_paths ((path, item) ∷ m) = count_methods item + count_paths m

unfoldable pub count_endpoints : Document → ℕ
count_endpoints doc = elim doc.paths [ none ↦ 0 | some paths ↦ count_paths paths ]

-- `NewSchemaEntry`, without the times and the ownership.
unfoldable pub new_schema_entry : External → String → String → Document → String → SchemaEntry
new_schema_entry ext schema_id content doc version = record {
  document = doc;
  content = content;
  metadata = some (record {
    schema_id = schema_id;
    schema_version = version;
    schema_hash = ext.schema_hash content;
    openapi_version = if ext.openapi doc == "" then "3.0.0" else ext.openapi doc;
    endpoint_count = count_endpoints doc;
  });
}

-- What `tryFetchSchemaFromPlugin` returns: an entry, an error, or neither.
pub data PluginAnswer : Type 0 where
  supplied : SchemaEntry → PluginAnswer
  failed : (message : String) → PluginAnswer
  nothing : PluginAnswer

module _ {C : Type 0} (ristretto : Ristretto C) (ext : External) where
  -- Under the requested version, and under the resolved one where that is another.
  unfoldable pub cache_fetched :
      String → String → String → SchemaEntry → SchemaCache C → SchemaCache C
  cache_fetched schema_id version resolved_version entry c =
      let requested = set_version ristretto schema_id version entry c in
      if version == ""
      then set ristretto schema_id entry c
      else (if not (resolved_version == "") && not (resolved_version == version)
          then set_version ristretto schema_id resolved_version entry requested
          else requested)

  -- A text of the plugin that is usable, or not.
  unfoldable pub use_fetched :
      String
      → String
      → String
      → String
      → ValidatorService C
      → Option Document
      → PluginAnswer × ValidatorService C
  use_fetched schema_id version content resolved s none = (nothing, s)
  use_fetched schema_id version content resolved s (some doc) =
      let resolved_version = if resolved == "" then ext.info_version doc else resolved in
      let entry = new_schema_entry ext schema_id content doc resolved_version in
      (
        supplied entry,
        record s { cache = cache_fetched schema_id version resolved_version entry s.cache },
      )

  unfoldable pub use_answer :
      String → String → ValidatorService C → Fetched → PluginAnswer × ValidatorService C
  use_answer schema_id version s (refusal message) = (failed message, s)
  use_answer schema_id version s no_spec = (nothing, s)
  use_answer schema_id version s (spec content resolved) =
      let used = use_fetched schema_id version content resolved s (usable ext content) in
      if content == "" then (nothing, s) else used

  unfoldable pub try_fetch_schema_from_plugin :
      String → String → ValidatorService C → PluginAnswer × ValidatorService C
  try_fetch_schema_from_plugin schema_id version s =
      use_answer schema_id version s (ext.fetch_schema schema_id version)

  -- The record of a version, or of the latest one.
  abbrev pub find_record : String → String → MemoryStore → Result SchemaRecord
  find_record schema_id version store =
      if version == ""
      then get_schema schema_id store
      else get_schema_version schema_id version store

  -- The last part of `getSchemaEntry`: a record of the store is parsed again and cached.
  unfoldable pub use_record :
      String
      → String
      → SchemaRecord
      → ValidatorService C
      → Option Document
      → Option SchemaEntry × ValidatorService C
  use_record schema_id version r s none = (none, s)
  use_record schema_id version r s (some doc) =
      let entry = new_schema_entry ext schema_id r.content doc r.version in
      (
        some entry,
        record s {
          cache =
              if version == ""
              then set ristretto schema_id entry s.cache
              else set_version ristretto schema_id r.version entry s.cache;
        },
      )

  unfoldable pub use_result :
      String
      → String
      → ValidatorService C
      → Result SchemaRecord
      → Option SchemaEntry × ValidatorService C
  use_result schema_id version s (not_found resource id) = (none, s)
  use_result schema_id version s (ok r) = use_record schema_id version r s (usable ext r.content)

  unfoldable pub rehydrate :
      String
      → String
      → ValidatorService C
      → Option MemoryStore
      → Option SchemaEntry × ValidatorService C
  rehydrate schema_id version s none = (none, s)
  rehydrate schema_id version s (some store) =
      use_result schema_id version s (find_record schema_id version store)

  unfoldable pub after_plugin :
      String → String → PluginAnswer → ValidatorService C → Option SchemaEntry × ValidatorService C
  after_plugin schema_id version (supplied entry) s = (some entry, s)
  after_plugin schema_id version (failed message) s = (none, s)
  after_plugin schema_id version nothing s = rehydrate schema_id version s s.store

  unfoldable pub after_cache :
      String
      → String
      → ValidatorService C
      → Option SchemaEntry
      → Option SchemaEntry × ValidatorService C
  after_cache schema_id version s (some entry) = (some entry, s)
  after_cache schema_id version s none =
      let (answer, s') = try_fetch_schema_from_plugin schema_id version s in
      after_plugin schema_id version answer s'

  unfoldable pub get_schema_entry :
      String → String → ValidatorService C → Option SchemaEntry × ValidatorService C
  get_schema_entry schema_id version s =
      after_cache schema_id version s (get_version ristretto schema_id version s.cache)

  -- What `CanIDeploy` asks of the service.
  abbrev pub service_source : SchemaSource (ValidatorService C)
  service_source = record {
    get_schema_entry = λ schema_id version s.
        let (found, s') = get_schema_entry schema_id version s in
        (elim found [ none ↦ none | some entry ↦ some entry.document ], s');
    list_consumers = λ schema_id environment s. list_consumers schema_id environment s.cache;
  }
