-- ===== src/Cache.antt =====
-- server/cvtservice/cache.go: the server's cache of schemas, the list of versions that it keeps of
-- each schema, and its registry of consumers. Metrics and locks are left out, and entries are held
-- by value, without the router, and their metadata without its times and ownership.
mod Versions
pub mod Entries
mod Reachable
pub mod Listing
mod Tests
use cvt.Base.{
  ℕ, suc, ◌<◌, String, List, [], ◌∷◌, ◌++◌, Bool, true, false, not, ◌&&◌, ◌||◌, Option, none, some,
  ◌≡◌, ◌≢◌, if◌then◌else◌, concat, collect, only_if,
}
use text.Mathlib.Text.{◌==◌}
use cvt.Base.Dict.{Dict, get, put, delete, keys}
use cvt.Base.Sorting.{sort}
use cvt.OpenApi.{Document}
use cvt.Registry.{ConsumerEntry, make_consumer_key}

pub record SchemaMetadata : Type 0 where
  pub schema_id : String
  pub schema_version : String
  pub schema_hash : String
  pub openapi_version : String
  pub endpoint_count : ℕ

pub record SchemaEntry : Type 0 where
  pub document : Document
  pub content : String
  pub metadata : Option SchemaMetadata

-- `ristretto.Cache` is the package's. It may refuse or evict any entry at any time, and it is
-- documented to return for a key the value that was set last and not deleted since, or none.
pub record Ristretto (C : Type 0) : Type 0 where
  pub set_with_ttl : String → SchemaEntry → C → C
  pub find : String → C → Option SchemaEntry
  pub del : String → C → C
  pub clear : C → C
  pub find_set :
      (k : String) (e e' : SchemaEntry) (c : C) → find k (set_with_ttl k e c) ≡ some e' → e ≡ e'
  pub find_set_other :
      (j k : String) (e e' : SchemaEntry) (c : C)
      → j ≢ k
      → find j (set_with_ttl k e c) ≡ some e'
      → find j c ≡ some e'
  pub find_del : (k : String) (c : C) → find k (del k c) ≡ none
  pub find_del_other :
      (j k : String) (e : SchemaEntry) (c : C) → find j (del k c) ≡ some e → find j c ≡ some e
  pub find_clear : (k : String) (c : C) → find k (clear c) ≡ none

pub record SchemaCache (C : Type 0) : Type 0 where
  pub cache : C
  pub schema_versions : Dict (List String)
  pub consumers : Dict ConsumerEntry

abbrev pub make_versioned_key : String → String → String
make_versioned_key schema_id version = concat (schema_id ∷ "@" ∷ version ∷ [])

abbrev pub is_listed : String → List String → Bool
is_listed version [] = false
is_listed version (v ∷ vs) = if v == version then true else is_listed version vs

abbrev pub versions_of : String → Dict (List String) → List String
versions_of schema_id m = elim (get schema_id m) [ none ↦ [] | some vs ↦ vs ]

-- `trackVersion`.
unfoldable pub track_version : String → String → Dict (List String) → Dict (List String)
track_version schema_id version m =
    if is_listed version (versions_of schema_id m)
    then m
    else put schema_id (sort (versions_of schema_id m ++ (version ∷ []))) m

-- The loop of `GetPreviousVersion`.
unfoldable pub previous_of : String → List String → Option String
previous_of current_version [] = none
previous_of current_version (u ∷ []) = none
previous_of current_version (u ∷ v ∷ vs) =
    let rest = previous_of current_version (v ∷ vs) in if v == current_version then some u else rest

module _ {C : Type 0} (ristretto : Ristretto C) where
  -- `Set`: the bare key, and the key of the entry's version where it has one.
  unfoldable pub set : String → SchemaEntry → SchemaCache C → SchemaCache C
  set schema_id entry s = elim entry.metadata [
    | none ↦ record s { cache = latest }
    | some metadata ↦
        if metadata.schema_version == "" then record s { cache = latest } else record s {
          cache =
              ristretto.set_with_ttl (make_versioned_key schema_id metadata.schema_version) entry
                latest;
          schema_versions = track_version schema_id metadata.schema_version s.schema_versions;
        }
  ]
    where
      latest : C
      latest = ristretto.set_with_ttl schema_id entry s.cache

  unfoldable pub set_version : String → String → SchemaEntry → SchemaCache C → SchemaCache C
  set_version schema_id version entry s = record s {
    cache = ristretto.set_with_ttl (make_versioned_key schema_id version) entry s.cache;
    schema_versions = track_version schema_id version s.schema_versions;
  }

  unfoldable pub set_legacy : String → Document → SchemaCache C → SchemaCache C
  set_legacy schema_id schema =
      set schema_id (record { document = schema; content = ""; metadata = none })

  unfoldable pub get_latest : String → SchemaCache C → Option SchemaEntry
  get_latest schema_id s = ristretto.find schema_id s.cache

  unfoldable pub get_version : String → String → SchemaCache C → Option SchemaEntry
  get_version schema_id version s =
      if version == ""
      then get_latest schema_id s
      else ristretto.find (make_versioned_key schema_id version) s.cache

  unfoldable pub get_document : String → SchemaCache C → Option Document
  get_document schema_id s = elim (get_latest schema_id s) [
    | none ↦ none
    | some entry ↦ some entry.document
  ]

  unfoldable pub del_versions : String → List String → C → C
  del_versions schema_id [] c = c
  del_versions schema_id (v ∷ vs) c =
      del_versions schema_id vs (ristretto.del (make_versioned_key schema_id v) c)

  -- `Delete`: the bare key and the key of each tracked version.
  unfoldable pub delete_schema : String → SchemaCache C → SchemaCache C
  delete_schema schema_id s = record s {
    cache =
        del_versions schema_id (versions_of schema_id s.schema_versions)
          (ristretto.del schema_id s.cache);
    schema_versions = delete schema_id s.schema_versions;
  }

  unfoldable pub clear_all : SchemaCache C → SchemaCache C
  clear_all s = record s { cache = ristretto.clear s.cache; schema_versions = [] }

unfoldable pub list_schema_ids : {C : Type 0} → SchemaCache C → List String
list_schema_ids s = sort (keys s.schema_versions)

unfoldable pub list_versions : {C : Type 0} → String → SchemaCache C → List String
list_versions schema_id s = versions_of schema_id s.schema_versions

-- A list of fewer than two versions has no previous one, as in the code's first test.
unfoldable pub get_previous_version : {C : Type 0} → String → String → SchemaCache C → Option String
get_previous_version schema_id current_version s =
    previous_of current_version (list_versions schema_id s)

abbrev pub key_of : ConsumerEntry → String
key_of e = make_consumer_key e.consumer_id e.schema_id e.environment

abbrev pub renewed : ConsumerEntry → Option ConsumerEntry → ConsumerEntry
renewed entry none = entry
renewed entry (some existing) = record entry { registered_at = existing.registered_at }

unfoldable pub register_consumer : {C : Type 0} → ConsumerEntry → SchemaCache C → SchemaCache C
register_consumer entry s = record s {
  consumers = put (key_of entry) (renewed entry (get (key_of entry) s.consumers)) s.consumers;
}

abbrev pub is_consumer_of : String → String → ConsumerEntry → Bool
is_consumer_of schema_id environment c =
    c.schema_id == schema_id && (environment == "" || c.environment == environment)

unfoldable pub list_consumers : {C : Type 0} → String → String → SchemaCache C → List ConsumerEntry
list_consumers schema_id environment s =
    collect (λ e. only_if (is_consumer_of schema_id environment e.1) e.1) s.consumers

-- The new state, and whether the consumer was found.
unfoldable pub deregister_consumer :
    {C : Type 0} → String → String → String → SchemaCache C → SchemaCache C × Bool
deregister_consumer consumer_id schema_id environment s =
    let key = make_consumer_key consumer_id schema_id environment in
    elim (get key s.consumers) [
      | none ↦ (s, false)
      | some c ↦ (record s { consumers = delete key s.consumers }, true)
    ]

unfoldable pub get_consumer :
    {C : Type 0} → String → String → String → SchemaCache C → Option ConsumerEntry
get_consumer consumer_id schema_id environment s =
    get (make_consumer_key consumer_id schema_id environment) s.consumers
