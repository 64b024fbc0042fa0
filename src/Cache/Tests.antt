-- ===== src/Cache/Tests.antt =====
-- Runs of the cache over a ristretto that evicts nothing.
use cvt.Base.{String, [], none, some, ◌≡◌, refl, ◌⊎◌, ◌↔◌, Memᴰ}
use cvt.Base.Sorting.{insert, sort}
use cvt.Base.Dict.{Dict, get, put}
use cvt.Samples.{keeping}
use cvt.Registry.{ConsumerEntry}
use cvt.Cache.{
  SchemaMetadata, SchemaEntry, SchemaCache, versions_of, track_version, previous_of, set,
  set_version, get_latest, get_version, delete_schema, list_versions, get_previous_version,
  register_consumer,
}
use cvt.Cache.Versions.{PreviousText, track_version-mem, get_previous_version-PreviousText}
use cvt.Cache.Entries.{get_version-delete_schema}
use cvt.Cache.Reachable.{
  new_schema_cache, store, store_version, register, Reachable, start, next, IsValid, cache-IsValid,
}

abbrev metadata : String → SchemaMetadata
metadata version = record {
  schema_id = "users";
  schema_version = version;
  schema_hash = "";
  openapi_version = "3.0.0";
  endpoint_count = 1;
}

abbrev entry : String → SchemaEntry
entry version = record {
  document = record { paths = none };
  content = "{}";
  metadata = some (metadata version);
}

abbrev empty : SchemaCache (Dict SchemaEntry)
empty = new_schema_cache keeping []

abbrev one : SchemaCache (Dict SchemaEntry)
one = set keeping "users" (entry "1.9.0") empty

abbrev two : SchemaCache (Dict SchemaEntry)
two = set_version keeping "users" "1.10.0" (entry "1.10.0") one

abbrev web : ConsumerEntry
web = record {
  consumer_id = "web";
  consumer_version = "1";
  schema_id = "users";
  schema_version = "1.9.0";
  environment = "prod";
  registered_at = 3;
  last_validated_at = 3;
  used_endpoints = [];
}

abbrev three : SchemaCache (Dict SchemaEntry)
three = register_consumer web two

reached_two : Reachable keeping [] two
reached_two =
    next (next start (store "users" (entry "1.9.0")))
      (store_version "users" "1.10.0" (entry "1.10.0"))

cache-IsValid_example : IsValid keeping [] three
cache-IsValid_example = cache-IsValid keeping [] three (next reached_two (register web))

get_previous_version-PreviousText_example :
    PreviousText (list_versions "users" two) "1.9.0" (get_previous_version "users" "1.9.0" two)
get_previous_version-PreviousText_example =
    get_previous_version-PreviousText "users" "1.9.0" two
      (cache-IsValid keeping [] two reached_two).sorted

-- Texts are compared, so the version before 1.9.0 is 1.10.0.
before_nine : get_previous_version "users" "1.9.0" two ≡ some "1.10.0"
unfolding get_previous_version list_versions previous_of set set_version track_version get put
    insert sort
before_nine = refl

track_version-mem_example :
    Memᴰ "2.0.0" (versions_of "users" (track_version "users" "2.0.0" two.schema_versions)) ↔ (
      ((◌≡◌ {A = String} "users" "users") × (◌≡◌ {A = String} "2.0.0" "2.0.0"))
      ⊎ Memᴰ "2.0.0" (versions_of "users" two.schema_versions))
track_version-mem_example = track_version-mem "users" "2.0.0" two.schema_versions "users" "2.0.0"

get_version-delete_schema_example :
    (get_latest keeping "users" (delete_schema keeping "users" two) ≡ none)
    × (list_versions "users" (delete_schema keeping "users" two) ≡ [])
    × ((v : String)
        → Memᴰ v (list_versions "users" two)
        → get_version keeping "users" v (delete_schema keeping "users" two) ≡ none)
get_version-delete_schema_example = get_version-delete_schema keeping "users" two
