-- ===== src/Store/Consumers.antt =====
-- server/storage/memory.go: the comparisons and the consumer registry of the in-memory store.
use cvt.Base.{
  ℕ, String, List, [], ◌∷◌, Bool, ◌&&◌, ◌||◌, Option, none, some, concat, collect, only_if,
}
use text.Mathlib.Text.{◌==◌}
use cvt.Base.Dict.{Dict, get, put, delete}
use cvt.Registry.{ConsumerRecord, make_consumer_key}
use cvt.Store.{Result, ok, not_found, MemoryStore, ComparisonRecord, id_or}

abbrev pub comparison_key : String → String → String → String
comparison_key schema_id old_version new_version =
    concat (schema_id ∷ "/" ∷ old_version ∷ "/" ∷ new_version ∷ [])

unfoldable pub record_comparison : String → ComparisonRecord → MemoryStore → MemoryStore
record_comparison uuid r s = record s {
  comparisons =
      put (comparison_key r.schema_id r.old_version r.new_version)
        (record r { id = id_or uuid r.id }) s.comparisons;
}

unfoldable pub get_comparison : String → String → String → MemoryStore → Result ComparisonRecord
get_comparison schema_id old_version new_version s =
    elim (get (comparison_key schema_id old_version new_version) s.comparisons) [
      | none ↦ not_found "comparison" (comparison_key schema_id old_version new_version)
      | some r ↦ ok r
    ]

-- The key of a record.
abbrev pub key_of : ConsumerRecord → String
key_of r = make_consumer_key r.consumer_id r.schema_id r.environment

-- The record that `RegisterConsumer` stores: it keeps the time of an earlier registration.
abbrev pub renewed : String → ConsumerRecord → Option ConsumerRecord → ConsumerRecord
renewed uuid r none = record r { id = id_or uuid r.id }
renewed uuid r (some existing) = record r {
  id = id_or uuid r.id;
  registered_at = existing.registered_at;
}

abbrev pub registered_record : String → ConsumerRecord → Dict ConsumerRecord → ConsumerRecord
registered_record uuid r consumers = renewed uuid r (get (key_of r) consumers)

unfoldable pub register_consumer : String → ConsumerRecord → MemoryStore → MemoryStore
register_consumer uuid r s = record s {
  consumers = put (key_of r) (registered_record uuid r s.consumers) s.consumers;
}

unfoldable pub get_consumer : String → String → String → MemoryStore → Result ConsumerRecord
get_consumer consumer_id schema_id environment s =
    let key = make_consumer_key consumer_id schema_id environment in
    elim (get key s.consumers) [ none ↦ not_found "consumer" key | some r ↦ ok r ]

pub record ListConsumersFilter : Type 0 where
  pub schema_id : String
  pub environment : String
  pub consumer_id : String

abbrev pub listed_consumer : ListConsumersFilter → ConsumerRecord → Bool
listed_consumer filter r =
    (filter.schema_id == "" || r.schema_id == filter.schema_id)
    && ((filter.environment == "" || r.environment == filter.environment)
        && (filter.consumer_id == "" || r.consumer_id == filter.consumer_id))

unfoldable pub list_consumers : ListConsumersFilter → MemoryStore → List ConsumerRecord
list_consumers filter s = collect (λ e. only_if (listed_consumer filter e.1) e.1) s.consumers

unfoldable pub deregister_consumer : String → String → String → MemoryStore → Result MemoryStore
deregister_consumer consumer_id schema_id environment s =
    let key = make_consumer_key consumer_id schema_id environment in
    elim (get key s.consumers) [
      | none ↦ not_found "consumer" key
      | some r ↦ ok (record s { consumers = delete key s.consumers })
    ]

unfoldable pub update_consumer_validation :
    String → String → String → ℕ → MemoryStore → Result MemoryStore
update_consumer_validation consumer_id schema_id environment validated_at s =
    let key = make_consumer_key consumer_id schema_id environment in
    elim (get key s.consumers) [
      | none ↦ not_found "consumer" key
      | some r ↦ ok (record s {
        consumers = put key (record r { last_validated_at = validated_at }) s.consumers;
      })
    ]
