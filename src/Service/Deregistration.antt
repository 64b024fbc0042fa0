-- ===== src/Service/Deregistration.antt =====
-- server/cvtservice/consumer_registry.go: `DeregisterConsumer`.
use cvt.Base.{
  String, [], ◌∷◌, Bool, true, false, Option, none, some, ◌≡◌, ◌≢◌, apart_of_test, ◌⊎◌, refl, ◌∙◌,
  inl, inr, concat, if◌then◌else◌, if-true, eq_iff, eq_refl,
}
use text.Mathlib.Text.{◌==◌}
use cvt.Base.Dict.{delete, get-delete}
use cvt.Registry.{ConsumerEntry, make_consumer_key}
use cvt.Store.{MemoryStore, Result, ok, not_found}
use cvt.Store.Consumers as Stored
use cvt.Store.Registrations.{get_consumer-deregister_consumer, get_consumer-not_deregistered}
use cvt.Cache.{SchemaCache, get_consumer}
use cvt.Cache as Cache
use cvt.Service.{ValidatorService}
use cvt.Service.Registration.{dev_or}

pub record DeregisterConsumerRequest : Type 0 where
  pub consumer_id : String
  pub schema_id : String
  pub environment : String

pub record DeregisterConsumerResponse : Type 0 where
  pub success : Bool
  pub message : String

-- An error of the store is logged and dropped.
unfoldable pub or_kept : MemoryStore → Result MemoryStore → MemoryStore
or_kept store (ok store') = store'
or_kept store (not_found resource id) = store

unfoldable pub unstored : String → String → String → Option MemoryStore → Option MemoryStore
unstored consumer_id schema_id environment none = none
unstored consumer_id schema_id environment (some store) =
    some (or_kept store (Stored.deregister_consumer consumer_id schema_id environment store))

unfoldable pub after_removal :
    {C : Type 0}
    → DeregisterConsumerRequest
    → ValidatorService C
    → SchemaCache C × Bool
    → DeregisterConsumerResponse × ValidatorService C
after_removal req s (c, false) = (
  record {
    success = false;
    message = concat (
        "consumer not found: "
        ∷ req.consumer_id
        ∷ "/"
        ∷ req.schema_id
        ∷ "/"
        ∷ dev_or req.environment
        ∷ []);
  },
  record s { cache = c },
)
after_removal req s (c, true) = (
  record { success = true; message = "Consumer deregistered successfully" },
  record s {
    cache = c;
    store = unstored req.consumer_id req.schema_id (dev_or req.environment) s.store;
  },
)

unfoldable pub deregister_consumer :
    {C : Type 0}
    → DeregisterConsumerRequest
    → ValidatorService C
    → DeregisterConsumerResponse × ValidatorService C
deregister_consumer req s =
    if req.consumer_id == ""
    then (record { success = false; message = "consumer_id is required" }, s)
    else (if req.schema_id == ""
        then (record { success = false; message = "schema_id is required" }, s)
        else after_removal req s (
            Cache.deregister_consumer req.consumer_id req.schema_id (dev_or req.environment)
              s.cache))

-- The consumer of a request, in the cache.
abbrev pub cached_consumer :
    {C : Type 0} → DeregisterConsumerRequest → ValidatorService C → Option ConsumerEntry
cached_consumer req s = get_consumer req.consumer_id req.schema_id (dev_or req.environment) s.cache

-- The store does not have the consumer of a request.
pub NotStored : DeregisterConsumerRequest → Option MemoryStore → Type 0
NotStored req none = Unit
NotStored req (some store) =
    Stored.get_consumer req.consumer_id req.schema_id (dev_or req.environment) store
    ≡ not_found "consumer"
        (make_consumer_key req.consumer_id req.schema_id (dev_or req.environment))

pub data Removal {C : Type 0} (req : DeregisterConsumerRequest) (s : ValidatorService C)
    : DeregisterConsumerResponse × ValidatorService C → Type 0 where
  not_removed :
      (message : String)
      → (req.consumer_id ≡ "") ⊎ ((req.schema_id ≡ "") ⊎ (cached_consumer req s ≡ none))
      → Removal req s (record { success = false; message = message }, s)
  removed :
      (entry : ConsumerEntry) (message : String) (t : ValidatorService C)
      → req.consumer_id ≢ ""
      → req.schema_id ≢ ""
      → cached_consumer req s ≡ some entry
      → cached_consumer req t ≡ none
      → NotStored req t.store
      → Removal req s (record { success = true; message = message }, t)

unstored-NotStored :
    (req : DeregisterConsumerRequest) (o : Option MemoryStore)
    → NotStored req (unstored req.consumer_id req.schema_id (dev_or req.environment) o)
unfolding NotStored unstored or_kept
unstored-NotStored req none = tt
unstored-NotStored req (some store) = by_result _ refl
  where
    by_result :
        (r : Result MemoryStore)
        → Stored.deregister_consumer req.consumer_id req.schema_id (dev_or req.environment) store
          ≡ r
        → Stored.get_consumer req.consumer_id req.schema_id
            (dev_or req.environment)
            (or_kept store r)
          ≡ not_found "consumer"
              (make_consumer_key req.consumer_id req.schema_id (dev_or req.environment))
    by_result (ok store') e = get_consumer-deregister_consumer _ _ _ store store' e
    by_result (not_found resource id) e = get_consumer-not_deregistered _ _ _ resource id store e

after_removal-Removal :
    {C : Type 0} (req : DeregisterConsumerRequest) (s : ValidatorService C)
    (o : Option ConsumerEntry)
    → req.consumer_id ≢ ""
    → req.schema_id ≢ ""
    → cached_consumer req s ≡ o
    → Removal req s (
        after_removal req s (elim o [
          | none ↦ (s.cache, false)
          | some c ↦ (
            record s.cache {
              consumers =
                  delete
                    (make_consumer_key req.consumer_id req.schema_id (dev_or req.environment))
                    s.cache.consumers;
            },
            true,
          )
        ]))
unfolding after_removal get_consumer
after_removal-Removal req s none named schema e = not_removed _ (inr (inr e))
after_removal-Removal req s (some entry) named schema e =
    let key = make_consumer_key req.consumer_id req.schema_id (dev_or req.environment) in
    removed entry _ _ named schema e
      (get-delete key key s.cache.consumers ∙ if-true none _ (eq_refl key))
      (unstored-NotStored req s.store)

-- A call reports success exactly where both names are given and the cache has the consumer; then
-- neither the cache nor the store has it any more, and else the service is as it was.
pub deregister_consumer-Removal :
    {C : Type 0} (req : DeregisterConsumerRequest) (s : ValidatorService C)
    → Removal req s (deregister_consumer req s)
unfolding deregister_consumer Cache.deregister_consumer get_consumer
deregister_consumer-Removal {C} req s =
    by_ids (req.consumer_id == "") refl (req.schema_id == "") refl
  where
    rest : DeregisterConsumerResponse × ValidatorService C
    rest =
        after_removal req s
          (Cache.deregister_consumer req.consumer_id req.schema_id (dev_or req.environment) s.cache)

    by_ids :
        (b : Bool)
        → (req.consumer_id == "") ≡ b
        → (d : Bool) → (req.schema_id == "") ≡ d
        → Removal req s (
            if b
            then (record { success = false; message = "consumer_id is required" }, s)
            else (if d
                then (record { success = false; message = "schema_id is required" }, s)
                else rest))
    by_ids true e d f = not_removed _ (inl ((eq_iff req.consumer_id "").0 e))
    by_ids false e true f = not_removed _ (inr (inl ((eq_iff req.schema_id "").0 f)))
    by_ids false e false f = after_removal-Removal req s _ (apart_of_test e) (apart_of_test f) refl
