-- ===== src/Service/Registration/Outcome.antt =====
-- server/cvtservice/consumer_registry.go: what a registration leaves in the registry.
use cvt.Base.{
  ℕ, String, [], ◌∷◌, Bool, true, false, Option, none, some, ◌≡◌, ◌≢◌, ◌⊎◌, inl, inr, apart_of_test,
  eq_iff, Bool-cases, if-true, if-false, some_inj, subst, refl, ap, ◌∙◌, if◌then◌else◌, concat,
  length, leb,
}
use text.Mathlib.Text.{◌==◌}
use cvt.Base.Dict.{get, get-put, get-put_self}
use cvt.Registry.{ConsumerEntry, make_consumer_key}
use cvt.Cache.{SchemaEntry, Ristretto, SchemaCache, list_consumers, get_consumer, renewed}
use cvt.Cache as Cache
use cvt.Service.{External, ValidatorService, get_schema_entry}
use cvt.Service.Lookup.{get_schema_entry-consumers}
use cvt.Service.Registration.{
  RegisterConsumerRequest, RegisterConsumerResponse, max_consumers_per_schema, dev_or, entry_of,
  record_of, failure, persisted, register_found, register_consumer,
}

-- The environment that a request stands for.
abbrev pub StandsFor : RegisterConsumerRequest → String → Type 0
StandsFor req environment =
    ((req.environment ≡ "") × (environment ≡ "dev"))
    ⊎ ((req.environment ≢ "") × (environment ≡ req.environment))

-- An entry of a request, over the one that the registry had.
pub record Made (now : ℕ) (req : RegisterConsumerRequest) (environment : String)
    (earlier : Option ConsumerEntry) (entry : ConsumerEntry) : Type 0 where
  pub of_consumer : entry.consumer_id ≡ req.consumer_id
  pub of_version : entry.consumer_version ≡ req.consumer_version
  pub of_schema : entry.schema_id ≡ req.schema_id
  pub of_schema_version : entry.schema_version ≡ req.schema_version
  pub in_environment : entry.environment ≡ environment
  pub with_endpoints : entry.used_endpoints ≡ req.used_endpoints
  pub validated_now : entry.last_validated_at ≡ now
  pub kept_time :
      (existing : ConsumerEntry)
      → earlier ≡ some existing
      → entry.registered_at ≡ existing.registered_at
  pub new_time : earlier ≡ none → entry.registered_at ≡ now

-- The registry after a registration: the consumer's entry, and the others as they were.
pub record Registered {C : Type 0} (now : ℕ) (req : RegisterConsumerRequest)
    (s t : ValidatorService C) : Type 0 where
  pub environment : String
  pub stands_for : StandsFor req environment
  pub entry : ConsumerEntry
  pub found : get_consumer req.consumer_id req.schema_id environment t.cache ≡ some entry
  pub made :
      Made now req environment
        (get_consumer req.consumer_id req.schema_id environment s.cache)
        entry
  pub others :
      (key : String)
      → (make_consumer_key req.consumer_id req.schema_id environment == key) ≡ false
      → get key t.cache.consumers ≡ get key s.cache.consumers

dev_or-StandsFor : (req : RegisterConsumerRequest) → StandsFor req (dev_or req.environment)
dev_or-StandsFor req = elim (Bool-cases (req.environment == "")) [
  | inl bare ↦ inl ((eq_iff req.environment "").0 bare, if-true _ _ bare)
  | inr named ↦ inr (apart_of_test named, if-false _ _ named)
]

renewed-Made :
    (now : ℕ) (req : RegisterConsumerRequest) (o : Option ConsumerEntry)
    → Made now req (dev_or req.environment) o (renewed (entry_of now req) o)
renewed-Made now req none = record {
  of_consumer = refl;
  of_version = refl;
  of_schema = refl;
  of_schema_version = refl;
  in_environment = refl;
  with_endpoints = refl;
  validated_now = refl;
  kept_time = λ existing e. cc;
  new_time = λ e. refl;
}
renewed-Made now req (some earlier) = record {
  of_consumer = refl;
  of_version = refl;
  of_schema = refl;
  of_schema_version = refl;
  in_environment = refl;
  with_endpoints = refl;
  validated_now = refl;
  kept_time = λ existing e. ap (λ c. c.registered_at) (some_inj e);
  new_time = λ e. cc;
}

register_consumer-Registered :
    {C : Type 0} (now : ℕ) (req : RegisterConsumerRequest) (s t : ValidatorService C)
    → t.cache.consumers ≡ (Cache.register_consumer (entry_of now req) s.cache).consumers
    → Registered now req s t
unfolding Cache.register_consumer get_consumer
register_consumer-Registered now req s t same = record {
  environment = dev_or req.environment;
  stands_for = dev_or-StandsFor req;
  entry = _;
  found = ap (get key) same ∙ get-put_self key _ s.cache.consumers;
  made = renewed-Made now req (get key s.cache.consumers);
  others = λ other apart.
      ap (get other) same ∙ (get-put key other _ s.cache.consumers ∙ if-false _ _ apart);
}
  where
    key : String
    key = make_consumer_key req.consumer_id req.schema_id (dev_or req.environment)

module _ {C : Type 0} (ristretto : Ristretto C) (ext : External) (decimal : ℕ → String) where
  -- What a registration comes to: the entry in the registry, or the registry as it was.
  pub data Outcome (now : ℕ) (req : RegisterConsumerRequest) (s t : ValidatorService C)
      : Bool → Type 0 where
    registered : Registered now req s t → Outcome now req s t true
    rejected : t.cache.consumers ≡ s.cache.consumers → Outcome now req s t false

  register_found-Outcome :
      (uuid : String) (now : ℕ) (req : RegisterConsumerRequest) (o : Option SchemaEntry)
      (s : ValidatorService C)
      → Outcome now req s
          (register_found ristretto ext decimal uuid now req o s).1
          (register_found ristretto ext decimal uuid now req o s).0.success
  unfolding register_found
  register_found-Outcome uuid now req none s = rejected refl
  register_found-Outcome uuid now req (some found) s =
      by_limit (leb max_consumers_per_schema (length (list_consumers req.schema_id "" s.cache)))
    where
      by_limit :
          (b : Bool)
          → let answer : RegisterConsumerResponse × ValidatorService C =
              if b
              then (
                failure (
                    concat (
                      "maximum consumers per schema reached ("
                      ∷ decimal max_consumers_per_schema
                      ∷ ")"
                      ∷ [])),
                s,
              )
              else (
                record {
                  success = true;
                  message = "Consumer registered successfully";
                  consumer = some (entry_of now req);
                },
                record s {
                  cache = Cache.register_consumer (entry_of now req) s.cache;
                  store = persisted uuid (record_of now req) s.store;
                },
              ) in
            Outcome now req s answer.1 answer.0.success
      by_limit true = rejected refl
      by_limit false = registered (register_consumer-Registered now req s _ refl)

  Outcome-from :
      (now : ℕ) (req : RegisterConsumerRequest) (s s' t : ValidatorService C) (b : Bool)
      → s'.cache.consumers ≡ s.cache.consumers
      → Outcome now req s' t b
      → Outcome now req s t b
  unfolding get_consumer
  Outcome-from now req s s' t b same (registered r) = registered (record {
    environment = r.environment;
    stands_for = r.stands_for;
    entry = r.entry;
    found = r.found;
    made =
        subst
          (λ m.
            Made now req r.environment
              (get (make_consumer_key req.consumer_id req.schema_id r.environment) m) r.entry)
          same r.made;
    others = λ key apart. r.others key apart ∙ ap (get key) same;
  })
  Outcome-from now req s s' t b same (rejected kept) = rejected (kept ∙ same)

  -- A registration that the service reports as successful leaves the consumer's entry in the
  -- registry, under the environment of the request or "dev", with the fields of the request and the
  -- time of an earlier registration where there was one, and every other entry as it was; and one
  -- that it reports as failed leaves the registry as it was.
  pub register_consumer-Outcome :
      (uuid : String) (now : ℕ) (req : RegisterConsumerRequest) (s : ValidatorService C)
      → Outcome now req s
          (register_consumer ristretto ext decimal uuid now req s).1
          (register_consumer ristretto ext decimal uuid now req s).0.success
  unfolding register_consumer
  register_consumer-Outcome uuid now req s = by_ids (req.consumer_id == "") (req.schema_id == "")
    where
      looked : Option SchemaEntry × ValidatorService C
      looked = get_schema_entry ristretto ext req.schema_id "" s

      answer : Bool → Bool → RegisterConsumerResponse × ValidatorService C
      answer b d =
          if b
          then (failure "consumer_id is required", s)
          else (if d
              then (failure "schema_id is required", s)
              else register_found ristretto ext decimal uuid now req looked.0 looked.1)

      by_ids : (b d : Bool) → Outcome now req s (answer b d).1 (answer b d).0.success
      by_ids true d = rejected refl
      by_ids false true = rejected refl
      by_ids false false =
          Outcome-from now req s looked.1 _ _
            (get_schema_entry-consumers ristretto ext req.schema_id "" s)
            (register_found-Outcome uuid now req looked.0 looked.1)
