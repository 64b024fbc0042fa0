-- ===== src/Store/Registrations.antt =====
-- server/storage/memory.go: reading a consumer after it is registered, and registering it again.
use cvt.Base.{
  String, false, Option, none, some, ◌≡◌, refl, sym, ap, ◌∙◌, inl, inr, Option-cases, if-true,
  if-false, apart_test, ◌≢◌, eq_iff, eq_refl,
}
use text.Mathlib.Text.{◌==◌}
use cvt.Base.Dict.{get, delete, get-put, get-put_self, get-delete}
use cvt.Registry.{ConsumerRecord, make_consumer_key}
use cvt.Store.{MemoryStore, Result, ok, not_found}
use cvt.Store.Consumers.{
  renewed, registered_record, register_consumer, get_consumer, deregister_consumer,
}

at_key : String → Option ConsumerRecord → Result ConsumerRecord
at_key key o = elim o [ none ↦ not_found "consumer" key | some r ↦ ok r ]

-- The record that is read after a registration: the one that was given, with a new identifier where it
-- has none, and with the time of the earlier registration, if there was one.
pub record Registered (uuid : String) (r : ConsumerRecord) (earlier : Result ConsumerRecord)
    (stored : ConsumerRecord) : Type 0 where
  pub given : stored ≡ record r { id = stored.id; registered_at = stored.registered_at }
  pub new_id : r.id ≡ "" → stored.id ≡ uuid
  pub own_id : r.id ≢ "" → stored.id ≡ r.id
  pub kept_time :
      (existing : ConsumerRecord)
      → earlier ≡ ok existing
      → stored.registered_at ≡ existing.registered_at
  pub new_time :
      (resource id : String)
      → earlier ≡ not_found resource id
      → stored.registered_at ≡ r.registered_at

renewed-Registered :
    (uuid key : String) (r : ConsumerRecord) (o : Option ConsumerRecord)
    → Registered uuid r (at_key key o) (renewed uuid r o)
unfolding at_key
renewed-Registered uuid key r none = record {
  given = refl;
  new_id = λ e. if-true _ _ ((eq_iff r.id "").1 e);
  own_id = λ apart. if-false _ _ (apart_test apart);
  kept_time = λ existing e. cc;
  new_time = λ resource id e. refl;
}
renewed-Registered uuid key r (some earlier) = record {
  given = refl;
  new_id = λ e. if-true _ _ ((eq_iff r.id "").1 e);
  own_id = λ apart. if-false _ _ (apart_test apart);
  kept_time = λ existing e. ap (λ o. (elim o [ ok c ↦ c.registered_at | not_found a b ↦ 0 ])) e;
  new_time = λ resource id e. cc;
}

-- After `RegisterConsumer` the consumer is found under its own id, schema and environment, with the
-- fields that were given, a new identifier where it has none, and the time of the earlier
-- registration where there was one; and what is found under every other key is what was found
-- before.
pub get_consumer-register_consumer :
    (uuid : String) (r : ConsumerRecord) (s : MemoryStore)
    → ((stored : ConsumerRecord) × (get_consumer r.consumer_id r.schema_id r.environment
            (register_consumer uuid r s)
          ≡ ok stored)
        × Registered uuid r (get_consumer r.consumer_id r.schema_id r.environment s) stored)
      × ((consumer_id schema_id environment : String)
          → (make_consumer_key r.consumer_id r.schema_id r.environment
              == make_consumer_key consumer_id schema_id environment)
            ≡ false
          → get_consumer consumer_id schema_id environment (register_consumer uuid r s)
            ≡ get_consumer consumer_id schema_id environment s)
unfolding get_consumer register_consumer at_key
get_consumer-register_consumer uuid r s =
    let key = make_consumer_key r.consumer_id r.schema_id r.environment in
    let stored = registered_record uuid r s.consumers in
    (
      (
        stored,
        ap (at_key key) (get-put_self key stored s.consumers),
        renewed-Registered uuid key r (get key s.consumers),
      ),
      λ consumer_id schema_id environment apart.
          let other = make_consumer_key consumer_id schema_id environment in
          ap (at_key other) (get-put key other stored s.consumers ∙ if-false _ _ apart),
    )

-- A consumer that is deregistered is not found, until it is registered again.
pub get_consumer-deregister_consumer :
    (consumer_id schema_id environment : String) (s s' : MemoryStore)
    → deregister_consumer consumer_id schema_id environment s ≡ ok s'
    → get_consumer consumer_id schema_id environment s'
      ≡ not_found "consumer" (make_consumer_key consumer_id schema_id environment)
unfolding get_consumer deregister_consumer at_key
get_consumer-deregister_consumer c i env s s' e =
    let key = make_consumer_key c i env in
    elim (Option-cases (get key s.consumers)) [
      | inl missing ↦ cc (rw (missing, deregister_consumer) at e)
      | inr (r, found) ↦
          let same : ok (record s { consumers = delete key s.consumers }) ≡ ok s' =
            rw (found, deregister_consumer) at e in
          ap (λ o. at_key key (elim o [ ok t ↦ get key t.consumers | not_found a b ↦ none ]))
            (sym same)
          ∙ ap (at_key key) (get-delete key key s.consumers ∙ if-true none _ (eq_refl key))
    ]

-- A consumer that cannot be deregistered is not there.
pub get_consumer-not_deregistered :
    (consumer_id schema_id environment resource id : String) (s : MemoryStore)
    → deregister_consumer consumer_id schema_id environment s ≡ not_found resource id
    → get_consumer consumer_id schema_id environment s
      ≡ not_found "consumer" (make_consumer_key consumer_id schema_id environment)
unfolding get_consumer deregister_consumer at_key
get_consumer-not_deregistered c i env resource id s e =
    let key = make_consumer_key c i env in
    elim (Option-cases (get key s.consumers)) [
      | inl missing ↦ ap (at_key key) missing
      | inr (r, found) ↦ cc (rw (found, deregister_consumer) at e)
    ]
