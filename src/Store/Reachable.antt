-- ===== src/Store/Reachable.antt =====
-- The states that the store's operations reach from the empty store, and what holds in each.
use cvt.Base.{ℕ, String, Option, none, some, ◌≡◌, refl, subst, inl, inr, Option-cases}
use cvt.Base.Kept.{Kept, put-Kept, delete-Kept}
use cvt.Base.Dict.{Dict, get, delete, Distinct-delete}
use cvt.Registry.{ConsumerRecord, make_consumer_key}
use cvt.Store.{
  SchemaRecord, ValidationRecord, ComparisonRecord, MemoryStore, ok, new_memory_store, set_schema,
  delete_schema, delete_schema_version,
}
use cvt.Store.Validations.{record_validation}
use cvt.Store.Consumers.{
  comparison_key, record_comparison, key_of, renewed, registered_record, register_consumer,
  deregister_consumer, update_consumer_validation,
}
use cvt.Store.Latest.{ValidVersions, ValidSchemas, put-ValidSchemas, set_schema-ValidSchemas}

-- One call of an operation that changes the store.
pub data Step (s : MemoryStore) : MemoryStore → Type 0 where
  set_one : (uuid : String) (r : SchemaRecord) → Step s (set_schema uuid r s)
  delete_all :
      (schema_id : String) (s' : MemoryStore) → delete_schema schema_id s ≡ ok s' → Step s s'
  delete_one :
      (schema_id version : String) (s' : MemoryStore)
      → delete_schema_version schema_id version s ≡ ok s'
      → Step s s'
  validate : (uuid : String) (r : ValidationRecord) → Step s (record_validation uuid r s)
  compare_two : (uuid : String) (r : ComparisonRecord) → Step s (record_comparison uuid r s)
  register : (uuid : String) (r : ConsumerRecord) → Step s (register_consumer uuid r s)
  deregister :
      (consumer_id schema_id environment : String) (s' : MemoryStore)
      → deregister_consumer consumer_id schema_id environment s ≡ ok s'
      → Step s s'
  update :
      (consumer_id schema_id environment : String) (at : ℕ) (s' : MemoryStore)
      → update_consumer_validation consumer_id schema_id environment at s ≡ ok s'
      → Step s s'

pub data Reachable : MemoryStore → Type 0 where
  start : Reachable new_memory_store
  next : {t s : MemoryStore} → Reachable t → Step t s → Reachable s

-- Every registration is kept under its own key, and so is every comparison.
pub record IsValid (s : MemoryStore) : Type 0 where
  pub schemas_valid : ValidSchemas s.schemas
  pub consumer_keys :
      (key : String) (r : ConsumerRecord) → get key s.consumers ≡ some r → key ≡ key_of r
  pub comparison_keys :
      (key : String) (r : ComparisonRecord)
      → get key s.comparisons ≡ some r
      → key ≡ comparison_key r.schema_id r.old_version r.new_version

new_memory_store-IsValid : IsValid new_memory_store
unfolding get
new_memory_store-IsValid = record {
  schemas_valid = record { each = λ i m e. cc };
  consumer_keys = λ k r e. cc;
  comparison_keys = λ k r e. cc;
}

delete-get :
    {V : Type 0} (k j : String) (v : V) (m : Dict V)
    → get j (delete k m) ≡ some v
    → get j m ≡ some v
unfolding Kept
delete-get k j v m e = delete-Kept (λ i w. get i m ≡ some w) k m (λ i w found. found) j v e

delete-ValidVersions :
    (schema_id v : String) (m : Dict SchemaRecord)
    → ValidVersions schema_id m
    → ValidVersions schema_id (delete v m)
delete-ValidVersions schema_id v m valid = record {
  once = Distinct-delete v m valid.once;
  keyed = λ w r e. valid.keyed w r (delete-get v w r m e);
  one_latest =
      λ u w r q e f. valid.one_latest u w r q (delete-get v u r m e) (delete-get v w q m f);
}

ok_inj : {A : Type 0} {a b : A} → ok a ≡ ok b → a ≡ b
ok_inj e = cc

delete_schema-IsValid :
    (schema_id : String) (s s' : MemoryStore)
    → IsValid s
    → delete_schema schema_id s ≡ ok s'
    → IsValid s'
unfolding delete_schema
delete_schema-IsValid schema_id s s' valid e = elim (Option-cases (get schema_id s.schemas)) [
  | inl missing ↦ cc (rw (missing, delete_schema) at e)
  | inr (m, found) ↦ subst IsValid (ok_inj (rw (found, delete_schema) at e)) (record {
    schemas_valid = record {
      each = λ i n at_i. valid.schemas_valid.each i n (delete-get schema_id i n s.schemas at_i);
    };
    consumer_keys = valid.consumer_keys;
    comparison_keys = valid.comparison_keys;
  })
]

delete_schema_version-IsValid :
    (schema_id version : String) (s s' : MemoryStore)
    → IsValid s
    → delete_schema_version schema_id version s ≡ ok s'
    → IsValid s'
unfolding delete_schema_version
delete_schema_version-IsValid schema_id version s s' valid e =
    elim (Option-cases (get schema_id s.schemas)) [
      | inl missing ↦ cc (rw (missing, delete_schema_version) at e)
      | inr (m, found) ↦ elim (Option-cases (get version m)) [
        | inl gone ↦ cc (rw (found, gone, delete_schema_version) at e)
        | inr (r, there) ↦
            subst IsValid (ok_inj (rw (found, there, delete_schema_version) at e)) (record {
              schemas_valid =
                  put-ValidSchemas schema_id (delete version m) s.schemas
                    (delete-ValidVersions schema_id version m
                      (valid.schemas_valid.each schema_id m found))
                    valid.schemas_valid;
              consumer_keys = valid.consumer_keys;
              comparison_keys = valid.comparison_keys;
            })
      ]
    ]

-- Registering, deregistering and updating touch the consumers alone.
set_consumers :
    (s : MemoryStore) (consumers : Dict ConsumerRecord)
    → IsValid s
    → Kept (λ key r. key ≡ key_of r) consumers
    → IsValid (record s { consumers = consumers })
unfolding Kept
set_consumers s consumers valid kept = record {
  schemas_valid = valid.schemas_valid;
  consumer_keys = kept;
  comparison_keys = valid.comparison_keys;
}

registered_key :
    (uuid : String) (r : ConsumerRecord) (m : Dict ConsumerRecord)
    → key_of r ≡ key_of (registered_record uuid r m)
registered_key uuid r m = by_existing (get (key_of r) m)
  where
    by_existing : (o : Option ConsumerRecord) → key_of r ≡ key_of (renewed uuid r o)
    by_existing none = refl
    by_existing (some q) = refl

deregister_consumer-IsValid :
    (consumer_id schema_id environment : String) (s s' : MemoryStore)
    → IsValid s
    → deregister_consumer consumer_id schema_id environment s ≡ ok s'
    → IsValid s'
unfolding deregister_consumer Kept
deregister_consumer-IsValid c i env s s' valid e =
    elim (Option-cases (get (make_consumer_key c i env) s.consumers)) [
      | inl missing ↦ cc (rw (missing, deregister_consumer) at e)
      | inr (r, found) ↦ subst IsValid (ok_inj (rw (found, deregister_consumer) at e)) (
          set_consumers s _ valid (
            delete-Kept (λ key q. key ≡ key_of q) (make_consumer_key c i env) s.consumers
              valid.consumer_keys))
    ]

update_consumer_validation-IsValid :
    (consumer_id schema_id environment : String) (at : ℕ) (s s' : MemoryStore)
    → IsValid s
    → update_consumer_validation consumer_id schema_id environment at s ≡ ok s'
    → IsValid s'
unfolding update_consumer_validation Kept
update_consumer_validation-IsValid c i env at s s' valid e =
    elim (Option-cases (get (make_consumer_key c i env) s.consumers)) [
      | inl missing ↦ cc (rw (missing, update_consumer_validation) at e)
      | inr (r, found) ↦ subst IsValid (ok_inj (rw (found, update_consumer_validation) at e)) (
          set_consumers s _ valid (
            put-Kept (λ key q. key ≡ key_of q) (make_consumer_key c i env) _ s.consumers
              (valid.consumer_keys (make_consumer_key c i env) r found) valid.consumer_keys))
    ]

Step-IsValid : {s s' : MemoryStore} → IsValid s → Step s s' → IsValid s'
unfolding set_schema record_validation record_comparison register_consumer Kept
Step-IsValid {s} valid (set_one uuid r) = record {
  schemas_valid = set_schema-ValidSchemas uuid r s valid.schemas_valid;
  consumer_keys = valid.consumer_keys;
  comparison_keys = valid.comparison_keys;
}
Step-IsValid {s} valid (delete_all i s' e) = delete_schema-IsValid i s s' valid e
Step-IsValid {s} valid (delete_one i v s' e) = delete_schema_version-IsValid i v s s' valid e
Step-IsValid {s} valid (validate uuid r) = record {
  schemas_valid = valid.schemas_valid;
  consumer_keys = valid.consumer_keys;
  comparison_keys = valid.comparison_keys;
}
Step-IsValid {s} valid (compare_two uuid r) = record {
  schemas_valid = valid.schemas_valid;
  consumer_keys = valid.consumer_keys;
  comparison_keys =
      put-Kept (λ key q. key ≡ comparison_key q.schema_id q.old_version q.new_version)
        (comparison_key r.schema_id r.old_version r.new_version) _ s.comparisons refl
        valid.comparison_keys;
}
Step-IsValid {s} valid (register uuid r) = set_consumers s _ valid (
    put-Kept (λ key q. key ≡ key_of q) (key_of r) _ s.consumers (registered_key uuid r s.consumers)
      valid.consumer_keys)
Step-IsValid {s} valid (deregister c i env s' e) = deregister_consumer-IsValid c i env s s' valid e
Step-IsValid {s} valid (update c i env at s' e) =
    update_consumer_validation-IsValid c i env at s s' valid e

-- In every state that is reached from the empty store, each version is kept under its own name in
-- its own schema, a schema has at most one latest version, and each consumer and comparison is kept
-- under its own key.
pub Reachable-IsValid : (s : MemoryStore) → Reachable s → IsValid s
Reachable-IsValid s start = new_memory_store-IsValid
Reachable-IsValid s (next {t} before step) = Step-IsValid (Reachable-IsValid t before) step
