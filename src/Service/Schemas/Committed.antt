-- ===== src/Service/Schemas/Committed.antt =====
-- server/cvtservice/validator_service.go: what `RegisterSchema` leaves.
use cvt.Base.{ℕ, String, [], true, false, none, some, ◌≡◌, refl, ap, ◌∙◌, eq_iff}
use cvt.OpenApi.{Document, Finder}
use cvt.Store.{MemoryStore, ok, stored, set_schema, get_schema}
use cvt.Store.Latest.{ValidSchemas}
use cvt.Store.SetSchema.{get_schema-set_schema}
use cvt.Cache.{SchemaEntry, Ristretto, get_version}
use cvt.Cache.Entries.{get_version-set}
use cvt.Service.{External, ValidatorService, new_schema_entry}
use cvt.Service.Lookup.{Looked-consumers}
use cvt.Service.Schemas.{
  RegisterSchemaRequest, Answer, registered_entry, registered_record, written, commit,
  register_schema,
}
use cvt.Service.Schemas.Outcome.{
  Accepted, Outcome, refused, registered, Looked-store, register_schema-Outcome,
}

module _ {C : Type 0} (ristretto : Ristretto C) (ext : External) (finder : Finder)
    (decimal : ℕ → String) (uuid : String) (now : ℕ) (req : RegisterSchemaRequest)
    (s : ValidatorService C) where
  -- A registration that changed nothing that lasts.
  pub record Unregistered (a : Answer C) : Type 0 where
    pub same_store : a.service.store ≡ s.store
    pub same_consumers : a.service.cache.consumers ≡ s.cache.consumers
    pub no_metadata : a.response.metadata ≡ none
    pub no_changes : a.response.breaking_changes ≡ []
    pub no_event : a.fired ≡ none

  Outcome-Unregistered :
      (a : Answer C)
      → Outcome ristretto ext finder decimal uuid now req s a
      → a.response.success ≡ false
      → Unregistered a
  unfolding commit
  Outcome-Unregistered a (refused message t looked) e = record {
    same_store = Looked-store ristretto ext req.schema_id "" s t looked;
    same_consumers = Looked-consumers ristretto ext req.schema_id "" s t looked;
    no_metadata = refl;
    no_changes = refl;
    no_event = refl;
  }
  Outcome-Unregistered a (registered doc t v changes accepted looked base) e = cc

  -- A registration that the service reports as failed has written nothing to the store, changed no
  -- consumer, called no hook, and returns neither metadata nor changes.
  pub register_schema-Unregistered :
      (register_schema ristretto ext finder decimal uuid now req s).response.success ≡ false
      → Unregistered (register_schema ristretto ext finder decimal uuid now req s)
  register_schema-Unregistered =
      Outcome-Unregistered _ (register_schema-Outcome ristretto ext finder decimal uuid now req s)

  -- What is read of a schema that was registered.
  pub record ReadsBack (a : Answer C) : Type 0 where
    pub document : Document
    pub accepted : Accepted ristretto ext finder decimal req document
    pub store : MemoryStore
    pub kept : a.service.store ≡ some store
    pub read :
        get_schema req.schema_id store ≡ ok (stored uuid (registered_record ext now req document))
    pub cached :
        (e : SchemaEntry)
        → get_version ristretto req.schema_id (ext.info_version document) a.service.cache ≡ some e
        → registered_entry ext req document ≡ e

  Outcome-ReadsBack :
      (a : Answer C) (st : MemoryStore)
      → Outcome ristretto ext finder decimal uuid now req s a
      → s.store ≡ some st
      → ValidSchemas st.schemas
      → a.response.success ≡ true
      → ReadsBack a
  unfolding commit new_schema_entry written
  Outcome-ReadsBack a st (refused message t looked) e valid success = cc
  Outcome-ReadsBack a st (registered doc t v changes accepted looked base) e valid success =
      record {
        document = doc;
        accepted = accepted;
        store = set_schema uuid (registered_record ext now req doc) st;
        kept =
            ap (written uuid (registered_record ext now req doc))
              (Looked-store ristretto ext req.schema_id "" s t looked ∙ e);
        read = get_schema-set_schema uuid (registered_record ext now req doc) st valid;
        cached = λ entry found.
            get_version-set ristretto req.schema_id _ (registered_entry ext req doc) entry t.cache
              refl (λ bare. cc (accepted.is_versioned, (eq_iff (ext.info_version doc) "").1 bare))
              found;
      }

  -- With a store that is valid, a registration that the service reports as successful is of a text
  -- that was parsed, is valid, has a version, which the request names if it names one, and has a
  -- router; `GetSchema` of the store then returns its record, and the cache, where it has kept it,
  -- the entry under its version.
  pub register_schema-ReadsBack :
      (st : MemoryStore)
      → s.store ≡ some st
      → ValidSchemas st.schemas
      → (register_schema ristretto ext finder decimal uuid now req s).response.success ≡ true
      → ReadsBack (register_schema ristretto ext finder decimal uuid now req s)
  register_schema-ReadsBack st =
      Outcome-ReadsBack _ st (register_schema-Outcome ristretto ext finder decimal uuid now req s)
