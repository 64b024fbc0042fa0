-- ===== src/Service/Queries/ReadBack.antt =====
-- server/cvtservice/validator_service.go: `GetSchema` after `RegisterSchema`.
use cvt.Base.{
  ℕ, String, true, none, some, ◌≡◌, ◌≢◌, ◌⊎◌, refl, sym, ap, subst, ◌∙◌, inl, inr, apart_test,
  Option-cases, eq_iff, if-true, if-false,
}
use text.Mathlib.Text.{◌==◌}
use text.Mathlib.TextPositions.{eq_refl}
use cvt.OpenApi.{Document, Finder}
use cvt.Store.{SchemaRecord, MemoryStore, ok, set_schema, stored}
use cvt.Store.Latest.{ValidSchemas}
use cvt.Store.SetSchema.{get_schema-set_schema, get_schema_version-set_schema}
use cvt.Cache.{SchemaEntry, Ristretto, get_version, set}
use cvt.Cache.Entries.{get_version-set, get_latest-set}
use cvt.Service.{
  External, no_spec, ValidatorService, new_schema_entry, usable, valid_document, find_record,
  use_record, use_result, rehydrate, after_plugin, after_cache, use_answer,
  try_fetch_schema_from_plugin, get_schema_entry,
}
use cvt.Service.Schemas.{
  RegisterSchemaRequest, Answer, registered_entry, registered_record, written, commit, version_of,
  register_schema,
}
use cvt.Service.Schemas.Outcome.{
  Accepted, Outcome, refused, registered, Looked-store, register_schema-Outcome,
}
use cvt.Service.Queries.{GetSchemaResponse, schema_response, get_schema}

module _ {C : Type 0} (ristretto : Ristretto C) (ext : External) (finder : Finder)
    (decimal : ℕ → String) (uuid : String) (now : ℕ) (req : RegisterSchemaRequest) where
  usable-Accepted :
      (doc : Document)
      → Accepted ristretto ext finder decimal req doc
      → usable ext req.schema_content ≡ some doc
  unfolding usable valid_document
  usable-Accepted doc accepted =
      rw (accepted.parsed_as, valid_document, accepted.is_valid, accepted.routed) refl

  -- The lookup of a record that the store returns, where nothing is cached and no plugin answers.
  rehydrated :
      (v : String) (t : ValidatorService C) (doc : Document) (store : MemoryStore)
      → Accepted ristretto ext finder decimal req doc
      → get_version ristretto req.schema_id v t.cache ≡ none
      → ext.fetch_schema req.schema_id v ≡ no_spec
      → t.store ≡ some store
      → find_record ristretto ext req.schema_id v store
        ≡ ok (stored uuid (registered_record ext now req doc))
      → (get_schema_entry ristretto ext req.schema_id v t).0 ≡ some (registered_entry ext req doc)
  unfolding get_schema_entry after_cache try_fetch_schema_from_plugin use_answer after_plugin
      rehydrate use_result use_record
  rehydrated v t doc store accepted uncached unfetched kept read =
      let i = req.schema_id in
      ap (λ o. (after_cache ristretto ext i v t o).0) uncached
      ∙ ap
          (λ o.
            let answer = use_answer ristretto ext i v t o in
            (after_plugin ristretto ext i v answer.0 answer.1).0)
          unfetched
      ∙ ap (λ o. (rehydrate ristretto ext i v t o).0) kept
      ∙ ap (λ o. (use_result ristretto ext i v t o).0) read
      ∙ ap
          (λ o.
            (use_record ristretto ext i v (stored uuid (registered_record ext now req doc)) t o).0)
          (usable-Accepted doc accepted)

  -- An entry that is cached is the one that was registered, and the lookup returns it.
  kept_or_rehydrated :
      (v : String) (t : ValidatorService C) (doc : Document) (store : MemoryStore)
      → Accepted ristretto ext finder decimal req doc
      → ((e : SchemaEntry)
          → get_version ristretto req.schema_id v t.cache ≡ some e
          → registered_entry ext req doc ≡ e)
      → ext.fetch_schema req.schema_id v ≡ no_spec
      → t.store ≡ some store
      → find_record ristretto ext req.schema_id v store
        ≡ ok (stored uuid (registered_record ext now req doc))
      → (get_schema_entry ristretto ext req.schema_id v t).0 ≡ some (registered_entry ext req doc)
  unfolding get_schema_entry after_cache
  kept_or_rehydrated v t doc store accepted cached unfetched kept read =
      elim (Option-cases (get_version ristretto req.schema_id v t.cache)) [
        | inl missing ↦ rehydrated v t doc store accepted missing unfetched kept read
        | inr (e, found) ↦
            ap (λ o. (after_cache ristretto ext req.schema_id v t o).0) found
            ∙ ap (λ x. some x) (sym (cached e found))
      ]

  committed-entry :
      (v : String) (t : ValidatorService C) (st : MemoryStore) (doc : Document)
      → Accepted ristretto ext finder decimal req doc
      → t.store ≡ some st
      → ValidSchemas st.schemas
      → ext.fetch_schema req.schema_id v ≡ no_spec
      → (v ≡ "") ⊎ (v ≡ ext.info_version doc)
      → (get_schema_entry ristretto ext req.schema_id v (record t {
        cache = set ristretto req.schema_id (registered_entry ext req doc) t.cache;
        store = written uuid (registered_record ext now req doc) t.store;
      })).0
        ≡ some (registered_entry ext req doc)
  unfolding new_schema_entry written get_version
  committed-entry v t st doc accepted kept valid unfetched asked =
      kept_or_rehydrated v _ doc (set_schema uuid r st) accepted (cached v asked) unfetched
        (ap (written uuid r) kept) (read v asked)
    where
      r : SchemaRecord
      r = registered_record ext now req doc

      named : ext.info_version doc ≢ ""
      named bare = cc (accepted.is_versioned, (eq_iff (ext.info_version doc) "").1 bare)

      cached :
          (v : String)
          → (v ≡ "") ⊎ (v ≡ ext.info_version doc)
          → (e : SchemaEntry)
          → get_version ristretto req.schema_id v
              (set ristretto req.schema_id (registered_entry ext req doc) t.cache)
            ≡ some e
          → registered_entry ext req doc ≡ e
      cached v (inl bare) e found =
          get_latest-set ristretto req.schema_id _ (registered_entry ext req doc) e t.cache refl
            named (sym (if-true _ _ ((eq_iff v "").1 bare)) ∙ found)
      cached v (inr same) e found =
          get_version-set ristretto req.schema_id _ (registered_entry ext req doc) e t.cache refl
            named
            (subst
              (λ w.
                get_version ristretto req.schema_id w
                  (set ristretto req.schema_id (registered_entry ext req doc) t.cache)
                ≡ some e)
              same found)

      read :
          (v : String)
          → (v ≡ "") ⊎ (v ≡ ext.info_version doc)
          → find_record ristretto ext req.schema_id v (set_schema uuid r st) ≡ ok (stored uuid r)
      read v (inl bare) = if-true _ _ ((eq_iff v "").1 bare) ∙ get_schema-set_schema uuid r st valid
      read v (inr same) =
          if-false _ _ (ap (λ w. w == "") same ∙ accepted.is_versioned)
          ∙ get_schema_version-set_schema uuid r st req.schema_id v
          ∙ if-true _ _ (eq_refl req.schema_id)
          ∙ if-true _ _ ((eq_iff (ext.info_version doc) v).1 (sym same))

  Outcome-get_schema :
      (s : ValidatorService C) (a : Answer C) (v : String) (st : MemoryStore)
      → Outcome ristretto ext finder decimal uuid now req s a
      → a.response.success ≡ true
      → req.schema_id ≢ ""
      → s.store ≡ some st
      → ValidSchemas st.schemas
      → ext.fetch_schema req.schema_id v ≡ no_spec
      → (v ≡ "") ⊎ (v ≡ version_of a.response.metadata)
      → (get_schema ristretto ext req.schema_id v a.service).0 ≡ record {
        found = true;
        metadata = a.response.metadata;
        schema_content = req.schema_content;
      }
  unfolding commit get_schema schema_response new_schema_entry
  Outcome-get_schema s a v st (refused message t looked) success named kept valid unfetched asked =
      cc
  Outcome-get_schema s a v st (registered doc t w changes accepted looked base) success named kept
        valid unfetched asked =
      ap {A = GetSchemaResponse × ValidatorService C} (λ x. x.0) (if-false _ _ (apart_test named))
      ∙ ap schema_response (
          committed-entry v t st doc accepted
            (Looked-store ristretto ext req.schema_id "" s t looked ∙ kept) valid unfetched asked)

  -- After a registration that the service reports as successful, with a valid store and a plugin that
  -- does not know the schema, `GetSchema` returns the text and the metadata that were registered, for
  -- the latest version and for the version of the metadata, whether or not the cache has kept the
  -- entry.
  pub get_schema-register_schema :
      (s : ValidatorService C) (v : String) (st : MemoryStore)
      → let a = register_schema ristretto ext finder decimal uuid now req s in
        a.response.success ≡ true
        → req.schema_id ≢ ""
        → s.store ≡ some st
        → ValidSchemas st.schemas
        → ext.fetch_schema req.schema_id v ≡ no_spec
        → (v ≡ "") ⊎ (v ≡ version_of a.response.metadata)
        → (get_schema ristretto ext req.schema_id v a.service).0 ≡ record {
          found = true;
          metadata = a.response.metadata;
          schema_content = req.schema_content;
        }
  get_schema-register_schema s v st =
      Outcome-get_schema s _ v st
        (register_schema-Outcome ristretto ext finder decimal uuid now req s)
