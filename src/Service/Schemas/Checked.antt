-- ===== src/Service/Schemas/Checked.antt =====
-- server/cvtservice/validator_service.go: what the check of `RegisterSchema` against the earlier version
-- says.
use cvt.Base.{
  ℕ, String, [], ◌∷◌, true, false, none, some, ◌≡◌, ◌≢◌, ◌↔◌, refl, sym, ap, subst, ◌∙◌, List,
}
use cvt.OpenApi.{Document, Finder}
use cvt.Compat.Change.{BreakingChange}
use cvt.Compat.Spec.{IsCompatible}
use cvt.Compat.Spec.{RegularDocument}
use cvt.Compat.Correct.{compare_schemas-IsCompatible, is_empty}
use cvt.Compat.Server.{compare_schemas}
use cvt.Store.{MemoryStore, not_found, get_schema}
use cvt.Cache.{SchemaEntry, Ristretto, get_latest}
use cvt.Service.{
  parsed, External, no_spec, ValidatorService, use_answer, try_fetch_schema_from_plugin,
}
use cvt.Service.Schemas.{
  RegisterSchemaRequest, Answer, Prior, prior, lookup_error, prior_cached, prior_answer,
  prior_stored, prior_result, lookup_prior_schema_for_compat, commit,
  fire_on_breaking_change_detected, register_schema,
}
use cvt.Service.Schemas.Outcome.{
  Baseline, unchecked, first, against, Outcome, refused, registered, register_schema-Outcome,
}

false≢true : false ≢ true
false≢true e = cc

-- The hook is called exactly where there are changes.
pub fired_none_iff :
    (schema_id old_version new_version : String) (changes : List BreakingChange) (by : String)
    → (fire_on_breaking_change_detected schema_id old_version new_version changes by ≡ none)
      ↔ (changes ≡ [])
unfolding fire_on_breaking_change_detected
fired_none_iff i v w [] by = (λ e. refl, λ e. refl)
fired_none_iff i v w (c ∷ cs) by = (λ e. cc, λ e. cc)

module _ {C : Type 0} (ristretto : Ristretto C) (ext : External) (finder : Finder)
    (decimal : ℕ → String) (uuid : String) (now : ℕ) (req : RegisterSchemaRequest)
    (s : ValidatorService C) where
  -- A registration that was checked against an entry.
  pub record Checked (entry : SchemaEntry) (a : Answer C) : Type 0 where
    pub document : Document
    pub parsed_as : ext.parse_and_convert_schema req.schema_content ≡ parsed document
    pub reported_iff :
        (a.response.breaking_changes ≡ []) ↔ IsCompatible finder entry.document document
    pub fired_iff : (a.fired ≡ none) ↔ IsCompatible finder entry.document document

  unreported_iff :
      (old_doc new_doc : Document)
      → RegularDocument old_doc
      → ((compare_schemas finder old_doc new_doc).0 ≡ []) ↔ IsCompatible finder old_doc new_doc
  unfolding compare_schemas
  unreported_iff old_doc new_doc regular =
      let (sound, complete) = compare_schemas-IsCompatible finder old_doc new_doc regular in
      (λ e. sound ((is_empty _).1 e), λ c. (is_empty _).0 (complete c))

  of_prior : SchemaEntry → Prior → SchemaEntry
  of_prior other (prior e) = e
  of_prior other p = other

  Baseline-unreported_iff :
      (entry : SchemaEntry) (t u : ValidatorService C) (doc : Document) (v : String)
      (changes : List BreakingChange)
      → Baseline ristretto ext finder decimal req s doc u v changes
      → req.check_compatibility ≡ true
      → lookup_prior_schema_for_compat ristretto ext req.schema_id s ≡ (prior entry, t)
      → RegularDocument entry.document
      → (changes ≡ []) ↔ IsCompatible finder entry.document doc
  unfolding of_prior
  Baseline-unreported_iff entry t u doc v changes (unchecked h) check e regular = cc
  Baseline-unreported_iff entry t u doc v changes (first w h f) check e regular = cc
  Baseline-unreported_iff entry t u doc v changes (against entry' w h f) check e regular =
      let same : entry ≡ entry' = ap (λ p. of_prior entry p.0) (sym e ∙ f) in
      subst
        (λ x.
          ((compare_schemas finder x.document doc).0 ≡ []) ↔ IsCompatible finder entry.document doc)
        same (unreported_iff entry.document doc regular)

  Outcome-Checked :
      (a : Answer C) (entry : SchemaEntry) (t : ValidatorService C)
      → Outcome ristretto ext finder decimal uuid now req s a
      → req.check_compatibility ≡ true
      → lookup_prior_schema_for_compat ristretto ext req.schema_id s ≡ (prior entry, t)
      → RegularDocument entry.document
      → a.response.success ≡ true
      → Checked entry a
  unfolding commit
  Outcome-Checked a entry t (refused message u looked) check e regular success =
      absurd (false≢true success)
  Outcome-Checked a entry t (registered doc u v changes accepted looked base) check e regular
        success =
      let (sound, complete) =
        Baseline-unreported_iff entry t u doc v changes base check e regular in
      let (f, g) = fired_none_iff req.schema_id v (ext.info_version doc) changes "RegisterSchema" in
      record {
        document = doc;
        parsed_as = accepted.parsed_as;
        reported_iff = (sound, complete);
        fired_iff = (λ h. sound (f h), λ h. g (complete h));
      }

  -- A registration with the check, which finds an earlier entry and succeeds, reports no breaking
  -- change, and calls no hook, exactly when the new document satisfies the specification of
  -- compatibility with the earlier one, whose parameters and types are as that theorem asks.
  pub register_schema-Checked :
      (entry : SchemaEntry) (t : ValidatorService C)
      → req.check_compatibility ≡ true
      → lookup_prior_schema_for_compat ristretto ext req.schema_id s ≡ (prior entry, t)
      → RegularDocument entry.document
      → (register_schema ristretto ext finder decimal uuid now req s).response.success ≡ true
      → Checked entry (register_schema ristretto ext finder decimal uuid now req s)
  register_schema-Checked entry t =
      Outcome-Checked _ entry t
        (register_schema-Outcome ristretto ext finder decimal uuid now req s)

  -- The lookup of an earlier version fails where the store has none.
  missing-lookup_error :
      (st : MemoryStore) (resource id : String)
      → get_latest ristretto req.schema_id s.cache ≡ none
      → ext.fetch_schema req.schema_id "" ≡ no_spec
      → s.store ≡ some st
      → get_schema req.schema_id st ≡ not_found resource id
      → (message : String) × (lookup_prior_schema_for_compat ristretto ext req.schema_id s
          ≡ (lookup_error message, s))
  unfolding lookup_prior_schema_for_compat prior_cached try_fetch_schema_from_plugin use_answer
      prior_answer prior_stored prior_result
  missing-lookup_error st resource id uncached unfetched kept missing = (
    _,
    ap (prior_cached ristretto ext req.schema_id s) uncached
        ∙ ap
            (λ o.
              let answer = use_answer ristretto ext req.schema_id "" s o in
              (prior_answer ext req.schema_id answer.0 answer.1.store, answer.1))
            unfetched
        ∙ ap (λ o. (prior_stored ext req.schema_id o, s)) kept
        ∙ ap (λ o. (prior_result ext req.schema_id o, s)) missing,
  )

  Outcome-refused :
      (a : Answer C) (message : String)
      → Outcome ristretto ext finder decimal uuid now req s a
      → req.check_compatibility ≡ true
      → lookup_prior_schema_for_compat ristretto ext req.schema_id s ≡ (lookup_error message, s)
      → a.response.success ≡ false
  Outcome-refused a message (refused m t looked) check e = refl
  Outcome-refused a message (registered doc u v changes accepted looked base) check e =
      absurd (by_base u v changes base)
    where
      by_base :
          (u : ValidatorService C) (v : String) (changes : List BreakingChange)
          → Baseline ristretto ext finder decimal req s doc u v changes
          → ⊥
      by_base u v changes (unchecked h) = cc
      by_base u v changes (first w h f) = cc
      by_base u v changes (against entry w h f) = cc

  -- With a store, the first registration of a schema fails when it asks for the check of
  -- compatibility, unless the cache or the plugin has the schema: the store answers with an error
  -- that it is not found.
  pub register_schema-first :
      (st : MemoryStore) (resource id : String)
      → req.check_compatibility ≡ true
      → get_latest ristretto req.schema_id s.cache ≡ none
      → ext.fetch_schema req.schema_id "" ≡ no_spec
      → s.store ≡ some st
      → get_schema req.schema_id st ≡ not_found resource id
      → (register_schema ristretto ext finder decimal uuid now req s).response.success ≡ false
  register_schema-first st resource id check uncached unfetched kept missing =
      let (message, failing) =
        missing-lookup_error st resource id uncached unfetched kept missing in
      Outcome-refused _ message
        (register_schema-Outcome ristretto ext finder decimal uuid now req s) check failing
