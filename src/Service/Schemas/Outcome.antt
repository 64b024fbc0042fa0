-- ===== src/Service/Schemas/Outcome.antt =====
-- server/cvtservice/validator_service.go: the ways in which `RegisterSchema` ends.
use cvt.Base.{
  ℕ, String, List, [], ◌∷◌, Bool, true, false, Option, none, some, ◌≡◌, refl, if◌then◌else◌, concat,
}
use text.Mathlib.Text.{◌==◌}
use cvt.OpenApi.{Document, Finder}
use cvt.Compat.Change.{BreakingChange}
use cvt.Compat.Server.{compare_schemas}
use cvt.Cache.{SchemaEntry, Ristretto, get_latest}
use cvt.Service.{
  Parsed, rejected, parsed, External, Fetched, refusal, no_spec, spec, ValidatorService, usable,
  use_fetched, use_answer, nothing, try_fetch_schema_from_plugin,
}
use cvt.Service.Lookup.{Looked, unchanged, from_plugin, from_store}
use cvt.Service.Requests.{validate_register_schema_request}
use cvt.Service.Schemas.{
  RegisterSchemaRequest, Answer, Prior, prior, no_prior, lookup_error, version_of, prior_cached,
  lookup_prior_schema_for_compat, refuse, commit, commit_checked, mismatched, register_valid,
  register_validated, register_parsed, register_schema,
}

module _ {C : Type 0} (ristretto : Ristretto C) (ext : External) where
  fetched-Looked :
      (i v : String) (s : ValidatorService C) (o : Fetched)
      → Looked ristretto ext i v s (use_answer ristretto ext i v s o).1
  unfolding use_answer use_fetched
  fetched-Looked i v s (refusal message) = unchanged
  fetched-Looked i v s no_spec = unchanged
  fetched-Looked i v s (spec content resolved) = by_content (content == "") (usable ext content)
    where
      by_content :
          (b : Bool) (o : Option Document)
          → let used = use_fetched ristretto ext i v content resolved s o in
            Looked ristretto ext i v s (if b then (nothing, s) else used).1
      by_content true o = unchanged
      by_content false none = unchanged
      by_content false (some doc) = from_plugin _ _

  -- The prior version's lookup leaves what a lookup leaves.
  pub lookup_prior_schema_for_compat-Looked :
      (i : String) (s : ValidatorService C)
      → Looked ristretto ext i "" s (lookup_prior_schema_for_compat ristretto ext i s).1
  unfolding lookup_prior_schema_for_compat try_fetch_schema_from_plugin prior_cached
  lookup_prior_schema_for_compat-Looked i s = by_cached (get_latest ristretto i s.cache)
    where
      by_cached :
          (o : Option SchemaEntry)
          → Looked ristretto ext i "" s (prior_cached ristretto ext i s o).1
      by_cached (some entry) = unchanged
      by_cached none = fetched-Looked i "" s (ext.fetch_schema i "")

  -- A lookup does not write to the store.
  pub Looked-store :
      (i v : String) (s t : ValidatorService C) → Looked ristretto ext i v s t → t.store ≡ s.store
  Looked-store i v s t unchanged = refl
  Looked-store i v s t (from_plugin resolved entry) = refl
  Looked-store i v s t (from_store w entry) = refl

module _ {C : Type 0} (ristretto : Ristretto C) (ext : External) (finder : Finder)
    (decimal : ℕ → String) where
  -- What a registration is compared with: nothing, no version, or the version that was there before.
  pub data Baseline (req : RegisterSchemaRequest) (s : ValidatorService C) (doc : Document)
      : ValidatorService C → String → List BreakingChange → Type 0 where
    unchecked : req.check_compatibility ≡ false → Baseline req s doc s "" []
    first :
        (t : ValidatorService C)
        → req.check_compatibility ≡ true
        → lookup_prior_schema_for_compat ristretto ext req.schema_id s ≡ (no_prior, t)
        → Baseline req s doc t "" []
    against :
        (entry : SchemaEntry) (t : ValidatorService C)
        → req.check_compatibility ≡ true
        → lookup_prior_schema_for_compat ristretto ext req.schema_id s ≡ (prior entry, t)
        → Baseline req s doc t
            (version_of entry.metadata)
            (compare_schemas finder entry.document doc).0

  -- What is known of a document that is registered.
  pub record Accepted (req : RegisterSchemaRequest) (doc : Document) : Type 0 where
    pub parsed_as : ext.parse_and_convert_schema req.schema_content ≡ parsed doc
    pub is_valid : ext.validate doc ≡ none
    pub is_versioned : (ext.info_version doc == "") ≡ false
    pub confirmed : mismatched ext req doc ≡ false
    pub routed : ext.build_router doc ≡ none

  pub data Outcome (uuid : String) (now : ℕ) (req : RegisterSchemaRequest) (s : ValidatorService C)
      : Answer C → Type 0 where
    refused :
        (message : String) (t : ValidatorService C)
        → Looked ristretto ext req.schema_id "" s t
        → Outcome uuid now req s (refuse message t)
    registered :
        (doc : Document) (t : ValidatorService C) (prior_version : String)
        (changes : List BreakingChange)
        → Accepted req doc
        → Looked ristretto ext req.schema_id "" s t
        → Baseline req s doc t prior_version changes
        → Outcome uuid now req s
            (commit ristretto ext finder decimal uuid now req doc prior_version changes t none)

  module _ (uuid : String) (now : ℕ) (req : RegisterSchemaRequest) (s : ValidatorService C) where
    commit-Outcome :
        (doc : Document) (t : ValidatorService C) (v : String) (changes : List BreakingChange)
        (o : Option String)
        → (o ≡ none → Accepted req doc)
        → Looked ristretto ext req.schema_id "" s t
        → Baseline req s doc t v changes
        → Outcome uuid now req s
            (commit ristretto ext finder decimal uuid now req doc v changes t o)
    unfolding commit
    commit-Outcome doc t v changes (some message) accepted looked base = refused _ t looked
    commit-Outcome doc t v changes none accepted looked base =
        registered doc t v changes (accepted refl) looked base

    checked-Outcome :
        (doc : Document) (t : ValidatorService C) (found : Prior)
        → (ext.build_router doc ≡ none → Accepted req doc)
        → req.check_compatibility ≡ true
        → lookup_prior_schema_for_compat ristretto ext req.schema_id s ≡ (found, t)
        → Looked ristretto ext req.schema_id "" s t
        → Outcome uuid now req s
            (commit_checked ristretto ext finder decimal uuid now req doc found t)
    unfolding commit_checked
    checked-Outcome doc t (lookup_error message) accepted check e looked = refused _ t looked
    checked-Outcome doc t no_prior accepted check e looked =
        commit-Outcome doc t "" [] (ext.build_router doc) accepted looked (first t check e)
    checked-Outcome doc t (prior entry) accepted check e looked =
        commit-Outcome doc t _ _ (ext.build_router doc) accepted looked (against entry t check e)

    valid-Outcome :
        (doc : Document)
        → ext.parse_and_convert_schema req.schema_content ≡ parsed doc
        → (o : Option String) → ext.validate doc ≡ o
        → Outcome uuid now req s
            (register_validated ristretto ext finder decimal uuid now req doc s o)
    unfolding register_validated register_valid
    valid-Outcome doc p (some message) e = refused _ s unchanged
    valid-Outcome doc p none e =
        by_tests (ext.info_version doc == "") refl (mismatched ext req doc) refl
          req.check_compatibility refl
      where
        looked : Prior × ValidatorService C
        looked = lookup_prior_schema_for_compat ristretto ext req.schema_id s

        accepted :
            (ext.info_version doc == "") ≡ false
            → mismatched ext req doc ≡ false
            → ext.build_router doc ≡ none
            → Accepted req doc
        accepted q r routed = record {
          parsed_as = p;
          is_valid = e;
          is_versioned = q;
          confirmed = r;
          routed = routed;
        }

        by_tests :
            (b : Bool)
            → (ext.info_version doc == "") ≡ b
            → (c : Bool) → mismatched ext req doc ≡ c
            → (d : Bool) → req.check_compatibility ≡ d
            → Outcome uuid now req s (
                if b
                then refuse "Schema must have info.version defined" s
                else (if c
                    then refuse
                        (concat (
                          "Version mismatch: provided version '"
                          ∷ req.schema_version
                          ∷ "' does not match schema info.version '"
                          ∷ ext.info_version doc
                          ∷ "'"
                          ∷ []))
                        s
                    else (if d
                        then commit_checked ristretto ext finder decimal uuid now req doc looked.0
                            looked.1
                        else commit ristretto ext finder decimal uuid now req doc "" [] s
                            (ext.build_router doc))))
        by_tests true q c r d h = refused _ s unchanged
        by_tests false q true r d h = refused _ s unchanged
        by_tests false q false r true h =
            checked-Outcome doc looked.1 looked.0 (accepted q r) h refl
              (lookup_prior_schema_for_compat-Looked ristretto ext req.schema_id s)
        by_tests false q false r false h =
            commit-Outcome doc s "" [] (ext.build_router doc) (accepted q r) unchanged (unchecked h)

    parsed-Outcome :
        (o : Parsed)
        → ext.parse_and_convert_schema req.schema_content ≡ o
        → Outcome uuid now req s (register_parsed ristretto ext finder decimal uuid now req s o)
    unfolding register_parsed
    parsed-Outcome (rejected message) p = refused _ s unchanged
    parsed-Outcome (parsed doc) p = valid-Outcome doc p (ext.validate doc) refl

    pub register_schema-Outcome :
        Outcome uuid now req s (register_schema ristretto ext finder decimal uuid now req s)
    unfolding register_schema
    register_schema-Outcome =
        by_request (validate_register_schema_request decimal req.schema_id req.schema_content)
      where
        by_request :
            (o : Option String)
            → Outcome uuid now req s (elim o [
              | some message ↦ refuse (concat ("Validation error: " ∷ message ∷ [])) s
              | none ↦
                  register_parsed ristretto ext finder decimal uuid now req s
                    (ext.parse_and_convert_schema req.schema_content)
            ])
        by_request (some message) = refused _ s unchanged
        by_request none = parsed-Outcome (ext.parse_and_convert_schema req.schema_content) refl
