-- ===== src/Service/Queries/Shortcut.antt =====
-- server/cvtservice/validator_service.go: `CompareSchemas` answers by the hashes of two texts where
-- they are equal, and by the engine where they are not.
use cvt.Base.{
  if◌then◌else◌, String, [], Bool, true, false, Option, none, some, ◌≡◌, ◌≢◌, ◌↔◌, refl, sym, ap,
  subst, ◌∙◌, eq_iff, if-false, apart_test,
}
use text.Mathlib.Text.{◌==◌}
use cvt.OpenApi.{Document, Finder}
use cvt.Compat.Spec.{IsCompatible, RegularDocument}
use cvt.Compat.Server as Server
use cvt.Compat.Correct.{compare_schemas-IsCompatible, is_empty}
use cvt.Compat.Reflexive.{DistinctKeys, compare_schemas_self}
use cvt.Cache.{SchemaMetadata, SchemaEntry, Ristretto}
use cvt.Service.{Parsed, parsed, External, ValidatorService, get_schema_entry}
use cvt.Service.Schemas.{BreakingChangeDetected}
use cvt.Service.Schemas.Checked.{fired_none_iff}
use cvt.Service.Queries.{
  CompareSchemasRequest, CompareSchemasResponse, Comparison, answered, compare_documents,
  compare_found, compare_entries, old_version_of, new_version_of, entry_at, compare_schemas,
}

-- An entry as `NewSchemaEntry` makes it of a text.
pub record MadeFrom (ext : External) (e : SchemaEntry) : Type 0 where
  pub metadata : SchemaMetadata
  pub has_metadata : e.metadata ≡ some metadata
  pub parsed_as : ext.parse_and_convert_schema e.content ≡ parsed e.document
  pub hashed : metadata.schema_hash ≡ ext.schema_hash e.content

-- The answer tells whether the new document satisfies the specification.
pub record Verdict (finder : Finder) (old new : SchemaEntry) (c : Comparison) : Type 0 where
  pub response : CompareSchemasResponse
  pub event : Option BreakingChangeDetected
  pub answers : c ≡ answered response event
  pub compatible_iff : (response.compatible ≡ true) ↔ IsCompatible finder old.document new.document
  pub unreported : (response.compatible ≡ true) ↔ (response.breaking_changes ≡ [])
  pub unfired : (response.compatible ≡ true) ↔ (event ≡ none)
  pub both_named : (response.old_schema ≡ old.metadata) × (response.new_schema ≡ new.metadata)

module _ (ext : External) (finder : Finder) (old new : SchemaEntry)
    (regular : RegularDocument old.document) (i v w : String) where
  documents-Verdict :
      (m n : SchemaMetadata)
      → old.metadata ≡ some m
      → new.metadata ≡ some n
      → Verdict finder old new (compare_documents finder i v w old new m n)
  unfolding compare_documents Server.compare_schemas
  documents-Verdict m n has_m has_n = record {
    response = _;
    event = _;
    answers = refl;
    compatible_iff = compare_schemas-IsCompatible finder old.document new.document regular;
    unreported = is_empty _;
    unfired =
        let (f, g) =
          fired_none_iff i v w (Server.compare_schemas finder old.document new.document).0
            "CompareSchemas" in
        let (a, b) = is_empty (Server.compare_schemas finder old.document new.document).0 in
        (λ h. g (a h), λ h. b (f h));
    both_named = (sym has_m, sym has_n);
  }

  -- The shortcut is right where the two texts are one, of which the parser makes one document.
  same_text-Verdict :
      (m n : SchemaMetadata)
      → old.metadata ≡ some m
      → new.metadata ≡ some n
      → old.document ≡ new.document
      → DistinctKeys old.document
      → Verdict finder old new (
          answered
            (record {
              compatible = true;
              breaking_changes = [];
              old_schema = some m;
              new_schema = some n;
            })
            none)
  same_text-Verdict m n has_m has_n same once = record {
    response = _;
    event = none;
    answers = refl;
    compatible_iff = (
      λ h.
          subst (λ d. IsCompatible finder old.document d) same
            ((compare_schemas-IsCompatible finder old.document old.document regular).0
              (compare_schemas_self finder old.document regular once)),
      λ h. refl,
    );
    unreported = (λ h. refl, λ h. refl);
    unfired = (λ h. refl, λ h. refl);
    both_named = (sym has_m, sym has_n);
  }

  of_parsed : Document → Parsed → Document
  of_parsed other (parsed doc) = doc
  of_parsed other p = other

  one_document :
      MadeFrom ext old → MadeFrom ext new → old.content ≡ new.content → old.document ≡ new.document
  unfolding of_parsed
  one_document made_old made_new same =
      ap (of_parsed old.document)
        (sym made_old.parsed_as ∙ ap ext.parse_and_convert_schema same ∙ made_new.parsed_as)

  found-Verdict :
      (made_old : MadeFrom ext old) (made_new : MadeFrom ext new)
      → DistinctKeys old.document
      → (ext.schema_hash old.content ≡ ext.schema_hash new.content → old.content ≡ new.content)
      → Verdict finder old new
          (compare_found finder i v w old new (some made_old.metadata) (some made_new.metadata))
  unfolding compare_found
  found-Verdict made_old made_new once no_collision =
      by_hashes (m.schema_hash == n.schema_hash) refl
    where
      m : SchemaMetadata
      m = made_old.metadata

      n : SchemaMetadata
      n = made_new.metadata

      by_hashes :
          (b : Bool)
          → (m.schema_hash == n.schema_hash) ≡ b
          → Verdict finder old new (
              if b
              then answered
                  (record {
                    compatible = true;
                    breaking_changes = [];
                    old_schema = some m;
                    new_schema = some n;
                  })
                  none
              else compare_documents finder i v w old new m n)
      by_hashes false e = documents-Verdict m n made_old.has_metadata made_new.has_metadata
      by_hashes true e =
          let texts =
            no_collision
              (sym made_old.hashed ∙ (eq_iff m.schema_hash n.schema_hash).0 e ∙ made_new.hashed) in
          same_text-Verdict m n made_old.has_metadata made_new.has_metadata
            (one_document made_old made_new texts) once

  entries-Verdict :
      (made_old : MadeFrom ext old) (made_new : MadeFrom ext new)
      → DistinctKeys old.document
      → (ext.schema_hash old.content ≡ ext.schema_hash new.content → old.content ≡ new.content)
      → Verdict finder old new (compare_entries finder i v w (some old) (some new))
  unfolding compare_entries
  entries-Verdict made_old made_new once no_collision =
      subst (λ o. Verdict finder old new (compare_found finder i v w old new o new.metadata))
        (sym made_old.has_metadata)
        (subst
          (λ o.
            Verdict finder old new (compare_found finder i v w old new (some made_old.metadata) o))
          (sym made_new.has_metadata) (found-Verdict made_old made_new once no_collision))

module _ {C : Type 0} (ristretto : Ristretto C) (ext : External) (finder : Finder) where
  -- With both versions named, the entries that are looked up one after the other are compared.
  compare_named :
      (req : CompareSchemasRequest) (s : ValidatorService C) (old new : SchemaEntry)
      → req.schema_id ≢ ""
      → req.old_version ≢ ""
      → req.new_version ≢ ""
      → let looked = get_schema_entry ristretto ext req.schema_id req.old_version s in
        looked.0 ≡ some old
        → (get_schema_entry ristretto ext req.schema_id req.new_version looked.1).0 ≡ some new
        → (compare_schemas ristretto ext finder req s).0
          ≡ compare_entries finder req.schema_id req.old_version req.new_version
              (some old)
              (some new)
  unfolding compare_schemas old_version_of new_version_of entry_at
  compare_named req s old new named named_old named_new found_old found_new =
      ap {A = Comparison × ValidatorService C} (λ x. x.0) (if-false _ _ (apart_test named))
      ∙ ap from_old (if-false _ (req.old_version, s) (apart_test named_old))
      ∙ ap from_new (if-false _ (req.new_version, s) (apart_test named_new))
      ∙ ap from_first (if-false (none, s) _ (apart_test named_old))
      ∙ ap from_second (if-false (none, _) _ (apart_test named_new))
      ∙ ap
          (λ o.
            compared o (get_schema_entry ristretto ext req.schema_id req.new_version looked.1).0)
          found_old
      ∙ ap (compared (some old)) found_new
    where
      compared : Option SchemaEntry → Option SchemaEntry → Comparison
      compared = compare_entries finder req.schema_id req.old_version req.new_version

      looked : Option SchemaEntry × ValidatorService C
      looked = get_schema_entry ristretto ext req.schema_id req.old_version s

      from_second : Option SchemaEntry × ValidatorService C → Comparison
      from_second n = compared looked.0 n.0

      from_first : Option SchemaEntry × ValidatorService C → Comparison
      from_first o = compared o.0 (entry_at ristretto ext req.schema_id req.new_version o.1).0

      from_new : String × ValidatorService C → Comparison
      from_new x =
          let o = entry_at ristretto ext req.schema_id req.old_version x.1 in
          compare_entries finder req.schema_id req.old_version x.0 o.0
            (entry_at ristretto ext req.schema_id x.0 o.1).0

      from_old : String × ValidatorService C → Comparison
      from_old x =
          let y = new_version_of ristretto ext req x.1 in
          let o = entry_at ristretto ext req.schema_id x.0 y.1 in
          compare_entries finder req.schema_id x.0 y.0 o.0
            (entry_at ristretto ext req.schema_id y.0 o.1).0

  -- For two versions that the request names and the lookups find, of texts without a collision of
  -- their hashes, and an old document that is regular: `CompareSchemas` answers "compatible", lists no
  -- change, and calls no hook exactly when the new document satisfies the specification, whether it
  -- took the shortcut for equal hashes or ran the engine; and it returns the metadata of both.
  pub compare_schemas-Verdict :
      (req : CompareSchemasRequest) (s : ValidatorService C) (old new : SchemaEntry)
      → req.schema_id ≢ ""
      → req.old_version ≢ ""
      → req.new_version ≢ ""
      → let looked = get_schema_entry ristretto ext req.schema_id req.old_version s in
        looked.0 ≡ some old
        → (get_schema_entry ristretto ext req.schema_id req.new_version looked.1).0 ≡ some new
        → MadeFrom ext old
        → MadeFrom ext new
        → RegularDocument old.document
        → DistinctKeys old.document
        → (ext.schema_hash old.content ≡ ext.schema_hash new.content → old.content ≡ new.content)
        → Verdict finder old new (compare_schemas ristretto ext finder req s).0
  compare_schemas-Verdict req s old new named named_old named_new found_old found_new made_old
        made_new regular once no_collision =
      subst (Verdict finder old new)
        (sym (compare_named req s old new named named_old named_new found_old found_new))
        (entries-Verdict ext finder old new regular req.schema_id req.old_version req.new_version
          made_old made_new once no_collision)
