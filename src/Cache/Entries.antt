-- ===== src/Cache/Entries.antt =====
-- server/cvtservice/cache.go: what is read after an entry is stored, and after a schema is deleted,
-- over a cache that may evict at any time.
use cvt.Base.{
  String, List, [], ◌∷◌, none, some, ◌≡◌, ◌≢◌, refl, sym, ap, subst, ◌∙◌, inl, inr, Memᴰ,
  Bool-cases, apart_test, Option-cases, eq_iff, concat, not-append, if-true, if-false,
}
use mathlib.Core.List.Memᴰ.{head, tail}
use text.Mathlib.Text.{◌==◌}
use cvt.Base.Dict.{get, get-delete}
use cvt.Cache.{
  SchemaMetadata, SchemaEntry, Ristretto, SchemaCache, make_versioned_key, versions_of, set,
  set_version, get_latest, get_version, del_versions, delete_schema, list_versions,
}

separator_named : ◌≢◌ {A = String} "@" ""
separator_named e = cc

module _ {C : Type 0} (ristretto : Ristretto C) where
  -- A deleted key stays deleted, and a key of a version that is deleted is gone.
  del_versions-none :
      (schema_id k : String) (vs : List String) (c : C)
      → ristretto.find k c ≡ none
      → ristretto.find k (del_versions ristretto schema_id vs c) ≡ none
  unfolding del_versions
  del_versions-none i k [] c e = e
  del_versions-none i k (v ∷ vs) c e =
      del_versions-none i k vs (ristretto.del (make_versioned_key i v) c)
        (elim (Option-cases (ristretto.find k (ristretto.del (make_versioned_key i v) c))) [
          | inl gone ↦ gone
          | inr (entry, found) ↦
              cc (ristretto.find_del_other k (make_versioned_key i v) entry c found)
        ])

  del_versions-mem :
      (schema_id v : String) (vs : List String) (c : C)
      → Memᴰ v vs
      → ristretto.find (make_versioned_key schema_id v) (del_versions ristretto schema_id vs c)
        ≡ none
  unfolding del_versions
  del_versions-mem i v [] c m = elim m [ ]
  del_versions-mem i v (u ∷ us) c (head e) =
      del_versions-none i (make_versioned_key i v) us (ristretto.del (make_versioned_key i u) c) (
        subst
          (λ x.
            ristretto.find (make_versioned_key i x) (ristretto.del (make_versioned_key i u) c)
            ≡ none)
          (sym e) (ristretto.find_del (make_versioned_key i u) c))
  del_versions-mem i v (u ∷ us) c (tail m) =
      del_versions-mem i v us (ristretto.del (make_versioned_key i u) c) m

  -- After `Delete` neither the latest entry of the schema nor the entry of any version that was
  -- tracked is found, and no version of the schema is tracked.
  pub get_version-delete_schema :
      (schema_id : String) (s : SchemaCache C)
      → (get_latest ristretto schema_id (delete_schema ristretto schema_id s) ≡ none)
        × (list_versions schema_id (delete_schema ristretto schema_id s) ≡ [])
        × ((v : String)
            → Memᴰ v (list_versions schema_id s)
            → get_version ristretto schema_id v (delete_schema ristretto schema_id s) ≡ none)
  unfolding get_latest get_version delete_schema list_versions
  get_version-delete_schema i s = (
    latest,
    ap (λ o. elim o [ none ↦ [] | some vs ↦ vs ])
        (get-delete i i s.schema_versions
          ∙ if-true none (get i s.schema_versions) ((eq_iff i i).1 refl)),
    λ v m. elim (Bool-cases (v == "")) [
      | inl bare ↦ if-true _ _ bare ∙ latest
      | inr named ↦
          if-false _ _ named
          ∙ del_versions-mem i v (versions_of i s.schema_versions) (ristretto.del i s.cache) m
    ],
  )
    where
      latest : ristretto.find i (delete_schema ristretto i s).cache ≡ none
      latest =
          del_versions-none i i (versions_of i s.schema_versions) (ristretto.del i s.cache)
            (ristretto.find_del i s.cache)

  -- An entry that is stored with its version is what that version reads, where the cache has kept
  -- it.
  pub get_version-set :
      (schema_id : String) (metadata : SchemaMetadata) (entry e : SchemaEntry) (s : SchemaCache C)
      → entry.metadata ≡ some metadata
      → metadata.schema_version ≢ ""
      → get_version ristretto schema_id metadata.schema_version (set ristretto schema_id entry s)
        ≡ some e
      → entry ≡ e
  unfolding get_version set
  get_version-set i m entry e s has_metadata named found =
      let apart = apart_test named in
      ristretto.find_set (make_versioned_key i m.schema_version) entry e
        (ristretto.set_with_ttl i entry s.cache)
        (rw (has_metadata, apart, get_version, set) at found)

  -- Storing a version alone leaves the latest slot as it was, where the cache has kept it.
  pub get_latest-set_version :
      (schema_id version : String) (entry e : SchemaEntry) (s : SchemaCache C)
      → get_latest ristretto schema_id (set_version ristretto schema_id version entry s) ≡ some e
      → get_latest ristretto schema_id s ≡ some e
  unfolding get_latest set_version
  get_latest-set_version i v entry e s found =
      ristretto.find_set_other i (make_versioned_key i v) entry e s.cache
        (not-append i "@" (concat (v ∷ [])) separator_named) found

  -- An entry that is stored with its version is what the bare key reads, where the cache has kept it.
  pub get_latest-set :
      (schema_id : String) (metadata : SchemaMetadata) (entry e : SchemaEntry) (s : SchemaCache C)
      → entry.metadata ≡ some metadata
      → metadata.schema_version ≢ ""
      → get_latest ristretto schema_id (set ristretto schema_id entry s) ≡ some e
      → entry ≡ e
  unfolding get_latest set
  get_latest-set i m entry e s has_metadata named found =
      let apart = apart_test named in
      ristretto.find_set i entry e s.cache (
        ristretto.find_set_other i (make_versioned_key i m.schema_version) entry e
          (ristretto.set_with_ttl i entry s.cache)
          (not-append i "@" (concat (m.schema_version ∷ [])) separator_named)
          (rw (has_metadata, apart, get_latest, set) at found))
