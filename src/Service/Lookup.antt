-- ===== src/Service/Lookup.antt =====
-- What a lookup of an entry leaves as it was.
use cvt.Base.{
  String, Bool, true, false, not, ◌&&◌, Option, none, some, ◌≡◌, ◌≢◌, refl, subst, ◌∙◌, inl, inr,
  apart_test, Bool-cases, Option-cases, if◌then◌else◌, if-true, if-false,
}
use text.Mathlib.Text.{◌==◌}
use cvt.OpenApi.{Document}
use cvt.Store.{SchemaRecord, MemoryStore, Result, ok, not_found}
use cvt.Cache.{SchemaEntry, Ristretto, SchemaCache, set, set_version, get_latest, get_version}
use cvt.Cache.Entries.{get_latest-set_version}
use cvt.Service.{
  External, Fetched, usable, refusal, no_spec, spec, ValidatorService, nothing, cache_fetched,
  try_fetch_schema_from_plugin, find_record, use_fetched, use_answer, use_record, use_result,
  rehydrate, after_plugin, after_cache, get_schema_entry,
}

module _ {C : Type 0} (ristretto : Ristretto C) (ext : External) where
  -- The states that a lookup may leave.
  pub data Looked (i v : String) (s : ValidatorService C) : ValidatorService C → Type 0 where
    unchanged : Looked i v s s
    from_plugin :
        (resolved : String) (entry : SchemaEntry)
        → Looked i v s (record s { cache = cache_fetched ristretto ext i v resolved entry s.cache })
    from_store :
        (stored_version : String) (entry : SchemaEntry)
        → Looked i v s (record s {
          cache =
              if v == ""
              then set ristretto i entry s.cache
              else set_version ristretto i stored_version entry s.cache;
        })

  rehydrate-Looked :
      (i v : String) (s : ValidatorService C) (o : Option MemoryStore)
      → Looked i v s (rehydrate ristretto ext i v s o).1
  unfolding rehydrate use_record use_result
  rehydrate-Looked i v s none = unchanged
  rehydrate-Looked i v s (some store) = by_record (find_record ristretto ext i v store)
    where
      by_document :
          (r : SchemaRecord) (o : Option Document)
          → Looked i v s (use_record ristretto ext i v r s o).1
      by_document r none = unchanged
      by_document r (some doc) = from_store r.version _

      by_record : (o : Result SchemaRecord) → Looked i v s (use_result ristretto ext i v s o).1
      by_record (not_found a b) = unchanged
      by_record (ok r) = by_document r (usable ext r.content)

  -- What the plugin leaves: the state as it was, unless it supplied an entry.
  plugin-Looked :
      (i v : String) (s : ValidatorService C) (o : Fetched)
      → Looked i v s
          (after_plugin ristretto ext i v
            (use_answer ristretto ext i v s o).0
            (use_answer ristretto ext i v s o).1).1
  unfolding use_answer after_plugin use_fetched
  plugin-Looked i v s (refusal message) = unchanged
  plugin-Looked i v s no_spec = rehydrate-Looked i v s s.store
  plugin-Looked i v s (spec content resolved) = by_content (content == "") (usable ext content)
    where
      by_content :
          (b : Bool) (o : Option Document)
          → let used = use_fetched ristretto ext i v content resolved s o in
            let answer = if b then (nothing, s) else used in
            Looked i v s (after_plugin ristretto ext i v answer.0 answer.1).1
      by_content true o = rehydrate-Looked i v s s.store
      by_content false none = rehydrate-Looked i v s s.store
      by_content false (some doc) = from_plugin _ _

  pub get_schema_entry-Looked :
      (i v : String) (s : ValidatorService C)
      → Looked i v s (get_schema_entry ristretto ext i v s).1
  unfolding get_schema_entry after_cache try_fetch_schema_from_plugin
  get_schema_entry-Looked i v s = by_cached (get_version ristretto i v s.cache)
    where
      by_cached : (o : Option SchemaEntry) → Looked i v s (after_cache ristretto ext i v s o).1
      by_cached (some entry) = unchanged
      by_cached none = plugin-Looked i v s (ext.fetch_schema i v)

  set-consumers :
      (i : String) (entry : SchemaEntry) (c : SchemaCache C)
      → (set ristretto i entry c).consumers ≡ c.consumers
  unfolding set
  set-consumers i entry c = elim (Option-cases entry.metadata) [
    | inl absent ↦ rw (absent, set) refl
    | inr (m, given) ↦ elim (Bool-cases (m.schema_version == "")) [
      | inl bare ↦ rw (given, bare, set) refl
      | inr named ↦ rw (given, named, set) refl
    ]
  ]

  if-consumers :
      (b : Bool) (x y c : SchemaCache C)
      → x.consumers ≡ c.consumers
      → y.consumers ≡ c.consumers
      → (if b then x else y).consumers ≡ c.consumers
  if-consumers true x y c p q = p
  if-consumers false x y c p q = q

  pub Looked-consumers :
      (i v : String) (s t : ValidatorService C)
      → Looked i v s t
      → t.cache.consumers ≡ s.cache.consumers
  unfolding cache_fetched set_version
  Looked-consumers i v s t unchanged = refl
  Looked-consumers i v s t (from_plugin resolved entry) =
      if-consumers (v == "") _ _ s.cache (set-consumers i entry s.cache)
        (if-consumers (not (resolved == "") && not (resolved == v)) _ _ s.cache refl refl)
  Looked-consumers i v s t (from_store w entry) =
      if-consumers (v == "") _ _ s.cache (set-consumers i entry s.cache) refl

  -- A lookup registers no consumer and removes none.
  pub get_schema_entry-consumers :
      (i v : String) (s : ValidatorService C)
      → (get_schema_entry ristretto ext i v s).1.cache.consumers ≡ s.cache.consumers
  get_schema_entry-consumers i v s = Looked-consumers i v s _ (get_schema_entry-Looked i v s)

  fetched-latest :
      (i v resolved : String) (entry e : SchemaEntry) (c : SchemaCache C)
      → (v == "") ≡ false
      → get_latest ristretto i (cache_fetched ristretto ext i v resolved entry c) ≡ some e
      → get_latest ristretto i c ≡ some e
  unfolding cache_fetched
  fetched-latest i v resolved entry e c named found =
      elim (Bool-cases (not (resolved == "") && not (resolved == v))) [
        | inl both ↦ get_latest-set_version ristretto i v entry e c (
            get_latest-set_version ristretto i resolved entry e (set_version ristretto i v entry c)
              (read (if-false _ _ named ∙ if-true _ _ both) found))
        | inr one ↦
            get_latest-set_version ristretto i v entry e c
              (read (if-false _ _ named ∙ if-false _ _ one) found)
      ]
    where
      read :
          {x y : SchemaCache C}
          → x ≡ y
          → get_latest ristretto i x ≡ some e
          → get_latest ristretto i y ≡ some e
      read same h = subst (λ z. get_latest ristretto i z ≡ some e) same h

  Looked-latest :
      (i v : String) (s t : ValidatorService C) (e : SchemaEntry)
      → (v == "") ≡ false
      → Looked i v s t
      → get_latest ristretto i t.cache ≡ some e
      → get_latest ristretto i s.cache ≡ some e
  Looked-latest i v s t e named unchanged found = found
  Looked-latest i v s t e named (from_plugin resolved entry) found =
      fetched-latest i v resolved entry e s.cache named found
  Looked-latest i v s t e named (from_store w entry) found =
      get_latest-set_version ristretto i w entry e s.cache
        (subst (λ z. get_latest ristretto i z ≡ some e) (if-false _ _ named) found)

  -- Looking a version up never promotes it: whatever the cache then reads as the latest entry of the
  -- schema, it read before, wherever the version was found.
  pub get_schema_entry-latest :
      (i v : String) (s : ValidatorService C) (e : SchemaEntry)
      → v ≢ ""
      → get_latest ristretto i (get_schema_entry ristretto ext i v s).1.cache ≡ some e
      → get_latest ristretto i s.cache ≡ some e
  get_schema_entry-latest i v s e named found =
      Looked-latest i v s _ e (apart_test named) (get_schema_entry-Looked i v s) found
