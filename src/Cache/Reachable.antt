-- ===== src/Cache/Reachable.antt =====
-- The states that the cache's operations and its evictions reach from an empty cache.
use cvt.Base.{String, List, [], Option, none, some, ◌≡◌, refl, inl, inr, Option-cases, Bool-cases}
use text.Mathlib.Text.{◌==◌}
use cvt.Base.Dict.{Dict, get}
use cvt.Base.Kept.{Kept, put-Kept, delete-Kept}
use cvt.OpenApi.{Document}
use cvt.Registry.{ConsumerEntry, make_consumer_key}
use cvt.Cache.{
  SchemaEntry, SchemaMetadata, Ristretto, SchemaCache, set, set_version, set_legacy, delete_schema,
  clear_all, key_of, renewed, register_consumer, deregister_consumer,
}
use cvt.Cache.Versions.{
  SortedVersions, track_version-SortedVersions, delete-SortedVersions, no_versions,
}

module _ {C : Type 0} (ristretto : Ristretto C) (empty : C) where
  abbrev pub new_schema_cache : SchemaCache C
  new_schema_cache = record { cache = empty; schema_versions = []; consumers = [] }

  -- One call, or any change that ristretto makes to what it holds.
  pub data Step (s : SchemaCache C) : SchemaCache C → Type 0 where
    store : (schema_id : String) (entry : SchemaEntry) → Step s (set ristretto schema_id entry s)
    store_version :
        (schema_id version : String) (entry : SchemaEntry)
        → Step s (set_version ristretto schema_id version entry s)
    store_legacy :
        (schema_id : String) (schema : Document) → Step s (set_legacy ristretto schema_id schema s)
    drop : (schema_id : String) → Step s (delete_schema ristretto schema_id s)
    drop_all : Step s (clear_all ristretto s)
    evict : (cache : C) → Step s (record s { cache = cache })
    register : (entry : ConsumerEntry) → Step s (register_consumer entry s)
    deregister :
        (consumer_id schema_id environment : String)
        → Step s (deregister_consumer consumer_id schema_id environment s).0

  pub data Reachable : SchemaCache C → Type 0 where
    start : Reachable new_schema_cache
    next : {t s : SchemaCache C} → Reachable t → Step t s → Reachable s

  -- The version lists are sorted, and each consumer is kept under its own key.
  pub record IsValid (s : SchemaCache C) : Type 0 where
    pub sorted : SortedVersions s.schema_versions
    pub consumer_keys :
        (key : String) (c : ConsumerEntry) → get key s.consumers ≡ some c → key ≡ key_of c

  set_versions :
      (s : SchemaCache C) (cache : C) (versions : Dict (List String))
      → IsValid s
      → SortedVersions versions
      → IsValid (record s { cache = cache; schema_versions = versions })
  set_versions s cache versions valid sorted = record {
    sorted = sorted;
    consumer_keys = valid.consumer_keys;
  }

  set-IsValid :
      (schema_id : String) (entry : SchemaEntry) (s : SchemaCache C)
      → IsValid s
      → IsValid (set ristretto schema_id entry s)
  unfolding set
  set-IsValid i entry s valid = by_metadata entry.metadata refl
    where
      by_metadata :
          (o : Option SchemaMetadata) → entry.metadata ≡ o → IsValid (set ristretto i entry s)
      by_metadata none e = rw (e, set) (set_versions s _ s.schema_versions valid valid.sorted)
      by_metadata (some m) e = elim (Bool-cases (m.schema_version == "")) [
        | inl bare ↦ rw (e, bare, set) (set_versions s _ s.schema_versions valid valid.sorted)
        | inr named ↦
            rw (e, named, set)
              (set_versions s _ _ valid
                (track_version-SortedVersions i m.schema_version s.schema_versions valid.sorted))
      ]

  renewed_key :
      (entry : ConsumerEntry) (o : Option ConsumerEntry) → key_of entry ≡ key_of (renewed entry o)
  renewed_key entry none = refl
  renewed_key entry (some existing) = refl

  deregister_consumer-IsValid :
      (consumer_id schema_id environment : String) (s : SchemaCache C)
      → IsValid s
      → IsValid (deregister_consumer consumer_id schema_id environment s).0
  unfolding deregister_consumer Kept
  deregister_consumer-IsValid c i env s valid =
      elim (Option-cases (get (make_consumer_key c i env) s.consumers)) [
        | inl missing ↦ rw (missing, deregister_consumer) valid
        | inr (r, found) ↦
            rw (found, deregister_consumer)
              (record {
                sorted = valid.sorted;
                consumer_keys =
                    delete-Kept (λ key q. key ≡ key_of q) (make_consumer_key c i env) s.consumers
                      valid.consumer_keys;
              })
      ]

  Step-IsValid : {s t : SchemaCache C} → IsValid s → Step s t → IsValid t
  unfolding set_version set_legacy delete_schema clear_all register_consumer Kept
  Step-IsValid {s} valid (store i entry) = set-IsValid i entry s valid
  Step-IsValid {s} valid (store_version i v entry) =
      set_versions s _ _ valid (track_version-SortedVersions i v s.schema_versions valid.sorted)
  Step-IsValid {s} valid (store_legacy i schema) = set-IsValid i _ s valid
  Step-IsValid {s} valid (drop i) =
      set_versions s _ _ valid (delete-SortedVersions i s.schema_versions valid.sorted)
  Step-IsValid {s} valid drop_all = set_versions s _ [] valid no_versions
  Step-IsValid {s} valid (evict cache) = set_versions s cache s.schema_versions valid valid.sorted
  Step-IsValid {s} valid (register entry) = record {
    sorted = valid.sorted;
    consumer_keys =
        put-Kept (λ key q. key ≡ key_of q) (key_of entry) _ s.consumers
          (renewed_key entry (get (key_of entry) s.consumers)) valid.consumer_keys;
  }
  Step-IsValid {s} valid (deregister c i env) = deregister_consumer-IsValid c i env s valid

  -- In every state that is reached from an empty cache, whatever ristretto evicts, each list of
  -- versions is sorted without repetition and each consumer is kept under its own key.
  pub cache-IsValid : (s : SchemaCache C) → Reachable s → IsValid s
  unfolding get
  cache-IsValid s start = record { sorted = no_versions; consumer_keys = λ k c e. cc }
  cache-IsValid s (next {t} before step) = Step-IsValid (cache-IsValid t before) step
