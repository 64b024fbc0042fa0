-- ===== src/Store/SetSchema.antt =====
-- server/storage/memory.go: what `GetSchema` and `GetSchemaVersion` read after `SetSchema`.
use cvt.Base.{
  String, [], ◌∷◌, true, false, Option, none, some, ◌≡◌, refl, sym, ap, subst, ◌∙◌, inl, inr, Memᴰ,
  Bool-cases, some_inj, eq_iff, if◌then◌else◌, if-true,
}
use mathlib.Core.List.Memᴰ.{head, tail}
use text.Mathlib.Text.{◌==◌}
use cvt.Base.Dict.{Dict, get, put, get-put, get-put_self, mem_of_get, get_of_mem}
use cvt.Store.{
  SchemaRecord, MemoryStore, Result, ok, not_found, versions_of, clear_latest, stored, set_schema,
  find_latest, get_schema, get_schema_version, at_version,
}
use cvt.Store.Latest.{
  ValidVersions, ValidSchemas, cleared, get-clear_latest, put-ValidVersions,
  versions_of-ValidVersions,
}

-- The loop of `GetSchema` finds a marked record where there is one, and only such.
find_latest-some :
    (v : String) (m : Dict SchemaRecord) (r : SchemaRecord)
    → Memᴰ (v, r) m
    → r.is_latest ≡ true
    → (q : SchemaRecord) × (find_latest m ≡ some q)
unfolding find_latest
find_latest-some v [] r here is_r = elim here [ ]
find_latest-some v ((w, q) ∷ m) r (head e) is_r =
    (q, rw (← ap (λ x. x.1) e, is_r, find_latest) refl)
find_latest-some v ((w, q) ∷ m) r (tail below) is_r = elim (Bool-cases q.is_latest) [
  | inl marked ↦ (q, rw marked refl)
  | inr plain ↦ let (p, found) = find_latest-some v m r below is_r in (p, rw plain found)
]

pub find_latest-mem :
    (m : Dict SchemaRecord) (q : SchemaRecord)
    → find_latest m ≡ some q
    → (w : String) × Memᴰ (w, q) m × (q.is_latest ≡ true)
unfolding find_latest
find_latest-mem [] q e = cc
find_latest-mem ((w, r) ∷ m) q e = elim (Bool-cases r.is_latest) [
  | inl marked ↦
      let same : r ≡ q = some_inj (sym (if-true (some r) (find_latest m) marked) ∙ e) in
      (
        w,
        head (ap {B = String × SchemaRecord} (λ x. (w, x)) (sym same)),
        ap (λ x. x.is_latest) (sym same) ∙ marked,
      )
  | inr plain ↦ let (v, below, is_q) = find_latest-mem m q (rw plain at e) in (v, tail below, is_q)
]

-- A marked record of valid versions is the one that is found.
pub find_latest-get :
    (schema_id v : String) (m : Dict SchemaRecord) (r : SchemaRecord)
    → ValidVersions schema_id m
    → get v m ≡ some r
    → r.is_latest ≡ true
    → find_latest m ≡ some r
find_latest-get schema_id v m r valid e is_r =
    let (q, found) = find_latest-some v m r (mem_of_get v m e) is_r in
    let (w, here, is_q) = find_latest-mem m q found in
    let at_w = get_of_mem w m valid.once here in
    let same : v ≡ w = valid.one_latest v w r q e at_w is_r is_q in
    found ∙ sym at_w ∙ subst (λ x. get x m ≡ some r) same e

-- In a valid store, `GetSchema` after `SetSchema` returns the record that was stored, marked as the
-- latest and with an identifier.
pub get_schema-set_schema :
    (uuid : String) (r : SchemaRecord) (s : MemoryStore)
    → ValidSchemas s.schemas
    → get_schema r.schema_id (set_schema uuid r s) ≡ ok (stored uuid r)
unfolding get_schema set_schema
get_schema-set_schema uuid r s valid =
    let m = put r.version (stored uuid r) (clear_latest (versions_of r.schema_id s.schemas)) in
    let marked =
      find_latest-get r.schema_id r.version m (stored uuid r)
        (put-ValidVersions uuid r _ (versions_of-ValidVersions r.schema_id s.schemas valid))
        (get-put_self r.version (stored uuid r) (clear_latest (versions_of r.schema_id s.schemas)))
        refl in
    ap (latest_of r.schema_id) (get-put_self r.schema_id m s.schemas)
    ∙ ap (as_result r.schema_id) marked
  where
    as_result : String → Option SchemaRecord → Result SchemaRecord
    as_result schema_id o = elim o [ none ↦ not_found "schema" schema_id | some q ↦ ok q ]

    latest_of : String → Option (Dict SchemaRecord) → Result SchemaRecord
    latest_of schema_id o = elim o [
      | none ↦ not_found "schema" schema_id
      | some versions ↦ as_result schema_id (find_latest versions)
    ]

-- After `SetSchema`, each version reads as before up to the mark of the latest, which the stored
-- version alone has: the stored version reads as stored, the other versions of the schema are
-- unmarked, and the versions of other schemas are untouched.
pub get_schema_version-set_schema :
    (uuid : String) (r : SchemaRecord) (s : MemoryStore) (schema_id version : String)
    → get_schema_version schema_id version (set_schema uuid r s) ≡ (
        if r.schema_id == schema_id
        then (if r.version == version
            then ok (stored uuid r)
            else (elim (get version (versions_of schema_id s.schemas)) [
              | none ↦ not_found "schema version" (at_version schema_id version)
              | some q ↦ ok (record q { is_latest = false })
            ]))
        else get_schema_version schema_id version s)
unfolding get_schema_version set_schema cleared
get_schema_version-set_schema uuid r s schema_id version =
    ap version_of (get-put r.schema_id schema_id m s.schemas)
    ∙ elim (Bool-cases (r.schema_id == schema_id)) [
      | inr apart ↦ rw apart refl
      | inl same ↦ rw same (
          ap result_of (
            get-put r.version version (stored uuid r)
              (clear_latest (versions_of r.schema_id s.schemas)))
          ∙ elim (Bool-cases (r.version == version)) [
            | inl stored_one ↦ rw stored_one refl
            | inr other ↦
                rw (other, ← (eq_iff r.schema_id schema_id).0 same)
                  (elim (get-clear_latest version (versions_of r.schema_id s.schemas)) [
                    | inl (missing, gone) ↦ ap result_of gone ∙ sym (ap unmarked_of missing)
                    | inr (q, found, unmarked) ↦ ap result_of unmarked ∙ sym (ap unmarked_of found)
                  ])
          ])
    ]
  where
    m : Dict SchemaRecord
    m = put r.version (stored uuid r) (clear_latest (versions_of r.schema_id s.schemas))

    result_of : Option SchemaRecord → Result SchemaRecord
    result_of o = elim o [
      | none ↦ not_found "schema version" (at_version schema_id version)
      | some q ↦ ok q
    ]

    unmarked_of : Option SchemaRecord → Result SchemaRecord
    unmarked_of o = elim o [
      | none ↦ not_found "schema version" (at_version schema_id version)
      | some q ↦ ok (record q { is_latest = false })
    ]

    version_of : Option (Dict SchemaRecord) → Result SchemaRecord
    version_of o = elim o [
      | none ↦ not_found "schema" schema_id
      | some versions ↦ result_of (get version versions)
    ]
