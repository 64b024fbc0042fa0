-- ===== src/Store/Latest.antt =====
-- The latest version of a schema: at most one record of a schema is marked, and `SetSchema` marks
-- the record that it stores.
use cvt.Base.{
  String, [], ◌∷◌, true, false, none, some, ◌≡◌, refl, sym, ap, ◌∙◌, ◌⊎◌, inl, inr, Bool-cases,
  Option-cases, some_inj, eq_iff,
}
use text.Mathlib.Text.{◌==◌}
use cvt.Base.Dict.{Dict, Distinct, Fresh, get, put, get-put, Distinct-put}
use cvt.Store.{SchemaRecord, MemoryStore, versions_of, clear_latest, stored, set_schema}

-- The versions of one schema: each key is its record's version, and at most one is the latest.
pub record ValidVersions (schema_id : String) (m : Dict SchemaRecord) : Type 0 where
  pub once : Distinct m
  pub keyed :
      (v : String) (r : SchemaRecord)
      → get v m ≡ some r
      → (r.version ≡ v) × (r.schema_id ≡ schema_id)
  pub one_latest :
      (v w : String) (r q : SchemaRecord)
      → get v m ≡ some r
      → get w m ≡ some q
      → r.is_latest ≡ true
      → q.is_latest ≡ true
      → v ≡ w

-- The schemas of a store.
pub record ValidSchemas (schemas : Dict (Dict SchemaRecord)) : Type 0 where
  pub each :
      (schema_id : String) (m : Dict SchemaRecord)
      → get schema_id schemas ≡ some m
      → ValidVersions schema_id m

pub no_versions : (schema_id : String) → ValidVersions schema_id []
unfolding get
no_versions schema_id = record { once = tt; keyed = λ v r e. cc; one_latest = λ v w r q e f. cc }

unfoldable pub cleared : SchemaRecord → SchemaRecord
cleared r = record r { is_latest = false }

pub get-clear_latest :
    (v : String) (m : Dict SchemaRecord)
    → (get v m ≡ none) × (get v (clear_latest m) ≡ none)
      ⊎ ((r : SchemaRecord) × (get v m ≡ some r) × (get v (clear_latest m) ≡ some (cleared r)))
unfolding get clear_latest cleared
get-clear_latest v [] = inl (refl, refl)
get-clear_latest v ((w, r) ∷ m) = elim (Bool-cases (w == v)) [
  | inl same ↦ rw same (inr (r, refl, refl))
  | inr apart ↦ rw apart (get-clear_latest v m)
]

Fresh-clear_latest : (k : String) (m : Dict SchemaRecord) → Fresh k m → Fresh k (clear_latest m)
unfolding clear_latest
Fresh-clear_latest k [] f = tt
Fresh-clear_latest k ((v, r) ∷ m) f = (f.0, Fresh-clear_latest k m f.1)

Distinct-clear_latest : (m : Dict SchemaRecord) → Distinct m → Distinct (clear_latest m)
unfolding clear_latest
Distinct-clear_latest [] d = tt
Distinct-clear_latest ((v, r) ∷ m) d = (Fresh-clear_latest v m d.0, Distinct-clear_latest m d.1)

not_latest :
    (v : String) (m : Dict SchemaRecord) (r : SchemaRecord)
    → get v (clear_latest m) ≡ some r
    → (q : SchemaRecord) × (get v m ≡ some q) × (r ≡ cleared q)
not_latest v m r e = elim (get-clear_latest v m) [
  | inl (missing, gone) ↦ cc
  | inr (q, found, clear) ↦ (q, found, some_inj (sym e ∙ clear))
]

-- What is found after the loop and the assignment of `SetSchema`.
put-cleared :
    (w v : String) (m : Dict SchemaRecord) (r q : SchemaRecord)
    → get w (put v r (clear_latest m)) ≡ some q
    → ((v ≡ w) × (q ≡ r))
      ⊎ ((q.is_latest ≡ false) × ((p : SchemaRecord) × (get w m ≡ some p) × (q ≡ cleared p)))
unfolding cleared
put-cleared w v m r q e = elim (Bool-cases (v == w)) [
  | inl same ↦
      inl ((eq_iff v w).0 same, some_inj (sym e ∙ get-put v w r (clear_latest m) ∙ rw same refl))
  | inr apart ↦
      let before : get w (clear_latest m) ≡ some q =
        sym (get-put v w r (clear_latest m) ∙ rw apart refl) ∙ e in
      let (p, found, same) = not_latest w m q before in
      inr (ap (λ x. x.is_latest) same, (p, found, same))
]

pub put-ValidVersions :
    (uuid : String) (r : SchemaRecord) (m : Dict SchemaRecord)
    → ValidVersions r.schema_id m
    → ValidVersions r.schema_id (put r.version (stored uuid r) (clear_latest m))
unfolding cleared
put-ValidVersions uuid r m valid = record {
  once =
      Distinct-put r.version (stored uuid r) (clear_latest m) (Distinct-clear_latest m valid.once);
  keyed = λ v q e. elim (put-cleared v r.version m (stored uuid r) q e) [
    | inl (same, own) ↦ (ap (λ x. x.version) own ∙ same, ap (λ x. x.schema_id) own)
    | inr (old, (p, found, own)) ↦
        let (a, b) = valid.keyed v p found in
        (ap (λ x. x.version) own ∙ a, ap (λ x. x.schema_id) own ∙ b)
  ];
  one_latest = λ v w q p e f is_q is_p. elim (put-cleared v r.version m (stored uuid r) q e) [
    | inr (old, from) ↦ cc
    | inl (same, own) ↦ elim (put-cleared w r.version m (stored uuid r) p f) [
      | inr (old, from) ↦ cc
      | inl (same', own') ↦ sym same ∙ same'
    ]
  ];
}

pub versions_of-ValidVersions :
    (schema_id : String) (schemas : Dict (Dict SchemaRecord))
    → ValidSchemas schemas
    → ValidVersions schema_id (versions_of schema_id schemas)
versions_of-ValidVersions schema_id schemas valid = elim (Option-cases (get schema_id schemas)) [
  | inl missing ↦ rw (missing, versions_of) (no_versions schema_id)
  | inr (m, found) ↦ rw (found, versions_of) (valid.each schema_id m found)
]

-- Storing versions that are valid keeps all schemas valid.
pub put-ValidSchemas :
    (schema_id : String) (m : Dict SchemaRecord) (schemas : Dict (Dict SchemaRecord))
    → ValidVersions schema_id m
    → ValidSchemas schemas
    → ValidSchemas (put schema_id m schemas)
put-ValidSchemas schema_id m schemas new valid = record {
  each = λ i n e. elim (Bool-cases (schema_id == i)) [
    | inl same ↦
        let at_it : n ≡ m = some_inj (sym e ∙ get-put schema_id i m schemas ∙ rw same refl) in
        rw (at_it, ← (eq_iff schema_id i).0 same) new
    | inr apart ↦ valid.each i n (sym (get-put schema_id i m schemas ∙ rw apart refl) ∙ e)
  ];
}

pub set_schema-ValidSchemas :
    (uuid : String) (r : SchemaRecord) (s : MemoryStore)
    → ValidSchemas s.schemas
    → ValidSchemas (set_schema uuid r s).schemas
unfolding set_schema
set_schema-ValidSchemas uuid r s valid =
    put-ValidSchemas r.schema_id _ s.schemas
      (put-ValidVersions uuid r _ (versions_of-ValidVersions r.schema_id s.schemas valid)) valid
