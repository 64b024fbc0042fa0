-- ===== src/Store/Previous.antt =====
-- What `GetPreviousVersion` finds: of the versions that were registered strictly before the current
-- one, one that was registered last.
use cvt.Base.{
  ℕ, ◌≤◌, ◌<◌, String, [], ◌∷◌, true, false, not, ◌&&◌, ◌||◌, some, ◌≡◌, ◌≢◌, refl, sym, ap, subst,
  ◌∙◌, ◌⊎◌, inl, inr, Memᴰ, arith, Bool-cases, eq_iff, if◌then◌else◌, ltb,
}
use mathlib.Core.List.Memᴰ.{head, tail}
use text.Mathlib.Text.{◌==◌}
use cvt.Base.Dict.{Dict, get}
use cvt.Store.{
  SchemaRecord, MemoryStore, Result, ok, not_found, latest_before, get_previous_version,
}

-- A version registered strictly before the current one.
pub record IsEarlier (current_version : String) (limit : ℕ) (v : String) (r : SchemaRecord)
    : Type 0 where
  pub other : v ≢ current_version
  pub before : r.registered_at < limit

-- No version of the map is empty.
abbrev pub Named : Dict SchemaRecord → Type 0
Named m = (v : String) (r : SchemaRecord) → Memᴰ (v, r) m → v ≢ ""

-- What is known when the loop has the versions `m` to go: the answer is either the one so far, or
-- an earlier version of `m` that was registered later; and no earlier version of `m` beats it.
pub record Answers (current_version : String) (limit : ℕ) (p : String) (t : ℕ)
    (m : Dict SchemaRecord) (answer : String) : Type 0 where
  pub time : ℕ
  pub not_older : p ≢ "" → t ≤ time
  pub source :
      ((answer ≡ p) × (time ≡ t))
      ⊎ ((r : SchemaRecord) × Memᴰ (answer, r) m
          × IsEarlier current_version limit answer r
          × (time ≡ r.registered_at))
  pub newest :
      (v : String) (r : SchemaRecord)
      → Memᴰ (v, r) m
      → IsEarlier current_version limit v r
      → (answer ≢ "") × (r.registered_at ≤ time)

-- The two tests of the loop.
earlier_test : (v c : String) (a l : ℕ) → (not (v == c) && ltb a l) ≡ true → (v ≢ c) × (a < l)
earlier_test v c a l e = (λ f. ground (arith, (eq_iff v c).1 f), ground arith)

earlier_test_iff : (v c : String) (a l : ℕ) → (not (v == c) && ltb a l) ≡ false → v ≢ c → ¬ (a < l)
earlier_test_iff v c a l e apart below = apart ((eq_iff v c).0 (ground arith))

not_better : (p : String) (t a : ℕ) → (p == "" || ltb t a) ≡ false → (p ≢ "") × (a ≤ t)
not_better p t a e = (λ f. ground (arith, (eq_iff p "").1 f), ground arith)

newer_if_named : (p : String) (t a : ℕ) → (p == "" || ltb t a) ≡ true → p ≢ "" → t < a
newer_if_named p t a e named = elim (Bool-cases (p == "")) [
  | inl bare ↦ absurd (named ((eq_iff p "").0 bare))
  | inr other ↦ ground arith
]

module _ (c : String) (l : ℕ) (v : String) (r : SchemaRecord) (m : Dict SchemaRecord) where
  -- A version that is passed over.
  passed_over :
      (p : String) (t : ℕ) (a : String) (answers : Answers c l p t m a)
      → (IsEarlier c l v r → (a ≢ "") × (r.registered_at ≤ answers.time))
      → Answers c l p t ((v, r) ∷ m) a
  passed_over p t a answers beaten = record {
    time = answers.time;
    not_older = answers.not_older;
    source = elim answers.source [
      | inl kept ↦ inl kept
      | inr (q, here, is_earlier, at) ↦ inr (q, tail here, is_earlier, at)
    ];
    newest = λ w q here is_earlier. elim here [
      | head e ↦
          let same : r ≡ q = ap (λ x. x.1) (sym e) in
          let (named, bound) = beaten (record {
            other = λ f. is_earlier.other (ap (λ x. x.0) e ∙ f);
            before = subst (λ x. x.registered_at < l) (sym same) is_earlier.before;
          }) in
          (named, subst (λ x. x.registered_at ≤ answers.time) same bound)
      | tail below ↦ answers.newest w q below is_earlier
    ];
  }

  answer-Named : (p : String) (t : ℕ) (a : String) → Named m → p ≢ "" → Answers c l p t m a → a ≢ ""
  answer-Named p t a named is_named answers = elim answers.source [
    | inl kept ↦ λ f. is_named (sym kept.0 ∙ f)
    | inr (q, here, is_earlier, at) ↦ named a q here
  ]

  -- A version that becomes the answer so far.
  taken :
      (p : String) (t : ℕ) (a : String)
      → Named ((v, r) ∷ m)
      → IsEarlier c l v r
      → (p ≢ "" → t < r.registered_at)
      → Answers c l v r.registered_at m a
      → Answers c l p t ((v, r) ∷ m) a
  taken p t a named is_earlier newer answers =
      let v_named : v ≢ "" = named v r (head refl) in
      let a_named : a ≢ "" =
        answer-Named v r.registered_at a (λ w q here. named w q (tail here)) v_named answers in
      let bound : r.registered_at ≤ answers.time = answers.not_older v_named in
      record {
        time = answers.time;
        not_older = λ e. omega (arith, newer e, bound);
        source = elim answers.source [
          | inl (same, at) ↦ inr (
            r,
            head (ap {B = String × SchemaRecord} (λ x. (x, r)) same),
            subst (λ x. IsEarlier c l x r) (sym same) is_earlier,
            at,
          )
          | inr (q, here, e, at) ↦ inr (q, tail here, e, at)
        ];
        newest = λ w q here e. elim here [
          | head f ↦
              (a_named, subst (λ x. x.registered_at ≤ answers.time) (ap (λ x. x.1) (sym f)) bound)
          | tail below ↦ answers.newest w q below e
        ];
      }

latest_before-Answers :
    (current_version : String) (limit : ℕ) (p : String) (t : ℕ) (m : Dict SchemaRecord)
    → Named m
    → Answers current_version limit p t m (latest_before current_version limit p t m)
unfolding latest_before
latest_before-Answers c l p t [] named = record {
  time = t;
  not_older = λ e. omega arith;
  source = inl (refl, refl);
  newest = λ v r here e. elim here [ ];
}
latest_before-Answers c l p t ((v, r) ∷ m) named =
    let below : Named m = λ w q here. named w q (tail here) in
    let rest = latest_before-Answers c l p t m below in
    elim (Bool-cases (not (v == c) && ltb r.registered_at l)) [
      | inr skip ↦
          rw (skip, latest_before)
            (passed_over c l v r m p t _ rest
              (λ e. absurd (earlier_test_iff v c r.registered_at l skip e.other e.before)))
      | inl earlier ↦ elim (Bool-cases (p == "" || ltb t r.registered_at)) [
        | inr worse ↦
            rw (earlier, worse, latest_before)
              (let (is_named, older) = not_better p t r.registered_at worse in
                passed_over c l v r m p t _ rest (λ e. (
                  answer-Named c l v r m p t _ below is_named rest,
                  omega (arith, older, rest.not_older is_named),
                )))
        | inl better ↦
            rw (earlier, better, latest_before)
              (let (other, before) = earlier_test v c r.registered_at l earlier in
                taken c l v r m p t _ named (record { other = other; before = before })
                  (newer_if_named p t r.registered_at better)
                  (latest_before-Answers c l v r.registered_at m below))
      ]
    ]

-- What `GetPreviousVersion` may answer of a schema whose versions are `m`.
pub data PreviousVersion (schema_id c : String) (limit : ℕ) (m : Dict SchemaRecord)
    : Result String → Type 0 where
  newest_earlier :
      (v : String) (r : SchemaRecord)
      → Memᴰ (v, r) m
      → IsEarlier c limit v r
      → ((w : String) (q : SchemaRecord)
          → Memᴰ (w, q) m
          → IsEarlier c limit w q
          → q.registered_at ≤ r.registered_at)
      → PreviousVersion schema_id c limit m (ok v)
  none_earlier :
      ((w : String) (q : SchemaRecord) → Memᴰ (w, q) m → ¬ IsEarlier c limit w q)
      → PreviousVersion schema_id c limit m (not_found "previous version" schema_id)

-- For a version that is stored, in a schema no version of which is the empty text: the answer is a
-- version registered strictly before it, none of which was registered later; or the answer is
-- "not found", and there is no such version.
pub get_previous_version-PreviousVersion :
    (schema_id c : String) (s : MemoryStore) (m : Dict SchemaRecord) (current : SchemaRecord)
    → get schema_id s.schemas ≡ some m
    → get c m ≡ some current
    → Named m
    → PreviousVersion schema_id c current.registered_at m (get_previous_version schema_id c s)
unfolding get_previous_version
get_previous_version-PreviousVersion schema_id c s m current has_m has_c named =
    rw (has_m, has_c, get_previous_version)
      (by_answer (latest_before c current.registered_at "" 0 m)
        (latest_before-Answers c current.registered_at "" 0 m named))
  where
    by_answer :
        (a : String)
        → Answers c current.registered_at "" 0 m a
        → PreviousVersion schema_id c current.registered_at m
            (if a == "" then not_found "previous version" schema_id else ok a)
    by_answer a answers = elim (Bool-cases (a == "")) [
      | inl bare ↦
          rw bare
            (none_earlier (λ w q here e. (answers.newest w q here e).0 ((eq_iff a "").0 bare)))
      | inr found ↦ elim answers.source [
        | inl (same, at) ↦ absurd (ground (arith, (eq_iff a "").1 same))
        | inr (r, here, e, at) ↦ rw found (
            newest_earlier a r here e
              λ w q there f. omega (arith, at, (answers.newest w q there f).1))
      ]
    ]
