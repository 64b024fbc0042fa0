-- ===== src/Store/Analytics.antt =====
-- server/storage/memory.go: what the statistics of the validation runs say.
use cvt.Base.{
  ℕ, suc, ◌+◌, String, List, [], ◌∷◌, true, ◌≡◌, refl, ◌⊎◌, inl, inr, Memᴰ, arith, Bool-cases,
  length, keep, mem-keep, keep-mem, Sublist, keep-Sublist, Bool, false, not, ap, ◌∙◌, ◌↔◌, eq_iff,
  if◌then◌else◌, none, some,
}
use text.Mathlib.Text.{◌==◌}
use cvt.Base.Dict.{Dict, get, put, get-put}
use cvt.Store.Accepted.{Counts, counted_iff}
use cvt.Store.{ValidationRecord, MemoryStore}
use cvt.Store.Validations.{
  ListValidationsFilter, ValidationAnalytics, no_analytics, increment, count_of, counted,
  count_validation, count_validations, get_validation_analytics,
}

-- The sum of all counters of a map.
abbrev pub total_of : Dict ℕ → ℕ
total_of [] = 0
total_of ((k, n) ∷ m) = n + total_of m

total_of-put :
    (k : String) (n : ℕ) (m : Dict ℕ) → total_of (put k n m) + count_of k m ≡ total_of m + n
unfolding put get
total_of-put k n [] = omega arith
total_of-put k n ((j, i) ∷ m) = ground (arith, total_of-put k n m)

total_of-increment : (k : String) (m : Dict ℕ) → total_of (increment k m) ≡ suc (total_of m)
unfolding increment
total_of-increment k m = omega (arith, total_of-put k (suc (count_of k m)) m)

-- The four counts of the same runs.
pub record Balanced (a : ValidationAnalytics) : Type 0 where
  pub by_result : a.total_validations ≡ a.pass_count + a.fail_count
  pub by_methods : total_of a.by_method ≡ a.total_validations
  pub by_schemas : total_of a.by_schema ≡ a.total_validations

count_validation-Balanced :
    (r : ValidationRecord) (a : ValidationAnalytics) → Balanced a → Balanced (count_validation r a)
unfolding count_validation
count_validation-Balanced r a b = record {
  by_result = ground (arith, b.by_result);
  by_methods = omega (arith, total_of-increment r.request_method a.by_method, b.by_methods);
  by_schemas = omega (arith, total_of-increment r.schema_id a.by_schema, b.by_schemas);
}

count_validations-Balanced :
    (filter : ListValidationsFilter) (rs : List ValidationRecord) (a : ValidationAnalytics)
    → Balanced a
    → Balanced (count_validations filter rs a)
unfolding count_validations
count_validations-Balanced filter [] a b = b
count_validations-Balanced filter (r ∷ rs) a b = elim (Bool-cases (counted filter r)) [
  | inl counts ↦
      rw (counts, count_validations)
        (count_validations-Balanced filter rs (count_validation r a)
          (count_validation-Balanced r a b))
  | inr skip ↦ rw (skip, count_validations) (count_validations-Balanced filter rs a b)
]

-- A number of the statistics that each run either adds one to or leaves adds up to the runs that add
-- to it.
module _ (value : ValidationAnalytics → ℕ) (adds : ValidationRecord → Bool)
    (step : (r : ValidationRecord) (a : ValidationAnalytics)
      → value (count_validation r a) ≡ (if adds r then suc (value a) else value a)) where
  step-adds :
      (b : Bool) (rs : List ValidationRecord) (r : ValidationRecord) (n : ℕ)
      → (if b then suc n else n) + length (keep adds rs)
        ≡ n + length (if b then r ∷ keep adds rs else keep adds rs)
  step-adds true rs r n = omega arith
  step-adds false rs r n = refl

  count_validations-adds :
      (filter : ListValidationsFilter) (rs : List ValidationRecord) (a : ValidationAnalytics)
      → value (count_validations filter rs a)
        ≡ value a + length (keep adds (keep (counted filter) rs))
  unfolding count_validations
  count_validations-adds filter [] a = omega arith
  count_validations-adds filter (r ∷ rs) a = elim (Bool-cases (counted filter r)) [
    | inl counts ↦
        rw (counts, count_validations)
          (count_validations-adds filter rs (count_validation r a)
            ∙ ap (λ n. n + length (keep adds (keep (counted filter) rs))) (step r a)
            ∙ step-adds (adds r) (keep (counted filter) rs) r (value a))
    | inr skip ↦ rw (skip, count_validations) (count_validations-adds filter rs a)
  ]

  count_all-adds :
      (filter : ListValidationsFilter) (rs : List ValidationRecord)
      → value no_analytics ≡ 0
      → value (count_validations filter rs no_analytics)
        ≡ length (keep adds (keep (counted filter) rs))
  count_all-adds filter rs none_yet =
      omega (arith, count_validations-adds filter rs no_analytics, none_yet)

if-not : (b : Bool) (x y : ℕ) → (if b then y else x) ≡ (if not b then x else y)
if-not true x y = refl
if-not false x y = refl

count_of-increment :
    (j k : String) (m : Dict ℕ)
    → count_of j (increment k m) ≡ (if k == j then suc (count_of j m) else count_of j m)
unfolding increment
count_of-increment j k m =
    ap (λ o. elim o [ none ↦ 0 | some n ↦ n ]) (get-put k j (suc (count_of k m)) m)
    ∙ by_key (Bool-cases (k == j))
  where
    by_key :
        ((k == j) ≡ true) ⊎ ((k == j) ≡ false)
        → (elim (if k == j then some (suc (count_of k m)) else get j m) as (λ o. ℕ) [
          | none ↦ 0
          | some n ↦ n
        ])
          ≡ (if k == j then suc (count_of j m) else count_of j m)
    by_key (inl same) = rw (same, (eq_iff k j).0 same) refl
    by_key (inr apart) = rw apart refl

count_validations-total :
    (filter : ListValidationsFilter) (rs : List ValidationRecord) (a : ValidationAnalytics)
    → (count_validations filter rs a).total_validations
      ≡ a.total_validations + length (keep (counted filter) rs)
unfolding count_validations count_validation
count_validations-total filter [] a = omega arith
count_validations-total filter (r ∷ rs) a = elim (Bool-cases (counted filter r)) [
  | inl counts ↦
      rw (counts, count_validations)
        (omega (arith, count_validations-total filter rs (count_validation r a)))
  | inr skip ↦ rw (skip, count_validations) (count_validations-total filter rs a)
]

-- What the statistics say of the runs that a filter counts: how many they are, how many passed and
-- failed, and how many there are of each method and each schema.
pub record Statistics (filter : ListValidationsFilter) (rs : List ValidationRecord)
    (a : ValidationAnalytics) : Type 0 where
  pub runs : List ValidationRecord
  pub in_order : Sublist runs rs
  pub are_counted : (r : ValidationRecord) → Memᴰ r runs ↔ (Memᴰ r rs × Counts filter r)
  pub total : a.total_validations ≡ length runs
  pub passed : a.pass_count ≡ length (keep (λ r. r.valid) runs)
  pub failed : a.fail_count ≡ length (keep (λ r. not r.valid) runs)
  pub of_method :
      (method : String)
      → count_of method a.by_method ≡ length (keep (λ r. r.request_method == method) runs)
  pub of_schema :
      (schema_id : String)
      → count_of schema_id a.by_schema ≡ length (keep (λ r. r.schema_id == schema_id) runs)
  pub balanced : Balanced a

-- The statistics count the runs of the filter's schema in its time range: all of them, those that
-- passed and those that failed, and those of each method and of each schema. The numbers that
-- passed and failed add up to the total, and so do the numbers of all methods and of all schemas.
pub get_validation_analytics-Statistics :
    (filter : ListValidationsFilter) (s : MemoryStore)
    → Statistics filter s.validations (get_validation_analytics filter s)
unfolding get_validation_analytics count_validation get
get_validation_analytics-Statistics filter s = record {
  runs = keep (counted filter) s.validations;
  in_order = keep-Sublist (counted filter) s.validations;
  are_counted = λ r. (
    λ m.
        let (here, counts) = mem-keep (counted filter) s.validations m in
        (here, (counted_iff filter r).0 counts),
    λ (here, counts). keep-mem (counted filter) here ((counted_iff filter r).1 counts),
  );
  total = omega (arith, count_validations-total filter s.validations no_analytics);
  passed =
      count_all-adds (λ a. a.pass_count) (λ r. r.valid) (λ r a. refl) filter s.validations refl;
  failed =
      count_all-adds (λ a. a.fail_count) (λ r. not r.valid)
        (λ r a. if-not r.valid (suc a.fail_count) a.fail_count) filter s.validations refl;
  of_method = λ method.
      count_all-adds (λ a. count_of method a.by_method) (λ r. r.request_method == method)
        (λ r a. count_of-increment method r.request_method a.by_method) filter s.validations refl;
  of_schema = λ schema_id.
      count_all-adds (λ a. count_of schema_id a.by_schema) (λ r. r.schema_id == schema_id)
        (λ r a. count_of-increment schema_id r.schema_id a.by_schema) filter s.validations refl;
  balanced =
      count_validations-Balanced filter s.validations no_analytics
        (record { by_result = refl; by_methods = refl; by_schemas = refl });
}
