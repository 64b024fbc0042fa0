-- ===== src/Store/Validations.antt =====
-- server/storage/memory.go: the validation runs of the in-memory store, their listing and their
-- statistics. The pass rate, a floating point number, is left out, and so are the request's and
-- response's texts, which no operation reads. The counters of 64 bits are numbers: each is at most
-- the length of a list in memory.
use cvt.Base.{
  ℕ, zero, suc, String, List, [], ◌∷◌, ◌++◌, Bool, true, false, not, ◌&&◌, ◌||◌, Option, none, some,
  if◌then◌else◌, keep, ltb, eqb,
}
use text.Mathlib.Text.{◌==◌}
use cvt.Base.Dict.{Dict, get, put}
use cvt.Store.{MemoryStore, ValidationRecord, id_or}

pub data ℤ : Type 0 where
  pos : ℕ → ℤ
  negsuc : ℕ → ℤ

unfoldable pub record_validation : String → ValidationRecord → MemoryStore → MemoryStore
record_validation uuid r s = record s {
  validations = s.validations ++ (record r { id = id_or uuid r.id } ∷ []);
}

pub record ListValidationsFilter : Type 0 where
  pub schema_id : String
  pub method : String
  pub environment : String
  pub valid : Option Bool
  pub start_time : ℕ
  pub end_time : ℕ
  pub page_size : ℤ

abbrev pub same_bool : Bool → Bool → Bool
same_bool true b = b
same_bool false b = not b

-- `t.IsZero() || !before`, for the two ends of the time range.
abbrev pub in_range : ListValidationsFilter → ℕ → Bool
in_range filter t =
    (eqb filter.start_time 0 || not (ltb t filter.start_time))
    && (eqb filter.end_time 0 || not (ltb filter.end_time t))

abbrev pub listed_validation : ListValidationsFilter → ValidationRecord → Bool
listed_validation filter r =
    (filter.schema_id == "" || r.schema_id == filter.schema_id)
    && ((filter.method == "" || r.request_method == filter.method)
        && ((filter.environment == "" || r.environment == filter.environment)
            && ((elim filter.valid [ none ↦ true | some valid ↦ same_bool r.valid valid ])
                && in_range filter r.validated_at)))

-- `result[:n]`, where it is no longer than the list.
abbrev pub take {ℓ} : {A : Type ℓ} → ℕ → List A → List A
take zero xs = []
take (suc n) [] = []
take (suc n) (x ∷ xs) = x ∷ take n xs

abbrev pub page_size_of : ℤ → ℕ
page_size_of (pos zero) = 100
page_size_of (pos (suc n)) = suc n
page_size_of (negsuc n) = 100

-- Taking at most as many as there are is the same with and without the test of the length.
unfoldable pub list_validations : ListValidationsFilter → MemoryStore → List ValidationRecord
list_validations filter s =
    take (page_size_of filter.page_size) (keep (listed_validation filter) s.validations)

pub record ValidationAnalytics : Type 0 where
  pub total_validations : ℕ
  pub pass_count : ℕ
  pub fail_count : ℕ
  pub by_method : Dict ℕ
  pub by_schema : Dict ℕ

abbrev pub no_analytics : ValidationAnalytics
no_analytics = record {
  total_validations = 0;
  pass_count = 0;
  fail_count = 0;
  by_method = [];
  by_schema = [];
}

-- `m[k]++`: a missing key reads as 0.
abbrev pub count_of : String → Dict ℕ → ℕ
count_of k m = elim (get k m) [ none ↦ 0 | some n ↦ n ]

unfoldable pub increment : String → Dict ℕ → Dict ℕ
increment k m = put k (suc (count_of k m)) m

abbrev pub counted : ListValidationsFilter → ValidationRecord → Bool
counted filter r =
    (filter.schema_id == "" || r.schema_id == filter.schema_id) && in_range filter r.validated_at

-- One round of the loop.
unfoldable pub count_validation : ValidationRecord → ValidationAnalytics → ValidationAnalytics
count_validation r a = record {
  total_validations = suc a.total_validations;
  pass_count = if r.valid then suc a.pass_count else a.pass_count;
  fail_count = if r.valid then a.fail_count else suc a.fail_count;
  by_method = increment r.request_method a.by_method;
  by_schema = increment r.schema_id a.by_schema;
}

unfoldable pub count_validations :
    ListValidationsFilter → List ValidationRecord → ValidationAnalytics → ValidationAnalytics
count_validations filter [] a = a
count_validations filter (r ∷ rs) a =
    let counted_in = count_validations filter rs (count_validation r a) in
    let skipped = count_validations filter rs a in if counted filter r then counted_in else skipped

unfoldable pub get_validation_analytics : ListValidationsFilter → MemoryStore → ValidationAnalytics
get_validation_analytics filter s = count_validations filter s.validations no_analytics
