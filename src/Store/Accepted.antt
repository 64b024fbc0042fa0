-- ===== src/Store/Accepted.antt =====
-- server/storage/memory.go: the runs that a filter accepts, apart from how the loops test them.
use cvt.Base.{
  ℕ, zero, suc, ◌≤◌, ◌<◌, Bool, true, false, not, Option, none, some, ◌≡◌, refl, ap, ◌↔◌, ◌⊎◌, inl,
  inr, arith, eq_iff, and_iff, or_iff, eqb, ltb, some_inj,
}
use cvt.Store.{ValidationRecord}
use cvt.Store.Validations.{
  ℤ, pos, negsuc, ListValidationsFilter, same_bool, in_range, listed_validation, counted,
  page_size_of,
}

-- The time is in the range, of which an end that is 0 is open.
abbrev pub InTime : ListValidationsFilter → ℕ → Type 0
InTime filter t =
    ((filter.start_time ≡ 0) ⊎ (filter.start_time ≤ t))
    × ((filter.end_time ≡ 0) ⊎ (t ≤ filter.end_time))

-- The run is of the schema, where the filter names one, and in its time.
abbrev pub Counts : ListValidationsFilter → ValidationRecord → Type 0
Counts filter r =
    ((filter.schema_id ≡ "") ⊎ (r.schema_id ≡ filter.schema_id)) × InTime filter r.validated_at

-- The run has the schema, the method, the environment and the result that the filter names, and is
-- in its time.
abbrev pub Accepts : ListValidationsFilter → ValidationRecord → Type 0
Accepts filter r =
    ((filter.schema_id ≡ "") ⊎ (r.schema_id ≡ filter.schema_id))
    × (((filter.method ≡ "") ⊎ (r.request_method ≡ filter.method))
        × (((filter.environment ≡ "") ⊎ (r.environment ≡ filter.environment))
            × (((filter.valid ≡ none) ⊎ (filter.valid ≡ some r.valid))
                × InTime filter r.validated_at)))

eqb_iff : (a b : ℕ) → (eqb a b ≡ true) ↔ (a ≡ b)
eqb_iff a b = (λ e. ground arith, λ e. ground arith)

not-ltb_iff : (a b : ℕ) → (not (ltb a b) ≡ true) ↔ (b ≤ a)
not-ltb_iff a b = (λ e. ground arith, λ e. ground arith)

in_range_iff :
    (filter : ListValidationsFilter) (t : ℕ) → (in_range filter t ≡ true) ↔ InTime filter t
in_range_iff filter t =
    and_iff (or_iff (eqb_iff filter.start_time 0) (not-ltb_iff t filter.start_time))
      (or_iff (eqb_iff filter.end_time 0) (not-ltb_iff filter.end_time t))

same_bool_iff : (a b : Bool) → (same_bool a b ≡ true) ↔ (some b ≡ some a)
same_bool_iff true b = (λ e. ap some e, λ e. some_inj e)
same_bool_iff false true = (λ e. cc, λ e. cc)
same_bool_iff false false = (λ e. refl, λ e. refl)

valid_iff :
    (o : Option Bool) (b : Bool)
    → ((elim o [ none ↦ true | some valid ↦ same_bool b valid ]) ≡ true)
      ↔ ((o ≡ none) ⊎ (o ≡ some b))
valid_iff none b = (λ e. inl refl, λ h. refl)
valid_iff (some valid) b = (
  λ e. inr ((same_bool_iff b valid).0 e),
  λ h. elim h [ inl e ↦ cc | inr e ↦ (same_bool_iff b valid).1 e ],
)

pub counted_iff :
    (filter : ListValidationsFilter) (r : ValidationRecord)
    → (counted filter r ≡ true) ↔ Counts filter r
counted_iff filter r =
    and_iff (or_iff (eq_iff filter.schema_id "") (eq_iff r.schema_id filter.schema_id))
      (in_range_iff filter r.validated_at)

pub listed_validation_iff :
    (filter : ListValidationsFilter) (r : ValidationRecord)
    → (listed_validation filter r ≡ true) ↔ Accepts filter r
listed_validation_iff filter r =
    and_iff (or_iff (eq_iff filter.schema_id "") (eq_iff r.schema_id filter.schema_id)) (
      and_iff (or_iff (eq_iff filter.method "") (eq_iff r.request_method filter.method)) (
        and_iff (or_iff (eq_iff filter.environment "") (eq_iff r.environment filter.environment))
          (and_iff (valid_iff filter.valid r.valid) (in_range_iff filter r.validated_at))))

-- A page has as many runs as the filter says, or 100.
pub data PageSize : ℤ → ℕ → Type 0 where
  given : (n : ℕ) → 0 < n → PageSize (pos n) n
  of_zero : PageSize (pos 0) 100
  of_negative : (n : ℕ) → PageSize (negsuc n) 100

pub page_size_of-PageSize : (z : ℤ) → PageSize z (page_size_of z)
page_size_of-PageSize (pos zero) = of_zero
page_size_of-PageSize (pos (suc n)) = given (suc n) (omega arith)
page_size_of-PageSize (negsuc n) = of_negative n
