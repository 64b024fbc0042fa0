-- ===== src/Store/Listing.antt =====
-- server/storage/memory.go: a page of the validation runs.
use cvt.Base.{
  ℕ, zero, suc, ◌≤◌, List, [], ◌∷◌, ◌++◌, ◌≡◌, refl, ap, ◌↔◌, ◌⊎◌, inl, inr, Memᴰ, arith, length,
  keep, mem-keep, keep-mem, Sublist, keep-Sublist,
}
use cvt.Store.{ValidationRecord, MemoryStore}
use cvt.Store.Validations.{
  ListValidationsFilter, take, page_size_of, listed_validation, list_validations,
}
use cvt.Store.Accepted.{Accepts, listed_validation_iff, PageSize, page_size_of-PageSize}

-- The rest of a list behind some of its members.
abbrev drop : {A : Type 0} → ℕ → List A → List A
drop zero xs = xs
drop (suc n) [] = []
drop (suc n) (x ∷ xs) = drop n xs

take-drop : {A : Type 0} (n : ℕ) (xs : List A) → take n xs ++ drop n xs ≡ xs
take-drop zero xs = refl
take-drop (suc n) [] = refl
take-drop (suc n) (x ∷ xs) = ap (λ ys. x ∷ ys) (take-drop n xs)

take-length : {A : Type 0} (n : ℕ) (xs : List A) → length (take n xs) ≤ n
take-length zero xs = omega arith
take-length (suc n) [] = omega arith
take-length (suc n) (x ∷ xs) = omega (arith, take-length n xs)

-- What is left out is left out for want of room.
take-full : {A : Type 0} (n : ℕ) (xs : List A) → (drop n xs ≡ []) ⊎ (length (take n xs) ≡ n)
take-full zero xs = inr refl
take-full (suc n) [] = inl refl
take-full (suc n) (x ∷ xs) = elim (take-full n xs) [ inl e ↦ inl e | inr e ↦ inr (ap suc e) ]

-- A page of the runs that a filter accepts, in the order in which they were recorded: the first ones,
-- as many as there is room for.
pub record Page (filter : ListValidationsFilter) (rs page : List ValidationRecord) : Type 0 where
  pub accepted : List ValidationRecord
  pub in_order : Sublist accepted rs
  pub are_accepted : (r : ValidationRecord) → Memᴰ r accepted ↔ (Memᴰ r rs × Accepts filter r)
  pub size : ℕ
  pub is_size : PageSize filter.page_size size
  pub room : length page ≤ size
  pub rest : List ValidationRecord
  pub first_ones : page ++ rest ≡ accepted
  pub as_many : (rest ≡ []) ⊎ (length page ≡ size)

-- A listing is the first page of the runs that have the schema, the method, the environment and the
-- result of the filter, where it names them, and are in its time range, in the order in which they
-- were recorded: all of them, or as many as the page size, which is 100 where the filter gives none
-- above 0.
pub list_validations-Page :
    (filter : ListValidationsFilter) (s : MemoryStore)
    → Page filter s.validations (list_validations filter s)
unfolding list_validations
list_validations-Page filter s = record {
  accepted = all;
  in_order = keep-Sublist (listed_validation filter) s.validations;
  are_accepted = λ r. (
    λ m.
        let (here, passes) = mem-keep (listed_validation filter) s.validations m in
        (here, (listed_validation_iff filter r).0 passes),
    λ (here, accepts).
        keep-mem (listed_validation filter) here ((listed_validation_iff filter r).1 accepts),
  );
  size = size;
  is_size = page_size_of-PageSize filter.page_size;
  room = take-length size all;
  rest = drop size all;
  first_ones = take-drop size all;
  as_many = take-full size all;
}
  where
    size : ℕ
    size = page_size_of filter.page_size

    all : List ValidationRecord
    all = keep (listed_validation filter) s.validations
