-- ===== src/Cache/Versions.antt =====
-- server/cvtservice/cache.go: the version lists stay sorted, and what `GetPreviousVersion` finds.
use cvt.Base.{
  String, List, [], ◌∷◌, ◌++◌, true, false, Option, none, some, ◌≡◌, refl, sym, ap, subst, ◌∙◌, ◌↔◌,
  ◌⊎◌, inl, inr, Memᴰ, Bool-cases, eq_iff, if◌then◌else◌, if-true, if-false, text_lt, text_lt_trans,
  text_lt_irrefl,
}
use mathlib.Core.List.Memᴰ
use mathlib.Core.List.Memᴰ.{head, tail}
use text.Mathlib.Text.{◌==◌}
use cvt.Base.Sorting.{sort, IsSorted, Below, mem-sort_iff, sort-append_one}
use cvt.Base.Dict.{Dict, get, put, delete, get-put, get-delete}
use cvt.Cache.{
  SchemaCache, is_listed, versions_of, track_version, previous_of, list_versions,
  get_previous_version,
}

is_listed_iff : (v : String) (vs : List String) → (is_listed v vs ≡ true) ↔ Memᴰ v vs
is_listed_iff v [] = (λ e. cc, λ m. elim m [ ])
is_listed_iff v (u ∷ us) = elim (Bool-cases (u == v)) [
  | inl same ↦ (λ e. head (sym ((eq_iff u v).0 same)), λ m. rw same refl)
  | inr apart ↦ (
    λ e. tail ((is_listed_iff v us).0 (sym (if-false true (is_listed v us) apart) ∙ e)),
    λ m. elim m [
      | head e ↦ cc ((eq_iff u v).1 (sym e))
      | tail n ↦ rw apart ((is_listed_iff v us).1 n)
    ],
  )
]

-- The version lists of a cache.
pub record SortedVersions (m : Dict (List String)) : Type 0 where
  pub each : (schema_id : String) → IsSorted (versions_of schema_id m)

versions_of-put :
    (i j : String) (vs : List String) (m : Dict (List String))
    → versions_of j (put i vs m) ≡ (if i == j then vs else versions_of j m)
versions_of-put i j vs m =
    ap (λ o. elim o [ none ↦ [] | some us ↦ us ]) (get-put i j vs m)
    ∙ elim (Bool-cases (i == j)) [ inl same ↦ rw same refl | inr apart ↦ rw apart refl ]

pub track_version-SortedVersions :
    (schema_id version : String) (m : Dict (List String))
    → SortedVersions m
    → SortedVersions (track_version schema_id version m)
unfolding track_version
track_version-SortedVersions i v m sorted = elim (Bool-cases (is_listed v (versions_of i m))) [
  | inl listed ↦ subst SortedVersions (sym (if-true m _ listed)) sorted
  | inr fresh ↦ subst SortedVersions (sym (if-false m _ fresh)) (record {
    each = λ j.
        subst IsSorted (sym (versions_of-put i j (sort (versions_of i m ++ (v ∷ []))) m))
          (elim (Bool-cases (i == j)) [
            | inl same ↦ subst IsSorted (sym (if-true _ _ same)) (
                sort-append_one v (versions_of i m) (sorted.each i)
                  λ here. cc (fresh, (is_listed_iff v (versions_of i m)).1 here))
            | inr apart ↦ subst IsSorted (sym (if-false _ _ apart)) (sorted.each j)
          ]);
  })
]

-- After a version is tracked, its schema's list holds it and what it held before, and the lists of
-- other schemas are as before.
pub track_version-mem :
    (schema_id version : String) (m : Dict (List String)) (i v : String)
    → Memᴰ v (versions_of i (track_version schema_id version m))
      ↔ (((schema_id ≡ i) × (v ≡ version)) ⊎ Memᴰ v (versions_of i m))
unfolding track_version
track_version-mem schema_id version m i v = elim (Bool-cases (is_listed version us)) [
  | inl listed ↦
      subst (λ d. Memᴰ v (versions_of i d) ↔ After) (sym (if-true m _ listed))
        (
          inr,
          λ h. elim h [
            | inr old ↦ old
            | inl (same, new) ↦
                subst (λ j. Memᴰ v (versions_of j m)) same
                  (subst (λ x. Memᴰ x us) (sym new) ((is_listed_iff version us).0 listed))
          ],
        )
  | inr fresh ↦
      subst (λ d. Memᴰ v (versions_of i d) ↔ After) (sym (if-false m _ fresh))
        (subst (λ l. Memᴰ v l ↔ After)
          (sym (versions_of-put schema_id i (sort (us ++ (version ∷ []))) m))
          (at_schema (Bool-cases (schema_id == i))))
]
  where
    us : List String
    us = versions_of schema_id m

    After : Type 0
    After = ((schema_id ≡ i) × (v ≡ version)) ⊎ Memᴰ v (versions_of i m)

    at_schema :
        ((schema_id == i) ≡ true) ⊎ ((schema_id == i) ≡ false)
        → Memᴰ v (if schema_id == i then sort (us ++ (version ∷ [])) else versions_of i m) ↔ After
    at_schema (inr apart) = rw apart (
      inr,
      λ h. elim h [ inr old ↦ old | inl (same, new) ↦ cc ((eq_iff schema_id i).1 same, apart) ],
    )
    at_schema (inl same) = rw same (
      λ here. elim (Memᴰ.append_cases us ((mem-sort_iff v (us ++ (version ∷ []))).0 here)) [
        | inl old ↦ inr (subst (λ j. Memᴰ v (versions_of j m)) ((eq_iff schema_id i).0 same) old)
        | inr new ↦ inl ((eq_iff schema_id i).0 same, Memᴰ.eq_of_singleton new)
      ],
      λ h. (mem-sort_iff v (us ++ (version ∷ []))).1 (elim h [
        | inl (at_it, new) ↦ Memᴰ.append_right us (head new)
        | inr old ↦
            Memᴰ.append_left (version ∷ [])
              (subst (λ j. Memᴰ v (versions_of j m)) (sym ((eq_iff schema_id i).0 same)) old)
      ]),
    )

-- What `GetPreviousVersion` may answer of a schema whose tracked versions are `vs`.
pub data PreviousText (vs : List String) (c : String) : Option String → Type 0 where
  just_below :
      (p : String)
      → Memᴰ p vs
      → Memᴰ c vs
      → text_lt p c ≡ true
      → ((q : String) → Memᴰ q vs → text_lt q c ≡ true → (q ≡ p) ⊎ (text_lt q p ≡ true))
      → PreviousText vs c (some p)
  none_below :
      (Memᴰ c vs → (q : String) → Memᴰ q vs → ¬ (text_lt q c ≡ true)) → PreviousText vs c none

-- A smaller text in front.
cons-PreviousText :
    (u v c : String) (vs : List String) (o : Option String)
    → Below u (v ∷ vs)
    → (v == c) ≡ false
    → IsSorted (v ∷ vs)
    → PreviousText (v ∷ vs) c o
    → PreviousText (u ∷ v ∷ vs) c o
cons-PreviousText u v c vs o below apart sorted (just_below p is_p is_c lt top) =
    just_below p (tail is_p) (tail is_c) lt λ q here is_q. elim here [
      | head e ↦ inr (subst (λ x. text_lt x p ≡ true) (sym e) (below p is_p))
      | tail n ↦ top q n is_q
    ]
cons-PreviousText u v c vs o below apart sorted (none_below free) = none_below λ is_c q here is_q.
    elim is_c [
      | head e ↦ elim here [
        | head f ↦ cc (subst (λ x. text_lt x c ≡ true) (f ∙ sym e) is_q, text_lt_irrefl c)
        | tail n ↦
            let back : text_lt q u ≡ true = subst (λ x. text_lt q x ≡ true) e is_q in
            cc (text_lt_trans u q u (below q n) back, text_lt_irrefl u)
      ]
      | tail n ↦ elim n [
        | head e ↦ cc ((eq_iff v c).1 (sym e), apart)
        | tail k ↦ free (tail k) v (head refl) (sorted.0 c k)
      ]
    ]

previous_of-PreviousText :
    (c : String) (vs : List String) → IsSorted vs → PreviousText vs c (previous_of c vs)
unfolding previous_of
previous_of-PreviousText c [] sorted = none_below λ is_c q here is_q. elim here [ ]
previous_of-PreviousText c (u ∷ []) sorted = none_below λ is_c q here is_q.
    cc (Memᴰ.eq_of_singleton is_c, Memᴰ.eq_of_singleton here, is_q, text_lt_irrefl u)
previous_of-PreviousText c (u ∷ v ∷ vs) sorted = elim (Bool-cases (v == c)) [
  | inr apart ↦
      subst (λ o. PreviousText (u ∷ v ∷ vs) c o) (sym (if-false _ _ apart))
        (cons-PreviousText u v c vs _ sorted.0 apart sorted.1
          (previous_of-PreviousText c (v ∷ vs) sorted.1))
  | inl same ↦
      let is_v : v ≡ c = (eq_iff v c).0 same in
      subst (λ o. PreviousText (u ∷ v ∷ vs) c o) (sym (if-true _ _ same))
        (just_below u (head refl) (tail (head (sym is_v)))
          (subst (λ x. text_lt u x ≡ true) is_v (sorted.0 v (head refl)))
          λ q here is_q. elim here [
            | head e ↦ inl e
            | tail n ↦ elim n [
              | head e ↦ cc (subst (λ x. text_lt x c ≡ true) (e ∙ is_v) is_q, text_lt_irrefl c)
              | tail k ↦
                  let v_below : text_lt c q ≡ true =
                    subst (λ x. text_lt x q ≡ true) is_v (sorted.1.0 q k) in
                  cc (text_lt_trans c q c v_below is_q, text_lt_irrefl c)
            ]
          ])
]

-- Where the version lists are sorted, `GetPreviousVersion` of the cache answers the greatest text
-- among the tracked versions that are below the current one, for a version that is tracked; and it
-- answers none exactly where the version is not tracked or no tracked version is below it.
pub get_previous_version-PreviousText :
    {C : Type 0} (schema_id c : String) (s : SchemaCache C)
    → SortedVersions s.schema_versions
    → PreviousText (list_versions schema_id s) c (get_previous_version schema_id c s)
unfolding get_previous_version list_versions
get_previous_version-PreviousText schema_id c s sorted =
    previous_of-PreviousText c (versions_of schema_id s.schema_versions) (sorted.each schema_id)

pub no_versions : SortedVersions []
unfolding get
no_versions = record { each = λ i. tt }

pub delete-SortedVersions :
    (schema_id : String) (m : Dict (List String))
    → SortedVersions m
    → SortedVersions (delete schema_id m)
delete-SortedVersions i m sorted = record {
  each = λ j. elim (Bool-cases (i == j)) [
    | inl same ↦ subst (λ o. IsSorted (listed_in o)) (sym (get-delete i j m ∙ if-true _ _ same)) tt
    | inr apart ↦
        subst (λ o. IsSorted (listed_in o)) (sym (get-delete i j m ∙ if-false _ _ apart))
          (sorted.each j)
  ];
}
  where
    listed_in : Option (List String) → List String
    listed_in o = elim o [ none ↦ [] | some vs ↦ vs ]
