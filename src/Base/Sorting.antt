-- ===== src/Base/Sorting.antt =====
-- `sort.Strings`: the one sorted list of a list's texts, here by insertion.
use Prim.Native.String.{String}
use mathlib.Core.List.{List, [], ◌∷◌, ◌++◌, Memᴰ}
use mathlib.Core.List.Memᴰ
use mathlib.Core.List.Memᴰ.{head, tail}
use mathlib.Core.Path.{◌≡◌, sym, subst}
use mathlib.Core.Logic.{◌⊎◌, inl, inr, ◌↔◌}
use mathlib.Core.Bool.{true}
use cvt.Base.Tests.{if◌then◌else◌, Bool-cases, if-true, if-false}
use cvt.Base.Texts.{text_lt, text_lt_trans, text_lt_irrefl, text_lt_total}

unfoldable pub insert : String → List String → List String
insert s [] = s ∷ []
insert s (t ∷ ts) = if text_lt t s then t ∷ insert s ts else s ∷ t ∷ ts

unfoldable pub sort : List String → List String
sort [] = []
sort (s ∷ ss) = insert s (sort ss)

-- Each text is below the ones after it.
abbrev pub Below : String → List String → Type 0
Below s ts = (t : String) → Memᴰ t ts → text_lt s t ≡ true

abbrev pub IsSorted : List String → Type 0
IsSorted [] = Unit
IsSorted (s ∷ ss) = Below s ss × IsSorted ss

pub mem-insert : (x s : String) (ts : List String) → Memᴰ x (insert s ts) → (x ≡ s) ⊎ Memᴰ x ts
unfolding insert
mem-insert x s [] (head e) = inl e
mem-insert x s [] (tail m) = elim m [ ]
mem-insert x s (t ∷ ts) m = elim (Bool-cases (text_lt t s)) [
  | inl below ↦ elim (subst (λ l. Memᴰ x l) (if-true (t ∷ insert s ts) (s ∷ t ∷ ts) below) m) [
    | head e ↦ inr (head e)
    | tail n ↦ elim (mem-insert x s ts n) [ inl e ↦ inl e | inr k ↦ inr (tail k) ]
  ]
  | inr above ↦ elim (subst (λ l. Memᴰ x l) (if-false (t ∷ insert s ts) (s ∷ t ∷ ts) above) m) [
    | head e ↦ inl e
    | tail n ↦ inr n
  ]
]

pub insert-mem : (x s : String) (ts : List String) → (x ≡ s) ⊎ Memᴰ x ts → Memᴰ x (insert s ts)
unfolding insert
insert-mem x s [] (inl e) = head e
insert-mem x s [] (inr m) = elim m [ ]
insert-mem x s (t ∷ ts) h = elim (Bool-cases (text_lt t s)) [
  | inl below ↦
      subst (λ l. Memᴰ x l) (sym (if-true (t ∷ insert s ts) (s ∷ t ∷ ts) below))
        (elim h [
          | inl e ↦ tail (insert-mem x s ts (inl e))
          | inr m ↦ elim m [ head e ↦ head e | tail n ↦ tail (insert-mem x s ts (inr n)) ]
        ])
  | inr above ↦
      subst (λ l. Memᴰ x l) (sym (if-false (t ∷ insert s ts) (s ∷ t ∷ ts) above))
        (elim h [ inl e ↦ head e | inr m ↦ tail m ])
]

pub mem-sort_iff : (x : String) (ss : List String) → Memᴰ x (sort ss) ↔ Memᴰ x ss
unfolding sort
mem-sort_iff x [] = (λ m. m, λ m. m)
mem-sort_iff x (s ∷ ss) = (
  λ m. elim (mem-insert x s (sort ss) m) [
    | inl e ↦ head e
    | inr n ↦ tail ((mem-sort_iff x ss).0 n)
  ],
  λ m. elim m [
    | head e ↦ insert-mem x s (sort ss) (inl e)
    | tail n ↦ insert-mem x s (sort ss) (inr ((mem-sort_iff x ss).1 n))
  ],
)

-- A text that is not there yet is inserted in its place.
pub insert-IsSorted :
    (s : String) (ts : List String) → IsSorted ts → ¬ Memᴰ s ts → IsSorted (insert s ts)
unfolding insert
insert-IsSorted s [] sorted fresh = (λ t m. elim m [ ], tt)
insert-IsSorted s (t ∷ ts) sorted fresh = elim (Bool-cases (text_lt t s)) [
  | inl below ↦
      subst (λ l. IsSorted l) (sym (if-true (t ∷ insert s ts) (s ∷ t ∷ ts) below))
        (
          λ u m. elim (mem-insert u s ts m) [
            | inl e ↦ subst (λ x. text_lt t x ≡ true) (sym e) below
            | inr n ↦ sorted.0 u n
          ],
          insert-IsSorted s ts sorted.1 (λ m. fresh (tail m)),
        )
  | inr above ↦
      let s_below : text_lt s t ≡ true = elim (text_lt_total s t) [
        | inl same ↦ absurd (fresh (head same))
        | inr (inl lt) ↦ lt
        | inr (inr gt) ↦ cc
      ] in
      subst (λ l. IsSorted l) (sym (if-false (t ∷ insert s ts) (s ∷ t ∷ ts) above))
        (
          λ u m. elim m [
            | head e ↦ subst (λ x. text_lt s x ≡ true) (sym e) s_below
            | tail n ↦ text_lt_trans s t u s_below (sorted.0 u n)
          ],
          sorted,
        )
]

-- A new text at the end of a sorted list.
pub sort-append_one :
    (s : String) (ss : List String) → IsSorted ss → ¬ Memᴰ s ss → IsSorted (sort (ss ++ (s ∷ [])))
unfolding sort
sort-append_one s [] sorted fresh = insert-IsSorted s [] tt (λ m. elim m [ ])
sort-append_one s (t ∷ ts) sorted fresh =
    insert-IsSorted t (sort (ts ++ (s ∷ []))) (sort-append_one s ts sorted.1 (λ m. fresh (tail m)))
      λ m. elim (Memᴰ.append_cases ts ((mem-sort_iff t (ts ++ (s ∷ []))).0 m)) [
        | inl old ↦ cc (sorted.0 t old, text_lt_irrefl t)
        | inr new ↦ fresh (head (sym (Memᴰ.eq_of_singleton new)))
      ]
