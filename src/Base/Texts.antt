-- ===== src/Base/Texts.antt =====
-- Texts: concatenation of pieces, and the byte order that Go compares and sorts strings by.
use Prim.Native.Nat.{ℕ, Ordering, compare as compare_ℕ}
use Prim.Native.Char.{code}
use Prim.Native.String.{String, compare, then}
use Prim.Native.String as Str
use Prim.Native.String.compare
use text.Mathlib.Text.{is_lt, ◌==◌}
use text.Mathlib.TextEquality.{Char-path, eq_iff}
use text.Mathlib.TextPositions.{compare_refl}
use text.Mathlib.TextLemmas.{append-nil, append_cancel_left, append-eq-nil_iff}
use mathlib.Core.Path.{◌≡◌, refl, sym, ◌∙◌}
use mathlib.Core.Logic.{◌⊎◌, ◌≢◌, inl, inr}
use mathlib.Core.Bool.{Bool, true, false}
use cvt.Base.Tests.{Bool-cases}
use mathlib.Core.List.{List, [], ◌∷◌}
use native.Mathlib.Omega.{arith}

-- What `fmt.Sprintf` and `+` build from pieces of text.
abbrev pub concat : List String → String
concat [] = ""
concat (s ∷ ss) = Str.◌++◌ s (concat ss)

-- `strings.Join(ss, ", ")`.
abbrev pub join : List String → String
join [] = ""
join (s ∷ []) = s
join (s ∷ t ∷ ss) = Str.◌++◌ s (Str.◌++◌ ", " (join (t ∷ ss)))

-- Go's `s < t` on strings.
abbrev pub text_lt : String → String → Bool
text_lt s t = is_lt (compare s t)

then_lt_trans :
    (m n k : ℕ) (p q r : Ordering)
    → (is_lt p ≡ true → is_lt q ≡ true → is_lt r ≡ true)
    → is_lt (then (compare_ℕ m n) p) ≡ true
    → is_lt (then (compare_ℕ n k) q) ≡ true
    → is_lt (then (compare_ℕ m k) r) ≡ true
then_lt_trans m n k p q r below u v = ground arith

not-lt_nil : (s : String) → text_lt s "" ≡ false
not-lt_nil Str.[] = refl
not-lt_nil (Str.◌∷◌ c s) = rw compare.cons-nil

pub text_lt_trans : (s t u : String) → text_lt s t ≡ true → text_lt t u ≡ true → text_lt s u ≡ true
text_lt_trans s Str.[] u h k = cc (h, not-lt_nil s)
text_lt_trans s (Str.◌∷◌ d t) Str.[] h k = cc (k, not-lt_nil (Str.◌∷◌ d t))
text_lt_trans Str.[] (Str.◌∷◌ d t) (Str.◌∷◌ e u) h k = rw compare.nil-cons
text_lt_trans (Str.◌∷◌ c s) (Str.◌∷◌ d t) (Str.◌∷◌ e u) h k = rw compare.cons-cons (
    then_lt_trans (code c) (code d) (code e) _ _ _ (text_lt_trans s t u) (rw compare.cons-cons at h)
      (rw compare.cons-cons at k))

pub text_lt_irrefl : (s : String) → text_lt s s ≡ false
text_lt_irrefl s = rw compare_refl

then_total :
    (m n : ℕ) (p q : Ordering)
    → (m ≡ n) ⊎ ((is_lt (then (compare_ℕ m n) p) ≡ true) ⊎ (is_lt (then (compare_ℕ n m) q) ≡ true))
then_total m n p q = ground arith

then_same :
    (m n : ℕ) (p q : Ordering)
    → m ≡ n
    → (is_lt p ≡ true) ⊎ (is_lt q ≡ true)
    → (is_lt (then (compare_ℕ m n) p) ≡ true) ⊎ (is_lt (then (compare_ℕ n m) q) ≡ true)
then_same m n p q e h = ground arith

-- Any two texts are equal, or one comes first.
pub text_lt_total : (s t : String) → (s ≡ t) ⊎ ((text_lt s t ≡ true) ⊎ (text_lt t s ≡ true))
text_lt_total Str.[] Str.[] = inl refl
text_lt_total Str.[] (Str.◌∷◌ d t) = inr (inl (rw compare.nil-cons))
text_lt_total (Str.◌∷◌ c s) Str.[] = inr (inr (rw compare.nil-cons))
text_lt_total (Str.◌∷◌ c s) (Str.◌∷◌ d t) =
    elim (then_total (code c) (code d) (compare s t) (compare t s)) [
      | inr apart ↦ inr (rw (compare.cons-cons c d s t, compare.cons-cons d c t s) apart)
      | inl same ↦ elim (text_lt_total s t) [
        | inr below ↦ inr (
            rw (compare.cons-cons c d s t, compare.cons-cons d c t s)
              (then_same (code c) (code d) (compare s t) (compare t s) same below))
        | inl e ↦ inl (cc (Char-path c d same, e))
      ]
    ]

-- A text is not itself with something more behind it.
pub not-append : (s t u : String) → t ≢ "" → s ≢ Str.◌++◌ s (Str.◌++◌ t u)
not-append s t u more e =
    more (append-eq-nil_iff.0 (sym (append_cancel_left s "" (Str.◌++◌ t u) (append-nil s ∙ e)))).0

-- Texts that differ fail the test.
pub apart_of_test : {s t : String} → (s == t) ≡ false → s ≢ t
apart_of_test {s} {t} other same = let test = (eq_iff s t).1 same in cc

pub apart_test : {s t : String} → s ≢ t → (s == t) ≡ false
apart_test {s} {t} apart = elim (Bool-cases (s == t)) [
  | inl same ↦ absurd (apart ((eq_iff s t).0 same))
  | inr other ↦ other
]
