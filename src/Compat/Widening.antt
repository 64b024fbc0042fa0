-- ===== src/Compat/Widening.antt =====
-- `isCompatibleTypeChange`: the table of type changes that the engines let pass.
use cvt.Base.{
  String, List, [], ◌∷◌, true, false, ◌≡◌, ◌↔◌, inl, inr, arith, Bool-cases, eq_iff, Option-cases,
  Memᴰ, sym, subst,
}
use text.Mathlib.Text.{◌==◌}
use cvt.Base.Dict.{get, mem_of_get}
use mathlib.Core.List.Memᴰ
use mathlib.Core.List.Memᴰ.{head, tail}
use cvt.Compat.Checks.{
  contains, compatible_changes, is_breaking_type_change, is_compatible_type_change,
}
use cvt.Compat.Spec.{
  Fits, Widens, integer_number, int32_int64, int32_integer, int32_number, int64_number,
  float_double, float_number,
}

contains-mem : {s : String} (ss : List String) → contains s ss ≡ true → Memᴰ s ss
contains-mem [] e = cc
contains-mem {s} (t ∷ ts) e = elim (Bool-cases (t == s)) [
  | inl same ↦ head (sym ((eq_iff t s).0 same))
  | inr apart ↦ tail (contains-mem ts (rw (apart, contains) at e))
]

of_integer : (o n : String) → o ≡ "integer" → Memᴰ n ("number" ∷ []) → Widens o n
of_integer o n e (head q) = integer_number e q
of_integer o n e (tail m) = elim m [ ]

of_int32 : (o n : String) → o ≡ "int32" → Memᴰ n ("int64" ∷ "integer" ∷ "number" ∷ []) → Widens o n
of_int32 o n e (head q) = int32_int64 e q
of_int32 o n e (tail (head q)) = int32_integer e q
of_int32 o n e (tail (tail (head q))) = int32_number e q
of_int32 o n e (tail (tail (tail m))) = elim m [ ]

of_int64 : (o n : String) → o ≡ "int64" → Memᴰ n ("number" ∷ []) → Widens o n
of_int64 o n e (head q) = int64_number e q
of_int64 o n e (tail m) = elim m [ ]

of_float : (o n : String) → o ≡ "float" → Memᴰ n ("double" ∷ "number" ∷ []) → Widens o n
of_float o n e (head q) = float_double e q
of_float o n e (tail (head q)) = float_number e q
of_float o n e (tail (tail m)) = elim m [ ]

row :
    (o n : String) (allowed : List String)
    → Memᴰ (o, allowed) compatible_changes
    → Memᴰ n allowed
    → Widens o n
row o n allowed (head e) m = of_integer o n (cc e) (subst (Memᴰ n) (cc e) m)
row o n allowed (tail (head e)) m = of_int32 o n (cc e) (subst (Memᴰ n) (cc e) m)
row o n allowed (tail (tail (head e))) m = of_int64 o n (cc e) (subst (Memᴰ n) (cc e) m)
row o n allowed (tail (tail (tail (head e)))) m = of_float o n (cc e) (subst (Memᴰ n) (cc e) m)
row o n allowed (tail (tail (tail (tail k)))) m = elim k [ ]

compatible-Widens : (o n : String) → is_compatible_type_change o n ≡ true → Widens o n
unfolding is_compatible_type_change get
compatible-Widens o n e = elim (Option-cases (get o compatible_changes)) [
  | inl missing ↦ cc (rw (missing, is_compatible_type_change) at e)
  | inr (allowed, found) ↦
      row o n allowed (mem_of_get o compatible_changes found)
        (contains-mem allowed (rw (found, is_compatible_type_change) at e))
]

Widens-compatible : (o n : String) → Widens o n → is_compatible_type_change o n ≡ true
unfolding is_compatible_type_change get
Widens-compatible o n (integer_number p q) = rw (p, q)
Widens-compatible o n (int32_int64 p q) = rw (p, q)
Widens-compatible o n (int32_integer p q) = rw (p, q)
Widens-compatible o n (int32_number p q) = rw (p, q)
Widens-compatible o n (int64_number p q) = rw (p, q)
Widens-compatible o n (float_double p q) = rw (p, q)
Widens-compatible o n (float_number p q) = rw (p, q)

-- The table is read exactly as the relation says.
pub breaking_iff : (o n : String) → (is_breaking_type_change o n ≡ false) ↔ Fits o n
unfolding is_breaking_type_change
breaking_iff o n = (
  λ e. elim (Bool-cases (o == n)) [
    | inl same ↦ inl ((eq_iff o n).0 same)
    | inr apart ↦ inr (compatible-Widens o n (ground arith))
  ],
  λ f. elim f [
    | inl same ↦ ground (arith, (eq_iff o n).1 same)
    | inr wider ↦ ground (arith, Widens-compatible o n wider)
  ],
)

-- The table ends at "number" and "double".
not-Widens_number : (c : String) → ¬ Widens "number" c
unfolding is_compatible_type_change get
not-Widens_number c w = cc (Widens-compatible "number" c w)

not-Widens_double : (c : String) → ¬ Widens "double" c
unfolding is_compatible_type_change get
not-Widens_double c w = cc (Widens-compatible "double" c w)

Widens-int64 : (c : String) → Widens "int64" c → c ≡ "number"
unfolding is_compatible_type_change get
Widens-int64 c w =
    Memᴰ.eq_of_singleton (contains-mem ("number" ∷ []) (Widens-compatible "int64" c w))

Widens-integer : (c : String) → Widens "integer" c → c ≡ "number"
unfolding is_compatible_type_change get
Widens-integer c w =
    Memᴰ.eq_of_singleton (contains-mem ("number" ∷ []) (Widens-compatible "integer" c w))

Widens-trans : (a b c : String) → Widens a b → Widens b c → Widens a c
Widens-trans a b c (integer_number p q) w = absurd (not-Widens_number c (rw q at w))
Widens-trans a b c (int32_int64 p q) w = int32_number p (Widens-int64 c (rw q at w))
Widens-trans a b c (int32_integer p q) w = int32_number p (Widens-integer c (rw q at w))
Widens-trans a b c (int32_number p q) w = absurd (not-Widens_number c (rw q at w))
Widens-trans a b c (int64_number p q) w = absurd (not-Widens_number c (rw q at w))
Widens-trans a b c (float_double p q) w = absurd (not-Widens_double c (rw q at w))
Widens-trans a b c (float_number p q) w = absurd (not-Widens_number c (rw q at w))

Fits-trans : (a b c : String) → Fits a b → Fits b c → Fits a c
Fits-trans a b c (inl e) g = rw e g
Fits-trans a b c (inr v) (inl e) = inr (subst (Widens a) e v)
Fits-trans a b c (inr v) (inr w) = inr (Widens-trans a b c v w)

-- A type that may change to a second one, which may change to a third, may change to the third at
-- once: a client that skips a version is told nothing new about a type.
pub breaking_trans :
    (a b c : String)
    → is_breaking_type_change a b ≡ false
    → is_breaking_type_change b c ≡ false
    → is_breaking_type_change a c ≡ false
breaking_trans a b c e f =
    (breaking_iff a c).1 (Fits-trans a b c ((breaking_iff a b).0 e) ((breaking_iff b c).0 f))
