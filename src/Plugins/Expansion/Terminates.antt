-- ===== src/Plugins/Expansion/Terminates.antt =====
-- internal/pluginmgr/config.go: the loop of `expandEnv` ends, and leaves a text without a variable as
-- it is.
use Prim.Native.Char.{code}
use Prim.Native.String.{count}
use Prim.Native.String as Str
use text.Mathlib.TextEquality.{Char-path}
use text.Mathlib.TextLemmas.{length-append, nil-append, cons-append}
use cvt.Base.{
  ℕ, suc, zero, ◌+◌, ◌<◌, ◌≤◌, String, [], ◌∷◌, true, Option, none, some, ◌≡◌, refl, sym, ap, ◌∙◌,
  subst, inl, inr, Bool-cases, Option-cases, some_inj, eqb, concat, arith, if-true, if-false,
}
use text.Mathlib.Text.{◌==◌}
use cvt.Base.Fallible.{Fallible, done, error}
use cvt.Plugins.Expansion.{
  strip, cut, value_of, with_value, expand, expand_at, expand_to, expand_env,
}

eqb→eq : (m n : ℕ) → eqb m n ≡ true → m ≡ n
eqb→eq m n e = ground arith

strip-append : (p s r : String) → strip p s ≡ some r → s ≡ Str.◌++◌ p r
unfolding strip
strip-append Str.[] s r e = some_inj e ∙ sym (nil-append r)
strip-append (Str.◌∷◌ c p) Str.[] r e = cc
strip-append (Str.◌∷◌ c p) (Str.◌∷◌ d s) r e = elim (Bool-cases (eqb (code c) (code d))) [
  | inl same ↦
      let rest = strip-append p s r (rw same at e) in
      cc (Char-path c d (eqb→eq (code c) (code d) same), rest, cons-append c p r)
  | inr apart ↦ cc (rw apart at e)
]

pub cut-append :
    (sep s : String) (parts : String × String)
    → cut sep s ≡ some parts
    → s ≡ Str.◌++◌ parts.0 (Str.◌++◌ sep parts.1)
unfolding cut
cut-append sep Str.[] parts e = elim (Option-cases (strip sep "")) [
  | inl missing ↦ cc (rw (missing, cut) at e)
  | inr (rest, found) ↦
      let same : ("", rest) ≡ parts = some_inj (rw (found, cut) at e) in
      subst (λ p. "" ≡ Str.◌++◌ p.0 (Str.◌++◌ sep p.1)) same
        (strip-append sep "" rest found ∙ sym (nil-append (Str.◌++◌ sep rest)))
]
cut-append sep (Str.◌∷◌ c s) parts e = elim (Option-cases (strip sep (Str.◌∷◌ c s))) [
  | inr (rest, found) ↦
      let same : ("", rest) ≡ parts = some_inj (rw (found, cut) at e) in
      subst (λ p. Str.◌∷◌ c s ≡ Str.◌++◌ p.0 (Str.◌++◌ sep p.1)) same
        (strip-append sep (Str.◌∷◌ c s) rest found ∙ sym (nil-append (Str.◌++◌ sep rest)))
  | inl missing ↦ elim (Option-cases (cut sep s)) [
    | inl nowhere ↦ cc (rw (missing, nowhere, cut) at e)
    | inr (later, found) ↦
        let same : (Str.◌∷◌ c later.0, later.1) ≡ parts =
          some_inj (rw (missing, found, cut) at e) in
        subst (λ p. Str.◌∷◌ c s ≡ Str.◌++◌ p.0 (Str.◌++◌ sep p.1)) same
          (ap (λ t. Str.◌∷◌ c t) (cut-append sep s later found)
            ∙ sym (cons-append c later.0 (Str.◌++◌ sep later.1)))
  ]
]

-- What is behind the place is shorter by the text that is there.
cut-shorter :
    (sep s : String) (parts : String × String)
    → cut sep s ≡ some parts
    → count parts.1 + count sep ≤ count s
cut-shorter sep s parts e =
    let whole = ap count (cut-append sep s parts e) in
    omega (arith, whole, length-append parts.0 (Str.◌++◌ sep parts.1), length-append sep parts.1)

module _ (lookup_env : String → Option String) where
  with_value-some :
      (before : String) (val : Fallible String) (o : Option (Fallible String))
      → (r : Fallible String) × (o ≡ some r)
      → (r : Fallible String) × (with_value lookup_env before val o ≡ some r)
  with_value-some before (error message) o rest = (error message, refl)
  with_value-some before (done val) none rest = cc
  with_value-some before (done val) (some (error message)) rest = (error message, refl)
  with_value-some before (done val) (some (done t)) rest =
      (done (concat (before ∷ val ∷ t ∷ [])), refl)

  -- The body of the loop ends where the loop ends on shorter texts.
  expand_at-some :
      (expand_rest : String → Option (Fallible String)) (s : String)
      → ((t : String) → count t + 2 < count s → (r : Fallible String) × (expand_rest t ≡ some r))
      → (r : Fallible String) × (expand_at lookup_env expand_rest s (cut "${" s) ≡ some r)
  unfolding expand_at expand_to
  expand_at-some expand_rest s ends = at_place (cut "${" s) refl
    where
      to_end :
          (before rest : String)
          → count rest + 2 ≤ count s
          → (o : Option (String × String)) → cut "}" rest ≡ o
          → (r : Fallible String) × (expand_to lookup_env expand_rest before o ≡ some r)
      to_end before rest shorter none e = (_, refl)
      to_end before rest shorter (some parts) e =
          with_value-some before (value_of lookup_env parts.0) _
            (ends parts.1 (omega (arith, cut-shorter "}" rest parts e)))

      at_place :
          (o : Option (String × String))
          → cut "${" s ≡ o
          → (r : Fallible String) × (expand_at lookup_env expand_rest s o ≡ some r)
      at_place none e = (_, refl)
      at_place (some parts) e =
          to_end parts.0 parts.1 (cut-shorter "${" s parts e) (cut "}" parts.1) refl

  expand-some :
      (fuel : ℕ) (s : String)
      → count s < fuel
      → (r : Fallible String) × (expand lookup_env fuel s ≡ some r)
  unfolding expand
  expand-some zero s short = absurd (omega arith)
  expand-some (suc fuel) s short = elim (Bool-cases (s == "")) [
    | inl bare ↦ (done "", if-true _ _ bare)
    | inr more ↦
        let (r, ends) =
          expand_at-some (expand lookup_env fuel) s
            (λ t shorter. expand-some fuel t (omega arith)) in
        (r, if-false _ _ more ∙ ends)
  ]

  -- The loop ends on every text: with a value, or with an error, for whatever the environment holds.
  pub expand_env-ends : (s : String) → (r : Fallible String) × (expand_env lookup_env s ≡ some r)
  unfolding expand_env
  expand_env-ends s = expand-some (suc (count s)) s (omega arith)
