-- ===== src/Generator/Status/Answered.antt =====
-- pkg/cvt/generator.go: a fixture without a requested status always has a response.
use cvt.Base.{
  ℕ, String, List, [], ◌∷◌, Bool, true, false, ◌&&◌, Option, none, some, ◌≡◌, refl, sym, ap, ◌∙◌,
  ltb, subst, some_inj, arith, ◌⊎◌, inl, inr, Memᴰ, Bool-cases, if-true,
}
use mathlib.Core.List.Memᴰ.{head, tail}
use text.Mathlib.Text.{◌==◌}
use text.Mathlib.TextEquality.{eq_iff}
use cvt.Base.Dict.{Dict, get, mem_of_get}
use cvt.Base.Fallible.{done, ◌>>=◌}
use cvt.Generator.Status.{
  StatusLookup, first_some, find_code, wildcard, response_in, found, if_declared, preferred_status,
  scanned_status, is_no_default, success_status, or_200, select_success_status, choose_response,
}

abbrev Some {ℓ} : {A : Type ℓ} → Option A → Type ℓ
Some {A} o = (a : A) × (o ≡ some a)

refute_some {ℓ κ} : {A : Type ℓ} {B : Type κ} {a : A} → some a ≡ none → B
refute_some e = cc

first_some-Some_left {ℓ} : {A : Type ℓ} (o later : Option A) → Some o → Some (first_some o later)
first_some-Some_left none later (a, e) = cc
first_some-Some_left (some b) later answer = (b, refl)

first_some-Some_right {ℓ} :
    {A : Type ℓ} (o later : Option A) → Some later → Some (first_some o later)
first_some-Some_right none later answer = answer
first_some-Some_right (some b) later answer = (b, refl)

first_some-cases {ℓ} :
    {A : Type ℓ} {a : A} (o later : Option A)
    → first_some o later ≡ some a
    → (o ≡ some a) ⊎ (later ≡ some a)
first_some-cases none later e = inr e
first_some-cases (some b) later e = inl e

first_some-none {ℓ} :
    {A : Type ℓ} (o later : Option A) → first_some o later ≡ none → (o ≡ none) × (later ≡ none)
first_some-none none later e = (refl, e)
first_some-none (some b) later e = cc

module _ {ℓ} {R : Type ℓ} where
  get_of_key : (k : String) {r : R} (rs : Dict R) → Memᴰ (k, r) rs → Some (get k rs)
  unfolding get
  get_of_key k [] m = elim m [ ]
  get_of_key k ((j, q) ∷ rs) (head e) = (q, ground (arith, eq_iff j k))
  get_of_key k ((j, q) ∷ rs) (tail m) = elim (Bool-cases (j == k)) [
    | inl same ↦ (q, ground arith)
    | inr apart ↦ rw apart (get_of_key k rs m)
  ]

  find_code-mem :
      (wanted : String → Bool) (rs : Dict R) {r : R}
      → find_code wanted rs ≡ some r
      → (code : String) × Memᴰ (code, r) rs
  unfolding find_code
  find_code-mem wanted [] e = cc
  find_code-mem wanted ((k, q) ∷ rs) e = elim (Bool-cases (wanted k)) [
    | inl passes ↦ (k, head (ground arith))
    | inr fails ↦ let (code, m) = find_code-mem wanted rs (rw fails at e) in (code, tail m)
  ]

  find_code-Some :
      (wanted : String → Bool) (code : String) {r : R} (rs : Dict R)
      → Memᴰ (code, r) rs
      → wanted code ≡ true
      → Some (find_code wanted rs)
  unfolding find_code
  find_code-Some wanted code [] m e = elim m [ ]
  find_code-Some wanted code ((k, q) ∷ rs) (head same) e =
      (q, if-true _ _ (subst (λ p. wanted p.0 ≡ true) same e))
  find_code-Some wanted code ((k, q) ∷ rs) (tail m) e = elim (Bool-cases (wanted k)) [
    | inl passes ↦ (q, ground arith)
    | inr fails ↦ rw fails (find_code-Some wanted code rs m e)
  ]

  if_declared-Some :
      (status : ℕ) (o : Option R) (later : Option ℕ) {n : ℕ}
      → if_declared status o later ≡ some n
      → ((status ≡ n) × Some o) ⊎ (later ≡ some n)
  if_declared-Some status none later e = inr e
  if_declared-Some status (some r) later e = inl (some_inj e, (r, refl))

-- The code of a response: `default`, or one that begins with a positive number and is that
-- number or its wildcard.
abbrev pub LegalCode {ℓ} : {R : Type ℓ} → StatusLookup R → String → Type 0
LegalCode text code =
    (code ≡ "default")
    ⊎ ((ltb 0 (text.scan code) ≡ true)
        × ((text.show (text.scan code) ≡ code)
            ⊎ (text.equal_fold code (wildcard text (text.scan code)) ≡ true)))

module _ {ℓ} {R : Type ℓ} (text : StatusLookup R) where
  preferred_status-status :
      (later : List ℕ) (rs : Dict R) {status : ℕ}
      → preferred_status text later rs ≡ some status
      → Some (text.status status rs)
  unfolding preferred_status
  preferred_status-status [] rs e = cc
  preferred_status-status (n ∷ later) rs e =
      elim (if_declared-Some n _ (preferred_status text later rs) e) [
        | inl (same, present) ↦ subst (λ m. Some (text.status m rs)) same present
        | inr further ↦ preferred_status-status later rs further
      ]

  -- A status that was scanned is the number of some code of the map.
  scanned_status-mem :
      (wanted : String → Bool) (rs : Dict R) {status : ℕ}
      → scanned_status text wanted rs ≡ some status
      → (code : String) × (r : R) × Memᴰ (code, r) rs × (text.scan code ≡ status)
  unfolding scanned_status
  scanned_status-mem wanted [] e = cc
  scanned_status-mem wanted ((k, q) ∷ rs) e = elim (Bool-cases (wanted k && ltb 0 (text.scan k))) [
    | inl passes ↦ (k, q, head refl, some_inj (rw passes at e))
    | inr fails ↦
        let (code, r, m, same) = scanned_status-mem wanted rs (rw fails at e) in
        (code, r, tail m, same)
  ]

  -- Where none was scanned, no code passes the test and begins with a positive number.
  scanned_status-none :
      (wanted : String → Bool) (code : String) {r : R} (rs : Dict R)
      → scanned_status text wanted rs ≡ none
      → Memᴰ (code, r) rs
      → (wanted code && ltb 0 (text.scan code)) ≡ false
  unfolding scanned_status
  scanned_status-none wanted code [] e m = elim m [ ]
  scanned_status-none wanted code ((k, q) ∷ rs) e (head same) =
      elim (Bool-cases (wanted k && ltb 0 (text.scan k))) [
        | inl passes ↦ refute_some (rw passes at e)
        | inr fails ↦ subst (λ p. (wanted p.0 && ltb 0 (text.scan p.0)) ≡ false) (sym same) fails
      ]
  scanned_status-none wanted code ((k, q) ∷ rs) e (tail m) =
      elim (Bool-cases (wanted k && ltb 0 (text.scan k))) [
        | inl passes ↦ refute_some (rw passes at e)
        | inr fails ↦ scanned_status-none wanted code rs (rw fails at e) m
      ]

  abbrev pub LegalCodes : Dict R → Type ℓ
  LegalCodes rs = (code : String) (r : R) → Memᴰ (code, r) rs → LegalCode text code

  response_in-mem :
      (status : ℕ) (rs : Dict R) {r : R}
      → response_in text status rs ≡ some r
      → (code : String) × Memᴰ (code, r) rs
  response_in-mem status rs e = elim (first_some-cases (text.status status rs) _ e) [
    | inl exact ↦ text.status_mem status rs _ exact
    | inr later ↦ elim (first_some-cases (find_code _ rs) _ later) [
      | inl folded ↦ find_code-mem _ rs folded
      | inr last ↦ ("default", mem_of_get "default" rs last)
    ]
  ]

  response_in-default :
      (status : ℕ) (rs : Dict R) → Some (get "default" rs) → Some (response_in text status rs)
  response_in-default status rs answer =
      first_some-Some_right (text.status status rs) _
        (first_some-Some_right (find_code _ rs) _ answer)

  -- The number of a legal code has a response.
  response_in-scan :
      (code : String) {r : R} (rs : Dict R)
      → Memᴰ (code, r) rs
      → LegalCode text code
      → Some (response_in text (text.scan code) rs)
  response_in-scan code rs m (inl same) =
      response_in-default (text.scan code) rs
        (subst (λ k. Some (get k rs)) same (get_of_key code rs m))
  response_in-scan code rs m (inr (positive, inl exact)) =
      let (q, here) = get_of_key code rs m in
      first_some-Some_left (text.status (text.scan code) rs) _
        (q, text.status_exact (text.scan code) rs q (ap (λ k. get k rs) exact ∙ here))
  response_in-scan code rs m (inr (positive, inr folded)) =
      first_some-Some_right (text.status (text.scan code) rs) _
        (first_some-Some_left (find_code _ rs) _ (find_code-Some _ code rs m folded))

  response_in-preferred :
      (ns : List ℕ) (rs : Dict R) {status : ℕ}
      → preferred_status text ns rs ≡ some status
      → Some (response_in text status rs)
  response_in-preferred ns rs e = first_some-Some_left _ _ (preferred_status-status ns rs e)

  response_in-scanned :
      (wanted : String → Bool) (rs : Dict R) {status : ℕ}
      → LegalCodes rs
      → scanned_status text wanted rs ≡ some status
      → Some (response_in text status rs)
  response_in-scanned wanted rs legal e =
      let (code, r, m, same) = scanned_status-mem wanted rs e in
      subst (λ n. Some (response_in text n rs)) same (response_in-scan code rs m (legal code r m))

  -- Codes that are legal and begin with no positive number are `default`.
  response_in-unscanned :
      (status : ℕ) (k : String) (r : R) (rs : Dict R)
      → LegalCodes ((k, r) ∷ rs)
      → scanned_status text is_no_default ((k, r) ∷ rs) ≡ none
      → Some (response_in text status ((k, r) ∷ rs))
  response_in-unscanned status k r rs legal e =
      response_in-default status ((k, r) ∷ rs)
        (subst (λ j. Some (get j ((k, r) ∷ rs))) is_default (get_of_key k _ (head refl)))
    where
      by_code : LegalCode text k → (is_no_default k && ltb 0 (text.scan k)) ≡ false → k ≡ "default"
      by_code (inl same) unscanned = same
      by_code (inr (positive, written)) unscanned = ground (arith, eq_iff k "default")

      is_default : k ≡ "default"
      is_default =
          by_code (legal k r (head refl)) (scanned_status-none is_no_default k _ e (head refl))

  response_in-selected :
      (k : String) (r : R) (rs : Dict R)
      → LegalCodes ((k, r) ∷ rs)
      → Some (response_in text (select_success_status text (some ((k, r) ∷ rs))) ((k, r) ∷ rs))
  response_in-selected k r rs legal = by_status (success_status text ((k, r) ∷ rs)) refl
    where
      by_status :
          (o : Option ℕ)
          → success_status text ((k, r) ∷ rs) ≡ o
          → Some (response_in text (or_200 o) ((k, r) ∷ rs))
      by_status none e =
          let (_, unscanned) = first_some-none (preferred_status text _ ((k, r) ∷ rs)) _ e in
          let (_, none_left) = first_some-none (scanned_status text _ ((k, r) ∷ rs)) _ unscanned in
          response_in-unscanned 200 k r rs legal none_left
      by_status (some n) e = elim (first_some-cases (preferred_status text _ ((k, r) ∷ rs)) _ e) [
        | inl preferred ↦ response_in-preferred _ ((k, r) ∷ rs) preferred
        | inr later ↦ elim (first_some-cases (scanned_status text _ ((k, r) ∷ rs)) _ later) [
          | inl success ↦ response_in-scanned _ ((k, r) ∷ rs) legal success
          | inr first ↦ response_in-scanned _ ((k, r) ∷ rs) legal first
        ]
      ]

  found-Some :
      (status : ℕ) (o : Option R)
      → Some o
      → (r : R) × (o ≡ some r)
        × (◌>>=◌ {B = ℕ × R} (found text status o) (λ q. done (status, q)) ≡ done (status, r))
  found-Some status none answer = cc (answer.1)
  found-Some status (some r) answer = (r, refl, refl)

  -- Where every code of an operation's responses is `default`, a positive number, or the wildcard of
  -- one, and there is a response: a fixture for no requested status gets the selected status and one
  -- of the responses, and so no error.
  pub choose_response-answers :
      (k : String) (r : R) (rs : Dict R)
      → LegalCodes ((k, r) ∷ rs)
      → (code : String) × (q : R) × Memᴰ (code, q) ((k, r) ∷ rs)
        × (choose_response text 0 (some ((k, r) ∷ rs))
            ≡ done (select_success_status text (some ((k, r) ∷ rs)), q))
  choose_response-answers k r rs legal =
      let (q, same, answered) = found-Some _ _ (response_in-selected k r rs legal) in
      let (code, m) = response_in-mem _ ((k, r) ∷ rs) same in (code, q, m, answered)
