-- ===== src/Generator/Status.antt =====
-- pkg/cvt/generator.go: the response that a fixture is generated for, chosen by its status.
pub mod Answered
mod Tests
use Prim.Native.String as Str
use cvt.Base.{
  ℕ, zero, suc, String, List, [], ◌∷◌, Bool, true, false, ◌&&◌, not, Option, none, some, ◌≡◌, Memᴰ,
  ltb, concat, if◌then◌else◌,
}
use text.Mathlib.Text.{◌==◌}
use cvt.Base.Dict.{Dict, get}
use cvt.Base.Fallible.{Fallible, done, error, ◌>>=◌}

-- What the package `openapi3`, `fmt` and `strings` give: the response that `Responses.Status` finds,
-- which is one of the map, and the one of the exact code where there is one; the decimal text of a
-- number; the positive number that a text begins with, or 0; and the comparison of texts apart from
-- case.
pub record StatusLookup {ℓ} (R : Type ℓ) : Type ℓ where
  pub show : ℕ → String
  pub scan : String → ℕ
  pub equal_fold : String → String → Bool
  pub status : ℕ → Dict R → Option R
  pub status_exact : (n : ℕ) (rs : Dict R) (r : R) → get (show n) rs ≡ some r → status n rs ≡ some r
  pub status_mem :
      (n : ℕ) (rs : Dict R) (r : R) → status n rs ≡ some r → (code : String) × Memᴰ (code, r) rs

abbrev pub first_letter : String → String
first_letter Str.[] = ""
first_letter (Str.◌∷◌ c s) = Str.◌∷◌ c Str.[]

abbrev pub first_some {ℓ} : {A : Type ℓ} → Option A → Option A → Option A
first_some none later = later
first_some (some a) later = some a

-- `operation.Responses`, which may be nil: the responses by their codes.
abbrev pub Responses {ℓ} : Type ℓ → Type ℓ
Responses R = Option (Dict R)

abbrev pub begins_with_2 : String → Bool
begins_with_2 code = first_letter code == "2"

abbrev pub is_no_default : String → Bool
is_no_default code = not (code == "default")

abbrev pub or_200 : Option ℕ → ℕ
or_200 none = 200
or_200 (some status) = status

abbrev pub wildcard {ℓ} : {R : Type ℓ} → StatusLookup R → ℕ → String
wildcard text status = concat (first_letter (text.show status) ∷ "XX" ∷ [])

module _ {ℓ} {R : Type ℓ} where
  -- The first response whose code passes a test.
  unfoldable pub find_code : (String → Bool) → Dict R → Option R
  find_code wanted [] = none
  find_code wanted ((code, r) ∷ rs) = if wanted code then some r else find_code wanted rs

  abbrev pub if_declared : ℕ → Option R → Option ℕ → Option ℕ
  if_declared status (some r) later = some status
  if_declared status none later = later

module _ {ℓ} {R : Type ℓ} (text : StatusLookup R) where
  -- What `Status` finds, else a wildcard, else the default.
  abbrev pub response_in : ℕ → Dict R → Option R
  response_in status rs = first_some (text.status status rs) (
      first_some (find_code (λ code. text.equal_fold code (wildcard text status)) rs)
        (get "default" rs))

  abbrev pub found : ℕ → Option R → Fallible R
  found status none = error (concat ("no response found for status " ∷ text.show status ∷ []))
  found status (some r) = done r

  abbrev pub get_response_for_status : Responses R → ℕ → Fallible R
  get_response_for_status none status = error "no responses defined"
  get_response_for_status (some rs) status = found status (response_in status rs)

  unfoldable pub preferred_status : List ℕ → Dict R → Option ℕ
  preferred_status [] rs = none
  preferred_status (status ∷ later) rs =
      if_declared status (text.status status rs) (preferred_status later rs)

  -- The number of the first code that passes a test and begins with a positive number.
  unfoldable pub scanned_status : (String → Bool) → Dict R → Option ℕ
  scanned_status wanted [] = none
  scanned_status wanted ((code, r) ∷ rs) =
      if wanted code && ltb 0 (text.scan code)
      then some (text.scan code)
      else scanned_status wanted rs

  abbrev pub success_status : Dict R → Option ℕ
  success_status rs =
      first_some (preferred_status (200 ∷ 201 ∷ 202 ∷ 204 ∷ []) rs)
        (first_some (scanned_status begins_with_2 rs) (scanned_status is_no_default rs))

  abbrev pub select_success_status : Responses R → ℕ
  select_success_status none = 200
  select_success_status (some rs) = or_200 (success_status rs)

  -- A status of 0 asks for a successful one.
  abbrev pub chosen_status : ℕ → Responses R → ℕ
  chosen_status zero responses = select_success_status responses
  chosen_status (suc n) responses = suc n

  abbrev pub choose_response : ℕ → Responses R → Fallible (ℕ × R)
  choose_response requested responses =
      let status = chosen_status requested responses in
      get_response_for_status responses status >>= (λ r. done (status, r))
