-- ===== src/Generator/Status/Tests.antt =====
-- pkg/cvt/generator.go: responses chosen for operations without one of the preferred statuses.
use cvt.Base.{ℕ, String, List, [], ◌∷◌, some, ◌≡◌, refl}
use cvt.Base.Fallible.{done}
use cvt.Base.Dict.{get}
use cvt.Generator.Status.{choose_response, find_code, preferred_status, scanned_status}
use cvt.Samples.Fixtures.{few_statuses}

abbrev any_success : List (String × ℕ)
any_success = ("2XX", 10) ∷ ("default", 20) ∷ []

-- The status 200 is found under the range of its code.
selected_200 : choose_response few_statuses 0 (some any_success) ≡ done (200, 10)
unfolding get find_code preferred_status scanned_status
selected_200 = refl

-- The code 4XX begins with the number 4.
abbrev any_refusal : List (String × ℕ)
any_refusal = ("4XX", 10) ∷ ("default", 20) ∷ []

selected_four : choose_response few_statuses 0 (some any_refusal) ≡ done (4, 10)
unfolding get find_code preferred_status scanned_status
selected_four = refl
