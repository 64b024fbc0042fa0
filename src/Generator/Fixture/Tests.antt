-- ===== src/Generator/Fixture/Tests.antt =====
-- pkg/cvt/generator.go: a fixture for an operation that declares `4XX` and a default.
use cvt.Base.{
  ℕ, true, ◌≤◌, [], ◌∷◌, false, Option, none, some, ◌≡◌, refl, sym, subst, inl, inr, if◌then◌else◌,
}
use mathlib.Core.List.Memᴰ.{head, tail}
use text.Mathlib.Text.{◌==◌}
use cvt.Base.Dict.{Dict, get}
use cvt.Base.Fallible.{done, error}
use cvt.Generator.Bounded.{levels}
use cvt.Generator.Status.{select_success_status}
use cvt.Generator.Status.Answered.{LegalCode, LegalCodes}
use cvt.Generator.Response.{Response, Operation, Routes, find_operation}
use cvt.Generator.Fixture.{GeneratedFixture, generate_fixture}
use cvt.Generator.Fixture.Answered.{generate_fixture-answers}
use cvt.Samples.Fixtures.{counting, people, few_statuses}

abbrev person_response : Response
person_response = record {
  headers = ("X-Count", some 2) ∷ ("X-Nothing", none) ∷ [];
  content = some (("application/json", record { schema = some 0 }) ∷ []);
}

abbrev person_responses : Dict (Option Response)
person_responses = ("4XX", some person_response) ∷ ("default", none) ∷ []

abbrev get_person : Operation
get_person = record {
  parameters =
      some (record { name = "id"; location = "path"; required = true; schema = some 2 })
      ∷ none
      ∷ [];
  request_body = some (some (("text/json", record { schema = some 1 }) ∷ []));
  responses = some person_responses;
}

abbrev routed : Routes
routed = record {
  to_upper = λ t. t;
  exact = λ path method. none;
  new_router = done "router";
  new_request = λ method url. done url;
  find_route = λ method path. if path == "/people/1" then done get_person else error "none";
}

get_person-routed : find_operation routed "GET" "/people/1" ≡ done get_person
get_person-routed = refl

person_responses-LegalCodes : LegalCodes few_statuses person_responses
person_responses-LegalCodes code r (head e) =
    subst (λ p. LegalCode {R = Option Response} few_statuses p.0) (sym e) (inr (refl, inr refl))
person_responses-LegalCodes code r (tail (head e)) =
    subst (λ p. LegalCode {R = Option Response} few_statuses p.0) (sym e) (inl refl)
person_responses-LegalCodes code r (tail (tail m)) = elim m [ ]

generate_fixture-answers_example :
    (made : GeneratedFixture ℕ ℕ) × (s : ℕ) × (generate_fixture counting few_statuses get "people"
        "GET" "/people/1"
        (some (routed, people))
        (record { use_examples = false; status_code = 0; content_type = "" })
        0
      ≡ done (made, s))
    × (made.response.status_code ≡ select_success_status few_statuses get_person.responses)
    × (levels made.request.body ≤ 11)
    × (levels made.response.body ≤ 11)
generate_fixture-answers_example =
    generate_fixture-answers counting few_statuses get "people" "GET" "/people/1" "" routed people
      get_person "4XX" (some person_response) (("default", none) ∷ []) 0 get_person-routed refl
      person_responses-LegalCodes
