-- ===== src/Generator/Fixture/Answered.antt =====
-- pkg/cvt/generator.go: `GenerateFixture` answers, with bodies of bounded depth.
use cvt.Base.{ℕ, ◌≤◌, String, ◌∷◌, false, Option, none, some, ◌≡◌, ◌∙◌}
use cvt.Base.Dict.{Dict}
use cvt.Base.Fallible.{done, done-bind}
use cvt.Generator.{Value, SchemaRef, Schema, Faker, generate}
use cvt.Generator.Bounded.{levels, null-levels, Within, generate-levels}
use cvt.Generator.Status.{StatusLookup, select_success_status}
use cvt.Generator.Status.Answered.{LegalCodes}
use cvt.Generator.Response.{MediaType, Response, Operation, Routes, find_operation, media_type}
use cvt.Generator.Response.Answered.{generate_response-answers}
use cvt.Generator.Fixture.{
  GeneratedRequest, GeneratedFixture, put_typed, put_body, content_of, generate_request,
  generate_fixture,
}

module _ {F Num Int : Type 0} (faker : Faker F Num Int) where
  module _ (n : ℕ) (make : SchemaRef → F → Value Num Int × F) (within : Within faker n make) where
    put_typed-levels :
        (content_type : String) (r : SchemaRef) (made : Dict String × F)
        → levels (put_typed faker make content_type r made).0.1 ≤ n
    put_typed-levels content_type none made = null-levels Num Int n
    put_typed-levels content_type (some p) (made, s) = within (some p) s

    put_body-levels :
        (o : Option (String × MediaType)) (made : Dict String × F)
        → levels (put_body faker make o made).0.1 ≤ n
    put_body-levels none made = null-levels Num Int n
    put_body-levels (some (content_type, media)) made =
        put_typed-levels content_type media.schema made

  -- For an operation that is found, whose responses are not empty and have codes that are `default`,
  -- a positive number, or the wildcard of one: GenerateFixture without a requested status and without
  -- examples returns a fixture. Its response has the selected status, and the bodies of its request
  -- and of its response are nested at most eleven levels deep.
  pub generate_fixture-answers :
      (text : StatusLookup (Option Response))
      (get_content : String → Dict MediaType → Option MediaType)
      (schema_id method path content_type : String) (routes : Routes)
      (schemas : ℕ → Option (Schema Num Int)) (operation : Operation) (code : String)
      (r : Option Response) (rs : Dict (Option Response)) (s : F)
      → find_operation routes method path ≡ done operation
      → operation.responses ≡ some ((code, r) ∷ rs)
      → LegalCodes text ((code, r) ∷ rs)
      → (made : GeneratedFixture Num Int) × (s' : F) × (generate_fixture faker text get_content
            schema_id method path
            (some (routes, schemas))
            (record { use_examples = false; status_code = 0; content_type = content_type })
            s
          ≡ done (made, s'))
        × (made.response.status_code ≡ select_success_status text operation.responses)
        × (levels made.request.body ≤ 11)
        × (levels made.response.body ≤ 11)
  unfolding generate_fixture
  generate_fixture-answers text get_content schema_id method path content_type routes schemas
        operation code r rs s found_operation declared legal =
      let request : GeneratedRequest Num Int × F =
        generate_request faker get_content (generate faker false schemas) content_type method path
          operation s in
      let (response, s', answered, same, low) =
        generate_response-answers faker text get_content schema_id method path content_type routes
          schemas operation code r rs request.1 found_operation declared legal in
      (
        record { request = request.0; response = response },
        s',
        done-bind (find_operation routes method path) _ found_operation ∙ done-bind _ _ answered,
        same,
        put_body-levels 11 (generate faker false schemas) (generate-levels faker schemas)
            (media_type get_content content_type (content_of operation.request_body)) _,
        low,
      )
