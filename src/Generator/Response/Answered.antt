-- ===== src/Generator/Response/Answered.antt =====
-- pkg/cvt/generator.go: `GenerateResponse` answers, with a body of bounded depth.
use cvt.Base.{ℕ, ◌≤◌, String, [], ◌∷◌, false, Option, none, some, ◌≡◌, refl, sym, ◌∙◌, ap}
use cvt.Base.Dict.{Dict}
use cvt.Base.Fallible.{done, done-bind}
use cvt.Generator.{Value, SchemaRef, Schema, Faker, generate}
use cvt.Generator.Bounded.{levels, null-levels, Within, generate-levels}
use cvt.Generator.Status.{StatusLookup, choose_response, select_success_status}
use cvt.Generator.Status.Answered.{LegalCodes, choose_response-answers}
use cvt.Generator.Response.{
  MediaType, Response, Operation, GeneratedResponse, Routes, find_operation, media_type,
  add_headers, generate_body, with_body, fill_response, generate_response,
}

module _ {F Num Int : Type 0} (faker : Faker F Num Int) where
  -- A response with a status and a body of at most some levels.
  abbrev pub Filled : ℕ → ℕ → GeneratedResponse Num Int → Type 0
  Filled n status made = (made.status_code ≡ status) × (levels made.body ≤ n)

  module _ (n : ℕ) (make : SchemaRef → F → Value Num Int × F) (within : Within faker n make) where
    generate_body-levels : (r : SchemaRef) (s : F) → levels (generate_body faker make r s).0 ≤ n
    generate_body-levels none s = null-levels Num Int n
    generate_body-levels (some p) s = within (some p) s

    with_body-Filled :
        (status : ℕ) (o : Option (String × MediaType)) (made : Dict String × F)
        → Filled n status (with_body faker make status o made).0
    with_body-Filled status none made = (refl, null-levels Num Int n)
    with_body-Filled status (some (content_type, media)) (made, s) =
        (refl, generate_body-levels media.schema s)

    fill_response-Filled :
        (get_content : String → Dict MediaType → Option MediaType) (requested : String) (status : ℕ)
        (o : Option Response) (s : F)
        → Filled n status (fill_response faker get_content make requested (status, o) s).0
    fill_response-Filled get_content requested status none s = (refl, null-levels Num Int n)
    fill_response-Filled get_content requested status (some response) s =
        with_body-Filled status (media_type get_content requested response.content)
          (add_headers faker make response.headers [] s)

  -- For an operation that is found, whose responses are not empty and have codes that are `default`,
  -- a positive number, or the wildcard of one: GenerateResponse without a requested status and
  -- without examples returns a response. It has the selected status, and its body is nested at most
  -- eleven levels deep.
  pub generate_response-answers :
      (text : StatusLookup (Option Response))
      (get_content : String → Dict MediaType → Option MediaType)
      (schema_id method path content_type : String) (routes : Routes)
      (schemas : ℕ → Option (Schema Num Int)) (operation : Operation) (code : String)
      (r : Option Response) (rs : Dict (Option Response)) (s : F)
      → find_operation routes method path ≡ done operation
      → operation.responses ≡ some ((code, r) ∷ rs)
      → LegalCodes text ((code, r) ∷ rs)
      → (made : GeneratedResponse Num Int) × (s' : F) × (generate_response faker text get_content
            schema_id method path
            (some (routes, schemas))
            (record { use_examples = false; status_code = 0; content_type = content_type })
            s
          ≡ done (made, s'))
        × (made.status_code ≡ select_success_status text operation.responses)
        × (levels made.body ≤ 11)
  unfolding generate_response
  generate_response-answers text get_content schema_id method path content_type routes schemas
        operation code r rs s found_operation declared legal =
      let (c, q, m, chosen) = choose_response-answers text code r rs legal in
      let status : ℕ = select_success_status text (some ((code, r) ∷ rs)) in
      let filled : GeneratedResponse Num Int × F =
        fill_response faker get_content (generate faker false schemas) content_type (status, q) s in
      let (same, low) =
        fill_response-Filled 11 (generate faker false schemas) (generate-levels faker schemas)
          get_content content_type status q s in
      (
        filled.0,
        filled.1,
        done-bind (find_operation routes method path) _ found_operation
            ∙ done-bind (choose_response text 0 operation.responses) _
                (ap (choose_response text 0) declared ∙ chosen),
        same ∙ ap (select_success_status text) (sym declared),
        low,
      )
