-- ===== src/Generator/Fixture.antt =====
-- pkg/cvt/generator.go: `GenerateFixture`, a request with its response.
mod Answered
mod Tests
use cvt.Base.{
  ℕ, String, List, [], ◌∷◌, Bool, true, false, ◌&&◌, Option, none, some, concat, if◌then◌else◌,
}
use text.Mathlib.Text.{◌==◌}
use cvt.Base.Dict.{Dict, put}
use cvt.Base.Fallible.{Fallible, done, error, ◌>>=◌}
use cvt.Plugins.Expansion.{cut}
use cvt.Generator.{Value, null, SchemaRef, Schema, Faker, generate}
use cvt.Generator.Status.{StatusLookup}
use cvt.Generator.Response.{
  MediaType, Parameter, Operation, Response, GeneratedResponse, GenerateOptions, Routes,
  find_operation, media_type, generate_response,
}

pub record GeneratedRequest (Num Int : Type 0) : Type 0 where
  pub method : String
  pub path : String
  pub headers : Dict String
  pub body : Value Num Int

pub record GeneratedFixture (Num Int : Type 0) : Type 0 where
  pub request : GeneratedRequest Num Int
  pub response : GeneratedResponse Num Int

abbrev pub content_of : Option (Option (Dict MediaType)) → Option (Dict MediaType)
content_of none = none
content_of (some content) = content

module _ {F Num Int : Type 0} (faker : Faker F Num Int) where
  abbrev pub shown_value : (SchemaRef → F → Value Num Int × F) → SchemaRef → F → String × F
  shown_value make none s = ("value", s)
  shown_value make (some p) s = let (v, s') = make (some p) s in (faker.show v, s')

  -- The first place of a placeholder is replaced, if there is one.
  abbrev pub fill_place :
      (SchemaRef → F → Value Num Int × F)
      → SchemaRef
      → Option (String × String)
      → String
      → F
      → String × F
  fill_place make schema none path s = (path, s)
  fill_place make schema (some (before, behind)) path s =
      let (shown, s') = shown_value make schema s in (concat (before ∷ shown ∷ behind ∷ []), s')

  unfoldable pub resolve_path :
      (SchemaRef → F → Value Num Int × F) → List (Option Parameter) → String → F → String × F
  resolve_path make [] path s = (path, s)
  resolve_path make (none ∷ params) path s = resolve_path make params path s
  resolve_path make (some param ∷ params) path s =
      let (path', s') =
        (if param.location == "path"
          then fill_place make param.schema (cut (concat ("{" ∷ param.name ∷ "}" ∷ [])) path) path s
          else (path, s)) in
      resolve_path make params path' s'

  abbrev pub put_header :
      (SchemaRef → F → Value Num Int × F) → String → SchemaRef → Dict String × F → Dict String × F
  put_header make name none made = made
  put_header make name (some p) (made, s) =
      let (v, s') = make (some p) s in (put name (faker.show v) made, s')

  unfoldable pub request_headers :
      (SchemaRef → F → Value Num Int × F)
      → List (Option Parameter)
      → Dict String × F
      → Dict String × F
  request_headers make [] made = made
  request_headers make (none ∷ params) made = request_headers make params made
  request_headers make (some param ∷ params) made = request_headers make params (
      if param.location == "header" && param.required
      then put_header make param.name param.schema made
      else made)

  -- A body with its content type, for a media type with a schema.
  abbrev pub put_typed :
      (SchemaRef → F → Value Num Int × F)
      → String
      → SchemaRef
      → Dict String × F
      → (Dict String × Value Num Int) × F
  put_typed make content_type none (made, s) = ((made, null), s)
  put_typed make content_type (some p) (made, s) =
      let (v, s') = make (some p) s in ((put "Content-Type" content_type made, v), s')

  abbrev pub put_body :
      (SchemaRef → F → Value Num Int × F)
      → Option (String × MediaType)
      → Dict String × F
      → (Dict String × Value Num Int) × F
  put_body make none (made, s) = ((made, null), s)
  put_body make (some (content_type, media)) made = put_typed make content_type media.schema made

  abbrev pub generate_request :
      (get_content : String → Dict MediaType → Option MediaType)
      → (SchemaRef → F → Value Num Int × F)
      → (content_type method path : String) → Operation
      → F
      → GeneratedRequest Num Int × F
  generate_request get_content make content_type method path operation s =
      let (resolved, s') = resolve_path make operation.parameters path s in
      let ((made, body), s'') =
        put_body make (media_type get_content content_type (content_of operation.request_body))
          (request_headers make operation.parameters ([], s')) in
      (record { method = method; path = resolved; headers = made; body = body }, s'')

  unfoldable pub generate_fixture :
      StatusLookup (Option Response)
      → (get_content : String → Dict MediaType → Option MediaType)
      → (schema_id method path : String) → Option (Routes × (ℕ → Option (Schema Num Int)))
      → GenerateOptions
      → F
      → Fallible (GeneratedFixture Num Int × F)
  generate_fixture text get_content schema_id method path none opts s =
      error (concat ("schema not found: " ∷ schema_id ∷ []))
  generate_fixture text get_content schema_id method path (some (routes, schemas)) opts s =
      find_operation routes method path >>= (λ operation.
        let request : GeneratedRequest Num Int × F =
          generate_request get_content (generate faker opts.use_examples schemas) opts.content_type
            method path operation s in
        generate_response faker text get_content schema_id method path (some (routes, schemas)) opts
          request.1
        >>= (λ response. done (record { request = request.0; response = response.0 }, response.1)))
