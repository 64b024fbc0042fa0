-- ===== src/Generator/Response.antt =====
-- pkg/cvt/generator.go: `GenerateResponse`. The lookup of an operation by its path and kin-openapi's
-- lookup of a content type are parameters. A header without a schema, or without a value, is none.
pub mod Answered
use cvt.Base.{
  ℕ, String, List, [], ◌∷◌, Bool, true, false, Option, none, some, concat, if◌then◌else◌,
}
use text.Mathlib.Text.{◌==◌}
use cvt.Base.Dict.{Dict, put}
use cvt.Base.Fallible.{Fallible, done, error, ◌>>=◌, wrap}
use cvt.Plugins.Expansion.{cut}
use cvt.Generator.{Value, null, SchemaRef, Schema, Faker, generate}
use cvt.Generator.Status.{StatusLookup, Responses, choose_response}

pub record MediaType : Type 0 where
  pub schema : SchemaRef

pub record Response : Type 0 where
  pub headers : Dict SchemaRef
  pub content : Option (Dict MediaType)

pub record Parameter : Type 0 where
  pub name : String
  pub location : String
  pub required : Bool
  pub schema : SchemaRef

-- References to parameters, a body and responses may have no value.
pub record Operation : Type 0 where
  pub parameters : List (Option Parameter)
  pub request_body : Option (Option (Dict MediaType))
  pub responses : Responses (Option Response)

pub record GeneratedResponse (Num Int : Type 0) : Type 0 where
  pub status_code : ℕ
  pub headers : Dict String
  pub body : Value Num Int

pub record GenerateOptions : Type 0 where
  pub use_examples : Bool
  pub status_code : ℕ
  pub content_type : String

-- What of a document `findOperation` asks for, with `strings.ToUpper`: the operation at a path as it
-- is written, and the parts of gorillamux and net/http that find a route.
pub record Routes : Type 0 where
  pub to_upper : String → String
  pub exact : String → String → Option Operation
  pub new_router : Fallible String
  pub new_request : String → String → Fallible String
  pub find_route : String → String → Fallible Operation

abbrev pub or_route : Option Operation → Fallible Operation → Fallible Operation
or_route (some operation) route = done operation
or_route none route = route

abbrev pub find_operation : Routes → String → String → Fallible Operation
find_operation routes method path = or_route (routes.exact path (routes.to_upper method)) (
    wrap (λ e. concat ("failed to create router: " ∷ e ∷ [])) routes.new_router >>= (λ router.
      wrap (λ e. concat ("failed to create request: " ∷ e ∷ []))
        (routes.new_request (routes.to_upper method) (concat ("http://localhost" ∷ path ∷ [])))
      >>= (λ request.
          wrap (λ e. concat ("route not found: " ∷ method ∷ " " ∷ path ∷ []))
            (routes.find_route (routes.to_upper method) path))))

-- `strings.Contains(ct, "json")`.
abbrev pub names_json : String → Bool
names_json content_type = elim (cut "json" content_type) [ none ↦ false | some parts ↦ true ]

unfoldable pub find_json : Dict MediaType → Option (String × MediaType)
find_json [] = none
find_json ((content_type, media) ∷ content) =
    if names_json content_type then some (content_type, media) else find_json content

abbrev pub or_json :
    String → Option MediaType → Option (String × MediaType) → Option (String × MediaType)
or_json content_type (some media) json = some (content_type, media)
or_json content_type none json = json

-- The media type of a content and its name.
abbrev pub media_type :
    (get_content : String → Dict MediaType → Option MediaType)
    → String
    → Option (Dict MediaType)
    → Option (String × MediaType)
media_type get_content requested none = none
media_type get_content requested (some content) =
    let content_type = if requested == "" then "application/json" else requested in
    or_json content_type (get_content content_type content) (find_json content)

module _ {F Num Int : Type 0} (faker : Faker F Num Int) where
  unfoldable pub add_headers :
      (SchemaRef → F → Value Num Int × F) → Dict SchemaRef → Dict String → F → Dict String × F
  add_headers make [] made s = (made, s)
  add_headers make ((name, none) ∷ headers) made s = add_headers make headers made s
  add_headers make ((name, some p) ∷ headers) made s =
      let (v, s') = make (some p) s in add_headers make headers (put name (faker.show v) made) s'

  abbrev pub generate_body : (SchemaRef → F → Value Num Int × F) → SchemaRef → F → Value Num Int × F
  generate_body make none s = (null, s)
  generate_body make (some p) s = make (some p) s

  abbrev pub with_body :
      (SchemaRef → F → Value Num Int × F)
      → ℕ
      → Option (String × MediaType)
      → Dict String × F
      → GeneratedResponse Num Int × F
  with_body make status none (made, s) =
      (record { status_code = status; headers = made; body = null }, s)
  with_body make status (some (content_type, media)) (made, s) =
      let (v, s') = generate_body make media.schema s in
      (
        record { status_code = status; headers = put "Content-Type" content_type made; body = v },
        s',
      )

  abbrev pub fill_response :
      (get_content : String → Dict MediaType → Option MediaType)
      → (SchemaRef → F → Value Num Int × F)
      → String
      → ℕ × Option Response
      → F
      → GeneratedResponse Num Int × F
  fill_response get_content make requested (status, none) s =
      (record { status_code = status; headers = []; body = null }, s)
  fill_response get_content make requested (status, some response) s =
      with_body make status (media_type get_content requested response.content)
        (add_headers make response.headers [] s)

  -- The document is none where the schema is not registered.
  unfoldable pub generate_response :
      StatusLookup (Option Response)
      → (get_content : String → Dict MediaType → Option MediaType)
      → (schema_id method path : String) → Option (Routes × (ℕ → Option (Schema Num Int)))
      → GenerateOptions
      → F
      → Fallible (GeneratedResponse Num Int × F)
  generate_response text get_content schema_id method path none opts s =
      error (concat ("schema not found: " ∷ schema_id ∷ []))
  generate_response text get_content schema_id method path (some (routes, schemas)) opts s =
      find_operation routes method path >>= (λ operation.
        choose_response text opts.status_code operation.responses >>= (λ chosen. done (
          fill_response get_content (generate faker opts.use_examples schemas) opts.content_type
            chosen s)))
