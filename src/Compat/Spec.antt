-- ===== src/Compat/Spec.antt =====
-- What a new version owes the old one, told apart from how the engines look for it: for each check
-- a condition on an operation of both documents, stated over what the documents list.
use cvt.Base.{String, List, [], true, some, ◌≡◌, ◌≢◌, ◌⊎◌, Memᴰ}
use cvt.Base.Dict.{Dict, get}
use cvt.OpenApi.{
  Ref, Property, Schema, MediaType, Parameter, Response, Operation, PathItem, Paths, Document,
  Finder, deref,
}
use cvt.Compat.Endpoints.{Method, body_methods, five_methods, seven_methods, OnShared}
use cvt.Compat.Checks.{first_type, or_empty, body_schemas, find_item}

-- The changes of a type that an old client survives.
pub data Widens (old new : String) : Type 0 where
  integer_number : old ≡ "integer" → new ≡ "number" → Widens old new
  int32_int64 : old ≡ "int32" → new ≡ "int64" → Widens old new
  int32_integer : old ≡ "int32" → new ≡ "integer" → Widens old new
  int32_number : old ≡ "int32" → new ≡ "number" → Widens old new
  int64_number : old ≡ "int64" → new ≡ "number" → Widens old new
  float_double : old ≡ "float" → new ≡ "double" → Widens old new
  float_number : old ≡ "float" → new ≡ "number" → Widens old new

abbrev pub Fits : String → String → Type 0
Fits old new = (old ≡ new) ⊎ Widens old new

abbrev pub Listed : Parameter → Operation → Type 0
Listed p op = Memᴰ (record { value = some p }) op.parameters

abbrev pub InBody : Schema → Operation → Type 0
InBody s op = Memᴰ s (body_schemas op.request_body)

-- Some schema of the body gives the property this type.
pub data BodyType (name t : String) (op : Operation) : Type 0 where
  typed :
      (s : Schema) (p : Property)
      → InBody s op
      → Memᴰ (name, record { value = some p }) s.properties
      → first_type p.types ≡ some t
      → BodyType name t op

-- Every parameter that the new operation requires was there before.
pub record ParametersKept (old new : Operation) : Type 0 where
  pub kept :
      (p : Parameter)
      → Listed p new
      → p.required ≡ true
      → (q : Parameter) × Listed q old × (q.name ≡ p.name)

-- Every body field that the new operation requires was required before.
pub record FieldsKept (old new : Operation) : Type 0 where
  pub kept :
      (s : Schema) (field : String)
      → InBody s new
      → Memᴰ field s.required
      → (t : Schema) × InBody t old × Memᴰ field t.required

-- A parameter's type stays or widens.
pub record ParameterTypesKept (old new : Operation) : Type 0 where
  pub kept :
      (p q : Parameter) (s t : Schema) (old_type : String)
      → Listed p old
      → Listed q new
      → p.name ≡ q.name
      → deref p.schema ≡ some s
      → deref q.schema ≡ some t
      → first_type s.types ≡ some old_type
      → Fits old_type (or_empty (first_type t.types))

-- A body property's type stays or widens.
pub record BodyTypesKept (old new : Operation) : Type 0 where
  pub kept :
      (name old_type new_type : String)
      → BodyType name old_type old
      → BodyType name new_type new
      → Fits old_type new_type

-- A parameter that stays an enumeration keeps every value.
pub record EnumsKept (old new : Operation) : Type 0 where
  pub kept :
      (p q : Parameter) (s t : Schema) (v : String)
      → Listed p old
      → Listed q new
      → p.name ≡ q.name
      → deref p.schema ≡ some s
      → deref q.schema ≡ some t
      → t.enum ≢ []
      → Memᴰ v s.enum
      → Memᴰ v t.enum

-- Each parameter name stands for one parameter, and each body property has one type. OpenAPI asks
-- neither: a name may be used once in each location, and each media type has its own schema.
pub record IsRegular (op : Operation) : Type 0 where
  pub single_names : (p q : Parameter) → Listed p op → Listed q op → p.name ≡ q.name → p ≡ q
  pub single_types : (name t u : String) → BodyType name t op → BodyType name u op → t ≡ u

pub record RegularPaths (paths : Paths) : Type 0 where
  pub regular :
      (path : String) (item : PathItem) (m : Method) (op : Operation)
      → Memᴰ (path, item) paths
      → Memᴰ m seven_methods
      → m.operation item ≡ some op
      → IsRegular op

-- A property of a response keeps its place, and its type where both sides name one.
pub record PropertyKept (name : String) (p : Property) (new_props : Dict (Ref Property))
    : Type 0 where
  pub after : Property
  pub there : get name new_props ≡ some (record { value = some after })
  pub same_type :
      (old_type new_type : String)
      → first_type p.types ≡ some old_type
      → first_type after.types ≡ some new_type
      → old_type ≡ new_type

-- Each status code stays, and with it each property of a media type that stays too.
pub record ResponsesKept (old new : Operation) : Type 0 where
  pub codes :
      (before after : Dict (Ref Response)) (code : String) (r : Response)
      → old.responses ≡ some before
      → new.responses ≡ some after
      → Memᴰ (code, record { value = some r }) before
      → (r' : Ref Response) × (get code after ≡ some r')
  pub fields :
      (before after : Dict (Ref Response)) (code : String) (r r' : Response)
      → old.responses ≡ some before
      → new.responses ≡ some after
      → Memᴰ (code, record { value = some r }) before
      → get code after ≡ some (record { value = some r' })
      → (media : String) (m m' : MediaType) (s s' : Schema) → Memᴰ (media, m) r.content
      → get media r'.content ≡ some m'
      → deref m.schema ≡ some s
      → deref m'.schema ≡ some s'
      → (name : String) (p : Property) → Memᴰ (name, record { value = some p }) s.properties
      → PropertyKept name p s'.properties

-- Every operation of the old document under these methods is still one of the new document.
pub record EndpointsKept (finder : Finder) (methods : List Method) (old_doc new_doc : Document)
    : Type 0 where
  pub kept :
      (paths : Paths) (path : String) (item : PathItem) (m : Method) (o : Operation)
      → old_doc.paths ≡ some paths
      → Memᴰ (path, item) paths
      → Memᴰ m methods
      → m.operation item ≡ some o
      → (item' : PathItem) × (n : Operation) × (find_item finder new_doc path ≡ some item')
        × (m.operation item' ≡ some n)

-- A condition on every operation that both documents have.
pub record OnDocuments (finder : Finder) (methods : List Method)
    (P : Operation → Operation → Type 0) (old_doc new_doc : Document) : Type 0 where
  pub shared :
      (before after : Paths)
      → old_doc.paths ≡ some before
      → new_doc.paths ≡ some after
      → OnShared finder methods P before after

pub record RegularDocument (doc : Document) : Type 0 where
  pub regular_paths : (paths : Paths) → doc.paths ≡ some paths → RegularPaths paths

-- What a deployment of the new document may not break.
pub record IsCompatible (finder : Finder) (old_doc new_doc : Document) : Type 0 where
  pub endpoints : EndpointsKept finder seven_methods old_doc new_doc
  pub parameters : OnDocuments finder five_methods ParametersKept old_doc new_doc
  pub body_fields : OnDocuments finder body_methods FieldsKept old_doc new_doc
  pub parameter_types : OnDocuments finder five_methods ParameterTypesKept old_doc new_doc
  pub body_types : OnDocuments finder five_methods BodyTypesKept old_doc new_doc
  pub enums : OnDocuments finder five_methods EnumsKept old_doc new_doc
  pub responses : OnDocuments finder five_methods ResponsesKept old_doc new_doc
