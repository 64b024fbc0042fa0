-- ===== src/OpenApi.antt =====
-- The parts of a parsed OpenAPI document (`openapi3.T` of kin-openapi) that the repository's code
-- reads. The document itself is data of that package: pointers that the code tests against nil are
-- options, maps are `Dict`, and a nil map or slice reads as an empty one, as it does in Go. The
-- pointers that a map or a slice holds are not nil. An enumeration's values are the texts that
-- `fmt.Sprint` makes of them, since nothing else of them is read.
use cvt.Base.{String, List, Bool, Option, none, some, ◌≡◌, ◌↔◌, Memᴰ}
use cvt.Base.Dict.{Dict, get}

-- `*openapi3.XRef`: the reference's `Value` may be nil.
pub record Ref {ℓ} (A : Type ℓ) : Type ℓ where
  pub value : Option A

-- A property's schema, of which the engines read the types alone.
pub record Property : Type 0 where
  pub types : List String

pub record Schema : Type 0 where
  pub types : List String
  pub enum : List String
  pub required : List String
  pub properties : Dict (Ref Property)

pub record MediaType : Type 0 where
  pub schema : Option (Ref Schema)

abbrev pub Content : Type 0
Content = Dict MediaType

pub record Parameter : Type 0 where
  pub name : String
  pub required : Bool
  pub schema : Option (Ref Schema)

pub record RequestBody : Type 0 where
  pub content : Content

pub record Response : Type 0 where
  pub content : Content

pub record Operation : Type 0 where
  pub parameters : List (Ref Parameter)
  pub request_body : Option (Ref RequestBody)
  pub responses : Option (Dict (Ref Response))

pub record PathItem : Type 0 where
  pub get_op : Option Operation
  pub post_op : Option Operation
  pub put_op : Option Operation
  pub delete_op : Option Operation
  pub patch_op : Option Operation
  pub head_op : Option Operation
  pub options_op : Option Operation

abbrev pub Paths : Type 0
Paths = Dict PathItem

pub record Document : Type 0 where
  pub paths : Option Paths

-- `ref.Value` behind a pointer to the reference that may itself be nil.
abbrev pub deref {ℓ} : {A : Type ℓ} → Option (Ref A) → Option A
deref none = none
deref (some r) = r.value

-- A `range` over a set of texts visits each of them once, in an order that Go does not fix.
pub record RangeOrder : Type 0 where
  pub visit : List String → List String
  pub visit_mem_iff : (v : String) (vs : List String) → Memᴰ v (visit vs) ↔ Memᴰ v vs

-- `openapi3.Paths.Find` is the package's. It is documented to return the path item that a key
-- names, and to look for one up to the names of the template's variables where no key is equal:
-- so what it returns is an item of the map, and a key of the map finds its own.
--
-- What a comparison takes from outside the repository: `Find`, and the order in which this engine's
-- loops visit the values of an enumeration.
pub record Finder : Type 0 where
  pub range_order : RangeOrder
  pub find : Paths → String → Option PathItem
  pub find_exact :
      (paths : Paths) (path : String) (item : PathItem)
      → get path paths ≡ some item
      → find paths path ≡ some item
  pub find_mem :
      (paths : Paths) (path : String) (item : PathItem)
      → find paths path ≡ some item
      → (key : String) × Memᴰ (key, item) paths

-- A pointer that is known not to be nil.
pub ref_eq {ℓ} : {A : Type ℓ} (r : Ref A) (a : A) → r.value ≡ some a → r ≡ record { value = some a }
ref_eq r a e = λ i. record { value = e i }
