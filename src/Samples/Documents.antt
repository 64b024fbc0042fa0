-- ===== src/Samples/Documents.antt =====
-- A document for the tests: one path with one operation, whose query parameter has the given type
-- and enumeration, and proofs that it is regular and its maps hold each key once.
use cvt.Base.{String, List, [], ◌∷◌, false, none, some, ◌≡◌, sym, ap, ◌∙◌, Memᴰ, some_inj, subst}
use mathlib.Core.List.Memᴰ
use mathlib.Core.List.Memᴰ.{head, tail}
use cvt.OpenApi.{
  Ref, Property, Schema, MediaType, Parameter, Response, Operation, PathItem, Document, deref,
}
use cvt.Compat.Checks as Checks
use cvt.Compat.Endpoints.{Method, seven_methods}
use cvt.Compat.Reflexive.{DistinctResponses, DistinctKeys}
use cvt.Base.Dict.{Dict, Distinct}
use cvt.Compat.Spec.{BodyType, typed, IsRegular, RegularDocument}

abbrev pub property_of : String → Ref Property
property_of t = record { value = some (record { types = t ∷ [] }) }

abbrev pub body : Schema
body = record {
  types = "object" ∷ [];
  enum = [];
  required = "name" ∷ [];
  properties = ("name", property_of "string") ∷ [];
}

abbrev pub media : MediaType
media = record { schema = some (record { value = some body }) }

abbrev pub page : String → List String → Parameter
page t values = record {
  name = "page";
  required = false;
  schema = some (record {
    value = some (record { types = t ∷ []; enum = values; required = []; properties = [] });
  });
}

abbrev pub reply : Response
reply = record { content = ("application/json", media) ∷ [] }

abbrev pub update : String → List String → Operation
update t values = record {
  parameters = record { value = some (page t values) } ∷ [];
  request_body =
      some (record { value = some (record { content = ("application/json", media) ∷ [] }) });
  responses = some (("200", record { value = some reply }) ∷ []);
}

abbrev pub only_put : Operation → PathItem
only_put op = record {
  get_op = none;
  post_op = none;
  put_op = some op;
  delete_op = none;
  patch_op = none;
  head_op = none;
  options_op = none;
}

abbrev pub document : String → List String → Document
document t values = record { paths = some (("/users/{id}", only_put (update t values)) ∷ []) }

pub put_alone :
    (op : Operation) (m : Method) (o : Operation)
    → Memᴰ m seven_methods
    → m.operation (only_put op) ≡ some o
    → op ≡ o
put_alone op m o (head e) found = cc (rw e at found)
put_alone op m o (tail (head e)) found = cc (rw e at found)
put_alone op m o (tail (tail (head e))) found = some_inj (rw e at found)
put_alone op m o (tail (tail (tail (head e)))) found = cc (rw e at found)
put_alone op m o (tail (tail (tail (tail (head e))))) found = cc (rw e at found)
put_alone op m o (tail (tail (tail (tail (tail (head e)))))) found = cc (rw e at found)
put_alone op m o (tail (tail (tail (tail (tail (tail (head e))))))) found = cc (rw e at found)
put_alone op m o (tail (tail (tail (tail (tail (tail (tail none_left))))))) found =
    elim none_left [ ]

update-IsRegular : (t : String) (values : List String) → IsRegular (update t values)
unfolding Checks.body_schemas
update-IsRegular t values = record {
  single_names = λ p q was is_new name.
      let first = Memᴰ.eq_of_singleton was in
      let second = Memᴰ.eq_of_singleton is_new in some_inj (ap (λ x. x.value) (first ∙ sym second));
  single_types = λ name u v was is_new. string_only name u was ∙ sym (string_only name v is_new);
}
  where
    string_only : (name u : String) → BodyType name u (update t values) → u ≡ "string"
    string_only name u (typed s p in_body here first) =
        let same : s ≡ body = Memᴰ.eq_of_singleton in_body in
        let entry : ◌≡◌ {A = String × Ref Property} (name, record { value = some p })
            ("name", property_of "string") =
          Memᴰ.eq_of_singleton (rw same at here) in
        let prop : p ≡ record { types = "string" ∷ [] } = some_inj (ap (λ x. x.1.value) entry) in
        some_inj (sym first ∙ ap (λ x. Checks.first_type x.types) prop)

pub document_is_regular : (t : String) (values : List String) → RegularDocument (document t values)
document_is_regular t values = record {
  regular_paths = λ paths was. record {
    regular = λ path item m op here row found.
        let same = some_inj was in
        let entry : ◌≡◌ {A = String × PathItem} (path, item)
            ("/users/{id}", only_put (update t values)) =
          Memᴰ.eq_of_singleton (rw (← same) at here) in
        let same_item : item ≡ only_put (update t values) = ap (λ x. x.1) entry in
        let same_op = put_alone (update t values) m op row (rw same_item at found) in
        subst IsRegular same_op (update-IsRegular t values);
  };
}

update_once : (t : String) (values : List String) → DistinctResponses (update t values)
update_once t values = record {
  codes = λ rs was. subst Distinct (some_inj was) (tt, tt);
  media = λ rs code r was here.
      subst (λ x. Distinct x.content) (sym (its_reply rs code r was here)) (tt, tt);
  fields = λ rs code r name m s was here among is_schema.
      let own : ◌≡◌ {A = String × MediaType} (name, m) ("application/json", media) =
        Memᴰ.eq_of_singleton
          (subst (λ x. Memᴰ (name, m) x.content) (its_reply rs code r was here) among) in
      let same : s ≡ body = some_inj (sym is_schema ∙ ap (λ x. deref x.1.schema) own) in
      subst (λ x. Distinct x.properties) (sym same) (tt, tt);
}
  where
    its_reply :
        (rs : Dict (Ref Response)) (code : String) (r : Response)
        → (update t values).responses ≡ some rs
        → Memᴰ (code, record { value = some r }) rs
        → r ≡ reply
    its_reply rs code r was here =
        let entry : ◌≡◌ {A = String × Ref Response} (code, record { value = some r })
            ("200", record { value = some reply }) =
          Memᴰ.eq_of_singleton
            (subst (λ x. Memᴰ (code, record { value = some r }) x) (sym (some_inj was)) here) in
        some_inj (ap (λ x. x.1.value) entry)

pub document_once : (t : String) (values : List String) → DistinctKeys (document t values)
document_once t values = record {
  paths_once = λ paths was. subst Distinct (some_inj was) (tt, tt);
  responses_once = λ paths path item m op was here row found.
      let entry : ◌≡◌ {A = String × PathItem} (path, item)
          ("/users/{id}", only_put (update t values)) =
        Memᴰ.eq_of_singleton (subst (λ x. Memᴰ (path, item) x) (sym (some_inj was)) here) in
      let same_item : item ≡ only_put (update t values) = ap (λ x. x.1) entry in
      let same_op = put_alone (update t values) m op row (rw same_item at found) in
      subst DistinctResponses same_op (update_once t values);
}
