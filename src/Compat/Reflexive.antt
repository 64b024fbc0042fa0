-- ===== src/Compat/Reflexive.antt =====
-- A document compared with itself.
use cvt.Base.{some_inj, String, List, true, some, ◌≡◌, refl, sym, ap, subst, ◌∙◌, inl, Memᴰ}
use cvt.Base.Dict.{Dict, Distinct, get, get_of_mem}
use cvt.OpenApi.{
  Ref, Schema, Response, MediaType, Operation, PathItem, Paths, Document, Finder, deref,
}
use cvt.Compat.Endpoints.{
  Method, body_methods, five_methods, seven_methods, five_sub_seven, body_sub_seven,
}
use cvt.Compat.Checks.{find_item}
use cvt.Compat.Server.{compare_schemas}
use cvt.Compat.Correct.{compare_schemas-IsCompatible}
use cvt.Compat.Spec.{
  ParametersKept, FieldsKept, ParameterTypesKept, BodyTypesKept, EnumsKept, ResponsesKept,
  OnDocuments, IsRegular, RegularDocument,
}

-- The maps of a document that Go's `map` type keeps without repeated keys.
pub record DistinctResponses (op : Operation) : Type 0 where
  pub codes : (rs : Dict (Ref Response)) → op.responses ≡ some rs → Distinct rs
  pub media :
      (rs : Dict (Ref Response)) (code : String) (r : Response)
      → op.responses ≡ some rs
      → Memᴰ (code, record { value = some r }) rs
      → Distinct r.content
  pub fields :
      (rs : Dict (Ref Response)) (code : String) (r : Response) (media : String) (m : MediaType)
      (s : Schema)
      → op.responses ≡ some rs
      → Memᴰ (code, record { value = some r }) rs
      → Memᴰ (media, m) r.content
      → deref m.schema ≡ some s
      → Distinct s.properties

pub record DistinctKeys (doc : Document) : Type 0 where
  pub paths_once : (paths : Paths) → doc.paths ≡ some paths → Distinct paths
  pub responses_once :
      (paths : Paths) (path : String) (item : PathItem) (m : Method) (op : Operation)
      → doc.paths ≡ some paths
      → Memᴰ (path, item) paths
      → Memᴰ m seven_methods
      → m.operation item ≡ some op
      → DistinctResponses op

parameters_refl : (op : Operation) → ParametersKept op op
parameters_refl op = record { kept = λ p here required. (p, here, refl) }

fields_refl : (op : Operation) → FieldsKept op op
fields_refl op = record { kept = λ s field in_body required. (s, in_body, required) }

parameter_types_refl : (op : Operation) → IsRegular op → ParameterTypesKept op op
parameter_types_refl op regular = record {
  kept = λ p q s t old_type was is_new name old_schema new_schema first.
      let same : p ≡ q = regular.single_names p q was is_new name in
      let same_schema : s ≡ t = cc in inl (rw (← same_schema, first));
}

body_types_refl : (op : Operation) → IsRegular op → BodyTypesKept op op
body_types_refl op regular = record {
  kept = λ name old_type new_type was is_new.
      inl (regular.single_types name old_type new_type was is_new);
}

enums_refl : (op : Operation) → IsRegular op → EnumsKept op op
enums_refl op regular = record {
  kept = λ p q s t v was is_new name old_schema new_schema some_left m.
      let same : p ≡ q = regular.single_names p q was is_new name in
      let same_schema : s ≡ t = cc in subst (λ x. Memᴰ v x.enum) same_schema m;
}

responses_refl : (op : Operation) → DistinctResponses op → ResponsesKept op op
responses_refl op once = record {
  codes = λ before after code r was is_new here.
      let same : before ≡ after = cc in
      (
        record { value = some r },
        subst (λ x. get code x ≡ some (record { value = some r })) same
            (get_of_mem code before (once.codes before was) here),
      );
  fields =
      λ before after code r r' was is_new here found media m m' s s' among stays old_s new_s name p
          listed.
        let same : before ≡ after = cc in
        let own = get_of_mem code before (once.codes before was) here in
        let same_refs : ◌≡◌ {A = Ref Response} (record { value = some r })
            (record { value = some r' }) =
          some_inj (sym own ∙ rw (← same) at found) in
        let same_r : r ≡ r' = some_inj (ap (λ x. x.value) same_refs) in
        let own_media = get_of_mem media r.content (once.media before code r was here) among in
        let same_m : m ≡ m' =
          some_inj
            (sym own_media ∙ subst (λ x. get media x.content ≡ some m') (sym same_r) stays) in
        let same_s : s ≡ s' = cc in
        record {
          after = p;
          there =
              subst (λ x. get name x.properties ≡ some (record { value = some p })) same_s
                (get_of_mem name s.properties
                  (once.fields before code r media m s was here among old_s) listed);
          same_type = λ old_type new_type first first'. some_inj (sym first ∙ first');
        };
}

reflexive_shared :
    {P : Operation → Operation → Type 0} (finder : Finder) (methods : List Method) (doc : Document)
    → DistinctKeys doc
    → ((m : Method) → Memᴰ m methods → Memᴰ m seven_methods)
    → ((paths : Paths) (path : String) (item : PathItem) (m : Method) (op : Operation)
        → doc.paths ≡ some paths
        → Memᴰ (path, item) paths
        → Memᴰ m seven_methods
        → m.operation item ≡ some op
        → P op op)
    → OnDocuments finder methods P doc doc
reflexive_shared {P} finder methods doc once named holds = record {
  shared = λ before after was is_new. record {
    each = λ path old_item new_item m o n here found row has_old has_new.
        let same : before ≡ after = cc in
        let own =
          finder.find_exact after path new_item
            (get_of_mem path after (once.paths_once after is_new) here) in
        let same_item : old_item ≡ new_item =
          some_inj (sym (subst (λ x. finder.find x path ≡ some old_item) same found) ∙ own) in
        let same_op : n ≡ o =
          some_inj (sym has_new ∙ subst (λ x. m.operation x ≡ some o) same_item has_old) in
        subst (P o) (sym same_op) (
          holds after path new_item m o is_new here (named m row)
            (subst (λ x. m.operation x ≡ some o) same_item has_old));
  };
}

-- A document is compatible with itself: where its maps hold each key once, a parameter name stands
-- for one parameter in an operation, and a body property has one type in it.
pub compare_schemas_self :
    (finder : Finder) (doc : Document)
    → RegularDocument doc
    → DistinctKeys doc
    → (compare_schemas finder doc doc).1 ≡ true
unfolding find_item
compare_schemas_self finder doc regular once =
    (compare_schemas-IsCompatible finder doc doc regular).1 (record {
      endpoints = record {
        kept = λ paths path item m o was here row has_op. (
          item,
          o,
          rw (was, find_item)
              (finder.find_exact paths path item
                (get_of_mem path paths (once.paths_once paths was) here)),
          has_op,
        );
      };
      parameters =
          reflexive_shared finder five_methods doc once five_sub_seven
            (λ paths path item m op was here row has_op. parameters_refl op);
      body_fields =
          reflexive_shared finder body_methods doc once body_sub_seven
            (λ paths path item m op was here row has_op. fields_refl op);
      parameter_types =
          reflexive_shared finder five_methods doc once five_sub_seven
            (λ paths path item m op was here row has_op.
              parameter_types_refl op (known paths path item m op was here row has_op));
      body_types =
          reflexive_shared finder five_methods doc once five_sub_seven
            (λ paths path item m op was here row has_op.
              body_types_refl op (known paths path item m op was here row has_op));
      enums =
          reflexive_shared finder five_methods doc once five_sub_seven
            (λ paths path item m op was here row has_op.
              enums_refl op (known paths path item m op was here row has_op));
      responses =
          reflexive_shared finder five_methods doc once five_sub_seven
            (λ paths path item m op was here row has_op.
              responses_refl op (once.responses_once paths path item m op was here row has_op));
    })
  where
    known :
        (paths : Paths) (path : String) (item : PathItem) (m : Method) (op : Operation)
        → doc.paths ≡ some paths
        → Memᴰ (path, item) paths
        → Memᴰ m seven_methods
        → m.operation item ≡ some op
        → IsRegular op
    known paths path item m op was here row has_op =
        (regular.regular_paths paths was).regular path item m op here row has_op
