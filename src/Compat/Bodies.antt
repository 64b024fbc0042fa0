-- ===== src/Compat/Bodies.antt =====
-- The checks of request bodies, against their conditions.
use cvt.Base.{
  String, List, [], not, some, ◌≡◌, refl, sym, ap, subst, ◌∙◌, ◌↔◌, Memᴰ, collect, collect-eq-nil,
  on_some-eq-nil, only_if-eq-nil, collect-mem, mem-collect, mem-on_some, on_some-mem,
}
use mathlib.Core.List.Memᴰ
use mathlib.Core.List.Memᴰ.{head}
use cvt.Base.Dict.{get, of_list, has-set_of_iff, mem_of_get-of_list, get-of_list-mem}
use cvt.OpenApi.{Operation, ref_eq}
use cvt.Compat.Checks.{first_type, body_schemas, compare_request_bodies}
use cvt.Compat.Server.{typed_property, request_body_type_changes}
use cvt.Compat.Widening.{breaking_iff}
use cvt.Compat.Parameters.{not-not}
use cvt.Compat.Spec.{BodyType, typed, FieldsKept, BodyTypesKept, IsRegular, Fits}

pub compare_request_bodies-eq-nil :
    (path method : String) (old new : Operation)
    → (compare_request_bodies path method old new ≡ []) ↔ FieldsKept old new
unfolding compare_request_bodies
compare_request_bodies-eq-nil path method old new = (
  λ e. record {
    kept = λ s field in_new required.
        mem-collect (λ schema. schema.required) (body_schemas old.request_body)
          ((has-set_of_iff field _).0 (
            not-not _ (
              (only_if-eq-nil _ _).0 (
                (collect-eq-nil _ s.required).0
                  ((collect-eq-nil _ (body_schemas new.request_body)).0 e s in_new) field
                  required))));
  },
  λ h. (collect-eq-nil _ (body_schemas new.request_body)).1 λ s in_new.
      (collect-eq-nil _ s.required).1 λ field required.
        let (t, in_old, was) = h.kept s field in_new required in
        (only_if-eq-nil _ _).1 (
          ap not ((has-set_of_iff field _).1 (collect-mem (λ schema. schema.required) in_old was))),
)

abbrev typed_properties : Operation → List (String × String)
typed_properties op =
    collect (λ schema. collect typed_property schema.properties) (body_schemas op.request_body)

type_of_body :
    (name t : String) (op : Operation) → Memᴰ (name, t) (typed_properties op) → BodyType name t op
unfolding typed_property
type_of_body name t op m =
    let (s, in_body, in_schema) = mem-collect _ (body_schemas op.request_body) m in
    let (e, here, among) = mem-collect typed_property s.properties in_schema in
    let (p, value, in_types) = mem-on_some e.1.value _ among in
    let (u, first, is_pair) = mem-on_some (first_type p.types) _ in_types in
    let same : (name, t) ≡ (e.0, u) = Memᴰ.eq_of_singleton is_pair in
    let entry : (e.0, e.1) ≡ (name, record { value = some p }) =
      λ i. (ap (λ x. x.0) (sym same) i, ref_eq e.1 p value i) in
    typed s p in_body (subst (λ x. Memᴰ x s.properties) entry here)
      (first ∙ ap some (ap (λ x. x.1) (sym same)))

body_of_type :
    (name t : String) (op : Operation) → BodyType name t op → Memᴰ (name, t) (typed_properties op)
unfolding typed_property
body_of_type name t op (typed s p in_body here first) =
    collect-mem _ in_body
      (collect-mem typed_property here (on_some-mem (first_type p.types) _ first (head refl)))

type_found :
    (name t : String) (op : Operation)
    → IsRegular op
    → BodyType name t op
    → get name (of_list (typed_properties op)) ≡ some t
type_found name t op regular has_type =
    let (u, found) = get-of_list-mem name _ (body_of_type name t op has_type) in
    found
    ∙ ap some (
        regular.single_types name u t (type_of_body name u op (mem_of_get-of_list name _ found))
          has_type)

pub request_body_type_changes-eq-nil :
    (path method : String) (old new : Operation)
    → IsRegular old
    → (request_body_type_changes path method old new ≡ []) ↔ BodyTypesKept old new
unfolding request_body_type_changes
request_body_type_changes-eq-nil path method old new regular = (
  λ e. record {
    kept = λ name old_type new_type was is_new. forward e name old_type new_type was is_new;
  },
  λ h. (collect-eq-nil _ (body_schemas new.request_body)).1 λ s in_new.
      (collect-eq-nil _ s.properties).1 λ entry here. (on_some-eq-nil entry.1.value _).1 λ p value.
        (on_some-eq-nil (first_type p.types) _).1 λ new_type first.
          (on_some-eq-nil (get entry.0 _) _).1 λ old_type found. (only_if-eq-nil _ _).1 (
            (breaking_iff old_type new_type).1 (
              h.kept entry.0 old_type new_type
                (type_of_body entry.0 old_type old (mem_of_get-of_list entry.0 _ found))
                (typed s p in_new
                  (subst (λ r. Memᴰ (entry.0, r) s.properties) (ref_eq entry.1 p value) here)
                  first))),
)
  where
    forward :
        request_body_type_changes path method old new ≡ []
        → (name old_type new_type : String) → BodyType name old_type old
        → BodyType name new_type new
        → Fits old_type new_type
    forward e name old_type new_type was (typed s p in_new here first) =
        (breaking_iff old_type new_type).0 (
          (only_if-eq-nil _ _).0 (
            (on_some-eq-nil (get name _) _).0
              ((on_some-eq-nil (first_type p.types) _).0
                ((collect-eq-nil _ s.properties).0
                  ((collect-eq-nil _ (body_schemas new.request_body)).0 e s in_new) _ here)
                new_type first)
              old_type (type_found name old_type old regular was)))
