-- ===== src/Compat/Correct.antt =====
-- The server's engine against the specification.
use cvt.Base.{
  String, List, [], ◌∷◌, ◌++◌, true, false, Option, none, some, ◌≡◌, refl, ◌↔◌, inl, inr, Memᴰ,
  collect-eq-nil, on_some-eq-nil, append-eq-nil, Option-cases,
}
use cvt.OpenApi.{Operation, PathItem, Paths, Document, Finder}
use cvt.Compat.Change.{BreakingChange}
use cvt.Compat.Endpoints.{
  Method, body_methods, five_methods, seven_methods, Check, OnFound, check_shared-eq-nil,
  five_sub_seven, body_sub_seven,
}
use cvt.Compat.Checks.{
  check_removed_method, check_removed_endpoints, check_documents, parameter_type_changes,
}
use cvt.Compat.Server.{
  request_body_type_changes, check_added_required_parameters, check_added_required_body_fields,
  check_type_changes, check_removed_enum_values, check_response_changes, compare_schemas,
}
use cvt.Compat.Parameters.{
  added_parameters-eq-nil, parameter_type_changes-eq-nil, parameter_enum_changes-eq-nil,
}
use cvt.Compat.Bodies.{compare_request_bodies-eq-nil, request_body_type_changes-eq-nil}
use cvt.Compat.Responses.{compare_responses-eq-nil}
use cvt.Compat.Spec.{
  ParameterTypesKept, BodyTypesKept, EndpointsKept, OnDocuments, IsRegular, RegularDocument,
  IsCompatible,
}

module _ (finder : Finder) where
  check_removed_method-eq-nil :
      (path : String) (item : PathItem) (new_item : Option PathItem) (m : Method)
      → (check_removed_method path item new_item m ≡ []) ↔ (
          (o : Operation)
          → m.operation item ≡ some o
          → (item' : PathItem) × (n : Operation) × (new_item ≡ some item')
            × (m.operation item' ≡ some n))
  unfolding check_removed_method
  check_removed_method-eq-nil path item none m = (
    λ e o is_old. cc ((on_some-eq-nil (m.operation item) _).0 e o is_old),
    λ h. (on_some-eq-nil (m.operation item) _).1 λ o is_old. cc (h o is_old).2,
  )
  check_removed_method-eq-nil path item (some item') m = (
    λ e o is_old. elim (Option-cases (m.operation item')) [
      | inl missing ↦ cc (rw missing at ((on_some-eq-nil (m.operation item) _).0 e o is_old))
      | inr (n, there) ↦ (item', n, refl, there)
    ],
    λ h. (on_some-eq-nil (m.operation item) _).1 λ o is_old.
        let (found, n, same, there) = h o is_old in
        let there' : m.operation item' ≡ some n = cc in rw there',
  )

  check_removed_endpoints-eq-nil :
      (methods : List Method) (old_doc new_doc : Document)
      → (check_removed_endpoints finder methods old_doc new_doc ≡ [])
        ↔ EndpointsKept finder methods old_doc new_doc
  unfolding check_removed_endpoints
  check_removed_endpoints-eq-nil methods old_doc new_doc = (
    λ e. record {
      kept = λ paths path item m o is_old here row has_op.
          (check_removed_method-eq-nil path item _ m).0
            ((collect-eq-nil _ methods).0
              ((collect-eq-nil _ paths).0 ((on_some-eq-nil old_doc.paths _).0 e paths is_old)
                (path, item) here)
              m row)
            o has_op;
    },
    λ h. (on_some-eq-nil old_doc.paths _).1 λ paths is_old. (collect-eq-nil _ paths).1 λ entry here.
        (collect-eq-nil _ methods).1 λ m row.
          (check_removed_method-eq-nil entry.0 entry.1 _ m).1
            λ o has_op. h.kept paths entry.0 entry.1 m o is_old here row has_op,
  )

  found-IsRegular :
      (methods : List Method) (doc : Document) (paths : Paths)
      → ((m : Method) → Memᴰ m methods → Memᴰ m seven_methods)
      → RegularDocument doc
      → doc.paths ≡ some paths
      → OnFound finder methods paths IsRegular
  found-IsRegular methods doc paths named regular is_old path item m o found row has_op =
      let (key, here) = finder.find_mem paths path item found in
      (regular.regular_paths paths is_old).regular key item m o here (named m row) has_op

  check_documents-eq-nil :
      (methods : List Method) (check : Check BreakingChange) (P : Operation → Operation → Type 0)
      (old_doc new_doc : Document)
      → ((m : Method) → Memᴰ m methods → Memᴰ m seven_methods)
      → RegularDocument old_doc
      → ((path name : String) (o n : Operation) → IsRegular o → (check path name o n ≡ []) ↔ P o n)
      → (check_documents finder methods check old_doc new_doc ≡ [])
        ↔ OnDocuments finder methods P old_doc new_doc
  unfolding check_documents
  check_documents-eq-nil methods check P old_doc new_doc named regular iff = (
    λ e. record {
      shared = λ before after is_old is_new.
          (check_shared-eq-nil finder methods before check P IsRegular after
              (found-IsRegular methods old_doc before named regular is_old) iff).0
            ((on_some-eq-nil old_doc.paths _).0 ((on_some-eq-nil new_doc.paths _).0 e after is_new)
              before is_old);
    },
    λ h. (on_some-eq-nil new_doc.paths _).1 λ after is_new.
        (on_some-eq-nil old_doc.paths _).1 λ before is_old.
          (check_shared-eq-nil finder methods before check P IsRegular after
              (found-IsRegular methods old_doc before named regular is_old) iff).1
            (h.shared before after is_old is_new),
  )

-- `checkTypeChanges` reports nothing when parameters and bodies both keep their types.
record TypesKept (o n : Operation) : Type 0 where
  of_parameters : ParameterTypesKept o n
  of_bodies : BodyTypesKept o n

types-eq-nil :
    (path method : String) (o n : Operation)
    → IsRegular o
    → (parameter_type_changes path method o n ++ request_body_type_changes path method o n ≡ [])
      ↔ TypesKept o n
types-eq-nil path method o n regular = (
  λ e.
      let parts = (append-eq-nil (parameter_type_changes path method o n) _).0 e in
      record {
        of_parameters = (parameter_type_changes-eq-nil path method o n regular).0 parts.0;
        of_bodies = (request_body_type_changes-eq-nil path method o n regular).0 parts.1;
      },
  λ h. (append-eq-nil (parameter_type_changes path method o n) _).1 (
    (parameter_type_changes-eq-nil path method o n regular).1 h.of_parameters,
    (request_body_type_changes-eq-nil path method o n regular).1 h.of_bodies,
  ),
)

split_types :
    {finder : Finder} {methods : List Method} {old_doc new_doc : Document}
    → OnDocuments finder methods TypesKept old_doc new_doc
    → OnDocuments finder methods ParameterTypesKept old_doc new_doc
      × OnDocuments finder methods BodyTypesKept old_doc new_doc
split_types h = (
  record {
    shared = λ b a u v. record {
      each = λ p i j m o n c d e f g. ((h.shared b a u v).each p i j m o n c d e f g).of_parameters;
    };
  },
  record {
    shared = λ b a u v. record {
      each = λ p i j m o n c d e f g. ((h.shared b a u v).each p i j m o n c d e f g).of_bodies;
    };
  },
)

join_types :
    {finder : Finder} {methods : List Method} {old_doc new_doc : Document}
    → OnDocuments finder methods ParameterTypesKept old_doc new_doc
    → OnDocuments finder methods BodyTypesKept old_doc new_doc
    → OnDocuments finder methods TypesKept old_doc new_doc
join_types h k = record {
  shared = λ b a u v. record {
    each = λ p i j m o n c d e f g. record {
      of_parameters = (h.shared b a u v).each p i j m o n c d e f g;
      of_bodies = (k.shared b a u v).each p i j m o n c d e f g;
    };
  };
}

-- The answer is the emptiness of six lists in a row.
none_in_all :
    {A : Type 0} (a b c d e f : List A)
    → (a ++ (b ++ (c ++ (d ++ (e ++ f)))) ≡ [])
      ↔ ((a ≡ []) × (b ≡ []) × (c ≡ []) × (d ≡ []) × (e ≡ []) × (f ≡ []))
none_in_all a b c d e f = (
  λ h.
      let (ha, h₁) = (append-eq-nil a _).0 h in
      let (hb, h₂) = (append-eq-nil b _).0 h₁ in
      let (hc, h₃) = (append-eq-nil c _).0 h₂ in
      let (hd, h₄) = (append-eq-nil d _).0 h₃ in
      let (he, hf) = (append-eq-nil e f).0 h₄ in (ha, hb, hc, hd, he, hf),
  λ h. rw (h.0, h.1, h.2, h.3, h.4, h.5),
)

pub is_empty :
    (cs : List BreakingChange) → (elim cs [ [] ↦ true | c ∷ ds ↦ false ] ≡ true) ↔ (cs ≡ [])
is_empty [] = (λ e. refl, λ e. refl)
is_empty (c ∷ cs) = (λ e. cc, λ e. cc)

-- The server's comparison answers "compatible" exactly when the new document keeps every endpoint,
-- asks no new parameter or body field, keeps or widens each parameter's and body property's type,
-- keeps each enumeration's values, and keeps each response with its properties: for an old
-- document in which a parameter name stands for one parameter and a body property has one type.
pub compare_schemas-IsCompatible :
    (finder : Finder) (old_doc new_doc : Document)
    → RegularDocument old_doc
    → ((compare_schemas finder old_doc new_doc).1 ≡ true) ↔ IsCompatible finder old_doc new_doc
unfolding compare_schemas check_added_required_parameters check_added_required_body_fields
    check_type_changes check_removed_enum_values check_response_changes
compare_schemas-IsCompatible finder old_doc new_doc regular = (
  λ e.
      let parts = (none_in_all _ _ _ _ _ _).0 ((is_empty _).0 e) in
      let types = split_types (
        (check_documents-eq-nil finder five_methods _ TypesKept old_doc new_doc five_sub_seven
            regular types-eq-nil).0
          parts.3) in
      record {
        endpoints = (check_removed_endpoints-eq-nil finder seven_methods old_doc new_doc).0 parts.0;
        parameters =
            (check_documents-eq-nil finder five_methods _ _ old_doc new_doc five_sub_seven regular
                (λ p m o n r. added_parameters-eq-nil p m o n)).0
              parts.1;
        body_fields =
            (check_documents-eq-nil finder body_methods _ _ old_doc new_doc body_sub_seven regular
                (λ p m o n r. compare_request_bodies-eq-nil p m o n)).0
              parts.2;
        parameter_types = types.0;
        body_types = types.1;
        enums =
            (check_documents-eq-nil finder five_methods _ _ old_doc new_doc five_sub_seven regular
                (parameter_enum_changes-eq-nil finder.range_order)).0
              parts.4;
        responses =
            (check_documents-eq-nil finder five_methods _ _ old_doc new_doc five_sub_seven regular
                (λ p m o n r. compare_responses-eq-nil p m o n)).0
              parts.5;
      },
  λ h. (is_empty _).1 (
      (none_in_all _ _ _ _ _ _).1 (
        (check_removed_endpoints-eq-nil finder seven_methods old_doc new_doc).1 h.endpoints,
        (check_documents-eq-nil finder five_methods _ _ old_doc new_doc five_sub_seven regular
              (λ p m o n r. added_parameters-eq-nil p m o n)).1
            h.parameters,
        (check_documents-eq-nil finder body_methods _ _ old_doc new_doc body_sub_seven regular
              (λ p m o n r. compare_request_bodies-eq-nil p m o n)).1
            h.body_fields,
        (check_documents-eq-nil finder five_methods _ TypesKept old_doc new_doc five_sub_seven
              regular types-eq-nil).1
            (join_types h.parameter_types h.body_types),
        (check_documents-eq-nil finder five_methods _ _ old_doc new_doc five_sub_seven regular
              (parameter_enum_changes-eq-nil finder.range_order)).1
            h.enums,
        (check_documents-eq-nil finder five_methods _ _ old_doc new_doc five_sub_seven regular
              (λ p m o n r. compare_responses-eq-nil p m o n)).1
            h.responses,
      )),
)
