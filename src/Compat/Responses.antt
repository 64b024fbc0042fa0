-- ===== src/Compat/Responses.antt =====
-- The server's checks of responses, against their conditions.
use cvt.Base.{
  String, [], not, Option, none, some, ◌≡◌, sym, ap, subst, ◌∙◌, ◌↔◌, ◌⊎◌, inl, inr, Memᴰ,
  collect-eq-nil, on_some-eq-nil, only_if-eq-nil, Option-cases, eq_iff,
}
use cvt.Base.Dict.{Dict, get}
use cvt.OpenApi.{Ref, Property, Schema, MediaType, Response, Operation, deref, ref_eq}
use cvt.Compat.Checks.{first_type}
use cvt.Compat.Server.{
  get_value, compare_property, compare_response_schemas, compare_response, compare_responses,
}
use cvt.Compat.Parameters.{not-not}
use cvt.Compat.Spec.{PropertyKept, ResponsesKept}

-- A reference that is found with a value.
get_value-eq-some :
    {A : Type 0} (name : String) (props : Dict (Ref A)) (q : A)
    → get_value name props ≡ some q
    → get name props ≡ some (record { value = some q })
get_value-eq-some name props q e = elim (Option-cases (get name props)) [
  | inl missing ↦ cc (rw missing at e)
  | inr (r, found) ↦ found ∙ ap some (ref_eq r q (rw found at e))
]

compare_property-eq-nil :
    (path method code : String) (props : Dict (Ref Property)) (name : String) (p : Property)
    → (compare_property path method code props (name, record { value = some p }) ≡ [])
      ↔ PropertyKept name p props
unfolding compare_property
compare_property-eq-nil path method code props name p = (
  λ e. elim (Option-cases (get_value name props)) [
    | inl missing ↦ cc (rw (missing, compare_property) at e)
    | inr (q, found) ↦ record {
      after = q;
      there = get_value-eq-some name props q found;
      same_type = λ old_type new_type first first'. (eq_iff old_type new_type).0 (
          not-not _ (
            (only_if-eq-nil _ _).0 (
              (on_some-eq-nil (first_type q.types) _).0
                ((on_some-eq-nil (first_type p.types) _).0 (rw (found, compare_property) at e)
                  old_type first)
                new_type first')));
    }
  ],
  λ h.
      rw (h.there, compare_property)
        ((on_some-eq-nil (first_type p.types) _).1 λ old_type first.
          (on_some-eq-nil (first_type h.after.types) _).1 λ new_type first'.
            (only_if-eq-nil _ _).1
              (ap not ((eq_iff old_type new_type).1 (h.same_type old_type new_type first first')))),
)

-- All properties of an old schema.
abbrev SchemaKept : Option (Ref Schema) → Option (Ref Schema) → Type 0
SchemaKept old new =
    (s s' : Schema) (name : String) (p : Property)
    → deref old ≡ some s
    → deref new ≡ some s'
    → Memᴰ (name, record { value = some p }) s.properties
    → PropertyKept name p s'.properties

compare_response_schemas-eq-nil :
    (path method code : String) (old new : Option (Ref Schema))
    → (compare_response_schemas path method code old new ≡ []) ↔ SchemaKept old new
unfolding compare_response_schemas compare_property
compare_response_schemas-eq-nil path method code old new = (
  λ e s s' name p is_old is_new here.
      (compare_property-eq-nil path method code s'.properties name p).0 (
        (collect-eq-nil _ s.properties).0
          ((on_some-eq-nil (deref new) _).0 ((on_some-eq-nil (deref old) _).0 e s is_old) s' is_new)
          _ here),
  λ h. (on_some-eq-nil (deref old) _).1 λ s is_old. (on_some-eq-nil (deref new) _).1 λ s' is_new.
      (collect-eq-nil _ s.properties).1 λ entry here.
        property s s' entry (h s s' entry.0) is_old is_new here (Option-cases entry.1.value),
)
  where
    property :
        (s s' : Schema) (entry : String × Ref Property)
        → ((p : Property)
            → deref old ≡ some s
            → deref new ≡ some s'
            → Memᴰ (entry.0, record { value = some p }) s.properties
            → PropertyKept entry.0 p s'.properties)
        → deref old ≡ some s
        → deref new ≡ some s'
        → Memᴰ entry s.properties
        → (entry.1.value ≡ none) ⊎ ((p : Property) × (entry.1.value ≡ some p))
        → compare_property path method code s'.properties entry ≡ []
    property s s' entry h is_old is_new here (inl missing) = rw (missing, compare_property)
    property s s' entry h is_old is_new here (inr (p, value)) =
        let e = ref_eq entry.1 p value in
        subst (λ r. compare_property path method code s'.properties (entry.0, r) ≡ []) (sym e)
          ((compare_property-eq-nil path method code s'.properties entry.0 p).1
            (h p is_old is_new (subst (λ r. Memᴰ (entry.0, r) s.properties) e here)))

-- One status code of the old operation.
record ResponseKept (code : String) (r : Response) (after : Dict (Ref Response)) : Type 0 where
  there : (r' : Ref Response) × (get code after ≡ some r')
  fields :
      (r' : Response)
      → get code after ≡ some (record { value = some r' })
      → (media : String) (m m' : MediaType) → Memᴰ (media, m) r.content
      → get media r'.content ≡ some m'
      → SchemaKept m.schema m'.schema

compare_response-eq-nil :
    (path method : String) (after : Dict (Ref Response)) (code : String) (r : Response)
    → (compare_response path method after (code, record { value = some r }) ≡ [])
      ↔ ResponseKept code r after
unfolding compare_response
compare_response-eq-nil path method after code r = (
  λ e. elim (Option-cases (get code after)) [
    | inl missing ↦ cc (rw (missing, compare_response) at e)
    | inr (r', found) ↦ record {
      there = (r', found);
      fields = λ s is_there media m m' here stays.
          (compare_response_schemas-eq-nil path method code m.schema m'.schema).0 (
            (on_some-eq-nil (get media s.content) _).0
              ((collect-eq-nil _ r.content).0 (rw (is_there, compare_response) at e) (media, m)
                here)
              m' stays);
    }
  ],
  λ h. visit h h.there.0 h.there.1 (Option-cases h.there.0.value),
)
  where
    visit :
        ResponseKept code r after
        → (r' : Ref Response) → get code after ≡ some r'
        → (r'.value ≡ none) ⊎ ((s : Response) × (r'.value ≡ some s))
        → compare_response path method after (code, record { value = some r }) ≡ []
    visit h r' found (inl empty) = rw (found, compare_response, empty)
    visit h r' found (inr (s, value)) =
        rw (found, compare_response, value)
          ((collect-eq-nil _ r.content).1 λ entry here.
            (on_some-eq-nil (get entry.0 s.content) _).1 λ m' stays.
              (compare_response_schemas-eq-nil path method code entry.1.schema m'.schema).1
                (h.fields s (found ∙ ap some (ref_eq r' s value)) entry.0 entry.1 m' here stays))

pub compare_responses-eq-nil :
    (path method : String) (old new : Operation)
    → (compare_responses path method old new ≡ []) ↔ ResponsesKept old new
unfolding compare_responses compare_response
compare_responses-eq-nil path method old new = (
  λ e. record {
    codes = λ before after code r is_old is_new here.
        (each e before after code r is_old is_new here).there;
    fields =
        λ before after code r r' is_old is_new here found media m m' s s' among stays old_s new_s
            name p listed.
          (each e before after code r is_old is_new here).fields r' found media m m' among stays s
            s' name p old_s new_s listed;
  },
  λ h. (on_some-eq-nil old.responses _).1 λ before is_old.
      (on_some-eq-nil new.responses _).1 λ after is_new.
        (collect-eq-nil _ before).1
          λ entry here. one h before after entry is_old is_new here (Option-cases entry.1.value),
)
  where
    each :
        compare_responses path method old new ≡ []
        → (before after : Dict (Ref Response)) (code : String) (r : Response)
        → old.responses ≡ some before
        → new.responses ≡ some after
        → Memᴰ (code, record { value = some r }) before
        → ResponseKept code r after
    each e before after code r is_old is_new here =
        (compare_response-eq-nil path method after code r).0 (
          (collect-eq-nil _ before).0
            ((on_some-eq-nil new.responses _).0 ((on_some-eq-nil old.responses _).0 e before is_old)
              after is_new)
            _ here)

    one :
        ResponsesKept old new
        → (before after : Dict (Ref Response)) (entry : String × Ref Response)
        → old.responses ≡ some before
        → new.responses ≡ some after
        → Memᴰ entry before
        → (entry.1.value ≡ none) ⊎ ((r : Response) × (entry.1.value ≡ some r))
        → compare_response path method after entry ≡ []
    one h before after entry is_old is_new here (inl missing) = rw (missing, compare_response)
    one h before after entry is_old is_new here (inr (r, value)) =
        let e = ref_eq entry.1 r value in
        let listed = subst (λ x. Memᴰ (entry.0, x) before) e here in
        subst (λ x. compare_response path method after (entry.0, x) ≡ []) (sym e)
          ((compare_response-eq-nil path method after entry.0 r).1 (record {
            there = h.codes before after entry.0 r is_old is_new listed;
            fields = λ r' found media m m' among stays s s' name p old_s new_s listed'.
                h.fields before after entry.0 r r' is_old is_new listed found media m m' s s' among
                  stays old_s new_s name p listed';
          }))
