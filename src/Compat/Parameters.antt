-- ===== src/Compat/Parameters.antt =====
-- The checks of parameters, against their conditions.
use cvt.Base.{
  String, List, [], ◌∷◌, Bool, true, false, not, ◌&&◌, some, ◌≡◌, refl, sym, ap, subst, ◌≢◌, ◌↔◌,
  Memᴰ, arith, collect, on_some, collect-eq-nil, on_some-eq-nil, only_if-eq-nil, collect-mem,
  mem-collect, mem-on_some, on_some-mem, keep-eq-nil, non_empty, non_empty-eq-some, non_empty-mem,
  ◌∙◌,
}
use mathlib.Core.List.Memᴰ
use mathlib.Core.List.Memᴰ.{head}
use cvt.Base.Dict.{
  Dict, keys, mem-keys-set_of_iff, get, of_list, has, set_of, has-set_of_iff, mem_of_get-of_list,
  get-of_list-mem,
}
use cvt.OpenApi.{RangeOrder, Ref, Schema, Parameter, Operation, deref, ref_eq}
use cvt.Compat.Checks.{
  parameter_name, added_parameters, typed_parameter, parameter_type_changes, first_type, or_empty,
  enum_parameter, removed_values, parameter_enum_changes,
}
use cvt.Compat.Change.{BreakingChange}
use cvt.Compat.Widening.{breaking_iff}
use cvt.Compat.Spec.{Listed, ParametersKept, ParameterTypesKept, EnumsKept, IsRegular}

-- The names that the check collects are those of the listed parameters.
name-Listed :
    (name : String) (op : Operation)
    → Memᴰ name (collect parameter_name op.parameters)
    → (q : Parameter) × Listed q op × (q.name ≡ name)
unfolding parameter_name
name-Listed name op m =
    let (r, here, among) = mem-collect parameter_name op.parameters m in
    let (q, value, is_name) = mem-on_some r.value (λ p. p.name ∷ []) among in
    (
      q,
      subst (λ x. Memᴰ x op.parameters) (ref_eq r q value) here,
      sym (Memᴰ.eq_of_singleton is_name),
    )

listed_name :
    (q : Parameter) (op : Operation)
    → Listed q op
    → Memᴰ q.name (collect parameter_name op.parameters)
unfolding parameter_name
listed_name q op m = collect-mem parameter_name m (head refl)

covered : (a b : Bool) → (a ≡ true → b ≡ true) → (a && not b) ≡ false
covered true true h = refl
covered true false h = cc (h refl)
covered false b h = refl

Listed-ref :
    (r : Ref Parameter) (p : Parameter) (op : Operation)
    → Memᴰ r op.parameters
    → r.value ≡ some p
    → Listed p op
Listed-ref r p op here value = subst (λ x. Memᴰ x op.parameters) (ref_eq r p value) here

pub added_parameters-eq-nil :
    (path method : String) (old new : Operation)
    → (added_parameters path method old new ≡ []) ↔ ParametersKept old new
unfolding added_parameters
added_parameters-eq-nil path method old new = (
  λ e. record {
    kept = λ p here required. name-Listed p.name old (
        (has-set_of_iff p.name _).0
          (ground (arith, (only_if-eq-nil _ _).0 ((collect-eq-nil _ new.parameters).0 e _ here))));
  },
  λ h. (collect-eq-nil _ new.parameters).1 λ r here. (on_some-eq-nil r.value _).1 λ p value.
      (only_if-eq-nil _ _).1 (
        covered p.required _ λ required.
          let (q, listed, same) = h.kept p (Listed-ref r p new here value) required in
          (has-set_of_iff p.name _).1 (rw (← same) (listed_name q old listed))),
)

-- What the map of old types holds are types of listed parameters.
type-Listed :
    (name t : String) (op : Operation)
    → Memᴰ (name, t) (collect typed_parameter op.parameters)
    → (q : Parameter) × (s : Schema) × Listed q op
      × (q.name ≡ name)
      × (deref q.schema ≡ some s)
      × (first_type s.types ≡ some t)
unfolding typed_parameter
type-Listed name t op m =
    let (r, here, among) = mem-collect typed_parameter op.parameters m in
    let (q, value, in_schema) = mem-on_some r.value _ among in
    let (s, schema, in_types) = mem-on_some (deref q.schema) _ in_schema in
    let (u, first, is_pair) = mem-on_some (first_type s.types) _ in_types in
    let e : (name, t) ≡ (q.name, u) = Memᴰ.eq_of_singleton is_pair in
    (q, s, Listed-ref r q op here value, cc e, schema, cc (e, first))

listed_type :
    (q : Parameter) (s : Schema) (t : String) (op : Operation)
    → Listed q op
    → deref q.schema ≡ some s
    → first_type s.types ≡ some t
    → Memᴰ (q.name, t) (collect typed_parameter op.parameters)
unfolding typed_parameter
listed_type q s t op listed schema first =
    collect-mem typed_parameter listed
      (on_some-mem (deref q.schema) _ schema (on_some-mem (first_type s.types) _ first (head refl)))

-- In a regular operation the map holds the type of each listed parameter.
type_found :
    (q : Parameter) (s : Schema) (t : String) (op : Operation)
    → IsRegular op
    → Listed q op
    → deref q.schema ≡ some s
    → first_type s.types ≡ some t
    → get q.name (of_list (collect typed_parameter op.parameters)) ≡ some t
type_found q s t op regular listed schema first =
    let (u, found) = get-of_list-mem q.name _ (listed_type q s t op listed schema first) in
    let (p, s', listed', name, schema', first') =
      type-Listed q.name u op (mem_of_get-of_list q.name _ found) in
    let same : p ≡ q = regular.single_names p q listed' listed name in
    let same_schema : s' ≡ s = cc in found ∙ cc

pub parameter_type_changes-eq-nil :
    (path method : String) (old new : Operation)
    → IsRegular old
    → (parameter_type_changes path method old new ≡ []) ↔ ParameterTypesKept old new
unfolding parameter_type_changes
parameter_type_changes-eq-nil path method old new regular = (
  λ e. record {
    kept = λ p q s t old_type was is_new name old_schema new_schema first.
        (breaking_iff old_type (or_empty (first_type t.types))).0 (
          (only_if-eq-nil _ _).0 (
            (on_some-eq-nil (get q.name _) _).0
              ((on_some-eq-nil (deref q.schema) _).0
                ((collect-eq-nil _ new.parameters).0 e _ is_new) t new_schema)
              old_type
              (subst (λ k. get k (of_list (collect typed_parameter old.parameters)) ≡ some old_type)
                name (type_found p s old_type old regular was old_schema first))));
  },
  λ h. (collect-eq-nil _ new.parameters).1 λ r here. (on_some-eq-nil r.value _).1 λ q value.
      (on_some-eq-nil (deref q.schema) _).1 λ t new_schema.
        (on_some-eq-nil (get q.name _) _).1 λ old_type found.
          let (p, s, listed, name, schema, first) =
            type-Listed q.name old_type old (mem_of_get-of_list q.name _ found) in
          (only_if-eq-nil _ _).1 (
            (breaking_iff old_type _).1 (
              h.kept p q s t old_type listed (Listed-ref r q new here value) name schema new_schema
                first)),
)

-- Enumerations.
enum-Listed :
    (name : String) (set : Dict Bool) (op : Operation)
    → Memᴰ (name, set) (collect enum_parameter op.parameters)
    → (q : Parameter) × (s : Schema) × Listed q op
      × (q.name ≡ name)
      × (deref q.schema ≡ some s)
      × (set ≡ set_of s.enum)
unfolding enum_parameter
enum-Listed name set op m =
    let (r, here, among) = mem-collect enum_parameter op.parameters m in
    let (q, value, in_schema) = mem-on_some r.value _ among in
    let (s, schema, in_enum) = mem-on_some (deref q.schema) _ in_schema in
    let (vs, values, is_pair) = mem-on_some (non_empty s.enum) _ in_enum in
    let e : (name, set) ≡ (q.name, set_of vs) = Memᴰ.eq_of_singleton is_pair in
    let all : s.enum ≡ vs = non_empty-eq-some s.enum vs values in
    (q, s, Listed-ref r q op here value, cc e, schema, cc (e, all))

enum_found :
    (q : Parameter) (s : Schema) (v : String) (op : Operation)
    → IsRegular op
    → Listed q op
    → deref q.schema ≡ some s
    → Memᴰ v s.enum
    → get q.name (of_list (collect enum_parameter op.parameters)) ≡ some (set_of s.enum)
unfolding enum_parameter
enum_found q s v op regular listed schema m =
    let pair = collect-mem enum_parameter listed (
      on_some-mem (deref q.schema) _ schema
        (on_some-mem (non_empty s.enum) _ (non_empty-mem m) (head refl))) in
    let (u, found) = get-of_list-mem q.name _ pair in
    let (p, s', listed', name, schema', same_set) =
      enum-Listed q.name u op (mem_of_get-of_list q.name _ found) in
    let same : p ≡ q = regular.single_names p q listed' listed name in
    let same_schema : s' ≡ s = cc in found ∙ cc

pub not-not : (b : Bool) → not b ≡ false → b ≡ true
not-not true e = refl
not-not false e = cc

non_empty_self : (xs : List String) → xs ≢ [] → non_empty xs ≡ some xs
non_empty_self [] h = absurd (h refl)
non_empty_self (x ∷ xs) h = refl

non_empty-ne-nil : {xs ys : List String} → non_empty xs ≡ some ys → xs ≢ []
non_empty-ne-nil {xs} {ys} e h = cc (rw h at e)

-- A change that is made for a list unless it is empty.
non_empty_nil :
    (xs : List String) (f : List String → BreakingChange)
    → on_some (non_empty xs) (λ ys. f ys ∷ []) ≡ []
    → xs ≡ []
non_empty_nil [] f e = refl
non_empty_nil (x ∷ xs) f e = cc

removed-eq-nil_iff :
    (order : RangeOrder) (old new : List String)
    → (removed_values order (set_of old) new ≡ []) ↔ ((v : String) → Memᴰ v old → Memᴰ v new)
unfolding removed_values
removed-eq-nil_iff order old new = (
  λ e v m. (has-set_of_iff v new).0 (
      not-not (has v (set_of new)) (
        (keep-eq-nil _ (order.visit (keys (set_of old)))).0 e v
          ((order.visit_mem_iff v _).1 ((mem-keys-set_of_iff v old).1 m)))),
  λ h. (keep-eq-nil _ (order.visit (keys (set_of old)))).1 λ v m. ap not (
      (has-set_of_iff v new).1
        (h v ((mem-keys-set_of_iff v old).0 ((order.visit_mem_iff v _).0 m)))),
)

pub parameter_enum_changes-eq-nil :
    (order : RangeOrder) (path method : String) (old new : Operation)
    → IsRegular old
    → (parameter_enum_changes order path method old new ≡ []) ↔ EnumsKept old new
unfolding parameter_enum_changes
parameter_enum_changes-eq-nil order path method old new regular = (
  λ e. record {
    kept = λ p q s t v was is_new name old_schema new_schema some_left m.
        let found : get q.name (of_list (collect enum_parameter old.parameters))
            ≡ some (set_of s.enum) =
          rw (← name) (enum_found p s v old regular was old_schema m) in
        let here = (collect-eq-nil _ new.parameters).0 e _ is_new in
        let in_schema = (on_some-eq-nil (deref q.schema) _).0 here t new_schema in
        let in_enums = (on_some-eq-nil (get q.name _) _).0 in_schema (set_of s.enum) found in
        let in_values =
          (on_some-eq-nil (non_empty t.enum) _).0 in_enums t.enum
            (non_empty_self t.enum some_left) in
        (removed-eq-nil_iff order s.enum t.enum).0 (non_empty_nil _ _ in_values) v m;
  },
  λ h. (collect-eq-nil _ new.parameters).1 λ r here. (on_some-eq-nil r.value _).1 λ q value.
      (on_some-eq-nil (deref q.schema) _).1 λ t new_schema.
        (on_some-eq-nil (get q.name _) _).1 λ set found.
          (on_some-eq-nil (non_empty t.enum) _).1 λ vs values.
            let (p, s, listed, name, schema, is_set) =
              enum-Listed q.name set old (mem_of_get-of_list q.name _ found) in
            let all : t.enum ≡ vs = non_empty-eq-some t.enum vs values in
            let none_removed : removed_values order set vs ≡ [] =
              rw (is_set, ← all)
                ((removed-eq-nil_iff order s.enum t.enum).1 (λ v m.
                  h.kept p q s t v listed (Listed-ref r q new here value) name schema new_schema
                    (non_empty-ne-nil values) m)) in
            rw none_removed,
)
