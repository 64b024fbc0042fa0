-- ===== src/Compat/Engines.antt =====
-- The embedded engine beside the server's.
use cvt.Base.{
  String, List, [], ◌∷◌, Bool, some, ◌≡◌, refl, sym, subst, ◌↔◌, ◌++◌, inl, inr, Memᴰ, mem-keep,
  keep-mem, non_empty, non_empty-mem, non_empty-eq-some, collect-mem, mem-collect, mem-on_some,
  on_some-mem, Option-cases,
}
use mathlib.Core.List.Memᴰ
use mathlib.Core.List.Memᴰ.{head, tail}
use cvt.Base.Dict.{Dict, get, keys}
use cvt.OpenApi.{Ref, Response, Operation, Document, Finder, RangeOrder, deref}
use cvt.Compat.Change.{BreakingChange}
use cvt.Compat.Endpoints.{
  Method, body_methods, five_methods, seven_methods, Check, check_method, check_path, check_shared,
  five_sub_seven,
}
use cvt.Compat.Checks.{
  check_removed_method, find_item, check_removed_endpoints, check_documents, parameter_type_changes,
  added_parameters, compare_request_bodies, removed_values, enum_change, parameter_enum_changes,
}
use cvt.Compat.Server as Server
use cvt.Compat.Embedded as Embedded

-- Two reports of one change: where values were removed from an enumeration, the engines may list
-- them in two orders.
pub data SameChange : BreakingChange → BreakingChange → Type 0 where
  equal : (c : BreakingChange) → SameChange c c
  reordered :
      (path method name : String) (vs ws : List String)
      → ((v : String) → Memᴰ v vs ↔ Memᴰ v ws)
      → SameChange (enum_change path method name vs) (enum_change path method name ws)

-- A list of changes reports a change.
abbrev pub Reports : BreakingChange → List BreakingChange → Type 0
Reports c cs = (d : BreakingChange) × Memᴰ d cs × SameChange c d

-- Every change that one check reports, another reports too.
abbrev Covers : Check BreakingChange → Check BreakingChange → Type 0
Covers check check' =
    (path method : String) (o n : Operation) (c : BreakingChange)
    → Memᴰ c (check path method o n)
    → Reports c (check' path method o n)

-- The finder of an engine whose loops have another order.
abbrev pub ordered : Finder → RangeOrder → Finder
ordered finder order = record finder { range_order = order }

module _ (finder : Finder) (order : RangeOrder) where
  check_documents_mono :
      (methods : List Method) (check check' : Check BreakingChange) (old_doc new_doc : Document)
      (c : BreakingChange)
      → Covers check check'
      → Memᴰ c (check_documents finder methods check old_doc new_doc)
      → Reports c (check_documents (ordered finder order) methods check' old_doc new_doc)
  unfolding check_documents check_shared check_path check_method
  check_documents_mono methods check check' old_doc new_doc c covers m =
      let (after, is_new, m₁) = mem-on_some new_doc.paths _ m in
      let (before, is_old, m₂) = mem-on_some old_doc.paths _ m₁ in
      let (e, here, m₃) = mem-collect _ after m₂ in
      let (item, found, m₄) = mem-on_some (finder.find before e.0) _ m₃ in
      let (r, row, m₅) = mem-collect _ methods m₄ in
      let (o, has_old, m₆) = mem-on_some (r.operation item) _ m₅ in
      let (n, has_new, m₇) = mem-on_some (r.operation e.1) _ m₆ in
      let (d, m₈, same) = covers e.0 r.name o n c m₇ in
      (
        d,
        on_some-mem new_doc.paths _ is_new (
            on_some-mem old_doc.paths _ is_old (
              collect-mem _ here (
                on_some-mem (finder.find before e.0) _ found (
                  collect-mem _ row (
                    on_some-mem (r.operation item) _ has_old
                      (on_some-mem (r.operation e.1) _ has_new m₈)))))),
        same,
      )

  removed_mono :
      (old_doc new_doc : Document) (c : BreakingChange)
      → Memᴰ c (check_removed_endpoints finder five_methods old_doc new_doc)
      → Reports c (check_removed_endpoints (ordered finder order) seven_methods old_doc new_doc)
  unfolding check_removed_endpoints find_item
  removed_mono old_doc new_doc c m =
      let (paths, is_old, m₁) = mem-on_some old_doc.paths _ m in
      let (e, here, m₂) = mem-collect _ paths m₁ in
      let removed : Method → List BreakingChange =
        check_removed_method e.0 e.1 (find_item finder new_doc e.0) in
      let (r, row, m₃) = mem-collect removed five_methods m₂ in
      (
        c,
        on_some-mem old_doc.paths _ is_old
            (collect-mem _ here (collect-mem removed (five_sub_seven r row) m₃)),
        equal c,
      )

-- The values that two engines find removed are the same, in two orders.
removed_values-mem :
    (order order' : RangeOrder) (set : Dict Bool) (vs : List String) (v : String)
    → Memᴰ v (removed_values order set vs)
    → Memᴰ v (removed_values order' set vs)
unfolding removed_values
removed_values-mem order order' set vs v m =
    let (here, lost) = mem-keep _ (order.visit (keys set)) m in
    keep-mem _ ((order'.visit_mem_iff v _).1 ((order.visit_mem_iff v _).0 here)) lost

only : {c a : BreakingChange} → Memᴰ c (a ∷ []) → c ≡ a
only (head e) = e
only (tail m) = elim m [ ]

-- A list with the members of one that is not empty is not empty.
non_empty-same :
    (xs ys zs : List String)
    → non_empty xs ≡ some ys
    → ((v : String) → Memᴰ v xs → Memᴰ v zs)
    → non_empty zs ≡ some zs
non_empty-same [] ys zs e into = cc
non_empty-same (x ∷ xs) ys zs e into = non_empty-mem (into x (head refl))

parameter_enum_changes-Covers :
    (order order' : RangeOrder)
    → Covers (parameter_enum_changes order) (parameter_enum_changes order')
unfolding parameter_enum_changes
parameter_enum_changes-Covers order order' path method o n c m =
    let (param, here, m₁) = mem-collect _ n.parameters m in
    let (p, value, m₂) = mem-on_some param.value _ m₁ in
    let (s, schema, m₃) = mem-on_some (deref p.schema) _ m₂ in
    let (set, found, m₄) = mem-on_some (get p.name _) _ m₃ in
    let (vs, listed, m₅) = mem-on_some (non_empty s.enum) _ m₄ in
    let (removed, some_removed, m₆) = mem-on_some (non_empty (removed_values order set vs)) _ m₅ in
    let is_removed : removed_values order set vs ≡ removed =
      non_empty-eq-some (removed_values order set vs) removed some_removed in
    let others = removed_values order' set vs in
    (
      enum_change path method p.name others,
      collect-mem _ here (
          on_some-mem param.value _ value (
            on_some-mem (deref p.schema) _ schema (
              on_some-mem (get p.name _) _ found (
                on_some-mem (non_empty s.enum) _ listed (
                  on_some-mem (non_empty others) _
                    (non_empty-same (removed_values order set vs) removed others some_removed
                      (removed_values-mem order order' set vs))
                    (head refl)))))),
      subst (λ x. SameChange x (enum_change path method p.name others)) (sym (only m₆))
          (subst
            (λ ws.
              SameChange (enum_change path method p.name ws)
                (enum_change path method p.name others))
            is_removed
            (reordered path method p.name _ others (λ v. (
              removed_values-mem order order' set vs v,
              removed_values-mem order' order set vs v,
            )))),
    )

response_covers :
    (path method : String) (after : Dict (Ref Response)) (e : String × Ref Response)
    (c : BreakingChange)
    → Memᴰ c (Embedded.compare_response path method after e)
    → Memᴰ c (Server.compare_response path method after e)
unfolding Embedded.compare_response Server.compare_response
response_covers path method after (code, ref) c m =
    let (r, value, m₁) = mem-on_some ref.value _ m in
    elim (Option-cases (get code after)) [
      | inl gone ↦ on_some-mem ref.value _ value (rw gone (rw gone at m₁))
      | inr (r', there) ↦ absurd (elim (rw there at m₁) [ ])
    ]

responses_cover :
    (path method : String) (o n : Operation) (c : BreakingChange)
    → Memᴰ c (Embedded.compare_responses path method o n)
    → Memᴰ c (Server.compare_responses path method o n)
unfolding Embedded.compare_responses Server.compare_responses
responses_cover path method o n c m =
    let (before, was, m₁) = mem-on_some o.responses _ m in
    let (after, is_new, m₂) = mem-on_some n.responses _ m₁ in
    let (e, here, m₃) = mem-collect (Embedded.compare_response path method after) before m₂ in
    on_some-mem o.responses _ was (
      on_some-mem n.responses _ is_new (
        collect-mem (Server.compare_response path method after) here
          (response_covers path method after e c m₃)))

equal-Covers :
    {check check' : Check BreakingChange}
    → ((path method : String) (o n : Operation) (c : BreakingChange)
        → Memᴰ c (check path method o n)
        → Memᴰ c (check' path method o n))
    → Covers check check'
equal-Covers into path method o n c m = (c, into path method o n c m, equal c)

append_mono :
    {c : BreakingChange} (xs ys : List BreakingChange) {xs' ys' : List BreakingChange}
    → (Memᴰ c xs → Reports c xs')
    → (Memᴰ c ys → Reports c ys')
    → Memᴰ c (xs ++ ys)
    → Reports c (xs' ++ ys')
append_mono xs ys {xs'} {ys'} f g m = elim (Memᴰ.append_cases xs m) [
  | inl l ↦ let (d, here, same) = f l in (d, Memᴰ.append_left ys' here, same)
  | inr r ↦ let (d, here, same) = g r in (d, Memᴰ.append_right xs' here, same)
]

-- Every breaking change that the embedded engine reports, the server's engine reports too, whatever
-- the orders in which the two visit an enumeration's values: the change is equal, or both say for
-- the same values of the same parameter, in two orders, that they were removed.
pub embedded_changes-server :
    (finder : Finder) (order : RangeOrder) (old_doc new_doc : Document) (c : BreakingChange)
    → Memᴰ c (Embedded.compare_schemas finder old_doc new_doc).0
    → Reports c (Server.compare_schemas (ordered finder order) old_doc new_doc).0
unfolding Embedded.compare_schemas Server.compare_schemas Embedded.check_removed_endpoints
    Embedded.check_added_required_parameters Server.check_added_required_parameters
    Embedded.check_added_required_body_fields Server.check_added_required_body_fields
    Embedded.check_type_changes Server.check_type_changes Embedded.check_removed_enum_values
    Server.check_removed_enum_values Embedded.check_response_changes Server.check_response_changes
embedded_changes-server finder order old_doc new_doc c m =
    append_mono _ _ (removed_mono finder order old_doc new_doc c)
      (append_mono _ _
        (check_documents_mono finder order five_methods added_parameters added_parameters old_doc
          new_doc c (equal-Covers (λ path method o n d here. here)))
        (append_mono _ _
          (check_documents_mono finder order body_methods compare_request_bodies
            compare_request_bodies old_doc new_doc c
            (equal-Covers (λ path method o n d here. here)))
          (append_mono _ _
            (check_documents_mono finder order five_methods parameter_type_changes _ old_doc new_doc
              c (equal-Covers (λ path method o n d here. Memᴰ.append_left _ here)))
            (append_mono _ _
              (check_documents_mono finder order five_methods
                (parameter_enum_changes finder.range_order) (parameter_enum_changes order) old_doc
                new_doc c (parameter_enum_changes-Covers finder.range_order order))
              (check_documents_mono finder order five_methods Embedded.compare_responses
                Server.compare_responses old_doc new_doc c (equal-Covers responses_cover))))))
      m
