-- ===== src/Samples.antt =====
-- Concrete instances of the interfaces, on which the tests run.
pub mod Documents
pub mod Fixtures
pub mod Plugins
use cvt.Base.{
  refl, sym, ◌∙◌, inl, inr, Bool-cases, some_inj, eq_iff, if-true, if-false, none, [], ◌∷◌, String,
  List, ◌↔◌, Memᴰ,
}
use mathlib.Core.List.Memᴰ.{head, tail}
use text.Mathlib.Text.{◌==◌}
use cvt.Base.Dict.{Dict, get, put, delete, get-put, get-put_self, get-delete, mem_of_get}
use cvt.OpenApi.{Finder, RangeOrder}
use cvt.Cache.{SchemaEntry, Ristretto}

-- `Find` of keys alone, with no template variable renamed.
abbrev pub by_key : Finder
by_key = record {
  range_order = record { visit = λ vs. vs; visit_mem_iff = λ v vs. (λ m. m, λ m. m) };
  find = λ paths path. get path paths;
  find_exact = λ paths path item e. e;
  find_mem = λ paths path item e. (path, mem_of_get path paths e);
}

-- A cache that evicts nothing.
abbrev pub keeping : Ristretto (Dict SchemaEntry)
unfolding get
keeping = record {
  set_with_ttl = put;
  find = get;
  del = delete;
  clear = λ c. [];
  find_set = λ k e e' c found. some_inj (sym (get-put_self k e c) ∙ found);
  find_set_other = λ j k e e' c apart found. elim (Bool-cases (k == j)) [
    | inl same ↦ absurd (apart (sym ((eq_iff k j).0 same)))
    | inr other ↦ sym (get-put k j e c ∙ if-false _ _ other) ∙ found
  ];
  find_del = λ k c. get-delete k k c ∙ if-true none (get k c) ((eq_iff k k).1 refl);
  find_del_other = λ j k e c found. elim (Bool-cases (k == j)) [
    | inl same ↦ cc (get-delete k j c ∙ if-true none (get j c) same, found)
    | inr other ↦ sym (get-delete k j c ∙ if-false none (get j c) other) ∙ found
  ];
  find_clear = λ k c. refl;
}

-- A loop that visits the values from the last to the first.
abbrev pub at_end : String → List String → List String
at_end v [] = v ∷ []
at_end v (w ∷ ws) = w ∷ at_end v ws

abbrev pub backwards_from : List String → List String
backwards_from [] = []
backwards_from (v ∷ vs) = at_end v (backwards_from vs)

at_end-mem : (v w : String) (ws : List String) → Memᴰ v (at_end w ws) ↔ Memᴰ v (w ∷ ws)
at_end-mem v w [] = (λ m. m, λ m. m)
at_end-mem v w (x ∷ ws) = (
  λ m. elim m [ head e ↦ tail (head e) | tail n ↦ into ((at_end-mem v w ws).0 n) ],
  λ m. elim m [
    | head e ↦ tail ((at_end-mem v w ws).1 (head e))
    | tail n ↦ elim n [ head e ↦ head e | tail l ↦ tail ((at_end-mem v w ws).1 (tail l)) ]
  ],
)
  where
    into : Memᴰ v (w ∷ ws) → Memᴰ v (w ∷ x ∷ ws)
    into (head e) = head e
    into (tail l) = tail (tail l)

pub backwards-mem : (v : String) (vs : List String) → Memᴰ v (backwards_from vs) ↔ Memᴰ v vs
backwards-mem v [] = (λ m. m, λ m. m)
backwards-mem v (w ∷ vs) = (
  λ m. elim ((at_end-mem v w (backwards_from vs)).0 m) [
    | head e ↦ head e
    | tail n ↦ tail ((backwards-mem v vs).0 n)
  ],
  λ m.
      (at_end-mem v w (backwards_from vs)).1
        (elim m [ head e ↦ head e | tail n ↦ tail ((backwards-mem v vs).1 n) ]),
)

abbrev pub backwards : RangeOrder
backwards = record { visit = backwards_from; visit_mem_iff = backwards-mem }
