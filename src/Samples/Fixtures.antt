-- ===== src/Samples/Fixtures.antt =====
-- A faker, schemas that refer to each other, and the texts of some statuses.
use cvt.Base.{
  ℕ, zero, suc, ◌+◌, [], ◌∷◌, true, Option, none, some, eqb, String, ◌≡◌, refl, ap, ◌∙◌, Memᴰ,
  if◌then◌else◌,
}
use text.Mathlib.Text.{◌==◌}
use cvt.Generator.{Schema, Faker}
use cvt.Base.Dict.{Dict, get, mem_of_get}
use cvt.Generator.Status.{StatusLookup, first_some}

-- A faker whose state counts its draws.
abbrev pub counting : Faker ℕ ℕ ℕ
counting = record {
  draw_text = λ kind drawn. ("text", suc drawn);
  draw_int = λ min max drawn. (min, suc drawn);
  draw_number = λ min max drawn. (max, suc drawn);
  draw_bool = λ drawn. (true, suc drawn);
  to_int = λ n. n;
  show = λ v. "shown";
  base64 = λ t. t;
  int_min = 1;
  int_max = 1000;
  int_add_1000 = λ n. n + 1000;
  number_min = 1;
  number_max = 999;
  number_add_1000 = λ n. n + 1000;
}

abbrev pub plain_schema : Schema ℕ ℕ
plain_schema = record {
  example = none;
  all_of = [];
  one_of = [];
  any_of = [];
  types = [];
  properties = [];
  additional_properties = none;
  items = none;
  min_items = 0;
  enum = [];
  format = "";
  pattern = "";
  min = none;
  max = none;
}

abbrev pub person_schema : Schema ℕ ℕ
person_schema = record plain_schema {
  types = "object" ∷ [];
  properties = ("friends", some 1) ∷ ("age", some 2) ∷ [];
}

abbrev pub friends_schema : Schema ℕ ℕ
friends_schema = record plain_schema { types = "array" ∷ []; items = some 0; min_items = 2 }

abbrev pub age_schema : Schema ℕ ℕ
age_schema = record plain_schema { types = "integer" ∷ []; min = some 18 }

-- A person has friends, who are persons.
abbrev pub people : ℕ → Option (Schema ℕ ℕ)
people zero = some person_schema
people (suc zero) = some friends_schema
people (suc (suc zero)) = some age_schema
people (suc (suc (suc n))) = none

abbrev pub range_of : ℕ → String
range_of n =
    if eqb n 200
    then "2XX"
    else (if eqb n 201
        then "2XX"
        else (if eqb n 202 then "2XX" else (if eqb n 204 then "2XX" else "")))

abbrev pub show_status : ℕ → String
show_status n =
    if eqb n 200
    then "200"
    else (if eqb n 201
        then "201"
        else (if eqb n 202 then "202" else (if eqb n 204 then "204" else "4")))

pub status_in-mem :
    {R : Type 0} (n : ℕ) (rs : Dict R) (r : R)
    → first_some (get (show_status n) rs) (get (range_of n) rs) ≡ some r
    → (code : String) × Memᴰ (code, r) rs
status_in-mem {R} n rs r = by_exact (get (show_status n) rs) refl
  where
    by_exact :
        (o : Option R)
        → get (show_status n) rs ≡ o
        → first_some o (get (range_of n) rs) ≡ some r
        → (code : String) × Memᴰ (code, r) rs
    by_exact none absent e = (range_of n, mem_of_get (range_of n) rs e)
    by_exact (some q) present e = (show_status n, mem_of_get (show_status n) rs (present ∙ e))

-- The statuses below, with the ranges 2XX and 4XX: a status is found under its code, or its range.
abbrev pub few_statuses : {R : Type 0} → StatusLookup R
few_statuses = record {
  show = show_status;
  scan = λ t. if t == "default" then 0 else 4;
  equal_fold = λ s t. s == t;
  status = λ n rs. first_some (get (show_status n) rs) (get (range_of n) rs);
  status_exact = λ n rs r e. ap (λ o. first_some o (get (range_of n) rs)) e;
  status_mem = status_in-mem;
}
