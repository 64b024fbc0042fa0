-- ===== src/Base/Kept.antt =====
-- Predicates that hold of every entry of a map.
use Prim.Native.String.{String}
use mathlib.Core.Path.{◌≡◌, refl, sym, ◌∙◌}
use mathlib.Core.Logic.{inl, inr}
use mathlib.Core.Option.{none, some}
use text.Mathlib.Text.{◌==◌}
use text.Mathlib.TextEquality.{eq_iff}
use cvt.Base.Tests.{Bool-cases, some_inj, if-true}
use cvt.Base.Dict.{Dict, get, put, delete, get-put, get-delete}

-- A dictionary whose entries all satisfy a predicate keeps it.
unfoldable pub Kept : {V : Type 0} → (String → V → Type 0) → Dict V → Type 0
Kept {V} P m = (k : String) (v : V) → get k m ≡ some v → P k v

pub put-Kept :
    {V : Type 0} (P : String → V → Type 0) (k : String) (v : V) (m : Dict V)
    → P k v
    → Kept P m
    → Kept P (put k v m)
unfolding Kept
put-Kept P k v m new kept j w e = elim (Bool-cases (k == j)) [
  | inl same ↦
      let at_it : w ≡ v = some_inj (sym e ∙ get-put k j v m ∙ rw same refl) in
      rw (at_it, ← (eq_iff k j).0 same) new
  | inr apart ↦ kept j w (sym (get-put k j v m ∙ rw apart refl) ∙ e)
]

pub delete-Kept :
    {V : Type 0} (P : String → V → Type 0) (k : String) (m : Dict V)
    → Kept P m
    → Kept P (delete k m)
unfolding Kept
delete-Kept P k m kept j w e = elim (Bool-cases (k == j)) [
  | inl same ↦ cc (get-delete k j m ∙ if-true none (get j m) same, e)
  | inr apart ↦ kept j w (sym (get-delete k j m ∙ rw apart refl) ∙ e)
]
