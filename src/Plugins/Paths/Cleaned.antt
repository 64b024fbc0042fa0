-- ===== src/Plugins/Paths/Cleaned.antt =====
-- Cleaned absolute paths hold no `..`, so that a relative path which does not start with `..` stays
-- below the root.
use cvt.Base.{
  String, List, [], ◌∷◌, ◌++◌, Bool, true, false, ◌||◌, ◌≡◌, refl, sym, ap, subst, ◌∙◌, inl, inr,
  Memᴰ, Bool-cases, eq_iff, if-true, if-false, if◌then◌else◌,
}
use mathlib.Core.List.Memᴰ.{head, tail}
use text.Mathlib.Text.{◌==◌}
use cvt.Plugins.Paths.{
  split, is_abs, drop_last, add_element, add_elements, reverse_onto, clean_elements, ups, relative,
  leaves,
}

-- No element goes up.
pub Plain : List String → Type 0
Plain ts = (t : String) → Memᴰ t ts → (t == "..") ≡ false

drop_last-Plain : (ts : List String) → Plain ts → Plain (drop_last true ts)
unfolding Plain
drop_last-Plain [] plain = plain
drop_last-Plain (t ∷ ts) plain = λ u m. plain u (tail m)

cons-Plain : (s : String) (ts : List String) → (s == "..") ≡ false → Plain ts → Plain (s ∷ ts)
unfolding Plain
cons-Plain s ts e plain t (head same) = ap (λ x. x == "..") same ∙ e
cons-Plain s ts e plain t (tail m) = plain t m

add_element-Plain : (s : String) (ts : List String) → Plain ts → Plain (add_element true s ts)
add_element-Plain s ts plain = by_tests (s == "" || s == ".") (s == "..") refl
  where
    by_tests :
        (b d : Bool)
        → (s == "..") ≡ d
        → Plain (if b then ts else (if d then drop_last true ts else s ∷ ts))
    by_tests true d e = plain
    by_tests false true e = drop_last-Plain ts plain
    by_tests false false e = cons-Plain s ts e plain

add_elements-Plain : (ss ts : List String) → Plain ts → Plain (add_elements true ss ts)
unfolding add_elements
add_elements-Plain [] ts plain = plain
add_elements-Plain (s ∷ ss) ts plain =
    add_elements-Plain ss (add_element true s ts) (add_element-Plain s ts plain)

reverse_onto-Plain : (ss ts : List String) → Plain ss → Plain ts → Plain (reverse_onto ss ts)
unfolding Plain
reverse_onto-Plain [] ts below plain = plain
reverse_onto-Plain (s ∷ ss) ts below plain =
    reverse_onto-Plain ss (s ∷ ts) (λ t m. below t (tail m))
      (cons-Plain s ts (below s (head refl)) plain)

pub clean_elements-Plain : (path : String) → is_abs path ≡ true → Plain (clean_elements path)
unfolding clean_elements Plain
clean_elements-Plain path rooted =
    subst (λ b. Plain (reverse_onto (add_elements b (split path) []) [])) (sym rooted)
      (reverse_onto-Plain (add_elements true (split path) []) []
        (add_elements-Plain (split path) [] (λ t m. elim m [ ])) (λ t m. elim m [ ]))

-- A relative path that does not leave the root is what the path has behind the root.
pub relative-below :
    (root path : List String)
    → leaves (relative root path) ≡ false
    → path ≡ root ++ relative root path
unfolding relative leaves
relative-below [] path e = refl
relative-below (s ∷ ss) [] e = cc
relative-below (s ∷ ss) (t ∷ ts) e = elim (Bool-cases (s == t)) [
  | inl same ↦
      let step = if-true (relative ss ts) (ups (s ∷ ss) (t ∷ ts)) same in
      let below = relative-below ss ts (ap leaves (sym step) ∙ e) in
      subst (λ r. t ∷ ts ≡ s ∷ ss ++ r) (sym step) (cc ((eq_iff s t).0 same, below))
  | inr apart ↦
      let step = if-false (relative ss ts) (ups (s ∷ ss) (t ∷ ts)) apart in
      cc (ap leaves (sym step) ∙ e)
]
