-- ===== src/Base/Dict.antt =====
-- Go's `map[string]V` as an association list. The list's order stands for the order in which a
-- `range` loop happens to visit the entries.
use Prim.Native.String.{String}
use text.Mathlib.Text.{◌==◌}
use text.Mathlib.TextEquality.{eq_iff}
use text.Mathlib.TextPositions.{eq_refl}
use mathlib.Core.Path.{◌≡◌, refl, sym, ap, subst}
use mathlib.Core.Logic.{◌↔◌, ◌⊎◌, inl, inr}
use mathlib.Core.Bool.{Bool, true, false}
use mathlib.Core.Option.{Option, none, some}
use mathlib.Core.List.{List, [], ◌∷◌, Memᴰ}
use mathlib.Core.List.Memᴰ.{head, tail}
use native.Mathlib.Omega.{arith}
use cvt.Base.Tests.{if◌then◌else◌, Bool-cases, Option-cases}

abbrev pub Dict {ℓ} : Type ℓ → Type ℓ
Dict V = List (String × V)

module _ {ℓ} {V : Type ℓ} where
  -- `m[k]`, with `ok`.
  unfoldable pub get : String → Dict V → Option V
  get k [] = none
  get k ((j, v) ∷ m) = if j == k then some v else get k m

  -- `m[k] = v`.
  unfoldable pub put : String → V → Dict V → Dict V
  put k v [] = (k, v) ∷ []
  put k v ((j, w) ∷ m) = if j == k then (j, v) ∷ m else (j, w) ∷ put k v m

  -- `delete(m, k)`.
  unfoldable pub delete : String → Dict V → Dict V
  delete k [] = []
  delete k ((j, w) ∷ m) = if j == k then delete k m else (j, w) ∷ delete k m

  abbrev pub keys : Dict V → List String
  keys [] = []
  keys ((k, v) ∷ m) = k ∷ keys m

  pub get-put :
      (k j : String) (v : V) (m : Dict V) → get j (put k v m) ≡ (if k == j then some v else get j m)
  unfolding get put
  get-put k j v [] = refl
  get-put k j v ((i, w) ∷ m) = ground (arith, eq_iff i k, eq_iff i j, eq_iff k j, get-put k j v m)

  pub get-put_self : (k : String) (v : V) (m : Dict V) → get k (put k v m) ≡ some v
  get-put_self k v m = rw (get-put, eq_refl)

  pub get-delete :
      (k j : String) (m : Dict V) → get j (delete k m) ≡ (if k == j then none else get j m)
  unfolding get delete
  get-delete k j [] = ground arith
  get-delete k j ((i, w) ∷ m) = ground (arith, eq_iff i k, eq_iff i j, eq_iff k j, get-delete k j m)

  -- Each key once, as in every Go map.
  abbrev pub Fresh : String → Dict V → Type ℓ
  Fresh k [] = Unit
  Fresh k ((j, w) ∷ m) = ((j == k) ≡ false) × Fresh k m

  abbrev pub Distinct : Dict V → Type ℓ
  Distinct [] = Unit
  Distinct ((k, v) ∷ m) = Fresh k m × Distinct m

  pub mem_of_get : (k : String) (m : Dict V) {v : V} → get k m ≡ some v → Memᴰ (k, v) m
  unfolding get
  mem_of_get k [] e = cc
  mem_of_get k ((j, w) ∷ m) e = elim (Bool-cases (j == k)) [
    | inl same ↦ head (ground (arith, eq_iff j k))
    | inr apart ↦ tail (mem_of_get k m (rw apart at e))
  ]

  Fresh-mem : (k : String) {v : V} (m : Dict V) → Fresh k m → ¬ Memᴰ (k, v) m
  Fresh-mem k [] f m = elim m [ ]
  Fresh-mem k ((j, w) ∷ m) f (head e) = ground (arith, eq_iff j k)
  Fresh-mem k ((j, w) ∷ m) f (tail n) = Fresh-mem k m f.1 n

  -- In a map without repeated keys every entry is found.
  pub get_of_mem : (k : String) {v : V} (m : Dict V) → Distinct m → Memᴰ (k, v) m → get k m ≡ some v
  unfolding get
  get_of_mem k [] d m = elim m [ ]
  get_of_mem k ((j, w) ∷ m) d (head e) = ground (arith, eq_iff j k)
  get_of_mem k {v} ((j, w) ∷ m) d (tail n) = elim (Bool-cases (j == k)) [
    | inl same ↦
        absurd (Fresh-mem j m d.0 (subst (λ i. Memᴰ (i, v) m) (sym ((eq_iff j k).0 same)) n))
    | inr apart ↦ rw apart (get_of_mem k m d.1 n)
  ]

  Fresh-put :
      (i k : String) (v : V) (m : Dict V) → (k == i) ≡ false → Fresh i m → Fresh i (put k v m)
  unfolding put
  Fresh-put i k v [] h f = (h, tt)
  Fresh-put i k v ((j, w) ∷ m) h f = ground (arith, Fresh-put i k v m)

  pub Distinct-put : (k : String) (v : V) (m : Dict V) → Distinct m → Distinct (put k v m)
  unfolding put
  Distinct-put k v [] d = (tt, tt)
  Distinct-put k v ((j, w) ∷ m) d = elim (Bool-cases (j == k)) [
    | inl same ↦ rw same d
    | inr apart ↦
        rw apart
          (Fresh-put j k v m (ground (arith, eq_iff j k, eq_iff k j)) d.0, Distinct-put k v m d.1)
  ]

  Fresh-delete : (i k : String) (m : Dict V) → Fresh i m → Fresh i (delete k m)
  unfolding delete
  Fresh-delete i k [] f = tt
  Fresh-delete i k ((j, w) ∷ m) f = ground (arith, Fresh-delete i k m)

  pub Distinct-delete : (k : String) (m : Dict V) → Distinct m → Distinct (delete k m)
  unfolding delete
  Distinct-delete k [] d = tt
  Distinct-delete k ((j, w) ∷ m) d = ground (arith, Distinct-delete k m, Fresh-delete j k m)

  -- A loop that assigns `m[k] = v` for each pair.
  unfoldable pub put_all : Dict V → List (String × V) → Dict V
  put_all m [] = m
  put_all m ((k, v) ∷ es) = put_all (put k v m) es

  abbrev pub of_list : List (String × V) → Dict V
  of_list = put_all []

  -- `m[k]` after the loop is the value of some pair with that key, the last one.
  mem_of_get-put_all :
      (k : String) (m : Dict V) (es : List (String × V)) {v : V}
      → get k (put_all m es) ≡ some v
      → (get k m ≡ some v) ⊎ Memᴰ (k, v) es
  unfolding put_all
  mem_of_get-put_all k m [] e = inl e
  mem_of_get-put_all k m ((j, w) ∷ es) e = elim (mem_of_get-put_all k (put j w m) es e) [
    | inr later ↦ inr (tail later)
    | inl before ↦ elim (Bool-cases (j == k)) [
      | inl same ↦ inr (head (ground (arith, get-put j k w m, eq_iff j k)))
      | inr apart ↦ inl (ground (arith, get-put j k w m))
    ]
  ]

  found-put_all :
      (k : String) (m : Dict V) (es : List (String × V))
      → (v : V) × (get k m ≡ some v)
      → (v : V) × (get k (put_all m es) ≡ some v)
  unfolding put_all
  found-put_all k m [] f = f
  found-put_all k m ((j, w) ∷ es) f = found-put_all k (put j w m) es (elim (Bool-cases (j == k)) [
    | inl same ↦ (w, ground (arith, get-put j k w m))
    | inr apart ↦ (f.0, ground (arith, f.1, get-put j k w m))
  ])

  set-put_all :
      (k : String) (m : Dict V) (es : List (String × V)) {v : V}
      → Memᴰ (k, v) es
      → (w : V) × (get k (put_all m es) ≡ some w)
  unfolding put_all
  set-put_all k m [] n = elim n [ ]
  set-put_all k m ((j, w) ∷ es) (head e) =
      found-put_all k (put j w m) es (w, ground (arith, get-put_self j w m))
  set-put_all k m ((j, w) ∷ es) (tail n) = set-put_all k (put j w m) es n

  pub mem_of_get-of_list :
      (k : String) (es : List (String × V)) {v : V} → get k (of_list es) ≡ some v → Memᴰ (k, v) es
  unfolding get
  mem_of_get-of_list k es e = elim (mem_of_get-put_all k [] es e) [
    | inl none_there ↦ cc none_there
    | inr m ↦ m
  ]

  pub get-of_list-mem :
      (k : String) (es : List (String × V)) {v : V}
      → Memᴰ (k, v) es
      → (w : V) × (get k (of_list es) ≡ some w)
  get-of_list-mem k es m = set-put_all k [] es m

-- `m[k]` on a `map[string]bool`: a missing key reads as false.
unfoldable pub has : String → Dict Bool → Bool
has k m = elim (get k m) [ none ↦ false | some b ↦ b ]

marked : List String → List (String × Bool)
marked [] = []
marked (k ∷ ks) = (k, true) ∷ marked ks

-- A set filled by a loop that assigns `m[k] = true`.
unfoldable pub set_of : List String → Dict Bool
unfolding marked
set_of ks = of_list (marked ks)

marked-mem : {k : String} {ks : List String} → Memᴰ k ks → Memᴰ (k, true) (marked ks)
unfolding marked
marked-mem (head e) = head (rw e)
marked-mem (tail m) = tail (marked-mem m)

mem-marked :
    {k : String} {b : Bool} (ks : List String) → Memᴰ (k, b) (marked ks) → Memᴰ k ks × (b ≡ true)
unfolding marked
mem-marked [] m = elim m [ ]
mem-marked (j ∷ ks) (head e) = (head (cc e), cc e)
mem-marked (j ∷ ks) (tail m) = let below = mem-marked ks m in (tail below.0, below.1)

-- The set holds exactly the listed keys.
pub has-set_of_iff : (k : String) (ks : List String) → (has k (set_of ks) ≡ true) ↔ Memᴰ k ks
unfolding has set_of
has-set_of_iff k ks = (
  λ e. elim (Option-cases (get k (of_list (marked ks)))) [
    | inl missing ↦ cc (rw (has, missing) at e)
    | inr (b, found) ↦ (mem-marked ks (mem_of_get-of_list k (marked ks) found)).0
  ],
  λ m.
      let (b, found) = get-of_list-mem k (marked ks) (marked-mem m) in
      rw (has, found) (mem-marked ks (mem_of_get-of_list k (marked ks) found)).1,
)

mem-keys {ℓ} : {V : Type ℓ} {k : String} (m : Dict V) → Memᴰ k (keys m) → (v : V) × Memᴰ (k, v) m
mem-keys [] n = elim n [ ]
mem-keys ((j, w) ∷ m) (head e) = (w, head (rw e))
mem-keys ((j, w) ∷ m) (tail n) = let below = mem-keys m n in (below.0, tail below.1)

pub keys-mem {ℓ} : {V : Type ℓ} {k : String} {v : V} (m : Dict V) → Memᴰ (k, v) m → Memᴰ k (keys m)
keys-mem [] n = elim n [ ]
keys-mem ((j, w) ∷ m) (head e) = head (ap (λ p. p.0) e)
keys-mem ((j, w) ∷ m) (tail n) = tail (keys-mem m n)

Distinct-put_all {ℓ} :
    {V : Type ℓ} (m : Dict V) (es : List (String × V)) → Distinct m → Distinct (put_all m es)
unfolding put_all
Distinct-put_all m [] d = d
Distinct-put_all m ((k, v) ∷ es) d = Distinct-put_all (put k v m) es (Distinct-put k v m d)

-- A loop over the set visits exactly the listed keys.
pub mem-keys-set_of_iff : (k : String) (ks : List String) → Memᴰ k (keys (set_of ks)) ↔ Memᴰ k ks
unfolding set_of
mem-keys-set_of_iff k ks = (
  λ m.
      let (b, n) = mem-keys (of_list (marked ks)) m in
      let found = get_of_mem k (of_list (marked ks)) (Distinct-put_all [] (marked ks) tt) n in
      (mem-marked ks (mem_of_get-of_list k (marked ks) found)).0,
  λ m.
      let (b, found) = get-of_list-mem k (marked ks) (marked-mem m) in
      keys-mem (of_list (marked ks)) (mem_of_get k (of_list (marked ks)) found),
)
