-- ===== src/Base/Lists.antt =====
-- Lists: native lengths, and loops that append to a result.
use Prim.Native.Nat.{ℕ, suc, ◌+◌}
use mathlib.Core.Path.{◌≡◌, refl, ap, sym, ◌∙◌}
use mathlib.Core.Logic.{◌↔◌, inl, inr}
use mathlib.Core.Bool.{Bool, true, false}
use mathlib.Core.Option.{Option, none, some}
use mathlib.Core.List.{List, [], ◌∷◌, ◌++◌, Memᴰ}
use mathlib.Core.List.Memᴰ
use mathlib.Core.List.Memᴰ.{head, tail}
use native.Mathlib.Omega.{arith}
use cvt.Base.Tests.{if◌then◌else◌, Bool-cases}

module _ {ℓ} {A : Type ℓ} where
  abbrev pub length : List A → ℕ
  length [] = 0
  length (x ∷ xs) = suc (length xs)

  pub length-append : (xs ys : List A) → length (xs ++ ys) ≡ length xs + length ys
  length-append [] ys = omega arith
  length-append (x ∷ xs) ys = omega (arith, length-append xs ys)

  -- A list is empty exactly when both its parts are.
  pub append-eq-nil : (xs ys : List A) → (xs ++ ys ≡ []) ↔ ((xs ≡ []) × (ys ≡ []))
  append-eq-nil [] ys = (λ e. (refl, e), λ p. p.1)
  append-eq-nil (x ∷ xs) ys = (λ e. cc, λ p. cc p.0)

  -- The elements that pass a Boolean test, in order.
  abbrev pub keep : (A → Bool) → List A → List A
  keep p [] = []
  keep p (x ∷ xs) = if p x then x ∷ keep p xs else keep p xs

  mem-keep-cons :
      (p : A → Bool) {a x : A} (xs : List A)
      → (Memᴰ a (keep p xs) → Memᴰ a xs × (p a ≡ true))
      → p x ≡ true
      → Memᴰ a (x ∷ keep p xs)
      → Memᴰ a (x ∷ xs) × (p a ≡ true)
  mem-keep-cons p xs rec e (head q) = (head q, rw q e)
  mem-keep-cons p xs rec e (tail n) = (tail (rec n).0, (rec n).1)

  pub mem-keep :
      (p : A → Bool) {a : A} (xs : List A) → Memᴰ a (keep p xs) → Memᴰ a xs × (p a ≡ true)
  mem-keep p [] m = elim m [ ]
  mem-keep p {a} (x ∷ xs) m = elim (Bool-cases (p x)) [
    | inl e ↦ mem-keep-cons p xs (mem-keep p xs) e (rw e at m)
    | inr e ↦ let below = mem-keep p xs (rw e at m) in (tail below.0, below.1)
  ]

  pub keep-mem : (p : A → Bool) {a : A} {xs : List A} → Memᴰ a xs → p a ≡ true → Memᴰ a (keep p xs)
  keep-mem p (head {x} {xs} q) e = rw (ap p (sym q) ∙ e) (head q)
  keep-mem p {a} (tail {x} {xs} m) e = elim (Bool-cases (p x)) [
    | inl t ↦ rw t (tail (keep-mem p m e))
    | inr t ↦ rw t (keep-mem p m e)
  ]

  keep-cons :
      (p : A → Bool) (x : A) (xs : List A)
      → p x ≡ false
      → ((y : A) → Memᴰ y xs → p y ≡ false)
      → (y : A) → Memᴰ y (x ∷ xs)
      → p y ≡ false
  keep-cons p x xs e later y (head q) = rw q e
  keep-cons p x xs e later y (tail m) = later y m

  pub keep-eq-nil :
      (p : A → Bool) (xs : List A) → (keep p xs ≡ []) ↔ ((x : A) → Memᴰ x xs → p x ≡ false)
  keep-eq-nil p [] = (λ e x m. elim m [ ], λ h. refl)
  keep-eq-nil p (x ∷ xs) = (
    λ e. elim (Bool-cases (p x)) [
      | inl t ↦ cc (rw t at e)
      | inr t ↦ keep-cons p x xs t ((keep-eq-nil p xs).0 (rw t at e))
    ],
    λ h. rw (h x (head refl)) ((keep-eq-nil p xs).1 (λ y m. h y (tail m))),
  )

  -- A list that is not empty, with the proof of it.
  abbrev pub non_empty : List A → Option (List A)
  non_empty [] = none
  non_empty (x ∷ xs) = some (x ∷ xs)

  pub non_empty-eq-some : (xs ys : List A) → non_empty xs ≡ some ys → xs ≡ ys
  non_empty-eq-some [] ys e = cc
  non_empty-eq-some (x ∷ xs) ys e = cc

  pub non_empty-mem : {a : A} {xs : List A} → Memᴰ a xs → non_empty xs ≡ some xs
  non_empty-mem (head e) = refl
  non_empty-mem (tail m) = refl

module _ {ℓ κ} {A : Type ℓ} {B : Type κ} where
  -- `for x in xs { out = append(out, f(x)...) }`.
  abbrev pub collect : (A → List B) → List A → List B
  collect f [] = []
  collect f (x ∷ xs) = f x ++ collect f xs

  -- The body of a loop that skips an element by `continue` when there is nothing to read.
  abbrev pub on_some : Option A → (A → List B) → List B
  on_some none f = []
  on_some (some a) f = f a

  pub collect-mem :
      (f : A → List B) {b : B} {x : A} {xs : List A}
      → Memᴰ x xs
      → Memᴰ b (f x)
      → Memᴰ b (collect f xs)
  collect-mem f (head {x = y} {xs} q) m = Memᴰ.append_left (collect f xs) (rw q at m)
  collect-mem f (tail {x = y} {xs} n) m = Memᴰ.append_right (f y) (collect-mem f n m)

  pub mem-collect :
      (f : A → List B) {b : B} (xs : List A)
      → Memᴰ b (collect f xs)
      → (x : A) × Memᴰ x xs × Memᴰ b (f x)
  mem-collect f [] m = elim m [ ]
  mem-collect f (x ∷ xs) m = elim (Memᴰ.append_cases (f x) m) [
    | inl here ↦ (x, head refl, here)
    | inr there ↦ let below = mem-collect f xs there in (below.0, tail below.1, below.2)
  ]

  eq-nil_cons :
      (f : A → List B) (x : A) (xs : List A)
      → f x ≡ []
      → ((y : A) → Memᴰ y xs → f y ≡ [])
      → (y : A) → Memᴰ y (x ∷ xs)
      → f y ≡ []
  eq-nil_cons f x xs e later y (head q) = rw q e
  eq-nil_cons f x xs e later y (tail m) = later y m

  -- Such a loop appends nothing exactly when no round does.
  pub collect-eq-nil :
      (f : A → List B) (xs : List A) → (collect f xs ≡ []) ↔ ((x : A) → Memᴰ x xs → f x ≡ [])
  collect-eq-nil f [] = (λ e x m. elim m [ ], λ h. refl)
  collect-eq-nil f (x ∷ xs) = (
    λ e.
        let parts = (append-eq-nil (f x) (collect f xs)).0 e in
        eq-nil_cons f x xs parts.0 ((collect-eq-nil f xs).0 parts.1),
    λ h.
        (append-eq-nil (f x) (collect f xs)).1
          (h x (head refl), (collect-eq-nil f xs).1 (λ y m. h y (tail m))),
  )

  pub on_some-eq-nil :
      (o : Option A) (f : A → List B) → (on_some o f ≡ []) ↔ ((a : A) → o ≡ some a → f a ≡ [])
  on_some-eq-nil none f = (λ e a h. cc, λ h. refl)
  on_some-eq-nil (some a) f = (λ e b h. cc, λ h. h a refl)

  pub mem-on_some :
      (o : Option A) (f : A → List B) {b : B}
      → Memᴰ b (on_some o f)
      → (a : A) × (o ≡ some a) × Memᴰ b (f a)
  mem-on_some none f m = elim m [ ]
  mem-on_some (some a) f m = (a, refl, m)

  pub on_some-mem :
      (o : Option A) (f : A → List B) {a : A} {b : B}
      → o ≡ some a
      → Memᴰ b (f a)
      → Memᴰ b (on_some o f)
  on_some-mem o f e m = rw e m

module _ {ℓ} {B : Type ℓ} where
  -- What a single test appends.
  abbrev pub only_if : Bool → B → List B
  only_if true b = b ∷ []
  only_if false b = []

  pub only_if-eq-nil : (t : Bool) (b : B) → (only_if t b ≡ []) ↔ (t ≡ false)
  only_if-eq-nil true b = (λ e. cc, λ e. cc)
  only_if-eq-nil false b = (λ e. refl, λ e. refl)

-- Some of the members of a list, in its order.
pub data Sublist {ℓ} {A : Type ℓ} : List A → List A → Type ℓ where
  ends : Sublist [] []
  takes : (x : A) (xs ys : List A) → Sublist xs ys → Sublist (x ∷ xs) (x ∷ ys)
  skips : (y : A) (xs ys : List A) → Sublist xs ys → Sublist xs (y ∷ ys)

if-Sublist {ℓ} :
    {A : Type ℓ} (b : Bool) (x : A) (xs ys : List A)
    → Sublist xs ys
    → Sublist (if b then x ∷ xs else xs) (x ∷ ys)
if-Sublist true x xs ys below = takes x xs ys below
if-Sublist false x xs ys below = skips x xs ys below

pub keep-Sublist {ℓ} : {A : Type ℓ} (p : A → Bool) (xs : List A) → Sublist (keep p xs) xs
keep-Sublist p [] = ends
keep-Sublist p (x ∷ xs) = if-Sublist (p x) x (keep p xs) xs (keep-Sublist p xs)

pub Sublist_refl {ℓ} : {A : Type ℓ} (xs : List A) → Sublist xs xs
Sublist_refl [] = ends
Sublist_refl (x ∷ xs) = takes x xs xs (Sublist_refl xs)
