-- ===== src/Base/Fallible.antt =====
-- A result, or the text of an error: what a Go function that returns a value and an `error` returns.
use Prim.Native.String.{String}
use mathlib.Core.Path.{◌≡◌, ap}

pub data Fallible {ℓ} (A : Type ℓ) : Type ℓ where
  done : A → Fallible A
  error : (message : String) → Fallible A

-- `if err != nil { return err }`.
infixl 5 ◌>>=◌
abbrev pub ◌>>=◌ {ℓ κ} : {A : Type ℓ} → {B : Type κ} → Fallible A → (A → Fallible B) → Fallible B
done a >>= f = f a
error message >>= f = error message

-- The same, with the error's text wrapped.
abbrev pub wrap {ℓ} : {A : Type ℓ} → (String → String) → Fallible A → Fallible A
wrap w (done a) = done a
wrap w (error message) = error (w message)

-- A value was returned, so each step returned one.
pub bind-done {ℓ κ} :
    {A : Type ℓ} {B : Type κ} {b : B} (x : Fallible A) (f : A → Fallible B)
    → (x >>= f) ≡ done b
    → (a : A) × (x ≡ done a) × (f a ≡ done b)
bind-done (done a) f e = (a, λ i. done a, e)
bind-done (error message) f e = cc

pub wrap-done {ℓ} :
    {A : Type ℓ} {a : A} (w : String → String) (x : Fallible A) → wrap w x ≡ done a → x ≡ done a
wrap-done w (done a) e = e
wrap-done w (error message) e = cc

pub done_inj {ℓ} : {A : Type ℓ} {a b : A} → done a ≡ done b → a ≡ b
done_inj e = cc

-- A step after one that returned a value.
pub done-bind {ℓ κ} :
    {A : Type ℓ} {B : Type κ} {a : A} (x : Fallible A) (f : A → Fallible B)
    → x ≡ done a
    → (x >>= f) ≡ f a
done-bind x f e = ap (λ o. o >>= f) e
