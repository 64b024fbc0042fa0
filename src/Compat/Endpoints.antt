-- ===== src/Compat/Endpoints.antt =====
-- The loops over paths and methods that the checks of both engines repeat: the tables of methods,
-- and the visit of every operation that both documents have.
use cvt.Base.{
  String, List, [], ◌∷◌, Option, some, ◌≡◌, ◌↔◌, Memᴰ, collect, on_some, collect-eq-nil,
  on_some-eq-nil,
}
use mathlib.Core.List.Memᴰ
use mathlib.Core.List.Memᴰ.{head, tail}
use cvt.OpenApi.{PathItem, Operation, Paths, Finder}

-- A row of the `methods` tables: the method's name and the operation's field.
pub record Method : Type 0 where
  pub name : String
  pub operation : PathItem → Option Operation

abbrev pub body_methods : List Method
body_methods =
    record { name = "POST"; operation = λ p. p.post_op }
    ∷ record { name = "PUT"; operation = λ p. p.put_op }
    ∷ record { name = "PATCH"; operation = λ p. p.patch_op }
    ∷ []

abbrev pub five_methods : List Method
five_methods =
    record { name = "GET"; operation = λ p. p.get_op }
    ∷ record { name = "POST"; operation = λ p. p.post_op }
    ∷ record { name = "PUT"; operation = λ p. p.put_op }
    ∷ record { name = "DELETE"; operation = λ p. p.delete_op }
    ∷ record { name = "PATCH"; operation = λ p. p.patch_op }
    ∷ []

abbrev pub seven_methods : List Method
seven_methods =
    record { name = "GET"; operation = λ p. p.get_op }
    ∷ record { name = "POST"; operation = λ p. p.post_op }
    ∷ record { name = "PUT"; operation = λ p. p.put_op }
    ∷ record { name = "DELETE"; operation = λ p. p.delete_op }
    ∷ record { name = "PATCH"; operation = λ p. p.patch_op }
    ∷ record { name = "HEAD"; operation = λ p. p.head_op }
    ∷ record { name = "OPTIONS"; operation = λ p. p.options_op }
    ∷ []

pub five_sub_seven : (m : Method) → Memᴰ m five_methods → Memᴰ m seven_methods
five_sub_seven m row = Memᴰ.append_left _ row

pub body_sub_seven : (m : Method) → Memᴰ m body_methods → Memᴰ m seven_methods
body_sub_seven m (head e) = tail (head e)
body_sub_seven m (tail (head e)) = tail (tail (head e))
body_sub_seven m (tail (tail (head e))) = tail (tail (tail (tail (head e))))
body_sub_seven m (tail (tail (tail r))) = elim r [ ]

-- What a check does for one operation that both documents have: path, method, old, new.
abbrev pub Check : Type 0 → Type 0
Check C = String → String → Operation → Operation → List C

module _ {C : Type 0} where
  -- One row: skipped where either document lacks the operation.
  unfoldable pub check_method : Check C → String → PathItem → PathItem → Method → List C
  check_method check path old_item new_item m =
      on_some (m.operation old_item)
        λ old_op. on_some (m.operation new_item) λ new_op. check path m.name old_op new_op

  -- One path of the new document: skipped where the old one does not find it.
  unfoldable pub check_path : Finder → List Method → Check C → Paths → String × PathItem → List C
  check_path finder methods check old (path, new_item) =
      on_some (finder.find old path)
        λ old_item. collect (check_method check path old_item new_item) methods

  unfoldable pub check_shared : Finder → List Method → Check C → Paths → Paths → List C
  check_shared finder methods check old new = collect (check_path finder methods check old) new

-- A condition on every operation that both documents have under these methods.
pub record OnShared (finder : Finder) (methods : List Method) (P : Operation → Operation → Type 0)
    (old new : Paths) : Type 0 where
  pub each :
      (path : String) (old_item new_item : PathItem) (m : Method) (old_op new_op : Operation)
      → Memᴰ (path, new_item) new
      → finder.find old path ≡ some old_item
      → Memᴰ m methods
      → m.operation old_item ≡ some old_op
      → m.operation new_item ≡ some new_op
      → P old_op new_op

module _ (finder : Finder) (methods : List Method) (old : Paths) where
  -- What is known of every operation of the old document.
  abbrev pub OnFound : (Operation → Type 0) → Type 0
  OnFound Q =
      (path : String) (item : PathItem) (m : Method) (o : Operation)
      → finder.find old path ≡ some item
      → Memᴰ m methods
      → m.operation item ≡ some o
      → Q o

module _ {C : Type 0} (finder : Finder) (methods : List Method) (old : Paths) where
  check_path-eq-nil :
      (check : Check C) (P : Operation → Operation → Type 0) (Q : Operation → Type 0)
      (e : String × PathItem)
      → OnFound finder methods old Q
      → ((path name : String) (o n : Operation) → Q o → (check path name o n ≡ []) ↔ P o n)
      → (check_path finder methods check old e ≡ []) ↔ (
          (old_item : PathItem) (m : Method) (o n : Operation)
          → finder.find old e.0 ≡ some old_item
          → Memᴰ m methods
          → m.operation old_item ≡ some o
          → m.operation e.1 ≡ some n
          → P o n)
  unfolding check_path check_method
  check_path-eq-nil check P Q (path, item) known iff = (
    λ e old_item m o n found row is_old is_new.
        (iff path m.name o n (known path old_item m o found row is_old)).0 (
          (on_some-eq-nil _ _).0
            ((on_some-eq-nil _ _).0
              ((collect-eq-nil _ methods).0 ((on_some-eq-nil _ _).0 e old_item found) m row) o
              is_old)
            n is_new),
    λ h. (on_some-eq-nil _ _).1 λ old_item found. (collect-eq-nil _ methods).1 λ m row.
        (on_some-eq-nil _ _).1 λ o is_old. (on_some-eq-nil _ _).1 λ n is_new.
          (iff path m.name o n (known path old_item m o found row is_old)).1
            (h old_item m o n found row is_old is_new),
  )

  -- The visit reports nothing exactly when the check's condition holds of every shared operation.
  pub check_shared-eq-nil :
      (check : Check C) (P : Operation → Operation → Type 0) (Q : Operation → Type 0) (new : Paths)
      → OnFound finder methods old Q
      → ((path name : String) (o n : Operation) → Q o → (check path name o n ≡ []) ↔ P o n)
      → (check_shared finder methods check old new ≡ []) ↔ OnShared finder methods P old new
  unfolding check_shared
  check_shared-eq-nil check P Q new known iff = (
    λ e. record {
      each = λ path old_item new_item m o n here found row is_old is_new.
          (check_path-eq-nil check P Q (path, new_item) known iff).0
            ((collect-eq-nil _ new).0 e (path, new_item) here) old_item m o n found row is_old
            is_new;
    },
    λ h. (collect-eq-nil _ new).1 λ entry here.
        (check_path-eq-nil check P Q entry known iff).1 λ old_item m o n found row is_old is_new.
          h.each entry.0 old_item entry.1 m o n here found row is_old is_new,
  )
