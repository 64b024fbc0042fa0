-- ===== src/Plugins/Paths.antt =====
-- What the plugin manager uses of Go's path/filepath, on Unix: `Clean`, `Join`, `IsAbs`, and `Rel` to
-- an absolute path. A cleaned path is kept as its elements.
pub mod Cleaned
use Prim.Native.Char.{Char, code}
use Prim.Native.String as Str
use cvt.Base.{
  String, List, [], ◌∷◌, ◌++◌, Bool, true, false, not, ◌&&◌, ◌||◌, Option, none, some, eqb, concat,
  if◌then◌else◌,
}
use text.Mathlib.Text.{◌==◌}

abbrev pub before_first : Char → List String → List String
before_first c [] = Str.◌∷◌ c "" ∷ []
before_first c (t ∷ ts) = Str.◌∷◌ c t ∷ ts

-- The elements between the slashes.
unfoldable pub split : String → List String
split Str.[] = "" ∷ []
split (Str.◌∷◌ c s) =
    let rest = split s in if eqb (code c) 47 then "" ∷ rest else before_first c rest

abbrev pub is_abs : String → Bool
is_abs Str.[] = false
is_abs (Str.◌∷◌ c s) = eqb (code c) 47

-- `..` drops the last element, unless there is none to drop.
abbrev pub drop_last : (rooted : Bool) → List String → List String
drop_last true [] = []
drop_last true (t ∷ ts) = ts
drop_last false [] = ".." ∷ []
drop_last false (t ∷ ts) = if t == ".." then ".." ∷ t ∷ ts else ts

-- One element of the path, over the elements so far, the last one first.
abbrev pub add_element : (rooted : Bool) → String → List String → List String
add_element rooted s ts =
    if s == "" || s == "." then ts else (if s == ".." then drop_last rooted ts else s ∷ ts)

unfoldable pub add_elements : (rooted : Bool) → List String → List String → List String
add_elements rooted [] ts = ts
add_elements rooted (s ∷ ss) ts = add_elements rooted ss (add_element rooted s ts)

abbrev pub reverse_onto : List String → List String → List String
reverse_onto [] ts = ts
reverse_onto (s ∷ ss) ts = reverse_onto ss (s ∷ ts)

-- The elements of `filepath.Clean(path)`.
unfoldable pub clean_elements : String → List String
clean_elements path = reverse_onto (add_elements (is_abs path) (split path) []) []

abbrev pub with_slashes : List String → String
with_slashes [] = ""
with_slashes (s ∷ []) = s
with_slashes (s ∷ t ∷ ts) = concat (s ∷ "/" ∷ with_slashes (t ∷ ts) ∷ [])

-- `/` and the elements.
unfoldable pub absolute : List String → String
absolute ts = concat ("/" ∷ with_slashes ts ∷ [])

unfoldable pub clean : String → String
clean path =
    if is_abs path
    then absolute (clean_elements path)
    else (elim (clean_elements path) [ [] ↦ "." | t ∷ ts ↦ with_slashes (t ∷ ts) ])

-- `filepath.Join` of two elements.
unfoldable pub join_paths : String → String → String
join_paths dir name =
    if dir == ""
    then (if name == "" then "" else clean name)
    else (if name == "" then clean dir else clean (concat (dir ∷ "/" ∷ name ∷ [])))

abbrev pub last_or : String → List String → String
last_or other [] = other
last_or other (t ∷ ts) = last_or t ts

-- `filepath.Base` of a path that is absolute and clean.
unfoldable pub base_of : String → String
base_of path = last_or "/" (clean_elements path)

abbrev pub ups : List String → List String → List String
ups [] ts = ts
ups (s ∷ ss) ts = ".." ∷ ups ss ts

-- What is left of both after the elements that they share, written as `Rel` does.
unfoldable pub relative : List String → List String → List String
relative [] ts = ts
relative (s ∷ ss) [] = ups (s ∷ ss) []
relative (s ∷ ss) (t ∷ ts) =
    let rest = relative ss ts in if s == t then rest else ups (s ∷ ss) (t ∷ ts)

-- The elements of `filepath.Rel(root, path)` for an absolute path, none where `Rel` fails: no `.`
-- for a path that is the root.
unfoldable pub rel : String → String → Option (List String)
rel root path =
    if is_abs root then some (relative (clean_elements root) (clean_elements path)) else none

-- `rel == ".." || strings.HasPrefix(rel, "../")`.
unfoldable pub leaves : List String → Bool
leaves [] = false
leaves (t ∷ ts) = t == ".."
