-- ===== src/Plugins/Expansion.antt =====
-- internal/pluginmgr/config.go: `expandEnv`, which replaces `${VAR}` and `${VAR:-default}`.
pub mod Terminates
use Prim.Native.Char.{code}
use Prim.Native.String.{count}
use Prim.Native.String as Str
use cvt.Base.{
  ℕ, suc, zero, String, [], ◌∷◌, Bool, true, false, Option, none, some, eqb, concat, if◌then◌else◌,
}
use text.Mathlib.Text.{◌==◌}
use cvt.Base.Fallible.{Fallible, done, error}

-- The rest of a text behind a prefix.
unfoldable pub strip : String → String → Option String
strip Str.[] s = some s
strip (Str.◌∷◌ c p) Str.[] = none
strip (Str.◌∷◌ c p) (Str.◌∷◌ d s) =
    let rest = strip p s in if eqb (code c) (code d) then rest else none

-- The parts of a text before and behind the first place where a text stands: `s[:i]` and
-- `s[i+len(sep):]` where `i := strings.Index(s, sep)`, none for a negative index.
unfoldable pub cut : String → String → Option (String × String)
cut sep Str.[] = elim (strip sep "") [ none ↦ none | some rest ↦ some ("", rest) ]
cut sep (Str.◌∷◌ c s) =
    let later = cut sep s in
    elim (strip sep (Str.◌∷◌ c s)) [
      | some rest ↦ some ("", rest)
      | none ↦ elim later [ none ↦ none | some parts ↦ some (Str.◌∷◌ c parts.0, parts.1) ]
    ]

-- The name, and the default if there is one.
unfoldable pub name_and_default : String → String × Option String
name_and_default expr = elim (cut ":-" expr) [
  | none ↦ (expr, none)
  | some parts ↦ (parts.0, some parts.1)
]

-- A variable that is unset or empty is replaced by its default.
abbrev pub value_or : String → Option String → Option String → Fallible String
value_or name (some val) none =
    if val == ""
    then error (concat ("env var \"" ∷ name ∷ "\" unset and no default" ∷ []))
    else done val
value_or name (some val) (some def) = if val == "" then done def else done val
value_or name none none = error (concat ("env var \"" ∷ name ∷ "\" unset and no default" ∷ []))
value_or name none (some def) = done def

-- `os.LookupEnv`.
module _ (lookup_env : String → Option String) where
  unfoldable pub value_of : String → Fallible String
  value_of expr = let (name, def) = name_and_default expr in value_or name (lookup_env name) def

  abbrev pub prefixed : String → String → Option (Fallible String) → Option (Fallible String)
  prefixed before val none = none
  prefixed before val (some (error message)) = some (error message)
  prefixed before val (some (done rest)) = some (done (concat (before ∷ val ∷ rest ∷ [])))

  abbrev pub with_value :
      String → Fallible String → Option (Fallible String) → Option (Fallible String)
  with_value before (error message) rest = some (error message)
  with_value before (done val) rest = prefixed before val rest

  -- The body of the loop behind the first `${`, over the loop for what is left.
  unfoldable pub expand_to :
      (String → Option (Fallible String))
      → String
      → Option (String × String)
      → Option (Fallible String)
  expand_to expand_rest before none = some (error "unterminated ${ in value")
  expand_to expand_rest before (some parts) =
      with_value before (value_of parts.0) (expand_rest parts.1)

  unfoldable pub expand_at :
      (String → Option (Fallible String))
      → String
      → Option (String × String)
      → Option (Fallible String)
  expand_at expand_rest s none = some (done s)
  expand_at expand_rest s (some parts) = expand_to expand_rest parts.0 (cut "}" parts.1)

  -- The loop, on fuel: none where it runs out.
  unfoldable pub expand : ℕ → String → Option (Fallible String)
  expand zero s = none
  expand (suc fuel) s = if s == "" then some (done "") else expand_at (expand fuel) s (cut "${" s)

  -- Enough fuel is one more than the characters of the text.
  unfoldable pub expand_env : String → Option (Fallible String)
  expand_env s = expand (suc (count s)) s
