-- ===== src/Plugins.antt =====
-- internal/pluginmgr: the configuration of the plugins (config.go) and the record of those that are
-- installed (state.go). What a call of the operating system returns is an argument.
pub mod Paths
pub mod Expansion
pub mod Config
pub mod State
pub mod Manager
pub mod Hooks
pub mod Tests
use Prim.Native.Char.{code}
use Prim.Native.String.{count}
use Prim.Native.String as Str
use cvt.Base.{
  ℕ, String, List, [], ◌∷◌, Bool, true, false, ◌&&◌, ◌||◌, Option, none, some, eqb, leb, concat,
  if◌then◌else◌,
}
use text.Mathlib.Text.{◌==◌}
use cvt.Base.Fallible.{Fallible, done, error, ◌>>=◌, wrap}
use cvt.Plugins.Paths.{is_abs, clean, join_paths, rel}
use cvt.Plugins.Expansion.{strip}

abbrev pub is_lower : ℕ → Bool
is_lower c = leb 97 c && leb c 122

abbrev pub is_name_char : ℕ → Bool
is_name_char c = is_lower c || ((leb 48 c && leb c 57) || eqb c 45)

abbrev pub all_name_chars : String → Bool
all_name_chars Str.[] = true
all_name_chars (Str.◌∷◌ c s) = is_name_char (code c) && all_name_chars s

-- `^[a-z][a-z0-9-]{0,31}$`.
unfoldable pub is_plugin_name : String → Bool
is_plugin_name Str.[] = false
is_plugin_name (Str.◌∷◌ c s) = is_lower (code c) && (all_name_chars s && leb (count s) 31)

-- A leading `~` is the home directory, with what `os.UserHomeDir` returns.
unfoldable pub expand_home : Fallible String → String → Fallible String
expand_home home p =
    if p == "~" then wrap (λ m. concat ("home dir: " ∷ m ∷ [])) home else (elim (strip "~/" p) [
      | none ↦ done p
      | some rest ↦
          wrap (λ m. concat ("home dir: " ∷ m ∷ [])) home >>= λ dir. done (join_paths dir rest)
    ])

-- The tests on what `Rel` returns.
abbrev pub under : String → String → Option (List String) → Fallible String
under plugin_root expanded none =
    error
      (concat ("binary: must be under " ∷ clean plugin_root ∷ " (got " ∷ clean expanded ∷ ")" ∷ []))
under plugin_root expanded (some []) = error (
    concat
      ("binary: must be a file under " ∷ clean plugin_root ∷ ", not the directory itself" ∷ []))
under plugin_root expanded (some (t ∷ ts)) =
    if t == ".."
    then error (
        concat
          ("binary: must be under " ∷ clean plugin_root ∷ " (got " ∷ clean expanded ∷ ")" ∷ []))
    else done (clean expanded)

abbrev pub within_root : String → String → String → Fallible String
within_root plugin_root bin expanded =
    if is_abs expanded
    then under plugin_root expanded (rel plugin_root expanded)
    else error (concat ("binary: must be absolute, got \"" ∷ bin ∷ "\"" ∷ []))

-- `Rel` cleans its arguments, so it is given them as they are.
unfoldable pub validate_binary_path : Fallible String → String → String → Fallible String
validate_binary_path home bin plugin_root =
    if bin == ""
    then error "binary: required"
    else (wrap (λ m. concat ("binary: " ∷ m ∷ [])) (expand_home home bin) >>= λ expanded.
        within_root plugin_root bin expanded)
