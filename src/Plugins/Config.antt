-- ===== src/Plugins/Config.antt =====
-- internal/pluginmgr/config.go: `Load`, with what the operating system and the YAML decoder return as
-- arguments.
pub mod Loaded
use cvt.Base.{
  ℕ, String, List, [], ◌∷◌, Bool, true, false, not, ◌&&◌, ◌||◌, Option, none, some, eqb, concat,
  if◌then◌else◌,
}
use text.Mathlib.Text.{◌==◌}
use cvt.Base.Dict.{Dict, get}
use cvt.Base.Fallible.{Fallible, done, error, ◌>>=◌, wrap}
use cvt.Plugins.{is_plugin_name, validate_binary_path}
use cvt.Plugins.Expansion.{expand_env}

-- Go's `int` and `time.Duration`, of which zero alone is told apart, and one for the version.
pub data ℤ : Type 0 where
  pos negsuc : ℕ → ℤ

pub record PluginConfig : Type 0 where
  pub binary : String
  pub timeout : ℤ
  pub on_error : String
  pub secrets : List String
  pub config : Dict String

pub record HookBindings : Type 0 where
  pub fetch_schema : String
  pub register_consumer_usage : String
  pub on_breaking_change_detected : String
  pub on_validation_failed : String

pub record Config : Type 0 where
  pub config_version : ℤ
  pub plugins : Dict PluginConfig
  pub hooks : HookBindings

-- What `Load` asks of the operating system and of the YAML package. A file that does not exist is
-- none.
pub record System : Type 0 where
  pub lookup_env : String → Option String
  pub user_home_dir : Fallible String
  pub read_file : String → Option (Fallible String)
  pub decode : String → Fallible Config
  pub decimal : ℤ → String

abbrev pub empty_config : Config
empty_config = record {
  config_version = pos 0;
  plugins = [];
  hooks = record {
    fetch_schema = "";
    register_consumer_usage = "";
    on_breaking_change_detected = "";
    on_validation_failed = "";
  };
}

abbrev pub is_zero : ℤ → Bool
is_zero (pos n) = eqb n 0
is_zero (negsuc n) = false

abbrev pub is_supported : ℤ → Bool
is_supported (pos n) = eqb n 0 || eqb n 1
is_supported (negsuc n) = false

-- 5 * time.Second, in nanoseconds.
abbrev pub default_call_timeout : ℤ
default_call_timeout = pos 5000000000

abbrev pub quoted : String → String
quoted s = concat ("\"" ∷ s ∷ "\"" ∷ [])

abbrev pub valid_on_error : String → String → Fallible String
valid_on_error name on_error =
    if on_error == ""
    then done "fail_closed"
    else (if on_error == "fail_closed" || on_error == "fail_open"
        then done on_error
        else error (
            concat (
              "plugin "
              ∷ quoted name
              ∷ ": on_error must be \"fail_closed\" or \"fail_open\", got "
              ∷ quoted on_error
              ∷ [])))

-- The fuel of `expand_env` never runs out.
abbrev pub or_ended : Option (Fallible String) → Fallible String
or_ended none = error "out of fuel"
or_ended (some r) = r

-- The first secret that the configuration does not hold.
abbrev pub missing_secret : Dict String → List String → Option String
missing_secret config [] = none
missing_secret config (sk ∷ sks) = elim (get sk config) [
  | none ↦ some sk
  | some v ↦ missing_secret config sks
]

abbrev pub with_secrets : String → PluginConfig → Option String → Fallible PluginConfig
with_secrets name p none = done p
with_secrets name p (some sk) = error (
    concat
      ("plugin " ∷ quoted name ∷ ": secret " ∷ quoted sk ∷ " declared but not set in config:" ∷ []))

-- The error of a binding to a plugin that is not declared.
abbrev pub check_hook : Dict PluginConfig → String → String → Option String
check_hook plugins hook_name plugin_name =
    if plugin_name == "" then none else (elim (get plugin_name plugins) [
      | some p ↦ none
      | none ↦ some (
          concat ("hook " ∷ hook_name ∷ " references undeclared plugin " ∷ quoted plugin_name ∷ []))
    ])

-- The hooks and the plugins that they are bound to.
abbrev pub bindings : HookBindings → List (String × String)
bindings h =
    ("fetch_schema", h.fetch_schema)
    ∷ ("register_consumer_usage", h.register_consumer_usage)
    ∷ ("on_breaking_change_detected", h.on_breaking_change_detected)
    ∷ ("on_validation_failed", h.on_validation_failed)
    ∷ []

abbrev pub or_else : Option String → Option String → Option String
or_else none later = later
or_else (some message) later = some message

-- The first error of the checks.
abbrev pub check_hooks : Dict PluginConfig → List (String × String) → Option String
check_hooks plugins [] = none
check_hooks plugins ((hook_name, plugin_name) ∷ bs) =
    or_else (check_hook plugins hook_name plugin_name) (check_hooks plugins bs)

unfoldable pub validate_hooks : Config → Option String
validate_hooks cfg = check_hooks cfg.plugins (bindings cfg.hooks)

abbrev pub with_hooks : Config → Option String → Fallible Config
with_hooks cfg none = done cfg
with_hooks cfg (some message) = error message

module _ (sys : System) where
  unfoldable pub expand_config : String → Dict String → Fallible (Dict String)
  expand_config name [] = done []
  expand_config name ((k, v) ∷ m) =
      wrap (λ e. concat ("plugin " ∷ quoted name ∷ " config[" ∷ quoted k ∷ "]: " ∷ e ∷ []))
        (or_ended (expand_env sys.lookup_env v))
      >>= λ resolved. expand_config name m >>= λ rest. done ((k, resolved) ∷ rest)

  -- The body of the loop over the plugins.
  unfoldable pub load_plugin : String → String → PluginConfig → Fallible PluginConfig
  load_plugin plugin_root name p =
      if is_plugin_name name
      then (wrap (λ e. concat ("plugin " ∷ quoted name ∷ ": " ∷ e ∷ []))
            (validate_binary_path sys.user_home_dir p.binary plugin_root)
          >>= λ resolved. valid_on_error name p.on_error >>= λ on_error.
              expand_config name p.config >>= λ config.
              with_secrets name
                (record {
                  binary = resolved;
                  timeout = if is_zero p.timeout then default_call_timeout else p.timeout;
                  on_error = on_error;
                  secrets = p.secrets;
                  config = config;
                })
                (missing_secret config p.secrets))
      else error (
          concat
            ("plugin name " ∷ quoted name ∷ " invalid: must match ^[a-z][a-z0-9-]{0,31}$" ∷ []))

  unfoldable pub load_plugins : String → Dict PluginConfig → Fallible (Dict PluginConfig)
  load_plugins plugin_root [] = done []
  load_plugins plugin_root ((name, p) ∷ m) = load_plugin plugin_root name p >>= λ loaded.
      load_plugins plugin_root m >>= λ rest. done ((name, loaded) ∷ rest)

  unfoldable pub load_decoded : String → Config → Fallible Config
  load_decoded plugin_root cfg =
      if is_supported cfg.config_version
      then (load_plugins plugin_root cfg.plugins >>= λ plugins.
          with_hooks (record cfg { plugins = plugins })
            (validate_hooks (record cfg { plugins = plugins })))
      else error (
          concat (
            "unsupported config_version "
            ∷ sys.decimal cfg.config_version
            ∷ " (supported: 1); upgrade cvt"
            ∷ []))

  unfoldable pub load_read : String → String → Option (Fallible String) → Fallible Config
  load_read path plugin_root none = done empty_config
  load_read path plugin_root (some (error message)) =
      error (concat ("read " ∷ path ∷ ": " ∷ message ∷ []))
  load_read path plugin_root (some (done raw)) =
      wrap (λ e. concat ("parse " ∷ path ∷ ": " ∷ e ∷ [])) (sys.decode raw)
      >>= load_decoded plugin_root

  -- `os.Getenv(EnvDisablePlugins) == "1"`.
  abbrev pub is_disabled : Bool
  is_disabled = elim (sys.lookup_env "CVT_DISABLE_PLUGINS") [ none ↦ false | some v ↦ v == "1" ]

  unfoldable pub load : String → String → Fallible Config
  load path plugin_root =
      if is_disabled then done empty_config else load_read path plugin_root (sys.read_file path)
