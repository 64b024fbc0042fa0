-- ===== src/Plugins/Config/Loaded.antt =====
-- internal/pluginmgr/config.go: what a configuration that `Load` returns is known to satisfy.
use cvt.Base.{
  String, List, [], ◌∷◌, ◌++◌, concat, Bool, true, false, ◌||◌, Option, none, some, ◌≡◌, ◌≢◌, ◌⊎◌,
  refl, sym, ap, ◌∙◌, subst, inl, inr, Memᴰ, Bool-cases, Option-cases, some_inj, apart_test, eq_iff,
  if-true, if-false, if◌then◌else◌,
}
use mathlib.Core.List.Memᴰ.{head, tail}
use text.Mathlib.Text.{◌==◌}
use cvt.Base.Dict.{Dict, get}
use cvt.Base.Fallible.{Fallible, done, error, wrap, bind-done, wrap-done, done_inj}
use cvt.Plugins.{is_plugin_name, expand_home, under, within_root, validate_binary_path}
use cvt.Plugins.Paths.{is_abs, clean, clean_elements, absolute, rel, relative, leaves}
use cvt.Plugins.Paths.Cleaned.{Plain, clean_elements-Plain, relative-below}
use cvt.Plugins.Config.{
  ℤ, PluginConfig, Config, System, is_zero, is_supported, default_call_timeout, valid_on_error,
  missing_secret, with_secrets, check_hook, bindings, or_else, check_hooks, validate_hooks,
  with_hooks, empty_config, expand_config, load_plugin, load_plugins, load_decoded, load_read, load,
  is_disabled, quoted,
}

-- A path below a root: the root's elements and at least one more, none of which goes up.
pub record IsBelow (plugin_root binary : String) : Type 0 where
  pub name : String
  pub names : List String
  pub is_path : binary ≡ absolute (clean_elements plugin_root ++ name ∷ names)
  pub plain : Plain (clean_elements plugin_root ++ name ∷ names)

pub record PluginLoaded (plugin_root name : String) (p : PluginConfig) : Type 0 where
  pub named : is_plugin_name name ≡ true
  pub below : IsBelow plugin_root p.binary
  pub policy : (p.on_error ≡ "fail_closed") ⊎ (p.on_error ≡ "fail_open")
  pub timed : is_zero p.timeout ≡ false
  pub secrets_set : (sk : String) → Memᴰ sk p.secrets → (v : String) × (get sk p.config ≡ some v)

pub record IsLoaded (plugin_root : String) (cfg : Config) : Type 0 where
  pub each :
      (name : String) (p : PluginConfig)
      → Memᴰ (name, p) cfg.plugins
      → PluginLoaded plugin_root name p
  pub bound :
      (hook name : String)
      → Memᴰ (hook, name) (bindings cfg.hooks)
      → name ≢ ""
      → (p : PluginConfig) × (get name cfg.plugins ≡ some p)

under-IsBelow :
    (root expanded b : String) (o : Option (List String))
    → is_abs expanded ≡ true
    → rel root expanded ≡ o
    → under root expanded o ≡ done b
    → IsBelow root b
unfolding rel clean leaves
under-IsBelow root expanded b none rooted r e = cc
under-IsBelow root expanded b (some []) rooted r e = cc
under-IsBelow root expanded b (some (t ∷ ts)) rooted r e = elim (Bool-cases (t == "..")) [
  | inl up ↦ cc (sym (if-true _ _ up) ∙ e)
  | inr down ↦ elim (Bool-cases (is_abs root)) [
    | inr floating ↦ cc (sym (if-false _ _ floating) ∙ r)
    | inl anchored ↦
        let parts : relative (clean_elements root) (clean_elements expanded) ≡ t ∷ ts =
          some_inj (sym (if-true _ _ anchored) ∙ r) in
        let whole =
          relative-below (clean_elements root) (clean_elements expanded) (ap leaves parts ∙ down) in
        let at_path : clean_elements expanded ≡ clean_elements root ++ t ∷ ts =
          whole ∙ ap (λ l. clean_elements root ++ l) parts in
        record {
          name = t;
          names = ts;
          is_path =
              sym (done_inj (sym (if-false _ _ down) ∙ e))
              ∙ if-true _ _ rooted
              ∙ ap absolute at_path;
          plain = subst Plain at_path (clean_elements-Plain expanded rooted);
        }
  ]
]

pub validate_binary_path-IsBelow :
    (home : Fallible String) (bin root b : String)
    → validate_binary_path home bin root ≡ done b
    → IsBelow root b
unfolding validate_binary_path
validate_binary_path-IsBelow home bin root b e = elim (Bool-cases (bin == "")) [
  | inl bare ↦ cc (sym (if-true _ _ bare) ∙ e)
  | inr given ↦
      let (expanded, _, fits) =
        bind-done (wrap (λ m. concat ("binary: " ∷ m ∷ [])) (expand_home home bin))
          (within_root root bin) (sym (if-false _ _ given) ∙ e) in
      elim (Bool-cases (is_abs expanded)) [
        | inl rooted ↦
            under-IsBelow root expanded b (rel root expanded) rooted refl
              (sym (if-true _ _ rooted) ∙ fits)
        | inr floating ↦ cc (sym (if-false _ _ floating) ∙ fits)
      ]
]

policy_of :
    (s r : String) (message : String) (b d : Bool)
    → (s == "fail_closed") ≡ b
    → (s == "fail_open") ≡ d
    → (if b || d then done s else error message) ≡ done r
    → (r ≡ "fail_closed") ⊎ (r ≡ "fail_open")
policy_of s r message true d p q e = inl (sym (done_inj e) ∙ (eq_iff s "fail_closed").0 p)
policy_of s r message false true p q e = inr (sym (done_inj e) ∙ (eq_iff s "fail_open").0 q)
policy_of s r message false false p q e = cc

valid_on_error-policy :
    (name on_error r : String)
    → valid_on_error name on_error ≡ done r
    → (r ≡ "fail_closed") ⊎ (r ≡ "fail_open")
valid_on_error-policy name on_error r e = elim (Bool-cases (on_error == "")) [
  | inl bare ↦ inl (sym (done_inj (sym (if-true _ _ bare) ∙ e)))
  | inr given ↦ policy_of on_error r _ _ _ refl refl (sym (if-false _ _ given) ∙ e)
]

missing_secret-none :
    (config : Dict String) (sks : List String)
    → missing_secret config sks ≡ none
    → (sk : String) → Memᴰ sk sks
    → (v : String) × (get sk config ≡ some v)
missing_secret-none config [] e sk m = elim m [ ]
missing_secret-none config (s ∷ ss) e sk m = elim (Option-cases (get s config)) [
  | inl missing ↦ cc (rw (missing, missing_secret) at e)
  | inr (v, found) ↦ elim m [
    | head same ↦ (v, ap (λ x. get x config) same ∙ found)
    | tail later ↦ missing_secret-none config ss (rw (found, missing_secret) at e) sk later
  ]
]

with_secrets-done :
    (name : String) (p q : PluginConfig) (o : Option String)
    → with_secrets name p o ≡ done q
    → (o ≡ none) × (p ≡ q)
with_secrets-done name p q none e = (refl, done_inj e)
with_secrets-done name p q (some sk) e = cc

timeout-timed : (t : ℤ) → is_zero (if is_zero t then default_call_timeout else t) ≡ false
timeout-timed t = elim (Bool-cases (is_zero t)) [
  | inl zero ↦ ap is_zero (if-true _ _ zero)
  | inr other ↦ ap is_zero (if-false _ _ other) ∙ other
]

module _ (sys : System) (plugin_root : String) where
  load_plugin-PluginLoaded :
      (name : String) (p q : PluginConfig)
      → load_plugin sys plugin_root name p ≡ done q
      → PluginLoaded plugin_root name q
  unfolding load_plugin
  load_plugin-PluginLoaded name p q e = elim (Bool-cases (is_plugin_name name)) [
    | inr other ↦ cc (sym (if-false _ _ other) ∙ e)
    | inl named ↦
        let (resolved, found, e₁) =
          bind-done
            (wrap (λ e. concat ("plugin " ∷ quoted name ∷ ": " ∷ e ∷ []))
              (validate_binary_path sys.user_home_dir p.binary plugin_root))
            _ (sym (if-true _ _ named) ∙ e) in
        let (on_error, policy, e₂) = bind-done (valid_on_error name p.on_error) _ e₁ in
        let (config, expanded, e₃) = bind-done (expand_config sys name p.config) _ e₂ in
        let (secrets, same) = with_secrets-done name _ q _ e₃ in
        subst (PluginLoaded plugin_root name) same (record {
          named = named;
          below = validate_binary_path-IsBelow _ _ _ resolved (wrap-done _ _ found);
          policy = valid_on_error-policy name p.on_error on_error policy;
          timed = timeout-timed p.timeout;
          secrets_set = missing_secret-none config p.secrets secrets;
        })
  ]

  load_plugins-PluginLoaded :
      (m n : Dict PluginConfig)
      → load_plugins sys plugin_root m ≡ done n
      → (name : String) (p : PluginConfig) → Memᴰ (name, p) n
      → PluginLoaded plugin_root name p
  unfolding load_plugins
  load_plugins-PluginLoaded [] n e name p here =
      elim (subst (λ l. Memᴰ (name, p) l) (sym (done_inj e)) here) [ ]
  load_plugins-PluginLoaded ((k, c) ∷ m) n e name p here =
      let (q, loaded, e₁) = bind-done (load_plugin sys plugin_root k c) _ e in
      let (rest, others, e₂) = bind-done (load_plugins sys plugin_root m) _ e₁ in
      let here' : Memᴰ (name, p) ((k, q) ∷ rest) =
        subst (λ l. Memᴰ (name, p) l) (sym (done_inj e₂)) here in
      elim here' [
        | head same ↦
            let same_name : name ≡ k = ap (λ x. x.0) same in
            let same_plugin : p ≡ q = ap (λ x. x.1) same in
            subst (λ x. PluginLoaded plugin_root x p) (sym same_name)
              (subst (PluginLoaded plugin_root k) (sym same_plugin)
                (load_plugin-PluginLoaded k c q loaded))
        | tail later ↦ load_plugins-PluginLoaded m rest others name p later
      ]

  or_else-none : (o later : Option String) → or_else o later ≡ none → (o ≡ none) × (later ≡ none)
  or_else-none none later e = (refl, e)
  or_else-none (some message) later e = cc

  check_hook-bound :
      (plugins : Dict PluginConfig) (hook name : String)
      → check_hook plugins hook name ≡ none
      → name ≢ ""
      → (p : PluginConfig) × (get name plugins ≡ some p)
  check_hook-bound plugins hook name e named = elim (Option-cases (get name plugins)) [
    | inr found ↦ found
    | inl missing ↦ cc (rw missing at (sym (if-false _ _ (apart_test named)) ∙ e))
  ]

  check_hooks-bound :
      (plugins : Dict PluginConfig) (bs : List (String × String))
      → check_hooks plugins bs ≡ none
      → (hook name : String) → Memᴰ (hook, name) bs
      → name ≢ ""
      → (p : PluginConfig) × (get name plugins ≡ some p)
  check_hooks-bound plugins [] e hook name here named = elim here [ ]
  check_hooks-bound plugins ((h, n) ∷ bs) e hook name (head same) named =
      let (checked, _) = or_else-none (check_hook plugins h n) (check_hooks plugins bs) e in
      let same_name : name ≡ n = ap (λ x. x.1) same in
      check_hook-bound plugins h name (ap (check_hook plugins h) same_name ∙ checked) named
  check_hooks-bound plugins ((h, n) ∷ bs) e hook name (tail later) named =
      let (_, rest) = or_else-none (check_hook plugins h n) (check_hooks plugins bs) e in
      check_hooks-bound plugins bs rest hook name later named

  with_hooks-done :
      (cfg c : Config) (o : Option String) → with_hooks cfg o ≡ done c → (o ≡ none) × (cfg ≡ c)
  with_hooks-done cfg c none e = (refl, done_inj e)
  with_hooks-done cfg c (some message) e = cc

  load_decoded-IsLoaded :
      (cfg c : Config) → load_decoded sys plugin_root cfg ≡ done c → IsLoaded plugin_root c
  unfolding load_decoded validate_hooks
  load_decoded-IsLoaded cfg c e = elim (Bool-cases (is_supported cfg.config_version)) [
    | inr other ↦ cc (sym (if-false _ _ other) ∙ e)
    | inl supported ↦
        let (plugins, loaded, e₁) =
          bind-done (load_plugins sys plugin_root cfg.plugins) _
            (sym (if-true _ _ supported) ∙ e) in
        let (checked, same) = with_hooks-done _ c _ e₁ in
        subst (IsLoaded plugin_root) same (record {
          each = load_plugins-PluginLoaded cfg.plugins plugins loaded;
          bound = check_hooks-bound plugins (bindings cfg.hooks) checked;
        })
  ]

  empty-IsLoaded : IsLoaded plugin_root empty_config
  empty-IsLoaded = record {
    each = λ name p here. elim here [ ];
    bound = λ hook name here named. absurd (
        named (elim here [
          | head same ↦ ap (λ x. x.1) same
          | tail (head same) ↦ ap (λ x. x.1) same
          | tail (tail (head same)) ↦ ap (λ x. x.1) same
          | tail (tail (tail (head same))) ↦ ap (λ x. x.1) same
          | tail (tail (tail (tail none_left))) ↦ elim none_left [ ]
        ]));
  }

  load_read-IsLoaded :
      (path : String) (o : Option (Fallible String)) (cfg : Config)
      → load_read sys path plugin_root o ≡ done cfg
      → IsLoaded plugin_root cfg
  unfolding load_read
  load_read-IsLoaded path none cfg e = subst (IsLoaded plugin_root) (done_inj e) empty-IsLoaded
  load_read-IsLoaded path (some (error message)) cfg e = cc
  load_read-IsLoaded path (some (done raw)) cfg e =
      let (decoded, _, loaded) =
        bind-done (wrap (λ e. concat ("parse " ∷ path ∷ ": " ∷ e ∷ [])) (sys.decode raw))
          (load_decoded sys plugin_root) e in
      load_decoded-IsLoaded decoded cfg loaded

  -- Every configuration that `Load` returns is well-formed: each plugin has a valid name, a binary
  -- below the plugin directory whose path never goes up, a policy that is fail_closed or fail_open, a
  -- timeout that is not zero, and a value for every secret that it declares; and each hook that is
  -- bound names a plugin of the configuration.
  pub load-IsLoaded :
      (path : String) (cfg : Config)
      → load sys path plugin_root ≡ done cfg
      → IsLoaded plugin_root cfg
  unfolding load
  load-IsLoaded path cfg e = elim (Bool-cases (is_disabled sys)) [
    | inl disabled ↦
        subst (IsLoaded plugin_root) (done_inj (sym (if-true _ _ disabled) ∙ e)) empty-IsLoaded
    | inr enabled ↦
        load_read-IsLoaded path (sys.read_file path) cfg (sym (if-false _ _ enabled) ∙ e)
  ]
