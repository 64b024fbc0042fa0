-- ===== src/Auth/Answers.antt =====
-- server/cvtservice/auth.go and server/cvtservice/interceptors.go: the environment's keys get answers.
use cvt.Base.{
  ℕ, suc, String, List, [], ◌∷◌, false, Option, none, some, ◌≡◌, sym, ◌∙◌, subst, ap, inl, inr,
  Memᴰ, Bool-cases, if-true, if-false,
}
use mathlib.Core.List.Memᴰ.{head, tail}
use text.Mathlib.Text.{◌==◌}
use text.Mathlib.TextEquality.{eq_iff}
use cvt.Base.Dict.{get, get-put, get-put_self}
use cvt.Base.Fallible.{Fallible, done, ◌>>=◌, bind-done, wrap-done, done_inj}
use cvt.Auth.{
  AuthConfig, ApiKeyInfo, ApiKeyStore, add, is_after, unexpired, env_info, add_env_keys,
  with_defaults, add_file_keys, KeyFiles, listed_keys, load_from_file, load_api_keys,
  is_health_check, valid_or_refused, validate_api_key, unary_auth_interceptor,
}
use cvt.Auth.Access.{Listed, Origin, load_api_keys-EveryKey}

abbrev Held : String → ApiKeyStore → Type 0
Held k store = (info : ApiKeyInfo) × (get k store ≡ some info)

module _ (k : String) where
  add-Held : (info : ApiKeyInfo) (store : ApiKeyStore) → Held k store → Held k (add info store)
  add-Held info store (found, held) = elim (Bool-cases (info.key == k)) [
    | inl same ↦ (info, get-put info.key k info store ∙ if-true _ _ same)
    | inr apart ↦ (found, get-put info.key k info store ∙ if-false _ _ apart ∙ held)
  ]

  add_env_keys-keeps :
      (now : ℕ) (show : ℕ → String) (i : ℕ) (keys : List String) (store : ApiKeyStore)
      → Held k store
      → Held k (add_env_keys now show i keys store)
  unfolding add_env_keys
  add_env_keys-keeps now show i [] store held = held
  add_env_keys-keeps now show i (key ∷ keys) store held =
      add_env_keys-keeps now show (suc i) keys _ (add-Held (env_info now show i key) store held)

  add_env_keys-Held :
      (now : ℕ) (show : ℕ → String) (i : ℕ) (keys : List String) (store : ApiKeyStore)
      → Memᴰ k keys
      → Held k (add_env_keys now show i keys store)
  unfolding add_env_keys
  add_env_keys-Held now show i [] store m = elim m [ ]
  add_env_keys-Held now show i (key ∷ keys) store (head same) =
      add_env_keys-keeps now show (suc i) keys _ (
        env_info now show i key,
        subst (λ j. get j (add (env_info now show i key) store) ≡ some (env_info now show i key))
            (sym same) (get-put_self key (env_info now show i key) store),
      )
  add_env_keys-Held now show i (key ∷ keys) store (tail m) =
      add_env_keys-Held now show (suc i) keys _ m

  add_file_keys-keeps :
      (now : ℕ) (infos : List ApiKeyInfo) (store : ApiKeyStore)
      → Held k store
      → Held k (add_file_keys now infos store)
  unfolding add_file_keys
  add_file_keys-keeps now [] store held = held
  add_file_keys-keeps now (info ∷ infos) store held =
      add_file_keys-keeps now infos _ (elim (Bool-cases (info.key == "")) [
        | inl empty ↦ subst (Held k) (sym (if-true _ _ empty)) held
        | inr full ↦
            subst (Held k) (sym (if-false _ _ full)) (add-Held (with_defaults now info) store held)
      ])

  load_api_keys-Held :
      (files : KeyFiles) (show : ℕ → String) (now : ℕ) (config : AuthConfig) {store : ApiKeyStore}
      → load_api_keys files show now config ≡ done store
      → Memᴰ k config.keys
      → Held k store
  unfolding load_api_keys load_from_file
  load_api_keys-Held files show now config {store} e m =
      elim (Bool-cases (config.keys_file == "")) [
        | inl no_file ↦ subst (Held k) (done_inj (sym (if-true _ _ no_file) ∙ e)) in_env
        | inr a_file ↦
            let (listed, read, added) = bind-done (listed_keys files config.keys_file) _ (
              wrap-done _ (load_from_file files now config.keys_file _)
                (sym (if-false _ _ a_file) ∙ e)) in
            subst (Held k) (done_inj added) (add_file_keys-keeps now listed _ in_env)
      ]
    where
      in_env : Held k (add_env_keys now show 0 config.keys [])
      in_env = add_env_keys-Held now show 0 config.keys [] m

  validate_api_key-Held :
      (now : ℕ) (store : ApiKeyStore) (keys : List String) (info : ApiKeyInfo)
      → get k store ≡ some info
      → info.expires_at ≡ none
      → validate_api_key now store (some (k ∷ keys)) ≡ done info
  validate_api_key-Held now store keys info held forever =
      ap (λ o. valid_or_refused (unexpired now o)) held
      ∙ ap valid_or_refused (if-false _ _ (ap (is_after now) forever))

  Origin-forever :
      (keys : List String) (listed : List ApiKeyInfo) (info : ApiKeyInfo)
      → Origin keys listed k info
      → ((entry : ApiKeyInfo) → Memᴰ entry listed → (entry.key == k) ≡ false)
      → info.expires_at ≡ none
  Origin-forever keys listed info (inl (m, forever)) unlisted = forever
  Origin-forever keys listed info (inr (entry, m, same, full, expiry)) unlisted =
      let apart = unlisted entry m in let together = (eq_iff entry.key k).1 same in cc

  -- A request with a key of the environment that the file does not list is answered by the handler,
  -- at any time and for every method.
  pub unary_auth_interceptor-answers {ℓ} :
      {A : Type ℓ} (files : KeyFiles) (show : ℕ → String) (loaded now : ℕ) (config : AuthConfig)
      (store : ApiKeyStore) (method : String) (keys : List String)
      (handler : Option ApiKeyInfo → Fallible A)
      → load_api_keys files show loaded config ≡ done store
      → Memᴰ k config.keys
      → ((listed : List ApiKeyInfo) (entry : ApiKeyInfo)
          → Listed files config listed
          → Memᴰ entry listed
          → (entry.key == k) ≡ false)
      → (seen : Option ApiKeyInfo) × (unary_auth_interceptor now store method
            (some (k ∷ keys))
            handler
          ≡ handler seen)
  unfolding unary_auth_interceptor
  unary_auth_interceptor-answers files show loaded now config store method keys handler e m
        unlisted =
      elim (Bool-cases (is_health_check method)) [
        | inl health ↦ (none, if-true _ _ health)
        | inr guarded ↦
            let (info, held) = load_api_keys-Held files show loaded config e m in
            let (listed, read, every) = load_api_keys-EveryKey files show loaded config e in
            let forever =
              Origin-forever config.keys listed info (every k info held)
                (λ entry. unlisted listed entry read) in
            (
              some info,
              if-false _ _ guarded
                  ∙ ap (λ f. f >>= (λ i. handler (some i)))
                      (validate_api_key-Held now store keys info held forever),
            )
      ]
