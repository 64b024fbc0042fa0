-- ===== src/Auth/Access.antt =====
-- server/cvtservice/auth.go and server/cvtservice/interceptors.go: who gets an answer.
use cvt.Base.{
  ℕ, suc, String, List, [], ◌∷◌, true, false, Option, none, some, ◌≡◌, refl, sym, ◌∙◌, subst, ap,
  ◌⊎◌, inl, inr, Memᴰ, Bool-cases, some_inj, if-true, if-false, if◌then◌else◌,
}
use mathlib.Core.List.Memᴰ.{head, tail}
use text.Mathlib.Text.{◌==◌}
use text.Mathlib.TextEquality.{eq_iff}
use cvt.Base.Dict.{get, get-put}
use cvt.Base.Fallible.{Fallible, done, bind-done, wrap-done, done_inj}
use cvt.Auth.{
  AuthConfig, ApiKeyInfo, ApiKeyStore, add, is_after, unexpired, env_info, add_env_keys,
  with_defaults, add_file_keys, KeyFiles, listed_keys, load_from_file, load_api_keys,
  is_health_check, valid_or_refused, validate_api_key, unary_auth_interceptor,
}

-- Where a key of the store comes from: the environment's keys, which do not expire, or the keys that
-- a file lists, with their expiry.
abbrev pub Origin : List String → List ApiKeyInfo → String → ApiKeyInfo → Type 0
Origin keys listed k info =
    (Memᴰ k keys × (info.expires_at ≡ none))
    ⊎ ((entry : ApiKeyInfo) × Memᴰ entry listed
        × (entry.key ≡ k)
        × ((k == "") ≡ false)
        × (info.expires_at ≡ entry.expires_at))

abbrev pub EveryKey : (String → ApiKeyInfo → Type 0) → ApiKeyStore → Type 0
EveryKey From store = (k : String) (info : ApiKeyInfo) → get k store ≡ some info → From k info

EveryKey-nil : (From : String → ApiKeyInfo → Type 0) → EveryKey From []
unfolding get
EveryKey-nil From k info e = cc

module _ {From : String → ApiKeyInfo → Type 0} where
  add-EveryKey :
      (info : ApiKeyInfo) (store : ApiKeyStore)
      → From info.key info
      → EveryKey From store
      → EveryKey From (add info store)
  add-EveryKey info store fresh every k found e = elim (Bool-cases (info.key == k)) [
    | inl same ↦
        subst (λ i. From k i) (some_inj (sym (if-true _ _ same) ∙ read))
          (subst (λ j. From j info) ((eq_iff info.key k).0 same) fresh)
    | inr apart ↦ every k found (sym (if-false _ _ apart) ∙ read)
  ]
    where
      read : (if info.key == k then some info else get k store) ≡ some found
      read = sym (get-put info.key k info store) ∙ e

  add_env_keys-EveryKey :
      (now : ℕ) (show : ℕ → String) (i : ℕ) (keys : List String) (store : ApiKeyStore)
      → ((j : ℕ) (k : String) → Memᴰ k keys → From k (env_info now show j k))
      → EveryKey From store
      → EveryKey From (add_env_keys now show i keys store)
  unfolding add_env_keys
  add_env_keys-EveryKey now show i [] store fresh every = every
  add_env_keys-EveryKey now show i (key ∷ keys) store fresh every =
      add_env_keys-EveryKey now show (suc i) keys _ (λ j k m. fresh j k (tail m))
        (add-EveryKey (env_info now show i key) store (fresh i key (head refl)) every)

  add_file_keys-EveryKey :
      (now : ℕ) (infos : List ApiKeyInfo) (store : ApiKeyStore)
      → ((info : ApiKeyInfo)
          → Memᴰ info infos
          → (info.key == "") ≡ false
          → From info.key (with_defaults now info))
      → EveryKey From store
      → EveryKey From (add_file_keys now infos store)
  unfolding add_file_keys
  add_file_keys-EveryKey now [] store fresh every = every
  add_file_keys-EveryKey now (info ∷ infos) store fresh every =
      add_file_keys-EveryKey now infos _ (λ j m. fresh j (tail m))
        (elim (Bool-cases (info.key == "")) [
          | inl empty ↦ subst (EveryKey From) (sym (if-true _ _ empty)) every
          | inr full ↦
              subst (EveryKey From) (sym (if-false _ _ full))
                (add-EveryKey (with_defaults now info) store (fresh info (head refl) full) every)
        ])

-- The keys that the configuration's file lists, none without a file.
abbrev pub Listed : KeyFiles → AuthConfig → List ApiKeyInfo → Type 0
Listed files config listed =
    (((config.keys_file == "") ≡ true) × (listed ≡ []))
    ⊎ (((config.keys_file == "") ≡ false) × (listed_keys files config.keys_file ≡ done listed))

module _ (files : KeyFiles) (show : ℕ → String) (now : ℕ) (config : AuthConfig) where
  from_env :
      (listed : List ApiKeyInfo)
      → EveryKey (Origin config.keys listed) (add_env_keys now show 0 config.keys [])
  from_env listed =
      add_env_keys-EveryKey now show 0 config.keys [] (λ j k m. inl (m, refl)) (EveryKey-nil _)

  -- Every key of a store that was loaded comes from the configuration.
  pub load_api_keys-EveryKey :
      {store : ApiKeyStore}
      → load_api_keys files show now config ≡ done store
      → (listed : List ApiKeyInfo) × Listed files config listed
        × EveryKey (Origin config.keys listed) store
  unfolding load_api_keys load_from_file
  load_api_keys-EveryKey {store} e = elim (Bool-cases (config.keys_file == "")) [
    | inl no_file ↦ (
      [],
      inl (no_file, refl),
      subst (EveryKey (Origin config.keys [])) (done_inj (sym (if-true _ _ no_file) ∙ e))
          (from_env []),
    )
    | inr a_file ↦
        let (listed, read, added) = bind-done (listed_keys files config.keys_file) _ (
          wrap-done _ (load_from_file files now config.keys_file _)
            (sym (if-false _ _ a_file) ∙ e)) in
        (
          listed,
          inr (a_file, read),
          subst (EveryKey (Origin config.keys listed)) (done_inj added) (
              add_file_keys-EveryKey now listed _ (λ info m full. inr (info, m, refl, full, refl))
                (from_env listed)),
        )
  ]

unexpired-some :
    (now : ℕ) (o : Option ApiKeyInfo) {info : ApiKeyInfo}
    → unexpired now o ≡ some info
    → (o ≡ some info) × (is_after now info.expires_at ≡ false)
unexpired-some now none e = cc
unexpired-some now (some found) {info} e = elim (Bool-cases (is_after now found.expires_at)) [
  | inl late ↦ cc (sym (if-true _ _ late) ∙ e)
  | inr in_time ↦
      let same : (found ≡ info) = some_inj (sym (if-false _ _ in_time) ∙ e) in
      (ap some same, subst (λ i. is_after now i.expires_at ≡ false) same in_time)
]

valid_or_refused-done :
    (o : Option ApiKeyInfo) {info : ApiKeyInfo} → valid_or_refused o ≡ done info → o ≡ some info
valid_or_refused-done none e = cc
valid_or_refused-done (some found) e = ap some (done_inj e)

validate_api_key-done :
    (now : ℕ) (store : ApiKeyStore) (metadata : Option (List String)) {info : ApiKeyInfo}
    → validate_api_key now store metadata ≡ done info
    → (key : String) × (keys : List String) × (metadata ≡ some (key ∷ keys))
      × (get key store ≡ some info)
      × (is_after now info.expires_at ≡ false)
validate_api_key-done now store none e = cc
validate_api_key-done now store (some []) e = cc
validate_api_key-done now store (some (key ∷ keys)) e =
    let (held, in_time) = unexpired-some now (get key store) (valid_or_refused-done _ e) in
    (key, keys, refl, held, in_time)

-- An answer of the interceptor with the keys of a configuration that was loaded: the method is a
-- health check, or the first value of `x-api-key` is a key of the environment or of the file, which
-- has not expired, and the handler answered with its information.
pub unary_auth_interceptor-Authorized {ℓ} :
    {A : Type ℓ} (files : KeyFiles) (show : ℕ → String) (loaded now : ℕ) (config : AuthConfig)
    (store : ApiKeyStore) (method : String) (metadata : Option (List String))
    (handler : Option ApiKeyInfo → Fallible A) (answer : A)
    → load_api_keys files show loaded config ≡ done store
    → unary_auth_interceptor now store method metadata handler ≡ done answer
    → (is_health_check method ≡ true)
      ⊎ ((key : String) × (keys : List String) × (info : ApiKeyInfo) × (listed : List ApiKeyInfo)
          × Listed files config listed
          × (metadata ≡ some (key ∷ keys))
          × Origin config.keys listed key info
          × (is_after now info.expires_at ≡ false)
          × (handler (some info) ≡ done answer))
unfolding unary_auth_interceptor
unary_auth_interceptor-Authorized files show loaded now config store method metadata handler answer
      e answered =
    elim (Bool-cases (is_health_check method)) [
      | inl health ↦ inl health
      | inr guarded ↦
          let (info, valid, handled) =
            bind-done (validate_api_key now store metadata) (λ i. handler (some i))
              (sym (if-false _ _ guarded) ∙ answered) in
          let (key, keys, sent, held, in_time) = validate_api_key-done now store metadata valid in
          let (listed, read, every) = load_api_keys-EveryKey files show loaded config e in
          inr (key, keys, info, listed, read, sent, every key info held, in_time, handled)
    ]
