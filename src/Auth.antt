-- ===== src/Auth.antt =====
-- server/cvtservice/auth.go and server/cvtservice/interceptors.go: the API keys of the server, and
-- the interceptors that let a request through. The file of keys, its JSON, the white space around a
-- key and the clock are parameters; logging and metrics are left out.
mod Access
mod Answers
mod Tests
use Prim.Native.Char.{code}
use Prim.Native.String as Str
use cvt.Base.{
  ℕ, suc, String, List, [], ◌∷◌, Bool, true, false, Option, none, some, eqb, ltb, concat,
  if◌then◌else◌,
}
use text.Mathlib.Text.{◌==◌}
use cvt.Base.Dict.{Dict, get, put}
use cvt.Plugins.Expansion.{cut, strip}
use cvt.Plugins.Paths.{before_first}
use cvt.Base.Fallible.{Fallible, done, error, ◌>>=◌, wrap}

pub record AuthConfig : Type 0 where
  pub enabled : Bool
  pub keys : List String
  pub keys_file : String

-- The zero time of `CreatedAt` is none, as is a nil `ExpiresAt`.
pub record ApiKeyInfo : Type 0 where
  pub key : String
  pub name : String
  pub created_at : Option ℕ
  pub expires_at : Option ℕ
  pub scopes : List String

abbrev pub ApiKeyStore : Type 0
ApiKeyStore = Dict ApiKeyInfo

-- `strings.Split(s, ",")`.
unfoldable pub split_keys : String → List String
split_keys Str.[] = "" ∷ []
split_keys (Str.◌∷◌ c s) =
    let rest = split_keys s in if eqb (code c) 44 then "" ∷ rest else before_first c rest

-- The key of `key:name`, where the key is not empty.
abbrev pub before_name : String → Option (String × String) → String
before_name part none = part
before_name part (some (key, name)) = if key == "" then part else key

unfoldable pub parse_keys : (trim : String → String) → List String → List String
parse_keys trim [] = []
parse_keys trim (part ∷ parts) =
    let rest = parse_keys trim parts in
    let key = trim part in if key == "" then rest else before_name key (cut ":" key) ∷ rest

abbrev pub parse_api_keys_from_env : (trim : String → String) → String → List String
parse_api_keys_from_env trim keys_env = parse_keys trim (split_keys keys_env)

unfoldable pub load_auth_config_from_env :
    (get_env : String → String) → (trim : String → String) → AuthConfig
load_auth_config_from_env get_env trim = record {
  enabled = get_env "CVT_API_KEY_ENABLED" == "true";
  keys_file = get_env "CVT_API_KEYS_FILE";
  keys =
      let keys_env = get_env "CVT_API_KEYS" in
      if keys_env == "" then [] else parse_api_keys_from_env trim keys_env;
}

-- `Add`.
abbrev pub add : ApiKeyInfo → ApiKeyStore → ApiKeyStore
add info store = put info.key info store

abbrev pub is_after : ℕ → Option ℕ → Bool
is_after now none = false
is_after now (some expiry) = ltb expiry now

abbrev pub unexpired : ℕ → Option ApiKeyInfo → Option ApiKeyInfo
unexpired now none = none
unexpired now (some info) = if is_after now info.expires_at then none else some info

-- `Validate`.
abbrev pub validate : ℕ → String → ApiKeyStore → Option ApiKeyInfo
validate now key store = unexpired now (get key store)

abbrev pub env_info : ℕ → (show : ℕ → String) → ℕ → String → ApiKeyInfo
env_info now show i key = record {
  key = key;
  name = concat ("env-key-" ∷ show (suc i) ∷ []);
  created_at = some now;
  expires_at = none;
  scopes = "*" ∷ [];
}

unfoldable pub add_env_keys : ℕ → (show : ℕ → String) → ℕ → List String → ApiKeyStore → ApiKeyStore
add_env_keys now show i [] store = store
add_env_keys now show i (key ∷ keys) store =
    add_env_keys now show (suc i) keys (add (env_info now show i key) store)

-- A key of the file, with the values that it leaves out.
abbrev pub with_defaults : ℕ → ApiKeyInfo → ApiKeyInfo
with_defaults now info = record info {
  name = if info.name == "" then "unnamed" else info.name;
  created_at = elim info.created_at [ none ↦ some now | some created ↦ some created ];
}

unfoldable pub add_file_keys : ℕ → List ApiKeyInfo → ApiKeyStore → ApiKeyStore
add_file_keys now [] store = store
add_file_keys now (info ∷ infos) store =
    add_file_keys now infos (if info.key == "" then store else add (with_defaults now info) store)

-- The keys that a file lists, with what `os.ReadFile` and `json.Unmarshal` answer.
pub record KeyFiles : Type 0 where
  pub read_file : String → Fallible String
  pub unmarshal : String → Fallible (List ApiKeyInfo)

abbrev pub listed_keys : KeyFiles → String → Fallible (List ApiKeyInfo)
listed_keys files path =
    wrap (λ e. concat ("failed to read file: " ∷ e ∷ [])) (files.read_file path) >>= (λ content.
      wrap (λ e. concat ("failed to parse JSON: " ∷ e ∷ [])) (files.unmarshal content))

unfoldable pub load_from_file : KeyFiles → ℕ → String → ApiKeyStore → Fallible ApiKeyStore
load_from_file files now path store =
    listed_keys files path >>= (λ infos. done (add_file_keys now infos store))

unfoldable pub load_api_keys :
    KeyFiles → (show : ℕ → String) → ℕ → AuthConfig → Fallible ApiKeyStore
load_api_keys files show now config =
    let store = add_env_keys now show 0 config.keys [] in
    if config.keys_file == ""
    then done store
    else wrap (λ e. concat ("failed to load API keys from file: " ∷ e ∷ []))
        (load_from_file files now config.keys_file store)

-- `HasPrefix(method, "/grpc.health.v1.Health/")`.
abbrev pub is_health_check : String → Bool
is_health_check method = elim (strip "/grpc.health.v1.Health/" method) [
  | none ↦ false
  | some rest ↦ true
]

abbrev pub valid_or_refused : Option ApiKeyInfo → Fallible ApiKeyInfo
valid_or_refused none = error "invalid API key"
valid_or_refused (some info) = done info

-- The values of `x-api-key`, where the request has metadata.
abbrev pub validate_api_key : ℕ → ApiKeyStore → Option (List String) → Fallible ApiKeyInfo
validate_api_key now store none = error "missing metadata"
validate_api_key now store (some []) = error "missing API key"
validate_api_key now store (some (key ∷ keys)) = valid_or_refused (validate now key store)

module _ {ℓ} {A : Type ℓ} where
  -- The handler gets the key of the context, if there is one.
  unfoldable pub unary_auth_interceptor :
      ℕ
      → ApiKeyStore
      → (method : String) → Option (List String)
      → (Option ApiKeyInfo → Fallible A)
      → Fallible A
  unary_auth_interceptor now store method metadata handler =
      if is_health_check method
      then handler none
      else (validate_api_key now store metadata >>= (λ info. handler (some info)))

  -- A stream's handler gets no key.
  unfoldable pub stream_auth_interceptor :
      ℕ → ApiKeyStore → (method : String) → Option (List String) → Fallible A → Fallible A
  stream_auth_interceptor now store method metadata handled =
      if is_health_check method
      then handled
      else (validate_api_key now store metadata >>= (λ info. handled))
