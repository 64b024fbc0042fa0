-- ===== src/Auth/Tests.antt =====
-- server/cvtservice/auth.go and server/cvtservice/interceptors.go: a key of the environment and one of
-- a file, which expires at 50.
use text.Mathlib.Text.{◌==◌}
use cvt.Base.{
  ℕ, sym, subst, String, List, [], ◌∷◌, true, false, Option, none, some, ◌≡◌, refl, ◌⊎◌, inl, inr,
  Memᴰ,
}
use mathlib.Core.List.Memᴰ.{head, tail}
use cvt.Base.Dict.{get, put}
use cvt.Base.Fallible.{Fallible, done, error, done_inj}
use cvt.Plugins.Expansion.{cut, strip}
use cvt.Auth.{
  AuthConfig, ApiKeyInfo, ApiKeyStore, env_info, KeyFiles, load_api_keys, unary_auth_interceptor,
  is_health_check, is_after, parse_api_keys_from_env, split_keys, parse_keys, add_env_keys,
  add_file_keys, load_from_file,
}
use cvt.Auth.Access.{Origin, Listed, unary_auth_interceptor-Authorized}
use cvt.Auth.Answers.{unary_auth_interceptor-answers}

abbrev file_key : ApiKeyInfo
file_key = record {
  key = "f1";
  name = "ci";
  created_at = some 1;
  expires_at = some 50;
  scopes = [];
}

abbrev one_file : KeyFiles
one_file = record { read_file = λ path. done "{}"; unmarshal = λ content. done (file_key ∷ []) }

abbrev both_sources : AuthConfig
both_sources = record { enabled = true; keys = "k1" ∷ []; keys_file = "keys.json" }

abbrev digit : ℕ → String
digit n = "1"

abbrev two_keys : ApiKeyStore
two_keys = ("k1", env_info 7 digit 0 "k1") ∷ ("f1", file_key) ∷ []

keys_of_text : parse_api_keys_from_env (λ s. s) "k1:ops,,:odd" ≡ "k1" ∷ ":odd" ∷ []
unfolding split_keys parse_keys cut strip
keys_of_text = refl

two_keys-loaded : load_api_keys one_file digit 7 both_sources ≡ done two_keys
unfolding load_api_keys load_from_file add_env_keys add_file_keys put
two_keys-loaded = refl

abbrev name_of : Option ApiKeyInfo → Fallible String
name_of none = done "nobody"
name_of (some info) = done info.name

accepted :
    unary_auth_interceptor 40 two_keys "/cvt.Validator/GetSchema" (some ("f1" ∷ [])) name_of
    ≡ done "ci"
unfolding unary_auth_interceptor strip get
accepted = refl

expired :
    unary_auth_interceptor 60 two_keys "/cvt.Validator/GetSchema" (some ("f1" ∷ [])) name_of
    ≡ error "invalid API key"
unfolding unary_auth_interceptor strip get
expired = refl

unary_auth_interceptor-Authorized_example :
    (is_health_check "/cvt.Validator/GetSchema" ≡ true)
    ⊎ ((key : String) × (keys : List String) × (info : ApiKeyInfo) × (listed : List ApiKeyInfo)
        × Listed one_file both_sources listed
        × (some ("f1" ∷ []) ≡ some (key ∷ keys))
        × Origin both_sources.keys listed key info
        × (is_after 40 info.expires_at ≡ false)
        × (name_of (some info) ≡ done "ci"))
unary_auth_interceptor-Authorized_example =
    unary_auth_interceptor-Authorized one_file digit 7 40 both_sources two_keys
      "/cvt.Validator/GetSchema" (some ("f1" ∷ [])) name_of "ci" two_keys-loaded accepted

unlisted_k1 :
    (listed : List ApiKeyInfo) (entry : ApiKeyInfo)
    → Listed one_file both_sources listed
    → Memᴰ entry listed
    → (entry.key == "k1") ≡ false
unlisted_k1 listed entry (inl (no_file, same)) m = cc
unlisted_k1 listed entry (inr (a_file, read)) m =
    only (subst (λ l. Memᴰ entry l) (sym (done_inj read)) m)
  where
    only : Memᴰ entry (file_key ∷ []) → (entry.key == "k1") ≡ false
    only (head same) = subst (λ e. (e.key == "k1") ≡ false) (sym same) refl
    only (tail n) = elim n [ ]

unary_auth_interceptor-answers_example :
    (seen : Option ApiKeyInfo) × (unary_auth_interceptor 60 two_keys "/cvt.Validator/GetSchema"
        (some ("k1" ∷ []))
        name_of
      ≡ name_of seen)
unary_auth_interceptor-answers_example =
    unary_auth_interceptor-answers "k1" one_file digit 7 60 both_sources two_keys
      "/cvt.Validator/GetSchema" [] name_of two_keys-loaded (head refl) unlisted_k1
