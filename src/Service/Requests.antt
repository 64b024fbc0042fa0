-- ===== src/Service/Requests.antt =====
-- server/cvtservice/validation_utils.go: the tests on the parts of a request, which return the text
-- of an error, if there is one. A length is in bytes, as in Go.
use Prim.Native.Char.{code}
use Prim.Native.String.{len}
use Prim.Native.String as Str
use cvt.Base.{
  ℕ, String, [], ◌∷◌, Bool, true, ◌&&◌, ◌||◌, Option, none, some, if◌then◌else◌, concat, ltb, leb,
  eqb,
}

abbrev pub max_schema_id_length : ℕ
max_schema_id_length = 255

-- 10 * 1024 * 1024.
abbrev pub max_schema_content_bytes : ℕ
max_schema_content_bytes = 10485760

-- `unicode.IsSpace`.
abbrev pub is_space : ℕ → Bool
is_space c =
    (leb 9 c && leb c 13)
    || (eqb c 32
        || (eqb c 133
            || (eqb c 160
                || (eqb c 5760
                    || ((leb 8192 c && leb c 8202)
                        || (eqb c 8232
                            || (eqb c 8233 || (eqb c 8239 || (eqb c 8287 || eqb c 12288)))))))))

-- `strings.TrimSpace(s) == ""`.
unfoldable pub is_blank : String → Bool
is_blank Str.[] = true
is_blank (Str.◌∷◌ c s) = is_space (code c) && is_blank s

module _ (decimal : ℕ → String) where
  unfoldable pub validate_schema_id : String → Option String
  validate_schema_id schema_id =
      if is_blank schema_id
      then some "schema ID cannot be null or empty"
      else (if ltb max_schema_id_length (len schema_id)
          then some (
              concat (
                "schema ID cannot exceed "
                ∷ decimal max_schema_id_length
                ∷ " characters (got "
                ∷ decimal (len schema_id)
                ∷ ")"
                ∷ []))
          else none)

  unfoldable pub validate_schema_content : String → Option String
  validate_schema_content content =
      if is_blank content
      then some "schema content cannot be null or empty"
      else (if ltb max_schema_content_bytes (len content)
          then some (
              concat (
                "schema content cannot exceed "
                ∷ decimal max_schema_content_bytes
                ∷ " bytes (got "
                ∷ decimal (len content)
                ∷ ")"
                ∷ []))
          else none)

  -- `validateRegisterSchemaRequest`, of a request that is not nil.
  unfoldable pub validate_register_schema_request : String → String → Option String
  validate_register_schema_request schema_id content = elim (validate_schema_id schema_id) [
    | some message ↦ some message
    | none ↦ validate_schema_content content
  ]
