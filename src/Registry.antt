-- ===== src/Registry.antt =====
-- The consumers' registrations: `ConsumerEntry` of server/cvtservice/cache.go and `ConsumerRecord`
-- of server/storage/storage.go, and the key that both keep them under. A time is a number.
use cvt.Base.{ℕ, String, List, [], ◌∷◌, concat}

pub record EndpointUsage : Type 0 where
  pub method : String
  pub path : String
  pub used_fields : List String

pub record ConsumerEntry : Type 0 where
  pub consumer_id : String
  pub consumer_version : String
  pub schema_id : String
  pub schema_version : String
  pub environment : String
  pub registered_at : ℕ
  pub last_validated_at : ℕ
  pub used_endpoints : List EndpointUsage

abbrev pub make_consumer_key : String → String → String → String
make_consumer_key consumer_id schema_id environment =
    concat (consumer_id ∷ "/" ∷ schema_id ∷ "/" ∷ environment ∷ [])

pub record ConsumerRecord : Type 0 where
  pub id : String
  pub consumer_id : String
  pub consumer_version : String
  pub schema_id : String
  pub schema_version : String
  pub environment : String
  pub registered_at : ℕ
  pub last_validated_at : ℕ
  pub used_endpoints : List EndpointUsage
