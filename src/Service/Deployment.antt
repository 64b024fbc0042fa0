-- ===== src/Service/Deployment.antt =====
-- `CanIDeploy` over the service: a safe answer speaks of every consumer that is registered when the
-- request arrives.
use cvt.Base.{ℕ, String, true, ◌≡◌, sym, ap, subst, ◌∙◌, inl, inr, Memᴰ, Option-cases}
use cvt.OpenApi.{Document, Finder}
use cvt.Registry.{ConsumerEntry}
use cvt.Cache.{Ristretto}
use cvt.Cache.Listing.{list_consumers-mem}
use cvt.Deploy.{CanIDeployRequest, new_schema_entry, environment_of, can_i_deploy}
use cvt.Deploy.Safety.{NewEntry, Verified, SafeAnswer, can_i_deploy-SafeAnswer}
use cvt.Service.{External, ValidatorService, get_schema_entry, service_source}
use cvt.Service.Lookup.{get_schema_entry-consumers}

module _ {C : Type 0} (ristretto : Ristretto C) (ext : External) (finder : Finder)
    (decimal : ℕ → String) where
  new_schema_entry-consumers :
      (req : CanIDeployRequest) (s : ValidatorService C)
      → (new_schema_entry (service_source ristretto ext) finder req s).1.cache.consumers
        ≡ s.cache.consumers
  unfolding new_schema_entry
  new_schema_entry-consumers req s =
      let first = get_schema_entry ristretto ext req.schema_id req.new_version s in
      let kept = get_schema_entry-consumers ristretto ext req.schema_id req.new_version s in
      elim (Option-cases first.0) [
        | inl missing ↦
            rw (missing, new_schema_entry)
              (get_schema_entry-consumers ristretto ext req.schema_id "" first.1 ∙ kept)
        | inr (entry, found) ↦ rw (found, new_schema_entry) kept
      ]

  -- The entry that the service finds for the version to deploy, or else for the latest one, which all
  -- consumers of the registry are verified against.
  pub record SafeFor (req : CanIDeployRequest) (s : ValidatorService C) : Type 0 where
    pub new_entry : Document
    pub state : ValidatorService C
    pub is_new :
        NewEntry
          (service_source ristretto ext)
          finder
          req
          (get_schema_entry ristretto ext req.schema_id "" s).1
          new_entry
          state
    pub all_verified :
        (key : String) (c : ConsumerEntry)
        → Memᴰ (key, c) s.cache.consumers
        → c.schema_id ≡ req.schema_id
        → c.environment ≡ environment_of req
        → Verified (service_source ristretto ext) finder req state new_entry c

  -- When the service answers that a deployment is safe, the new entry is the one that it finds for the
  -- version to deploy, or the latest one where that version is not found; and every consumer that is
  -- registered for the schema in the environment pins no version or the one to deploy, or pins a
  -- version that is found and from which no breaking change to the new entry is relevant to it.
  pub can_i_deploy-registered :
      (req : CanIDeployRequest) (s : ValidatorService C)
      → (can_i_deploy (service_source ristretto ext) finder decimal req s).0.safe_to_deploy ≡ true
      → SafeFor req s
  can_i_deploy-registered req s safe =
      let answer =
        can_i_deploy-SafeAnswer (service_source ristretto ext) finder decimal req s safe in
      record {
        new_entry = answer.new_entry;
        state = answer.state;
        is_new = answer.is_new;
        all_verified = λ key c here same_schema same_environment. answer.all_verified c (
            (list_consumers-mem req.schema_id (environment_of req) answer.state.cache c).1 (
              key,
              subst (λ m. Memᴰ (key, c) m) (sym (listed answer)) here,
              same_schema,
              inr same_environment,
            ));
      }
    where
      listed :
          (answer : SafeAnswer (service_source ristretto ext) finder decimal req s)
          → answer.state.cache.consumers ≡ s.cache.consumers
      listed answer =
          ap (λ x. x.1.cache.consumers) (sym answer.entry_found)
          ∙ new_schema_entry-consumers req _
          ∙ get_schema_entry-consumers ristretto ext req.schema_id "" s
