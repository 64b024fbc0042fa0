-- ===== src/Deploy.antt =====
-- server/cvtservice/deployment_safety.go: whether a new version of a schema may be deployed, given
-- the consumers that are registered for it. Metrics and log lines are left out.
mod Filter
mod Impacts
pub mod Safety
mod Tests
use cvt.Base.{
  ℕ, suc, ◌+◌, String, List, [], ◌∷◌, ◌++◌, Bool, true, false, ◌&&◌, ◌||◌, Option, none, some,
  if◌then◌else◌, keep, non_empty, concat, length,
}
use text.Mathlib.Text.{◌==◌}
use cvt.OpenApi.{Document, Finder}
use cvt.Compat.Change.{BreakingChange}
use cvt.Compat.Server.{compare_schemas}
use cvt.Registry.{EndpointUsage, ConsumerEntry}

-- What `CanIDeploy` asks of the service: `getSchemaEntry`, which may fill the cache on its way, and
-- the registry of consumers. `getSchemaEntry` answers no nil entry as found.
pub record SchemaSource (S : Type 0) : Type 0 where
  pub get_schema_entry : String → String → S → Option Document × S
  pub list_consumers : String → String → S → List ConsumerEntry

pub record ConsumerImpact : Type 0 where
  pub consumer_id : String
  pub consumer_version : String
  pub current_schema_version : String
  pub environment : String
  pub will_break : Bool
  pub relevant_changes : List BreakingChange

pub record CanIDeployRequest : Type 0 where
  pub schema_id : String
  pub new_version : String
  pub environment : String

pub record CanIDeployResponse : Type 0 where
  pub safe_to_deploy : Bool
  pub summary : String
  pub breaking_changes : List BreakingChange
  pub affected_consumers : List ConsumerImpact

-- The loop over the endpoints with its `break`: a path or method that is empty stands for all.
abbrev pub touches : BreakingChange → EndpointUsage → Bool
touches change ep =
    (change.path == ep.path || change.path == "")
    && (change.method == "" || change.method == ep.method)

abbrev pub touches_some : BreakingChange → List EndpointUsage → Bool
touches_some change [] = false
touches_some change (ep ∷ eps) = if touches change ep then true else touches_some change eps

unfoldable pub filter_changes_for_consumer :
    List BreakingChange → List EndpointUsage → List BreakingChange
filter_changes_for_consumer changes [] = changes
filter_changes_for_consumer changes (ep ∷ eps) =
    keep (λ change. touches_some change (ep ∷ eps)) changes

-- The three variables that the loop over the consumers fills.
pub record Verdict : Type 0 where
  pub all_breaking_changes : List BreakingChange
  pub affected_consumers : List ConsumerImpact
  pub all_safe : Bool

abbrev pub impact_of : ConsumerEntry → Bool → List BreakingChange → ConsumerImpact
impact_of consumer will_break relevant_changes = record {
  consumer_id = consumer.consumer_id;
  consumer_version = consumer.consumer_version;
  current_schema_version = consumer.schema_version;
  environment = consumer.environment;
  will_break = will_break;
  relevant_changes = relevant_changes;
}

abbrev pub is_non_empty {ℓ} : {A : Type ℓ} → List A → Bool
is_non_empty [] = false
is_non_empty (x ∷ xs) = true

abbrev pub breaking_count : List ConsumerImpact → ℕ
breaking_count [] = 0
breaking_count (c ∷ cs) = if c.will_break then suc (breaking_count cs) else breaking_count cs

abbrev pub refused : String → CanIDeployResponse
refused summary = record {
  safe_to_deploy = false;
  summary = summary;
  breaking_changes = [];
  affected_consumers = [];
}

abbrev pub environment_of : CanIDeployRequest → String
environment_of req = if req.environment == "" then "prod" else req.environment

-- The verdict before the first consumer.
abbrev pub no_verdict : Verdict
no_verdict = record { all_breaking_changes = []; affected_consumers = []; all_safe = true }

module _ {S : Type 0} (source : SchemaSource S) (finder : Finder) where
  -- One round of the loop; the state is what the lookup of the old version leaves.
  unfoldable pub check_consumer :
      CanIDeployRequest → Document → ConsumerEntry → Verdict → S → Verdict × S
  check_consumer req new_entry consumer v s =
      if consumer.schema_version == "" || consumer.schema_version == req.new_version
      then (add false [] [] v.all_safe, s)
      else let (found, s') = source.get_schema_entry req.schema_id consumer.schema_version s in
        elim found [
          | none ↦ (add true [] [] false, s')
          | some old_entry ↦ (
            add (is_non_empty (relevant old_entry)) (relevant old_entry) (relevant old_entry)
                (if is_non_empty (relevant old_entry) then false else v.all_safe),
            s',
          )
        ]
    where
      relevant : Document → List BreakingChange
      relevant old_entry =
          filter_changes_for_consumer (compare_schemas finder old_entry new_entry).0
            consumer.used_endpoints

      add : Bool → List BreakingChange → List BreakingChange → Bool → Verdict
      add will_break relevant_changes more safe = record {
        all_breaking_changes = v.all_breaking_changes ++ more;
        affected_consumers =
            v.affected_consumers ++ (impact_of consumer will_break relevant_changes ∷ []);
        all_safe = safe;
      }

  unfoldable pub check_consumers :
      CanIDeployRequest → Document → List ConsumerEntry → Verdict → S → Verdict × S
  check_consumers req new_entry [] v s = (v, s)
  check_consumers req new_entry (c ∷ cs) v s =
      let (w, s') = check_consumer req new_entry c v s in check_consumers req new_entry cs w s'

  -- The entry of the version that is asked for, or the latest one.
  unfoldable pub new_schema_entry : CanIDeployRequest → S → Option Document × S
  new_schema_entry req s =
      let (found, s') = source.get_schema_entry req.schema_id req.new_version s in
      elim found [
        | some new_entry ↦ (some new_entry, s')
        | none ↦ source.get_schema_entry req.schema_id "" s'
      ]

-- `decimal` is `fmt`'s text of a number.
module _ {S : Type 0} (source : SchemaSource S) (finder : Finder) (decimal : ℕ → String) where
  unfoldable pub summary_of : CanIDeployRequest → String → List ConsumerEntry → Verdict → String
  summary_of req environment consumers v =
      if v.all_safe
      then concat (
          "Safe to deploy "
          ∷ req.schema_id
          ∷ " version "
          ∷ req.new_version
          ∷ " to "
          ∷ environment
          ∷ " - "
          ∷ decimal (length consumers)
          ∷ " consumer(s) verified"
          ∷ [])
      else concat (
          "Deployment of "
          ∷ req.schema_id
          ∷ " version "
          ∷ req.new_version
          ∷ " to "
          ∷ environment
          ∷ " will break "
          ∷ decimal (breaking_count v.affected_consumers)
          ∷ " of "
          ∷ decimal (length v.affected_consumers)
          ∷ " consumer(s) - review required"
          ∷ [])

  -- The answer to a request whose new entry is known.
  unfoldable pub verify_consumers : CanIDeployRequest → Document → S → CanIDeployResponse × S
  verify_consumers req new_entry s =
      elim (source.list_consumers req.schema_id (environment_of req) s) [
        | [] ↦ (
          record {
            safe_to_deploy = true;
            summary = concat (
                "No consumers registered for "
                ∷ req.schema_id
                ∷ " in "
                ∷ environment_of req
                ∷ " environment"
                ∷ []);
            breaking_changes = [];
            affected_consumers = [];
          },
          s,
        )
        | c ∷ cs ↦
            let (v, s') = check_consumers source finder req new_entry (c ∷ cs) no_verdict s in
            (
              record {
                safe_to_deploy = v.all_safe;
                summary = summary_of req (environment_of req) (c ∷ cs) v;
                breaking_changes = v.all_breaking_changes;
                affected_consumers = v.affected_consumers;
              },
              s',
            )
      ]

  unfoldable pub can_i_deploy : CanIDeployRequest → S → CanIDeployResponse × S
  can_i_deploy req s =
      if req.schema_id == ""
      then (refused "schema_id is required", s)
      else let (latest, s₁) = source.get_schema_entry req.schema_id "" s in
        elim latest [
          | none ↦ (refused (concat ("schema not found: " ∷ req.schema_id ∷ [])), s₁)
          | some entry ↦
              let (new_found, s₂) = new_schema_entry source finder req s₁ in
              elim new_found [
                | none ↦ (
                  refused (
                      concat (
                        "schema version not found: " ∷ req.schema_id ∷ "@" ∷ req.new_version ∷ [])),
                  s₂,
                )
                | some new_entry ↦ verify_consumers req new_entry s₂
              ]
        ]
