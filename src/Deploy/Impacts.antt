-- ===== src/Deploy/Impacts.antt =====
-- What the loop of `CanIDeploy` over the consumers leaves in its three variables.
use cvt.Base.{eqb, String, List, [], ◌∷◌, ◌++◌, Bool, false, ◌≡◌, map, collect, if◌then◌else◌}
use cvt.Compat.Change.{BreakingChange}
use cvt.Registry.{ConsumerEntry}
use cvt.Deploy.{ConsumerImpact, CanIDeployResponse, Verdict, breaking_count, impact_of}

-- A consumer as its registration and as an impact name it.
abbrev pub registered : ConsumerEntry → String × String × String × String
registered c = (c.consumer_id, c.consumer_version, c.schema_version, c.environment)

abbrev pub reported : ConsumerImpact → String × String × String × String
reported i = (i.consumer_id, i.consumer_version, i.current_schema_version, i.environment)

pub record Report (consumers : List ConsumerEntry) (r : CanIDeployResponse) : Type 0 where
  pub one_each : map reported r.affected_consumers ≡ map registered consumers
  pub safe_counts : r.safe_to_deploy ≡ eqb (breaking_count r.affected_consumers) 0
  pub changes_sum : r.breaking_changes ≡ collect (λ c. c.relevant_changes) r.affected_consumers

-- What the response says of one consumer, and of all.
pub record Agrees (v : Verdict) : Type 0 where
  pub safe_counts : v.all_safe ≡ eqb (breaking_count v.affected_consumers) 0
  pub changes_sum : v.all_breaking_changes ≡ collect (λ c. c.relevant_changes) v.affected_consumers

-- One more consumer, whose changes are the ones that are added.
added : Verdict → ConsumerEntry → Bool → List BreakingChange → Verdict
added v c will_break changes = record {
  all_breaking_changes = v.all_breaking_changes ++ changes;
  affected_consumers = v.affected_consumers ++ (impact_of c will_break changes ∷ []);
  all_safe = if will_break then false else v.all_safe;
}
