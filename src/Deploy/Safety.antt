-- ===== src/Deploy/Safety.antt =====
-- What an answer "safe" of `CanIDeploy` says of every consumer.
use cvt.Base.{
  ℕ, String, List, [], ◌∷◌, Bool, true, false, none, some, ◌≡◌, refl, ◌∙◌, inl, inr, Memᴰ,
  Bool-cases, Option-cases, eq_iff, if◌then◌else◌,
}
use mathlib.Core.List.Memᴰ.{head, tail}
use text.Mathlib.Text.{◌==◌}
use cvt.OpenApi.{Document, Finder}
use cvt.Compat.Change.{BreakingChange}
use cvt.Compat.Server.{compare_schemas}
use cvt.Registry.{ConsumerEntry}
use cvt.Deploy.{
  SchemaSource, CanIDeployRequest, Verdict, no_verdict, filter_changes_for_consumer, is_non_empty,
  check_consumer, check_consumers, new_schema_entry, environment_of, verify_consumers, can_i_deploy,
}

module _ {S : Type 0} (source : SchemaSource S) (finder : Finder) where
  -- The states that lookups of one schema lead to.
  pub data Reached (schema_id : String) (s : S) : S → Type 0 where
    start : Reached schema_id s s
    lookup :
        (version : String) (t : S)
        → Reached schema_id s t
        → Reached schema_id s (source.get_schema_entry schema_id version t).1

  -- The entry to deploy, and the state behind its lookup: the version that is asked for, or the
  -- latest one where that is not found.
  pub data NewEntry (req : CanIDeployRequest) (s : S) (doc : Document) : S → Type 0 where
    asked :
        (source.get_schema_entry req.schema_id req.new_version s).0 ≡ some doc
        → NewEntry req s doc (source.get_schema_entry req.schema_id req.new_version s).1
    fallback :
        (source.get_schema_entry req.schema_id req.new_version s).0 ≡ none
        → (source.get_schema_entry req.schema_id ""
            (source.get_schema_entry req.schema_id req.new_version s).1).0
          ≡ some doc
        → NewEntry req s doc
            (source.get_schema_entry req.schema_id ""
              (source.get_schema_entry req.schema_id req.new_version s).1).1

  new_schema_entry-NewEntry :
      (req : CanIDeployRequest) (s : S) (doc : Document)
      → (new_schema_entry source finder req s).0 ≡ some doc
      → NewEntry req s doc (new_schema_entry source finder req s).1
  unfolding new_schema_entry
  new_schema_entry-NewEntry req s doc e =
      elim (Option-cases (source.get_schema_entry req.schema_id req.new_version s).0) [
        | inl missing ↦
            rw (missing, new_schema_entry) (fallback missing (rw (missing, new_schema_entry) at e))
        | inr (entry, found) ↦
            rw (found, new_schema_entry) (asked (found ∙ (rw (found, new_schema_entry) at e)))
      ]

  -- The consumer pins no version, or the one to deploy; or the version that it pins is found by a
  -- lookup that follows others of the schema, and no breaking change from it to the new entry is
  -- relevant to the consumer.
  pub data Verified (req : CanIDeployRequest) (s : S) (doc : Document) (c : ConsumerEntry)
      : Type 0 where
    not_pinned : c.schema_version ≡ "" → Verified req s doc c
    same_version : c.schema_version ≡ req.new_version → Verified req s doc c
    compared :
        (t : S) (old : Document)
        → Reached req.schema_id s t
        → (source.get_schema_entry req.schema_id c.schema_version t).0 ≡ some old
        → filter_changes_for_consumer (compare_schemas finder old doc).0 c.used_endpoints ≡ []
        → Verified req s doc c

  if_empty :
      (cs : List BreakingChange) (b : Bool)
      → (if is_non_empty cs then false else b) ≡ true
      → (cs ≡ []) × (b ≡ true)
  if_empty [] b e = (refl, e)
  if_empty (c ∷ cs) b e = cc

  check_consumer-safe :
      (req : CanIDeployRequest) (s₀ : S) (doc : Document) (c : ConsumerEntry) (v : Verdict) (s : S)
      → Reached req.schema_id s₀ s
      → (check_consumer source finder req doc c v s).0.all_safe ≡ true
      → (v.all_safe ≡ true) × Verified req s₀ doc c
  unfolding check_consumer
  check_consumer-safe req s₀ doc c v s reached e = elim (Bool-cases (c.schema_version == "")) [
    | inl bare ↦ (rw (bare, check_consumer) at e, not_pinned ((eq_iff _ _).0 bare))
    | inr pinned ↦ elim (Bool-cases (c.schema_version == req.new_version)) [
      | inl same ↦ (rw (pinned, same, check_consumer) at e, same_version ((eq_iff _ _).0 same))
      | inr other ↦
          elim (Option-cases (source.get_schema_entry req.schema_id c.schema_version s).0) [
            | inl missing ↦ cc (rw (pinned, other, missing, check_consumer) at e)
            | inr (old, found) ↦
                let (nothing, safe) =
                  if_empty _ _ (rw (pinned, other, found, check_consumer) at e) in
                (safe, compared s old reached found nothing)
          ]
    ]
  ]

  -- A round of the loop looks up nothing, or the version that the consumer pins.
  check_consumer-Reached :
      (req : CanIDeployRequest) (s₀ : S) (doc : Document) (c : ConsumerEntry) (v : Verdict) (s : S)
      → Reached req.schema_id s₀ s
      → Reached req.schema_id s₀ (check_consumer source finder req doc c v s).1
  unfolding check_consumer
  check_consumer-Reached req s₀ doc c v s reached = elim (Bool-cases (c.schema_version == "")) [
    | inl bare ↦ rw (bare, check_consumer) reached
    | inr pinned ↦ elim (Bool-cases (c.schema_version == req.new_version)) [
      | inl same ↦ rw (pinned, same, check_consumer) reached
      | inr other ↦
          elim (Option-cases (source.get_schema_entry req.schema_id c.schema_version s).0) [
            | inl missing ↦
                rw (pinned, other, missing, check_consumer) (lookup c.schema_version s reached)
            | inr (old, found) ↦
                rw (pinned, other, found, check_consumer) (lookup c.schema_version s reached)
          ]
    ]
  ]

  check_consumers-safe :
      (req : CanIDeployRequest) (s₀ : S) (doc : Document) (cs : List ConsumerEntry) (v : Verdict)
      (s : S)
      → Reached req.schema_id s₀ s
      → (check_consumers source finder req doc cs v s).0.all_safe ≡ true
      → (v.all_safe ≡ true) × ((c : ConsumerEntry) → Memᴰ c cs → Verified req s₀ doc c)
  unfolding check_consumers
  check_consumers-safe req s₀ doc [] v s reached e = (e, λ c here. elim here [ ])
  check_consumers-safe req s₀ doc (c ∷ cs) v s reached e =
      let step = check_consumer source finder req doc c v s in
      let (safe, rest) =
        check_consumers-safe req s₀ doc cs step.0 step.1
          (check_consumer-Reached req s₀ doc c v s reached) e in
      let (before, verified) = check_consumer-safe req s₀ doc c v s reached safe in
      (before, λ d here. elim here [ head same ↦ rw same verified | tail below ↦ rest d below ])

module _ {S : Type 0} (source : SchemaSource S) (finder : Finder) (decimal : ℕ → String) where
  verify_consumers-safe :
      (req : CanIDeployRequest) (doc : Document) (s : S)
      → (verify_consumers source finder decimal req doc s).0.safe_to_deploy ≡ true
      → (c : ConsumerEntry) → Memᴰ c (source.list_consumers req.schema_id (environment_of req) s)
      → Verified source finder req s doc c
  unfolding verify_consumers
  verify_consumers-safe req doc s =
      by_list (source.list_consumers req.schema_id (environment_of req) s) refl
    where
      by_list :
          (cs : List ConsumerEntry)
          → source.list_consumers req.schema_id (environment_of req) s ≡ cs
          → (verify_consumers source finder decimal req doc s).0.safe_to_deploy ≡ true
          → (c : ConsumerEntry)
          → Memᴰ c (source.list_consumers req.schema_id (environment_of req) s)
          → Verified source finder req s doc c
      by_list [] e safe c here = absurd (elim (rw e at here) [ ])
      by_list (d ∷ ds) e safe c here =
          (check_consumers-safe source finder req s doc (d ∷ ds) no_verdict s start
              (rw (e, verify_consumers) at safe)).1
            c (rw e at here)

  -- What a safe answer rests on: the new entry, and the state in which the consumers were listed.
  pub record SafeAnswer (req : CanIDeployRequest) (s : S) : Type 0 where
    pub latest : Document
    pub schema_found : (source.get_schema_entry req.schema_id "" s).0 ≡ some latest
    pub new_entry : Document
    pub state : S
    pub entry_found :
        new_schema_entry source finder req (source.get_schema_entry req.schema_id "" s).1
        ≡ (some new_entry, state)
    pub is_new :
        NewEntry source finder req (source.get_schema_entry req.schema_id "" s).1 new_entry state
    pub all_verified :
        (c : ConsumerEntry)
        → Memᴰ c (source.list_consumers req.schema_id (environment_of req) state)
        → Verified source finder req state new_entry c

  -- A request that is answered "safe" names a schema that is found, with a new entry, the one of the
  -- version that is asked for, or the latest one where that is not found; and every consumer of the
  -- schema in the environment either pins no version or the one to deploy, or pins a version that is
  -- found and from which no breaking change to the new entry is relevant to it.
  pub can_i_deploy-SafeAnswer :
      (req : CanIDeployRequest) (s : S)
      → (can_i_deploy source finder decimal req s).0.safe_to_deploy ≡ true
      → SafeAnswer req s
  unfolding can_i_deploy
  can_i_deploy-SafeAnswer req s safe = elim (Bool-cases (req.schema_id == "")) [
    | inl unnamed ↦ cc (rw (unnamed, can_i_deploy) at safe)
    | inr named ↦ elim (Option-cases (source.get_schema_entry req.schema_id "" s).0) [
      | inl missing ↦ cc (rw (named, missing, can_i_deploy) at safe)
      | inr (latest, found) ↦
          elim (Option-cases
            (new_schema_entry source finder req (source.get_schema_entry req.schema_id "" s).1).0) [
              | inl none_left ↦ cc (rw (named, found, none_left, can_i_deploy) at safe)
              | inr (doc, new_found) ↦ record {
                latest = latest;
                schema_found = found;
                new_entry = doc;
                state =
                    (new_schema_entry source finder req
                      (source.get_schema_entry req.schema_id "" s).1).1;
                entry_found = λ i. (
                  new_found i,
                  (new_schema_entry source finder req
                      (source.get_schema_entry req.schema_id "" s).1).1,
                );
                is_new =
                    new_schema_entry-NewEntry source finder req
                      (source.get_schema_entry req.schema_id "" s).1 doc new_found;
                all_verified =
                    verify_consumers-safe req doc
                      (new_schema_entry source finder req
                        (source.get_schema_entry req.schema_id "" s).1).1
                      (rw (named, found, new_found, can_i_deploy) at safe);
              }
            ]
    ]
  ]
