-- ===== src/Plugins/Hooks/Policy.antt =====
-- internal/pluginclient/hooks_adapter.go: what the policy of a plugin makes of its faults.
use cvt.Base.{
  String, List, [], ◌∷◌, true, false, Option, none, some, ◌≡◌, ◌≢◌, refl, sym, ap, subst, inl, inr,
  Memᴰ, Bool-cases, if-true, if-false, eq_iff, apart_test,
}
use cvt.Base.Dict.{get}
use cvt.Base.Fallible.{Fallible, done, error}
use cvt.Plugins.Config.{PluginConfig, System, bindings, load}
use cvt.Plugins.Config.Loaded.{load-IsLoaded}
use cvt.Plugins.Manager.{Manager}
use cvt.Plugins.Hooks.{
  Code, unimplemented, deadline_exceeded, unavailable, other, Reply, replied, failed, AuditRecord,
  Hook, apply_on_error, unless_error, audit_of, timed_call, answer_of, is_served, call_hook,
}

-- The plugin does not serve the hook, or its call fails with another code than Unimplemented.
pub data Faulty {A : Type 0} (mgr : Manager) (hook : Hook A) (name : String)
    : Reply A → Type 0 where
  not_served : (reply : Reply A) → is_served mgr hook name ≡ false → Faulty mgr hook name reply
  not_answered :
      (code : Code) (message : String)
      → is_served mgr hook name ≡ true
      → code ≢ unimplemented
      → Faulty mgr hook name (failed code message)

-- What is said of a call by the policy of the plugin.
pub record Policy {A : Type 0} (mgr : Manager) (hook : Hook A) (name : String) (p : PluginConfig)
    (reply : Reply A) (a : Fallible (Option A) × List AuditRecord) : Type 0 where
  pub audited : (r : AuditRecord) × (a.1 ≡ r ∷ []) × (r.plugin ≡ name)
  pub open_answers : p.on_error ≡ "fail_open" → (x : Option A) × (a.0 ≡ done x)
  pub closed_fails :
      p.on_error ≡ "fail_closed" → Faulty mgr hook name reply → (m : String) × (a.0 ≡ error m)
  pub passed_on :
      (x : A) → is_served mgr hook name ≡ true → reply ≡ replied (some x) → a.0 ≡ done (some x)

module _ {A : Type 0} (mgr : Manager) (hook : Hook A) (name : String) (p : PluginConfig)
    (declared : get name mgr.cfg.plugins ≡ some p) where
  open_swallows :
      (message : String) → p.on_error ≡ "fail_open" → apply_on_error mgr name message ≡ none
  unfolding apply_on_error
  open_swallows message open_policy =
      rw (declared, apply_on_error)
        (if-false _ _
          (apart_test {s = p.on_error} {t = "fail_closed"} (λ closed. cc (open_policy, closed))))

  closed_keeps :
      (message : String)
      → p.on_error ≡ "fail_closed"
      → apply_on_error mgr name message ≡ some message
  unfolding apply_on_error
  closed_keeps message closed =
      rw (declared, apply_on_error) (if-true _ _ ((eq_iff p.on_error "fail_closed").1 closed))

  unless-open :
      (answer : Option A) (message : String)
      → p.on_error ≡ "fail_open"
      → (x : Option A) × (unless_error answer (apply_on_error mgr name message) ≡ done x)
  unless-open answer message open_policy =
      (answer, ap (unless_error answer) (open_swallows message open_policy))

  unless-closed :
      (answer : Option A) (message : String)
      → p.on_error ≡ "fail_closed"
      → (m : String) × (unless_error answer (apply_on_error mgr name message) ≡ error m)
  unless-closed answer message closed =
      (message, ap (unless_error answer) (closed_keeps message closed))

  answer-open :
      (reply : Reply A)
      → p.on_error ≡ "fail_open"
      → (x : Option A) × (answer_of mgr hook name reply ≡ done x)
  unfolding answer_of
  answer-open (replied none) open_policy = (hook.noop, refl)
  answer-open (replied (some r)) open_policy = (some r, refl)
  answer-open (failed unimplemented message) open_policy = (hook.noop, refl)
  answer-open (failed deadline_exceeded message) open_policy = unless-open _ message open_policy
  answer-open (failed unavailable message) open_policy = unless-open _ message open_policy
  answer-open (failed (other code) message) open_policy = unless-open _ message open_policy

  answer-closed :
      (code : Code) (message : String)
      → code ≢ unimplemented
      → p.on_error ≡ "fail_closed"
      → (m : String) × (answer_of mgr hook name (failed code message) ≡ error m)
  unfolding answer_of
  answer-closed unimplemented message apart closed = absurd (apart refl)
  answer-closed deadline_exceeded message apart closed = unless-closed _ message closed
  answer-closed unavailable message apart closed = unless-closed _ message closed
  answer-closed (other code) message apart closed = unless-closed _ message closed

  served-closed :
      (reply : Reply A)
      → is_served mgr hook name ≡ true
      → p.on_error ≡ "fail_closed"
      → Faulty mgr hook name reply
      → (m : String) × (answer_of mgr hook name reply ≡ error m)
  served-closed reply served closed (not_served r unserved) = cc
  served-closed reply served closed (not_answered code message s apart) =
      answer-closed code message apart closed

  answer-passed :
      (x : A) (reply : Reply A)
      → reply ≡ replied (some x)
      → answer_of mgr hook name reply ≡ done (some x)
  unfolding answer_of
  answer-passed x reply e = ap (answer_of mgr hook name) e

  served-Policy :
      (request_id : String) (reply : Reply A)
      → is_served mgr hook name ≡ true
      → Policy mgr hook name p reply (
          let (answered, audit) = timed_call mgr hook name request_id reply in
          (answer_of mgr hook name answered, audit))
  unfolding timed_call
  served-Policy request_id reply served =
      rw (declared, timed_call)
        (record {
          audited = (_, refl, refl);
          open_answers = answer-open reply;
          closed_fails = served-closed reply served;
          passed_on = λ x s e. answer-passed x reply e;
        })

  unserved-Policy :
      (request_id : String) (reply : Reply A)
      → is_served mgr hook name ≡ false
      → Policy mgr hook name p reply (
        unless_error hook.open_unavailable (apply_on_error mgr name "plugin not running"),
        audit_of hook name (get name mgr.handles) request_id "error" "Unavailable" ∷ [],
      )
  unserved-Policy request_id reply unserved = record {
    audited = (_, refl, refl);
    open_answers = unless-open hook.open_unavailable "plugin not running";
    closed_fails = λ closed faulty. unless-closed hook.open_unavailable "plugin not running" closed;
    passed_on = λ x served e. cc (served, unserved);
  }

bound-Policy :
    {A : Type 0} (mgr : Manager) (hook : Hook A) (p : PluginConfig) (request_id : String)
    (reply : Reply A)
    → get (hook.bound_to mgr.cfg.hooks) mgr.cfg.plugins ≡ some p
    → hook.bound_to mgr.cfg.hooks ≢ ""
    → Policy mgr hook (hook.bound_to mgr.cfg.hooks) p reply (call_hook mgr hook request_id reply)
unfolding call_hook
bound-Policy {A} mgr hook p request_id reply declared named =
    subst (Policy mgr hook name p reply) (sym (if-false _ _ (apart_test named)))
      (elim (Bool-cases (is_served mgr hook name)) [
        | inl served ↦
            subst (Policy mgr hook name p reply) (sym (if-true _ _ served))
              (served-Policy mgr hook name p declared request_id reply served)
        | inr unserved ↦
            subst (Policy mgr hook name p reply) (sym (if-false _ _ unserved))
              (unserved-Policy mgr hook name p declared request_id reply unserved)
      ])
  where
    name : String
    name = hook.bound_to mgr.cfg.hooks

-- The plugin of a bound hook, and what its policy says of a call.
pub record Governed {A : Type 0} (mgr : Manager) (hook : Hook A) (request_id : String)
    (reply : Reply A) : Type 0 where
  pub plugin : PluginConfig
  pub declared : get (hook.bound_to mgr.cfg.hooks) mgr.cfg.plugins ≡ some plugin
  pub policy :
      Policy mgr hook
        (hook.bound_to mgr.cfg.hooks)
        plugin
        reply
        (call_hook mgr hook request_id reply)

-- With a configuration that `Load` returned, a call of a bound hook makes one audit record, of the
-- plugin that the hook is bound to. If the plugin's policy is fail_open, the call returns no error,
-- whatever the plugin does; if it is fail_closed, the call returns an error where the plugin does not
-- serve the hook or fails with another code than Unimplemented. A response of a plugin that serves
-- the hook is passed on.
pub call_hook-Governed :
    {A : Type 0} (sys : System) (path plugin_root : String) (mgr : Manager) (hook : Hook A)
    (hook_name request_id : String) (reply : Reply A)
    → load sys path plugin_root ≡ done mgr.cfg
    → Memᴰ (hook_name, hook.bound_to mgr.cfg.hooks) (bindings mgr.cfg.hooks)
    → hook.bound_to mgr.cfg.hooks ≢ ""
    → Governed mgr hook request_id reply
call_hook-Governed sys path plugin_root mgr hook hook_name request_id reply loaded here named =
    let well_formed = load-IsLoaded sys plugin_root path mgr.cfg loaded in
    let (p, declared) = well_formed.bound hook_name (hook.bound_to mgr.cfg.hooks) here named in
    record {
      plugin = p;
      declared = declared;
      policy = bound-Policy mgr hook p request_id reply declared named;
    }
