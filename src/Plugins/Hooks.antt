-- ===== src/Plugins/Hooks.antt =====
-- internal/pluginclient/hooks_adapter.go and pkg/cvt/hooks.go: the calls of the hooks of a plugin. The
-- four methods have one shape; what they differ in is a `Hook`. What the call of the plugin returns
-- is an argument. Metrics, times and the deadline are left out.
pub mod Policy
mod Tests
use cvt.Base.{ℕ, String, List, [], ◌∷◌, Bool, true, false, Option, none, some, if◌then◌else◌}
use text.Mathlib.Text.{◌==◌}
use cvt.Base.Dict.{get}
use cvt.Base.Fallible.{Fallible, done, error}
use cvt.Plugins.Config.{PluginConfig, HookBindings, Config}
use cvt.Plugins.Manager.{PluginHandle, Manager}

-- The gRPC codes that the adapter tells apart, and the name of another one.
pub data Code : Type 0 where
  unimplemented deadline_exceeded unavailable : Code
  other : (name : String) → Code

abbrev pub code_name : Code → String
code_name unimplemented = "Unimplemented"
code_name deadline_exceeded = "DeadlineExceeded"
code_name unavailable = "Unavailable"
code_name (other name) = name

-- What a plugin answers: a response, which may be nil, or an error.
pub data Reply (A : Type 0) : Type 0 where
  replied : Option A → Reply A
  failed : Code → (message : String) → Reply A

pub data AuditKind : Type 0 where
  read write : AuditKind

pub record AuditRecord : Type 0 where
  pub kind : AuditKind
  pub plugin : String
  pub reported_version : String
  pub sha256 : String
  pub pid : ℕ
  pub request_id : String
  pub service : String
  pub method : String
  pub outcome : String
  pub error_code : String

-- A hook: how it is bound, which client it needs, and what it answers without the plugin. An answer
-- is a response, which may be nil.
pub record Hook (A : Type 0) : Type 0 where
  pub bound_to : HookBindings → String
  pub is_served_by : PluginHandle → Bool
  pub kind : AuditKind
  pub service : String
  pub method : String
  pub noop : Option A
  pub open_unavailable : Option A
  pub open_failed : Option A

-- `FetchSchema`, whose noop answer is nil.
abbrev pub fetch_schema : {A : Type 0} → Hook A
fetch_schema = record {
  bound_to = λ h. h.fetch_schema;
  is_served_by = λ h. h.has_registry;
  kind = read;
  service = "registry.v1";
  method = "FetchSchema";
  noop = none;
  open_unavailable = none;
  open_failed = none;
}

-- The response of the other hooks.
pub record Acknowledged : Type 0 where
  pub acknowledged : Bool

abbrev pub acknowledgement : Option Acknowledged
acknowledgement = some (record { acknowledged = true })

abbrev pub register_consumer_usage : Hook Acknowledged
register_consumer_usage = record {
  bound_to = λ h. h.register_consumer_usage;
  is_served_by = λ h. h.has_registry;
  kind = write;
  service = "registry.v1";
  method = "RegisterConsumerUsage";
  noop = acknowledgement;
  open_unavailable = none;
  open_failed = acknowledgement;
}

abbrev pub on_breaking_change_detected : Hook Acknowledged
on_breaking_change_detected = record {
  bound_to = λ h. h.on_breaking_change_detected;
  is_served_by = λ h. h.has_events;
  kind = write;
  service = "events.v1";
  method = "OnBreakingChangeDetected";
  noop = acknowledgement;
  open_unavailable = acknowledgement;
  open_failed = acknowledgement;
}

abbrev pub on_validation_failed : Hook Acknowledged
on_validation_failed = record {
  bound_to = λ h. h.on_validation_failed;
  is_served_by = λ h. h.has_events;
  kind = write;
  service = "events.v1";
  method = "OnValidationFailed";
  noop = acknowledgement;
  open_unavailable = acknowledgement;
  open_failed = acknowledgement;
}

-- The error, unless the plugin's policy swallows it.
unfoldable pub apply_on_error : Manager → String → String → Option String
apply_on_error mgr name message = elim (get name mgr.cfg.plugins) [
  | none ↦ some message
  | some p ↦ if p.on_error == "fail_closed" then some message else none
]

abbrev pub unless_error : {A : Type 0} → Option A → Option String → Fallible (Option A)
unless_error answer none = done answer
unless_error answer (some message) = error message

abbrev pub audit_of :
    {A : Type 0} → Hook A → String → Option PluginHandle → String → String → String → AuditRecord
audit_of hook name h request_id outcome error_code = record {
  kind = hook.kind;
  plugin = name;
  reported_version = elim h [ none ↦ "" | some x ↦ x.reported_version ];
  sha256 = elim h [ none ↦ "" | some x ↦ x.installed.sha256 ];
  pid = elim h [ none ↦ 0 | some x ↦ x.pid ];
  request_id = request_id;
  service = hook.service;
  method = hook.method;
  outcome = outcome;
  error_code = error_code;
}

abbrev pub outcome_of : {A : Type 0} → Reply A → String
outcome_of (replied r) = "ok"
outcome_of (failed deadline_exceeded message) = "timeout"
outcome_of (failed code message) = "error"

abbrev pub error_code_of : {A : Type 0} → Reply A → String
error_code_of (replied r) = ""
error_code_of (failed code message) = code_name code

-- `timedCall`: the reply, and the audit record of a call that was made.
unfoldable pub timed_call :
    {A : Type 0} → Manager → Hook A → String → String → Reply A → Reply A × List AuditRecord
timed_call mgr hook name request_id reply = elim (get name mgr.cfg.plugins) [
  | none ↦ (failed (other "Unknown") "plugin not declared in config", [])
  | some p ↦ (
    reply,
    audit_of hook name (get name mgr.handles) request_id (outcome_of reply) (error_code_of reply)
        ∷ [],
  )
]

-- What a method makes of the reply.
unfoldable pub answer_of : {A : Type 0} → Manager → Hook A → String → Reply A → Fallible (Option A)
answer_of mgr hook name (replied none) = done hook.noop
answer_of mgr hook name (replied (some r)) = done (some r)
answer_of mgr hook name (failed unimplemented message) = done hook.noop
answer_of mgr hook name (failed deadline_exceeded message) =
    unless_error hook.open_failed (apply_on_error mgr name message)
answer_of mgr hook name (failed unavailable message) =
    unless_error hook.open_failed (apply_on_error mgr name message)
answer_of mgr hook name (failed (other code) message) =
    unless_error hook.open_failed (apply_on_error mgr name message)

-- `mgr.Registry(name) != nil`, or `mgr.Events(name) != nil`.
unfoldable pub is_served : {A : Type 0} → Manager → Hook A → String → Bool
is_served mgr hook name = elim (get name mgr.handles) [
  | none ↦ false
  | some h ↦ hook.is_served_by h
]

-- A method of the adapter, with the audit records that it makes.
unfoldable pub call_hook :
    {A : Type 0} → Manager → Hook A → String → Reply A → Fallible (Option A) × List AuditRecord
call_hook mgr hook request_id reply =
    let name = hook.bound_to mgr.cfg.hooks in
    let (answered, audit) = timed_call mgr hook name request_id reply in
    if name == ""
    then (done hook.noop, [])
    else (if is_served mgr hook name then (answer_of mgr hook name answered, audit) else (
      unless_error hook.open_unavailable (apply_on_error mgr name "plugin not running"),
      audit_of hook name (get name mgr.handles) request_id "error" "Unavailable" ∷ [],
    ))
