-- ===== src/Plugins/Hooks/Tests.antt =====
-- Runs of the plugin manager and of the hooks, with one plugin.
use cvt.Base.{String, [], ◌∷◌, none, true, ◌≡◌, refl}
use mathlib.Core.List.Memᴰ.{head}
use cvt.Base.Dict.{get}
use cvt.Base.Fallible.{Fallible, done, error}
use cvt.Samples.Plugins.{loaded, system, platform, no_faults, entry, shared}
use cvt.Plugins.Config.{PluginConfig}
use cvt.Plugins.Tests.{loads}
use cvt.Plugins.State.{sha256_file, verify_installed}
use cvt.Plugins.Manager.{PluginHandle, Manager, Handshake, start_one, start_all, start}
use cvt.Plugins.Manager.Started.{Outcome, start-Outcome}
use cvt.Plugins.Hooks.{
  unavailable, failed, fetch_schema, apply_on_error, timed_call, answer_of, is_served, call_hook,
}
use cvt.Plugins.Hooks.Policy.{Governed, call_hook-Governed}

-- Every plugin that is launched serves both services.
abbrev launch : String → PluginConfig → Fallible Handshake
launch name pcfg =
    done (record { reported_version = "spool/1"; pid = 7; has_registry = true; has_events = true })

abbrev manager : Manager
manager = record {
  cfg = loaded;
  state = record { version = 1; plugins = ("spool", entry) ∷ [] };
  handles = [];
}

abbrev spool_handle : PluginHandle
spool_handle = record {
  installed = entry;
  reported_version = "spool/1";
  pid = 7;
  has_registry = true;
  has_events = true;
}

abbrev running : Manager
running = record manager { handles = ("spool", spool_handle) ∷ [] }

starts : start platform no_faults shared launch manager ≡ (none, [], running)
unfolding start start_all start_one verify_installed sha256_file get
starts = refl

start-Outcome_example :
    Outcome platform no_faults shared launch manager
      (start platform no_faults shared launch manager)
start-Outcome_example = start-Outcome platform no_faults shared launch manager

refuses :
    (call_hook {A = String} running fetch_schema "r1" (failed unavailable "connection refused")).0
    ≡ error "connection refused"
unfolding call_hook timed_call answer_of is_served apply_on_error get
refuses = refl

call_hook-Governed_example :
    Governed {A = String} running fetch_schema "r1" (failed unavailable "connection refused")
call_hook-Governed_example =
    call_hook-Governed system "/home/u/.cvt/config.yaml" "/p" running fetch_schema "fetch_schema"
      "r1" (failed unavailable "connection refused") loads (head refl) (λ e. cc)
