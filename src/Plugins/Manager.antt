-- ===== src/Plugins/Manager.antt =====
-- internal/pluginmgr/manager.go: which plugins are started, and which are running. The process and
-- the calls of the handshake are go-plugin's: `launch` is what they come to for a verified plugin,
-- a handle or an error. The goroutines' results are taken in the order of the configuration, and
-- metrics and logging are left out.
pub mod Started
use cvt.Base.{
  ℕ, String, List, [], ◌∷◌, Bool, true, false, Option, none, some, concat, if◌then◌else◌,
}
use text.Mathlib.Text.{◌==◌}
use cvt.Base.Dict.{Dict, get}
use cvt.Base.Fallible.{Fallible, done, error}
use cvt.Plugins.Config.{PluginConfig, Config}
use cvt.Plugins.State.{InstalledPlugin, StateFile, Disk, Faults, Platform, verify_installed}

-- A running plugin: what it reported, its install record, and the services that it declared.
pub record PluginHandle : Type 0 where
  pub installed : InstalledPlugin
  pub reported_version : String
  pub pid : ℕ
  pub has_registry : Bool
  pub has_events : Bool

pub record Manager : Type 0 where
  pub cfg : Config
  pub state : StateFile
  pub handles : Dict PluginHandle

-- What go-plugin and the handshake make of a plugin: its version, process and services, or an error.
pub record Handshake : Type 0 where
  pub reported_version : String
  pub pid : ℕ
  pub has_registry : Bool
  pub has_events : Bool

-- A new manager runs nothing.
unfoldable pub new : Config → StateFile → Manager
new cfg state = record { cfg = cfg; state = state; handles = [] }

module _ {Raw : Type 0} (platform : Platform Raw) (faults : Faults) (d : Disk Raw)
    (launch : String → PluginConfig → Fallible Handshake) where
  abbrev pub launched : InstalledPlugin → Fallible Handshake → Fallible PluginHandle
  launched installed (error message) = error message
  launched installed (done h) = done (record {
    installed = installed;
    reported_version = h.reported_version;
    pid = h.pid;
    has_registry = h.has_registry;
    has_events = h.has_events;
  })

  abbrev pub verified :
      String → PluginConfig → InstalledPlugin → Option String → Fallible PluginHandle
  verified name pcfg installed (some message) =
      error (concat ("install verification failed: " ∷ message ∷ []))
  verified name pcfg installed none = launched installed (launch name pcfg)

  abbrev pub with_record : String → PluginConfig → Option InstalledPlugin → Fallible PluginHandle
  with_record name pcfg none = error "no install record in state.json; run `cvt plugins install`"
  with_record name pcfg (some installed) =
      if installed.binary_path == pcfg.binary
      then verified name pcfg installed (verify_installed platform faults installed d)
      else error (
          concat (
            "state.json binary " ∷ installed.binary_path ∷ " differs from config binary "
            ∷ pcfg.binary ∷ "; reinstall" ∷ []))

  unfoldable pub start_one : StateFile → String → PluginConfig → Fallible PluginHandle
  start_one state name pcfg = with_record name pcfg (get name state.plugins)

  -- The plugins that started, and the first error, if there is one.
  abbrev pub add_result :
      String
      → Fallible PluginHandle
      → Dict PluginHandle × Option String
      → Dict PluginHandle × Option String
  add_result name (done h) (started, first_err) = ((name, h) ∷ started, first_err)
  add_result name (error message) (started, first_err) =
      (started, some (concat ("plugin " ∷ name ∷ ": " ∷ message ∷ [])))

  unfoldable pub start_all : StateFile → Dict PluginConfig → Dict PluginHandle × Option String
  start_all state [] = ([], none)
  start_all state ((name, pcfg) ∷ m) =
      add_result name (start_one state name pcfg) (start_all state m)

  -- The error, if there is one, the plugins that were started and killed again, and the manager.
  abbrev pub settle :
      Manager → Dict PluginHandle × Option String → Option String × Dict PluginHandle × Manager
  settle m (started, some message) = (some message, started, m)
  settle m (started, none) = (none, [], record m { handles = started })

  unfoldable pub start : Manager → Option String × Dict PluginHandle × Manager
  start m = elim m.cfg.plugins [
    | [] ↦ (none, [], m)
    | p ∷ ps ↦ settle m (start_all m.state (p ∷ ps))
  ]

-- The plugins that are killed, and the manager.
unfoldable pub stop : Manager → Dict PluginHandle × Manager
stop m = (m.handles, record m { handles = [] })
