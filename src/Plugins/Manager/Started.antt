-- ===== src/Plugins/Manager/Started.antt =====
-- internal/pluginmgr/manager.go: `Start` starts every plugin or none, and only what was installed.
use cvt.Base.{
  String, [], ◌∷◌, Option, none, some, ◌≡◌, refl, sym, ap, ◌∙◌, subst, inl, inr, Bool-cases,
  if-true, if-false, eq_iff,
}
use text.Mathlib.Text.{◌==◌}
use cvt.Base.Dict.{Dict, get}
use cvt.Base.Fallible.{Fallible, done, error, done_inj}
use cvt.Plugins.Config.{PluginConfig}
use cvt.Plugins.State.{InstalledPlugin, StateFile, Disk, Faults, Platform, verify_installed}
use cvt.Plugins.Manager.{
  PluginHandle, Manager, Handshake, launched, verified, with_record, start_one, add_result,
  start_all, settle, start,
}

module _ {Raw : Type 0} (platform : Platform Raw) (faults : Faults) (d : Disk Raw)
    (launch : String → PluginConfig → Fallible Handshake) where
  -- A plugin that may run: its install record is the state's, names the configured binary, and the
  -- binary's hash is the recorded one.
  pub record Trusted (state : StateFile) (name : String) (pcfg : PluginConfig) (h : PluginHandle)
      : Type 0 where
    pub has_record : get name state.plugins ≡ some h.installed
    pub same_binary : h.installed.binary_path ≡ pcfg.binary
    pub same_hash : verify_installed platform faults h.installed d ≡ none

  launched-installed :
      (i : InstalledPlugin) (r : Fallible Handshake) (h : PluginHandle)
      → launched platform faults d launch i r ≡ done h
      → h.installed ≡ i
  launched-installed i (error message) h e = cc
  launched-installed i (done x) h e = ap (λ y. y.installed) (sym (done_inj e))

  verified-Trusted :
      (state : StateFile) (name : String) (pcfg : PluginConfig) (i : InstalledPlugin)
      (o : Option String) (h : PluginHandle)
      → get name state.plugins ≡ some i
      → i.binary_path ≡ pcfg.binary
      → verify_installed platform faults i d ≡ o
      → verified platform faults d launch name pcfg i o ≡ done h
      → Trusted state name pcfg h
  verified-Trusted state name pcfg i (some message) h found binary hash e = cc
  verified-Trusted state name pcfg i none h found binary hash e =
      let same = launched-installed i (launch name pcfg) h e in
      record {
        has_record = found ∙ ap (λ x. some x) (sym same);
        same_binary = ap (λ x. x.binary_path) same ∙ binary;
        same_hash = ap (λ x. verify_installed platform faults x d) same ∙ hash;
      }

  with_record-Trusted :
      (state : StateFile) (name : String) (pcfg : PluginConfig) (o : Option InstalledPlugin)
      (h : PluginHandle)
      → get name state.plugins ≡ o
      → with_record platform faults d launch name pcfg o ≡ done h
      → Trusted state name pcfg h
  with_record-Trusted state name pcfg none h found e = cc
  with_record-Trusted state name pcfg (some i) h found e =
      elim (Bool-cases (i.binary_path == pcfg.binary)) [
        | inl same ↦
            verified-Trusted state name pcfg i (verify_installed platform faults i d) h found
              ((eq_iff i.binary_path pcfg.binary).0 same) refl (sym (if-true _ _ same) ∙ e)
        | inr other ↦ cc (sym (if-false _ _ other) ∙ e)
      ]

  start_one-Trusted :
      (state : StateFile) (name : String) (pcfg : PluginConfig) (h : PluginHandle)
      → start_one platform faults d launch state name pcfg ≡ done h
      → Trusted state name pcfg h
  unfolding start_one
  start_one-Trusted state name pcfg h e =
      with_record-Trusted state name pcfg (get name state.plugins) h refl e

  -- The handles are those of the configured plugins, in their order.
  pub data AllTrusted (state : StateFile) : Dict PluginConfig → Dict PluginHandle → Type 0 where
    nothing_configured : AllTrusted state [] []
    also :
        (name : String) (pcfg : PluginConfig) (m : Dict PluginConfig) (h : PluginHandle)
        (hs : Dict PluginHandle)
        → Trusted state name pcfg h
        → AllTrusted state m hs
        → AllTrusted state ((name, pcfg) ∷ m) ((name, h) ∷ hs)

  start_all-AllTrusted :
      (state : StateFile) (m : Dict PluginConfig)
      → (start_all platform faults d launch state m).1 ≡ none
      → AllTrusted state m (start_all platform faults d launch state m).0
  unfolding start_all
  start_all-AllTrusted state [] e = nothing_configured
  start_all-AllTrusted state ((name, pcfg) ∷ m) e =
      by_result (start_one platform faults d launch state name pcfg) refl
        (start_all-AllTrusted state m) e
    where
      rest : Dict PluginHandle × Option String
      rest = start_all platform faults d launch state m

      by_result :
          (r : Fallible PluginHandle)
          → start_one platform faults d launch state name pcfg ≡ r
          → (rest.1 ≡ none → AllTrusted state m rest.0)
          → (add_result platform faults d launch name r rest).1 ≡ none
          → AllTrusted state ((name, pcfg) ∷ m) (add_result platform faults d launch name r rest).0
      by_result (error message) one others all = cc
      by_result (done h) one others all =
          also name pcfg m h rest.0 (start_one-Trusted state name pcfg h one) (others all)

  -- What `Start` comes to: all plugins run, or the manager is as it was.
  pub data Outcome (m : Manager) : Option String × Dict PluginHandle × Manager → Type 0 where
    nothing_to_start : m.cfg.plugins ≡ [] → Outcome m (none, [], m)
    all_running :
        (hs : Dict PluginHandle)
        → AllTrusted m.state m.cfg.plugins hs
        → Outcome m (none, [], record m { handles = hs })
    none_running :
        (message : String) (killed : Dict PluginHandle) → Outcome m (some message, killed, m)

  settle-Outcome :
      (m : Manager) (r : Dict PluginHandle × Option String)
      → (r.1 ≡ none → AllTrusted m.state m.cfg.plugins r.0)
      → Outcome m (settle platform faults d launch m r)
  settle-Outcome m (started, some message) trusted = none_running message started
  settle-Outcome m (started, none) trusted = all_running started (trusted refl)

  -- `Start` leaves the manager as it was and returns an error, or it runs every configured plugin;
  -- then each of them has an install record that names its configured binary, whose hash is the one
  -- of the record.
  pub start-Outcome : (m : Manager) → Outcome m (start platform faults d launch m)
  unfolding start
  start-Outcome m = by_plugins m.cfg.plugins refl
    where
      by_plugins :
          (ps : Dict PluginConfig)
          → m.cfg.plugins ≡ ps
          → Outcome m (elim ps [
            | [] ↦ (none, [], m)
            | p ∷ qs ↦
                settle platform faults d launch m
                  (start_all platform faults d launch m.state (p ∷ qs))
          ])
      by_plugins [] e = nothing_to_start e
      by_plugins (p ∷ qs) e = settle-Outcome m _ (λ all.
          subst (λ x. AllTrusted m.state x (start_all platform faults d launch m.state (p ∷ qs)).0)
            (sym e) (start_all-AllTrusted m.state (p ∷ qs) all))
