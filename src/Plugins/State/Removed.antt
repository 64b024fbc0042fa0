-- ===== src/Plugins/State/Removed.antt =====
-- internal/pluginmgr/state.go: what `Remove` leaves on the disk.
use cvt.Base.{
  String, [], ◌∷◌, Bool, true, false, Option, none, some, ◌≡◌, ◌≢◌, refl, ap, ◌∙◌, if-true,
  if-false, if◌then◌else◌, apart_test, concat,
}
use text.Mathlib.TextPositions.{eq_refl}
use cvt.Base.Dict.{get, put, delete, get-delete}
use cvt.Base.Fallible.{Fallible, done, error}
use cvt.Plugins.{is_plugin_name, validate_binary_path}
use cvt.Plugins.Config.Loaded.{IsBelow, validate_binary_path-IsBelow}
use cvt.Plugins.State.{
  InstalledPlugin, StateFile, regular, Disk, Faults, Platform, read_node, read_state,
  write_state_under_lock, after_callback, under_lock, with_state_lock, forget, remove_callback,
  remove_binary, remove,
}
use cvt.Plugins.State.Installed.{then_do-holds, then_do-cases}
use cvt.Plugins.State.Verified.{read_state-put}

read_state-get :
    {Raw : Type 0} (platform : Platform Raw) (faults : Faults) (path : String) (d d₁ : Disk Raw)
    → get path d ≡ get path d₁
    → read_state platform faults path d ≡ read_state platform faults path d₁
unfolding read_state
read_state-get platform faults path d d₁ same =
    ap
      (λ n. elim faults.read_state [
        | some message ↦ error (concat ("read: " ∷ message ∷ []))
        | none ↦ read_node platform faults n
      ])
      same

module _ {Raw : Type 0} (platform : Platform Raw) (faults : Faults)
    (name plugin_root state_path : String) (d : Disk Raw) where
  -- The state without the plugin.
  abbrev pub without : StateFile → StateFile
  without s = record { version = 1; plugins = delete name s.plugins }

  abbrev pub forgotten : StateFile → Disk Raw
  forgotten s = put state_path (regular (platform.encode (without s))) d

  -- The path of the entry leads below the plugin directory.
  abbrev pub Checked : InstalledPlugin → Type 0
  Checked entry =
      (b : String) × (validate_binary_path platform.home_dir entry.binary_path plugin_root ≡ done b)
      × IsBelow plugin_root b

  -- What the transaction comes to: nothing, or the state without the plugin.
  pub data Forgotten : Fallible String × Disk Raw → Type 0 where
    kept : (message : String) → Forgotten (error message, d)
    written :
        (s : StateFile) (entry : InstalledPlugin)
        → read_state platform faults state_path d ≡ done s
        → get name s.plugins ≡ some entry
        → Checked entry
        → Forgotten (done entry.binary_path, forgotten s)

  -- What `Remove` comes to. The second case is that of a binary that could not be removed.
  pub data Removal : Fallible String × Disk Raw → Type 0 where
    unchanged : (message : String) → Removal (error message, d)
    orphaned :
        (fault : String) (s : StateFile) (entry : InstalledPlugin) (d₁ : Disk Raw)
        → read_state platform faults state_path d ≡ done s
        → get name s.plugins ≡ some entry
        → Checked entry
        → read_state platform faults state_path d₁ ≡ done (without s)
        → faults.remove ≡ some fault
        → Removal (error (concat ("remove binary (state already updated): " ∷ fault ∷ [])), d₁)
    removed :
        (s : StateFile) (entry : InstalledPlugin) (d₁ : Disk Raw)
        → read_state platform faults state_path d ≡ done s
        → get name s.plugins ≡ some entry
        → Checked entry
        → get entry.binary_path d₁ ≡ none
        → (entry.binary_path ≢ state_path
            → read_state platform faults state_path d₁ ≡ done (without s))
        → Removal (done entry.binary_path, d₁)

  after_forget :
      (s : StateFile) (entry : InstalledPlugin) (r : Fallible String)
      → read_state platform faults state_path d ≡ done s
      → get name s.plugins ≡ some entry
      → validate_binary_path platform.home_dir entry.binary_path plugin_root ≡ r
      → Forgotten
          (after_callback platform faults state_path (forget platform faults name entry s d r))
  unfolding write_state_under_lock
  after_forget s entry (error message) read found e = kept _
  after_forget s entry (done b) read found e =
      then_do-holds Forgotten faults.write_state _ d _ (λ m. kept m)
        (written s entry read found (b, e, validate_binary_path-IsBelow _ _ _ b e))

  callback-Forgotten :
      (s : StateFile) (o : Option InstalledPlugin)
      → read_state platform faults state_path d ≡ done s
      → get name s.plugins ≡ o
      → Forgotten (
          after_callback platform faults state_path (elim o [
            | none ↦ (error (concat ("plugin " ∷ name ∷ " not installed" ∷ [])), d)
            | some entry ↦
                forget platform faults name entry s d
                  (validate_binary_path platform.home_dir entry.binary_path plugin_root)
          ]))
  callback-Forgotten s none read found = kept _
  callback-Forgotten s (some entry) read found =
      after_forget s entry (validate_binary_path platform.home_dir entry.binary_path plugin_root)
        read found refl

  locked-Forgotten : Forgotten (
      with_state_lock platform faults state_path
        (remove_callback platform faults name plugin_root)
        d)
  unfolding with_state_lock remove_callback
  locked-Forgotten =
      then_do-holds Forgotten faults.mkdir_state _ d _ (λ m. kept m)
        (then_do-holds Forgotten faults.open_lock _ d _ (λ m. kept m)
          (then_do-holds Forgotten faults.acquire_lock _ d _ (λ m. kept m)
            (by_state (read_state platform faults state_path d) refl)))
    where
      by_state :
          (r : Fallible StateFile)
          → read_state platform faults state_path d ≡ r
          → Forgotten (
              under_lock platform faults state_path
                (remove_callback platform faults name plugin_root)
                d
                r)
      by_state (error message) read = kept message
      by_state (done s) read = callback-Forgotten s (get name s.plugins) read refl

  Forgotten-Removal :
      (x : Fallible String × Disk Raw) → Forgotten x → Removal (remove_binary platform faults x)
  Forgotten-Removal x (kept message) = unchanged message
  Forgotten-Removal x (written s entry read found below) =
      then_do-cases Removal faults.remove _ _ _
        (λ m failed. orphaned m s entry (forgotten s) read found below rewritten failed)
        (removed s entry _ read found below
          (get-delete entry.binary_path entry.binary_path (forgotten s)
            ∙ if-true none _ (eq_refl entry.binary_path))
          (λ apart.
            read_state-get platform faults state_path _ _ (
              get-delete entry.binary_path state_path (forgotten s)
              ∙ if-false _ _ (apart_test apart))
            ∙ rewritten))
    where
      rewritten : read_state platform faults state_path (forgotten s) ≡ done (without s)
      rewritten = read_state-put platform faults state_path s (delete name s.plugins) d d read

  -- `Remove` changes nothing and returns an error, or it takes the plugin, whose binary's path leads
  -- below the plugin directory, out of the state file; then it has removed the binary, or it returns
  -- the error of the call that removes it.
  pub remove-Removal : Removal (remove platform faults name plugin_root state_path d)
  unfolding remove
  remove-Removal = by_name (is_plugin_name name)
    where
      by_name :
          (b : Bool)
          → Removal (
              if b
              then remove_binary platform faults (
                  with_state_lock platform faults state_path
                    (remove_callback platform faults name plugin_root)
                    d)
              else (error (concat ("invalid plugin name " ∷ name ∷ [])), d))
      by_name true = Forgotten-Removal _ locked-Forgotten
      by_name false = unchanged _
