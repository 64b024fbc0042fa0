-- ===== src/Plugins/State/Verified.antt =====
-- internal/pluginmgr/state.go: reading the state file, and verifying the binary, after `Install`.
use cvt.Base.{
  ℕ, String, [], ◌∷◌, Bool, true, false, Option, none, some, ◌≡◌, ◌≢◌, refl, sym, ap, ◌∙◌, subst,
  inl, if-true, if-false, if◌then◌else◌, apart_test, concat,
}
use text.Mathlib.TextPositions.{eq_refl}
use cvt.Base.Dict.{Dict, get, put, get-put, get-put_self}
use cvt.Base.Fallible.{Fallible, done, error, wrap}
use cvt.Plugins.{is_plugin_name}
use cvt.Plugins.State.{
  InstalledPlugin, StateFile, regular, Disk, Faults, Platform, supported_state, content_of,
  read_node, read_state, abs_path, source_error, sha256_file, dest_of, install_from, install,
  same_hash, verify_installed,
}
use cvt.Plugins.State.Installed.{
  then_do-holds, Kept-get, entry_at, Installation, refused, installed, locked-Installation,
}

module _ {Raw : Type 0} (platform : Platform Raw) (faults : Faults) where
  -- What is written under the lock is what the next reading finds.
  pub read_state-put :
      (path : String) (s : StateFile) (plugins : Dict InstalledPlugin) (d d₁ : Disk Raw)
      → read_state platform faults path d ≡ done s
      → read_state platform faults path
          (put path (regular (platform.encode (record { version = 1; plugins = plugins }))) d₁)
        ≡ done (record { version = 1; plugins = plugins })
  unfolding read_state
  read_state-put path s plugins d d₁ read = by_fault faults.read_state read
    where
      written : StateFile
      written = record { version = 1; plugins = plugins }

      reading : Option String → Disk Raw → Fallible StateFile
      reading o x = elim o [
        | some message ↦ error (concat ("read: " ∷ message ∷ []))
        | none ↦ read_node platform faults (get path x)
      ]

      by_fault :
          (o : Option String)
          → reading o d ≡ done s
          → reading o (put path (regular (platform.encode written)) d₁) ≡ done written
      by_fault (some message) e = cc
      by_fault none e =
          ap (read_node platform faults) (get-put_self path (regular (platform.encode written)) d₁)
          ∙ ap
              (λ r. elim (wrap (λ m. concat ("parse: " ∷ m ∷ [])) r) [
                | error message ↦ error message
                | done x ↦ supported_state x
              ])
              (platform.unmarshal-encode written)

  -- The end of an installation.
  pub data Outcome (name dest_path state_path : String) (d : Disk Raw)
      : Fallible InstalledPlugin × Disk Raw → Type 0 where
    failed :
        (message : String) (d₁ : Disk Raw)
        → get state_path d₁ ≡ get state_path d
        → Outcome name dest_path state_path d (error message, d₁)
    succeeded :
        (entry : InstalledPlugin) (s : StateFile) (d₁ : Disk Raw)
        → read_state platform faults state_path d ≡ done s
        → read_state platform faults state_path d₁
          ≡ done (record { version = 1; plugins = put name entry s.plugins })
        → entry.binary_path ≡ dest_path
        → verify_installed platform faults entry d₁ ≡ none
        → Outcome name dest_path state_path d (done entry, d₁)

  sha256_file-get :
      (path : String) (d d₁ : Disk Raw)
      → get path d ≡ get path d₁
      → sha256_file platform faults path d ≡ sha256_file platform faults path d₁
  unfolding sha256_file
  sha256_file-get path d d₁ same =
      ap
        (λ n. elim faults.hash [
          | some message ↦ error message
          | none ↦ elim (content_of n) [
            | error message ↦ error message
            | done raw ↦ done (platform.sha256_of raw)
          ]
        ])
        same

  Installation-Outcome :
      (now : ℕ) (name dest_path state_path : String) (d : Disk Raw)
      (a : Fallible InstalledPlugin × Disk Raw)
      → dest_path ≢ state_path
      → Installation platform faults now name dest_path state_path d a
      → Outcome name dest_path state_path d a
  unfolding verify_installed
  Installation-Outcome now name dest_path state_path d a apart (refused message d₁ kept) =
      failed message d₁ (Kept-get platform faults dest_path state_path d d₁ kept apart)
  Installation-Outcome now name dest_path state_path d a apart
        (installed s sum d₁ read kept hashed) =
      succeeded (entry_at platform faults now name dest_path state_path sum) s _ read
        (read_state-put state_path s (put name _ s.plugins) d d₁ read) refl
        (ap
            (λ r. elim r [
              | error message ↦ some (concat ("hash " ∷ dest_path ∷ ": " ∷ message ∷ []))
              | done x ↦
                  same_hash platform faults
                    (entry_at platform faults now name dest_path state_path sum) x
            ])
            (sha256_file-get dest_path _ d₁
                (get-put state_path dest_path _ d₁ ∙ if-false _ _ (apart_test (λ e. apart (sym e))))
              ∙ hashed)
          ∙ if-true _ _ (eq_refl sum))

  install-Installation :
      (now : ℕ) (src name plugin_root state_path abs_src : String) (d : Disk Raw)
      → abs_path platform faults src ≡ done abs_src
      → Installation platform faults now name
          (dest_of platform faults plugin_root abs_src)
          state_path
          d
          (install platform faults now src name plugin_root state_path d)
  unfolding install
  install-Installation now src name plugin_root state_path abs_src d resolved =
      subst
        (λ r. P (
          if is_plugin_name name
          then install_from platform faults now name plugin_root state_path d r
          else (error (concat ("invalid plugin name " ∷ name ∷ [])), d)))
        (sym resolved) (by_name (is_plugin_name name))
    where
      P : Fallible InstalledPlugin × Disk Raw → Type 0
      P =
          Installation platform faults now name (dest_of platform faults plugin_root abs_src)
            state_path d

      stops : (m : String) → P (error m, d)
      stops m = refused m d (inl refl)

      by_name :
          (b : Bool)
          → P (
              if b
              then install_from platform faults now name plugin_root state_path d (done abs_src)
              else (error (concat ("invalid plugin name " ∷ name ∷ [])), d))
      by_name false = stops _
      by_name true = then_do-holds P (source_error platform faults (get abs_src d)) _ d _ stops (
          then_do-holds P faults.mkdir_root _ d _ stops (
            then_do-holds P faults.chmod_root _ d _ stops (
              locked-Installation platform faults now name _ state_path abs_src plugin_root d
                refl)))

  -- Where the binary's path is not the state file's: an installation that fails leaves the state file
  -- as it was; and one that succeeds leaves a state file that reads as before but for the plugin's
  -- entry, which names the binary's path and passes the verification of its hash.
  pub install-Outcome :
      (now : ℕ) (src name plugin_root state_path abs_src : String) (d : Disk Raw)
      → abs_path platform faults src ≡ done abs_src
      → dest_of platform faults plugin_root abs_src ≢ state_path
      → Outcome name
          (dest_of platform faults plugin_root abs_src)
          state_path
          d
          (install platform faults now src name plugin_root state_path d)
  install-Outcome now src name plugin_root state_path abs_src d resolved apart =
      Installation-Outcome now name _ state_path d _ apart
        (install-Installation now src name plugin_root state_path abs_src d resolved)
