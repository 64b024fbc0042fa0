-- ===== src/Plugins/State/Installed.antt =====
-- internal/pluginmgr/state.go: what `Install` leaves on the disk.
use cvt.Base.{
  ℕ, String, Bool, true, false, Option, none, some, ◌≡◌, ◌≢◌, ◌⊎◌, refl, sym, ap, ◌∙◌, subst, inl,
  inr, if-false, if◌then◌else◌, apart_test, concat, [], ◌∷◌,
}
use cvt.Base.Dict.{get, put, get-put}
use cvt.Base.Fallible.{Fallible, done, error}
use cvt.Plugins.State.{
  InstalledPlugin, StateFile, regular, Disk, Faults, Platform, content_of, then_do, read_state,
  write_state_under_lock, after_callback, under_lock, with_state_lock, sha256_file, used_by,
  record_entry, copy_file, after_copy, copy_unless_used, is_inside, dest_of, install_callback,
}

pub then_do-holds :
    {A D : Type 0} (P : Fallible A × D → Type 0) (o : Option String) (what : String) (d : D)
    (rest : Fallible A × D)
    → ((message : String) → P (error message, d))
    → P rest
    → P (then_do o what d rest)
then_do-holds P none what d rest stops goes = goes
then_do-holds P (some message) what d rest stops goes = stops _

-- The same, with the error that the step made.
pub then_do-cases :
    {A D : Type 0} (P : Fallible A × D → Type 0) (o : Option String) (what : String) (d : D)
    (rest : Fallible A × D)
    → ((message : String) → o ≡ some message → P (error (concat (what ∷ message ∷ [])), d))
    → P rest
    → P (then_do o what d rest)
then_do-cases P none what d rest stops goes = goes
then_do-cases P (some message) what d rest stops goes = stops message refl

module _ {Raw : Type 0} (platform : Platform Raw) (faults : Faults) where
  -- At most the binary has been written.
  abbrev pub Kept : String → Disk Raw → Disk Raw → Type 0
  Kept dest_path d d₁ = (d₁ ≡ d) ⊎ ((raw : Raw) × (d₁ ≡ put dest_path (regular raw) d))

  pub Kept-get :
      (dest_path path : String) (d d₁ : Disk Raw)
      → Kept dest_path d d₁
      → dest_path ≢ path
      → get path d₁ ≡ get path d
  Kept-get dest_path path d d₁ (inl same) apart = ap (get path) same
  Kept-get dest_path path d d₁ (inr (raw, written)) apart =
      ap (get path) written
      ∙ get-put dest_path path (regular raw) d
      ∙ if-false _ _ (apart_test apart)

  module _ (now : ℕ) (name dest_path state_path : String) where
    abbrev pub entry_at : String → InstalledPlugin
    entry_at sum = record { binary_path = dest_path; sha256 = sum; installed_at = now }

    abbrev pub with_entry : StateFile → String → StateFile
    with_entry s sum = record { version = 1; plugins = put name (entry_at sum) s.plugins }

    data Recorded (s : StateFile) (d : Disk Raw)
        : Fallible (StateFile × InstalledPlugin) × Disk Raw → Type 0 where
      unrecorded :
          (message : String) (d₁ : Disk Raw)
          → Kept dest_path d d₁
          → Recorded s d (error message, d₁)
      recorded :
          (sum : String) (d₁ : Disk Raw)
          → Kept dest_path d d₁
          → sha256_file platform faults dest_path d₁ ≡ done sum
          → Recorded s d
              (done (record s { plugins = put name (entry_at sum) s.plugins }, entry_at sum), d₁)

    -- What `Install` comes to: an error, or the entry, which is in the state that is written.
    pub data Installation (d : Disk Raw) : Fallible InstalledPlugin × Disk Raw → Type 0 where
      refused :
          (message : String) (d₁ : Disk Raw)
          → Kept dest_path d d₁
          → Installation d (error message, d₁)
      installed :
          (s : StateFile) (sum : String) (d₁ : Disk Raw)
          → read_state platform faults state_path d ≡ done s
          → Kept dest_path d d₁
          → sha256_file platform faults dest_path d₁ ≡ done sum
          → Installation d (
            done (entry_at sum),
            put state_path (regular (platform.encode (with_entry s sum))) d₁,
          )

    record_entry-Recorded :
        (s : StateFile) (d d₁ : Disk Raw) (r : Fallible String)
        → Kept dest_path d d₁
        → sha256_file platform faults dest_path d₁ ≡ r
        → Recorded s d (record_entry platform faults now name dest_path s d₁ r)
    record_entry-Recorded s d d₁ (error message) kept e = unrecorded _ d₁ kept
    record_entry-Recorded s d d₁ (done sum) kept e = recorded sum d₁ kept e

    copy_file-Kept :
        (src : String) (d d₁ : Disk Raw)
        → copy_file platform faults src dest_path d ≡ done d₁
        → Kept dest_path d d₁
    unfolding copy_file
    copy_file-Kept src d d₁ = by_calls faults.copy (content_of (get src d))
      where
        by_calls :
            (o : Option String) (r : Fallible Raw)
            → (elim o [
              | some message ↦ error message
              | none ↦ elim r [
                | error message ↦ error message
                | done raw ↦ done (put dest_path (regular raw) d)
              ]
            ])
              ≡ done d₁
            → (d₁ ≡ d) ⊎ ((raw : Raw) × (d₁ ≡ put dest_path (regular raw) d))
        by_calls (some message) r e = cc
        by_calls none (error message) e = cc
        by_calls none (done raw) e = inr (raw, cc)

    install_callback-Recorded :
        (abs_src plugin_root : String) (s : StateFile) (d : Disk Raw)
        → dest_of platform faults plugin_root abs_src ≡ dest_path
        → Recorded s d (install_callback platform faults now abs_src name plugin_root s d)
    unfolding install_callback
    install_callback-Recorded abs_src plugin_root s d is_dest =
        subst
          (λ dest. Recorded s d (
            if is_inside platform faults plugin_root abs_src
            then record_entry platform faults now name dest s d (sha256_file platform faults dest d)
            else copy_unless_used platform faults now name abs_src dest s d
                (used_by platform faults name dest s.plugins)))
          (sym is_dest)
          (by_place (is_inside platform faults plugin_root abs_src)
            (used_by platform faults name dest_path s.plugins))
      where
        copied :
            (r : Fallible (Disk Raw))
            → copy_file platform faults abs_src dest_path d ≡ r
            → Recorded s d (after_copy platform faults now name dest_path s d r)
        copied (error message) e = unrecorded _ d (inl refl)
        copied (done d₁) e = record_entry-Recorded s d d₁ _ (copy_file-Kept abs_src d d₁ e) refl

        by_place :
            (b : Bool) (o : Option String)
            → Recorded s d (
                if b
                then record_entry platform faults now name dest_path s d
                    (sha256_file platform faults dest_path d)
                else copy_unless_used platform faults now name abs_src dest_path s d o)
        by_place true o = record_entry-Recorded s d d _ (inl refl) refl
        by_place false (some other) = unrecorded _ d (inl refl)
        by_place false none = copied (copy_file platform faults abs_src dest_path d) refl

    after_callback-Installation :
        (s : StateFile) (d : Disk Raw) (x : Fallible (StateFile × InstalledPlugin) × Disk Raw)
        → read_state platform faults state_path d ≡ done s
        → Recorded s d x
        → Installation d (after_callback platform faults state_path x)
    unfolding write_state_under_lock
    after_callback-Installation s d x read (unrecorded message d₁ kept) = refused message d₁ kept
    after_callback-Installation s d x read (recorded sum d₁ kept hashed) =
        then_do-holds (Installation d) faults.write_state "write: " d₁ _ (λ m. refused m d₁ kept)
          (installed s sum d₁ read kept hashed)

    pub locked-Installation :
        (abs_src plugin_root : String) (d : Disk Raw)
        → dest_of platform faults plugin_root abs_src ≡ dest_path
        → Installation d (
            with_state_lock platform faults state_path
              (install_callback platform faults now abs_src name plugin_root)
              d)
    unfolding with_state_lock
    locked-Installation abs_src plugin_root d is_dest =
        then_do-holds (Installation d) faults.mkdir_state _ d _ stops (
          then_do-holds (Installation d) faults.open_lock _ d _ stops (
            then_do-holds (Installation d) faults.acquire_lock _ d _ stops
              (by_state (read_state platform faults state_path d) refl)))
      where
        stops : (m : String) → Installation d (error m, d)
        stops m = refused m d (inl refl)

        by_state :
            (r : Fallible StateFile)
            → read_state platform faults state_path d ≡ r
            → Installation d (
                under_lock platform faults state_path
                  (install_callback platform faults now abs_src name plugin_root)
                  d
                  r)
        by_state (error message) read = stops message
        by_state (done s) read =
            after_callback-Installation s d _ read
              (install_callback-Recorded abs_src plugin_root s d is_dest)
