-- ===== src/Plugins/State.antt =====
-- internal/pluginmgr/state.go: the record of the installed plugins, `Install`, `Remove` and
-- `VerifyInstalled`, over a disk. Each call of the operating system may fail: the faults are an
-- argument. Temporary files, modes and the lock file's content are left out; a write under the lock
-- is one step, as its rename is.
pub mod Installed
pub mod Verified
pub mod Removed
use cvt.Base.{
  ℕ, String, List, [], ◌∷◌, Bool, true, false, not, ◌&&◌, ◌||◌, Option, none, some, eqb, concat,
  if◌then◌else◌, ◌≡◌,
}
use text.Mathlib.Text.{◌==◌}
use cvt.Base.Dict.{Dict, get, put, delete}
use cvt.Base.Fallible.{Fallible, done, error, wrap}
use cvt.Plugins.{is_plugin_name, validate_binary_path}
use cvt.Plugins.Paths.{is_abs, clean, join_paths, base_of, rel, leaves}

pub record InstalledPlugin : Type 0 where
  pub binary_path : String
  pub sha256 : String
  pub installed_at : ℕ

pub record StateFile : Type 0 where
  pub version : ℕ
  pub plugins : Dict InstalledPlugin

-- A link reads as its target, if there is one.
pub data Node (Raw : Type 0) : Type 0 where
  regular : Raw → Node Raw
  directory : Node Raw
  symlink : Option Raw → Node Raw

abbrev pub Disk : Type 0 → Type 0
Disk Raw = Dict (Node Raw)

-- The error of each call, if it fails.
pub record Faults : Type 0 where
  pub mkdir_root : Option String
  pub chmod_root : Option String
  pub mkdir_state : Option String
  pub open_lock : Option String
  pub acquire_lock : Option String
  pub read_state : Option String
  pub write_state : Option String
  pub copy : Option String
  pub hash : Option String
  pub remove : Option String

-- The working directory and the home directory, JSON and SHA-256 of file contents. What `Encode`
-- writes, `Unmarshal` reads.
pub record Platform (Raw : Type 0) : Type 0 where
  pub working_dir : Fallible String
  pub home_dir : Fallible String
  pub unmarshal : Raw → Fallible StateFile
  pub encode : StateFile → Raw
  pub sha256_of : Raw → String
  pub unmarshal-encode : (s : StateFile) → unmarshal (encode s) ≡ done s

abbrev pub empty_state : StateFile
empty_state = record { version = 1; plugins = [] }

abbrev pub supported_state : StateFile → Fallible StateFile
supported_state s =
    if not (eqb s.version 0) && not (eqb s.version 1)
    then error "unsupported state.json version"
    else done (record s { version = 1 })

abbrev pub content_of : {Raw : Type 0} → Option (Node Raw) → Fallible Raw
content_of none = error "no such file or directory"
content_of (some (regular raw)) = done raw
content_of (some directory) = error "is a directory"
content_of (some (symlink none)) = error "no such file or directory"
content_of (some (symlink (some raw))) = done raw

abbrev pub then_do : {A D : Type 0} → Option String → String → D → Fallible A × D → Fallible A × D
then_do none what d rest = rest
then_do (some message) what d rest = (error (concat (what ∷ message ∷ [])), d)

module _ {Raw : Type 0} (platform : Platform Raw) (faults : Faults) where
  abbrev pub parsed_state : Raw → Fallible StateFile
  parsed_state raw = elim (wrap (λ m. concat ("parse: " ∷ m ∷ [])) (platform.unmarshal raw)) [
    | error message ↦ error message
    | done s ↦ supported_state s
  ]

  abbrev pub read_node : Option (Node Raw) → Fallible StateFile
  read_node none = done empty_state
  read_node (some node) = elim (content_of (some node)) [
    | error message ↦ error (concat ("read: " ∷ message ∷ []))
    | done raw ↦ parsed_state raw
  ]

  -- A file that is missing reads as an empty state.
  unfoldable pub read_state : String → Disk Raw → Fallible StateFile
  read_state path d = elim faults.read_state [
    | some message ↦ error (concat ("read: " ∷ message ∷ []))
    | none ↦ read_node (get path d)
  ]

  unfoldable pub write_state_under_lock :
      {A : Type 0} → String → StateFile → A → Disk Raw → Fallible A × Disk Raw
  write_state_under_lock path s a d =
      then_do faults.write_state "write: " d
        (done a, put path (regular (platform.encode (record s { version = 1 }))) d)

  -- What the callback returned: an error, or a state to write and a value.
  abbrev pub after_callback :
      {A : Type 0} → String → Fallible (StateFile × A) × Disk Raw → Fallible A × Disk Raw
  after_callback path (error message, d) = (error message, d)
  after_callback path (done (s, a), d) = write_state_under_lock path s a d

  abbrev pub under_lock :
      {A : Type 0}
      → String
      → (StateFile → Disk Raw → Fallible (StateFile × A) × Disk Raw)
      → Disk Raw
      → Fallible StateFile
      → Fallible A × Disk Raw
  under_lock path fn d (error message) = (error message, d)
  under_lock path fn d (done s) = after_callback path (fn s d)

  unfoldable pub with_state_lock :
      {A : Type 0}
      → String
      → (StateFile → Disk Raw → Fallible (StateFile × A) × Disk Raw)
      → Disk Raw
      → Fallible A × Disk Raw
  with_state_lock path fn d = then_do faults.mkdir_state "mkdir: " d (
      then_do faults.open_lock "open lock: " d
        (then_do faults.acquire_lock "acquire lock: " d (under_lock path fn d (read_state path d))))

  -- `filepath.Abs`.
  abbrev pub abs_path : String → Fallible String
  abs_path path = if is_abs path then done (clean path) else (elim platform.working_dir [
    | error message ↦ error message
    | done dir ↦ done (join_paths dir path)
  ])

  -- `Lstat` of the source.
  abbrev pub source_error : Option (Node Raw) → Option String
  source_error none = some "stat source: no such file or directory"
  source_error (some (symlink target)) = some "source is a symlink"
  source_error (some directory) = some "source is a directory"
  source_error (some (regular raw)) = none

  unfoldable pub sha256_file : String → Disk Raw → Fallible String
  sha256_file path d = elim faults.hash [
    | some message ↦ error message
    | none ↦ elim (content_of (get path d)) [
      | error message ↦ error message
      | done raw ↦ done (platform.sha256_of raw)
    ]
  ]

  -- Another name whose binary is at this path.
  unfoldable pub used_by : String → String → Dict InstalledPlugin → Option String
  used_by name dest_path [] = none
  used_by name dest_path ((other_name, other) ∷ m) =
      let rest = used_by name dest_path m in
      if other_name == name
      then rest
      else (if clean other.binary_path == clean dest_path then some other_name else rest)

  -- The end of the callback: the hash and the entry.
  abbrev pub record_entry :
      ℕ
      → String
      → String
      → StateFile
      → Disk Raw
      → Fallible String
      → Fallible (StateFile × InstalledPlugin) × Disk Raw
  record_entry now name dest_path s d (error message) =
      (error (concat ("sha256: " ∷ message ∷ [])), d)
  record_entry now name dest_path s d (done sum) =
      let entry : InstalledPlugin = record {
        binary_path = dest_path;
        sha256 = sum;
        installed_at = now;
      } in
      (done (record s { plugins = put name entry s.plugins }, entry), d)

  unfoldable pub copy_file : String → String → Disk Raw → Fallible (Disk Raw)
  copy_file src dst d = elim faults.copy [
    | some message ↦ error message
    | none ↦ elim (content_of (get src d)) [
      | error message ↦ error message
      | done raw ↦ done (put dst (regular raw) d)
    ]
  ]

  abbrev pub after_copy :
      ℕ
      → String
      → String
      → StateFile
      → Disk Raw
      → Fallible (Disk Raw)
      → Fallible (StateFile × InstalledPlugin) × Disk Raw
  after_copy now name dest_path s d (error message) =
      (error (concat ("copy binary: " ∷ message ∷ [])), d)
  after_copy now name dest_path s d (done d') =
      record_entry now name dest_path s d' (sha256_file dest_path d')

  abbrev pub copy_unless_used :
      ℕ
      → String
      → String
      → String
      → StateFile
      → Disk Raw
      → Option String
      → Fallible (StateFile × InstalledPlugin) × Disk Raw
  copy_unless_used now name abs_src dest_path s d (some other_name) = (
    error (concat ("binary path " ∷ dest_path ∷ " already used by plugin " ∷ other_name ∷ [])),
    d,
  )
  copy_unless_used now name abs_src dest_path s d none =
      after_copy now name dest_path s d (copy_file abs_src dest_path d)

  -- `relErr == nil && rel != ".." && !HasPrefix(rel, "../")`.
  abbrev pub is_inside : String → String → Bool
  is_inside plugin_root abs_src = elim (rel plugin_root abs_src) [
    | none ↦ false
    | some r ↦ not (leaves r)
  ]

  abbrev pub dest_of : String → String → String
  dest_of plugin_root abs_src =
      if is_inside plugin_root abs_src
      then abs_src
      else join_paths (clean plugin_root) (base_of abs_src)

  unfoldable pub install_callback :
      ℕ
      → String
      → String
      → String
      → StateFile
      → Disk Raw
      → Fallible (StateFile × InstalledPlugin) × Disk Raw
  install_callback now abs_src name plugin_root s d =
      let dest_path = dest_of plugin_root abs_src in
      if is_inside plugin_root abs_src
      then record_entry now name dest_path s d (sha256_file dest_path d)
      else copy_unless_used now name abs_src dest_path s d (used_by name dest_path s.plugins)

  abbrev pub install_from :
      ℕ
      → String
      → String
      → String
      → Disk Raw
      → Fallible String
      → Fallible InstalledPlugin × Disk Raw
  install_from now name plugin_root state_path d (error message) =
      (error (concat ("resolve source: " ∷ message ∷ [])), d)
  install_from now name plugin_root state_path d (done abs_src) =
      then_do (source_error (get abs_src d)) "" d (
        then_do faults.mkdir_root "mkdir plugin root: " d (
          then_do faults.chmod_root "chmod plugin root: " d
            (with_state_lock state_path (install_callback now abs_src name plugin_root) d)))

  unfoldable pub install :
      ℕ → String → String → String → String → Disk Raw → Fallible InstalledPlugin × Disk Raw
  install now src_path name plugin_root state_path d =
      if is_plugin_name name
      then install_from now name plugin_root state_path d (abs_path src_path)
      else (error (concat ("invalid plugin name " ∷ name ∷ [])), d)

  abbrev pub forget :
      String
      → InstalledPlugin
      → StateFile
      → Disk Raw
      → Fallible String
      → Fallible (StateFile × String) × Disk Raw
  forget name entry s d (error message) =
      (error (concat ("plugin " ∷ name ∷ " binary path escapes plugin root: " ∷ message ∷ [])), d)
  forget name entry s d (done checked) =
      (done (record s { plugins = delete name s.plugins }, entry.binary_path), d)

  unfoldable pub remove_callback :
      String → String → StateFile → Disk Raw → Fallible (StateFile × String) × Disk Raw
  remove_callback name plugin_root s d = elim (get name s.plugins) [
    | none ↦ (error (concat ("plugin " ∷ name ∷ " not installed" ∷ [])), d)
    | some entry ↦
        forget name entry s d (validate_binary_path platform.home_dir entry.binary_path plugin_root)
  ]

  -- `os.Remove` of the binary, after the lock is released; a missing file is no error.
  abbrev pub remove_binary : Fallible String × Disk Raw → Fallible String × Disk Raw
  remove_binary (error message, d) = (error message, d)
  remove_binary (done binary_path, d) =
      then_do faults.remove "remove binary (state already updated): " d
        (done binary_path, delete binary_path d)

  -- The value, where `Remove` returns no error, is the path that was removed.
  unfoldable pub remove : String → String → String → Disk Raw → Fallible String × Disk Raw
  remove name plugin_root state_path d =
      if is_plugin_name name
      then remove_binary (with_state_lock state_path (remove_callback name plugin_root) d)
      else (error (concat ("invalid plugin name " ∷ name ∷ [])), d)

  abbrev pub same_hash : InstalledPlugin → String → Option String
  same_hash entry sum =
      if sum == entry.sha256
      then none
      else some (concat ("sha256 mismatch for " ∷ entry.binary_path ∷ []))

  -- `VerifyInstalled`: the error, if there is one.
  unfoldable pub verify_installed : InstalledPlugin → Disk Raw → Option String
  verify_installed entry d = elim (sha256_file entry.binary_path d) [
    | error message ↦ some (concat ("hash " ∷ entry.binary_path ∷ ": " ∷ message ∷ []))
    | done sum ↦ same_hash entry sum
  ]
