-- ===== src/Plugins/Tests.antt =====
-- Runs of the plugin manager's configuration and of its state file.
use cvt.Base.{String, [], ◌∷◌, some, ◌≡◌, refl}
use cvt.Base.Dict.{get, put, delete}
use cvt.Base.Fallible.{Fallible, done, error}
use cvt.Samples.Plugins.{env, loaded, system, Content, program, platform, no_faults, entry, shared}
use cvt.Plugins.{is_plugin_name, validate_binary_path, expand_home}
use cvt.Plugins.Paths.{
  split, add_elements, clean_elements, clean, absolute, join_paths, base_of, relative, rel, leaves,
}
use cvt.Plugins.Expansion.{
  strip, cut, name_and_default, value_of, expand_to, expand_at, expand, expand_env,
}
use cvt.Plugins.Expansion.Terminates.{expand_env-ends}
use cvt.Plugins.Config.{
  expand_config, load_plugin, load_plugins, load_decoded, load_read, load, validate_hooks,
}
use cvt.Plugins.Config.Loaded.{IsLoaded, load-IsLoaded}
use cvt.Plugins.State.{
  regular, Disk, read_state, write_state_under_lock, with_state_lock, sha256_file, used_by,
  copy_file, install_callback, install, remove_callback, remove,
}
use cvt.Plugins.State.Verified.{Outcome, install-Outcome}
use cvt.Plugins.State.Removed.{Removal, remove-Removal}

expands : expand_env env "a ${TOKEN} b ${NONE:-d}" ≡ some (done "a t0 b d")
unfolding expand_env expand expand_at expand_to value_of name_and_default cut strip
expands = refl

unterminated : expand_env env "a ${TOKEN" ≡ some (error "unterminated ${ in value")
unfolding expand_env expand expand_at expand_to value_of name_and_default cut strip
unterminated = refl

expand_env-ends_example :
    (r : Fallible String) × (expand_env env "a ${TOKEN} b ${NONE:-d}" ≡ some r)
expand_env-ends_example = expand_env-ends env "a ${TOKEN} b ${NONE:-d}"

pub loads : load system "/home/u/.cvt/config.yaml" "/p" ≡ done loaded
unfolding load load_read load_decoded load_plugins load_plugin expand_config validate_hooks
    expand_env expand expand_at expand_to value_of name_and_default cut strip is_plugin_name
    validate_binary_path expand_home split add_elements clean_elements clean absolute relative rel
    get
loads = refl

load-IsLoaded_example : IsLoaded "/p" loaded
load-IsLoaded_example = load-IsLoaded system "/p" "/home/u/.cvt/config.yaml" loaded loads

abbrev disk : Disk Content
disk = ("/home/u/spool", regular (program "p1")) ∷ []

installs : (install platform no_faults 9 "spool" "spool" "/p" "/p/state.json" disk).0 ≡ done entry
unfolding install with_state_lock read_state write_state_under_lock sha256_file used_by copy_file
    install_callback is_plugin_name split add_elements clean_elements clean absolute join_paths
    base_of relative rel leaves get put
installs = refl

install-Outcome_example :
    Outcome platform no_faults "spool" "/p/spool" "/p/state.json" disk
      (install platform no_faults 9 "spool" "spool" "/p" "/p/state.json" disk)
unfolding split add_elements clean_elements clean absolute join_paths base_of relative rel leaves
install-Outcome_example =
    install-Outcome platform no_faults 9 "spool" "spool" "/p" "/p/state.json" "/home/u/spool" disk
      refl (λ e. cc)

installs_twice :
    (install platform no_faults 9 "/p/spool" "other" "/p" "/p/state.json" shared).0 ≡ done entry
unfolding install with_state_lock read_state write_state_under_lock sha256_file used_by copy_file
    install_callback is_plugin_name split add_elements clean_elements clean absolute join_paths
    base_of relative rel leaves get put
installs_twice = refl

removes : (remove platform no_faults "spool" "/p" "/p/state.json" shared).0 ≡ done "/p/spool"
unfolding remove with_state_lock read_state write_state_under_lock remove_callback is_plugin_name
    validate_binary_path expand_home strip split add_elements clean_elements clean absolute relative
    rel get put delete
removes = refl

remove-Removal_example :
    Removal platform no_faults "spool" "/p" "/p/state.json" shared
      (remove platform no_faults "spool" "/p" "/p/state.json" shared)
remove-Removal_example = remove-Removal platform no_faults "spool" "/p" "/p/state.json" shared
