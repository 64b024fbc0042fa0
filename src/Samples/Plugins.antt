-- ===== src/Samples/Plugins.antt =====
-- A plugin's configuration, a platform without faults and a disk, for the tests.
use cvt.Base.{String, [], ◌∷◌, Option, none, some, true, false, refl}
use text.Mathlib.Text.{◌==◌}
use cvt.Base.Fallible.{Fallible, done, error}
use cvt.Plugins.Config.{pos, PluginConfig, Config, System}
use cvt.Plugins.State.{StateFile, InstalledPlugin, regular, Disk, Faults, Platform}

abbrev pub env : String → Option String
env name = elim (name == "TOKEN") [ true ↦ some "t0" | false ↦ none ]

abbrev pub spooler : PluginConfig
spooler = record {
  binary = "/p/x/../spool";
  timeout = pos 0;
  on_error = "";
  secrets = "token" ∷ [];
  config = ("token", "${TOKEN}") ∷ [];
}

abbrev pub config : Config
config = record {
  config_version = pos 1;
  plugins = ("spool", spooler) ∷ [];
  hooks = record {
    fetch_schema = "spool";
    register_consumer_usage = "";
    on_breaking_change_detected = "";
    on_validation_failed = "";
  };
}

abbrev pub loaded : Config
loaded = record config {
  plugins =
      (
        "spool",
        record {
          binary = "/p/spool";
          timeout = pos 5000000000;
          on_error = "fail_closed";
          secrets = "token" ∷ [];
          config = ("token", "t0") ∷ [];
        },
      )
      ∷ [];
}

abbrev pub system : System
system = record {
  lookup_env = env;
  user_home_dir = done "/home/u";
  read_file = λ path. some (done "text");
  decode = λ raw. done config;
  decimal = λ n. "2";
}

-- The contents of the files of a disk.
pub data Content : Type 0 where
  json : StateFile → Content
  program : String → Content

abbrev pub decoded : Content → Fallible StateFile
decoded (json s) = done s
decoded (program text) = error "invalid character"

abbrev pub hash_of : Content → String
hash_of (json s) = "json"
hash_of (program text) = text

abbrev pub platform : Platform Content
platform = record {
  working_dir = done "/home/u";
  home_dir = done "/home/u";
  unmarshal = decoded;
  encode = json;
  sha256_of = hash_of;
  unmarshal-encode = λ s. refl;
}

abbrev pub no_faults : Faults
no_faults = record {
  mkdir_root = none;
  chmod_root = none;
  mkdir_state = none;
  open_lock = none;
  acquire_lock = none;
  read_state = none;
  write_state = none;
  copy = none;
  hash = none;
  remove = none;
}

abbrev pub entry : InstalledPlugin
entry = record { binary_path = "/p/spool"; sha256 = "p1"; installed_at = 9 }

-- A binary that lies in the plugin directory already is registered under a second name.
abbrev pub shared : Disk Content
shared =
    ("/p/spool", regular (program "p1"))
    ∷ ("/p/state.json", regular (json (record { version = 1; plugins = ("spool", entry) ∷ [] })))
    ∷ []
