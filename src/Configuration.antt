-- ===== src/Configuration.antt =====
-- pkg/config/config.go and cmd/serialhub/config_loader.go: the configuration of the program, where
-- its file is, and how the file, the environment and the flags make up the values in force. What
-- the operating system answers and what the TOML package decodes are parameters. A `float64` of stop
-- bits is an integer number of thousandths.
pub mod Limits
pub mod Migration
pub mod Careful
use serial_hub.Prelude.{
  ℕ, [], ◌∷◌, ◌++◌, List, Bool, true, false, ◌&&◌, ◌||◌, not, Option, none, some, Bytes, codes,
  bytes_eq, is_empty, if◌then◌else◌, ℤ, pos, is_positive, ltb_ℤ, leb_ℤ, Result, ok, err,
}
use serial_hub.Serial.Config.{Config}
use serial_hub.Script.{ScriptLimits}

-- `SerialConfig`: that of the port, and whether to connect at the start.
pub record SerialConfig : Type 0 where
  pub port : Bytes
  pub baud_rate : ℤ
  pub data_bits : ℤ
  pub parity : Bytes
  pub stop_bits : ℤ
  pub auto_connect : Bool

-- `config.Config`.
pub record AppConfig : Type 0 where
  pub serial : SerialConfig
  pub http_port : ℤ
  pub timeout_min_ms : ℤ
  pub timeout_max_ms : ℤ
  pub host : Bytes
  pub log_dir : Bytes
  pub debug : Bool
  pub log_data : Bool

abbrev pub default_http_port : ℤ
default_http_port = pos 5050

abbrev pub default_script_timeout_min_ms : ℤ
default_script_timeout_min_ms = pos 100

abbrev pub default_script_timeout_max_ms : ℤ
default_script_timeout_max_ms = pos 1800000

-- `GetDefault`.
abbrev pub get_default : AppConfig
get_default = record {
  serial = record {
    port = [];
    baud_rate = pos 115200;
    data_bits = pos 8;
    parity = codes "none";
    stop_bits = pos 1000;
    auto_connect = true;
  };
  http_port = default_http_port;
  timeout_min_ms = default_script_timeout_min_ms;
  timeout_max_ms = default_script_timeout_max_ms;
  host = codes "127.0.0.1";
  log_dir = [];
  debug = false;
  log_data = false;
}

-- What `Load` does about the range of the timeouts.
abbrev pub or_default : ℤ → ℤ → ℤ
or_default value default = if not (is_positive value) then default else value

unfoldable pub defend_range : AppConfig → AppConfig
defend_range c =
    let low = or_default c.timeout_min_ms default_script_timeout_min_ms in
    let high = or_default c.timeout_max_ms default_script_timeout_max_ms in
    if ltb_ℤ high low
    then record c {
      timeout_min_ms = default_script_timeout_min_ms;
      timeout_max_ms = default_script_timeout_max_ms;
    }
    else record c { timeout_min_ms = low; timeout_max_ms = high }

-- The file at the path of the configuration: there is none, or it has this text.
pub data ConfigFile : Type 0 where
  missing : ConfigFile
  text : Bytes → ConfigFile

abbrev pub decoded : Option AppConfig → Option AppConfig
decoded none = none
decoded (some c) = some (defend_range c)

-- `Load`: nothing where the file does not parse. `decode` fills the values of the file into others.
unfoldable pub load : (AppConfig → Bytes → Option AppConfig) → Bytes → ConfigFile → Option AppConfig
unfolding defend_range
load decode path missing = some get_default
load decode path (text s) =
    if is_empty path then some get_default else decoded (decode get_default s)

-- The flags and variables of a run. `log_data_env` is there if the variable has a Boolean value,
-- `log_data_flag` if the flag is given.
pub record RunOptions : Type 0 where
  pub serial_port : Bytes
  pub baud_rate : ℤ
  pub host : Bytes
  pub mcp_port : ℤ
  pub log_dir_env : Bytes
  pub log_data_env : Option Bool
  pub log_data_flag : Option Bool

abbrev eq_ℤ : ℤ → ℤ → Bool
eq_ℤ a b = leb_ℤ a b && leb_ℤ b a

-- The values of the flags that are not the default of the flag.
unfoldable pub merge_options : RunOptions → AppConfig → AppConfig
merge_options o c = record c {
  log_dir = if not (is_empty o.log_dir_env) then o.log_dir_env else c.log_dir;
  serial = record c.serial {
    port = if not (is_empty o.serial_port) then o.serial_port else c.serial.port;
    baud_rate = if not (eq_ℤ o.baud_rate (pos 115200)) then o.baud_rate else c.serial.baud_rate;
  };
  host =
      if not (is_empty o.host) && not (bytes_eq o.host (codes "127.0.0.1")) then o.host else c.host;
  http_port =
      if not (eq_ℤ o.mcp_port default_http_port) && not (eq_ℤ o.mcp_port (pos 0))
      then o.mcp_port
      else c.http_port;
}

abbrev pub first_of : Option Bool → Bool → Bool
first_of none b = b
first_of (some a) b = a

-- `logDataEffective`.
unfoldable pub log_data_effective : RunOptions → AppConfig → Bool
log_data_effective o c = first_of o.log_data_flag (first_of o.log_data_env c.log_data)

abbrev pub loaded_or_default : Option AppConfig → AppConfig
loaded_or_default none = get_default
loaded_or_default (some c) = c

-- `loadConfig` for a path that is resolved.
unfoldable pub load_config :
    (AppConfig → Bytes → Option AppConfig) → Bytes → ConfigFile → RunOptions → AppConfig
unfolding load merge_options
load_config decode path file o =
    merge_options o
      (if not (is_empty path) then loaded_or_default (load decode path file) else get_default)

-- `persistConfig` of a process that has become the master, where the file can be written.
unfoldable pub persist_config : (AppConfig → Bytes) → Bytes → AppConfig → ConfigFile → ConfigFile
persist_config encode path c file = if is_empty path then file else text (encode c)

-- `configToSerialConfig`.
unfoldable pub config_to_serial_config : SerialConfig → Config
config_to_serial_config c = record {
  port = c.port;
  baud_rate = c.baud_rate;
  data_bits = c.data_bits;
  parity = c.parity;
  stop_bits = c.stop_bits;
}

-- The range that `startServices` gives to the script tool.
abbrev pub script_limits : AppConfig → ScriptLimits
script_limits c = record { min_ms = c.timeout_min_ms; max_ms = c.timeout_max_ms }
