-- ===== src/Tests/Settings.antt =====
-- pkg/config/config.go and cmd/serialhub/config_loader.go on concrete input.
use serial_hub.Configuration.Migration.{
  FileSystem, Places, user_config, resolve_config_path_impl, linked, refused, create_temp,
  link_temp_file, remove_temp, remove_source,
}
use serial_hub.Configuration.{
  text, AppConfig, default_script_timeout_max_ms, defend_range, load, RunOptions, merge_options,
  load_config, script_limits, text,
}
use serial_hub.Prelude.{
  not, ◌≡◌, refl, ◌≢◌, true, false, Option, none, some, [], ◌∷◌, Bytes, codes, pos, err,
}
use serial_hub.Script.{ScriptInput, limits_invalid}
use serial_hub.Script.Schedule.{check_input}
use serial_hub.Configuration.Limits.{load_config-check_input}
use serial_hub.Configuration.Careful.{careful, publishes, resolve_config_path_impl-IsSafe}

-- A decoder that takes an empty file only, and gives it a range that is upside down.
abbrev decode : AppConfig → Bytes → Option AppConfig
decode c [] = some (record c { timeout_min_ms = pos 500; timeout_max_ms = pos 200 })
decode c (x ∷ s) = none

abbrev encode : AppConfig → Bytes
encode c = c.host

abbrev options : RunOptions
options = record {
  serial_port = [];
  baud_rate = pos 115200;
  host = [];
  mcp_port = pos 6000;
  log_dir_env = [];
  log_data_env = none;
  log_data_flag = some true;
}

abbrev short_script : ScriptInput
short_script = record { timeout_ms = pos 150; writes = []; matches = []; return_data = none }

upside_down :
    (load_config decode (codes "c") (text []) options).timeout_max_ms
    ≡ default_script_timeout_max_ms
unfolding load_config load defend_range merge_options
upside_down = refl

load_config-check_input_example :
    check_input short_script
      (script_limits (load_config decode (codes "c") (text []) options))
      false
      true
    ≢ err limits_invalid
load_config-check_input_example =
    load_config-check_input decode (codes "c") (text []) options short_script false true

-- An old file beside the program, on another device.
abbrev places : Places
places = record {
  explicit = [];
  cwd_dir = codes "/w";
  exe_dir = codes "/opt";
  xdg_base = codes "/h/.config";
  is_windows = false;
  cwd_file = false;
  xdg_file = false;
  exe_file = true;
}

abbrev files : FileSystem
files = record {
  target_at_first = false;
  makes_dir = true;
  link = refused;
  target_after_link = false;
  reads = true;
  creates_temp = true;
  writes_temp = true;
  closes_temp = true;
  link_temp = linked;
  target_after_temp = true;
  removes_temp = true;
  removes = true;
}

moved : resolve_config_path_impl places files ≡ (
  codes "/h/.config/serialhub/config.toml",
  (create_temp ∷ link_temp_file ∷ remove_temp ∷ remove_source ∷ []),
)
unfolding resolve_config_path_impl
moved = refl

resolve_config_path_impl-IsSafe_example :
    let (path, actions) = resolve_config_path_impl places files in
    (careful (not files.removes_temp) false false actions ≡ true)
    × (publishes actions ≡ true → path ≡ user_config places)
resolve_config_path_impl-IsSafe_example = resolve_config_path_impl-IsSafe places files
