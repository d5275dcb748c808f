-- ===== src/Configuration/Limits.antt =====
-- The values in force after loading (cmd/serialhub/config_loader.go).
use serial_hub.Script.{ScriptInput, limits_invalid}
use serial_hub.Script.Schedule.{check_input}
use serial_hub.Configuration.{
  missing, text, AppConfig, default_script_timeout_min_ms, default_script_timeout_max_ms,
  get_default, or_default, defend_range, ConfigFile, decoded, load, RunOptions, merge_options,
  loaded_or_default, load_config, persist_config, script_limits, missing, text,
}
use serial_hub.Prelude.{
  ◌≡◌, refl, ◌≢◌, inl, inr, Bool, true, false, not, Option, none, some, arith, if◌then◌else◌,
  Bool-cases, if-cases, Bytes, is_empty, ℤ, ltb_ℤ, is_positive, err,
}

IsRange : AppConfig → Type 0
IsRange c =
    (is_positive c.timeout_min_ms ≡ true) × (ltb_ℤ c.timeout_max_ms c.timeout_min_ms ≡ false)

or_default-positive :
    (value default : ℤ) → is_positive default ≡ true → is_positive (or_default value default) ≡ true
or_default-positive value default h = ground (arith, h)

defend_range-IsRange : (c : AppConfig) → IsRange (defend_range c)
unfolding defend_range IsRange
defend_range-IsRange c =
    let low = or_default c.timeout_min_ms default_script_timeout_min_ms in
    let high = or_default c.timeout_max_ms default_script_timeout_max_ms in
    elim (Bool-cases (ltb_ℤ high low)) [
      | inl e ↦ rw e (refl, refl)
      | inr e ↦ rw e (or_default-positive c.timeout_min_ms default_script_timeout_min_ms refl, e)
    ]

decoded-IsRange : (r : Option AppConfig) → IsRange (loaded_or_default (decoded r))
unfolding IsRange
decoded-IsRange none = (refl, refl)
decoded-IsRange (some c) = unfold IsRange in defend_range-IsRange c

merge_options-IsRange : (o : RunOptions) (c : AppConfig) → IsRange c → IsRange (merge_options o c)
unfolding merge_options IsRange
merge_options-IsRange o c r = r

load-IsRange :
    (decode : AppConfig → Bytes → Option AppConfig) (path : Bytes) (file : ConfigFile)
    → IsRange (loaded_or_default (load decode path file))
unfolding load IsRange
load-IsRange decode path missing = (refl, refl)
load-IsRange decode path (text s) =
    if-cases (λ (r : Option AppConfig). IsRange (loaded_or_default r)) (is_empty path)
      (some get_default) (decoded (decode get_default s)) (λ h. (refl, refl))
      (λ h. decoded-IsRange (decode get_default s))

load_config-IsRange :
    (decode : AppConfig → Bytes → Option AppConfig) (path : Bytes) (file : ConfigFile)
    (o : RunOptions)
    → IsRange (load_config decode path file o)
unfolding load_config IsRange
load_config-IsRange decode path file o =
    merge_options-IsRange o
      (if not (is_empty path) then loaded_or_default (load decode path file) else get_default)
      (if-cases IsRange (not (is_empty path)) (loaded_or_default (load decode path file))
        get_default (λ h. load-IsRange decode path file) (λ h. (refl, refl)))

IsRange-check_input :
    (c : AppConfig) (input : ScriptInput) (running connected : Bool)
    → IsRange c
    → check_input input (script_limits c) running connected ≢ err limits_invalid
unfolding check_input IsRange
IsRange-check_input c input running connected (low, order) h = ground (arith, low, order, h)

-- Whatever the file holds and whatever the options are, the range of the timeouts that the program
-- works with is one: a script is never refused because the configured range is not valid.
pub load_config-check_input :
    (decode : AppConfig → Bytes → Option AppConfig) (path : Bytes) (file : ConfigFile)
    (o : RunOptions) (input : ScriptInput) (running connected : Bool)
    → check_input input (script_limits (load_config decode path file o)) running connected
      ≢ err limits_invalid
load_config-check_input decode path file o input running connected =
    IsRange-check_input (load_config decode path file o) input running connected
      (load_config-IsRange decode path file o)

-- A file that does not parse is not left to be repaired: the process that becomes the master writes
-- over it what it runs with, the defaults under the options of the run.
pub persist_config-discards :
    (decode : AppConfig → Bytes → Option AppConfig) (encode : AppConfig → Bytes) (path s : Bytes)
    (o : RunOptions)
    → is_empty path ≡ false
    → decode get_default s ≡ none
    → persist_config encode path (load_config decode path (text s) o) (text s)
      ≡ text (encode (merge_options o get_default))
unfolding persist_config load_config load
persist_config-discards decode encode path s o h e = rw (h, e) refl
