-- ===== src/Upgrade/Install.antt =====
-- cmd/serialhub/upgrade.go: `replaceSelf`. The three files that it touches are the program, the
-- temporary file and the backup; what each call to the file system comes to is a parameter.
use serial_hub.Prelude.{Bool, Option, none, some, Bytes, if◌then◌else◌, not}

pub record Files : Type 0 where
  pub exe : Option Bytes
  pub temp : Option Bytes
  pub old : Option Bytes

-- Which calls succeed; `partial` is what a failed write leaves.
pub record Calls : Type 0 where
  pub create_temp : Bool
  pub write : Bool
  pub partial : Bytes
  pub close : Bool
  pub chmod : Bool
  pub rename_temp : Bool
  pub rename_exe : Bool
  pub rename_back : Bool
  pub remove_temp : Bool

pub data InstallError : Type 0 where
  create_failed write_failed close_failed chmod_failed rename_failed : InstallError
  move_old_failed install_failed install_and_rollback_failed : InstallError

-- `os.Rename` of the temporary file, the program and the backup.
abbrev pub temp_to_exe : Files → Files
temp_to_exe s = record s { exe = s.temp; temp = none }

abbrev pub exe_to_old : Files → Files
exe_to_old s = record s { old = s.exe; exe = none }

abbrev pub old_to_exe : Files → Files
old_to_exe s = record s { exe = s.old; old = none }

-- The deferred removal of the temporary file.
abbrev pub clean_up : Calls → Files × Option InstallError → Files × Option InstallError
clean_up c (s, r) = (if c.remove_temp then record s { temp = none } else s, r)

-- The renames, on Windows and elsewhere.
unfoldable pub swap_on_windows : Calls → Files → Files × Option InstallError
swap_on_windows c s =
    if not c.rename_exe
    then (s, some move_old_failed)
    else if c.rename_temp
    then (temp_to_exe (exe_to_old s), none)
    else if c.rename_back
    then (old_to_exe (exe_to_old s), some install_failed)
    else (exe_to_old s, some install_and_rollback_failed)

unfoldable pub swap : Calls → Bool → Files → Files × Option InstallError
unfolding swap_on_windows
swap c windows s =
    if windows
    then swap_on_windows c s
    else if c.rename_temp
    then (temp_to_exe s, none)
    else (s, some rename_failed)

-- From the write to the renames.
unfoldable pub write_and_swap : Calls → Bool → Files → Bytes → Files × Option InstallError
unfolding swap
write_and_swap c windows s bin =
    let t = record s { temp = some bin } in
    if not c.write
    then (record s { temp = some c.partial }, some write_failed)
    else if not c.close
    then (t, some close_failed)
    else if not c.chmod
    then (t, some chmod_failed)
    else swap c windows t

-- `replaceSelf`.
unfoldable pub replace_self : Calls → Bool → Files → Bytes → Files × Option InstallError
unfolding write_and_swap
replace_self c windows s bin =
    if not c.create_temp
    then (s, some create_failed)
    else clean_up c (write_and_swap c windows s bin)
