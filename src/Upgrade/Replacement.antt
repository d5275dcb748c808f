-- ===== src/Upgrade/Replacement.antt =====
-- What replacing the program leaves behind (cmd/serialhub/upgrade.go).
use serial_hub.Prelude.{
  ◌≡◌, ◌≢◌, ◌↔◌, ◌⊎◌, Bool, true, false, not, ◌&&◌, ◌||◌, Option, none, some, arith, Bytes,
}
use serial_hub.Upgrade.Install.{
  Files, Calls, InstallError, swap_on_windows, swap, write_and_swap, replace_self,
  install_and_rollback_failed,
}

abbrev pub before_upgrade : Bytes → Files
before_upgrade current = record { exe = some current; temp = none; old = none }

-- Whether every call that an upgrade needs succeeds.
abbrev pub all_succeed : Calls → Bool → Bool
all_succeed c windows =
    c.create_temp && c.write && c.close && c.chmod && c.rename_temp && (not windows || c.rename_exe)

abbrev pub IsSafe : Bytes → Bytes → Files × Option InstallError → Type 0
IsSafe current bin (t, r) =
    ((r ≡ none) × (t.exe ≡ some bin))
    ⊎ ((r ≢ none) × (t.exe ≡ some current) × (t.old ≡ none))
    ⊎ ((r ≡ some install_and_rollback_failed) × (t.exe ≡ none) × (t.old ≡ some current))

-- Whichever calls fail, the program is replaced without an error, or it is as it was, with an error,
-- or it is gone, which the error says, and the backup holds it. It is replaced if and only if all calls
-- that this needs succeed. No temporary file stays, unless it cannot be removed.
pub replace_self-IsSafe :
    (c : Calls) (windows : Bool) (current bin : Bytes)
    → let out = replace_self c windows (before_upgrade current) bin in
      IsSafe current bin out
      × ((out.1 ≡ none) ↔ (all_succeed c windows ≡ true))
      × ((out.0.temp ≡ none) ⊎ (c.remove_temp ≡ false))
unfolding replace_self write_and_swap swap swap_on_windows
replace_self-IsSafe c windows current bin = ground arith
