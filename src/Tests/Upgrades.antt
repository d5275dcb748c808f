-- ===== src/Tests/Upgrades.antt =====
-- The upgrade of cmd/serialhub/upgrade.go on concrete input.
use serial_hub.Decimal.{atoi}
use serial_hub.Prelude.{
  ◌≡◌, refl, ◌↔◌, ◌⊎◌, true, false, none, some, [], ◌∷◌, Bytes, codes, bytes_eq, ok, err,
}
use serial_hub.Upgrade.Verified.{IsVerified, upgrade-IsVerified}
use serial_hub.Upgrade.Replacement.{before_upgrade, all_succeed, IsSafe, replace_self-IsSafe}
use serial_hub.Upgrade.Extraction.{entries_in, IsSource, extract_binary-IsSource}
use serial_hub.Upgrade.Release.{
  Release, Upgrader, Sources, fetch_latest_release, find_assets, pick_assets, download, until_space,
  equal_fold, verify_sha256, new_program, upgrade, body, replaced,
}
use serial_hub.Upgrade.Archive.{
  Entry, Readers, read_limited, wanted_name, is_wanted, tar_loop, extract_binary, extract_limit,
  multiple_entries, entry,
}
use serial_hub.Upgrade.Install.{
  Calls, swap_on_windows, swap, write_and_swap, replace_self, install_failed,
  install_and_rollback_failed,
}
use serial_hub.Upgrade.{trim_left, trim_space, trim_v_prefix, compare_part, compare_version}

abbrev program : Bytes
program = codes "ELF"

abbrev readme : Entry
readme = record {
  name = codes "README.md";
  is_regular = true;
  content = record { bytes = codes "text"; broken = false };
}

abbrev binary : Bytes → Entry
binary name = record {
  name = name;
  is_regular = true;
  content = record { bytes = program; broken = false };
}

-- Readers that find the same in every archive; the names have no directories.
abbrev readers : Readers
readers = record {
  open_zip = λ s. some (readme ∷ binary (codes "serialhub.exe") ∷ []);
  open_tar = λ s. some (entry readme ∷ entry (binary (codes "serialhub")) ∷ []);
  base = λ s. s;
}

abbrev twice : Readers
twice = record readers {
  open_tar =
      λ s. some (entry (binary (codes "serialhub")) ∷ entry (binary (codes "serialhub")) ∷ []);
}

abbrev calls : Calls
calls = record {
  create_temp = true;
  write = true;
  partial = [];
  close = true;
  chmod = true;
  rename_temp = true;
  rename_exe = true;
  rename_back = true;
  remove_temp = true;
}

abbrev linux : Upgrader
linux = record {
  api_base = codes "api";
  repo = codes "r";
  goos = codes "linux";
  goarch = codes "amd64";
  now_ver = codes "0.5.1";
}

abbrev next_release : Release
next_release = record {
  tag_name = codes "v0.6.0";
  assets =
      record { name = codes "serialhub-0.6.0-linux-amd64.tar.gz"; url = codes "a" }
      ∷ record { name = codes "serialhub-0.6.0-linux-amd64.tar.gz.sha256"; url = codes "b" }
      ∷ [];
}

-- Everything that is got has the same bytes, and the checksum of anything is `ab`.
abbrev sources : Sources
sources = record {
  get = λ url. body (record { bytes = codes "AB  file"; broken = false });
  decode = λ c. some next_release;
  digest = λ s. codes "ab";
  readers = readers;
}

extracts : extract_binary readers 100 (codes "x") (codes "linux") ≡ ok program
unfolding extract_binary tar_loop is_wanted read_limited bytes_eq
extracts = refl

refuses_two : extract_binary twice 100 (codes "x") (codes "linux") ≡ err multiple_entries
unfolding extract_binary tar_loop is_wanted read_limited bytes_eq
refuses_two = refl

refuses_large : extract_binary readers 2 (codes "x") (codes "linux") ≡ err extract_limit
unfolding extract_binary tar_loop is_wanted read_limited bytes_eq
refuses_large = refl

checksum_found : verify_sha256 (λ s. codes "ab") program (codes " AB  file") ≡ ok program
unfolding verify_sha256 equal_fold until_space trim_left bytes_eq
checksum_found = refl

rolls_back :
    replace_self (record calls { rename_temp = false }) true (before_upgrade (codes "old")) program
    ≡ (before_upgrade (codes "old"), some install_failed)
unfolding replace_self write_and_swap swap swap_on_windows
rolls_back = refl

upgrades : (upgrade linux sources calls (before_upgrade (codes "old"))).0.exe ≡ some program
unfolding upgrade fetch_latest_release compare_version compare_part atoi new_program pick_assets
    find_assets download verify_sha256 equal_fold until_space trim_left trim_v_prefix trim_space
    extract_binary tar_loop is_wanted read_limited bytes_eq replace_self write_and_swap swap
upgrades = refl

extract_binary-IsSource_example :
    (extract_binary readers 100 (codes "x") (codes "windows") ≡ ok program)
    ↔ IsSource 100
        (is_wanted readers.base (wanted_name (codes "windows")))
        program
        (entries_in readers (codes "x") (codes "windows"))
extract_binary-IsSource_example =
    extract_binary-IsSource readers 100 (codes "x") (codes "windows") program

replace_self-IsSafe_example :
    let out = replace_self calls true (before_upgrade (codes "old")) program in
    IsSafe (codes "old") program out
    × ((out.1 ≡ none) ↔ (all_succeed calls true ≡ true))
    × ((out.0.temp ≡ none) ⊎ (calls.remove_temp ≡ false))
replace_self-IsSafe_example = replace_self-IsSafe calls true (codes "old") program

upgrade-IsVerified_example :
    let (t, r) = upgrade linux sources calls (before_upgrade (codes "old")) in
    (t.exe ≡ some (codes "old"))
    ⊎ ((bin : Bytes) × IsVerified linux sources bin × (t.exe ≡ some bin))
    ⊎ ((t.exe ≡ none)
        × (t.old ≡ some (codes "old"))
        × (r ≡ replaced (some install_and_rollback_failed)))
upgrade-IsVerified_example = upgrade-IsVerified linux sources calls (codes "old")
