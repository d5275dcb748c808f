-- ===== src/Upgrade/Verified.antt =====
-- What an upgrade lets in the place of the program (cmd/serialhub/upgrade.go).
use serial_hub.Prelude.{
  ◌≡◌, refl, sym, ap, ◌∙◌, ◌⊎◌, inl, inr, true, Option, none, some, List, [], ◌∷◌, ◌++◌, arith,
  Bool-cases, Bytes, codes, bytes_eq, bytes_eq_sound, Result, ok, err, ok-bind, ok_inj,
}
use serial_hub.Upgrade.Replacement.{before_upgrade, replace_self-IsSafe}
use serial_hub.Upgrade.Extraction.{entries_in, IsSource, extract_binary-IsSource}
use serial_hub.Upgrade.Release.{
  Asset, Release, Upgrader, Sources, max_archive_bytes, max_sum_bytes, fetch_latest_release,
  archive_name, find_assets, both_assets, pick_assets, download, until_space, equal_fold,
  verify_sha256, download_both, new_program, UpgradeResult, is_newer, install, upgrade_to, upgrade,
  replaced,
}
use serial_hub.Upgrade.Archive.{
  UpgradeError, max_extracted_bytes, is_windows, wanted_name, is_wanted,
}
use serial_hub.Upgrade.Install.{Files, Calls, install_and_rollback_failed}
use serial_hub.Upgrade.{Comparison, trim_left, trim_v_prefix, compare_version, less, equal, greater}

abbrev IsNamed : Bytes → Option Asset → Type 0
IsNamed name none = Unit
IsNamed name (some a) = a.name ≡ name

abbrev checksum_name : Bytes → Bytes
checksum_name name = name ++ codes ".sha256"

find_assets-IsNamed :
    (name : Bytes) (assets : List Asset) (asset sum : Option Asset)
    → IsNamed name asset
    → IsNamed (checksum_name name) sum
    → let (a, b) = find_assets name assets asset sum in
      IsNamed name a × IsNamed (checksum_name name) b
unfolding find_assets
find_assets-IsNamed name [] asset sum h k = (h, k)
find_assets-IsNamed name (a ∷ assets) asset sum h k = elim (Bool-cases (bytes_eq a.name name)) [
  | inl same ↦
      rw same (find_assets-IsNamed name assets (some a) sum (bytes_eq_sound a.name name same) k)
  | inr other ↦ elim (Bool-cases (bytes_eq a.name (checksum_name name))) [
    | inl sums ↦
        rw (other, sums)
          (find_assets-IsNamed name assets asset (some a) h
            (bytes_eq_sound a.name (checksum_name name) sums))
    | inr neither ↦ rw (other, neither) (find_assets-IsNamed name assets asset sum h k)
  ]
]

both_assets-IsNamed :
    (name : Bytes) (found : Option Asset × Option Asset) (a b : Asset)
    → IsNamed name found.0 × IsNamed (checksum_name name) found.1
    → both_assets found ≡ ok (a, b)
    → (a.name ≡ name) × (b.name ≡ checksum_name name)
both_assets-IsNamed name (none, sum) a b h e = ground arith
both_assets-IsNamed name (some x, none) a b h e = ground arith
both_assets-IsNamed name (some x, some y) a b (h, k) e =
    let same = ok_inj (x, y) (a, b) e in
    (sym (ap (λ p. p.0.name) same) ∙ h, sym (ap (λ p. p.1.name) same) ∙ k)

verify_sha256_ok :
    (digest : Bytes → Bytes) (archive sum_file x : Bytes)
    → verify_sha256 digest archive sum_file ≡ ok x
    → (x ≡ archive) × (equal_fold (digest archive) (until_space (trim_left sum_file)) ≡ true)
unfolding verify_sha256
verify_sha256_ok digest archive sum_file x h = ground arith

-- A program from a newer release for this platform, taken out of an archive with the right checksum.
abbrev pub IsVerified : Upgrader → Sources → Bytes → Type 0
IsVerified u src bin =
    (rel : Release) × (asset : Asset) × (sum_asset : Asset) × (archive : Bytes) × (want : Bytes)
    × (fetch_latest_release u src ≡ ok rel)
    × (compare_version (trim_v_prefix rel.tag_name) u.now_ver ≡ greater)
    × (asset.name ≡ archive_name u (trim_v_prefix rel.tag_name))
    × (sum_asset.name ≡ checksum_name (archive_name u (trim_v_prefix rel.tag_name)))
    × (download src asset.url max_archive_bytes ≡ ok archive)
    × (download src sum_asset.url max_sum_bytes ≡ ok want)
    × (equal_fold (src.digest archive) (until_space (trim_left want)) ≡ true)
    × IsSource max_extracted_bytes (is_wanted src.readers.base (wanted_name u.goos)) bin
        (entries_in src.readers archive u.goos)

new_program-IsVerified :
    (u : Upgrader) (src : Sources) (rel : Release) (bin : Bytes)
    → fetch_latest_release u src ≡ ok rel
    → compare_version (trim_v_prefix rel.tag_name) u.now_ver ≡ greater
    → new_program u src rel (trim_v_prefix rel.tag_name) ≡ ok bin
    → IsVerified u src bin
unfolding new_program pick_assets
new_program-IsVerified u src rel bin f newer h =
    let ver = trim_v_prefix rel.tag_name in
    let name = archive_name u ver in
    let found = find_assets name rel.assets none none in
    let (both, p, h1) = ok-bind (both_assets found) _ bin h in
    let (archive, d, x) = ok-bind (download_both u src both) _ bin h1 in
    let (data_read, da, y) = ok-bind (download src both.0.url max_archive_bytes) _ archive d in
    let (want, dw, v) = ok-bind (download src both.1.url max_sum_bytes) _ archive y in
    let (same, fits) = verify_sha256_ok src.digest data_read want archive v in
    let (n1, n2) =
      both_assets-IsNamed name found both.0 both.1
        (find_assets-IsNamed name rel.assets none none tt tt) p in
    (
      rel,
      both.0,
      both.1,
      archive,
      want,
      f,
      newer,
      n1,
      n2,
      da ∙ ap ok (sym same),
      dw,
      ap (λ z. equal_fold (src.digest z) (until_space (trim_left want))) same ∙ fits,
      (extract_binary-IsSource src.readers max_extracted_bytes archive u.goos bin).0 x,
    )

-- How an upgrade may end, for a condition on new programs.
abbrev Ends : (Bytes → Type 0) → Bytes → Files × UpgradeResult → Type 0
Ends P current (t, r) =
    (t.exe ≡ some current)
    ⊎ ((bin : Bytes) × P bin × (t.exe ≡ some bin))
    ⊎ ((t.exe ≡ none) × (t.old ≡ some current) × (r ≡ replaced (some install_and_rollback_failed)))

install-Ends :
    (P : Bytes → Type 0) (u : Upgrader) (c : Calls) (current : Bytes)
    (r : Result UpgradeError Bytes)
    → ((bin : Bytes) → r ≡ ok bin → P bin)
    → Ends P current (install u c (before_upgrade current) r)
install-Ends P u c current (err e) k = inl refl
install-Ends P u c current (ok bin) k =
    elim ((replace_self-IsSafe c (is_windows u.goos) current bin).0) [
      | inl (done, new) ↦ inr (inl (bin, k bin refl, new))
      | inr (inl (failed, same, unmoved)) ↦ inl same
      | inr (inr (lost, gone, kept)) ↦ inr (inr (gone, kept, ap replaced lost))
    ]

is_newer-greater : (x : Comparison) → is_newer x ≡ true → x ≡ greater
is_newer-greater less h = ground arith
is_newer-greater equal h = ground arith
is_newer-greater greater h = refl

upgrade_to-Ends :
    (u : Upgrader) (src : Sources) (c : Calls) (current : Bytes) (q : Result UpgradeError Release)
    → fetch_latest_release u src ≡ q
    → Ends (IsVerified u src) current (upgrade_to u src c (before_upgrade current) q)
upgrade_to-Ends u src c current (err e) f = inl refl
upgrade_to-Ends u src c current (ok rel) f =
    let ver = trim_v_prefix rel.tag_name in
    let newer = is_newer (compare_version ver u.now_ver) in
    elim (Bool-cases newer) [
      | inl n ↦ rw (n) (
          install-Ends (IsVerified u src) u c current (new_program u src rel ver)
            (λ bin h. new_program-IsVerified u src rel bin f (is_newer-greater _ n) h))
      | inr n ↦ rw (n) (inl refl)
    ]

-- Whatever the network, the archive and the file system give, an upgrade leaves the program as it
-- was, or in its place is a program that has been verified, or there is none, which is reported, and
-- the backup holds the old one.
pub upgrade-IsVerified :
    (u : Upgrader) (src : Sources) (c : Calls) (current : Bytes)
    → let (t, r) = upgrade u src c (before_upgrade current) in
      (t.exe ≡ some current)
      ⊎ ((bin : Bytes) × IsVerified u src bin × (t.exe ≡ some bin))
      ⊎ ((t.exe ≡ none)
          × (t.old ≡ some current)
          × (r ≡ replaced (some install_and_rollback_failed)))
unfolding upgrade
upgrade-IsVerified u src c current =
    upgrade_to-Ends u src c current (fetch_latest_release u src) refl
