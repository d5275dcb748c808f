-- ===== src/Upgrade/Release.antt =====
-- cmd/serialhub/upgrade.go: an upgrade, from the release that is found to the new program in its
-- place. The HTTP client, the decoder of JSON and SHA-256 are parameters.
use serial_hub.Prelude.{
  ℕ, ◌+◌, max, Bool, true, false, ◌&&◌, Option, none, some, List, [], ◌∷◌, ◌++◌, map, ltb, leb,
  if◌then◌else◌, length, take, Bytes, codes, is_empty, bytes_eq, Result, ok, err, ◌>>=◌,
}
use serial_hub.Upgrade.Archive.{
  UpgradeError, Payload, Readers, max_extracted_bytes, read_limited, is_windows, extract_binary,
  fetch_failed, missing_tag, missing_asset, missing_checksum, download_failed, response_limit,
  empty_checksum, digest_mismatch,
}
use serial_hub.Upgrade.Install.{Files, Calls, InstallError, replace_self}
use serial_hub.Upgrade.{
  Comparison, is_space, trim_left, trim_v_prefix, compare_version, less, equal, greater,
}

pub data FetchResult : Type 0 where
  unreachable bad_status : FetchResult
  body : Payload → FetchResult

-- `ghAsset` and `ghRelease`.
pub record Asset : Type 0 where
  pub name : Bytes
  pub url : Bytes

pub record Release : Type 0 where
  pub tag_name : Bytes
  pub assets : List Asset

-- `upgrader`, less the client and the path of the program.
pub record Upgrader : Type 0 where
  pub api_base : Bytes
  pub repo : Bytes
  pub goos : Bytes
  pub goarch : Bytes
  pub now_ver : Bytes

-- What comes from outside: `digest` is SHA-256 in hexadecimal digits.
pub record Sources : Type 0 where
  pub get : Bytes → FetchResult
  pub decode : Payload → Option Release
  pub digest : Bytes → Bytes
  pub readers : Readers

abbrev pub max_archive_bytes : ℕ
max_archive_bytes = 134217728

abbrev pub max_sum_bytes : ℕ
max_sum_bytes = 4096

abbrev pub max_api_bytes : ℕ
max_api_bytes = 1048576

-- `io.LimitReader`.
abbrev pub limit_reader : ℕ → Payload → Payload
limit_reader n c =
    if ltb (length c.bytes) n then c else record { bytes = take n c.bytes; broken = false }

abbrev pub tagged : Release → Result UpgradeError Release
tagged rel = if is_empty rel.tag_name then err missing_tag else ok rel

abbrev pub decoded_release : Option Release → Result UpgradeError Release
decoded_release none = err fetch_failed
decoded_release (some rel) = tagged rel

abbrev pub read_release : (Payload → Option Release) → FetchResult → Result UpgradeError Release
read_release decode unreachable = err fetch_failed
read_release decode bad_status = err fetch_failed
read_release decode (body c) = decoded_release (decode (limit_reader max_api_bytes c))

-- `fetchLatestRelease`.
unfoldable pub fetch_latest_release : Upgrader → Sources → Result UpgradeError Release
fetch_latest_release u src =
    read_release src.decode
      (src.get (u.api_base ++ codes "/repos/" ++ u.repo ++ codes "/releases/latest"))

abbrev pub archive_name : Upgrader → Bytes → Bytes
archive_name u ver =
    codes "serialhub-"
    ++ ver
    ++ codes "-"
    ++ u.goos
    ++ codes "-"
    ++ u.goarch
    ++ (if is_windows u.goos then codes ".zip" else codes ".tar.gz")

abbrev pub note_asset :
    Bytes
    → Asset
    → Option Asset
    → Option Asset
    → (Option Asset → Option Asset → Option Asset × Option Asset)
    → Option Asset × Option Asset
note_asset name a asset sum rest =
    if bytes_eq a.name name
    then rest (some a) sum
    else if bytes_eq a.name (name ++ codes ".sha256")
    then rest asset (some a)
    else rest asset sum

-- The loop of `pickAssets`: the last of each name counts.
unfoldable pub find_assets :
    Bytes → List Asset → Option Asset → Option Asset → Option Asset × Option Asset
find_assets name [] asset sum = (asset, sum)
find_assets name (a ∷ assets) asset sum = note_asset name a asset sum (find_assets name assets)

abbrev pub both_assets : Option Asset × Option Asset → Result UpgradeError (Asset × Asset)
both_assets (none, sum) = err missing_asset
both_assets (some a, none) = err missing_checksum
both_assets (some a, some b) = ok (a, b)

-- `pickAssets`.
unfoldable pub pick_assets : Upgrader → Release → Bytes → Result UpgradeError (Asset × Asset)
unfolding find_assets
pick_assets u rel ver = both_assets (find_assets (archive_name u ver) rel.assets none none)

abbrev pub downloaded : ℕ → FetchResult → Result UpgradeError Bytes
downloaded max unreachable = err download_failed
downloaded max bad_status = err download_failed
downloaded max (body c) = read_limited max response_limit c

-- `download`.
unfoldable pub download : Sources → Bytes → ℕ → Result UpgradeError Bytes
download src url max = downloaded max (src.get url)

unfoldable pub until_space : Bytes → Bytes
until_space [] = []
until_space (c ∷ s) = let rest = until_space s in if is_space c then [] else c ∷ rest

abbrev pub to_lower : ℕ → ℕ
to_lower c = if leb b'A' c && leb c b'Z' then c + 32 else c

-- `strings.EqualFold` on ASCII text.
unfoldable pub equal_fold : Bytes → Bytes → Bool
equal_fold s t = bytes_eq (map to_lower s) (map to_lower t)

-- `verifySHA256`; the first of the fields decides.
unfoldable pub verify_sha256 : (Bytes → Bytes) → Bytes → Bytes → Result UpgradeError Bytes
unfolding until_space equal_fold
verify_sha256 digest archive sum_file =
    let field = until_space (trim_left sum_file) in
    if is_empty field
    then err empty_checksum
    else if equal_fold (digest archive) field
    then ok archive
    else err digest_mismatch

-- The part of `run` for a newer release, up to `replaceSelf`.
abbrev pub download_both : Upgrader → Sources → Asset × Asset → Result UpgradeError Bytes
download_both u src (asset, sum_asset) = download src asset.url max_archive_bytes >>= λ archive.
    download src sum_asset.url max_sum_bytes >>= λ want. verify_sha256 src.digest archive want

unfoldable pub new_program : Upgrader → Sources → Release → Bytes → Result UpgradeError Bytes
new_program u src rel ver = pick_assets u rel ver >>= λ assets.
    download_both u src assets >>= λ archive.
    extract_binary src.readers max_extracted_bytes archive u.goos

-- What an upgrade comes to.
pub data UpgradeResult : Type 0 where
  already_latest : UpgradeResult
  not_prepared : UpgradeError → UpgradeResult
  replaced : Option InstallError → UpgradeResult

abbrev pub is_newer : Comparison → Bool
is_newer greater = true
is_newer equal = false
is_newer less = false

abbrev pub install : Upgrader → Calls → Files → Result UpgradeError Bytes → Files × UpgradeResult
install u c s (err e) = (s, not_prepared e)
install u c s (ok bin) = let (t, r) = replace_self c (is_windows u.goos) s bin in (t, replaced r)

abbrev pub upgrade_to :
    Upgrader → Sources → Calls → Files → Result UpgradeError Release → Files × UpgradeResult
upgrade_to u src c s (err e) = (s, not_prepared e)
upgrade_to u src c s (ok rel) =
    let latest = trim_v_prefix rel.tag_name in
    if is_newer (compare_version latest u.now_ver)
    then install u c s (new_program u src rel latest)
    else (s, already_latest)

-- `run`.
unfoldable pub upgrade : Upgrader → Sources → Calls → Files → Files × UpgradeResult
upgrade u src c s = upgrade_to u src c s (fetch_latest_release u src)
