-- ===== src/Upgrade/Archive.antt =====
-- cmd/serialhub/upgrade.go: how the program is taken out of the archive of a release. What the zip
-- and tar readers find in an archive is a parameter.
use serial_hub.Prelude.{
  ℕ, ◌+◌, List, [], ◌∷◌, Bool, ◌&&◌, Option, none, some, Bytes, codes, ltb, length, take,
  if◌then◌else◌, bytes_eq, Result, ok, err, ◌++◌,
}

-- What goes wrong up to the point where a new program is at hand.
pub data UpgradeError : Type 0 where
  fetch_failed missing_tag missing_asset missing_checksum download_failed response_limit :
      UpgradeError
  empty_checksum digest_mismatch open_failed read_failed extract_limit no_entry : UpgradeError
  multiple_entries empty_entry read_archive_failed : UpgradeError

-- A stream: its bytes, and whether an error follows them.
pub record Payload : Type 0 where
  pub bytes : Bytes
  pub broken : Bool

-- An entry of an archive: `is_regular` is false for directories and links.
pub record Entry : Type 0 where
  pub name : Bytes
  pub is_regular : Bool
  pub content : Payload

-- What `Next` of a tar reader gives before the end.
pub data TarItem : Type 0 where
  entry : Entry → TarItem
  bad_header : TarItem

-- The readers of archives, and `filepath.Base`.
pub record Readers : Type 0 where
  pub open_zip : Bytes → Option (List Entry)
  pub open_tar : Bytes → Option (List TarItem)
  pub base : Bytes → Bytes

abbrev pub max_extracted_bytes : ℕ
max_extracted_bytes = 268435456

-- `io.ReadAll` of `io.LimitReader` with one byte more than the limit, and the check of the limit.
unfoldable pub read_limited : ℕ → UpgradeError → Payload → Result UpgradeError Bytes
read_limited max too_long c =
    let data_read = take (max + 1) c.bytes in
    if c.broken && ltb (length c.bytes) (max + 1)
    then err read_failed
    else if ltb max (length data_read)
    then err too_long
    else ok data_read

abbrev pub is_windows : Bytes → Bool
is_windows goos = bytes_eq goos (codes "windows")

abbrev pub wanted_name : Bytes → Bytes
wanted_name goos = codes "serialhub" ++ (if is_windows goos then codes ".exe" else [])

unfoldable pub is_wanted : (Bytes → Bytes) → Bytes → Entry → Bool
is_wanted base want e = bytes_eq (base e.name) want && e.is_regular

unfoldable pub candidates : (Entry → Bool) → List Entry → List Entry
candidates wanted [] = []
candidates wanted (e ∷ es) = let rest = candidates wanted es in if wanted e then e ∷ rest else rest

abbrev pub non_empty : Bytes → Result UpgradeError Bytes
non_empty [] = err empty_entry
non_empty (c ∷ s) = ok (c ∷ s)

abbrev pub not_empty : Result UpgradeError Bytes → Result UpgradeError Bytes
not_empty (ok bin) = non_empty bin
not_empty (err e) = err e

-- The part of `extractBinary` for zip.
abbrev pub only_candidate : ℕ → List Entry → Result UpgradeError Bytes
only_candidate max [] = err no_entry
only_candidate max (e ∷ []) = not_empty (read_limited max extract_limit e.content)
only_candidate max (e ∷ e' ∷ es) = err multiple_entries

-- An entry that is wanted: the second one is an error.
abbrev pub take_entry :
    Option Bytes
    → Result UpgradeError Bytes
    → (Option Bytes → Result UpgradeError (Option Bytes))
    → Result UpgradeError (Option Bytes)
take_entry (some bin) r rest = err multiple_entries
take_entry none (ok bin) rest = rest (some bin)
take_entry none (err e) rest = err e

-- The loop for tar, with what it has found.
unfoldable pub tar_loop :
    ℕ → (Entry → Bool) → List TarItem → Option Bytes → Result UpgradeError (Option Bytes)
tar_loop max wanted [] found = ok found
tar_loop max wanted (bad_header ∷ items) found = err read_archive_failed
tar_loop max wanted (entry e ∷ items) found =
    let rest = tar_loop max wanted items in
    if wanted e
    then take_entry found (read_limited max extract_limit e.content) rest
    else rest found

abbrev pub found_entry : Result UpgradeError (Option Bytes) → Result UpgradeError Bytes
found_entry (ok none) = err no_entry
found_entry (ok (some bin)) = non_empty bin
found_entry (err e) = err e

abbrev pub from_zip : ℕ → (Entry → Bool) → Option (List Entry) → Result UpgradeError Bytes
from_zip max wanted none = err open_failed
from_zip max wanted (some es) = only_candidate max (candidates wanted es)

abbrev pub from_tar : ℕ → (Entry → Bool) → Option (List TarItem) → Result UpgradeError Bytes
from_tar max wanted none = err open_failed
from_tar max wanted (some items) = found_entry (tar_loop max wanted items none)

-- `extractBinary`, for a given limit of what is taken out.
unfoldable pub extract_binary : Readers → ℕ → Bytes → Bytes → Result UpgradeError Bytes
unfolding candidates tar_loop
extract_binary rd max archive goos =
    let wanted = is_wanted rd.base (wanted_name goos) in
    if is_windows goos
    then from_zip max wanted (rd.open_zip archive)
    else from_tar max wanted (rd.open_tar archive)
