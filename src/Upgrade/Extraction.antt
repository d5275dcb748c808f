-- ===== src/Upgrade/Extraction.antt =====
-- What is taken out of an archive (cmd/serialhub/upgrade.go).
use serial_hub.Prelude.{
  ℕ, zero, suc, ◌+◌, ◌≤◌, ◌≡◌, refl, sym, ap, ◌∙◌, ◌≢◌, ◌↔◌, inl, inr, Bool, true, false, Option,
  none, some, List, [], ◌∷◌, arith, if◌then◌else◌, Bool-cases, length, take, length-take, Bytes,
  Result, ok, err, Result-cases, ok_inj,
}
use serial_hub.Upgrade.Archive.{
  UpgradeError, Payload, Entry, TarItem, Readers, read_limited, is_windows, wanted_name, is_wanted,
  candidates, non_empty, not_empty, only_candidate, tar_loop, found_entry, from_zip, from_tar,
  extract_binary, extract_limit, entry, bad_header,
}

-- The result without the error.
abbrev pub gained : {A : Type 0} → Result UpgradeError A → Option A
gained (ok a) = some a
gained (err e) = none

gained_ok : {A : Type 0} (r : Result UpgradeError A) (a : A) → gained r ≡ some a → r ≡ ok a
gained_ok (ok b) a e = cc
gained_ok (err x) a e = ground arith

some_equal : (a b : List Entry) → some a ≡ some b → a ≡ b
some_equal a b h = cc

abbrev with_entry : Entry → Option (List Entry) → Option (List Entry)
with_entry e none = none
with_entry e (some es) = some (e ∷ es)

-- The entries of an archive that can be read to its end.
abbrev pub entries : List TarItem → Option (List Entry)
entries [] = some []
entries (bad_header ∷ items) = none
entries (entry e ∷ items) = with_entry e (entries items)

abbrev pub entries_in_tar : Option (List TarItem) → Option (List Entry)
entries_in_tar none = none
entries_in_tar (some items) = entries items

abbrev pub entries_in : Readers → Bytes → Bytes → Option (List Entry)
entries_in rd archive goos =
    if is_windows goos then rd.open_zip archive else entries_in_tar (rd.open_tar archive)

-- An entry that holds the program, whole and within the limit.
abbrev pub Holds : ℕ → Bytes → Entry → Type 0
Holds max bin e =
    (e.content ≡ record { bytes = bin; broken = false }) × (length bin ≤ max) × (bin ≢ [])

-- The outcome for a list of entries.
abbrev chosen : ℕ → (Entry → Bool) → Option (List Entry) → Option Bytes
chosen max wanted none = none
chosen max wanted (some es) = gained (only_candidate max (candidates wanted es))

abbrev unless_more : Bytes → List Entry → Option (Option Bytes)
unless_more b [] = some (some b)
unless_more b (e ∷ es) = none

abbrev kept_entry : (Entry → Bool) → Bytes → Option (List Entry) → Option (Option Bytes)
kept_entry wanted b none = none
kept_entry wanted b (some es) = unless_more b (candidates wanted es)

kept_wanted :
    (wanted : Entry → Bool) (b : Bytes) (e : Entry) (es : Option (List Entry))
    → wanted e ≡ true
    → kept_entry wanted b (with_entry e es) ≡ none
unfolding candidates
kept_wanted wanted b e none w = refl
kept_wanted wanted b e (some es) w = rw (w) refl

kept_other :
    (wanted : Entry → Bool) (b : Bytes) (e : Entry) (es : Option (List Entry))
    → wanted e ≡ false
    → kept_entry wanted b (with_entry e es) ≡ kept_entry wanted b es
unfolding candidates
kept_other wanted b e none w = refl
kept_other wanted b e (some es) w = rw (w) refl

chosen_other :
    (max : ℕ) (wanted : Entry → Bool) (e : Entry) (es : Option (List Entry))
    → wanted e ≡ false
    → chosen max wanted (with_entry e es) ≡ chosen max wanted es
unfolding candidates
chosen_other max wanted e none w = refl
chosen_other max wanted e (some es) w = rw (w) refl

tar_loop_found :
    (max : ℕ) (wanted : Entry → Bool) (items : List TarItem) (b : Bytes)
    → gained (tar_loop max wanted items (some b)) ≡ kept_entry wanted b (entries items)
unfolding tar_loop candidates
tar_loop_found max wanted [] b = refl
tar_loop_found max wanted (bad_header ∷ items) b = refl
tar_loop_found max wanted (entry e ∷ items) b = elim (Bool-cases (wanted e)) [
  | inl w ↦ rw (w, kept_wanted wanted b e (entries items) w) refl
  | inr w ↦ rw (w, kept_other wanted b e (entries items) w) (tar_loop_found max wanted items b)
]

abbrev gained_entry : Option (Option Bytes) → Option Bytes
gained_entry none = none
gained_entry (some none) = none
gained_entry (some (some b)) = gained (non_empty b)

gained-found_entry :
    (r : Result UpgradeError (Option Bytes)) → gained (found_entry r) ≡ gained_entry (gained r)
gained-found_entry (ok none) = refl
gained-found_entry (ok (some b)) = refl
gained-found_entry (err e) = refl

-- The candidate that comes first, with what follows it.
chosen_wanted :
    (max : ℕ) (wanted : Entry → Bool) (e : Entry) (es : Option (List Entry)) (b : Bytes)
    → wanted e ≡ true
    → read_limited max extract_limit e.content ≡ ok b
    → chosen max wanted (with_entry e es) ≡ gained_entry (kept_entry wanted b es)
unfolding candidates
chosen_wanted max wanted e none b w r = refl
chosen_wanted max wanted e (some es) b w r = rw (w) (alone (candidates wanted es))
  where
    alone :
        (rest : List Entry)
        → gained (only_candidate max (e ∷ rest)) ≡ gained_entry (unless_more b rest)
    alone [] = rw (r) refl
    alone (e' ∷ es') = refl

chosen_broken :
    (max : ℕ) (wanted : Entry → Bool) (e : Entry) (es : Option (List Entry)) (x : UpgradeError)
    → wanted e ≡ true
    → read_limited max extract_limit e.content ≡ err x
    → chosen max wanted (with_entry e es) ≡ none
unfolding candidates
chosen_broken max wanted e none x w r = refl
chosen_broken max wanted e (some es) x w r = rw (w) (alone (candidates wanted es))
  where
    alone : (rest : List Entry) → gained (only_candidate max (e ∷ rest)) ≡ none
    alone [] = rw (r) refl
    alone (e' ∷ es') = refl

tar_loop_start :
    (max : ℕ) (wanted : Entry → Bool) (items : List TarItem)
    → gained_entry (gained (tar_loop max wanted items none)) ≡ chosen max wanted (entries items)
unfolding tar_loop candidates
tar_loop_start max wanted [] = refl
tar_loop_start max wanted (bad_header ∷ items) = refl
tar_loop_start max wanted (entry e ∷ items) = elim (Bool-cases (wanted e)) [
  | inl w ↦ elim (Result-cases (read_limited max extract_limit e.content)) [
    | inl (b, r) ↦
        rw (w, r, chosen_wanted max wanted e (entries items) b w r)
          (ap gained_entry (tar_loop_found max wanted items b))
    | inr (x, r) ↦ rw (w, r, chosen_broken max wanted e (entries items) x w r) refl
  ]
  | inr w ↦ rw (w, chosen_other max wanted e (entries items) w) (tar_loop_start max wanted items)
]

non_empty_fwd : (d bin : Bytes) → non_empty d ≡ ok bin → (d ≡ bin) × (bin ≢ [])
non_empty_fwd [] bin h = ground arith
non_empty_fwd (c ∷ s) bin h = (ok_inj _ _ h, λ e. ground arith)

non_empty_back : (bin : Bytes) → bin ≢ [] → non_empty bin ≡ ok bin
non_empty_back [] n = absurd (n refl)
non_empty_back (c ∷ s) n = refl

take_within : (n : ℕ) (s : Bytes) → length s ≤ n → take n s ≡ s
take_within zero [] h = refl
take_within (suc n) [] h = refl
take_within zero (x ∷ s) h = ground arith
take_within (suc n) (x ∷ s) h = ap (◌∷◌ x) (take_within n s (omega arith))

read_limited_within :
    (max : ℕ) (too_long : UpgradeError) (c : Payload) (bin : Bytes)
    → read_limited max too_long c ≡ ok bin
    → (c.broken ≡ false) × (length c.bytes ≤ max) × (take (max + 1) c.bytes ≡ bin)
unfolding read_limited
read_limited_within max too_long c bin h = ground (arith, length-take (max + 1) c.bytes)

read_limited_fwd :
    (max : ℕ) (too_long : UpgradeError) (c : Payload) (bin : Bytes)
    → read_limited max too_long c ≡ ok bin
    → (c ≡ record { bytes = bin; broken = false }) × (length bin ≤ max)
read_limited_fwd max too_long c bin h =
    let (whole, within, same) = read_limited_within max too_long c bin h in
    let all : c.bytes ≡ bin = sym (take_within (max + 1) c.bytes (omega arith)) ∙ same in
    (cc, rw (sym all) within)

read_limited_back :
    (max : ℕ) (too_long : UpgradeError) (bin : Bytes)
    → length bin ≤ max
    → read_limited max too_long (record { bytes = bin; broken = false }) ≡ ok bin
unfolding read_limited
read_limited_back max too_long bin h = rw (take_within (max + 1) bin (omega arith)) (ground arith)

not_ok : {A : Type 0} {P : Type 0} {x : UpgradeError} {a : A} → err x ≡ ok a → P
not_ok h = ground arith

only_candidate_fwd :
    (max : ℕ) (cs : List Entry) (bin : Bytes)
    → only_candidate max cs ≡ ok bin
    → (e : Entry) × (cs ≡ e ∷ []) × Holds max bin e
only_candidate_fwd max [] bin h = ground arith
only_candidate_fwd max (e ∷ []) bin h =
    elim (Result-cases (read_limited max extract_limit e.content)) [
      | inl (b, r) ↦
          let (same, full) = non_empty_fwd b bin (sym (ap not_empty r) ∙ h) in
          let (whole, within) = read_limited_fwd max extract_limit e.content bin (r ∙ ap ok same) in
          (e, refl, (whole, within, full))
      | inr (x, r) ↦ not_ok (sym (ap not_empty r) ∙ h)
    ]
only_candidate_fwd max (e ∷ e' ∷ cs) bin h = ground arith

only_candidate_back :
    (max : ℕ) (e : Entry) (bin : Bytes) → Holds max bin e → only_candidate max (e ∷ []) ≡ ok bin
only_candidate_back max e bin (whole, within, full) =
    rw (whole, read_limited_back max extract_limit bin within) (non_empty_back bin full)

-- What a list of entries must be for it to give a program.
abbrev pub IsSource : ℕ → (Entry → Bool) → Bytes → Option (List Entry) → Type 0
IsSource max wanted bin o =
    (es : List Entry) × (e : Entry) × (o ≡ some es)
    × (candidates wanted es ≡ e ∷ [])
    × Holds max bin e

chosen-IsSource :
    (max : ℕ) (wanted : Entry → Bool) (bin : Bytes) (o : Option (List Entry))
    → (chosen max wanted o ≡ some bin) ↔ IsSource max wanted bin o
chosen-IsSource max wanted bin none =
    (λ h. ground arith, λ (es, e, unread, one, holds). ground arith)
chosen-IsSource max wanted bin (some es) = (
  λ h.
      let (e, one, holds) = only_candidate_fwd max (candidates wanted es) bin (gained_ok _ bin h) in
      (es, e, refl, one, holds),
  λ (es', e, same, one, holds).
      ap (λ x. gained (only_candidate max x))
        (ap (candidates wanted) (some_equal es es' same) ∙ one)
      ∙ ap gained (only_candidate_back max e bin holds),
)

if_chosen :
    (max : ℕ) (wanted : Entry → Bool) (b : Bool) (x y : Result UpgradeError Bytes)
    (u v : Option (List Entry))
    → gained x ≡ chosen max wanted u
    → gained y ≡ chosen max wanted v
    → gained (if b then x else y) ≡ chosen max wanted (if b then u else v)
if_chosen max wanted true x y u v h k = h
if_chosen max wanted false x y u v h k = k

from_zip-chosen :
    (max : ℕ) (wanted : Entry → Bool) (o : Option (List Entry))
    → gained (from_zip max wanted o) ≡ chosen max wanted o
from_zip-chosen max wanted none = refl
from_zip-chosen max wanted (some es) = refl

from_tar-chosen :
    (max : ℕ) (wanted : Entry → Bool) (o : Option (List TarItem))
    → gained (from_tar max wanted o) ≡ chosen max wanted (entries_in_tar o)
from_tar-chosen max wanted none = refl
from_tar-chosen max wanted (some items) =
    gained-found_entry (tar_loop max wanted items none) ∙ tar_loop_start max wanted items

extract_binary-chosen :
    (rd : Readers) (max : ℕ) (archive goos : Bytes)
    → gained (extract_binary rd max archive goos)
      ≡ chosen max (is_wanted rd.base (wanted_name goos)) (entries_in rd archive goos)
unfolding extract_binary
extract_binary-chosen rd max archive goos =
    let wanted = is_wanted rd.base (wanted_name goos) in
    if_chosen max wanted (is_windows goos) (from_zip max wanted (rd.open_zip archive))
      (from_tar max wanted (rd.open_tar archive)) (rd.open_zip archive)
      (entries_in_tar (rd.open_tar archive)) (from_zip-chosen max wanted (rd.open_zip archive))
      (from_tar-chosen max wanted (rd.open_tar archive))

-- A program is taken out exactly if the archive can be read to its end, exactly one of its entries is
-- a regular file with the wanted name, and that entry can be read, is not empty and is within the
-- limit; it is then the whole of that entry. This holds for zip and for tar.
pub extract_binary-IsSource :
    (rd : Readers) (max : ℕ) (archive goos bin : Bytes)
    → (extract_binary rd max archive goos ≡ ok bin)
      ↔ IsSource max (is_wanted rd.base (wanted_name goos)) bin (entries_in rd archive goos)
extract_binary-IsSource rd max archive goos bin =
    let same = extract_binary-chosen rd max archive goos in
    let (to_source, from_source) =
      chosen-IsSource max (is_wanted rd.base (wanted_name goos)) bin (entries_in rd archive goos) in
    (λ h. to_source (sym same ∙ ap gained h), λ h. gained_ok _ bin (same ∙ from_source h))
