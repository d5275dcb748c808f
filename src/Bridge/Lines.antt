-- ===== src/Bridge/Lines.antt =====
-- The line ends of forwarded serial data (pkg/bridge/bridge.go).
use serial_hub.Prelude.{
  ℕ, ◌+◌, ◌≡◌, refl, ◌≢◌, [], ◌∷◌, ◌++◌, Bool, false, ◌&&◌, Option, none, some, Bytes, arith,
  length, length-append, ◌==◌, if◌then◌else◌, not, ap, ◌⊎◌, ◌∙◌, suc,
}
use serial_hub.Bridge.{cr, lf, is_cr, convert_from, convert_lf_to_crlf}

-- Every line feed behind `prev` follows a carriage return.
abbrev pub IsCrlf : Option ℕ → Bytes → Type 0
IsCrlf prev [] = Unit {0}
IsCrlf prev (c ∷ s) = ((c ≢ lf) ⊎ (prev ≡ some cr)) × IsCrlf (some c) s

-- How many line feeds do not.
abbrev pub bare_lfs : Option ℕ → Bytes → ℕ
bare_lfs prev [] = 0
bare_lfs prev (c ∷ s) = (if (c == lf) && not (is_cr prev) then 1 else 0) + bare_lfs (some c) s

-- A text without its carriage returns.
pub without_cr : Bytes → Bytes
without_cr [] = []
without_cr (c ∷ s) = if c == cr then without_cr s else c ∷ without_cr s

-- The last byte of `s` behind `prev`.
abbrev pub last_byte : Option ℕ → Bytes → Option ℕ
last_byte prev [] = prev
last_byte prev (c ∷ s) = last_byte (some c) s

convert-append :
    (prev : Option ℕ) (s t : Bytes)
    → convert_from prev (s ++ t) ≡ convert_from prev s ++ convert_from (last_byte prev s) t
unfolding convert_from
convert-append prev [] t = refl
convert-append prev (c ∷ s) t = ground (arith, convert-append (some c) s t)

abbrev pub starts_lf : Bytes → Bool
starts_lf [] = false
starts_lf (c ∷ s) = c == lf

-- The byte before a chunk matters only if it is a carriage return and the chunk starts with a line
-- feed.
convert_behind :
    (prev : Option ℕ) (t : Bytes)
    → (is_cr prev && starts_lf t) ≡ false
    → convert_from prev t ≡ convert_from none t
unfolding convert_from
convert_behind prev [] h = refl
convert_behind none (c ∷ u) h = refl
convert_behind (some p) (c ∷ u) h = ground arith

-- Converting a stream chunk by chunk is converting it whole, if the cut is not between a carriage
-- return and its line feed.
pub convert_chunks :
    (s t : Bytes)
    → (is_cr (last_byte none s) && starts_lf t) ≡ false
    → convert_lf_to_crlf (s ++ t) ≡ convert_lf_to_crlf s ++ convert_lf_to_crlf t
unfolding convert_lf_to_crlf
convert_chunks s t h =
    convert-append none s t
    ∙ ap (◌++◌ (convert_from none s)) (convert_behind (last_byte none s) t h)

last-concat : (prev : Option ℕ) (s : Bytes) (c : ℕ) → last_byte prev (s ++ c ∷ []) ≡ some c
last-concat prev [] c = refl
last-concat prev (x ∷ s) c = last-concat (some x) s c

convert_lf_behind : (t : Bytes) → convert_from none (lf ∷ t) ≡ cr ∷ convert_from (some cr) (lf ∷ t)
unfolding convert_from
convert_lf_behind t = refl

-- If the cut is between a carriage return and its line feed, converting the two chunks, as the
-- bridge does, gives one byte more than converting the whole: a second carriage return.
pub convert_split_crlf :
    (s t : Bytes)
    → length (convert_lf_to_crlf (s ++ cr ∷ []) ++ convert_lf_to_crlf (lf ∷ t))
      ≡ suc (length (convert_lf_to_crlf ((s ++ cr ∷ []) ++ lf ∷ t)))
unfolding convert_lf_to_crlf
convert_split_crlf s t =
    let first = convert_from none (s ++ cr ∷ []) in
    omega (
      arith,
      ap length (convert_lf_behind t),
      length-append first (convert_from none (lf ∷ t)),
      ap length (convert-append none (s ++ cr ∷ []) (lf ∷ t)),
      length-append first (convert_from (last_byte none (s ++ cr ∷ [])) (lf ∷ t)),
      ap (λ p. length (convert_from p (lf ∷ t))) (last-concat none s cr),
    )
