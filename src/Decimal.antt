-- ===== src/Decimal.antt =====
-- strconv.Atoi and the decimal print of a number, as the program uses them.
use serial_hub.Prelude.{
  ℕ, zero, suc, ◌+◌, ◌-◌, ◌*◌, ◌/◌, ◌%◌, ◌^◌, ◌<◌, ◌≡◌, [], ◌∷◌, ◌||◌, Option, none, some, arith,
  Bytes, ℤ, pos, negsuc, ltb, ◌==◌, if◌then◌else◌, Bool-cases, ◌≤◌, ◌⊎◌, inr, inl, ◌∙◌,
}

-- The value of the digits behind what was read; `none` on any other byte.
unfoldable pub scan : Bytes → ℕ → Option ℕ
scan [] n = some n
scan (c ∷ s) n = if ltb c b'0' || ltb b'9' c then none else scan s (n * 10 + (c - b'0'))

unfoldable pub unsigned : Bytes → Option ℕ
unfolding scan
unsigned [] = none
unsigned (c ∷ s) = scan (c ∷ s) 0

abbrev positive : Option ℕ → Option ℤ
positive none = none
positive (some n) = if ltb n (2 ^ 63) then some (pos n) else none

abbrev negative : Option ℕ → Option ℤ
negative none = none
negative (some zero) = some (pos 0)
negative (some (suc n)) = if ltb n (2 ^ 63) then some (negsuc n) else none

-- `strconv.Atoi`; `none` is its error.
unfoldable pub atoi : Bytes → Option ℤ
unfolding unsigned
atoi [] = none
atoi (c ∷ s) =
    if c == b'-'
    then negative (unsigned s)
    else if c == b'+'
    then positive (unsigned s)
    else positive (unsigned (c ∷ s))

-- One round for each digit; `n + 1` rounds are enough for `n`.
unfoldable pub digits : ℕ → ℕ → Bytes → Bytes
digits zero n out = out
digits (suc f) n out =
    let more = digits f (n / 10) ((b'0' + n % 10) ∷ out) in
    if ltb n 10 then (b'0' + n) ∷ out else more

unfoldable pub format : ℕ → Bytes
unfolding digits
format n = digits (suc n) n []

unfoldable pub format_ℤ : ℤ → Bytes
unfolding format
format_ℤ (pos n) = format n
format_ℤ (negsuc n) = b'-' ∷ format (suc n)

scan-digits : (f n : ℕ) (out : Bytes) → n < f → scan (digits f n out) 0 ≡ scan out n
unfolding scan digits
scan-digits zero n out h = elim h [ ]
scan-digits (suc f) n out h = elim (Bool-cases (ltb n 10)) [
  | inl small ↦ rw small (ground arith)
  | inr large ↦ rw large (scan-digits f (n / 10) _ (ground arith) ∙ ground arith)
]

-- A print starts with a digit.
abbrev pub StartsDigit : Bytes → Type 0
StartsDigit [] = ⊥
StartsDigit (c ∷ s) = (b'0' ≤ c) × (c ≤ b'9')

digits-StartsDigit :
    (f n : ℕ) (out : Bytes) → StartsDigit out ⊎ (0 < f) → StartsDigit (digits f n out)
unfolding digits
digits-StartsDigit zero n out (inl h) = h
digits-StartsDigit zero n out (inr h) = elim h [ ]
digits-StartsDigit (suc f) n out h = elim (Bool-cases (ltb n 10)) [
  | inl small ↦ rw small (ground arith)
  | inr large ↦ rw large (digits-StartsDigit f (n / 10) _ (inl (omega arith)))
]

atoi-unsigned : (s : Bytes) → StartsDigit s → atoi s ≡ positive (scan s 0)
unfolding atoi
atoi-unsigned [] h = absurd h
atoi-unsigned (c ∷ s) h = ground arith

pub atoi-format : (n : ℕ) → n < 2 ^ 63 → atoi (format n) ≡ some (pos n)
unfolding format scan
atoi-format n h =
    rw
      (
        atoi-unsigned (digits (suc n) n []) (digits-StartsDigit (suc n) n [] (inr (omega arith))),
        scan-digits (suc n) n [] (omega arith),
      )
      (ground arith)
