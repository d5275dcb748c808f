-- ===== src/Serial/Config/Parse.antt =====
-- Reading a port text (pkg/serial/config.go).
use serial_hub.Decimal.{atoi, format, atoi-format}
use serial_hub.Prelude.{
  ℕ, ◌<◌, ◌^◌, ◌≡◌, ◌≢◌, refl, Bytes, [], ◌∷◌, ◌++◌, pos, ok, err, arith, All, append_assoc, some,
  none, append-nil, is_empty, false,
}
use serial_hub.Serial.Config.{default_config, split_at_sign, parse_port, invalid_baud_rate_str}

-- A name with no `@` in it.
abbrev pub IsPlain : Bytes → Type 0
IsPlain = All (λ c. c ≢ b'@')

split-plain :
    (before s rest : Bytes)
    → IsPlain s
    → split_at_sign before (s ++ b'@' ∷ rest) ≡ some (before ++ s, rest)
unfolding split_at_sign
split-plain before [] rest h = rw append-nil
split-plain before (c ∷ s) rest h =
    ground (arith, split-plain (before ++ c ∷ []) s rest h.1, append_assoc before (c ∷ []) s)

split-none : (before s : Bytes) → IsPlain s → split_at_sign before s ≡ none
unfolding split_at_sign
split-none before [] h = refl
split-none before (c ∷ s) h = ground (arith, split-none (before ++ c ∷ []) s h.1)

append-ne-empty : (s : Bytes) (c : ℕ) (t : Bytes) → is_empty (s ++ c ∷ t) ≡ false
append-ne-empty [] c t = refl
append-ne-empty (x ∷ s) c t = refl

parse_port-at :
    (name baud_str : Bytes)
    → IsPlain name
    → parse_port (name ++ b'@' ∷ baud_str) ≡ elim (atoi baud_str) [
      | none ↦ err (invalid_baud_rate_str baud_str)
      | some baud ↦ ok (record default_config { port = name; baud_rate = baud })
    ]
unfolding parse_port
parse_port-at name baud_str h =
    ground (arith, split-plain [] name baud_str h, append-ne-empty name b'@' baud_str)

-- The text of a port name with no `@` in it, an `@` and a baud rate below 2^63 in decimal parses to
-- the default configuration with that name and that rate.
pub parse_port-format :
    (name : Bytes) (baud : ℕ)
    → IsPlain name
    → baud < 2 ^ 63
    → parse_port (name ++ b'@' ∷ format baud)
      ≡ ok (record default_config { port = name; baud_rate = pos baud })
parse_port-format name baud h k = rw (parse_port-at name (format baud) h, atoi-format baud k)
