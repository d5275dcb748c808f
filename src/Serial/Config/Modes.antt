-- ===== src/Serial/Config/Modes.antt =====
-- Which configurations go to the driver (pkg/serial/config.go).
use serial_hub.Prelude.{
  ◌≡◌, ◌≤ℤ◌, ◌↔◌, refl, Bytes, codes, ℤ, pos, ok, arith, bytes_eq_iff, bytes_eq,
}
use serial_hub.Serial.Config.{
  Config, Mode, to_mode, no_parity, even_parity, odd_parity, one_stop_bit, one_point_five_stop_bits,
  two_stop_bits, Parity, StopBits, to_parity, to_stop_bits,
}

-- The names of the parities and the counts of stop bits that the driver knows.
abbrev pub parity_name : Parity → Bytes
parity_name no_parity = codes "none"
parity_name even_parity = codes "even"
parity_name odd_parity = codes "odd"

abbrev pub stop_count : StopBits → ℤ
stop_count one_stop_bit = pos 1000
stop_count one_point_five_stop_bits = pos 1500
stop_count two_stop_bits = pos 2000

-- A configuration that the driver can be opened with, and the mode that says the same.
pub record Describes (c : Config) (m : Mode) : Type 0 where
  pub baud : (m.baud_rate ≡ c.baud_rate) × (pos 1 ≤ℤ c.baud_rate)
  pub bits : (m.data_bits ≡ c.data_bits) × (pos 5 ≤ℤ c.data_bits) × (c.data_bits ≤ℤ pos 8)
  pub parity : c.parity ≡ parity_name m.parity
  pub stop : c.stop_bits ≡ stop_count m.stop_bits

to_parity_sound : (p : Bytes) (q : Parity) → to_parity p ≡ ok q → p ≡ parity_name q
unfolding to_parity
to_parity_sound p q h = ground (
  arith,
  bytes_eq_iff p (codes "none"),
  bytes_eq_iff p (codes "even"),
  bytes_eq_iff p (codes "odd"),
)

to_parity_complete : (q : Parity) → to_parity (parity_name q) ≡ ok q
unfolding to_parity bytes_eq
to_parity_complete no_parity = refl
to_parity_complete even_parity = refl
to_parity_complete odd_parity = refl

to_stop_bits_sound : (n : ℤ) (q : StopBits) → to_stop_bits n ≡ ok q → n ≡ stop_count q
unfolding to_stop_bits
to_stop_bits_sound n q h = ground arith

to_stop_bits_complete : (q : StopBits) → to_stop_bits (stop_count q) ≡ ok q
unfolding to_stop_bits
to_stop_bits_complete one_stop_bit = refl
to_stop_bits_complete one_point_five_stop_bits = refl
to_stop_bits_complete two_stop_bits = refl

to_mode_sound : (c : Config) (m : Mode) → to_mode c ≡ ok m → Describes c m
unfolding to_mode
to_mode_sound c m h =
    ground (arith, to_parity_sound c.parity m.parity, to_stop_bits_sound c.stop_bits m.stop_bits)

to_mode_complete : (c : Config) (m : Mode) → Describes c m → to_mode c ≡ ok m
unfolding to_mode
to_mode_complete c m d =
    ground (arith, to_parity_complete m.parity, to_stop_bits_complete m.stop_bits)

-- `ToMode` succeeds exactly on the configurations with a positive baud rate, 5 to 8 data bits, one
-- of the three parities by name and 1, 1.5 or 2 stop bits, and then with the mode of those values.
pub to_mode_iff : (c : Config) (m : Mode) → (to_mode c ≡ ok m) ↔ Describes c m
to_mode_iff c m = (to_mode_sound c m, to_mode_complete c m)
