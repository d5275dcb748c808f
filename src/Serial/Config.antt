-- ===== src/Serial/Config.antt =====
-- pkg/serial/config.go: the configuration of a serial port.
-- A `float32` of stop bits is an integer number of thousandths. The modes of go.bug.st/serial are
-- the values that the program passes to it.
pub mod Modes
pub mod Parse
use serial_hub.Decimal.{atoi, format, format_ℤ}
use serial_hub.Prelude.{
  ℕ, ◌+◌, ◌*◌, ◌/◌, ◌%◌, [], ◌∷◌, ◌++◌, Bool, none, some, Option, Bytes, codes, ℤ, pos, negsuc, ltb,
  ltb_ℤ, ◌==◌, if◌then◌else◌, ◌||◌, not, is_positive, bytes_eq, Result, ok, err, ◌>>=◌, ◌>>◌,
  fail_if, is_empty, suc, ◌-◌,
}

pub record Config : Type 0 where
  pub port : Bytes
  pub baud_rate : ℤ
  pub data_bits : ℤ
  pub parity : Bytes
  pub stop_bits : ℤ

pub data ConfigError : Type 0 where
  invalid_baud_rate invalid_data_bits : ℤ → ConfigError
  invalid_parity : Bytes → ConfigError
  invalid_stop_bits : ℤ → ConfigError
  port_string_empty : ConfigError
  invalid_baud_rate_str : Bytes → ConfigError

pub data Parity : Type 0 where
  no_parity even_parity odd_parity : Parity

pub data StopBits : Type 0 where
  one_stop_bit one_point_five_stop_bits two_stop_bits : StopBits

pub record Mode : Type 0 where
  pub baud_rate : ℤ
  pub data_bits : ℤ
  pub parity : Parity
  pub stop_bits : StopBits

unfoldable pub default_config : Config
default_config = record {
  port = [];
  baud_rate = pos 115200;
  data_bits = pos 8;
  parity = codes "none";
  stop_bits = pos 1000;
}

unfoldable pub to_parity : Bytes → Result ConfigError Parity
to_parity p =
    if bytes_eq p (codes "none")
    then ok no_parity
    else if bytes_eq p (codes "even")
    then ok even_parity
    else if bytes_eq p (codes "odd")
    then ok odd_parity
    else err (invalid_parity p)

unfoldable pub to_stop_bits : ℤ → Result ConfigError StopBits
to_stop_bits (pos n) =
    if n == 1000
    then ok one_stop_bit
    else if n == 1500
    then ok one_point_five_stop_bits
    else if n == 2000
    then ok two_stop_bits
    else err (invalid_stop_bits (pos n))
to_stop_bits (negsuc n) = err (invalid_stop_bits (negsuc n))

unfoldable pub to_mode : Config → Result ConfigError Mode
unfolding to_parity to_stop_bits
to_mode c = do
  fail_if (not (is_positive c.baud_rate)) (invalid_baud_rate c.baud_rate)
  fail_if (ltb_ℤ c.data_bits (pos 5) || ltb_ℤ (pos 8) c.data_bits) (invalid_data_bits c.data_bits)
  parity ← to_parity c.parity
  stop_bits ← to_stop_bits c.stop_bits
  ok (record {
    baud_rate = c.baud_rate;
    data_bits = c.data_bits;
    parity = parity;
    stop_bits = stop_bits;
  })

-- `strings.ToUpper` of one ASCII character.
unfoldable pub upper : ℕ → ℕ
upper c = if ltb c b'a' || ltb b'z' c then c else c - 32

unfoldable pub initial : Bytes → Bytes
initial [] = []
initial (c ∷ s) = upper c ∷ []

-- `%.0f`: to the nearest integer, halves to the even one.
unfoldable pub round_thousandths : ℕ → ℕ
round_thousandths n =
    let q = n / 1000 in
    let r = n % 1000 in if ltb 500 r then q + 1 else if r == 500 then q + q % 2 else q

unfoldable pub stop_bits_text : ℤ → Bytes
stop_bits_text (pos n) = if n == 1500 then codes "1.5" else format (round_thousandths n)
stop_bits_text (negsuc n) = b'-' ∷ format (round_thousandths (suc n))

-- `Config.String`.
unfoldable pub to_text : Config → Bytes
unfolding initial upper stop_bits_text round_thousandths
to_text c =
    c.port
    ++ b'@' ∷ format_ℤ c.baud_rate
    ++ b' ' ∷ format_ℤ c.data_bits
    ++ initial c.parity
    ++ stop_bits_text c.stop_bits

-- The loop of `ParsePort`: the text before the first `@`, and the text behind it.
unfoldable pub split_at_sign : Bytes → Bytes → Option (Bytes × Bytes)
split_at_sign before [] = none
split_at_sign before (c ∷ s) =
    if c == b'@' then some (before, s) else split_at_sign (before ++ c ∷ []) s

abbrev with_baud : Bytes → Bytes → Option ℤ → Result ConfigError Config
with_baud name baud_str none = err (invalid_baud_rate_str baud_str)
with_baud name baud_str (some baud) = ok (record default_config { port = name; baud_rate = baud })

abbrev parsed : Bytes → Option (Bytes × Bytes) → Result ConfigError Config
parsed port_str none = ok (record default_config { port = port_str })
parsed port_str (some (name, baud_str)) = with_baud name baud_str (atoi baud_str)

unfoldable pub parse_port : Bytes → Result ConfigError Config
unfolding split_at_sign
parse_port port_str =
    if is_empty port_str then err port_string_empty else parsed port_str (split_at_sign [] port_str)
