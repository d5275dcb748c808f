-- ===== src/Script.antt =====
-- pkg/mcp/tools/serial_script.go: a script of timed writes and of writes that answer what is
-- received, run against one connection. This file has its data and what it observes.
pub mod Schedule
pub mod Matching
pub mod Loop
use serial_hub.Prelude.{
  none, some, ℕ, suc, ◌+◌, ◌*◌, ◌++◌, ◌∷◌, [], List, Bool, true, Option, Bytes, ℤ, if◌then◌else◌,
  some,
}
use serial_hub.Serial.Manager.{Manager, Driver}

pub record TimedWrite : Type 0 where
  pub at_ms : ℤ
  pub interval_ms : ℤ
  pub count : ℤ
  pub content : Bytes
  pub add_newline : Option Bool

pub record MatchRule : Type 0 where
  pub pattern : Bytes
  pub content : Bytes
  pub add_newline : Option Bool
  pub repeated : Bool
  pub max_count : ℤ
  pub delay_ms : Option ℤ

pub record ScriptInput : Type 0 where
  pub timeout_ms : ℤ
  pub writes : List TimedWrite
  pub matches : List MatchRule
  pub return_data : Option Bool

pub record ScriptLimits : Type 0 where
  pub min_ms : ℤ
  pub max_ms : ℤ

-- A compiled pattern is its `FindAllIndex(window, -1)`: where its matches start and end.
abbrev pub Regexp : Type 0
Regexp = Bytes → List (ℕ × ℕ)

pub record MatchState : Type 0 where
  pub rule : MatchRule
  pub re : Regexp
  pub delay_ms : ℕ
  pub fired : ℕ
  pub scan_from : ℕ
  pub done : Bool

pub record ScriptFireItem : Type 0 where
  pub offset_ms : ℤ
  pub write_idx : ℕ
  pub occurrence : ℕ
  pub payload : Bytes

-- A chunk of the inbox and when it arrived, in nanoseconds.
pub record InboxItem : Type 0 where
  pub chunk : Bytes
  pub at : ℕ

pub record DelayedWrite : Type 0 where
  pub fire_at : ℕ
  pub rule : ℕ
  pub payload : Bytes

pub data ScriptError : Type 0 where
  script_running : ScriptError
  timeout_missing limits_invalid timeout_out_of_range script_empty not_connected : ScriptError
  pattern_empty pattern_invalid delay_negative delay_too_large : ℕ → ScriptError
  at_negative interval_negative count_negative at_too_large : ℕ → ScriptError
  interval_too_large schedule_too_long fire_time_too_large : ℕ → ScriptError

abbrev pub script_window_max : ℕ
script_window_max = 8192

abbrev pub script_recv_max : ℕ
script_recv_max = 1048576

abbrev pub script_schedule_max : ℕ
script_schedule_max = 100000

-- `math.MaxInt64 / int64(time.Millisecond)`.
abbrev pub script_max_at_ms_value : ℕ
script_max_at_ms_value = 9223372036854

abbrev pub default_match_delay_ms : ℕ
default_match_delay_ms = 5

abbrev pub millisecond : ℕ
millisecond = 1000000

-- `p == nil || *p`.
abbrev pub true_by_default : Option Bool → Bool
true_by_default none = true
true_by_default (some b) = b

unfoldable pub new_payload : Bytes → Option Bool → Bytes
new_payload content nl = if true_by_default nl then content ++ b'\n' ∷ [] else content

-- What a run observes of the world: its n-th look at the context and at the clock, and what other
-- goroutines do to the manager and append to the inbox before its n-th look.
pub record World : Type 0 where
  pub driver : Driver
  pub cancelled : ℕ → Bool
  pub now : ℕ → ℕ
  pub meanwhile : ℕ → Manager → Manager
  pub arrived : ℕ → List InboxItem
