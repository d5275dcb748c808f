-- ===== src/LogAgg.antt =====
-- internal/logagg/logagg.go: data that passes is logged in windows of time, one line for each.
-- One aggregator, with the goroutines around it: `pending` holds the timer callbacks that were
-- started and have not run yet, by the epoch that each captured, and `lines` what was logged, newest
-- last. Counters are `int` in the code and do not wrap around here. The registry of aggregators by
-- tag, and the short cut for a log level below Trace, are not modelled.
pub mod Windows
pub mod Accounts
use serial_hub.Prelude.{
  is_empty, ℕ, suc, ◌+◌, ◌-◌, [], ◌∷◌, ◌++◌, List, Bool, true, false, ◌||◌, Option, none, some,
  Bytes, ltb, leb, ◌==◌, if◌then◌else◌, length, take,
}

abbrev pub max_content_bytes : ℕ
max_content_bytes = 512

pub record Line : Type 0 where
  pub count : ℕ
  pub total : ℕ
  pub truncated : Bool
  pub content : Bytes

pub record Aggregator : Type 0 where
  pub buf : Bytes
  pub count : ℕ
  pub total : ℕ
  pub truncated : Bool
  pub timer : Option ℕ
  pub epoch : ℕ
  pub pending : List ℕ
  pub lines : List Line

unfoldable pub new_aggregator : Aggregator
new_aggregator = record {
  buf = [];
  count = 0;
  total = 0;
  truncated = false;
  timer = none;
  epoch = 0;
  pending = [];
  lines = [];
}

-- The part of `add` that keeps what is shown within its limit.
unfoldable pub show_more : Aggregator → Bytes → Aggregator
show_more a chunk =
    let room = max_content_bytes - length a.buf in
    if ltb 0 room
    then if leb (length chunk) room
      then record a { buf = a.buf ++ chunk }
      else record a { buf = a.buf ++ take room chunk; truncated = true }
    else record a { truncated = true }

unfoldable pub open_window : Aggregator → Aggregator
open_window a = elim a.timer [
  | none ↦ record a { timer = some a.epoch; pending = a.epoch ∷ a.pending }
  | some e ↦ a
]

unfoldable pub add : Aggregator → Bytes → Aggregator
unfolding show_more open_window
add a chunk =
    open_window (show_more (record a { count = a.count + 1; total = a.total + length chunk }) chunk)

-- The exported `Add`, with the Trace level on and the aggregator of its tag.
unfoldable pub add_data : Aggregator → Bytes → Aggregator
unfolding add
add_data a chunk = if is_empty chunk then a else add a chunk

abbrev line_of : Aggregator → Line
line_of a = record { count = a.count; total = a.total; truncated = a.truncated; content = a.buf }

unfoldable pub flush_locked : Aggregator → Aggregator
flush_locked a = if a.count == 0 then record a { timer = none } else record a {
  buf = [];
  count = 0;
  total = 0;
  truncated = false;
  timer = none;
  epoch = suc a.epoch;
  lines = a.lines ++ line_of a ∷ [];
}

unfoldable pub flush_at : Aggregator → ℕ → Aggregator
unfolding flush_locked
flush_at a e = if a.epoch == e then flush_locked a else a

unfoldable pub remove_pending : ℕ → List ℕ → List ℕ
remove_pending e [] = []
remove_pending e (x ∷ xs) = if x == e then xs else x ∷ remove_pending e xs

-- `a.timer.Stop()`: the callback is taken back if it has not started (`stopped`).
unfoldable pub stop_timer : Aggregator → Bool → Aggregator
unfolding remove_pending
stop_timer a stopped = elim a.timer [
  | none ↦ a
  | some e ↦ if stopped then record a { pending = remove_pending e a.pending } else a
]

unfoldable pub flush_now : Aggregator → Bool → Aggregator
unfolding stop_timer flush_locked
flush_now a stopped = flush_locked (stop_timer a stopped)

unfoldable pub is_pending : ℕ → List ℕ → Bool
is_pending e [] = false
is_pending e (x ∷ xs) = x == e || is_pending e xs

-- What happens to an aggregator: data, a pending callback that runs, `FlushAll`.
pub data Op : Type 0 where
  adds : Bytes → Op
  fires : ℕ → Op
  flushes : Bool → Op

unfoldable pub step : Aggregator → Op → Aggregator
unfolding remove_pending
step a (adds chunk) = add_data a chunk
step a (fires e) =
    if is_pending e a.pending
    then flush_at (record a { pending = remove_pending e a.pending }) e
    else a
step a (flushes stopped) = flush_now a stopped

unfoldable pub run : Aggregator → List Op → Aggregator
run a [] = a
run a (op ∷ ops) = run (step a op) ops
