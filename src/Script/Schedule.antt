-- ===== src/Script/Schedule.antt =====
-- pkg/mcp/tools/serial_script.go: the checks of `ExecuteSerialScript`, and the expansion of the
-- timed writes into a schedule.
pub mod Bounds
pub mod Order
use serial_hub.Prelude.{
  ℕ, zero, suc, ◌+◌, ◌*◌, ◌-◌, ◌/◌, ◌%◌, ◌^◌, List, [], ◌∷◌, ◌++◌, Bool, true, false, ◌&&◌, ◌||◌,
  not, Option, none, some, Bytes, ℤ, pos, negsuc, pos_part, ltb, leb, ltb_ℤ, leb_ℤ, is_negative,
  is_positive, if◌then◌else◌, is_empty, length, Result, ok, err, ◌>>=◌, ◌>>◌, fail_if,
}
use serial_hub.Script.{
  TimedWrite, MatchRule, MatchState, ScriptInput, ScriptLimits, ScriptFireItem, ScriptError, Regexp,
  script_schedule_max, script_max_at_ms_value, default_match_delay_ms, new_payload, script_running,
  delay_negative, pattern_invalid, pattern_empty, at_negative, fire_time_too_large,
  schedule_too_long, timeout_missing, delay_too_large, interval_negative, limits_invalid,
  count_negative, timeout_out_of_range, at_too_large, script_empty, interval_too_large,
  not_connected,
}

-- The two's complement of 64 bits, of a sum or product of values that are not negative.
unfoldable pub int64 : ℕ → ℤ
int64 n = let m = n % 2 ^ 64 in if ltb m (2 ^ 63) then pos m else negsuc (2 ^ 64 - 1 - m)

-- The checks before anything is compiled or expanded. `TryLock` is the test on `running`.
unfoldable pub check_input :
    ScriptInput → ScriptLimits → (running connected : Bool) → Result ScriptError (Unit {0})
check_input input limits running connected = do
  fail_if running script_running
  fail_if (not (is_positive input.timeout_ms)) timeout_missing
  fail_if (not (is_positive limits.min_ms) || ltb_ℤ limits.max_ms limits.min_ms) limits_invalid
  fail_if (ltb_ℤ input.timeout_ms limits.min_ms || ltb_ℤ limits.max_ms input.timeout_ms)
      timeout_out_of_range
  fail_if (is_empty input.writes && is_empty input.matches) script_empty
  fail_if (not connected) not_connected

unfoldable pub rule_delay : ℕ → Option ℤ → Result ScriptError ℕ
rule_delay i none = ok default_match_delay_ms
rule_delay i (some d) =
    if is_negative d
    then err (delay_negative i)
    else if ltb script_max_at_ms_value (pos_part d)
    then err (delay_too_large i)
    else ok (pos_part d)

abbrev pub new_state : MatchRule → Regexp → ℕ → MatchState
new_state m re d = record {
  rule = m;
  re = re;
  delay_ms = d;
  fired = 0;
  scan_from = 0;
  done = false;
}

abbrev pub compiled : ℕ → Option Regexp → Result ScriptError Regexp
compiled i none = err (pattern_invalid i)
compiled i (some re) = ok re

-- `compile` is `regexp.Compile`.
unfoldable pub compile_rules :
    (Bytes → Option Regexp) → ℕ → List MatchRule → Result ScriptError (List MatchState)
unfolding rule_delay
compile_rules compile i [] = ok []
compile_rules compile i (m ∷ ms) =
    let rest = compile_rules compile (suc i) ms in
    fail_if (is_empty m.pattern) (pattern_empty i)
    >> (compiled i (compile m.pattern) >>= λ re.
        rule_delay i m.delay_ms >>= λ d. rest >>= λ states. ok (new_state m re d ∷ states))

unfoldable pub check_write : ℕ → TimedWrite → Result ScriptError (Unit {0})
check_write wi w = do
  fail_if (is_negative w.at_ms) (at_negative wi)
  fail_if (is_negative w.interval_ms) (interval_negative wi)
  fail_if (is_negative w.count) (count_negative wi)
  fail_if (ltb script_max_at_ms_value (pos_part w.at_ms)) (at_too_large wi)
  fail_if (ltb script_max_at_ms_value (pos_part w.interval_ms)) (interval_too_large wi)

-- `want`, which is never 0.
unfoldable pub wanted : TimedWrite → ℕ
wanted w = if is_positive w.interval_ms && is_positive w.count then pos_part w.count else 1

abbrev pub item : ℕ → ℤ → ℕ → Bytes → ScriptFireItem
item wi at i payload = record { offset_ms = at; write_idx = wi; occurrence = i; payload = payload }

-- The occurrences from `i` on of a periodic write.
unfoldable pub occurrences :
    ℕ → (at interval : ℕ) → Bytes → ℕ → ℕ → Result ScriptError (List ScriptFireItem)
occurrences wi at interval payload i zero = ok []
occurrences wi at interval payload i (suc k) =
    let rest = occurrences wi at interval payload (suc i) k in
    fail_if (ltb ((script_max_at_ms_value - at) / interval) i) (fire_time_too_large wi)
    >> (rest >>= λ items. ok (item wi (int64 (at + i * interval)) i payload ∷ items))

unfoldable pub expand_write : ℕ → TimedWrite → Result ScriptError (List ScriptFireItem)
unfolding occurrences new_payload
expand_write wi w =
    let payload = new_payload w.content w.add_newline in
    if is_positive w.interval_ms
    then occurrences wi (pos_part w.at_ms) (pos_part w.interval_ms) payload 0 (wanted w)
    else ok (item wi w.at_ms 0 payload ∷ [])

-- `want > scriptScheduleMax - len(schedule)`: a difference below 0 is less than `want` too.
unfoldable pub expand_from :
    ℕ → List ScriptFireItem → List TimedWrite → Result ScriptError (List ScriptFireItem)
unfolding check_write expand_write
expand_from wi schedule [] = ok schedule
expand_from wi schedule (w ∷ ws) =
    check_write wi w
    >> (fail_if (ltb (script_schedule_max - length schedule) (wanted w)) (schedule_too_long wi)
        >> (expand_write wi w >>= λ items. expand_from (suc wi) (schedule ++ items) ws))

-- `sort.Slice` by the offset. It leaves open in which order equal offsets come; here the order of
-- the input stays.
unfoldable pub insert_item : ScriptFireItem → List ScriptFireItem → List ScriptFireItem
insert_item x [] = x ∷ []
insert_item x (y ∷ ys) =
    let rest = insert_item x ys in if leb_ℤ x.offset_ms y.offset_ms then x ∷ y ∷ ys else y ∷ rest

unfoldable pub sort_schedule : List ScriptFireItem → List ScriptFireItem
unfolding insert_item
sort_schedule [] = []
sort_schedule (x ∷ xs) = insert_item x (sort_schedule xs)

unfoldable pub make_schedule : List TimedWrite → Result ScriptError (List ScriptFireItem)
unfolding expand_from sort_schedule
make_schedule ws = expand_from 0 [] ws >>= λ items. ok (sort_schedule items)
