-- ===== src/Tests/Scripts.antt =====
-- pkg/mcp/tools/serial_script.go on concrete input.
use mathlib.Core.List.{Perm}
use serial_hub.Prelude.{
  ℕ, ◌-◌, ◌≤◌, ◌≡◌, refl, true, false, Option, none, some, List, [], ◌∷◌, ◌++◌, arith, ltb, ◌==◌,
  if◌then◌else◌, length, take_last, All, Bytes, codes, is_empty, pos, ok, err,
}
use serial_hub.Serial.Manager.{is_connected, write_if_same_gen}
use serial_hub.Tests.Managers.{linked, driver}
use serial_hub.Script.{
  TimedWrite, ScriptInput, ScriptLimits, Regexp, MatchState, ScriptFireItem, InboxItem,
  script_window_max, script_schedule_max, World,
}
use serial_hub.Script.Schedule.{
  check_input, compile_rules, wanted, int64, make_schedule, new_state, item,
}
use serial_hub.Script.Schedule.Bounds.{planned, IsTimely}
use serial_hub.Script.Schedule.Order.{IsSorted, make_schedule_lem}
use serial_hub.Script.Matching.{
  Plan, Progress, push_all, look, is_used_up, receive, process_item, process,
}
use serial_hub.Script.Matching.Window.{Holds, accepted}
use serial_hub.Script.Matching.Scanning.{IsMatcher, IsScanned, process_scans}
use serial_hub.Script.Loop.{start_script, ToolResult, build_data, round, first_progress, run, Turn}
use serial_hub.Script.Loop.Starting.{start_script-returns}

abbrev writes : List TimedWrite
writes =
    record {
      at_ms = pos 5;
      interval_ms = pos 10;
      count = pos 2;
      content = codes "a";
      add_newline = none;
    }
    ∷ record {
      at_ms = pos 7;
      interval_ms = pos 0;
      count = pos 0;
      content = codes "b";
      add_newline = some false;
    }
    ∷ []

abbrev schedule : List ScriptFireItem
schedule =
    item 0 (pos 5) 0 (codes "a\n")
    ∷ item 1 (pos 7) 0 (codes "b")
    ∷ item 0 (pos 15) 1 (codes "a\n")
    ∷ []

scheduled : make_schedule writes ≡ ok schedule
unfolding make_schedule wanted int64
scheduled = refl

make_schedule_lem_example :
    IsSorted schedule
    × Perm schedule (planned 0 writes)
    × All IsTimely schedule
    × (length schedule ≤ script_schedule_max)
make_schedule_lem_example = make_schedule_lem writes schedule scheduled

-- A rule that answers the first byte of the window.
abbrev first_byte : MatchState
first_byte =
    new_state
      (record {
        pattern = codes ".";
        content = codes "ok";
        add_newline = none;
        repeated = false;
        max_count = pos 0;
        delay_ms = some (pos 0);
      })
      (λ text. if is_empty text then [] else (0, 1) ∷ []) 0

abbrev arrivals : List InboxItem
arrivals = record { chunk = codes "old"; at = 5 } ∷ record { chunk = codes "hi"; at = 20 } ∷ []

-- The data arrives at the third look; the clock stands still.
abbrev world : World
world = record {
  driver = driver;
  cancelled = λ n. false;
  now = λ n. 20;
  meanwhile = λ n m. m;
  arrived = λ n. if n == 2 then arrivals else [];
}

abbrev plan : Plan
plan = record {
  conn_gen = linked.reconnect_gen;
  start = 10;
  deadline = 1000000;
  schedule = [];
  return_data = true;
}

abbrev begun : Progress
begun = first_progress linked (first_byte ∷ []) 0

abbrev early : InboxItem
early = record { chunk = codes "old"; at = 5 }

abbrev late : InboxItem
late = record { chunk = codes "hi"; at = 20 }

matches-places : All IsMatcher (process world plan begun (early ∷ [])).0.states
unfolding process process_item receive
matches-places = (first_place, tt)
  where
    first_place : IsMatcher first_byte
    first_place [] = tt
    first_place (c ∷ text) = (omega arith, tt)

not_given_up : (process world plan begun (early ∷ late ∷ [])).1 ≡ none
unfolding process process_item write_if_same_gen is_used_up
not_given_up = refl

begun-Holds : Holds [] begun
unfolding Holds
begun-Holds = (refl, refl, refl, refl)

process_scans_example :
    let t = (process world plan begun (early ∷ late ∷ [])).0 in
    let before = [] ++ accepted plan (early ∷ []) in
    Holds (before ++ late.chunk) t
    × All
        (IsScanned
          (length before - script_window_max)
          (take_last script_window_max before ++ late.chunk))
        t.states
process_scans_example =
    process_scans world plan begun (early ∷ []) late [] begun-Holds refl matches-places not_given_up

-- Only what arrives after the start takes part, and the run completes with its one match.
abbrev end_of : Turn → List ℕ × ℕ
end_of (ok s) = ([], 0)
end_of (err r) = (r.content.rule_fire_counts, r.content.received_bytes)

completes : end_of (run world plan 3 begun) ≡ (1 ∷ [], 2)
unfolding run round is_connected process push_all process_item write_if_same_gen is_used_up
    build_data
completes = refl

-- A script that waits for a byte and gives up at its deadline, which the fifth look is past.
abbrev compile : Bytes → Option Regexp
compile pattern = some first_byte.re

abbrev input : ScriptInput
input = record {
  timeout_ms = pos 1000;
  writes = [];
  matches = first_byte.rule ∷ [];
  return_data = none;
}

abbrev limits : ScriptLimits
limits = record { min_ms = pos 100; max_ms = pos 10000 }

abbrev quiet : World
quiet = record {
  driver = driver;
  cancelled = λ n. false;
  now = λ n. if ltb n 4 then 20 else 2000000000;
  meanwhile = λ n m. m;
  arrived = λ n. [];
}

abbrev quiet_plan : Plan
quiet_plan = record {
  conn_gen = linked.reconnect_gen;
  start = 20;
  deadline = 1000000020;
  schedule = [];
  return_data = true;
}

abbrev started : Progress
started = look quiet (look quiet (first_progress linked (first_byte ∷ []) 0))

starts : start_script quiet compile input limits false linked ≡ ok (quiet_plan, started)
unfolding start_script look check_input is_connected compile_rules make_schedule
starts = refl

past_deadline : (k : ℕ) → 4 ≤ k → ltb quiet_plan.deadline (quiet.now k) ≡ true
past_deadline k h = ground arith

start_script-returns_example : (r : ToolResult) × (run quiet quiet_plan 5 started ≡ err r)
start_script-returns_example =
    start_script-returns quiet compile input limits false linked quiet_plan started starts 4
      past_deadline
