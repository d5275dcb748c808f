-- ===== src/Script/Loop.antt =====
-- pkg/mcp/tools/serial_script.go: the event loop of `ExecuteSerialScript` and its results.
pub mod Results
pub mod Rounds
pub mod Looks
pub mod Ending
pub mod Sending
pub mod Starting
use serial_hub.Prelude.{
  ℕ, zero, suc, ◌+◌, ◌*◌, ◌-◌, List, [], ◌∷◌, ◌++◌, Bool, true, false, ◌&&◌, ◌||◌, not, Option,
  none, some, Bytes, ℤ, pos_part, ltb, leb, ◌==◌, if◌then◌else◌, is_empty, length, drop, map,
  Result, ok, err, ◌>>=◌, ◌>>◌,
}
use serial_hub.Serial.Manager.{Manager, is_connected, connection_gen}
use serial_hub.Script.{
  MatchState, ScriptFireItem, ScriptInput, ScriptLimits, ScriptError, Regexp, DelayedWrite, World,
  true_by_default, millisecond,
}
use serial_hub.Script.Schedule.{check_input, compile_rules, make_schedule}
use serial_hub.Script.Matching.{
  Trigger, TriggerType, Plan, Progress, Abort, look, is_cancelled, now, elapsed_ms, script_write,
  drain, process, timed_write_failed, delayed_write_failed, stale, timed, context_cancelled,
  queue_full, match_write_failed,
}

pub record RunData : Type 0 where
  pub timed_out : Bool
  pub triggers : List Trigger
  pub rule_fire_counts : List ℕ
  pub pending_rules : List ℕ
  pub writes_fired : ℕ
  pub writes_total : ℕ
  pub delayed_writes_queued : ℕ
  pub delayed_writes_fired : ℕ
  pub delayed_writes_pending : ℕ
  pub received_bytes : ℕ
  pub received : Option Bytes
  pub received_truncated : Bool

pub data Message : Type 0 where
  script_cancelled connection_lost script_completed script_timed_out : Message
  script_aborted : Abort → Message

pub record ToolResult : Type 0 where
  pub success : Bool
  pub message : Message
  pub content : RunData

unfoldable pub rules_pending : ℕ → List MatchState → List ℕ
rules_pending i [] = []
rules_pending i (st ∷ sts) =
    let rest = rules_pending (suc i) sts in if st.fired == 0 then i ∷ rest else rest

-- `firedMatches`.
unfoldable pub fired_matches : List MatchState → ℕ
fired_matches [] = 0
fired_matches (st ∷ sts) = let rest = fired_matches sts in if ltb 0 st.fired then suc rest else rest

unfoldable pub build_data : Plan → Bool → Progress → RunData
unfolding rules_pending
build_data plan timed_out s = record {
  timed_out = timed_out;
  triggers = s.triggers;
  rule_fire_counts = map (λ st. st.fired) s.states;
  pending_rules = rules_pending 0 s.states;
  writes_fired = s.sch_idx;
  writes_total = length plan.schedule;
  delayed_writes_queued = s.delayed_queued;
  delayed_writes_fired = s.delayed_fired;
  delayed_writes_pending = s.delayed_queued - s.delayed_fired;
  received_bytes = s.total;
  received = if plan.return_data then some s.received else none;
  received_truncated = ltb (length s.received) s.total;
}

abbrev pub ends : Bool → Message → Plan → Bool → Progress → ToolResult
ends success message plan timed_out s = record {
  success = success;
  message = message;
  content = build_data plan timed_out s;
}

abbrev pub cancel_result : Plan → Progress → ToolResult
cancel_result plan s = ends false script_cancelled plan false s

abbrev pub stale_abort : Plan → Progress → ToolResult
stale_abort plan s = ends false connection_lost plan false s

-- One round either goes on or ends the run with a result.
abbrev pub Turn : Type 0
Turn = Result ToolResult Progress

-- `if ctx.Err() != nil { return cancelResult() }`.
unfoldable pub unless_cancelled : World → Plan → Progress → Turn
unfolding look
unless_cancelled w plan s =
    let s' = look w s in if is_cancelled w s then err (cancel_result plan s') else ok s'

unfoldable pub is_lost : Plan → Progress → Bool
is_lost plan s = not (is_connected s.manager) || not (connection_gen s.manager == plan.conn_gen)

-- `if !sm.IsConnected() || sm.ConnectionGen() != connGen { return staleAbort() }`.
unfoldable pub while_connected : World → Plan → Progress → Turn
unfolding look is_lost
while_connected w plan s =
    let s' = look w s in if is_lost plan s' then err (stale_abort plan s') else ok s'

abbrev abort_or_stale : Plan → Bool → Abort → Progress → ToolResult
abort_or_stale plan timed_out a s = elim a [
  | stale ↦ stale_abort plan s
  | x ↦ ends false (script_aborted x) plan timed_out s
]

unfoldable pub on_process_err : World → Plan → Bool → Abort → Progress → ToolResult
unfolding look
on_process_err w plan timed_out a s =
    let s' = look w s in
    if is_cancelled w s then cancel_result plan s' else abort_or_stale plan timed_out a s'

-- Draining the inbox and processing what was in it.
abbrev pub after_process : World → Plan → Bool → Progress × Option Abort → Turn
after_process w plan timed_out (s, none) = ok s
after_process w plan timed_out (s, some a) = err (on_process_err w plan timed_out a s)

unfoldable pub digest : World → Plan → Bool → Progress → Turn
unfolding on_process_err look
digest w plan timed_out s =
    let (s', items) = drain (look w s) in after_process w plan timed_out (process w plan s' items)

abbrev pub all_fired : List MatchState → Bool
all_fired [] = true
all_fired (st ∷ sts) = ltb 0 st.fired && all_fired sts

unfoldable pub complete : Plan → Progress → Bool
complete plan s =
    not (ltb s.sch_idx (length plan.schedule)) && is_empty s.delayed && all_fired s.states

unfoldable pub complete_result : World → Plan → Progress → Result ToolResult ToolResult
unfolding unless_cancelled while_connected
complete_result w plan s = do
  s₁ ← unless_cancelled w plan s
  s₂ ← while_connected w plan s₁
  ok (ends true script_completed plan false s₂)

abbrev pub result_of : Result ToolResult ToolResult → ToolResult
result_of (ok r) = r
result_of (err r) = r

-- `if complete() { return completeResult() }`.
unfoldable pub unless_complete : World → Plan → Progress → Turn
unfolding complete_result complete
unless_complete w plan s =
    if complete plan s then err (result_of (complete_result w plan s)) else ok s

unfoldable pub timeout_result : World → Plan → Progress → Result ToolResult ToolResult
unfolding digest unless_complete unless_cancelled while_connected
timeout_result w plan s = do
  s₁ ← digest w plan true s
  s₂ ← unless_complete w plan s₁
  s₃ ← unless_cancelled w plan s₂
  s₄ ← while_connected w plan s₃
  ok (ends true script_timed_out plan true s₄)

-- The end by the deadline.
unfoldable pub before_deadline : World → Plan → Progress → Turn
unfolding timeout_result look
before_deadline w plan s =
    let s' = look w s in
    if ltb plan.deadline (now w s) then err (result_of (timeout_result w plan s')) else ok s'

abbrev pub fire_time : Plan → ScriptFireItem → ℕ
fire_time plan item = plan.start + pos_part item.offset_ms * millisecond

-- An entry is due: its moment has come, and the deadline has not passed at a second look.
abbrev pub is_due : World → Plan → Progress → ℕ → Bool
is_due w plan s moment = leb moment (now w s) && not (ltb plan.deadline (w.now (suc s.looks)))

abbrev pub after_write : Plan → (Progress → Progress) → Progress × Option Abort → Turn
after_write plan done (s, none) = ok (done s)
after_write plan done (s, some a) = err (abort_or_stale plan false a s)

-- What is noted once a write is sent.
unfoldable pub sent_timed : World → Plan → ScriptFireItem → Progress → Progress
unfolding look
sent_timed w plan item s = record (look w s) {
  triggers =
      s.triggers
      ++ record {
        type = timed;
        rule = item.write_idx;
        occurrence = item.occurrence;
        at_ms = elapsed_ms w plan s;
        payload = item.payload;
        matched = [];
      }
        ∷ [];
  sch_idx = suc s.sch_idx;
}

abbrev pub sent_delayed : Progress → Progress
sent_delayed s = record s { delayed_fired = suc s.delayed_fired }

unfoldable pub fire_timed : World → Plan → ScriptFireItem → Progress → Turn
unfolding unless_cancelled script_write sent_timed
fire_timed w plan item s = unless_cancelled w plan s >>= λ s₁.
    after_write plan (sent_timed w plan item)
      (script_write w plan s₁ item.payload (timed_write_failed item.write_idx))

-- The timed writes from `schIdx` on that are due.
unfoldable pub write_timed : World → Plan → List ScriptFireItem → Progress → Turn
unfolding look
write_timed w plan [] s = ok s
write_timed w plan (item ∷ items) s =
    let rest = fire_timed w plan item (look w (look w s)) >>= write_timed w plan items in
    if is_due w plan s (fire_time plan item) then rest else ok (look w (look w s))

unfoldable pub fire_delayed : World → Plan → DelayedWrite → List DelayedWrite → Progress → Turn
unfolding unless_cancelled script_write
fire_delayed w plan x others s = unless_cancelled w plan s >>= λ s₁.
    after_write plan sent_delayed
      (script_write w plan (record s₁ { delayed = others }) x.payload (delayed_write_failed x.rule))

-- The delayed writes that are due; the list is the heap.
unfoldable pub write_delayed : World → Plan → List DelayedWrite → Progress → Turn
unfolding look
write_delayed w plan [] s = ok s
write_delayed w plan (x ∷ xs) s =
    let rest = fire_delayed w plan x xs (look w (look w s)) >>= write_delayed w plan xs in
    if is_due w plan s x.fire_at then rest else ok (look w (look w s))

-- One round of the loop, with the wait at its end. A wait that the context ends is the first
-- check of the next round.
unfoldable pub round : World → Plan → Progress → Turn
unfolding unless_cancelled while_connected digest unless_complete before_deadline
round w plan s = do
  s₁ ← unless_cancelled w plan s
  s₂ ← while_connected w plan s₁
  s₃ ← digest w plan false s₂
  s₄ ← unless_complete w plan s₃
  s₅ ← before_deadline w plan s₄
  s₆ ← write_timed w plan (drop s₅.sch_idx plan.schedule) s₅
  s₇ ← write_delayed w plan s₆.delayed s₆
  unless_complete w plan s₇

unfoldable pub run : World → Plan → ℕ → Progress → Turn
run w plan zero s = ok s
run w plan (suc n) s = round w plan s >>= run w plan n

-- `nextWake` of the wait.
unfoldable pub next_wake : Plan → Progress → Option ℕ
next_wake plan s = elim (drop s.sch_idx plan.schedule) [
  | [] ↦ elim s.delayed [ [] ↦ none | x ∷ xs ↦ some x.fire_at ]
  | item ∷ items ↦ elim s.delayed [
    | [] ↦ some (fire_time plan item)
    | x ∷ xs ↦
        if ltb x.fire_at (fire_time plan item) then some x.fire_at else some (fire_time plan item)
  ]
]

abbrev pub first_progress : Manager → List MatchState → ℕ → Progress
first_progress m states looks = record {
  window = [];
  abs_start = 0;
  total = 0;
  received = [];
  triggers = [];
  sch_idx = 0;
  delayed = [];
  delayed_queued = 0;
  delayed_fired = 0;
  states = states;
  inbox = [];
  manager = m;
  sent = [];
  looks = looks;
}

-- What `ExecuteSerialScript` does before its loop; `running` says that another script holds
-- `scriptMu`.
unfoldable pub start_script :
    World
    → (Bytes → Option Regexp)
    → ScriptInput
    → ScriptLimits
    → Bool
    → Manager
    → Result ScriptError (Plan × Progress)
unfolding look
start_script w compile input limits running m = do
  check_input input limits running (is_connected m)
  states ← compile_rules compile 0 input.matches
  let s = look w (first_progress m states 0)
  schedule ← make_schedule input.writes
  let s' = look w s
  let start = now w s
  ok (
    record {
      conn_gen = connection_gen s.manager;
      start = start;
      deadline = start + pos_part input.timeout_ms * millisecond;
      schedule = schedule;
      return_data = true_by_default input.return_data;
    },
    s',
  )
