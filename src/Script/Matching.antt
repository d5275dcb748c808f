-- ===== src/Script/Matching.antt =====
-- pkg/mcp/tools/serial_script.go: what a script does with data that arrives (`process` and the
-- variables of the run that it changes).
pub mod Window
pub mod Scans
pub mod Counts
pub mod Sending
pub mod Scanning
use serial_hub.Prelude.{
  ℕ, zero, suc, ◌+◌, ◌*◌, ◌-◌, ◌/◌, List, [], ◌∷◌, ◌++◌, Bool, true, false, ◌&&◌, ◌||◌, not, Option,
  none, some, Bytes, ℤ, pos_part, ltb, leb, ◌==◌, if◌then◌else◌, is_positive, length, take, drop,
}
use serial_hub.Serial.Manager.{Manager, ManagerError, write_if_same_gen, stale_connection}
use serial_hub.Script.{
  MatchRule, MatchState, ScriptFireItem, InboxItem, DelayedWrite, World, script_window_max,
  script_recv_max, script_schedule_max, millisecond, new_payload,
}

pub data TriggerType : Type 0 where
  timed match : TriggerType

pub record Trigger : Type 0 where
  pub type : TriggerType
  pub rule : ℕ
  pub occurrence : ℕ
  pub at_ms : ℕ
  pub payload : Bytes
  pub matched : Bytes

-- Why a run ends early.
pub data Abort : Type 0 where
  context_cancelled stale queue_full : Abort
  match_write_failed timed_write_failed delayed_write_failed : ℕ → ManagerError → Abort

-- What stays fixed once a run has started. Moments are in nanoseconds.
pub record Plan : Type 0 where
  pub conn_gen : ℕ
  pub start : ℕ
  pub deadline : ℕ
  pub schedule : List ScriptFireItem
  pub return_data : Bool

pub record Progress : Type 0 where
  pub window : Bytes
  pub abs_start : ℕ
  pub total : ℕ
  pub received : Bytes
  pub triggers : List Trigger
  pub sch_idx : ℕ
  pub delayed : List DelayedWrite
  pub delayed_queued : ℕ
  pub delayed_fired : ℕ
  pub states : List MatchState
  pub inbox : List InboxItem
  pub manager : Manager
  pub sent : List Bytes
  pub looks : ℕ

-- `scriptInbox.push`, and `drain` as the queue that is left and what it hands out.
unfoldable pub push : List InboxItem → InboxItem → List InboxItem
push q i = q ++ i ∷ []

unfoldable pub push_all : List InboxItem → List InboxItem → List InboxItem
unfolding push
push_all q [] = q
push_all q (i ∷ is) = push_all (push q i) is

abbrev pub drain : Progress → Progress × List InboxItem
drain s = (record s { inbox = [] }, s.inbox)

-- The run looks at the world: until then others have changed the manager and filled the inbox.
unfoldable pub look : World → Progress → Progress
look w s = record s {
  inbox = push_all s.inbox (w.arrived s.looks);
  manager = w.meanwhile s.looks s.manager;
  looks = suc s.looks;
}

-- `ctx.Err() != nil` and `time.Now()` at the latest look.
abbrev pub is_cancelled : World → Progress → Bool
is_cancelled w s = w.cancelled s.looks

abbrev pub now : World → Progress → ℕ
now w s = w.now s.looks

abbrev pub elapsed_ms : World → Plan → Progress → ℕ
elapsed_ms w plan s = (now w s - plan.start) / millisecond

-- `heap.Push` on `delayedWriteHeap`: the earliest entry is the first. The heap leaves open in
-- which order entries of one moment come; here the older one comes first.
unfoldable pub heap_push : DelayedWrite → List DelayedWrite → List DelayedWrite
heap_push x [] = x ∷ []
heap_push x (y ∷ ys) =
    let rest = heap_push x ys in if ltb x.fire_at y.fire_at then x ∷ y ∷ ys else y ∷ rest

abbrev pub abort_of : (ManagerError → Abort) → ManagerError → Abort
abort_of failed e = elim e [ stale_connection ↦ stale | x ↦ failed x ]

-- A payload that the port has taken.
abbrev pub noted : List Bytes → Bytes → Option ManagerError → List Bytes
noted sent payload none = sent ++ payload ∷ []
noted sent payload (some e) = sent

-- `sm.WriteIfSameGen(connGen, payload)`. The payloads that the port takes are kept in `sent`, which
-- nothing of the program reads.
unfoldable pub script_write :
    World → Plan → Progress → Bytes → (ManagerError → Abort) → Progress × Option Abort
unfolding look
script_write w plan s payload failed =
    let s' = look w s in
    let (m, (n, e)) = write_if_same_gen w.driver s'.manager plan.conn_gen payload in
    (
      record s' { manager = m; sent = noted s.sent payload e },
      elim e [ none ↦ none | some x ↦ some (abort_of failed x) ],
    )

-- What follows for the loop over the matches of one rule.
pub data Verdict : Type 0 where
  next leave : Verdict
  abort : Abort → Verdict

abbrev pub Scanned : Type 0
Scanned = (Progress × MatchState) × Verdict

abbrev pub next_unless : Bool → Verdict
next_unless true = leave
next_unless false = next

-- A match whose write waits.
unfoldable pub delay_hit : World → ℕ → MatchState → Bytes → Progress → Scanned
unfolding look heap_push
delay_hit w si st payload s =
    let s' = look w s in
    let entry : DelayedWrite = record {
      fire_at = now w s' + st.delay_ms * millisecond;
      rule = si;
      payload = payload;
    } in
    let queued = record s' {
      delayed = heap_push entry s.delayed;
      delayed_queued = suc s.delayed_queued;
    } in
    if leb script_schedule_max (length s.delayed)
    then ((s, st), abort queue_full)
    else ((queued, st), next_unless st.done)

-- A match that is answered at once.
unfoldable pub write_hit : World → Plan → ℕ → MatchState → Bytes → Progress → Scanned
unfolding script_write
write_hit w plan si st payload s =
    let (s', e) = script_write w plan s payload (match_write_failed si) in
    ((s', st), elim e [ none ↦ next_unless st.done | some a ↦ abort a ])

unfoldable pub is_used_up : MatchRule → ℕ → Bool
is_used_up rule fired =
    not rule.repeated || (is_positive rule.max_count && leb (pos_part rule.max_count) fired)

abbrev pub fired_once : MatchState → ℕ → MatchState
fired_once st end = record st {
  fired = suc st.fired;
  done = if is_used_up st.rule (suc st.fired) then true else st.done;
  scan_from = end;
}

unfoldable pub hit : World → Plan → ℕ → MatchState → Progress → ℕ × ℕ → Scanned
unfolding look delay_hit write_hit new_payload
hit w plan si st s (from, to) =
    let s₁ = look w s in
    let payload = new_payload st.rule.content st.rule.add_newline in
    let s₂ = look w s₁ in
    let trigger : Trigger = record {
      type = match;
      rule = si;
      occurrence = st.fired;
      at_ms = elapsed_ms w plan s₂;
      payload = payload;
      matched = take (to - from) (drop from s.window);
    } in
    let s₃ = record s₂ { triggers = s.triggers ++ trigger ∷ [] } in
    let st' = fired_once st (s.abs_start + to) in
    if is_cancelled w s₁
    then ((s₁, st), abort context_cancelled)
    else if ltb 0 st.delay_ms
    then delay_hit w si st' payload s₃
    else write_hit w plan si st' payload s₃

-- Matches of no width and matches that start before `scanFrom` are passed over.
unfoldable pub scan_one : World → Plan → ℕ → MatchState → Progress → ℕ × ℕ → Scanned
unfolding hit
scan_one w plan si st s loc =
    if loc.1 == loc.0 || ltb (s.abs_start + loc.0) st.scan_from
    then ((s, st), next)
    else hit w plan si st s loc

unfoldable pub scan_locs :
    World → Plan → ℕ → MatchState → Progress → List (ℕ × ℕ) → (Progress × MatchState) × Option Abort
unfolding scan_one
scan_locs w plan si st s [] = ((s, st), none)
scan_locs w plan si st s (loc ∷ locs) =
    let r = scan_one w plan si st s loc in
    elim r.1 [
      | next ↦ scan_locs w plan si r.0.1 r.0.0 locs
      | leave ↦ (r.0, none)
      | abort a ↦ (r.0, some a)
    ]

abbrev pub scan_rule :
    World → Plan → ℕ → MatchState → Progress → (Progress × MatchState) × Option Abort
scan_rule w plan si st s =
    if st.done then ((s, st), none) else scan_locs w plan si st s (st.re s.window)

abbrev pub after_rule :
    (Progress × MatchState) × Option Abort
    → List MatchState
    → (Progress × List MatchState) × Option Abort
    → (Progress × List MatchState) × Option Abort
after_rule ((s, st), some a) sts q = ((s, st ∷ sts), some a)
after_rule ((s, st), none) sts ((s', sts'), e) = ((s', st ∷ sts'), e)

unfoldable pub scan_rules :
    World → Plan → ℕ → List MatchState → Progress → (Progress × List MatchState) × Option Abort
unfolding scan_locs
scan_rules w plan si [] s = ((s, []), none)
scan_rules w plan si (st ∷ sts) s =
    let r = scan_rule w plan si st s in
    let q = scan_rules w plan (suc si) sts r.0.0 in after_rule r sts q

unfoldable pub keep_newest : ℕ → Bytes → Bytes
keep_newest n text = if ltb n (length text) then drop (length text - n) text else text

unfoldable pub receive : Bytes → Progress → Progress
unfolding keep_newest
receive c s = record s {
  total = s.total + length c;
  received = keep_newest script_recv_max (s.received ++ c);
  window = s.window ++ c;
}

unfoldable pub trim_window : Progress → Progress
unfolding keep_newest
trim_window s = record s {
  window = keep_newest script_window_max s.window;
  abs_start = s.abs_start + (length s.window - script_window_max);
}

-- `!(it.at.Before(start) || it.at.After(deadline))`.
abbrev pub takes_part : Plan → InboxItem → Bool
takes_part plan i = not (ltb i.at plan.start || ltb plan.deadline i.at)

abbrev pub after_scan : (Progress × List MatchState) × Option Abort → Progress × Option Abort
after_scan ((s, sts), none) = (trim_window (record s { states = sts }), none)
after_scan ((s, sts), some a) = (record s { states = sts }, some a)

unfoldable pub process_item : World → Plan → Progress → InboxItem → Progress × Option Abort
unfolding scan_rules receive trim_window
process_item w plan s i =
    let s' = receive i.chunk s in
    if takes_part plan i then after_scan (scan_rules w plan 0 s'.states s') else (s, none)

unfoldable pub process : World → Plan → Progress → List InboxItem → Progress × Option Abort
process w plan s [] = (s, none)
process w plan s (i ∷ is) =
    let r = process_item w plan s i in elim r.1 [ none ↦ process w plan r.0 is | some a ↦ r ]
