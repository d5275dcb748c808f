-- ===== src/Script/Loop/Results.antt =====
-- The results of a script and the run that they report (pkg/mcp/tools/serial_script.go).
use serial_hub.Prelude.{
  &&_true, ℕ, suc, ◌+◌, ◌≤◌, ◌≡◌, refl, ap, List, [], ◌∷◌, Bool, true, false, not, Option, none,
  some, arith, length, ltb, if-cases, map, Result, ok, err, ◌>>=◌, is_empty,
}
use serial_hub.Script.{World, MatchState}
use serial_hub.Script.Matching.{stale, Plan, Progress, Abort, look}
use serial_hub.Script.Matching.Counts.{IsAccounted, process-IsAccounted}
use serial_hub.Script.Matching.Scans.{total_fired}
use serial_hub.Script.Loop.{
  RunData, ToolResult, Message, Turn, build_data, rules_pending, all_fired, complete,
  complete_result, unless_cancelled, while_connected, is_lost, on_process_err, digest, result_of,
  unless_complete, timeout_result, before_deadline, abort_or_stale, ends, script_cancelled,
  connection_lost, script_completed, script_timed_out, script_aborted, after_process, drain,
  cancel_result, stale_abort,
}

unfoldable pub sum : List ℕ → ℕ
sum [] = 0
sum (n ∷ ns) = n + sum ns

-- The counts of a result agree with each other.
abbrev pub IsReported : RunData → Type 0
IsReported d =
    (length d.triggers ≡ d.writes_fired + sum d.rule_fire_counts)
    × (d.delayed_writes_queued ≡ d.delayed_writes_fired + d.delayed_writes_pending)

-- What each message promises of success and data.
abbrev pub IsHonest : Message → Bool → RunData → Type 0
IsHonest script_completed success d =
    (success ≡ true)
    × (d.timed_out ≡ false)
    × (d.writes_total ≤ d.writes_fired)
    × (d.delayed_writes_pending ≡ 0)
    × (d.pending_rules ≡ [])
IsHonest script_timed_out success d = (success ≡ true) × (d.timed_out ≡ true)
IsHonest script_cancelled success d = success ≡ false
IsHonest connection_lost success d = success ≡ false
IsHonest (script_aborted a) success d = success ≡ false

abbrev pub IsRight : ToolResult → Type 0
IsRight r = IsReported r.content × IsHonest r.message r.success r.content

-- A round goes on with counters that agree, or ends with a result that is right.
abbrev pub IsSound : Turn → Type 0
IsSound (ok s) = IsAccounted s
IsSound (err r) = IsRight r

pub bind-IsSound :
    (m : Turn) (f : Progress → Turn)
    → IsSound m
    → ((s : Progress) → IsAccounted s → IsSound (f s))
    → IsSound (m >>= f)
bind-IsSound (ok s) f h k = k s h
bind-IsSound (err r) f h k = h

sum-map : (sts : List MatchState) → sum (map (λ st. st.fired) sts) ≡ total_fired sts
unfolding sum total_fired
sum-map [] = refl
sum-map (st ∷ sts) = ap (◌+◌ st.fired) (sum-map sts)

pub build_data_counts :
    (plan : Plan) (b : Bool) (s : Progress)
    → length s.triggers ≡ s.sch_idx + total_fired s.states
    → s.delayed_fired ≤ s.delayed_queued
    → IsReported (build_data plan b s)
unfolding build_data
build_data_counts plan b s t d = (rw (sum-map s.states) t, omega arith)

build_data-IsReported :
    (plan : Plan) (b : Bool) (s : Progress) → IsAccounted s → IsReported (build_data plan b s)
unfolding IsAccounted
build_data-IsReported plan b s (t, d, c) = build_data_counts plan b s t (omega arith)

rules_pending-nil :
    (i : ℕ) (sts : List MatchState) → all_fired sts ≡ true → rules_pending i sts ≡ []
unfolding rules_pending
rules_pending-nil i [] h = refl
rules_pending-nil i (st ∷ sts) h = ground (arith, rules_pending-nil (suc i) sts)

pub look-IsAccounted : (w : World) (s : Progress) → IsAccounted s → IsAccounted (look w s)
unfolding IsAccounted look
look-IsAccounted w s h = h

pub unless_cancelled-IsSound :
    (w : World) (plan : Plan) (s : Progress) → IsAccounted s → IsSound (unless_cancelled w plan s)
unfolding unless_cancelled
unless_cancelled-IsSound w plan s h =
    if-cases IsSound (w.cancelled s.looks) _ _
      (λ c. (build_data-IsReported plan false (look w s) (look-IsAccounted w s h), refl))
      (λ c. look-IsAccounted w s h)

pub while_connected-IsSound :
    (w : World) (plan : Plan) (s : Progress) → IsAccounted s → IsSound (while_connected w plan s)
unfolding while_connected
while_connected-IsSound w plan s h =
    if-cases IsSound (is_lost plan (look w s)) _ _
      (λ c. (build_data-IsReported plan false (look w s) (look-IsAccounted w s h), refl))
      (λ c. look-IsAccounted w s h)

abort_or_stale-IsRight :
    (plan : Plan) (b : Bool) (a : Abort) (s : Progress)
    → IsAccounted s
    → IsRight (abort_or_stale plan b a s)
abort_or_stale-IsRight plan b stale s h = (build_data-IsReported plan false s h, refl)
abort_or_stale-IsRight plan b a s h = (build_data-IsReported plan b s h, refl)

on_process_err-IsRight :
    (w : World) (plan : Plan) (b : Bool) (a : Abort) (s : Progress)
    → IsAccounted s
    → IsRight (on_process_err w plan b a s)
unfolding on_process_err
on_process_err-IsRight w plan b a s h =
    if-cases IsRight (w.cancelled s.looks) _ _
      (λ c. (build_data-IsReported plan false (look w s) (look-IsAccounted w s h), refl))
      (λ c. abort_or_stale-IsRight plan b a (look w s) (look-IsAccounted w s h))

after_process-IsSound :
    (w : World) (plan : Plan) (b : Bool) (r : Progress × Option Abort)
    → IsAccounted r.0
    → IsSound (after_process w plan b r)
after_process-IsSound w plan b (s, none) h = h
after_process-IsSound w plan b (s, some a) h = on_process_err-IsRight w plan b a s h

drain-IsAccounted : (s : Progress) → IsAccounted s → IsAccounted (drain s).0
unfolding IsAccounted
drain-IsAccounted s h = h

pub digest-IsSound :
    (w : World) (plan : Plan) (b : Bool) (s : Progress)
    → IsAccounted s
    → IsSound (digest w plan b s)
unfolding digest
digest-IsSound w plan b s h =
    let l = drain-IsAccounted (look w s) (look-IsAccounted w s h) in
    after_process-IsSound w plan b _
      (process-IsAccounted w plan (drain (look w s)).0 (look w s).inbox l)

-- A chain that ends in a result either way.
abbrev AlwaysRight : Result ToolResult ToolResult → Type 0
AlwaysRight (ok r) = IsRight r
AlwaysRight (err r) = IsRight r

result_of-IsRight : (r : Result ToolResult ToolResult) → AlwaysRight r → IsRight (result_of r)
result_of-IsRight (ok r) h = h
result_of-IsRight (err r) h = h

bind-AlwaysRight :
    (m : Turn) (f : Progress → Result ToolResult ToolResult)
    → IsSound m
    → ((s : Progress) → IsAccounted s → AlwaysRight (f s))
    → AlwaysRight (m >>= f)
bind-AlwaysRight (ok s) f h k = k s h
bind-AlwaysRight (err r) f h k = h

-- The data of a complete run; the checks before the result leave the counters alone.
IsDone : Plan → Progress → Type 0
IsDone plan s =
    (length plan.schedule ≤ s.sch_idx) × (length s.delayed ≡ 0) × (all_fired s.states ≡ true)

is_empty-length : {A : Type 0} (xs : List A) → is_empty xs ≡ true → length xs ≡ 0
is_empty-length [] h = refl
is_empty-length (x ∷ xs) h = cc

complete-IsDone : (plan : Plan) (s : Progress) → complete plan s ≡ true → IsDone plan s
unfolding complete IsDone
complete-IsDone plan s h =
    let (ab, c) = &&_true _ (all_fired s.states) h in
    let (a, b) = &&_true (not (ltb s.sch_idx (length plan.schedule))) (is_empty s.delayed) ab in
    (ground arith, is_empty-length s.delayed b, c)

done-IsRight :
    (plan : Plan) (s : Progress)
    → IsAccounted s
    → IsDone plan s
    → IsRight (ends true script_completed plan false s)
unfolding IsDone IsAccounted build_data
done-IsRight plan s (t, d, c) (f, z, a) = (
  build_data-IsReported plan false s (t, d, c),
  (refl, refl, f, omega arith, rules_pending-nil 0 s.states a),
)

look-IsDone : (w : World) (plan : Plan) (s : Progress) → IsDone plan s → IsDone plan (look w s)
unfolding look IsDone
look-IsDone w plan s d = d

pub cancel-IsRight :
    (w : World) (plan : Plan) (s : Progress)
    → IsAccounted s
    → IsRight (cancel_result plan (look w s))
cancel-IsRight w plan s h =
    (build_data-IsReported plan false (look w s) (look-IsAccounted w s h), refl)

stale-IsRight :
    (w : World) (plan : Plan) (s : Progress) → IsAccounted s → IsRight (stale_abort plan (look w s))
stale-IsRight w plan s h =
    (build_data-IsReported plan false (look w s) (look-IsAccounted w s h), refl)

complete_result-AlwaysRight :
    (w : World) (plan : Plan) (s : Progress)
    → IsAccounted s
    → IsDone plan s
    → AlwaysRight (complete_result w plan s)
unfolding complete_result unless_cancelled while_connected
complete_result-AlwaysRight w plan s h d =
    let s₁ = look w s in
    let h₁ = look-IsAccounted w s h in
    let d₁ = look-IsDone w plan s d in
    let last : Progress → Result ToolResult ToolResult =
      λ t. ok (ends true script_completed plan false t) in
    if-cases (λ (m : Turn). AlwaysRight (m >>= λ t. while_connected w plan t >>= last))
      (w.cancelled s.looks) (err (cancel_result plan s₁)) (ok s₁) (λ c. cancel-IsRight w plan s h)
      (λ c.
        if-cases (λ (m : Turn). AlwaysRight (m >>= last)) (is_lost plan (look w s₁))
          (err (stale_abort plan (look w s₁))) (ok (look w s₁)) (λ l. stale-IsRight w plan s₁ h₁)
          (λ l.
            done-IsRight plan (look w s₁) (look-IsAccounted w s₁ h₁) (look-IsDone w plan s₁ d₁)))

pub unless_complete-IsSound :
    (w : World) (plan : Plan) (s : Progress) → IsAccounted s → IsSound (unless_complete w plan s)
unfolding unless_complete
unless_complete-IsSound w plan s h =
    if-cases IsSound (complete plan s) _ _
      (λ c.
        result_of-IsRight (complete_result w plan s)
          (complete_result-AlwaysRight w plan s h (complete-IsDone plan s c)))
      (λ c. h)

timeout_result-AlwaysRight :
    (w : World) (plan : Plan) (s : Progress) → IsAccounted s → AlwaysRight (timeout_result w plan s)
unfolding timeout_result build_data
timeout_result-AlwaysRight w plan s h =
    bind-AlwaysRight (digest w plan true s) _ (digest-IsSound w plan true s h) λ s₁ h₁.
      bind-AlwaysRight (unless_complete w plan s₁) _ (unless_complete-IsSound w plan s₁ h₁) λ s₂ h₂.
        bind-AlwaysRight (unless_cancelled w plan s₂) _ (unless_cancelled-IsSound w plan s₂ h₂)
          λ s₃ h₃.
            bind-AlwaysRight (while_connected w plan s₃) _ (while_connected-IsSound w plan s₃ h₃)
              λ s₄ h₄. (build_data-IsReported plan true s₄ h₄, (refl, refl))

pub before_deadline-IsSound :
    (w : World) (plan : Plan) (s : Progress) → IsAccounted s → IsSound (before_deadline w plan s)
unfolding before_deadline
before_deadline-IsSound w plan s h =
    let h₁ = look-IsAccounted w s h in
    if-cases IsSound (ltb plan.deadline (w.now s.looks)) _ _
      (λ c. result_of-IsRight _ (timeout_result-AlwaysRight w plan (look w s) h₁)) (λ c. h₁)
