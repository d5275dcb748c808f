-- ===== src/Script/Loop/Sending.antt =====
-- What a script has sent, over any number of rounds (pkg/mcp/tools/serial_script.go).
use serial_hub.Serial.Manager.{ManagerError}
use serial_hub.Prelude.{
  ℕ, zero, suc, ◌≡◌, refl, ap, Bool, true, false, Option, none, some, List, [], ◌∷◌, arith, ltb,
  if-cases, length, drop, length-append, Bytes, Result, ok, err, ◌>>=◌,
}
use serial_hub.Script.Matching.Sending.{script_write-sent, IsSent, process-IsSent}
use serial_hub.Script.{ScriptFireItem, DelayedWrite, World}
use serial_hub.Script.Matching.{
  Abort, Plan, Progress, drain, look, script_write, stale, timed_write_failed, delayed_write_failed,
}
use serial_hub.Script.Loop.{
  abort_or_stale, RunData, ToolResult, build_data, Turn, unless_cancelled, is_lost, while_connected,
  on_process_err, after_process, digest, complete, complete_result, result_of, unless_complete,
  timeout_result, before_deadline, fire_time, is_due, after_write, sent_timed, sent_delayed,
  fire_timed, write_timed, fire_delayed, write_delayed, round, run,
}

-- A success reports a state of the run in which the counters say what was sent.
abbrev pub SentIf : Bool → Plan → RunData → Type 0
SentIf true plan d = (s : Progress) × IsSent s × (d ≡ build_data plan d.timed_out s)
SentIf false plan d = Unit

abbrev pub IsKept : Plan → Turn → Type 0
IsKept plan (ok s) = IsSent s
IsKept plan (err r) = SentIf r.success plan r.content

abbrev IsKeptResult : Plan → Result ToolResult ToolResult → Type 0
IsKeptResult plan (ok r) = SentIf r.success plan r.content
IsKeptResult plan (err r) = SentIf r.success plan r.content

module _ (w : World) (plan : Plan) where
  bind-IsKept :
      (m : Turn) (f : Progress → Turn)
      → IsKept plan m
      → ((s : Progress) → IsSent s → IsKept plan (f s))
      → IsKept plan (m >>= f)
  bind-IsKept (ok s) f h k = k s h
  bind-IsKept (err r) f h k = h

  bind-IsKeptResult :
      (m : Turn) (f : Progress → Result ToolResult ToolResult)
      → IsKept plan m
      → ((s : Progress) → IsSent s → IsKeptResult plan (f s))
      → IsKeptResult plan (m >>= f)
  bind-IsKeptResult (ok s) f h k = k s h
  bind-IsKeptResult (err r) f h k = h

  result_of-IsKept :
      (r : Result ToolResult ToolResult) → IsKeptResult plan r → IsKept plan (err (result_of r))
  result_of-IsKept (ok r) h = h
  result_of-IsKept (err r) h = h

  look-IsSent : (s : Progress) → IsSent s → IsSent (look w s)
  unfolding IsSent look
  look-IsSent s h = h

  unless_cancelled-IsKept : (s : Progress) → IsSent s → IsKept plan (unless_cancelled w plan s)
  unfolding unless_cancelled
  unless_cancelled-IsKept s h =
      if-cases (IsKept plan) (w.cancelled s.looks) _ _ (λ c. tt) (λ c. look-IsSent s h)

  while_connected-IsKept : (s : Progress) → IsSent s → IsKept plan (while_connected w plan s)
  unfolding while_connected
  while_connected-IsKept s h =
      if-cases (IsKept plan) (is_lost plan (look w s)) _ _ (λ c. tt) (λ c. look-IsSent s h)

  abort_or_stale-IsKept :
      (b : Bool) (a : Abort) (s : Progress) → IsKept plan (err (abort_or_stale plan b a s))
  abort_or_stale-IsKept b stale s = tt
  abort_or_stale-IsKept b a s = tt

  on_process_err-IsKept :
      (b : Bool) (a : Abort) (s : Progress) → IsKept plan (err (on_process_err w plan b a s))
  unfolding on_process_err
  on_process_err-IsKept b a s =
      if-cases (λ (r : ToolResult). IsKept plan (err r)) (w.cancelled s.looks) _ _ (λ c. tt)
        (λ c. abort_or_stale-IsKept b a (look w s))

  after_process-IsKept :
      (b : Bool) (r : Progress × Option Abort)
      → (r.1 ≡ none → IsSent r.0)
      → IsKept plan (after_process w plan b r)
  after_process-IsKept b (s, none) h = h refl
  after_process-IsKept b (s, some a) h = on_process_err-IsKept b a s

  drain-IsSent : (s : Progress) → IsSent s → IsSent (drain s).0
  unfolding IsSent
  drain-IsSent s h = h

  digest-IsKept : (b : Bool) (s : Progress) → IsSent s → IsKept plan (digest w plan b s)
  unfolding digest
  digest-IsKept b s h = after_process-IsKept b _ (
      process-IsSent w plan (drain (look w s)).0 (look w s).inbox
        (drain-IsSent (look w s) (look-IsSent s h)))

  complete_result-IsKept : (s : Progress) → IsSent s → IsKeptResult plan (complete_result w plan s)
  unfolding complete_result build_data
  complete_result-IsKept s h =
      bind-IsKeptResult (unless_cancelled w plan s) _ (unless_cancelled-IsKept s h) λ s₁ h₁.
        bind-IsKeptResult (while_connected w plan s₁) _ (while_connected-IsKept s₁ h₁)
          λ s₂ h₂. (s₂, h₂, refl)

  unless_complete-IsKept : (s : Progress) → IsSent s → IsKept plan (unless_complete w plan s)
  unfolding unless_complete
  unless_complete-IsKept s h =
      if-cases (IsKept plan) (complete plan s) _ _
        (λ c. result_of-IsKept (complete_result w plan s) (complete_result-IsKept s h)) (λ c. h)

  timeout_result-IsKept : (s : Progress) → IsSent s → IsKeptResult plan (timeout_result w plan s)
  unfolding timeout_result build_data
  timeout_result-IsKept s h =
      bind-IsKeptResult (digest w plan true s) _ (digest-IsKept true s h) λ s₁ h₁.
        bind-IsKeptResult (unless_complete w plan s₁) _ (unless_complete-IsKept s₁ h₁) λ s₂ h₂.
          bind-IsKeptResult (unless_cancelled w plan s₂) _ (unless_cancelled-IsKept s₂ h₂) λ s₃ h₃.
            bind-IsKeptResult (while_connected w plan s₃) _ (while_connected-IsKept s₃ h₃)
              λ s₄ h₄. (s₄, h₄, refl)

  before_deadline-IsKept : (s : Progress) → IsSent s → IsKept plan (before_deadline w plan s)
  unfolding before_deadline
  before_deadline-IsKept s h =
      if-cases (IsKept plan) (ltb plan.deadline (w.now s.looks)) _ _
        (λ c. result_of-IsKept _ (timeout_result-IsKept (look w s) (look-IsSent s h)))
        (λ c. look-IsSent s h)

  after_write-IsKept :
      (done : Progress → Progress) (r : Progress × Option Abort)
      → (r.1 ≡ none → IsSent (done r.0))
      → IsKept plan (after_write plan done r)
  after_write-IsKept done (s, none) h = h refl
  after_write-IsKept done (s, some a) h = abort_or_stale-IsKept false a s

  one_more :
      (s : Progress) (payload : Bytes) (failed : ManagerError → Abort)
      → (script_write w plan s payload failed).1 ≡ none
      → length (script_write w plan s payload failed).0.sent ≡ suc (length s.sent)
  one_more s payload failed e = omega (
    arith,
    ap length (script_write-sent w plan s payload failed e),
    length-append s.sent (payload ∷ []),
  )

  fire_timed-IsKept :
      (item : ScriptFireItem) (s : Progress) → IsSent s → IsKept plan (fire_timed w plan item s)
  unfolding fire_timed sent_timed IsSent look script_write
  fire_timed-IsKept item s h =
      bind-IsKept (unless_cancelled w plan s) _ (unless_cancelled-IsKept s h) λ s₁ h₁.
        let failed = timed_write_failed item.write_idx in
        after_write-IsKept (sent_timed w plan item) (script_write w plan s₁ item.payload failed)
          (λ e. omega (arith, one_more s₁ item.payload failed e, h₁))

  write_timed-IsKept :
      (items : List ScriptFireItem) (s : Progress)
      → IsSent s
      → IsKept plan (write_timed w plan items s)
  unfolding write_timed
  write_timed-IsKept [] s h = h
  write_timed-IsKept (item ∷ items) s h =
      let t = look w (look w s) in
      let h' = look-IsSent (look w s) (look-IsSent s h) in
      if-cases (IsKept plan) (is_due w plan s (fire_time plan item)) _ _
        (λ d.
          bind-IsKept (fire_timed w plan item t) _ (fire_timed-IsKept item t h')
            (write_timed-IsKept items))
        (λ d. h')

  fire_delayed-IsKept :
      (x : DelayedWrite) (xs : List DelayedWrite) (s : Progress)
      → IsSent s
      → IsKept plan (fire_delayed w plan x xs s)
  unfolding fire_delayed IsSent look script_write
  fire_delayed-IsKept x xs s h =
      bind-IsKept (unless_cancelled w plan s) _ (unless_cancelled-IsKept s h) λ s₁ h₁.
        let failed = delayed_write_failed x.rule in
        let s₂ = record s₁ { delayed = xs } in
        after_write-IsKept sent_delayed (script_write w plan s₂ x.payload failed)
          (λ e. omega (arith, one_more s₂ x.payload failed e, h₁))

  write_delayed-IsKept :
      (xs : List DelayedWrite) (s : Progress) → IsSent s → IsKept plan (write_delayed w plan xs s)
  unfolding write_delayed
  write_delayed-IsKept [] s h = h
  write_delayed-IsKept (x ∷ xs) s h =
      let t = look w (look w s) in
      let h' = look-IsSent (look w s) (look-IsSent s h) in
      if-cases (IsKept plan) (is_due w plan s x.fire_at) _ _
        (λ d.
          bind-IsKept (fire_delayed w plan x xs t) _ (fire_delayed-IsKept x xs t h')
            (write_delayed-IsKept xs))
        (λ d. h')

  round-IsKept : (s : Progress) → IsSent s → IsKept plan (round w plan s)
  unfolding round
  round-IsKept s h =
      bind-IsKept (unless_cancelled w plan s) _ (unless_cancelled-IsKept s h) λ s₁ h₁.
        bind-IsKept (while_connected w plan s₁) _ (while_connected-IsKept s₁ h₁) λ s₂ h₂.
          bind-IsKept (digest w plan false s₂) _ (digest-IsKept false s₂ h₂) λ s₃ h₃.
            bind-IsKept (unless_complete w plan s₃) _ (unless_complete-IsKept s₃ h₃) λ s₄ h₄.
              bind-IsKept (before_deadline w plan s₄) _ (before_deadline-IsKept s₄ h₄) λ s₅ h₅.
                bind-IsKept (write_timed w plan (drop s₅.sch_idx plan.schedule) s₅) _
                  (write_timed-IsKept _ s₅ h₅)
                  λ s₆ h₆.
                    bind-IsKept (write_delayed w plan s₆.delayed s₆) _
                      (write_delayed-IsKept s₆.delayed s₆ h₆) unless_complete-IsKept

  pub run-IsKept : (n : ℕ) (s : Progress) → IsSent s → IsKept plan (run w plan n s)
  unfolding run
  run-IsKept zero s h = h
  run-IsKept (suc n) s h = bind-IsKept (round w plan s) _ (round-IsKept s h) (run-IsKept n)
