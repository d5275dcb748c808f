-- ===== src/Script/Loop/Rounds.antt =====
-- The counters and results over any number of rounds (pkg/mcp/tools/serial_script.go).
use serial_hub.Prelude.{
  suc, ap, refl, ℕ, zero, suc, ◌+◌, ◌≤◌, ◌≡◌, refl, List, [], ◌∷◌, false, Option, none, some, arith,
  length, length-append, if-cases, drop, ok, err, ◌>>=◌, Bytes,
}
use serial_hub.Serial.Manager.{ManagerError}
use serial_hub.Script.{World, ScriptFireItem, DelayedWrite}
use serial_hub.Script.Matching.{
  Plan, Progress, Abort, look, script_write, timed_write_failed, delayed_write_failed, stale,
}
use serial_hub.Script.Matching.Counts.{IsAccounted}
use serial_hub.Script.Matching.Scans.{total_fired}
use serial_hub.Script.Loop.{
  Turn, fire_timed, write_timed, fire_delayed, write_delayed, sent_timed, sent_delayed, is_due,
  fire_time, unless_cancelled, while_connected, digest, unless_complete, before_deadline, round,
  run, after_write, abort_or_stale, cancel_result,
}
use serial_hub.Script.Loop.Results.{
  IsRight, IsSound, bind-IsSound, look-IsAccounted, unless_cancelled-IsSound,
  while_connected-IsSound, digest-IsSound, unless_complete-IsSound, before_deadline-IsSound,
  cancel-IsRight, build_data_counts,
}

-- Enough to report the counts, also where a write has been taken from the heap and failed.
IsReportable : Progress → Type 0
IsReportable s =
    (length s.triggers ≡ s.sch_idx + total_fired s.states) × (s.delayed_fired ≤ s.delayed_queued)

abbrev Turns : (Progress → Type 0) → Turn → Type 0
Turns P (ok s) = P s
Turns P (err r) = IsRight r

bind-Turns :
    (P : Progress → Type 0) (Q : Progress → Type 0) (m : Turn) (f : Progress → Turn)
    → Turns P m
    → ((s : Progress) → P s → Turns Q (f s))
    → Turns Q (m >>= f)
bind-Turns P Q (ok s) f h k = k s h
bind-Turns P Q (err r) f h k = h

Turns-IsSound : (m : Turn) → Turns IsAccounted m → IsSound m
Turns-IsSound (ok s) h = h
Turns-IsSound (err r) h = h

IsSound-Turns : (m : Turn) → IsSound m → Turns IsAccounted m
IsSound-Turns (ok s) h = h
IsSound-Turns (err r) h = h

abort-IsRight :
    (plan : Plan) (a : Abort) (s : Progress)
    → IsReportable s
    → IsRight (abort_or_stale plan false a s)
unfolding IsReportable
abort-IsRight plan stale s (t, d) = (build_data_counts plan false s t d, refl)
abort-IsRight plan a s (t, d) = (build_data_counts plan false s t d, refl)

after_write-Turns :
    (P : Progress → Type 0) (plan : Plan) (done : Progress → Progress) (r : Progress × Option Abort)
    → IsReportable r.0
    → P (done r.0)
    → Turns P (after_write plan done r)
after_write-Turns P plan done (s, none) h k = k
after_write-Turns P plan done (s, some a) h k = abort-IsRight plan a s h

written-IsReportable :
    (w : World) (plan : Plan) (s : Progress) (payload : Bytes) (f : ManagerError → Abort)
    → IsAccounted s
    → IsReportable (script_write w plan s payload f).0
unfolding script_write look IsAccounted IsReportable
written-IsReportable w plan s payload f (t, d, c) = (t, omega arith)

sent_timed-IsAccounted :
    (w : World) (plan : Plan) (item : ScriptFireItem) (s : Progress) (payload : Bytes)
    (f : ManagerError → Abort)
    → IsAccounted s
    → IsAccounted (sent_timed w plan item (script_write w plan s payload f).0)
unfolding script_write look IsAccounted sent_timed
sent_timed-IsAccounted w plan item s payload f (t, d, c) =
    (omega (arith, length-append s.triggers), d, c)

fire_timed-Turns :
    (w : World) (plan : Plan) (item : ScriptFireItem) (s : Progress)
    → IsAccounted s
    → Turns IsAccounted (fire_timed w plan item s)
unfolding fire_timed
fire_timed-Turns w plan item s h =
    bind-Turns IsAccounted IsAccounted (unless_cancelled w plan s) _
      (IsSound-Turns _ (unless_cancelled-IsSound w plan s h))
      λ s₁ h₁.
        let r = script_write w plan s₁ item.payload (timed_write_failed item.write_idx) in
        after_write-Turns IsAccounted plan (sent_timed w plan item) r
          (written-IsReportable w plan s₁ item.payload (timed_write_failed item.write_idx) h₁)
          (sent_timed-IsAccounted w plan item s₁ item.payload (timed_write_failed item.write_idx)
            h₁)

write_timed-Turns :
    (w : World) (plan : Plan) (items : List ScriptFireItem) (s : Progress)
    → IsAccounted s
    → Turns IsAccounted (write_timed w plan items s)
unfolding write_timed
write_timed-Turns w plan [] s h = h
write_timed-Turns w plan (item ∷ items) s h =
    let t = look w (look w s) in
    let h' = look-IsAccounted w (look w s) (look-IsAccounted w s h) in
    if-cases (Turns IsAccounted) (is_due w plan s (fire_time plan item)) _ _
      (λ d.
        bind-Turns IsAccounted IsAccounted (fire_timed w plan item t) _
          (fire_timed-Turns w plan item t h') (write_timed-Turns w plan items))
      (λ d. h')

-- The heap is what is left of the list.
IsHeap : List DelayedWrite → Progress → Type 0
IsHeap xs s = IsAccounted s × (s.delayed ≡ xs)

fire_delayed-Turns :
    (w : World) (plan : Plan) (x : DelayedWrite) (xs : List DelayedWrite) (s : Progress)
    → IsHeap (x ∷ xs) s
    → Turns (IsHeap xs) (fire_delayed w plan x xs s)
unfolding fire_delayed unless_cancelled script_write look IsHeap IsAccounted IsReportable
fire_delayed-Turns w plan x xs s ((t, d, c), e) =
    let size : length s.delayed ≡ suc (length xs) = ap length e in
    let failed = delayed_write_failed x.rule in
    let s₁ = look w s in
    let r = script_write w plan (record s₁ { delayed = xs }) x.payload failed in
    if-cases
      (λ (m : Turn). Turns (IsHeap xs) (
        m >>= λ s₁.
        after_write plan sent_delayed
          (script_write w plan (record s₁ { delayed = xs }) x.payload failed)))
      (w.cancelled s.looks) (err (cancel_result plan s₁)) (ok s₁)
      (λ h. cancel-IsRight w plan s (t, d, c))
      (λ h.
        after_write-Turns (IsHeap xs) plan sent_delayed r (t, omega arith)
          ((t, omega arith, c), refl))

write_delayed-Turns :
    (w : World) (plan : Plan) (xs : List DelayedWrite) (s : Progress)
    → IsHeap xs s
    → Turns IsAccounted (write_delayed w plan xs s)
unfolding write_delayed IsHeap look
write_delayed-Turns w plan [] s (h, e) = h
write_delayed-Turns w plan (x ∷ xs) s (h, e) =
    let t = look w (look w s) in
    let k = look-IsAccounted w (look w s) (look-IsAccounted w s h) in
    let h' : IsHeap (x ∷ xs) t = (k, e) in
    if-cases (Turns IsAccounted) (is_due w plan s x.fire_at) _ _
      (λ d.
        bind-Turns (IsHeap xs) IsAccounted (fire_delayed w plan x xs t) _
          (fire_delayed-Turns w plan x xs t h') (write_delayed-Turns w plan xs))
      (λ d. k)

writes-IsSound :
    (w : World) (plan : Plan) (s : Progress)
    → IsAccounted s
    → IsSound (
        write_timed w plan (drop s.sch_idx plan.schedule) s >>= λ t.
        write_delayed w plan t.delayed t >>= unless_complete w plan)
unfolding IsHeap
writes-IsSound w plan s h = Turns-IsSound _ (
    bind-Turns IsAccounted IsAccounted (write_timed w plan (drop s.sch_idx plan.schedule) s) _
      (write_timed-Turns w plan _ s h)
      λ t k.
        bind-Turns IsAccounted IsAccounted (write_delayed w plan t.delayed t) _
          (write_delayed-Turns w plan t.delayed t (k, refl))
          λ u l. IsSound-Turns _ (unless_complete-IsSound w plan u l))

pub round-IsSound :
    (w : World) (plan : Plan) (s : Progress) → IsAccounted s → IsSound (round w plan s)
unfolding round
round-IsSound w plan s h =
    bind-IsSound (unless_cancelled w plan s) _ (unless_cancelled-IsSound w plan s h) λ s₁ h₁.
      bind-IsSound (while_connected w plan s₁) _ (while_connected-IsSound w plan s₁ h₁) λ s₂ h₂.
        bind-IsSound (digest w plan false s₂) _ (digest-IsSound w plan false s₂ h₂) λ s₃ h₃.
          bind-IsSound (unless_complete w plan s₃) _ (unless_complete-IsSound w plan s₃ h₃) λ s₄ h₄.
            bind-IsSound (before_deadline w plan s₄) _ (before_deadline-IsSound w plan s₄ h₄)
              λ s₅ h₅. writes-IsSound w plan s₅ h₅

-- Over any number of rounds, whatever arrives, is matched and fails and whatever other goroutines
-- do meanwhile: the triggers of a script are its timed writes that were sent and its matches, what
-- is reported as pending is what was queued and not sent, and no rule fires more often than it may.
-- A script that reports completion has sent all timed and delayed writes and has no rule that never
-- fired; it reports success only then or at the deadline; and every other end is a failure.
pub run-IsSound :
    (w : World) (plan : Plan) (n : ℕ) (s : Progress) → IsAccounted s → IsSound (run w plan n s)
unfolding run
run-IsSound w plan zero s h = h
run-IsSound w plan (suc n) s h =
    bind-IsSound (round w plan s) _ (round-IsSound w plan s h) (run-IsSound w plan n)
