-- ===== src/Serial/Reconnect/Void.antt =====
-- Reconnection tasks that are no longer wanted.
use serial_hub.Prelude.{
  ℕ, ◌+◌, ◌<◌, ◌≤◌, ◌^◌, [], ◌∷◌, ◌++◌, List, false, ◌≡◌, refl, arith, length, length-append, ap,
  ◌∙◌, if-cases, suc,
}
use serial_hub.Serial.Manager.{Manager, Task, reconnect_active}
use serial_hub.Serial.Manager.Steps.{Op, run, step}
use serial_hub.Serial.Manager.Tasks.{IsIntervention, intervention_voids, run-grows}
use serial_hub.Serial.Reconnect.{
  follow_attempt, double_delay, ReconnectTurn, AttemptVerdict, stopped, attempt, left,
  reconnect_loop,
}

run-append : (s : Manager) (xs ys : List Op) → run s (xs ++ ys) ≡ run (run s xs) ys
unfolding run
run-append s [] ys = refl
run-append s (x ∷ xs) ys = run-append (step s x) xs ys

attempt_void :
    (t : ReconnectTurn) (task : Task) (s : Manager)
    → reconnect_active (run s t.waiting) task.gen ≡ false
    → attempt t task s ≡ (run s t.waiting, stopped)
unfolding attempt
attempt_void t task s off = rw off (
    if-cases (λ (r : Manager × AttemptVerdict). r ≡ (run s t.waiting, stopped)) _ _ _ (λ h. refl)
      (λ h. refl))

reconnect_loop_void :
    (task : Task) (delay : ℕ) (t : ReconnectTurn) (turns : List ReconnectTurn) (s : Manager)
    → reconnect_active (run s t.waiting) task.gen ≡ false
    → reconnect_loop task delay (t ∷ turns) s ≡ (run s t.waiting, (left, delay ∷ []))
unfolding reconnect_loop
reconnect_loop_void task delay t turns s off =
    ap
      (λ (r : Manager × AttemptVerdict).
        follow_attempt delay r.0 r.1 (reconnect_loop task (double_delay delay) turns r.0))
      (attempt_void t task s off)

-- If a user disconnects or changes the configuration while the loop waits, the loop leaves after
-- that wait, whatever turns are left, and does nothing to the manager: its last change is the one of
-- the others. The generation has not wrapped around.
pub reconnect_loop-yields :
    (task : Task) (delay : ℕ) (t : ReconnectTurn) (turns : List ReconnectTurn) (s : Manager)
    {op : Op} (before after : List Op)
    → IsIntervention op
    → t.waiting ≡ before ++ op ∷ after
    → task.gen ≤ s.reconnect_gen
    → s.reconnect_gen + length t.waiting < 2 ^ 64
    → reconnect_loop task delay (t ∷ turns) s ≡ (run s t.waiting, (left, delay ∷ []))
reconnect_loop-yields task delay t turns s {op} before after i split h b =
    let n : length t.waiting ≡ length before + suc (length after) =
      ap length split ∙ length-append before (op ∷ after) in
    let grows = run-grows s before (omega arith) in
    let (off, _, _) =
      intervention_voids (run s before) task.gen after t.driver (run s before).config i
        (omega (arith, grows.0)) (omega (arith, grows.1)) in
    reconnect_loop_void task delay t turns s (
      ap (λ ops. reconnect_active (run s ops) task.gen) split
      ∙ ap (λ m. reconnect_active m task.gen) (run-append s before (op ∷ after))
      ∙ off)
