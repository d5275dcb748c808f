-- ===== src/Serial/Reconnect/Recovery.antt =====
-- Reconnection tasks that nobody disturbs.
use serial_hub.Serial.Reconnect.Success.{reconnect_loop-Reached}
use serial_hub.Prelude.{
  suc, length, All, ◌≤◌, ℕ, [], ◌≡◌, refl, arith, Bytes, inl, inr, true, List, ◌++◌, ◌∷◌,
}
use serial_hub.Serial.Manager.{Manager, Task, is_connected}
use serial_hub.Serial.Reconnect.Quiet.{Goes, IsQuiet, IsReady, IsBack, attempt-Goes, attempt-back}
use serial_hub.Serial.Reconnect.{
  stopped, failed, reconnected, failed, reconnected, ReconnectTurn, AttemptVerdict, attempt, Ending,
  reconnect_loop, on_port, follow_attempt, double_delay,
}

-- The loop is left on a port, after at most that many waits.
Recovers : ℕ → Manager × (Ending × List ℕ) → Type 0
Recovers n (s, (e, delays)) = ((name : Bytes) × (e ≡ on_port name)) × (length delays ≤ n)

follow_attempt-Recovers :
    (task : Task) (delay n : ℕ) (s : Manager) (v : AttemptVerdict)
    (rest : Manager × (Ending × List ℕ))
    → Goes task (s, v)
    → (IsReady task s → Recovers n rest)
    → Recovers (suc n) (follow_attempt delay s v rest)
unfolding Goes Recovers
follow_attempt-Recovers task delay n s stopped rest (inl (name, e)) f = ground arith
follow_attempt-Recovers task delay n s stopped rest (inr (e, r)) f = ground arith
follow_attempt-Recovers task delay n s failed rest (inl (name, e)) f = ground arith
follow_attempt-Recovers task delay n s failed rest (inr (e, r)) f =
    ((f r).0, omega (arith, (f r).1))
follow_attempt-Recovers task delay n s (reconnected target) rest g f = ((target, refl), omega arith)

follow_attempt-reconnected :
    (delay n : ℕ) (s : Manager) (v : AttemptVerdict) (rest : Manager × (Ending × List ℕ))
    (target : Bytes)
    → v ≡ reconnected target
    → Recovers (suc n) (follow_attempt delay s v rest)
unfolding Recovers
follow_attempt-reconnected delay n s stopped rest target h = ground arith
follow_attempt-reconnected delay n s failed rest target h = ground arith
follow_attempt-reconnected delay n s (reconnected name) rest target h = ((name, refl), omega arith)

reconnect_loop-Recovers :
    (task : Task) (delay : ℕ) (before : List ReconnectTurn) (t : ReconnectTurn)
    (after : List ReconnectTurn) (s : Manager)
    → All IsQuiet before
    → IsQuiet t
    → IsBack t task
    → IsReady task s
    → Recovers (suc (length before)) (reconnect_loop task delay (before ++ t ∷ after) s)
unfolding reconnect_loop
reconnect_loop-Recovers task delay [] t after s qs q b r =
    let (s', v) = attempt t task s in
    follow_attempt-reconnected delay 0 s' v (reconnect_loop task (double_delay delay) after s')
      task.port_name (attempt-back t task q s b r)
reconnect_loop-Recovers task delay (u ∷ before) t after s qs q b r =
    let (s', v) = attempt u task s in
    follow_attempt-Recovers task delay (suc (length before)) s' v
      (reconnect_loop task (double_delay delay) (before ++ t ∷ after) s')
      (attempt-Goes u task qs.0 s r)
      (reconnect_loop-Recovers task (double_delay delay) before t after s' qs.1 q b)

-- If nobody else acts, and in one of the turns the lost port is listed under its name again and
-- opens in every mode, then a task that is wanted, of an open manager with a valid configuration,
-- ends on a port, at the latest in that turn, and the manager is connected; whatever the driver did
-- in the turns before.
pub reconnect_loop-recovers :
    (task : Task) (delay : ℕ) (before : List ReconnectTurn) (t : ReconnectTurn)
    (after : List ReconnectTurn) (s : Manager)
    → All IsQuiet before
    → IsQuiet t
    → IsBack t task
    → IsReady task s
    → let (s', (e, delays)) = reconnect_loop task delay (before ++ t ∷ after) s in
      ((name : Bytes) × (e ≡ on_port name))
      × (length delays ≤ suc (length before))
      × (is_connected s' ≡ true)
unfolding Recovers
reconnect_loop-recovers task delay before t after s qs q b r =
    let ((name, e), few) = reconnect_loop-Recovers task delay before t after s qs q b r in
    ((name, e), few, (reconnect_loop-Reached task delay (before ++ t ∷ after) name s e).1)
