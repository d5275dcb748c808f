-- ===== src/Serial/Reconnect/Success.antt =====
-- Reconnection tasks that end with a connection.
use mathlib.Core.Path.{subst}
use serial_hub.Prelude.{
  Result, ℕ, [], List, true, ◌≡◌, ◌≢◌, refl, arith, Option, some, none, ok, Bytes, Bool-cases, inl,
  inr, bytes_eq, ◌∷◌, ◌⊎◌, ◌&&◌, not, is_empty, false, err,
}
use serial_hub.Serial.Config.{Config}
use serial_hub.Serial.Ports.Target.{Choice, match_reconnect_port-Choice}
use serial_hub.Serial.Manager.{
  Manager, ManagerError, Task, Driver, reconnect_connect, is_connected, reconnect_update_config,
  reconnect_active,
}
use serial_hub.Serial.Manager.Steps.{run}
use serial_hub.Serial.Reconnect.{
  stopped, failed, reconnected, verdict_of, ReconnectTurn, reconnected, try_connect, sync_config,
  attempt, reconnect_loop, give_up, on_port, listed, pursue, AttemptVerdict, double_delay, on_ports,
  Ending, follow_attempt, target_of,
}

-- The port that an attempt chose: a listed one that has the name or the identifiers of the task's.
pub record Chosen (t : ReconnectTurn) (task : Task) (target : Bytes) : Type 0 where
  pub ports : List Bytes
  pub lists : listed t ≡ ok ports
  pub choice : Choice ports t.driver.detailed_ports task.port_name task.vid task.pid target
  pub real : target ≢ []

reconnect_connect-none :
    (d : Driver) (s : Manager) (gen : ℕ)
    → (reconnect_connect d s gen).1 ≡ none
    → is_connected (reconnect_connect d s gen).0 ≡ true
unfolding reconnect_connect is_connected
reconnect_connect-none d s gen h = ground arith

verdict_of-reconnected :
    (target name : Bytes) (s : Manager) (e : Option ManagerError)
    → (verdict_of target (s, e)).1 ≡ reconnected name
    → (e ≡ none) × (target ≡ name) × ((verdict_of target (s, e)).0 ≡ s)
verdict_of-reconnected target name s none h = (refl, ground arith, refl)
verdict_of-reconnected target name s (some e) h = ground arith

try_connect-reconnected :
    (t : ReconnectTurn) (task : Task) (target name : Bytes) (s : Manager)
    → (try_connect t task target s).1 ≡ reconnected name
    → (target ≡ name) × (is_connected (try_connect t task target s).0 ≡ true)
unfolding try_connect
try_connect-reconnected t task target name s h =
    let (s', e) = reconnect_connect t.driver (run s t.connecting) task.gen in
    let (none_, same, left_) = verdict_of-reconnected target name s' e h in
    (same, rw left_ (reconnect_connect-none t.driver (run s t.connecting) task.gen none_))

sync_config-reconnected :
    (t : ReconnectTurn) (task : Task) (target name : Bytes) (c : Config) (s : Manager)
    → (sync_config t task target c s).1 ≡ reconnected name
    → (target ≡ name) × (is_connected (sync_config t task target c s).0 ≡ true)
unfolding sync_config
sync_config-reconnected t task target name c s =
    let same = bytes_eq c.port target in
    let (s', on) =
      reconnect_update_config (run s t.configuring) task.gen (record c { port = target }) in
    elim (Bool-cases same) [
      | inl e ↦ rw e (try_connect-reconnected t task target name s)
      | inr e ↦ elim (Bool-cases on) [
        | inl f ↦ rw (e, f) (try_connect-reconnected t task target name s')
        | inr f ↦ rw (e, f) (λ h. ground arith)
      ]
    ]

pursue-reconnected :
    (t : ReconnectTurn) (task : Task) (target name : Bytes) (s : Manager)
    → (pursue t task target s).1 ≡ reconnected name
    → (is_empty target ≡ false) × (target ≡ name) × (is_connected (pursue t task target s).0 ≡ true)
unfolding pursue
pursue-reconnected t task target name s = elim (Bool-cases (is_empty target)) [
  | inl e ↦ rw e (λ h. ground arith)
  | inr e ↦
      let s' = run s t.listing in
      rw e (λ h.
        let (same, on) = sync_config-reconnected t task target name s'.config s' h in
        (refl, same, on))
]

on_ports-reconnected :
    (t : ReconnectTurn) (task : Task) (name : Bytes) (s : Manager) (r : Result ℕ (List Bytes))
    → listed t ≡ r
    → (on_ports t task s r).1 ≡ reconnected name
    → Chosen t task name × (is_connected (on_ports t task s r).0 ≡ true)
on_ports-reconnected t task name s (err e) f h = ground arith
on_ports-reconnected t task name s (ok ports) f h =
    let target = target_of t task ports in
    let (full, same, on) = pursue-reconnected t task target name s h in
    (
      record {
        ports = ports;
        lists = f;
        choice =
            subst (Choice ports t.driver.detailed_ports task.port_name task.vid task.pid) same (
              match_reconnect_port-Choice ports t.driver.detailed_ports task.port_name task.vid
                task.pid);
        real = λ z. absurd (ground (arith, full, same));
      },
      on,
    )

attempt-reconnected :
    (t : ReconnectTurn) (task : Task) (target : Bytes) (s : Manager)
    → (attempt t task s).1 ≡ reconnected target
    → Chosen t task target × (is_connected (attempt t task s).0 ≡ true)
unfolding attempt
attempt-reconnected t task target s =
    let w = run s t.waiting in
    elim (Bool-cases (w.cancelled && not t.timer_wins)) [
      | inl e ↦ rw e (λ h. ground arith)
      | inr e ↦ elim (Bool-cases (reconnect_active w task.gen)) [
        | inl f ↦ rw (e, f) (on_ports-reconnected t task target w (listed t) refl)
        | inr f ↦ rw (e, f) (λ h. ground arith)
      ]
    ]

-- One of the turns chose this port.
pub Reached : Task → Bytes → List ReconnectTurn → Type 0
Reached task target [] = ⊥
Reached task target (t ∷ turns) = Chosen t task target ⊎ Reached task target turns

follow_attempt-Reached :
    (task : Task) (delay : ℕ) (t : ReconnectTurn) (turns : List ReconnectTurn) (target : Bytes)
    (s : Manager) (v : AttemptVerdict) (rest : Manager × (Ending × List ℕ))
    → (v ≡ reconnected target → Chosen t task target × (is_connected s ≡ true))
    → (rest.1.0 ≡ on_port target → Reached task target turns × (is_connected rest.0 ≡ true))
    → (follow_attempt delay s v rest).1.0 ≡ on_port target
    → Reached task target (t ∷ turns) × (is_connected (follow_attempt delay s v rest).0 ≡ true)
unfolding Reached
follow_attempt-Reached task delay t turns target s stopped rest f g h = ground arith
follow_attempt-Reached task delay t turns target s failed rest f g h = (inr (g h).0, (g h).1)
follow_attempt-Reached task delay t turns target s (reconnected name) rest f g h =
    let (chosen, on) = f (ground arith) in (inl chosen, on)

give_up-on_port : (task : Task) (s : Manager) (target : Bytes) → (give_up task s).1 ≢ on_port target
unfolding give_up
give_up-on_port task s target h = ground arith

pub reconnect_loop-Reached :
    (task : Task) (delay : ℕ) (turns : List ReconnectTurn) (target : Bytes) (s : Manager)
    → (reconnect_loop task delay turns s).1.0 ≡ on_port target
    → Reached task target turns × (is_connected (reconnect_loop task delay turns s).0 ≡ true)
unfolding reconnect_loop
reconnect_loop-Reached task delay [] target s h = absurd (give_up-on_port task s target h)
reconnect_loop-Reached task delay (t ∷ turns) target s h =
    let (s', v) = attempt t task s in
    follow_attempt-Reached task delay t turns target s' v
      (reconnect_loop task (double_delay delay) turns s') (attempt-reconnected t task target s)
      (reconnect_loop-Reached task (double_delay delay) turns target s') h
