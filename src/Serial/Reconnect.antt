-- ===== src/Serial/Reconnect.antt =====
-- `reconnectLoop` of pkg/serial/manager.go: the attempts of one reconnection task. Between any two
-- of its calls on the manager others may act. What they do, and what the driver answers, is given
-- for each attempt by a `ReconnectTurn`. Durations are nanoseconds.
pub mod Void
pub mod Waits
pub mod Success
pub mod Quiet
pub mod Recovery
use serial_hub.Prelude.{
  ℕ, suc, ◌+◌, ◌*◌, [], ◌∷◌, List, Bool, true, false, ◌&&◌, not, Option, none, some, Bytes, ltb,
  if◌then◌else◌, Result, ok, err, is_empty, bytes_eq,
}
use serial_hub.Serial.Config.{Config}
use serial_hub.Serial.Ports.{list_ports, match_reconnect_port}
use serial_hub.Serial.Manager.{
  Manager, Driver, ManagerError, reconnect_cancelled, Task, error, reconnect_active,
  reconnect_connect, reconnect_update_config, emit_event,
}
use serial_hub.Serial.Manager.Steps.{Op, run}

abbrev pub reconnect_base_delay : ℕ
reconnect_base_delay = 1000000000

abbrev pub reconnect_max_delay : ℕ
reconnect_max_delay = 30000000000

abbrev pub reconnect_max_attempts : ℕ
reconnect_max_attempts = 30

-- The next delay. It stays at most twice the largest one, so that an `int64` does not wrap.
unfoldable pub double_delay : ℕ → ℕ
double_delay delay =
    let d = delay * 2 in if ltb reconnect_max_delay d then reconnect_max_delay else d

-- One attempt: what others do until the timer or the context fires, whether the timer wins where
-- both have fired, the driver, and what others do before the configuration is read, before it is
-- written and before the connection is made.
pub record ReconnectTurn : Type 0 where
  pub waiting : List Op
  pub timer_wins : Bool
  pub driver : Driver
  pub listing : List Op
  pub configuring : List Op
  pub connecting : List Op

pub data AttemptVerdict : Type 0 where
  stopped failed : AttemptVerdict
  reconnected : Bytes → AttemptVerdict

abbrev verdict_of : Bytes → Manager × Option ManagerError → Manager × AttemptVerdict
verdict_of target (s, none) = (s, reconnected target)
verdict_of target (s, some reconnect_cancelled) = (s, stopped)
verdict_of target (s, some e) = (s, failed)

-- `sm.reconnectConnect(gen)` and what the loop makes of its result.
unfoldable pub try_connect : ReconnectTurn → Task → Bytes → Manager → Manager × AttemptVerdict
try_connect t task target s =
    verdict_of target (reconnect_connect t.driver (run s t.connecting) task.gen)

-- The configuration follows the target, where it has another port. `cfg` is the copy that
-- `GetConfig` gave.
unfoldable pub sync_config :
    ReconnectTurn → Task → Bytes → Config → Manager → Manager × AttemptVerdict
unfolding try_connect
sync_config t task target cfg s =
    if bytes_eq cfg.port target
    then try_connect t task target s
    else let (s', same) =
        reconnect_update_config (run s t.configuring) task.gen (record cfg { port = target }) in
      if same then try_connect t task target s' else (s', stopped)

abbrev pub target_of : ReconnectTurn → Task → List Bytes → Bytes
target_of t task ports =
    match_reconnect_port ports t.driver.detailed_ports task.port_name task.vid task.pid

unfoldable pub pursue : ReconnectTurn → Task → Bytes → Manager → Manager × AttemptVerdict
unfolding sync_config
pursue t task target s =
    let s' = run s t.listing in
    if is_empty target then (s, failed) else sync_config t task target s'.config s'

-- What the loop makes of the result of `sm.ListPorts()`.
abbrev pub on_ports :
    ReconnectTurn → Task → Manager → Result ℕ (List Bytes) → Manager × AttemptVerdict
on_ports t task s (err e) = (s, failed)
on_ports t task s (ok ports) = pursue t task (target_of t task ports) s

abbrev pub listed : ReconnectTurn → Result ℕ (List Bytes)
listed t = list_ports t.driver.wsl t.driver.ports

-- One pass through the body of the loop.
unfoldable pub attempt : ReconnectTurn → Task → Manager → Manager × AttemptVerdict
unfolding pursue
attempt t task s =
    let s' = run s t.waiting in
    if s'.cancelled && not t.timer_wins
    then (s', stopped)
    else if not (reconnect_active s' task.gen)
    then (s', stopped)
    else on_ports t task s' (listed t)

pub data Ending : Type 0 where
  left gave_up : Ending
  on_port : Bytes → Ending

unfoldable pub give_up : Task → Manager → Manager × Ending
give_up task s =
    if not (reconnect_active s task.gen)
    then (s, left)
    else (emit_event (record { type = error; port = task.port_name }) s, gave_up)

-- How an attempt with this verdict goes on: the loop is left, or the rest of it runs.
abbrev pub follow_attempt :
    ℕ → Manager → AttemptVerdict → Manager × (Ending × List ℕ) → Manager × (Ending × List ℕ)
follow_attempt delay s stopped rest = (s, (left, delay ∷ []))
follow_attempt delay s (reconnected target) rest = (s, (on_port target, delay ∷ []))
follow_attempt delay s failed (s', (e, delays)) = (s', (e, delay ∷ delays))

-- The loop with its remaining turns, as many as attempts are left: how the manager is left, how the
-- loop ends and how long it waited each time.
unfoldable pub reconnect_loop :
    Task → ℕ → List ReconnectTurn → Manager → Manager × (Ending × List ℕ)
unfolding give_up
reconnect_loop task delay [] s = let (s', e) = give_up task s in (s', (e, []))
reconnect_loop task delay (t ∷ turns) s =
    let (s', v) = attempt t task s in
    follow_attempt delay s' v (reconnect_loop task (double_delay delay) turns s')
