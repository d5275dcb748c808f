-- ===== src/Serial/Reconnect/Quiet.antt =====
-- One attempt of a reconnection task that nobody disturbs.
use mathlib.Core.Path.{subst}
use serial_hub.Serial.Ports.{contains, match_reconnect_port}
use serial_hub.Prelude.{
  ◌∙◌, bytes_eq_sound, ap, sym, ℕ, [], false, ◌≡◌, refl, arith, Option, some, none, ok, err, Bytes,
  Result-cases, inl, inr, ◌⊎◌, is_empty, true, Bool-cases, bytes_eq, List, Result,
}
use serial_hub.Serial.Config.{to_mode, Mode, Config}
use serial_hub.Serial.Manager.{
  Manager, ManagerError, Task, Driver, reconnect_connect, is_connected, open_failed,
  reconnect_update_config, set_config, update_config_locked, reconnect_active,
}
use serial_hub.Serial.Manager.Steps.{run}
use serial_hub.Serial.Reconnect.{
  failed, reconnected, failed, reconnected, verdict_of, ReconnectTurn, AttemptVerdict, try_connect,
  sync_config, pursue, attempt, listed, on_ports, target_of,
}

-- Nobody else acts during this turn.
pub record IsQuiet (t : ReconnectTurn) : Type 0 where
  pub waiting : t.waiting ≡ []
  pub listing : t.listing ≡ []
  pub configuring : t.configuring ≡ []
  pub connecting : t.connecting ≡ []

-- The task is wanted, and the driver has a mode for the configuration.
pub record IsReady (task : Task) (s : Manager) : Type 0 where
  pub gen : s.reconnect_gen ≡ task.gen
  pub opened : s.closed ≡ false
  pub running : s.cancelled ≡ false
  pub free : s.port ≡ none
  pub mode : Mode
  pub valid : to_mode s.config ≡ ok mode

-- An attempt connects, or fails and leaves the task ready.
unfoldable pub Goes : Task → Manager × AttemptVerdict → Type 0
Goes task (s, v) = ((name : Bytes) × (v ≡ reconnected name)) ⊎ ((v ≡ failed) × IsReady task s)

reconnect_connect-opens :
    (d : Driver) (s : Manager) (task : Task) (p : ℕ) (r : IsReady task s)
    → d.open_port s.config.port r.mode ≡ ok p
    → (reconnect_connect d s task.gen).1 ≡ none
unfolding reconnect_connect is_connected
reconnect_connect-opens d s task p r e = ground (arith, r.gen, r.opened, r.free, r.valid)

reconnect_connect-fails :
    (d : Driver) (s : Manager) (task : Task) (x : ℕ) (r : IsReady task s)
    → d.open_port s.config.port r.mode ≡ err x
    → reconnect_connect d s task.gen ≡ (s, some (open_failed x))
unfolding reconnect_connect is_connected
reconnect_connect-fails d s task x r e = ground (arith, r.gen, r.opened, r.free, r.valid)

verdict_of-none :
    (target : Bytes) (c : Manager × Option ManagerError)
    → c.1 ≡ none
    → (verdict_of target c).1 ≡ reconnected target
verdict_of-none target (s, none) h = refl
verdict_of-none target (s, some e) h = ground arith

module _ (t : ReconnectTurn) (task : Task) (target : Bytes) (s : Manager) (q : t.connecting ≡ [])
    (r : IsReady task s) where
  try_connect-back :
      (p : ℕ)
      → t.driver.open_port s.config.port r.mode ≡ ok p
      → (try_connect t task target s).1 ≡ reconnected target
  unfolding try_connect run
  try_connect-back p e =
      rw (q, run)
        (verdict_of-none target (reconnect_connect t.driver s task.gen)
          (reconnect_connect-opens t.driver s task p r e))

  try_connect-fails :
      (x : ℕ)
      → t.driver.open_port s.config.port r.mode ≡ err x
      → try_connect t task target s ≡ (s, failed)
  unfolding try_connect run
  try_connect-fails x e =
      rw (q, run) (ap (verdict_of target) (reconnect_connect-fails t.driver s task x r e))

  try_connect-Goes : Goes task (try_connect t task target s)
  unfolding Goes
  try_connect-Goes = elim (Result-cases (t.driver.open_port s.config.port r.mode)) [
    | inl (p, e) ↦ inl (target, try_connect-back p e)
    | inr (x, e) ↦ inr (
      ap (λ (c : Manager × AttemptVerdict). c.1) (try_connect-fails x e),
      subst (λ (c : Manager × AttemptVerdict). IsReady task c.0) (sym (try_connect-fails x e)) r,
    )
  ]

abbrev retarget : Manager → Bytes → Config
retarget s target = record s.config { port = target }

reconnect_update_config-sets :
    (s : Manager) (task : Task) (target : Bytes)
    → IsReady task s
    → is_empty target ≡ false
    → reconnect_update_config s task.gen (retarget s target)
      ≡ (set_config s (retarget s target), true)
unfolding reconnect_update_config update_config_locked is_connected
reconnect_update_config-sets s task target r e = ground (arith, r.gen, r.opened, r.free)

set_config-IsReady :
    (s : Manager) (task : Task) (target : Bytes)
    → IsReady task s
    → IsReady task (set_config s (retarget s target))
unfolding set_config to_mode
set_config-IsReady s task target r = record {
  gen = r.gen;
  opened = r.opened;
  running = r.running;
  free = r.free;
  mode = r.mode;
  valid = r.valid;
}

set_config-port : (s : Manager) (c : Config) → (set_config s c).config.port ≡ c.port
unfolding set_config
set_config-port s c = refl

-- Every mode can be opened on a port.
abbrev pub Opens : Driver → Bytes → Type 0
Opens d target = (m : Mode) → (p : ℕ) × (d.open_port target m ≡ ok p)

module _ (t : ReconnectTurn) (task : Task) (target : Bytes) (q : IsQuiet t) where
  sync_config-Goes :
      (s : Manager)
      → IsReady task s
      → is_empty target ≡ false
      → Goes task (sync_config t task target s.config s)
  unfolding sync_config run
  sync_config-Goes s r full = elim (Bool-cases (bytes_eq s.config.port target)) [
    | inl e ↦ rw e (try_connect-Goes t task target s q.connecting r)
    | inr e ↦
        rw (e, q.configuring, run, reconnect_update_config-sets s task target r full)
          (try_connect-Goes t task target (set_config s (retarget s target)) q.connecting
            (set_config-IsReady s task target r))
  ]

  sync_config-back :
      (s : Manager)
      → IsReady task s
      → is_empty target ≡ false
      → Opens t.driver target
      → (sync_config t task target s.config s).1 ≡ reconnected target
  unfolding sync_config run
  sync_config-back s r full opens = elim (Bool-cases (bytes_eq s.config.port target)) [
    | inl e ↦ rw e (
        try_connect-back t task target s q.connecting r (opens r.mode).0 (
          ap (λ name. t.driver.open_port name r.mode) (bytes_eq_sound s.config.port target e)
          ∙ (opens r.mode).1))
    | inr e ↦
        let s' = set_config s (retarget s target) in
        let r' = set_config-IsReady s task target r in
        rw (e, q.configuring, run, reconnect_update_config-sets s task target r full)
          (try_connect-back t task target s' q.connecting r' (opens r'.mode).0 (
            ap (λ name. t.driver.open_port name r'.mode) (set_config-port s (retarget s target))
            ∙ (opens r'.mode).1))
  ]

  pursue-Goes : (s : Manager) → IsReady task s → Goes task (pursue t task target s)
  unfolding pursue run Goes
  pursue-Goes s r = elim (Bool-cases (is_empty target)) [
    | inl e ↦ rw e (inr (refl, r))
    | inr e ↦ rw (e, q.listing, run) (sync_config-Goes s r e)
  ]

  pursue-back :
      (s : Manager)
      → IsReady task s
      → is_empty target ≡ false
      → Opens t.driver target
      → (pursue t task target s).1 ≡ reconnected target
  unfolding pursue run
  pursue-back s r full opens = rw (full, q.listing, run) (sync_config-back s r full opens)

-- The lost port is back: it is listed under its name and opens.
pub record IsBack (t : ReconnectTurn) (task : Task) : Type 0 where
  pub ports : List Bytes
  pub lists : listed t ≡ ok ports
  pub among : contains ports task.port_name ≡ true
  pub full : is_empty task.port_name ≡ false
  pub opens : Opens t.driver task.port_name

target_of-among :
    (t : ReconnectTurn) (task : Task) (ports : List Bytes)
    → contains ports task.port_name ≡ true
    → target_of t task ports ≡ task.port_name
unfolding match_reconnect_port
target_of-among t task ports h = rw h refl

module _ (t : ReconnectTurn) (task : Task) (q : IsQuiet t) where
  on_ports-Goes :
      (s : Manager) (ports : Result ℕ (List Bytes))
      → IsReady task s
      → Goes task (on_ports t task s ports)
  unfolding Goes
  on_ports-Goes s (err x) r = inr (refl, r)
  on_ports-Goes s (ok ports) r = pursue-Goes t task (target_of t task ports) q s r

  attempt-on_ports :
      (s : Manager) → IsReady task s → attempt t task s ≡ on_ports t task s (listed t)
  unfolding attempt run reconnect_active is_connected
  attempt-on_ports s r = ground (arith, q.waiting, r.gen, r.opened, r.running, r.free)

  pub attempt-Goes : (s : Manager) → IsReady task s → Goes task (attempt t task s)
  attempt-Goes s r = rw (attempt-on_ports s r) (on_ports-Goes s (listed t) r)

  pub attempt-back :
      (s : Manager) (b : IsBack t task)
      → IsReady task s
      → (attempt t task s).1 ≡ reconnected task.port_name
  attempt-back s b r =
      rw (attempt-on_ports s r, b.lists, target_of-among t task b.ports b.among)
        (pursue-back t task task.port_name q s r b.full b.opens)
