-- ===== src/Serial/Manager/Connecting.antt =====
-- What the connecting and disconnecting calls return and leave (pkg/serial/manager.go).
use serial_hub.Prelude.{
  Bool-cases, Result-cases, ℕ, ◌≡◌, inl, inr, Option, none, some, true, false, Bytes, arith, ok,
  Option-cases, ◌<◌, ◌^◌,
}
use serial_hub.Serial.Config.{Config, Mode, to_mode}
use serial_hub.Serial.Ports.{lookup_port_vid_pid}
use serial_hub.Serial.Manager.{
  manager_closed, already_connected, convert_config_failed, open_failed, Manager, Driver,
  ManagerError, update_while_connected, stale_connection, connect, disconnect, is_connected,
  current_port, update_config, write_if_same_gen,
}

-- What a call of `Connect` comes to: it is refused and changes nothing, or the driver opened a port
-- for the mode of the configuration, on an open manager with no port.
pub data Outcome (d : Driver) (s t : Manager) (r : Option ManagerError) : Type 0 where
  refused : (e : ManagerError) → r ≡ some e → t ≡ s → Outcome d s t r
  opened :
      (m : Mode) (p : ℕ)
      → r ≡ none
      → s.closed ≡ false
      → s.port ≡ none
      → to_mode s.config ≡ ok m
      → d.open_port s.config.port m ≡ ok p
      → t.port ≡ some p
      → (t.port_vid, t.port_pid) ≡ lookup_port_vid_pid d.detailed_ports s.config.port
      → Outcome d s t r

-- `Connect` either fails and changes nothing, or opens the configured port in the configured mode
-- and records its USB identity; the latter only if the manager was open and had no port.
pub connect-Outcome : (d : Driver) (s : Manager) → Outcome d s (connect d s).0 (connect d s).1
unfolding connect
connect-Outcome d s = elim (Bool-cases s.closed) [
  | inl shut ↦ refused manager_closed (ground arith) (ground arith)
  | inr open_ ↦ elim (Option-cases s.port) [
    | inr (q, e) ↦ refused (already_connected s.config.port) (ground arith) (ground arith)
    | inl free ↦ elim (Result-cases (to_mode s.config)) [
      | inr (x, e) ↦ refused (convert_config_failed x) (ground arith) (ground arith)
      | inl (m, e) ↦ elim (Result-cases (d.open_port s.config.port m)) [
        | inr (x, f) ↦ refused (open_failed x) (ground arith) (ground arith)
        | inl (p, f) ↦ opened m p (ground arith) open_ free e f (ground arith) (ground arith)
      ]
    ]
  ]
]

connect_ready :
    (d : Driver) (s : Manager) (m : Mode) (p : ℕ)
    → s.closed ≡ false
    → s.port ≡ none
    → to_mode s.config ≡ ok m
    → d.open_port s.config.port m ≡ ok p
    → ((connect d s).1 ≡ none) × ((connect d s).0.port ≡ some p)
unfolding connect
connect_ready d s m p a b e f = ground arith

-- On every branch, `Connect` leaves the generation and the configuration as they were.
pub connect-gen :
    (d : Driver) (s : Manager)
    → ((connect d s).0.reconnect_gen ≡ s.reconnect_gen) × ((connect d s).0.config ≡ s.config)
unfolding connect
connect-gen d s = ground arith

-- After `Disconnect` of an open manager, in whatever state it was, `Connect` succeeds if the
-- configuration is valid and the driver opens the port, and then the manager is connected to it
-- under its configured name.
pub connect-disconnect :
    (d : Driver) (s : Manager) (m : Mode) (p : ℕ)
    → s.closed ≡ false
    → to_mode s.config ≡ ok m
    → d.open_port s.config.port m ≡ ok p
    → let (t, r) = connect d (disconnect s) in
      (r ≡ none) × (t.port ≡ some p) × (is_connected t ≡ true) × (current_port t ≡ s.config.port)
unfolding connect disconnect is_connected current_port
connect-disconnect d s m p a e f = ground arith

-- `UpdateConfig` while a port is open is refused and leaves the port and the configuration, but
-- moves the generation: a script that wrote to this very connection is refused as stale from then
-- on, although the connection is the same.
pub update_config_stales :
    (s : Manager) (p : ℕ) (cfg : Option Config) (d : Driver) (chunk : Bytes)
    → s.port ≡ some p
    → s.reconnect_gen < 2 ^ 64
    → let (t, r) = update_config s cfg in
      (r ≡ some update_while_connected)
      × (t.port ≡ some p)
      × (t.config ≡ s.config)
      × (write_if_same_gen d t s.reconnect_gen chunk ≡ (t, (0, some stale_connection)))
unfolding update_config write_if_same_gen
update_config_stales s p cfg d chunk e b = ground arith
