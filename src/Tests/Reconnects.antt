-- ===== src/Tests/Reconnects.antt =====
-- `reconnectLoop` of pkg/serial/manager.go on concrete input.
use serial_hub.Prelude.{
  ◌≡◌, ◌≤◌, refl, [], ◌∷◌, List, ℕ, codes, none, ok, true, arith, length, bytes_eq,
}
use serial_hub.Serial.Config.{to_mode}
use serial_hub.Serial.Manager.{Manager, Driver, Task, is_connected}
use serial_hub.Serial.Manager.Steps.{disconnects, run}
use serial_hub.Serial.Manager.Tasks.{disconnecting}
use serial_hub.Serial.Ports.{list_ports, match_reconnect_port, contains, match_details}
use serial_hub.Serial.Manager.{reconnect_connect, reconnect_update_config, reconnect_active}
use serial_hub.Serial.Reconnect.{
  attempt, pursue, sync_config, try_connect, double_delay, ReconnectTurn, left, on_port,
  reconnect_loop, reconnect_base_delay,
}
use serial_hub.Serial.Reconnect.Void.{reconnect_loop-yields}
use serial_hub.Serial.Reconnect.Recovery.{reconnect_loop-recovers}
use serial_hub.Serial.Reconnect.Quiet.{IsBack, IsReady}
use serial_hub.Tests.Managers.{linked, driver, usb0_mode}

-- The manager after it lost its port.
abbrev lost : Manager
lost = record linked { port = none; port_vid = []; port_pid = []; reconnect_gen = 8 }

abbrev task : Task
task = record { port_name = codes "ttyUSB0"; vid = codes "10C4"; pid = codes "EA60"; gen = 8 }

-- A turn in which only the renamed port is there, and others do nothing.
abbrev renamed_turn : ReconnectTurn
renamed_turn = record {
  waiting = [];
  timer_wins = true;
  driver = driver;
  listing = [];
  configuring = [];
  connecting = [];
}

-- The driver while the adapter is away, and when it is back.
abbrev away_driver : Driver
away_driver = record driver { ports = ok [] }

abbrev back_driver : Driver
back_driver = record driver { ports = ok (codes "ttyUSB0" ∷ []) }

abbrev away : ReconnectTurn
away = record renamed_turn { driver = away_driver }

abbrev back : ReconnectTurn
back = record renamed_turn { driver = back_driver }

abbrev parting : ReconnectTurn
parting = record renamed_turn { waiting = disconnects ∷ [] }

on_renamed :
    (reconnect_loop task reconnect_base_delay (away ∷ renamed_turn ∷ []) lost).1
    ≡ (on_port (codes "ttyUSB1"), (1000000000 ∷ 2000000000 ∷ []))
unfolding reconnect_loop attempt pursue sync_config try_connect reconnect_connect
    reconnect_update_config reconnect_active double_delay list_ports match_reconnect_port contains
    match_details bytes_eq to_mode run
on_renamed = refl

reconnect_loop-yields_example :
    reconnect_loop task reconnect_base_delay (parting ∷ back ∷ []) lost
    ≡ (run lost (disconnects ∷ []), (left, reconnect_base_delay ∷ []))
reconnect_loop-yields_example =
    reconnect_loop-yields task reconnect_base_delay parting (back ∷ []) lost [] [] disconnecting
      refl (omega arith) (omega arith)

back-IsBack : IsBack back task
unfolding list_ports contains bytes_eq
back-IsBack = record {
  ports = codes "ttyUSB0" ∷ [];
  lists = refl;
  among = refl;
  full = refl;
  opens = λ m. (5, refl);
}

lost-IsReady : IsReady task lost
unfolding to_mode bytes_eq
lost-IsReady = record {
  gen = refl;
  opened = refl;
  running = refl;
  free = refl;
  mode = usb0_mode;
  valid = refl;
}

reconnect_loop-recovers_example :
    let (s', (e, delays)) = reconnect_loop task reconnect_base_delay (away ∷ back ∷ []) lost in
    ((name : List ℕ) × (e ≡ on_port name)) × (length delays ≤ 2) × (is_connected s' ≡ true)
reconnect_loop-recovers_example =
    reconnect_loop-recovers task reconnect_base_delay (away ∷ []) back [] lost
      (record { waiting = refl; listing = refl; configuring = refl; connecting = refl }, tt)
      (record { waiting = refl; listing = refl; configuring = refl; connecting = refl }) back-IsBack
      lost-IsReady
