-- ===== src/Tests/Managers.antt =====
-- pkg/serial/config.go and pkg/serial/manager.go on concrete input.
use serial_hub.Prelude.{
  ◌≤◌, ◌≡◌, refl, [], ◌∷◌, ◌++◌, List, codes, some, none, pos, ok, err, arith, true, false, length,
  ◌↔◌, bytes_eq,
}
use serial_hub.Decimal.{format_ℤ, format, scan, atoi}
use serial_hub.Serial.Config.{
  Config, Mode, no_parity, one_stop_bit, invalid_baud_rate_str, default_config, to_mode, parse_port,
  to_text,
}
use serial_hub.Serial.Config.Modes.{to_mode_iff, Describes}
use serial_hub.Serial.Config.Parse.{parse_port-format}
use serial_hub.Serial.Ports.{match_reconnect_port, contains, match_details}
use serial_hub.Serial.Manager.{
  handle_unexpected_disconnect, Manager, Driver, eof, reconnect_active, reconnect_connect,
  reconnect_update_config, reconnect_cancelled,
}
use serial_hub.Serial.Manager.Steps.{Op, disconnects, loses, reconnects, run, step}
use serial_hub.Serial.Manager.Invariant.{run-IsValid, IsValid}
use serial_hub.Serial.Manager.Generation.{write_if_same_gen_safe, IsGuarded}
use serial_hub.Serial.Manager.Tasks.{
  run_one_active, active_tasks, intervention_voids, disconnecting,
}

abbrev pub usb0 : Config
usb0 = record {
  port = codes "ttyUSB0";
  baud_rate = pos 9600;
  data_bits = pos 8;
  parity = codes "none";
  stop_bits = pos 1000;
}

abbrev pub usb0_mode : Mode
usb0_mode = record {
  baud_rate = pos 9600;
  data_bits = pos 8;
  parity = no_parity;
  stop_bits = one_stop_bit;
}

abbrev pub driver : Driver
driver = record {
  open_port = λ name mode. ok 5;
  detailed_ports =
      record { name = codes "ttyUSB1"; is_usb = true; vid = codes "10C4"; pid = codes "EA60" } ∷ [];
  ports = ok (codes "ttyUSB1" ∷ []);
  wsl = false;
  write = λ p chunk. (length chunk, none);
}

-- A manager connected to port 4.
abbrev pub linked : Manager
linked = record {
  config = usb0;
  port = some 4;
  port_vid = codes "10C4";
  port_pid = codes "EA60";
  reconnect_gen = 7;
  closed = false;
  cancelled = false;
  data_chan = [];
  err_chan = [];
  channels_closed = false;
  has_event_handler = true;
  has_config_handler = false;
  log = [];
}

text : to_text usb0 ≡ codes "ttyUSB0@9600 8N1"
unfolding to_text format_ℤ
text = refl

-- The text of a configuration is not read back as one.
text_unread : parse_port (codes "ttyUSB0@9600 8N1") ≡ err (invalid_baud_rate_str (codes "9600 8N1"))
unfolding parse_port atoi scan
text_unread = refl

usb0-to_mode : to_mode usb0 ≡ ok usb0_mode
unfolding to_mode bytes_eq
usb0-to_mode = refl

renamed_port :
    match_reconnect_port
      (codes "ttyUSB1" ∷ [])
      driver.detailed_ports
      (codes "ttyUSB0")
      (codes "10C4")
      (codes "EA60")
    ≡ codes "ttyUSB1"
unfolding match_reconnect_port contains match_details bytes_eq
renamed_port = refl

to_mode_iff_example : (to_mode usb0 ≡ ok usb0_mode) ↔ Describes usb0 usb0_mode
to_mode_iff_example = to_mode_iff usb0 usb0_mode

parse_port-format_example :
    parse_port (codes "COM9" ++ b'@' ∷ format 9600)
    ≡ ok (record default_config { port = codes "COM9"; baud_rate = pos 9600 })
parse_port-format_example = parse_port-format (codes "COM9") 9600 (omega arith) (omega arith)

-- The port is lost, and comes back under another handle by the task that this starts.
abbrev replug : List Op
replug = loses 4 eof ∷ reconnects driver 8 ∷ []

replugged : (run linked replug).port ≡ some 5
unfolding run step bytes_eq reconnect_connect handle_unexpected_disconnect to_mode
replugged = refl

run-IsValid_example : IsValid (run linked replug)
run-IsValid_example = run-IsValid linked replug (ground arith)

write_if_same_gen_safe_example : IsGuarded driver (run linked replug) 4 usb0 7 (codes "AT")
write_if_same_gen_safe_example =
    write_if_same_gen_safe linked 4 replug driver (codes "AT") refl (omega arith)

run_one_active_example : length (active_tasks (run linked replug) (run linked replug).log) ≤ 1
run_one_active_example = run_one_active linked replug tt (omega arith)

intervention_voids_example :
    let t = run linked (disconnects ∷ []) in
    (reconnect_active t 7 ≡ false)
    × (reconnect_connect driver t 7 ≡ (t, some reconnect_cancelled))
    × (reconnect_update_config t 7 usb0 ≡ (t, false))
intervention_voids_example =
    intervention_voids linked 7 [] driver usb0 disconnecting (omega arith) (omega arith)
