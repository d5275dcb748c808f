-- ===== src/Web/Commands.antt =====
-- cmd/serialhub/command_handler.go: the commands of the Web terminal. What `json.Unmarshal` reads in
-- a message is a parameter: a message of the type asked for, with the fields that have the right
-- type. A `float64` comes as the integer to which the code converts it.
use serial_hub.Prelude.{
  [], List, Bool, true, false, Option, none, some, Bytes, codes, is_empty, ℤ, pos, ◌*◌,
  if◌then◌else◌, Result, ok, err, negsuc, ℕ, ◌-◌, suc,
}
use serial_hub.Serial.Config.{Config}
use serial_hub.Serial.Ports.{list_ports}
use serial_hub.Serial.Manager.{
  Manager, Driver, ManagerError, connect, disconnect, update_config, is_connected,
}

-- The object of a connect command.
pub record ConnectData : Type 0 where
  pub port : Option Bytes
  pub baud_rate : Option ℤ
  pub data_bits : Option ℤ
  pub parity : Option Bytes
  pub stop_bits : Option ℤ

pub data WebCommand : Type 0 where
  get_ports get_status disconnect_command shutdown unknown : WebCommand
  connect_command : Option ConnectData → WebCommand

pub data WebErrorCode : Type 0 where
  list_ports_failed missing_connection missing_port update_settings_failed : WebErrorCode
  connect_failed shutdown_unsupported : WebErrorCode

pub data WebReply : Type 0 where
  ports_reply : List Bytes → WebReply
  status_reply : Option Config → WebReply
  connected_reply : Config → WebReply
  disconnected_reply shutting_down : WebReply
  web_error : WebErrorCode → WebReply

abbrev pub value_or {ℓ} : {A : Type ℓ} → Option A → A → A
value_or none d = d
value_or (some a) d = a

abbrev pub thousandths : ℤ → ℤ
thousandths (pos n) = pos (n * 1000)
thousandths (negsuc n) = negsuc (suc n * 1000 - 1)

abbrev pub connect_reply : Manager × Option ManagerError → Manager × WebReply
connect_reply (s, none) = (s, connected_reply s.config)
connect_reply (s, some e) = (s, web_error connect_failed)

abbrev pub connect_after : Driver → Manager × Option ManagerError → Manager × WebReply
connect_after d (s, none) = connect_reply (connect d s)
connect_after d (s, some e) = (s, web_error update_settings_failed)

-- `handleConnectCommand`.
unfoldable pub handle_connect_command : Driver → Manager → Option ConnectData → Manager × WebReply
handle_connect_command d s none = (s, web_error missing_connection)
handle_connect_command d s (some c) =
    let port = value_or c.port [] in
    let cfg = record s.config {
      port = port;
      baud_rate = value_or c.baud_rate (pos 115200);
      data_bits = value_or c.data_bits (pos 8);
      parity = value_or c.parity (codes "none");
      stop_bits = thousandths (value_or c.stop_bits (pos 1));
    } in
    if is_empty port
    then (s, web_error missing_port)
    else connect_after d (update_config s (some cfg))

abbrev pub ports_or_error : Manager → Result ℕ (List Bytes) → Manager × WebReply
ports_or_error s (ok ports) = (s, ports_reply ports)
ports_or_error s (err e) = (s, web_error list_ports_failed)

-- The command handler: the manager, the reply and whether a shutdown is asked for. `can_shutdown`
-- tells whether the handler has been given a way to ask for it.
unfoldable pub run_command :
    Driver → Bool → Manager → WebCommand → Manager × (Option WebReply × Bool)
unfolding handle_connect_command
run_command d can_shutdown s get_ports =
    let (s', r) = ports_or_error s (list_ports d.wsl d.ports) in (s', (some r, false))
run_command d can_shutdown s get_status =
    (s, (some (status_reply (if is_connected s then some s.config else none)), false))
run_command d can_shutdown s (connect_command c) =
    let (s', r) = handle_connect_command d s c in (s', (some r, false))
run_command d can_shutdown s disconnect_command = (disconnect s, (some disconnected_reply, false))
run_command d can_shutdown s shutdown =
    if can_shutdown
    then (s, (some shutting_down, true))
    else (s, (some (web_error shutdown_unsupported), false))
run_command d can_shutdown s unknown = (s, (none, false))

abbrev pub run_parsed :
    Driver → Bool → Manager → Option WebCommand → Manager × (Option WebReply × Bool)
run_parsed d can_shutdown s none = (s, (none, false))
run_parsed d can_shutdown s (some c) = run_command d can_shutdown s c

-- `createCommandHandler`.
unfoldable pub command_handler :
    (Bytes → Option WebCommand)
    → Driver
    → Bool
    → Manager
    → Bytes
    → Manager × (Option WebReply × Bool)
unfolding run_command
command_handler parse d can_shutdown s cmd = run_parsed d can_shutdown s (parse cmd)
