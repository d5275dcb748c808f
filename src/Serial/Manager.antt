-- ===== src/Serial/Manager.antt =====
-- pkg/serial/manager.go: the state of the manager and its operations. Every operation is the code
-- of one critical section of `sm.mu`, together with the sends and goroutines that follow it.
-- An open port is known by a number. What the driver answers is an argument, `Driver`. Channels
-- are bounded queues; goroutines that are started, events that are emitted and writes that reach a
-- port are entries of `log`, newest first.
pub mod Steps
pub mod Invariant
pub mod Generation
pub mod Tasks
pub mod Connecting
use serial_hub.Prelude.{
  ℕ, ◌+◌, ◌%◌, ◌^◌, [], ◌∷◌, ◌++◌, List, Bool, true, false, ◌&&◌, ◌||◌, Option, none, some, Bytes,
  ltb, ◌==◌, if◌then◌else◌, not, Result, ok, err, is_empty, length,
}
use serial_hub.Serial.Config.{Config, ConfigError, Mode, to_mode}
use serial_hub.Serial.Ports.{UsbPortDetails, lookup_port_vid_pid}

pub data EventType : Type 0 where
  connected disconnected error : EventType

pub record Event : Type 0 where
  pub type : EventType
  pub port : Bytes

-- Why a read failed: `io.EOF`, or any other error of the driver.
pub data Cause : Type 0 where
  eof : Cause
  failure : ℕ → Cause

-- What the manager reports on `errChan`.
pub data Report : Type 0 where
  write_error : ℕ → Report
  lost_port : Bytes → Cause → Report

pub data ManagerError : Type 0 where
  config_nil manager_closed update_while_connected port_empty not_connected : ManagerError
  stale_connection reconnect_cancelled : ManagerError
  already_connected : Bytes → ManagerError
  convert_config_failed : ConfigError → ManagerError
  open_failed write_failed list_failed : ℕ → ManagerError

-- A task of `reconnectLoop`: its arguments.
pub record Task : Type 0 where
  pub port_name : Bytes
  pub vid : Bytes
  pub pid : Bytes
  pub gen : ℕ

pub data Effect : Type 0 where
  start_reading : ℕ → Effect
  close_port : ℕ → Effect
  emit : Event → Effect
  change_config : Config → Effect
  start_reconnecting : Task → Effect
  write_port : ℕ → Bytes → Effect

pub record Manager : Type 0 where
  pub config : Config
  pub port : Option ℕ
  pub port_vid : Bytes
  pub port_pid : Bytes
  pub reconnect_gen : ℕ
  pub closed : Bool
  pub cancelled : Bool
  pub data_chan : List Bytes
  pub err_chan : List Report
  pub channels_closed : Bool
  pub has_event_handler : Bool
  pub has_config_handler : Bool
  pub log : List Effect

-- go.bug.st/serial and the enumerator: opening a port, what is plugged in, what a write returns.
pub record Driver : Type 0 where
  pub open_port : Bytes → Mode → Result ℕ ℕ
  pub detailed_ports : List UsbPortDetails
  pub ports : Result ℕ (List Bytes)
  pub wsl : Bool
  pub write : ℕ → Bytes → ℕ × Option ℕ

abbrev pub data_chan_size : ℕ
data_chan_size = 256

abbrev pub err_chan_size : ℕ
err_chan_size = 16

-- `NewSerialManager`.
unfoldable pub new_serial_manager : Option Config → Result ManagerError Manager
new_serial_manager none = err config_nil
new_serial_manager (some c) = ok (record {
  config = c;
  port = none;
  port_vid = [];
  port_pid = [];
  reconnect_gen = 0;
  closed = false;
  cancelled = false;
  data_chan = [];
  err_chan = [];
  channels_closed = false;
  has_event_handler = false;
  has_config_handler = false;
  log = [];
})

abbrev pub set_event_handler : Manager → Manager
set_event_handler s = record s { has_event_handler = true }

abbrev pub set_config_change_handler : Manager → Manager
set_config_change_handler s = record s { has_config_handler = true }

-- The generation is a `uint64`.
unfoldable pub next_gen : ℕ → ℕ
next_gen g = (g + 1) % 2 ^ 64

unfoldable pub emit_event : Event → Manager → Manager
emit_event e s = if s.has_event_handler then record s { log = emit e ∷ s.log } else s

-- The non-blocking send on `errChan`: a full channel drops the report.
unfoldable pub report : Report → Manager → Manager
report r s =
    if ltb (length s.err_chan) err_chan_size
    then record s { err_chan = s.err_chan ++ r ∷ [] }
    else s

unfoldable pub opened : Driver → Manager → ℕ → Manager
unfolding emit_event
opened d s p =
    let (vid, pid) = lookup_port_vid_pid d.detailed_ports s.config.port in
    emit_event (record { type = connected; port = s.config.port })
      (record s { port = some p; port_vid = vid; port_pid = pid; log = start_reading p ∷ s.log })

unfoldable pub open_config : Driver → Manager → Mode → Manager × Option ManagerError
unfolding opened
open_config d s mode = elim (d.open_port s.config.port mode) [
  | err e ↦ (s, some (open_failed e))
  | ok p ↦ (opened d s p, none)
]

unfoldable pub connect_locked : Driver → Manager → Manager × Option ManagerError
unfolding open_config
connect_locked d s = if s.closed then (s, some manager_closed) else elim s.port [
  | some p ↦ (s, some (already_connected s.config.port))
  | none ↦ elim (to_mode s.config) [
    | err e ↦ (s, some (convert_config_failed e))
    | ok mode ↦ open_config d s mode
  ]
]

unfoldable pub connect : Driver → Manager → Manager × Option ManagerError
unfolding connect_locked
connect d s = connect_locked d s

abbrev pub connection_gen : Manager → ℕ
connection_gen s = s.reconnect_gen

-- What `Disconnect` does to an open port `p`.
unfoldable pub drop_port : Manager → ℕ → Manager
drop_port s p = record s { port = none; port_vid = []; port_pid = []; log = close_port p ∷ s.log }

unfoldable pub disconnect : Manager → Manager
unfolding drop_port emit_event next_gen
disconnect s =
    let s' = record s { reconnect_gen = next_gen s.reconnect_gen } in
    elim s.port [
      | none ↦ s'
      | some p ↦ emit_event (record { type = disconnected; port = s.config.port }) (drop_port s' p)
    ]

unfoldable pub write_under_lock : Driver → Manager → ℕ → Bytes → Manager × (ℕ × Option ℕ)
unfolding report
write_under_lock d s p chunk =
    let (n, e) = d.write p chunk in
    let s' = record s { log = write_port p chunk ∷ s.log } in
    (elim e [ none ↦ s' | some x ↦ report (write_error x) s' ], (n, e))

abbrev finish_write : ℕ × Option ℕ → ℕ × Option ManagerError
finish_write (n, none) = (n, none)
finish_write (n, some e) = (n, some (write_failed e))

unfoldable pub write : Driver → Manager → Bytes → Manager × (ℕ × Option ManagerError)
unfolding write_under_lock
write d s chunk = elim s.port [
  | none ↦ (s, (0, some not_connected))
  | some p ↦ let (s', r) = write_under_lock d s p chunk in (s', finish_write r)
]

unfoldable pub write_if_same_gen :
    Driver → Manager → ℕ → Bytes → Manager × (ℕ × Option ManagerError)
unfolding write_under_lock
write_if_same_gen d s gen chunk = elim s.port [
  | none ↦ (s, (0, some stale_connection))
  | some p ↦
      if not (s.reconnect_gen == gen)
      then (s, (0, some stale_connection))
      else let (s', r) = write_under_lock d s p chunk in (s', finish_write r)
]

unfoldable pub write_line : Driver → Manager → Bytes → Manager × Option ManagerError
unfolding write
write_line d s line = let (s', r) = write d s (line ++ b'\n' ∷ []) in (s', r.1)

unfoldable pub is_connected : Manager → Bool
is_connected s = elim s.port [ none ↦ false | some p ↦ true ]

unfoldable pub current_port : Manager → Bytes
current_port s = elim s.port [ none ↦ [] | some p ↦ s.config.port ]

abbrev pub get_config : Manager → Config
get_config s = s.config

unfoldable pub set_config : Manager → Config → Manager
set_config s c = record s {
  config = c;
  log = if s.has_config_handler then change_config c ∷ s.log else s.log;
}

unfoldable pub update_config_locked : Manager → Option Config → Manager × Option ManagerError
unfolding set_config
update_config_locked s cfg = elim s.port [
  | some p ↦ (s, some update_while_connected)
  | none ↦ elim cfg [
    | none ↦ (s, some config_nil)
    | some c ↦ if is_empty c.port then (s, some port_empty) else (set_config s c, none)
  ]
]

unfoldable pub update_config : Manager → Option Config → Manager × Option ManagerError
unfolding update_config_locked next_gen
update_config s cfg =
    update_config_locked (record s { reconnect_gen = next_gen s.reconnect_gen }) cfg

-- `Close` up to its `wg.Wait()`.
unfoldable pub close : Manager → Manager
unfolding drop_port
close s =
    let s' = record s { closed = true; cancelled = true } in
    if s.closed
    then s
    else elim s.port [ none ↦ record s' { port_vid = []; port_pid = [] } | some p ↦ drop_port s' p ]

-- `Close` after its `wg.Wait()`, when the reading loops have ended.
unfoldable pub close_channels : Manager → Manager
close_channels s = record s { channels_closed = true }

-- `current != port` for the port of a reading loop.
unfoldable pub owns : Manager → ℕ → Bool
owns s p = elim s.port [ none ↦ false | some q ↦ q == p ]

abbrev event_of : Cause → EventType
event_of eof = disconnected
event_of (failure n) = error

unfoldable pub handle_unexpected_disconnect : Manager → ℕ → Cause → Manager
unfolding owns drop_port report emit_event next_gen
handle_unexpected_disconnect s p cause =
    let name = s.config.port in
    let gen = next_gen s.reconnect_gen in
    let s₁ = drop_port (record s { reconnect_gen = gen }) p in
    let s₂ = report (lost_port name cause) s₁ in
    let s₃ = emit_event (record { type = event_of cause; port = name }) s₂ in
    let task : Task = record { port_name = name; vid = s.port_vid; pid = s.port_pid; gen = gen } in
    if not (owns s p)
    then s
    else if s.cancelled
    then s₃
    else record s₃ { log = start_reconnecting task ∷ s₃.log }

unfoldable pub reconnect_active : Manager → ℕ → Bool
unfolding is_connected
reconnect_active s gen = (s.reconnect_gen == gen) && not s.closed && not (is_connected s)

unfoldable pub reconnect_connect : Driver → Manager → ℕ → Manager × Option ManagerError
unfolding connect_locked is_connected
reconnect_connect d s gen =
    if not (s.reconnect_gen == gen) || s.closed || is_connected s
    then (s, some reconnect_cancelled)
    else connect_locked d s

abbrev succeeded : Manager × Option ManagerError → Manager × Bool
succeeded (s, none) = (s, true)
succeeded (s, some e) = (s, false)

unfoldable pub reconnect_update_config : Manager → ℕ → Config → Manager × Bool
unfolding update_config_locked is_connected
reconnect_update_config s gen c =
    if not (s.reconnect_gen == gen) || s.closed || is_connected s
    then (s, false)
    else succeeded (update_config_locked s (some c))

-- What the sends of a reading loop on `dataChan` do, in one critical section with the check that
-- the port is still the manager's. A full channel drops the chunk. (The case of `ctx.Done()` is
-- not taken: whoever cancels takes the port away in the same critical section.)
unfoldable pub publish : Manager → ℕ → Bytes → Manager
unfolding owns
publish s p chunk =
    if not (owns s p)
    then s
    else if ltb (length s.data_chan) data_chan_size
    then record s { data_chan = s.data_chan ++ chunk ∷ [] }
    else s
