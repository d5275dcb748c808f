-- ===== src/Tests/Toolbox.antt =====
-- The tools of pkg/mcp/tools on concrete input.
use serial_hub.Prelude.{bytes_eq, ℕ, ◌≡◌, refl, [], ◌∷◌, List, codes, none, some, pos, false}
use serial_hub.Buffer.{DataBuffer, buffered, append, kept, read, read_size}
use serial_hub.Serial.Config.{to_mode, default_config}
use serial_hub.Serial.Manager.{is_connected, update_config, connect, Manager, disconnect}
use serial_hub.Tests.Managers.{linked, driver}
use serial_hub.Tools.{
  ConnectInput, connected_as, execute_serial_connect, Wait, tick, ReadInput, execute_serial_read,
  read_bytes,
}
use serial_hub.Tools.Connecting.{alone, IsTrue, execute_serial_connect-IsTrue}
use serial_hub.Tools.Reading.{IsFairIfAny, execute_serial_read-IsFair}

abbrev free : Manager
unfolding disconnect
free = disconnect linked

abbrev to_usb1 : ConnectInput
to_usb1 = record { port = codes "ttyUSB1"; baud_rate = pos 9600 }

abbrev slower : ConnectInput
slower = record { port = codes "ttyUSB1"; baud_rate = pos 300 }

connects :
    (execute_serial_connect driver alone free to_usb1).1 ≡ connected_as (codes "ttyUSB1") (pos 9600)
unfolding execute_serial_connect is_connected free update_config connect to_mode default_config
    bytes_eq
connects = refl

execute_serial_connect-IsTrue_example :
    IsTrue (codes "ttyUSB1") (execute_serial_connect driver alone free to_usb1)
execute_serial_connect-IsTrue_example = execute_serial_connect-IsTrue driver free to_usb1

abbrev no_data : DataBuffer ℕ
no_data = record { buffer = []; max_size = 64; observers = []; next_obs_id = 0 }

abbrev waits : List Wait
waits =
    record { chunk = []; wake = tick; taken = false }
    ∷ record { chunk = codes "hi"; wake = tick; taken = false }
    ∷ []

abbrev read_input : ReadInput
read_input = record { timeout = none; max_size = pos 0 }

reads : (execute_serial_read read_input false waits (no_data, 0)).1 ≡ some (read_bytes (codes "hi"))
unfolding execute_serial_read buffered append kept read read_size
reads = refl

execute_serial_read-IsFair_example :
    IsFairIfAny (execute_serial_read read_input false waits (no_data, 0))
execute_serial_read-IsFair_example = execute_serial_read-IsFair read_input false waits (no_data, 0)
