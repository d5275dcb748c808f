-- ===== src/Web.antt =====
-- pkg/web/server.go and pkg/web/client.go: the clients of the Web terminal, their bounded queues, and
-- what becomes of the messages they send. Channels are lists, oldest first; a send on a full channel
-- is dropped. The map of clients is a list, in any order. The frames and pings of WebSocket are a
-- third-party package's.
pub mod Commands
pub mod Delivery
pub mod Routing
use serial_hub.Prelude.{
  ℕ, suc, ◌+◌, [], ◌∷◌, ◌++◌, List, Bool, true, false, ◌&&◌, ◌||◌, not, Option, none, some, Bytes,
  codes, bytes_eq, is_empty, ltb, ◌==◌, if◌then◌else◌, length, ℤ, pos, ltb_ℤ, Result, ok, err,
  is_negative,
}

-- `WebSocketClient`.
pub record Client : Type 0 where
  pub id : ℕ
  pub write_chan : List Bytes
  pub closed : Bool

-- `WebSocketServer`.
pub record Server : Type 0 where
  pub clients : List Client
  pub data_chan : List Bytes
  pub cmd_chan : List Bytes
  pub takeover_notice : Bool
  pub stopped : Bool

abbrev pub write_chan_size : ℕ
write_chan_size = 256

abbrev pub web_data_chan_size : ℕ
web_data_chan_size = 256

abbrev pub cmd_chan_size : ℕ
cmd_chan_size = 64

-- `NewWebSocketServer`: an error is the port's.
unfoldable pub new_server : ℤ → Result ℤ Server
new_server port =
    if is_negative port || ltb_ℤ (pos 65535) port
    then err port
    else ok (record {
      clients = [];
      data_chan = [];
      cmd_chan = [];
      takeover_notice = false;
      stopped = false;
    })

-- `url.Parse` of an origin: its scheme and host.
pub record Url : Type 0 where
  pub scheme : Bytes
  pub host : Bytes

abbrev pub same_host : Bytes → Option Url → Bool
same_host host none = false
same_host host (some u) =
    if is_empty u.scheme || is_empty u.host then false else bytes_eq u.host host

-- `checkOrigin` of a request to a host.
unfoldable pub check_origin : (Bytes → Option Url) → Bytes → Bytes → Bool
check_origin parse origin host = if is_empty origin then true else same_host host (parse origin)

-- `WebSocketClient.Send`.
unfoldable pub send_to_client : Client → Bytes → Client × Bool
send_to_client c chunk =
    if c.closed
    then (c, false)
    else if ltb (length c.write_chan) write_chan_size
    then (record c { write_chan = c.write_chan ++ chunk ∷ [] }, true)
    else (c, false)

abbrev pub count_sent : Client × Bool → List Client × ℕ → List Client × ℕ
count_sent (c, true) (cs, n) = (c ∷ cs, suc n)
count_sent (c, false) (cs, n) = (c ∷ cs, n)

unfoldable pub send_all : List Client → Bytes → List Client × ℕ
unfolding send_to_client
send_all [] chunk = ([], 0)
send_all (c ∷ cs) chunk = count_sent (send_to_client c chunk) (send_all cs chunk)

-- `Broadcast`.
unfoldable pub broadcast_to : Server → Bytes → Server × ℕ
unfolding send_all
broadcast_to s chunk = let (cs, n) = send_all s.clients chunk in (record s { clients = cs }, n)

-- `WebSocketClient.Stop`, with what drains the queue.
abbrev pub stop_client : Client → Client
stop_client c = if c.closed then c else record c { write_chan = []; closed = true }

-- `WebSocketServer.Stop`; the clients that it closes are not kept.
unfoldable pub stop_server : Server → Server
stop_server s = record s { clients = []; stopped = true }

abbrev pub welcome : Bytes → Bytes
welcome info =
    codes "Connected to SerialHub"
    ++ (if is_empty info then [] else codes " - Serial: " ++ info)
    ++ b'\n' ∷ []

abbrev pub takeover_message : Bytes
takeover_message = codes "{\"type\":\"system_event\",\"data\":{\"code\":\"masterTakeover\"}}"

-- `HandleWebSocket` after the upgrade, for a new identifier and what `getSerialInfo` gives.
unfoldable pub handle_web_socket : Server → ℕ → Bytes → Server
unfolding send_to_client
handle_web_socket s id info =
    let c =
      (send_to_client (record { id = id; write_chan = []; closed = false }) (welcome info)).0 in
    let c' = if s.takeover_notice then (send_to_client c takeover_message).0 else c in
    record s { clients = c' ∷ s.clients }

unfoldable pub drop_client : List Client → ℕ → List Client
drop_client [] id = []
drop_client (c ∷ cs) id = if c.id == id then drop_client cs id else c ∷ drop_client cs id

-- `removeClient`.
unfoldable pub remove_client : Server → ℕ → Server
unfolding drop_client
remove_client s id = record s { clients = drop_client s.clients id }

-- `isCommand`, and `isJSON` for what is sent.
unfoldable pub is_command : Bytes → Bool
is_command [] = false
is_command (c ∷ s) = c == b'{'

-- A message read by `readLoop`.
unfoldable pub read_message : Server → Bytes → Server
unfolding is_command
read_message s message =
    if is_empty message
    then s
    else if is_command message
    then if ltb (length s.cmd_chan) cmd_chan_size
      then record s { cmd_chan = s.cmd_chan ++ message ∷ [] }
      else s
    else if ltb (length s.data_chan) web_data_chan_size
    then record s { data_chan = s.data_chan ++ message ∷ [] }
    else s

-- What the loops of all clients read, in the order in which it comes.
unfoldable pub read_messages : Server → List Bytes → Server
unfolding read_message
read_messages s [] = s
read_messages s (message ∷ messages) = read_messages (read_message s message) messages

-- The type of the frame in which `writeLoop` sends.
pub data FrameType : Type 0 where
  binary_message text_message : FrameType

unfoldable pub frame_type : Bytes → FrameType
unfolding is_command
frame_type chunk = if is_command chunk then text_message else binary_message
