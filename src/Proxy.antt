-- ===== src/Proxy.antt =====
-- pkg/mcp/proxy.go: the process between an MCP client on stdio and a master. `RunStdioProxy` has two
-- forwarders and a probe of the master's health, each a goroutine whose calls are the steps, and
-- ends with the first result that one of them sends. What the connections return, and what the SDK
-- decodes, are parameters.
pub mod Sessions
pub mod Results
pub mod Downlink
use serial_hub.Prelude.{
  ℕ, suc, ◌+◌, [], ◌∷◌, ◌++◌, List, Bool, true, false, ◌&&◌, ◌||◌, not, Option, none, some, Bytes,
  codes, bytes_eq, is_empty, ltb, leb, if◌then◌else◌,
}
use serial_hub.Instance.Election.{ProxyExitReason, stdio_closed, master_lost}

-- A message of jsonrpc: a request or notification, or a response with its number.
pub data RpcMessage : Type 0 where
  request : Bytes → Bytes → RpcMessage
  response : ℕ → RpcMessage

-- `ServerSessionState`.
pub record SessionState : Type 0 where
  pub initialize_params : Option Bytes
  pub initialized_params : Option Bytes
  pub log_level : Option Bytes

-- `json.Unmarshal` into the parameters of these methods; the value is known by its text.
pub record Decoder : Type 0 where
  pub initialize : Bytes → Option Bytes
  pub initialized : Bytes → Option Bytes
  pub set_level : Bytes → Option Bytes

abbrev pub new_session : SessionState
new_session = record { initialize_params = none; initialized_params = none; log_level = none }

abbrev pub or_old : Option Bytes → Option Bytes → Option Bytes
or_old none old = old
or_old (some x) old = some x

-- `sessionStateTracker.record`. Parameters that do not decode change nothing.
unfoldable pub track : Decoder → SessionState → RpcMessage → SessionState
track d s (response n) = s
track d s (request method params) =
    if bytes_eq method (codes "initialize")
    then record s { initialize_params = or_old (d.initialize params) s.initialize_params }
    else if bytes_eq method (codes "notifications/initialized")
    then record s {
      initialized_params =
          if is_empty params then some [] else or_old (d.initialized params) s.initialized_params;
    }
    else if bytes_eq method (codes "logging/setLevel")
    then record s { log_level = or_old (d.set_level params) s.log_level }
    else s

-- Why a call on the connection to the client fails: the client closed it, or another error.
pub data StdioError : Type 0 where
  gone other : StdioError

-- `stdioGone` and `stdioChannelClosed`.
abbrev pub stdio_gone : StdioError → Bool
stdio_gone gone = true
stdio_gone other = false

abbrev pub stdio_channel_closed : Bool → StdioError → Bool
stdio_channel_closed cancelled e = stdio_gone e || cancelled

-- `proxyResult`: the reason, and whether there is an error.
pub record ProxyResult : Type 0 where
  pub reason : ProxyExitReason
  pub failed : Bool

-- `StdioHandoff`; the connection goes with it.
pub record StdioHandoff : Type 0 where
  pub state : SessionState
  pub pending : Option RpcMessage
  pub undelivered : Option RpcMessage

-- Where a forwarder stands: before the replay, before a read, before a write, or at its end.
pub data Forwarder : Type 0 where
  replaying : RpcMessage → Forwarder
  reading : Forwarder
  writing : RpcMessage → Forwarder
  ended : Forwarder

-- The probe with its failures in a row, or at its end.
pub data Probe : Type 0 where
  probing : ℕ → Probe
  probed : Probe

-- The variables of `RunStdioProxy`, what has come out of each connection and what has been accepted
-- by it, in order, and the results on `errCh`, oldest first. `resent` is what the start of the session
-- wrote to the master.
pub record Proxy : Type 0 where
  pub state : SessionState
  pub pending : Option RpcMessage
  pub undelivered : Option RpcMessage
  pub client_gone : Bool
  pub inner_cancelled : Bool
  pub uplink : Forwarder
  pub downlink : Forwarder
  pub probe : Probe
  pub resent : List RpcMessage
  pub from_client : List RpcMessage
  pub to_master : List RpcMessage
  pub from_master : List RpcMessage
  pub to_client : List RpcMessage
  pub results : List ProxyResult

abbrev pub master_probe_failures : ℕ
master_probe_failures = 2

abbrev pub err_ch_size : ℕ
err_ch_size = 4

abbrev pub no_handoff : StdioHandoff
no_handoff = record { state = new_session; pending = none; undelivered = none }

abbrev pub snapshot_handoff : Proxy → StdioHandoff
snapshot_handoff s = record { state = s.state; pending = s.pending; undelivered = s.undelivered }

abbrev replay_of : Option RpcMessage → Forwarder
replay_of none = reading
replay_of (some m) = replaying m

abbrev pub sent_first : Option RpcMessage → List RpcMessage
sent_first none = []
sent_first (some m) = m ∷ []

-- `RunStdioProxy` up to its goroutines, on a connection to the master. A response that an earlier
-- session has not delivered is written to the master here.
unfoldable pub start : StdioHandoff → Proxy
start h = record {
  state = h.state;
  pending = h.pending;
  undelivered = none;
  client_gone = false;
  inner_cancelled = false;
  uplink = replay_of h.pending;
  downlink = reading;
  probe = probing 0;
  resent = sent_first h.undelivered;
  from_client = [];
  to_master = [];
  from_master = [];
  to_client = [];
  results = [];
}

-- How the start ends where it does not come to the goroutines: the client's connection or the
-- master's fails, or the master refuses the response.
pub data Opening : Type 0 where
  opened no_stdio no_master refused : Opening

abbrev pub refuses : Option RpcMessage → Bool → Bool
refuses none accepted = false
refuses (some m) accepted = not accepted

unfoldable pub open_session : StdioHandoff → Bool → Bool → Bool → Opening
open_session h stdio_ok master_ok accepted =
    if not stdio_ok
    then no_stdio
    else if not master_ok
    then no_master
    else if refuses h.undelivered accepted
    then refused
    else opened

abbrev pub send : Proxy → ProxyResult → Proxy
send s r = record s { results = s.results ++ r ∷ [] }

abbrev pub lost : ProxyResult
lost = record { reason = master_lost; failed = true }

-- The result of a forwarder whose call on the client's connection failed.
abbrev pub closed : Bool → StdioError → ProxyResult
closed cancelled e = record {
  reason = stdio_closed;
  failed = not (stdio_channel_closed cancelled e);
}

abbrev pub mark_gone : Proxy → StdioError → Proxy
mark_gone s e = record s { client_gone = stdio_gone e || s.client_gone }

-- The write of the message that was pending.
unfoldable pub replay : Decoder → Proxy → RpcMessage → Bool → Proxy
unfolding track
replay d s m false = record (send s lost) { uplink = ended }
replay d s m true = record s {
  state = track d s.state m;
  pending = none;
  uplink = reading;
  to_master = s.to_master ++ m ∷ [];
}

-- `stdioConn.Read`.
unfoldable pub read_client : Proxy → StdioError → Proxy
read_client s e = record (send (mark_gone s e) (closed s.inner_cancelled e)) { uplink = ended }

abbrev pub got_client : Proxy → RpcMessage → Proxy
got_client s m = record s { uplink = writing m; from_client = s.from_client ++ m ∷ [] }

-- `clientConn.Write` of a message from the client.
unfoldable pub write_master : Decoder → Proxy → RpcMessage → Bool → Proxy
unfolding track
write_master d s m false = record (send s lost) { pending = some m; uplink = ended }
write_master d s m true = record s {
  state = track d s.state m;
  uplink = reading;
  to_master = s.to_master ++ m ∷ [];
}

-- `clientConn.Read`.
abbrev pub got_master : Proxy → RpcMessage → Proxy
got_master s m = record s { downlink = writing m; from_master = s.from_master ++ m ∷ [] }

abbrev pub read_master : Proxy → Proxy
read_master s = record (send s lost) { downlink = ended }

abbrev is_response : RpcMessage → Bool
is_response (request method params) = false
is_response (response n) = true

-- `stdioConn.Write` of a message from the master. Only a response is kept_response, where the proxy itself
-- was cancelled.
abbrev pub kept_response : Proxy → RpcMessage → StdioError → Option RpcMessage
kept_response s m e =
    if not (stdio_gone e) && s.inner_cancelled && is_response m then some m else s.undelivered

unfoldable pub write_client : Proxy → RpcMessage → Option StdioError → Proxy
write_client s m none = record s { downlink = reading; to_client = s.to_client ++ m ∷ [] }
write_client s m (some e) = record (send (mark_gone s e) (closed s.inner_cancelled e)) {
  undelivered = kept_response s m e;
  downlink = ended;
}

-- One answer of `/health`.
unfoldable pub check_health : Proxy → ℕ → Bool → Proxy
check_health s failures true = record s { probe = probing 0 }
check_health s failures false =
    if leb master_probe_failures (suc failures)
    then record (send s lost) { probe = probed }
    else record s { probe = probing (suc failures) }

-- What one goroutine, or the end of the session, does next. The probe ends by `innerCtx` as well.
pub data ProxyEvent : Type 0 where
  replays writes_master healthy : Bool → ProxyEvent
  client_says : RpcMessage → ProxyEvent
  client_fails : StdioError → ProxyEvent
  master_says : RpcMessage → ProxyEvent
  master_fails cancels probe_stops : ProxyEvent
  writes_client : Option StdioError → ProxyEvent

unfoldable pub up : Decoder → Forwarder → Proxy → ProxyEvent → Proxy
unfolding replay read_client write_master
up d (replaying m) s (replays accepted) = replay d s m accepted
up d reading s (client_says m) = got_client s m
up d reading s (client_fails e) = read_client s e
up d (writing m) s (writes_master accepted) = write_master d s m accepted
up d f s e = s

unfoldable pub down : Forwarder → Proxy → ProxyEvent → Proxy
unfolding write_client
down reading s (master_says m) = got_master s m
down reading s master_fails = read_master s
down (writing m) s (writes_client e) = write_client s m e
down f s e = s

unfoldable pub watch : Probe → Proxy → ProxyEvent → Proxy
unfolding check_health
watch (probing failures) s (healthy b) = check_health s failures b
watch (probing failures) s probe_stops =
    if s.inner_cancelled then record s { probe = probed } else s
watch p s e = s

-- One step. An event is of one goroutine, which ignores the others.
unfoldable pub step : Decoder → Proxy → ProxyEvent → Proxy
unfolding up down watch
step d s cancels = record s { inner_cancelled = true }
step d s (master_says m) = down s.downlink s (master_says m)
step d s master_fails = down s.downlink s master_fails
step d s (writes_client e) = down s.downlink s (writes_client e)
step d s (healthy b) = watch s.probe s (healthy b)
step d s probe_stops = watch s.probe s probe_stops
step d s e = up d s.uplink s e

unfoldable pub run : Decoder → Proxy → List ProxyEvent → Proxy
unfolding step
run d s [] = s
run d s (e ∷ events) = run d (step d s e) events

-- `resolveProxyExit`.
unfoldable pub resolve_proxy_exit : ProxyResult → Bool → ProxyResult
resolve_proxy_exit r client_gone =
    if client_gone then record { reason = stdio_closed; failed = false } else r

abbrev pub handoff_if_lost : Proxy → ProxyExitReason → Option StdioHandoff
handoff_if_lost s stdio_closed = none
handoff_if_lost s master_lost = some (snapshot_handoff s)

-- The end of a session after its forwarders: by the first result, or none where `ctx` is done.
unfoldable pub finish : Proxy → Option ProxyResult → ProxyResult × Option StdioHandoff
unfolding resolve_proxy_exit
finish s none = (record { reason = stdio_closed; failed = false }, none)
finish s (some r) = let r' = resolve_proxy_exit r s.client_gone in (r', handoff_if_lost s r'.reason)
