-- ===== src/Tests/Webs.antt =====
-- pkg/web and cmd/serialhub/command_handler.go on concrete input.
use serial_hub.Buffer.{DataBuffer}
use serial_hub.Prelude.{
  ◌≡◌, refl, true, false, Option, none, some, List, [], ◌∷◌, map, arith, ltb, if◌then◌else◌, length,
  All, Bytes, codes, bytes_eq,
}
use serial_hub.Web.{
  Client, Server, check_origin, send_to_client, send_all, broadcast_to, is_command, read_messages,
}
use serial_hub.Web.Delivery.{reached, count_ready, IsWithin, broadcast_to_lem}

abbrev open_client : Client
open_client = record { id = 1; write_chan = codes "hello" ∷ []; closed = false }

abbrev gone_client : Client
gone_client = record { id = 2; write_chan = []; closed = true }

abbrev server : Server
server = record {
  clients = open_client ∷ gone_client ∷ [];
  data_chan = [];
  cmd_chan = [];
  takeover_notice = false;
  stopped = false;
}

one_delivery : (broadcast_to server (codes "x")).1 ≡ 1
unfolding broadcast_to send_all send_to_client
one_delivery = refl

no_origin : check_origin (λ s. none) [] (codes "localhost") ≡ true
unfolding check_origin
no_origin = refl

foreign_origin :
    check_origin
      (λ s. some (record { scheme = codes "http"; host = s }))
      (codes "elsewhere")
      (codes "localhost")
    ≡ false
unfolding check_origin bytes_eq
foreign_origin = refl

server-IsWithin : All IsWithin server.clients
server-IsWithin = (ground arith, (ground arith, tt))

broadcast_to_lem_example :
    let (t, n) = broadcast_to server (codes "x") in
    (t ≡ record server { clients = map (reached (codes "x")) server.clients })
    × (n ≡ count_ready server.clients)
    × All IsWithin t.clients
broadcast_to_lem_example = broadcast_to_lem server (codes "x") server-IsWithin

-- What is typed, with a brace and a command between.
abbrev messages : List Bytes
messages = codes "ls" ∷ codes "{" ∷ codes "{\"type\":\"get_ports\"}" ∷ codes "cd" ∷ []

abbrev buffer : DataBuffer Unit
buffer = record { buffer = []; max_size = 64; observers = []; next_obs_id = 0 }

abbrev handler : Bytes → Option Bytes
handler cmd = if ltb (length cmd) 2 then none else some (codes "ports")

routed : (read_messages server messages).data_chan ≡ codes "ls" ∷ codes "cd" ∷ []
unfolding read_messages is_command
routed = refl
