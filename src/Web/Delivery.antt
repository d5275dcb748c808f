-- ===== src/Web/Delivery.antt =====
-- What the terminals get (pkg/web/server.go).
use serial_hub.Web.{
  Client, Server, write_chan_size, send_to_client, count_sent, send_all, broadcast_to,
}
use serial_hub.Prelude.{
  ℕ, suc, ◌≤◌, ◌≡◌, refl, Bool, true, false, not, ◌&&◌, List, [], ◌∷◌, ◌++◌, map, arith, ltb,
  if◌then◌else◌, length, All, length-append, Bytes,
}

-- A client that gets the next chunk: it is open and has room.
abbrev pub ready : Client → Bool
ready c = not c.closed && ltb (length c.write_chan) write_chan_size

-- What a broadcast makes of the clients, one by one.
abbrev pub reached : Bytes → Client → Client
reached chunk c = if ready c then record c { write_chan = c.write_chan ++ chunk ∷ [] } else c

abbrev pub count_ready : List Client → ℕ
count_ready [] = 0
count_ready (c ∷ cs) = if ready c then suc (count_ready cs) else count_ready cs

send_to_client_lem :
    (c : Client) (chunk : Bytes) → send_to_client c chunk ≡ (reached chunk c, ready c)
unfolding send_to_client
send_to_client_lem c chunk = ground arith

count_sent_lem :
    (c : Client) (b : Bool) (cs : List Client) (n : ℕ)
    → count_sent (c, b) (cs, n) ≡ (c ∷ cs, if b then suc n else n)
count_sent_lem c true cs n = refl
count_sent_lem c false cs n = refl

send_all_lem :
    (cs : List Client) (chunk : Bytes)
    → send_all cs chunk ≡ (map (reached chunk) cs, count_ready cs)
unfolding send_all
send_all_lem [] chunk = refl
send_all_lem (c ∷ cs) chunk =
    rw (send_to_client_lem c chunk, send_all_lem cs chunk)
      (count_sent_lem (reached chunk c) (ready c) (map (reached chunk) cs) (count_ready cs))

-- The queue of a client is not longer than its channel.
abbrev pub IsWithin : Client → Type 0
IsWithin c = length c.write_chan ≤ write_chan_size

reached-IsWithin : (chunk : Bytes) (c : Client) → IsWithin c → IsWithin (reached chunk c)
reached-IsWithin chunk c h = ground (arith, length-append c.write_chan (chunk ∷ []))

map-reached-IsWithin :
    (chunk : Bytes) (cs : List Client) → All IsWithin cs → All IsWithin (map (reached chunk) cs)
map-reached-IsWithin chunk [] h = tt
map-reached-IsWithin chunk (c ∷ cs) (h, hs) =
    (reached-IsWithin chunk c h, map-reached-IsWithin chunk cs hs)

-- A broadcast puts the chunk once, at the end, into the queue of every client that is open and has
-- room, and changes no other; its result is their number. No queue outgrows its channel.
pub broadcast_to_lem :
    (s : Server) (chunk : Bytes)
    → All IsWithin s.clients
    → let (t, n) = broadcast_to s chunk in
      (t ≡ record s { clients = map (reached chunk) s.clients })
      × (n ≡ count_ready s.clients)
      × All IsWithin t.clients
unfolding broadcast_to
broadcast_to_lem s chunk h =
    rw (send_all_lem s.clients chunk) (refl, refl, map-reached-IsWithin chunk s.clients h)
