-- ===== src/Proxy/Downlink.antt =====
-- What comes back to a client (pkg/mcp/proxy.go).
use mathlib.Core.Path.{subst}
use serial_hub.Proxy.{
  RpcMessage, Decoder, StdioHandoff, Forwarder, Probe, Proxy, sent_first, start, ProxyEvent, up,
  down, watch, step, run, replaying, reading, writing, probing, replays, writes_master, healthy,
  client_says, client_fails, master_says, master_fails, cancels, probe_stops, writes_client,
}
use serial_hub.Prelude.{
  ◌≤◌, ◌≡◌, refl, sym, ap, ◌∙◌, true, false, none, some, List, [], ◌∷◌, ◌++◌, append-nil, arith,
  length,
}

-- Of these messages of the master all but the last have reached the client, or all.
pub IsBehind : List RpcMessage → List RpcMessage → Type 0
IsBehind from_master to_client =
    (rest : List RpcMessage) × (from_master ≡ to_client ++ rest) × (length rest ≤ 1)

abbrev DownAt : Forwarder → List RpcMessage → List RpcMessage → Type 0
DownAt reading from_master to_client = from_master ≡ to_client
DownAt (writing m) from_master to_client = from_master ≡ to_client ++ m ∷ []
DownAt f from_master to_client = IsBehind from_master to_client

abbrev IsDown : Proxy → Type 0
IsDown s = DownAt s.downlink s.from_master s.to_client

DownAt-IsBehind : (f : Forwarder) (xs ys : List RpcMessage) → DownAt f xs ys → IsBehind xs ys
unfolding IsBehind
DownAt-IsBehind reading xs ys o = ([], o ∙ sym (append-nil ys), omega arith)
DownAt-IsBehind (writing m) xs ys o = (m ∷ [], o, omega arith)
DownAt-IsBehind f xs ys o = o

down-IsDown :
    (f : Forwarder) (s : Proxy) (e : ProxyEvent)
    → s.downlink ≡ f
    → DownAt f s.from_master s.to_client
    → IsDown (down f s e)
unfolding down IsBehind
down-IsDown reading s (master_says m) h o = ap (λ (ms : List RpcMessage). ms ++ m ∷ []) o
down-IsDown reading s master_fails h o = ([], o ∙ sym (append-nil s.to_client), omega arith)
down-IsDown (writing m) s (writes_client none) h o = o
down-IsDown (writing m) s (writes_client (some x)) h o = (m ∷ [], o, omega arith)
down-IsDown f s e h o = subst (λ g. DownAt g s.from_master s.to_client) (sym h) o

-- The steps of the others leave what is of the downlink.
record Same (s s' : Proxy) : Type 0 where
  downlink : s'.downlink ≡ s.downlink
  from_master : s'.from_master ≡ s.from_master
  to_client : s'.to_client ≡ s.to_client
  resent : s'.resent ≡ s.resent

up-Same : (d : Decoder) (f : Forwarder) (s : Proxy) (e : ProxyEvent) → Same s (up d f s e)
unfolding up
up-Same d (replaying m) s (replays true) = ground arith
up-Same d (replaying m) s (replays false) = ground arith
up-Same d reading s (client_says m) = ground arith
up-Same d reading s (client_fails e) = ground arith
up-Same d (writing m) s (writes_master true) = ground arith
up-Same d (writing m) s (writes_master false) = ground arith
up-Same d f s e = ground arith

watch-Same : (p : Probe) (s : Proxy) (e : ProxyEvent) → Same s (watch p s e)
unfolding watch
watch-Same (probing n) s (healthy true) = ground arith
watch-Same (probing n) s (healthy false) = ground arith
watch-Same (probing n) s probe_stops = ground arith
watch-Same p s e = ground arith

down-resent : (f : Forwarder) (s : Proxy) (e : ProxyEvent) → (down f s e).resent ≡ s.resent
unfolding down
down-resent reading s (master_says m) = refl
down-resent reading s master_fails = refl
down-resent (writing m) s (writes_client none) = refl
down-resent (writing m) s (writes_client (some x)) = refl
down-resent f s e = refl

abbrev Keeps : Proxy → Proxy → Type 0
Keeps s s' = IsDown s' × (s'.resent ≡ s.resent)

Same-Keeps : (s s' : Proxy) → Same s s' → IsDown s → Keeps s s'
Same-Keeps s s' k o = (rw (k.downlink, k.from_master, k.to_client) o, k.resent)

down-Keeps : (s : Proxy) (e : ProxyEvent) → IsDown s → Keeps s (down s.downlink s e)
down-Keeps s e o = (down-IsDown s.downlink s e refl o, down-resent s.downlink s e)

step-Keeps : (d : Decoder) (s : Proxy) (e : ProxyEvent) → IsDown s → Keeps s (step d s e)
unfolding step
step-Keeps d s cancels o = (o, refl)
step-Keeps d s (master_says m) o = down-Keeps s (master_says m) o
step-Keeps d s master_fails o = down-Keeps s master_fails o
step-Keeps d s (writes_client x) o = down-Keeps s (writes_client x) o
step-Keeps d s (healthy b) o = Same-Keeps s _ (watch-Same s.probe s (healthy b)) o
step-Keeps d s probe_stops o = Same-Keeps s _ (watch-Same s.probe s probe_stops) o
step-Keeps d s e o = Same-Keeps s _ (up-Same d s.uplink s e) o

run-Keeps :
    (d : Decoder) (s : Proxy) (events : List ProxyEvent) → IsDown s → Keeps s (run d s events)
unfolding run
run-Keeps d s [] o = (o, refl)
run-Keeps d s (e ∷ events) o =
    let (o', same) = step-Keeps d s e o in
    let (o'', later) = run-Keeps d (step d s e) events o' in (o'', later ∙ same)

-- What the client gets in a session is what the session has read from its master, in order, all but
-- the last message at most. A response that an earlier session left undelivered is not among it: it
-- is written to the new master.
pub run_downlink :
    (d : Decoder) (h : StdioHandoff) (events : List ProxyEvent)
    → let s = run d (start h) events in
      IsBehind s.from_master s.to_client × (s.resent ≡ sent_first h.undelivered)
unfolding start
run_downlink d h events =
    let s = run d (start h) events in
    let (o, same) = run-Keeps d (start h) events refl in
    (DownAt-IsBehind s.downlink s.from_master s.to_client o, same)
