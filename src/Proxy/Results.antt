-- ===== src/Proxy/Results.antt =====
-- The results on `errCh` and the end of a session (pkg/mcp/proxy.go).
use serial_hub.Instance.Election.{stdio_closed}
use serial_hub.Proxy.{
  RpcMessage, Decoder, ProxyResult, StdioHandoff, Forwarder, Probe, Proxy, err_ch_size, start, lost,
  closed, ProxyEvent, up, down, watch, step, run, finish, gone, replaying, reading, writing, ended,
  probing, probed, replays, writes_master, healthy, client_says, client_fails, master_says,
  master_fails, cancels, probe_stops, writes_client,
}
use serial_hub.Prelude.{
  ℕ, ◌+◌, ◌≤◌, ◌<◌, ◌≡◌, refl, true, false, none, some, List, [], ◌∷◌, arith, length, length-append,
}

-- A goroutine that has ended has sent one result at most.
abbrev sent_by : Forwarder → ℕ
sent_by ended = 1
sent_by f = 0

abbrev sent_by_probe : Probe → ℕ
sent_by_probe probed = 1
sent_by_probe (probing n) = 0

-- Few results, and a client that was gone still is.
abbrev Follows : Proxy → Proxy → Type 0
Follows s s' =
    (length s'.results + (sent_by s.uplink + sent_by s.downlink + sent_by_probe s.probe)
      ≤ length s.results + (sent_by s'.uplink + sent_by s'.downlink + sent_by_probe s'.probe))
    × (s.client_gone ≡ true → s'.client_gone ≡ true)

stays : (s : Proxy) → Follows s s
stays s = (omega arith, λ g. g)

up-Follows :
    (d : Decoder) (f : Forwarder) (s : Proxy) (e : ProxyEvent)
    → s.uplink ≡ f
    → Follows s (up d f s e)
unfolding up
up-Follows d (replaying m) s (replays true) h = ground (arith, length-append s.results)
up-Follows d (replaying m) s (replays false) h = ground (arith, length-append s.results (lost ∷ []))
up-Follows d reading s (client_says m) h = ground arith
up-Follows d reading s (client_fails e) h =
    ground (arith, length-append s.results (closed s.inner_cancelled e ∷ []))
up-Follows d (writing m) s (writes_master true) h = ground arith
up-Follows d (writing m) s (writes_master false) h =
    ground (arith, length-append s.results (lost ∷ []))
up-Follows d f s e h = stays s

down-Follows :
    (f : Forwarder) (s : Proxy) (e : ProxyEvent) → s.downlink ≡ f → Follows s (down f s e)
unfolding down
down-Follows reading s (master_says m) h = ground arith
down-Follows reading s master_fails h = ground (arith, length-append s.results (lost ∷ []))
down-Follows (writing m) s (writes_client none) h = ground arith
down-Follows (writing m) s (writes_client (some x)) h =
    ground (arith, length-append s.results (closed s.inner_cancelled x ∷ []))
down-Follows f s e h = stays s

watch-Follows : (p : Probe) (s : Proxy) (e : ProxyEvent) → s.probe ≡ p → Follows s (watch p s e)
unfolding watch
watch-Follows (probing n) s (healthy true) h = ground arith
watch-Follows (probing n) s (healthy false) h = ground (arith, length-append s.results (lost ∷ []))
watch-Follows (probing n) s probe_stops h = ground arith
watch-Follows p s e h = stays s

step-Follows : (d : Decoder) (s : Proxy) (e : ProxyEvent) → Follows s (step d s e)
unfolding step
step-Follows d s cancels = (omega arith, λ g. g)
step-Follows d s (master_says m) = down-Follows s.downlink s (master_says m) refl
step-Follows d s master_fails = down-Follows s.downlink s master_fails refl
step-Follows d s (writes_client x) = down-Follows s.downlink s (writes_client x) refl
step-Follows d s (healthy b) = watch-Follows s.probe s (healthy b) refl
step-Follows d s probe_stops = watch-Follows s.probe s probe_stops refl
step-Follows d s e = up-Follows d s.uplink s e refl

run-Follows : (d : Decoder) (s : Proxy) (events : List ProxyEvent) → Follows s (run d s events)
unfolding run
run-Follows d s [] = stays s
run-Follows d s (e ∷ events) =
    let (few, still) = step-Follows d s e in
    let (later, after) = run-Follows d (step d s e) events in
    (omega (arith, few, later), λ g. after (still g))

sent-bound : (f : Forwarder) → sent_by f ≤ 1
sent-bound f = ground arith

sent_by_probe-bound : (p : Probe) → sent_by_probe p ≤ 1
sent_by_probe-bound p = ground arith

-- The channel of the results never fills up: whatever happens in a session, at most three of its
-- four places are taken, so that no goroutine blocks on it.
pub run_never_full :
    (d : Decoder) (h : StdioHandoff) (events : List ProxyEvent)
    → length (run d (start h) events).results < err_ch_size
unfolding start
run_never_full d h events =
    let s = run d (start h) events in
    omega (
      arith,
      (run-Follows d (start h) events).0,
      sent-bound s.uplink,
      sent-bound s.downlink,
      sent_by_probe-bound s.probe,
    )

-- The event by which a call on the client's connection shows that the client has closed it.
pub data ClientLeft (s : Proxy) : ProxyEvent → Type 0 where
  at_read : s.uplink ≡ reading → ClientLeft s (client_fails gone)
  at_write : (m : RpcMessage) → s.downlink ≡ writing m → ClientLeft s (writes_client (some gone))

ClientLeft-gone :
    (d : Decoder) (s : Proxy) {e : ProxyEvent} → ClientLeft s e → (step d s e).client_gone ≡ true
unfolding step up down
ClientLeft-gone d s (at_read h) = rw h refl
ClientLeft-gone d s (at_write m h) = rw h refl

finish_gone :
    (s : Proxy) (r : ProxyResult)
    → s.client_gone ≡ true
    → finish s (some r) ≡ (record { reason = stdio_closed; failed = false }, none)
unfolding finish
finish_gone s r h = ground (arith, h)

-- Once the client is found to have closed its end, the session ends as a normal exit with nothing to
-- hand over, whatever else happens before its end and whichever result came first, the loss of the
-- master included.
pub gone_wins :
    (d : Decoder) (s : Proxy) {e : ProxyEvent} (events : List ProxyEvent) (r : ProxyResult)
    → ClientLeft s e
    → finish (run d s (e ∷ events)) (some r)
      ≡ (record { reason = stdio_closed; failed = false }, none)
unfolding run
gone_wins d s {e} events r l =
    finish_gone (run d (step d s e) events) r
      ((run-Follows d (step d s e) events).1 (ClientLeft-gone d s l))
