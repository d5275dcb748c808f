-- ===== src/Instance/Election.antt =====
-- cmd/serialhub/serve.go: which process becomes the master, and the proxies that wait for it
-- (`runStdio`, `runMaster`, `takeoverBudget`), with `resolveListenPort`. What the calls of a round
-- return is a `Round`.
pub mod Rounds
pub mod Ports
use serial_hub.Prelude.{
  ℕ, zero, suc, ◌+◌, [], ◌∷◌, List, Bool, true, false, ◌&&◌, ◌||◌, not, Option, none, some, ltb,
  leb, if◌then◌else◌, ℤ, pos, is_positive, Result, ok, err,
}
use serial_hub.Instance.Lock.{LockInfo}

-- `ProxyExitReason`.
pub data ProxyExitReason : Type 0 where
  stdio_closed master_lost : ProxyExitReason

abbrev pub max_stdio_takeovers : ℕ
max_stdio_takeovers = 5

abbrev pub max_wait_ready_waits : ℕ
max_wait_ready_waits = 3

-- `takeoverBudget`.
pub record TakeoverBudget : Type 0 where
  pub takeovers : ℕ
  pub wait_ready_waits : ℕ

abbrev pub new_budget : TakeoverBudget
new_budget = record { takeovers = 0; wait_ready_waits = 0 }

-- How a process leaves: it was the master and stopped, its lock failed, its client went away, or it
-- gives up.
pub data Exit : Type 0 where
  served : ℤ → Exit
  lock_failed client_gone metadata_unavailable takeover_give_up : Exit

-- What `classify` decides: to look again, to give up, or to let the takeover pass.
pub data Triage : Type 0 where
  retry take_over : Triage
  give_up : Exit → Triage

abbrev pub count_wait : TakeoverBudget → TakeoverBudget × Triage
count_wait b =
    let b' = record b { wait_ready_waits = suc b.wait_ready_waits } in
    if ltb max_wait_ready_waits b'.wait_ready_waits
    then (b', give_up metadata_unavailable)
    else (b', retry)

abbrev pub count_takeover : TakeoverBudget → TakeoverBudget × Triage
count_takeover b =
    let b' : TakeoverBudget = record { takeovers = suc b.takeovers; wait_ready_waits = 0 } in
    if ltb max_stdio_takeovers b'.takeovers then (b', give_up takeover_give_up) else (b', take_over)

-- `takeoverBudget.classify`, given what `instance.Read` finds.
unfoldable pub classify : Option LockInfo → TakeoverBudget → TakeoverBudget × Triage
classify none b = count_takeover b
classify (some live) b = if is_positive live.port then count_wait b else (b, retry)

-- What a call of `instance.Acquire` and, if it succeeds, the whole service come to.
pub data Bid : Type 0 where
  won : Bid
  beaten : LockInfo → Bid
  failed : Bid

-- One round: what `Read` finds, what a bid for the lock comes to, what `WaitForInfo` finds, whether
-- the master got ready, how the session of the proxy ended, and what `Read` finds after it.
pub record Round : Type 0 where
  pub found : Option LockInfo
  pub bid : Bid
  pub waited : Option LockInfo
  pub ready : Bool
  pub session : ProxyExitReason
  pub look : Option LockInfo

-- `proxyToMaster`.
unfoldable pub proxy_to_master : Round → ProxyExitReason
proxy_to_master r = if not r.ready then master_lost else r.session

pub data Next : Type 0 where
  again : Next
  exit : Exit → Next

-- What comes after a session with the master.
abbrev pub after_triage : TakeoverBudget × Triage → TakeoverBudget × Next
after_triage (b, retry) = (b, again)
after_triage (b, take_over) = (b, again)
after_triage (b, give_up e) = (b, exit e)

abbrev pub after_proxy : Round → TakeoverBudget → ProxyExitReason → TakeoverBudget × Next
after_proxy r b stdio_closed = (b, exit client_gone)
after_proxy r b master_lost = after_triage (classify r.look b)

-- The part of a round that serves as a proxy. It remembers the master.
unfoldable pub proxy_round :
    Round → LockInfo → TakeoverBudget → Option LockInfo × (TakeoverBudget × Next)
unfolding proxy_to_master classify
proxy_round r master b = (some master, after_proxy r b (proxy_to_master r))

-- `WaitForInfo` before the session: without metadata the process leaves.
abbrev pub wait_round :
    Round → Option LockInfo → TakeoverBudget → Option LockInfo × (TakeoverBudget × Next)
wait_round r last b = elim r.waited [
  | none ↦ (last, (b, exit metadata_unavailable))
  | some live ↦ proxy_round r live b
]

-- The port to serve on: that of the last master, or the own one.
abbrev pub port_after : Option LockInfo → ℤ → ℤ
port_after none own = own
port_after (some last) own = if is_positive last.port then last.port else own

abbrev pub bid_round :
    Round → ℤ → Option LockInfo → TakeoverBudget → Bid → Option LockInfo × (TakeoverBudget × Next)
bid_round r own last b won = (last, (b, exit (served (port_after last own))))
bid_round r own last b (beaten i) = wait_round r last b
bid_round r own last b failed = (last, (b, exit lock_failed))

-- One pass through the loop of `runStdio`.
unfoldable pub stdio_round :
    ℤ → Round → Option LockInfo → TakeoverBudget → Option LockInfo × (TakeoverBudget × Next)
unfolding proxy_round
stdio_round own r last b = elim r.found [
  | none ↦ bid_round r own last b r.bid
  | some i ↦ if is_positive i.port then proxy_round r i b else wait_round r last b
]

-- One pass through the loop of `runMaster`, which remembers a port only.
unfoldable pub master_round : Round → ℤ → TakeoverBudget → ℤ × (TakeoverBudget × Next)
unfolding proxy_to_master classify
master_round r port b = elim r.bid [
  | won ↦ (port, (b, exit (served port)))
  | failed ↦ (port, (b, exit lock_failed))
  | beaten i ↦
      if is_positive i.port then (i.port, after_proxy r b (proxy_to_master r)) else elim r.waited [
        | none ↦ (port, (b, exit metadata_unavailable))
        | some live ↦ (live.port, after_proxy r b (proxy_to_master r))
      ]
]

-- The loops over given rounds: nothing, where the last of them goes on.
abbrev pub stdio_next :
    (Option LockInfo → TakeoverBudget → Option Exit)
    → Option LockInfo × (TakeoverBudget × Next)
    → Option Exit
stdio_next rest (last, (b, again)) = rest last b
stdio_next rest (last, (b, exit e)) = some e

unfoldable pub run_stdio : ℤ → List Round → Option LockInfo → TakeoverBudget → Option Exit
unfolding stdio_round
run_stdio own [] last b = none
run_stdio own (r ∷ rounds) last b = stdio_next (run_stdio own rounds) (stdio_round own r last b)

abbrev pub master_next :
    (ℤ → TakeoverBudget → Option Exit) → ℤ × (TakeoverBudget × Next) → Option Exit
master_next rest (port, (b, again)) = rest port b
master_next rest (port, (b, exit e)) = some e

unfoldable pub run_master : List Round → ℤ → TakeoverBudget → Option Exit
unfolding master_round
run_master [] port b = none
run_master (r ∷ rounds) port b = master_next (run_master rounds) (master_round r port b)

-- `net.Listen`: it succeeds, the address is in use, or it fails in another way.
pub data Listen : Type 0 where
  free in_use broken : Listen

pub data ListenError : Type 0 where
  listen_failed : ℕ → ListenError
  ports_occupied : ListenError

abbrev pub max_port_fallback : ℕ
max_port_fallback = 10

abbrev pub after_listen : ℕ → Result ListenError ℕ → Listen → Result ListenError ℕ
after_listen n rest free = ok n
after_listen n rest in_use = rest
after_listen n rest broken = err (listen_failed n)

-- `resolveListenPort`, from the port `n` on with so many tries left.
unfoldable pub try_ports : (ℕ → Listen) → ℕ → ℕ → Result ListenError ℕ
try_ports listen zero n = err ports_occupied
try_ports listen (suc tries) n = after_listen n (try_ports listen tries (n + 1)) (listen n)

unfoldable pub resolve_listen_port : (ℕ → Listen) → ℕ → Result ListenError ℕ
unfolding try_ports
resolve_listen_port listen start_port = try_ports listen (max_port_fallback + 1) start_port
