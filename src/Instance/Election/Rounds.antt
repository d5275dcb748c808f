-- ===== src/Instance/Election/Rounds.antt =====
-- How many rounds an election takes (cmd/serialhub/serve.go).
use serial_hub.Instance.Election.{
  ProxyExitReason, max_stdio_takeovers, max_wait_ready_waits, TakeoverBudget, new_budget, Exit,
  classify, Bid, Round, proxy_to_master, Next, after_triage, after_proxy, proxy_round, wait_round,
  bid_round, stdio_round, stdio_next, run_stdio, stdio_closed, master_lost, won, beaten, failed,
  again, exit,
}
use serial_hub.Instance.Lock.{LockInfo}
use serial_hub.Prelude.{
  ℕ, ◌+◌, ◌*◌, ◌≤◌, ◌<◌, ◌≡◌, refl, inl, inr, true, Option, none, some, List, [], ◌∷◌, arith,
  Bool-cases, Option-cases, length, All, ℤ, is_positive,
}

-- The look after a session tells: the lock is free, or its metadata has a port.
abbrev pub IsTelling : Round → Type 0
IsTelling r = (i : LockInfo) → r.look ≡ some i → is_positive i.port ≡ true

abbrev IsWithin : TakeoverBudget → Type 0
IsWithin b = (b.takeovers ≤ max_stdio_takeovers) × (b.wait_ready_waits ≤ max_wait_ready_waits)

abbrev spent : TakeoverBudget → ℕ
spent b = 4 * b.takeovers + b.wait_ready_waits

-- What a round does to the budget: the process leaves, or the budget shrinks.
Shrinks : TakeoverBudget → TakeoverBudget × Next → Type 0
Shrinks b (b', exit e) = Unit
Shrinks b (b', again) = (spent b < spent b') × IsWithin b'

classify-Shrinks :
    (look : Option LockInfo) (b : TakeoverBudget)
    → ((i : LockInfo) → look ≡ some i → is_positive i.port ≡ true)
    → IsWithin b
    → Shrinks b (after_triage (classify look b))
unfolding classify Shrinks
classify-Shrinks none b t w = ground arith
classify-Shrinks (some i) b t w = rw (t i refl) (ground arith)

module _ (r : Round) (t : IsTelling r) (b : TakeoverBudget) (w : IsWithin b) where
  after_proxy-Shrinks : (reason : ProxyExitReason) → Shrinks b (after_proxy r b reason)
  unfolding Shrinks
  after_proxy-Shrinks stdio_closed = tt
  after_proxy-Shrinks master_lost = classify-Shrinks r.look b t w

  proxy_round-Shrinks : (i : LockInfo) → Shrinks b (proxy_round r i b).1
  unfolding proxy_round
  proxy_round-Shrinks i = after_proxy-Shrinks (proxy_to_master r)

  wait_round-Shrinks : (last : Option LockInfo) → Shrinks b (wait_round r last b).1
  unfolding Shrinks proxy_round
  wait_round-Shrinks last = elim (Option-cases r.waited) [
    | inl e ↦ rw e tt
    | inr (i, e) ↦ rw e (proxy_round-Shrinks i)
  ]

  bid_round-Shrinks :
      (own : ℤ) (last : Option LockInfo) (bid : Bid) → Shrinks b (bid_round r own last b bid).1
  unfolding Shrinks
  bid_round-Shrinks own last won = tt
  bid_round-Shrinks own last (beaten i) = wait_round-Shrinks last
  bid_round-Shrinks own last failed = tt

  stdio_round-Shrinks : (own : ℤ) (last : Option LockInfo) → Shrinks b (stdio_round own r last b).1
  unfolding stdio_round
  stdio_round-Shrinks own last = elim (Option-cases r.found) [
    | inl e ↦ rw e (bid_round-Shrinks own last r.bid)
    | inr (i, e) ↦ elim (Bool-cases (is_positive i.port)) [
      | inl f ↦ rw (e, f) (proxy_round-Shrinks i)
      | inr f ↦ rw (e, f) (wait_round-Shrinks last)
    ]
  ]

stdio_next-Leaves :
    (b : TakeoverBudget) (rest : Option LockInfo → TakeoverBudget → Option Exit)
    (x : Option LockInfo × (TakeoverBudget × Next))
    → Shrinks b x.1
    → ((last : Option LockInfo) (b' : TakeoverBudget)
        → IsWithin b'
        → spent b < spent b'
        → (e : Exit) × (rest last b' ≡ some e))
    → (e : Exit) × (stdio_next rest x ≡ some e)
unfolding Shrinks
stdio_next-Leaves b rest (last, (b', again)) s f = f last b' s.1 s.0
stdio_next-Leaves b rest (last, (b', exit e)) s f = (e, refl)

run_stdio-Leaves :
    (own : ℤ) (rounds : List Round) (last : Option LockInfo) (b : TakeoverBudget)
    → All IsTelling rounds
    → IsWithin b
    → 24 ≤ length rounds + spent b
    → (e : Exit) × (run_stdio own rounds last b ≡ some e)
unfolding run_stdio
run_stdio-Leaves own [] last b t w h = absurd (omega arith)
run_stdio-Leaves own (r ∷ rounds) last b t w h =
    stdio_next-Leaves b (run_stdio own rounds) (stdio_round own r last b)
      (stdio_round-Shrinks r t.0 b w own last)
      (λ last' b' w' less. run_stdio-Leaves own rounds last' b' t.1 w' (omega arith))

-- A stdio process does not swing between proxy and bids for ever: if the look after each session
-- shows a free lock or metadata with a port, 24 rounds are enough for it to leave, as the master, as
-- a proxy whose client went away, or by giving up.
pub run_stdio-leaves :
    (own : ℤ) (rounds : List Round)
    → All IsTelling rounds
    → 24 ≤ length rounds
    → (e : Exit) × (run_stdio own rounds none new_budget ≡ some e)
run_stdio-leaves own rounds t h =
    run_stdio-Leaves own rounds none new_budget t (omega arith, omega arith) (omega arith)

-- A session with a live master was lost, and the master is found alive afterwards.
pub record IsLiveLoss (r : Round) : Type 0 where
  pub master : LockInfo
  pub found : r.found ≡ some master
  pub known : is_positive master.port ≡ true
  pub session : r.session ≡ master_lost
  pub alive : LockInfo
  pub look : r.look ≡ some alive
  pub on_port : is_positive alive.port ≡ true
