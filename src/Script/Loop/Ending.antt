-- ===== src/Script/Loop/Ending.antt =====
-- The event loop past its deadline (pkg/mcp/tools/serial_script.go).
use serial_hub.Prelude.{ℕ, zero, suc, ◌+◌, ◌≤◌, ◌≡◌, refl, true, arith, ltb, ok, err}
use serial_hub.Script.{World}
use serial_hub.Script.Matching.{Plan, Progress}
use serial_hub.Script.Matching.Counts.{IsAccounted}
use serial_hub.Script.Loop.{ToolResult, Turn, before_deadline, round, run}
use serial_hub.Script.Loop.Rounds.{round-IsSound}
use serial_hub.Script.Loop.Looks.{Goes, Known, bind-Goes, known, to_deadline-Known, round-After}

abbrev Never : Progress → Type 0
Never s = ⊥

module _ (w : World) (plan : Plan) (N : ℕ)
    (past : (k : ℕ) → N ≤ k → ltb plan.deadline (w.now k) ≡ true) where
  before_deadline-Never : (s : Progress) → N ≤ s.looks → Goes Never (before_deadline w plan s)
  unfolding before_deadline
  before_deadline-Never s h = rw (before_deadline, past s.looks h) tt

  round-Never : (s : Progress) → Known N s → Goes Never (round w plan s)
  unfolding round
  round-Never s h = to_deadline-Known w plan N Never _ s h λ t (k, l).
      bind-Goes Never Never (before_deadline w plan t) _ (before_deadline-Never t (omega arith))
        λ t₁ e. absurd e

  run-Never :
      (m : ℕ) (s : Progress) → IsAccounted s → N ≤ s.looks + m → Goes Never (run w plan (suc m) s)
  unfolding run
  run-Never zero s h l =
      bind-Goes Never Never (round w plan s) _ (round-Never s (h, omega arith)) λ t e. absurd e
  run-Never (suc m) s h l =
      bind-Goes (Known (suc s.looks)) Never (round w plan s) _
        (known _ _ (round-IsSound w plan s h) (round-After w plan s.looks s (h, omega arith)))
        λ t (k, a). run-Never m t k (omega arith)

ended : (m : Turn) → Goes Never m → (r : ToolResult) × (m ≡ err r)
ended (ok s) h = absurd h
ended (err r) h = (r, refl)

-- If from the N-th look on the clock is past the deadline, the event loop returns a result after at
-- most N + 1 rounds, whatever arrives and whatever other goroutines do.
pub run_returns :
    (w : World) (plan : Plan) (N : ℕ) (s : Progress)
    → IsAccounted s
    → ((k : ℕ) → N ≤ k → ltb plan.deadline (w.now k) ≡ true)
    → (r : ToolResult) × (run w plan (suc N) s ≡ err r)
run_returns w plan N s h past = ended _ (run-Never w plan N past N s h (omega arith))
