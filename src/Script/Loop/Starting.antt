-- ===== src/Script/Loop/Starting.antt =====
-- A script that is accepted, from its start to its result (pkg/mcp/tools/serial_script.go).
use mathlib.Core.Path.{subst}
use serial_hub.Prelude.{
  ℕ, suc, ◌≤◌, ◌≡◌, refl, sym, List, [], ◌∷◌, Bool, true, Option, arith, ltb, All, ok, err, Bytes,
  ok-bind, ok-fail_if, ok_inj, is_empty,
}
use serial_hub.Serial.Manager.{Manager, is_connected}
use serial_hub.Script.{
  World, MatchRule, MatchState, Regexp, ScriptInput, ScriptLimits, pattern_empty,
}
use serial_hub.Script.Schedule.{
  compile_rules, compiled, rule_delay, new_state, check_input, make_schedule,
}
use serial_hub.Script.Matching.{Plan, Progress, look}
use serial_hub.Script.Matching.Scans.{limit, IsCounted, total_fired}
use serial_hub.Script.Matching.Counts.{IsAccounted}
use serial_hub.Script.Loop.{ToolResult, run, start_script, first_progress}
use serial_hub.Script.Matching.Sending.{IsSent}
use serial_hub.Script.Loop.Ending.{run_returns}

-- No rule has fired.
AreFresh : List MatchState → Type 0
AreFresh sts = All IsCounted sts × (total_fired sts ≡ 0)

new_state-IsCounted : (m : MatchRule) (re : Regexp) (d : ℕ) → IsCounted (new_state m re d)
unfolding limit
new_state-IsCounted m re d = ground arith

compile_rules-AreFresh :
    (compile : Bytes → Option Regexp) (i : ℕ) (ms : List MatchRule) (sts : List MatchState)
    → compile_rules compile i ms ≡ ok sts
    → AreFresh sts
unfolding compile_rules AreFresh total_fired
compile_rules-AreFresh compile i [] sts h = rw (sym (ok_inj _ sts h)) (tt, refl)
compile_rules-AreFresh compile i (m ∷ ms) sts h =
    let (e, h₁) = ok-fail_if (is_empty m.pattern) (pattern_empty i) _ sts h in
    let (re, c, h₂) = ok-bind (compiled i (compile m.pattern)) _ sts h₁ in
    let (d, r, h₃) = ok-bind (rule_delay i m.delay_ms) _ sts h₂ in
    let (rest, k, h₄) = ok-bind (compile_rules compile (suc i) ms) _ sts h₃ in
    let (all, none_fired) = compile_rules-AreFresh compile (suc i) ms rest k in
    rw (sym (ok_inj _ sts h₄)) ((new_state-IsCounted m re d, all), omega arith)

begun-IsAccounted :
    (w : World) (m : Manager) (sts : List MatchState)
    → AreFresh sts
    → IsAccounted (look w (look w (first_progress m sts 0)))
unfolding look IsAccounted AreFresh
begun-IsAccounted w m sts (c, z) = (omega arith, refl, c)

begun-IsSent :
    (w : World) (m : Manager) (sts : List MatchState)
    → AreFresh sts
    → IsSent (look w (look w (first_progress m sts 0)))
unfolding look IsSent AreFresh
begun-IsSent w m sts (c, z) = omega arith

module _ (w : World) (compile : Bytes → Option Regexp) (input : ScriptInput) (limits : ScriptLimits)
    (running : Bool) (m : Manager) (plan : Plan) (s : Progress)
    (started : start_script w compile input limits running m ≡ ok (plan, s)) where
  start_script-IsBegun : IsAccounted s × IsSent s
  unfolding start_script
  start_script-IsBegun =
      let (u, c, h₁) =
        ok-bind (check_input input limits running (is_connected m)) _ (plan, s) started in
      let (sts, k, h₂) = ok-bind (compile_rules compile 0 input.matches) _ (plan, s) h₁ in
      let (schedule, e, h₃) = ok-bind (make_schedule input.writes) _ (plan, s) h₂ in
      let pair = ok_inj _ (plan, s) h₃ in
      let fresh = compile_rules-AreFresh compile 0 input.matches sts k in
      subst (λ (p : Plan × Progress). IsAccounted p.1 × IsSent p.1) pair
        (begun-IsAccounted w m sts fresh, begun-IsSent w m sts fresh)

  -- If from the N-th look at the world on the clock is past the deadline, a script that is accepted
  -- returns a result after at most N + 1 rounds, whatever arrives and whatever other goroutines do.
  pub start_script-returns :
      (N : ℕ)
      → ((k : ℕ) → N ≤ k → ltb plan.deadline (w.now k) ≡ true)
      → (r : ToolResult) × (run w plan (suc N) s ≡ err r)
  start_script-returns N past = run_returns w plan N s start_script-IsBegun.0 past
