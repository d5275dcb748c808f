-- ===== src/Script/Matching/Counts.antt =====
-- The counters of a run and what they count (pkg/mcp/tools/serial_script.go).
use serial_hub.Prelude.{
  ◌+◌, ◌≤◌, ◌≡◌, List, [], ◌∷◌, Option, none, some, arith, length, Bool-cases, inl, inr, All,
  Option-cases,
}
use serial_hub.Script.{MatchState, World, InboxItem}
use serial_hub.Script.Matching.{
  Plan, Progress, Abort, trim_window, process_item, after_scan, receive, takes_part, process,
}
use serial_hub.Script.Matching.Scans.{IsCounted, total_fired, Adds, ScannedRules, scan_rules-counts}

-- The numbers that a run reports agree: each trigger is a timed write that was sent or a match that
-- was counted, what waits is what was queued less what was sent, and no rule fires too often.
unfoldable pub IsAccounted : Progress → Type 0
IsAccounted s =
    (length s.triggers ≡ s.sch_idx + total_fired s.states)
    × (s.delayed_queued ≡ s.delayed_fired + length s.delayed)
    × All IsCounted s.states

after_scan-IsAccounted :
    (s : Progress) (r : (Progress × List MatchState) × Option Abort)
    → IsAccounted s
    → ScannedRules s.states s r.0
    → IsAccounted (after_scan r).0
unfolding IsAccounted ScannedRules Adds trim_window
after_scan-IsAccounted s ((s', sts), none) (t, d, c) (k, (b₁, b₂, b₃, b₄)) =
    (omega arith, omega arith, k)
after_scan-IsAccounted s ((s', sts), some a) (t, d, c) (k, (b₁, b₂, b₃, b₄)) =
    (omega arith, omega arith, k)

process_item-IsAccounted :
    (w : World) (plan : Plan) (s : Progress) (i : InboxItem)
    → IsAccounted s
    → IsAccounted (process_item w plan s i).0
unfolding process_item receive IsAccounted
process_item-IsAccounted w plan s i (t, d, c) = elim (Bool-cases (takes_part plan i)) [
  | inl y ↦
      rw (process_item, y)
        (after_scan-IsAccounted (receive i.chunk s) _ (t, d, c)
          (scan_rules-counts w plan 0 s.states (receive i.chunk s) c))
  | inr n ↦ rw (process_item, n) (t, d, c)
]

pub process-IsAccounted :
    (w : World) (plan : Plan) (s : Progress) (is : List InboxItem)
    → IsAccounted s
    → IsAccounted (process w plan s is).0
unfolding process
process-IsAccounted w plan s [] h = h
process-IsAccounted w plan s (i ∷ is) h =
    let one = process_item-IsAccounted w plan s i h in
    elim (Option-cases (process_item w plan s i).1) [
      | inl n ↦ rw (process, n) (process-IsAccounted w plan (process_item w plan s i).0 is one)
      | inr (a, n) ↦ rw (process, n) one
    ]

-- Processing looks at the world and never goes back.
after_scan-looks :
    (s : Progress) (r : (Progress × List MatchState) × Option Abort)
    → ScannedRules s.states s r.0
    → s.looks ≤ (after_scan r).0.looks
unfolding ScannedRules Adds trim_window
after_scan-looks s ((s', sts), none) (k, (b₁, b₂, b₃, b₄)) = b₄
after_scan-looks s ((s', sts), some a) (k, (b₁, b₂, b₃, b₄)) = b₄

process_item-looks :
    (w : World) (plan : Plan) (s : Progress) (i : InboxItem)
    → IsAccounted s
    → s.looks ≤ (process_item w plan s i).0.looks
unfolding process_item receive IsAccounted
process_item-looks w plan s i (t, d, c) = elim (Bool-cases (takes_part plan i)) [
  | inl y ↦
      rw (process_item, y)
        (after_scan-looks (receive i.chunk s) _
          (scan_rules-counts w plan 0 s.states (receive i.chunk s) c))
  | inr n ↦ rw (process_item, n) (omega arith)
]

pub process-looks :
    (w : World) (plan : Plan) (s : Progress) (is : List InboxItem)
    → IsAccounted s
    → s.looks ≤ (process w plan s is).0.looks
unfolding process
process-looks w plan s [] h = omega arith
process-looks w plan s (i ∷ is) h =
    let one = process_item-looks w plan s i h in
    let kept = process_item-IsAccounted w plan s i h in
    elim (Option-cases (process_item w plan s i).1) [
      | inl n ↦
          let rest = process-looks w plan (process_item w plan s i).0 is kept in
          rw (process, n) (omega arith)
      | inr (a, n) ↦ rw (process, n) one
    ]
