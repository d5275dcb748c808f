-- ===== src/Script/Matching/Scanning.antt =====
-- What a script finds in the data that arrives (pkg/mcp/tools/serial_script.go, `process`).
use mathlib.Core.Path.{subst}
use serial_hub.Script.Matching.Window.{
  some≢none, scan_one-stored, scan_rule-stored, accepted, Holds, process_item-Holds, process_keeps,
}
use serial_hub.Prelude.{
  length-drop, ℕ, suc, ◌+◌, ◌-◌, ◌≤◌, ◌<◌, ◌≡◌, refl, sym, ap, ◌∙◌, ◌⊎◌, inl, inr, Bool, true,
  Option, none, some, List, [], ◌∷◌, ◌++◌, arith, if◌then◌else◌, Option-cases, if-cases, length,
  take_last, All, Bytes,
}
use serial_hub.Script.{MatchState, InboxItem, script_window_max, World}
use serial_hub.Script.Matching.{
  Abort, Plan, Progress, Verdict, delay_hit, write_hit, hit, scan_one, scan_locs, scan_rule,
  after_rule, scan_rules, receive, trim_window, takes_part, after_scan, process_item, process, next,
  leave, abort,
}

-- A match at this place has no width, or the rule has gone on behind its start.
abbrev pub IsPassed : ℕ → ℕ → ℕ × ℕ → Type 0
IsPassed abs_start scan_from loc = (loc.1 ≡ loc.0) ⊎ (abs_start + loc.0 < scan_from)

-- The places that a pattern gives do not end before they start.
abbrev pub IsPlace : ℕ × ℕ → Type 0
IsPlace loc = loc.0 ≤ loc.1

abbrev pub IsMatcher : MatchState → Type 0
IsMatcher st = (window : Bytes) → All IsPlace (st.re window)

All-IsPassed :
    (abs a b : ℕ) (locs : List (ℕ × ℕ))
    → a ≤ b
    → All (IsPassed abs a) locs
    → All (IsPassed abs b) locs
All-IsPassed abs a b [] h k = tt
All-IsPassed abs a b (loc ∷ locs) h (inl e, k) = (inl e, All-IsPassed abs a b locs h k)
All-IsPassed abs a b (loc ∷ locs) h (inr l, k) = (inr (omega arith), All-IsPassed abs a b locs h k)

module _ (w : World) (plan : Plan) (si : ℕ) where
  scan_one-re :
      (st : MatchState) (s : Progress) (loc : ℕ × ℕ) → (scan_one w plan si st s loc).0.1.re ≡ st.re
  unfolding scan_one hit delay_hit write_hit
  scan_one-re st s loc = ground arith

  scan_one-next :
      (st : MatchState) (s : Progress) (loc : ℕ × ℕ)
      → IsPlace loc
      → (scan_one w plan si st s loc).1 ≡ next
      → let st' = (scan_one w plan si st s loc).0.1 in
        IsPassed s.abs_start st'.scan_from loc × (st.scan_from ≤ st'.scan_from)
  unfolding scan_one hit delay_hit write_hit
  scan_one-next st s loc p h = ground arith

  scan_one-leave :
      (st : MatchState) (s : Progress) (loc : ℕ × ℕ)
      → (scan_one w plan si st s loc).1 ≡ leave
      → (scan_one w plan si st s loc).0.1.done ≡ true
  unfolding scan_one hit delay_hit write_hit
  scan_one-leave st s loc h = ground arith

  -- Where a scan goes from here.
  follow-cases :
      (Q : (Progress × MatchState) × Option Abort → Type 0) (v : Verdict)
      (r : Progress × MatchState) (rest : (Progress × MatchState) × Option Abort)
      → (v ≡ next → Q rest)
      → (v ≡ leave → Q (r, none))
      → ((a : Abort) → Q (r, some a))
      → Q (elim v as (λ x. (Progress × MatchState) × Option Abort) [
        | next ↦ rest
        | leave ↦ (r, none)
        | abort a ↦ (r, some a)
      ])
  follow-cases Q next r rest h k l = h refl
  follow-cases Q leave r rest h k l = k refl
  follow-cases Q (abort a) r rest h k l = l a

  scan_locs-re :
      (st : MatchState) (s : Progress) (locs : List (ℕ × ℕ))
      → (scan_locs w plan si st s locs).0.1.re ≡ st.re
  unfolding scan_locs
  scan_locs-re st s [] = refl
  scan_locs-re st s (loc ∷ locs) =
      let r = scan_one w plan si st s loc in
      let one = scan_one-re st s loc in
      follow-cases (λ q. q.0.1.re ≡ st.re) r.1 r.0 (scan_locs w plan si r.0.1 r.0.0 locs)
        (λ e. scan_locs-re r.0.1 r.0.0 locs ∙ one) (λ e. one) (λ a. one)

  -- A rule that is not done has passed all places.
  abbrev Passes : ℕ → ℕ → List (ℕ × ℕ) → (Progress × MatchState) × Option Abort → Type 0
  Passes abs from locs q =
      q.1 ≡ none
      → (q.0.1.done ≡ true) ⊎ (All (IsPassed abs q.0.1.scan_from) locs × (from ≤ q.0.1.scan_from))

  scan_locs-Passes :
      (abs : ℕ) (st : MatchState) (s : Progress) (locs : List (ℕ × ℕ))
      → s.abs_start ≡ abs
      → All IsPlace locs
      → Passes abs st.scan_from locs (scan_locs w plan si st s locs)
  unfolding scan_locs
  scan_locs-Passes abs st s [] a p = λ e. inr (tt, omega arith)
  scan_locs-Passes abs st s (loc ∷ locs) a (p, ps) =
      let r = scan_one w plan si st s loc in
      let here = ap (λ x. x.abs_start) (scan_one-stored w plan si st s loc) ∙ a in
      let rest = scan_locs w plan si r.0.1 r.0.0 locs in
      follow-cases (Passes abs st.scan_from (loc ∷ locs)) r.1 r.0 rest
        (λ v e.
          let (passed, more) = scan_one-next st s loc p v in
          elim (scan_locs-Passes abs r.0.1 r.0.0 locs here ps e) [
            | inl d ↦ inl d
            | inr (all, further) ↦
                let first =
                  All-IsPassed s.abs_start r.0.1.scan_from rest.0.1.scan_from (loc ∷ []) further
                    (passed, tt) in
                inr (
                  (subst (λ (x : ℕ). IsPassed x rest.0.1.scan_from loc) a first.0, all),
                  omega arith,
                )
          ])
        (λ v e. inl (scan_one-leave st s loc v)) (λ x e. absurd (some≢none e))

-- All matches in the window have been passed, where a rule is not done.
abbrev pub IsScanned : ℕ → Bytes → MatchState → Type 0
IsScanned abs_start window st =
    (st.done ≡ true) ⊎ All (IsPassed abs_start st.scan_from) (st.re window)

abbrev ScansRule : ℕ → Bytes → (Progress × MatchState) × Option Abort → Type 0
ScansRule abs window q = q.1 ≡ none → IsScanned abs window q.0.1

scan_rule-IsScanned :
    (w : World) (plan : Plan) (si : ℕ) (abs : ℕ) (window : Bytes) (st : MatchState) (s : Progress)
    → s.abs_start ≡ abs
    → s.window ≡ window
    → IsMatcher st
    → ScansRule abs window (scan_rule w plan si st s)
scan_rule-IsScanned w plan si abs window st s a e m =
    let q = scan_locs w plan si st s (st.re s.window) in
    let places =
      ap st.re e ∙ ap (λ f. f window) (sym (scan_locs-re w plan si st s (st.re s.window))) in
    if-cases (ScansRule abs window) st.done ((s, st), none) q (λ d x. inl d)
      (λ d x. elim (scan_locs-Passes w plan si abs st s (st.re s.window) a (m s.window) x) [
        | inl y ↦ inl y
        | inr (all, further) ↦
            inr
              (subst (λ (locs : List (ℕ × ℕ)). All (IsPassed abs q.0.1.scan_from) locs) places all)
      ])

abbrev ScansRules : ℕ → Bytes → (Progress × List MatchState) × Option Abort → Type 0
ScansRules abs window q = q.1 ≡ none → All (IsScanned abs window) q.0.1

after_rule-IsScanned :
    (abs : ℕ) (window : Bytes) (sts : List MatchState) (r : (Progress × MatchState) × Option Abort)
    (q : (Progress × List MatchState) × Option Abort)
    → ScansRule abs window r
    → ScansRules abs window q
    → ScansRules abs window (after_rule r sts q)
after_rule-IsScanned abs window sts ((s', st'), some a) q h k e = absurd (some≢none e)
after_rule-IsScanned abs window sts ((s', st'), none) ((s'', sts'), x) h k e = (h refl, k e)

scan_rules-IsScanned :
    (w : World) (plan : Plan) (si : ℕ) (abs : ℕ) (window : Bytes) (sts : List MatchState)
    (s : Progress)
    → s.abs_start ≡ abs
    → s.window ≡ window
    → All IsMatcher sts
    → ScansRules abs window (scan_rules w plan si sts s)
unfolding scan_rules
scan_rules-IsScanned w plan si abs window [] s a e m = λ x. tt
scan_rules-IsScanned w plan si abs window (st ∷ sts) s a e (m, ms) =
    let r = scan_rule w plan si st s in
    let kept = scan_rule-stored w plan si st s in
    after_rule-IsScanned abs window sts r (scan_rules w plan (suc si) sts r.0.0)
      (scan_rule-IsScanned w plan si abs window st s a e m)
      (scan_rules-IsScanned w plan (suc si) abs window sts r.0.0 (ap (λ x. x.abs_start) kept ∙ a)
        (ap (λ x. x.window) kept ∙ e) ms)

after_scan-IsScanned :
    (abs : ℕ) (window : Bytes) (r : (Progress × List MatchState) × Option Abort)
    → ScansRules abs window r
    → (after_scan r).1 ≡ none
    → All (IsScanned abs window) (after_scan r).0.states
unfolding trim_window
after_scan-IsScanned abs window ((s, sts), none) h e = h refl
after_scan-IsScanned abs window ((s, sts), some a) h e = absurd (some≢none e)

process_item-IsScanned :
    (w : World) (plan : Plan) (s : Progress) (i : InboxItem)
    → takes_part plan i ≡ true
    → All IsMatcher s.states
    → (process_item w plan s i).1 ≡ none
    → All (IsScanned s.abs_start (s.window ++ i.chunk)) (process_item w plan s i).0.states
unfolding process_item receive
process_item-IsScanned w plan s i t m =
    rw (process_item, t)
      (after_scan-IsScanned s.abs_start (s.window ++ i.chunk)
        (scan_rules w plan 0 s.states (receive i.chunk s))
        (scan_rules-IsScanned w plan 0 s.abs_start (s.window ++ i.chunk) s.states
          (receive i.chunk s) refl refl m))

-- The outcome of all items is that of the last one after the others.
process-last :
    (w : World) (plan : Plan) (s : Progress) (is : List InboxItem) (i : InboxItem)
    → (process w plan s (is ++ i ∷ [])).1 ≡ none
    → let t = (process w plan s is).0 in
      ((process w plan s is).1 ≡ none)
      × ((process_item w plan t i).1 ≡ none)
      × ((process w plan s (is ++ i ∷ [])).0 ≡ (process_item w plan t i).0)
unfolding process
process-last w plan s [] i e = elim (Option-cases (process_item w plan s i).1) [
  | inl n ↦ (refl, n, rw (process, n) refl)
  | inr (a, n) ↦
      let e' : (process_item w plan s i).1 ≡ none = rw (process, n) at e in
      absurd (some≢none (sym n ∙ e'))
]
process-last w plan s (j ∷ is) i e = elim (Option-cases (process_item w plan s j).1) [
  | inl n ↦
      let s' = (process_item w plan s j).0 in
      let e' : (process w plan s' (is ++ i ∷ [])).1 ≡ none = rw (process, n) at e in
      rw (process, n) (process-last w plan s' is i e')
  | inr (a, n) ↦
      let e' : (process_item w plan s j).1 ≡ none = rw (process, n) at e in
      absurd (some≢none (sym n ∙ e'))
]

Holds-start :
    (text : Bytes) (s : Progress)
    → Holds text s
    → (s.abs_start ≡ length text - script_window_max)
      × (s.window ≡ take_last script_window_max text)
unfolding Holds
Holds-start text s (total, received, window, abs) =
    let size = ap length window ∙ length-drop (length text - script_window_max) text in
    (omega arith, window)

pair : {a b : ℕ} {x y : Bytes} → a ≡ b → x ≡ y → Path (ℕ × Bytes) (a, x) (b, y)
pair e f = cc

-- A script that has received `text` processes more, of which `i` comes last and in time, and does
-- not give up; the patterns give places that do not end before they start. Then all of it is counted
-- once, the newest 1 MiB is kept to be returned, and the newest 8 KiB for the next scan, at the right
-- absolute position. And for every rule that is not done, each match of its pattern in the 8 KiB that
-- were there before `i` with the whole of `i` after them has no width or starts before the absolute
-- position from which the rule goes on.
pub process_scans :
    (w : World) (plan : Plan) (s : Progress) (is : List InboxItem) (i : InboxItem) (text : Bytes)
    → Holds text s
    → takes_part plan i ≡ true
    → All IsMatcher (process w plan s is).0.states
    → (process w plan s (is ++ i ∷ [])).1 ≡ none
    → let t = (process w plan s (is ++ i ∷ [])).0 in
      let before = text ++ accepted plan is in
      Holds (before ++ i.chunk) t
      × All
          (IsScanned
            (length before - script_window_max)
            (take_last script_window_max before ++ i.chunk))
          t.states
process_scans w plan s is i text h t m e =
    let before = text ++ accepted plan is in
    let (e₀, e₁, same) = process-last w plan s is i e in
    let t₀ = (process w plan s is).0 in
    let held = process_keeps w plan s is text h e₀ in
    let (start, window) = Holds-start before t₀ held in
    let scanned = process_item-IsScanned w plan t₀ i t m e₁ in
    subst
      (λ (x : Progress).
        Holds (before ++ i.chunk) x
        × All
            (IsScanned (length before - script_window_max)
              (take_last script_window_max before ++ i.chunk))
            x.states)
      (sym same)
      (
        subst
            (λ (b : Bool).
              Holds (before ++ (if b then i.chunk else [])) (process_item w plan t₀ i).0)
            t (process_item-Holds w plan t₀ i before held e₁),
        subst
            (λ (x : ℕ × Bytes).
              All (IsScanned x.0 (x.1 ++ i.chunk)) (process_item w plan t₀ i).0.states)
            (pair start window) scanned,
      )
