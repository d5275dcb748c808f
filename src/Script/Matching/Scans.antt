-- ===== src/Script/Matching/Scans.antt =====
-- What the scan of the rules does to the counters (pkg/mcp/tools/serial_script.go, `process`).
use serial_hub.Prelude.{
  true, ◌++◌, ℕ, suc, ◌+◌, ◌≤◌, ◌≡◌, refl, ◌∙◌, List, [], ◌∷◌, Bool, false, Option, none, some,
  arith, length, length-append, leb, pos_part, is_positive, if◌then◌else◌, Bytes, Bool-cases, inl,
  inr, ltb, ◌==◌, ◌||◌, take, ◌-◌, drop, ◌++◌, All, if-cases,
}
use serial_hub.Script.{MatchRule, MatchState, DelayedWrite, World, script_schedule_max, new_payload}
use serial_hub.Script.Matching.{
  Plan, Progress, Verdict, next, leave, abort, hit, delay_hit, write_hit, script_write, look,
  heap_push, fired_once, is_used_up, next_unless, Abort, Scanned, scan_one, scan_locs, Trigger,
  match, elapsed_ms, scan_rule, scan_rules, after_rule,
}

-- How often a rule may fire: once, `maxCount` times, or without limit.
unfoldable pub limit : MatchRule → Option ℕ
limit rule =
    if rule.repeated
    then if is_positive rule.max_count then some (pos_part rule.max_count) else none
    else some 1

abbrev Within : Option ℕ → ℕ → Bool → Type 0
Within none fired done = done ≡ false
Within (some n) fired done = (fired ≤ n) × (done ≡ leb n fired)

-- A rule has fired no more often than it may, and is done exactly when it has done so.
abbrev pub IsCounted : MatchState → Type 0
IsCounted st = Within (limit st.rule) st.fired st.done

unfoldable pub total_fired : List MatchState → ℕ
total_fired [] = 0
total_fired (st ∷ sts) = st.fired + total_fired sts

fired_once-IsCounted :
    (st : MatchState) (end : ℕ) → st.done ≡ false → IsCounted st → IsCounted (fired_once st end)
unfolding limit is_used_up
fired_once-IsCounted st end d h = ground arith

heap_push-length :
    (x : DelayedWrite) (ys : List DelayedWrite) → length (heap_push x ys) ≡ suc (length ys)
unfolding heap_push
heap_push-length x [] = refl
heap_push-length x (y ∷ ys) = ground (arith, heap_push-length x ys)

-- What a scan adds to the counters.
unfoldable pub Adds : Progress → ℕ → Progress → ℕ → Type 0
Adds s fired s' fired' =
    (length s'.triggers + fired ≡ length s.triggers + fired')
    × (s'.sch_idx ≡ s.sch_idx)
    × (s'.delayed_queued + (s.delayed_fired + length s.delayed)
        ≡ s.delayed_queued + (s'.delayed_fired + length s'.delayed))
    × (s.looks ≤ s'.looks)

Adds-trans : (s t u : Progress) (a b c : ℕ) → Adds s a t b → Adds t b u c → Adds s a u c
unfolding Adds
Adds-trans s t u a b c (h₁, h₂, h₃, h₄) (k₁, k₂, k₃, k₄) =
    (omega arith, k₂ ∙ h₂, omega arith, omega arith)

-- The loop over the matches goes on only with a rule that is not done.
abbrev Continues : Verdict → Bool → Type 0
Continues next d = d ≡ false
Continues leave d = Unit
Continues (abort a) d = Unit

delay_hit-Adds :
    (w : World) (si : ℕ) (st : MatchState) (payload : Bytes) (s : Progress) (n : ℕ)
    → Adds s n (delay_hit w si st payload s).0.0 n
unfolding delay_hit look Adds
delay_hit-Adds w si st payload s n =
    elim (Bool-cases (leb script_schedule_max (length s.delayed))) [
      | inl h ↦ rw (delay_hit, h) (refl, refl, refl, omega arith)
      | inr h ↦
          rw (delay_hit, h) (refl, refl, omega (arith, heap_push-length _ s.delayed), omega arith)
    ]

write_hit-Adds :
    (w : World) (plan : Plan) (si : ℕ) (st : MatchState) (payload : Bytes) (s : Progress) (n : ℕ)
    → Adds s n (write_hit w plan si st payload s).0.0 n
unfolding write_hit script_write look Adds
write_hit-Adds w plan si st payload s n = (refl, refl, refl, omega arith)

next_unless-Continues : (d : Bool) → Continues (next_unless d) d
next_unless-Continues true = tt
next_unless-Continues false = refl

write-Continues :
    (e : Option Abort) (d : Bool) → Continues (elim e [ none ↦ next_unless d | some a ↦ abort a ]) d
write-Continues none d = next_unless-Continues d
write-Continues (some a) d = tt

pub delay_hit-state :
    (w : World) (si : ℕ) (st : MatchState) (payload : Bytes) (s : Progress)
    → ((delay_hit w si st payload s).0.1 ≡ st) × Continues (delay_hit w si st payload s).1 st.done
unfolding delay_hit look
delay_hit-state w si st payload s = elim (Bool-cases (leb script_schedule_max (length s.delayed))) [
  | inl h ↦ rw (delay_hit, h) (refl, tt)
  | inr h ↦ rw (delay_hit, h) (refl, next_unless-Continues st.done)
]

write_hit-state :
    (w : World) (plan : Plan) (si : ℕ) (st : MatchState) (payload : Bytes) (s : Progress)
    → ((write_hit w plan si st payload s).0.1 ≡ st)
      × Continues (write_hit w plan si st payload s).1 st.done
unfolding write_hit script_write look
write_hit-state w plan si st payload s = (refl, write-Continues _ st.done)

-- What one match does to its rule and the counters.
Scans : MatchState → Progress → Scanned → Type 0
Scans st s r = IsCounted r.0.1 × Continues r.1 r.0.1.done × Adds s st.fired r.0.0 r.0.1.fired

combine :
    (st st' : MatchState) (s s₃ : Progress) (r : Scanned)
    → r.0.1 ≡ st'
    → Continues r.1 st'.done
    → Adds s₃ st'.fired r.0.0 st'.fired
    → Adds s st.fired s₃ st'.fired
    → IsCounted st'
    → Scans st s r
unfolding Scans
combine st st' s s₃ r e c a b h =
    rw e (h, c, Adds-trans s s₃ r.0.0 st.fired st'.fired st'.fired b a)

hit-Scans :
    (w : World) (plan : Plan) (si : ℕ) (st : MatchState) (s : Progress) (loc : ℕ × ℕ)
    → IsCounted st
    → st.done ≡ false
    → Scans st s (hit w plan si st s loc)
unfolding hit Scans look Adds
hit-Scans w plan si st s (from, to) h d =
    let st' = fired_once st (s.abs_start + to) in
    let payload = new_payload st.rule.content st.rule.add_newline in
    let s₂ = look w (look w s) in
    let trigger : Trigger = record {
      type = match;
      rule = si;
      occurrence = st.fired;
      at_ms = elapsed_ms w plan s₂;
      payload = payload;
      matched = take (to - from) (drop from s.window);
    } in
    let s₃ : Progress = record s₂ { triggers = s.triggers ++ trigger ∷ [] } in
    let counted = fired_once-IsCounted st (s.abs_start + to) d h in
    let more : length (s.triggers ++ trigger ∷ []) + st.fired ≡ length s.triggers + suc st.fired =
      omega (arith, length-append s.triggers (trigger ∷ [])) in
    elim (Bool-cases (w.cancelled (suc s.looks))) [
      | inl c ↦ rw (hit, c) (h, tt, (refl, refl, refl, omega arith))
      | inr c ↦ elim (Bool-cases (ltb 0 st.delay_ms)) [
        | inl l ↦
            let (e, v) = delay_hit-state w si st' payload s₃ in
            rw (hit, c, l)
              (combine st st' s s₃ (delay_hit w si st' payload s₃) e v
                (delay_hit-Adds w si st' payload s₃ st'.fired) (more, refl, refl, omega arith)
                counted)
        | inr l ↦
            let (e, v) = write_hit-state w plan si st' payload s₃ in
            rw (hit, c, l)
              (combine st st' s s₃ (write_hit w plan si st' payload s₃) e v
                (write_hit-Adds w plan si st' payload s₃ st'.fired) (more, refl, refl, omega arith)
                counted)
      ]
    ]

scan_one-Scans :
    (w : World) (plan : Plan) (si : ℕ) (st : MatchState) (s : Progress) (loc : ℕ × ℕ)
    → IsCounted st
    → st.done ≡ false
    → Scans st s (scan_one w plan si st s loc)
unfolding scan_one Scans Adds
scan_one-Scans w plan si st s loc h d =
    elim (Bool-cases (loc.1 == loc.0 || ltb (s.abs_start + loc.0) st.scan_from)) [
      | inl e ↦ rw (scan_one, e) (h, d, (refl, refl, refl, omega arith))
      | inr e ↦ rw (scan_one, e) (hit-Scans w plan si st s loc h d)
    ]

-- The same of all matches of a rule.
ScannedRule : MatchState → Progress → Progress × MatchState → Type 0
ScannedRule st s r = IsCounted r.1 × Adds s st.fired r.0 r.1.fired

follow :
    (Q : Progress × MatchState → Type 0) (v : Verdict) (d : Bool) (r : Progress × MatchState)
    (rest : (Progress × MatchState) × Option Abort)
    → Continues v d
    → Q r
    → (d ≡ false → Q rest.0)
    → Q
        (elim v as (λ x. (Progress × MatchState) × Option Abort) [
          | next ↦ rest
          | leave ↦ (r, none)
          | abort a ↦ (r, some a)
        ]).0
follow Q next d r rest c q k = k c
follow Q leave d r rest c q k = q
follow Q (abort a) d r rest c q k = q

scan_locs-counts :
    (w : World) (plan : Plan) (si : ℕ) (st : MatchState) (s : Progress) (locs : List (ℕ × ℕ))
    → IsCounted st
    → st.done ≡ false
    → ScannedRule st s (scan_locs w plan si st s locs).0
unfolding scan_locs ScannedRule Scans Adds
scan_locs-counts w plan si st s [] h d = (h, (refl, refl, refl, omega arith))
scan_locs-counts w plan si st s (loc ∷ locs) h d =
    let r = scan_one w plan si st s loc in
    let (counted, goes, one) = scan_one-Scans w plan si st s loc h d in
    follow (ScannedRule st s) r.1 r.0.1.done r.0 (scan_locs w plan si r.0.1 r.0.0 locs) goes
      (counted, one)
      (λ g.
        let (c, a) = scan_locs-counts w plan si r.0.1 r.0.0 locs counted g in
        (
          c,
          Adds-trans s r.0.0 (scan_locs w plan si r.0.1 r.0.0 locs).0.0 st.fired r.0.1.fired
              (scan_locs w plan si r.0.1 r.0.0 locs).0.1.fired one a,
        ))

scan_rule-counts :
    (w : World) (plan : Plan) (si : ℕ) (st : MatchState) (s : Progress)
    → IsCounted st
    → ScannedRule st s (scan_rule w plan si st s).0
unfolding ScannedRule Adds
scan_rule-counts w plan si st s h =
    if-cases (λ (r : (Progress × MatchState) × Option Abort). ScannedRule st s r.0) st.done
      ((s, st), none) _ (λ d. (h, (refl, refl, refl, omega arith)))
      (λ d. scan_locs-counts w plan si st s (st.re s.window) h d)

-- The same of all rules.
unfoldable pub ScannedRules : List MatchState → Progress → Progress × List MatchState → Type 0
ScannedRules sts s r = All IsCounted r.1 × Adds s (total_fired sts) r.0 (total_fired r.1)

after_rule-counts :
    (st : MatchState) (sts : List MatchState) (s : Progress)
    (r : (Progress × MatchState) × Option Abort) (q : (Progress × List MatchState) × Option Abort)
    → ScannedRule st s r.0
    → All IsCounted sts
    → ScannedRules sts r.0.0 q.0
    → ScannedRules (st ∷ sts) s (after_rule r sts q).0
unfolding ScannedRule ScannedRules Adds total_fired
after_rule-counts st sts s ((s', st'), some a) q (c, (a₁, a₂, a₃, a₄)) h k =
    ((c, h), (omega arith, a₂, a₃, a₄))
after_rule-counts st sts s ((s', st'), none) ((s'', sts'), e) (c, (a₁, a₂, a₃, a₄)) h
      (k, (b₁, b₂, b₃, b₄)) =
    ((c, k), (omega arith, b₂ ∙ a₂, omega arith, omega arith))

pub scan_rules-counts :
    (w : World) (plan : Plan) (si : ℕ) (sts : List MatchState) (s : Progress)
    → All IsCounted sts
    → ScannedRules sts s (scan_rules w plan si sts s).0
unfolding scan_rules ScannedRules Adds
scan_rules-counts w plan si [] s h = (tt, (refl, refl, refl, omega arith))
scan_rules-counts w plan si (st ∷ sts) s (p, h) =
    let r = scan_rule w plan si st s in
    let one = scan_rule-counts w plan si st s p in
    let rest = scan_rules-counts w plan (suc si) sts r.0.0 h in
    after_rule-counts st sts s r (scan_rules w plan (suc si) sts r.0.0) one h rest
