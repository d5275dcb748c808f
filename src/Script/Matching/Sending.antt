-- ===== src/Script/Matching/Sending.antt =====
-- What a script has sent when the data that arrived has been processed
-- (pkg/mcp/tools/serial_script.go, `process`).
use serial_hub.Script.Matching.Window.{some≢none}
use serial_hub.Script.Matching.Scans.{total_fired}
use serial_hub.Prelude.{
  ℕ, suc, ◌+◌, ◌-◌, ◌≡◌, refl, sym, ap, ◌∙◌, inl, inr, Bool, true, false, ◌||◌, Option, none, some,
  List, [], ◌∷◌, ◌++◌, arith, ltb, leb, ◌==◌, Bool-cases, Option-cases, if-cases, length, take,
  drop, length-append, Bytes,
}
use serial_hub.Serial.Manager.{ManagerError, write_if_same_gen}
use serial_hub.Script.{MatchState, InboxItem, script_schedule_max, new_payload, World}
use serial_hub.Script.Matching.{
  Trigger, Abort, Plan, Progress, look, elapsed_ms, abort_of, noted, script_write, Verdict,
  next_unless, delay_hit, write_hit, fired_once, hit, scan_one, scan_locs, scan_rule, after_rule,
  scan_rules, receive, trim_window, takes_part, after_scan, process_item, process, match,
  match_write_failed, next, leave, abort,
}

-- A scan counts a match exactly if its write is sent or queued.
unfoldable pub Sends : Progress → ℕ → Progress → ℕ → Type 0
Sends s fired s' fired' =
    (length s'.sent + s'.delayed_queued + fired ≡ length s.sent + s.delayed_queued + fired')
    × (s'.sch_idx ≡ s.sch_idx)
    × (s'.delayed_fired ≡ s.delayed_fired)

Sends-trans : (s t u : Progress) (a b c : ℕ) → Sends s a t b → Sends t b u c → Sends s a u c
unfolding Sends
Sends-trans s t u a b c (h₁, h₂, h₃) (k₁, k₂, k₃) = (omega arith, k₂ ∙ h₂, k₃ ∙ h₃)

-- Of a scan that is not given up.
abbrev Unless : Verdict → Type 0 → Type 0
Unless (abort a) P = Unit
Unless next P = P
Unless leave P = P

next_unless-Unless : (P : Type 0) (d : Bool) → P → Unless (next_unless d) P
next_unless-Unless P true h = h
next_unless-Unless P false h = h

write-Unless :
    (P : Type 0) (e : Option Abort) (d : Bool)
    → (e ≡ none → P)
    → Unless (elim e [ none ↦ next_unless d | some a ↦ abort a ]) P
write-Unless P none d h = next_unless-Unless P d (h refl)
write-Unless P (some a) d h = tt

pub script_write-sent :
    (w : World) (plan : Plan) (s : Progress) (payload : Bytes) (failed : ManagerError → Abort)
    → (script_write w plan s payload failed).1 ≡ none
    → (script_write w plan s payload failed).0.sent ≡ s.sent ++ payload ∷ []
unfolding script_write
script_write-sent w plan s payload failed h =
    noted-sent (write_if_same_gen w.driver (look w s).manager plan.conn_gen payload).1.1 h
  where
    noted-sent :
        (e : Option ManagerError)
        → (elim e as (λ x. Option Abort) [ none ↦ none | some x ↦ some (abort_of failed x) ]) ≡ none
        → noted s.sent payload e ≡ s.sent ++ payload ∷ []
    noted-sent none h = refl
    noted-sent (some x) h = cc

module _ (w : World) (plan : Plan) (si : ℕ) where
  delay_hit-Sends :
      (st : MatchState) (payload : Bytes) (s : Progress) (n : ℕ)
      → st.fired ≡ suc n
      → let r = delay_hit w si st payload s in Unless r.1 (Sends s n r.0.0 r.0.1.fired)
  unfolding delay_hit look Sends
  delay_hit-Sends st payload s n e =
      elim (Bool-cases (leb script_schedule_max (length s.delayed))) [
        | inl h ↦ rw (delay_hit, h) tt
        | inr h ↦ rw (delay_hit, h) (next_unless-Unless _ st.done (omega arith, refl, refl))
      ]

  write_hit-Sends :
      (st : MatchState) (payload : Bytes) (s : Progress) (n : ℕ)
      → Unless
          (write_hit w plan si st payload s).1
          (Sends s n (write_hit w plan si st payload s).0.0 (suc n))
  unfolding write_hit Sends
  write_hit-Sends st payload s n =
      let failed = match_write_failed si in
      write-Unless _ (script_write w plan s payload failed).1 st.done λ h.
        let e = script_write-sent w plan s payload failed h in
        let size : length (script_write w plan s payload failed).0.sent ≡ suc (length s.sent) =
          omega (arith, ap length e, length-append s.sent (payload ∷ [])) in
        (omega arith, refl, refl)

  hit-Sends :
      (st : MatchState) (s : Progress) (loc : ℕ × ℕ)
      → let r = hit w plan si st s loc in Unless r.1 (Sends s st.fired r.0.0 r.0.1.fired)
  unfolding hit look Sends
  hit-Sends st s (from, to) =
      let st' = fired_once st (s.abs_start + to) in
      let payload = new_payload st.rule.content st.rule.add_newline in
      let s₂ = look w (look w s) in
      let trigger : Trigger = record {
        type = match;
        rule = si;
        occurrence = st.fired;
        at_ms = elapsed_ms w plan s₂;
        payload = payload;
        matched = take (to - from) (drop from s.window);
      } in
      let s₃ : Progress = record s₂ { triggers = s.triggers ++ trigger ∷ [] } in
      elim (Bool-cases (w.cancelled (suc s.looks))) [
        | inl c ↦ rw (hit, c) tt
        | inr c ↦ elim (Bool-cases (ltb 0 st.delay_ms)) [
          | inl l ↦ rw (hit, c, l) (delay_hit-Sends st' payload s₃ st.fired refl)
          | inr l ↦ rw (hit, c, l) (write_hit-Sends st' payload s₃ st.fired)
        ]
      ]

  scan_one-Sends :
      (st : MatchState) (s : Progress) (loc : ℕ × ℕ)
      → let r = scan_one w plan si st s loc in Unless r.1 (Sends s st.fired r.0.0 r.0.1.fired)
  unfolding scan_one Sends
  scan_one-Sends st s loc =
      elim (Bool-cases (loc.1 == loc.0 || ltb (s.abs_start + loc.0) st.scan_from)) [
        | inl e ↦ rw (scan_one, e) (refl, refl, refl)
        | inr e ↦ rw (scan_one, e) (hit-Sends st s loc)
      ]

  -- The scan of a rule, if it is not given up.
  abbrev SendsRule : Progress → ℕ → (Progress × MatchState) × Option Abort → Type 0
  SendsRule s n r = r.1 ≡ none → Sends s n r.0.0 r.0.1.fired

  follow-Sends :
      (v : Verdict) (s : Progress) (n : ℕ) (r : Progress × MatchState)
      (rest : (Progress × MatchState) × Option Abort)
      → Unless v (Sends s n r.0 r.1.fired)
      → SendsRule r.0 r.1.fired rest
      → SendsRule s n (elim v as (λ x. (Progress × MatchState) × Option Abort) [
        | next ↦ rest
        | leave ↦ (r, none)
        | abort a ↦ (r, some a)
      ])
  follow-Sends next s n r rest h k e = Sends-trans s r.0 rest.0.0 n r.1.fired rest.0.1.fired h (k e)
  follow-Sends leave s n r rest h k e = h
  follow-Sends (abort a) s n r rest h k e = absurd (some≢none e)

  scan_locs-Sends :
      (st : MatchState) (s : Progress) (locs : List (ℕ × ℕ))
      → SendsRule s st.fired (scan_locs w plan si st s locs)
  unfolding scan_locs Sends
  scan_locs-Sends st s [] = λ e. (refl, refl, refl)
  scan_locs-Sends st s (loc ∷ locs) =
      let r = scan_one w plan si st s loc in
      follow-Sends r.1 s st.fired r.0 (scan_locs w plan si r.0.1 r.0.0 locs)
        (scan_one-Sends st s loc) (scan_locs-Sends r.0.1 r.0.0 locs)

  scan_rule-Sends :
      (st : MatchState) (s : Progress) → SendsRule s st.fired (scan_rule w plan si st s)
  unfolding Sends
  scan_rule-Sends st s =
      if-cases (SendsRule s st.fired) st.done ((s, st), none) _ (λ d e. (refl, refl, refl))
        (λ d. scan_locs-Sends st s (st.re s.window))

abbrev SendsRules : Progress → ℕ → (Progress × List MatchState) × Option Abort → Type 0
SendsRules s n r = r.1 ≡ none → Sends s n r.0.0 (total_fired r.0.1)

after_rule-Sends :
    (st : MatchState) (sts : List MatchState) (s : Progress)
    (r : (Progress × MatchState) × Option Abort) (q : (Progress × List MatchState) × Option Abort)
    → (r.1 ≡ none → Sends s st.fired r.0.0 r.0.1.fired)
    → SendsRules r.0.0 (total_fired sts) q
    → SendsRules s (st.fired + total_fired sts) (after_rule r sts q)
unfolding Sends total_fired
after_rule-Sends st sts s ((s', st'), some a) q h k e = absurd (some≢none e)
after_rule-Sends st sts s ((s', st'), none) ((s'', sts'), x) h k e =
    let (a₁, a₂, a₃) = h refl in let (b₁, b₂, b₃) = k e in (omega arith, b₂ ∙ a₂, b₃ ∙ a₃)

scan_rules-Sends :
    (w : World) (plan : Plan) (si : ℕ) (sts : List MatchState) (s : Progress)
    → SendsRules s (total_fired sts) (scan_rules w plan si sts s)
unfolding scan_rules Sends total_fired
scan_rules-Sends w plan si [] s = λ e. (refl, refl, refl)
scan_rules-Sends w plan si (st ∷ sts) s =
    let r = scan_rule w plan si st s in
    after_rule-Sends st sts s r (scan_rules w plan (suc si) sts r.0.0)
      (scan_rule-Sends w plan si st s) (scan_rules-Sends w plan (suc si) sts r.0.0)

-- What the port has taken and what is queued are what the counters say: a timed write that is
-- counted has been sent, and a match that is counted has been answered or its answer is queued.
unfoldable pub IsSent : Progress → Type 0
IsSent s = length s.sent + s.delayed_queued ≡ s.sch_idx + s.delayed_fired + total_fired s.states

after_scan-IsSent :
    (s : Progress) (r : (Progress × List MatchState) × Option Abort)
    → IsSent s
    → SendsRules s (total_fired s.states) r
    → (after_scan r).1 ≡ none
    → IsSent (after_scan r).0
unfolding IsSent Sends trim_window
after_scan-IsSent s ((s', sts), none) h k e = let (b₁, b₂, b₃) = k refl in omega arith
after_scan-IsSent s ((s', sts), some a) h k e = absurd (some≢none e)

process_item-IsSent :
    (w : World) (plan : Plan) (s : Progress) (i : InboxItem)
    → IsSent s
    → (process_item w plan s i).1 ≡ none
    → IsSent (process_item w plan s i).0
unfolding process_item receive IsSent
process_item-IsSent w plan s i h =
    if-cases (λ (r : Progress × Option Abort). r.1 ≡ none → IsSent r.0) (takes_part plan i) _ _
      (λ y.
        after_scan-IsSent (receive i.chunk s) _ h
          (scan_rules-Sends w plan 0 s.states (receive i.chunk s)))
      (λ n e. h)

pub process-IsSent :
    (w : World) (plan : Plan) (s : Progress) (is : List InboxItem)
    → IsSent s
    → (process w plan s is).1 ≡ none
    → IsSent (process w plan s is).0
unfolding process
process-IsSent w plan s [] h e = h
process-IsSent w plan s (i ∷ is) h e = elim (Option-cases (process_item w plan s i).1) [
  | inl n ↦
      let e' : (process w plan (process_item w plan s i).0 is).1 ≡ none = rw (process, n) at e in
      rw (process, n)
        (process-IsSent w plan (process_item w plan s i).0 is (process_item-IsSent w plan s i h n)
          e')
  | inr (a, n) ↦
      let e' : (process_item w plan s i).1 ≡ none = rw (process, n) at e in
      absurd (some≢none (sym n ∙ e'))
]
