-- ===== src/Script/Matching/Window.antt =====
-- What a script keeps of the data that arrives (pkg/mcp/tools/serial_script.go).
use serial_hub.Prelude.{
  ℕ, suc, ◌+◌, ◌-◌, ◌≡◌, refl, sym, ap, ◌∙◌, List, [], ◌∷◌, ◌++◌, Option, none, some, Bytes,
  Bool-cases, Option-cases, inl, inr, arith, length, take_last, drop, length-append, length-drop,
  drop-append, append-nil, append_assoc, ltb, ltb→le, if◌then◌else◌, drop-drop, ◌≢◌,
}
use serial_hub.Script.{MatchState, InboxItem, World, script_window_max, script_recv_max}
use serial_hub.Script.Matching.{
  Plan, Progress, Abort, scan_one, hit, delay_hit, write_hit, script_write, look, scan_locs,
  scan_rule, scan_rules, receive, trim_window, process_item, process, takes_part, keep_newest, next,
  leave, abort, after_rule, after_scan,
}

pub some≢none : {a : Abort} → some a ≢ none
some≢none h = cc

-- The part of the state that the scan only reads.
pub record Stored : Type 0 where
  pub window : Bytes
  pub abs_start : ℕ
  pub total : ℕ
  pub received : Bytes

abbrev pub stored : Progress → Stored
stored s = record {
  window = s.window;
  abs_start = s.abs_start;
  total = s.total;
  received = s.received;
}

pub scan_one-stored :
    (w : World) (plan : Plan) (si : ℕ) (st : MatchState) (s : Progress) (loc : ℕ × ℕ)
    → stored (scan_one w plan si st s loc).0.0 ≡ stored s
unfolding scan_one hit delay_hit write_hit script_write look
scan_one-stored w plan si st s loc = ground arith

scan_locs-stored :
    (w : World) (plan : Plan) (si : ℕ) (st : MatchState) (s : Progress) (locs : List (ℕ × ℕ))
    → stored (scan_locs w plan si st s locs).0.0 ≡ stored s
unfolding scan_locs
scan_locs-stored w plan si st s [] = refl
scan_locs-stored w plan si st s (loc ∷ locs) =
    let r = scan_one w plan si st s loc in
    let one = scan_one-stored w plan si st s loc in
    let rest = scan_locs-stored w plan si r.0.1 r.0.0 locs in
    elim r.1
      as (λ v.
        stored
          (elim v as (λ x. (Progress × MatchState) × Option Abort) [
            | next ↦ scan_locs w plan si r.0.1 r.0.0 locs
            | leave ↦ (r.0, none)
            | abort a ↦ (r.0, some a)
          ]).0.0
        ≡ stored s) [ next ↦ rest ∙ one | leave ↦ one | abort a ↦ one ]

after_rule-stored :
    {t : Stored} (r : (Progress × MatchState) × Option Abort) (sts : List MatchState)
    (q : (Progress × List MatchState) × Option Abort)
    → stored r.0.0 ≡ t
    → stored q.0.0 ≡ t
    → stored (after_rule r sts q).0.0 ≡ t
after_rule-stored ((s, st), some a) sts q h k = h
after_rule-stored ((s, st), none) sts ((s', sts'), e) h k = k

pub scan_rule-stored :
    (w : World) (plan : Plan) (si : ℕ) (st : MatchState) (s : Progress)
    → stored (scan_rule w plan si st s).0.0 ≡ stored s
scan_rule-stored w plan si st s = ground (arith, scan_locs-stored w plan si st s (st.re s.window))

scan_rules-stored :
    (w : World) (plan : Plan) (si : ℕ) (sts : List MatchState) (s : Progress)
    → stored (scan_rules w plan si sts s).0.0 ≡ stored s
unfolding scan_rules
scan_rules-stored w plan si [] s = refl
scan_rules-stored w plan si (st ∷ sts) s =
    let one = scan_rule-stored w plan si st s in
    let rest = scan_rules-stored w plan (suc si) sts (scan_rule w plan si st s).0.0 in
    after_rule-stored (scan_rule w plan si st s) sts _ one (rest ∙ one)

-- The bytes of the items that take part.
pub accepted : Plan → List InboxItem → Bytes
accepted plan [] = []
accepted plan (i ∷ is) = (if takes_part plan i then i.chunk else []) ++ accepted plan is

-- The run has received `text`: all of it is counted, the newest of it is kept.
unfoldable pub Holds : Bytes → Progress → Type 0
Holds text s =
    (s.total ≡ length text)
    × (s.received ≡ take_last script_recv_max text)
    × (s.window ≡ take_last script_window_max text)
    × (s.abs_start + length s.window ≡ length text)

keep_newest-take_last : (n : ℕ) (text : Bytes) → keep_newest n text ≡ take_last n text
unfolding keep_newest
keep_newest-take_last n text = elim (Bool-cases (ltb n (length text))) [
  | inl h ↦ rw h refl
  | inr h ↦
      let le = ltb→le n (length text) h in
      let z : length text - n ≡ 0 = omega arith in rw h (rw z refl)
]

-- Cutting what was cut before is cutting the whole.
take_last-again :
    (n : ℕ) (text c : Bytes) → take_last n (take_last n text ++ c) ≡ take_last n (text ++ c)
take_last-again n text c =
    let d = length text - n in
    let joined : take_last n text ++ c ≡ drop d (text ++ c) =
      sym (drop-append d text c (omega arith)) in
    let len : length (drop d (text ++ c)) ≡ (length text + length c) - d =
      length-drop d (text ++ c) ∙ ap (λ k. k - d) (length-append text c) in
    let whole = length-append text c in
    let index : d + (length (drop d (text ++ c)) - n) ≡ length (text ++ c) - n = omega arith in
    ap (take_last n) joined ∙ (drop-drop _ d (text ++ c) ∙ ap (λ k. drop k (text ++ c)) index)

received-Holds :
    (c text : Bytes) (s : Progress) → Holds text s → (Holds (text ++ c) (trim_window (receive c s)))
unfolding receive trim_window Holds
received-Holds c text s (t, r, v, a) =
    let len = length-append text c in
    let len' = length-append s.window c in
    let cut = keep_newest-take_last script_window_max (s.window ++ c) in
    let size : length (keep_newest script_window_max (s.window ++ c))
        ≡ length (s.window ++ c) - (length (s.window ++ c) - script_window_max) =
      ap length cut ∙ length-drop _ (s.window ++ c) in
    (
      omega arith,
      keep_newest-take_last script_recv_max (s.received ++ c)
          ∙ (ap (λ x. take_last script_recv_max (x ++ c)) r
              ∙ take_last-again script_recv_max text c),
      cut
          ∙ (ap (λ x. take_last script_window_max (x ++ c)) v
              ∙ take_last-again script_window_max text c),
      omega arith,
    )

after_scan-Holds :
    (text : Bytes) (r : (Progress × List MatchState) × Option Abort) (s : Progress)
    → stored r.0.0 ≡ stored s
    → (after_scan r).1 ≡ none
    → Holds text (trim_window s)
    → Holds text (after_scan r).0
unfolding trim_window Holds
after_scan-Holds text ((s', sts), some a) s e n h = cc
after_scan-Holds text ((s', sts), none) s e n h =
    let t : s'.total ≡ s.total = ap (λ x. x.total) e in
    let r : s'.received ≡ s.received = ap (λ x. x.received) e in
    let v : s'.window ≡ s.window = ap (λ x. x.window) e in
    let a : s'.abs_start ≡ s.abs_start = ap (λ x. x.abs_start) e in rw (t, r, v, a) h

-- One item that takes part, when the scan is not given up.
pub process_item-Holds :
    (w : World) (plan : Plan) (s : Progress) (i : InboxItem) (text : Bytes)
    → Holds text s
    → (process_item w plan s i).1 ≡ none
    → Holds (text ++ (if takes_part plan i then i.chunk else [])) (process_item w plan s i).0
unfolding process_item
process_item-Holds w plan s i text h e = elim (Bool-cases (takes_part plan i)) [
  | inl y ↦
      let scan = scan_rules w plan 0 (receive i.chunk s).states (receive i.chunk s) in
      let n : (after_scan scan).1 ≡ none = rw y at e in
      rw y (
        after_scan-Holds _ scan (receive i.chunk s)
          (scan_rules-stored w plan 0 (receive i.chunk s).states (receive i.chunk s)) n
          (received-Holds i.chunk text s h))
  | inr n ↦ rw n (rw (append-nil text) h)
]

-- Whatever the rules match, and whatever others do meanwhile: if a script is not given up, then of
-- the data that arrived between its start and its deadline it has counted every byte once, it
-- returns the newest 1 MiB, its window is the newest 8 KiB, and the window's absolute position is
-- right, over any number of chunks.
pub process_keeps :
    (w : World) (plan : Plan) (s : Progress) (is : List InboxItem) (text : Bytes)
    → Holds text s
    → (process w plan s is).1 ≡ none
    → Holds (text ++ accepted plan is) (process w plan s is).0
unfolding process accepted
process_keeps w plan s [] text h e = rw (append-nil text) h
process_keeps w plan s (i ∷ is) text h e = elim (Option-cases (process_item w plan s i).1) [
  | inl n ↦
      let one = process_item-Holds w plan s i text h n in
      let e' : (process w plan (process_item w plan s i).0 is).1 ≡ none = rw (process, n) at e in
      rw (process, n)
        (rw (← append_assoc text (if takes_part plan i then i.chunk else []) (accepted plan is))
          (process_keeps w plan (process_item w plan s i).0 is _ one e'))
  | inr (a, n) ↦
      let e' : (process_item w plan s i).1 ≡ none = rw (process, n) at e in
      absurd (some≢none (sym n ∙ e'))
]
