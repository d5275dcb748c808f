-- ===== src/Script/Schedule/Bounds.antt =====
-- The moments that the expansion of the timed writes gives (pkg/mcp/tools/serial_script.go).
use native.Mathlib.Nat.{le-div_iff_mul-le}
use serial_hub.Prelude.{
  ℕ, zero, suc, ◌+◌, ◌*◌, ◌-◌, ◌/◌, ◌≤◌, ◌<◌, ◌≡◌, refl, sym, ℤ, pos, negsuc, pos_part, List, [],
  ◌∷◌, ◌++◌, true, false, ltb, Bool-cases, inl, inr, All, Result, ok, ok-bind, ok-fail_if, ok_inj,
  is_positive, is_negative, if◌then◌else◌, Bytes, arith, ltb→le, fail_if, ltb→lt, ap, length,
  append-nil, All-append, ◌∙◌, append_assoc, length-append,
}
use serial_hub.Script.{
  interval_negative, count_negative, at_too_large, interval_too_large, TimedWrite, ScriptFireItem,
  ScriptError, script_max_at_ms_value, new_payload, script_schedule_max,
}
use serial_hub.Script.Schedule.{
  int64, occurrences, item, expand_write, check_write, wanted, expand_from,
}

-- What the input asks for, in exact numbers: `atMs + i * intervalMs` for each `i` below the count.
pub planned_occurrences : ℕ → (at interval : ℕ) → Bytes → ℕ → ℕ → List ScriptFireItem
planned_occurrences wi at interval payload i zero = []
planned_occurrences wi at interval payload i (suc k) =
    item wi (pos (at + i * interval)) i payload
    ∷ planned_occurrences wi at interval payload (suc i) k

pub planned_write : ℕ → TimedWrite → List ScriptFireItem
planned_write wi w =
    let payload = new_payload w.content w.add_newline in
    if is_positive w.interval_ms
    then planned_occurrences wi (pos_part w.at_ms) (pos_part w.interval_ms) payload 0 (wanted w)
    else item wi (pos (pos_part w.at_ms)) 0 payload ∷ []

unfoldable pub planned : ℕ → List TimedWrite → List ScriptFireItem
planned wi [] = []
planned wi (w ∷ ws) = planned_write wi w ++ planned (suc wi) ws

-- A moment that can be represented in nanoseconds.
abbrev pub IsTimely : ScriptFireItem → Type 0
IsTimely x = (n : ℕ) × (x.offset_ms ≡ pos n) × (n ≤ script_max_at_ms_value)

int64_exact : (n : ℕ) → n ≤ script_max_at_ms_value → int64 n ≡ pos n
unfolding int64
int64_exact n h = ground arith

occurrence_fits :
    (at interval i : ℕ)
    → at ≤ script_max_at_ms_value
    → 0 < interval
    → ltb ((script_max_at_ms_value - at) / interval) i ≡ false
    → at + i * interval ≤ script_max_at_ms_value
occurrence_fits at interval i h k t =
    let fits = (le-div_iff_mul-le {k = interval} k).0 (ltb→le _ i t) in omega arith

occurrences_exact :
    (wi at interval : ℕ) (payload : Bytes) (i k : ℕ) (items : List ScriptFireItem)
    → at ≤ script_max_at_ms_value
    → 0 < interval
    → occurrences wi at interval payload i k ≡ ok items
    → (items ≡ planned_occurrences wi at interval payload i k) × All IsTimely items
unfolding occurrences planned_occurrences
occurrences_exact wi at interval payload i zero items h p e =
    rw (sym (ok_inj [] items e)) (refl, tt)
occurrences_exact wi at interval payload i (suc k) items h p e =
    let (fits, e₁) = ok-fail_if _ _ _ items e in
    let (rest, r, e₂) = ok-bind _ _ items e₁ in
    let (same, timely) = occurrences_exact wi at interval payload (suc i) k rest h p r in
    let bound = occurrence_fits at interval i h p fits in
    let exact = int64_exact (at + i * interval) bound in
    let it = item wi (pos (at + i * interval)) i payload in
    let same' : item wi (int64 (at + i * interval)) i payload ∷ rest
        ≡ it ∷ planned_occurrences wi at interval payload (suc i) k =
      ap (λ z. item wi z i payload ∷ rest) exact ∙ ap (◌∷◌ it) same in
    rw (sym (ok_inj _ items e₂)) (same', ((_, exact, bound), timely))

natural : (z : ℤ) → is_negative z ≡ false → z ≡ pos (pos_part z)
natural (pos n) h = refl
natural (negsuc n) h = cc

positive_part : (z : ℤ) → is_positive z ≡ true → 0 < pos_part z
positive_part (pos n) h = ltb→lt 0 n h
positive_part (negsuc n) h = cc

check_write-at :
    (wi : ℕ) (w : TimedWrite)
    → check_write wi w ≡ ok tt
    → (w.at_ms ≡ pos (pos_part w.at_ms)) × (pos_part w.at_ms ≤ script_max_at_ms_value)
unfolding check_write
check_write-at wi w c =
    let (sign, c₁) = ok-fail_if _ _ _ tt c in
    let (s₂, c₂) = ok-fail_if (is_negative w.interval_ms) (interval_negative wi) _ tt c₁ in
    let (s₃, c₃) = ok-fail_if (is_negative w.count) (count_negative wi) _ tt c₂ in
    let (size, c₄) =
      ok-fail_if (ltb script_max_at_ms_value (pos_part w.at_ms)) (at_too_large wi)
        (fail_if (ltb script_max_at_ms_value (pos_part w.interval_ms)) (interval_too_large wi)) tt
        c₃ in
    (natural w.at_ms sign, ltb→le script_max_at_ms_value _ size)

write_exact :
    (wi : ℕ) (w : TimedWrite) (items : List ScriptFireItem)
    → check_write wi w ≡ ok tt
    → expand_write wi w ≡ ok items
    → (items ≡ planned_write wi w) × All IsTimely items
unfolding expand_write planned_write
write_exact wi w items c e =
    let (nat, bound) = check_write-at wi w c in
    elim (Bool-cases (is_positive w.interval_ms)) [
      | inl h ↦
          let e₁ : occurrences wi (pos_part w.at_ms) (pos_part w.interval_ms)
                (new_payload w.content w.add_newline) 0 (wanted w)
              ≡ ok items =
            rw h at e in
          rw h
            (occurrences_exact wi _ _ _ 0 (wanted w) items bound (positive_part w.interval_ms h) e₁)
      | inr h ↦
          let e₁ : Path (Result ScriptError (List ScriptFireItem))
              (ok (item wi w.at_ms 0 (new_payload w.content w.add_newline) ∷ [])) (ok items) =
            rw h at e in
          rw h (
            rw (sym (ok_inj _ items e₁)) (
              ap (λ z. item wi z 0 (new_payload w.content w.add_newline) ∷ []) nat,
              ((_, nat, bound), tt),
            ))
    ]

-- Appending what one write gives keeps the length within the limit.
planned_occurrences-length :
    (wi at interval : ℕ) (payload : Bytes) (i k : ℕ)
    → length (planned_occurrences wi at interval payload i k) ≡ k
unfolding planned_occurrences
planned_occurrences-length wi at interval payload i zero = refl
planned_occurrences-length wi at interval payload i (suc k) =
    ap suc (planned_occurrences-length wi at interval payload (suc i) k)

planned_write-length : (wi : ℕ) (w : TimedWrite) → length (planned_write wi w) ≡ wanted w
unfolding planned_write wanted
planned_write-length wi w = elim (Bool-cases (is_positive w.interval_ms)) [
  | inl h ↦ rw h (planned_occurrences-length wi _ _ _ 0 _)
  | inr h ↦ rw h refl
]

within :
    {n : ℕ} (b t want : ℕ)
    → b ≤ script_schedule_max
    → ltb (script_schedule_max - b) want ≡ false
    → t ≡ want
    → n ≡ b + t
    → n ≤ script_schedule_max
within b t want l room e k = let r = ltb→le (script_schedule_max - b) want room in omega arith

pub expand_from_exact :
    (wi : ℕ) (before items : List ScriptFireItem) (ws : List TimedWrite)
    → expand_from wi before ws ≡ ok items
    → length before ≤ script_schedule_max
    → All IsTimely before
    → (items ≡ before ++ planned wi ws)
      × (All IsTimely items × (length items ≤ script_schedule_max))
unfolding expand_from planned
expand_from_exact wi before items [] e l t =
    rw (sym (ok_inj _ items e)) (sym (append-nil before), (t, l))
expand_from_exact wi before items (w ∷ ws) e l t =
    let (unit, checked, e₂) = ok-bind _ _ items e in
    let (room, e₃) = ok-fail_if _ _ _ items e₂ in
    let (these, x, e₄) = ok-bind _ _ items e₃ in
    let (same, timely) = write_exact wi w these checked x in
    let fits : length (before ++ these) ≤ script_schedule_max =
      within (length before) (length these) (wanted w) l room
        (ap length same ∙ planned_write-length wi w) (length-append before these) in
    let (s, r) =
      expand_from_exact (suc wi) (before ++ these) items ws e₄ fits
        (All-append IsTimely before these t timely) in
    (
      s
          ∙ (append_assoc before these _
              ∙ ap (◌++◌ before) (ap (λ i. i ++ planned (suc wi) ws) same)),
      r,
    )
