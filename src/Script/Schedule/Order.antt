-- ===== src/Script/Schedule/Order.antt =====
-- The order and the content of the schedule (pkg/mcp/tools/serial_script.go).
use mathlib.Core.Path.{subst}
use mathlib.Core.List.Perm
use mathlib.Core.List.{Perm}
use serial_hub.Prelude.{
  ◌≤◌, ◌≡◌, refl, sym, ◌∙◌, ◌≤ℤ◌, leb_ℤ, List, [], ◌∷◌, Bool-cases, inl, inr, All, length, ok,
  ok-bind, ok_inj, arith, suc, ap,
}
use serial_hub.Script.{TimedWrite, ScriptFireItem, script_schedule_max}
use serial_hub.Script.Schedule.{insert_item, sort_schedule, make_schedule}
use serial_hub.Script.Schedule.Bounds.{IsTimely, planned, expand_from_exact}

abbrev pub IsSorted : List ScriptFireItem → Type 0
IsSorted [] = Unit
IsSorted (x ∷ xs) = All (λ y. x.offset_ms ≤ℤ y.offset_ms) xs × IsSorted xs

insert_item-Perm :
    (x : ScriptFireItem) (ys : List ScriptFireItem) → Perm (insert_item x ys) (x ∷ ys)
unfolding insert_item
insert_item-Perm x [] = Perm.refl _
insert_item-Perm x (y ∷ ys) = elim (Bool-cases (leb_ℤ x.offset_ms y.offset_ms)) [
  | inl h ↦ rw h (Perm.refl _)
  | inr h ↦ rw h (Perm.trans (Perm.cons y (insert_item-Perm x ys)) (Perm.swap x y ys))
]

sort_schedule-Perm : (xs : List ScriptFireItem) → Perm (sort_schedule xs) xs
unfolding sort_schedule
sort_schedule-Perm [] = Perm.refl _
sort_schedule-Perm (x ∷ xs) =
    Perm.trans (insert_item-Perm x (sort_schedule xs)) (Perm.cons x (sort_schedule-Perm xs))

module _ (P : ScriptFireItem → Type 0) where
  insert_item-All :
      (x : ScriptFireItem) (ys : List ScriptFireItem) → P x → All P ys → All P (insert_item x ys)
  unfolding insert_item
  insert_item-All x [] p h = (p, tt)
  insert_item-All x (y ∷ ys) p (q, h) = elim (Bool-cases (leb_ℤ x.offset_ms y.offset_ms)) [
    | inl e ↦ rw e (p, (q, h))
    | inr e ↦ rw e (q, insert_item-All x ys p h)
  ]

  sort_schedule-All : (xs : List ScriptFireItem) → All P xs → All P (sort_schedule xs)
  unfolding sort_schedule
  sort_schedule-All [] h = tt
  sort_schedule-All (x ∷ xs) (p, h) =
      insert_item-All x (sort_schedule xs) p (sort_schedule-All xs h)

All-after :
    (x y : ScriptFireItem) (ys : List ScriptFireItem)
    → x.offset_ms ≤ℤ y.offset_ms
    → All (λ z. y.offset_ms ≤ℤ z.offset_ms) ys
    → All (λ z. x.offset_ms ≤ℤ z.offset_ms) ys
All-after x y [] h k = tt
All-after x y (z ∷ ys) h (p, k) = (omega arith, All-after x y ys h k)

insert_item-IsSorted :
    (x : ScriptFireItem) (ys : List ScriptFireItem) → IsSorted ys → IsSorted (insert_item x ys)
unfolding insert_item
insert_item-IsSorted x [] h = (tt, tt)
insert_item-IsSorted x (y ∷ ys) (p, h) = elim (Bool-cases (leb_ℤ x.offset_ms y.offset_ms)) [
  | inl e ↦
      let le : x.offset_ms ≤ℤ y.offset_ms = ground arith in
      rw e ((le, All-after x y ys le p), (p, h))
  | inr e ↦
      let le : y.offset_ms ≤ℤ x.offset_ms = ground arith in
      rw e
        (insert_item-All (λ z. y.offset_ms ≤ℤ z.offset_ms) x ys le p, insert_item-IsSorted x ys h)
]

sort_schedule-IsSorted : (xs : List ScriptFireItem) → IsSorted (sort_schedule xs)
unfolding sort_schedule
sort_schedule-IsSorted [] = tt
sort_schedule-IsSorted (x ∷ xs) =
    insert_item-IsSorted x (sort_schedule xs) (sort_schedule-IsSorted xs)

insert_item-length :
    (x : ScriptFireItem) (ys : List ScriptFireItem) → length (insert_item x ys) ≡ suc (length ys)
unfolding insert_item
insert_item-length x [] = refl
insert_item-length x (y ∷ ys) = ground (arith, insert_item-length x ys)

sort_schedule-length : (xs : List ScriptFireItem) → length (sort_schedule xs) ≡ length xs
unfolding sort_schedule
sort_schedule-length [] = refl
sort_schedule-length (x ∷ xs) =
    insert_item-length x (sort_schedule xs) ∙ ap suc (sort_schedule-length xs)

-- If the timed writes of a script are accepted, the schedule is in order of time; it is, up to the
-- order, one item for each occurrence i of each write, at exactly atMs + i * intervalMs
-- milliseconds with no wrap-around; no moment is beyond what nanoseconds in 64 bits can hold; and
-- there are at most 100000 items.
pub make_schedule_lem :
    (ws : List TimedWrite) (items : List ScriptFireItem)
    → make_schedule ws ≡ ok items
    → IsSorted items
      × Perm items (planned 0 ws)
      × All IsTimely items
      × (length items ≤ script_schedule_max)
unfolding make_schedule
make_schedule_lem ws items e =
    let (raw, r, e₁) = ok-bind _ _ items e in
    let (same, (timely, short)) = expand_from_exact 0 [] raw ws r (omega arith) tt in
    rw (sym (ok_inj _ items e₁)) (
      sort_schedule-IsSorted raw,
      subst (λ z. Perm (sort_schedule raw) z) same (sort_schedule-Perm raw),
      sort_schedule-All IsTimely raw timely,
      rw (sort_schedule-length raw) short,
    )
