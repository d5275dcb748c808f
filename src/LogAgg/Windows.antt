-- ===== src/LogAgg/Windows.antt =====
-- The windows of the data log and their timers (internal/logagg/logagg.go).
use serial_hub.Prelude.{
  ℕ, ◌-◌, ◌≤◌, ◌<◌, ◌≡◌, ◌⊎◌, [], ◌∷◌, List, Bool, true, false, none, some, Bytes, ltb, arith,
  length, length-append, length-take, take, ◌++◌,
}
use serial_hub.LogAgg.{
  add_data, Aggregator, max_content_bytes, add, flush_at, flush_now, remove_pending, is_pending,
  fires, step, Op, run, new_aggregator, adds, flushes,
}

-- Nothing is in the window and no timer runs, or something is, and the timer of this epoch runs.
abbrev pub IsTimed : Aggregator → Type 0
IsTimed a =
    ((a.count ≡ 0) × (a.timer ≡ none) × (a.total ≡ 0) × (a.buf ≡ []) × (a.truncated ≡ false))
    ⊎ ((0 < a.count) × (a.timer ≡ some a.epoch) × (is_pending a.epoch a.pending ≡ true))

pub record IsValid (a : Aggregator) : Type 0 where
  pub timed : IsTimed a
  pub shown : length a.buf ≤ max_content_bytes
  pub cut : a.truncated ≡ ltb (length a.buf) a.total
  pub within : length a.buf ≤ a.total

is_pending-remove :
    (e x : ℕ) (xs : List ℕ)
    → is_pending x xs ≡ true
    → (x ≡ e) ⊎ (is_pending x (remove_pending e xs) ≡ true)
unfolding is_pending remove_pending
is_pending-remove e x [] h = cc
is_pending-remove e x (y ∷ xs) h = ground (arith, is_pending-remove e x xs)

add-IsValid : (a : Aggregator) (x : ℕ) (chunk : Bytes) → IsValid a → IsValid (add a (x ∷ chunk))
unfolding add is_pending
add-IsValid a x chunk v = ground (
  arith,
  length-append a.buf (x ∷ chunk),
  length-append a.buf (take (max_content_bytes - length a.buf) (x ∷ chunk)),
  length-take (max_content_bytes - length a.buf) (x ∷ chunk),
)

flush_now-IsValid : (a : Aggregator) (stopped : Bool) → IsValid a → IsValid (flush_now a stopped)
unfolding flush_now
flush_now-IsValid a stopped v = ground arith

fire-IsValid : (a : Aggregator) (e : ℕ) → IsValid a → IsValid (step a (fires e))
unfolding step flush_at
fire-IsValid a e v = ground (arith, is_pending-remove e a.epoch a.pending)

step-IsValid : (a : Aggregator) (op : Op) → IsValid a → IsValid (step a op)
step-IsValid a (adds []) v = unfold step add_data in v
step-IsValid a (adds (x ∷ chunk)) v = unfold step add_data in add-IsValid a x chunk v
step-IsValid a (fires e) v = fire-IsValid a e v
step-IsValid a (flushes stopped) v = unfold step in flush_now-IsValid a stopped v

run-IsValid : (a : Aggregator) (ops : List Op) → IsValid a → IsValid (run a ops)
unfolding run
run-IsValid a [] v = v
run-IsValid a (op ∷ ops) v = run-IsValid (step a op) ops (step-IsValid a op v)

pub new-IsValid : IsValid new_aggregator
unfolding new_aggregator
new-IsValid = ground arith

window_fires :
    (a : Aggregator)
    → IsValid a
    → 0 < a.count
    → let t = step a (fires a.epoch) in
      (is_pending a.epoch a.pending ≡ true)
      × (t.lines
          ≡ a.lines
            ++ record {
              count = a.count;
              total = a.total;
              truncated = ltb (length a.buf) a.total;
              content = a.buf;
            }
              ∷ [])
      × (t.count ≡ 0)
      × (length a.buf ≤ max_content_bytes)
unfolding step flush_at
window_fires a v h = ground arith

-- In whatever order data arrives, timers fire and the process flushes: as long as a window holds
-- data, the callback of the current epoch is still to run, and when it runs the window becomes one
-- line with its counts and is empty; the content shown is at most 512 bytes, and the line is marked
-- as truncated exactly if it shows fewer bytes than were counted.
pub run_window :
    (ops : List Op)
    → let a = run new_aggregator ops in
      0 < a.count
      → let t = step a (fires a.epoch) in
        (is_pending a.epoch a.pending ≡ true)
        × (t.lines
            ≡ a.lines
              ++ record {
                count = a.count;
                total = a.total;
                truncated = ltb (length a.buf) a.total;
                content = a.buf;
              }
                ∷ [])
        × (t.count ≡ 0)
        × (length a.buf ≤ max_content_bytes)
run_window ops h =
    let v = run-IsValid new_aggregator ops new-IsValid in window_fires (run new_aggregator ops) v h
