-- ===== src/LogAgg/Accounts.antt =====
-- Chunks and bytes counted by the data log (internal/logagg/logagg.go).
use serial_hub.Prelude.{ℕ, ◌+◌, ◌≡◌, [], ◌∷◌, ◌++◌, List, arith, length}
use serial_hub.LogAgg.{
  Line, Aggregator, add_data, flush_locked, flush_at, flush_now, stop_timer, remove_pending, Op,
  adds, fires, flushes, step, run,
}

-- What the lines report: chunks and bytes.
abbrev pub counts : List Line → ℕ
counts [] = 0
counts (l ∷ ls) = l.count + counts ls

abbrev pub totals : List Line → ℕ
totals [] = 0
totals (l ∷ ls) = l.total + totals ls

-- What was added: the number of chunks that hold something, and their bytes.
abbrev pub added_chunks : List Op → ℕ
added_chunks [] = 0
added_chunks (adds [] ∷ ops) = added_chunks ops
added_chunks (adds (x ∷ chunk) ∷ ops) = 1 + added_chunks ops
added_chunks (fires e ∷ ops) = added_chunks ops
added_chunks (flushes stopped ∷ ops) = added_chunks ops

abbrev pub added_bytes : List Op → ℕ
added_bytes [] = 0
added_bytes (adds chunk ∷ ops) = length chunk + added_bytes ops
added_bytes (fires e ∷ ops) = added_bytes ops
added_bytes (flushes stopped ∷ ops) = added_bytes ops

counts-append : (ls : List Line) (l : Line) → counts (ls ++ l ∷ []) ≡ counts ls + l.count
counts-append [] l = omega arith
counts-append (k ∷ ls) l = omega (arith, counts-append ls l)

totals-append : (ls : List Line) (l : Line) → totals (ls ++ l ∷ []) ≡ totals ls + l.total
totals-append [] l = omega arith
totals-append (k ∷ ls) l = omega (arith, totals-append ls l)

abbrev Accounts : Aggregator → ℕ → ℕ → Aggregator → Type 0
Accounts a chunks bytes t =
    (counts t.lines + t.count ≡ counts a.lines + a.count + chunks)
    × (totals t.lines + t.total ≡ totals a.lines + a.total + bytes)

flush_locked-Accounts : (a : Aggregator) → Accounts a 0 0 (flush_locked a)
unfolding flush_locked
flush_locked-Accounts a = ground (
  arith,
  counts-append a.lines
      (record { count = a.count; total = a.total; truncated = a.truncated; content = a.buf }),
  totals-append a.lines
      (record { count = a.count; total = a.total; truncated = a.truncated; content = a.buf }),
)

step-Accounts :
    (a : Aggregator) (op : Op)
    → Accounts a (added_chunks (op ∷ [])) (added_bytes (op ∷ [])) (step a op)
unfolding step
step-Accounts a (adds []) = unfold add_data in ground arith
step-Accounts a (adds (x ∷ chunk)) = unfold add_data in ground arith
step-Accounts a (fires e) =
    unfold flush_at in
    ground (arith, flush_locked-Accounts (record a { pending = remove_pending e a.pending }))
step-Accounts a (flushes stopped) =
    unfold flush_now stop_timer in ground (arith, flush_locked-Accounts (stop_timer a stopped))

added_cons :
    (op : Op) (ops : List Op)
    → (added_chunks (op ∷ ops) ≡ added_chunks (op ∷ []) + added_chunks ops)
      × (added_bytes (op ∷ ops) ≡ added_bytes (op ∷ []) + added_bytes ops)
added_cons (adds []) ops = (omega arith, omega arith)
added_cons (adds (x ∷ chunk)) ops = (omega arith, omega arith)
added_cons (fires e) ops = (omega arith, omega arith)
added_cons (flushes stopped) ops = (omega arith, omega arith)

-- No chunk and no byte is lost or counted twice, in whatever order data arrives, timers fire and
-- the process flushes: the counts of all lines together with those of the open window are the
-- chunks and the bytes that were added.
pub run_accounts :
    (a : Aggregator) (ops : List Op)
    → (counts (run a ops).lines + (run a ops).count ≡ counts a.lines + a.count + added_chunks ops)
      × (totals (run a ops).lines + (run a ops).total ≡ totals a.lines + a.total + added_bytes ops)
unfolding run
run_accounts a [] = (omega arith, omega arith)
run_accounts a (op ∷ ops) =
    omega (arith, step-Accounts a op, run_accounts (step a op) ops, added_cons op ops)
