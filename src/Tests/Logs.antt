-- ===== src/Tests/Logs.antt =====
-- internal/logagg/logagg.go on concrete input.
use serial_hub.Prelude.{
  ◌+◌, ◌≤◌, ◌≡◌, refl, [], ◌∷◌, ◌++◌, List, codes, true, false, arith, length, ltb,
}
use serial_hub.LogAgg.{
  new_aggregator, Op, adds, fires, flushes, add_data, flush_at, flush_now, is_pending, step, run,
  max_content_bytes,
}
use serial_hub.LogAgg.Windows.{run_window}
use serial_hub.LogAgg.Accounts.{run_accounts, counts, totals}

abbrev traffic : List Op
traffic = adds (codes "ab") ∷ flushes false ∷ adds (codes "c") ∷ fires 0 ∷ adds (codes "d") ∷ []

-- The stale callback of the first window leaves the second one alone.
stale : (run new_aggregator traffic).count ≡ 2
unfolding new_aggregator run step add_data flush_at flush_now is_pending
stale = refl

run_window_example :
    let a = run new_aggregator traffic in
    let t = step a (fires a.epoch) in
    (is_pending a.epoch a.pending ≡ true)
    × (t.lines
        ≡ a.lines
          ++ record {
            count = a.count;
            total = a.total;
            truncated = ltb (length a.buf) a.total;
            content = a.buf;
          }
            ∷ [])
    × (t.count ≡ 0)
    × (length a.buf ≤ max_content_bytes)
run_window_example = run_window traffic (rw stale (omega arith))

run_accounts_example :
    (counts (run new_aggregator traffic).lines + (run new_aggregator traffic).count ≡ 3)
    × (totals (run new_aggregator traffic).lines + (run new_aggregator traffic).total ≡ 4)
unfolding new_aggregator
run_accounts_example = run_accounts new_aggregator traffic
