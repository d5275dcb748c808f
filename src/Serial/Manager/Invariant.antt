-- ===== src/Serial/Manager/Invariant.antt =====
-- What holds of the manager between two critical sections (pkg/serial/manager.go).
use mathlib.Core.Path.{subst}
use serial_hub.Prelude.{
  sym, Option-cases, inl, inr, ◌+◌, ℕ, ◌≤◌, ◌<◌, ◌^◌, ◌≡◌, ◌⊎◌, List, [], ◌∷◌, ◌++◌, none, false,
  Bytes, arith, length, length-append, ◌≢◌,
}
use serial_hub.Serial.Manager.{
  write_under_lock, write_error, lost_port, Cause, Manager, data_chan_size, err_chan_size, connect,
  disconnect, write, write_if_same_gen, update_config, close, handle_unexpected_disconnect,
  reconnect_connect, reconnect_update_config, publish, report, Report, Driver,
}
use serial_hub.Serial.Manager.Steps.{
  write_after, write_if_same_gen_after, Op, connects, disconnects, writes, writes_if, updates,
  closes, loses, publishes, reconnects, reconnect_updates, step, run,
}

pub record IsValid (s : Manager) : Type 0 where
  pub closed_cancelled : s.closed ≡ s.cancelled
  pub closed_port : (s.closed ≡ false) ⊎ (s.port ≡ none)
  pub vid_port : (s.port ≢ none) ⊎ ((s.port_vid ≡ []) × (s.port_pid ≡ []))
  pub data_bounded : length s.data_chan ≤ data_chan_size
  pub err_bounded : length s.err_chan ≤ err_chan_size
  pub gen_bounded : s.reconnect_gen < 2 ^ 64

length-concat {ℓ} : {A : Type ℓ} (xs : List A) (x : A) → length (xs ++ x ∷ []) ≡ length xs + 1
length-concat xs x = omega (arith, length-append xs (x ∷ []))

report-IsValid : (r : Report) (s : Manager) → IsValid s → IsValid (report r s)
unfolding report
report-IsValid r s v = ground (arith, length-concat s.err_chan r)

write_under_lock-IsValid :
    (d : Driver) (s : Manager) (p : ℕ) (chunk : Bytes)
    → IsValid s
    → IsValid (write_under_lock d s p chunk).0
unfolding write_under_lock report
write_under_lock-IsValid d s p chunk v = elim (Option-cases (d.write p chunk).1) [
  | inl e ↦ rw e (ground arith)
  | inr (x, e) ↦ rw e (ground (arith, length-concat s.err_chan (write_error x)))
]

lose-IsValid :
    (s : Manager) (p : ℕ) (cause : Cause)
    → IsValid s
    → IsValid (handle_unexpected_disconnect s p cause)
unfolding handle_unexpected_disconnect
lose-IsValid s p cause v = ground (arith, length-concat s.err_chan (lost_port s.config.port cause))

write-IsValid : (d : Driver) (s : Manager) (chunk : Bytes) → IsValid s → IsValid (write d s chunk).0
write-IsValid d s chunk v = elim (write_after d s chunk) [
  | inl e ↦ subst IsValid (sym e) v
  | inr (p, _, e) ↦ subst IsValid (sym e) (write_under_lock-IsValid d s p chunk v)
]

write_if_same_gen-IsValid :
    (d : Driver) (s : Manager) (gen : ℕ) (chunk : Bytes)
    → IsValid s
    → IsValid (write_if_same_gen d s gen chunk).0
write_if_same_gen-IsValid d s gen chunk v = elim (write_if_same_gen_after d s gen chunk) [
  | inl e ↦ subst IsValid (sym e) v
  | inr (p, _, _, e) ↦ subst IsValid (sym e) (write_under_lock-IsValid d s p chunk v)
]

step-IsValid : (s : Manager) (op : Op) → IsValid s → IsValid (step s op)
unfolding step connect disconnect
step-IsValid s (connects d) v = ground arith
step-IsValid s disconnects v = ground arith
step-IsValid s (writes d chunk) v = write-IsValid d s chunk v
step-IsValid s (writes_if d gen chunk) v = write_if_same_gen-IsValid d s gen chunk v
step-IsValid s (updates c) v = unfold update_config in ground arith
step-IsValid s closes v = unfold close in ground arith
step-IsValid s (loses p cause) v = lose-IsValid s p cause v
step-IsValid s (publishes p chunk) v =
    unfold publish in ground (arith, length-concat s.data_chan chunk)
step-IsValid s (reconnects d gen) v = unfold reconnect_connect in ground arith
step-IsValid s (reconnect_updates gen c) v = unfold reconnect_update_config in ground arith

-- Every critical section keeps the manager valid, whichever it is and whoever runs it: a closed
-- manager has no port and is cancelled, a manager with no port knows no USB identity, and neither
-- channel holds more than its capacity.
pub run-IsValid : (s : Manager) (ops : List Op) → IsValid s → IsValid (run s ops)
unfolding run
run-IsValid s [] v = v
run-IsValid s (op ∷ ops) v = run-IsValid (step s op) ops (step-IsValid s op v)
