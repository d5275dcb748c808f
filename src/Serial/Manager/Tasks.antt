-- ===== src/Serial/Manager/Tasks.antt =====
-- The tasks of `reconnectLoop` (pkg/serial/manager.go): how long each is valid.
use mathlib.Core.Path.{subst}
use serial_hub.Prelude.{
  Bool-cases, ap, ℕ, suc, ◌+◌, ◌≤◌, ◌<◌, ◌^◌, sym, inl, inr, List, [], ◌∷◌, Bytes, arith,
  Option-cases, length, Option, if◌then◌else◌, ◌≡◌, false, refl, some,
}
use serial_hub.Serial.Manager.{
  Manager, Driver, Effect, start_reading, close_port, emit, change_config, start_reconnecting,
  write_port, connect, disconnect, write_under_lock, update_config, close,
  handle_unexpected_disconnect, reconnect_connect, reconnect_update_config, publish, report, Task,
  reconnect_active, Config, reconnect_cancelled,
}
use serial_hub.Serial.Manager.Steps.{
  Op, connects, disconnects, writes, writes_if, updates, closes, loses, publishes, reconnects,
  reconnect_updates, step, write_after, write_if_same_gen_after, run,
}

-- The tasks of a log, newest first, have falling generations below `n`.
abbrev pub Fall : ℕ → List Effect → Type 0
Fall n [] = Unit {0}
Fall n (start_reconnecting t ∷ log) = (t.gen < n) × Fall t.gen log
Fall n (_ ∷ log) = Fall n log

Fall-mono : {m n : ℕ} (log : List Effect) → m ≤ n → Fall m log → Fall n log
Fall-mono [] h f = tt
Fall-mono (start_reconnecting t ∷ log) h f = (omega arith, f.1)
Fall-mono (start_reading p ∷ log) h f = Fall-mono log h f
Fall-mono (close_port p ∷ log) h f = Fall-mono log h f
Fall-mono (emit e ∷ log) h f = Fall-mono log h f
Fall-mono (change_config c ∷ log) h f = Fall-mono log h f
Fall-mono (write_port p x ∷ log) h f = Fall-mono log h f

-- One section adds at most one task, under a new generation, which it makes the current one.
record Moves (s t : Manager) : Type 0 where
  grows : s.reconnect_gen ≤ t.reconnect_gen
  slowly : t.reconnect_gen ≤ suc s.reconnect_gen
  falls : Fall (suc s.reconnect_gen) s.log → Fall (suc t.reconnect_gen) t.log

write_under_lock-Moves :
    (d : Driver) (s : Manager) (p : ℕ) (chunk : Bytes) → Moves s (write_under_lock d s p chunk).0
unfolding write_under_lock report
write_under_lock-Moves d s p chunk = elim (Option-cases (d.write p chunk).1) [
  | inl e ↦ rw e (ground arith)
  | inr (x, e) ↦ rw e (ground arith)
]

stays : (s : Manager) → Moves s s
stays s = ground arith

step-Moves : (s : Manager) (op : Op) → s.reconnect_gen + 1 < 2 ^ 64 → Moves s (step s op)
unfolding step
step-Moves s (connects d) b = unfold connect in ground arith
step-Moves s disconnects b =
    unfold disconnect in
    ground (arith, Fall-mono {m = suc s.reconnect_gen} {n = suc (suc s.reconnect_gen)} s.log)
step-Moves s (writes d chunk) b = elim (write_after d s chunk) [
  | inl e ↦ subst (Moves s) (sym e) (stays s)
  | inr (q, _, e) ↦ subst (Moves s) (sym e) (write_under_lock-Moves d s q chunk)
]
step-Moves s (writes_if d gen chunk) b = elim (write_if_same_gen_after d s gen chunk) [
  | inl e ↦ subst (Moves s) (sym e) (stays s)
  | inr (q, _, _, e) ↦ subst (Moves s) (sym e) (write_under_lock-Moves d s q chunk)
]
step-Moves s (updates cfg) b =
    unfold update_config in
    ground (arith, Fall-mono {m = suc s.reconnect_gen} {n = suc (suc s.reconnect_gen)} s.log)
step-Moves s closes b = unfold close in ground arith
step-Moves s (loses q cause) b =
    unfold handle_unexpected_disconnect in
    ground (arith, Fall-mono {m = suc s.reconnect_gen} {n = suc (suc s.reconnect_gen)} s.log)
step-Moves s (publishes q chunk) b = unfold publish in ground arith
step-Moves s (reconnects d gen) b = unfold reconnect_connect in ground arith
step-Moves s (reconnect_updates gen cfg) b = unfold reconnect_update_config in ground arith

run-Moves :
    (s : Manager) (ops : List Op)
    → s.reconnect_gen + length ops < 2 ^ 64
    → (s.reconnect_gen ≤ (run s ops).reconnect_gen)
      × (Fall (suc s.reconnect_gen) s.log → Fall (suc (run s ops).reconnect_gen) (run s ops).log)
unfolding run
run-Moves s [] b = (omega arith, λ f. f)
run-Moves s (op ∷ ops) b =
    let m = step-Moves s op (omega arith) in
    let (grows, falls) = run-Moves (step s op) ops (omega (arith, m.slowly)) in
    (omega (arith, m.grows), λ f. falls (m.falls f))

pub run-grows :
    (s : Manager) (ops : List Op)
    → s.reconnect_gen + length ops < 2 ^ 64
    → (s.reconnect_gen ≤ (run s ops).reconnect_gen)
      × ((run s ops).reconnect_gen ≤ s.reconnect_gen + length ops)
unfolding run
run-grows s [] b = (omega arith, omega arith)
run-grows s (op ∷ ops) b =
    let m = step-Moves s op (omega arith) in
    let (low, high) = run-grows (step s op) ops (omega (arith, m.slowly)) in
    (omega (arith, m.grows), omega (arith, m.slowly))

-- The tasks of a log that would act on the manager now.
pub active_tasks : Manager → List Effect → List Task
active_tasks s [] = []
active_tasks s (start_reconnecting t ∷ log) =
    if reconnect_active s t.gen then t ∷ active_tasks s log else active_tasks s log
active_tasks s (_ ∷ log) = active_tasks s log

none_active :
    (s : Manager) (n : ℕ) (log : List Effect)
    → n ≤ s.reconnect_gen
    → Fall n log
    → active_tasks s log ≡ []
unfolding active_tasks reconnect_active
none_active s n [] h f = refl
none_active s n (start_reconnecting t ∷ log) h f = ground (arith, none_active s t.gen log)
none_active s n (start_reading p ∷ log) h f = none_active s n log h f
none_active s n (close_port p ∷ log) h f = none_active s n log h f
none_active s n (emit e ∷ log) h f = none_active s n log h f
none_active s n (change_config c ∷ log) h f = none_active s n log h f
none_active s n (write_port p x ∷ log) h f = none_active s n log h f

one_active :
    (s : Manager) (log : List Effect)
    → Fall (suc s.reconnect_gen) log
    → length (active_tasks s log) ≤ 1
unfolding active_tasks
one_active s [] f = omega arith
one_active s (start_reconnecting t ∷ log) f = elim (Bool-cases (reconnect_active s t.gen)) [
  | inl on ↦ rw on (omega (arith, ap length (none_active s t.gen log (omega arith) f.1)))
  | inr off ↦
      rw off
        (one_active s log (Fall-mono {m = t.gen} {n = suc s.reconnect_gen} log (omega arith) f.1))
]
one_active s (start_reading p ∷ log) f = one_active s log f
one_active s (close_port p ∷ log) f = one_active s log f
one_active s (emit e ∷ log) f = one_active s log f
one_active s (change_config c ∷ log) f = one_active s log f
one_active s (write_port p x ∷ log) f = one_active s log f

-- At any time, as long as the generation has not wrapped around, at most one of the reconnection
-- tasks ever started is active; the tasks started before `s` have falling generations, none later
-- than that of `s`.
pub run_one_active :
    (s : Manager) (ops : List Op)
    → Fall (suc s.reconnect_gen) s.log
    → s.reconnect_gen + length ops < 2 ^ 64
    → length (active_tasks (run s ops) (run s ops).log) ≤ 1
run_one_active s ops f b = one_active (run s ops) (run s ops).log ((run-Moves s ops b).1 f)

-- What a user does on purpose.
pub data IsIntervention : Op → Type 0 where
  disconnecting : IsIntervention disconnects
  configuring : {cfg : Option Config} → IsIntervention (updates cfg)

intervened-gen :
    (s : Manager) {op : Op}
    → IsIntervention op
    → s.reconnect_gen + 1 < 2 ^ 64
    → s.reconnect_gen < (step s op).reconnect_gen
unfolding step disconnect update_config
intervened-gen s disconnecting b = ground arith
intervened-gen s configuring b = ground arith

void_later :
    (t : Manager) (gen : ℕ) (d : Driver) (c : Config)
    → gen < t.reconnect_gen
    → (reconnect_active t gen ≡ false)
      × (reconnect_connect d t gen ≡ (t, some reconnect_cancelled))
      × (reconnect_update_config t gen c ≡ (t, false))
unfolding reconnect_active reconnect_connect reconnect_update_config
void_later t gen d c h = ground arith

-- Once a user disconnects or changes the configuration, whether that succeeds or not, a task
-- started earlier is void for good: whatever else happens, short of wrapping the generation
-- around, it is not active, cannot connect and cannot change the configuration.
pub intervention_voids :
    (s : Manager) (gen : ℕ) {op : Op} (ops : List Op) (d : Driver) (c : Config)
    → IsIntervention op
    → gen ≤ s.reconnect_gen
    → s.reconnect_gen + 1 + length ops < 2 ^ 64
    → let t = run s (op ∷ ops) in
      (reconnect_active t gen ≡ false)
      × (reconnect_connect d t gen ≡ (t, some reconnect_cancelled))
      × (reconnect_update_config t gen c ≡ (t, false))
unfolding run
intervention_voids s gen {op} ops d c i h b =
    let m = step-Moves s op (omega arith) in
    let later = run-Moves (step s op) ops (omega (arith, m.slowly)) in
    void_later (run (step s op) ops) gen d c
      (omega (arith, intervened-gen s i (omega arith), later.0))
