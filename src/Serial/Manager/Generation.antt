-- ===== src/Serial/Manager/Generation.antt =====
-- The connection generation and the writes that depend on it (pkg/serial/manager.go).
use mathlib.Core.Path.{subst}
use native.Mathlib.Nat.{add-zero, add-suc, suc-add}
use serial_hub.Prelude.{
  ℕ, suc, ◌+◌, ◌≤◌, ◌<◌, ◌^◌, ◌≡◌, sym, ◌⊎◌, inl, inr, List, [], ◌∷◌, none, some, true, Bytes,
  arith, length, Option-cases,
}
use serial_hub.Serial.Config.{Config}
use serial_hub.Serial.Manager.{
  Manager, Driver, write_port, stale_connection, connect, disconnect, write_if_same_gen,
  write_under_lock, update_config, close, handle_unexpected_disconnect, reconnect_connect,
  reconnect_update_config, publish, report,
}
use serial_hub.Serial.Manager.Steps.{
  Op, connects, disconnects, writes, writes_if, updates, closes, loses, publishes, reconnects,
  reconnect_updates, step, run, write_after, write_if_same_gen_after,
}

-- At most `k` sections after the connection `p` of generation `g` was seen: it is still there, with
-- its configuration, or the manager is closed, or the generation has grown.
record Held (g p : ℕ) (c : Config) (k : ℕ) (s : Manager) : Type 0 where
  gens : s.reconnect_gen ≤ g + k
  held :
      ((s.reconnect_gen ≡ g)
        × (((s.port ≡ some p) × (s.config ≡ c)) ⊎ ((s.port ≡ none) × (s.closed ≡ true))))
      ⊎ (g < s.reconnect_gen)

module _ (g p : ℕ) (c : Config) where
  write_under_lock-Held :
      (k : ℕ) (d : Driver) (s : Manager) (q : ℕ) (chunk : Bytes)
      → Held g p c k s
      → Held g p c (suc k) (write_under_lock d s q chunk).0
  unfolding write_under_lock report
  write_under_lock-Held k d s q chunk h = elim (Option-cases (d.write q chunk).1) [
    | inl e ↦ rw e (ground arith)
    | inr (x, e) ↦ rw e (ground arith)
  ]

  later : (k : ℕ) (s : Manager) → Held g p c k s → Held g p c (suc k) s
  later k s h = ground arith

  step-Held :
      (k : ℕ) (s : Manager) (op : Op)
      → g + suc k < 2 ^ 64
      → Held g p c k s
      → Held g p c (suc k) (step s op)
  unfolding step
  step-Held k s (connects d) b h = unfold connect in ground arith
  step-Held k s disconnects b h = unfold disconnect in ground arith
  step-Held k s (writes d chunk) b h = elim (write_after d s chunk) [
    | inl e ↦ subst (Held g p c (suc k)) (sym e) (later k s h)
    | inr (q, _, e) ↦ subst (Held g p c (suc k)) (sym e) (write_under_lock-Held k d s q chunk h)
  ]
  step-Held k s (writes_if d gen chunk) b h = elim (write_if_same_gen_after d s gen chunk) [
    | inl e ↦ subst (Held g p c (suc k)) (sym e) (later k s h)
    | inr (q, _, _, e) ↦ subst (Held g p c (suc k)) (sym e) (write_under_lock-Held k d s q chunk h)
  ]
  step-Held k s (updates cfg) b h = unfold update_config in ground arith
  step-Held k s closes b h = unfold close in ground arith
  step-Held k s (loses q cause) b h = unfold handle_unexpected_disconnect in ground arith
  step-Held k s (publishes q chunk) b h = unfold publish in ground arith
  step-Held k s (reconnects d gen) b h = unfold reconnect_connect in ground arith
  step-Held k s (reconnect_updates gen cfg) b h = unfold reconnect_update_config in ground arith

  run-Held :
      (k : ℕ) (s : Manager) (ops : List Op)
      → g + k + length ops < 2 ^ 64
      → Held g p c k s
      → Held g p c (k + length ops) (run s ops)
  unfolding run
  run-Held k s [] b h = rw add-zero h
  run-Held k s (op ∷ ops) b h =
      rw (add-suc, ← suc-add)
        (run-Held (suc k) (step s op) ops (omega arith) (step-Held k s op (omega arith) h))

-- The write is refused with nothing changed, or it puts `chunk` on `p` and does nothing else.
abbrev pub IsGuarded : Driver → Manager → ℕ → Config → ℕ → Bytes → Type 0
IsGuarded d t p c g chunk =
    (write_if_same_gen d t g chunk ≡ (t, (0, some stale_connection)))
    ⊎ (((write_if_same_gen d t g chunk).0.log ≡ write_port p chunk ∷ t.log)
        × (t.port ≡ some p)
        × (t.config ≡ c)
        × ((write_if_same_gen d t g chunk).1.0 ≡ (d.write p chunk).0))

Held-IsGuarded :
    (g p : ℕ) (c : Config) (k : ℕ) (t : Manager) (d : Driver) (chunk : Bytes)
    → Held g p c k t
    → IsGuarded d t p c g chunk
unfolding write_if_same_gen write_under_lock report
Held-IsGuarded g p c k t d chunk h = elim (Option-cases (d.write p chunk).1) [
  | inl e ↦ ground arith
  | inr (x, e) ↦ ground arith
]

-- A script saw the connection to port `p` in state `s`. After any sequence of critical sections of
-- anybody, fewer than would wrap the generation around, `WriteIfSameGen` with the generation of
-- `s` is either refused as stale, with nothing changed and nothing written, or it writes exactly
-- the given bytes to `p`, which is still the open port under the configuration of `s`.
pub write_if_same_gen_safe :
    (s : Manager) (p : ℕ) (ops : List Op) (d : Driver) (chunk : Bytes)
    → s.port ≡ some p
    → s.reconnect_gen + length ops < 2 ^ 64
    → IsGuarded d (run s ops) p s.config s.reconnect_gen chunk
write_if_same_gen_safe s p ops d chunk e b =
    Held-IsGuarded s.reconnect_gen p s.config (0 + length ops) (run s ops) d chunk
      (run-Held s.reconnect_gen p s.config 0 s ops (omega arith) (ground arith))
