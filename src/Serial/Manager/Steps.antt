-- ===== src/Serial/Manager/Steps.antt =====
-- The manager under any interleaving of its users, its reading loops and its reconnection tasks:
-- the mutex makes each critical section of pkg/serial/manager.go one step.
use serial_hub.Prelude.{
  ◌≡◌, ◌⊎◌, inl, inr, some, Option-cases, Bool-cases, arith, ◌==◌, ℕ, List, [], ◌∷◌, Option, Bytes,
}
use serial_hub.Serial.Config.{Config}
use serial_hub.Serial.Manager.{
  write_under_lock, Manager, Driver, Cause, connect, disconnect, write, write_if_same_gen,
  update_config, close, handle_unexpected_disconnect, reconnect_connect, reconnect_update_config,
  publish,
}

pub data Op : Type 0 where
  connects : Driver → Op
  disconnects : Op
  writes : Driver → Bytes → Op
  writes_if : Driver → ℕ → Bytes → Op
  updates : Option Config → Op
  closes : Op
  loses : ℕ → Cause → Op
  publishes : ℕ → Bytes → Op
  reconnects : Driver → ℕ → Op
  reconnect_updates : ℕ → Config → Op

unfoldable pub step : Manager → Op → Manager
step s (connects d) = (connect d s).0
step s disconnects = disconnect s
step s (writes d chunk) = (write d s chunk).0
step s (writes_if d gen chunk) = (write_if_same_gen d s gen chunk).0
step s (updates c) = (update_config s c).0
step s closes = close s
step s (loses p cause) = handle_unexpected_disconnect s p cause
step s (publishes p chunk) = publish s p chunk
step s (reconnects d gen) = (reconnect_connect d s gen).0
step s (reconnect_updates gen c) = (reconnect_update_config s gen c).0

unfoldable pub run : Manager → List Op → Manager
run s [] = s
run s (op ∷ ops) = run (step s op) ops

-- A write that is refused changes nothing; any other goes to the manager's port.
module _ (d : Driver) (s : Manager) where
  pub write_after :
      (chunk : Bytes)
      → ((write d s chunk).0 ≡ s)
        ⊎ ((p : ℕ) × (s.port ≡ some p) × ((write d s chunk).0 ≡ (write_under_lock d s p chunk).0))
  unfolding write
  write_after chunk = elim (Option-cases s.port) [
    | inl e ↦ inl (ground arith)
    | inr (p, e) ↦ inr (p, e, ground arith)
  ]

  pub write_if_same_gen_after :
      (gen : ℕ) (chunk : Bytes)
      → ((write_if_same_gen d s gen chunk).0 ≡ s)
        ⊎ ((p : ℕ) × (s.port ≡ some p)
            × (s.reconnect_gen ≡ gen)
            × ((write_if_same_gen d s gen chunk).0 ≡ (write_under_lock d s p chunk).0))
  unfolding write_if_same_gen
  write_if_same_gen_after gen chunk = elim (Option-cases s.port) [
    | inl e ↦ inl (ground arith)
    | inr (p, e) ↦ elim (Bool-cases (s.reconnect_gen == gen)) [
      | inl same ↦ inr (p, e, ground arith, ground arith)
      | inr stale ↦ inl (ground arith)
    ]
  ]
