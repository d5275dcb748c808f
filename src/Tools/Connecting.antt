-- ===== src/Tools/Connecting.antt =====
-- The connecting tool (pkg/mcp/tools/serial_connect.go).
use serial_hub.Prelude.{
  ap, ◌≡◌, ◌↔◌, refl, sym, ◌∙◌, true, false, Option, none, some, Bytes, Bool-cases, inl, inr, arith,
  bytes_eq_iff, ◌⊎◌,
}
use serial_hub.Serial.Manager.{
  Manager, Driver, ManagerError, is_connected, current_port, connect, update_config,
}
use serial_hub.Serial.Manager.Connecting.{connect-Outcome, connect-gen, refused, opened}
use serial_hub.Tools.{
  config_not_updated, not_opened, ConnectInput, Reply, is_success, Between, connected_result,
  existing_connection_result, recheck_result, requested, execute_serial_connect,
}

-- Nobody else touches the manager.
abbrev pub alone : Between
alone n s = s

-- The reply is right about the manager that the call leaves.
unfoldable pub IsTrue : Bytes → Manager × Reply → Type 0
IsTrue want r =
    ((is_success r.1 ≡ true) ↔ ((is_connected r.0 ≡ true) × (current_port r.0 ≡ want)))
    × ((is_success r.1 ≡ false) ⊎ (r.1 ≡ connected_result r.0))

existing-IsTrue :
    (s : Manager) (want : Bytes)
    → is_connected s ≡ true
    → IsTrue want (existing_connection_result alone s want)
unfolding existing_connection_result IsTrue
existing-IsTrue s want c = ground (arith, bytes_eq_iff (current_port s) want)

disconnected-IsTrue :
    (s : Manager) (want : Bytes) (r : Reply)
    → is_connected s ≡ false
    → is_success r ≡ false
    → IsTrue want (s, r)
unfolding IsTrue
disconnected-IsTrue s want r c f = ((λ e. cc, λ e. cc), inl f)

Updated : Manager → ConnectInput → Manager × Option ManagerError → Type 0
Updated s input r =
    ((x : ManagerError) × (r.1 ≡ some x) × (is_connected r.0 ≡ false))
    ⊎ ((r.1 ≡ none) × (is_connected r.0 ≡ false) × (r.0.config ≡ requested input))

update_config-Updated :
    (s : Manager) (input : ConnectInput)
    → is_connected s ≡ false
    → Updated s input (update_config s (some (requested input)))
unfolding Updated update_config is_connected
update_config-Updated s input c = ground arith

connect_cases :
    (d : Driver) (s : Manager)
    → is_connected s ≡ false
    → ((x : ManagerError) × ((connect d s).1 ≡ some x) × (is_connected (connect d s).0 ≡ false))
      ⊎ (((connect d s).1 ≡ none)
          × (is_connected (connect d s).0 ≡ true)
          × ((connect d s).0.config ≡ s.config))
unfolding is_connected
connect_cases d s c = elim (connect-Outcome d s) [
  | refused e r same ↦ inl (e, r, rw same c)
  | opened m p r a b e f port u ↦ inr (r, rw (is_connected, port) refl, (connect-gen d s).1)
]

connected-IsTrue :
    (s : Manager) (want : Bytes)
    → is_connected s ≡ true
    → s.config.port ≡ want
    → IsTrue want (s, connected_result s)
unfolding IsTrue is_connected current_port
connected-IsTrue s want c p = ground arith

-- If nobody else touches the manager, the connecting tool reports success exactly if it leaves the
-- manager connected to the port that was asked for, and then with the configuration in force.
pub execute_serial_connect-IsTrue :
    (d : Driver) (s : Manager) (input : ConnectInput)
    → IsTrue input.port (execute_serial_connect d alone s input)
unfolding execute_serial_connect recheck_result Updated
execute_serial_connect-IsTrue d s input =
    let u = (update_config s (some (requested input))).0 in
    elim (Bool-cases (is_connected s)) [
      | inl c ↦ rw (execute_serial_connect, c) (existing-IsTrue s input.port c)
      | inr c ↦ elim (update_config-Updated s input c) [
        | inl (x, e, k) ↦
            rw (execute_serial_connect, c, e, recheck_result, k)
              (disconnected-IsTrue u input.port (config_not_updated x) k refl)
        | inr (e, k, g) ↦ elim (connect_cases d u k) [
          | inl (x, f, l) ↦
              rw (execute_serial_connect, c, e, f, recheck_result, l)
                (disconnected-IsTrue (connect d u).0 input.port (not_opened x) l refl)
          | inr (f, l, h) ↦
              rw (execute_serial_connect, c, e, f)
                (connected-IsTrue (connect d u).0 input.port l (ap (λ c. c.port) (h ∙ g)))
        ]
      ]
    ]

again_connected :
    (d : Driver) (s : Manager) (again : ConnectInput)
    → is_connected s ≡ true
    → current_port s ≡ again.port
    → execute_serial_connect d alone s again ≡ (s, connected_result s)
unfolding execute_serial_connect existing_connection_result
again_connected d s again c p =
    rw (execute_serial_connect, c) (rw ((bytes_eq_iff (current_port s) again.port).1 p) refl)

-- Connecting again to the same port, with whatever baud rate, changes nothing and gives the same
-- reply, if nobody else touches the manager.
pub execute_serial_connect-again :
    (d : Driver) (s : Manager) (input again : ConnectInput)
    → is_success (execute_serial_connect d alone s input).1 ≡ true
    → again.port ≡ input.port
    → execute_serial_connect d alone (execute_serial_connect d alone s input).0 again
      ≡ execute_serial_connect d alone s input
unfolding IsTrue
execute_serial_connect-again d s input again h p =
    let r = execute_serial_connect d alone s input in
    let (iff, shape) = execute_serial_connect-IsTrue d s input in
    let (c, q) = iff.0 h in
    elim shape [
      | inl f ↦ cc
      | inr e ↦ again_connected d r.0 again c (q ∙ sym p) ∙ ap (λ x. (r.0, x)) (sym e)
    ]
