-- ===== src/Serial/Reconnect/Waits.antt =====
-- How long a reconnection task waits.
use serial_hub.Prelude.{
  zero, ℕ, suc, ◌*◌, ◌≤◌, ◌^◌, min, [], ◌∷◌, List, ◌≡◌, refl, arith, length, get_elem?, ◌+◌, some,
}
use serial_hub.Serial.Manager.{Manager, Task}
use serial_hub.Serial.Reconnect.{
  follow_attempt, ReconnectTurn, AttemptVerdict, stopped, failed, reconnected, attempt, Ending,
  reconnect_loop, double_delay, reconnect_base_delay, reconnect_max_delay, reconnect_max_attempts,
}

-- A delay of the loop, from its number.
abbrev pub delay_of : ℕ → ℕ
delay_of k = min (2 ^ k * reconnect_base_delay) reconnect_max_delay

double_delay-delay_of : (k : ℕ) → double_delay (delay_of k) ≡ delay_of (suc k)
unfolding double_delay
double_delay-delay_of k = ground arith

-- From the `k`-th on.
IsSchedule : ℕ → List ℕ → Type 0
IsSchedule k [] = Unit
IsSchedule k (d ∷ ds) = (d ≡ delay_of k) × IsSchedule (suc k) ds

follow_attempt-IsSchedule :
    (k n : ℕ) (s : Manager) (v : AttemptVerdict) (rest : Manager × (Ending × List ℕ))
    → length rest.1.1 ≤ n
    → IsSchedule (suc k) rest.1.1
    → let delays = (follow_attempt (delay_of k) s v rest).1.1 in
      (length delays ≤ suc n) × IsSchedule k delays
unfolding IsSchedule
follow_attempt-IsSchedule k n s stopped rest h i = (omega arith, (refl, tt))
follow_attempt-IsSchedule k n s failed rest h i = (omega arith, (refl, i))
follow_attempt-IsSchedule k n s (reconnected target) rest h i = (omega arith, (refl, tt))

delays-IsSchedule :
    (task : Task) (k : ℕ) (turns : List ReconnectTurn) (s : Manager)
    → let delays = (reconnect_loop task (delay_of k) turns s).1.1 in
      (length delays ≤ length turns) × IsSchedule k delays
unfolding reconnect_loop IsSchedule
delays-IsSchedule task k [] s = (omega arith, tt)
delays-IsSchedule task k (t ∷ turns) s =
    let (s', v) = attempt t task s in
    let (few, right) = delays-IsSchedule task (suc k) turns s' in
    rw (double_delay-delay_of k) (
      follow_attempt-IsSchedule k (length turns) s' v
        (reconnect_loop task (delay_of (suc k)) turns s') few right)

IsSchedule-get :
    (k : ℕ) (ds : List ℕ) (i d : ℕ)
    → IsSchedule k ds
    → get_elem? ds i ≡ some d
    → d ≡ delay_of (k + i)
unfolding IsSchedule
IsSchedule-get k [] i d r h = cc
IsSchedule-get k (x ∷ ds) zero d r h = ground arith
IsSchedule-get k (x ∷ ds) (suc i) d r h = ground (arith, IsSchedule-get (suc k) ds i d r.1 h)

abbrev pub sum : List ℕ → ℕ
sum [] = 0
sum (d ∷ ds) = d + sum ds

IsSchedule-sum : (k : ℕ) (ds : List ℕ) → IsSchedule k ds → sum ds ≤ length ds * reconnect_max_delay
unfolding IsSchedule
IsSchedule-sum k [] r = omega arith
IsSchedule-sum k (d ∷ ds) r = omega (arith, IsSchedule-sum (suc k) ds r.1, r.0)

-- The loop waits once for each attempt that it makes, at most the number of its turns: before the
-- attempt `i`, counted from 0, for 2^i seconds, but at most for 30 seconds. With the 30 attempts of
-- the program all its waits come to 15 minutes at most.
pub reconnect_loop-waits :
    (task : Task) (turns : List ReconnectTurn) (s : Manager)
    → length turns ≤ reconnect_max_attempts
    → let delays = (reconnect_loop task reconnect_base_delay turns s).1.1 in
      (length delays ≤ length turns)
      × ((i d : ℕ) → get_elem? delays i ≡ some d → d ≡ delay_of i)
      × (sum delays ≤ 900 * 1000000000)
reconnect_loop-waits task turns s h =
    let (few, right) = delays-IsSchedule task 0 turns s in
    let delays = (reconnect_loop task reconnect_base_delay turns s).1.1 in
    (
      few,
      λ i d e. ground (arith, IsSchedule-get 0 delays i d right e),
      omega (arith, IsSchedule-sum 0 delays right),
    )
