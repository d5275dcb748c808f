-- ===== src/Tests/Masters.antt =====
-- internal/instance/instance.go and the election of cmd/serialhub/serve.go on concrete input.
use serial_hub.Instance.Lock.{
  LockInfo, no_processes, read_lock, read_unlock, acquire_lock, acquire_truncate, acquire_write,
  LockCall, step_at, step, run, unreadable, outside, reading, locking, active, live, refused, reads,
  acquires, truncates, updates, writes, crashes,
}
use serial_hub.Instance.Election.{
  beaten, new_budget, Exit, Round, run_stdio, Listen, try_ports, resolve_listen_port, master_lost,
  beaten, free, in_use,
}
use serial_hub.Prelude.{
  ℕ, zero, suc, ◌≡◌, refl, true, false, none, some, List, [], ◌∷◌, ◌++◌, arith, ltb, if◌then◌else◌,
  All, codes, pos, ok,
}
use serial_hub.Instance.Lock.Exclusion.{is_inside, run_exclusive}
use serial_hub.Instance.Lock.Discovery.{sound}
use serial_hub.Instance.Lock.Sessions.{
  live_master, follow_all, claiming, serving, phase_of, announced,
}
use serial_hub.Instance.Election.Rounds.{IsTelling, run_stdio-leaves}

abbrev own_info : LockInfo
own_info = record { pid = 7; port = pos 8080; host = codes "127.0.0.1"; started_at = [] }

-- Process 7 becomes the master while 8 tries the same; 9 had looked before.
abbrev bids : List (ℕ × LockCall)
bids =
    (9, reads sound)
    ∷ (7, acquires sound)
    ∷ (8, acquires sound)
    ∷ (7, truncates false own_info)
    ∷ (7, writes none)
    ∷ []

-- Process 7 is killed, and 9 is in the middle of a look.
abbrev looks : List (ℕ × LockCall)
looks = (7, acquires sound) ∷ (7, crashes) ∷ (9, reads sound) ∷ []

bids-inside : is_inside ((run no_processes bids).phase 7) ≡ true
unfolding run step step_at read_lock read_unlock acquire_lock acquire_truncate acquire_write
bids-inside = refl

run_exclusive_example : (run no_processes bids).phase 8 ≡ outside
run_exclusive_example = run_exclusive bids 7 8 bids-inside (λ e. absurd (omega arith))

-- Process 7 gets the lock, and then publishes another port.
abbrev claims : List (ℕ × LockCall)
claims = (9, reads sound) ∷ (7, acquires sound) ∷ []

abbrev serves : List (ℕ × LockCall)
serves =
    (8, acquires sound)
    ∷ (7, writes none)
    ∷ (7, updates false (pos 8081))
    ∷ (8, crashes)
    ∷ (7, writes none)
    ∷ []

claims-locking : (run no_processes claims).phase 7 ≡ locking
unfolding run step step_at read_lock acquire_lock
claims-locking = refl

second_port :
    follow_all 7 (claiming own_info) serves ≡ serving (record own_info { port = pos 8081 })
second_port = refl

live_master_example :
    let m = run no_processes (claims ++ (7, truncates false own_info) ∷ serves) in
    let st = follow_all 7 (claiming own_info) serves in
    (m.holder ≡ some 7)
    × (m.phase 7 ≡ phase_of st)
    × ((q : ℕ)
        → m.phase q ≡ outside
        → (step m q (reads sound) ≡ (m, live (announced st)))
          × (step m q (acquires sound) ≡ (m, refused active (announced st))))
live_master_example =
    live_master claims serves 7 own_info claims-locking (tt, (refl, (tt, (tt, (refl, tt)))))
      (tt, (tt, (tt, (λ h. absurd (omega arith), (tt, tt)))))

looks-reading :
    let m = run no_processes looks in
    (m.phase 9 ≡ reading) × (m.phase 8 ≡ outside) × (m.file ≡ some unreadable)
unfolding run step step_at read_lock acquire_lock
looks-reading = (refl, refl, refl)

-- A master that is alive whenever one looks, and whose sessions end.
abbrev flaky : Round
flaky = record {
  found = some own_info;
  bid = beaten own_info;
  waited = none;
  ready = true;
  session = master_lost;
  look = some own_info;
}

-- A master that is gone after each session, while another wins the bid.
abbrev gone : Round
gone = record flaky { found = none; waited = some own_info; look = none }

abbrev many : ℕ → List Round
many zero = []
many (suc n) = gone ∷ many n

many-IsTelling : (n : ℕ) → All IsTelling (many n)
many-IsTelling zero = tt
many-IsTelling (suc n) = ((λ i e. ground arith), many-IsTelling n)

run_stdio-leaves_example : (e : Exit) × (run_stdio (pos 8080) (many 24) none new_budget ≡ some e)
run_stdio-leaves_example = run_stdio-leaves (pos 8080) (many 24) (many-IsTelling 24) (omega arith)

abbrev listening : ℕ → Listen
listening n = if ltb n 8083 then in_use else free

third_port : resolve_listen_port listening 8080 ≡ ok 8083
unfolding resolve_listen_port try_ports
third_port = refl
