-- ===== src/Instance/Lock/Sessions.antt =====
-- What the lock file of internal/instance/instance.go says of a master from its `Acquire` on.
use mathlib.Core.Path.{subst}
use serial_hub.Prelude.{
  ℕ, ◌≡◌, refl, sym, ap, ◌∙◌, ◌≢◌, inl, inr, Bool, false, not, ◌||◌, none, some, List, [], ◌∷◌,
  ◌++◌, arith, ◌==◌, if◌then◌else◌, Bool-cases, All, ℤ,
}
use serial_hub.Instance.Lock.Discovery.{sound, step-busy}
use serial_hub.Instance.Lock.Exclusion.{
  is_inside, step_at-Change, IsExclusive, Change-IsExclusive, none-IsExclusive, run-IsExclusive,
  is_inside-false,
}
use serial_hub.Instance.Lock.Publication.{IsWhole, ==-refl}
use serial_hub.Instance.Lock.{
  LockInfo, zero_info, Content, Phase, Machine, no_processes, System, put, read_info,
  read_info_or_empty, read_lock, acquire_lock, acquire_truncate, acquire_write, is_valid_port,
  update_truncate, update_write, LockCall, step_at, step, run, unreadable, info, outside, locking,
  writing, updating, master, active, live, refused, reads, acquires, truncates, updates, writes,
  releases, crashes,
}

-- An account of a master from its own calls only: it is writing its first metadata, or this is what
-- it has published last, or it is writing this in its place.
pub data Session : Type 0 where
  claiming serving renewing : LockInfo → Session

abbrev pub follow : Session → LockCall → Session
follow (claiming i) (writes left) = serving i
follow (serving i) (updates fails port) =
    if not (is_valid_port port) || fails then serving i else renewing (record i { port = port })
follow (renewing i) (writes left) = serving i
follow st c = st

abbrev pub follow_all : ℕ → Session → List (ℕ × LockCall) → Session
follow_all p st [] = st
follow_all p st ((q, c) ∷ calls) = follow_all p (if q == p then follow st c else st) calls

abbrev pub phase_of : Session → Phase
phase_of (claiming i) = writing i
phase_of (serving i) = master
phase_of (renewing i) = updating i

abbrev pub file_of : Session → Content
file_of (claiming i) = unreadable
file_of (serving i) = info i
file_of (renewing i) = unreadable

abbrev pub pid_of : Session → ℕ
pid_of (claiming i) = i.pid
pid_of (serving i) = i.pid
pid_of (renewing i) = i.pid

-- The process does not leave: it neither calls `Release` nor crashes.
abbrev pub IsStaying : ℕ → ℕ × LockCall → Type 0
IsStaying p (q, releases) = q ≢ p
IsStaying p (q, crashes) = q ≢ p
IsStaying p (q, c) = Unit

abbrev Stands : Machine → ℕ → Session → Type 0
Stands m p st =
    (m.holder ≡ some p) × (m.phase p ≡ phase_of st) × (m.file ≡ some (file_of st)) × (pid_of st ≡ p)

put-phase : (m : Machine) (p : ℕ) (ph : Phase) → (put m p ph).phase p ≡ ph
put-phase m p ph = ap (λ (b : Bool). if b then ph else m.phase p) (==-refl p)

module _ (m : Machine) (p : ℕ) where
  busy_read : (sys : System) (st : Session) → Stands m p st → Stands (read_lock sys m p).0 p st
  unfolding read_lock
  busy_read sys st (h, e, f, k) = rw (f, h) (ground arith)

  update-Stands :
      (i : LockInfo) (fails : Bool) (port : ℤ)
      → Stands m p (serving i)
      → Stands (update_truncate fails m p port).0 p (follow (serving i) (updates fails port))
  unfolding update_truncate read_info_or_empty read_info
  update-Stands i fails port (h, e, f, k) = elim (Bool-cases (not (is_valid_port port) || fails)) [
    | inl bad ↦ rw (bad) (h, e, f, k)
    | inr good ↦
        let new = record i { pid = p; port = port } in
        rw (good, f)
          (
            h,
            put-phase (record m { file = some unreadable }) p (updating new)
                ∙ ap (λ x. updating (record i { pid = x; port = port })) (sym k),
            refl,
            k,
          )
  ]

  own-Stands :
      (st : Session) (c : LockCall)
      → IsWhole (p, c)
      → IsStaying p (p, c)
      → Stands m p st
      → Stands (step_at (phase_of st) m p c).0 p (follow st c)
  unfolding step_at
  own-Stands (claiming i) (writes none) w s (h, e, f, k) =
      unfold acquire_write in (h, put-phase (record m { file = some (info i) }) p master, refl, k)
  own-Stands (claiming i) (writes (some left)) w s h = ground arith
  own-Stands (claiming i) releases w s h = absurd (s refl)
  own-Stands (claiming i) crashes w s h = absurd (s refl)
  own-Stands (claiming i) c w s h = h
  own-Stands (renewing i) (writes none) w s (h, e, f, k) =
      unfold update_write in (h, put-phase (record m { file = some (info i) }) p master, refl, k)
  own-Stands (renewing i) (writes (some left)) w s h = ground arith
  own-Stands (renewing i) releases w s h = absurd (s refl)
  own-Stands (renewing i) crashes w s h = absurd (s refl)
  own-Stands (renewing i) c w s h = h
  own-Stands (serving i) (reads sys) w s h = busy_read sys (serving i) h
  own-Stands (serving i) (updates fails port) w s h = update-Stands i fails port h
  own-Stands (serving i) releases w s h = absurd (s refl)
  own-Stands (serving i) crashes w s h = absurd (s refl)
  own-Stands (serving i) c w s h = h

  other-Stands :
      (q : ℕ) (c : LockCall) (st : Session)
      → (q == p) ≡ false
      → Stands m p st
      → Stands (step_at outside m q c).0 p st
  unfolding step_at
  other-Stands q (reads sys) st n (h, e, f, k) = unfold read_lock in rw (f, h) (ground arith)
  other-Stands q (acquires sys) st n (h, e, f, k) = unfold acquire_lock in rw (f, h) (ground arith)
  other-Stands q c st n h = h

step-Stands :
    (m : Machine) (p q : ℕ) (c : LockCall) (st : Session)
    → IsExclusive m
    → IsWhole (q, c)
    → IsStaying p (q, c)
    → Stands m p st
    → Stands (step m q c).0 p (if q == p then follow st c else st)
unfolding step
step-Stands m p q c st v w s (h, e, f, k) = elim (Bool-cases (q == p)) [
  | inl eq ↦
      let own : q ≡ p = ground arith in
      rw (eq) (
        subst (λ (r : ℕ). Stands (step_at (m.phase r) m r c).0 p (follow st c)) (sym own)
          (subst (λ (ph : Phase). Stands (step_at ph m p c).0 p (follow st c)) (sym e)
            (own-Stands m p st c (subst (λ (r : ℕ). IsWhole (r, c)) own w)
              (subst (λ (r : ℕ). IsStaying p (r, c)) own s) (h, e, f, k))))
  | inr n ↦
      let out : m.phase q ≡ outside =
        is_inside-false (m.phase q) (elim (Bool-cases (is_inside (m.phase q))) [
          | inl on ↦ absurd (ground (arith, (v q).0 on))
          | inr off ↦ off
        ]) in
      rw (n, out) (other-Stands m p q c st n (h, e, f, k))
]

step-IsExclusive : (m : Machine) (p : ℕ) (c : LockCall) → IsExclusive m → IsExclusive (step m p c).0
unfolding step
step-IsExclusive m p c v =
    Change-IsExclusive m (step m p c).0 p (step_at-Change m p (m.phase p) c refl) v

run-Stands :
    (m : Machine) (p : ℕ) (calls : List (ℕ × LockCall)) (st : Session)
    → IsExclusive m
    → All IsWhole calls
    → All (IsStaying p) calls
    → Stands m p st
    → Stands (run m calls) p (follow_all p st calls)
unfolding run step
run-Stands m p [] st v w s h = h
run-Stands m p ((q, c) ∷ calls) st v w s h =
    run-Stands (step m q c).0 p calls (if q == p then follow st c else st)
      (step-IsExclusive m q c v) w.1 s.1 (step-Stands m p q c st v w.0 s.0 h)

run-append : (m : Machine) (xs ys : List (ℕ × LockCall)) → run m (xs ++ ys) ≡ run (run m xs) ys
unfolding run
run-append m [] ys = refl
run-append m (x ∷ xs) ys = run-append (step m x.0 x.1).0 xs ys

claims-Stands :
    (m : Machine) (p : ℕ) (i : LockInfo)
    → IsExclusive m
    → m.phase p ≡ locking
    → Stands (step m p (truncates false i)).0 p (claiming (record i { pid = p }))
unfolding step step_at acquire_truncate
claims-Stands m p i v e = rw (e) (
  (v p).0 (ap is_inside e),
  put-phase (record m { file = some unreadable }) p (writing (record i { pid = p })),
  refl,
  refl,
)

-- What others read of a session: nothing, while the file is being written.
abbrev pub announced : Session → LockInfo
announced (serving i) = i
announced st = zero_info

read_info_or_empty-announced :
    (st : Session) → read_info_or_empty (some (file_of st)) ≡ announced st
unfolding read_info_or_empty read_info
read_info_or_empty-announced (claiming i) = refl
read_info_or_empty-announced (serving i) = refl
read_info_or_empty-announced (renewing i) = refl

Stands-busy :
    (m : Machine) (p q : ℕ) (st : Session)
    → Stands m p st
    → m.phase q ≡ outside
    → (step m q (reads sound) ≡ (m, live (announced st)))
      × (step m q (acquires sound) ≡ (m, refused active (announced st)))
Stands-busy m p q st (h, e, f, k) out =
    subst
      (λ (x : LockInfo).
        (step m q (reads sound) ≡ (m, live x))
        × (step m q (acquires sound) ≡ (m, refused active x)))
      (read_info_or_empty-announced st) (step-busy m p q (file_of st) f h out)

-- From the moment at which a process that has got the lock in `Acquire` begins to write its metadata,
-- whatever it and the others call then, as long as it neither leaves nor crashes and no write fails
-- in the middle: it keeps the lock, and it is the master exactly when its own calls say so. Every
-- other process that calls `Read` gets the metadata that it gave to `Acquire`, with its process
-- number and the port of its last valid `UpdatePort`, and one that calls `Acquire` gets `ErrActive`
-- with the same; while the file is being written they get the empty record. Neither changes
-- anything.
pub live_master :
    (before after : List (ℕ × LockCall)) (p : ℕ) (i : LockInfo)
    → (run no_processes before).phase p ≡ locking
    → All IsWhole after
    → All (IsStaying p) after
    → let m = run no_processes (before ++ (p, truncates false i) ∷ after) in
      let st = follow_all p (claiming (record i { pid = p })) after in
      (m.holder ≡ some p)
      × (m.phase p ≡ phase_of st)
      × ((q : ℕ)
          → m.phase q ≡ outside
          → (step m q (reads sound) ≡ (m, live (announced st)))
            × (step m q (acquires sound) ≡ (m, refused active (announced st))))
live_master before after p i e w s =
    let m₀ = run no_processes before in
    let v = run-IsExclusive no_processes before none-IsExclusive in
    let m₁ = (step m₀ p (truncates false i)).0 in
    let st = follow_all p (claiming (record i { pid = p })) after in
    let stands : Stands (run no_processes (before ++ (p, truncates false i) ∷ after)) p st =
      subst (λ (m : Machine). Stands m p st)
        (sym (run-append no_processes before ((p, truncates false i) ∷ after)))
        (unfold run in
          run-Stands m₁ p after (claiming (record i { pid = p }))
            (step-IsExclusive m₀ p (truncates false i) v) w s (claims-Stands m₀ p i v e)) in
    (stands.0, stands.1, λ q out. Stands-busy _ p q st stands out)
