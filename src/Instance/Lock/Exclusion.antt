-- ===== src/Instance/Lock/Exclusion.antt =====
-- Who holds the lock of internal/instance/instance.go.
use serial_hub.Prelude.{
  ◌≢◌, Bool-cases, inl, inr, [], ◌∷◌, ◌||◌, ℕ, Bool, true, false, some, none, ◌≡◌, refl, ◌==◌,
  if◌then◌else◌, Option, ℤ, ap, not, ◌↔◌, arith, List,
}
use serial_hub.Instance.Lock.{
  run, reads, acquires, truncates, updates, writes, goes_on, releases, crashes, reading, locking,
  writing, updating, master, outside, step, no_processes, LockCall, Machine, Phase, put, System,
  LockInfo, read_lock, acquire_lock, acquire_truncate, acquire_write, update_truncate, update_write,
  is_missing, read_info_or_empty, live, nobody, refused, pending, active, lock_failed, open_failed,
  mkdir_failed, no_path, zero_info, unreadable, is_valid_port, try_lock, Answer, close_file,
  Content, created, not, step_at, read_unlock, release, List,
}

abbrev pub is_inside : Phase → Bool
is_inside outside = false
is_inside _ = true

-- What a step of process `p` does to the lock.
pub data Change (m m' : Machine) (p : ℕ) : Type 0 where
  same : m'.holder ≡ m.holder → m'.phase ≡ m.phase → Change m m' p
  takes :
      (ph : Phase)
      → is_inside ph ≡ true
      → m.holder ≡ none
      → m'.holder ≡ some p
      → m'.phase ≡ (put m p ph).phase
      → Change m m' p
  moves :
      (ph : Phase)
      → is_inside ph ≡ true
      → is_inside (m.phase p) ≡ true
      → m'.holder ≡ m.holder
      → m'.phase ≡ (put m p ph).phase
      → Change m m' p
  closes :
      is_inside (m.phase p) ≡ true
      → m'.holder ≡ none
      → m'.phase ≡ (put m p outside).phase
      → Change m m' p

try_lock-Change :
    (m m' : Machine) (o : Option ℕ) (p : ℕ) (ph : Phase) (busy : Answer)
    → is_inside ph ≡ true
    → m.holder ≡ o
    → m'.holder ≡ m.holder
    → m'.phase ≡ m.phase
    → Change m (try_lock o m' p ph busy).0 p
try_lock-Change m m' none p ph busy i h e f =
    takes ph i h refl (ap (λ (g : ℕ → Phase). λ q. if q == p then ph else g q) f)
try_lock-Change m m' (some q) p ph busy i h e f = same e f

module _ (m : Machine) (p : ℕ) where
  abbrev Changes : Machine × Answer → Type 0
  Changes r = Change m r.0 p

  either :
      (b : Bool) (x y : Machine × Answer) → Changes x → Changes y → Changes (if b then x else y)
  either true x y h k = h
  either false x y h k = k

  read_lock-Change : (sys : System) → Changes (read_lock sys m p)
  unfolding read_lock
  read_lock-Change sys =
      let busy = live (read_info_or_empty m.file) in
      either (not sys.has_path || sys.open_fails || is_missing m.file || sys.lock_fails) (m, nobody)
        (try_lock m.holder m p reading busy) (same refl refl)
        (try_lock-Change m m m.holder p reading busy refl refl refl refl)

  acquire_lock-Change : (sys : System) → Changes (acquire_lock sys m p)
  unfolding acquire_lock
  acquire_lock-Change sys =
      let m' = record m { file = created m.file } in
      let busy = refused active (read_info_or_empty m'.file) in
      let locks = try_lock m.holder m' p locking busy in
      let tries = if sys.lock_fails then (m', refused lock_failed zero_info) else locks in
      let opens = if sys.open_fails then (m, refused open_failed zero_info) else tries in
      let makes = if sys.mkdir_fails then (m, refused mkdir_failed zero_info) else opens in
      either (not sys.has_path) (m, refused no_path zero_info) makes (same refl refl)
        (either sys.mkdir_fails (m, refused mkdir_failed zero_info) opens (same refl refl)
          (either sys.open_fails (m, refused open_failed zero_info) tries (same refl refl)
            (either sys.lock_fails (m', refused lock_failed zero_info) locks (same refl refl)
              (try_lock-Change m m' m.holder p locking busy refl refl refl refl))))

  module _ (i : is_inside (m.phase p) ≡ true) where
    close_file-Change : Change m (close_file m p) p
    close_file-Change = closes i refl refl

    acquire_truncate-Change : (fails : Bool) (x : LockInfo) → Changes (acquire_truncate fails m p x)
    unfolding acquire_truncate
    acquire_truncate-Change true x = close_file-Change
    acquire_truncate-Change false x = moves (writing x) refl i refl refl

    acquire_write-Change :
        (left : Option Content) (x : LockInfo) → Changes (acquire_write left m p x)
    unfolding acquire_write
    acquire_write-Change none x = moves master refl i refl refl
    acquire_write-Change (some c) x = closes i refl refl

    update_truncate-Change : (fails : Bool) (port : ℤ) → Changes (update_truncate fails m p port)
    unfolding update_truncate
    update_truncate-Change fails port =
        let x = record (read_info_or_empty m.file) { pid = p; port = port } in
        either (not (is_valid_port port) || fails) (m, pending)
          (put (record m { file = some unreadable }) p (updating x), pending) (same refl refl)
          (moves (updating x) refl i refl refl)

    update_write-Change : (left : Option Content) (x : LockInfo) → Changes (update_write left m p x)
    unfolding update_write
    update_write-Change none x = moves master refl i refl refl
    update_write-Change (some c) x = moves master refl i refl refl

pub step_at-Change :
    (m : Machine) (p : ℕ) (ph : Phase) (c : LockCall)
    → m.phase p ≡ ph
    → Change m (step_at ph m p c).0 p
unfolding step_at read_unlock release
step_at-Change m p outside (reads sys) e = read_lock-Change m p sys
step_at-Change m p outside (acquires sys) e = acquire_lock-Change m p sys
step_at-Change m p reading goes_on e = close_file-Change m p (ap is_inside e)
step_at-Change m p locking (truncates fails i) e =
    acquire_truncate-Change m p (ap is_inside e) fails (record i { pid = p })
step_at-Change m p (writing i) (writes left) e = acquire_write-Change m p (ap is_inside e) left i
step_at-Change m p (updating i) (writes left) e = update_write-Change m p (ap is_inside e) left i
step_at-Change m p master (reads sys) e = read_lock-Change m p sys
step_at-Change m p master (updates fails port) e =
    update_truncate-Change m p (ap is_inside e) fails port
step_at-Change m p master releases e = close_file-Change m p (ap is_inside e)
step_at-Change m p outside crashes e = same refl refl
step_at-Change m p ph crashes e = close_file-Change m p (ap is_inside e)
step_at-Change m p ph _ e = same refl refl

-- A process is inside exactly if it holds the lock.
abbrev pub IsExclusive : Machine → Type 0
IsExclusive m = (p : ℕ) → (is_inside (m.phase p) ≡ true) ↔ (m.holder ≡ some p)

pub Change-IsExclusive : (m m' : Machine) (p : ℕ) → Change m m' p → IsExclusive m → IsExclusive m'
Change-IsExclusive m m' p (same h f) v q = ground (arith, v q, ap (λ (g : ℕ → Phase). g q) f)
Change-IsExclusive m m' p (takes ph i free h f) v q =
    ground (arith, v q, ap (λ (g : ℕ → Phase). g q) f)
Change-IsExclusive m m' p (moves ph i on h f) v q =
    ground (arith, v p, v q, ap (λ (g : ℕ → Phase). g q) f)
Change-IsExclusive m m' p (closes on h f) v q =
    ground (arith, v p, v q, ap (λ (g : ℕ → Phase). g q) f)

pub none-IsExclusive : IsExclusive no_processes
none-IsExclusive p = ground arith

pub run-IsExclusive :
    (m : Machine) (calls : List (ℕ × LockCall)) → IsExclusive m → IsExclusive (run m calls)
unfolding run step
run-IsExclusive m [] v = v
run-IsExclusive m ((p, c) ∷ calls) v =
    run-IsExclusive (step m p c).0 calls
      (Change-IsExclusive m (step m p c).0 p (step_at-Change m p (m.phase p) c refl) v)

pub is_inside-false : (ph : Phase) → is_inside ph ≡ false → ph ≡ outside
is_inside-false outside h = refl
is_inside-false ph h = ground arith

pub run_same :
    (calls : List (ℕ × LockCall)) (p q : ℕ)
    → let m = run no_processes calls in
      is_inside (m.phase p) ≡ true → is_inside (m.phase q) ≡ true → p ≡ q
run_same calls p q h k =
    let v = run-IsExclusive no_processes calls none-IsExclusive in ground (arith, v p, v q)

-- Whatever the processes do and wherever they crash, from the time when there is none: while one of
-- them is inside, the master or in the middle of a call with the lock, every other is outside.
pub run_exclusive :
    (calls : List (ℕ × LockCall)) (p q : ℕ)
    → let m = run no_processes calls in is_inside (m.phase p) ≡ true → p ≢ q → m.phase q ≡ outside
run_exclusive calls p q h other =
    is_inside-false ((run no_processes calls).phase q)
      (elim (Bool-cases (is_inside ((run no_processes calls).phase q))) [
        | inl k ↦ absurd (other (run_same calls p q h k))
        | inr k ↦ k
      ])
