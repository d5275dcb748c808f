-- ===== src/Instance/Lock/Publication.antt =====
-- Whose metadata the lock file of internal/instance/instance.go holds.
use mathlib.Core.Path.{subst}
use serial_hub.Prelude.{
  ℕ, ◌≡◌, refl, sym, ap, ◌⊎◌, inl, inr, Bool, true, false, not, ◌||◌, Option, none, some, List, [],
  ◌∷◌, arith, ◌==◌, if◌then◌else◌, ==_iff, Bool-cases, All, ℤ,
}
use serial_hub.Instance.Lock.{
  LockInfo, zero_info, Content, Phase, Machine, System, Answer, put, close_file, read_info_or_empty,
  try_lock, is_missing, read_lock, read_unlock, created, acquire_lock, acquire_truncate,
  acquire_write, is_valid_port, update_truncate, update_write, release, LockCall, step_at, step,
  run, unreadable, info, outside, reading, locking, writing, updating, master, active, no_path,
  mkdir_failed, open_failed, lock_failed, pending, nobody, live, refused, reads, acquires,
  truncates, updates, writes, goes_on, releases, crashes,
}
use serial_hub.Instance.Lock.Exclusion.{
  is_inside, Change, step_at-Change, IsExclusive, Change-IsExclusive, same, takes, moves, closes,
}

-- The metadata that a process in this phase has written, or is about to write, is its own.
abbrev pub IsOwn : Option Content → ℕ → Phase → Type 0
IsOwn file p master = (i : LockInfo) × (file ≡ some (info i)) × (i.pid ≡ p)
IsOwn file p (writing i) = i.pid ≡ p
IsOwn file p (updating i) = i.pid ≡ p
IsOwn file p _ = Unit

-- No write fails in the middle.
abbrev pub IsWhole : ℕ × LockCall → Type 0
IsWhole (p, writes left) = left ≡ none
IsWhole (p, _) = Unit

pub ==-refl : (p : ℕ) → (p == p) ≡ true
==-refl p = (==_iff p p).1 refl

module _ (p : ℕ) where
  abbrev Owns : Machine → Type 0
  Owns m = IsOwn m.file p (m.phase p)

  put-Owns : (m : Machine) (ph : Phase) → IsOwn m.file p ph → Owns (put m p ph)
  put-Owns m ph h =
      subst (IsOwn m.file p) (sym (ap (λ (b : Bool). if b then ph else m.phase p) (==-refl p))) h

  close_file-Owns : (m : Machine) → Owns (close_file m p)
  close_file-Owns m = put-Owns m outside tt

  try_lock-Owns :
      (m : Machine) (o : Option ℕ) (ph : Phase) (busy : Answer)
      → Owns m
      → IsOwn m.file p ph
      → Owns (try_lock o m p ph busy).0
  try_lock-Owns m none ph busy h k = put-Owns m ph k
  try_lock-Owns m (some q) ph busy h k = h

  either : (b : Bool) (x y : Machine × Answer) → Owns x.0 → Owns y.0 → Owns (if b then x else y).0
  either true x y h k = h
  either false x y h k = k

  IsOwn-created : (file : Option Content) (ph : Phase) → IsOwn file p ph → IsOwn (created file) p ph
  IsOwn-created none master (i, e, h) = ground arith
  IsOwn-created none (writing i) h = h
  IsOwn-created none (updating i) h = h
  IsOwn-created none ph h = tt
  IsOwn-created (some c) ph h = h

  read_lock-Owns : (sys : System) (m : Machine) → Owns m → Owns (read_lock sys m p).0
  unfolding read_lock
  read_lock-Owns sys m h =
      let busy = live (read_info_or_empty m.file) in
      either (not sys.has_path || sys.open_fails || is_missing m.file || sys.lock_fails) (m, nobody)
        (try_lock m.holder m p reading busy) h (try_lock-Owns m m.holder reading busy h tt)

  acquire_lock-Owns : (sys : System) (m : Machine) → Owns m → Owns (acquire_lock sys m p).0
  unfolding acquire_lock
  acquire_lock-Owns sys m h =
      let m' = record m { file = created m.file } in
      let h' : Owns m' = IsOwn-created m.file (m.phase p) h in
      let busy = refused active (read_info_or_empty m'.file) in
      let locks = try_lock m.holder m' p locking busy in
      let tries = if sys.lock_fails then (m', refused lock_failed zero_info) else locks in
      let opens = if sys.open_fails then (m, refused open_failed zero_info) else tries in
      let makes = if sys.mkdir_fails then (m, refused mkdir_failed zero_info) else opens in
      either (not sys.has_path) (m, refused no_path zero_info) makes h
        (either sys.mkdir_fails (m, refused mkdir_failed zero_info) opens h
          (either sys.open_fails (m, refused open_failed zero_info) tries h
            (either sys.lock_fails (m', refused lock_failed zero_info) locks h'
              (try_lock-Owns m' m.holder locking busy h' tt))))

  acquire_truncate-Owns :
      (fails : Bool) (m : Machine) (i : LockInfo)
      → i.pid ≡ p
      → Owns (acquire_truncate fails m p i).0
  unfolding acquire_truncate
  acquire_truncate-Owns true m i h = close_file-Owns m
  acquire_truncate-Owns false m i h = put-Owns (record m { file = some unreadable }) (writing i) h

  update_truncate-Owns :
      (fails : Bool) (m : Machine) (port : ℤ) → Owns m → Owns (update_truncate fails m p port).0
  unfolding update_truncate
  update_truncate-Owns fails m port h =
      let i = record (read_info_or_empty m.file) { pid = p; port = port } in
      let m' = put (record m { file = some unreadable }) p (updating i) in
      either (not (is_valid_port port) || fails) (m, pending) (m', pending) h
        (put-Owns (record m { file = some unreadable }) (updating i) refl)

  step_at-Owns :
      (m : Machine) (ph : Phase) (c : LockCall)
      → m.phase p ≡ ph
      → IsWhole (p, c)
      → IsOwn m.file p ph
      → Owns (step_at ph m p c).0
  unfolding step_at acquire_write update_write read_unlock release
  step_at-Owns m outside (reads sys) e w h = read_lock-Owns sys m (subst (IsOwn m.file p) (sym e) h)
  step_at-Owns m outside (acquires sys) e w h =
      acquire_lock-Owns sys m (subst (IsOwn m.file p) (sym e) h)
  step_at-Owns m outside _ e w h = subst (IsOwn m.file p) (sym e) h
  step_at-Owns m locking (truncates fails i) e w h =
      acquire_truncate-Owns fails m (record i { pid = p }) refl
  step_at-Owns m (writing i) (writes none) e w h =
      put-Owns (record m { file = some (info i) }) master (i, refl, h)
  step_at-Owns m (writing i) (writes (some left)) e w h =
      close_file-Owns (record m { file = some left })
  step_at-Owns m (updating i) (writes none) e w h =
      put-Owns (record m { file = some (info i) }) master (i, refl, h)
  step_at-Owns m (updating i) (writes (some left)) e w h = ground arith
  step_at-Owns m master (reads sys) e w h = read_lock-Owns sys m (subst (IsOwn m.file p) (sym e) h)
  step_at-Owns m master (updates fails port) e w h =
      update_truncate-Owns fails m port (subst (IsOwn m.file p) (sym e) h)
  step_at-Owns m ph crashes e w h = close_file-Owns m
  step_at-Owns m master releases e w h = close_file-Owns m
  step_at-Owns m reading goes_on e w h = close_file-Owns m
  step_at-Owns m ph c e w h = subst (IsOwn m.file p) (sym e) h

outside-IsOwn :
    (file : Option Content) (q : ℕ) (ph : Phase) → is_inside ph ≡ false → IsOwn file q ph
outside-IsOwn file q outside h = tt
outside-IsOwn file q ph h = ground arith

-- The metadata of every process that has some is its own.
abbrev pub IsPublished : Machine → Type 0
IsPublished m = (p : ℕ) → IsOwn m.file p (m.phase p)

file_outside :
    (m : Machine) (p : ℕ) (ph : Phase) (c : LockCall)
    → is_inside ph ≡ false
    → ((step_at ph m p c).0.file ≡ m.file) ⊎ ((step_at ph m p c).0.file ≡ created m.file)
unfolding step_at
file_outside m p outside (reads sys) h = inl (unfold read_lock in ground arith)
file_outside m p outside (acquires sys) h = unfold acquire_lock in ground arith
file_outside m p outside c h = inl refl
file_outside m p ph c h = ground arith

Change-other :
    (m m' : Machine) (p q : ℕ) → Change m m' p → (q == p) ≡ false → m'.phase q ≡ m.phase q
Change-other m m' p q (same h f) n = ap (λ (g : ℕ → Phase). g q) f
Change-other m m' p q (takes ph i free h f) n = ground (arith, ap (λ (g : ℕ → Phase). g q) f)
Change-other m m' p q (moves ph i on h f) n = ground (arith, ap (λ (g : ℕ → Phase). g q) f)
Change-other m m' p q (closes on h f) n = ground (arith, ap (λ (g : ℕ → Phase). g q) f)

-- What a process has written stays through the steps of the others.
other-IsOwn :
    (m : Machine) (p q : ℕ) (ph : Phase) (c : LockCall)
    → IsExclusive m
    → m.phase p ≡ ph
    → (q == p) ≡ false
    → IsOwn m.file q (m.phase q)
    → IsOwn (step_at ph m p c).0.file q (m.phase q)
other-IsOwn m p q ph c v e n h = elim (Bool-cases (is_inside (m.phase q))) [
  | inr out ↦ outside-IsOwn (step_at ph m p c).0.file q (m.phase q) out
  | inl on ↦
      let out : is_inside ph ≡ false = ground (arith, v p, v q, ap is_inside e) in
      elim (file_outside m p ph c out) [
        | inl f ↦ subst (λ (x : Option Content). IsOwn x q (m.phase q)) (sym f) h
        | inr f ↦
            subst (λ (x : Option Content). IsOwn x q (m.phase q)) (sym f)
              (IsOwn-created q m.file (m.phase q) h)
      ]
]

step-IsPublished :
    (m : Machine) (p : ℕ) (c : LockCall)
    → IsWhole (p, c)
    → IsExclusive m
    → IsPublished m
    → IsPublished (step m p c).0
unfolding step
step-IsPublished m p c w v h q = elim (Bool-cases (q == p)) [
  | inl e ↦
      let same_process : q ≡ p = ground arith in
      subst
        (λ (r : ℕ).
          IsOwn (step_at (m.phase p) m p c).0.file r ((step_at (m.phase p) m p c).0.phase r))
        (sym same_process) (step_at-Owns p m (m.phase p) c refl w (h p))
  | inr n ↦
      subst (IsOwn (step_at (m.phase p) m p c).0.file q)
        (sym (
          Change-other m (step_at (m.phase p) m p c).0 p q (step_at-Change m p (m.phase p) c refl)
            n))
        (other-IsOwn m p q (m.phase p) c v refl n (h q))
]

pub run-IsPublished :
    (m : Machine) (calls : List (ℕ × LockCall))
    → All IsWhole calls
    → IsExclusive m
    → IsPublished m
    → IsPublished (run m calls)
unfolding run step
run-IsPublished m [] w v h = h
run-IsPublished m ((p, c) ∷ calls) w v h =
    run-IsPublished (step m p c).0 calls w.1
      (Change-IsExclusive m (step m p c).0 p (step_at-Change m p (m.phase p) c refl) v)
      (step-IsPublished m p c w.0 v h)
