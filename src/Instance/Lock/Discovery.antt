-- ===== src/Instance/Lock/Discovery.antt =====
-- What `Read` and `Acquire` of internal/instance/instance.go tell of the master.
use mathlib.Core.Path.{subst}
use serial_hub.Prelude.{
  ℕ, ◌≡◌, refl, sym, ap, ◌∙◌, ◌≢◌, true, false, none, some, List, [], ◌∷◌, arith, All,
}
use serial_hub.Instance.Lock.Publication.{==-refl, IsWhole, IsOwn, run-IsPublished}
use serial_hub.Instance.Lock.{
  LockInfo, Content, Machine, no_processes, System, read_info_or_empty, read_lock, acquire_lock,
  acquire_truncate, acquire_write, LockCall, step_at, step, run, info, outside, reading, master,
  active, live, refused, reads, acquires, truncates, writes,
}
use serial_hub.Instance.Lock.Exclusion.{is_inside, none-IsExclusive, run-IsExclusive, run_same}

-- No call of the operating system fails.
abbrev pub sound : System
sound = record { has_path = true; mkdir_fails = false; open_fails = false; lock_fails = false }

pub step-busy :
    (m : Machine) (p q : ℕ) (c : Content)
    → m.file ≡ some c
    → m.holder ≡ some p
    → m.phase q ≡ outside
    → (step m q (reads sound) ≡ (m, live (read_info_or_empty (some c))))
      × (step m q (acquires sound) ≡ (m, refused active (read_info_or_empty (some c))))
unfolding step step_at read_lock acquire_lock
step-busy m p q c f h e = (rw (e, f, h) refl, rw (e, f, h) refl)

-- While a process is master, after whatever calls of whatever processes, as long as no write failed
-- in the middle: there is metadata with its process number, and every other process that calls
-- `Read` gets exactly that, and one that calls `Acquire` gets `ErrActive` with it. Neither changes
-- anything.
pub live_master_own :
    (calls : List (ℕ × LockCall)) (p : ℕ)
    → All IsWhole calls
    → let m = run no_processes calls in
      m.phase p ≡ master
      → (i : LockInfo) × (i.pid ≡ p)
        × ((q : ℕ)
            → m.phase q ≡ outside
            → (step m q (reads sound) ≡ (m, live i))
              × (step m q (acquires sound) ≡ (m, refused active i)))
unfolding read_info_or_empty
live_master_own calls p w h =
    let m = run no_processes calls in
    let v = run-IsExclusive no_processes calls none-IsExclusive in
    let own = run-IsPublished no_processes calls w none-IsExclusive (λ q. tt) p in
    let (i, f, mine) : IsOwn m.file p master = subst (IsOwn m.file p) h own in
    (i, mine, λ q e. step-busy m p q (info i) f ((v p).0 (ap is_inside h)) e)

-- But a call of `Read` takes the same lock: while a process is in the middle of one that found the
-- lock free, there is no master, and still every other process is told the contrary. Its `Read`
-- answers what the file holds, the metadata of a master that has gone, say, and its `Acquire` is
-- refused as if there were a master.
pub read_shadows :
    (calls : List (ℕ × LockCall)) (p q : ℕ) (c : Content)
    → let m = run no_processes calls in
      m.phase p ≡ reading
      → m.phase q ≡ outside
      → m.file ≡ some c
      → ((r : ℕ) → m.phase r ≢ master)
        × (step m q (reads sound) ≡ (m, live (read_info_or_empty (some c))))
        × (step m q (acquires sound) ≡ (m, refused active (read_info_or_empty (some c))))
read_shadows calls p q c h e f =
    let m = run no_processes calls in
    let v = run-IsExclusive no_processes calls none-IsExclusive in
    let (answers, refuses) = step-busy m p q c f ((v p).0 (ap is_inside h)) e in
    (
      λ r k.
          let one = run_same calls p r (ap is_inside h) (ap is_inside k) in
          absurd (ground (arith, sym h ∙ ap (λ (x : ℕ). m.phase x) one ∙ k)),
      answers,
      refuses,
    )

-- Where nobody holds the lock, a process that is outside becomes the master by the three steps of
-- `Acquire`, if no call fails, and its metadata is in the file, with its own process number.
pub acquire_free :
    (m : Machine) (p : ℕ) (i : LockInfo)
    → m.holder ≡ none
    → m.phase p ≡ outside
    → let m' = run m ((p, acquires sound) ∷ (p, truncates false i) ∷ (p, writes none) ∷ []) in
      (m'.phase p ≡ master) × (m'.holder ≡ some p) × (m'.file ≡ some (info (record i { pid = p })))
unfolding run step step_at acquire_lock acquire_truncate acquire_write
acquire_free m p i h e = ground (arith, ==-refl p)
