-- ===== src/Instance/Lock.antt =====
-- internal/instance/instance.go: the file lock and the metadata in the locked file, used by any
-- number of processes. A process is known by its number. The calls of the operating system are the
-- steps: between two of them any other process may act. The lock is exclusive and belongs to one
-- open file; closing it, also by a crash, releases the lock.
pub mod Exclusion
pub mod Publication
pub mod Discovery
pub mod Sessions
use serial_hub.Prelude.{
  List, [], ◌∷◌, ℕ, Bool, true, false, ◌&&◌, ◌||◌, not, Option, none, some, Bytes, ltb, leb, ◌==◌,
  if◌then◌else◌, ℤ, pos, codes, bytes_eq, is_empty, ◌++◌, is_positive, ltb_ℤ, [],
}

-- `LockInfo`.
pub record LockInfo : Type 0 where
  pub pid : ℕ
  pub port : ℤ
  pub host : Bytes
  pub started_at : Bytes

abbrev pub zero_info : LockInfo
zero_info = record { pid = 0; port = pos 0; host = []; started_at = [] }

-- What the lock file holds: JSON that reads back as this record, or bytes that do not parse, none
-- among them.
pub data Content : Type 0 where
  unreadable : Content
  info : LockInfo → Content

-- Where a process stands: outside of all calls, in `Read` with the lock, in `Acquire` with the lock
-- before and after the truncation, master, or in `UpdatePort` after the truncation.
pub data Phase : Type 0 where
  outside reading locking : Phase
  writing updating : LockInfo → Phase
  master : Phase

pub record Machine : Type 0 where
  pub file : Option Content
  pub holder : Option ℕ
  pub phase : ℕ → Phase

abbrev pub no_processes : Machine
no_processes = record { file = none; holder = none; phase = λ p. outside }

pub data LockError : Type 0 where
  active no_path mkdir_failed open_failed lock_failed write_failed : LockError

-- What the operating system answers: whether there is a path, and which calls fail.
pub record System : Type 0 where
  pub has_path : Bool
  pub mkdir_fails : Bool
  pub open_fails : Bool
  pub lock_fails : Bool

pub data Answer : Type 0 where
  pending : Answer
  nobody : Answer
  live : LockInfo → Answer
  acquired : LockInfo → Answer
  refused : LockError → LockInfo → Answer

abbrev pub put : Machine → ℕ → Phase → Machine
put m p ph = record m { phase = λ q. if q == p then ph else m.phase q }

-- The lock is taken or given up with the change of the phase.
abbrev pub take_lock : Machine → ℕ → Phase → Machine
take_lock m p ph = record (put m p ph) { holder = some p }

abbrev pub close_file : Machine → ℕ → Machine
close_file m p = record (put m p outside) { holder = none }

-- `readInfo`, and with `LockInfo{}` where there is nothing readable.
unfoldable pub read_info : Option Content → Option LockInfo
read_info none = none
read_info (some unreadable) = none
read_info (some (info i)) = some i

unfoldable pub read_info_or_empty : Option Content → LockInfo
unfolding read_info
read_info_or_empty file = elim (read_info file) [ none ↦ zero_info | some i ↦ i ]

-- `tryLock`, given who holds the lock: where it is busy, the call ends with an answer.
abbrev pub try_lock : Option ℕ → Machine → ℕ → Phase → Answer → Machine × Answer
try_lock none m p ph busy = (take_lock m p ph, pending)
try_lock (some q) m p ph busy = (m, busy)

abbrev pub is_missing : Option Content → Bool
is_missing none = true
is_missing (some content) = false

-- `Read` up to its `tryLock` and, where the lock is busy, to its end.
unfoldable pub read_lock : System → Machine → ℕ → Machine × Answer
unfolding read_info_or_empty
read_lock sys m p =
    if not sys.has_path || sys.open_fails || is_missing m.file || sys.lock_fails
    then (m, nobody)
    else try_lock m.holder m p reading (live (read_info_or_empty m.file))

-- The rest of `Read`, after it got the lock: it closes the file again.
unfoldable pub read_unlock : Machine → ℕ → Machine × Answer
read_unlock m p = (close_file m p, nobody)

-- `os.OpenFile` with `O_CREATE`.
abbrev pub created : Option Content → Option Content
created none = some unreadable
created (some content) = some content

-- `Acquire` of a process that is not the master, up to its `tryLock`.
unfoldable pub acquire_lock : System → Machine → ℕ → Machine × Answer
unfolding read_info_or_empty
acquire_lock sys m p =
    let m' = record m { file = created m.file } in
    if not sys.has_path
    then (m, refused no_path zero_info)
    else if sys.mkdir_fails
    then (m, refused mkdir_failed zero_info)
    else if sys.open_fails
    then (m, refused open_failed zero_info)
    else if sys.lock_fails
    then (m', refused lock_failed zero_info)
    else try_lock m.holder m' p locking (refused active (read_info_or_empty m'.file))

-- `writeInfo` in two steps: the truncation, and the write with its `Sync`. One that fails may leave
-- any content.
unfoldable pub acquire_truncate : Bool → Machine → ℕ → LockInfo → Machine × Answer
acquire_truncate fails m p i =
    if fails
    then (close_file m p, refused write_failed zero_info)
    else (put (record m { file = some unreadable }) p (writing i), pending)

unfoldable pub acquire_write : Option Content → Machine → ℕ → LockInfo → Machine × Answer
acquire_write none m p i = (put (record m { file = some (info i) }) p master, acquired i)
acquire_write (some left) m p i =
    (close_file (record m { file = some left }) p, refused write_failed zero_info)

abbrev pub is_valid_port : ℤ → Bool
is_valid_port port = is_positive port && not (ltb_ℤ (pos 65535) port)

-- `UpdatePort` of the master, up to the truncation.
unfoldable pub update_truncate : Bool → Machine → ℕ → ℤ → Machine × Answer
unfolding read_info_or_empty
update_truncate fails m p port =
    let i = record (read_info_or_empty m.file) { pid = p; port = port } in
    if not (is_valid_port port) || fails
    then (m, pending)
    else (put (record m { file = some unreadable }) p (updating i), pending)

unfoldable pub update_write : Option Content → Machine → ℕ → LockInfo → Machine × Answer
update_write none m p i = (put (record m { file = some (info i) }) p master, pending)
update_write (some left) m p i = (put (record m { file = some left }) p master, pending)

-- `Release`.
unfoldable pub release : Machine → ℕ → Machine × Answer
release m p = (close_file m p, pending)

-- One step of one process.
pub data LockCall : Type 0 where
  reads acquires : System → LockCall
  truncates : Bool → LockInfo → LockCall
  updates : Bool → ℤ → LockCall
  writes : Option Content → LockCall
  goes_on releases crashes : LockCall

-- Only the calls that the process can make where it stands have an effect. The metadata that
-- `Acquire` writes is of this process.
unfoldable pub step_at : Phase → Machine → ℕ → LockCall → Machine × Answer
unfolding read_lock read_unlock acquire_lock acquire_truncate acquire_write update_truncate
    update_write release read_info_or_empty
step_at outside m p (reads sys) = read_lock sys m p
step_at outside m p (acquires sys) = acquire_lock sys m p
step_at reading m p goes_on = read_unlock m p
step_at locking m p (truncates fails i) = acquire_truncate fails m p (record i { pid = p })
step_at (writing i) m p (writes left) = acquire_write left m p i
step_at (updating i) m p (writes left) = update_write left m p i
step_at master m p (reads sys) = read_lock sys m p
step_at master m p (acquires sys) = (m, refused active (read_info_or_empty m.file))
step_at master m p (updates fails port) = update_truncate fails m p port
step_at master m p releases = release m p
step_at outside m p _ = (m, pending)
step_at ph m p crashes = (close_file m p, pending)
step_at ph m p _ = (m, pending)

unfoldable pub step : Machine → ℕ → LockCall → Machine × Answer
unfolding step_at
step m p c = step_at (m.phase p) m p c

-- The calls of all processes, one after the other.
unfoldable pub run : Machine → List (ℕ × LockCall) → Machine
run m [] = m
run m ((p, c) ∷ calls) = run (step m p c).0 calls
