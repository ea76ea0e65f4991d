-- ===== src/Sync.antt =====
-- sync.py: the lock between processes, over flock. An open file is named by its number; the lock of a
-- path is held by one open file at most, and flock by another one fails while it is held.
pub mod Laws
pub mod Named
use Prim.Native.Char.{code}
use shm_comm.Prelude.{
  ℕ, suc, Bool, true, false, Option, none, some, List, [], ◌∷◌, ◌++◌, ◌==◌, ◌||◌, if◌then◌else◌,
}
use shm_comm.Exec.{Action, Outcome, ok, raised, running, pure, shm_timeout_error, ◌>>=◌, ◌>>◌}
use shm_comm.Exec.Spin.{World, deadline, spin}
use shm_comm.Names.{Name, same, codes}
use shm_comm.Core.Segments.{System}

-- `name.replace("/", "_").replace("\\", "_")`
unfoldable pub safe : Name → Name
safe [] = []
safe (c ∷ cs) = (if c == b'/' || c == b'\\' then b'_' else c) ∷ safe cs

-- The lock file's name within the directory for temporary files.
unfoldable pub lock_path : Name → Name
unfolding safe
lock_path name = codes "shmcomm_" ++ safe name ++ codes ".lock"

pub record FileLock : Type 0 where
  pub path : Name
  pub timeout : Option ℕ
  pub fd : Option ℕ

-- `__init__`
unfoldable pub init : Name → Option ℕ → FileLock
init name timeout = record { path = lock_path name; timeout = timeout; fd = none }

abbrev pub set_holder : (Name → Option ℕ) → Name → Option ℕ → Name → Option ℕ
set_holder locks path h p = if same path p then h else locks p

-- Mark a file number as open or closed.
abbrev pub set_open : ℕ → Bool → System → System
set_open fd b s = record s { open_fds = λ k. if fd == k then b else s.open_fds k }

abbrev Self : Type 0 → Type 0
Self A = Action (FileLock × System) A

abbrev pub lock_by : Name → ℕ → Option ℕ → Self (Option Bool)
lock_by path fd none st =
    (ok (some true), (st.0, record st.1 { locks = set_holder st.1.locks path (some fd) }))
lock_by path fd (some h) st = (ok (if h == fd then some true else none), st)

-- One `flock(fd, LOCK_EX | LOCK_NB)`; `none` is the OSError that is passed over.
unfoldable pub try_lock : Name → ℕ → Self (Option Bool)
try_lock path fd st = lock_by path fd (st.1.locks path) st

-- Closing an open file gives its lock back, if it holds it.
abbrev pub unlock_by : Name → ℕ → Option ℕ → System → System
unlock_by path fd none s = s
unlock_by path fd (some h) s =
    if h == fd then record s { locks = set_holder s.locks path none } else s

-- `os.close(fd)`, after an unlock or without one.
abbrev pub close_fd : Name → ℕ → System → System
close_fd path fd s = set_open fd false (unlock_by path fd (s.locks path) s)

abbrev pub or_else : Option ℕ → Option ℕ → Option ℕ
or_else none d = d
or_else (some t) d = some t

-- What follows the loop: on timeout the file is closed and forgotten before the raise.
abbrev pub finish : ℕ → Bool → Self (Unit {0})
finish fd true st = (ok tt, st)
finish fd false st =
    (raised shm_timeout_error, (record st.0 { fd = none }, close_fd st.0.path fd st.1))

unfoldable pub acquire : World (FileLock × System) → ℕ → Option ℕ → Self (Unit {0})
acquire w fuel timeout (lock, s) =
    let fd = s.next_fd in
    (spin w (deadline w (or_else timeout lock.timeout)) (ok false) (try_lock lock.path fd) fuel 0
        >>= finish fd)
      (record lock { fd = some fd }, set_open fd true (record s { next_fd = suc fd }))

abbrev pub release_fd : Option ℕ → FileLock → System → FileLock × System
release_fd none lock s = (lock, s)
release_fd (some fd) lock s = (record lock { fd = none }, close_fd lock.path fd s)

unfoldable pub release : Self (Unit {0})
release (lock, s) = (ok tt, release_fd lock.fd lock s)

-- What follows the `yield`, and an exception there: `finally: lock.release()`.
abbrev pub leave : {A : Type 0} → Outcome A × (FileLock × System) → Outcome A × System
leave (ok a, st) = (ok a, (release st).1.1)
leave (raised e, st) = (raised e, (release st).1.1)
leave (running, st) = (running, st.1)

abbrev pub enter :
    {A : Type 0} → Self A → Outcome (Unit {0}) × (FileLock × System) → Outcome A × System
enter body (ok _, st) = leave (body st)
enter body (raised e, st) = (raised e, st.1)
enter body (running, st) = (running, st.1)

-- `with named_lock(name, timeout): body`
unfoldable pub named_lock :
    {A : Type 0} → World (FileLock × System) → ℕ → Name → Option ℕ → Self A → Action System A
named_lock w fuel name timeout body s = enter body (acquire w fuel timeout (init name timeout, s))
