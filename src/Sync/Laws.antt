-- ===== src/Sync/Laws.antt =====
-- What `acquire` and `release` do to the lock.
use shm_comm.Prelude.{
  ℕ, suc, ◌<◌, ◌≤◌, ◌≡◌, refl, ap, ◌∙◌, true, false, Option, none, some, arith, eq→==, ne→==, ◌==◌,
  if◌then◌else◌,
}
use shm_comm.Exec.{ok, raised, shm_timeout_error, ◌>>=◌}
use shm_comm.Exec.Spin.{World, deadline, spin-done}
use shm_comm.Exec.Waiting.{spin-never}
use shm_comm.Names.{Name, same_refl, same→eq}
use shm_comm.Core.Segments.{System}
use shm_comm.Sync.{
  FileLock, set_holder, try_lock, unlock_by, close_fd, set_open, or_else, acquire, release,
}

-- The system while a new open file holds `path`.
abbrev pub locked : Name → System → System
locked path s = record s {
  next_fd = suc s.next_fd;
  open_fds = λ k. if s.next_fd == k then true else s.open_fds k;
  locks = set_holder s.locks path (some s.next_fd);
}

-- Another open file than `fd` holds `path`, and the lock object is still the one for `path`.
abbrev pub IsHeld : Name → ℕ → ℕ → FileLock × System → Type 0
IsHeld path fd h u = (u.0.path ≡ path) × (u.1.locks path ≡ some h) × (h < fd)

try_lock-held :
    (path : Name) (fd h : ℕ) (u : FileLock × System)
    → IsHeld path fd h u
    → try_lock path fd u ≡ (ok none, u)
unfolding try_lock
try_lock-held path fd h u (p, e, lt) = rw (e, ne→== h fd (omega arith))

-- Closing a file that does not hold the lock changes nothing.
unlock_by-other :
    (path : Name) (fd h : ℕ) (s : System)
    → s.locks path ≡ some h
    → h < fd
    → unlock_by path fd (s.locks path) s ≡ s
unlock_by-other path fd h s e lt = rw (e, ne→== h fd (omega arith))

module _ (lock : FileLock) (s : System) (w : World (FileLock × System)) (fuel : ℕ)
    (t : Option ℕ) where
  -- A free lock is taken in the first round, whatever the timeout.
  pub acquire-free :
      s.locks lock.path ≡ none
      → acquire w (suc fuel) t (lock, s)
        ≡ (ok tt, (record lock { fd = some s.next_fd }, locked lock.path s))
  unfolding acquire try_lock
  acquire-free free = rw (
      spin-done w (deadline w (or_else t lock.timeout)) (ok false) (try_lock lock.path s.next_fd)
        fuel 0
        (
          record lock { fd = some s.next_fd },
          set_open s.next_fd true (record s { next_fd = suc s.next_fd }),
        )
        (record lock { fd = some s.next_fd }, locked lock.path s) true (rw free))

  held_after :
      {h : ℕ} (u : FileLock × System)
      → IsHeld lock.path s.next_fd h u
      → (unlock_by u.0.path s.next_fd (u.1.locks u.0.path) u.1).locks lock.path ≡ some h
  held_after {h} u (p, e, lt) =
      ap (λ q. (unlock_by q s.next_fd (u.1.locks q) u.1).locks lock.path) p
      ∙ ap (λ (v : System). v.locks lock.path) (unlock_by-other lock.path s.next_fd h u.1 e lt)
      ∙ e

  -- If another open file holds the lock and the other processes keep it so, and the clock has
  -- passed the deadline by round k, which is within the rounds given, then acquire raises the
  -- timeout error with its own file closed and no file kept in the lock object, and the other
  -- file still holds the lock.
  pub acquire-held :
      (h limit k : ℕ)
      → deadline w (or_else t lock.timeout) ≡ some limit
      → limit ≤ w.clock k
      → k < suc fuel
      → s.locks lock.path ≡ some h
      → h < s.next_fd
      → ((i : ℕ) (u : FileLock × System)
          → IsHeld lock.path s.next_fd h u
          → IsHeld lock.path s.next_fd h (w.others i u))
      → (u : FileLock × System) × (acquire w (suc fuel) t (lock, s) ≡ (raised shm_timeout_error, u))
        × (u.0.fd ≡ none)
        × (u.1.open_fds s.next_fd ≡ false)
        × (u.1.locks lock.path ≡ some h)
  unfolding acquire
  acquire-held h limit k at_limit late enough held older kept =
      let (u, v, e) =
        spin-never w limit (ok false) (try_lock lock.path s.next_fd) (IsHeld lock.path s.next_fd h)
          (λ u v. try_lock-held lock.path s.next_fd h u v) kept (suc fuel) 0 k
          (
            record lock { fd = some s.next_fd },
            set_open s.next_fd true (record s { next_fd = suc s.next_fd }),
          )
          (omega arith) (omega arith) late (refl, held, omega arith) in
      (
        (record u.0 { fd = none }, close_fd u.0.path s.next_fd u.1),
        rw (at_limit, e),
        refl,
        rw (eq→== s.next_fd s.next_fd refl),
        held_after u v,
      )

-- A lock that no one holds is acquired in the first round, and its release after that leaves the
-- locks of all paths, the objects and the names of the system as they were, the file that it
-- opened closed and all other files as they were, and the lock object without an open file.
pub release-acquire :
    (lock : FileLock) (s : System) (w : World (FileLock × System)) (fuel : ℕ) (t : Option ℕ)
    → s.locks lock.path ≡ none
    → (s' : System) × ((acquire w (suc fuel) t >>= λ _. release) (lock, s)
        ≡ (ok tt, (record lock { fd = none }, s')))
      × (s'.objects ≡ s.objects)
      × (s'.names ≡ s.names)
      × ((p : Name) → s'.locks p ≡ s.locks p)
      × ((k : ℕ) → s'.open_fds k ≡ (if s.next_fd == k then false else s.open_fds k))
unfolding release
release-acquire lock s w fuel t free = (
  record s {
    next_fd = suc s.next_fd;
    locks = set_holder (set_holder s.locks lock.path (some s.next_fd)) lock.path none;
    open_fds = λ k. if s.next_fd == k then false else if s.next_fd == k then true else s.open_fds k;
  },
  rw (acquire-free lock s w fuel t free, same_refl, eq→== s.next_fd s.next_fd refl),
  refl,
  refl,
  λ p. ground (arith, same→eq lock.path p),
  λ k. ground arith,
)
