-- ===== src/Sync/Named.antt =====
-- `named_lock`, and a lock object that is acquired while it holds the lock.
use shm_comm.Prelude.{
  ℕ, suc, ◌≤◌, ◌<◌, ◌≡◌, refl, ap, ◌∙◌, ◌≢◌, Option, none, some, eq→==, false, if◌then◌else◌,
}
use shm_comm.Exec.{Action, Outcome, ok, raised, running, shm_timeout_error}
use shm_comm.Exec.Spin.{World, deadline}
use shm_comm.Names.{Name, same}
use shm_comm.Core.Segments.{System}
use shm_comm.Sync.{
  FileLock, init, lock_path, set_holder, unlock_by, set_open, or_else, acquire, release, release_fd,
  enter, leave, named_lock,
}
use shm_comm.Sync.Laws.{locked, IsHeld, acquire-free, acquire-held}

-- The lock object inside the block.
abbrev pub entered : Name → Option ℕ → System → FileLock
entered name timeout s = record { path = lock_path name; timeout = timeout; fd = some s.next_fd }

-- The system after the block, which left it as `s`.
abbrev after_block : Name → ℕ → System → System
after_block name fd s =
    set_open fd false (record s { locks = set_holder s.locks (lock_path name) none })

unlock_by-held :
    (path : Name) (h : ℕ) (s : System)
    → s.locks path ≡ some h
    → unlock_by path h (s.locks path) s ≡ record s { locks = set_holder s.locks path none }
unlock_by-held path h s k = ap (λ o. unlock_by path h o s) k ∙ rw (eq→== h h refl)

leave_lem :
    {A : Type 0} (name : Name) (timeout : Option ℕ) (s s' : System) (o : Outcome A)
    → o ≢ running
    → s'.locks (lock_path name) ≡ some s.next_fd
    → leave (o, (entered name timeout s, s')) ≡ (o, after_block name s.next_fd s')
unfolding release
leave_lem name timeout s s' (ok a) ends held =
    ap (λ (v : System). (ok a, set_open s.next_fd false v))
      (unlock_by-held (lock_path name) s.next_fd s' held)
leave_lem name timeout s s' (raised e) ends held =
    ap (λ (v : System). (raised e, set_open s.next_fd false v))
      (unlock_by-held (lock_path name) s.next_fd s' held)
leave_lem name timeout s s' running ends held = absurd (ends refl)

module _ {A : Type 0} (w : World (FileLock × System)) (fuel : ℕ) (name : Name) (timeout : Option ℕ)
    (body : Action (FileLock × System) A) (s s' : System) (o : Outcome A) where
  -- If the lock of the name is free, and the block, run on a lock object that holds it, comes
  -- to a value or an exception, still holds the lock and leaves the lock object as it was, then
  -- `named_lock` comes to the same, with the objects as the block left them, the file that it
  -- opened for the lock closed, the lock of the name free, and every other lock as the block
  -- left it.
  pub named_lock_lem :
      s.locks (lock_path name) ≡ none
      → body (entered name timeout s, locked (lock_path name) s) ≡ (o, (entered name timeout s, s'))
      → o ≢ running
      → s'.locks (lock_path name) ≡ some s.next_fd
      → (s'' : System) × (named_lock w (suc fuel) name timeout body s ≡ (o, s''))
        × (s''.objects ≡ s'.objects)
        × (s''.open_fds s.next_fd ≡ false)
        × ((path : Name)
            → s''.locks path ≡ (if same (lock_path name) path then none else s'.locks path))
  unfolding named_lock init
  named_lock_lem free ran ends held = (
    after_block name s.next_fd s',
    ap (enter body) (acquire-free (init name timeout) s w fuel timeout free)
        ∙ ap leave ran
        ∙ leave_lem name timeout s s' o ends held,
    refl,
    rw (eq→== s.next_fd s.next_fd refl),
    λ path. refl,
  )

-- A lock object that is acquired once more while it holds the lock:
module _ (lock : FileLock) (s : System) (w : World (FileLock × System)) (fuel : ℕ)
    (t : Option ℕ) where
  released :
      {h : ℕ} (u : FileLock × System)
      → u.0.fd ≡ none
      → u.1.locks lock.path ≡ some h
      → (release u).1.1.locks lock.path ≡ some h
  unfolding release
  released u e k = ap (λ o. (release_fd o u.0 u.1).1.locks lock.path) e ∙ k

  -- If a lock object is acquired once more while it holds the lock by its open file h, the
  -- other processes leave that so, and the clock has passed the deadline by round k, which is
  -- within the rounds given, then the acquire raises the timeout error, and a release of the
  -- lock object after that does nothing: the file h holds the lock still.
  pub release-acquire_held :
      (h limit k : ℕ)
      → lock.fd ≡ some h
      → s.locks lock.path ≡ some h
      → h < s.next_fd
      → deadline w (or_else t lock.timeout) ≡ some limit
      → limit ≤ w.clock k
      → k < suc fuel
      → ((i : ℕ) (u : FileLock × System)
          → IsHeld lock.path s.next_fd h u
          → IsHeld lock.path s.next_fd h (w.others i u))
      → (u : FileLock × System) × (acquire w (suc fuel) t (lock, s) ≡ (raised shm_timeout_error, u))
        × ((release u).0 ≡ ok tt)
        × ((release u).1.1.locks lock.path ≡ some h)
  unfolding release
  release-acquire_held h limit k own held older at_limit late enough kept =
      let (u, e, f, shut, g) =
        acquire-held lock s w fuel t h limit k at_limit late enough held older kept in
      (u, e, refl, released u f g)
